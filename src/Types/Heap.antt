-- ===== src/Types/Heap.antt =====
-- The memory that a status points into (types/status.go). A slice is nil or the whole of an array,
-- and an address is a number; all from `next` on are free.
use cloudrun.Base.{
  ℕ, zero, suc, ◌<◌, ℤ, ◌≡◌, refl, String, Bool, true, false, Option, none, some, List, [], arith,
  if◌then◌else◌,
}
use cloudrun.Types.{CommonStatus, PodWorker, Status}

-- `PodWorker` as it lies in memory
pub record WorkerCell : Type 0 where
  pub name : String
  pub container_list : Option ℕ
  pub init_container_list : Option ℕ

-- `CommonStatus` as it lies in memory
pub record StatusCell : Type 0 where
  pub status : Status
  pub message : String
  pub history_list : Option ℕ
  pub current_round : ℤ
  pub start_time : ℤ
  pub end_time : ℤ
  pub pod_worker : Option ℕ

pub record Heap : Type 0 where
  pub array : ℕ → List String
  pub worker : ℕ → WorkerCell
  pub status : ℕ → StatusCell
  pub next : ℕ

abbrev same_address : ℕ → ℕ → Bool
same_address zero zero = true
same_address zero (suc b) = false
same_address (suc a) zero = false
same_address (suc a) (suc b) = same_address a b

same_address_refl : (a : ℕ) → same_address a a ≡ true
same_address_refl zero = refl
same_address_refl (suc a) = same_address_refl a

same_address_lt : (a b : ℕ) → b < a → same_address a b ≡ false
same_address_lt zero b h = absurd (omega arith)
same_address_lt (suc a) zero h = refl
same_address_lt (suc a) (suc b) h = same_address_lt a b (omega arith)

module _ {A : Type 0} where
  -- The memory with one cell written.
  unfoldable pub set : ℕ → A → (ℕ → A) → ℕ → A
  set a x f b = if same_address a b then x else f b

  pub set-same : (a : ℕ) (x : A) (f : ℕ → A) → set a x f a ≡ x
  unfolding set
  set-same a x f = rw (same_address_refl a) refl

  pub set-below : (a b : ℕ) (x : A) (f : ℕ → A) → b < a → set a x f b ≡ f b
  unfolding set
  set-below a b x f h = rw (same_address_lt a b h) refl

-- What a cell stands for. A nil slice reads as an empty one.
abbrev pub list_at : (ℕ → List String) → Option ℕ → List String
list_at array none = []
list_at array (some a) = array a

abbrev pub worker_at : (ℕ → List String) → WorkerCell → PodWorker
worker_at array w = record {
  name = w.name;
  container_list = list_at array w.container_list;
  init_container_list = list_at array w.init_container_list;
}

abbrev pub pointer_at : (ℕ → List String) → (ℕ → WorkerCell) → Option ℕ → Option PodWorker
pointer_at array worker none = none
pointer_at array worker (some a) = some (worker_at array (worker a))

abbrev pub read_list : Heap → Option ℕ → List String
read_list h = list_at h.array

abbrev pub read_worker : Heap → WorkerCell → PodWorker
read_worker h = worker_at h.array

abbrev pub read_pointer : Heap → Option ℕ → Option PodWorker
read_pointer h = pointer_at h.array h.worker

abbrev pub read_status : Heap → StatusCell → CommonStatus
read_status h s = record {
  status = s.status;
  message = s.message;
  history_list = read_list h s.history_list;
  current_round = s.current_round;
  start_time = s.start_time;
  end_time = s.end_time;
  pod_worker = read_pointer h s.pod_worker;
}
