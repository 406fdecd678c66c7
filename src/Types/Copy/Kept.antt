-- ===== src/Types/Copy/Kept.antt =====
-- Memory in which the cells below an address are as they were, and what is read there (types/status.go).
use cloudrun.Base.{ℕ, ◌≤◌, ◌<◌, ◌≡◌, refl, Option, none, some, arith}
use cloudrun.Types.Heap.{Heap, StatusCell, read_list, read_pointer, read_status}
use cloudrun.Types.Copy.Cells.{Below, Below-mono, From}
use cloudrun.Types.Copy.Worker.{PointerBelow, PointerFrom}

-- The pointers of a status that lies below an address; those of one from an address on.
pub record StatusBelow (n : ℕ) (h : Heap) (s : StatusCell) : Type 0 where
  pub history : Below n s.history_list
  pub worker : PointerBelow n h s.pod_worker

pub record StatusFrom (n : ℕ) (h : Heap) (s : StatusCell) : Type 0 where
  pub history : From n s.history_list
  pub worker : PointerFrom n h s.pod_worker

-- All cells below `n` are as they were.
pub record Kept (n : ℕ) (h k : Heap) : Type 0 where
  pub array : (a : ℕ) → a < n → k.array a ≡ h.array a
  pub worker : (a : ℕ) → a < n → k.worker a ≡ h.worker a
  pub status : (a : ℕ) → a < n → k.status a ≡ h.status a

read_list-Kept :
    (n : ℕ) (h k : Heap) (p : Option ℕ) → Kept n h k → Below n p → read_list k p ≡ read_list h p
read_list-Kept n h k none r b = refl
read_list-Kept n h k (some a) r b = r.array a b

pub read_pointer-Kept :
    (n : ℕ) (h k : Heap) (p : Option ℕ)
    → Kept n h k
    → PointerBelow n h p
    → read_pointer k p ≡ read_pointer h p
read_pointer-Kept n h k none r b = refl
read_pointer-Kept n h k (some a) r (old, below) =
    rw
      (
        r.worker a old,
        read_list-Kept n h k (h.worker a).container_list r below.containers,
        read_list-Kept n h k (h.worker a).init_container_list r below.inits,
      )
      refl

-- A status below `n` reads the same where the cells below `n` are the same.
pub read_status-Kept :
    (n : ℕ) (h k : Heap) (a : ℕ)
    → a < n
    → StatusBelow n h (h.status a)
    → Kept n h k
    → read_status k (k.status a) ≡ read_status h (h.status a)
read_status-Kept n h k a old below r =
    rw
      (
        r.status a old,
        read_list-Kept n h k (h.status a).history_list r below.history,
        read_pointer-Kept n h k (h.status a).pod_worker r below.worker,
      )
      refl

From-mono : (n m : ℕ) (p : Option ℕ) → n ≤ m → From m p → From n p
From-mono n m none l b = tt
From-mono n m (some a) l b = omega arith

pub PointerFrom-mono :
    (n m : ℕ) (g : Heap) (p : Option ℕ) → n ≤ m → PointerFrom m g p → PointerFrom n g p
PointerFrom-mono n m g none l b = tt
PointerFrom-mono n m g (some a) l (from, b) = (
  omega arith,
  record {
    containers = From-mono n m (g.worker a).container_list l b.containers;
    inits = From-mono n m (g.worker a).init_container_list l b.inits;
  },
)

pub PointerBelow-mono :
    (n m : ℕ) (g : Heap) (p : Option ℕ) → n ≤ m → PointerBelow n g p → PointerBelow m g p
PointerBelow-mono n m g none l b = tt
PointerBelow-mono n m g (some a) l (old, b) = (
  omega arith,
  record {
    containers = Below-mono n m (g.worker a).container_list l b.containers;
    inits = Below-mono n m (g.worker a).init_container_list l b.inits;
  },
)

-- The pointers below `n` and what they point to are there still.
pub PointerBelow-Kept :
    (n : ℕ) (h k : Heap) (p : Option ℕ) → Kept n h k → PointerBelow n h p → PointerBelow n k p
PointerBelow-Kept n h k none r b = tt
PointerBelow-Kept n h k (some a) r (old, b) = (old, rw (r.worker a old) b)
