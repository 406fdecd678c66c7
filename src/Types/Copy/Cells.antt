-- ===== src/Types/Copy/Cells.antt =====
-- What the steps of a copy (types/status.go) do to the memory.
use cloudrun.Base.{ℕ, ◌≤◌, ◌<◌, ◌≡◌, refl, ap, ◌∙◌, Option, none, some, arith}
use cloudrun.Types.Heap.{Heap, StatusCell, WorkerCell, read_list, set-below, set-same}
use cloudrun.Types.Copy.{
  put_status, put_worker, copy_slice, put_container_list, put_history_list, put_init_container_list,
}

-- A pointer is nil or below an address; nil or from an address on.
abbrev pub Below : ℕ → Option ℕ → Type 0
Below n none = Unit {0}
Below n (some a) = a < n

abbrev pub From : ℕ → Option ℕ → Type 0
From n none = Unit {0}
From n (some a) = n ≤ a

pub Below-mono : (n m : ℕ) (p : Option ℕ) → n ≤ m → Below n p → Below m p
Below-mono n m none l b = tt
Below-mono n m (some a) l b = omega arith

-- From `h` to `g`: the arrays of `h` are there still, and all cells below `n`.
pub record Grows (n : ℕ) (h g : Heap) : Type 0 where
  pub next : h.next ≤ g.next
  pub array : (a : ℕ) → a < h.next → g.array a ≡ h.array a
  pub worker : (a : ℕ) → a < n → g.worker a ≡ h.worker a
  pub status : (a : ℕ) → a < n → g.status a ≡ h.status a

pub Grows-trans : (n : ℕ) (h g k : Heap) → Grows n h g → Grows n g k → Grows n h k
Grows-trans n h g k r q =
    let low = r.next in
    let low' = q.next in
    record {
      next = omega arith;
      array = λ a l. q.array a (omega (arith, r.next)) ∙ r.array a l;
      worker = λ a l. q.worker a l ∙ r.worker a l;
      status = λ a l. q.status a l ∙ r.status a l;
    }

-- A new slice with the text of the old one.
pub record Sliced (n : ℕ) (h g : Heap) (p q : Option ℕ) : Type 0 where
  pub from : From n q
  pub below : Below g.next q
  pub same : read_list g q ≡ read_list h p

pub read_list-Grows :
    (n : ℕ) (h g : Heap) (p : Option ℕ)
    → Grows n h g
    → Below h.next p
    → read_list g p ≡ read_list h p
read_list-Grows n h g none r b = refl
read_list-Grows n h g (some a) r b = r.array a b

module _ (n : ℕ) (h : Heap) (low : n ≤ h.next) where
  copy_slice-Sliced :
      (p : Option ℕ)
      → let (q, g) = copy_slice p h in
        Sliced n h g p q × Grows n h g × (g.worker ≡ h.worker) × (g.status ≡ h.status)
  unfolding copy_slice
  copy_slice-Sliced none = (
    record { from = tt; below = tt; same = refl },
    record { next = omega arith; array = λ a l. refl; worker = λ a l. refl; status = λ a l. refl },
    refl,
    refl,
  )
  copy_slice-Sliced (some a) = (
    record { from = low; below = omega arith; same = set-same h.next (h.array a) h.array },
    record {
      next = omega arith;
      array = λ b l. set-below h.next b _ h.array l;
      worker = λ b l. refl;
      status = λ b l. refl;
    },
    refl,
    refl,
  )

module _ (n out : ℕ) (h : Heap) (low : n ≤ out) where
  pub put_worker-Grows : (w : WorkerCell) → Grows n h (put_worker out w h)
  put_worker-Grows w = record {
    next = omega arith;
    array = λ a l. refl;
    worker = λ a l. set-below out a w h.worker (omega arith);
    status = λ a l. refl;
  }

  pub put_status-Grows : (s : StatusCell) → Grows n h (put_status out s h)
  put_status-Grows s = record {
    next = omega arith;
    array = λ a l. refl;
    worker = λ a l. refl;
    status = λ a l. set-below out a s h.status (omega arith);
  }

module _ (n out : ℕ) (h : Heap) (low : n ≤ out) (low' : n ≤ h.next) (p : Option ℕ) where
  pub put_container_list-Sliced :
      let (q, g) = copy_slice p h in
      let k = put_container_list out (q, g) in
      (k.worker out ≡ record (h.worker out) { container_list = q }) × Sliced n h k p q × Grows n h k
  unfolding put_container_list
  put_container_list-Sliced =
      let (cut, grows, same, _) = copy_slice-Sliced n h low' p in
      let g = (copy_slice p h).1 in
      (
        set-same out _ g.worker
            ∙ ap (λ f. record (f out) { container_list = (copy_slice p h).0 }) same,
        record { from = cut.from; below = cut.below; same = cut.same },
        Grows-trans n h g _ grows (put_worker-Grows n out g low _),
      )

  pub put_init_container_list-Sliced :
      let (q, g) = copy_slice p h in
      let k = put_init_container_list out (q, g) in
      (k.worker out ≡ record (h.worker out) { init_container_list = q })
      × Sliced n h k p q
      × Grows n h k
  unfolding put_init_container_list
  put_init_container_list-Sliced =
      let (cut, grows, same, _) = copy_slice-Sliced n h low' p in
      let g = (copy_slice p h).1 in
      (
        set-same out _ g.worker
            ∙ ap (λ f. record (f out) { init_container_list = (copy_slice p h).0 }) same,
        record { from = cut.from; below = cut.below; same = cut.same },
        Grows-trans n h g _ grows (put_worker-Grows n out g low _),
      )

  pub put_history_list-Sliced :
      let (q, g) = copy_slice p h in
      let k = put_history_list out (q, g) in
      (k.status out ≡ record (h.status out) { history_list = q }) × Sliced n h k p q × Grows n h k
  unfolding put_history_list
  put_history_list-Sliced =
      let (cut, grows, _, same) = copy_slice-Sliced n h low' p in
      let g = (copy_slice p h).1 in
      (
        set-same out _ g.status
            ∙ ap (λ f. record (f out) { history_list = (copy_slice p h).0 }) same,
        record { from = cut.from; below = cut.below; same = cut.same },
        Grows-trans n h g _ grows (put_status-Grows n out g low _),
      )
