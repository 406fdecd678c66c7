-- ===== src/Types/Copy/Worker.antt =====
-- A copy of a worker (types/status.go).
use cloudrun.Base.{ℕ, ◌+◌, ◌≤◌, ◌<◌, ◌≡◌, refl, ap, ◌∙◌, Option, none, some, arith}
use cloudrun.Types.Heap.{
  Heap, WorkerCell, read_list, read_pointer, read_worker, set-below, set-same,
}
use cloudrun.Types.Copy.{
  put_worker, zero_worker, copy_slice, deep_copy_worker, deep_copy_worker_into, put_container_list,
  put_init_container_list,
}
use cloudrun.Types.Copy.Cells.{
  Below, Below-mono, From, Grows, Grows-trans, put_container_list-Sliced,
  put_init_container_list-Sliced, put_worker-Grows, read_list-Grows,
}

-- The two slices of a worker are below an address, or from one on.
pub record WorkerBelow (n : ℕ) (w : WorkerCell) : Type 0 where
  pub containers : Below n w.container_list
  pub inits : Below n w.init_container_list

pub record WorkerFrom (n : ℕ) (w : WorkerCell) : Type 0 where
  pub containers : From n w.container_list
  pub inits : From n w.init_container_list

-- A worker on its own memory from `n` on, with the text of another.
pub record Worker (n : ℕ) (h g : Heap) (a b : ℕ) : Type 0 where
  pub from : n ≤ b
  pub apart : WorkerFrom n (g.worker b)
  pub same : read_worker g (g.worker b) ≡ read_worker h (h.worker a)

Worker-of :
    (n : ℕ) (h g : Heap) (a b : ℕ) (q q' : Option ℕ)
    → n ≤ b
    → g.worker b ≡ record { name = (h.worker a).name; container_list = q; init_container_list = q' }
    → From n q
    → From n q'
    → read_list g q ≡ read_list h (h.worker a).container_list
    → read_list g q' ≡ read_list h (h.worker a).init_container_list
    → Worker n h g a b
Worker-of n h g a b q q' low cell from from' same same' = record {
  from = low;
  apart = rw cell (record { containers = from; inits = from' });
  same = rw (cell, same, same') refl;
}

deep_copy_worker_into-Worker :
    (n out : ℕ) (h : Heap) (a : ℕ)
    → a < n
    → n ≤ out
    → n ≤ h.next
    → WorkerBelow n (h.worker a)
    → let g = deep_copy_worker_into a out h in Worker n h g a out × Grows n h g
unfolding deep_copy_worker_into
deep_copy_worker_into-Worker n out h a old low low' below =
    let h1 = put_worker out (h.worker a) h in
    let h2 = put_container_list out (copy_slice (h1.worker a).container_list h1) in
    let g = put_init_container_list out (copy_slice (h2.worker a).init_container_list h2) in
    let grows1 : Grows n h h1 = put_worker-Grows n out h low (h.worker a) in
    let (is2, cut2, grows2) =
      put_container_list-Sliced n out h1 low low' (h1.worker a).container_list in
    let next2 : h1.next ≤ h2.next = grows2.next in
    let (is, cut, grows) =
      put_init_container_list-Sliced n out h2 low (omega arith) (h2.worker a).init_container_list in
    let q2 = (copy_slice (h1.worker a).container_list h1).0 in
    let q = (copy_slice (h2.worker a).init_container_list h2).0 in
    let cell : g.worker out
        ≡ record { name = (h.worker a).name; container_list = q2; init_container_list = q } =
      is
      ∙ ap {A = WorkerCell} (λ w. record w { init_container_list = q })
          (is2
            ∙ ap {A = WorkerCell} (λ w. record w { container_list = q2 })
                (set-same out (h.worker a) h.worker)) in
    let kept1 : h1.worker a ≡ h.worker a = grows1.worker a old in
    let kept2 : h2.worker a ≡ h.worker a = grows2.worker a old ∙ kept1 in
    (
      Worker-of n h g a out q2 q low cell cut2.from cut.from
          (read_list-Grows n h2 g q2 grows cut2.below
            ∙ cut2.same
            ∙ ap (λ w. read_list h w.container_list) kept1)
          (cut.same
            ∙ ap (λ w. read_list h2 w.init_container_list) kept2
            ∙ read_list-Grows n h h2 (h.worker a).init_container_list
                (Grows-trans n h h1 h2 grows1 grows2)
                (Below-mono n h.next (h.worker a).init_container_list low' below.inits)),
      Grows-trans n h h2 g (Grows-trans n h h1 h2 grows1 grows2) grows,
    )

-- A worker that is not there, or lies below an address with its slices; one from an address on.
abbrev pub PointerBelow : ℕ → Heap → Option ℕ → Type 0
PointerBelow n h none = Unit {0}
PointerBelow n h (some a) = (a < n) × WorkerBelow n (h.worker a)

abbrev pub CellFrom : ℕ → (ℕ → WorkerCell) → Option ℕ → Type 0
CellFrom n worker none = Unit {0}
CellFrom n worker (some a) = (n ≤ a) × WorkerFrom n (worker a)

abbrev pub PointerFrom : ℕ → Heap → Option ℕ → Type 0
PointerFrom n h = CellFrom n h.worker

pub deep_copy_worker-PointerFrom :
    (h : Heap) (p : Option ℕ)
    → PointerBelow h.next h p
    → let (q, g) = deep_copy_worker p h in
      PointerFrom h.next g q × (read_pointer g q ≡ read_pointer h p) × Grows h.next h g
unfolding deep_copy_worker
deep_copy_worker-PointerFrom h none below = (
  tt,
  refl,
  record { next = omega arith; array = λ a l. refl; worker = λ a l. refl; status = λ a l. refl },
)
deep_copy_worker-PointerFrom h (some a) (old, below) =
    let n = h.next in
    let new = record (put_worker n zero_worker h) { next = n + 1 } in
    let kept : new.worker a ≡ h.worker a = set-below n a zero_worker h.worker old in
    let grows : Grows n h new = record {
      next = omega arith;
      array = λ b l. refl;
      worker = λ b l. set-below n b zero_worker h.worker l;
      status = λ b l. refl;
    } in
    let (w, grows') =
      deep_copy_worker_into-Worker n n new a old (omega arith) (omega arith) (rw kept below) in
    (
      (w.from, w.apart),
      ap some (w.same ∙ ap (λ c. read_worker h c) kept),
      Grows-trans n h new (deep_copy_worker_into a n new) grows grows',
    )
