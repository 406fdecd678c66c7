-- ===== src/Types/Copy/Apart.antt =====
-- A copy of a status shares no memory with it (types/status.go).
use cloudrun.Base.{ℕ, ◌+◌, ◌≤◌, ◌<◌, ◌≡◌, refl, ap, ◌∙◌, Option, some, arith}
use cloudrun.Types.Heap.{
  Heap, StatusCell, read_list, read_pointer, read_status, list_at, pointer_at, set-below, set-same,
}
use cloudrun.Types.Copy.{
  put_status, zero_status, copy_slice, deep_copy_status, deep_copy_status_into, deep_copy_worker,
  put_history_list, put_pod_worker,
}
use cloudrun.Types.Copy.Cells.{Below, From, put_history_list-Sliced, read_list-Grows}
use cloudrun.Types.Copy.Worker.{PointerBelow, deep_copy_worker-PointerFrom}
use cloudrun.Types.Copy.Kept.{
  Kept, StatusBelow, StatusFrom, PointerFrom-mono, PointerBelow-mono, PointerBelow-Kept,
  read_pointer-Kept, read_status-Kept,
}

-- The state behind `put_history_list`, from which the worker is copied.
record Half (n : ℕ) (h k : Heap) (s : StatusCell) (q : Option ℕ) : Type 0 where
  next : n < k.next
  cell : k.status n ≡ record s { history_list = q }
  from : From n q
  below : Below k.next q
  same : read_list k q ≡ read_list h s.history_list
  kept : Kept n h k

record Whole (n : ℕ) (h g : Heap) (s : StatusCell) : Type 0 where
  from : StatusFrom n g (g.status n)
  same : read_status g (g.status n) ≡ read_status h s
  kept : Kept n h g

put_pod_worker-Whole :
    (n : ℕ) (h k : Heap) (s : StatusCell) (q p : Option ℕ)
    → Half n h k s q
    → p ≡ s.pod_worker
    → PointerBelow n h s.pod_worker
    → Whole n h (put_pod_worker n (deep_copy_worker p k)) s
unfolding put_pod_worker
put_pod_worker-Whole n h k s q p half same below =
    let low = half.next in
    let there : PointerBelow k.next k p =
      PointerBelow-mono n k.next k p (omega arith)
        (rw same (PointerBelow-Kept n h k s.pod_worker half.kept below)) in
    let (from, reads, grows) = deep_copy_worker-PointerFrom k p there in
    let (r, g) = deep_copy_worker p k in
    let cell : (put_pod_worker n (r, g)).status n ≡ record s { history_list = q; pod_worker = r } =
      set-same n _ g.status
      ∙ ap {A = StatusCell} (λ c. record c { pod_worker = r }) (grows.status n low ∙ half.cell) in
    let kept = half.kept in
    let lists : list_at g.array q ≡ list_at h.array s.history_list =
      read_list-Grows k.next k g q grows half.below ∙ half.same in
    let workers : pointer_at g.array g.worker r ≡ pointer_at h.array h.worker s.pod_worker =
      reads ∙ ap (λ x. read_pointer k x) same ∙ read_pointer-Kept n h k s.pod_worker kept below in
    record {
      from = rw cell (record {
        history = half.from;
        worker = PointerFrom-mono n k.next g r (omega arith) from;
      });
      same = rw (cell, lists, workers) refl;
      kept = record {
        array = λ a b. grows.array a (omega arith) ∙ kept.array a b;
        worker = λ a b. grows.worker a (omega arith) ∙ kept.worker a b;
        status = λ a b. set-below n a _ g.status b ∙ grows.status a (omega arith) ∙ kept.status a b;
      };
    }

deep_copy_status_into-Whole :
    (h : Heap) (a : ℕ)
    → a < h.next
    → StatusBelow h.next h (h.status a)
    → Whole h.next h (deep_copy_status (some a) h).1 (h.status a)
unfolding deep_copy_status deep_copy_status_into
deep_copy_status_into-Whole h a old below =
    let n = h.next in
    let new = record (put_status n zero_status h) { next = n + 1 } in
    let h1 = put_status n (new.status a) new in
    let p = (h1.status a).history_list in
    let q = (copy_slice p h1).0 in
    let k = put_history_list n (copy_slice p h1) in
    let kept1 : h1.status a ≡ h.status a =
      set-below n a (new.status a) new.status old ∙ set-below n a zero_status h.status old in
    let copied : h1.status n ≡ h.status a =
      set-same n (new.status a) new.status ∙ set-below n a zero_status h.status old in
    let (cell, cut, grows) = put_history_list-Sliced n n h1 (omega arith) (omega arith) p in
    let next : h1.next ≤ k.next = grows.next in
    let kept : Kept n h k = record {
      array = λ b l. grows.array b (omega arith);
      worker = λ b l. grows.worker b l;
      status = λ b l.
          grows.status b l
          ∙ set-below n b (new.status a) new.status l
          ∙ set-below n b zero_status h.status l;
    } in
    put_pod_worker-Whole n h k (h.status a) q (k.status a).pod_worker
      (record {
        next = omega arith;
        cell = cell ∙ ap {A = StatusCell} (λ c. record c { history_list = q }) copied;
        from = cut.from;
        below = cut.below;
        same = cut.same ∙ ap (λ c. list_at h.array c.history_list) kept1;
        kept = kept;
      })
      (ap (λ c. c.pod_worker) (kept.status a old)) below.worker

-- The copy of a status that lies with all it points to in the memory before the call: it is a new
-- cell, reads as the status did, and points to new memory only; and whatever is written later to
-- cells that are not of the memory before the call, the status still reads as it did.
pub deep_copy_status-apart :
    (h k : Heap) (a : ℕ)
    → a < h.next
    → StatusBelow h.next h (h.status a)
    → Kept h.next (deep_copy_status (some a) h).1 k
    → let (p, g) = deep_copy_status (some a) h in
      (p ≡ some h.next)
      × (read_status g (g.status h.next) ≡ read_status h (h.status a))
      × StatusFrom h.next g (g.status h.next)
      × (read_status k (k.status a) ≡ read_status h (h.status a))
unfolding deep_copy_status
deep_copy_status-apart h k a old below later =
    let w = deep_copy_status_into-Whole h a old below in
    let first = w.kept in
    (
      refl,
      w.same,
      w.from,
      read_status-Kept h.next h k a old below (record {
        array = λ b l. later.array b l ∙ first.array b l;
        worker = λ b l. later.worker b l ∙ first.worker b l;
        status = λ b l. later.status b l ∙ first.status b l;
      }),
    )
