-- ===== src/Types/Copy.antt =====
-- The copies of types/status.go, types/types.go and types/resource.go, on a heap.
pub mod Cells
pub mod Worker
pub mod Kept
pub mod Apart
use cloudrun.Base.{ℕ, ◌+◌, pos, Option, none, some}
use cloudrun.Types.{NamespacedName, Resource, unset}
use cloudrun.Types.Heap.{Heap, StatusCell, WorkerCell, set}

-- `if in.X != nil { *out = make([]string, len(*in)); copy(*out, *in) }`
unfoldable pub copy_slice : Option ℕ → Heap → Option ℕ × Heap
copy_slice none h = (none, h)
copy_slice (some a) h =
    (some h.next, record h { array = set h.next (h.array a) h.array; next = h.next + 1 })

abbrev pub put_worker : ℕ → WorkerCell → Heap → Heap
put_worker a w h = record h { worker = set a w h.worker }

abbrev pub put_status : ℕ → StatusCell → Heap → Heap
put_status a s h = record h { status = set a s h.status }

abbrev pub zero_worker : WorkerCell
zero_worker = record { name = ""; container_list = none; init_container_list = none }

abbrev pub zero_status : StatusCell
zero_status = record {
  status = unset;
  message = "";
  history_list = none;
  current_round = pos 0;
  start_time = pos 0;
  end_time = pos 0;
  pod_worker = none;
}

-- The fields of `out` that a copy replaces.
unfoldable pub put_container_list : ℕ → Option ℕ × Heap → Heap
put_container_list out (l, h) = put_worker out (record (h.worker out) { container_list = l }) h

unfoldable pub put_init_container_list : ℕ → Option ℕ × Heap → Heap
put_init_container_list out (l, h) =
    put_worker out (record (h.worker out) { init_container_list = l }) h

unfoldable pub put_history_list : ℕ → Option ℕ × Heap → Heap
put_history_list out (l, h) = put_status out (record (h.status out) { history_list = l }) h

unfoldable pub put_pod_worker : ℕ → Option ℕ × Heap → Heap
put_pod_worker out (p, h) = put_status out (record (h.status out) { pod_worker = p }) h

-- `(*PodWorker).DeepCopyInto` and `DeepCopy`
unfoldable pub deep_copy_worker_into : ℕ → ℕ → Heap → Heap
deep_copy_worker_into in_ out h =
    let h1 = put_worker out (h.worker in_) h in
    let h2 = put_container_list out (copy_slice (h1.worker in_).container_list h1) in
    put_init_container_list out (copy_slice (h2.worker in_).init_container_list h2)

unfoldable pub deep_copy_worker : Option ℕ → Heap → Option ℕ × Heap
deep_copy_worker none h = (none, h)
deep_copy_worker (some in_) h =
    let new = record (put_worker h.next zero_worker h) { next = h.next + 1 } in
    (some h.next, deep_copy_worker_into in_ h.next new)

-- `(*CommonStatus).DeepCopyInto` and `DeepCopy`; `*out = new(PodWorker); (*in).DeepCopyInto(*out)`
-- behind its test for nil is the copy of the worker.
unfoldable pub deep_copy_status_into : ℕ → ℕ → Heap → Heap
deep_copy_status_into in_ out h =
    let h1 = put_status out (h.status in_) h in
    let h2 = put_history_list out (copy_slice (h1.status in_).history_list h1) in
    put_pod_worker out (deep_copy_worker (h2.status in_).pod_worker h2)

unfoldable pub deep_copy_status : Option ℕ → Heap → Option ℕ × Heap
deep_copy_status none h = (none, h)
deep_copy_status (some in_) h =
    let new = record (put_status h.next zero_status h) { next = h.next + 1 } in
    (some h.next, deep_copy_status_into in_ h.next new)

-- The values without pointers are copied as a whole.
abbrev pub deep_copy_name : Option NamespacedName → Option NamespacedName
deep_copy_name none = none
deep_copy_name (some n) = some (record { name = n.name; namespace = n.namespace })

abbrev pub deep_copy_resource : Option Resource → Option Resource
deep_copy_resource none = none
deep_copy_resource (some r) = some (record { cpu = r.cpu; memory = r.memory })
