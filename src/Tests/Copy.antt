-- ===== src/Tests/Copy.antt =====
-- A copy of a status on a small heap.
use cloudrun.Base.{pos, ◌≡◌, refl, some, [], ◌∷◌, arith}
use cloudrun.Types.{doing}
use cloudrun.Types.Copy.{deep_copy_status, zero_status}
use cloudrun.Types.Copy.Apart.{deep_copy_status-apart}
use cloudrun.Types.Copy.Kept.{StatusFrom}
use cloudrun.Types.Heap.{Heap, read_status, set, set-below}

-- A status at 0, its history at 1, its worker at 2, and the worker's lists at 3 and 4.
abbrev heap : Heap
heap = record {
  array = λ a. "main" ∷ [];
  worker = λ a. record { name = "pod"; container_list = some 3; init_container_list = some 4 };
  status = λ a. record zero_status {
    status = doing;
    current_round = pos 2;
    history_list = some 1;
    pod_worker = some 2;
  };
  next = 5;
}

-- The copy, and the heap after a write to the history of the copy.
abbrev copied : Heap
copied = (deep_copy_status (some 0) heap).1

abbrev overwritten : Heap
overwritten = record copied { array = set 6 ("later" ∷ []) copied.array }

deep_copy_status-apart_example :
    ((deep_copy_status (some 0) heap).0 ≡ some 5)
    × (read_status copied (copied.status 5) ≡ read_status heap (heap.status 0))
    × StatusFrom 5 copied (copied.status 5)
    × (read_status overwritten (overwritten.status 0) ≡ read_status heap (heap.status 0))
deep_copy_status-apart_example =
    deep_copy_status-apart heap overwritten 0 (omega arith)
      (record {
        history = omega arith;
        worker = (omega arith, record { containers = omega arith; inits = omega arith });
      })
      (record {
        array = λ a l. set-below 6 a _ copied.array (omega arith);
        worker = λ a l. refl;
        status = λ a l. refl;
      })
