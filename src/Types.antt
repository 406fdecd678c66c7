-- ===== src/Types.antt =====
-- types/status.go, types/resource.go and types/types.go: the values that all controllers share.
pub mod Heap
pub mod Copy
use cloudrun.Base.{ℤ, pos, String, Bool, true, false, Option, none, List, [], ◌&&◌, ◌||◌, not}

-- `Status` is a Go string; `unset` is its zero value "".
pub data Status : Type 0 where
  unset undo pending doing done failed unknown : Status

pub Status-discrete : Discrete Status
Status-discrete = hlevel

abbrev pub is_undo : Status → Bool
is_undo undo = true
is_undo _ = false

abbrev pub is_pending : Status → Bool
is_pending pending = true
is_pending _ = false

abbrev pub is_doing : Status → Bool
is_doing doing = true
is_doing _ = false

abbrev pub is_done : Status → Bool
is_done done = true
is_done _ = false

abbrev pub is_failed : Status → Bool
is_failed failed = true
is_failed _ = false

pub record PodWorker : Type 0 where
  pub name : String
  pub container_list : List String
  pub init_container_list : List String

pub record CommonStatus : Type 0 where
  pub status : Status
  pub message : String
  pub history_list : List String
  pub current_round : ℤ  -- int
  pub start_time : ℤ  -- int64
  pub end_time : ℤ  -- int64
  pub pod_worker : Option PodWorker

-- `&CommonStatus{}`
abbrev pub new_status : CommonStatus
new_status = record {
  status = unset;
  message = "";
  history_list = [];
  current_round = pos 0;
  start_time = pos 0;
  end_time = pos 0;
  pod_worker = none;
}

unfoldable pub has_started : CommonStatus → Bool
has_started s = not (is_undo s.status) && not (is_pending s.status)

-- `HashDone`
unfoldable pub hash_done : CommonStatus → Bool
hash_done s = is_done s.status || is_failed s.status

-- An amount of CPU and memory, each an int32.
pub record Resource : Type 0 where
  pub cpu : ℤ
  pub memory : ℤ

pub record NamespacedName : Type 0 where
  pub name : String
  pub namespace : String
