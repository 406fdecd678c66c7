-- ===== src/Core/Status.antt =====
-- controllers/core/status.go and utils.go: a status is written to the server, and an error that
-- comes back from the server is logged and dropped. Logging is left out.
use cloudrun.Base.{Bool, ◌||◌, Option, none, some}
use cloudrun.Types.{CommonStatus, is_done, is_failed, failed}
use cloudrun.Cluster.Outcome.{Error, attempt, done, pure, ◌>>=◌, ◌>>◌}
use cloudrun.Cluster.Client.{Kind, Cluster}
use cloudrun.Cluster.Crd.{Crd, Reconciling, common_status, set_status, update_self_status}

-- The object with a failure noted.
abbrev pub note_error : Option Error → CommonStatus → CommonStatus
note_error none s = s
note_error (some e) s = record s { status = failed; message = e.message }

module _ (K : Cluster) (k : Kind) (C : Crd k) where
  unfoldable pub publish_status : Option Error → Reconciling K k (Unit {0})
  publish_status e = do set_status K k C (note_error e); attempt (update_self_status K k); done

  -- `core.IsDoneOrFailed`
  unfoldable pub is_done_or_failed : Reconciling K k Bool
  is_done_or_failed = do s ← common_status K k C; pure (is_done s.status || is_failed s.status)
