-- ===== src/Core/History.antt =====
-- controllers/core/history.go: the state of a round is kept as a text in the object's status.
use cloudrun.Base.{ℤ, pos, negsuc, zero, suc, Bool, true, false, String, is_empty, ◌∷◌, [], ◌++◌}
use cloudrun.Base.{if◌then◌else◌}
use cloudrun.Cluster.Outcome.{pure, lift, or_wrap, done, ◌>>=◌}
use cloudrun.Cluster.Client.{Kind, Spec, History, Cluster}
use cloudrun.Cluster.Crd.{Crd, Reconciling, common_status, set_status}

abbrev pub is_zero : ℤ → Bool
is_zero (pos zero) = true
is_zero (pos (suc _)) = false
is_zero (negsuc _) = false

module _ (K : Cluster) (k : Kind) (C : Crd k) where
  -- The empty text in round 0, when there is nothing to keep.
  unfoldable pub common_history : Spec k → Reconciling K k String
  common_history spec = do
    s ← common_status K k C
    let history : History (Spec k) = record {
      round = s.current_round;
      status = s.status;
      spec = spec;
      start_time = s.start_time;
      end_time = s.end_time;
    }
    if is_zero s.current_round
        then pure ""
        else or_wrap "marshal history" (lift (K.marshal k history))

  unfoldable pub backup_state : Spec k → Reconciling K k (Unit {0})
  backup_state spec = do
    history ← common_history spec
    if is_empty history
        then done
        else set_status K k C (λ s. record s { history_list = s.history_list ++ (history ∷ []) })
