-- ===== src/Core/Begin.antt =====
-- The last steps of the reconcilers where a new round begins: the status is set and written.
use cloudrun.Base.{ℤ, ◌≡◌, ap, ◌∙◌}
use cloudrun.Types.{CommonStatus}
use cloudrun.Cluster.Outcome.{pure, ◌>>=◌, ◌>>◌}
use cloudrun.Cluster.Client.{Cluster, KeepsStatus, Kind, Obj}
use cloudrun.Cluster.Crd.{Crd, Reconciling, Run, sample, set_status, update_self_status}
use cloudrun.Cluster.CrdLaws.{IsPointer, base_of-set_status}
use cloudrun.Cluster.Keeps.{Keeps, bind-Keeps, pure-Keeps, round_of, update_self_status-Keeps}

module _ (K : Cluster) (k : Kind) (C : Crd k) where
  abbrev pub begin_with : {A : Type 0} → (ℤ → CommonStatus → CommonStatus) → A → Reconciling K k A
  begin_with start a = do
    now ← sample K.now
    set_status K k C (start now)
    update_self_status K k
    pure a

  -- They leave the round that the new status has.
  pub begin_with-round :
      {A : Type 0} (P : IsPointer C) (F : KeepsStatus K) (start : ℤ → CommonStatus → CommonStatus)
      (a : A) (round : ℤ)
      → ((now : ℤ) (b : CommonStatus) → (start now b).current_round ≡ round)
      → (t : Run K.World (Obj k)) → round_of K k C (begin_with start a t).1 ≡ round
  unfolding Keeps
  begin_with-round P F start a round starts t =
      let (now, w) = K.now t.world in
      let u : Run K.World (Obj k) = record t { world = w } in
      let v = (set_status K k C (start now) u).1 in
      bind-Keeps K k C (update_self_status K k) (λ _. pure a) (update_self_status-Keeps K k C F)
        (λ _. pure-Keeps K k C a) v
      ∙ ap (λ b. b.current_round) (base_of-set_status K k C P (start now) u)
      ∙ starts now _
