-- ===== src/Cluster/Crd.antt =====
-- types/crd.go: what a custom resource of the controllers offers, the state of a reconciliation,
-- and the calls of the client as actions on it.
use cloudrun.Base.{ℤ, some}
use cloudrun.Types.{CommonStatus}
use cloudrun.Api.Builder
use cloudrun.Api.Deployer
use cloudrun.Api.Workflow
use cloudrun.Cluster.Outcome.{Outcome, ok, Action, modify, ◌>>=◌}
use cloudrun.Cluster.Client.{Kind, builder, deployer, workflow, Spec, State, Obj, Cluster}

-- `CloudRunCRD`: `CommonStatus` returns a pointer into the object, so it is a read, which makes the
-- status where there is none, and a write.
pub record Crd (k : Kind) : Type 0 where
  pub common_status : State k → State k × CommonStatus
  pub set_base : CommonStatus → State k → State k
  pub get_round : Spec k → ℤ

abbrev pub builder_crd : Crd builder
builder_crd = record {
  common_status = Builder.common_status;
  set_base = λ b s. record s { base = some b };
  get_round = Builder.get_round;
}

abbrev pub deployer_crd : Crd deployer
deployer_crd = record {
  common_status = Deployer.common_status;
  set_base = λ b s. record s { base = some b };
  get_round = Deployer.get_round;
}

abbrev pub workflow_crd : Crd workflow
workflow_crd = record {
  common_status = Workflow.common_status;
  set_base = λ b s. record s { base = some b };
  get_round = Workflow.get_round;
}

-- The cluster, and the object under reconciliation, to which all parts of the code hold a pointer.
pub record Run (W : Type 0) (M : Type 0) : Type 0 where
  pub world : W
  pub self : M

-- A call that reads or changes the world only.
abbrev pub on_world : {W M A : Type 0} → (W → Outcome A × W) → Action (Run W M) A
on_world f s = let (r, w) = f s.world in (r, record s { world = w })

-- One that cannot fail.
abbrev pub sample : {W M A : Type 0} → (W → A × W) → Action (Run W M) A
sample f s = let (a, w) = f s.world in (ok a, record s { world = w })

abbrev pub set_self : {W M : Type 0} → M → Action (Run W M) (Unit {0})
set_self m = modify λ s. record s { self = m }

module _ (K : Cluster) (k : Kind) where
  abbrev pub Reconciling : Type 0 → Type 0
  Reconciling A = Action (Run K.World (Obj k)) A

  -- `Update(ctx, obj)` and `Status().Update(ctx, obj)` of the object under reconciliation.
  abbrev pub update_self : Reconciling (Unit {0})
  update_self = do o ← (λ s. on_world (K.update k s.self) s); set_self o

  abbrev pub update_self_status : Reconciling (Unit {0})
  update_self_status = do o ← (λ s. on_world (K.update_status k s.self) s); set_self o

  module _ (C : Crd k) where
    -- `obj.CommonStatus()`
    abbrev pub common_status : Reconciling CommonStatus
    common_status s =
        let (status, base) = C.common_status s.self.status in
        (ok base, record s { self = record s.self { status = status } })

    -- `obj.CommonStatus().X = v`
    abbrev pub set_status : (CommonStatus → CommonStatus) → Reconciling (Unit {0})
    set_status f = do
      base ← common_status
      modify λ s. record s { self = record s.self { status = C.set_base (f base) s.self.status } }
