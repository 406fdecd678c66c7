-- ===== src/Cluster/CrdLaws.antt =====
-- What the pointer that `CommonStatus()` returns guarantees, for the three custom resources
-- (api/v1alpha1): it reads what was last written through it.
use cloudrun.Base.{◌≡◌, refl, ap, arith}
use cloudrun.Types.{CommonStatus}
use cloudrun.Api.Builder
use cloudrun.Api.Deployer
use cloudrun.Api.Workflow
use cloudrun.Cluster.Client.{Cluster, Kind, Obj, State, builder, deployer, workflow}
use cloudrun.Cluster.Crd.{
  Crd, Run, common_status, set_status, builder_crd, deployer_crd, workflow_crd,
}

pub record IsPointer {k : Kind} (C : Crd k) : Type 0 where
  pub get-set :
      (b : CommonStatus) (s : State k) → C.common_status (C.set_base b s) ≡ (C.set_base b s, b)
  pub get-get : (s : State k) → C.common_status (C.common_status s).0 ≡ C.common_status s

module _ (K : Cluster) (k : Kind) (C : Crd k) (P : IsPointer C) where
  -- The object's status, as `CommonStatus()` reads it.
  abbrev pub base_of : Run K.World (Obj k) → CommonStatus
  base_of s = (C.common_status s.self.status).1

  pub base_of-set_status :
      (f : CommonStatus → CommonStatus) (s : Run K.World (Obj k))
      → base_of (set_status K k C f s).1 ≡ f (base_of s)
  base_of-set_status f s =
      ap (λ q. q.1) (P.get-set (f (base_of s)) (C.common_status s.self.status).0)

  pub base_of-common_status :
      (s : Run K.World (Obj k)) → base_of (common_status K k C s).1 ≡ base_of s
  base_of-common_status s = ap (λ q. q.1) (P.get-get s.self.status)

builder-get :
    (s : State builder)
    → Builder.common_status (Builder.common_status s).0 ≡ Builder.common_status s
unfolding Builder.common_status
builder-get s = ground arith

deployer-get :
    (s : State deployer)
    → Deployer.common_status (Deployer.common_status s).0 ≡ Deployer.common_status s
unfolding Deployer.common_status
deployer-get s = ground arith

workflow-get :
    (s : State workflow)
    → Workflow.common_status (Workflow.common_status s).0 ≡ Workflow.common_status s
unfolding Workflow.common_status
workflow-get s = ground arith

pub builder_crd-IsPointer : IsPointer builder_crd
unfolding Builder.common_status
builder_crd-IsPointer = record { get-set = λ b s. refl; get-get = builder-get }

pub deployer_crd-IsPointer : IsPointer deployer_crd
unfolding Deployer.common_status
deployer_crd-IsPointer = record { get-set = λ b s. refl; get-get = deployer-get }

pub workflow_crd-IsPointer : IsPointer workflow_crd
unfolding Workflow.common_status
workflow_crd-IsPointer = record { get-set = λ b s. refl; get-get = workflow-get }
