-- ===== src/Core/Publish.antt =====
-- `PublishStatus` (controllers/core/status.go) without an error, over a server that answers.
use cloudrun.Base.{◌≡◌, refl, ap, ◌∙◌, false, none}
use cloudrun.Cluster.Outcome.{Outcome, ok, err, panic, is_panic}
use cloudrun.Cluster.Client.{Cluster, IsCalm, KeepsStatus, Kind, Obj}
use cloudrun.Cluster.Crd.{Crd, Run, set_status}
use cloudrun.Cluster.CrdLaws.{IsPointer, base_of, base_of-set_status}
use cloudrun.Core.Status.{note_error, publish_status}

module _ (K : Cluster) (L : IsCalm K) (F : KeepsStatus K) (k : Kind) (C : Crd k)
    (P : IsPointer C) where
  -- Writing the status returns without an error, and the object's status is what it was.
  pub publish_status-none :
      (s : Run K.World (Obj k))
      → (t : Run K.World (Obj k)) × (publish_status K k C none s ≡ (ok tt, t))
        × (base_of K k C P t ≡ base_of K k C P s)
  unfolding publish_status
  publish_status-none s =
      answered (K.update_status k u.self u.world) refl (L.update_status-is_panic k u.self u.world)
    where
      u : Run K.World (Obj k)
      u = (set_status K k C (note_error none) s).1

      same : base_of K k C P u ≡ base_of K k C P s
      same = base_of-set_status K k C P (note_error none) s

      answered :
          (q : Outcome (Obj k) × K.World)
          → K.update_status k u.self u.world ≡ q
          → is_panic q.0 ≡ false
          → (t : Run K.World (Obj k)) × (publish_status K k C none s ≡ (ok tt, t))
            × (base_of K k C P t ≡ base_of K k C P s)
      answered (ok o, w) e calm = rw e (
        record { world = w; self = o },
        refl,
        ap (λ x. (C.common_status x).1) (F.update_status-status k u.self o u.world w e) ∙ same,
      )
      answered (err c, w) e calm = rw e (record u { world = w }, refl, same)
      answered (panic c, w) e calm = cc
