-- ===== src/Core/Owner.antt =====
-- The owner of a made object, and the lookup before it is made (controllers/core/context.go).
use cloudrun.Base.{Bool, ◌≡◌, refl, eq_refl, true, false, List, [], ◌∷◌, ◌++◌, arith}
use cloudrun.Api.Meta.{Object, OwnerReference}
use cloudrun.Cluster.Outcome.{Error, err, is_not_found, ok}
use cloudrun.Cluster.Client.{Cluster, Kind, Obj}
use cloudrun.Cluster.Crd.{Run}
use cloudrun.Core.Context.{
  Context, create_new, create_or_replace, create_resource, has_owner, object_key,
  set_owner_reference, update_existing,
}

has_owner-append :
    (refs : List OwnerReference) (o : OwnerReference) → has_owner (refs ++ (o ∷ [])) o.uid ≡ true
unfolding has_owner
has_owner-append [] o = rw (eq_refl o.uid)
has_owner-append (r ∷ refs) o = ground (arith, has_owner-append refs o)

module _ {S T : Type 0} (obj : Object S T) (o : OwnerReference) where
  -- Naming an owner twice is naming it once, and the owner is named then.
  pub set_owner_reference_twice :
      (set_owner_reference (set_owner_reference obj o) o ≡ set_owner_reference obj o)
      × (has_owner (set_owner_reference obj o).meta.owner_references o.uid ≡ true)
  unfolding set_owner_reference
  set_owner_reference_twice = ground (arith, has_owner-append obj.meta.owner_references o)

  -- It changes neither the object's name nor its spec.
  pub set_owner_reference-key :
      (object_key (set_owner_reference obj o) ≡ object_key obj)
      × ((set_owner_reference obj o).spec ≡ obj.spec)
  unfolding set_owner_reference
  set_owner_reference-key = ground arith

module _ (K : Cluster) {M : Type 0} (ctx : Context) (k : Kind) where
  -- An object that the server has already is left as it is, unless it is to be replaced or updated:
  -- the lookup is the only call.
  pub create_resource-existing :
      (obj : Obj k) (owner : OwnerReference) (gvk : Kind) (found : Obj gvk) (w : K.World)
      (s : Run K.World M)
      → ctx.get_owner_references ≡ ok owner
      → K.gvk_for_object k ≡ ok gvk
      → K.get gvk (object_key (set_owner_reference obj owner)) s.world ≡ (ok found, w)
      → create_resource K ctx k obj false false s ≡ (ok tt, record s { world = w })
  unfolding create_resource create_or_replace
  create_resource-existing obj owner gvk found w s e e' e'' = ground arith

  -- On request, an object that the server has is updated.
  pub create_resource-updated :
      (obj found : Obj k) (owner : OwnerReference) (force : Bool) (u w : K.World)
      (s : Run K.World M)
      → ctx.get_owner_references ≡ ok owner
      → K.gvk_for_object k ≡ ok k
      → K.get k (object_key (set_owner_reference obj owner)) s.world ≡ (ok found, u)
      → update_existing K ctx k k (set_owner_reference obj owner) (record s { world = u })
        ≡ (ok tt, record s { world = w })
      → create_resource K ctx k obj force true s ≡ (ok tt, record s { world = w })
  unfolding create_resource create_or_replace
  create_resource-updated obj found owner force u w s owned known there updated =
      rw (owned, known, there) updated

  module _ (obj o : Obj k) (owner : OwnerReference) (u v w : K.World) (s : Run K.World M)
      (owned : ctx.get_owner_references ≡ ok owner) (known : K.gvk_for_object k ≡ ok k)
      (created : K.create k (set_owner_reference obj owner) v ≡ (ok o, w)) where
    -- By force, an object that the server has is deleted and created again.
    pub create_resource-replaced :
        (found : Obj k)
        → K.get k (object_key (set_owner_reference obj owner)) s.world ≡ (ok found, u)
        → K.delete k (set_owner_reference obj owner) u ≡ (ok tt, v)
        → create_resource K ctx k obj true false s ≡ (ok tt, record s { world = w })
    unfolding create_resource create_or_replace create_new
    create_resource-replaced found there gone = rw (owned, known, there, gone, created) refl

    -- An object that the server does not have is created.
    pub create_resource-created :
        (e : Error) (force update : Bool)
        → K.get k (object_key (set_owner_reference obj owner)) s.world ≡ (err e, v)
        → is_not_found e ≡ true
        → create_resource K ctx k obj force update s ≡ (ok tt, record s { world = w })
    unfolding create_resource create_or_replace create_new
    create_resource-created e force update missing absent =
        rw (owned, known, missing, absent, created) refl
