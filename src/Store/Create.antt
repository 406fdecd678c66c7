-- ===== src/Store/Create.antt =====
-- `CreateResource` (controllers/core/context.go) over a store.
use cloudrun.Base.{
  ◌≡◌, refl, sym, subst, inl, Bool, true, false, ◌||◌, Option, none, some, arith, if◌then◌else◌,
}
use cloudrun.Api.Meta.{OwnerReference}
use cloudrun.Cluster.Outcome.{ok}
use cloudrun.Cluster.Client.{Cluster, IsLawful, Kind, Obj, Spec}
use cloudrun.Cluster.Crd.{Run}
use cloudrun.Cluster.Retry.{retry-settled}
use cloudrun.Core.Context.{
  Context, create_or_replace, create_resource, object_key, set_owner_reference, update_existing,
  update_once,
}
use cloudrun.Core.Owner.{
  create_resource-created, create_resource-existing, create_resource-replaced,
  set_owner_reference-key, create_resource-updated,
}
use cloudrun.Store.{IsStore, Wrote}
use cloudrun.Store.Others.{KeepsOthers-trans}

-- The spec that an object has behind the call: the given one, unless there was one before that is
-- neither to be replaced nor updated.
abbrev pub settled : (k : Kind) → Bool → Bool → Spec k → Option (Obj k) → Spec k
settled k force update given none = given
settled k force update given (some old) = if force || update then given else old.spec

-- The server admits what the call sends it.
abbrev pub IsAdmitted :
    {K : Cluster} → IsStore K → (k : Kind) → Bool → Bool → Obj k → Option (Obj k) → Type 0
IsAdmitted S k force update own none = S.admits k none own ≡ true
IsAdmitted S k force true own (some p) =
    S.admits k (some p)
      (record own { meta = record own.meta { resource_version = p.meta.resource_version } })
    ≡ true
IsAdmitted S k true false own (some p) = S.admits k none own ≡ true
IsAdmitted S k false false own (some p) = Unit

-- An object that is replaced is admitted as a new one.
pub IsAdmitted-force :
    {K : Cluster} (S : IsStore K) (k : Kind) (own : Obj k) (p : Option (Obj k))
    → S.admits k none own ≡ true
    → IsAdmitted S k true false own p
IsAdmitted-force S k own none admitted = admitted
IsAdmitted-force S k own (some p) admitted = admitted

or_true : (b : Bool) → (b || true) ≡ true
or_true b = ground arith

module _ (K : Cluster) (L : IsLawful K) (S : IsStore K) {M : Type 0} (ctx : Context)
    (k : Kind) where
  update_existing-Wrote :
      (own p : Obj k) (s : Run K.World M)
      → S.objects s.world k (object_key own) ≡ some p
      → IsAdmitted S k false true own (some p)
      → (v : K.World) × (update_existing K {M = M} ctx k k own s ≡ (ok tt, record s { world = v }))
        × Wrote (S.objects s.world) (S.objects v) k (object_key own) (S.fill k own.spec)
  unfolding update_existing update_once
  update_existing-Wrote own p s there admitted =
      let found = S.get-some k (object_key own) s.world p there in
      let o : Obj k = record own {
        meta = record own.meta { resource_version = p.meta.resource_version };
      } in
      let (q, v, updated, wrote) = S.update-some k o p s.world there refl admitted in
      let once =
        retry-settled K L K.World (update_once K k k own) s.world (ok tt) v
          (rw (found, updated) refl) refl in
      (v, rw once refl, wrote)

  -- The call on an object that is ready to go to the server.
  on_server :
      (obj : Obj k) (owner : OwnerReference) (force update : Bool) (s : Run K.World M)
      → ctx.get_owner_references ≡ ok owner
      → (q : Option (Obj k)) → S.objects s.world k (object_key (set_owner_reference obj owner)) ≡ q
      → IsAdmitted S k force update (set_owner_reference obj owner) q
      → let own = set_owner_reference obj owner in
        (v : K.World) × (create_resource K ctx k obj force update s
          ≡ (ok tt, record s { world = v }))
        × Wrote
            (S.objects s.world)
            (S.objects v)
            k
            (object_key own)
            (settled k force update (S.fill k own.spec) q)
  unfolding create_resource create_or_replace
  on_server obj owner force update s owned none there admitted =
      let own = set_owner_reference obj owner in
      let (e, missing, looked) = S.get-none k (object_key own) s.world there in
      let (q, v, created, wrote) = S.create-none k own s.world there admitted in
      (
        v,
        create_resource-created K ctx k obj q owner s.world s.world v s owned
            (S.gvk_for_object-self k) created e force update looked missing,
        wrote,
      )
  on_server obj owner force true s owned (some p) there admitted =
      let own = set_owner_reference obj owner in
      let (v, updated, wrote) = update_existing-Wrote own p s there admitted in
      let looked = S.get-some k (object_key own) s.world p there in
      (
        v,
        create_resource-updated K ctx k obj p owner force s.world v s owned
            (S.gvk_for_object-self k) looked updated,
        rw (or_true force) wrote,
      )
  on_server obj owner true false s owned (some p) there admitted =
      let own = set_owner_reference obj owner in
      let looked = S.get-some k (object_key own) s.world p there in
      let (u, deleted, gone, others) = S.delete-some k own p s.world there in
      let (q, v, created, wrote) = S.create-none k own u gone admitted in
      (
        v,
        create_resource-replaced K ctx k obj q owner s.world u v s owned (S.gvk_for_object-self k)
            created p looked deleted,
        record {
          stored = wrote.stored;
          there = wrote.there;
          same_spec = wrote.same_spec;
          others = KeepsOthers-trans _ _ _ k (object_key own) others wrote.others;
        },
      )
  on_server obj owner false false s owned (some p) there admitted =
      let own = set_owner_reference obj owner in
      let looked = S.get-some k (object_key own) s.world p there in
      (
        s.world,
        create_resource-existing K ctx k obj owner k p s.world s owned (S.gvk_for_object-self k)
            looked,
        record { stored = p; there = there; same_spec = refl; others = λ j m. inl refl },
      )

  -- Over a store, with retries as documented and a known owner, where the server admits the object with
  -- its owner: CreateResource succeeds and keeps what is under
  -- reconciliation. The object is stored then, with what the server makes of the given spec, unless it
  -- was there and neither force nor update was asked for, in which case its spec is what it was; no
  -- other object is touched.
  pub create_resource-Wrote :
      (obj : Obj k) (owner : OwnerReference) (force update : Bool) (s : Run K.World M)
      → ctx.get_owner_references ≡ ok owner
      → IsAdmitted S k force update
          (set_owner_reference obj owner)
          (S.objects s.world k (object_key obj))
      → (v : K.World) × (create_resource K ctx k obj force update s
          ≡ (ok tt, record s { world = v }))
        × Wrote
            (S.objects s.world)
            (S.objects v)
            k
            (object_key obj)
            (settled k force update (S.fill k obj.spec) (S.objects s.world k (object_key obj)))
  create_resource-Wrote obj owner force update s owned admitted =
      let (same, same') = set_owner_reference-key obj owner in
      let done =
        on_server obj owner force update s owned
          (S.objects s.world k (object_key (set_owner_reference obj owner))) refl
          (subst
            (λ n.
              IsAdmitted S k force update (set_owner_reference obj owner) (S.objects s.world k n))
            (sym same) admitted) in
      rw (same, same') at done
