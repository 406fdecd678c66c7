-- ===== src/Core/Context.antt =====
-- controllers/core/context.go: names and labels of the objects of a round, and the two calls that
-- look one up or create it. Logging is left out.
use cloudrun.Base.{
  ℤ, String, ◌<>◌, ◌===◌, show_int, Bool, true, false, Option, none, some, List, [], ◌∷◌, ◌++◌,
  Dict, is_some, if◌then◌else◌,
}
use cloudrun.Types.{NamespacedName}
use cloudrun.Api.Meta.{TypeMeta, ObjectMeta, Object, OwnerReference, new_meta}
use cloudrun.Cluster.Outcome.{
  Outcome, ok, err, panic, is_not_found, wrap_error, Action, pure, fail, lift, done, Reply, got,
  failed, attempt, or_wrap, ◌>>=◌, ◌>>◌,
}
use cloudrun.Cluster.Client.{Kind, Obj, Cluster}
use cloudrun.Cluster.Crd.{Run, on_world}

-- `DefaultContext`: the names of the object under reconciliation, and its owner reference.
pub record Context : Type 0 where
  pub namespaced_name : NamespacedName
  pub get_owner_references : Outcome OwnerReference

abbrev pub name : Context → String
name ctx = ctx.namespaced_name.name

abbrev pub namespace : Context → String
namespace ctx = ctx.namespaced_name.namespace

-- What the three `NewContext` functions put into it.
unfoldable pub new_context : TypeMeta → ObjectMeta → Context
new_context type meta = record {
  namespaced_name = record { name = meta.name; namespace = meta.namespace };
  get_owner_references = ok (record {
    api_version = type.api_version;
    kind = type.kind;
    name = meta.name;
    uid = meta.uid;
    block_owner_deletion = some true;
  });
}

-- The loop over the references: is there one with the same UID?
unfoldable pub has_owner : List OwnerReference → String → Bool
has_owner [] uid = false
has_owner (r ∷ refs) uid = if r.uid === uid then true else has_owner refs uid

unfoldable pub set_owner_reference : {S T : Type 0} → Object S T → OwnerReference → Object S T
set_owner_reference obj owner =
    if has_owner obj.meta.owner_references owner.uid then obj else record obj {
      meta = record obj.meta { owner_references = obj.meta.owner_references ++ (owner ∷ []) };
    }

-- How the error messages name an object.
abbrev pub describe : {S T : Type 0} → Object S T → String
describe obj = obj.type_meta.kind <> (" " <> (obj.meta.namespace <> ("/" <> obj.meta.name)))

abbrev pub object_key : {S T : Type 0} → Object S T → NamespacedName
object_key obj = record { name = obj.meta.name; namespace = obj.meta.namespace }

-- `if err != nil { if IgnoreNotFound(err) != nil { return wrapped } ... }`
abbrev pub unless_missing : {S A : Type 0} → String → Reply A → Action S (Option A)
unless_missing text (got a) = pure (some a)
unless_missing text (failed e) = if is_not_found e then pure none else fail (wrap_error text e)

-- The name of the object that a round makes.
unfoldable pub sub_name : Context → ℤ → String
sub_name ctx round = name ctx <> ("-" <> show_int round)

unfoldable pub get_service_labels : Context → ℤ → Dict
get_service_labels ctx round =
    ("owner.name", name ctx) ∷ ("round", show_int round) ∷ ("type", "service") ∷ []

abbrev pub owner_list : Context → List OwnerReference
owner_list ctx = elim ctx.get_owner_references [ ok r ↦ r ∷ [] | err _ ↦ [] | panic _ ↦ [] ]

unfoldable pub new_object_meta : Context → ℤ → ObjectMeta
new_object_meta ctx round = record (new_meta (sub_name ctx round) (namespace ctx)) {
  labels = some (("owner.name", name ctx) ∷ ("round", show_int round) ∷ []);
  owner_references = owner_list ctx;
}

module _ (K : Cluster) (k : Kind) where
  -- One round of the update: the resource version is that of the object as it is now.
  unfoldable pub update_once : Kind → Obj k → Action K.World (Unit {0})
  update_once gvk obj = do
    place_holder ← K.get gvk (object_key obj)
    K.update k (record obj {
      meta = record obj.meta { resource_version = place_holder.meta.resource_version };
    })
    done

module _ (K : Cluster) {M : Type 0} (ctx : Context) (k : Kind) where
  -- `ctx.Update` under `RetryOnConflict`.
  unfoldable pub update_existing : Kind → Obj k → Action (Run K.World M) (Unit {0})
  update_existing gvk obj =
      or_wrap ("failed to update " <> describe obj)
        (on_world (K.retry_on_conflict K.World (update_once K k gvk obj)))

  unfoldable pub create_new : Obj k → Action (Run K.World M) (Unit {0})
  create_new obj = do
    or_wrap ("failed to create " <> describe obj) (on_world (K.create k obj))
    done

  -- What follows on the lookup; `exist`, `force` and `update` are tested in the source's order.
  unfoldable pub create_or_replace :
      Kind → Obj k → Bool → Bool → Bool → Action (Run K.World M) (Unit {0})
  create_or_replace gvk obj true force true = update_existing gvk obj
  create_or_replace gvk obj true true false = do
    or_wrap ("failed to delete " <> describe obj) (on_world (K.delete k obj))
    create_new obj
  create_or_replace gvk obj true false false = done
  create_or_replace gvk obj false force update = create_new obj

  unfoldable pub create_resource : Obj k → Bool → Bool → Action (Run K.World M) (Unit {0})
  create_resource obj force update = do
    owner ← or_wrap "failed get shi" (lift ctx.get_owner_references)
    let owned = set_owner_reference obj owner
    gvk ← or_wrap ("failed to get GVK for " <> describe owned) (lift (K.gvk_for_object k))
    reply ← attempt (on_world (K.get gvk (object_key owned)))
    found ← unless_missing ("failed to get " <> describe owned) reply
    create_or_replace gvk owned (is_some found) force update

  -- The object of a round; `obj` is empty when the error message names it.
  unfoldable pub get_sub_resource : ℤ → Action (Run K.World M) (Option (Obj k))
  get_sub_resource round = do
    reply ←
        attempt
          (on_world (K.get k (record { name = sub_name ctx round; namespace = namespace ctx })))
    unless_missing "failed to get  /" reply
