-- ===== src/Tests/Stored.antt =====
-- The cluster in memory is a store.
use cloudrun.Base.{
  ◌≡◌, ◌≢◌, ◌⊎◌, refl, sym, ap, subst, ◌∙◌, inl, inr, eq_iff, eq_refl, true, false, Bool-cases,
  none, some, List, [], ◌∷◌, arith,
}
use cloudrun.Types.{NamespacedName}
use cloudrun.Api.Meta.{Object}
use cloudrun.Cluster.Outcome.{Outcome, ok, err}
use cloudrun.Cluster.Client.{
  Kind, Obj, builder, deployer, workflow, resource_pool, job, stateful_set, deployment, service,
  config_map,
}
use cloudrun.Core.Context.{object_key}
use cloudrun.Store.{IsStore, KeepsOthers, Objects, Wrote}
use cloudrun.Store.Others.{KeepsOthers-of}
use cloudrun.Tests.Memory.{
  fill, filled, find, memory, missing, put, named, set_shelf, take_off, Store,
}

Kind-discrete : Discrete Kind
Kind-discrete = hlevel

set_shelf-other :
    (k j : Kind) (os : List (Obj k)) (f : (j : Kind) → List (Obj j))
    → j ≢ k
    → set_shelf k os f j ≡ f j
set_shelf-other builder builder os f h = absurd (h refl)
set_shelf-other builder _ os f h = refl
set_shelf-other deployer deployer os f h = absurd (h refl)
set_shelf-other deployer _ os f h = refl
set_shelf-other workflow workflow os f h = absurd (h refl)
set_shelf-other workflow _ os f h = refl
set_shelf-other resource_pool resource_pool os f h = absurd (h refl)
set_shelf-other resource_pool _ os f h = refl
set_shelf-other job job os f h = absurd (h refl)
set_shelf-other job _ os f h = refl
set_shelf-other stateful_set stateful_set os f h = absurd (h refl)
set_shelf-other stateful_set _ os f h = refl
set_shelf-other deployment deployment os f h = absurd (h refl)
set_shelf-other deployment _ os f h = refl
set_shelf-other service service os f h = absurd (h refl)
set_shelf-other service _ os f h = refl
set_shelf-other config_map config_map os f h = absurd (h refl)
set_shelf-other config_map _ os f h = refl

pub set_shelf-same :
    (k : Kind) (os : List (Obj k)) (f : (j : Kind) → List (Obj j)) → set_shelf k os f k ≡ os
set_shelf-same builder os f = refl
set_shelf-same deployer os f = refl
set_shelf-same workflow os f = refl
set_shelf-same resource_pool os f = refl
set_shelf-same job os f = refl
set_shelf-same stateful_set os f = refl
set_shelf-same deployment os f = refl
set_shelf-same service os f = refl
set_shelf-same config_map os f = refl

module _ {S T : Type 0} where
  named-key : (o : Object S T) → named (object_key o) o ≡ true
  named-key o = ground (arith, eq_refl o.meta.name, eq_refl o.meta.namespace)

  named-eq : (n : NamespacedName) (o : Object S T) → named n o ≡ true → object_key o ≡ n
  named-eq n o h =
      let same : o.meta.name ≡ n.name = (eq_iff o.meta.name n.name).0 (ground arith) in
      let same' : o.meta.namespace ≡ n.namespace =
        (eq_iff o.meta.namespace n.namespace).0 (ground arith) in
      λ i. record { name = same i; namespace = same' i }

  named-ne : (n : NamespacedName) (o : Object S T) → n ≢ object_key o → named n o ≡ false
  named-ne n o h = elim (Bool-cases (named n o)) [
    | inl same ↦ absurd (h (sym (named-eq n o same)))
    | inr other ↦ other
  ]

  pub find-key :
      (n : NamespacedName) (os : List (Object S T)) (o : Object S T)
      → find n os ≡ some o
      → object_key o ≡ n
  find-key n [] o h = ground arith
  find-key n (p ∷ os) o h = elim (Bool-cases (named n p)) [
    | inl same ↦
        let first : p ≡ o = ground arith in subst (λ q. object_key q ≡ n) first (named-eq n p same)
    | inr other ↦ find-key n os o (rw other at h)
  ]

  find-put : (o : Object S T) (os : List (Object S T)) → find (object_key o) (put o os) ≡ some o
  find-put o [] = ground (arith, named-key o)
  find-put o (p ∷ os) = ground (arith, named-key o, find-put o os)

  find-put_other :
      (n : NamespacedName) (o : Object S T) (os : List (Object S T))
      → n ≢ object_key o
      → find n (put o os) ≡ find n os
  find-put_other n o [] h = rw (named-ne n o h) refl
  find-put_other n o (p ∷ os) h = elim (Bool-cases (named (object_key o) p)) [
    | inl same ↦
        let key : object_key p ≡ object_key o = named-eq (object_key o) p same in
        rw (same, named-ne n o h, named-ne n p (rw key h)) refl
    | inr other ↦ rw (other, find-put_other n o os h) refl
  ]

  pub find-take_off : (n : NamespacedName) (os : List (Object S T)) → find n (take_off n os) ≡ none
  find-take_off n [] = refl
  find-take_off n (o ∷ os) = ground (arith, find-take_off n os)

  pub find-take_off_other :
      (n m : NamespacedName) (os : List (Object S T)) → m ≢ n → find m (take_off n os) ≡ find m os
  find-take_off_other n m [] h = refl
  find-take_off_other n m (o ∷ os) h = elim (Bool-cases (named n o)) [
    | inl same ↦
        rw (same, named-ne m o (rw (named-eq n o same) h), find-take_off_other n m os h) refl
    | inr other ↦ rw (other, find-take_off_other n m os h) refl
  ]

abbrev pub stored : Store → Objects
stored w k n = find n (w.shelf k)

-- A shelf changed at one name only.
shelf-apart :
    (w : Store) (k : Kind) (n : NamespacedName) (os : List (Obj k))
    → ((m : NamespacedName) → m ≢ n → find m os ≡ find m (w.shelf k))
    → (j : Kind) (m : NamespacedName) → (j ≢ k) ⊎ (m ≢ n)
    → stored (record w { shelf = set_shelf k os w.shelf }) j m ≡ stored w j m
shelf-apart w k n os h j m (inl other) = ap (λ l. find m l) (set_shelf-other k j os w.shelf other)
shelf-apart w k n os h j m (inr other) = elim (Kind-discrete k j) [
  | yes same ↦
      subst (λ i. find m (set_shelf k os w.shelf i) ≡ find m (w.shelf i)) same
        (ap (λ l. find m l) (set_shelf-same k os w.shelf) ∙ h m other)
  | no differ ↦ ap (λ l. find m l) (set_shelf-other k j os w.shelf (λ e. differ (sym e)))
]

pub shelf-others :
    (w : Store) (k : Kind) (n : NamespacedName) (os : List (Obj k))
    → ((m : NamespacedName) → m ≢ n → find m os ≡ find m (w.shelf k))
    → KeepsOthers (stored w) (stored (record w { shelf = set_shelf k os w.shelf })) k n
shelf-others w k n os h = KeepsOthers-of _ _ k n (shelf-apart w k n os h)

pub put-there :
    (w : Store) (k : Kind) (o : Obj k)
    → stored (record w { shelf = set_shelf k (put o (w.shelf k)) w.shelf }) k (object_key o)
      ≡ some o
put-there w k o =
    ap (λ l. find (object_key o) l) (set_shelf-same k (put o (w.shelf k)) w.shelf)
    ∙ find-put o (w.shelf k)

-- One object put on its shelf.
pub put-Wrote :
    (w : Store) (k : Kind) (o : Obj k)
    → Wrote
        (stored w)
        (stored (record w { shelf = set_shelf k (put o (w.shelf k)) w.shelf }))
        k
        (object_key o)
        o.spec
put-Wrote w k o = record {
  stored = o;
  there = put-there w k o;
  same_spec = refl;
  others =
      shelf-others w k (object_key o) (put o (w.shelf k)) (λ m h. find-put_other m o (w.shelf k) h);
}

-- A write to an object that is there.
pub rewrite-ok :
    (k : Kind) (o p : Obj k) (w : Store)
    → stored w k (object_key o) ≡ some p
    → memory.update_status k o w
      ≡ (ok o, record w { shelf = set_shelf k (put o (w.shelf k)) w.shelf })
rewrite-ok k o p w e =
    ap {B = Outcome (Obj k) × Store}
      (λ q. elim q [
        | none ↦ (err missing, w)
        | some _ ↦ (ok o, record w { shelf = set_shelf k (put o (w.shelf k)) w.shelf })
      ])
      e

-- The answer of a write of a status is what was given.
pub answered :
    (k : Kind) (o p q : Obj k) (w v : Store)
    → stored w k (object_key o) ≡ some p
    → memory.update_status k o w ≡ (ok q, v)
    → q ≡ o
answered k o p q w v e written = let given = rewrite-ok k o p w e in ground arith

unfoldable pub memory-IsStore : IsStore memory
memory-IsStore = record {
  objects = stored;
  fill = fill;
  fill-builder = λ spec. refl;
  fill-deployer = λ spec. refl;
  fill-selector = λ spec. refl;
  admits = λ k p o. true;
  admits-deployer = λ w n d c cs round image pool status there has. refl;
  objects-key = λ k n w o e. find-key n (w.shelf k) o e;
  get-some = λ k n w o e. rw e refl;
  get-none = λ k n w e. (missing, refl, rw e refl);
  update-some = λ k o p w e same admitted.
      (filled k o, _, rewrite-ok k (filled k o) p w e, put-Wrote w k (filled k o));
  create-none = λ k o w e admitted. (filled k o, _, refl, put-Wrote w k (filled k o));
  delete-some = λ k o p w e. (
    _,
    refl,
    ap (λ l. find (object_key o) l) (set_shelf-same k (take_off (object_key o) (w.shelf k)) w.shelf)
        ∙ find-take_off (object_key o) (w.shelf k),
    shelf-others w k (object_key o) (take_off (object_key o) (w.shelf k))
        (λ m h. find-take_off_other (object_key o) m (w.shelf k) h),
  );
  gvk_for_object-self = λ k. refl;
  objects-new_uuid = λ w. refl;
  objects-range_map = λ d w. refl;
  objects-now = λ w. refl;
  update_status-some = λ k o p w e same same'.
      (o, _, rewrite-ok k o p w e, put-there w k o, refl, refl, (put-Wrote w k o).others);
  update_status-meta = λ k o p q w v e same written.
      (p.meta.resource_version, ap (λ d. d.meta) (answered k o p q w v e written) ∙ same);
}
