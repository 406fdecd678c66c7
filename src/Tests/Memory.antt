-- ===== src/Tests/Memory.antt =====
-- A cluster in memory: a list of objects of each kind. It meets the assumptions of `IsLawful`, and
-- the tests run on it.
use cloudrun.Base.{
  ℕ, zero, suc, ◌+◌, pos, ◌≡◌, refl, String, ◌<>◌, ◌===◌, show_ℕ, Bool, true, false, ◌&&◌, Option,
  none, some, List, [], ◌∷◌, ◌++◌, arith, inl, inr, Bool-cases, ◌⊎◌, if◌then◌else◌,
}
use cloudrun.Types.{NamespacedName}
use cloudrun.Api.Meta.{Object}
use cloudrun.Api.Schema.{default_builder, default_deployer}
use cloudrun.Cluster.Outcome.{Outcome, ok, err, panic, is_panic, Error, not_found, is_conflict}
use cloudrun.Cluster.Workloads.{Pod}
use cloudrun.Cluster.Client.{
  Kind, Obj, Spec, Cluster, IsCalm, IsLawful, KeepsStatus, Runs, last, again, builder, deployer,
  workflow, resource_pool, job, stateful_set, deployment, service, config_map,
}

pub record Store : Type 0 where
  pub shelf : (k : Kind) → List (Obj k)
  pub pods : List Pod
  pub clock : ℕ
  pub ids : ℕ

module _ {S T : Type 0} where
  abbrev pub named : NamespacedName → Object S T → Bool
  named n o = o.meta.name === n.name && o.meta.namespace === n.namespace

  abbrev pub find : NamespacedName → List (Object S T) → Option (Object S T)
  find n [] = none
  find n (o ∷ os) = if named n o then some o else find n os

  abbrev pub put : Object S T → List (Object S T) → List (Object S T)
  put o [] = o ∷ []
  put o (p ∷ os) =
      if named (record { name = o.meta.name; namespace = o.meta.namespace }) p
      then o ∷ os
      else p ∷ put o os

  abbrev pub take_off : NamespacedName → List (Object S T) → List (Object S T)
  take_off n [] = []
  take_off n (o ∷ os) = let rest = take_off n os in if named n o then rest else o ∷ rest

abbrev same_kind : Kind → Kind → Bool
same_kind builder builder = true
same_kind deployer deployer = true
same_kind workflow workflow = true
same_kind resource_pool resource_pool = true
same_kind job job = true
same_kind stateful_set stateful_set = true
same_kind deployment deployment = true
same_kind service service = true
same_kind config_map config_map = true
same_kind _ _ = false

abbrev pub missing : Error
missing = record { reason = not_found; message = "not found" }

abbrev key : {S T : Type 0} → Object S T → NamespacedName
key o = record { name = o.meta.name; namespace = o.meta.namespace }

-- The shelf of one kind changed.
abbrev pub set_shelf :
    (k : Kind) → List (Obj k) → ((j : Kind) → List (Obj j)) → (j : Kind) → List (Obj j)
set_shelf builder os f builder = os
set_shelf deployer os f deployer = os
set_shelf workflow os f workflow = os
set_shelf resource_pool os f resource_pool = os
set_shelf job os f job = os
set_shelf stateful_set os f stateful_set = os
set_shelf deployment os f deployment = os
set_shelf service os f service = os
set_shelf config_map os f config_map = os
set_shelf _ _ f j = f j

abbrev found : {A : Type 0} → Option A → Outcome A
found none = err missing
found (some a) = ok a

abbrev write : (k : Kind) → Obj k → Store → Outcome (Obj k) × Store
write k o w = (ok o, record w { shelf = set_shelf k (put o (w.shelf k)) w.shelf })

-- What the server stores of an object: its spec with the defaults of the schemas.
abbrev pub fill : (k : Kind) → Spec k → Spec k
fill builder spec = default_builder spec
fill deployer spec = default_deployer spec
fill workflow spec = spec
fill resource_pool spec = spec
fill job spec = spec
fill stateful_set spec = spec
fill deployment spec = spec
fill service spec = spec
fill config_map spec = spec

abbrev pub filled : (k : Kind) → Obj k → Obj k
filled k o = record o { spec = fill k o.spec }

abbrev rewrite : (k : Kind) → Obj k → Store → Outcome (Obj k) × Store
rewrite k o w = elim (find (key o) (w.shelf k)) [ none ↦ (err missing, w) | some _ ↦ write k o w ]

abbrev after_round :
    {S : Type 0} → (S → Outcome (Unit {0}) × S) → Outcome (Unit {0}) × S → Outcome (Unit {0}) × S
after_round later (ok a, t) = (ok a, t)
after_round later (err e, t) = if is_conflict e then later t else (err e, t)
after_round later (panic e, t) = (panic e, t)

-- At most `fuel` further rounds.
abbrev retry : ℕ → (S : Type 0) → (S → Outcome (Unit {0}) × S) → S → Outcome (Unit {0}) × S
retry zero S f s = f s
retry (suc fuel) S f s = after_round (retry fuel S f) (f s)

abbrev has : String → List String → Bool
has x [] = false
has x (y ∷ ys) = if y === x then true else has x ys

abbrev without : String → List String → List String
without x [] = []
without x (y ∷ ys) = if y === x then without x ys else y ∷ without x ys

abbrev pub memory : Cluster
memory = record {
  World = Store;
  get = λ k n w. (found (find n (w.shelf k)), w);
  list_pods = λ labels w. (ok w.pods, w);
  create = λ k o w. write k (filled k o) w;
  update = λ k o w. rewrite k (filled k o) w;
  update_status = rewrite;
  delete =
      λ k o w. (ok tt, record w { shelf = set_shelf k (take_off (key o) (w.shelf k)) w.shelf });
  gvk_for_object = λ k. ok k;
  retry_on_conflict = retry 4;
  contains_finalizer = λ m f. has f m.finalizers;
  add_finalizer =
      λ m f. if has f m.finalizers then m else record m { finalizers = m.finalizers ++ (f ∷ []) };
  remove_finalizer = λ m f. record m { finalizers = without f m.finalizers };
  now = λ w. (pos w.clock, w);
  new_uuid = λ w. ("id-" <> show_ℕ w.ids, record w { ids = w.ids + 1 });
  range_map = λ d w. (d, w);
  marshal = λ k h. ok "history";
  parse_url = λ u. ok tt;
  join = λ a b. a <> ("/" <> b);
  to_lower = λ s. s;
  to_upper = λ s. s;
  must_parse = λ s. ok s;
}

-- One round, by the way that it ends.
after_round-Runs :
    {S : Type 0} (f later : S → Outcome (Unit {0}) × S) (s : S)
    → ((t : S) → Runs f (later t).0 (later t).1 t)
    → (q : Outcome (Unit {0}) × S) → f s ≡ q
    → Runs f (after_round later q).0 (after_round later q).1 s
after_round-Runs f later s h (ok a, t) e = last e
after_round-Runs f later s h (panic c, t) e = last e
after_round-Runs f later s h (err c, t) e = elim (Bool-cases (is_conflict c)) [
  | inl clash ↦ rw clash (again c t e clash (h t))
  | inr clear ↦ rw clear (last e)
]

retry-Runs :
    (fuel : ℕ) (S : Type 0) (f : S → Outcome (Unit {0}) × S) (s : S)
    → Runs f (retry fuel S f s).0 (retry fuel S f s).1 s
retry-Runs zero S f s = last refl
retry-Runs (suc fuel) S f s = after_round-Runs f (retry fuel S f) s (retry-Runs fuel S f) (f s) refl

pub memory-IsLawful : IsLawful memory
memory-IsLawful = record { retries = retry-Runs 4 }

rewrite-status :
    (k : Kind) (o o' : Obj k) (w w' : Store) → rewrite k o w ≡ (ok o', w') → o'.status ≡ o.status
rewrite-status k o o' w w' e = ground arith

pub memory-KeepsStatus : KeepsStatus memory
memory-KeepsStatus = record { update_status-status = rewrite-status }

find-is_panic : {A : Type 0} (q : Option A) → is_panic (found q) ≡ false
find-is_panic none = refl
find-is_panic (some a) = refl

rewrite-is_panic : (k : Kind) (o : Obj k) (w : Store) → is_panic (rewrite k o w).0 ≡ false
rewrite-is_panic k o w = ground arith

pub memory-IsCalm : IsCalm memory
memory-IsCalm = record {
  get-is_panic = λ k n w. find-is_panic (find n (w.shelf k));
  update_status-is_panic = rewrite-is_panic;
}

find-cases :
    {A : Type 0} (q : Option A) (w : Store)
    → ((a : A) × (◌≡◌ {A = Outcome A × Store} (found q, w) (ok a, w)))
      ⊎ (◌≡◌ {A = Outcome A × Store} (found q, w) (err missing, w))
find-cases none w = inr refl
find-cases (some a) w = inl (a, refl)

-- A lookup ends in an object or in an error, and changes nothing.
pub memory-get :
    (k : Kind) (n : NamespacedName) (w : Store)
    → ((o : Obj k) × (memory.get k n w ≡ (ok o, w))) ⊎ (memory.get k n w ≡ (err missing, w))
memory-get k n w = find-cases (find n (w.shelf k)) w
