-- ===== src/Startup/Order.antt =====
-- What has happened when the process (main.go) returns.
use cloudrun.Base.{◌≡◌, refl, sym, ap, subst, ◌∙◌, ◌↔◌, List, [], ◌∷◌, arith}
use cloudrun.Cluster.Outcome.{Outcome, ok, err, panic, Action}
use cloudrun.Startup.{
  Exit, Runtime, application, builder, default_flags, deployer, group_version, init, main, must,
  options_of, or_exit, process, resource_pool, returned, run_manager, scheme_builder,
  setup_application, setup_builder, setup_deployer, setup_resource_pool, setup_workflow, workflow,
}

-- Steps that all succeed, one after the other.
pub data All {W : Type 0} : List (Action W (Unit {0})) → W → W → Type 0 where
  none : {w : W} → All [] w w
  then_ :
      {m : Action W (Unit {0})} {ms : List (Action W (Unit {0}))} {w v u : W}
      → m w ≡ (ok tt, v)
      → All ms v u
      → All (m ∷ ms) w u

module _ {W : Type 0} where
  -- The steps with the exits between them.
  abbrev run_steps : List (Action W (Unit {0})) → W → Exit × W
  run_steps [] w = (returned, w)
  run_steps (m ∷ ms) w = or_exit m (λ _. run_steps ms) w

  or_exit-returned :
      {A : Type 0} (m : Action W A) (f : A → W → Exit × W) (w u : W)
      → or_exit m f w ≡ (returned, u)
      → (a : A) × (v : W) × (m w ≡ (ok a, v)) × (f a v ≡ (returned, u))
  unfolding or_exit
  or_exit-returned {A} m f w u h = by_end (m w) refl
    where
      by_end :
          (q : Outcome A × W)
          → m w ≡ q
          → (a : A) × (v : W) × (m w ≡ (ok a, v)) × (f a v ≡ (returned, u))
      by_end (ok a, v) e = (a, v, e, ground arith)
      by_end (err c, v) e = absurd (ground arith)
      by_end (panic c, v) e = absurd (ground arith)

  run_steps-All :
      (ms : List (Action W (Unit {0}))) (w u : W) → run_steps ms w ≡ (returned, u) → All ms w u
  run_steps-All [] w u h = subst (λ x. All [] w x) (ap (λ q. q.1) h) none
  run_steps-All (m ∷ ms) w u h =
      let (a, v, e, rest) = or_exit-returned m (λ _. run_steps ms) w u h in
      then_ e (run_steps-All ms v u rest)

  All-run_steps :
      (ms : List (Action W (Unit {0}))) (w u : W) → All ms w u → run_steps ms w ≡ (returned, u)
  unfolding or_exit
  All-run_steps [] w u none = refl
  All-run_steps (m ∷ ms) w u (then_ e rest) = rw e (All-run_steps ms _ u rest)

module _ (R : Runtime) where
  -- Before the manager: the two schemes. Behind it: the controllers, the checks, and the start.
  abbrev pub schemes : List (Action R.World (Unit {0}))
  schemes = R.add_client_go ∷ R.add_to_scheme group_version scheme_builder ∷ []

  abbrev pub steps : R.Manager → List (Action R.World (Unit {0}))
  steps m =
      R.complete m application
      ∷ R.complete m builder
      ∷ R.complete m deployer
      ∷ R.complete m workflow
      ∷ R.complete m resource_pool
      ∷ R.add_healthz_check m "healthz"
      ∷ R.add_readyz_check m "readyz"
      ∷ R.start m
      ∷ []

  pub record Started (w u : R.World) : Type 0 where
    pub ready : R.World
    pub made : R.World
    pub manager : R.Manager
    pub has_schemes : All schemes w ready
    pub has_manager :
        R.new_manager (options_of (R.parse default_flags ready).0) (R.parse default_flags ready).1
        ≡ (ok manager, made)
    pub has_steps : All (steps manager) made u

  run_manager-steps : (m : R.Manager) (w : R.World) → run_manager R m w ≡ run_steps (steps m) w
  unfolding run_manager or_exit setup_application setup_builder setup_deployer setup_workflow
      setup_resource_pool
  run_manager-steps m w = refl

  must-ok :
      {A : Type 0} (m : Action R.World A) (w v : R.World) (a : A)
      → must m w ≡ (ok a, v)
      → m w ≡ (ok a, v)
  unfolding must
  must-ok m w v a h = ground arith

  init-schemes : (w v : R.World) → init R w ≡ (ok tt, v) → All schemes w v
  unfolding init must
  init-schemes w v h = by_first (must R.add_client_go w) refl
    where
      by_first : (q : Outcome (Unit {0}) × R.World) → must R.add_client_go w ≡ q → All schemes w v
      by_first (ok tt, x) e = then_ (must-ok R.add_client_go w x tt e) (
          then_ (must-ok (R.add_to_scheme group_version scheme_builder) x v tt (ground arith)) none)
      by_first (err c, x) e = absurd (ground arith)
      by_first (panic c, x) e = absurd (ground arith)

  schemes-init : (w v : R.World) → All schemes w v → init R w ≡ (ok tt, v)
  unfolding init must
  schemes-init w v (then_ e (then_ e' none)) = rw (e, e') refl

  -- The process returns from `main` exactly if every step of the start succeeded, in this order: both
  -- schemes, the manager, the five controllers, the two checks, and the run of the manager; any
  -- other end is an exit or a crash before the steps behind it.
  pub process-returned : (w u : R.World) → (process R w ≡ (returned, u)) ↔ Started w u
  unfolding process main or_exit
  process-returned w u = (
    by_init (init R w) refl,
    λ s.
        rw (schemes-init w s.ready s.has_schemes, s.has_manager)
          (run_manager-steps s.manager s.made
            ∙ All-run_steps (steps s.manager) s.made u s.has_steps),
  )
    where
      by_main : (v : R.World) → init R w ≡ (ok tt, v) → main R v ≡ (returned, u) → Started w u
      by_main v e h =
          let parsed = R.parse default_flags v in
          let (m, x, e', h') =
            or_exit-returned (R.new_manager (options_of parsed.0)) (run_manager R) parsed.1 u h in
          record {
            ready = v;
            made = x;
            manager = m;
            has_schemes = init-schemes w v e;
            has_manager = e';
            has_steps = run_steps-All (steps m) x u (sym (run_manager-steps m x) ∙ h');
          }

      by_init :
          (q : Outcome (Unit {0}) × R.World)
          → init R w ≡ q
          → process R w ≡ (returned, u)
          → Started w u
      by_init (ok tt, v) e h = by_main v e (rw e at h)
      by_init (err c, v) e h = absurd (ground arith)
      by_init (panic c, v) e h = absurd (ground arith)
