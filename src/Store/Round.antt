-- ===== src/Store/Round.antt =====
-- The next round of a builder (controllers/builder_controller.go) over a store.
use cloudrun.Base.{
  ℤ, ltb_ℤ, ◌≡◌, ◌≢◌, ◌⊎◌, refl, sym, ap, subst, ◌∙◌, Bool-cases, if◌then◌else◌, inl, inr, String,
  is_empty, true, false, none, some, [], ◌∷◌, ◌++◌, arith,
}
use cloudrun.Types.{CommonStatus, NamespacedName}
use cloudrun.Api.Builder.{Builder, common_status}
use cloudrun.Cluster.Outcome.{ok}
use cloudrun.Cluster.Client.{Cluster, Kind, builder, job}
use cloudrun.Cluster.Crd.{Run, builder_crd}
use cloudrun.Core.Archive.{history_of}
use cloudrun.Core.Context.{Context, object_key}
use cloudrun.Core.History.{backup_state, common_history, is_zero}
use cloudrun.Core.Job.{delete_job}
use cloudrun.Build.Names.{current_round}
use cloudrun.Controllers.Builder.{by_round, next_round, start_round}
use cloudrun.Controllers.Reconcile.{requeue}
use cloudrun.Store.{IsStore, KeepsOthers, Objects}
use cloudrun.Store.Others.{others_at}
use cloudrun.Store.Cleanup.{delete_job-none, round_key}

builder-ne-job : builder ≢ job
builder-ne-job h = cc

-- A write to a job, and then one to a builder.
apart :
    (before mid after : Objects) (n n' : NamespacedName)
    → KeepsOthers before mid job n
    → KeepsOthers mid after builder n'
    → (j : Kind) (m : NamespacedName)
    → (after j m ≡ before j m) ⊎ ((j ≡ job) × (m ≡ n)) ⊎ ((j ≡ builder) × (m ≡ n'))
apart before mid after n n' first then_ j m = elim (then_ j m) [
  | inl same' ↦ elim (first j m) [ inl same ↦ inl (same' ∙ same) | inr it ↦ inr (inl it) ]
  | inr it ↦ inr (inr it)
]

-- The builder with a status.
abbrev pub with_base : Builder → CommonStatus → Builder
with_base o base = record o { status = record { base = some base } }

-- The status that keeps what is to be known of a round that ends: nothing of round 0.
abbrev pub archived : CommonStatus → String → CommonStatus
archived base text = record base {
  history_list =
      if is_zero base.current_round then base.history_list else base.history_list ++ (text ∷ []);
}

module _ (K : Cluster) (o : Builder) (base : CommonStatus) (text : String)
    (marshalled : K.marshal builder (history_of o.spec base) ≡ ok text)
    (full : is_empty text ≡ false) where
  backup_state-archived :
      (v : K.World)
      → backup_state K builder builder_crd o.spec (record { world = v; self = with_base o base })
        ≡ (ok tt, record { world = v; self = with_base o (archived base text) })
  unfolding backup_state common_history common_status
  backup_state-archived v = elim (Bool-cases (is_zero base.current_round)) [
    | inl first ↦ rw first refl
    | inr later ↦ rw (later, marshalled, full) refl
  ]

  module _ (S : IsStore K) (ctx : Context) (w : K.World)
      (there : S.objects w builder (object_key o) ≡ some (with_base o base)) where
    -- What a builder is, and what the store has, when its next round has begun.
    pub record Begun (t : Run K.World Builder) : Type 0 where
      pub clock : ℤ
      pub stored : S.objects t.world builder (object_key o) ≡ some t.self
      pub status : t.self.status.base ≡ some (start_round o.spec.round clock (archived base text))
      pub spec : t.self.spec ≡ o.spec
      pub version : String
      pub header : t.self.meta ≡ record o.meta { resource_version = version }
      pub no_job : S.objects t.world job (round_key ctx base.current_round) ≡ none
      pub others :
          (j : Kind) (m : NamespacedName)
          → (S.objects t.world j m ≡ S.objects w j m)
            ⊎ ((j ≡ job) × (m ≡ round_key ctx base.current_round))
            ⊎ ((j ≡ builder) × (m ≡ object_key o))

    next_round-steps :
        (v u : K.World) (q : Builder)
        → delete_job K ctx base.current_round (record { world = w; self = with_base o base })
          ≡ (ok tt, record { world = v; self = with_base o base })
        → K.update_status builder
            (with_base o (start_round o.spec.round (K.now v).0 (archived base text)))
            (K.now v).1
          ≡ (ok q, u)
        → next_round K ctx (record { world = w; self = with_base o base })
          ≡ (ok (requeue 5), record { world = u; self = q })
    unfolding next_round current_round common_status
    next_round-steps v u q deleted written = rw (deleted, backup_state-archived v, written) refl

    next_round-Begun :
        (t : Run K.World Builder) × (next_round K ctx
            (record { world = w; self = with_base o base })
          ≡ (ok (requeue 5), t))
        × Begun t
    next_round-Begun =
        let s : Run K.World Builder = record { world = w; self = with_base o base } in
        let (v, deleted, (gone, others)) = delete_job-none K S ctx base.current_round s in
        let x = (K.now v).1 in
        let new = with_base o (start_round o.spec.round (K.now v).0 (archived base text)) in
        let jkey = round_key ctx base.current_round in
        let same : S.objects x builder (object_key o) ≡ some (with_base o base) =
          ap (λ f. f builder (object_key o)) (S.objects-now v)
          ∙ others_at (S.objects w) (S.objects v) job jkey builder (object_key o) others
              (inl builder-ne-job)
          ∙ there in
        let (q, u, written, stored, status, spec, others') =
          S.update_status-some builder new (with_base o base) x same refl refl in
        let (version, header) =
          S.update_status-meta builder new (with_base o base) q x u same refl written in
        (
          record { world = u; self = q },
          next_round-steps v u q deleted written,
          record {
            clock = (K.now v).0;
            stored = stored;
            status = ap (λ st. st.base) status;
            spec = spec;
            version = version;
            header = header;
            no_job =
                others_at (S.objects x) (S.objects u) builder (object_key o) job jkey others'
                  (inl (λ e. builder-ne-job (sym e)))
                ∙ ap (λ f. f job jkey) (S.objects-now v)
                ∙ gone;
            others = apart (S.objects w) (S.objects v) (S.objects u) jkey (object_key o) others (
                subst (λ f. KeepsOthers f (S.objects u) builder (object_key o)) (S.objects-now v)
                  others');
          },
        )

    -- Over a store that has the builder under reconciliation, whose round is older than its spec's, and
    -- where the marshalling of the old round's history gives a text that is not empty: the
    -- reconciliation (behind the finalizer) succeeds and asks for another; the job of the old round is
    -- gone, whether it was there or not; the stored builder has the spec as it was, and the status of
    -- the spec's round, pending, with that text behind its history, or none if the old round was 0; no
    -- other object is touched.
    pub by_round-Begun :
        (h : ltb_ℤ base.current_round o.spec.round ≡ true)
        → (t : Run K.World Builder) × (by_round K ctx
              (record { world = w; self = with_base o base })
            ≡ (ok (requeue 5), t))
          × Begun t
    unfolding by_round common_status
    by_round-Begun h = let (t, done, begun) = next_round-Begun in (t, ground arith, begun)
