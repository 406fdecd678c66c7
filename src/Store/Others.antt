-- ===== src/Store/Others.antt =====
-- The objects that a write leaves as they are.
use cloudrun.Base.{◌≡◌, ◌≢◌, ◌⊎◌, sym, ap, ◌∙◌, inl, inr, ◌===◌, eq_iff, Bool-cases, true, false}
use cloudrun.Types.{NamespacedName}
use cloudrun.Cluster.Client.{Kind}
use cloudrun.Store.{KeepsOthers, Objects}

true-ne-false : true ≡ false → ⊥
true-ne-false h = cc

-- Two names are the same, or they are not.
pub NamespacedName-cases : (n m : NamespacedName) → (n ≡ m) ⊎ (n ≢ m)
NamespacedName-cases n m = elim (Bool-cases (n.name === m.name)) [
  | inl same ↦ elim (Bool-cases (n.namespace === m.namespace)) [
    | inl same' ↦
        let first = (eq_iff n.name m.name).0 same in
        let second = (eq_iff n.namespace m.namespace).0 same' in
        inl (λ i. record { name = first i; namespace = second i })
    | inr differ' ↦ inr (λ e.
        true-ne-false
          (sym ((eq_iff n.namespace m.namespace).1 (ap (λ x. x.namespace) e)) ∙ differ'))
  ]
  | inr differ ↦
      inr (λ e. true-ne-false (sym ((eq_iff n.name m.name).1 (ap (λ x. x.name) e)) ∙ differ))
]

Kind-discrete : Discrete Kind
Kind-discrete = hlevel

module _ (before after : Objects) (k : Kind) (n : NamespacedName) where
  -- An object of another kind or name is as it was.
  pub others_at :
      (j : Kind) (m : NamespacedName)
      → KeepsOthers before after k n
      → (j ≢ k) ⊎ (m ≢ n)
      → after j m ≡ before j m
  others_at j m keeps apart = elim (keeps j m) [
    | inl same ↦ same
    | inr (kind, name) ↦ absurd (elim apart [ inl differ ↦ differ kind | inr differ ↦ differ name ])
  ]

  pub KeepsOthers-of :
      ((j : Kind) (m : NamespacedName) → (j ≢ k) ⊎ (m ≢ n) → after j m ≡ before j m)
      → KeepsOthers before after k n
  KeepsOthers-of keeps j m = elim (Kind-discrete j k) [
    | yes kind ↦ elim (NamespacedName-cases m n) [
      | inl name ↦ inr (kind, name)
      | inr differ ↦ inl (keeps j m (inr differ))
    ]
    | no differ ↦ inl (keeps j m (inl differ))
  ]

pub KeepsOthers-trans :
    (before mid after : Objects) (k : Kind) (n : NamespacedName)
    → KeepsOthers before mid k n
    → KeepsOthers mid after k n
    → KeepsOthers before after k n
KeepsOthers-trans before mid after k n first then_ j m = elim (then_ j m) [
  | inl same' ↦ elim (first j m) [ inl same ↦ inl (same' ∙ same) | inr it ↦ inr it ]
  | inr it ↦ inr it
]
