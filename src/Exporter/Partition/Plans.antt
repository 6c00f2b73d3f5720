-- ===== src/Exporter/Partition/Plans.antt =====
-- exporter/awskinesisexporter/partition.go, resolveKeyPlan: the plan of a strategy that Validate
-- accepts.
use opentelemetry_kinesis_st.Base.{
  ◌≡◌, ◌≢◌, refl, sym, ap, ◌∙◌, Bool, true, false, not, ◌⊎◌, inl, inr, List, [], ◌∷◌, map, Option,
  none, some, Str, is_none, is_empty, str_eq, str_eq_iff, arith, All, Option-cases, Bool-cases,
}
use opentelemetry_kinesis_st.Exporter.Config.{
  Config, PartitionKeySource, tag_hash, partition_strategy_tag_hash,
}
use opentelemetry_kinesis_st.Exporter.Config.Validity.{IsSource, HasStrategy}
use opentelemetry_kinesis_st.Exporter.Partition.{
  Regexp, KeyPlan, full_key, full_keys, tag_key, resolve_key_plan,
}

-- Whether regexp.Compile accepts a pattern, as Validate asks.
abbrev pub compiles : (Str → Option Regexp) → Str → Bool
compiles compile p = not (is_none (compile p))

is_empty-false : {A : Type 0} (xs : List A) → xs ≢ [] → is_empty xs ≡ false
is_empty-false [] h = absurd (h refl)
is_empty-false (x ∷ xs) h = refl

is_empty_nil : {A : Type 0} (xs : List A) → is_empty xs ≡ true → xs ≡ []
is_empty_nil [] h = refl
is_empty_nil (x ∷ xs) h = absurd (cc)

is_empty-map : {A B : Type 0} (f : A → B) (xs : List A) → is_empty (map f xs) ≡ is_empty xs
is_empty-map f [] = refl
is_empty-map f (x ∷ xs) = refl

module _ (compile : Str → Option Regexp) where
  full_key-some :
      (ks : PartitionKeySource) → IsSource (compiles compile) ks → full_key compile ks ≢ none
  unfolding full_key
  full_key-some ks h = ground (arith, str_eq_iff ks.regex [])

  full_keys-some :
      (kss : List PartitionKeySource)
      → All (IsSource (compiles compile)) kss
      → (p : KeyPlan) × (full_keys compile kss ≡ some p) × (is_empty p ≡ is_empty kss)
  unfolding full_keys
  full_keys-some [] h = ([], refl, refl)
  full_keys-some (ks ∷ kss) h = elim (Option-cases (full_key compile ks)) [
    | inl e ↦ absurd (full_key-some ks h.0 e)
    | inr (k, e) ↦
        let (p, q, _) = full_keys-some kss h.1 in (k ∷ p, rw (e, q, full_keys) refl, refl)
  ]

  -- The strategy tag_hash has tags or keys, and its keys are as they should be.
  tag_hash_sources :
      (cfg : Config)
      → HasStrategy (compiles compile) cfg.partition_key
      → tag_hash cfg ≡ true
      → All (IsSource (compiles compile)) cfg.partition_key.keys
        × ((cfg.partition_key.tags ≢ []) ⊎ (cfg.partition_key.keys ≢ []))
  unfolding tag_hash str_eq
  tag_hash_sources cfg (inr h) e = (h.2, elim h.1 [ inl t ↦ inl t.0 | inr k ↦ inr k.1 ])
  tag_hash_sources cfg (inl (inl h)) e =
      absurd (cc (sym (ap (λ t. str_eq t partition_strategy_tag_hash) h), e))
  tag_hash_sources cfg (inl (inr h)) e =
      absurd (cc (sym (ap (λ t. str_eq t partition_strategy_tag_hash) h), e))

  -- The plan is empty for the random strategy only.
  pub resolve_key_plan-some :
      (cfg : Config)
      → HasStrategy (compiles compile) cfg.partition_key
      → (p : KeyPlan) × (resolve_key_plan compile cfg ≡ some p) × (is_empty p ≡ not (tag_hash cfg))
  unfolding resolve_key_plan
  resolve_key_plan-some cfg h = elim (Bool-cases (tag_hash cfg)) [
    | inr e ↦ ([], rw (e, resolve_key_plan) refl, rw e refl)
    | inl e ↦
        let (sources, some_part) = tag_hash_sources cfg h e in
        let (p, q, n) = full_keys-some cfg.partition_key.keys sources in
        elim (Bool-cases (is_empty cfg.partition_key.tags)) [
          | inr t ↦ (
            map tag_key cfg.partition_key.tags,
            rw (e, t, resolve_key_plan) refl,
            rw e (is_empty-map tag_key cfg.partition_key.tags ∙ t),
          )
          | inl t ↦ (
            p,
            rw (e, t, resolve_key_plan) q,
            rw e (
                n
                ∙ is_empty-false cfg.partition_key.keys (elim some_part [
                  | inl u ↦ absurd (u (is_empty_nil cfg.partition_key.tags t))
                  | inr u ↦ u
                ])),
          )
        ]
  ]
