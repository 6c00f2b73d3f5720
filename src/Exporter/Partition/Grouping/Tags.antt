-- ===== src/Exporter/Partition/Grouping/Tags.antt =====
-- exporter/awskinesisexporter/signal_traces.go and signal_logs.go: the grouping by resource, and the
-- grouping by any plan.
use opentelemetry_kinesis_st.Base.{
  ℕ, ◌+◌, ◌≡◌, ◌∙◌, refl, sym, inl, inr, List, [], ◌∷◌, Str, str_eq, str_eq_refl, arith, All,
  length, Bool-cases,
}
use opentelemetry_kinesis_st.Base.Keyed.{
  weigh, weigh-find_or_create, AreDistinct, AreDistinct-find_or_create,
}
use opentelemetry_kinesis_st.Exporter.Emit.{TaggedBatch}
use opentelemetry_kinesis_st.Exporter.Partition.{KeyPlan, resource_only, resolve_parts, join_parts}
use opentelemetry_kinesis_st.Exporter.Partition.Grouping.{
  LeafOps, empty_attrs, whole_resource, add_resource, add_all_resources, group_by_resource,
  group_by_leaf, group_by_tags,
}
use opentelemetry_kinesis_st.Exporter.Partition.Grouping.Keeps.{
  HaveOwnKeys, HaveOwnKeys-map, weigh-sum_of, group_by_leaf-keeps,
}
use opentelemetry_kinesis_st.Exporter.Partition.Grouping.Leaves.{
  str_eq_sound, input_weight, leaf_weight,
}
use opentelemetry_kinesis_st.Exporter.Partition.Weights.{
  sum_of, sum_of-append, sum_of-map, sum_of-ext, Weight, scope_weight, resource_weight,
  groups_weight,
}
use opentelemetry_kinesis_st.Exporter.Signal.{
  Resource, ScopeGroup, ResourceGroup, Batch, count_scopes, count_leaves,
}

module _ {L : Type 0} (plan : KeyPlan) (g : Str → ResourceGroup L → ℕ) where
  parts_of : ResourceGroup L → List Str
  parts_of rs = resolve_parts plan rs.resource.attributes [] empty_attrs

  -- What a resource weighs in the group of its key, with the promoted attributes.
  unfoldable pub own_weight : ResourceGroup L → ℕ
  unfolding parts_of
  own_weight rs = g (join_parts (parts_of rs)) (whole_resource plan (parts_of rs) rs)

  abbrev batch_weight : Str → Batch L → ℕ
  batch_weight k b = sum_of (g k) b

  All-trivial : (m : List (Str × Batch L)) → All (λ (e : Str × Batch L). Unit {0}) m
  All-trivial [] = tt
  All-trivial (e ∷ m) = (tt, All-trivial m)

  add_resource-weight :
      (m : List (Str × Batch L)) (rs : ResourceGroup L)
      → weigh batch_weight (add_resource plan m rs) ≡ weigh batch_weight m + own_weight rs
  unfolding add_resource own_weight parts_of sum_of
  add_resource-weight m rs =
      weigh-find_or_create str_eq str_eq_sound batch_weight (λ _ _. Unit) _ _ _ _ refl tt
        (λ d _. omega (
          arith,
          sum_of-append (g (join_parts (parts_of rs))) d
              (whole_resource plan (parts_of rs) rs ∷ []),
        ))
        m (All-trivial m)

  add_all_resources-weight :
      (m : List (Str × Batch L)) (td : Batch L)
      → weigh batch_weight (add_all_resources plan m td)
        ≡ weigh batch_weight m + sum_of own_weight td
  unfolding add_all_resources sum_of
  add_all_resources-weight m [] = omega arith
  add_all_resources-weight m (rs ∷ td) =
      omega (arith, add_resource-weight m rs, add_all_resources-weight (add_resource plan m rs) td)

  add_all_resources-AreDistinct :
      (m : List (Str × Batch L)) (td : Batch L)
      → AreDistinct m
      → AreDistinct (add_all_resources plan m td)
  unfolding add_all_resources add_resource
  add_all_resources-AreDistinct m [] h = h
  add_all_resources-AreDistinct m (rs ∷ td) h =
      add_all_resources-AreDistinct (add_resource plan m rs) td
        (AreDistinct-find_or_create str_eq str_eq_sound str_eq_refl _ _ _ m h)

  -- For any weight of a resource with its leaves by the key of its group: the groupings by resource
  -- give groups with different keys, in which the resources weigh as much as the input's do in the
  -- groups of the keys that the plan gives them, with the attributes that it promotes. So every
  -- resource is once, and whole, in the group of its key.
  pub group_by_resource-keeps :
      (td : Batch L)
      → (sum_of (λ gr. sum_of (g gr.key) gr.batch) (group_by_resource plan td)
          ≡ sum_of own_weight td)
        × HaveOwnKeys (group_by_resource plan td)
  unfolding group_by_resource weigh
  group_by_resource-keeps td = (
    sum_of-map (λ gr. sum_of (g gr.key) gr.batch) (λ e. record { key = e.0; batch = e.1 }) _
        ∙ sym (weigh-sum_of batch_weight _)
        ∙ add_all_resources-weight [] td
        ∙ omega arith,
    HaveOwnKeys-map (λ e. e.1) _ (add_all_resources-AreDistinct [] td tt),
  )

pub ones : {A : Type 0} (xs : List A) → sum_of (λ x. 1) xs ≡ length xs
unfolding sum_of
ones [] = refl
ones (x ∷ xs) = omega (arith, ones xs)

abbrev pub no_view : Resource → Str → Unit {0}
no_view r u = tt

module _ {L : Type 0} where
  -- The weight by which leaves are counted.
  abbrev one : Weight (Unit {0}) L
  one k v s u x = 1

  scope-ones :
      (ss : List (ScopeGroup L)) → sum_of (λ s. sum_of (λ x. 1) s.leaves) ss ≡ count_scopes ss
  unfolding sum_of
  scope-ones [] = refl
  scope-ones (s ∷ ss) = omega (arith, ones s.leaves, scope-ones ss)

  batch-ones :
      (td : Batch L)
      → sum_of (λ r. sum_of (λ s. sum_of (λ x. 1) s.leaves) r.scopes) td ≡ count_leaves td
  unfolding sum_of
  batch-ones [] = refl
  batch-ones (r ∷ td) = omega (arith, scope-ones r.scopes, batch-ones td)

  abbrev pub count_groups : List (TaggedBatch (Batch L)) → ℕ
  count_groups gs = sum_of (λ g. count_leaves g.batch) gs

  by_leaf-counts :
      (ops : LeafOps L) (plan : KeyPlan) (td : Batch L)
      → count_groups (group_by_leaf ops plan td) ≡ count_leaves td
  unfolding groups_weight resource_weight scope_weight input_weight leaf_weight
  by_leaf-counts ops plan td =
      sum_of-ext _ _ (group_by_leaf ops plan td) (λ g. sym (batch-ones g.batch))
      ∙ (group_by_leaf-keeps no_view one ops plan (λ parts r u. refl) td).0
      ∙ batch-ones td

  whole_resource-counts :
      (plan : KeyPlan) (parts : List Str) (rs : ResourceGroup L)
      → count_scopes (whole_resource plan parts rs).scopes ≡ count_scopes rs.scopes
  unfolding whole_resource
  whole_resource-counts plan parts rs = ground arith

  count-sum : (td : Batch L) → count_leaves td ≡ sum_of (λ r. count_scopes r.scopes) td
  unfolding sum_of
  count-sum [] = refl
  count-sum (r ∷ td) = omega (arith, count-sum td)

  by_resource-counts :
      (plan : KeyPlan) (td : Batch L) → count_groups (group_by_resource plan td) ≡ count_leaves td
  unfolding own_weight
  by_resource-counts plan td =
      sum_of-ext _ _ (group_by_resource plan td) (λ g. count-sum g.batch)
      ∙ (group_by_resource-keeps plan (λ k r. count_scopes r.scopes) td).0
      ∙ sum_of-ext _ _ td (λ r. whole_resource-counts plan _ r)
      ∙ sym (count-sum td)

  -- For every plan, with or without promotions: the groups that groupTracesByTags and groupLogsByTags
  -- make hold as many leaves together as the batch, and no two of them have the same key.
  pub group_by_tags-counts :
      (ops : LeafOps L) (plan : KeyPlan) (td : Batch L)
      → (count_groups (group_by_tags (group_by_leaf ops) plan td) ≡ count_leaves td)
        × HaveOwnKeys (group_by_tags (group_by_leaf ops) plan td)
  unfolding group_by_tags sum_of
  group_by_tags-counts ops [] td = (omega arith, (tt, tt))
  group_by_tags-counts ops (k ∷ p) td = elim (Bool-cases (resource_only (k ∷ p))) [
    | inl e ↦
        rw (e, group_by_tags)
          (by_resource-counts (k ∷ p) td, (group_by_resource-keeps (k ∷ p) (λ _ _. 0) td).1)
    | inr e ↦
        rw (e, group_by_tags)
          (
            by_leaf-counts ops (k ∷ p) td,
            (group_by_leaf-keeps no_view one ops (k ∷ p) (λ parts r u. refl) td).1,
          )
  ]
