-- ===== src/Exporter/Split/Keeps.antt =====
-- exporter/awskinesisexporter/signal_traces.go: the halves of a split hold the leaves of the batch, in
-- order, and each is smaller.
use mathlib.Core.List.{append-nil}
use opentelemetry_kinesis_st.Base.{
  ℕ, ◌+◌, ◌/◌, ◌≤◌, ◌<◌, ◌≡◌, ◌∙◌, sym, ap, inl, inr, [], ◌∷◌, ◌++◌, Option, none, some, arith, ltb,
  leb, length, Bool-cases,
}
use opentelemetry_kinesis_st.Exporter.Signal.{ResourceGroup, Batch, count_scopes, count_leaves}
use opentelemetry_kinesis_st.Exporter.Split.{
  place, split_scopes, split_resource, split_alone, split_half,
}
use opentelemetry_kinesis_st.Exporter.Split.Leaves.{
  place-append, place-sizes, scope_leaves, leaves_of, leaves_of-append, split_scopes-leaves,
  split_scopes-sizes, count_leaves-append,
}

module _ {L : Type 0} where
  -- A half of a batch is smaller in resources and leaves together.
  abbrev pub size : Batch L → ℕ
  size td = length td + count_leaves td

  -- What the two halves are.
  pub record Halves (td a b : Batch L) : Type 0 where
    pub in_order : leaves_of a ++ leaves_of b ≡ leaves_of td
    pub counted : count_leaves a + count_leaves b ≡ count_leaves td
    pub first_smaller : size a < size td
    pub second_smaller : size b < size td

  pub place-Halves :
      (td : Batch L)
      → 1 < length td
      → Halves td (place (length td / 2) 0 td).0 (place (length td / 2) 0 td).1
  place-Halves td h =
      let p = place (length td / 2) 0 td in
      let whole = place-append (length td / 2) 0 td in
      let c : count_leaves p.0 + count_leaves p.1 ≡ count_leaves td =
        sym (count_leaves-append p.0 p.1) ∙ ap count_leaves whole in
      record {
        in_order = sym (leaves_of-append p.0 p.1) ∙ ap leaves_of whole;
        counted = c;
        first_smaller = omega (arith, c, place-sizes (length td / 2) 0 td);
        second_smaller = omega (arith, c, place-sizes (length td / 2) 0 td);
      }

  pub split_resource-Halves :
      (mid : ℕ) (rs : ResourceGroup L)
      → 0 < mid
      → mid < count_scopes rs.scopes
      → Halves (rs ∷ []) (split_resource mid rs).0 (split_resource mid rs).1
  unfolding split_resource leaves_of
  split_resource-Halves mid rs h k =
      let c = split_scopes-sizes mid 0 rs.scopes in
      record {
        in_order =
            rw
              (
                append-nil
                    (scope_leaves rs.resource rs.schema_url (split_scopes mid 0 rs.scopes).0),
                append-nil
                    (scope_leaves rs.resource rs.schema_url (split_scopes mid 0 rs.scopes).1),
                append-nil (scope_leaves rs.resource rs.schema_url rs.scopes),
              )
              (split_scopes-leaves rs.resource rs.schema_url mid 0 rs.scopes);
        counted = omega (arith, c);
        first_smaller = omega (arith, c);
        second_smaller = omega (arith, c);
      }

  -- What a split comes to: nothing for a batch of at most one resource and one leaf, or the halves.
  abbrev pub IsSplit : Batch L → Option (Batch L × Batch L) → Type 0
  IsSplit td none = (length td ≤ 1) × (count_leaves td ≤ 1)
  IsSplit td (some (a, b)) = Halves td a b

  split_alone-IsSplit : (td : Batch L) → length td ≤ 1 → IsSplit td (split_alone td)
  unfolding split_alone
  split_alone-IsSplit [] h = omega arith
  split_alone-IsSplit (rs ∷ []) h = elim (Bool-cases (leb (count_leaves (rs ∷ [])) 1)) [
    | inl e ↦ rw (e, split_alone) (omega arith, ground arith)
    | inr e ↦
        rw (e, split_alone)
          (split_resource-Halves (count_leaves (rs ∷ []) / 2) rs (ground arith) (ground arith))
  ]
  split_alone-IsSplit (rs ∷ (q ∷ rest)) h = absurd (omega arith)

  -- splitTracesHalf and splitLogsHalf give up only on a batch of at most one resource and one leaf.
  -- Otherwise the leaves of the first half and then of the second are those of the batch, in order,
  -- each under its resource and scope with their schema URLs, and each half is smaller in resources
  -- and leaves together, so that splitting again and again ends.
  pub split_half-IsSplit : (td : Batch L) → IsSplit td (split_half td)
  unfolding split_half
  split_half-IsSplit td = elim (Bool-cases (ltb 1 (length td))) [
    | inl e ↦ rw (e, split_half) (place-Halves td (ground arith))
    | inr e ↦ rw (e, split_half) (split_alone-IsSplit td (ground arith))
  ]
