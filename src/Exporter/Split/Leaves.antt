-- ===== src/Exporter/Split/Leaves.antt =====
-- exporter/awskinesisexporter/signal_traces.go and signal_logs.go: the leaves of a batch where they stand,
-- and what the loops of the split do with them.
use mathlib.Core.List.{append_assoc, append-nil, map-append}
use opentelemetry_kinesis_st.Base.{
  ℕ, suc, ◌+◌, ◌-◌, ◌≤◌, ◌≡◌, ◌∙◌, refl, sym, ap, inl, inr, List, [], ◌∷◌, ◌++◌, map, Str, arith,
  ltb, leb, length, Bool-cases,
}
use opentelemetry_kinesis_st.Exporter.Signal.{
  Resource, Scope, ScopeGroup, Batch, count_scopes, count_leaves,
}
use opentelemetry_kinesis_st.Exporter.Split.{place, scope_with, split_scopes}

module _ {A : Type 0} where
  nil_of_length : (xs : List A) → length xs ≤ 0 → xs ≡ []
  nil_of_length [] h = refl
  nil_of_length (x ∷ xs) h = absurd (omega arith)

  place_late : (mid seen : ℕ) (xs : List A) → mid ≤ seen → (place mid seen xs) ≡ ([], xs)
  unfolding place
  place_late mid seen [] h = refl
  place_late mid seen (x ∷ xs) h = rw (place_late mid (suc seen) xs (omega arith)) (ground arith)

  pub place-append :
      (mid seen : ℕ) (xs : List A) → (place mid seen xs).0 ++ (place mid seen xs).1 ≡ xs
  unfolding place
  place-append mid seen [] = refl
  place-append mid seen (x ∷ xs) = elim (Bool-cases (ltb seen mid)) [
    | inl e ↦ rw (e, place) (ap (λ (t : List A). x ∷ t) (place-append mid (suc seen) xs))
    | inr e ↦ rw (e, place) (rw (place_late mid (suc seen) xs (ground arith)) refl)
  ]

  -- How many go to each side.
  pub place-sizes :
      (mid seen : ℕ) (xs : List A)
      → (length (place mid seen xs).0 ≤ mid - seen)
        × (length (place mid seen xs).1 ≤ seen + length xs - mid)
        × (length (place mid seen xs).0 + length (place mid seen xs).1 ≡ length xs)
  unfolding place
  place-sizes mid seen [] = omega arith
  place-sizes mid seen (x ∷ xs) = elim (Bool-cases (ltb seen mid)) [
    | inl e ↦ rw (e, place) (ground (arith, place-sizes mid (suc seen) xs))
    | inr e ↦ rw (e, place) (ground (arith, place-sizes mid (suc seen) xs))
  ]

-- A leaf with its resource and scope and their schema URLs.
pub record Placed (L : Type 0) : Type 0 where
  pub resource : Resource
  pub resource_schema : Str
  pub scope : Scope
  pub scope_schema : Str
  pub leaf : L

module _ {L : Type 0} where
  unfoldable pub placed : Resource → Str → ScopeGroup L → L → Placed L
  placed r u s x = record {
    resource = r;
    resource_schema = u;
    scope = s.scope;
    scope_schema = s.schema_url;
    leaf = x;
  }

  unfoldable pub scope_leaves : Resource → Str → List (ScopeGroup L) → List (Placed L)
  unfolding placed
  scope_leaves r u [] = []
  scope_leaves r u (s ∷ ss) = map (placed r u s) s.leaves ++ scope_leaves r u ss

  -- The leaves of a batch, in order.
  unfoldable pub leaves_of : Batch L → List (Placed L)
  unfolding scope_leaves
  leaves_of [] = []
  leaves_of (r ∷ rs) = scope_leaves r.resource r.schema_url r.scopes ++ leaves_of rs

  pub leaves_of-append : (a b : Batch L) → leaves_of (a ++ b) ≡ leaves_of a ++ leaves_of b
  unfolding leaves_of
  leaves_of-append [] b = refl
  leaves_of-append (r ∷ a) b =
      ap (λ t. scope_leaves r.resource r.schema_url r.scopes ++ t) (leaves_of-append a b)
      ∙ sym (append_assoc _ (leaves_of a) (leaves_of b))

  scope_leaves-append :
      (r : Resource) (u : Str) (a b : List (ScopeGroup L))
      → scope_leaves r u (a ++ b) ≡ scope_leaves r u a ++ scope_leaves r u b
  unfolding scope_leaves
  scope_leaves-append r u [] b = refl
  scope_leaves-append r u (s ∷ a) b =
      ap (λ t. map (placed r u s) s.leaves ++ t) (scope_leaves-append r u a b)
      ∙ sym (append_assoc _ (scope_leaves r u a) (scope_leaves r u b))

  scope_leaves-with :
      (r : Resource) (u : Str) (s : ScopeGroup L) (xs : List L)
      → scope_leaves r u (scope_with s xs) ≡ map (placed r u s) xs
  unfolding scope_leaves scope_with placed
  scope_leaves-with r u s [] = refl
  scope_leaves-with r u s (x ∷ xs) = append-nil _

  split_scopes_late :
      (mid seen : ℕ) (ss : List (ScopeGroup L)) → mid ≤ seen → (split_scopes mid seen ss).0 ≡ []
  unfolding split_scopes scope_with
  split_scopes_late mid seen [] h = refl
  split_scopes_late mid seen (s ∷ ss) h =
      rw (place_late mid seen s.leaves h)
        (split_scopes_late mid (seen + length s.leaves) ss (omega arith))

  pub scope_leaves-cons :
      (r : Resource) (u : Str) (s : ScopeGroup L) (ss : List (ScopeGroup L))
      → scope_leaves r u (s ∷ ss) ≡ map (placed r u s) s.leaves ++ scope_leaves r u ss
  unfolding scope_leaves
  scope_leaves-cons r u s ss = refl

  scope_leaves-nil : (r : Resource) (u : Str) → scope_leaves r u [] ≡ []
  unfolding scope_leaves
  scope_leaves-nil r u = refl

  -- One scope is split, or it goes to the first side whole.
  module _ (r : Resource) (u : Str) (mid seen : ℕ) (s : ScopeGroup L) (a b : List (ScopeGroup L))
      (ss : List (ScopeGroup L))
      (ih : scope_leaves r u a ++ scope_leaves r u b ≡ scope_leaves r u ss) where
    whole_scope :
        (place mid seen s.leaves).1 ≡ []
        → scope_leaves r u (scope_with s (place mid seen s.leaves).0 ++ a)
            ++ scope_leaves r u (scope_with s (place mid seen s.leaves).1 ++ b)
          ≡ scope_leaves r u (s ∷ ss)
    whole_scope e =
        let all : (place mid seen s.leaves).0 ≡ s.leaves =
          sym (append-nil _)
          ∙ ap (λ t. (place mid seen s.leaves).0 ++ t) (sym e)
          ∙ place-append mid seen s.leaves in
        rw
          (
            scope_leaves-append r u (scope_with s (place mid seen s.leaves).0) a,
            scope_leaves-append r u (scope_with s (place mid seen s.leaves).1) b,
            scope_leaves-with r u s (place mid seen s.leaves).0,
            scope_leaves-with r u s (place mid seen s.leaves).1,
            scope_leaves-cons r u s ss,
            e,
            all,
          )
          (append_assoc (map (placed r u s) s.leaves) (scope_leaves r u a) (scope_leaves r u b)
            ∙ ap (λ t. map (placed r u s) s.leaves ++ t) ih)

    split_scope :
        a ≡ []
        → scope_leaves r u (scope_with s (place mid seen s.leaves).0 ++ a)
            ++ scope_leaves r u (scope_with s (place mid seen s.leaves).1 ++ b)
          ≡ scope_leaves r u (s ∷ ss)
    split_scope e =
        let rest : scope_leaves r u b ≡ scope_leaves r u ss =
          ap (λ t. t ++ scope_leaves r u b)
            (sym (scope_leaves-nil r u) ∙ ap (scope_leaves r u) (sym e))
          ∙ ih in
        rw
          (
            e,
            append-nil (scope_with s (place mid seen s.leaves).0),
            scope_leaves-append r u (scope_with s (place mid seen s.leaves).1) b,
            scope_leaves-with r u s (place mid seen s.leaves).0,
            scope_leaves-with r u s (place mid seen s.leaves).1,
            scope_leaves-cons r u s ss,
          )
          (sym
              (append_assoc (map (placed r u s) (place mid seen s.leaves).0) _ (scope_leaves r u b))
            ∙ ap (λ t. t ++ scope_leaves r u b)
                (sym (map-append (placed r u s) _ _)
                  ∙ ap (map (placed r u s)) (place-append mid seen s.leaves))
            ∙ ap (λ t. map (placed r u s) s.leaves ++ t) rest)

  -- The two sides of a split of scopes, one after the other, are the scopes' leaves.
  pub split_scopes-leaves :
      (r : Resource) (u : Str) (mid seen : ℕ) (ss : List (ScopeGroup L))
      → scope_leaves r u (split_scopes mid seen ss).0
          ++ scope_leaves r u (split_scopes mid seen ss).1
        ≡ scope_leaves r u ss
  unfolding split_scopes
  split_scopes-leaves r u mid seen [] = rw (scope_leaves-nil r u) refl
  split_scopes-leaves r u mid seen (s ∷ ss) =
      let next = seen + length s.leaves in
      let q = split_scopes mid next ss in
      let ih = split_scopes-leaves r u mid next ss in
      elim (Bool-cases (leb mid next)) [
        | inl e ↦
            split_scope r u mid seen s q.0 q.1 ss ih (split_scopes_late mid next ss (ground arith))
        | inr e ↦ whole_scope r u mid seen s q.0 q.1 ss ih (
            nil_of_length (place mid seen s.leaves).1
              (ground (arith, place-sizes mid seen s.leaves)))
      ]

  scope_with-count :
      (s : ScopeGroup L) (xs : List L) (ss : List (ScopeGroup L))
      → count_scopes (scope_with s xs ++ ss) ≡ length xs + count_scopes ss
  unfolding scope_with
  scope_with-count s [] ss = omega arith
  scope_with-count s (x ∷ xs) ss = refl

  -- How many leaves go to each side.
  pub split_scopes-sizes :
      (mid seen : ℕ) (ss : List (ScopeGroup L))
      → (count_scopes (split_scopes mid seen ss).0 ≤ mid - seen)
        × (count_scopes (split_scopes mid seen ss).1 ≤ seen + count_scopes ss - mid)
        × (count_scopes (split_scopes mid seen ss).0 + count_scopes (split_scopes mid seen ss).1
            ≡ count_scopes ss)
  unfolding split_scopes
  split_scopes-sizes mid seen [] = omega arith
  split_scopes-sizes mid seen (s ∷ ss) =
      let p = place mid seen s.leaves in
      let q = split_scopes mid (seen + length s.leaves) ss in
      omega (
        arith,
        place-sizes mid seen s.leaves,
        split_scopes-sizes mid (seen + length s.leaves) ss,
        scope_with-count s p.0 q.0,
        scope_with-count s p.1 q.1,
      )

  pub count_leaves-append :
      (a b : Batch L) → count_leaves (a ++ b) ≡ count_leaves a + count_leaves b
  count_leaves-append [] b = omega arith
  count_leaves-append (r ∷ a) b = omega (arith, count_leaves-append a b)
