-- ===== src/Exporter/Partition/Weights.antt =====
-- exporter/awskinesisexporter/partition_grouping.go: sums over the leaves of batches, by which what a
-- grouping keeps is stated. A weight may look at the group's key, at a view of the resource, at the
-- scope and at the leaf.
use opentelemetry_kinesis_st.Base.{ℕ, ◌+◌, ◌≡◌, refl, List, [], ◌∷◌, ◌++◌, map, Str, arith}
use opentelemetry_kinesis_st.Exporter.Emit.{TaggedBatch}
use opentelemetry_kinesis_st.Exporter.Signal.{Resource, Scope, ScopeGroup, ResourceGroup, Batch}

unfoldable pub sum_of : {A : Type 0} → (A → ℕ) → List A → ℕ
sum_of f [] = 0
sum_of f (x ∷ xs) = f x + sum_of f xs

pub sum_of-append :
    {A : Type 0} (f : A → ℕ) (xs ys : List A) → sum_of f (xs ++ ys) ≡ sum_of f xs + sum_of f ys
unfolding sum_of
sum_of-append f [] ys = omega arith
sum_of-append f (x ∷ xs) ys = omega (arith, sum_of-append f xs ys)

pub sum_of-map :
    {A B : Type 0} (f : B → ℕ) (g : A → B) (xs : List A)
    → sum_of f (map g xs) ≡ sum_of (λ x. f (g x)) xs
unfolding sum_of
sum_of-map f g [] = refl
sum_of-map f g (x ∷ xs) = omega (arith, sum_of-map f g xs)

pub sum_of-ext :
    {A : Type 0} (f g : A → ℕ) (xs : List A) → ((x : A) → f x ≡ g x) → sum_of f xs ≡ sum_of g xs
unfolding sum_of
sum_of-ext f g [] h = refl
sum_of-ext f g (x ∷ xs) h = omega (arith, h x, sum_of-ext f g xs h)

-- A weight of a leaf by its group's key, the view of its resource, its scope and the scope's schema.
abbrev pub Weight : Type 0 → Type 0 → Type 0
Weight V L = Str → V → Scope → Str → L → ℕ

module _ {V L : Type 0} (view : Resource → Str → V) (f : Weight V L) where
  unfoldable pub scope_weight : Str → V → ScopeGroup L → ℕ
  scope_weight k v s = sum_of (f k v s.scope s.schema_url) s.leaves

  unfoldable pub resource_weight : Str → ResourceGroup L → ℕ
  unfolding scope_weight
  resource_weight k r = sum_of (scope_weight k (view r.resource r.schema_url)) r.scopes

  -- All leaves of the groups.
  unfoldable pub groups_weight : List (TaggedBatch (Batch L)) → ℕ
  unfolding resource_weight
  groups_weight gs = sum_of (λ g. sum_of (resource_weight g.key) g.batch) gs
