-- ===== src/Exporter/Partition/Grouping/Leaves.antt =====
-- exporter/awskinesisexporter/partition_grouping.go: the grouping by leaf keeps every leaf, in the
-- group of its key and under its resource and scope.
use opentelemetry_kinesis_st.Base.{
  ℕ, suc, ◌+◌, ◌≡◌, ◌∙◌, refl, sym, ap, true, List, [], ◌∷◌, Str, str_eq, str_eq_iff, arith, All,
}
use opentelemetry_kinesis_st.Base.Keyed.{
  find_or_create, weigh, weigh-find_or_create, All-find_or_create,
}
use opentelemetry_kinesis_st.Exporter.Partition.{KeyPlan, join_parts}
use opentelemetry_kinesis_st.Exporter.Partition.Grouping.{
  Bucket, BucketResource, LeafOps, nat_eq, append_leaf, ensure_scope, leaf_parts, promoted_leaf,
  promoted_resource, add_leaf, add_leaves, add_scopes, add_resources,
}
use opentelemetry_kinesis_st.Exporter.Partition.Weights.{
  sum_of, sum_of-append, Weight, scope_weight,
}
use opentelemetry_kinesis_st.Exporter.Signal.{Resource, Scope, ScopeGroup, ResourceGroup, Batch}

pub nat_eq_sound : (a b : ℕ) → nat_eq a b ≡ true → a ≡ b
nat_eq_sound a b h = ground arith

pub str_eq_sound : (a b : Str) → str_eq a b ≡ true → a ≡ b
str_eq_sound a b = (str_eq_iff a b).0

-- The scopes and the resources of the input stand at their indices.
module _ {L : Type 0} where
  abbrev pub ScopesAt : (ℕ → ℕ → Scope × Str) → ℕ → ℕ → List (ScopeGroup L) → Type 0
  ScopesAt scope_at i j [] = Unit
  ScopesAt scope_at i j (s ∷ ss) =
      ((s.scope, s.schema_url) ≡ scope_at i j) × ScopesAt scope_at i (suc j) ss

  abbrev pub ResourcesAt :
      {V : Type 0} → (Resource → Str → V) → (ℕ → V) → (ℕ → ℕ → Scope × Str) → ℕ → Batch L → Type 0
  ResourcesAt view res_at scope_at i [] = Unit
  ResourcesAt view res_at scope_at i (r ∷ rs) =
      (view r.resource r.schema_url ≡ res_at i)
      × ScopesAt scope_at i 0 r.scopes
      × ResourcesAt view res_at scope_at (suc i) rs

module _ {V L : Type 0} (view : Resource → Str → V) (f : Weight V L) (ops : LeafOps L)
    (plan : KeyPlan) where
  -- What a leaf weighs in the group of its key, with the promoted attributes.
  unfoldable pub leaf_weight : ResourceGroup L → ScopeGroup L → L → ℕ
  leaf_weight rs ss x =
      let parts = leaf_parts ops plan rs.resource x in
      f (join_parts parts) (view rs.resource rs.schema_url) ss.scope ss.schema_url
        (promoted_leaf ops plan parts x)

  -- All leaves of a batch.
  unfoldable pub input_weight : Batch L → ℕ
  unfolding leaf_weight
  input_weight td = sum_of (λ rs. sum_of (λ ss. sum_of (leaf_weight rs ss) ss.leaves) rs.scopes) td

module _ {V L : Type 0} (view : Resource → Str → V) (f : Weight V L) (ops : LeafOps L)
    (plan : KeyPlan)
    (unseen : (parts : List Str) (r : Resource) (u : Str)
      → view (promoted_resource ops plan parts r) u ≡ view r u)
    (res_at : ℕ → V) (scope_at : ℕ → ℕ → Scope × Str) where
  -- What the entries of a bucket stand for.
  abbrev pub IsScope : ℕ → ℕ → ScopeGroup L → Type 0
  IsScope i j e = (e.scope, e.schema_url) ≡ scope_at i j

  abbrev pub IsResource : ℕ → BucketResource L → Type 0
  IsResource i d = (view d.resource d.schema_url ≡ res_at i) × All (λ e. IsScope i e.0 e.1) d.scopes

  abbrev pub IsBucket : Str → Bucket L → Type 0
  IsBucket k b = All (λ e. IsResource e.0 e.1) b

  abbrev pub scope_entry : Str → V → ℕ → ScopeGroup L → ℕ
  scope_entry k v j e = scope_weight view f k v e

  unfoldable pub resource_entry : Str → ℕ → BucketResource L → ℕ
  resource_entry k i d = weigh (scope_entry k (view d.resource d.schema_url)) d.scopes

  unfoldable pub bucket_entry : Str → Bucket L → ℕ
  bucket_entry k b = weigh (resource_entry k) b

  no_leaves :
      (k : Str) (v : V) (s : ScopeGroup L) → scope_weight view f k v (record s { leaves = [] }) ≡ 0
  unfolding scope_weight sum_of
  no_leaves k v s = refl

  no_entries : (k : Str) → bucket_entry k [] ≡ 0
  unfolding bucket_entry weigh
  no_entries k = refl

  abbrev pub AreBuckets : List (Str × Bucket L) → Type 0
  AreBuckets m = All (λ e. IsBucket e.0 e.1) m

  module _ (i j : ℕ) (rs : ResourceGroup L) (ss : ScopeGroup L)
      (at_i : view rs.resource rs.schema_url ≡ res_at i)
      (at_j : (ss.scope, ss.schema_url) ≡ scope_at i j) where
    append_leaf-weight :
        (k : Str) (v : V) (x : L) (e : ScopeGroup L)
        → IsScope i j e
        → scope_entry k v j (append_leaf x e) ≡ scope_entry k v j e + f k v ss.scope ss.schema_url x
    unfolding append_leaf scope_weight sum_of
    append_leaf-weight k v x e h =
        let own : (e.scope, e.schema_url) ≡ (ss.scope, ss.schema_url) = h ∙ sym at_j in
        omega (
          arith,
          sum_of-append (f k v e.scope e.schema_url) e.leaves (x ∷ []),
          ap (λ (p : Scope × Str). f k v p.0 p.1 x) own,
        )

    -- The destination resource with a leaf appended.
    with_leaf : List Str → L → BucketResource L → BucketResource L
    unfolding ensure_scope
    with_leaf parts x d = record {
      resource = promoted_resource ops plan parts d.resource;
      schema_url = d.schema_url;
      scopes =
          find_or_create nat_eq j
            (record { scope = ss.scope; schema_url = ss.schema_url; leaves = [] }) (append_leaf x)
            d.scopes;
    }

    with_leaf-IsResource :
        (parts : List Str) (x : L) (d : BucketResource L)
        → IsResource i d
        → IsResource i (with_leaf parts x d)
    unfolding with_leaf append_leaf
    with_leaf-IsResource parts x d h = (
      unseen parts d.resource d.schema_url ∙ h.0,
      All-find_or_create nat_eq nat_eq_sound (IsScope i) j _ (append_leaf x) at_j (λ e p. p)
          d.scopes h.1,
    )

    with_leaf-weight :
        (k : Str) (parts : List Str) (x : L) (d : BucketResource L)
        → IsResource i d
        → resource_entry k i (with_leaf parts x d)
          ≡ resource_entry k i d + f k (view rs.resource rs.schema_url) ss.scope ss.schema_url x
    unfolding with_leaf resource_entry
    with_leaf-weight k parts x d h =
        let v = view d.resource d.schema_url in
        rw (unseen parts d.resource d.schema_url, at_i ∙ sym h.0)
          (weigh-find_or_create nat_eq nat_eq_sound (scope_entry k v) (IsScope i) j _
            (append_leaf x) _ (no_leaves k v ss) at_j (append_leaf-weight k v x) d.scopes h.1)

    ensure_scope-weight :
        (k : Str) (parts : List Str) (x : L) (b : Bucket L)
        → IsBucket k b
        → bucket_entry k (ensure_scope i j rs ss x (promoted_resource ops plan parts) b)
          ≡ bucket_entry k b + f k (view rs.resource rs.schema_url) ss.scope ss.schema_url x
    unfolding bucket_entry ensure_scope with_leaf resource_entry weigh
    ensure_scope-weight k parts x b h =
        weigh-find_or_create nat_eq nat_eq_sound (resource_entry k) IsResource i _
          (with_leaf parts x) _ refl (at_i, tt) (with_leaf-weight k parts x) b h

    ensure_scope-IsBucket :
        (k : Str) (parts : List Str) (x : L) (b : Bucket L)
        → IsBucket k b
        → IsBucket k (ensure_scope i j rs ss x (promoted_resource ops plan parts) b)
    unfolding ensure_scope with_leaf
    ensure_scope-IsBucket k parts x b h =
        All-find_or_create nat_eq nat_eq_sound IsResource i _ (with_leaf parts x) (at_i, tt)
          (with_leaf-IsResource parts x) b h

    add_leaf-weight :
        (m : List (Str × Bucket L)) (x : L)
        → AreBuckets m
        → (weigh bucket_entry (add_leaf ops plan i j rs ss m x)
            ≡ weigh bucket_entry m + leaf_weight view f ops plan rs ss x)
          × AreBuckets (add_leaf ops plan i j rs ss m x)
    unfolding add_leaf leaf_weight
    add_leaf-weight m x h =
        let parts = leaf_parts ops plan rs.resource x in
        let x' = promoted_leaf ops plan parts x in
        (
          weigh-find_or_create str_eq str_eq_sound bucket_entry IsBucket (join_parts parts) _
              (ensure_scope i j rs ss x' (promoted_resource ops plan parts)) _
              (no_entries (join_parts parts)) tt (ensure_scope-weight (join_parts parts) parts x') m
              h,
          All-find_or_create str_eq str_eq_sound IsBucket (join_parts parts) _
              (ensure_scope i j rs ss x' (promoted_resource ops plan parts)) tt
              (ensure_scope-IsBucket (join_parts parts) parts x') m h,
        )

    add_leaves-weight :
        (m : List (Str × Bucket L)) (xs : List L)
        → AreBuckets m
        → (weigh bucket_entry (add_leaves ops plan i j rs ss m xs)
            ≡ weigh bucket_entry m + sum_of (leaf_weight view f ops plan rs ss) xs)
          × AreBuckets (add_leaves ops plan i j rs ss m xs)
    unfolding add_leaves sum_of
    add_leaves-weight m [] h = (omega arith, h)
    add_leaves-weight m (x ∷ xs) h =
        let one = add_leaf-weight m x h in
        let more = add_leaves-weight (add_leaf ops plan i j rs ss m x) xs one.1 in
        (omega (arith, one.0, more.0), more.1)

  add_scopes-weight :
      (i j : ℕ) (r : ResourceGroup L) (m : List (Str × Bucket L)) (ss : List (ScopeGroup L))
      → view r.resource r.schema_url ≡ res_at i
      → ScopesAt scope_at i j ss
      → AreBuckets m
      → (weigh bucket_entry (add_scopes ops plan i j r m ss)
          ≡ weigh bucket_entry m
            + sum_of (λ s. sum_of (leaf_weight view f ops plan r s) s.leaves) ss)
        × AreBuckets (add_scopes ops plan i j r m ss)
  unfolding add_scopes sum_of
  add_scopes-weight i j r m [] ar as_ h = (omega arith, h)
  add_scopes-weight i j r m (s ∷ ss) ar as_ h =
      let one = add_leaves-weight i j r s ar as_.0 m s.leaves h in
      let more =
        add_scopes-weight i (suc j) r (add_leaves ops plan i j r s m s.leaves) ss ar as_.1 one.1 in
      (omega (arith, one.0, more.0), more.1)

  pub add_resources-weight :
      (i : ℕ) (m : List (Str × Bucket L)) (rs : Batch L)
      → ResourcesAt view res_at scope_at i rs
      → AreBuckets m
      → weigh bucket_entry (add_resources ops plan i m rs)
        ≡ weigh bucket_entry m + input_weight view f ops plan rs
  unfolding add_resources sum_of input_weight
  add_resources-weight i m [] at h = omega arith
  add_resources-weight i m (r ∷ rs) at h =
      let one = add_scopes-weight i 0 r m r.scopes at.0 at.1 h in
      omega (
        arith,
        one.0,
        add_resources-weight (suc i) (add_scopes ops plan i 0 r m r.scopes) rs at.2 one.1,
      )
