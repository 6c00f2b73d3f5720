-- ===== src/Exporter/Partition/Grouping/Keeps.antt =====
-- exporter/awskinesisexporter/partition_grouping.go: what groupTracesByLeaf and groupLogsByLeaf keep.
use opentelemetry_kinesis_st.Base.{
  ℕ, suc, ◌≤◌, ◌≡◌, ◌≢◌, ◌∙◌, refl, sym, ap, List, [], ◌∷◌, map, Str, str_eq, str_eq_refl, arith,
  All, ◌==◌, if◌then◌else◌,
}
use opentelemetry_kinesis_st.Base.Keyed.{weigh, AreDistinct, AreDistinct-find_or_create}
use opentelemetry_kinesis_st.Exporter.Emit.{TaggedBatch}
use opentelemetry_kinesis_st.Exporter.Partition.{KeyPlan}
use opentelemetry_kinesis_st.Exporter.Partition.Grouping.{
  Bucket, BucketResource, LeafOps, bucket_resource, bucket_out, tagged, promoted_resource, add_leaf,
  add_leaves, add_scopes, add_resources, group_by_leaf,
}
use opentelemetry_kinesis_st.Exporter.Partition.Grouping.Leaves.{
  bucket_entry, resource_entry, ScopesAt, ResourcesAt, input_weight, add_resources-weight,
  str_eq_sound,
}
use opentelemetry_kinesis_st.Exporter.Partition.Weights.{
  sum_of, sum_of-map, sum_of-ext, Weight, scope_weight, resource_weight, groups_weight,
}
use opentelemetry_kinesis_st.Exporter.Signal.{Resource, Scope, ScopeGroup, ResourceGroup, Batch}

-- The value of the entry at an index, counted from `i`; past the end `d`.
pub at_index : {A V : Type 0} → (A → V) → V → ℕ → List A → ℕ → V
at_index g d i [] n = d
at_index g d i (x ∷ xs) n = if n == i then g x else at_index g d (suc i) xs n

pub at_index_head :
    {A V : Type 0} (g : A → V) (d : V) (i : ℕ) (x : A) (xs : List A)
    → at_index g d i (x ∷ xs) i ≡ g x
unfolding at_index
at_index_head g d i x xs = ground arith

pub at_index_tail :
    {A V : Type 0} (g : A → V) (d : V) (i n : ℕ) (x : A) (xs : List A)
    → suc i ≤ n
    → at_index g d (suc i) xs n ≡ at_index g d i (x ∷ xs) n
unfolding at_index
at_index_tail g d i n x xs h = ground arith

pub no_scope : Scope × Str
no_scope = (record { attributes = []; rest = [] }, [])

module _ {L : Type 0} where
  scope_of : ScopeGroup L → Scope × Str
  scope_of s = (s.scope, s.schema_url)

  ScopesAt-ext :
      (sa sb : ℕ → ℕ → Scope × Str) (i k j : ℕ) (ss : List (ScopeGroup L))
      → ((n : ℕ) → j ≤ n → sa i n ≡ sb k n)
      → ScopesAt sa i j ss
      → ScopesAt sb k j ss
  ScopesAt-ext sa sb i k j [] h a = a
  ScopesAt-ext sa sb i k j (s ∷ ss) h a =
      (a.0 ∙ h j (omega arith), ScopesAt-ext sa sb i k (suc j) ss (λ n le. h n (omega arith)) a.1)

  -- The scopes of a list stand where `at_index` finds them.
  abbrev found : ℕ → List (ScopeGroup L) → ℕ → ℕ → Scope × Str
  found j ss i n = at_index scope_of no_scope j ss n

  ScopesAt-self : (j : ℕ) (ss : List (ScopeGroup L)) → ScopesAt (found j ss) 0 j ss
  unfolding scope_of
  ScopesAt-self j [] = tt
  ScopesAt-self j (s ∷ ss) = (
    sym (at_index_head scope_of no_scope j s ss),
    ScopesAt-ext (found (suc j) ss) (found j (s ∷ ss)) 0 0 (suc j) ss
        (λ n le. at_index_tail scope_of no_scope j n s ss le) (ScopesAt-self (suc j) ss),
  )

  module _ {V : Type 0} (view : Resource → Str → V) where
    ResourcesAt-ext :
        (ra rb : ℕ → V) (sa sb : ℕ → ℕ → Scope × Str) (i : ℕ) (rs : Batch L)
        → ((n : ℕ) → i ≤ n → ra n ≡ rb n)
        → ((n m : ℕ) → i ≤ n → sa n m ≡ sb n m)
        → ResourcesAt view ra sa i rs
        → ResourcesAt view rb sb i rs
    ResourcesAt-ext ra rb sa sb i [] h k a = a
    ResourcesAt-ext ra rb sa sb i (r ∷ rs) h k a = (
      a.0 ∙ h i (omega arith),
      ScopesAt-ext sa sb i i 0 r.scopes (λ n _. k i n (omega arith)) a.1,
      ResourcesAt-ext ra rb sa sb (suc i) rs (λ n le. h n (omega arith))
          (λ n m le. k n m (omega arith)) a.2,
    )

    view_of : ResourceGroup L → V
    view_of r = view r.resource r.schema_url

    scopes_of : ResourceGroup L → ℕ → Scope × Str
    scopes_of r n = at_index scope_of no_scope 0 r.scopes n

    abbrev found_scopes : ℕ → Batch L → ℕ → ℕ → Scope × Str
    found_scopes i rs n = at_index scopes_of (λ _. no_scope) i rs n

    abbrev found_view : V → ℕ → Batch L → ℕ → V
    found_view d i rs = at_index view_of d i rs

    -- So do the resources of a batch, and their scopes.
    ResourcesAt-self :
        (d : V) (i : ℕ) (rs : Batch L)
        → ResourcesAt view (found_view d i rs) (found_scopes i rs) i rs
    unfolding view_of scopes_of
    ResourcesAt-self d i [] = tt
    ResourcesAt-self d i (r ∷ rs) = (
      sym (at_index_head view_of d i r rs),
      ScopesAt-ext (found 0 r.scopes) (found_scopes i (r ∷ rs)) 0 i 0 r.scopes
          (λ n _.
            ap (λ (g : ℕ → Scope × Str). g n)
              (sym (at_index_head scopes_of (λ _. no_scope) i r rs)))
          (ScopesAt-self 0 r.scopes),
      ResourcesAt-ext (found_view d (suc i) rs) (found_view d i (r ∷ rs)) (found_scopes (suc i) rs)
          (found_scopes i (r ∷ rs)) (suc i) rs (λ n le. at_index_tail view_of d i n r rs le)
          (λ n m le.
            ap (λ (g : ℕ → Scope × Str). g m) (at_index_tail scopes_of (λ _. no_scope) i n r rs le))
          (ResourcesAt-self d (suc i) rs),
    )

pub weigh-sum_of :
    {K D : Type 0} (w : K → D → ℕ) (m : List (K × D)) → weigh w m ≡ sum_of (λ e. w e.0 e.1) m
unfolding weigh sum_of
weigh-sum_of w [] = refl
weigh-sum_of w ((k, d) ∷ m) = omega (arith, weigh-sum_of w m)

module _ {V L : Type 0} (view : Resource → Str → V) (f : Weight V L) (ops : LeafOps L)
    (plan : KeyPlan)
    (unseen : (parts : List Str) (r : Resource) (u : Str)
      → view (promoted_resource ops plan parts r) u ≡ view r u) where
  module _ (res_at : ℕ → V) (scope_at : ℕ → ℕ → Scope × Str) where
    -- A bucket weighs what its batch weighs.
    bucket_resource-weight :
        (k : Str) (i : ℕ) (d : BucketResource L)
        → resource_weight view f k (bucket_resource d)
          ≡ resource_entry view f ops plan unseen res_at scope_at k i d
    unfolding bucket_resource resource_weight resource_entry
    bucket_resource-weight k i d =
        sum_of-map (scope_weight view f k (view d.resource d.schema_url)) (λ e. e.1) d.scopes
        ∙ sym (weigh-sum_of _ d.scopes)

    bucket_out-weight :
        (k : Str) (b : Bucket L)
        → sum_of (resource_weight view f k) (bucket_out b)
          ≡ bucket_entry view f ops plan unseen res_at scope_at k b
    unfolding bucket_out bucket_entry
    bucket_out-weight k b =
        sum_of-map (resource_weight view f k) (λ e. bucket_resource e.1) b
        ∙ sum_of-ext _ _ b (λ e. bucket_resource-weight k e.0 e.1)
        ∙ sym (weigh-sum_of _ b)

    tagged-weight :
        (m : List (Str × Bucket L))
        → groups_weight view f (map tagged m)
          ≡ weigh (bucket_entry view f ops plan unseen res_at scope_at) m
    unfolding groups_weight tagged
    tagged-weight m =
        sum_of-map (λ g. sum_of (resource_weight view f g.key) g.batch) tagged m
        ∙ sum_of-ext _ _ m (λ e. bucket_out-weight e.0 e.1)
        ∙ sym (weigh-sum_of _ m)

  group_by_leaf-weight :
      (td : Batch L)
      → groups_weight view f (group_by_leaf ops plan td) ≡ input_weight view f ops plan td
  unfolding group_by_leaf weigh
  group_by_leaf-weight td =
      let d = view (record { attributes = []; rest = [] }) [] in
      let ra = found_view view d 0 td in
      let sa = found_scopes view 0 td in
      tagged-weight ra sa (add_resources ops plan 0 [] td)
      ∙ add_resources-weight view f ops plan unseen ra sa 0 [] td (ResourcesAt-self view d 0 td) tt
      ∙ omega arith

module _ {L : Type 0} (ops : LeafOps L) (plan : KeyPlan) where
  add_leaves-AreDistinct :
      (i j : ℕ) (rs : ResourceGroup L) (ss : ScopeGroup L) (m : List (Str × Bucket L)) (xs : List L)
      → AreDistinct m
      → AreDistinct (add_leaves ops plan i j rs ss m xs)
  unfolding add_leaves add_leaf
  add_leaves-AreDistinct i j rs ss m [] h = h
  add_leaves-AreDistinct i j rs ss m (x ∷ xs) h =
      add_leaves-AreDistinct i j rs ss (add_leaf ops plan i j rs ss m x) xs
        (AreDistinct-find_or_create str_eq str_eq_sound str_eq_refl _ _ _ m h)

  add_scopes-AreDistinct :
      (i j : ℕ) (rs : ResourceGroup L) (m : List (Str × Bucket L)) (ss : List (ScopeGroup L))
      → AreDistinct m
      → AreDistinct (add_scopes ops plan i j rs m ss)
  unfolding add_scopes
  add_scopes-AreDistinct i j rs m [] h = h
  add_scopes-AreDistinct i j rs m (s ∷ ss) h =
      add_scopes-AreDistinct i (suc j) rs (add_leaves ops plan i j rs s m s.leaves) ss
        (add_leaves-AreDistinct i j rs s m s.leaves h)

  add_resources-AreDistinct :
      (i : ℕ) (m : List (Str × Bucket L)) (rs : Batch L)
      → AreDistinct m
      → AreDistinct (add_resources ops plan i m rs)
  unfolding add_resources
  add_resources-AreDistinct i m [] h = h
  add_resources-AreDistinct i m (r ∷ rs) h =
      add_resources-AreDistinct (suc i) (add_scopes ops plan i 0 r m r.scopes) rs
        (add_scopes-AreDistinct i 0 r m r.scopes h)

-- No two groups have the same key.
abbrev pub HaveOwnKeys : {T : Type 0} → List (TaggedBatch T) → Type 0
HaveOwnKeys [] = Unit
HaveOwnKeys (g ∷ gs) = All (λ h. h.key ≢ g.key) gs × HaveOwnKeys gs

other_groups :
    {T D : Type 0} (batch_of : Str × D → T) (k : Str) (m : List (Str × D))
    → All (λ e. e.0 ≢ k) m
    → All {A = TaggedBatch T}
        (λ h. h.key ≢ k)
        (map (λ e. record { key = e.0; batch = batch_of e }) m)
other_groups batch_of k [] h = h
other_groups batch_of k (e ∷ m) h = (h.0, other_groups batch_of k m h.1)

pub HaveOwnKeys-map :
    {T D : Type 0} (batch_of : Str × D → T) (m : List (Str × D))
    → AreDistinct m
    → HaveOwnKeys (map (λ e. record { key = e.0; batch = batch_of e }) m)
HaveOwnKeys-map batch_of [] h = h
HaveOwnKeys-map batch_of ((k, d) ∷ m) h =
    (other_groups batch_of k m h.0, HaveOwnKeys-map batch_of m h.1)

-- For a weight of a leaf by the key of its group, a view of its resource with which promotion does
-- not interfere (all of it, if the plan promotes nothing), its scope and the scope's schema URL:
-- groupTracesByLeaf and groupLogsByLeaf give groups with different keys, in which the leaves weigh as
-- much as the input's do in the groups of the keys that the plan gives them, with the attributes that
-- it promotes. So every leaf is once in the group of its key, under its resource and scope.
pub group_by_leaf-keeps :
    {V L : Type 0} (view : Resource → Str → V) (f : Weight V L) (ops : LeafOps L) (plan : KeyPlan)
    → ((parts : List Str) (r : Resource) (u : Str)
        → view (promoted_resource ops plan parts r) u ≡ view r u)
    → (td : Batch L)
    → (groups_weight view f (group_by_leaf ops plan td) ≡ input_weight view f ops plan td)
      × HaveOwnKeys (group_by_leaf ops plan td)
unfolding group_by_leaf tagged
group_by_leaf-keeps view f ops plan unseen td = (
  group_by_leaf-weight view f ops plan unseen td,
  HaveOwnKeys-map (λ e. bucket_out e.1) _ (add_resources-AreDistinct ops plan 0 [] td tt),
)
