-- ===== src/Exporter/Partition/Grouping.antt =====
-- exporter/awskinesisexporter/partition_grouping.go and the groupers of signal_traces.go and
-- signal_logs.go. Traces and logs are grouped by the same code over other types: here, over any leaf.
-- A bucket's maps of pointers are its own lists, each entry with the index that the map had for it;
-- byKey and order together are one list in the order of first sight.
pub mod Leaves
pub mod Keeps
pub mod Tags
mod Samples
use opentelemetry_kinesis_st.Base.{
  ℕ, suc, ◌+◌, Bool, true, false, not, List, [], ◌∷◌, ◌++◌, map, Option, none, some, Str, str_eq,
  ◌==◌, is_empty, if◌then◌else◌,
}
use opentelemetry_kinesis_st.Base.Keyed.{find_or_create}
use opentelemetry_kinesis_st.Exporter.Emit.{TaggedBatch}
use opentelemetry_kinesis_st.Exporter.Partition.{
  KeyPlan, resource_only, has_promotion, resolve_parts, apply_promotions, join_parts,
}
use opentelemetry_kinesis_st.Exporter.Signal.{
  Attrs, Resource, Scope, ScopeGroup, ResourceGroup, Batch, Span, LogRecord, Metric,
}

-- A destination ResourceSpans, with its scopes by the index of their origin.
pub record BucketResource (L : Type 0) : Type 0 where
  pub resource : Resource
  pub schema_url : Str
  pub scopes : List (ℕ × ScopeGroup L)

-- traceBucket and logBucket, by the index of the origin.
abbrev pub Bucket : Type 0 → Type 0
Bucket L = List (ℕ × BucketResource L)

abbrev pub nat_eq : ℕ → ℕ → Bool
nat_eq a b = a == b

-- The attributes of a leaf.
pub record LeafOps (L : Type 0) : Type 0 where
  pub attributes : L → Attrs
  pub with_attributes : Attrs → L → L

abbrev pub span_ops : LeafOps Span
span_ops = record {
  attributes = λ x. x.attributes;
  with_attributes = λ a x. record x { attributes = a };
}

abbrev pub log_record_ops : LeafOps LogRecord
log_record_ops = record {
  attributes = λ x. x.attributes;
  with_attributes = λ a x. record x { attributes = a };
}

-- emptyAttrs
abbrev pub empty_attrs : Attrs
empty_attrs = []

module _ {L : Type 0} where
  append_leaf : L → ScopeGroup L → ScopeGroup L
  append_leaf x d = record d { leaves = d.leaves ++ x ∷ [] }

  -- ensureScope, and the leaf appended to the scope that it returns.
  ensure_scope :
      ℕ → ℕ → ResourceGroup L → ScopeGroup L → L → (Resource → Resource) → Bucket L → Bucket L
  unfolding append_leaf
  ensure_scope i j src_rs src_ss x promote =
      find_or_create nat_eq i
        (record { resource = src_rs.resource; schema_url = src_rs.schema_url; scopes = [] })
        (λ d. record {
          resource = promote d.resource;
          schema_url = d.schema_url;
          scopes =
              find_or_create nat_eq j
                (record { scope = src_ss.scope; schema_url = src_ss.schema_url; leaves = [] })
                (append_leaf x) d.scopes;
        })

  bucket_resource : BucketResource L → ResourceGroup L
  bucket_resource d = record {
    resource = d.resource;
    schema_url = d.schema_url;
    scopes = map (λ e. e.1) d.scopes;
  }

  -- The bucket's out.
  bucket_out : Bucket L → Batch L
  unfolding bucket_resource
  bucket_out b = map (λ e. bucket_resource e.1) b

  pub tagged : Str × Bucket L → TaggedBatch (Batch L)
  unfolding bucket_out
  tagged e = record { key = e.0; batch = bucket_out e.1 }

  module _ (ops : LeafOps L) (plan : KeyPlan) where
    -- The parts of a leaf's key.
    pub leaf_parts : Resource → L → List Str
    leaf_parts r x = resolve_parts plan r.attributes [] (ops.attributes x)

    -- The leaf in its destination, with the promoted attributes.
    unfoldable pub promoted_leaf : List Str → L → L
    promoted_leaf parts x =
        if has_promotion plan
        then ops.with_attributes (apply_promotions plan parts ([], ops.attributes x)).1 x
        else x

    unfoldable pub promoted_resource : List Str → Resource → Resource
    promoted_resource parts r =
        if has_promotion plan
        then record r { attributes = (apply_promotions plan parts (r.attributes, [])).0 }
        else r

    -- The body of the innermost loop.
    add_leaf :
        ℕ → ℕ → ResourceGroup L → ScopeGroup L → List (Str × Bucket L) → L → List (Str × Bucket L)
    unfolding leaf_parts promoted_leaf promoted_resource ensure_scope
    add_leaf i j src_rs src_ss by_key x =
        let parts = leaf_parts src_rs.resource x in
        find_or_create str_eq (join_parts parts) []
          (ensure_scope i j src_rs src_ss (promoted_leaf parts x) (promoted_resource parts)) by_key

    add_leaves :
        ℕ
        → ℕ
        → ResourceGroup L
        → ScopeGroup L
        → List (Str × Bucket L)
        → List L
        → List (Str × Bucket L)
    unfolding add_leaf
    add_leaves i j src_rs src_ss by_key [] = by_key
    add_leaves i j src_rs src_ss by_key (x ∷ xs) =
        add_leaves i j src_rs src_ss (add_leaf i j src_rs src_ss by_key x) xs

    add_scopes :
        ℕ
        → ℕ
        → ResourceGroup L
        → List (Str × Bucket L)
        → List (ScopeGroup L)
        → List (Str × Bucket L)
    unfolding add_leaves
    add_scopes i j src_rs by_key [] = by_key
    add_scopes i j src_rs by_key (s ∷ ss) =
        add_scopes i (suc j) src_rs (add_leaves i j src_rs s by_key s.leaves) ss

    pub add_resources : ℕ → List (Str × Bucket L) → Batch L → List (Str × Bucket L)
    unfolding add_scopes
    add_resources i by_key [] = by_key
    add_resources i by_key (r ∷ rs) = add_resources (suc i) (add_scopes i 0 r by_key r.scopes) rs

    -- groupTracesByLeaf and groupLogsByLeaf
    pub group_by_leaf : Batch L → List (TaggedBatch (Batch L))
    unfolding add_resources tagged
    group_by_leaf td = map tagged (add_resources 0 [] td)

  module _ (plan : KeyPlan) where
    -- The resource in its destination, with the promoted attributes.
    unfoldable pub whole_resource : List Str → ResourceGroup L → ResourceGroup L
    whole_resource parts rs =
        if has_promotion plan
        then record rs {
          resource = record rs.resource {
            attributes = (apply_promotions plan parts (rs.resource.attributes, empty_attrs)).0;
          };
        }
        else rs

    add_resource : List (Str × Batch L) → ResourceGroup L → List (Str × Batch L)
    unfolding whole_resource
    add_resource by_key rs =
        let parts = resolve_parts plan rs.resource.attributes [] empty_attrs in
        find_or_create str_eq (join_parts parts) [] (λ dst. dst ++ whole_resource parts rs ∷ [])
          by_key

    add_all_resources : List (Str × Batch L) → Batch L → List (Str × Batch L)
    unfolding add_resource
    add_all_resources by_key [] = by_key
    add_all_resources by_key (rs ∷ rss) = add_all_resources (add_resource by_key rs) rss

    -- groupTracesByResource, groupLogsByResource and groupMetricsByResource
    pub group_by_resource : Batch L → List (TaggedBatch (Batch L))
    unfolding add_all_resources
    group_by_resource td = map (λ e. record { key = e.0; batch = e.1 }) (add_all_resources [] td)

  -- groupTracesByTags, groupLogsByTags and groupMetricsByTags, by the grouper for leaves.
  unfoldable pub group_by_tags :
      (KeyPlan → Batch L → List (TaggedBatch (Batch L)))
      → KeyPlan
      → Batch L
      → List (TaggedBatch (Batch L))
  group_by_tags by_leaf plan td =
      if is_empty plan
      then record { key = []; batch = td } ∷ []
      else if not (resource_only plan)
      then by_leaf plan td
      else group_by_resource plan td

unfoldable pub group_traces_by_leaf : KeyPlan → Batch Span → List (TaggedBatch (Batch Span))
unfolding group_by_leaf
group_traces_by_leaf = group_by_leaf span_ops

unfoldable pub group_logs_by_leaf : KeyPlan → Batch LogRecord → List (TaggedBatch (Batch LogRecord))
unfolding group_by_leaf
group_logs_by_leaf = group_by_leaf log_record_ops

pub group_logs_by_resource : KeyPlan → Batch LogRecord → List (TaggedBatch (Batch LogRecord))
unfolding group_by_resource
group_logs_by_resource = group_by_resource

pub group_metrics_by_resource : KeyPlan → Batch Metric → List (TaggedBatch (Batch Metric))
unfolding group_by_resource
group_metrics_by_resource = group_by_resource

unfoldable pub group_traces_by_tags : KeyPlan → Batch Span → List (TaggedBatch (Batch Span))
unfolding group_by_tags group_traces_by_leaf
group_traces_by_tags = group_by_tags group_traces_by_leaf

unfoldable pub group_logs_by_tags : KeyPlan → Batch LogRecord → List (TaggedBatch (Batch LogRecord))
unfolding group_by_tags group_logs_by_leaf
group_logs_by_tags = group_by_tags group_logs_by_leaf
