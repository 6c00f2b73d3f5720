-- ===== src/Exporter/Partition/Metrics/Entries.antt =====
-- exporter/awskinesisexporter/partition_grouping.go, groupMetricsByLeaf: what one entry of the input
-- adds to the buckets, weighed by the key of its group, a view of its resource, its scope with the
-- schema URL, its metric's shell and the data point.
use opentelemetry_kinesis_st.Base.{
  ℕ, ◌+◌, ◌≡◌, ◌∙◌, refl, sym, ap, subst, List, [], Str, str_eq, All,
}
use opentelemetry_kinesis_st.Base.Keyed.{
  find_or_create, weigh, weigh-find_or_create, All-find_or_create,
}
use opentelemetry_kinesis_st.Exporter.Partition.Grouping.{nat_eq}
use opentelemetry_kinesis_st.Exporter.Partition.Grouping.Leaves.{nat_eq_sound, str_eq_sound}
use opentelemetry_kinesis_st.Exporter.Partition.Metrics.{
  BucketScope, BucketMetrics, MetricBucket, Origin, in_scope, in_resource, ensure_metric,
}
use opentelemetry_kinesis_st.Exporter.Partition.Weights.{sum_of}
use opentelemetry_kinesis_st.Exporter.Signal.{
  Resource, Scope, Metric, MetricKind, empty_metric, gauge, sum, histogram, exponential_histogram,
  summary, DataPoint, each_data_point, copy_metric_shell,
}

each_data_point-nil : (k : MetricKind) → each_data_point k [] ≡ []
unfolding each_data_point
each_data_point-nil empty_metric = refl
each_data_point-nil gauge = refl
each_data_point-nil (sum t m) = refl
each_data_point-nil (histogram t) = refl
each_data_point-nil (exponential_histogram t) = refl
each_data_point-nil summary = refl

abbrev pub PointWeight : Type 0 → Type 0
PointWeight V = Str → V → Scope → Str → Metric → DataPoint → ℕ

-- By indices: the view of a resource, its scopes with their schema URLs, and their metrics' shells.
abbrev pub Places : Type 0 → Type 0
Places V = ℕ → V × (ℕ → (Scope × Str) × (ℕ → Metric))

module _ {V : Type 0} (view : Resource → Str → V) (f : PointWeight V) where
  unfoldable pub metric_weight : Str → V → Scope → Str → Metric → ℕ
  metric_weight key v sc su m =
      sum_of (f key v sc su (copy_metric_shell m)) (each_data_point m.kind m.points)

  abbrev pub metric_entry : Str → V → Scope → Str → ℕ → Metric → ℕ
  metric_entry key v sc su k m = metric_weight key v sc su m

  unfoldable pub scope_entry : Str → V → ℕ → BucketScope → ℕ
  scope_entry key v j d = weigh (metric_entry key v d.scope d.schema_url) d.metrics

  unfoldable pub resource_entry : Str → ℕ → BucketMetrics → ℕ
  resource_entry key i d = weigh (scope_entry key (view d.resource d.schema_url)) d.scopes

  unfoldable pub bucket_entry : Str → MetricBucket → ℕ
  bucket_entry key b = weigh (resource_entry key) b

  module _ (places : Places V) where
    abbrev IsMetric : ℕ → ℕ → ℕ → Metric → Type 0
    IsMetric i j k d = copy_metric_shell d ≡ ((places i).1 j).1 k

    abbrev IsScope : ℕ → ℕ → BucketScope → Type 0
    IsScope i j d =
        ((d.scope, d.schema_url) ≡ ((places i).1 j).0) × All (λ e. IsMetric i j e.0 e.1) d.metrics

    abbrev IsResource : ℕ → BucketMetrics → Type 0
    IsResource i d =
        (view d.resource d.schema_url ≡ (places i).0) × All (λ e. IsScope i e.0 e.1) d.scopes

    abbrev pub IsBucket : Str → MetricBucket → Type 0
    IsBucket key b = All (λ e. IsResource e.0 e.1) b

    abbrev pub AreBuckets : List (Str × MetricBucket) → Type 0
    AreBuckets m = All (λ e. IsBucket e.0 e.1) m

    -- The entry of the input stands at its indices.
    pub record IsPlaced (o : Origin) : Type 0 where
      pub resource_at : view o.rm.resource o.rm.schema_url ≡ (places o.i).0
      pub scope_at : (o.sm.scope, o.sm.schema_url) ≡ ((places o.i).1 o.j).0
      pub metric_at : copy_metric_shell o.m ≡ ((places o.i).1 o.j).1 o.k

    -- An update of a metric that adds `c` to its weight, and a promotion that the view does not see.
    module _ (o : Origin) (placed : IsPlaced o) (key : Str) (upd : Metric → Metric) (c : ℕ)
        (promote : Resource → Resource)
        (unseen : (r : Resource) (u : Str) → view (promote r) u ≡ view r u)
        (same : (d : Metric) → copy_metric_shell (upd d) ≡ copy_metric_shell d)
        (adds : (d : Metric)
          → copy_metric_shell d ≡ copy_metric_shell o.m
          → metric_weight key
              (view o.rm.resource o.rm.schema_url)
              o.sm.scope
              o.sm.schema_url
              (upd d)
            ≡ metric_weight key (view o.rm.resource o.rm.schema_url) o.sm.scope o.sm.schema_url d
              + c) where
      abbrev own_view : V
      own_view = view o.rm.resource o.rm.schema_url

      no_points : metric_weight key own_view o.sm.scope o.sm.schema_url (copy_metric_shell o.m) ≡ 0
      unfolding metric_weight copy_metric_shell sum_of
      no_points =
          ap (sum_of (f key own_view o.sm.scope o.sm.schema_url (copy_metric_shell o.m)))
            (each_data_point-nil o.m.kind)

      in_scope-IsScope : (d : BucketScope) → IsScope o.i o.j d → IsScope o.i o.j (in_scope o upd d)
      unfolding in_scope
      in_scope-IsScope d h = (
        h.0,
        All-find_or_create nat_eq nat_eq_sound (IsMetric o.i o.j) o.k _ upd placed.metric_at
            (λ e p. same e ∙ p) d.metrics h.1,
      )

      in_scope-weight :
          (d : BucketScope)
          → IsScope o.i o.j d
          → scope_entry key own_view o.j (in_scope o upd d) ≡ scope_entry key own_view o.j d + c
      unfolding in_scope scope_entry
      in_scope-weight d h =
          let own : (d.scope, d.schema_url) ≡ (o.sm.scope, o.sm.schema_url) =
            h.0 ∙ sym placed.scope_at in
          subst
            (λ (p : Scope × Str).
              weigh (metric_entry key own_view p.0 p.1)
                (find_or_create nat_eq o.k (copy_metric_shell o.m) upd d.metrics)
              ≡ weigh (metric_entry key own_view p.0 p.1) d.metrics + c)
            (sym own)
            (weigh-find_or_create nat_eq nat_eq_sound
              (metric_entry key own_view o.sm.scope o.sm.schema_url) (IsMetric o.i o.j) o.k _ upd c
              no_points placed.metric_at (λ e p. adds e (p ∙ sym placed.metric_at)) d.metrics h.1)

      in_resource-IsResource :
          (d : BucketMetrics) → IsResource o.i d → IsResource o.i (in_resource o upd promote d)
      unfolding in_resource
      in_resource-IsResource d h = (
        unseen d.resource d.schema_url ∙ h.0,
        All-find_or_create nat_eq nat_eq_sound (IsScope o.i) o.j _ (in_scope o upd)
            (placed.scope_at, tt) in_scope-IsScope d.scopes h.1,
      )

      in_resource-weight :
          (d : BucketMetrics)
          → IsResource o.i d
          → resource_entry key o.i (in_resource o upd promote d) ≡ resource_entry key o.i d + c
      unfolding in_resource resource_entry scope_entry weigh
      in_resource-weight d h =
          let own : view d.resource d.schema_url ≡ own_view = h.0 ∙ sym placed.resource_at in
          rw (unseen d.resource d.schema_url, own)
            (weigh-find_or_create nat_eq nat_eq_sound (scope_entry key own_view) (IsScope o.i) o.j
              (record { scope = o.sm.scope; schema_url = o.sm.schema_url; metrics = [] })
              (in_scope o upd) c refl (placed.scope_at, tt) in_scope-weight d.scopes h.1)

      pub ensure_metric-IsBucket :
          (b : MetricBucket) → IsBucket key b → IsBucket key (ensure_metric o upd promote b)
      unfolding ensure_metric
      ensure_metric-IsBucket b h =
          All-find_or_create nat_eq nat_eq_sound IsResource o.i _ (in_resource o upd promote)
            (placed.resource_at, tt) in_resource-IsResource b h

      pub ensure_metric-weight :
          (b : MetricBucket)
          → IsBucket key b
          → bucket_entry key (ensure_metric o upd promote b) ≡ bucket_entry key b + c
      unfolding ensure_metric bucket_entry resource_entry weigh
      ensure_metric-weight b h =
          weigh-find_or_create nat_eq nat_eq_sound (resource_entry key) IsResource o.i _
            (in_resource o upd promote) c refl (placed.resource_at, tt) in_resource-weight b h

      -- The entry of the key in the map of buckets.
      pub add-weight :
          (m : List (Str × MetricBucket))
          → AreBuckets m
          → (weigh bucket_entry (find_or_create str_eq key [] (ensure_metric o upd promote) m)
              ≡ weigh bucket_entry m + c)
            × AreBuckets (find_or_create str_eq key [] (ensure_metric o upd promote) m)
      unfolding bucket_entry weigh
      add-weight m h = (
        weigh-find_or_create str_eq str_eq_sound bucket_entry IsBucket key []
            (ensure_metric o upd promote) c refl tt ensure_metric-weight m h,
        All-find_or_create str_eq str_eq_sound IsBucket key [] (ensure_metric o upd promote) tt
            ensure_metric-IsBucket m h,
      )
