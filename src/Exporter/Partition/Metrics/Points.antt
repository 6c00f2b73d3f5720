-- ===== src/Exporter/Partition/Metrics/Points.antt =====
-- exporter/awskinesisexporter/partition_grouping.go, groupMetricsByLeaf: what a metric's data points add
-- to the groups.
use opentelemetry_kinesis_st.Base.{ℕ, ◌+◌, ◌≡◌, ◌∙◌, refl, ap, List, [], ◌∷◌, ◌++◌, Str, arith}
use opentelemetry_kinesis_st.Base.Keyed.{weigh}
use opentelemetry_kinesis_st.Exporter.Partition.{KeyPlan, join_parts}
use opentelemetry_kinesis_st.Exporter.Partition.Grouping.{promoted_leaf, promoted_resource}
use opentelemetry_kinesis_st.Exporter.Partition.Metrics.{
  MetricBucket, data_point_ops, append_into, Origin, point_parts, add_point, add_points, add_shell,
  add_visited,
}
use opentelemetry_kinesis_st.Exporter.Partition.Weights.{sum_of, sum_of-append}
use opentelemetry_kinesis_st.Exporter.Signal.{
  Resource, Scope, Metric, MetricKind, empty_metric, gauge, sum, histogram, exponential_histogram,
  summary, DataPoint, each_data_point, copy_metric_shell,
}
use opentelemetry_kinesis_st.Exporter.Partition.Metrics.Entries.{
  PointWeight, Places, metric_weight, bucket_entry, AreBuckets, IsPlaced, add-weight,
}

each_data_point-append :
    (k : MetricKind) (xs ys : List DataPoint)
    → each_data_point k (xs ++ ys) ≡ each_data_point k xs ++ each_data_point k ys
unfolding each_data_point
each_data_point-append empty_metric xs ys = refl
each_data_point-append gauge xs ys = refl
each_data_point-append (sum t m) xs ys = refl
each_data_point-append (histogram t) xs ys = refl
each_data_point-append (exponential_histogram t) xs ys = refl
each_data_point-append summary xs ys = refl

-- A kind of which data points are visited shows each that is appended.
abbrev Shows : MetricKind → Type 0
Shows k = (dp : DataPoint) → each_data_point k (dp ∷ []) ≡ dp ∷ []

pub Shows-of_visited :
    (k : MetricKind) (old rest : List DataPoint) (dp : DataPoint)
    → each_data_point k old ≡ dp ∷ rest
    → Shows k
unfolding each_data_point
Shows-of_visited empty_metric old rest dp h = absurd (cc)
Shows-of_visited gauge old rest dp h = λ x. refl
Shows-of_visited (sum t m) old rest dp h = λ x. refl
Shows-of_visited (histogram t) old rest dp h = λ x. refl
Shows-of_visited (exponential_histogram t) old rest dp h = λ x. refl
Shows-of_visited summary old rest dp h = λ x. refl

module _ {V : Type 0} (view : Resource → Str → V) (f : PointWeight V) where
  -- What a data point weighs in the group of its key, with the promoted attributes.
  unfoldable pub point_weight : KeyPlan → Origin → DataPoint → ℕ
  point_weight plan o dp =
      let parts = point_parts plan o dp in
      f (join_parts parts) (view o.rm.resource o.rm.schema_url) o.sm.scope o.sm.schema_url
        (copy_metric_shell o.m) (promoted_leaf data_point_ops plan parts dp)

  append_into-weight :
      (key : Str) (v : V) (sc : Scope) (su : Str) (m : Metric) (dp : DataPoint) (d : Metric)
      → Shows m.kind
      → copy_metric_shell d ≡ copy_metric_shell m
      → metric_weight view f key v sc su (append_into dp d)
        ≡ metric_weight view f key v sc su d + f key v sc su (copy_metric_shell m) dp
  unfolding metric_weight append_into copy_metric_shell sum_of
  append_into-weight key v sc su m dp d shows e =
      let k : d.kind ≡ m.kind = ap (λ (x : Metric). x.kind) e in
      let g = f key v sc su (copy_metric_shell d) in
      let one : each_data_point d.kind (dp ∷ []) ≡ dp ∷ [] = rw k (shows dp) in
      ap (sum_of g) (each_data_point-append d.kind d.points (dp ∷ []))
      ∙ sum_of-append g (each_data_point d.kind d.points) (each_data_point d.kind (dp ∷ []))
      ∙ ap (λ xs. metric_weight view f key v sc su d + sum_of g xs) one
      ∙ omega (arith, ap (λ (x : Metric). f key v sc su x dp) e)

  module _ (places : Places V) (plan : KeyPlan)
      (unseen : (parts : List Str) (r : Resource) (u : Str)
        → view (promoted_resource data_point_ops plan parts r) u ≡ view r u)
      (o : Origin) (placed : IsPlaced view f places o) where
    add_point-weight :
        Shows o.m.kind
        → (m : List (Str × MetricBucket)) (dp : DataPoint) → AreBuckets view f places m
        → (weigh (bucket_entry view f) (add_point plan o m dp)
            ≡ weigh (bucket_entry view f) m + point_weight plan o dp)
          × AreBuckets view f places (add_point plan o m dp)
    unfolding add_point point_weight append_into copy_metric_shell
    add_point-weight shows m dp h =
        let parts = point_parts plan o dp in
        let dp' = promoted_leaf data_point_ops plan parts dp in
        add-weight view f places o placed (join_parts parts) (append_into dp') _
          (promoted_resource data_point_ops plan parts) (unseen parts) (λ d. refl)
          (λ d e.
            append_into-weight (join_parts parts) _ o.sm.scope o.sm.schema_url o.m dp' d shows e)
          m h

    add_points-weight :
        Shows o.m.kind
        → (m : List (Str × MetricBucket)) (dps : List DataPoint) → AreBuckets view f places m
        → (weigh (bucket_entry view f) (add_points plan o m dps)
            ≡ weigh (bucket_entry view f) m + sum_of (point_weight plan o) dps)
          × AreBuckets view f places (add_points plan o m dps)
    unfolding add_points sum_of
    add_points-weight shows m [] h = (omega arith, h)
    add_points-weight shows m (dp ∷ dps) h =
        let one = add_point-weight shows m dp h in
        let more = add_points-weight shows (add_point plan o m dp) dps one.1 in
        (omega (arith, one.0, more.0), more.1)

    add_shell-weight :
        (m : List (Str × MetricBucket))
        → AreBuckets view f places m
        → (weigh (bucket_entry view f) (add_shell plan o m) ≡ weigh (bucket_entry view f) m + 0)
          × AreBuckets view f places (add_shell plan o m)
    unfolding add_shell
    add_shell-weight m h =
        add-weight view f places o placed _ (λ d. d) 0 (λ r. r) (λ r u. refl) (λ d. refl)
          (λ d e. omega arith) m h

    pub add_visited-weight :
        (m : List (Str × MetricBucket)) (dps : List DataPoint)
        → each_data_point o.m.kind o.m.points ≡ dps
        → AreBuckets view f places m
        → (weigh (bucket_entry view f) (add_visited plan o m dps)
            ≡ weigh (bucket_entry view f) m + sum_of (point_weight plan o) dps)
          × AreBuckets view f places (add_visited plan o m dps)
    unfolding add_visited sum_of
    add_visited-weight m [] e h = add_shell-weight m h
    add_visited-weight m (dp ∷ dps) e h =
        add_points-weight (Shows-of_visited o.m.kind o.m.points dps dp e) m (dp ∷ dps) h
