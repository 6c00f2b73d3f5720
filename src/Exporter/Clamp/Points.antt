-- ===== src/Exporter/Clamp/Points.antt =====
-- exporter/awskinesisexporter/signal_metrics.go: the split and the attribute clamp keep the number of
-- data points.
use opentelemetry_kinesis_st.Base.{
  ℕ, ◌+◌, ◌≡◌, refl, ap, pos, List, [], ◌∷◌, map, some, Str, length, arith, length-append,
  length-map,
}
use opentelemetry_kinesis_st.Exporter.Clamp.{clamp_batch, clamp_points, clamp_metric_data_points}
use opentelemetry_kinesis_st.Exporter.Clamp.Walk.{
  Keeps, Keeps-bind, clamp_each-Keeps, length-clamp_each, clamp_data_point-Keeps,
  clamp_summary_point-Keeps, clamp_batch-Keeps,
}
use opentelemetry_kinesis_st.Exporter.Signal.{
  Resource, ScopeGroup, Batch, Metric, MetricKind, empty_metric, gauge, sum, histogram,
  exponential_histogram, summary, DataPoint, each_data_point, count_points, count_scope_points,
  count_data_points,
}
use opentelemetry_kinesis_st.Exporter.Split.{split_metrics_half}
use opentelemetry_kinesis_st.Exporter.Split.Leaves.{placed, scope_leaves, leaves_of}
use opentelemetry_kinesis_st.Exporter.Split.Metrics.{
  point_of, points_at, points_at-append, points_of, IsMetricSplit, split_metrics_half-IsMetricSplit,
}

module _ (n : ℕ) where
  clamp_points-shows :
      (k : MetricKind) (dps : List DataPoint)
      → Keeps
          (λ ys. length (each_data_point k ys) ≡ length (each_data_point k dps))
          (clamp_points k (pos n) dps)
  unfolding clamp_points each_data_point
  clamp_points-shows empty_metric dps = refl
  clamp_points-shows gauge dps = length-clamp_each _ (clamp_data_point-Keeps n) dps
  clamp_points-shows (sum t m) dps = length-clamp_each _ (clamp_data_point-Keeps n) dps
  clamp_points-shows (histogram t) dps = length-clamp_each _ (clamp_data_point-Keeps n) dps
  clamp_points-shows (exponential_histogram t) dps =
      length-clamp_each _ (clamp_data_point-Keeps n) dps
  clamp_points-shows summary dps = length-clamp_each _ (clamp_summary_point-Keeps n) dps

  abbrev shown : Metric → ℕ
  shown m = length (each_data_point m.kind m.points)

  clamp_metric_data_points-shows :
      (m : Metric) → Keeps (λ k. shown k ≡ shown m) (clamp_metric_data_points (pos n) m)
  unfolding clamp_metric_data_points
  clamp_metric_data_points-shows m =
      Keeps-bind _ _ (clamp_points m.kind (pos n) m.points) _ (clamp_points-shows m.kind m.points)
        (λ ys k e. e)

  pub count_data_points-clamp :
      (md : Batch Metric)
      → Keeps
          (λ b. count_data_points b ≡ count_data_points md)
          (clamp_batch clamp_metric_data_points (pos n) md)
  count_data_points-clamp md =
      clamp_batch-Keeps n clamp_metric_data_points count_points count_scope_points count_data_points
        (λ s ss. refl) (λ r rs. refl)
        (clamp_each-Keeps (clamp_metric_data_points (pos n)) shown count_points (λ m ms. refl)
          clamp_metric_data_points-shows)
        md

length-points_at :
    (r : Resource) (u : Str) (s : ScopeGroup Metric) (ms : List Metric)
    → length (points_at (map (placed r u s) ms)) ≡ count_points ms
unfolding points_at placed
length-points_at r u s [] = refl
length-points_at r u s (m ∷ ms) =
    let dps = each_data_point m.kind m.points in
    let p = placed r u s m in
    omega (
      arith,
      length-append (map (point_of p) dps) (points_at (map (placed r u s) ms)),
      length-map (point_of p) dps,
      length-points_at r u s ms,
    )

length-scope_points :
    (r : Resource) (u : Str) (ss : List (ScopeGroup Metric))
    → length (points_at (scope_leaves r u ss)) ≡ count_scope_points ss
unfolding scope_leaves points_at
length-scope_points r u [] = refl
length-scope_points r u (s ∷ ss) =
    let own = map (placed r u s) s.leaves in
    omega (
      arith,
      ap length (points_at-append own (scope_leaves r u ss)),
      length-append (points_at own) (points_at (scope_leaves r u ss)),
      length-points_at r u s s.leaves,
      length-scope_points r u ss,
    )

-- DataPointCount counts the data points of the batch.
length-points_of : (md : Batch Metric) → length (points_of md) ≡ count_data_points md
unfolding points_of leaves_of points_at
length-points_of [] = refl
length-points_of (r ∷ md) =
    let own = scope_leaves r.resource r.schema_url r.scopes in
    omega (
      arith,
      ap length (points_at-append own (leaves_of md)),
      length-append (points_at own) (points_at (leaves_of md)),
      length-scope_points r.resource r.schema_url r.scopes,
      length-points_of md,
    )

pub count_data_points-split :
    (b x y : Batch Metric)
    → split_metrics_half b ≡ some (x, y)
    → count_data_points x + count_data_points y ≡ count_data_points b
count_data_points-split b x y e =
    let h : IsMetricSplit b (some (x, y)) = rw e at (split_metrics_half-IsMetricSplit b) in
    omega (
      arith,
      ap length h.points_in_order,
      length-append (points_of x) (points_of y),
      length-points_of x,
      length-points_of y,
      length-points_of b,
    )
