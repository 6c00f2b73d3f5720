-- ===== src/Exporter/Split/Metrics.antt =====
-- exporter/awskinesisexporter/signal_metrics.go: the halves of a split hold the data points of the
-- batch, in order, and each is smaller.
use mathlib.Core.List.{append_assoc, append-nil, map-append}
use opentelemetry_kinesis_st.Base.{
  ℕ, ◌+◌, ◌/◌, ◌≤◌, ◌<◌, ◌≡◌, ◌∙◌, refl, sym, ap, inl, inr, List, [], ◌∷◌, ◌++◌, map, Option, none,
  some, Str, arith, ltb, leb, ◌==◌, length, length-append, length-map, Bool-cases,
}
use opentelemetry_kinesis_st.Exporter.Signal.{
  each_data_point, copy_metric_shell, Resource, Scope, ScopeGroup, ResourceGroup, Batch, Metric,
  MetricKind, empty_metric, gauge, sum, histogram, exponential_histogram, summary, DataPoint,
  count_scopes,
}
use opentelemetry_kinesis_st.Exporter.Split.{
  place, first_metric, build_metric_shell, split_single_metric_datapoints, split_alone_metrics,
  split_metrics_half, metric_count,
}
use opentelemetry_kinesis_st.Exporter.Split.Keeps.{
  size, Halves, place-Halves, split_resource-Halves,
}
use opentelemetry_kinesis_st.Exporter.Split.Leaves.{
  Placed, placed, scope_leaves, leaves_of, place-append, place-sizes,
}

-- A data point under its resource, scope and metric; the metric as far as its shell.
pub record Point : Type 0 where
  pub shell : Placed Metric
  pub point : DataPoint

unfoldable pub point_of : Placed Metric → DataPoint → Point
point_of p dp = record { shell = record p { leaf = copy_metric_shell p.leaf }; point = dp }

unfoldable pub points_at : List (Placed Metric) → List Point
unfolding point_of
points_at [] = []
points_at (p ∷ ps) = map (point_of p) (each_data_point p.leaf.kind p.leaf.points) ++ points_at ps

-- The data points of a batch, in order.
unfoldable pub points_of : Batch Metric → List Point
unfolding points_at
points_of md = points_at (leaves_of md)

pub points_at-append :
    (a b : List (Placed Metric)) → points_at (a ++ b) ≡ points_at a ++ points_at b
unfolding points_at
points_at-append [] b = refl
points_at-append (p ∷ a) b =
    ap (λ t. map (point_of p) (each_data_point p.leaf.kind p.leaf.points) ++ t)
      (points_at-append a b)
    ∙ sym (append_assoc _ (points_at a) (points_at b))

-- Resources, metrics and data points together.
abbrev pub metric_size : Batch Metric → ℕ
metric_size md = size md + length (points_of md)

pub record MetricHalves (md a b : Batch Metric) : Type 0 where
  pub points_in_order : points_of a ++ points_of b ≡ points_of md
  pub first_is_smaller : metric_size a < metric_size md
  pub second_is_smaller : metric_size b < metric_size md

-- Nothing for a batch of at most one resource and one data point, or the halves.
abbrev pub IsMetricSplit : Batch Metric → Option (Batch Metric × Batch Metric) → Type 0
IsMetricSplit md none = (length md ≤ 1) × (length (points_of md) ≤ 1)
IsMetricSplit md (some (a, b)) = MetricHalves md a b

Halves-MetricHalves : (md a b : Batch Metric) → Halves md a b → MetricHalves md a b
unfolding points_of
Halves-MetricHalves md a b h =
    let e : points_of a ++ points_of b ≡ points_of md =
      sym (points_at-append (leaves_of a) (leaves_of b)) ∙ ap points_at h.in_order in
    let l : length (points_of a) + length (points_of b) ≡ length (points_of md) =
      sym (length-append (points_of a) (points_of b)) ∙ ap length e in
    record {
      points_in_order = e;
      first_is_smaller = omega (arith, l, h.first_smaller);
      second_is_smaller = omega (arith, l, h.second_smaller);
    }

module _ (r : Resource) (u : Str) where
  group : Scope → Str → List Metric → ScopeGroup Metric
  group sc su ms = record { scope = sc; schema_url = su; leaves = ms }

  no_metrics_in :
      (sc : Scope) (su : Str) (ms : List Metric) (ss : List (ScopeGroup Metric))
      → (count_scopes ss ≡ 0 → scope_leaves r u ss ≡ [])
      → length ms + count_scopes ss ≡ 0
      → scope_leaves r u (group sc su ms ∷ ss) ≡ []
  unfolding scope_leaves group
  no_metrics_in sc su [] ss rest h = rest (omega arith)
  no_metrics_in sc su (m ∷ ms) ss rest h = absurd (omega arith)

  no_metrics : (ss : List (ScopeGroup Metric)) → count_scopes ss ≡ 0 → scope_leaves r u ss ≡ []
  unfolding scope_leaves group
  no_metrics [] h = refl
  no_metrics (s ∷ ss) h = no_metrics_in s.scope s.schema_url s.leaves ss (no_metrics ss) h

  -- The only metric of a resource, with its scope.
  record Only (ss : List (ScopeGroup Metric)) : Type 0 where
    sm : ScopeGroup Metric
    m : Metric
    first : first_metric ss ≡ some (sm, m)
    alone : scope_leaves r u ss ≡ placed r u sm m ∷ []

  Only-metric_in :
      (sc : Scope) (su : Str) (ms : List Metric) (ss : List (ScopeGroup Metric))
      → (count_scopes ss ≡ 1 → Only ss)
      → length ms + count_scopes ss ≡ 1
      → Only (group sc su ms ∷ ss)
  unfolding scope_leaves first_metric group
  Only-metric_in sc su [] ss rest h =
      let o = rest (omega arith) in record { sm = o.sm; m = o.m; first = o.first; alone = o.alone }
  Only-metric_in sc su (m ∷ []) ss rest h = record {
    sm = group sc su (m ∷ []);
    m = m;
    first = refl;
    alone = rw (no_metrics ss (omega arith)) refl;
  }
  Only-metric_in sc su (m ∷ (n ∷ ms)) ss rest h = absurd (omega arith)

  Only-metric : (ss : List (ScopeGroup Metric)) → count_scopes ss ≡ 1 → Only ss
  unfolding group
  Only-metric [] h = absurd (omega arith)
  Only-metric (s ∷ ss) h = Only-metric_in s.scope s.schema_url s.leaves ss (Only-metric ss) h

length-points_of :
    (r : Resource) (u : Str) (sm : ScopeGroup Metric) (m : Metric)
    → length (points_at (placed r u sm m ∷ [])) ≡ length (each_data_point m.kind m.points)
unfolding points_at placed
length-points_of r u sm m =
    rw (append-nil (map (point_of (placed r u sm m)) (each_data_point m.kind m.points)))
      (length-map (point_of (placed r u sm m)) (each_data_point m.kind m.points))

-- A kind under which data points are visited shows all of them.
each_data_point-again :
    (k : MetricKind) (old dps : List DataPoint)
    → 0 < length (each_data_point k old)
    → each_data_point k dps ≡ dps
unfolding each_data_point
each_data_point-again empty_metric old dps h = absurd (omega arith)
each_data_point-again gauge old dps h = refl
each_data_point-again (sum t m) old dps h = refl
each_data_point-again (histogram t) old dps h = refl
each_data_point-again (exponential_histogram t) old dps h = refl
each_data_point-again summary old dps h = refl

points_of-shell :
    (rm : ResourceGroup Metric) (sm : ScopeGroup Metric) (m : Metric) (dps : List DataPoint)
    → points_of (build_metric_shell rm sm m dps)
      ≡ map (point_of (placed rm.resource rm.schema_url sm m)) (each_data_point m.kind dps)
unfolding points_of build_metric_shell leaves_of scope_leaves points_at placed point_of
    copy_metric_shell
points_of-shell rm sm m dps = append-nil _

-- The data points of a resource with one metric.
points_of-Only :
    (rm : ResourceGroup Metric) (o : Only rm.resource rm.schema_url rm.scopes)
    → points_of (rm ∷ [])
      ≡ map
          (point_of (placed rm.resource rm.schema_url o.sm o.m))
          (each_data_point o.m.kind o.m.points)
unfolding points_of leaves_of points_at placed
points_of-Only rm o =
    rw (append-nil (scope_leaves rm.resource rm.schema_url rm.scopes), o.alone) (append-nil _)

module _ (rm : ResourceGroup Metric) (one : count_scopes rm.scopes ≡ 1)
    (o : Only rm.resource rm.schema_url rm.scopes) where
  abbrev dps : List DataPoint
  dps = each_data_point o.m.kind o.m.points

  counted_points : length (points_of (rm ∷ [])) ≡ length dps
  counted_points =
      ap length (points_of-Only rm o)
      ∙ length-map (point_of (placed rm.resource rm.schema_url o.sm o.m)) dps

  half_points :
      (half : List DataPoint)
      → 0 < length dps
      → points_of (build_metric_shell rm o.sm o.m half)
        ≡ map (point_of (placed rm.resource rm.schema_url o.sm o.m)) half
  half_points half h =
      points_of-shell rm o.sm o.m half
      ∙ ap (map (point_of (placed rm.resource rm.schema_url o.sm o.m)))
          (each_data_point-again o.m.kind o.m.points half h)

  half_count :
      (half : List DataPoint)
      → 0 < length dps
      → length (points_of (build_metric_shell rm o.sm o.m half)) ≡ length half
  half_count half h =
      ap length (half_points half h)
      ∙ length-map (point_of (placed rm.resource rm.schema_url o.sm o.m)) half

  shell_size : (half : List DataPoint) → size (build_metric_shell rm o.sm o.m half) ≡ 2
  unfolding build_metric_shell
  shell_size half = omega arith

  split_points :
      1 < length dps
      → MetricHalves
          (rm ∷ [])
          (build_metric_shell rm o.sm o.m (place (length dps / 2) 0 dps).0)
          (build_metric_shell rm o.sm o.m (place (length dps / 2) 0 dps).1)
  split_points h =
      let p = place (length dps / 2) 0 dps in
      let sizes = place-sizes (length dps / 2) 0 dps in
      let ca = half_count p.0 (omega arith) in
      let cb = half_count p.1 (omega arith) in
      record {
        points_in_order =
            rw (half_points p.0 (omega arith), half_points p.1 (omega arith), points_of-Only rm o)
              (sym (map-append (point_of (placed rm.resource rm.schema_url o.sm o.m)) p.0 p.1)
                ∙ ap (map (point_of (placed rm.resource rm.schema_url o.sm o.m)))
                    (place-append (length dps / 2) 0 dps));
        first_is_smaller = omega (arith, ca, sizes, counted_points, one, shell_size p.0);
        second_is_smaller = omega (arith, cb, sizes, counted_points, one, shell_size p.1);
      }

  single-IsMetricSplit : IsMetricSplit (rm ∷ []) (split_single_metric_datapoints rm)
  unfolding split_single_metric_datapoints
  single-IsMetricSplit = elim (Bool-cases (leb (length dps) 1)) [
    | inl e ↦
        rw (o.first, e, split_single_metric_datapoints)
          (omega arith, ground (arith, counted_points))
    | inr e ↦ rw (o.first, e, split_single_metric_datapoints) (split_points (ground arith))
  ]

no_points :
    (rm : ResourceGroup Metric) → count_scopes rm.scopes ≡ 0 → length (points_of (rm ∷ [])) ≡ 0
unfolding points_of leaves_of points_at
no_points rm h = rw (no_metrics rm.resource rm.schema_url rm.scopes h) refl

alone-IsMetricSplit :
    (md : Batch Metric) → length md ≤ 1 → IsMetricSplit md (split_alone_metrics md)
unfolding split_alone_metrics metric_count
alone-IsMetricSplit [] h = (omega arith, unfold points_of points_at leaves_of in omega arith)
alone-IsMetricSplit (rm ∷ (q ∷ rest)) h = absurd (omega arith)
alone-IsMetricSplit (rm ∷ []) h = elim (Bool-cases (count_scopes rm.scopes == 0)) [
  | inl z ↦ rw (z, split_alone_metrics) (omega arith, ground (arith, no_points rm))
  | inr nz ↦ elim (Bool-cases (count_scopes rm.scopes == 1)) [
    | inl e ↦
        let one : count_scopes rm.scopes ≡ 1 = ground arith in
        rw (nz, e, split_alone_metrics)
          (single-IsMetricSplit rm one (Only-metric rm.resource rm.schema_url rm.scopes one))
    | inr ne ↦
        rw (nz, ne, split_alone_metrics)
          (Halves-MetricHalves (rm ∷ []) _ _
            (split_resource-Halves (count_scopes rm.scopes / 2) rm (ground arith) (ground arith)))
  ]
]

-- splitMetricsHalf gives up only on a batch of at most one resource and one data point. Otherwise the
-- data points of the first half and then of the second are those of the batch, in order, each under
-- its resource, scope and metric with their schema URLs, and each half is smaller in resources,
-- metrics and data points together, so that splitting again and again ends.
pub split_metrics_half-IsMetricSplit :
    (md : Batch Metric) → IsMetricSplit md (split_metrics_half md)
unfolding split_metrics_half
split_metrics_half-IsMetricSplit md = elim (Bool-cases (ltb 1 (length md))) [
  | inl e ↦ rw (e, split_metrics_half) (Halves-MetricHalves md _ _ (place-Halves md (ground arith)))
  | inr e ↦ rw (e, split_metrics_half) (alone-IsMetricSplit md (ground arith))
]
