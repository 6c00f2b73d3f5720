-- ===== src/Exporter/Partition/Metrics/Loops.antt =====
-- exporter/awskinesisexporter/partition_grouping.go: what the loops of groupMetricsByLeaf add to the
-- buckets.
use opentelemetry_kinesis_st.Base.{
  ℕ, suc, ◌+◌, ◌≤◌, ◌≡◌, ◌∙◌, refl, sym, ap, subst, List, [], ◌∷◌, Str, arith,
}
use opentelemetry_kinesis_st.Base.Keyed.{weigh}
use opentelemetry_kinesis_st.Exporter.Partition.{KeyPlan}
use opentelemetry_kinesis_st.Exporter.Partition.Grouping.{promoted_resource}
use opentelemetry_kinesis_st.Exporter.Partition.Grouping.Keeps.{
  at_index, at_index_head, at_index_tail, no_scope,
}
use opentelemetry_kinesis_st.Exporter.Partition.Metrics.{
  MetricBucket, data_point_ops, Origin, add_visited, add_metrics, add_metric_scopes,
  add_metric_resources,
}
use opentelemetry_kinesis_st.Exporter.Partition.Metrics.Entries.{
  PointWeight, Places, bucket_entry, AreBuckets, IsPlaced,
}
use opentelemetry_kinesis_st.Exporter.Partition.Metrics.Points.{point_weight, add_visited-weight}
use opentelemetry_kinesis_st.Exporter.Partition.Weights.{sum_of}
use opentelemetry_kinesis_st.Exporter.Signal.{
  Resource, Scope, ScopeGroup, ResourceGroup, Batch, Metric, empty_metric, each_data_point,
  copy_metric_shell,
}

-- The entries of a list have the values that `look` gives for their indices, counted from `i`.
abbrev pub StandAt : {A V : Type 0} → (A → V) → (ℕ → V) → ℕ → List A → Type 0
StandAt g look i [] = Unit
StandAt g look i (x ∷ xs) = (g x ≡ look i) × StandAt g look (suc i) xs

StandAt-ext :
    {A V : Type 0} (g : A → V) (f h : ℕ → V) (i : ℕ) (xs : List A)
    → ((n : ℕ) → i ≤ n → f n ≡ h n)
    → StandAt g f i xs
    → StandAt g h i xs
StandAt-ext g f h i [] e a = a
StandAt-ext g f h i (x ∷ xs) e a =
    (a.0 ∙ e i (omega arith), StandAt-ext g f h (suc i) xs (λ n le. e n (omega arith)) a.1)

pub StandAt-self :
    {A V : Type 0} (g : A → V) (d : V) (i : ℕ) (xs : List A) → StandAt g (at_index g d i xs) i xs
StandAt-self g d i [] = tt
StandAt-self g d i (x ∷ xs) = (
  sym (at_index_head g d i x xs),
  StandAt-ext g (at_index g d (suc i) xs) (at_index g d i (x ∷ xs)) (suc i) xs
      (λ n le. at_index_tail g d i n x xs le) (StandAt-self g d (suc i) xs),
)

pub no_metric : Metric
no_metric = record { name = []; metadata = []; kind = empty_metric; points = []; rest = [] }

pub shells_of : ScopeGroup Metric → (Scope × Str) × (ℕ → Metric)
unfolding no_metric
shells_of s = ((s.scope, s.schema_url), at_index copy_metric_shell no_metric 0 s.leaves)

module _ {V : Type 0} (view : Resource → Str → V) where
  pub place_of : ResourceGroup Metric → V × (ℕ → (Scope × Str) × (ℕ → Metric))
  unfolding shells_of
  place_of r =
      (view r.resource r.schema_url, at_index shells_of (no_scope, λ _. no_metric) 0 r.scopes)

pub origin : ResourceGroup Metric → ScopeGroup Metric → Metric → Origin
origin rm sm m = record { i = 0; j = 0; k = 0; rm = rm; sm = sm; m = m }

module _ {V : Type 0} (view : Resource → Str → V) (f : PointWeight V) (plan : KeyPlan) where
  -- All data points of a batch, in the groups of their keys.
  unfoldable pub metric_input_weight : Batch Metric → ℕ
  unfolding origin
  metric_input_weight md =
      sum_of
        (λ rm.
          sum_of
            (λ sm.
              sum_of
                (λ m.
                  sum_of (point_weight view f plan (origin rm sm m))
                    (each_data_point m.kind m.points))
                sm.leaves)
            rm.scopes)
        md

module _ {V : Type 0} (view : Resource → Str → V) (f : PointWeight V) (plan : KeyPlan)
    (unseen : (parts : List Str) (r : Resource) (u : Str)
      → view (promoted_resource data_point_ops plan parts r) u ≡ view r u) where
  module _ (places : Places V) where
    abbrev pub Adds : List (Str × MetricBucket) → ℕ → List (Str × MetricBucket) → Type 0
    Adds m c m' =
        (weigh (bucket_entry view f) m' ≡ weigh (bucket_entry view f) m + c)
        × AreBuckets view f places m'

    add_metrics-weight :
        (i j k : ℕ) (rm : ResourceGroup Metric) (sm : ScopeGroup Metric)
        (m : List (Str × MetricBucket)) (ms : List Metric)
        → view rm.resource rm.schema_url ≡ (places i).0
        → (sm.scope, sm.schema_url) ≡ ((places i).1 j).0
        → StandAt copy_metric_shell ((places i).1 j).1 k ms
        → AreBuckets view f places m
        → Adds m
            (sum_of
              (λ x.
                sum_of
                  (point_weight view f plan (origin rm sm x))
                  (each_data_point x.kind x.points))
              ms)
            (add_metrics plan i j k rm sm m ms)
    unfolding add_metrics sum_of origin point_weight
    add_metrics-weight i j k rm sm m [] p q s h = (omega arith, h)
    add_metrics-weight i j k rm sm m (x ∷ ms) p q s h =
        let o : Origin = record { i = i; j = j; k = k; rm = rm; sm = sm; m = x } in
        let dps = each_data_point x.kind x.points in
        let placed : IsPlaced view f places o = record {
          resource_at = p;
          scope_at = q;
          metric_at = s.0;
        } in
        let one = add_visited-weight view f places plan unseen o placed m dps refl h in
        let more =
          add_metrics-weight i j (suc k) rm sm (add_visited plan o m dps) ms p q s.1 one.1 in
        (omega (arith, one.0, more.0), more.1)

    add_scopes-weight :
        (i j : ℕ) (rm : ResourceGroup Metric) (m : List (Str × MetricBucket))
        (sms : List (ScopeGroup Metric))
        → view rm.resource rm.schema_url ≡ (places i).0
        → StandAt shells_of (places i).1 j sms
        → AreBuckets view f places m
        → Adds m
            (sum_of
              (λ sm.
                sum_of
                  (λ x.
                    sum_of
                      (point_weight view f plan (origin rm sm x))
                      (each_data_point x.kind x.points))
                  sm.leaves)
              sms)
            (add_metric_scopes plan i j rm m sms)
    unfolding add_metric_scopes sum_of shells_of
    add_scopes-weight i j rm m [] p s h = (omega arith, h)
    add_scopes-weight i j rm m (sm ∷ sms) p s h =
        let shells =
          subst (λ (look : ℕ → Metric). StandAt copy_metric_shell look 0 sm.leaves)
            (ap (λ (t : (Scope × Str) × (ℕ → Metric)). t.1) s.0)
            (StandAt-self copy_metric_shell no_metric 0 sm.leaves) in
        let one =
          add_metrics-weight i j 0 rm sm m sm.leaves p
            (ap (λ (t : (Scope × Str) × (ℕ → Metric)). t.0) s.0) shells h in
        let more =
          add_scopes-weight i (suc j) rm (add_metrics plan i j 0 rm sm m sm.leaves) sms p s.1
            one.1 in
        (omega (arith, one.0, more.0), more.1)

    pub add_resources-weight :
        (i : ℕ) (m : List (Str × MetricBucket)) (md : Batch Metric)
        → StandAt (place_of view) places i md
        → AreBuckets view f places m
        → Adds m (metric_input_weight view f plan md) (add_metric_resources plan i m md)
    unfolding add_metric_resources metric_input_weight sum_of place_of
    add_resources-weight i m [] s h = (omega arith, h)
    add_resources-weight i m (rm ∷ md) s h =
        let scopes =
          subst (λ (look : ℕ → (Scope × Str) × (ℕ → Metric)). StandAt shells_of look 0 rm.scopes)
            (ap (λ (t : V × (ℕ → (Scope × Str) × (ℕ → Metric))). t.1) s.0)
            (StandAt-self shells_of (no_scope, λ _. no_metric) 0 rm.scopes) in
        let one =
          add_scopes-weight i 0 rm m rm.scopes
            (ap (λ (t : V × (ℕ → (Scope × Str) × (ℕ → Metric))). t.0) s.0) scopes h in
        let more =
          add_resources-weight (suc i) (add_metric_scopes plan i 0 rm m rm.scopes) md s.1 one.1 in
        (omega (arith, one.0, more.0), more.1)
