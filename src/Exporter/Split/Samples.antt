-- ===== src/Exporter/Split/Samples.antt =====
-- Concrete runs of the splits of exporter/awskinesisexporter.
use opentelemetry_kinesis_st.Base.{[], ◌∷◌, bytes}
use opentelemetry_kinesis_st.Exporter.Signal.{
  Resource, Scope, Span, Batch, Metric, DataPoint, gauge,
}
use opentelemetry_kinesis_st.Exporter.Split.{split_half, split_metrics_half}
use opentelemetry_kinesis_st.Exporter.Split.Keeps.{IsSplit, split_half-IsSplit}
use opentelemetry_kinesis_st.Exporter.Split.Metrics.{
  IsMetricSplit, split_metrics_half-IsMetricSplit,
}

abbrev plain : Resource
plain = record { attributes = []; rest = [] }

abbrev plain_scope : Scope
plain_scope = record { attributes = []; rest = [] }

abbrev span : Span
span = record { attributes = []; events = []; links = []; rest = [] }

abbrev two_scopes : Batch Span
two_scopes =
    record {
      resource = plain;
      schema_url = [];
      scopes =
          record { scope = plain_scope; schema_url = bytes "a"; leaves = span ∷ [] }
          ∷ record { scope = plain_scope; schema_url = bytes "b"; leaves = span ∷ span ∷ [] }
          ∷ [];
    }
    ∷ []

split_half-IsSplit_example : IsSplit two_scopes (split_half two_scopes)
split_half-IsSplit_example = split_half-IsSplit two_scopes

abbrev point : DataPoint
point = record { attributes = []; exemplars = []; rest = [] }

abbrev one_gauge : Batch Metric
one_gauge =
    record {
      resource = plain;
      schema_url = [];
      scopes =
          record {
            scope = plain_scope;
            schema_url = [];
            leaves =
                record {
                  name = bytes "load";
                  metadata = [];
                  kind = gauge;
                  points = point ∷ point ∷ point ∷ [];
                  rest = [];
                }
                ∷ [];
          }
          ∷ [];
    }
    ∷ []

split_metrics_half-IsMetricSplit_example : IsMetricSplit one_gauge (split_metrics_half one_gauge)
split_metrics_half-IsMetricSplit_example = split_metrics_half-IsMetricSplit one_gauge
