-- ===== src/Exporter/Clamp/Samples.antt =====
-- A batch of one span whose attribute is too long.
use opentelemetry_kinesis_st.Base.{◌≡◌, refl, [], ◌∷◌, none, some, bytes, pos, negsuc, arith}
use opentelemetry_kinesis_st.Exporter.Oversize.Accounts.{CountsItems}
use opentelemetry_kinesis_st.Exporter.Samples.{small_config}
use opentelemetry_kinesis_st.Exporter.Signal.{Batch, Span}
use opentelemetry_kinesis_st.Exporter.Text.{
  AttrValue, str_value, clamp_string_attrs, clamp_value, utf8_safe_cut, scan_back, byte_at,
  rune_start, add_entry,
}
use opentelemetry_kinesis_st.Exporter.Clamp.{
  traces_codec, logs_codec, metrics_codec, truncate_traces_attributes,
}
use opentelemetry_kinesis_st.Exporter.Clamp.Counts.{codecs-CountsItems}

abbrev span : AttrValue → Span
span v = record { attributes = (bytes "k", v) ∷ []; events = []; links = []; rest = 7 ∷ [] }

abbrev batch : AttrValue → Batch Span
batch v =
    record {
      resource = record { attributes = []; rest = [] };
      schema_url = [];
      scopes =
          record {
            scope = record { attributes = []; rest = [] };
            schema_url = [];
            leaves = span v ∷ [];
          }
          ∷ [];
    }
    ∷ []

codecs-CountsItems_example :
    CountsItems small_config (traces_codec (λ td. some (1 ∷ [])))
    × CountsItems small_config (logs_codec (λ ld. some (2 ∷ [])))
    × CountsItems small_config (metrics_codec (λ md. some (3 ∷ [])))
codecs-CountsItems_example =
    codecs-CountsItems small_config (omega arith) (λ td. some (1 ∷ [])) (λ ld. some (2 ∷ []))
      (λ md. some (3 ∷ []))

clamp_test :
    truncate_traces_attributes (batch (str_value (bytes "abcdef"))) (pos 4)
    ≡ some (batch (str_value (bytes "abcd")), 1)
unfolding truncate_traces_attributes clamp_string_attrs clamp_value utf8_safe_cut scan_back byte_at
    rune_start add_entry
clamp_test = refl

-- A negative limit, which Validate refuses, is a slice out of range.
negative_test : truncate_traces_attributes (batch (str_value (bytes "abcdef"))) (negsuc 0) ≡ none
unfolding truncate_traces_attributes
negative_test = refl
