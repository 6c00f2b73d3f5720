-- ===== src/Encoding.antt =====
-- internal/encoding/encoding.go: the names of wire encodings and codecs, and what they select. The
-- marshalers (pdata) and the compressors (codec.go's libraries) are code of other repositories.
use opentelemetry_kinesis_st.Base.{◌≡◌, refl, Option, none, some, Str, str_eq, bytes, if◌then◌else◌}

abbrev encoding_otlp_proto : Str
encoding_otlp_proto = bytes "otlp_proto"

abbrev encoding_otlp_json : Str
encoding_otlp_json = bytes "otlp_json"

-- A marshaler or an unmarshaler, by its format.
pub data Format : Type 0 where
  otlp_proto otlp_json : Format

-- `none` is the error for an unknown name.
unfoldable pub new_traces_encoder : Str → Option Format
new_traces_encoder e =
    if str_eq e encoding_otlp_proto
    then some otlp_proto
    else if str_eq e encoding_otlp_json
    then some otlp_json
    else none

unfoldable pub new_traces_decoder : Str → Option Format
new_traces_decoder e =
    if str_eq e encoding_otlp_proto
    then some otlp_proto
    else if str_eq e encoding_otlp_json
    then some otlp_json
    else none

unfoldable pub new_metrics_encoder : Str → Option Format
new_metrics_encoder e =
    if str_eq e encoding_otlp_proto
    then some otlp_proto
    else if str_eq e encoding_otlp_json
    then some otlp_json
    else none

pub new_metrics_decoder : Str → Option Format
new_metrics_decoder e =
    if str_eq e encoding_otlp_proto
    then some otlp_proto
    else if str_eq e encoding_otlp_json
    then some otlp_json
    else none

unfoldable pub new_logs_encoder : Str → Option Format
new_logs_encoder e =
    if str_eq e encoding_otlp_proto
    then some otlp_proto
    else if str_eq e encoding_otlp_json
    then some otlp_json
    else none

pub new_logs_decoder : Str → Option Format
new_logs_decoder e =
    if str_eq e encoding_otlp_proto
    then some otlp_proto
    else if str_eq e encoding_otlp_json
    then some otlp_json
    else none

pub data Compressor : Type 0 where
  none_codec gzip_codec zstd_codec snappy_codec snappy_framed_codec zlib_codec : Compressor
  deflate_codec : Compressor

unfoldable pub new_compressor : Str → Option Compressor
new_compressor c =
    if str_eq c (bytes "none")
    then some none_codec
    else if str_eq c (bytes "gzip")
    then some gzip_codec
    else if str_eq c (bytes "zstd")
    then some zstd_codec
    else if str_eq c (bytes "snappy")
    then some snappy_codec
    else if str_eq c (bytes "x-snappy-framed")
    then some snappy_framed_codec
    else if str_eq c (bytes "zlib")
    then some zlib_codec
    else if str_eq c (bytes "deflate")
    then some deflate_codec
    else none

-- For every signal the receiver's decoder for an encoding name is of the format that the
-- exporter's encoder for that name writes, and the signals agree: a name that is accepted for
-- traces, which is all that Validate tests, is accepted for metrics and logs.
pub encoders_agree :
    (e : Str)
    → (new_traces_decoder e ≡ new_traces_encoder e)
      × (new_metrics_encoder e ≡ new_traces_encoder e)
      × (new_metrics_decoder e ≡ new_metrics_encoder e)
      × (new_logs_encoder e ≡ new_traces_encoder e)
      × (new_logs_decoder e ≡ new_logs_encoder e)
unfolding new_traces_encoder new_traces_decoder new_metrics_encoder new_metrics_decoder
    new_logs_encoder new_logs_decoder
encoders_agree e = (refl, refl, refl, refl, refl)
