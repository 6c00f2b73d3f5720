-- ===== src/Exporter/Samples.antt =====
-- Concrete runs of the exporter: a configuration, a codec of lists of numbers, and records.
use opentelemetry_kinesis_st.Base.{
  ℕ, zero, suc, All, ◌+◌, ◌≤◌, ◌<◌, ◌≡◌, ◌↔◌, refl, subst, Bool, true, false, List, [], ◌∷◌, Option,
  some, none, str_eq, bytes, arith, length, ℤ, pos,
}
use opentelemetry_kinesis_st.Exporter.Config.{
  check_sizes, check_strategy, check_oversize, check_policies, Config, validate,
  oversize_truncate_attrs, oversize_split_half, partition_strategy_random,
}
use opentelemetry_kinesis_st.Exporter.Config.Validity.{IsValid, validate_iff}
use opentelemetry_kinesis_st.Exporter.Oversize.{SignalCodec, pack_chain}
use opentelemetry_kinesis_st.Exporter.Oversize.Accounts.{CountsItems, Ends}
use opentelemetry_kinesis_st.Exporter.Oversize.Conservation.{pack_chain-Ends}
use opentelemetry_kinesis_st.Exporter.Record.{Entry, take_chunk}
use opentelemetry_kinesis_st.Encoding.{new_traces_encoder, new_compressor}
use opentelemetry_kinesis_st.Exporter.Record.{entry_bytes}
use opentelemetry_kinesis_st.Exporter.Record.Chunks.{request_bytes}
use opentelemetry_kinesis_st.Exporter.Emit.{TaggedBatch, KeySource, emit_groups}
use opentelemetry_kinesis_st.Exporter.Emit.Totals.{HasUuids, Emits, group_items, emit_groups-Emits}
use opentelemetry_kinesis_st.Exporter.Emit.Limits.{
  IsInLimit, entries_of, emit_groups-IsInLimit, first, request_in_limits,
}
use opentelemetry_kinesis_st.Exporter.Emit.{Emitted, emit}
use opentelemetry_kinesis_st.Exporter.Emit.Totals.{Ships}
use opentelemetry_kinesis_st.Exporter.Emit.EndToEnd.{emit-Delivers}
use opentelemetry_kinesis_st.Exporter.Record.Delivery.{Delivers}
use opentelemetry_kinesis_st.Exporter.Record.Samples.{slow_stream, stored, slow_stream-IsHonest}

abbrev pub replicate : ℕ → ℕ → List ℕ
replicate zero x = []
replicate (suc n) x = x ∷ replicate n x

abbrev pub small_config : Config
small_config = record {
  stream_name = bytes "s";
  region = bytes "r";
  endpoint = [];
  encoding = bytes "otlp_proto";
  compression = bytes "gzip";
  max_record_size = pos 40;
  partition_key = record { strategy = partition_strategy_random; tags = []; keys = []; hash = [] };
  oversize = record {
    legacy_policy = none;
    policies = oversize_truncate_attrs ∷ oversize_split_half ∷ [];
    max_attempts = pos 3;
    max_attribute_value_bytes = pos 1;
  };
  put_records = record { max_records = pos 2; max_bytes = pos 100 };
}

validate_iff_example : (validate (λ p. true) small_config ≡ none) ↔ IsValid (λ p. true) small_config
validate_iff_example = validate_iff (λ p. true) small_config

-- A batch is a list of items of one byte each, and a clamp lowers the items.
halve : List ℕ → Option (List ℕ × List ℕ)
halve [] = none
halve (x ∷ []) = none
halve (x ∷ y ∷ xs) = some (x ∷ [], y ∷ xs)

lower : List ℕ → List ℕ
lower [] = []
lower (x ∷ xs) = 0 ∷ lower xs

abbrev list_codec : SignalCodec (List ℕ)
list_codec = record {
  split_half = halve;
  truncate_attributes = some (λ xs n. some (lower xs, length xs));
  marshal = λ xs. some xs;
  item_count = length;
}

halve-length : (b x y : List ℕ) → halve b ≡ some (x, y) → length x + length y ≡ length b
unfolding halve
halve-length [] x y e = absurd (cc)
halve-length (a ∷ []) x y e = absurd (cc)
halve-length (a ∷ c ∷ b) x y e = ground arith

length-lower : (xs : List ℕ) → length (lower xs) ≡ length xs
unfolding lower
length-lower [] = refl
length-lower (x ∷ xs) = ground (arith, length-lower xs)

clamped :
    (t : List ℕ → ℤ → Option (List ℕ × ℕ))
    → list_codec.truncate_attributes ≡ some t
    → (b : List ℕ) (n : ℤ) → (r : List ℕ × ℕ) × (t b n ≡ some r) × (length r.0 ≡ length b)
clamped t e b n =
    let q : (λ (xs : List ℕ) (m : ℤ). some (lower xs, length xs)) ≡ t = cc in
    subst (λ u. (r : List ℕ × ℕ) × (u b n ≡ some r) × (length r.0 ≡ length b)) q
      ((lower b, length b), refl, length-lower b)

list_codec-CountsItems : CountsItems small_config list_codec
list_codec-CountsItems = record {
  on_split = halve-length;
  on_truncate = λ t e b. clamped t e b small_config.oversize.max_attribute_value_bytes;
}

six_items : List ℕ
six_items = 1 ∷ 2 ∷ 3 ∷ 4 ∷ 5 ∷ 6 ∷ []

pack_chain-Ends_example :
    Ends small_config
      (λ xs. some xs)
      list_codec
      (length six_items)
      (pack_chain small_config (λ xs. some xs) list_codec six_items)
pack_chain-Ends_example =
    pack_chain-Ends small_config (λ xs. some xs) list_codec list_codec-CountsItems six_items

abbrev fixed_keys : KeySource Bool
fixed_keys = record { sum64 = length; new_uuid = λ w. (replicate 36 45, w) }

fixed_keys-HasUuids : HasUuids fixed_keys
fixed_keys-HasUuids = record { uuid_length = λ w. refl }

abbrev two_groups : List (TaggedBatch (List ℕ))
two_groups = record { key = []; batch = six_items } ∷ record { key = []; batch = 7 ∷ [] } ∷ []

emit_groups-Emits_example :
    Emits small_config fixed_keys
      (λ xs. some xs)
      list_codec
      (group_items small_config fixed_keys (λ xs. some xs) list_codec two_groups)
      (emit_groups small_config fixed_keys (λ xs. some xs) list_codec two_groups true).0
emit_groups-Emits_example =
    emit_groups-Emits small_config fixed_keys (λ xs. some xs) list_codec fixed_keys-HasUuids
      list_codec-CountsItems two_groups true

emit_groups-IsInLimit_example :
    All (IsInLimit small_config) (
      entries_of (emit_groups small_config fixed_keys (λ xs. some xs) list_codec two_groups true).0)
emit_groups-IsInLimit_example =
    emit_groups-IsInLimit small_config fixed_keys (λ xs. some xs) list_codec fixed_keys-HasUuids
      list_codec-CountsItems two_groups true

abbrev entry : ℕ → Entry
entry n = record { payload = n ∷ []; partition_key = bytes "k" }

abbrev three : List Entry
three = entry 1 ∷ entry 2 ∷ entry 3 ∷ []

config_accepted : validate (λ p. true) small_config ≡ none
unfolding validate check_sizes check_strategy check_oversize check_policies new_traces_encoder
    new_compressor str_eq
config_accepted = refl

three-IsInLimit : All (IsInLimit small_config) three
unfolding entry_bytes
three-IsInLimit = (omega arith, (omega arith, (omega arith, tt)))

request_in_limits_example :
    (0 < length (take_chunk (pos 2) (pos 100) 0 0 three).0)
    × (length (take_chunk (pos 2) (pos 100) 0 0 three).0 ≤ 500)
    × (request_bytes (take_chunk (pos 2) (pos 100) 0 0 three).0 ≤ 100)
request_in_limits_example =
    request_in_limits (λ p. true) small_config three (take_chunk (pos 2) (pos 100) 0 0 three).0
      config_accepted three-IsInLimit (first (entry 1) (entry 2 ∷ entry 3 ∷ []))

abbrev pub stream_keys : KeySource (List Entry × Bool)
stream_keys = record { sum64 = length; new_uuid = λ w. (replicate 36 45, w) }

pub stream_keys-HasUuids : HasUuids stream_keys
stream_keys-HasUuids = record { uuid_length = λ w. refl }

emit-Delivers_example :
    (e : Emitted) × (u : List Entry × Bool) × Ships small_config stream_keys
      (λ xs. some xs)
      list_codec
      (group_items small_config stream_keys (λ xs. some xs) list_codec two_groups)
      e
    × (stored u ≡ stored ([], false))
    × Delivers stored u e.entries (
        emit small_config stream_keys
          (λ xs. some xs)
          list_codec
          slow_stream
          (λ b. two_groups)
          six_items
          ([], false))
emit-Delivers_example =
    emit-Delivers small_config stream_keys (λ xs. some xs) list_codec stored (λ w. refl) slow_stream
      (λ b. two_groups) six_items ([], false) list_codec-CountsItems stream_keys-HasUuids
      slow_stream-IsHonest (omega arith)
