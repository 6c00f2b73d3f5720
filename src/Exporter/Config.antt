-- ===== src/Exporter/Config.antt =====
-- exporter/awskinesisexporter/config.go: the exporter's configuration and its validation. The
-- collector's own timeout, queue and retry sections are left to the collector.
pub mod Validity
use opentelemetry_kinesis_st.Base.{
  ◌>>◌, fail_if, is_none, is_empty, ℕ, Bool, true, false, not, ◌&&◌, ◌||◌, List, [], ◌∷◌, Option,
  none, some, Str, str_eq, bytes, if◌then◌else◌, length, ltb, ℤ, ltb_int, leb_int, int_leb,
  int_le_int,
}
use opentelemetry_kinesis_st.Encoding.{Format, Compressor, new_traces_encoder, new_compressor}

pub record PutRecordsConfig : Type 0 where
  pub max_records : ℤ
  pub max_bytes : ℤ

pub record PartitionKeySource : Type 0 where
  pub source : Str
  pub name : Str
  pub regex : Str
  pub promote : Str

pub record PartitionKeyConfig : Type 0 where
  pub strategy : Str
  pub tags : List Str
  pub keys : List PartitionKeySource
  pub hash : Str

pub record OversizeConfig : Type 0 where
  pub legacy_policy : Option Str
  pub policies : List Str
  pub max_attempts : ℤ
  pub max_attribute_value_bytes : ℤ

pub record Config : Type 0 where
  pub stream_name : Str
  pub region : Str
  pub endpoint : Str
  pub encoding : Str
  pub compression : Str
  pub max_record_size : ℤ
  pub partition_key : PartitionKeyConfig
  pub oversize : OversizeConfig
  pub put_records : PutRecordsConfig

abbrev pub partition_strategy_random : Str
partition_strategy_random = bytes "random"

abbrev pub partition_strategy_tag_hash : Str
partition_strategy_tag_hash = bytes "tag_hash"

abbrev pub hash_xxhash : Str
hash_xxhash = bytes "xxhash"

abbrev pub key_source_resource : Str
key_source_resource = bytes "resource"

abbrev pub key_source_datapoint : Str
key_source_datapoint = bytes "datapoint"

abbrev pub key_source_metric_name : Str
key_source_metric_name = bytes "metric_name"

abbrev pub oversize_split_half : Str
oversize_split_half = bytes "split_half"

abbrev pub oversize_truncate_attrs : Str
oversize_truncate_attrs = bytes "truncate_attribute_values"

abbrev pub oversize_reject : Str
oversize_reject = bytes "reject"

-- The errors of Validate, one for each message.
pub data ConfigError : Type 0 where
  stream_name_required region_required unknown_encoding unknown_compression : ConfigError
  max_record_size_not_positive no_room_for_payload max_records_not_positive : ConfigError
  max_records_above_500 max_bytes_not_positive record_above_max_bytes : ConfigError
  tags_and_keys no_tags_or_keys key_name_required key_name_not_empty : ConfigError
  unknown_source invalid_regex unknown_strategy unknown_hash legacy_policy_removed : ConfigError
  no_policies policy_not_last unknown_policy max_attempts_not_positive : ConfigError
  max_attribute_value_bytes_not_positive : ConfigError

-- nil, or an error that ends the validation.
abbrev Check : Type 0
Check = Option ConfigError

unfoldable pub tag_hash : Config → Bool
tag_hash c = str_eq c.partition_key.strategy partition_strategy_tag_hash

-- 16 hex digits, or a UUID's 36 characters.
unfoldable pub key_overhead : Config → ℕ
unfolding tag_hash
key_overhead c = if tag_hash c then 16 else 36

-- An empty source means the resource.
source_or_resource : Str → Str
source_or_resource s = if str_eq s [] then key_source_resource else s

unfoldable pub check_policies : List Str → Check
check_policies [] = none
check_policies (p ∷ ps) =
    let rest = check_policies ps in
    if str_eq p oversize_truncate_attrs
    then rest
    else if str_eq p oversize_split_half || str_eq p oversize_reject
    then (if not (is_empty ps) then some policy_not_last else rest)
    else some unknown_policy

-- The checks of sizes, in Validate's order.
unfoldable pub check_sizes : Config → Check
unfolding key_overhead
check_sizes c =
    fail_if (int_leb c.max_record_size 0) max_record_size_not_positive
    >> fail_if (int_leb c.max_record_size (key_overhead c)) no_room_for_payload
    >> fail_if (int_leb c.put_records.max_records 0) max_records_not_positive
    >> fail_if (not (int_leb c.put_records.max_records 500)) max_records_above_500
    >> fail_if (int_leb c.put_records.max_bytes 0) max_bytes_not_positive
    >> fail_if (not (int_le_int c.max_record_size c.put_records.max_bytes)) record_above_max_bytes

unfoldable pub check_oversize : OversizeConfig → Check
unfolding check_policies
check_oversize o =
    fail_if (not (is_none o.legacy_policy)) legacy_policy_removed
    >> fail_if (is_empty o.policies) no_policies
    >> check_policies o.policies
    >> fail_if (int_leb o.max_attempts 0) max_attempts_not_positive
    >> fail_if (int_leb o.max_attribute_value_bytes 0) max_attribute_value_bytes_not_positive

-- `compiles` says which patterns regexp.Compile accepts.
module _ (compiles : Str → Bool) where
  pub check_source : PartitionKeySource → Check
  unfolding source_or_resource
  check_source ks =
      let src = source_or_resource ks.source in
      (if str_eq src key_source_resource || str_eq src key_source_datapoint
        then fail_if (str_eq ks.name []) key_name_required
        else if str_eq src key_source_metric_name
        then fail_if (not (str_eq ks.name [])) key_name_not_empty
        else some unknown_source)
      >> fail_if (not (str_eq ks.regex []) && not (compiles ks.regex)) invalid_regex

  pub check_sources : List PartitionKeySource → Check
  unfolding check_source
  check_sources [] = none
  check_sources (ks ∷ rest) = check_source ks >> check_sources rest

  unfoldable pub check_strategy : PartitionKeyConfig → Check
  unfolding check_sources
  check_strategy p =
      if str_eq p.strategy [] || str_eq p.strategy partition_strategy_random
      then none
      else if str_eq p.strategy partition_strategy_tag_hash
      then (fail_if (not (is_empty p.tags) && not (is_empty p.keys)) tags_and_keys
          >> fail_if (is_empty p.tags && is_empty p.keys) no_tags_or_keys
          >> check_sources p.keys)
      else some unknown_strategy

  unfoldable pub validate : Config → Check
  validate c =
      fail_if (str_eq c.stream_name []) stream_name_required
      >> fail_if (str_eq c.region []) region_required
      >> fail_if (is_none (new_traces_encoder c.encoding)) unknown_encoding
      >> fail_if (is_none (new_compressor c.compression)) unknown_compression
      >> check_sizes c
      >> check_strategy c.partition_key
      >> fail_if
          (not (str_eq c.partition_key.hash []) && not (str_eq c.partition_key.hash hash_xxhash))
          unknown_hash
      >> check_oversize c.oversize
