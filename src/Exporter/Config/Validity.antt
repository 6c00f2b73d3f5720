-- ===== src/Exporter/Config/Validity.antt =====
-- exporter/awskinesisexporter/config.go: which configurations Validate accepts.
use opentelemetry_kinesis_st.Base.{
  ◌≤◌, ◌<◌, ◌≡◌, ◌≢◌, ◌↔◌, refl, Bool, true, false, ◌⊎◌, List, [], ◌∷◌, none, Str, str_eq,
  str_eq_iff, str_eq_refl, arith, to_ℕ, All,
}
use opentelemetry_kinesis_st.Encoding.{new_traces_encoder, new_compressor}
use opentelemetry_kinesis_st.Exporter.Config.{
  Config, PartitionKeyConfig, PartitionKeySource, OversizeConfig, key_overhead, key_source_resource,
  key_source_datapoint, key_source_metric_name, partition_strategy_random,
  partition_strategy_tag_hash, hash_xxhash, oversize_split_half, oversize_truncate_attrs,
  oversize_reject, check_policies, check_source, check_sources, check_strategy, check_sizes,
  check_oversize, validate,
}

-- Each record has room for a payload beside its key, and fits in a request; a request holds 1 to
-- 500 records.
pub record HasSizes (c : Config) : Type 0 where
  pub room : key_overhead c < to_ℕ c.max_record_size
  pub some_records : 0 < to_ℕ c.put_records.max_records
  pub at_most_500 : to_ℕ c.put_records.max_records ≤ 500
  pub record_fits : to_ℕ c.max_record_size ≤ to_ℕ c.put_records.max_bytes

check_sizes_sound : (c : Config) → check_sizes c ≡ none → HasSizes c
unfolding check_sizes
check_sizes_sound c h = record {
  room = ground arith;
  some_records = ground arith;
  at_most_500 = ground arith;
  record_fits = ground arith;
}

check_sizes_complete : (c : Config) → HasSizes c → check_sizes c ≡ none
unfolding check_sizes
check_sizes_complete c h = ground arith

-- truncate_attribute_values may stand anywhere, split_half and reject only at the end.
abbrev IsChain : List Str → Type 0
IsChain [] = Unit
IsChain (p ∷ ps) =
    ((p ≡ oversize_truncate_attrs) × IsChain ps)
    ⊎ (((p ≡ oversize_split_half) ⊎ (p ≡ oversize_reject)) × (ps ≡ []))

check_policies_sound : (ps : List Str) → check_policies ps ≡ none → IsChain ps
unfolding check_policies
check_policies_sound [] h = tt
check_policies_sound (p ∷ ps) h = ground (
  arith,
  check_policies_sound ps,
  str_eq_iff p oversize_truncate_attrs,
  str_eq_iff p oversize_split_half,
  str_eq_iff p oversize_reject,
)

check_policies_complete : (ps : List Str) → IsChain ps → check_policies ps ≡ none
unfolding check_policies
check_policies_complete [] h = refl
check_policies_complete (p ∷ ps) h = ground (
  arith,
  check_policies_complete ps,
  str_eq_iff p oversize_truncate_attrs,
  str_eq_iff p oversize_split_half,
  str_eq_iff p oversize_reject,
)

-- An oversize chain is not empty and ends where it must, and its bounds are positive.
pub record HasChain (o : OversizeConfig) : Type 0 where
  pub migrated : o.legacy_policy ≡ none
  pub some_policy : o.policies ≢ []
  pub chain : IsChain o.policies
  pub some_attempts : 0 < to_ℕ o.max_attempts
  pub some_bytes : 0 < to_ℕ o.max_attribute_value_bytes

check_oversize_sound : (o : OversizeConfig) → check_oversize o ≡ none → HasChain o
unfolding check_oversize
check_oversize_sound o h = record {
  migrated = ground arith;
  some_policy = ground arith;
  chain = check_policies_sound o.policies (ground arith);
  some_attempts = ground arith;
  some_bytes = ground arith;
}

check_oversize_complete : (o : OversizeConfig) → HasChain o → check_oversize o ≡ none
unfolding check_oversize
check_oversize_complete o h = ground (arith, check_policies_complete o.policies h.chain)

metric_name_ne_resource : str_eq key_source_metric_name key_source_resource ≡ false
unfolding str_eq
metric_name_ne_resource = refl

metric_name_ne_datapoint : str_eq key_source_metric_name key_source_datapoint ≡ false
unfolding str_eq
metric_name_ne_datapoint = refl

module _ (compiles : Str → Bool) where
  -- A key names an attribute, except a metric-name key, which has no name; its pattern compiles.
  abbrev pub IsSource : PartitionKeySource → Type 0
  IsSource ks =
      ((((ks.source ≡ []) ⊎ (ks.source ≡ key_source_resource) ⊎ (ks.source ≡ key_source_datapoint))
          × (ks.name ≢ []))
        ⊎ ((ks.source ≡ key_source_metric_name) × (ks.name ≡ [])))
      × ((ks.regex ≡ []) ⊎ (compiles ks.regex ≡ true))

  check_source_sound : (ks : PartitionKeySource) → check_source compiles ks ≡ none → IsSource ks
  unfolding check_source
  check_source_sound ks h = ground (
    arith,
    str_eq_iff ks.source [],
    str_eq_iff ks.source key_source_resource,
    str_eq_iff ks.source key_source_datapoint,
    str_eq_iff ks.source key_source_metric_name,
    str_eq_iff ks.name [],
    str_eq_iff ks.regex [],
    str_eq_refl key_source_resource,
  )

  check_source_complete : (ks : PartitionKeySource) → IsSource ks → check_source compiles ks ≡ none
  unfolding check_source
  check_source_complete ks h = ground (
    arith,
    str_eq_iff ks.source [],
    str_eq_iff ks.source key_source_resource,
    str_eq_iff ks.source key_source_datapoint,
    str_eq_iff ks.source key_source_metric_name,
    str_eq_iff ks.name [],
    str_eq_iff ks.regex [],
    str_eq_refl key_source_resource,
    metric_name_ne_resource,
    metric_name_ne_datapoint,
  )

  check_sources_sound :
      (kss : List PartitionKeySource) → check_sources compiles kss ≡ none → All IsSource kss
  unfolding check_sources
  check_sources_sound [] h = tt
  check_sources_sound (ks ∷ kss) h =
      (check_source_sound ks (ground arith), check_sources_sound kss (ground arith))

  check_sources_complete :
      (kss : List PartitionKeySource) → All IsSource kss → check_sources compiles kss ≡ none
  unfolding check_sources
  check_sources_complete [] h = refl
  check_sources_complete (ks ∷ kss) h =
      ground (arith, check_source_complete ks h.0, check_sources_complete kss h.1)

  -- The random strategy, or tag_hash with tags or keys and not both.
  abbrev pub HasStrategy : PartitionKeyConfig → Type 0
  HasStrategy p =
      ((p.strategy ≡ []) ⊎ (p.strategy ≡ partition_strategy_random))
      ⊎ ((p.strategy ≡ partition_strategy_tag_hash)
          × (((p.tags ≢ []) × (p.keys ≡ [])) ⊎ ((p.tags ≡ []) × (p.keys ≢ [])))
          × All IsSource p.keys)

  check_strategy_sound : (p : PartitionKeyConfig) → check_strategy compiles p ≡ none → HasStrategy p
  unfolding check_strategy
  check_strategy_sound p h = ground (
    arith,
    str_eq_iff p.strategy [],
    str_eq_iff p.strategy partition_strategy_random,
    str_eq_iff p.strategy partition_strategy_tag_hash,
    check_sources_sound p.keys,
  )

  check_strategy_complete :
      (p : PartitionKeyConfig) → HasStrategy p → check_strategy compiles p ≡ none
  unfolding check_strategy
  check_strategy_complete p h = ground (
    arith,
    str_eq_iff p.strategy [],
    str_eq_iff p.strategy partition_strategy_random,
    str_eq_iff p.strategy partition_strategy_tag_hash,
    str_eq_iff partition_strategy_tag_hash partition_strategy_random,
    check_sources_complete p.keys,
  )

  -- What the exporter relies on.
  pub record IsValid (c : Config) : Type 0 where
    pub stream_named : c.stream_name ≢ []
    pub region_named : c.region ≢ []
    pub encoding_known : new_traces_encoder c.encoding ≢ none
    pub compression_known : new_compressor c.compression ≢ none
    pub sizes : HasSizes c
    pub strategy : HasStrategy c.partition_key
    pub hash_known : (c.partition_key.hash ≡ []) ⊎ (c.partition_key.hash ≡ hash_xxhash)
    pub oversize : HasChain c.oversize

  IsValid-of_validate : (c : Config) → validate compiles c ≡ none → IsValid c
  unfolding validate
  IsValid-of_validate c h = record {
    stream_named = ground (arith, str_eq_iff c.stream_name []);
    region_named = ground (arith, str_eq_iff c.region []);
    encoding_known = ground arith;
    compression_known = ground arith;
    sizes = check_sizes_sound c (ground arith);
    strategy = check_strategy_sound c.partition_key (ground arith);
    hash_known =
        ground
          (arith, str_eq_iff c.partition_key.hash [], str_eq_iff c.partition_key.hash hash_xxhash);
    oversize = check_oversize_sound c.oversize (ground arith);
  }

  validate_of_valid : (c : Config) → IsValid c → validate compiles c ≡ none
  unfolding validate
  validate_of_valid c v =
      rw
        (
          check_sizes_complete c v.sizes,
          check_strategy_complete c.partition_key v.strategy,
          check_oversize_complete c.oversize v.oversize,
        )
        (ground (
          arith,
          v.stream_named,
          str_eq_iff c.stream_name [],
          str_eq_iff c.region [],
          str_eq_iff c.partition_key.hash [],
          str_eq_iff c.partition_key.hash hash_xxhash,
        ))

  -- Validate accepts exactly the valid configurations.
  pub validate_iff : (c : Config) → (validate compiles c ≡ none) ↔ IsValid c
  validate_iff c = (IsValid-of_validate c, validate_of_valid c)
