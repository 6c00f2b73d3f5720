-- ===== src/Exporter/Emit.antt =====
-- exporter/awskinesisexporter/record.go, emit and partitionKey: a batch from its groups to the
-- records that are flushed. The grouping by the key plan is a parameter.
pub mod Limits
pub mod Totals
pub mod EndToEnd
use opentelemetry_kinesis_st.Base.{
  ℕ, zero, suc, ◌+◌, ◌/◌, ◌%◌, Bool, List, [], ◌∷◌, ◌++◌, Option, none, some, Str, ltb,
  if◌then◌else◌,
}
use opentelemetry_kinesis_st.Exporter.Config.{Config, tag_hash}
use opentelemetry_kinesis_st.Exporter.Oversize.{DropOutcome, SignalCodec, Packed, pack_chain}
use opentelemetry_kinesis_st.Exporter.Record.{Entry, Env, Outcome, unfinished, flush}

pub record TaggedBatch (T : Type 0) : Type 0 where
  pub key : Str
  pub batch : T

-- The records of a batch, and the drops that were reported, in order.
pub record Emitted : Type 0 where
  pub entries : List Entry
  pub reported : List DropOutcome

-- A digit of %x.
hex_digit : ℕ → ℕ
hex_digit d = if ltb d 10 then 48 + d else 87 + d

-- %0<width>x of a number of at most that many digits.
pub hex_pad : ℕ → ℕ → Str
unfolding hex_digit
hex_pad zero n = []
hex_pad (suc width) n = hex_pad width (n / 16) ++ hex_digit (n % 16) ∷ []

-- xxhash.Sum64String and uuid.NewString.
pub record KeySource (W : Type 0) : Type 0 where
  pub sum64 : Str → ℕ
  pub new_uuid : W → Str × W

module _ {W : Type 0} (cfg : Config) (keys : KeySource W) where
  pub partition_key : Str → W → Str × W
  unfolding hex_pad
  partition_key tag_value w =
      if tag_hash cfg then (hex_pad 16 (keys.sum64 tag_value), w) else keys.new_uuid w

  -- The inner loop of emit over the payloads of a group.
  pub key_payloads : Str → List (List ℕ) → W → List Entry × W
  key_payloads tag_value [] w = ([], w)
  key_payloads tag_value (p ∷ ps) w =
      let (k, w') = partition_key tag_value w in
      let (rest, u) = key_payloads tag_value ps w' in
      (record { payload = p; partition_key = k } ∷ rest, u)

module _ {T W : Type 0} (cfg : Config) (keys : KeySource W) (compress : List ℕ → Option (List ℕ))
    (sc : SignalCodec T) where
  -- One group, before what the groups after it add.
  pub add_group : Packed → Str → (W → Option Emitted × W) → W → Option Emitted × W
  add_group r tag_value again w =
      let (es, w') = key_payloads cfg keys tag_value r.payloads w in
      let (rest, u) = again w' in
      (
        elim rest [
          | none ↦ none
          | some e ↦ some (record { entries = es ++ e.entries; reported = r.dropped ++ e.reported })
        ],
        u,
      )

  -- The loop of emit over the groups; `none` is a packing that panicked or
  -- used up its fuel.
  pub emit_groups : List (TaggedBatch T) → W → Option Emitted × W
  unfolding add_group
  emit_groups [] w = (some (record { entries = []; reported = [] }), w)
  emit_groups (g ∷ gs) w = elim (pack_chain cfg compress sc g.batch) [
    | none ↦ (none, w)
    | some r ↦ add_group r g.key (emit_groups gs) w
  ]

  unfoldable pub emit : Env W → (T → List (TaggedBatch T)) → T → W → Outcome × W
  emit env group_by_tags b w =
      let (r, w') = emit_groups (group_by_tags b) w in
      elim r [
        | none ↦ (unfinished, w')
        | some e ↦ flush env cfg.put_records.max_records cfg.put_records.max_bytes e.entries w'
      ]
