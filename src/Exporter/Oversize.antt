-- ===== src/Exporter/Oversize.antt =====
-- exporter/awskinesisexporter/oversize.go: the policy chain for a batch that does not fit in one
-- record, and the drop accounting. Debug and warning logs are left out.
pub mod Drops
pub mod Accounts
pub mod Conservation
use opentelemetry_kinesis_st.Base.{
  ℕ, zero, suc, ◌+◌, Bool, true, false, not, ◌&&◌, ◌||◌, List, [], ◌∷◌, ◌++◌, Option, none, some,
  Str, str_eq, bytes, ltb, ◌==◌, if◌then◌else◌, length, ℤ, ltb_int, leb_int, to_ℕ,
}
use opentelemetry_kinesis_st.Exporter.Config.{
  Config, OversizeConfig, key_overhead, oversize_split_half, oversize_truncate_attrs,
  oversize_reject,
}

pub record DropOutcome : Type 0 where
  pub count : ℕ
  pub reason : Str

abbrev marshal_error : Str
marshal_error = bytes "marshal_error"

abbrev compress_error : Str
compress_error = bytes "compress_error"

abbrev max_attempts_reason : Str
max_attempts_reason = bytes "max_attempts"

abbrev irreducible : Str
irreducible = bytes "irreducible"

abbrev reject_policy : Str
reject_policy = bytes "reject_policy"

abbrev chain_exhausted : Str
chain_exhausted = bytes "chain_exhausted"

pub total : List DropOutcome → ℕ
total [] = 0
total (x ∷ xs) = x.count + total xs

-- The loop of addReason: the first entry with the reason is bumped, else one is appended.
bump_reason : ℕ → Str → List DropOutcome → List DropOutcome
bump_reason count reason [] = record { count = count; reason = reason } ∷ []
bump_reason count reason (x ∷ xs) =
    if str_eq x.reason reason
    then record x { count = x.count + count } ∷ xs
    else x ∷ bump_reason count reason xs

pub add_reason : List DropOutcome → ℕ → Str → List DropOutcome
unfolding bump_reason
add_reason d count reason = if count == 0 then d else bump_reason count reason d

pub merge : List DropOutcome → List DropOutcome → List DropOutcome
merge d [] = d
merge d (x ∷ o) = merge (add_reason d x.count x.reason) o

-- The per-signal adapter of record.go, as far as the packing uses it. `marshal` is `none` on an
-- error, `split_half` for a batch that cannot be split, and a clamp where the code panics.
pub record SignalCodec (T : Type 0) : Type 0 where
  pub split_half : T → Option (T × T)
  pub truncate_attributes : Option (T → ℤ → Option (T × ℕ))
  pub marshal : T → Option (List ℕ)
  pub item_count : T → ℕ

-- The payload and `ok` of tryEncode as an option, and its terminal drop.
pub record Attempt : Type 0 where
  pub payload : Option (List ℕ)
  pub terminal : DropOutcome

abbrev no_drop : DropOutcome
no_drop = record { count = 0; reason = [] }

-- What packChain returns, and the number of attribute values that it reports as truncated.
pub record Packed : Type 0 where
  pub payloads : List (List ℕ)
  pub dropped : List DropOutcome
  pub truncated : ℕ

-- recordTruncated, for a clamp of `n` values before the rest of the chain.
add_truncated : ℕ → Option Packed → Option Packed
add_truncated n none = none
add_truncated n (some p) = some (record p { truncated = n + p.truncated })

-- `compress` is the configured codec, `none` on an error.
module _ {T : Type 0} (cfg : Config) (compress : List ℕ → Option (List ℕ))
    (sc : SignalCodec T) where
  -- A compressed payload fits if it and the partition key stay within the record limit.
  pub fits : List ℕ → Bool
  fits payload = leb_int (length payload + key_overhead cfg) cfg.max_record_size

  pub try_encode : T → Attempt
  unfolding fits
  try_encode batch = elim (sc.marshal batch) [
    | none ↦ record {
      payload = none;
      terminal = record { count = sc.item_count batch; reason = marshal_error };
    }
    | some raw ↦ elim (compress raw) [
      | none ↦ record {
        payload = none;
        terminal = record { count = sc.item_count batch; reason = compress_error };
      }
      | some payload ↦
          if fits payload
          then record { payload = some payload; terminal = no_drop }
          else record { payload = none; terminal = no_drop }
    ]
  ]

  pub drop_all : T → Str → Packed
  drop_all batch reason = record {
    payloads = [];
    dropped = add_reason [] (sc.item_count batch) reason;
    truncated = 0;
  }

  -- append(pa, pb...) and da.merge(db)
  pub join : Option Packed → Option Packed → Option Packed
  join none b = none
  join (some a) none = none
  join (some a) (some b) = some (record {
    payloads = a.payloads ++ b.payloads;
    dropped = merge a.dropped b.dropped;
    truncated = a.truncated + b.truncated;
  })

  -- packSplit on a batch that does not fit: `again` is its recursive call at the next depth.
  split_batch : (T → Option Packed) → T → ℕ → Option Packed
  unfolding drop_all join
  split_batch again batch depth =
      if not (ltb_int depth cfg.oversize.max_attempts)
      then some (drop_all batch max_attempts_reason)
      else elim (sc.split_half batch) [
        | none ↦ some (drop_all batch irreducible)
        | some (a, b) ↦ join (again a) (again b)
      ]

  -- packSplit past tryEncode.
  after_encode : (T → Option Packed) → T → ℕ → Attempt → Option Packed
  unfolding split_batch
  after_encode again batch depth t =
      if ltb 0 t.terminal.count
      then some (record {
        payloads = [];
        dropped = add_reason [] t.terminal.count t.terminal.reason;
        truncated = 0;
      })
      else elim t.payload [
        | some payload ↦ some (record { payloads = payload ∷ []; dropped = []; truncated = 0 })
        | none ↦ split_batch again batch depth
      ]

  -- `none` is a recursion that used up its fuel.
  pub pack_split : ℕ → T → ℕ → Option Packed
  unfolding after_encode
  pack_split zero batch depth = none
  pack_split (suc fuel) batch depth =
      after_encode (λ b. pack_split fuel b (depth + 1)) batch depth (try_encode batch)

  -- One more call than max_attempts nests.
  pub split_fuel : ℕ
  split_fuel = suc (to_ℕ cfg.oversize.max_attempts)

  -- What tryEncode of the trimmed batch leads to, `rest` being the policies
  -- after it on a given batch.
  after_truncate : (T → Option Packed) → T → T → ℕ → Attempt → Option Packed
  after_truncate rest current trimmed n t =
      if ltb 0 t.terminal.count then add_truncated n (rest current) else elim t.payload [
        | some payload ↦ some (record { payloads = payload ∷ []; dropped = []; truncated = n })
        | none ↦ add_truncated n (rest trimmed)
      ]

  -- The truncate policy, for a signal that has a clamp or not; `none` also for a clamp that panics.
  truncate_batch : Option (T → ℤ → Option (T × ℕ)) → (T → Option Packed) → T → Option Packed
  unfolding after_truncate add_truncated
  truncate_batch none rest current = rest current
  truncate_batch (some truncate) rest current =
      elim (truncate current cfg.oversize.max_attribute_value_bytes) [
        | none ↦ none
        | some (trimmed, n) ↦
            if n == 0
            then rest current
            else after_truncate rest current trimmed n (try_encode trimmed)
      ]

  -- The loop over the policies; a policy that is none of the three does nothing.
  pub run_policies : List Str → T → Option Packed
  unfolding truncate_batch drop_all
  run_policies [] current = some (drop_all current chain_exhausted)
  run_policies (p ∷ ps) current =
      let rest = run_policies ps current in
      if str_eq p oversize_truncate_attrs
      then truncate_batch sc.truncate_attributes (run_policies ps) current
      else if str_eq p oversize_split_half
      then pack_split split_fuel current 0
      else if str_eq p oversize_reject
      then some (drop_all current reject_policy)
      else rest

  -- packChain past its first tryEncode.
  pack_oversize : T → Attempt → Option Packed
  pack_oversize batch t =
      if ltb 0 t.terminal.count
      then some (record {
        payloads = [];
        dropped = add_reason [] t.terminal.count t.terminal.reason;
        truncated = 0;
      })
      else elim t.payload [
        | some payload ↦ some (record { payloads = payload ∷ []; dropped = []; truncated = 0 })
        | none ↦ run_policies cfg.oversize.policies batch
      ]

  pub pack_chain : T → Option Packed
  unfolding pack_oversize
  pack_chain batch = pack_oversize batch (try_encode batch)
