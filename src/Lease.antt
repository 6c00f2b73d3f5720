-- ===== src/Lease.antt =====
-- internal/lease/lease.go: the lease row, its sentinels, the errors of a store.
pub mod Memory
pub mod Dynamodb
pub mod Taker
mod Samples
use opentelemetry_kinesis_st.Base.{ℕ, ◌+◌, ◌%◌, ◌^◌, Bool, not, ◌&&◌, List, [], Str, str_eq, bytes}

abbrev pub checkpoint_trim_horizon : Str
checkpoint_trim_horizon = bytes "TRIM_HORIZON"

abbrev pub checkpoint_shard_end : Str
checkpoint_shard_end = bytes "SHARD_END"

-- `counter` is the int64's bit pattern, below 2 ^ 64: the program only compares it and adds 1.
pub record Lease : Type 0 where
  pub shard_id : Str
  pub owner : Str
  pub counter : ℕ
  pub checkpoint : Str
  pub parent_ids : List Str

unfoldable pub is_owned_by : Lease → Str → Bool
is_owned_by l owner = not (str_eq l.owner []) && str_eq l.owner owner

abbrev pub int64_mod : ℕ
int64_mod = 2 ^ 64

-- Counter++, with int64's wrap-around.
pub next_counter : ℕ → ℕ
next_counter c = (c + 1) % int64_mod

-- `canceled` is context.Canceled, and `fault` any other failure of the backing storage.
pub data Error : Type 0 where
  lease_conflict lease_not_found empty_owner canceled fault : Error

pub data Result {ℓ} (A : Type ℓ) : Type ℓ where
  ok : A → Result A
  err : Error → Result A
