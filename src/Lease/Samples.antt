-- ===== src/Lease/Samples.antt =====
-- Concrete runs of internal/lease: a store with two shards, and a snapshot for the planner.
use mathlib.Core.List.{Memᴰ}
use opentelemetry_kinesis_st.Base.{
  str_le, ◌+◌, ◌≤◌, ◌<◌, ◌≡◌, ◌≢◌, refl, sym, ◌∙◌, ◌⊎◌, Bool, true, List, [], ◌∷◌, some, Str,
  str_eq, bytes, arith, length, keep,
}
use opentelemetry_kinesis_st.Base.GoMap
use opentelemetry_kinesis_st.Base.GoMap.{GoMap}
use opentelemetry_kinesis_st.Base.Sort.{sort}
use opentelemetry_kinesis_st.Lease.{Lease, ok, checkpoint_trim_horizon, next_counter}
use opentelemetry_kinesis_st.Lease.Memory.{MemoryStore, fresh_lease, heartbeat, conditional_update}
use opentelemetry_kinesis_st.Lease.Memory.Fencing.{
  Call, acquires, checkpoints, ensures, run, row, by_heartbeat, Refused, stale_token-Refused,
}
use opentelemetry_kinesis_st.Lease.Taker.{
  PlanInput, plan, plan_target, fair_share_target, active_shards, active_workers, owned_active,
  pick_steal_target,
}
use opentelemetry_kinesis_st.Lease.Taker.Share.{mine, plan-release}
use opentelemetry_kinesis_st.Lease.Taker.Claims.{IsFree, plan-acquire}
use opentelemetry_kinesis_st.Lease.Taker.Steals.{IsSurplus, plan-steal}

abbrev shard_a : Str
shard_a = bytes "a"

abbrev shard_b : Str
shard_b = bytes "b"

abbrev lease_a : Lease
lease_a = record {
  shard_id = shard_a;
  owner = bytes "w";
  counter = 7;
  checkpoint = checkpoint_trim_horizon;
  parent_ids = [];
}

abbrev beaten_a : Lease
beaten_a = record lease_a { counter = 8 }

abbrev two_rows : MemoryStore
two_rows = record { leases = (shard_a, lease_a) ∷ (shard_b, fresh_lease shard_b []) ∷ [] }

abbrev beaten : MemoryStore
beaten = record { leases = (shard_a, beaten_a) ∷ (shard_b, fresh_lease shard_b []) ∷ [] }

-- A peer takes the shard over and moves its checkpoint.
abbrev takeover : List Call
takeover =
    acquires shard_a (bytes "v") 8
    ∷ checkpoints (record lease_a { owner = bytes "v"; counter = 9 }) (bytes "49")
    ∷ ensures shard_b []
    ∷ []

heartbeat_accepted : heartbeat lease_a two_rows ≡ (ok beaten_a, beaten)
unfolding heartbeat conditional_update GoMap.get GoMap.put str_eq next_counter
heartbeat_accepted = refl

stale_token-Refused_example : Refused lease_a (run beaten takeover)
stale_token-Refused_example =
    stale_token-Refused two_rows beaten lease_a takeover (by_heartbeat beaten_a heartbeat_accepted)
      (tt, (tt, (tt, tt))) (omega arith)

row-two_rows : row two_rows shard_a ≡ some lease_a
unfolding GoMap.get str_eq
row-two_rows = refl

-- Worker "w" polls one of five shards, of which "v" holds four and heartbeats.
abbrev held : Str → Str → Lease
held shard owner = record {
  shard_id = shard;
  owner = owner;
  counter = 1;
  checkpoint = checkpoint_trim_horizon;
  parent_ids = [];
}

abbrev all_set : List Str → GoMap Bool
all_set [] = []
all_set (k ∷ ks) = (k, true) ∷ all_set ks

abbrev five : List Str
five = bytes "a" ∷ bytes "b" ∷ bytes "c" ∷ bytes "d" ∷ bytes "e" ∷ []

abbrev crowded : PlanInput
crowded = record {
  leases =
      held (bytes "a") (bytes "v")
      ∷ held (bytes "b") (bytes "v")
      ∷ held (bytes "c") (bytes "v")
      ∷ held (bytes "d") (bytes "v")
      ∷ held (bytes "e") (bytes "w")
      ∷ [];
  self = bytes "w";
  fresh = all_set five;
  drained = all_set five;
  owned = all_set (bytes "e" ∷ []);
}

steal_crowded : (plan crowded).steal ≡ bytes "a"
unfolding plan active_shards plan_target fair_share_target keep GoMap.get GoMap.put GoMap.get_or
    GoMap.keys str_eq str_le sort active_workers owned_active pick_steal_target
steal_crowded = refl

steals_crowded : (plan crowded).steal ≢ []
steals_crowded e = let k : bytes "a" ≡ [] = sym steal_crowded ∙ e in cc

plan-steal_example :
    (length (plan crowded).acquire + length (mine crowded) < plan_target crowded)
    × ((l : Lease) × IsSurplus crowded (plan_target crowded) l
        × ((plan crowded).steal ≡ l.shard_id))
plan-steal_example = plan-steal crowded steals_crowded

plan-acquire_example :
    ((length (plan crowded).acquire + length (mine crowded) ≤ plan_target crowded)
      ⊎ ((plan crowded).acquire ≡ []))
    × ((a : Str)
        → Memᴰ a (plan crowded).acquire
        → (l : Lease) × IsFree crowded l × (a ≡ l.shard_id))
    × ((l : Lease)
        → IsFree crowded l
        → (Memᴰ l.shard_id (plan crowded).acquire)
          ⊎ (plan_target crowded ≤ length (plan crowded).acquire + length (mine crowded)))
plan-acquire_example = plan-acquire crowded

plan-release_example :
    ((plan_target crowded < length (mine crowded))
      × (length (plan crowded).release + plan_target crowded ≡ length (mine crowded))
      × ((a : Str) → Memᴰ a (plan crowded).release → Memᴰ a (mine crowded))
      × ((plan crowded).acquire ≡ [])
      × ((plan crowded).steal ≡ []))
    ⊎ ((length (mine crowded) ≤ plan_target crowded) × ((plan crowded).release ≡ []))
plan-release_example = plan-release crowded
