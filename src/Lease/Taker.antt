-- ===== src/Lease/Taker.antt =====
-- internal/lease/taker.go: the fair-share plan of one worker over one snapshot of the lease table.
pub mod Share
pub mod Claims
pub mod Steals
use opentelemetry_kinesis_st.Base.{
  ℕ, ◌+◌, ◌-◌, ◌/◌, Bool, true, false, not, ◌&&◌, ◌||◌, List, [], ◌∷◌, ◌++◌, Str, str_eq, ltb, leb,
  ◌==◌, if◌then◌else◌, length, drop, keep, map,
}
use opentelemetry_kinesis_st.Base.GoMap
use opentelemetry_kinesis_st.Base.GoMap.{GoMap}
use opentelemetry_kinesis_st.Base.Sort.{sort}
use opentelemetry_kinesis_st.Lease.{Lease, checkpoint_shard_end}

pub record PlanInput : Type 0 where
  pub leases : List Lease
  pub self : Str
  pub fresh : GoMap Bool
  pub drained : GoMap Bool
  pub owned : GoMap Bool

-- `steal` is "" for none.
pub record PlanResult : Type 0 where
  pub acquire : List Str
  pub release : List Str
  pub steal : Str

-- m[k] of a map[string]bool
abbrev pub flag : GoMap Bool → Str → Bool
flag m k = GoMap.get_or m k false

unfoldable pub active_shards : List Lease → List Lease
unfolding keep
active_shards leases = keep (λ l. not (str_eq l.checkpoint checkpoint_shard_end)) leases

-- The loop of activeWorkers, on the set of owners so far.
add_owners : GoMap Bool → GoMap (Unit {0}) → List Lease → GoMap (Unit {0})
add_owners fresh owners [] = owners
add_owners fresh owners (l ∷ ls) =
    add_owners fresh
      (if not (str_eq l.owner []) && flag fresh l.shard_id
        then GoMap.put owners l.owner tt
        else owners)
      ls

unfoldable pub active_workers : List Lease → GoMap Bool → Str → ℕ
unfolding add_owners
active_workers active fresh self =
    length (GoMap.keys (add_owners fresh (GoMap.put [] self tt) active))

unfoldable pub fair_share_target : ℕ → ℕ → ℕ
fair_share_target shards workers =
    if shards == 0
    then 0
    else (let w = if ltb workers 1 then 1 else workers in (shards + w - 1) / w)

unfoldable pub owned_active : List Lease → GoMap Bool → List Str
unfolding keep
owned_active active owned = map (λ l. l.shard_id) (keep (λ l. flag owned l.shard_id) active)

-- The tests of Plan's acquire loop on one lease: not skipped, and free to take.
pub is_claimable : PlanInput → Lease → Bool
is_claimable inp l =
    not (flag inp.owned l.shard_id || not (flag inp.drained l.shard_id))
    && (str_eq l.owner [] || str_eq l.owner inp.self || not (flag inp.fresh l.shard_id))

-- The acquire loop, which breaks as soon as `want` shards are chosen.
claim : PlanInput → ℕ → List Str → List Lease → List Str
unfolding is_claimable
claim inp want acquire [] = acquire
claim inp want acquire (l ∷ ls) =
    let rest =
      claim inp want (if is_claimable inp l then acquire ++ l.shard_id ∷ [] else acquire) ls in
    if leb want (length acquire) then acquire else rest

-- A lease that counts for its owner in pickStealTarget.
pub is_peer_held : PlanInput → Lease → Bool
is_peer_held inp l =
    not (str_eq l.owner []) && not (str_eq l.owner inp.self) && flag inp.fresh l.shard_id

count_owners : PlanInput → GoMap ℕ → List Lease → GoMap ℕ
unfolding is_peer_held
count_owners inp counts [] = counts
count_owners inp counts (l ∷ ls) =
    count_owners inp
      (if is_peer_held inp l
        then GoMap.put counts l.owner (GoMap.get_or counts l.owner 0 + 1)
        else counts)
      ls

pick_best : GoMap ℕ → Str × ℕ → List Str → Str × ℕ
pick_best counts best [] = best
pick_best counts (best_owner, best_count) (o ∷ os) =
    pick_best counts
      (if ltb best_count (GoMap.get_or counts o 0)
        then (o, GoMap.get_or counts o 0)
        else (best_owner, best_count))
      os

first_or_empty : List Str → Str
first_or_empty [] = []
first_or_empty (x ∷ xs) = x

steal_candidates : List Lease → PlanInput → Str → List Str
unfolding keep
steal_candidates active inp best_owner =
    map (λ l. l.shard_id)
      (keep
        (λ l. str_eq l.owner best_owner && flag inp.fresh l.shard_id && flag inp.drained l.shard_id)
        active)

unfoldable pub pick_steal_target : List Lease → PlanInput → ℕ → Str
unfolding count_owners pick_best first_or_empty steal_candidates
pick_steal_target active inp target =
    let counts = count_owners inp [] active in
    let best_owner = (pick_best counts ([], target) (sort (GoMap.keys counts))).0 in
    if str_eq best_owner []
    then []
    else first_or_empty (sort (steal_candidates active inp best_owner))

-- The share that Plan aims at.
unfoldable pub plan_target : PlanInput → ℕ
plan_target inp =
    let active = active_shards inp.leases in
    fair_share_target (length active) (active_workers active inp.fresh inp.self)

plan_acquire : PlanInput → ℕ → ℕ → PlanResult
unfolding claim
plan_acquire inp target want =
    let active = active_shards inp.leases in
    let acquire = sort (claim inp want [] active) in
    if leb want (length acquire)
    then record { acquire = acquire; release = []; steal = [] }
    else record { acquire = acquire; release = []; steal = pick_steal_target active inp target }

unfoldable pub plan : PlanInput → PlanResult
unfolding plan_acquire
plan inp =
    let my_shards = sort (owned_active (active_shards inp.leases) inp.owned) in
    let target = plan_target inp in
    let want = target - length my_shards in
    if ltb target (length my_shards)
    then record { acquire = []; release = drop target my_shards; steal = [] }
    else if want == 0
    then record { acquire = []; release = []; steal = [] }
    else plan_acquire inp target want
