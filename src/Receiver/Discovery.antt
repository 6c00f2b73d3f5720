-- ===== src/Receiver/Discovery.antt =====
-- receiver/awskinesisreceiver/shard_discovery.go: the coordinator's view of the stream's shards and
-- of the lease table. What the coordinator uses of the world outside stands here too.
pub mod Frame
pub mod Observing
pub mod Observations
pub mod Orphans
pub mod Backed
use opentelemetry_kinesis_st.Base.{
  ℕ, zero, suc, ◌+◌, ◌-◌, Bool, true, false, not, ◌&&◌, ◌||◌, List, [], ◌∷◌, ◌++◌, Option, none,
  some, Str, str_eq, ltb, ◌==◌, if◌then◌else◌, any, length,
}
use opentelemetry_kinesis_st.Base.GoMap
use opentelemetry_kinesis_st.Base.GoMap.{GoMap}
use opentelemetry_kinesis_st.Lease.{Lease, Result, ok, err, checkpoint_shard_end}

-- types.Shard; a nil id of a parent reads as "".
pub record Shard : Type 0 where
  pub shard_id : Str
  pub parent_shard_id : Str
  pub adjacent_parent_shard_id : Str

-- A page of ListShards, with its next token.
pub record Page : Type 0 where
  pub shards : List Shard
  pub next_token : Option Str

-- The lease store, the Kinesis client and the clock, on the state `W` of the world outside; `none`
-- is an error of List and of ListShards.
pub record Env (W : Type 0) : Type 0 where
  pub list : W → Option (List Lease) × W
  pub ensure : Str → List Str → W → Result (Unit {0}) × W
  pub acquire : Str → Str → ℕ → W → Result Lease × W
  pub release : Lease → W → Result (Unit {0}) × W
  pub delete : Str → ℕ → W → Result (Unit {0}) × W
  pub list_shards : Option Str → W → Option Page × W
  pub now : W → ℕ

pub record Observation : Type 0 where
  pub counter : ℕ
  pub seen_at : ℕ

-- The coordinator. A handle on a poller is a number, given out once, in place of a pointer;
-- `running` are the pollers whose goroutine has not ended, each with its shard, and `drains` those
-- that were asked to drain. `live_shards` is empty before the first discovery.
pub record Coordinator (W : Type 0) : Type 0 where
  pub worker_id : Str
  pub lease_duration : ℕ
  pub active : GoMap ℕ
  pub observed : GoMap Observation
  pub stopped : Bool
  pub live_shards : GoMap Bool
  pub absent : GoMap ℕ
  pub running : List (ℕ × Str)
  pub drains : List ℕ
  pub next_handle : ℕ
  pub world : W

abbrev pub orphan_reap_threshold : ℕ
orphan_reap_threshold = 3

pub data Listing : Type 0 where
  listed : List Shard → Listing
  list_failed : Listing
  list_unfinished : Listing

unfoldable pub parents : Shard → List Str
parents s =
    (if str_eq s.parent_shard_id [] then [] else s.parent_shard_id ∷ [])
    ++ (if str_eq s.adjacent_parent_shard_id [] then [] else s.adjacent_parent_shard_id ∷ [])

-- No more pages: a nil token or an empty one.
unfoldable pub is_last : Option Str → Bool
is_last none = true
is_last (some t) = str_eq t []

unfoldable pub is_listed : List Lease → Str → Bool
unfolding any
is_listed leases k = any (λ l. str_eq l.shard_id k) leases

-- The first loop of refreshObservations.
unfoldable pub observe : ℕ → List Lease → GoMap Observation → GoMap Observation
observe now [] observed = observed
observe now (l ∷ ls) observed = observe now ls (elim (GoMap.get observed l.shard_id) [
  | none ↦ GoMap.put observed l.shard_id (record { counter = l.counter; seen_at = now })
  | some obs ↦
      if not (obs.counter == l.counter)
      then GoMap.put observed l.shard_id (record { counter = l.counter; seen_at = now })
      else observed
])

-- A loop that deletes the entries of shards that no lease is for.
unfoldable pub prune {ℓ} : {V : Type ℓ} → List Lease → GoMap V → GoMap V
prune leases [] = []
prune leases ((k, v) ∷ m) = if is_listed leases k then (k, v) ∷ prune leases m else prune leases m

unfoldable pub refresh_observations : {W : Type 0} → List Lease → ℕ → Coordinator W → Coordinator W
refresh_observations leases now c = record c {
  observed = prune leases (observe now leases c.observed);
  absent = prune leases c.absent;
}

-- indexCheckpoints, on the map so far.
unfoldable pub index_checkpoints : GoMap Str → List Lease → GoMap Str
index_checkpoints out [] = out
index_checkpoints out (l ∷ ls) = index_checkpoints (GoMap.put out l.shard_id l.checkpoint) ls

unfoldable pub all_drained : GoMap Str → List Str → Bool
all_drained checkpoints [] = true
all_drained checkpoints (pid ∷ pids) =
    let rest = all_drained checkpoints pids in
    elim (GoMap.get checkpoints pid) [
      | none ↦ rest
      | some cp ↦ if not (str_eq cp checkpoint_shard_end) then false else rest
    ]

unfoldable pub parents_drained : Lease → GoMap Str → Bool
unfolding all_drained
parents_drained l checkpoints = all_drained checkpoints l.parent_ids

module _ {W : Type 0} (env : Env W) where
  -- listShards on at most `fuel` pages.
  unfoldable pub list_shards : ℕ → Option Str → List Shard → W → Listing × W
  list_shards zero token shards w = (list_unfinished, w)
  list_shards (suc fuel) token shards w = elim (env.list_shards token w).0 [
    | none ↦ (list_failed, (env.list_shards token w).1)
    | some page ↦
        let rest =
          list_shards fuel page.next_token (shards ++ page.shards) (env.list_shards token w).1 in
        if is_last page.next_token
        then (listed (shards ++ page.shards), (env.list_shards token w).1)
        else rest
  ]

  -- The loop of discoverShards: the live set, or `none` after an error of Ensure.
  unfoldable pub ensure_all : List Shard → GoMap Bool → W → Option (GoMap Bool) × W
  ensure_all [] live w = (some live, w)
  ensure_all (s ∷ ss) live w =
      let (r, w') = env.ensure s.shard_id (parents s) w in
      let rest = ensure_all ss (GoMap.put live s.shard_id true) w' in
      elim r [ ok u ↦ rest | err e ↦ (none, w') ]

  -- Whether it succeeded, and the coordinator.
  pub discover_shards : ℕ → Coordinator W → Bool × Coordinator W
  discover_shards fuel c =
      let (l, w) = list_shards fuel none [] c.world in
      elim l [
        | list_failed ↦ (false, record c { world = w })
        | list_unfinished ↦ (false, record c { world = w })
        | listed shards ↦
            let (r, w') = ensure_all shards [] w in
            elim r [
              | none ↦ (false, record c { world = w' })
              | some live ↦ (true, record c { live_shards = live; world = w' })
            ]
      ]

  -- The row's owner still heartbeats, by what was observed.
  unfoldable is_held : Coordinator W → Lease → Bool
  is_held c l = elim (GoMap.get c.observed l.shard_id) [
    | none ↦ false
    | some obs ↦
        not (str_eq l.owner [])
        && (obs.counter == l.counter)
        && ltb (env.now c.world - obs.seen_at) c.lease_duration
  ]

  -- The Delete of cleanupOrphans and what follows it.
  pub reap : Lease → Coordinator W → Coordinator W
  reap l c =
      let (r, w) = env.delete l.shard_id l.counter c.world in
      elim r [
        | err e ↦ record c { world = w }
        | ok u ↦ record c {
          observed = GoMap.delete c.observed l.shard_id;
          absent = GoMap.delete c.absent l.shard_id;
          world = w;
        }
      ]

  -- cleanupOrphans on a lease whose absence has been counted.
  pub cleanup_absent : Lease → Coordinator W → Coordinator W
  cleanup_absent l c = elim (GoMap.get c.active l.shard_id) [
    | some h ↦ c
    | none ↦
        if ltb (GoMap.get_or c.absent l.shard_id 0) orphan_reap_threshold
        then c
        else if is_held c l
        then c
        else reap l c
  ]

  pub cleanup_lease : Lease → Coordinator W → Coordinator W
  cleanup_lease l c =
      if GoMap.get_or c.live_shards l.shard_id false
      then record c { absent = GoMap.delete c.absent l.shard_id }
      else if not (str_eq l.checkpoint checkpoint_shard_end)
      then c
      else cleanup_absent l (record c {
        absent = GoMap.put c.absent l.shard_id (GoMap.get_or c.absent l.shard_id 0 + 1);
      })

  pub cleanup_leases : List Lease → Coordinator W → Coordinator W
  cleanup_leases [] c = c
  cleanup_leases (l ∷ ls) c = cleanup_leases ls (cleanup_lease l c)

  pub cleanup_orphans : List Lease → Coordinator W → Coordinator W
  cleanup_orphans leases c = if length c.live_shards == 0 then c else cleanup_leases leases c
