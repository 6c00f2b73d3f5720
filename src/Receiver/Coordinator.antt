-- ===== src/Receiver/Coordinator.antt =====
-- receiver/awskinesisreceiver/coordinator.go: the reconcile loop and the lives of the pollers. Each
-- critical section under the mutex is one step. Logs and metrics are left out.
pub mod Parents
mod Samples
pub mod Shutdown
use opentelemetry_kinesis_st.Base.{
  ℕ, ◌+◌, ◌-◌, Bool, true, false, not, ◌&&◌, ◌||◌, List, [], ◌∷◌, ◌++◌, Option, none, some, Str,
  str_eq, ltb, ◌==◌, if◌then◌else◌, keep,
}
use opentelemetry_kinesis_st.Base.GoMap
use opentelemetry_kinesis_st.Base.GoMap.{GoMap}
use opentelemetry_kinesis_st.Lease.{Lease, Result, ok, err}
use opentelemetry_kinesis_st.Lease.Taker.{PlanInput, PlanResult, plan}
use opentelemetry_kinesis_st.Receiver.Discovery.{
  Env, Observation, Coordinator, refresh_observations, index_checkpoints, parents_drained,
  cleanup_orphans,
}

-- The loops of reconcile that fill its maps.
unfoldable fresh_flags : {W : Type 0} → Coordinator W → ℕ → GoMap Bool → List Lease → GoMap Bool
fresh_flags c now fresh [] = fresh
fresh_flags c now fresh (l ∷ ls) =
    fresh_flags c now
      (GoMap.put fresh l.shard_id (elim (GoMap.get c.observed l.shard_id) [
        | none ↦ false
        | some obs ↦ not (str_eq l.owner []) && ltb (now - obs.seen_at) c.lease_duration
      ]))
      ls

unfoldable owned_flags : GoMap ℕ → GoMap Bool
owned_flags [] = []
owned_flags ((k, h) ∷ m) = (k, true) ∷ owned_flags m

pub drained_flags : GoMap Str → GoMap Bool → List Lease → GoMap Bool
drained_flags checkpoints drained [] = drained
drained_flags checkpoints drained (l ∷ ls) =
    drained_flags checkpoints (GoMap.put drained l.shard_id (parents_drained l checkpoints)) ls

unfoldable by_id : GoMap Lease → List Lease → GoMap Lease
by_id m [] = m
by_id m (l ∷ ls) = by_id (GoMap.put m l.shard_id l) ls

-- Go's zero value of a lease.
abbrev zero_lease : Lease
zero_lease = record { shard_id = []; owner = []; counter = 0; checkpoint = []; parent_ids = [] }

abbrev same_handle : ℕ × Str → ℕ × Str → Bool
same_handle (g, j) (h, k) = (g == h) && str_eq j k

abbrev is_handle : ℕ → Option ℕ → Bool
is_handle h none = false
is_handle h (some g) = g == h

module _ {W : Type 0} (env : Env W) where
  -- The critical section of startPoller on a new poller, or the release of a lease that was taken
  -- while the coordinator stopped.
  pub start_poller : Lease → Coordinator W → Coordinator W
  start_poller l c =
      if c.stopped then record c { world = (env.release l c.world).1 } else record c {
        active = GoMap.put c.active l.shard_id c.next_handle;
        running = (c.next_handle, l.shard_id) ∷ c.running;
        next_handle = c.next_handle + 1;
      }

  -- tryAcquire up to its call of startPoller: the lease taken, if any.
  pub claim_lease : Lease → Coordinator W → Option Lease × Coordinator W
  claim_lease l c = elim (GoMap.get c.active l.shard_id) [
    | some h ↦ (none, c)
    | none ↦
        let (r, w) = env.acquire l.shard_id c.worker_id l.counter c.world in
        elim r [
          | ok taken ↦ (some taken, record c { world = w })
          | err e ↦ (none, record c { world = w })
        ]
  ]

  unfoldable try_acquire : Lease → Coordinator W → Coordinator W
  try_acquire l c =
      let (t, c') = claim_lease l c in elim t [ none ↦ c' | some taken ↦ start_poller taken c' ]

  -- The deferred functions of a poller's goroutine: its slot is cleared only if it is still its own.
  pub exit_poller : ℕ × Str → Coordinator W → Coordinator W
  unfolding keep
  exit_poller (h, k) c = record c {
    running = keep (λ r. not (same_handle (h, k) r)) c.running;
    active = if is_handle h (GoMap.get c.active k) then GoMap.delete c.active k else c.active;
  }

  pub release_poller : Str → Coordinator W → Coordinator W
  release_poller k c = elim (GoMap.get c.active k) [
    | none ↦ c
    | some h ↦ record c { drains = h ∷ c.drains }
  ]

  pub drain_and_stop : Coordinator W → Coordinator W
  drain_and_stop c = record c { stopped = true; drains = GoMap.values c.active ++ c.drains }

  release_all : List Str → Coordinator W → Coordinator W
  release_all [] c = c
  release_all (k ∷ ks) c = release_all ks (release_poller k c)

  acquire_all : GoMap Lease → List Str → Coordinator W → Coordinator W
  acquire_all leases [] c = c
  acquire_all leases (k ∷ ks) c =
      acquire_all leases ks (try_acquire (GoMap.get_or leases k zero_lease) c)

  -- What reconcile hands to the planner, once the observations are refreshed.
  pub plan_input : List Lease → ℕ → Coordinator W → PlanInput
  plan_input leases now c = record {
    leases = leases;
    self = c.worker_id;
    fresh = fresh_flags c now [] leases;
    drained = drained_flags (index_checkpoints [] leases) [] leases;
    owned = owned_flags c.active;
  }

  -- The actions of a plan, in order.
  carry_out : GoMap Lease → PlanResult → Coordinator W → Coordinator W
  carry_out leases p c =
      let c' = acquire_all leases p.acquire (release_all p.release c) in
      if not (str_eq p.steal [])
      then try_acquire (GoMap.get_or leases p.steal zero_lease) c'
      else c'

  reconcile : Bool → Coordinator W → Coordinator W
  unfolding carry_out release_all acquire_all
  reconcile discovery_ok c = elim (env.list c.world).0 [
    | none ↦ record c { world = (env.list c.world).1 }
    | some leases ↦
        let w = (env.list c.world).1 in
        let refreshed = refresh_observations leases (env.now w) (record c { world = w }) in
        let done =
          carry_out (by_id [] leases) (plan (plan_input leases (env.now w) refreshed)) refreshed in
        if discovery_ok then cleanup_orphans env leases done else done
  ]
