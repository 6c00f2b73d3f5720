-- ===== src/Receiver/Coordinator/Samples.antt =====
-- Concrete runs of the coordinator over a lease table of three rows: a parent shard at its end, its
-- child, and an open shard whose child waits.
use mathlib.Core.List.{Memᴰ}
use mathlib.Core.List.Memᴰ
use opentelemetry_kinesis_st.Base.{
  ℕ, ◌≡◌, ◌≢◌, refl, sym, ap, ◌∙◌, ◌⊎◌, true, false, List, [], ◌∷◌, Option, some, none, Str, str_eq,
  str_eq_iff, bytes, arith, any, keep,
}
use opentelemetry_kinesis_st.Base.GoMap
use opentelemetry_kinesis_st.Base.GoMap.{GoMap, get-delete}
use opentelemetry_kinesis_st.Lease.{
  Lease, Result, ok, err, checkpoint_trim_horizon, checkpoint_shard_end,
}
use opentelemetry_kinesis_st.Lease.Taker.{plan}
use opentelemetry_kinesis_st.Receiver.Discovery.{
  Env, Observation, Coordinator, observe, prune, is_listed, refresh_observations, cleanup_orphans,
}
use opentelemetry_kinesis_st.Receiver.Discovery.Observations.{Tracks, refresh_observations-Tracks}
use opentelemetry_kinesis_st.Lease.Memory.{MemoryStore}
use opentelemetry_kinesis_st.Receiver.Discovery.{Page}
use opentelemetry_kinesis_st.Receiver.Discovery.Backed.{memory_env, memory_env-IsTable}
use opentelemetry_kinesis_st.Receiver.Discovery.Orphans.{
  IsProtected, young_orphan, cleanup_orphans-row,
}
use opentelemetry_kinesis_st.Receiver.Coordinator.{
  claim_lease, start_poller, drain_and_stop, plan_input,
}
use opentelemetry_kinesis_st.Receiver.Coordinator.Parents.{
  IsKeyed, ParentsEnded, plan_input-ParentsEnded,
}
use opentelemetry_kinesis_st.Receiver.Coordinator.Shutdown.{
  Machine, claims, starts, stops, Reaches, here, after, AcquiresShard, IsOrderly, Reaches-IsOrderly,
}

abbrev a_row : Str → Str → List Str → Lease
a_row shard checkpoint parents = record {
  shard_id = shard;
  owner = [];
  counter = 4;
  checkpoint = checkpoint;
  parent_ids = parents;
}

abbrev parent : Lease
parent = a_row (bytes "p") checkpoint_shard_end []

abbrev child : Lease
child = a_row (bytes "c") checkpoint_trim_horizon (bytes "p" ∷ [])

abbrev snapshot : List Lease
snapshot = parent ∷ child ∷ []

-- The world is the lease table.
abbrev plain_table : Env (GoMap Lease)
plain_table = record {
  list = λ w. (some (GoMap.values w), w);
  ensure = λ k ps w. (ok tt, w);
  acquire = λ k o n w. (ok (record (a_row k [] []) { owner = o }), w);
  release = λ l w. (ok tt, w);
  delete = λ k n w. (ok tt, GoMap.delete w k);
  list_shards = λ t w. (none, w);
  now = λ w. 50;
}

abbrev seen : Observation
seen = record { counter = 4; seen_at = 1 }

abbrev fifty : ℕ
fifty = 50

abbrev idle : Coordinator (GoMap Lease)
idle = record {
  worker_id = bytes "w";
  lease_duration = 30;
  active = [];
  observed = (bytes "p", seen) ∷ [];
  stopped = false;
  live_shards = (bytes "c", true) ∷ [];
  absent = (bytes "p", 1) ∷ [];
  running = [];
  drains = [];
  next_handle = 0;
  world = (bytes "p", parent) ∷ (bytes "c", child) ∷ [];
}

-- The same coordinator over the in-memory store.
abbrev stored : Coordinator MemoryStore
stored = record {
  worker_id = idle.worker_id;
  lease_duration = idle.lease_duration;
  active = idle.active;
  observed = idle.observed;
  stopped = idle.stopped;
  live_shards = idle.live_shards;
  absent = idle.absent;
  running = idle.running;
  drains = idle.drains;
  next_handle = idle.next_handle;
  world = record { leases = idle.world };
}

abbrev no_pages : Option Str → Option Page
no_pages token = none

still_young : IsProtected (bytes "p") snapshot stored
unfolding GoMap.get GoMap.get_or str_eq keep
still_young = young_orphan (omega arith)

cleanup_orphans-row_example :
    GoMap.get (cleanup_orphans (memory_env no_pages fifty) snapshot stored).world.leases (bytes "p")
    ≡ GoMap.get stored.world.leases (bytes "p")
cleanup_orphans-row_example =
    cleanup_orphans-row (memory_env no_pages fifty) (λ s k. GoMap.get s.leases k)
      (memory_env-IsTable no_pages fifty) (bytes "p") snapshot stored still_young

refresh_observations-Tracks_example :
    Tracks snapshot fifty
      (bytes "p")
      (GoMap.get idle.observed (bytes "p"))
      (GoMap.get (refresh_observations snapshot fifty idle).observed (bytes "p"))
refresh_observations-Tracks_example = refresh_observations-Tracks snapshot fifty idle (bytes "p")

kept_observation :
    GoMap.get (refresh_observations snapshot fifty idle).observed (bytes "p") ≡ some seen
unfolding refresh_observations observe prune is_listed any GoMap.get GoMap.put GoMap.delete str_eq
kept_observation = refl

names_differ : parent.shard_id ≢ child.shard_id
unfolding str_eq
names_differ e = let k = (str_eq_iff parent.shard_id child.shard_id).1 e in cc

snapshot-IsKeyed : IsKeyed snapshot
snapshot-IsKeyed p q (Memᴰ.head e) (Memᴰ.head f) g = e ∙ sym f
snapshot-IsKeyed p q (Memᴰ.head e) (Memᴰ.tail (Memᴰ.head f)) g =
    absurd
      (names_differ (ap (λ (x : Lease). x.shard_id) (sym e) ∙ g ∙ ap (λ (x : Lease). x.shard_id) f))
snapshot-IsKeyed p q (Memᴰ.head e) (Memᴰ.tail (Memᴰ.tail f)) g = absurd (Memᴰ.not-nil f)
snapshot-IsKeyed p q (Memᴰ.tail (Memᴰ.head e)) (Memᴰ.head f) g = absurd (
    names_differ
      (sym (ap (λ (x : Lease). x.shard_id) (sym e) ∙ g ∙ ap (λ (x : Lease). x.shard_id) f)))
snapshot-IsKeyed p q (Memᴰ.tail (Memᴰ.head e)) (Memᴰ.tail (Memᴰ.head f)) g = e ∙ sym f
snapshot-IsKeyed p q (Memᴰ.tail (Memᴰ.head e)) (Memᴰ.tail (Memᴰ.tail f)) g = absurd (Memᴰ.not-nil f)
snapshot-IsKeyed p q (Memᴰ.tail (Memᴰ.tail e)) f g = absurd (Memᴰ.not-nil e)

plan_input-ParentsEnded_example :
    ((a : Str)
      → Memᴰ a (plan (plan_input plain_table snapshot fifty idle)).acquire
      → (l : Lease) × Memᴰ l snapshot × ParentsEnded snapshot l × (a ≡ l.shard_id))
    × (((plan (plan_input plain_table snapshot fifty idle)).steal ≡ [])
        ⊎ ((l : Lease) × Memᴰ l snapshot
            × ParentsEnded snapshot l
            × ((plan (plan_input plain_table snapshot fifty idle)).steal ≡ l.shard_id)))
plan_input-ParentsEnded_example =
    plan_input-ParentsEnded plain_table snapshot fifty idle snapshot-IsKeyed

-- The child is claimed and started, the parent is claimed, and the shutdown comes before it starts.
abbrev taken : Lease → Lease
taken l = record (a_row l.shard_id [] []) { owner = bytes "w" }

abbrev one_runs : Coordinator (GoMap Lease)
one_runs = start_poller plain_table (taken child) idle

abbrev stopped_late : Machine (GoMap Lease)
stopped_late = record {
  coordinator = start_poller plain_table (taken parent) (drain_and_stop plain_table one_runs);
  pending = none;
}

abbrev at_rest : Machine (GoMap Lease)
at_rest = record { coordinator = idle; pending = none }

shutdown_race : Reaches plain_table at_rest stopped_late
unfolding claim_lease start_poller GoMap.get GoMap.put GoMap.delete str_eq
shutdown_race = after (claims child idle) (
    after (starts (taken child) idle) (
      after (claims parent one_runs) (
        after (stops one_runs (some (taken parent)))
          (after (starts (taken parent) (drain_and_stop plain_table one_runs)) here))))

at_rest-IsOrderly : IsOrderly at_rest
unfolding any
at_rest-IsOrderly = record {
  slots = λ h k e. absurd (cc);
  unstarted = λ l e. absurd (cc);
  asked = λ s h k e. absurd (cc);
}

abbrev shard_of : Result Lease → Str
shard_of (ok l) = l.shard_id
shard_of (err e) = []

plain_table-AcquiresShard : AcquiresShard plain_table
plain_table-AcquiresShard = record { same_shard = λ k o n w l e. sym (ap shard_of e) }

Reaches-IsOrderly_example : IsOrderly stopped_late
Reaches-IsOrderly_example =
    Reaches-IsOrderly plain_table at_rest stopped_late plain_table-AcquiresShard shutdown_race
      at_rest-IsOrderly
