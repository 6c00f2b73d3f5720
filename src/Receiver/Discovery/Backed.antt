-- ===== src/Receiver/Discovery/Backed.antt =====
-- internal/lease/memory.go as the lease table of the coordinator of receiver/awskinesisreceiver.
use opentelemetry_kinesis_st.Base.{
  ℕ, ◌≡◌, ◌≢◌, refl, inl, inr, Option, some, Str, str_eq_iff, arith, Option-cases,
}
use opentelemetry_kinesis_st.Base.GoMap
use opentelemetry_kinesis_st.Base.GoMap.{GoMap, get-delete}
use opentelemetry_kinesis_st.Lease.Memory.{
  MemoryStore, list_leases, ensure, acquire, release, delete,
}
use opentelemetry_kinesis_st.Receiver.Discovery.{Env, Page}
use opentelemetry_kinesis_st.Receiver.Discovery.Orphans.{IsTable}

-- A coordinator's world that is the in-memory store, for a given stream and clock.
abbrev pub memory_env : (Option Str → Option Page) → ℕ → Env MemoryStore
memory_env pages clock = record {
  list = λ s. (some (list_leases s), s);
  ensure = ensure;
  acquire = acquire;
  release = release;
  delete = delete;
  list_shards = λ token s. (pages token, s);
  now = λ s. clock;
}

delete_other :
    (j k : Str) (n : ℕ) (s : MemoryStore)
    → j ≢ k
    → GoMap.get (delete j n s).1.leases k ≡ GoMap.get s.leases k
unfolding delete
delete_other j k n s ne = elim (Option-cases (GoMap.get s.leases j)) [
  | inl e ↦ rw (e, delete) refl
  | inr (cur, e) ↦ rw (e, delete) (ground (arith, get-delete s.leases j k, str_eq_iff j k))
]

-- The in-memory store is such a table.
pub memory_env-IsTable :
    (pages : Option Str → Option Page) (clock : ℕ)
    → IsTable (memory_env pages clock) (λ s k. GoMap.get s.leases k)
memory_env-IsTable pages clock = record { on_delete = delete_other }
