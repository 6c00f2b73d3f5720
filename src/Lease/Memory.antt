-- ===== src/Lease/Memory.antt =====
-- internal/lease/memory.go: the in-process store. Each operation runs under the store's mutex, so
-- it is one step; leases are values here, so cloneLease is the identity.
pub mod Fencing
use opentelemetry_kinesis_st.Base.{
  ℕ, ◌≡◌, Bool, ◌&&◌, ◌||◌, not, List, [], Option, none, some, Str, str_eq, ◌==◌, if◌then◌else◌,
}
use opentelemetry_kinesis_st.Base.GoMap
use opentelemetry_kinesis_st.Base.GoMap.{GoMap}
use opentelemetry_kinesis_st.Lease.{
  Lease, Result, ok, err, lease_conflict, lease_not_found, empty_owner, next_counter,
  checkpoint_trim_horizon,
}

pub record MemoryStore : Type 0 where
  pub leases : GoMap Lease

unfoldable new_memory_store : MemoryStore
new_memory_store = record { leases = [] }

clone_lease : Lease → Lease
clone_lease l = l

-- List: every row, in the map's order.
unfoldable pub list_leases : MemoryStore → List Lease
list_leases s = GoMap.values s.leases

-- The row that Ensure creates.
abbrev pub fresh_lease : Str → List Str → Lease
fresh_lease shard_id parent_ids = record {
  shard_id = shard_id;
  owner = [];
  counter = 0;
  checkpoint = checkpoint_trim_horizon;
  parent_ids = parent_ids;
}

unfoldable pub ensure : Str → List Str → MemoryStore → Result (Unit {0}) × MemoryStore
ensure shard_id parent_ids s = elim (GoMap.get s.leases shard_id) [
  | some cur ↦ (ok tt, s)
  | none ↦
      (ok tt, record { leases = GoMap.put s.leases shard_id (fresh_lease shard_id parent_ids) })
]

-- The body of Acquire past the row's lookup.
acquire_row : Str → Str → ℕ → Lease → MemoryStore → Result Lease × MemoryStore
unfolding clone_lease
acquire_row shard_id owner expected_counter cur s =
    if not (cur.counter == expected_counter)
    then (err lease_conflict, s)
    else (ok (clone_lease taken), record { leases = GoMap.put s.leases shard_id taken })
  where
    taken : Lease
    taken = record cur { owner = owner; counter = next_counter cur.counter }

unfoldable pub acquire : Str → Str → ℕ → MemoryStore → Result Lease × MemoryStore
unfolding acquire_row
acquire shard_id owner expected_counter s =
    if str_eq owner [] then (err empty_owner, s) else elim (GoMap.get s.leases shard_id) [
      | none ↦ (err lease_not_found, s)
      | some cur ↦ acquire_row shard_id owner expected_counter cur s
    ]

-- The body of conditionalUpdate past the row's lookup.
update_row : Lease → (Lease → Lease) → Lease → MemoryStore → Result Lease × MemoryStore
unfolding clone_lease
update_row expected mutate cur s =
    if not (str_eq cur.owner expected.owner) || not (cur.counter == expected.counter)
    then (err lease_conflict, s)
    else (
      ok (clone_lease (mutate cur)),
      record { leases = GoMap.put s.leases expected.shard_id (mutate cur) },
    )

unfoldable pub conditional_update :
    Lease → (Lease → Lease) → MemoryStore → Result Lease × MemoryStore
unfolding update_row
conditional_update expected mutate s = elim (GoMap.get s.leases expected.shard_id) [
  | none ↦ (err lease_not_found, s)
  | some cur ↦ update_row expected mutate cur s
]

unfoldable pub heartbeat : Lease → MemoryStore → Result Lease × MemoryStore
unfolding conditional_update
heartbeat lease s = conditional_update lease (λ l. record l { counter = next_counter l.counter }) s

unfoldable pub checkpoint : Lease → Str → MemoryStore → Result Lease × MemoryStore
unfolding conditional_update
checkpoint lease seq s =
    conditional_update lease (λ l. record l { checkpoint = seq; counter = next_counter l.counter })
      s

unfoldable pub release : Lease → MemoryStore → Result (Unit {0}) × MemoryStore
unfolding conditional_update
release lease s =
    let (r, s') =
      conditional_update lease (λ l. record l { owner = []; counter = next_counter l.counter }) s in
    (elim r [ ok l ↦ ok tt | err e ↦ err e ], s')

unfoldable pub delete : Str → ℕ → MemoryStore → Result (Unit {0}) × MemoryStore
delete shard_id expected_counter s = elim (GoMap.get s.leases shard_id) [
  | none ↦ (ok tt, s)
  | some cur ↦
      if not (cur.counter == expected_counter)
      then (err lease_conflict, s)
      else (ok tt, record { leases = GoMap.delete s.leases shard_id })
]
