-- ===== src/Lease/Dynamodb/Refines/Calls.antt =====
-- internal/lease/dynamodb.go against internal/lease/memory.go, call by call.
use opentelemetry_kinesis_st.Base.{
  ℕ, ◌<◌, ◌≡◌, ◌≢◌, refl, inl, inr, true, false, ◌==◌, List, [], ◌∷◌, Option, none, some, Str,
  str_eq, str_eq_iff, arith, Bool-cases,
}
use opentelemetry_kinesis_st.Base.Decimal.{word_mod, format_int}
use opentelemetry_kinesis_st.Base.GoMap
use opentelemetry_kinesis_st.Lease.{
  Lease, Result, ok, err, lease_conflict, lease_not_found, empty_owner, next_counter,
}
use opentelemetry_kinesis_st.Lease.Memory
use opentelemetry_kinesis_st.Lease.Memory.{MemoryStore, fresh_lease}
use opentelemetry_kinesis_st.Lease.Memory.Fencing.{acquires, heartbeats, checkpoints, releases}
use opentelemetry_kinesis_st.Lease.Dynamodb
use opentelemetry_kinesis_st.Lease.Dynamodb.{
  Client, Clause, set_name, remove_name, Condition, counter_is, owner_counter_condition, CallError,
  check_failed, as_error, release_of,
}
use opentelemetry_kinesis_st.Lease.Dynamodb.Rows.{
  Item, s, n, attr_lease_owner, attr_lease_counter, attr_checkpoint,
}
use opentelemetry_kinesis_st.Lease.Dynamodb.Service.{IsDynamodb, holds, apply_clauses}
use opentelemetry_kinesis_st.Lease.Dynamodb.Represents.{
  IsRow, holds-counter_is, holds-owner_counter, counter-IsRow, owner-IsRow, no_owner-IsRow,
  checkpoint-IsRow,
}
use opentelemetry_kinesis_st.Lease.Dynamodb.Updates.{Updated, update-Updated}
use opentelemetry_kinesis_st.Lease.Dynamodb.Refines.{
  perform, in_memory, IsToken, Represents, Refines, agrees, equal, update-Refines, release-Refines,
  next_counter-lt, holder, conditional_none, conditional_false, conditional_true,
}

-- What each call writes, given the next counter.
abbrev beaten : ℕ → Lease → Lease
beaten k l = record l { counter = k }

abbrev advanced : Str → ℕ → Lease → Lease
advanced seq k l = record l { checkpoint = seq; counter = k }

abbrev freed : ℕ → Lease → Lease
freed k l = record l { owner = []; counter = k }

abbrev taken : Str → ℕ → Lease → Lease
taken o k l = record l { owner = o; counter = k }

no_row_holds : (lease : Lease) → holds (owner_counter_condition lease) none ≡ false
unfolding holds owner_counter_condition
no_row_holds lease = refl

as_release :
    (m : Result Lease × MemoryStore)
    → let p : Result (Unit {0}) × MemoryStore = (elim m.0 [ ok l ↦ ok tt | err e ↦ err e ], m.1) in
      p ≡ (release_of m.0, m.1)
unfolding release_of
as_release (ok l, m) = refl
as_release (err e, m) = refl

missing_row_holds : (k : ℕ) → holds (counter_is k) none ≡ false
unfolding holds
missing_row_holds k = refl

unnamed :
    (m : MemoryStore) (k o : Str) (count : ℕ)
    → str_eq o [] ≡ true
    → Memory.acquire k o count m ≡ (err empty_owner, m)
unfolding Memory.acquire
unnamed m k o count e = rw (e, Memory.acquire) refl

-- Acquire in memory by cases, for an owner that is not empty.
module _ (m : MemoryStore) (k o : Str) (count : ℕ) (named : str_eq o [] ≡ false) where
  acquire_none : GoMap.get m.leases k ≡ none → Memory.acquire k o count m ≡ (err lease_not_found, m)
  unfolding Memory.acquire
  acquire_none e = rw (named, e, Memory.acquire) refl

  acquire_false :
      (l : Lease)
      → GoMap.get m.leases k ≡ some l
      → (l.counter == count) ≡ false
      → Memory.acquire k o count m ≡ (err lease_conflict, m)
  unfolding Memory.acquire
  acquire_false l e h = rw (named, e, Memory.acquire) (rw h refl)

  acquire_true :
      (l : Lease)
      → GoMap.get m.leases k ≡ some l
      → (l.counter == count) ≡ true
      → Memory.acquire k o count m ≡ (
        ok (taken o (next_counter count) l),
        record { leases = GoMap.put m.leases k (taken o (next_counter count) l) },
      )
  unfolding Memory.acquire
  acquire_true l e h =
      let same : l.counter ≡ count = ground arith in
      rw (← same) (rw (named, e, Memory.acquire) (ground arith))

module _ {W : Type 0} (c : Client W) (row : W → Str → Option Item) (db : IsDynamodb c row) (w : W)
    (m : MemoryStore) (rep : Represents row w m) where
  -- An update by the holder of the lease, which writes what `f` writes for the next counter.
  held-Updated :
      (lease : Lease) (us : List Clause) (f : ℕ → Lease → Lease)
      → IsToken lease
      → ((item : Item) (l : Lease)
          → IsRow item l
          → IsRow (apply_clauses us item) (f (next_counter lease.counter) l))
      → Updated
          (GoMap.get m.leases lease.shard_id)
          (holder lease)
          (f (next_counter lease.counter))
          (Dynamodb.update c lease.shard_id us (owner_counter_condition lease) w).0
          (row
            (Dynamodb.update c lease.shard_id us (owner_counter_condition lease) w).1
            lease.shard_id)
        × ((j : Str)
            → j ≢ lease.shard_id
            → row (Dynamodb.update c lease.shard_id us (owner_counter_condition lease) w).1 j
              ≡ row w j)
  held-Updated lease us f token writes =
      update-Updated c row db lease.shard_id us (owner_counter_condition lease)
        (GoMap.get m.leases lease.shard_id) (holder lease) (f (next_counter lease.counter))
        (λ item l r. holds-owner_counter item l lease r token.1 token.0) (no_row_holds lease) writes
        w (rep lease.shard_id)

  pub heartbeat-Refines :
      (lease : Lease)
      → IsToken lease
      → Refines row m
          (in_memory (heartbeats lease) m).1
          (perform c (heartbeats lease) w).0
          (in_memory (heartbeats lease) m).0
          (perform c (heartbeats lease) w).1
  unfolding perform in_memory Dynamodb.heartbeat Memory.heartbeat apply_clauses
  heartbeat-Refines lease token =
      let k = next_counter lease.counter in
      let u =
        held-Updated lease (set_name attr_lease_counter (n (format_int k)) ∷ []) beaten token
          (λ item l r. counter-IsRow item l r k (next_counter-lt lease.counter)) in
      update-Refines row m rep lease.shard_id u.1 (holder lease) (beaten k) _
        (conditional_none lease _ m) (conditional_false lease _ m)
        (conditional_true lease _ m beaten (λ l. refl)) _ u.0

  pub checkpoint-Refines :
      (lease : Lease) (seq : Str)
      → IsToken lease
      → Refines row m
          (in_memory (checkpoints lease seq) m).1
          (perform c (checkpoints lease seq) w).0
          (in_memory (checkpoints lease seq) m).0
          (perform c (checkpoints lease seq) w).1
  unfolding perform in_memory Dynamodb.checkpoint Memory.checkpoint apply_clauses
  checkpoint-Refines lease seq token =
      let k = next_counter lease.counter in
      let u =
        held-Updated lease
          (set_name attr_checkpoint (s seq) ∷ set_name attr_lease_counter (n (format_int k)) ∷ [])
          (advanced seq) token
          (λ item l r.
            counter-IsRow _ _ (checkpoint-IsRow item l r seq) k (next_counter-lt lease.counter)) in
      update-Refines row m rep lease.shard_id u.1 (holder lease) (advanced seq k) _
        (conditional_none lease _ m) (conditional_false lease _ m)
        (conditional_true lease _ m (advanced seq) (λ l. refl)) _ u.0

  release-parts :
      (lease : Lease)
      → Memory.release lease m ≡ (
        release_of (Memory.conditional_update lease (λ l. freed (next_counter l.counter) l) m).0,
        (Memory.conditional_update lease (λ l. freed (next_counter l.counter) l) m).1,
      )
  unfolding Memory.release
  release-parts lease =
      as_release (Memory.conditional_update lease (λ l. freed (next_counter l.counter) l) m)

  pub release_call-Refines :
      (lease : Lease)
      → IsToken lease
      → Refines row m
          (in_memory (releases lease) m).1
          (perform c (releases lease) w).0
          (in_memory (releases lease) m).0
          (perform c (releases lease) w).1
  unfolding perform in_memory Dynamodb.release apply_clauses
  release_call-Refines lease token =
      let k = next_counter lease.counter in
      let u =
        held-Updated lease
          (set_name attr_lease_counter (n (format_int k)) ∷ remove_name attr_lease_owner ∷ []) freed
          token
          (λ item l r.
            no_owner-IsRow _ _ (counter-IsRow item l r k (next_counter-lt lease.counter))) in
      rw (release-parts lease) (
        release-Refines row m rep lease.shard_id u.1 (holder lease) (freed k) _
          (conditional_none lease _ m) (conditional_false lease _ m)
          (conditional_true lease _ m freed (λ l. refl)) _ u.0)

  unnamed_owner :
      (k o : Str) (count : ℕ)
      → str_eq o [] ≡ true
      → Dynamodb.acquire c k o count w ≡ (err empty_owner, w)
  unfolding Dynamodb.acquire
  unnamed_owner k o count e = rw (e, Dynamodb.acquire) refl

  acquire_update :
      (k o : Str) (count : ℕ)
      → str_eq o [] ≡ false
      → Dynamodb.acquire c k o count w
        ≡ Dynamodb.update c k
            (set_name attr_lease_owner (s o)
              ∷ set_name attr_lease_counter (n (format_int (next_counter count)))
              ∷ [])
            (counter_is count)
            w
  unfolding Dynamodb.acquire
  acquire_update k o count e = rw (e, Dynamodb.acquire) refl

  pub acquire-Refines :
      (k o : Str) (count : ℕ)
      → count < word_mod
      → Refines row m
          (in_memory (acquires k o count) m).1
          (perform c (acquires k o count) w).0
          (in_memory (acquires k o count) m).0
          (perform c (acquires k o count) w).1
  unfolding perform in_memory
  acquire-Refines k o count h = elim (Bool-cases (str_eq o [])) [
    | inl e ↦ rw (unnamed m k o count e, unnamed_owner k o count e) (agrees (equal refl) rep)
    | inr e ↦
        let next = next_counter count in
        let named : o ≢ [] = λ f. ground (arith, str_eq_iff o []) in
        let u =
          update-Updated c row db k
            (set_name attr_lease_owner (s o)
              ∷ set_name attr_lease_counter (n (format_int next))
              ∷ [])
            (counter_is count) (GoMap.get m.leases k) (λ l. l.counter == count) (taken o next)
            (λ item l r. holds-counter_is item l count r h) (missing_row_holds count)
            (λ item l r.
              unfold apply_clauses in
              counter-IsRow _ _ (owner-IsRow item l r o named) next (next_counter-lt count))
            w (rep k) in
        rw (acquire_update k o count e) (
          update-Refines row m rep k u.1 (λ l. l.counter == count) (taken o next)
            (Memory.acquire k o count m) (acquire_none m k o count e) (acquire_false m k o count e)
            (acquire_true m k o count e) _ u.0)
  ]
