-- ===== src/Lease/Dynamodb/Refines.antt =====
-- internal/lease/dynamodb.go against internal/lease/memory.go: on a table that stands for a store,
-- every call comes to what it comes to in memory, or fails with an error of the service.
pub mod Calls
pub mod Lifetime
pub mod Steps
use opentelemetry_kinesis_st.Base.{
  ℕ, ◌<◌, ◌≡◌, ◌≢◌, ◌∙◌, ◌⊎◌, refl, sym, ap, subst, inl, inr, Bool, true, false, not, ◌&&◌, ◌==◌,
  List, [], ◌∷◌, Option-cases, Option, none, some, Str, str_eq, str_eq_iff, str_eq_refl, arith,
  if◌then◌else◌, Bool-cases,
}
use opentelemetry_kinesis_st.Base.Decimal.{word_mod}
use opentelemetry_kinesis_st.Base.GoMap
use opentelemetry_kinesis_st.Base.GoMap.{get-put, get-delete}
use opentelemetry_kinesis_st.Lease.{
  Lease, Result, ok, err, lease_conflict, lease_not_found, next_counter,
}
use opentelemetry_kinesis_st.Lease.Memory
use opentelemetry_kinesis_st.Lease.Memory.{MemoryStore}
use opentelemetry_kinesis_st.Lease.Memory.Fencing.{
  Call, ensures, acquires, heartbeats, checkpoints, releases, deletes,
}
use opentelemetry_kinesis_st.Lease.Dynamodb
use opentelemetry_kinesis_st.Lease.Dynamodb.{Client, CallError, check_failed, as_error, release_of}
use opentelemetry_kinesis_st.Lease.Dynamodb.Rows.{Item}
use opentelemetry_kinesis_st.Lease.Dynamodb.Service.{IsDynamodb}
use opentelemetry_kinesis_st.Lease.Dynamodb.Represents.{IsRow, SameLease}
use opentelemetry_kinesis_st.Lease.Dynamodb.Updates.{
  Shows, Updated, moved, conflict, absent, broken, update-Updated,
}

-- What a call returns.
pub data Answer : Type 0 where
  unit : Result (Unit {0}) → Answer
  leased : Result Lease → Answer

-- The calls of the store over a table, and those of the store in memory.
pub perform : {W : Type 0} → Client W → Call → W → Answer × W
perform c (ensures k ps) w = let (r, w') = Dynamodb.ensure c k ps w in (unit r, w')
perform c (acquires k o n) w = let (r, w') = Dynamodb.acquire c k o n w in (leased r, w')
perform c (heartbeats l) w = let (r, w') = Dynamodb.heartbeat c l w in (leased r, w')
perform c (checkpoints l seq) w = let (r, w') = Dynamodb.checkpoint c l seq w in (leased r, w')
perform c (releases l) w = let (r, w') = Dynamodb.release c l w in (unit r, w')
perform c (deletes k n) w = let (r, w') = Dynamodb.delete c k n w in (unit r, w')

pub in_memory : Call → MemoryStore → Answer × MemoryStore
in_memory (ensures k ps) s = let (r, s') = Memory.ensure k ps s in (unit r, s')
in_memory (acquires k o n) s = let (r, s') = Memory.acquire k o n s in (leased r, s')
in_memory (heartbeats l) s = let (r, s') = Memory.heartbeat l s in (leased r, s')
in_memory (checkpoints l seq) s = let (r, s') = Memory.checkpoint l seq s in (leased r, s')
in_memory (releases l) s = let (r, s') = Memory.release l s in (unit r, s')
in_memory (deletes k n) s = let (r, s') = Memory.delete k n s in (unit r, s')

-- The same answer, up to the order of a lease's parents.
pub data SameAnswer (a b : Answer) : Type 0 where
  equal : a ≡ b → SameAnswer a b
  same_lease :
      (l l' : Lease) → a ≡ leased (ok l) → b ≡ leased (ok l') → SameLease l l' → SameAnswer a b

-- The call failed with an error that the service or the context gave.
pub data Failed (a : Answer) : Type 0 where
  unit_failed : (e : CallError) → e ≢ check_failed → a ≡ unit (err (as_error e)) → Failed a
  lease_failed : (e : CallError) → e ≢ check_failed → a ≡ leased (err (as_error e)) → Failed a

-- A counter is an int64, and a lease under which a call is made has an owner.
abbrev pub IsToken : Lease → Type 0
IsToken l = (l.owner ≢ []) × (l.counter < word_mod)

abbrev pub IsCall : Call → Type 0
IsCall (ensures k ps) = Unit
IsCall (acquires k o n) = n < word_mod
IsCall (heartbeats l) = IsToken l
IsCall (checkpoints l seq) = IsToken l
IsCall (releases l) = IsToken l
IsCall (deletes k n) = n < word_mod

other_key : (k j : Str) → str_eq k j ≡ false → j ≢ k
other_key k j e f = ground (arith, str_eq_iff k j)

module _ {W : Type 0} (row : W → Str → Option Item) where
  -- The table stands for the store.
  abbrev pub Represents : W → MemoryStore → Type 0
  Represents w s = (k : Str) → Shows (row w k) (GoMap.get s.leases k)

  -- A call of the table from `w` to `w'` is as the call of the store from `s` to `s'`, or it failed
  -- and was carried out or not.
  pub data Refines (s s' : MemoryStore) (a b : Answer) (w' : W) : Type 0 where
    agrees : SameAnswer a b → Represents w' s' → Refines s s' a b w'
    fails : Failed a → Represents w' s ⊎ Represents w' s' → Refines s s' a b w'

  module _ (s : MemoryStore) {w w' : W} (rep : Represents w s) (k : Str)
      (others : (j : Str) → j ≢ k → row w' j ≡ row w j) where
    pub Represents-same : Shows (row w' k) (GoMap.get s.leases k) → Represents w' s
    Represents-same sh j = elim (Bool-cases (str_eq k j)) [
      | inl e ↦ subst (λ i. Shows (row w' i) (GoMap.get s.leases i)) ((str_eq_iff k j).0 e) sh
      | inr e ↦ rw (others j (other_key k j e)) (rep j)
    ]

    pub Represents-put :
        (l : Lease)
        → Shows (row w' k) (some l)
        → Represents w' (record { leases = GoMap.put s.leases k l })
    Represents-put l sh j = elim (Bool-cases (str_eq k j)) [
      | inl e ↦
          rw (get-put s.leases k j l, e)
            (subst (λ i. Shows (row w' i) (some l)) ((str_eq_iff k j).0 e) sh)
      | inr e ↦ rw (get-put s.leases k j l, e, others j (other_key k j e)) (rep j)
    ]

    pub Represents-delete :
        Shows (row w' k) none → Represents w' (record { leases = GoMap.delete s.leases k })
    Represents-delete sh j = elim (Bool-cases (str_eq k j)) [
      | inl e ↦
          rw (get-delete s.leases k j, e)
            (subst (λ i. Shows (row w' i) none) ((str_eq_iff k j).0 e) sh)
      | inr e ↦ rw (get-delete s.leases k j, e, others j (other_key k j e)) (rep j)
    ]

    -- A conditional update against a step of the store in memory that tests the row in the same
    -- way and then writes the same lease.
    module _ (test : Lease → Bool) (mutate : Lease → Lease) (m : Result Lease × MemoryStore)
        (on_none : GoMap.get s.leases k ≡ none → m ≡ (err lease_not_found, s))
        (on_false : (l : Lease)
          → GoMap.get s.leases k ≡ some l
          → test l ≡ false
          → m ≡ (err lease_conflict, s))
        (on_true : (l : Lease)
          → GoMap.get s.leases k ≡ some l
          → test l ≡ true
          → m ≡ (ok (mutate l), record { leases = GoMap.put s.leases k (mutate l) })) where
      pub update-Refines :
          (r : Result Lease)
          → Updated (GoMap.get s.leases k) test mutate r (row w' k)
          → Refines s m.1 (leased r) (leased m.0) w'
      update-Refines r (moved l l' o t e same sh) =
          rw (on_true l o t, e)
            (agrees (same_lease l' (mutate l) refl refl same) (Represents-put (mutate l) sh))
      update-Refines r (conflict l o t e sh) =
          rw (on_false l o t, e) (agrees (equal refl) (Represents-same sh))
      update-Refines r (absent o e sh) =
          rw (on_none o, e) (agrees (equal refl) (Represents-same sh))
      update-Refines r (broken e ne f (inl sh)) =
          rw f (fails (lease_failed e ne refl) (inl (Represents-same sh)))
      update-Refines r (broken e ne f (inr (l, o, t, sh))) =
          rw (f, on_true l o t)
            (fails (lease_failed e ne refl) (inr (Represents-put (mutate l) sh)))

      pub release-Refines :
          (r : Result Lease)
          → Updated (GoMap.get s.leases k) test mutate r (row w' k)
          → Refines s m.1 (unit (release_of r)) (unit (release_of m.0)) w'
      unfolding release_of
      release-Refines r (moved l l' o t e same sh) =
          rw (on_true l o t, e) (agrees (equal refl) (Represents-put (mutate l) sh))
      release-Refines r (conflict l o t e sh) =
          rw (on_false l o t, e) (agrees (equal refl) (Represents-same sh))
      release-Refines r (absent o e sh) =
          rw (on_none o, e) (agrees (equal refl) (Represents-same sh))
      release-Refines r (broken e ne f (inl sh)) =
          rw f (fails (unit_failed e ne refl) (inl (Represents-same sh)))
      release-Refines r (broken e ne f (inr (l, o, t, sh))) =
          rw (f, on_true l o t) (fails (unit_failed e ne refl) (inr (Represents-put (mutate l) sh)))

pub next_counter-lt : (k : ℕ) → next_counter k < word_mod
unfolding next_counter
next_counter-lt k = omega arith

-- The test of a conditional update in memory, and the conditional update by cases.
abbrev pub holder : Lease → Lease → Bool
holder lease l = str_eq l.owner lease.owner && l.counter == lease.counter

module _ (lease : Lease) (m : Lease → Lease) (s : MemoryStore) where
  pub conditional_none :
      GoMap.get s.leases lease.shard_id ≡ none
      → Memory.conditional_update lease m s ≡ (err lease_not_found, s)
  unfolding Memory.conditional_update
  conditional_none e = rw (e, Memory.conditional_update) refl

  pub conditional_false :
      (l : Lease)
      → GoMap.get s.leases lease.shard_id ≡ some l
      → holder lease l ≡ false
      → Memory.conditional_update lease m s ≡ (err lease_conflict, s)
  unfolding Memory.conditional_update
  conditional_false l e h = rw (e, Memory.conditional_update) (ground arith)

  -- Where the test holds, the counter is the lease's.
  pub conditional_true :
      (f : ℕ → Lease → Lease)
      → ((l : Lease) → m l ≡ f (next_counter l.counter) l)
      → (l : Lease) → GoMap.get s.leases lease.shard_id ≡ some l
      → holder lease l ≡ true
      → Memory.conditional_update lease m s ≡ (
        ok (f (next_counter lease.counter) l),
        record { leases = GoMap.put s.leases lease.shard_id (f (next_counter lease.counter) l) },
      )
  unfolding Memory.conditional_update
  conditional_true f same l e h =
      let k : l.counter ≡ lease.counter = ground arith in
      rw (← k) (rw (← same l) (rw (e, Memory.conditional_update) (ground arith)))
