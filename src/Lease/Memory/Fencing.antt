-- ===== src/Lease/Memory/Fencing.antt =====
-- internal/lease/memory.go under any history of calls: the counter as a fencing token.
pub mod Holder
use opentelemetry_kinesis_st.Base.{
  ℕ, ◌+◌, ◌≤◌, ◌<◌, ◌≡◌, ◌≢◌, refl, ◌⊎◌, inl, inr, List, [], ◌∷◌, Option, none, some, Str, str_eq,
  str_eq_iff, str_eq_refl, arith, length, All, Option-cases, Bool-cases,
}
use opentelemetry_kinesis_st.Base.GoMap
use opentelemetry_kinesis_st.Base.GoMap.{GoMap, get-put, get-delete}
use opentelemetry_kinesis_st.Lease.{Lease, ok, err, lease_conflict, next_counter, int64_mod}
use opentelemetry_kinesis_st.Lease.Memory.{
  MemoryStore, ensure, acquire, heartbeat, checkpoint, release, delete, conditional_update,
  fresh_lease,
}

-- The row of a shard.
abbrev pub row : MemoryStore → Str → Option Lease
row s k = GoMap.get s.leases k

-- A call by any worker, with the arguments that it chooses.
pub data Call : Type 0 where
  ensures : Str → List Str → Call
  acquires : Str → Str → ℕ → Call
  heartbeats : Lease → Call
  checkpoints : Lease → Str → Call
  releases : Lease → Call
  deletes : Str → ℕ → Call

pub step : MemoryStore → Call → MemoryStore
step s (ensures k ps) = (ensure k ps s).1
step s (acquires k o c) = (acquire k o c s).1
step s (heartbeats l) = (heartbeat l s).1
step s (checkpoints l seq) = (checkpoint l seq s).1
step s (releases l) = (release l s).1
step s (deletes k c) = (delete k c s).1

unfoldable pub run : MemoryStore → List Call → MemoryStore
run s [] = s
run s (c ∷ cs) = run (step s c) cs

-- The call does not delete the shard's row.
abbrev pub Spares : Str → Call → Type 0
Spares k (deletes j c) = k ≢ j
Spares k _ = Unit

-- One more row state: the row is as before, or its counter has moved on by one.
abbrev pub Advances : Lease → Option Lease → Type 0
Advances r none = ⊥
Advances r (some r') = (r' ≡ r) ⊎ (r'.counter ≡ next_counter r.counter)

put-Advances :
    (m : GoMap Lease) (j k : Str) (cur r v : Lease)
    → GoMap.get m k ≡ some r
    → GoMap.get m j ≡ some cur
    → v.counter ≡ next_counter cur.counter
    → Advances r (GoMap.get (GoMap.put m j v) k)
put-Advances m j k cur r v e f h = ground (arith, get-put m j k v, str_eq_iff j k)

conditional_update-Advances :
    (s : MemoryStore) (k : Str) (r l : Lease) (mutate : Lease → Lease)
    → row s k ≡ some r
    → ((x : Lease) → (mutate x).counter ≡ next_counter x.counter)
    → Advances r (row (conditional_update l mutate s).1 k)
unfolding conditional_update
conditional_update-Advances s k r l mutate e h = elim (Option-cases (row s l.shard_id)) [
  | inl f ↦ rw (f, conditional_update) (rw e (inl refl))
  | inr (cur, f) ↦
      rw (f, conditional_update)
        (ground (arith, put-Advances s.leases l.shard_id k cur r (mutate cur) e f (h cur)))
]

ensure-Advances :
    (s : MemoryStore) (j k : Str) (ps : List Str) (r : Lease)
    → row s k ≡ some r
    → row (ensure j ps s).1 k ≡ some r
unfolding ensure
ensure-Advances s j k ps r e = elim (Option-cases (row s j)) [
  | inl f ↦ rw (f, ensure) (ground (arith, get-put s.leases j k (fresh_lease j ps), str_eq_iff j k))
  | inr (cur, f) ↦ rw (f, ensure) e
]

acquire-Advances :
    (s : MemoryStore) (j k o : Str) (c : ℕ) (r : Lease)
    → row s k ≡ some r
    → Advances r (row (acquire j o c s).1 k)
unfolding acquire
acquire-Advances s j k o c r e = elim (Option-cases (row s j)) [
  | inl f ↦ rw (f, acquire) (ground arith)
  | inr (cur, f) ↦
      rw (f, acquire)
        (ground (
          arith,
          put-Advances s.leases j k cur r
              (record cur { owner = o; counter = next_counter cur.counter }) e f refl,
        ))
]

-- A call that spares the row leaves it alone or moves its counter on.
pub step-Advances :
    (s : MemoryStore) (k : Str) (r : Lease) (c : Call)
    → row s k ≡ some r
    → Spares k c
    → Advances r (row (step s c) k)
unfolding step heartbeat checkpoint release delete
step-Advances s k r (ensures j ps) e p = rw (ensure-Advances s j k ps r e) (inl refl)
step-Advances s k r (acquires j o c) e p = acquire-Advances s j k o c r e
step-Advances s k r (heartbeats l) e p = conditional_update-Advances s k r l _ e (λ x. refl)
step-Advances s k r (checkpoints l seq) e p = conditional_update-Advances s k r l _ e (λ x. refl)
step-Advances s k r (releases l) e p = conditional_update-Advances s k r l _ e (λ x. refl)
step-Advances s k r (deletes j c) e p = ground (arith, get-delete s.leases j k, str_eq_iff j k)

pub moved :
    (r r' : Lease)
    → Advances r (some r')
    → r.counter + 1 < int64_mod
    → (r.counter ≤ r'.counter) × (r'.counter ≤ r.counter + 1)
unfolding next_counter
moved r r' a h = ground arith

-- No history that spares the row brings an earlier counter back, short of 2 ^ 64 writes.
pub run-counter :
    (s : MemoryStore) (k : Str) (r : Lease) (cs : List Call)
    → row s k ≡ some r
    → All (Spares k) cs
    → r.counter + length cs < int64_mod
    → (r' : Lease) × (row (run s cs) k ≡ some r') × (r.counter ≤ r'.counter)
unfolding run
run-counter s k r [] e p b = (r, e, omega arith)
run-counter s k r (c ∷ cs) e p b = elim (Option-cases (row (step s c) k)) [
  | inl f ↦ absurd (rw f at (step-Advances s k r c e p.0))
  | inr (r', f) ↦
      let a : Advances r (some r') = rw f at (step-Advances s k r c e p.0) in
      let m : (r.counter ≤ r'.counter) × (r'.counter ≤ r.counter + 1) =
        moved r r' a (omega arith) in
      let ih = run-counter (step s c) k r' cs f p.1 (omega arith) in (ih.0, ih.1, omega arith)
]

-- A write under the token `l` that the store accepted: a heartbeat, a checkpoint or a release by
-- its holder, or a takeover by anybody who saw its counter.
pub data Accepted (l : Lease) (s s' : MemoryStore) : Type 0 where
  by_heartbeat : (l' : Lease) → heartbeat l s ≡ (ok l', s') → Accepted l s s'
  by_checkpoint : (l' : Lease) (seq : Str) → checkpoint l seq s ≡ (ok l', s') → Accepted l s s'
  by_release : release l s ≡ (ok tt, s') → Accepted l s s'
  by_acquire :
      (l' : Lease) (o : Str) → acquire l.shard_id o l.counter s ≡ (ok l', s') → Accepted l s s'

-- Every use of the token `l` is refused and changes nothing.
pub record Refused (l : Lease) (s : MemoryStore) : Type 0 where
  pub on_heartbeat : heartbeat l s ≡ (err lease_conflict, s)
  pub on_checkpoint : (seq : Str) → checkpoint l seq s ≡ (err lease_conflict, s)
  pub on_release : release l s ≡ (err lease_conflict, s)
  pub on_acquire :
      (o : Str) → (o ≡ []) ⊎ (acquire l.shard_id o l.counter s ≡ (err lease_conflict, s))

abbrev MovedOn : Lease → Option Lease → Type 0
MovedOn l none = ⊥
MovedOn l (some r) = r.counter ≡ next_counter l.counter

conditional_update-MovedOn :
    (s s' : MemoryStore) (l l' : Lease) (mutate : Lease → Lease)
    → ((x : Lease) → (mutate x).counter ≡ next_counter x.counter)
    → conditional_update l mutate s ≡ (ok l', s')
    → MovedOn l (row s' l.shard_id)
unfolding conditional_update
conditional_update-MovedOn s s' l l' mutate h e = elim (Option-cases (row s l.shard_id)) [
  | inl f ↦ absurd (cc (rw (f, conditional_update) at e))
  | inr (cur, f) ↦ ground (
    arith,
    rw (f, conditional_update) at e,
    h cur,
    get-put s.leases l.shard_id l.shard_id (mutate cur),
    str_eq_refl l.shard_id,
    str_eq_iff cur.owner l.owner,
  )
]

acquire-MovedOn :
    (s s' : MemoryStore) (l l' : Lease) (o : Str)
    → acquire l.shard_id o l.counter s ≡ (ok l', s')
    → MovedOn l (row s' l.shard_id)
unfolding acquire
acquire-MovedOn s s' l l' o e = elim (Option-cases (row s l.shard_id)) [
  | inl f ↦ absurd (ground (arith, rw (f, acquire) at e))
  | inr (cur, f) ↦
      let taken : Lease = record cur { owner = o; counter = next_counter cur.counter } in
      ground (
        arith,
        rw (f, acquire) at e,
        get-put s.leases l.shard_id l.shard_id taken,
        str_eq_refl l.shard_id,
      )
]

release-MovedOn :
    (s s' : MemoryStore) (l : Lease) → release l s ≡ (ok tt, s') → MovedOn l (row s' l.shard_id)
unfolding release
release-MovedOn s s' l e = elim (Option-cases (row s l.shard_id)) [
  | inl f ↦ absurd (ground (arith, rw (f, conditional_update) at e))
  | inr (cur, f) ↦
      let freed : Lease = record cur { owner = []; counter = next_counter cur.counter } in
      ground (
        arith,
        rw (f, conditional_update) at e,
        get-put s.leases l.shard_id l.shard_id freed,
        str_eq_refl l.shard_id,
      )
]

Accepted-MovedOn :
    (l : Lease) (s s' : MemoryStore) → Accepted l s s' → MovedOn l (row s' l.shard_id)
unfolding heartbeat checkpoint
Accepted-MovedOn l s s' (by_heartbeat l' e) = conditional_update-MovedOn s s' l l' _ (λ x. refl) e
Accepted-MovedOn l s s' (by_checkpoint l' seq e) =
    conditional_update-MovedOn s s' l l' _ (λ x. refl) e
Accepted-MovedOn l s s' (by_release e) = release-MovedOn s s' l e
Accepted-MovedOn l s s' (by_acquire l' o e) = acquire-MovedOn s s' l l' o e

pub counter_mismatch-Refused :
    (l r : Lease) (s : MemoryStore)
    → row s l.shard_id ≡ some r
    → r.counter ≢ l.counter
    → Refused l s
unfolding heartbeat checkpoint release acquire conditional_update
counter_mismatch-Refused l r s e h = record {
  on_heartbeat = rw (e, conditional_update) (ground arith);
  on_checkpoint = λ seq. rw (e, conditional_update) (ground arith);
  on_release = rw (e, conditional_update) (ground arith);
  on_acquire = λ o. elim (Bool-cases (str_eq o [])) [
    | inl f ↦ inl ((str_eq_iff o []).0 f)
    | inr f ↦ inr (rw (e, f, acquire) (ground arith))
  ];
}

-- A token that was used for an accepted write is refused ever after.
pub stale_token-Refused :
    (s s' : MemoryStore) (l : Lease) (cs : List Call)
    → Accepted l s s'
    → All (Spares l.shard_id) cs
    → l.counter + 1 + length cs < int64_mod
    → Refused l (run s' cs)
unfolding next_counter
stale_token-Refused s s' l cs a p b = elim (Option-cases (row s' l.shard_id)) [
  | inl f ↦ absurd (rw f at (Accepted-MovedOn l s s' a))
  | inr (r, f) ↦
      let m : r.counter ≡ next_counter l.counter = rw f at (Accepted-MovedOn l s s' a) in
      let c : r.counter ≡ l.counter + 1 = omega (arith, m) in
      let kept = run-counter s' l.shard_id r cs f p (omega (arith, c)) in
      counter_mismatch-Refused l kept.0 (run s' cs) kept.1 (omega (arith, c, kept.2))
]
