-- ===== src/Lease/Memory/Fencing/Holder.antt =====
-- internal/lease/memory.go as the holder of one lease sees it: while its row is its lease its writes
-- are accepted, and once the row's counter is past the lease's they are refused.
use opentelemetry_kinesis_st.Base.{
  ℕ, ◌+◌, ◌≤◌, ◌<◌, ◌≡◌, subst, ◌⊎◌, inl, inr, List, [], ◌∷◌, some, Str, str_eq_iff, str_eq_refl,
  arith, length, All, Option-cases,
}
use opentelemetry_kinesis_st.Base.GoMap
use opentelemetry_kinesis_st.Base.GoMap.{get-put}
use opentelemetry_kinesis_st.Lease.{Lease, ok, err, lease_conflict, next_counter, int64_mod}
use opentelemetry_kinesis_st.Lease.Memory.{MemoryStore, conditional_update}
use opentelemetry_kinesis_st.Lease.Memory.Fencing.{
  Call, run, row, step, Spares, Advances, step-Advances,
}

-- The row is the lease, or its counter has moved past the lease's.
abbrev pub HeldOrPassed : Lease → Lease → Type 0
HeldOrPassed l r = (r ≡ l) ⊎ (l.counter < r.counter)

-- A lease of the shard `k` whose counters, and the row's, are at most `b`.
pub record IsFenced (k : Str) (b : ℕ) (l : Lease) (s : MemoryStore) : Type 0 where
  pub current : Lease
  pub same_shard : l.shard_id ≡ k
  pub found : row s k ≡ some current
  pub bounded : current.counter ≤ b
  pub state : HeldOrPassed l current

advance :
    (b : ℕ) (l r r' : Lease)
    → r.counter ≤ b
    → b + 1 < int64_mod
    → HeldOrPassed l r
    → Advances r (some r')
    → HeldOrPassed l r' × (r'.counter ≤ b + 1)
unfolding next_counter
advance b l r r' h k p a = ground arith

-- What others do to the store, short of deleting the row, leaves the lease fenced.
pub run-IsFenced :
    (k : Str) (b : ℕ) (l : Lease) (s : MemoryStore) (cs : List Call)
    → IsFenced k b l s
    → All (Spares k) cs
    → b + length cs < int64_mod
    → IsFenced k (b + length cs) l (run s cs)
unfolding run
run-IsFenced k b l s [] f p h = record {
  current = f.current;
  same_shard = f.same_shard;
  found = f.found;
  bounded = omega (arith, f.bounded);
  state = f.state;
}
run-IsFenced k b l s (c ∷ cs) f p h = elim (Option-cases (row (step s c) k)) [
  | inl e ↦ absurd (rw e at (step-Advances s k f.current c f.found p.0))
  | inr (r', e) ↦
      let a : Advances f.current (some r') = rw e at (step-Advances s k f.current c f.found p.0) in
      let m = advance b l f.current r' f.bounded (omega arith) f.state a in
      let g : IsFenced k (b + 1) l (step s c) = record {
        current = r';
        same_shard = f.same_shard;
        found = e;
        bounded = m.1;
        state = m.0;
      } in
      let e' : (b + 1) + length cs ≡ b + length (c ∷ cs) = omega arith in
      subst (λ n. IsFenced k n l (run (step s c) cs)) e'
        (run-IsFenced k (b + 1) l (step s c) cs g p.1 (omega arith))
]

update_held :
    (l : Lease) (mutate : Lease → Lease) (s : MemoryStore)
    → row s l.shard_id ≡ some l
    → conditional_update l mutate s
      ≡ (ok (mutate l), record { leases = GoMap.put s.leases l.shard_id (mutate l) })
unfolding conditional_update
update_held l mutate s e = rw (e, conditional_update) (ground (arith, str_eq_refl l.owner))

update_passed :
    (l r : Lease) (mutate : Lease → Lease) (s : MemoryStore)
    → row s l.shard_id ≡ some r
    → l.counter < r.counter
    → conditional_update l mutate s ≡ (err lease_conflict, s)
unfolding conditional_update
update_passed l r mutate s e h = rw (e, conditional_update) (ground arith)

-- A write moves the counter on and keeps the shard.
pub record Writes (mutate : Lease → Lease) : Type 0 where
  pub counts : (l : Lease) → (mutate l).counter ≡ next_counter l.counter
  pub keeps_shard : (l : Lease) → (mutate l).shard_id ≡ l.shard_id

-- A write under a fenced lease is accepted, with the row as it leaves it, if the row is the lease,
-- and otherwise refused and without effect.
pub data Written (k : Str) (b : ℕ) (l : Lease) (mutate : Lease → Lease) (s : MemoryStore)
    : Type 0 where
  accepted :
      (s' : MemoryStore)
      → conditional_update l mutate s ≡ (ok (mutate l), s')
      → row s k ≡ some l
      → row s' k ≡ some (mutate l)
      → (mutate l).counter ≡ l.counter + 1
      → (mutate l).counter ≤ b + 1
      → Written k b l mutate s
  refused :
      (r : Lease)
      → conditional_update l mutate s ≡ (err lease_conflict, s)
      → row s k ≡ some r
      → l.counter < r.counter
      → Written k b l mutate s

pub conditional_update-Written :
    (k : Str) (b : ℕ) (l : Lease) (mutate : Lease → Lease) (s : MemoryStore)
    → Writes mutate
    → b + 1 < int64_mod
    → IsFenced k b l s
    → Written k b l mutate s
unfolding next_counter
conditional_update-Written k b l mutate s w h f =
    let e : row s l.shard_id ≡ some f.current = rw (f.same_shard) f.found in
    elim f.state [
      | inl x ↦
          let held : row s l.shard_id ≡ some l = cc in
          let b' : l.counter ≤ b = subst (λ (t : Lease). t.counter ≤ b) x f.bounded in
          let m = GoMap.put s.leases l.shard_id (mutate l) in
          let landed : GoMap.get m k ≡ some (mutate l) = ground (
            arith,
            get-put s.leases l.shard_id k (mutate l),
            str_eq_iff l.shard_id k,
            f.same_shard,
          ) in
          accepted (record { leases = m }) (update_held l mutate s held) (cc f.found) landed
            (omega (arith, w.counts l)) (omega (arith, w.counts l))
      | inr lt ↦ refused f.current (update_passed l f.current mutate s e lt) f.found lt
    ]
