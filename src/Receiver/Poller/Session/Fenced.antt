-- ===== src/Receiver/Poller/Session/Fenced.antt =====
-- receiver/awskinesisreceiver/poller.go and poller_lease.go over a lease store that, when it answers,
-- answers as the in-memory store does: the lease under any interleaving.
use opentelemetry_kinesis_st.Base.{ℕ, ◌+◌, ◌<◌, ◌≡◌, refl, inl, inr, [], Str, arith, ◌∙◌}
use opentelemetry_kinesis_st.Lease.{
  Lease, Result, ok, err, Error, canceled, fault, next_counter, int64_mod,
}
use opentelemetry_kinesis_st.Lease.Memory
use opentelemetry_kinesis_st.Lease.Memory.{MemoryStore, conditional_update}
use opentelemetry_kinesis_st.Lease.Memory.Fencing.Holder.{
  IsFenced, Writes, accepted, refused, conditional_update-Written,
}
use opentelemetry_kinesis_st.Receiver.Batch.{PollConfig, Env, Ctx}
use opentelemetry_kinesis_st.Receiver.Poller.{Poller, heartbeat, checkpoint, release}
use opentelemetry_kinesis_st.Receiver.Poller.Keeps.{Result-cases}

-- An error that says nothing of the lease.
pub data Fails : Error → Type 0 where
  fails_canceled : Fails canceled
  fails_fault : Fails fault

-- What a call returns where the in-memory store, in state `s`, would return `m`: that, or an error,
-- with the call carried out or not.
pub data Answers {W A : Type 0} (store_of : W → MemoryStore) (s : MemoryStore)
    (m : Result A × MemoryStore) (r : Result A × W) : Type 0 where
  answered : r.0 ≡ m.0 → store_of r.1 ≡ m.1 → Answers store_of s m r
  failed_before : {e : Error} → Fails e → r.0 ≡ err e → store_of r.1 ≡ s → Answers store_of s m r
  failed_after : {e : Error} → Fails e → r.0 ≡ err e → store_of r.1 ≡ m.1 → Answers store_of s m r

pub record IsBacked {W D : Type 0} (env : Env W D) (store_of : W → MemoryStore) : Type 0 where
  pub on_heartbeat :
      (l : Lease) (w : W)
      → Answers store_of (store_of w) (Memory.heartbeat l (store_of w)) (env.store_heartbeat l w)
  pub on_checkpoint :
      (ctx : Ctx) (l : Lease) (seq : Str) (w : W)
      → Answers store_of
          (store_of w)
          (Memory.checkpoint l seq (store_of w))
          (env.store_checkpoint ctx l seq w)
  pub on_release :
      (l : Lease) (w : W)
      → Answers store_of (store_of w) (Memory.release l (store_of w)) (env.store_release l w)

-- A heartbeat's and a checkpoint's change of the row.
abbrev pub beaten : Lease → Lease
beaten l = record l { counter = next_counter l.counter }

abbrev pub advanced : Str → Lease → Lease
advanced seq l = record l { checkpoint = seq; counter = next_counter l.counter }

abbrev freed : Lease → Lease
freed l = record l { owner = []; counter = next_counter l.counter }

module _ {W : Type 0} (store_of : W → MemoryStore) (k : Str) (b : ℕ) (h : b + 1 < int64_mod)
    (l : Lease) where
  weaken : {s : MemoryStore} → IsFenced k b l s → IsFenced k (b + 1) l s
  weaken f = record {
    current = f.current;
    same_shard = f.same_shard;
    found = f.found;
    bounded = omega (arith, f.bounded);
    state = f.state;
  }

  -- A write under the lease that its holder does not learn of.
  unseen-IsFenced :
      (mutate : Lease → Lease) (s : MemoryStore)
      → Writes mutate
      → IsFenced k b l s
      → IsFenced k (b + 1) l (conditional_update l mutate s).1
  unseen-IsFenced mutate s w f = elim (conditional_update-Written k b l mutate s w h f) [
    | accepted s' e held landed c c' ↦ record {
      current = mutate l;
      same_shard = f.same_shard;
      found = rw e landed;
      bounded = c';
      state = inr (omega (arith, c));
    }
    | refused r e found lt ↦ rw e (weaken f)
  ]

  -- The poller's lease after a call that returns `r`.
  abbrev pub learned : {A : Type 0} → (A → Lease) → Result A × W → Lease
  learned g r = elim r.0 [ ok a ↦ g a | err e ↦ l ]

  write-IsFenced :
      (mutate : Lease → Lease) (s : MemoryStore) (r : Result Lease × W)
      → Writes mutate
      → IsFenced k b l s
      → Answers store_of s (conditional_update l mutate s) r
      → IsFenced k (b + 1) (learned (λ l'. l') r) (store_of r.1)
  write-IsFenced mutate s r w f (failed_before e q t) = rw (q, t) (weaken f)
  write-IsFenced mutate s r w f (failed_after e q t) = rw (q, t) (unseen-IsFenced mutate s w f)
  write-IsFenced mutate s r w f (answered q t) =
      elim (conditional_update-Written k b l mutate s w h f) [
        | accepted s' e held landed c c' ↦
            rw (q, t, e)
              (record {
                current = mutate l;
                same_shard = w.keeps_shard l ∙ f.same_shard;
                found = landed;
                bounded = c';
                state = inl refl;
              })
        | refused x e found lt ↦ rw (q, t, e) (weaken f)
      ]

pub beaten-Writes : Writes beaten
beaten-Writes = record { counts = λ l. refl; keeps_shard = λ l. refl }

advanced-Writes : (seq : Str) → Writes (advanced seq)
advanced-Writes seq = record { counts = λ l. refl; keeps_shard = λ l. refl }

freed-Writes : Writes freed
freed-Writes = record { counts = λ l. refl; keeps_shard = λ l. refl }

module _ {W D : Type 0} (cfg : PollConfig) (env : Env W D) (store_of : W → MemoryStore) (k : Str)
    (backed : IsBacked env store_of) where
  abbrev pub FencedAt : ℕ → Poller W → Type 0
  FencedAt b p = IsFenced k b p.leased (store_of p.world)

  pub heartbeat-FencedAt :
      (b : ℕ) (p : Poller W)
      → b + 1 < int64_mod
      → FencedAt b p
      → FencedAt (b + 1) (heartbeat cfg env p).1
  unfolding heartbeat Memory.heartbeat
  heartbeat-FencedAt b p h f =
      let r = env.store_heartbeat p.leased p.world in
      let g =
        write-IsFenced store_of k b h p.leased beaten (store_of p.world) r beaten-Writes f
          (backed.on_heartbeat p.leased p.world) in
      elim (Result-cases r.0) [
        | inl (e, q) ↦ rw (q, heartbeat) (rw q at g)
        | inr (l', q) ↦ rw (q, heartbeat) (rw q at g)
      ]

  pub checkpoint-FencedAt :
      (ctx : Ctx) (seq : Str) (b : ℕ) (p : Poller W)
      → b + 1 < int64_mod
      → FencedAt b p
      → FencedAt (b + 1) (checkpoint cfg env ctx seq p).1
  unfolding checkpoint Memory.checkpoint
  checkpoint-FencedAt ctx seq b p h f =
      let r = env.store_checkpoint ctx p.leased seq p.world in
      let g =
        write-IsFenced store_of k b h p.leased (advanced seq) (store_of p.world) r
          (advanced-Writes seq) f (backed.on_checkpoint ctx p.leased seq p.world) in
      elim (Result-cases r.0) [
        | inl (e, q) ↦ rw (q, checkpoint) (rw q at g)
        | inr (l', q) ↦ rw (q, checkpoint) (rw q at g)
      ]

  pub release-FencedAt :
      (b : ℕ) (p : Poller W)
      → b + 1 < int64_mod
      → FencedAt b p
      → FencedAt (b + 1) (release cfg env p)
  unfolding release Memory.release
  release-FencedAt b p h f =
      let gone = unseen-IsFenced store_of k b h p.leased freed (store_of p.world) freed-Writes f in
      elim (backed.on_release p.leased p.world) [
        | answered q t ↦ rw t gone
        | failed_before e q t ↦ rw t (weaken store_of k b h p.leased f)
        | failed_after e q t ↦ rw t gone
      ]
