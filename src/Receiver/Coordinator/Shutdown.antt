-- ===== src/Receiver/Coordinator/Shutdown.antt =====
-- receiver/awskinesisreceiver/coordinator.go: the coordinator's goroutines interleaved. One
-- goroutine claims leases and starts pollers, and the shutdown may come between the two.
use opentelemetry_kinesis_st.Base.{
  ℕ, ◌≡◌, refl, sym, ◌∙◌, Bool, true, false, not, inl, inr, List, [], ◌∷◌, ◌++◌, Option, none, some,
  Str, str_eq_iff, ◌==◌, if◌then◌else◌, keep, any, arith, Bool-cases, Option-cases,
}
use opentelemetry_kinesis_st.Base.GoMap
use opentelemetry_kinesis_st.Base.GoMap.{GoMap, get-put, get-delete}
use opentelemetry_kinesis_st.Lease.{Lease, ok}
use opentelemetry_kinesis_st.Receiver.Discovery.{
  Env, Coordinator, refresh_observations, cleanup_orphans, discover_shards,
}
use opentelemetry_kinesis_st.Receiver.Discovery.Frame.{
  Frame, discover_shards-Frame, cleanup_orphans-Frame, refresh_observations-Frame, Result-cases,
}
use opentelemetry_kinesis_st.Receiver.Coordinator.{
  same_handle, start_poller, claim_lease, exit_poller, release_poller, drain_and_stop,
}

-- The poller's goroutine has not ended.
abbrev runs : {W : Type 0} → Coordinator W → ℕ → Str → Bool
runs c h k = any (λ r. same_handle (h, k) r) c.running

-- The poller was asked to drain.
abbrev is_asked : {W : Type 0} → Coordinator W → ℕ → Bool
is_asked c h = any (λ g. g == h) c.drains

-- The coordinator, and the lease that its reconcile goroutine has acquired and not yet given to
-- startPoller.
pub record Machine (W : Type 0) : Type 0 where
  pub coordinator : Coordinator W
  pub pending : Option Lease

-- One step of one of the goroutines: the reconcile goroutine claims, starts, releases, refreshes,
-- cleans up and discovers; Shutdown stops; a poller exits.
pub data Step {W : Type 0} (env : Env W) : Machine W → Machine W → Type 0 where
  claims :
      (l : Lease) (c : Coordinator W)
      → Step env
          (record { coordinator = c; pending = none })
          (record { coordinator = (claim_lease env l c).1; pending = (claim_lease env l c).0 })
  starts :
      (l : Lease) (c : Coordinator W)
      → Step env
          (record { coordinator = c; pending = some l })
          (record { coordinator = start_poller env l c; pending = none })
  stops :
      (c : Coordinator W) (o : Option Lease)
      → Step env
          (record { coordinator = c; pending = o })
          (record { coordinator = drain_and_stop env c; pending = o })
  exits :
      (h : ℕ) (k : Str) (c : Coordinator W) (o : Option Lease)
      → Step env
          (record { coordinator = c; pending = o })
          (record { coordinator = exit_poller env (h, k) c; pending = o })
  releases :
      (k : Str) (c : Coordinator W) (o : Option Lease)
      → Step env
          (record { coordinator = c; pending = o })
          (record { coordinator = release_poller env k c; pending = o })
  refreshes :
      (leases : List Lease) (now : ℕ) (c : Coordinator W) (o : Option Lease)
      → Step env
          (record { coordinator = c; pending = o })
          (record { coordinator = refresh_observations leases now c; pending = o })
  cleans_up :
      (leases : List Lease) (c : Coordinator W) (o : Option Lease)
      → Step env
          (record { coordinator = c; pending = o })
          (record { coordinator = cleanup_orphans env leases c; pending = o })
  discovers :
      (fuel : ℕ) (c : Coordinator W) (o : Option Lease)
      → Step env
          (record { coordinator = c; pending = o })
          (record { coordinator = (discover_shards env fuel c).1; pending = o })

pub data Reaches {W : Type 0} (env : Env W) : Machine W → Machine W → Type 0 where
  here : {m : Machine W} → Reaches env m m
  after : {m m' n : Machine W} → Step env m m' → Reaches env m' n → Reaches env m n

-- What Acquire of a store promises: the lease that it returns is of the shard asked for.
pub record AcquiresShard {W : Type 0} (env : Env W) : Type 0 where
  pub same_shard :
      (k o : Str) (n : ℕ) (w : W) (l : Lease) → (env.acquire k o n w).0 ≡ ok l → l.shard_id ≡ k

-- Every poller that runs has its shard's slot; the slot of a lease yet to be started is empty; and
-- once the coordinator has stopped, every poller that runs was asked to drain.
pub record IsOrderly {W : Type 0} (m : Machine W) : Type 0 where
  pub slots :
      (h : ℕ) (k : Str) → runs m.coordinator h k ≡ true → GoMap.get m.coordinator.active k ≡ some h
  pub unstarted :
      (l : Lease) → m.pending ≡ some l → GoMap.get m.coordinator.active l.shard_id ≡ none
  pub asked :
      m.coordinator.stopped ≡ true
      → (h : ℕ) (k : Str) → runs m.coordinator h k ≡ true
      → is_asked m.coordinator h ≡ true

any-append {ℓ} :
    {A : Type ℓ} (p : A → Bool) (xs ys : List A)
    → any p (xs ++ ys) ≡ (if any p xs then true else any p ys)
unfolding any
any-append p [] ys = refl
any-append p (x ∷ xs) ys = ground (arith, any-append p xs ys)

-- A slot's handle is among the handles of the slots.
get-values :
    (m : GoMap ℕ) (k : Str) (h : ℕ)
    → GoMap.get m k ≡ some h
    → any (λ g. g == h) (GoMap.values m) ≡ true
unfolding any GoMap.get GoMap.values
get-values [] k h e = absurd (cc)
get-values ((j, g) ∷ m) k h e = ground (arith, get-values m k h)

-- Dropping one poller from those that run leaves the others.
any-keep :
    (g h : ℕ) (j k : Str) (rs : List (ℕ × Str))
    → any (λ r. same_handle (h, k) r) (keep (λ r. not (same_handle (g, j) r)) rs) ≡ true
    → (any (λ r. same_handle (h, k) r) rs ≡ true) × (same_handle (g, j) (h, k) ≡ false)
unfolding any keep
any-keep g h j k [] e = absurd (cc)
any-keep g h j k ((i, s) ∷ rs) e =
    ground (arith, any-keep g h j k rs, str_eq_iff j k, str_eq_iff k s, str_eq_iff j s)

claimed_slot :
    (m : GoMap ℕ) (k : Str) (taken t : Lease)
    → taken.shard_id ≡ k
    → some taken ≡ some t
    → GoMap.get m k ≡ none
    → GoMap.get m t.shard_id ≡ none
claimed_slot m k taken t e f g = cc

module _ {W : Type 0} (env : Env W) where
  exit_poller-IsOrderly :
      (h : ℕ) (k : Str) (c : Coordinator W) (o : Option Lease)
      → IsOrderly (record { coordinator = c; pending = o })
      → IsOrderly (record { coordinator = exit_poller env (h, k) c; pending = o })
  unfolding exit_poller
  exit_poller-IsOrderly h k c o i = record {
    slots = λ g j r.
        ground (
          arith,
          any-keep h g k j c.running r,
          i.slots g j,
          get-delete c.active k j,
          str_eq_iff k j,
        );
    unstarted = λ l e. ground (arith, i.unstarted l e, get-delete c.active k l.shard_id);
    asked = λ s g j r. i.asked s g j (any-keep h g k j c.running r).0;
  }

  drain_and_stop-IsOrderly :
      (c : Coordinator W) (o : Option Lease)
      → IsOrderly (record { coordinator = c; pending = o })
      → IsOrderly (record { coordinator = drain_and_stop env c; pending = o })
  unfolding drain_and_stop
  drain_and_stop-IsOrderly c o i = record {
    slots = i.slots;
    unstarted = i.unstarted;
    asked = λ s g j r.
        rw
          (
            any-append (λ x. x == g) (GoMap.values c.active) c.drains,
            get-values c.active j g (i.slots g j r),
          )
          refl;
  }

  release_poller-IsOrderly :
      (k : Str) (c : Coordinator W) (o : Option Lease)
      → IsOrderly (record { coordinator = c; pending = o })
      → IsOrderly (record { coordinator = release_poller env k c; pending = o })
  unfolding release_poller any
  release_poller-IsOrderly k c o i = elim (Option-cases (GoMap.get c.active k)) [
    | inl e ↦ rw (e, release_poller) i
    | inr (h, e) ↦
        rw (e, release_poller)
          (record {
            slots = i.slots;
            unstarted = i.unstarted;
            asked = λ s g j r. ground (arith, i.asked s g j r);
          })
  ]

  start_poller-IsOrderly :
      (l : Lease) (c : Coordinator W)
      → IsOrderly (record { coordinator = c; pending = some l })
      → IsOrderly (record { coordinator = start_poller env l c; pending = none })
  unfolding start_poller any
  start_poller-IsOrderly l c i = elim (Bool-cases c.stopped) [
    | inl e ↦
        rw (e, start_poller)
          (record { slots = i.slots; unstarted = λ x f. absurd (cc); asked = λ s. i.asked e })
    | inr e ↦
        rw (e, start_poller)
          (record {
            slots = λ g j r. ground (
              arith,
              i.slots g j,
              i.unstarted l refl,
              get-put c.active l.shard_id j c.next_handle,
              str_eq_iff l.shard_id j,
              str_eq_iff j l.shard_id,
            );
            unstarted = λ x f. absurd (cc);
            asked = λ s. absurd (ground arith);
          })
  ]

  Frame-IsOrderly :
      (c c' : Coordinator W) (o : Option Lease)
      → Frame c c'
      → IsOrderly (record { coordinator = c; pending = o })
      → IsOrderly (record { coordinator = c'; pending = o })
  Frame-IsOrderly c c' o f i = record {
    slots = λ g j r. rw f.same_active (i.slots g j (rw f.same_running at r));
    unstarted = λ l e. rw f.same_active (i.unstarted l e);
    asked =
        λ s g j r. rw f.same_drains (i.asked (sym f.same_stopped ∙ s) g j (rw f.same_running at r));
  }

  claim_lease-IsOrderly :
      AcquiresShard env
      → (l : Lease) (c : Coordinator W) → IsOrderly (record { coordinator = c; pending = none })
      → IsOrderly
          (record { coordinator = (claim_lease env l c).1; pending = (claim_lease env l c).0 })
  unfolding claim_lease
  claim_lease-IsOrderly a l c i = elim (Option-cases (GoMap.get c.active l.shard_id)) [
    | inr (h, e) ↦ rw (e, claim_lease) i
    | inl e ↦ elim (Result-cases (env.acquire l.shard_id c.worker_id l.counter c.world).0) [
      | inl (x, f) ↦
          rw (e, f, claim_lease)
            (record { slots = i.slots; unstarted = i.unstarted; asked = i.asked })
      | inr (taken, f) ↦
          rw (e, f, claim_lease)
            (record {
              slots = i.slots;
              unstarted = λ t g.
                  claimed_slot c.active l.shard_id taken t
                    (a.same_shard l.shard_id c.worker_id l.counter c.world taken f) g e;
              asked = i.asked;
            })
    ]
  ]

  Step-IsOrderly : (m n : Machine W) → AcquiresShard env → Step env m n → IsOrderly m → IsOrderly n
  Step-IsOrderly m n a (claims l c) i = claim_lease-IsOrderly a l c i
  Step-IsOrderly m n a (starts l c) i = start_poller-IsOrderly l c i
  Step-IsOrderly m n a (stops c o) i = drain_and_stop-IsOrderly c o i
  Step-IsOrderly m n a (exits h k c o) i = exit_poller-IsOrderly h k c o i
  Step-IsOrderly m n a (releases k c o) i = release_poller-IsOrderly k c o i
  Step-IsOrderly m n a (refreshes leases now c o) i =
      Frame-IsOrderly c (refresh_observations leases now c) o
        (refresh_observations-Frame leases now c) i
  Step-IsOrderly m n a (cleans_up leases c o) i =
      Frame-IsOrderly c (cleanup_orphans env leases c) o (cleanup_orphans-Frame env leases c) i
  Step-IsOrderly m n a (discovers fuel c o) i =
      Frame-IsOrderly c (discover_shards env fuel c).1 o (discover_shards-Frame env fuel c) i

  -- However the goroutines interleave, from an orderly coordinator on: a poller that runs holds its
  -- shard's slot, so no shard has two; and once the coordinator has stopped, every poller that runs
  -- was asked to drain, also one whose lease was being acquired when the shutdown came.
  pub Reaches-IsOrderly :
      (m n : Machine W) → AcquiresShard env → Reaches env m n → IsOrderly m → IsOrderly n
  Reaches-IsOrderly m n a here i = i
  Reaches-IsOrderly m n a (after {m' = k} s r) i =
      Reaches-IsOrderly k n a r (Step-IsOrderly m k a s i)
