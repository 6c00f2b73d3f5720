-- ===== src/Receiver/Discovery/Frame.antt =====
-- receiver/awskinesisreceiver/shard_discovery.go: discovery touches neither the pollers nor the
-- shutdown.
use opentelemetry_kinesis_st.Base.{
  ℕ, ◌+◌, ◌≡◌, refl, ◌∙◌, Bool, true, false, ◌⊎◌, inl, inr, List, [], ◌∷◌, none, str_eq, ◌==◌,
  if◌then◌else◌, Bool-cases, Option-cases, length,
}
use opentelemetry_kinesis_st.Base.GoMap
use opentelemetry_kinesis_st.Base.GoMap.{GoMap, get_or-put, get_or-delete}
use opentelemetry_kinesis_st.Lease.{Lease, Result, ok, err, Error, checkpoint_shard_end}
use opentelemetry_kinesis_st.Receiver.Discovery.{
  refresh_observations, Env, Coordinator, Shard, Listing, listed, list_failed, list_unfinished,
  list_shards, ensure_all, discover_shards, reap, cleanup_absent, cleanup_lease, cleanup_leases,
  cleanup_orphans,
}

-- What discovery leaves alone: the pollers and the shutdown.
pub record Frame {W : Type 0} (c c' : Coordinator W) : Type 0 where
  pub same_active : c'.active ≡ c.active
  pub same_running : c'.running ≡ c.running
  pub same_stopped : c'.stopped ≡ c.stopped
  pub same_drains : c'.drains ≡ c.drains

Frame-refl : {W : Type 0} (c : Coordinator W) → Frame c c
Frame-refl c = record {
  same_active = refl;
  same_running = refl;
  same_stopped = refl;
  same_drains = refl;
}

Frame-trans : {W : Type 0} (a b c : Coordinator W) → Frame a b → Frame b c → Frame a c
Frame-trans a b c f g = record {
  same_active = g.same_active ∙ f.same_active;
  same_running = g.same_running ∙ f.same_running;
  same_stopped = g.same_stopped ∙ f.same_stopped;
  same_drains = g.same_drains ∙ f.same_drains;
}

Frame-absent : {W : Type 0} (c : Coordinator W) (m : GoMap ℕ) → Frame c (record c { absent = m })
Frame-absent c m = record {
  same_active = refl;
  same_running = refl;
  same_stopped = refl;
  same_drains = refl;
}

-- A property that both ways of a test have.
either : {A : Type 0} (P : A → Type 0) (b : Bool) (x y : A) → P x → P y → P (if b then x else y)
either P true x y h k = h
either P false x y h k = k

pub Result-cases :
    {A : Type 0} (r : Result A) → ((e : Error) × (r ≡ err e)) ⊎ ((a : A) × (r ≡ ok a))
Result-cases (ok a) = inr (a, refl)
Result-cases (err e) = inl (e, refl)

Listing-cases :
    (l : Listing)
    → (l ≡ list_failed) ⊎ (l ≡ list_unfinished) ⊎ ((ss : List Shard) × (l ≡ listed ss))
Listing-cases list_failed = inl refl
Listing-cases list_unfinished = inr (inl refl)
Listing-cases (listed ss) = inr (inr (ss, refl))

module _ {W : Type 0} (env : Env W) where
  reap-Frame : (l : Lease) (c : Coordinator W) → Frame c (reap env l c)
  unfolding reap
  reap-Frame l c = elim (Result-cases (env.delete l.shard_id l.counter c.world).0) [
    | inl (e, f) ↦
        rw (f, reap)
          (record {
            same_active = refl;
            same_running = refl;
            same_stopped = refl;
            same_drains = refl;
          })
    | inr (u, f) ↦
        rw (f, reap)
          (record {
            same_active = refl;
            same_running = refl;
            same_stopped = refl;
            same_drains = refl;
          })
  ]

  cleanup_absent-Frame : (l : Lease) (c : Coordinator W) → Frame c (cleanup_absent env l c)
  unfolding cleanup_absent
  cleanup_absent-Frame l c = elim (Option-cases (GoMap.get c.active l.shard_id)) [
    | inr (h, e) ↦ rw (e, cleanup_absent) (Frame-refl c)
    | inl e ↦
        rw (e, cleanup_absent)
          (either (Frame c) _ _ _ (Frame-refl c)
            (either (Frame c) _ _ _ (Frame-refl c) (reap-Frame l c)))
  ]

  pub cleanup_lease-Frame : (l : Lease) (c : Coordinator W) → Frame c (cleanup_lease env l c)
  unfolding cleanup_lease
  cleanup_lease-Frame l c =
      let counted = GoMap.put c.absent l.shard_id (GoMap.get_or c.absent l.shard_id 0 + 1) in
      elim (Bool-cases (GoMap.get_or c.live_shards l.shard_id false)) [
        | inl e ↦ rw (e, cleanup_lease) (Frame-absent c (GoMap.delete c.absent l.shard_id))
        | inr e ↦ elim (Bool-cases (str_eq l.checkpoint checkpoint_shard_end)) [
          | inr f ↦ rw (e, f, cleanup_lease) (Frame-refl c)
          | inl f ↦
              rw (e, f, cleanup_lease)
                (Frame-trans c (record c { absent = counted }) _ (Frame-absent c counted)
                  (cleanup_absent-Frame l (record c { absent = counted })))
        ]
      ]

  cleanup_leases-Frame : (ls : List Lease) (c : Coordinator W) → Frame c (cleanup_leases env ls c)
  unfolding cleanup_leases
  cleanup_leases-Frame [] c = Frame-refl c
  cleanup_leases-Frame (l ∷ ls) c =
      Frame-trans c (cleanup_lease env l c) _ (cleanup_lease-Frame l c)
        (cleanup_leases-Frame ls (cleanup_lease env l c))

  pub cleanup_orphans_cases :
      (ls : List Lease) (c : Coordinator W)
      → (cleanup_orphans env ls c ≡ c) ⊎ (cleanup_orphans env ls c ≡ cleanup_leases env ls c)
  unfolding cleanup_orphans
  cleanup_orphans_cases ls c = elim (Bool-cases (length c.live_shards == 0)) [
    | inl e ↦ inl (rw (e, cleanup_orphans) refl)
    | inr e ↦ inr (rw (e, cleanup_orphans) refl)
  ]

  pub cleanup_orphans-Frame :
      (ls : List Lease) (c : Coordinator W) → Frame c (cleanup_orphans env ls c)
  cleanup_orphans-Frame ls c = elim (cleanup_orphans_cases ls c) [
    | inl e ↦ rw e (Frame-refl c)
    | inr e ↦ rw e (cleanup_leases-Frame ls c)
  ]

  pub discover_shards-Frame :
      (fuel : ℕ) (c : Coordinator W) → Frame c (discover_shards env fuel c).1
  unfolding discover_shards
  discover_shards-Frame fuel c = elim (Listing-cases (list_shards env fuel none [] c.world).0) [
    | inl e ↦
        rw (e, discover_shards)
          (record {
            same_active = refl;
            same_running = refl;
            same_stopped = refl;
            same_drains = refl;
          })
    | inr (inl e) ↦
        rw (e, discover_shards)
          (record {
            same_active = refl;
            same_running = refl;
            same_stopped = refl;
            same_drains = refl;
          })
    | inr (inr (ss, e)) ↦
        elim (Option-cases (ensure_all env ss [] (list_shards env fuel none [] c.world).1).0) [
          | inl f ↦
              rw (e, f, discover_shards)
                (record {
                  same_active = refl;
                  same_running = refl;
                  same_stopped = refl;
                  same_drains = refl;
                })
          | inr (live, f) ↦
              rw (e, f, discover_shards)
                (record {
                  same_active = refl;
                  same_running = refl;
                  same_stopped = refl;
                  same_drains = refl;
                })
        ]
  ]

pub refresh_observations-Frame :
    {W : Type 0} (leases : List Lease) (now : ℕ) (c : Coordinator W)
    → Frame c (refresh_observations leases now c)
unfolding refresh_observations
refresh_observations-Frame leases now c = record {
  same_active = refl;
  same_running = refl;
  same_stopped = refl;
  same_drains = refl;
}
