-- ===== src/Receiver/Discovery/Orphans.antt =====
-- receiver/awskinesisreceiver/shard_discovery.go: which lease rows cleanupOrphans leaves alone.
use opentelemetry_kinesis_st.Base.{
  ℕ, ◌+◌, ◌<◌, ◌≡◌, ◌≢◌, refl, sym, ap, subst, ◌∙◌, true, false, ◌⊎◌, inl, inr, List, [], ◌∷◌,
  Option, none, some, Str, str_eq, str_eq_iff, str_eq_refl, keep, any, arith, Bool-cases,
  Option-cases, length,
}
use opentelemetry_kinesis_st.Base.GoMap
use opentelemetry_kinesis_st.Base.GoMap.{GoMap, get_or-put, get_or-delete}
use opentelemetry_kinesis_st.Lease.{Lease, checkpoint_shard_end}
use opentelemetry_kinesis_st.Receiver.Discovery.{
  Env, Coordinator, reap, cleanup_absent, cleanup_lease, cleanup_leases, cleanup_orphans,
  orphan_reap_threshold,
}
use opentelemetry_kinesis_st.Receiver.Discovery.Frame.{
  cleanup_lease-Frame, cleanup_orphans_cases, Result-cases,
}

-- The rows of the lease table as somebody sees them in the world, of which a Delete touches none
-- but its own.
pub record IsTable {W : Type 0} (env : Env W) (row : W → Str → Option Lease) : Type 0 where
  pub on_delete : (j k : Str) (n : ℕ) (w : W) → j ≢ k → row (env.delete j n w).1 k ≡ row w k

-- The leases of a shard in a snapshot.
abbrev leases_of : Str → List Lease → List Lease
leases_of k leases = keep (λ l. str_eq l.shard_id k) leases

-- Why a pass must leave a shard's row alone: it is listed, it is polled here, the snapshot has no
-- row of it at its end, or it has been missing for fewer passes than the threshold.
pub data IsProtected {W : Type 0} (k : Str) (leases : List Lease) (c : Coordinator W) : Type 0 where
  listed_shard : GoMap.get_or c.live_shards k false ≡ true → IsProtected k leases c
  polled_here : (h : ℕ) → GoMap.get c.active k ≡ some h → IsProtected k leases c
  still_open :
      any (λ l. str_eq l.checkpoint checkpoint_shard_end) (leases_of k leases) ≡ false
      → IsProtected k leases c
  young_orphan :
      GoMap.get_or c.absent k 0 + length (leases_of k leases) < orphan_reap_threshold
      → IsProtected k leases c

module _ {W : Type 0} (env : Env W) (row : W → Str → Option Lease) (table : IsTable env row)
    (k : Str) where
  reap-row :
      (l : Lease) (c : Coordinator W)
      → l.shard_id ≢ k
      → (row (reap env l c).world k ≡ row c.world k)
        × (GoMap.get_or (reap env l c).absent k 0 ≡ GoMap.get_or c.absent k 0)
        × ((reap env l c).live_shards ≡ c.live_shards)
  unfolding reap
  reap-row l c ne =
      let kept = table.on_delete l.shard_id k l.counter c.world ne in
      elim (Result-cases (env.delete l.shard_id l.counter c.world).0) [
        | inl (e, f) ↦ rw (f, reap) (kept, refl, refl)
        | inr (u, f) ↦
            rw (f, reap)
              (
                kept,
                ground (arith, get_or-delete c.absent l.shard_id k 0, str_eq_iff l.shard_id k),
                refl,
              )
      ]

  cleanup_absent-row :
      (l : Lease) (c : Coordinator W)
      → l.shard_id ≢ k
      → (row (cleanup_absent env l c).world k ≡ row c.world k)
        × (GoMap.get_or (cleanup_absent env l c).absent k 0 ≡ GoMap.get_or c.absent k 0)
        × ((cleanup_absent env l c).live_shards ≡ c.live_shards)
  unfolding cleanup_absent
  cleanup_absent-row l c ne = elim (Option-cases (GoMap.get c.active l.shard_id)) [
    | inr (h, e) ↦ rw (e, cleanup_absent) (refl, refl, refl)
    | inl e ↦ rw (e, cleanup_absent) (ground (arith, reap-row l c ne))
  ]

  cleanup_lease-other :
      (l : Lease) (c : Coordinator W)
      → l.shard_id ≢ k
      → (row (cleanup_lease env l c).world k ≡ row c.world k)
        × (GoMap.get_or (cleanup_lease env l c).absent k 0 ≡ GoMap.get_or c.absent k 0)
        × ((cleanup_lease env l c).live_shards ≡ c.live_shards)
  unfolding cleanup_lease
  cleanup_lease-other l c ne =
      let n = GoMap.get_or c.absent l.shard_id 0 + 1 in
      let counted = record c { absent = GoMap.put c.absent l.shard_id n } in
      let r = cleanup_absent-row l counted ne in
      ground (
        arith,
        r,
        get_or-delete c.absent l.shard_id k 0,
        get_or-put c.absent l.shard_id k n 0,
        str_eq_iff l.shard_id k,
      )

module _ {W : Type 0} (env : Env W) where
  cleanup_absent_kept :
      (l : Lease) (c : Coordinator W)
      → (GoMap.get c.active l.shard_id ≢ none)
        ⊎ (GoMap.get_or c.absent l.shard_id 0 < orphan_reap_threshold)
      → cleanup_absent env l c ≡ c
  unfolding cleanup_absent
  cleanup_absent_kept l c h = elim (Option-cases (GoMap.get c.active l.shard_id)) [
    | inr (g, e) ↦ rw (e, cleanup_absent) refl
    | inl e ↦ rw (e, cleanup_absent) (ground arith)
  ]

  own_young :
      (l : Lease) (ls : List Lease) (c : Coordinator W)
      → GoMap.get_or c.absent l.shard_id 0 + length (leases_of l.shard_id (l ∷ ls))
        < orphan_reap_threshold
      → ((cleanup_lease env l c).world ≡ c.world)
        × (GoMap.get_or (cleanup_lease env l c).absent l.shard_id 0
              + length (leases_of l.shard_id ls)
            < orphan_reap_threshold)
  unfolding cleanup_lease keep
  own_young l ls c h =
      let n = GoMap.get_or c.absent l.shard_id 0 + 1 in
      let counted = record c { absent = GoMap.put c.absent l.shard_id n } in
      let known = str_eq_refl l.shard_id in
      let put = get_or-put c.absent l.shard_id l.shard_id n 0 in
      let gone = get_or-delete c.absent l.shard_id l.shard_id 0 in
      elim (Bool-cases (GoMap.get_or c.live_shards l.shard_id false)) [
        | inl e ↦ rw (e, cleanup_lease) (refl, ground arith)
        | inr e ↦ elim (Bool-cases (str_eq l.checkpoint checkpoint_shard_end)) [
          | inr f ↦ rw (e, f, cleanup_lease) (refl, ground arith)
          | inl f ↦
              rw (e, f, cleanup_lease, cleanup_absent_kept l counted (inr (ground arith)))
                (refl, ground arith)
        ]
      ]

  own_open :
      (l : Lease) (ls : List Lease) (c : Coordinator W)
      → any (λ x. str_eq x.checkpoint checkpoint_shard_end) (leases_of l.shard_id (l ∷ ls)) ≡ false
      → ((cleanup_lease env l c).world ≡ c.world)
        × (any (λ x. str_eq x.checkpoint checkpoint_shard_end) (leases_of l.shard_id ls) ≡ false)
  unfolding cleanup_lease keep any
  own_open l ls c h = ground (arith, str_eq_refl l.shard_id)

  own_polled :
      (l : Lease) (c : Coordinator W) (h : ℕ)
      → GoMap.get c.active l.shard_id ≡ some h
      → (cleanup_lease env l c).world ≡ c.world
  unfolding cleanup_lease
  own_polled l c h e =
      let n = GoMap.get_or c.absent l.shard_id 0 + 1 in
      let counted = record c { absent = GoMap.put c.absent l.shard_id n } in
      ground (arith, cleanup_absent_kept l counted (inl (λ g. cc)))

  -- A lease of a protected shard: its row is not touched, and the shard stays protected.
  cleanup_lease-same :
      (l : Lease) (ls : List Lease) (c : Coordinator W)
      → IsProtected l.shard_id (l ∷ ls) c
      → ((cleanup_lease env l c).world ≡ c.world)
        × IsProtected l.shard_id ls (cleanup_lease env l c)
  unfolding cleanup_lease
  cleanup_lease-same l ls c (listed_shard e) = rw (e, cleanup_lease) (refl, listed_shard e)
  cleanup_lease-same l ls c (polled_here h e) = (
    own_polled l c h e,
    polled_here h (ap (λ m. GoMap.get m l.shard_id) (cleanup_lease-Frame env l c).same_active ∙ e),
  )
  cleanup_lease-same l ls c (still_open e) = let r = own_open l ls c e in (r.0, still_open r.1)
  cleanup_lease-same l ls c (young_orphan e) = let r = own_young l ls c e in (r.0, young_orphan r.1)

module _ {W : Type 0} (env : Env W) (row : W → Str → Option Lease) (table : IsTable env row)
    (k : Str) where
  cleanup_lease-else :
      (l : Lease) (ls : List Lease) (c : Coordinator W)
      → l.shard_id ≢ k
      → IsProtected k (l ∷ ls) c
      → IsProtected k ls (cleanup_lease env l c)
  unfolding keep
  cleanup_lease-else l ls c ne (listed_shard e) =
      listed_shard
        (ap (λ m. GoMap.get_or m k false) (cleanup_lease-other env row table k l c ne).2 ∙ e)
  cleanup_lease-else l ls c ne (polled_here h e) =
      polled_here h (ap (λ m. GoMap.get m k) (cleanup_lease-Frame env l c).same_active ∙ e)
  cleanup_lease-else l ls c ne (still_open e) = still_open (ground (arith, str_eq_iff l.shard_id k))
  cleanup_lease-else l ls c ne (young_orphan e) =
      young_orphan
        (ground (arith, str_eq_iff l.shard_id k, cleanup_lease-other env row table k l c ne))

  cleanup_lease-row :
      (l : Lease) (ls : List Lease) (c : Coordinator W)
      → IsProtected k (l ∷ ls) c
      → (row (cleanup_lease env l c).world k ≡ row c.world k)
        × IsProtected k ls (cleanup_lease env l c)
  cleanup_lease-row l ls c p = elim (Bool-cases (str_eq l.shard_id k)) [
    | inl e ↦
        let same : l.shard_id ≡ k = (str_eq_iff l.shard_id k).0 e in
        let r =
          cleanup_lease-same env l ls c (subst (λ j. IsProtected j (l ∷ ls) c) (sym same) p) in
        (ap (λ w. row w k) r.0, subst (λ j. IsProtected j ls (cleanup_lease env l c)) same r.1)
    | inr e ↦
        let ne : l.shard_id ≢ k = λ f. cc ((str_eq_iff l.shard_id k).1 f) in
        ((cleanup_lease-other env row table k l c ne).0, cleanup_lease-else l ls c ne p)
  ]

  cleanup_leases-row :
      (ls : List Lease) (c : Coordinator W)
      → IsProtected k ls c
      → row (cleanup_leases env ls c).world k ≡ row c.world k
  unfolding cleanup_leases
  cleanup_leases-row [] c p = refl
  cleanup_leases-row (l ∷ ls) c p =
      let r = cleanup_lease-row l ls c p in cleanup_leases-row ls (cleanup_lease env l c) r.1 ∙ r.0

  -- In a lease table of which a Delete touches only the row that it names, cleanupOrphans leaves
  -- the row of a shard as it is if the shard is listed, or is polled here, or the snapshot has no
  -- row of it at SHARD_END, or it has been missing for fewer than three passes, this one included.
  pub cleanup_orphans-row :
      (leases : List Lease) (c : Coordinator W)
      → IsProtected k leases c
      → row (cleanup_orphans env leases c).world k ≡ row c.world k
  cleanup_orphans-row leases c p = elim (cleanup_orphans_cases env leases c) [
    | inl e ↦ rw e refl
    | inr e ↦ rw e (cleanup_leases-row leases c p)
  ]
