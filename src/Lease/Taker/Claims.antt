-- ===== src/Lease/Taker/Claims.antt =====
-- internal/lease/taker.go: the shards that Plan acquires.
use mathlib.Core.List.{Memᴰ}
use mathlib.Core.List.Memᴰ
use opentelemetry_kinesis_st.Base.{
  ℕ, ◌+◌, ◌-◌, ◌≤◌, ◌<◌, ◌≡◌, ◌≢◌, refl, ap, true, false, ◌⊎◌, inl, inr, List, [], ◌∷◌, ◌++◌, Str,
  str_eq_iff, arith, length, leb, ltb, Bool-cases, ltb→lt, ltb, of_mem_keep, mem_keep,
  length-append, if◌then◌else◌,
}
use opentelemetry_kinesis_st.Base.Sort.{sort, length-sort, of_mem_sort, mem_sort}
use opentelemetry_kinesis_st.Lease.{Lease, checkpoint_shard_end}
use opentelemetry_kinesis_st.Lease.Taker.{
  PlanInput, flag, active_shards, is_claimable, claim, plan_target, plan, plan_acquire,
}
use opentelemetry_kinesis_st.Lease.Taker.Share.{mine}

-- A shard that this worker may take: not drained, its parents drained, not polled here, and held
-- by nobody who still heartbeats.
pub record IsFree (inp : PlanInput) (l : Lease) : Type 0 where
  pub listed : Memᴰ l inp.leases
  pub open_shard : l.checkpoint ≢ checkpoint_shard_end
  pub not_polled : flag inp.owned l.shard_id ≡ false
  pub parents_drained : flag inp.drained l.shard_id ≡ true
  pub unheld : (l.owner ≡ []) ⊎ (l.owner ≡ inp.self) ⊎ (flag inp.fresh l.shard_id ≡ false)

of_is_claimable :
    (inp : PlanInput) (l : Lease)
    → is_claimable inp l ≡ true
    → (flag inp.owned l.shard_id ≡ false)
      × (flag inp.drained l.shard_id ≡ true)
      × ((l.owner ≡ []) ⊎ (l.owner ≡ inp.self) ⊎ (flag inp.fresh l.shard_id ≡ false))
unfolding is_claimable
of_is_claimable inp l h = ground (arith, str_eq_iff l.owner [], str_eq_iff l.owner inp.self)

of_IsFree : (inp : PlanInput) (l : Lease) → IsFree inp l → is_claimable inp l ≡ true
unfolding is_claimable
of_IsFree inp l f = ground (arith, str_eq_iff l.owner [], str_eq_iff l.owner inp.self)

pub mem_active :
    (inp : PlanInput) (l : Lease)
    → Memᴰ l (active_shards inp.leases)
    → Memᴰ l inp.leases × (l.checkpoint ≢ checkpoint_shard_end)
unfolding active_shards
mem_active inp l m =
    let r = of_mem_keep _ l inp.leases m in
    (r.0, λ e. ground (arith, r.1, str_eq_iff l.checkpoint checkpoint_shard_end))

active_mem :
    (inp : PlanInput) (l : Lease)
    → Memᴰ l inp.leases
    → l.checkpoint ≢ checkpoint_shard_end
    → Memᴰ l (active_shards inp.leases)
unfolding active_shards
active_mem inp l m ne =
    mem_keep _ l inp.leases m (ground (arith, str_eq_iff l.checkpoint checkpoint_shard_end))

module _ (inp : PlanInput) (want : ℕ) where
  length-claim-le :
      (acc : List Str) (ls : List Lease) → length acc ≤ want → length (claim inp want acc ls) ≤ want
  unfolding claim
  length-claim-le acc [] h = h
  length-claim-le acc (l ∷ ls) h = ground (
    arith,
    length-append acc (l.shard_id ∷ []),
    length-claim-le acc ls,
    length-claim-le (acc ++ l.shard_id ∷ []) ls,
  )

  mem-claim_acc :
      (a : Str) (acc : List Str) (ls : List Lease) → Memᴰ a acc → Memᴰ a (claim inp want acc ls)
  unfolding claim
  mem-claim_acc a acc [] m = m
  mem-claim_acc a acc (l ∷ ls) m = ground (
    arith,
    mem-claim_acc a acc ls m,
    mem-claim_acc a (acc ++ l.shard_id ∷ []) ls (Memᴰ.append_left (l.shard_id ∷ []) m),
    m,
  )

  abbrev From : Str → List Str → List Lease → Type 0
  From a acc ls =
      Memᴰ a acc ⊎ ((l : Lease) × Memᴰ l ls × (is_claimable inp l ≡ true) × (a ≡ l.shard_id))

  From-cons :
      (a : Str) (acc : List Str) (l : Lease) (ls : List Lease) → From a acc ls → From a acc (l ∷ ls)
  From-cons a acc l ls (inl m) = inl m
  From-cons a acc l ls (inr (x, m, c, e)) = inr (x, Memᴰ.tail m, c, e)

  From-claimed :
      (a : Str) (acc : List Str) (l : Lease) (ls : List Lease)
      → is_claimable inp l ≡ true
      → From a (acc ++ l.shard_id ∷ []) ls
      → From a acc (l ∷ ls)
  From-claimed a acc l ls c (inl m) = elim (Memᴰ.append_cases acc m) [
    | inl k ↦ inl k
    | inr k ↦ inr (l, Memᴰ.head refl, c, Memᴰ.eq_of_singleton k)
  ]
  From-claimed a acc l ls c (inr (x, m, d, e)) = inr (x, Memᴰ.tail m, d, e)

  of_mem_claim :
      (a : Str) (acc : List Str) (ls : List Lease) → Memᴰ a (claim inp want acc ls) → From a acc ls
  unfolding claim
  of_mem_claim a acc [] m = inl m
  of_mem_claim a acc (l ∷ ls) m = elim (Bool-cases (leb want (length acc))) [
    | inl full ↦ inl (rw full at m)
    | inr more ↦ elim (Bool-cases (is_claimable inp l)) [
      | inl c ↦ From-claimed a acc l ls c (of_mem_claim a _ ls (rw (more, c) at m))
      | inr n ↦ From-cons a acc l ls (of_mem_claim a acc ls (rw (more, n) at m))
    ]
  ]

  -- A loop that did not fill up left no claimable lease behind.
  mem-claim_short :
      (l : Lease) (acc : List Str) (ls : List Lease)
      → length (claim inp want acc ls) < want
      → Memᴰ l ls
      → is_claimable inp l ≡ true
      → Memᴰ l.shard_id (claim inp want acc ls)
  unfolding claim
  mem-claim_short l acc [] h m c = absurd (Memᴰ.not-nil m)
  mem-claim_short l acc (x ∷ xs) h (Memᴰ.head e) c = elim (Bool-cases (leb want (length acc))) [
    | inl full ↦ absurd (ground (arith, rw full at h))
    | inr more ↦
        rw (← e, more, c)
          (mem-claim_acc l.shard_id (acc ++ l.shard_id ∷ []) xs
            (Memᴰ.append_right acc (Memᴰ.head refl)))
  ]
  mem-claim_short l acc (x ∷ xs) h (Memᴰ.tail t) c = elim (Bool-cases (leb want (length acc))) [
    | inl full ↦ absurd (ground (arith, rw full at h))
    | inr more ↦ rw more (
        mem-claim_short l (if is_claimable inp x then acc ++ x.shard_id ∷ [] else acc) xs
          (rw more at h) t c)
  ]

free :
    (inp : PlanInput) (want : ℕ) (a : Str)
    → From inp want a [] (active_shards inp.leases)
    → (l : Lease) × IsFree inp l × (a ≡ l.shard_id)
free inp want a (inl m) = absurd (Memᴰ.not-nil m)
free inp want a (inr (l, m, c, e)) =
    let d = of_is_claimable inp l c in
    let k = mem_active inp l m in
    (
      l,
      record {
        listed = k.0;
        open_shard = k.1;
        not_polled = d.0;
        parents_drained = d.1;
        unheld = d.2;
      },
      e,
    )

acquire-plan_acquire :
    (inp : PlanInput) (t want : ℕ)
    → (plan_acquire inp t want).acquire ≡ sort (claim inp want [] (active_shards inp.leases))
unfolding plan_acquire
acquire-plan_acquire inp t want = ground arith

-- What Plan acquires: nothing at or over the share, else the loop's claims in order.
acquire-plan :
    (inp : PlanInput)
    → (((plan inp).acquire ≡ []) × (plan_target inp ≤ length (mine inp)))
      ⊎ (((plan inp).acquire
            ≡ sort (claim inp (plan_target inp - length (mine inp)) [] (active_shards inp.leases)))
          × (length (mine inp) < plan_target inp))
unfolding plan
acquire-plan inp =
    let size = length-sort (mine inp) in
    let want = plan_target inp - length (sort (mine inp)) in
    rw (← size) (ground (arith, acquire-plan_acquire inp (plan_target inp) want))

module _ (inp : PlanInput) where
  want : ℕ
  want = plan_target inp - length (mine inp)

  claims : List Str
  claims = claim inp want [] (active_shards inp.leases)

  acquire_fits :
      length (mine inp) ≤ plan_target inp
      → length (plan inp).acquire + length (mine inp) ≤ plan_target inp
  unfolding want claims
  acquire_fits h = elim (acquire-plan inp) [
    | inl (e, k) ↦ rw e (omega arith)
    | inr (e, k) ↦ rw e (
        omega (
          arith,
          length-sort claims,
          length-claim-le inp want [] (active_shards inp.leases) (omega arith),
        ))
  ]

  acquire-IsFree :
      (a : Str) → Memᴰ a (plan inp).acquire → (l : Lease) × IsFree inp l × (a ≡ l.shard_id)
  unfolding want claims
  acquire-IsFree a m = elim (acquire-plan inp) [
    | inl (e, k) ↦ absurd (Memᴰ.not-nil (rw e at m))
    | inr (e, k) ↦
        free inp want a
          (of_mem_claim inp want a [] (active_shards inp.leases) (of_mem_sort a claims (rw e at m)))
  ]

  acquire_all :
      length (plan inp).acquire + length (mine inp) < plan_target inp
      → (l : Lease) → IsFree inp l
      → Memᴰ l.shard_id (plan inp).acquire
  unfolding want claims
  acquire_all h l f = elim (acquire-plan inp) [
    | inl (e, k) ↦ absurd (omega arith)
    | inr (e, k) ↦
        let short : length claims < want = omega (arith, length-sort claims, ap length e) in
        rw e (
          mem_sort l.shard_id claims (
            mem-claim_short inp want l [] (active_shards inp.leases) short
              (active_mem inp l f.listed f.open_shard) (of_IsFree inp l f)))
  ]

  acquire_some :
      (length (plan inp).acquire + length (mine inp) ≤ plan_target inp) ⊎ ((plan inp).acquire ≡ [])
  acquire_some = elim (acquire-plan inp) [
    | inl (e, k) ↦ inr e
    | inr (e, k) ↦ inl (acquire_fits (omega arith))
  ]

  acquire_whole :
      (l : Lease)
      → IsFree inp l
      → (Memᴰ l.shard_id (plan inp).acquire)
        ⊎ (plan_target inp ≤ length (plan inp).acquire + length (mine inp))
  acquire_whole l f =
      elim (Bool-cases (ltb (length (plan inp).acquire + length (mine inp)) (plan_target inp))) [
        | inl e ↦ inl (acquire_all (ltb→lt _ _ e) l f)
        | inr e ↦ inr (ground arith)
      ]

-- Acquiring never takes the worker above its fair share, every shard that it takes is free, and it
-- takes every free shard there is unless it reaches its share.
pub plan-acquire :
    (inp : PlanInput)
    → ((length (plan inp).acquire + length (mine inp) ≤ plan_target inp)
        ⊎ ((plan inp).acquire ≡ []))
      × ((a : Str) → Memᴰ a (plan inp).acquire → (l : Lease) × IsFree inp l × (a ≡ l.shard_id))
      × ((l : Lease)
          → IsFree inp l
          → (Memᴰ l.shard_id (plan inp).acquire)
            ⊎ (plan_target inp ≤ length (plan inp).acquire + length (mine inp)))
plan-acquire inp = (acquire_some inp, acquire-IsFree inp, acquire_whole inp)
