-- ===== src/Lease/Taker/Share.antt =====
-- internal/lease/taker.go: fairShareTarget, and what a worker over its share gives up.
use mathlib.Core.List.{Memᴰ}
use opentelemetry_kinesis_st.Base.{
  ℕ, zero, suc, ◌+◌, ◌-◌, ◌*◌, ◌≤◌, ◌<◌, ◌≡◌, refl, ◌⊎◌, inl, inr, List, [], ◌∷◌, Str, arith,
  length, drop, length-drop, ltb, ltb→lt, Bool-cases,
}
use opentelemetry_kinesis_st.Base.Sort.{sort, length-sort, of_mem_sort}
use opentelemetry_kinesis_st.Lease.Taker.{
  PlanInput, active_shards, owned_active, fair_share_target, plan_target, plan, plan_acquire,
}

-- The target is the ceiling of shards / workers.
pub fair_share_target_ceil :
    (shards workers : ℕ)
    → 0 < workers
    → (shards ≤ fair_share_target shards workers * workers)
      × (fair_share_target shards workers * workers < shards + workers)
unfolding fair_share_target
fair_share_target_ceil shards workers h = (ground arith, ground arith)

mem-drop : (n : ℕ) (a : Str) (xs : List Str) → Memᴰ a (drop n xs) → Memᴰ a xs
mem-drop zero a xs m = m
mem-drop (suc n) a [] m = m
mem-drop (suc n) a (x ∷ xs) m = Memᴰ.tail (mem-drop n a xs m)

-- The shards that this worker polls and that are not at their end.
abbrev pub mine : PlanInput → List Str
mine inp = owned_active (active_shards inp.leases) inp.owned

release-plan_acquire : (inp : PlanInput) (t want : ℕ) → (plan_acquire inp t want).release ≡ []
unfolding plan_acquire
release-plan_acquire inp t want = ground arith

-- A worker over its share gives up shards that it polls, keeps exactly its share, and takes
-- nothing; any other worker gives up nothing.
pub plan-release :
    (inp : PlanInput)
    → ((plan_target inp < length (mine inp))
        × (length (plan inp).release + plan_target inp ≡ length (mine inp))
        × ((a : Str) → Memᴰ a (plan inp).release → Memᴰ a (mine inp))
        × ((plan inp).acquire ≡ [])
        × ((plan inp).steal ≡ []))
      ⊎ ((length (mine inp) ≤ plan_target inp) × ((plan inp).release ≡ []))
unfolding plan
plan-release inp =
    let size = length-sort (mine inp) in
    let sorted = sort (mine inp) in
    elim (Bool-cases (ltb (plan_target inp) (length sorted))) [
      | inl over ↦
          let h : plan_target inp < length sorted = ltb→lt (plan_target inp) (length sorted) over in
          inl (
            rw over (
              omega (arith, size),
              omega (arith, size, length-drop (plan_target inp) sorted),
              λ a m. of_mem_sort a (mine inp) (mem-drop (plan_target inp) a sorted m),
              refl,
              refl,
            ))
      | inr fits ↦ inr (
        ground (arith, size),
        ground (
          arith,
          size,
          release-plan_acquire inp (plan_target inp) (plan_target inp - length sorted),
        ),
      )
    ]
