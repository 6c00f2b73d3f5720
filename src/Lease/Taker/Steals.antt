-- ===== src/Lease/Taker/Steals.antt =====
-- internal/lease/taker.go: pickStealTarget, the one shard that Plan takes from an overloaded peer.
use mathlib.Core.List.{Memᴰ}
use mathlib.Core.List.Memᴰ
use opentelemetry_kinesis_st.Base.{
  ℕ, ◌+◌, ◌<◌, ◌≡◌, ◌≢◌, refl, sym, ◌∙◌, true, ◌⊎◌, inl, inr, List, [], ◌∷◌, Str, ◌&&◌, str_eq,
  str_eq_iff, arith, length, ltb, Bool-cases, keep, of_mem_keep,
}
use opentelemetry_kinesis_st.Base.GoMap
use opentelemetry_kinesis_st.Base.GoMap.{GoMap, get_or-put, get_or-nil}
use opentelemetry_kinesis_st.Base.Sort.{sort, length-sort, of_mem_sort}
use opentelemetry_kinesis_st.Lease.{Lease, checkpoint_shard_end}
use opentelemetry_kinesis_st.Lease.Taker.{
  PlanInput, flag, active_shards, is_peer_held, count_owners, pick_best, first_or_empty,
  steal_candidates, pick_steal_target, plan_target, plan,
}
use opentelemetry_kinesis_st.Lease.Taker.Share.{mine}
use opentelemetry_kinesis_st.Lease.Taker.Claims.{mem_active}

-- The leases that `o`, a peer that heartbeats, holds.
abbrev held_by : PlanInput → Str → List Lease → List Lease
held_by inp o = keep (λ l. is_peer_held inp l && str_eq l.owner o)

-- The counting loop counts what each peer holds.
count_owners-length :
    (inp : PlanInput) (o : Str) (counts : GoMap ℕ) (ls : List Lease)
    → GoMap.get_or (count_owners inp counts ls) o 0
      ≡ GoMap.get_or counts o 0 + length (held_by inp o ls)
unfolding count_owners keep
count_owners-length inp o counts [] = omega arith
count_owners-length inp o counts (l ∷ ls) = ground (
  arith,
  count_owners-length inp o counts ls,
  count_owners-length inp o (GoMap.put counts l.owner (GoMap.get_or counts l.owner 0 + 1)) ls,
  get_or-put counts l.owner o (GoMap.get_or counts l.owner 0 + 1) 0,
  str_eq_iff l.owner o,
)

-- The best owner so far holds `best.1`, more than the target; or there is none yet.
abbrev IsBest : GoMap ℕ → ℕ → Str × ℕ → Type 0
IsBest counts target best =
    ((best.0 ≡ []) × (best.1 ≡ target))
    ⊎ ((GoMap.get_or counts best.0 0 ≡ best.1) × (target < best.1))

pick_best-IsBest :
    (counts : GoMap ℕ) (target : ℕ) (best : Str × ℕ) (os : List Str)
    → IsBest counts target best
    → IsBest counts target (pick_best counts best os)
unfolding pick_best
pick_best-IsBest counts target best [] h = h
pick_best-IsBest counts target (o, n) (x ∷ xs) h =
    elim (Bool-cases (ltb n (GoMap.get_or counts x 0))) [
      | inl more ↦ rw more (
          pick_best-IsBest counts target (x, GoMap.get_or counts x 0) xs
            (inr (refl, ground (arith, h))))
      | inr less ↦ rw less (pick_best-IsBest counts target (o, n) xs h)
    ]

-- A shard that may be stolen: a peer that heartbeats holds it, its parents are drained, and the
-- peer holds more than the target.
pub record IsSurplus (inp : PlanInput) (target : ℕ) (l : Lease) : Type 0 where
  pub listed : Memᴰ l inp.leases
  pub open_shard : l.checkpoint ≢ checkpoint_shard_end
  pub parents_drained : flag inp.drained l.shard_id ≡ true
  pub heartbeats : flag inp.fresh l.shard_id ≡ true
  pub not_self : l.owner ≢ inp.self
  pub overloaded : target < length (held_by inp l.owner (active_shards inp.leases))

held_by-pos :
    (inp : PlanInput) (o : Str) (ls : List Lease) → 0 < length (held_by inp o ls) → o ≢ inp.self
unfolding keep is_peer_held
held_by-pos inp o [] h = absurd (omega arith)
held_by-pos inp o (l ∷ ls) h =
    ground (arith, held_by-pos inp o ls, str_eq_iff l.owner o, str_eq_iff l.owner inp.self)

first_or_empty-mem : (xs : List Str) → first_or_empty xs ≢ [] → Memᴰ (first_or_empty xs) xs
unfolding first_or_empty
first_or_empty-mem [] h = absurd (h refl)
first_or_empty-mem (x ∷ xs) h = Memᴰ.head refl

candidate-IsSurplus :
    (inp : PlanInput) (target : ℕ) (o a : Str)
    → target < length (held_by inp o (active_shards inp.leases))
    → Memᴰ a (steal_candidates (active_shards inp.leases) inp o)
    → (l : Lease) × IsSurplus inp target l × (a ≡ l.shard_id)
unfolding steal_candidates
candidate-IsSurplus inp target o a over m =
    let (l, k, e) = Memᴰ.of_map (λ (l : Lease). l.shard_id) _ m in
    let (active, test) = of_mem_keep _ l (active_shards inp.leases) k in
    let (listed, open_shard) = mem_active inp l active in
    let owner : l.owner ≡ o = ground (arith, test, str_eq_iff l.owner o) in
    (
      l,
      record {
        listed = listed;
        open_shard = open_shard;
        parents_drained = ground (arith, test);
        heartbeats = ground (arith, test);
        not_self = rw owner (held_by-pos inp o (active_shards inp.leases) (omega arith));
        overloaded = rw owner over;
      },
      sym e,
    )

best-overloaded :
    (inp : PlanInput) (target : ℕ) (best : Str × ℕ)
    → IsBest (count_owners inp [] (active_shards inp.leases)) target best
    → best.0 ≢ []
    → target < length (held_by inp best.0 (active_shards inp.leases))
best-overloaded inp target best (inl (e, _)) ne = absurd (ne e)
best-overloaded inp target best (inr (e, over)) ne = omega (
  arith,
  count_owners-length inp best.0 [] (active_shards inp.leases),
  get_or-nil {V = ℕ} best.0 0,
)

pick_steal_target-IsSurplus :
    (inp : PlanInput) (target : ℕ)
    → pick_steal_target (active_shards inp.leases) inp target ≢ []
    → (l : Lease) × IsSurplus inp target l
      × (pick_steal_target (active_shards inp.leases) inp target ≡ l.shard_id)
unfolding pick_steal_target
pick_steal_target-IsSurplus inp target h =
    let active = active_shards inp.leases in
    let counts = count_owners inp [] active in
    let best = pick_best counts ([], target) (sort (GoMap.keys counts)) in
    elim (Bool-cases (str_eq best.0 [])) [
      | inl nobody ↦ absurd (h (rw nobody))
      | inr found ↦
          let over =
            best-overloaded inp target best
              (pick_best-IsBest counts target ([], target) (sort (GoMap.keys counts))
                (inl (refl, refl)))
              (λ e. ground (arith, str_eq_iff best.0 [])) in
          let picked = sort (steal_candidates active inp best.0) in
          let ne : first_or_empty picked ≢ [] = λ e. h (rw found e) in
          rw found (
            candidate-IsSurplus inp target best.0 (first_or_empty picked) over
              (of_mem_sort _ _ (first_or_empty-mem picked ne)))
    ]

steal-plan :
    (inp : PlanInput)
    → (plan inp).steal ≢ []
    → (length (plan inp).acquire + length (mine inp) < plan_target inp)
      × ((plan inp).steal ≡ pick_steal_target (active_shards inp.leases) inp (plan_target inp))
unfolding plan
steal-plan inp h = ground (arith, length-sort (mine inp))

-- A shard is stolen only when what is free leaves the worker below its share; the stolen shard is
-- open and has its parents drained, and is held by another worker that heartbeats and holds more
-- than the share.
pub plan-steal :
    (inp : PlanInput)
    → (plan inp).steal ≢ []
    → (length (plan inp).acquire + length (mine inp) < plan_target inp)
      × ((l : Lease) × IsSurplus inp (plan_target inp) l × ((plan inp).steal ≡ l.shard_id))
plan-steal inp h =
    let (short, e) = steal-plan inp h in
    (short, rw e (pick_steal_target-IsSurplus inp (plan_target inp) (λ k. h (e ∙ k))))
