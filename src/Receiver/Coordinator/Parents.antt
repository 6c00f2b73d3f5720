-- ===== src/Receiver/Coordinator/Parents.antt =====
-- receiver/awskinesisreceiver/coordinator.go and shard_discovery.go: a shard is taken only after its
-- parents are at their end.
use mathlib.Core.List.{Memᴰ}
use mathlib.Core.List.Memᴰ
use opentelemetry_kinesis_st.Base.{
  ℕ, ◌≡◌, ◌≢◌, refl, sym, ap, ◌∙◌, Bool, true, ◌⊎◌, inl, inr, List, [], ◌∷◌, none, some, Str,
  str_eq, str_eq_iff, str_eq_refl, arith, Bool-cases, Option-cases,
}
use opentelemetry_kinesis_st.Base.GoMap
use opentelemetry_kinesis_st.Base.GoMap.{GoMap, get-put}
use opentelemetry_kinesis_st.Lease.{Lease, checkpoint_shard_end}
use opentelemetry_kinesis_st.Lease.Taker.{flag, plan}
use opentelemetry_kinesis_st.Lease.Taker.Claims.{plan-acquire}
use opentelemetry_kinesis_st.Lease.Taker.Steals.{plan-steal}
use opentelemetry_kinesis_st.Receiver.Discovery.{
  Env, Coordinator, index_checkpoints, all_drained, parents_drained,
}
use opentelemetry_kinesis_st.Receiver.Coordinator.{drained_flags, plan_input}

-- A map filled by a loop over the leases, by shard id.
fill : {V : Type 0} → (Lease → V) → GoMap V → List Lease → GoMap V
fill f m [] = m
fill f m (l ∷ ls) = fill f (GoMap.put m l.shard_id (f l)) ls

get-fill :
    {V : Type 0} (f : Lease → V) (m : GoMap V) (ls : List Lease) (k : Str) (v : V)
    → GoMap.get (fill f m ls) k ≡ some v
    → (GoMap.get m k ≡ some v) ⊎ ((l : Lease) × Memᴰ l ls × (l.shard_id ≡ k) × (f l ≡ v))
unfolding fill
get-fill f m [] k v e = inl e
get-fill f m (l ∷ ls) k v e = elim (get-fill f (GoMap.put m l.shard_id (f l)) ls k v e) [
  | inr (x, i, p, q) ↦ inr (x, Memᴰ.tail i, p, q)
  | inl g ↦ elim (Bool-cases (str_eq l.shard_id k)) [
    | inl b ↦ inr (
      l,
      Memᴰ.head refl,
      (str_eq_iff l.shard_id k).0 b,
      ground (arith, get-put m l.shard_id k (f l)),
    )
    | inr b ↦ inl (ground (arith, get-put m l.shard_id k (f l)))
  ]
]

kept-fill :
    {V : Type 0} (f : Lease → V) (m : GoMap V) (ls : List Lease) (k : Str)
    → GoMap.get m k ≢ none
    → GoMap.get (fill f m ls) k ≢ none
unfolding fill
kept-fill f m [] k h = h
kept-fill f m (l ∷ ls) k h =
    kept-fill f (GoMap.put m l.shard_id (f l)) ls k
      (λ e. ground (arith, get-put m l.shard_id k (f l)))

mem-fill :
    {V : Type 0} (f : Lease → V) (m : GoMap V) (ls : List Lease) (l : Lease)
    → Memᴰ l ls
    → GoMap.get (fill f m ls) l.shard_id ≢ none
unfolding fill
mem-fill f m [] l i = absurd (Memᴰ.not-nil i)
mem-fill f m (x ∷ ls) l (Memᴰ.head e) =
    kept-fill f (GoMap.put m x.shard_id (f x)) ls l.shard_id
      (λ g. ground (arith, get-put m x.shard_id l.shard_id (f x), str_eq_refl l.shard_id, e))
mem-fill f m (x ∷ ls) l (Memᴰ.tail i) = mem-fill f (GoMap.put m x.shard_id (f x)) ls l i

-- A snapshot has one row for each shard.
abbrev pub IsKeyed : List Lease → Type 0
IsKeyed leases = (p q : Lease) → Memᴰ p leases → Memᴰ q leases → p.shard_id ≡ q.shard_id → p ≡ q

filled :
    {V : Type 0} (f : Lease → V) (ls : List Lease) (l : Lease)
    → IsKeyed ls
    → Memᴰ l ls
    → GoMap.get (fill f [] ls) l.shard_id ≡ some (f l)
unfolding GoMap.get
filled f ls l keyed i = elim (Option-cases (GoMap.get (fill f [] ls) l.shard_id)) [
  | inl e ↦ absurd (mem-fill f [] ls l i e)
  | inr (v, e) ↦ elim (get-fill f [] ls l.shard_id v e) [
    | inl g ↦ absurd (cc)
    | inr (x, j, p, q) ↦ e ∙ ap (λ u. some u) (sym q ∙ ap f (keyed x l j i p))
  ]
]

index_checkpoints-fill :
    (m : GoMap Str) (ls : List Lease) → index_checkpoints m ls ≡ fill (λ l. l.checkpoint) m ls
unfolding index_checkpoints fill
index_checkpoints-fill m [] = refl
index_checkpoints-fill m (l ∷ ls) = index_checkpoints-fill (GoMap.put m l.shard_id l.checkpoint) ls

drained_flags-fill :
    (cps : GoMap Str) (m : GoMap Bool) (ls : List Lease)
    → drained_flags cps m ls ≡ fill (λ l. parents_drained l cps) m ls
unfolding drained_flags fill
drained_flags-fill cps m [] = refl
drained_flags-fill cps m (l ∷ ls) =
    drained_flags-fill cps (GoMap.put m l.shard_id (parents_drained l cps)) ls

-- Every parent that has a row is at its end.
all_drained-end :
    (cps : GoMap Str) (pids : List Str) (k cp : Str)
    → all_drained cps pids ≡ true
    → Memᴰ k pids
    → GoMap.get cps k ≡ some cp
    → cp ≡ checkpoint_shard_end
unfolding all_drained
all_drained-end cps [] k cp h i g = absurd (Memᴰ.not-nil i)
all_drained-end cps (pid ∷ pids) k cp h (Memᴰ.head e) g =
    let f : GoMap.get cps pid ≡ some cp = ap (λ x. GoMap.get cps x) (sym e) ∙ g in
    ground (arith, rw (f, all_drained) at h, str_eq_iff cp checkpoint_shard_end)
all_drained-end cps (pid ∷ pids) k cp h (Memᴰ.tail i) g =
    all_drained-end cps pids k cp (ground arith) i g

-- The parents of a shard that have a row are all at their end.
abbrev pub ParentsEnded : List Lease → Lease → Type 0
ParentsEnded leases l =
    (p : Lease) → Memᴰ p leases → Memᴰ p.shard_id l.parent_ids → p.checkpoint ≡ checkpoint_shard_end

drained_flag-ParentsEnded :
    {W : Type 0} (env : Env W) (leases : List Lease) (now : ℕ) (c : Coordinator W) (l : Lease)
    → IsKeyed leases
    → Memᴰ l leases
    → flag (plan_input env leases now c).drained l.shard_id ≡ true
    → ParentsEnded leases l
unfolding plan_input GoMap.get_or parents_drained
drained_flag-ParentsEnded env leases now c l keyed i h p j m =
    let cps = index_checkpoints [] leases in
    let flagged : GoMap.get (drained_flags cps [] leases) l.shard_id
        ≡ some (parents_drained l cps) =
      rw drained_flags-fill (filled (λ x. parents_drained x cps) leases l keyed i) in
    let row : GoMap.get cps p.shard_id ≡ some p.checkpoint =
      rw index_checkpoints-fill (filled (λ x. x.checkpoint) leases p keyed j) in
    all_drained-end cps l.parent_ids p.shard_id p.checkpoint (ground (arith, flagged)) m row

-- When the lease table has one row for each shard, reconcile's plan acquires, and steals, only
-- shards of the snapshot whose parents, as far as they have a row, are all at SHARD_END.
pub plan_input-ParentsEnded :
    {W : Type 0} (env : Env W) (leases : List Lease) (now : ℕ) (c : Coordinator W)
    → IsKeyed leases
    → ((a : Str)
        → Memᴰ a (plan (plan_input env leases now c)).acquire
        → (l : Lease) × Memᴰ l leases × ParentsEnded leases l × (a ≡ l.shard_id))
      × (((plan (plan_input env leases now c)).steal ≡ [])
          ⊎ ((l : Lease) × Memᴰ l leases
              × ParentsEnded leases l
              × ((plan (plan_input env leases now c)).steal ≡ l.shard_id)))
unfolding plan_input
plan_input-ParentsEnded env leases now c keyed =
    let inp = plan_input env leases now c in
    (
      λ a m.
          let (l, free, e) = (plan-acquire inp).1 a m in
          (
            l,
            free.listed,
            drained_flag-ParentsEnded env leases now c l keyed free.listed free.parents_drained,
            e,
          ),
      elim (Bool-cases (str_eq (plan inp).steal [])) [
        | inl e ↦ inl ((str_eq_iff (plan inp).steal []).0 e)
        | inr e ↦
            let (l, s, q) = (plan-steal inp (λ f. cc ((str_eq_iff (plan inp).steal []).1 f))).1 in
            inr (
              l,
              s.listed,
              drained_flag-ParentsEnded env leases now c l keyed s.listed s.parents_drained,
              q,
            )
      ],
    )
