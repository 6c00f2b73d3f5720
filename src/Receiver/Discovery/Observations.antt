-- ===== src/Receiver/Discovery/Observations.antt =====
-- receiver/awskinesisreceiver/shard_discovery.go, refreshObservations: how the coordinator tells a
-- heartbeat from silence.
use mathlib.Core.List.{Memᴰ}
use mathlib.Core.List.Memᴰ
use opentelemetry_kinesis_st.Base.{
  ℕ, ◌≡◌, ◌≢◌, refl, ◌∙◌, true, false, inl, inr, List, [], ◌∷◌, Option, none, some, Str, str_eq,
  str_eq_iff, if◌then◌else◌, arith, Bool-cases, Option-cases, any,
}
use opentelemetry_kinesis_st.Base.GoMap
use opentelemetry_kinesis_st.Base.GoMap.{GoMap, get-put}
use opentelemetry_kinesis_st.Lease.{Lease}
use opentelemetry_kinesis_st.Receiver.Discovery.Observing.{
  Timely, observe-Timely, observe-Current, observe-none, on_cons,
}
use opentelemetry_kinesis_st.Receiver.Discovery.{
  Observation, Coordinator, observe, prune, is_listed, refresh_observations,
}

-- Pruning keeps the entries of the shards that have a lease, and no other.
get-prune :
    {V : Type 0} (leases : List Lease) (m : GoMap V) (k : Str)
    → GoMap.get (prune leases m) k ≡ (if is_listed leases k then GoMap.get m k else none)
unfolding prune GoMap.get
get-prune leases [] k = ground arith
get-prune leases ((j, v) ∷ m) k = ground (arith, get-prune leases m k, str_eq_iff j k)

-- What is observed of a shard after a pass over a snapshot: nothing where it has no lease there,
-- else the counter of one of its leases, in time.
abbrev pub Tracks : List Lease → ℕ → Str → Option Observation → Option Observation → Type 0
Tracks leases now k before none = (l : Lease) → Memᴰ l leases → l.shard_id ≢ k
Tracks leases now k before (some o) =
    ((l : Lease) × Memᴰ l leases × (l.shard_id ≡ k) × (o.counter ≡ l.counter))
    × Timely leases now k before o

listed-mem :
    (leases : List Lease) (k : Str)
    → is_listed leases k ≡ true
    → (l : Lease) × Memᴰ l leases × (l.shard_id ≡ k)
unfolding is_listed any
listed-mem [] k e = absurd (cc)
listed-mem (l ∷ ls) k e = elim (Bool-cases (str_eq l.shard_id k)) [
  | inl f ↦ (l, Memᴰ.head refl, (str_eq_iff l.shard_id k).0 f)
  | inr f ↦ let (x, i, g) = listed-mem ls k (ground arith) in (x, Memᴰ.tail i, g)
]

unlisted :
    (leases : List Lease) (k : Str)
    → is_listed leases k ≡ false
    → (l : Lease) → Memᴰ l leases
    → l.shard_id ≢ k
unfolding is_listed any
unlisted [] k e = λ l i. absurd (Memᴰ.not-nil i)
unlisted (x ∷ ls) k e =
    on_cons x ls k (λ f. ground (arith, str_eq_iff x.shard_id k)) (unlisted ls k (ground arith))

-- After a refresh a shard without a lease in the snapshot has no observation. Every other shard has
-- one, with the counter of a lease of the shard: either it carries the time of this pass, and then
-- the shard had no observation before or the counter of one of its leases is not the one observed
-- before; or it is the observation from before, its time included, and all leases of the shard
-- still have its counter. So only a counter that did not move lets a row grow stale.
pub refresh_observations-Tracks :
    {W : Type 0} (leases : List Lease) (now : ℕ) (c : Coordinator W) (k : Str)
    → Tracks leases now k
        (GoMap.get c.observed k)
        (GoMap.get (refresh_observations leases now c).observed k)
unfolding refresh_observations
refresh_observations-Tracks leases now c k =
    let p = get-prune leases (observe now leases c.observed) k in
    elim (Bool-cases (is_listed leases k)) [
      | inr f ↦
          let q : GoMap.get (prune leases (observe now leases c.observed)) k ≡ none =
            p ∙ rw f refl in
          rw q (unlisted leases k f)
      | inl f ↦ elim (Option-cases (GoMap.get (observe now leases c.observed) k)) [
        | inl g ↦
            let (l, i, same) = listed-mem leases k f in
            absurd ((observe-none now leases c.observed k g).1 l i same)
        | inr (o, g) ↦
            let q : GoMap.get (prune leases (observe now leases c.observed)) k ≡ some o =
              p ∙ rw (f, g) refl in
            rw q (
              elim (observe-Current now leases c.observed k o g) [
                | inl r ↦ r
                | inr (_, no_row) ↦
                    let (l, i, same) = listed-mem leases k f in absurd (no_row l i same)
              ],
              observe-Timely now leases c.observed k o g,
            )
      ]
    ]
