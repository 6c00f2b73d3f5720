-- ===== src/Receiver/Discovery/Observing.antt =====
-- receiver/awskinesisreceiver/shard_discovery.go: the first loop of refreshObservations, which stamps
-- the leases whose counter moved.
use mathlib.Core.List.{Memᴰ}
use mathlib.Core.List.Memᴰ
use opentelemetry_kinesis_st.Base.{
  ℕ, ◌≡◌, ◌≢◌, refl, sym, ap, ◌∙◌, subst, ◌==◌, ◌⊎◌, inl, inr, List, [], ◌∷◌, Option, none, some,
  Str, str_eq, str_eq_iff, arith, Bool-cases, Option-cases,
}
use opentelemetry_kinesis_st.Base.GoMap
use opentelemetry_kinesis_st.Base.GoMap.{GoMap, get-put}
use opentelemetry_kinesis_st.Lease.{Lease}
use opentelemetry_kinesis_st.Receiver.Discovery.{Observation, observe}

-- A shard without an observation, or one with a lease whose counter is not the observed one.
abbrev pub Moved : List Lease → Str → Option Observation → Type 0
Moved leases k before =
    (before ≡ none)
    ⊎ ((b : Observation) × (before ≡ some b)
        × (l : Lease) × Memᴰ l leases
        × (l.shard_id ≡ k)
        × (l.counter ≢ b.counter))

-- An observation is of this pass and the counter moved, or it is the one from before and every
-- lease of the shard still has its counter.
abbrev pub Timely : List Lease → ℕ → Str → Option Observation → Observation → Type 0
Timely leases now k before o =
    ((o.seen_at ≡ now) × Moved leases k before)
    ⊎ ((before ≡ some o) × ((l : Lease) → Memᴰ l leases → l.shard_id ≡ k → l.counter ≡ o.counter))

-- The first loop on one lease.
observe_one : ℕ → Lease → GoMap Observation → GoMap Observation
unfolding observe
observe_one now l m = observe now (l ∷ []) m

-- What the loop does to an entry on one lease: it stays, or it is put anew.
abbrev Stays : Lease → Str → Option Observation → Option Observation → Type 0
Stays l k before after =
    (after ≡ before)
    × ((l.shard_id ≢ k)
        ⊎ ((o : Observation) × (before ≡ some o) × (l.shard_id ≡ k) × (l.counter ≡ o.counter)))

abbrev Stamped : Lease → ℕ → Str → Option Observation → Option Observation → Type 0
Stamped l now k before after =
    (after ≡ some (record { counter = l.counter; seen_at = now }))
    × (l.shard_id ≡ k)
    × Moved (l ∷ []) k before

get-put_new :
    (now : ℕ) (l : Lease) (m : GoMap Observation) (k : Str)
    → Moved (l ∷ []) l.shard_id (GoMap.get m l.shard_id)
    → (let m' = GoMap.put m l.shard_id (record { counter = l.counter; seen_at = now }) in
        Stays l k (GoMap.get m k) (GoMap.get m' k)
        ⊎ Stamped l now k (GoMap.get m k) (GoMap.get m' k))
get-put_new now l m k moved =
    let new : Observation = record { counter = l.counter; seen_at = now } in
    elim (Bool-cases (str_eq l.shard_id k)) [
      | inr ne ↦ inl (
        get-put m l.shard_id k new ∙ rw ne refl,
        inl (λ e. ground (arith, str_eq_iff l.shard_id k)),
      )
      | inl same ↦
          let e : l.shard_id ≡ k = (str_eq_iff l.shard_id k).0 same in
          inr (
            get-put m l.shard_id k new ∙ rw same refl,
            e,
            subst (λ j. Moved (l ∷ []) j (GoMap.get m j)) e moved,
          )
    ]

get-observe_one :
    (now : ℕ) (l : Lease) (m : GoMap Observation) (k : Str)
    → Stays l k (GoMap.get m k) (GoMap.get (observe_one now l m) k)
      ⊎ Stamped l now k (GoMap.get m k) (GoMap.get (observe_one now l m) k)
unfolding observe_one
get-observe_one now l m k = elim (Option-cases (GoMap.get m l.shard_id)) [
  | inl f ↦ rw (f, observe) (get-put_new now l m k (inl f))
  | inr (obs, f) ↦ elim (Bool-cases (obs.counter == l.counter)) [
    | inr ne ↦
        rw (f, ne, observe)
          (get-put_new now l m k (inr (obs, f, l, Memᴰ.head refl, refl, λ e. ground arith)))
    | inl same ↦ elim (Bool-cases (str_eq l.shard_id k)) [
      | inr other ↦
          rw (f, same, observe) (inl (refl, inl (λ e. ground (arith, str_eq_iff l.shard_id k))))
      | inl e ↦
          let g : l.shard_id ≡ k = (str_eq_iff l.shard_id k).0 e in
          rw (f, same, observe)
            (inl (refl, inr (obs, ap (λ j. GoMap.get m j) (sym g) ∙ f, g, ground arith)))
    ]
  ]
]

observe-cons :
    (now : ℕ) (l : Lease) (ls : List Lease) (m : GoMap Observation)
    → observe now (l ∷ ls) m ≡ observe now ls (observe_one now l m)
unfolding observe observe_one
observe-cons now l ls m = refl

-- What holds of the first lease of a shard and of the others holds of all.
pub on_cons :
    {P : Lease → Type 0} (l : Lease) (ls : List Lease) (k : Str)
    → (l.shard_id ≡ k → P l)
    → ((x : Lease) → Memᴰ x ls → x.shard_id ≡ k → P x)
    → (x : Lease) → Memᴰ x (l ∷ ls)
    → x.shard_id ≡ k
    → P x
on_cons {P = P} l ls k own others x (Memᴰ.head q) f =
    subst P (sym q) (own (ap (λ y. y.shard_id) (sym q) ∙ f))
on_cons l ls k own others x (Memᴰ.tail i) f = others x i f

Moved-cons :
    (l : Lease) (ls : List Lease) (k : Str) (b : Option Observation)
    → Moved ls k b
    → Moved (l ∷ ls) k b
Moved-cons l ls k b (inl e) = inl e
Moved-cons l ls k b (inr (o, e, x, i, f, g)) = inr (o, e, x, Memᴰ.tail i, f, g)

Moved-first :
    (l : Lease) (ls : List Lease) (k : Str) (b : Option Observation)
    → Moved (l ∷ []) k b
    → Moved (l ∷ ls) k b
Moved-first l ls k b (inl e) = inl e
Moved-first l ls k b (inr (o, e, x, Memᴰ.head i, f, g)) = inr (o, e, x, Memᴰ.head i, f, g)
Moved-first l ls k b (inr (o, e, x, Memᴰ.tail i, f, g)) = absurd (Memᴰ.not-nil i)

pub observe-Timely :
    (now : ℕ) (ls : List Lease) (m : GoMap Observation) (k : Str) (o : Observation)
    → GoMap.get (observe now ls m) k ≡ some o
    → Timely ls now k (GoMap.get m k) o
unfolding observe
observe-Timely now [] m k o e = inr (e, λ l i. absurd (Memᴰ.not-nil i))
observe-Timely now (l ∷ ls) m k o e =
    let rest = observe-Timely now ls (observe_one now l m) k o (rw observe-cons at e) in
    elim (get-observe_one now l m k) [
      | inl (stays, own) ↦ elim rest [
        | inl (t, moved) ↦ inl (t, Moved-cons l ls k (GoMap.get m k) (rw stays at moved))
        | inr (b, same) ↦
            let before : GoMap.get m k ≡ some o = sym stays ∙ b in
            inr (before, on_cons l ls k (kept l m k o before own) same)
      ]
      | inr (put, f, moved) ↦
          let first = Moved-first l ls k (GoMap.get m k) moved in
          elim rest [
            | inl (t, _) ↦ inl (t, first)
            | inr (b, _) ↦
                let q : o ≡ record { counter = l.counter; seen_at = now } = cc in
                inl (ap (λ x. x.seen_at) q, first)
          ]
    ]
  where
    kept :
        (l : Lease) (m : GoMap Observation) (k : Str) (o : Observation)
        → GoMap.get m k ≡ some o
        → ((l.shard_id ≢ k)
            ⊎ ((b : Observation) × (GoMap.get m k ≡ some b)
                × (l.shard_id ≡ k)
                × (l.counter ≡ b.counter)))
        → l.shard_id ≡ k
        → l.counter ≡ o.counter
    kept l m k o before (inl ne) f = absurd (ne f)
    kept l m k o before (inr (b, g, _, c)) f = let q : b ≡ o = cc in c ∙ ap (λ x. x.counter) q

pub observe-Current :
    (now : ℕ) (ls : List Lease) (m : GoMap Observation) (k : Str) (o : Observation)
    → GoMap.get (observe now ls m) k ≡ some o
    → ((l : Lease) × Memᴰ l ls × (l.shard_id ≡ k) × (o.counter ≡ l.counter))
      ⊎ ((GoMap.get m k ≡ some o) × ((l : Lease) → Memᴰ l ls → l.shard_id ≢ k))
unfolding observe
observe-Current now [] m k o e = inr (e, λ l i. absurd (Memᴰ.not-nil i))
observe-Current now (l ∷ ls) m k o e =
    elim (observe-Current now ls (observe_one now l m) k o (rw observe-cons at e)) [
      | inl (x, i, f, c) ↦ inl (x, Memᴰ.tail i, f, c)
      | inr (b, no_row) ↦ elim (get-observe_one now l m k) [
        | inl (stays, inl ne) ↦ inr (sym stays ∙ b, on_cons l ls k ne no_row)
        | inl (stays, inr (p, g, f, c)) ↦
            let q : p ≡ o = cc in inl (l, Memᴰ.head refl, f, sym (c ∙ ap (λ x. x.counter) q))
        | inr (put, f, _) ↦
            let q : o ≡ record { counter = l.counter; seen_at = now } = cc in
            inl (l, Memᴰ.head refl, f, ap (λ x. x.counter) q)
      ]
    ]

-- The loop leaves no shard of the snapshot without an observation.
pub observe-none :
    (now : ℕ) (ls : List Lease) (m : GoMap Observation) (k : Str)
    → GoMap.get (observe now ls m) k ≡ none
    → (GoMap.get m k ≡ none) × ((l : Lease) → Memᴰ l ls → l.shard_id ≢ k)
unfolding observe
observe-none now [] m k e = (e, λ l i. absurd (Memᴰ.not-nil i))
observe-none now (l ∷ ls) m k e =
    let (b, no_row) = observe-none now ls (observe_one now l m) k (rw observe-cons at e) in
    elim (get-observe_one now l m k) [
      | inl (stays, inl ne) ↦ (sym stays ∙ b, on_cons l ls k ne no_row)
      | inl (stays, inr (p, g, _, _)) ↦ absurd (cc)
      | inr (put, _, _) ↦ absurd (cc)
    ]
