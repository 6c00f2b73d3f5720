-- ===== src/Receiver/Poller/Backoff.antt =====
-- receiver/awskinesisreceiver/poller.go: stuckBackoff.
use opentelemetry_kinesis_st.Base.{
  ℕ, zero, suc, ◌+◌, ◌-◌, ◌*◌, ◌^◌, ◌≤◌, ◌<◌, ◌≡◌, sym, arith, ltb, leb, if◌then◌else◌, subst, ap,
  ◌∙◌,
}
use native.Mathlib.Numerals.{unary_clauses}
use opentelemetry_kinesis_st.Receiver.Batch.{PollConfig}
use opentelemetry_kinesis_st.Receiver.Poller.{stuck_backoff, stuck_backoff_max}

pow-suc : (k : ℕ) → 2 ^ suc k ≡ 2 * 2 ^ k
pow-suc k = simp unary_clauses (omega arith)

mul-pow-suc : (a k : ℕ) → a * 2 ^ suc k ≡ 2 * (a * 2 ^ k)
mul-pow-suc a k = ap (λ x. a * x) (pow-suc k) ∙ omega arith

zero_add : (k : ℕ) → 0 + k ≡ k
zero_add k = omega arith

suc_add : (j k : ℕ) → suc j + k ≡ suc (j + k)
suc_add j k = omega arith

mul-pow-add : (a k j : ℕ) → a * 2 ^ k ≤ a * 2 ^ (j + k)
mul-pow-add a k zero = subst (λ x. a * 2 ^ k ≤ a * 2 ^ x) (sym (zero_add k)) (omega arith)
mul-pow-add a k (suc j) =
    subst (λ x. a * 2 ^ k ≤ a * 2 ^ x) (sym (suc_add j k))
      (ground (arith, mul-pow-add a k j, mul-pow-suc a (j + k)))

mul-pow-le : (a k n : ℕ) → k ≤ n → a * 2 ^ k ≤ a * 2 ^ n
mul-pow-le a k n h = subst (λ x. a * 2 ^ k ≤ a * 2 ^ x) (omega arith) (mul-pow-add a k (n - k))

-- What stuckBackoff means to compute: the interval doubled for each pass after the first, sixteen
-- times at most, up to the cap.
abbrev doublings : ℕ → ℕ
doublings passes = if ltb 16 (passes - 1) then 16 else passes - 1

capped : ℕ → ℕ
capped d = if leb d stuck_backoff_max then d else stuck_backoff_max

abbrev doubled : PollConfig → ℕ → ℕ
doubled cfg passes = cfg.poll_interval * 2 ^ doublings passes

doubled-le : (cfg : PollConfig) (passes : ℕ) → doubled cfg passes ≤ 65536 * cfg.poll_interval
doubled-le cfg passes = ground (arith, mul-pow-le cfg.poll_interval (doublings passes) 16)

doubled-le-doubled : (cfg : PollConfig) (m n : ℕ) → m ≤ n → doubled cfg m ≤ doubled cfg n
doubled-le-doubled cfg m n h =
    mul-pow-le cfg.poll_interval (doublings m) (doublings n) (ground arith)

doubled-ge : (cfg : PollConfig) (n : ℕ) → cfg.poll_interval ≤ doubled cfg n
doubled-ge cfg n = ground (arith, mul-pow-le cfg.poll_interval 0 (doublings n))

stuck_backoff-capped :
    (cfg : PollConfig) (passes : ℕ)
    → 0 < cfg.poll_interval
    → cfg.poll_interval ≤ stuck_backoff_max
    → stuck_backoff cfg passes ≡ capped (doubled cfg passes)
unfolding stuck_backoff capped
stuck_backoff-capped cfg passes h k = ground (arith, doubled-le cfg passes, doubled-ge cfg passes)

capped_order :
    (a d e : ℕ)
    → a ≤ stuck_backoff_max
    → a ≤ d
    → d ≤ e
    → (a ≤ capped d) × (capped d ≤ capped e) × (capped e ≤ stuck_backoff_max)
unfolding capped
capped_order a d e h k l = (ground arith, ground arith, ground arith)

-- For a poll interval that is positive and at most the cap of 30 s: the delay before a stuck shard
-- is read again never falls below the poll interval, never shrinks as passes without progress
-- follow one another, and never exceeds the cap; the shift does not overflow the int64.
pub stuck_backoff_grows :
    (cfg : PollConfig) (m n : ℕ)
    → 0 < cfg.poll_interval
    → cfg.poll_interval ≤ stuck_backoff_max
    → m ≤ n
    → (cfg.poll_interval ≤ stuck_backoff cfg m)
      × (stuck_backoff cfg m ≤ stuck_backoff cfg n)
      × (stuck_backoff cfg n ≤ stuck_backoff_max)
stuck_backoff_grows cfg m n h k l =
    rw (stuck_backoff-capped cfg m h k, stuck_backoff-capped cfg n h k)
      (capped_order cfg.poll_interval (doubled cfg m) (doubled cfg n) k (doubled-ge cfg m)
        (doubled-le-doubled cfg m n l))
