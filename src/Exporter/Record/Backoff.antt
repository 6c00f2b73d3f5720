-- ===== src/Exporter/Record/Backoff.antt =====
-- exporter/awskinesisexporter/record.go: sleepBackoff.
use opentelemetry_kinesis_st.Base.{
  ℕ, zero, suc, ◌+◌, ◌*◌, ◌^◌, ◌≤◌, ◌<◌, ◌≡◌, refl, arith, ◌⊎◌, inl, inr,
}
use opentelemetry_kinesis_st.Exporter.Record.{
  backoff_delay, put_backoff_base, put_backoff_max, max_put_attempts,
}

-- However often the loop has failed, the delay is positive and at most the cap; and for each
-- attempt after which the loop sleeps it is the base doubled as often as the loop has slept.
pub backoff_delay_bounds :
    (try : ℕ)
    → (0 < backoff_delay try)
      × (backoff_delay try ≤ put_backoff_max)
      × ((max_put_attempts ≤ try + 1) ⊎ (backoff_delay try ≡ put_backoff_base * 2 ^ try))
unfolding backoff_delay
backoff_delay_bounds try = (ground arith, ground arith, doubles try)
  where
    doubles : (t : ℕ) → (max_put_attempts ≤ t + 1) ⊎ (backoff_delay t ≡ put_backoff_base * 2 ^ t)
    doubles zero = inr refl
    doubles (suc zero) = inr refl
    doubles (suc (suc zero)) = inr refl
    doubles (suc (suc (suc zero))) = inr refl
    doubles (suc (suc (suc (suc t)))) = inl (omega arith)
