-- ===== src/Receiver/Poller/Run.antt =====
-- receiver/awskinesisreceiver/poller.go, runPoll: the loop over the passes, on fuel.
pub mod Flow
pub mod Passes
pub mod Closing
mod Samples
use opentelemetry_kinesis_st.Base.{ℕ, zero, suc, Bool, true, Option, none, some}
use opentelemetry_kinesis_st.Receiver.Batch.{PollConfig, Env}
use opentelemetry_kinesis_st.Receiver.Poller.{
  Poller, Loop, Next, exits, continues, open_iterator, poll_pass,
}

module _ {W D : Type 0} (cfg : PollConfig) (env : Env W D) where
  pub next_pass :
      (Loop → Poller W → Option Bool × Poller W) → Next × Poller W → Option Bool × Poller W
  next_pass again (exits stops, p) = (some stops, p)
  next_pass again (continues st, p) = again st p

  -- Whether the loop ended with `stop()`; `none` where the fuel was used up.
  pub poll_loop : ℕ → Loop → Poller W → Option Bool × Poller W
  unfolding next_pass
  poll_loop zero st p = (none, p)
  poll_loop (suc fuel) st p = next_pass (poll_loop fuel) (poll_pass cfg env st p)

  -- runPoll with at most `fuel` passes of its loop.
  pub run_poll : ℕ → Poller W → Option Bool × Poller W
  unfolding poll_loop
  run_poll fuel p =
      let (i, p') = open_iterator cfg env p in
      elim i [
        | none ↦ (some true, p')
        | some iter ↦ poll_loop fuel (record { iter = iter; stuck_passes = 0; last_poll = none }) p'
      ]
