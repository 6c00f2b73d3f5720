-- ===== src/Exporter/Record/Samples.antt =====
-- Concrete runs of flush over a stream that throttles the first record of the first call.
use mathlib.Core.List.{Perm, append-nil}
use mathlib.Core.List.Perm
use opentelemetry_kinesis_st.Base.{
  ℕ, ◌≡◌, ◌≢◌, refl, sym, ap, subst, ◌∙◌, Bool, true, false, List, [], ◌∷◌, ◌++◌, Option, some,
  none, Str, bytes, arith, length, pos,
}
use opentelemetry_kinesis_st.Exporter.Record.{
  Entry, Env, unfinished, PutReply, call_failed, put_output, none_failed, flush,
}
use opentelemetry_kinesis_st.Exporter.Record.Chunks.{flush_total}
use opentelemetry_kinesis_st.Exporter.Record.Delivery.{IsHonest, Delivers, accepted, rejected}
use opentelemetry_kinesis_st.Exporter.Record.Flush.{flush-Delivers}

abbrev no_codes : List Entry → List (Option Str)
no_codes [] = []
no_codes (e ∷ es) = none ∷ no_codes es

-- The world is the stream's records, newest last, and whether a record was throttled before: the
-- first record of the first call is.
pub throttle : List Entry → List Entry × Bool → PutReply × (List Entry × Bool)
throttle [] w = (put_output none [], w)
throttle (e ∷ es) (w, true) = (put_output (some 0) (no_codes (e ∷ es)), (w ++ (e ∷ es), true))
throttle (e ∷ es) (w, false) =
    (put_output (some 1) (some (bytes "slow") ∷ no_codes es), (w ++ es, true))

abbrev pub slow_stream : Env (List Entry × Bool)
slow_stream = record {
  put = throttle;
  ctx_err = λ w. none;
  until_deadline = λ w. none;
  sleep = λ d w. (none, w);
}

abbrev pub stored : List Entry × Bool → List Entry
stored w = w.0

length-no_codes : (es : List Entry) → length (no_codes es) ≡ length es
length-no_codes [] = refl
length-no_codes (e ∷ es) = ground (arith, length-no_codes es)

accepted-no_codes : (es : List Entry) → accepted es (no_codes es) ≡ es
unfolding accepted
accepted-no_codes [] = refl
accepted-no_codes (e ∷ es) = ap (λ t. e ∷ t) (accepted-no_codes es)

rejected-no_codes : (es : List Entry) → rejected es (no_codes es) ≡ []
unfolding rejected
rejected-no_codes [] = refl
rejected-no_codes (e ∷ es) = rejected-no_codes es

-- The results of a call's reply.
abbrev results : PutReply → List (Option Str)
results (call_failed e) = []
results (put_output c rs) = rs

abbrev count : PutReply → Option ℕ
count (call_failed e) = none
count (put_output c rs) = c

throttle_one_result :
    (es : List Entry) (w : List Entry × Bool) → length (results (throttle es w).0) ≡ length es
unfolding throttle
throttle_one_result [] w = refl
throttle_one_result (e ∷ es) (w, true) = length-no_codes (e ∷ es)
throttle_one_result (e ∷ es) (w, false) = ground (arith, length-no_codes es)

throttle_stores :
    (es : List Entry) (w : List Entry × Bool)
    → (throttle es w).1.0 ≡ w.0 ++ accepted es (results (throttle es w).0)
unfolding throttle accepted
throttle_stores [] w = sym (append-nil w.0)
throttle_stores (e ∷ es) (w, true) = ap (λ t. w ++ t) (sym (accepted-no_codes (e ∷ es)))
throttle_stores (e ∷ es) (w, false) = ap (λ t. w ++ t) (sym (accepted-no_codes es))

throttle_counts :
    (es : List Entry) (w : List Entry × Bool)
    → none_failed (count (throttle es w).0) ≡ true
    → rejected es (results (throttle es w).0) ≡ []
unfolding throttle rejected none_failed
throttle_counts [] w h = refl
throttle_counts (e ∷ es) (w, true) h = rejected-no_codes (e ∷ es)
throttle_counts (e ∷ es) (w, false) h = absurd (ground arith)

pub slow_stream-IsHonest : IsHonest slow_stream stored
slow_stream-IsHonest = record {
  one_result = λ es w c rs e. ap (λ r. length (results r)) (sym e) ∙ throttle_one_result es w;
  stores = λ es w c rs e.
      subst (λ r. Perm (stored (throttle es w).1) (stored w ++ accepted es (results r))) e
        (rw (throttle_stores es w) (Perm.refl _));
  counts = λ es w c rs e h.
      subst (λ r. rejected es (results r) ≡ []) e
        (throttle_counts es w (ap (λ r. none_failed (count r)) e ∙ h));
  waits = λ d w. refl;
}

abbrev entry : ℕ → Entry
entry n = record { payload = n ∷ []; partition_key = bytes "k" }

abbrev three : List Entry
three = entry 1 ∷ entry 2 ∷ entry 3 ∷ []

flush_total_example : (flush slow_stream (pos 2) (pos 100) three ([], false)).0 ≢ unfinished
flush_total_example = flush_total slow_stream (pos 2) (pos 100) three ([], false) (omega arith)

flush-Delivers_example :
    Delivers stored ([], false) three (flush slow_stream (pos 2) (pos 100) three ([], false))
flush-Delivers_example =
    flush-Delivers slow_stream (pos 2) (pos 100) stored slow_stream-IsHonest three ([], false)
      (omega arith)
