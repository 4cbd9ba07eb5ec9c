-- ===== src/Breaker/Tests.antt =====
-- Runs of the breaker under the configuration of the Rust tests, and the theorems at such inputs.
use rust_rtb_bidder.Base.{◌⊎◌, ℕ, Bool, ◌≤◌, ◌≡◌, refl, true, false, List, [], ◌∷◌, some, arith}
use rust_rtb_bidder.Base.Words.{add64}
use rust_rtb_bidder.Base.Ratio.{Ratio, ratio_ops}
use rust_rtb_bidder.Breaker.{
  BreakerConfig, CircuitBreaker, closed, open_, count_call, settle, half_open, new, fresh_window,
  allow_request, record_outcome, record_call, over_threshold,
}
use rust_rtb_bidder.Breaker.Trace.{enter, count, grants}
use rust_rtb_bidder.Breaker.Probe.{grants-le-one}
use rust_rtb_bidder.Breaker.Invariant.{Call, report, step, steps}
use rust_rtb_bidder.Breaker.Cycle.{recovers}
use rust_rtb_bidder.Breaker.Opened.{CallOutcome, NoneTrips, record_all, opens_iff}

abbrev fast_cfg : BreakerConfig Ratio
fast_cfg = record {
  min_calls = 3;
  error_rate_threshold = (1, 2);
  slow_call_ratio_threshold = (1, 2);
  slow_call_duration = 100;
  open_duration = 50;
  window_size = 10;
}

abbrev failures : List Call
failures = report true 1 0 ∷ report true 1 1 ∷ report true 1 2 ∷ []

abbrev opened : CircuitBreaker Ratio
opened = record {
  cfg = fast_cfg;
  window = fresh_window;
  inner = record { state = open_; opened_at = some 2; half_open_probe_in_flight = false };
}

abbrev probed : CircuitBreaker Ratio
probed = record {
  cfg = fast_cfg;
  window = fresh_window;
  inner = record { state = half_open; opened_at = some 2; half_open_probe_in_flight = true };
}

opens_after_error_rate_threshold : steps ratio_ops (new fast_cfg) failures ≡ opened
unfolding steps step new allow_request record_outcome over_threshold add64
opens_after_error_rate_threshold = refl

half_open_allows_one : allow_request opened 60 ≡ (probed, true)
unfolding allow_request
half_open_allows_one = refl

abbrev told : Bool → ℕ → CallOutcome
told error duration = record { error = error; duration = duration; now = 5 }

-- Of three calls two were as slow as the limit.
abbrev outcomes : List CallOutcome
outcomes = told false 1 ∷ told false 100 ∷ told false 100 ∷ []

opens_iff_example :
    (NoneTrips ratio_ops fast_cfg [] outcomes
      × ((record_all ratio_ops (new fast_cfg) outcomes).state ≡ closed))
    ⊎ ((NoneTrips ratio_ops fast_cfg [] outcomes → ⊥)
        × ((record_all ratio_ops (new fast_cfg) outcomes).state ≡ open_))
unfolding new
opens_iff_example =
    opens_iff ratio_ops (new fast_cfg) outcomes refl refl (omega arith) (omega arith)

the_slow_ones_open : (record_all ratio_ops (new fast_cfg) outcomes).state ≡ open_
unfolding new record_all record_outcome record_call over_threshold count_call settle add64
the_slow_ones_open = refl

recovers_example : (allow_request opened 60).1 ≡ true
recovers_example =
    (recovers ratio_ops opened 2 10 60 61 5 65 70 refl refl (omega arith) (omega arith)
      (omega arith) (omega arith)).1

grants-le-one_example : grants ratio_ops opened (enter 60 ∷ enter 60 ∷ count true false ∷ []) ≤ 1
grants-le-one_example =
    grants-le-one ratio_ops opened (enter 60 ∷ enter 60 ∷ count true false ∷ []) (λ e. cc)
      (tt, (tt, (tt, tt)))
