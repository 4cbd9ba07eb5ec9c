-- ===== src/Breaker/Invariant.antt =====
-- The well-formedness of the breaker's locked state and of its window.
use rust_rtb_bidder.Base.{
  ℕ, ◌+◌, ◌≤◌, ◌<◌, ◌≡◌, ◌≢◌, ap, Bool, false, List, [], ◌∷◌, FloatOps, arith, none, leb,
}
use rust_rtb_bidder.Base.Words.{u64_mod, add64}
use rust_rtb_bidder.Breaker.{
  CircuitBreaker, BreakerConfig, closed, open_, half_open, new, try_enter_half_open, allow_request,
  count_call, record_call, Window, settle, record_outcome,
}
use rust_rtb_bidder.Breaker.Trace.{Event, read, enter, count, settles, after, run}

-- The probe slot is taken in the half-open state only, and an open breaker knows since when.
pub record IsValid {F : Type 0} (b : CircuitBreaker F) : Type 0 where
  pub probe : b.state ≢ half_open → b.half_open_probe_in_flight ≡ false
  pub since : b.state ≡ open_ → b.opened_at ≢ none

module _ {F : Type 0} (fl : FloatOps F) where
  after-IsValid : (b : CircuitBreaker F) (e : Event) → IsValid b → IsValid (after fl b e)
  unfolding after try_enter_half_open count_call settle
  after-IsValid b (read now) v = v
  after-IsValid b (enter now) v = grind arith
  after-IsValid b (count error slow) v = grind arith
  after-IsValid b (settles s error slow now) v = grind arith

  run-IsValid : (b : CircuitBreaker F) (es : List Event) → IsValid b → IsValid (run fl b es)
  unfolding run
  run-IsValid b [] v = v
  run-IsValid b (e ∷ es) v = run-IsValid (after fl b e) es (after-IsValid b e v)

  -- A new breaker is valid after every trace: its probe slot is taken in the half-open state only,
  -- and while it is open the time of opening is known.
  pub run-new-IsValid : (cfg : BreakerConfig F) (es : List Event) → IsValid (run fl (new cfg) es)
  unfolding new
  run-new-IsValid cfg es = run-IsValid (new cfg) es (grind arith)

-- While the breaker is closed its window holds fewer calls than the window size, and no more errors
-- or slow calls than calls.
pub record IsBounded {F : Type 0} (b : CircuitBreaker F) : Type 0 where
  pub calls : b.state ≡ closed → b.window.calls < b.cfg.window_size
  pub errors : b.state ≡ closed → b.window.errors ≤ b.window.calls
  pub slow_calls : b.state ≡ closed → b.window.slow_calls ≤ b.window.calls

-- A call of the breaker from start to end: a request, or the outcome of a call that took a time.
pub data Call : Type 0 where
  ask : ℕ → Call
  report : Bool → ℕ → ℕ → Call

-- One more call in the counters, when they are in order and far from wrapping.
pub counted-IsCounted :
    (w : Window) (error slow : Bool)
    → w.errors ≤ w.calls
    → w.slow_calls ≤ w.calls
    → w.calls + 1 < u64_mod
    → let w' = record_call w error slow in
      (w'.calls ≡ w.calls + 1) × (w'.errors ≤ w'.calls) × (w'.slow_calls ≤ w'.calls)
unfolding record_call add64
counted-IsCounted w error slow h k l = ground arith

module _ {F : Type 0} (fl : FloatOps F) where
  unfoldable pub step : CircuitBreaker F → Call → CircuitBreaker F
  step b (ask now) = (allow_request b now).0
  step b (report error duration now) = record_outcome fl b error duration now

  unfoldable pub steps : CircuitBreaker F → List Call → CircuitBreaker F
  steps b [] = b
  steps b (c ∷ cs) = steps (step b c) cs

  report-IsBounded :
      (b : CircuitBreaker F) (error : Bool) (duration now : ℕ)
      → 0 < b.cfg.window_size
      → b.cfg.window_size < u64_mod
      → IsBounded b
      → IsBounded (record_outcome fl b error duration now)
  unfolding record_outcome
  report-IsBounded b error duration now p q v =
      ground (arith, counted-IsCounted b.window error (leb b.cfg.slow_call_duration duration))

  ask-IsBounded : (b : CircuitBreaker F) (now : ℕ) → IsBounded b → IsBounded (allow_request b now).0
  unfolding allow_request
  ask-IsBounded b now v = ground arith

  pub cfg-step : (b : CircuitBreaker F) (c : Call) → (step b c).cfg ≡ b.cfg
  unfolding step allow_request record_outcome
  cfg-step b (ask now) = ground arith
  cfg-step b (report error duration now) = ground arith

  steps-keep :
      (b : CircuitBreaker F) (cs : List Call)
      → 0 < b.cfg.window_size
      → b.cfg.window_size < u64_mod
      → IsBounded b
      → IsBounded (steps b cs)
  unfolding steps step
  steps-keep b [] p q v = v
  steps-keep b (ask now ∷ cs) p q v =
      let e = ap (λ c. c.window_size) (cfg-step b (ask now)) in
      steps-keep (step b (ask now)) cs (omega (arith, e)) (omega (arith, e)) (ask-IsBounded b now v)
  steps-keep b (report error duration now ∷ cs) p q v =
      let e = ap (λ c. c.window_size) (cfg-step b (report error duration now)) in
      steps-keep (step b (report error duration now)) cs (omega (arith, e)) (omega (arith, e))
        (report-IsBounded b error duration now p q v)

  -- After every sequence of whole calls on a new breaker with a window size that is positive and
  -- fits 64 bits: while it is closed, its counters are below the window size, so that they never
  -- wrap, and errors and slow calls are at most the calls.
  pub steps-new-IsBounded :
      (cfg : BreakerConfig F) (cs : List Call)
      → 0 < cfg.window_size
      → cfg.window_size < u64_mod
      → IsBounded (steps (new cfg) cs)
  unfolding new
  steps-new-IsBounded cfg cs p q = steps-keep (new cfg) cs p q (ground arith)
