-- ===== src/Breaker/Cycle.antt =====
-- The life of a breaker through its three states, call by call.
use rust_rtb_bidder.Base.{
  ℕ, suc, ◌+◌, ◌≤◌, ◌<◌, ◌≡◌, refl, ap, sym, subst, Bool, true, false, List, [], ◌∷◌, FloatOps,
  arith, some, leb, ◌||◌,
}
use rust_rtb_bidder.Base.Words.{u64_mod, add64}
use rust_rtb_bidder.Breaker.{
  CircuitBreaker, BreakerConfig, closed, open_, half_open, new, allow_request, record_outcome,
  fresh_window,
}
use rust_rtb_bidder.Breaker.Invariant.{Call, ask, report, step, steps}

module _ {F : Type 0} (fl : FloatOps F) where
  probing : CircuitBreaker F → CircuitBreaker F
  probing b = record b {
    window = fresh_window;
    inner = record { state = half_open; opened_at = b.opened_at; half_open_probe_in_flight = true };
  }

  allow_request_late :
      (b : CircuitBreaker F) (t late : ℕ)
      → b.state ≡ open_
      → b.opened_at ≡ some t
      → t + b.cfg.open_duration ≤ late
      → allow_request b late ≡ (probing b, true)
  unfolding allow_request probing
  allow_request_late b t late h o l = ground arith

  allow_request_early :
      (b : CircuitBreaker F) (t early : ℕ)
      → b.state ≡ open_
      → b.opened_at ≡ some t
      → t ≤ early
      → early < t + b.cfg.open_duration
      → allow_request b early ≡ (b, false)
  unfolding allow_request
  allow_request_early b t early h o k l = ground arith

  probe_closes :
      (b : CircuitBreaker F) (duration done : ℕ)
      → b.state ≡ half_open
      → duration < b.cfg.slow_call_duration
      → let b' = record_outcome fl b false duration done in
        (b'.state ≡ closed) × (b'.window ≡ fresh_window)
  unfolding record_outcome
  probe_closes b duration done h d = ground arith

  allow_request_closed :
      (b : CircuitBreaker F) (now : ℕ) → b.state ≡ closed → allow_request b now ≡ (b, true)
  unfolding allow_request
  allow_request_closed b now h = ground arith

  -- An open breaker refuses every call from its opening until `open_duration` is over, and is unchanged. The first
  -- call after that gets through as the probe, and no other one with it. A probe that succeeds fast
  -- closes the breaker with an empty window, and the next call gets through.
  pub recovers :
      (b : CircuitBreaker F) (t early late later duration done next : ℕ)
      → b.state ≡ open_
      → b.opened_at ≡ some t
      → t ≤ early
      → early < t + b.cfg.open_duration
      → t + b.cfg.open_duration ≤ late
      → duration < b.cfg.slow_call_duration
      → let trying = (allow_request b late).0 in
        let recovered = record_outcome fl trying false duration done in
        (allow_request b early ≡ (b, false))
        × ((allow_request b late).1 ≡ true)
        × ((allow_request trying later).1 ≡ false)
        × (recovered.state ≡ closed)
        × (recovered.window ≡ fresh_window)
        × ((allow_request recovered next).1 ≡ true)
  recovers b t early late later duration done next h o k e l d =
      rw (allow_request_late b t late h o l) (
        allow_request_early b t early h o k e,
        refl,
        probing_refuses,
        closes.0,
        closes.1,
        ap (λ r. r.1) (allow_request_closed _ next closes.0),
      )
    where
      probing_refuses : (allow_request (probing b) later).1 ≡ false
      probing_refuses = unfold allow_request probing in refl

      closes :
          ((record_outcome fl (probing b) false duration done).state ≡ closed)
          × ((record_outcome fl (probing b) false duration done).window ≡ fresh_window)
      closes = unfold probing in probe_closes (probing b) duration done refl d

  probe_reopens :
      (b : CircuitBreaker F) (error : Bool) (duration now : ℕ)
      → b.state ≡ half_open
      → (error || leb b.cfg.slow_call_duration duration) ≡ true
      → let b' = record_outcome fl b error duration now in
        (b'.state ≡ open_)
        × (b'.window ≡ fresh_window)
        × (b'.opened_at ≡ some now)
        × (b'.cfg ≡ b.cfg)
  unfolding record_outcome
  probe_reopens b error duration now h f = ground arith

  -- A probe that fails, or that is slow, opens the breaker again, and from the time of its outcome
  -- on the breaker refuses every call for another `open_duration`.
  pub reopens :
      (b : CircuitBreaker F) (error : Bool) (duration now early : ℕ)
      → b.state ≡ half_open
      → (error || leb b.cfg.slow_call_duration duration) ≡ true
      → now ≤ early
      → early < now + b.cfg.open_duration
      → let b' = record_outcome fl b error duration now in
        (b'.state ≡ open_) × (b'.window ≡ fresh_window) × (allow_request b' early ≡ (b', false))
  reopens b error duration now early h f k e =
      let o = probe_reopens b error duration now h f in
      (o.0, o.1, allow_request_early _ now early o.0 o.2 k (rw o.3 e))

-- The outcomes among the calls.
unfoldable pub reports : List Call → ℕ
reports [] = 0
reports (ask now ∷ cs) = reports cs
reports (report error duration now ∷ cs) = suc (reports cs)

module _ {F : Type 0} (fl : FloatOps F) where
  report_stays :
      (b : CircuitBreaker F) (error : Bool) (duration now : ℕ)
      → b.state ≡ closed
      → b.window.calls + 1 < b.cfg.min_calls
      → b.cfg.min_calls < u64_mod
      → let b' = record_outcome fl b error duration now in
        (b'.state ≡ closed) × (b'.window.calls ≤ b.window.calls + 1) × (b'.cfg ≡ b.cfg)
  unfolding record_outcome add64
  report_stays b error duration now h m u = ground arith

  steps_stay :
      (b : CircuitBreaker F) (cs : List Call)
      → b.state ≡ closed
      → b.window.calls + reports cs < b.cfg.min_calls
      → b.cfg.min_calls < u64_mod
      → (steps fl b cs).state ≡ closed
  unfolding steps step reports
  steps_stay b [] h m u = h
  steps_stay b (ask now ∷ cs) h m u =
      subst (λ b'. (steps fl b' cs).state ≡ closed)
        (sym (ap (λ r. r.0) (allow_request_closed fl b now h))) (steps_stay b cs h m u)
  steps_stay b (report error duration now ∷ cs) h m u =
      let (h', w, e) = report_stays b error duration now h (omega arith) u in
      let e' = ap (λ c. c.min_calls) e in
      steps_stay (record_outcome fl b error duration now) cs h' (omega (arith, e'))
        (omega (arith, e'))

  -- A new breaker stays closed, and so lets every call through, as long as fewer outcomes than the
  -- minimum have been recorded, whatever they were.
  pub stays_closed :
      (cfg : BreakerConfig F) (cs : List Call) (now : ℕ)
      → reports cs < cfg.min_calls
      → cfg.min_calls < u64_mod
      → ((steps fl (new cfg) cs).state ≡ closed)
        × ((allow_request (steps fl (new cfg) cs) now).1 ≡ true)
  unfolding new
  stays_closed cfg cs now h u =
      let e = steps_stay (new cfg) cs refl (omega arith) u in
      (e, ap (λ r. r.1) (allow_request_closed fl _ now e))
