-- ===== src/FreqCap/Jammed.antt =====
-- The cache and its fallback ask one breaker, and only the fallback reports to it.
use Prim.Native.String.{String}
use rust_rtb_bidder.Base.{
  ℕ, ◌≤◌, ◌≡◌, refl, sym, ap, subst, ◌∙◌, true, false, List, is_empty, FloatOps, arith,
}
use rust_rtb_bidder.Model.{AdCandidate}
use rust_rtb_bidder.Breaker.{
  CircuitBreaker, open_, allow_request, fast_path, try_enter_half_open, elapsed,
}
use rust_rtb_bidder.Breaker.Probe.{InFlight}
use rust_rtb_bidder.FreqCap.{
  Redis, Answers, CapResult, FreqCapOutcome, checked, skipped_timeout, check as check_redis,
}
use rust_rtb_bidder.FreqCap.InProcess.{
  InProcess, Cache, scan, cold_candidates, take_fallback, check,
}

module _ {F : Type 0} where
  refuses-InFlight :
      (b : CircuitBreaker F) (now : ℕ) → InFlight b → allow_request b now ≡ (b, false)
  unfolding allow_request fast_path try_enter_half_open
  refuses-InFlight b now h = ground arith

  probes_when_cool :
      (b : CircuitBreaker F) (now : ℕ)
      → b.state ≡ open_
      → b.cfg.open_duration ≤ elapsed b.opened_at now
      → InFlight (allow_request b now).0 × ((allow_request b now).1 ≡ true)
  unfolding allow_request fast_path try_enter_half_open
  probes_when_cool b now h k = ground arith

  skips-InFlight :
      (fallback : Redis F → String → List (AdCandidate F) → Redis F × FreqCapOutcome)
      (s : InProcess F) (user_id : String) (candidates : List (AdCandidate F)) (now : ℕ)
      → InFlight s.redis.breaker
      → check fallback s user_id candidates now ≡ (s, skipped_timeout)
  unfolding check
  skips-InFlight fallback s user_id candidates now h =
      rw (refuses-InFlight s.redis.breaker now h) refl

skipped_fallback :
    {F : Type 0} (cache : Cache) (user_id : String) (results : List CapResult) (redis : Redis F)
    → take_fallback cache user_id results (redis, skipped_timeout)
      ≡ (record { redis = redis; counters = cache }, checked results)
unfolding take_fallback
skipped_fallback cache user_id results redis = refl

module _ {F : Type 0} (fl : FloatOps F) (timeout_ms : ℕ) where
  -- The check of Redis behind the cache.
  abbrev pub behind :
      Answers → ℕ → Redis F → String → List (AdCandidate F) → Redis F × FreqCapOutcome
  behind a now redis user_id candidates = check_redis fl timeout_ms redis user_id candidates a now

  redis_refuses :
      (redis : Redis F) (user_id : String) (candidates : List (AdCandidate F)) (a : Answers)
      (now : ℕ)
      → InFlight redis.breaker
      → is_empty candidates ≡ false
      → behind a now redis user_id candidates ≡ (redis, skipped_timeout)
  unfolding check_redis
  redis_refuses redis user_id candidates a now h n =
      rw (n, refuses-InFlight redis.breaker now h) refl

  first_check :
      (s : InProcess F) (user_id : String) (candidates : List (AdCandidate F)) (a : Answers)
      (now : ℕ)
      → InFlight (allow_request s.redis.breaker now).0
      → (allow_request s.redis.breaker now).1 ≡ true
      → is_empty (cold_candidates s.counters user_id candidates) ≡ false
      → check (behind a now) s user_id candidates now ≡ (
        record s { redis = record s.redis { breaker = (allow_request s.redis.breaker now).0 } },
        checked (scan s.counters user_id candidates),
      )
  unfolding check
  first_check s user_id candidates a now h g n =
      let redis = record s.redis { breaker = (allow_request s.redis.breaker now).0 } in
      rw (g, n)
        (ap (take_fallback s.counters user_id (scan s.counters user_id candidates))
            (redis_refuses redis user_id (cold_candidates s.counters user_id candidates) a now h n)
          ∙ skipped_fallback s.counters user_id (scan s.counters user_id candidates) redis)

  -- Once an open breaker has cooled down, a check with a cold candidate takes the probe, and the
  -- fallback, which asks the same breaker, is refused: the cold candidates pass as not capped, no
  -- outcome is ever recorded, and every later check is skipped and changes nothing.
  pub in_process_jams :
      (s : InProcess F) (user_id : String) (candidates : List (AdCandidate F)) (a : Answers)
      (now : ℕ)
      → s.redis.breaker.state ≡ open_
      → s.redis.breaker.cfg.open_duration ≤ elapsed s.redis.breaker.opened_at now
      → is_empty (cold_candidates s.counters user_id candidates) ≡ false
      → ((check (behind a now) s user_id candidates now).1
          ≡ checked (scan s.counters user_id candidates))
        × ((user_id' : String) (candidates' : List (AdCandidate F)) (a' : Answers) (now' : ℕ)
            → check
                (behind a' now')
                (check (behind a now) s user_id candidates now).0
                user_id'
                candidates'
                now'
              ≡ ((check (behind a now) s user_id candidates now).0, skipped_timeout))
  in_process_jams s user_id candidates a now o k n =
      let p = probes_when_cool s.redis.breaker now o k in
      let e = first_check s user_id candidates a now p.0 p.1 n in
      (
        ap (λ t. t.1) e,
        λ u cs a' now'.
            skips-InFlight (behind a' now') (check (behind a now) s user_id candidates now).0 u cs
              now' (subst (λ t. InFlight t.0.redis.breaker) (sym e) p.0),
      )
