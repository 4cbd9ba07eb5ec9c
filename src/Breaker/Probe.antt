-- ===== src/Breaker/Probe.antt =====
-- The half-open probe: one at a time, under every interleaving.
use rust_rtb_bidder.Base.{
  ◌≤◌, ◌≡◌, ◌≢◌, refl, true, false, List, [], ◌∷◌, FloatOps, All, arith, Bool-cases, inl, inr,
}
use rust_rtb_bidder.Breaker.{
  CircuitBreaker, closed, half_open, fast_path, try_enter_half_open, count_call,
}
use rust_rtb_bidder.Breaker.Trace.{
  Event, read, enter, count, settles, after, grants_call, run, grants, IsUnsettled,
}

-- The probe slot is taken.
abbrev pub InFlight : {F : Type 0} → CircuitBreaker F → Type 0
InFlight b = (b.state ≡ half_open) × (b.half_open_probe_in_flight ≡ true)

module _ {F : Type 0} (fl : FloatOps F) where
  after-InFlight :
      (b : CircuitBreaker F) (e : Event)
      → IsUnsettled e
      → InFlight b
      → InFlight (after fl b e) × (grants_call fl b e ≡ false)
  unfolding after grants_call fast_path try_enter_half_open count_call
  after-InFlight b (read now) u v = ground arith
  after-InFlight b (enter now) u v = ground arith
  after-InFlight b (count error slow) u v = ground arith
  after-InFlight b (settles s error slow now) u v = absurd u

  -- While a probe is in flight and no outcome is recorded, every trace of calls, however long and
  -- at whatever times, lets none through and leaves the probe in flight.
  pub grants-InFlight :
      (b : CircuitBreaker F) (es : List Event)
      → InFlight b
      → All IsUnsettled es
      → (grants fl b es ≡ 0) × InFlight (run fl b es)
  unfolding grants run
  grants-InFlight b [] v u = (refl, v)
  grants-InFlight b (e ∷ es) v u = ground (
    arith,
    after-InFlight b e u.0 v,
    grants-InFlight (after fl b e) es (after-InFlight b e u.0 v).0 u.1,
  )

  after_not_closed :
      (b : CircuitBreaker F) (e : Event)
      → IsUnsettled e
      → b.state ≢ closed
      → ((after fl b e).state ≢ closed) × (grants_call fl b e ≡ true → InFlight (after fl b e))
  unfolding after grants_call fast_path try_enter_half_open count_call
  after_not_closed b (read now) u h = ground arith
  after_not_closed b (enter now) u h = ground arith
  after_not_closed b (count error slow) u h = ground arith
  after_not_closed b (settles s error slow now) u h = absurd u

  -- From the moment the breaker is open or half-open until the next outcome is recorded, at most one
  -- call gets through, however the locks of concurrent calls interleave.
  pub grants-le-one :
      (b : CircuitBreaker F) (es : List Event)
      → b.state ≢ closed
      → All IsUnsettled es
      → grants fl b es ≤ 1
  unfolding grants
  grants-le-one b [] h u = omega arith
  grants-le-one b (e ∷ es) h u = elim (Bool-cases (grants_call fl b e)) [
    | inl granted ↦
        let taken = (after_not_closed b e u.0 h).1 granted in
        rw granted (omega (arith, (grants-InFlight (after fl b e) es taken u.1).0))
    | inr not_granted ↦
        rw not_granted
          (omega (arith, grants-le-one (after fl b e) es (after_not_closed b e u.0 h).0 u.1))
  ]
