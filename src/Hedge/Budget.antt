-- ===== src/Hedge/Budget.antt =====
-- The token bucket: its bound, when a hedge fires, and where its tokens go.
use rust_rtb_bidder.Base.{
  ℕ, ◌+◌, ◌-◌, ◌≤◌, ◌<◌, ◌≡◌, ◌≢◌, ◌↔◌, Bool, true, false, List, [], ◌∷◌, arith, FloatOps, ltb,
  if◌then◌else◌,
}
use rust_rtb_bidder.Base.Words.{u64_mod, add64}
use rust_rtb_bidder.Hedge.{
  HedgeBudget, try_consume, restore, effective, set_load_shed_rate, Timing, dropped, is_cut,
  hedged_call,
}

-- The tokens are within the effective capacity, which is a 64-bit number below the largest.
pub record IsValid (b : HedgeBudget) : Type 0 where
  pub within : b.tokens ≤ b.effective_cap
  pub fits : b.effective_cap + 1 < u64_mod

-- A second call is made exactly when the first has not returned by the trigger, the caller still
-- waits, the breaker is closed and a token is left; otherwise one call is made.
pub hedges_iff :
    (breaker_closed : Bool) (b : HedgeBudget) (t : Timing) (trigger : ℕ)
    → (((hedged_call breaker_closed b t trigger).calls ≡ 2) ↔ (
        (trigger < t.first)
        × (is_cut t.cut trigger ≡ false)
        × (breaker_closed ≡ true)
        × (0 < b.tokens)))
      × (((hedged_call breaker_closed b t trigger).calls ≡ 2 → ⊥)
          → (hedged_call breaker_closed b t trigger).calls ≡ 1)
unfolding hedged_call
hedges_iff c b t trigger = ((λ h. ground arith, λ h. ground arith), λ h. ground arith)

-- A call that is not dropped, hedged or not, leaves the budget as it was.
pub hedged_call_returns_token :
    (breaker_closed : Bool) (b : HedgeBudget) (t : Timing) (trigger : ℕ)
    → IsValid b
    → (hedged_call breaker_closed b t trigger).ended ≢ dropped
    → (hedged_call breaker_closed b t trigger).budget ≡ b
unfolding hedged_call restore add64
hedged_call_returns_token c b t trigger v h = ground arith

pub one_call :
    (c : Bool) (b : HedgeBudget) (t : Timing) (trigger : ℕ)
    → b.tokens ≡ 0
    → (hedged_call c b t trigger).calls ≡ 1
unfolding hedged_call
one_call c b t trigger z = ground arith

-- What tasks do to the bucket, in any order: take a token, end a hedged call, drop one, or adjust
-- the capacity.
pub data Event (F : Type 0) : Type 0 where
  consume : Event F
  finish : Event F
  drop : Event F
  adjust : F → Event F

-- The bucket, and the number of hedged calls in flight.
pub record Shared : Type 0 where
  pub budget : HedgeBudget
  pub in_flight : ℕ

module _ {F : Type 0} (fl : FloatOps F) where
  unfoldable pub after : Shared → Event F → Shared
  after s consume = record {
    budget = (try_consume s.budget).0;
    in_flight = if (try_consume s.budget).1 then s.in_flight + 1 else s.in_flight;
  }
  after s finish =
      if ltb 0 s.in_flight
      then record { budget = restore s.budget; in_flight = s.in_flight - 1 }
      else s
  after s drop = record s { in_flight = s.in_flight - 1 }
  after s (adjust rate) = record s { budget = set_load_shed_rate fl s.budget rate }

  unfoldable pub run : Shared → List (Event F) → Shared
  run s [] = s
  run s (e ∷ es) = run (after s e) es

  after_grows_not :
      (s : Shared) (e : Event F)
      → s.budget.tokens + 1 < u64_mod
      → (after s e).budget.tokens + (after s e).in_flight ≤ s.budget.tokens + s.in_flight
  unfolding after restore try_consume add64 set_load_shed_rate
  after_grows_not s consume h = ground arith
  after_grows_not s finish h = ground arith
  after_grows_not s drop h = ground arith
  after_grows_not s (adjust rate) h = ground arith

  -- Tokens in the bucket and in flight together never grow, whatever the calls and the load-shed
  -- rates that follow.
  pub tokens_never_grow :
      (s : Shared) (es : List (Event F))
      → s.budget.tokens + s.in_flight + 1 < u64_mod
      → (run s es).budget.tokens + (run s es).in_flight ≤ s.budget.tokens + s.in_flight
  unfolding run
  tokens_never_grow s [] h = omega arith
  tokens_never_grow s (e ∷ es) h =
      let one = after_grows_not s e (omega arith) in
      omega (arith, one, tokens_never_grow (after s e) es (omega (arith, one)))

  adjust_high :
      (s : Shared) (rate : F)
      → fl.gt rate (fl.literal 5 100) ≡ true
      → ((after s (adjust rate)).budget.tokens ≡ 0)
        × ((after s (adjust rate)).in_flight ≡ s.in_flight)
  unfolding after set_load_shed_rate effective
  adjust_high s rate g = ground arith

  -- Once the load-shed rate has been above 5% while no hedged call was in flight, no call is hedged
  -- any more, at whatever rates later: every call is made once.
  pub hedging_stays_off :
      (s : Shared) (rate : F) (es : List (Event F)) (c : Bool) (t : Timing) (trigger : ℕ)
      → fl.gt rate (fl.literal 5 100) ≡ true
      → s.in_flight ≡ 0
      → (hedged_call c (run (after s (adjust rate)) es).budget t trigger).calls ≡ 1
  hedging_stays_off s rate es c t trigger g z =
      let off = adjust_high s rate g in
      one_call c (run (after s (adjust rate)) es).budget t trigger
        (omega (arith, off, tokens_never_grow (after s (adjust rate)) es (omega (arith, off))))
