-- ===== src/Hedge/Lost.antt =====
-- The tokens that are lost with the hedged calls whose caller gives up.
use rust_rtb_bidder.Base.{
  ℕ, ◌+◌, ◌-◌, min, ◌≤◌, ◌≡◌, Bool, not, ◌&&◌, List, [], ◌∷◌, arith, ltb, if◌then◌else◌,
}
use rust_rtb_bidder.Base.Words.{add64}
use rust_rtb_bidder.Hedge.{HedgeBudget, restore, Timing, is_cut, hedged_call}
use rust_rtb_bidder.Hedge.Budget.{IsValid, one_call}

-- The calls in turn, each with whether the breaker is closed at it, and the bucket after them.
unfoldable pub calls_in_turn : ℕ → HedgeBudget → List (Bool × Timing) → HedgeBudget
calls_in_turn trigger b [] = b
calls_in_turn trigger b ((closed_now, t) ∷ ts) =
    calls_in_turn trigger (hedged_call closed_now b t trigger).budget ts

-- The caller gives up after the trigger and before either attempt would have ended.
abbrev pub gives_up : ℕ → Timing → Bool
gives_up trigger t = not (is_cut t.cut trigger) && is_cut t.cut (min t.first (trigger + t.second))

-- How many calls of the list are slower than the trigger, with a closed breaker, and given up so.
unfoldable pub given_up : ℕ → List (Bool × Timing) → ℕ
given_up trigger [] = 0
given_up trigger ((closed_now, t) ∷ ts) =
    (if closed_now && (ltb trigger t.first && gives_up trigger t) then 1 else 0)
    + given_up trigger ts

call-tokens :
    (closed_now : Bool) (b : HedgeBudget) (t : Timing) (trigger : ℕ)
    → IsValid b
    → let b' = (hedged_call closed_now b t trigger).budget in
      (b'.tokens
        ≡ b.tokens - (if closed_now && (ltb trigger t.first && gives_up trigger t) then 1 else 0))
      × (b'.effective_cap ≡ b.effective_cap)
unfolding hedged_call restore add64
call-tokens c b t trigger v = (ground arith, ground arith)

calls-tokens :
    (trigger : ℕ) (b : HedgeBudget) (ts : List (Bool × Timing))
    → IsValid b
    → (calls_in_turn trigger b ts).tokens ≡ b.tokens - given_up trigger ts
unfolding calls_in_turn given_up
calls-tokens trigger b [] v = omega arith
calls-tokens trigger b ((c, t) ∷ ts) v =
    let (e, f) = call-tokens c b t trigger v in
    let ih =
      calls-tokens trigger (hedged_call c b t trigger).budget ts
        (record { within = omega (arith, e, f, v.within); fits = omega (arith, f, v.fits) }) in
    omega (arith, ih, e)

-- Calls in turn on a bucket within its capacity, hedged or not, take exactly as many tokens as there
-- are calls that are slower than the trigger while the breaker is closed and whose caller gives up
-- during the race, as the timeout of the frequency capper does, as long as there are any: no other
-- call costs one, and none comes back. Once as many were given up as there were tokens, every later
-- call is made once.
pub given_up-tokens :
    (trigger : ℕ) (b : HedgeBudget) (ts : List (Bool × Timing))
    → IsValid b
    → ((calls_in_turn trigger b ts).tokens ≡ b.tokens - given_up trigger ts)
      × (b.tokens ≤ given_up trigger ts
          → (closed_now : Bool) (t : Timing)
          → (hedged_call closed_now (calls_in_turn trigger b ts) t trigger).calls ≡ 1)
given_up-tokens trigger b ts v =
    let left = calls-tokens trigger b ts v in
    (left, λ h c t. one_call c _ t trigger (omega (arith, left, h)))
