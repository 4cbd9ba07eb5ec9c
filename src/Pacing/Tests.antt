-- ===== src/Pacing/Tests.antt =====
-- The Rust tests of the pacer as runs, and the theorems at such inputs.
use rust_rtb_bidder.Base.{
  List, ◌≤◌, ℕ, ◌+◌, ◌*◌, ◌<◌, ◌≡◌, refl, some, none, [], ◌∷◌, arith, ◌==◌, if◌then◌else◌,
}
use rust_rtb_bidder.Base.Words.{u64_mod, add64, sub64, le_i64}
use rust_rtb_bidder.Pacing.{Counters, exhausted, new, as_i64, check_and_reserve, release, reload}
use rust_rtb_bidder.Pacing.Laws.{IsValid}
use rust_rtb_bidder.Pacing.Spend.{
  granted, granted-lt, last_budget, granted_rounds, granted_rounds-mul,
}

program : Unit {0}
unfolding new check_and_reserve release reload as_i64 add64 sub64 le_i64 granted last_budget
program = tt

pacer_with : ℕ → Counters
pacer_with b id = if id == 1 then some b else none

overshoot : granted (pacer_with 50) 1 (100 ∷ 1 ∷ []) ≡ 100
unfolding program pacer_with
overshoot = refl

missing_campaign_is_exhausted : (check_and_reserve new 99 10).1 ≡ exhausted
unfolding program
missing_campaign_is_exhausted = refl

pacer_with-IsValid : (b : ℕ) → b < u64_mod → IsValid (pacer_with b)
unfolding pacer_with
pacer_with-IsValid b h id v e = ground arith

granted-lt_example : granted (pacer_with 50) 1 (30 ∷ 30 ∷ 30 ∷ []) < 50 + 30
unfolding pacer_with
granted-lt_example =
    granted-lt (pacer_with 50) 1 50 30 (30 ∷ 30 ∷ 30 ∷ []) refl (omega arith) (omega arith)
      (omega arith) (omega arith)

abbrev two_rounds : List (List ℕ)
two_rounds = (300 ∷ 250 ∷ []) ∷ (500 ∷ []) ∷ []

granted_rounds-mul_example :
    (2 * 500 ≤ granted_rounds (pacer_with 500) ((1, 500) ∷ []) 1 two_rounds)
    × (granted_rounds (pacer_with 500) ((1, 500) ∷ []) 1 two_rounds ≤ 2 * (500 + 500))
unfolding program pacer_with
granted_rounds-mul_example =
    granted_rounds-mul (pacer_with 500) ((1, 500) ∷ []) 1 500 500 two_rounds refl refl (omega arith)
      (omega arith) (omega arith)
      (((omega arith, (omega arith, tt)), omega arith), (((omega arith, tt), omega arith), tt))
