-- ===== src/Pacing.antt =====
-- bidder-core/src/pacing/mod.rs and pacing/local.rs. The map of counters is a function of the
-- campaign id; a counter is an AtomicI64, kept as its 64-bit pattern, and a bid is the pattern of an
-- i32. The warning and the metrics of a missing entry are left out.
pub mod Laws
pub mod Spend
mod Tests
use rust_rtb_bidder.Base.{
  ℕ, ◌+◌, ◌-◌, Bool, true, false, Option, none, some, List, [], ◌∷◌, ltb, ◌==◌, if◌then◌else◌,
}
use rust_rtb_bidder.Base.Words.{u32_mod, u64_mod, add64, sub64, le_i64}

pub data PaceDecision : Type 0 where
  has_budget exhausted : PaceDecision

abbrev pub Counters : Type 0
Counters = ℕ → Option ℕ

abbrev pub store : Counters → ℕ → ℕ → Counters
store p id v j = if j == id then some v else p j

-- `bid_cents as i64`: sign extension.
unfoldable pub as_i64 : ℕ → ℕ
as_i64 x = if ltb x 2_147_483_648 then x else x + (u64_mod - u32_mod)

-- `LocalBudgetPacer::new`.
unfoldable pub new : Counters
new id = none

unfoldable pub check_and_reserve : Counters → ℕ → ℕ → Counters × PaceDecision
check_and_reserve p campaign_id bid_cents = elim (p campaign_id) [
  | none ↦ (p, exhausted)
  | some prev ↦
      let taken = sub64 prev (as_i64 bid_cents) in
      if le_i64 prev 0
      then (store p campaign_id (add64 taken (as_i64 bid_cents)), exhausted)
      else (store p campaign_id taken, has_budget)
]

unfoldable pub release : Counters → ℕ → ℕ → Counters
release p campaign_id bid_cents = elim (p campaign_id) [
  | none ↦ p
  | some v ↦ store p campaign_id (add64 v (as_i64 bid_cents))
]

-- Both arms of the `entry`, `and_modify` and `or_insert_with`, leave the new budget.
unfoldable pub reload : Counters → List (ℕ × ℕ) → Counters
reload p [] = p
reload p ((id, budget_cents) ∷ budgets) = reload (store p id budget_cents) budgets
