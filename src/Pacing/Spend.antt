-- ===== src/Pacing/Spend.antt =====
-- What a campaign can spend: the overshoot of one bid, and the effect of a reload.
use native.Mathlib.Decide.{dec_lt}
use rust_rtb_bidder.Base.{
  length, ℕ, ◌+◌, ◌-◌, ◌*◌, ◌≤◌, ◌<◌, ◌≡◌, ◌⊎◌, refl, Option, none, some, List, [], ◌∷◌, arith,
  ◌==◌, ◌∙◌, inl, inr, if◌then◌else◌, All,
}
use rust_rtb_bidder.Base.Words.{u64_mod, add64, sub64, le_i64, sub64_range, i64_bias}
use rust_rtb_bidder.Pacing.{
  Counters, PaceDecision, has_budget, exhausted, store, as_i64, check_and_reserve, reload,
}

-- The bids of one campaign in turn: what is granted in all, and the counters after them.
abbrev pub counted : PaceDecision → ℕ → ℕ
counted has_budget bid = bid
counted exhausted bid = 0

unfoldable pub reserve_all : Counters → ℕ → List ℕ → Counters
reserve_all p id [] = p
reserve_all p id (bid ∷ bids) = reserve_all (check_and_reserve p id bid).0 id bids

unfoldable pub granted : Counters → ℕ → List ℕ → ℕ
granted p id [] = 0
granted p id (bid ∷ bids) =
    counted (check_and_reserve p id bid).1 bid + granted (check_and_reserve p id bid).0 id bids

-- A counter that is zero or negative: it stays as it is, and grants nothing.
refused :
    (p : Counters) (id v bid : ℕ)
    → p id ≡ some v
    → v < u64_mod
    → bid < 2_147_483_648
    → (v ≡ 0) ⊎ (i64_bias ≤ v)
    → ((check_and_reserve p id bid).1 ≡ exhausted) × ((check_and_reserve p id bid).0 id ≡ some v)
unfolding check_and_reserve as_i64 le_i64 add64 sub64
refused p id v bid e r b n = ground arith

taken :
    (p : Counters) (id v bid : ℕ)
    → p id ≡ some v
    → 0 < v
    → v < i64_bias
    → bid < 2_147_483_648
    → ((check_and_reserve p id bid).1 ≡ has_budget)
      × ((check_and_reserve p id bid).0 id ≡ some (sub64 v bid))
unfolding check_and_reserve as_i64 le_i64
taken p id v bid e l u b = ground arith

granted_none :
    (p : Counters) (id v : ℕ) (bids : List ℕ)
    → p id ≡ some v
    → v < u64_mod
    → All (λ bid. bid < 2_147_483_648) bids
    → (v ≡ 0) ⊎ (i64_bias ≤ v)
    → granted p id bids ≡ 0
unfolding granted
granted_none p id v [] e r b n = refl
granted_none p id v (bid ∷ bids) e r b n =
    let (d, e') = refused p id v bid e r b.0 n in
    rw d (omega (arith, granted_none (check_and_reserve p id bid).0 id v bids e' r b.1 n))

sub64_less : (v bid : ℕ) → bid < v → v < i64_bias → sub64 v bid ≡ v - bid
unfolding sub64
sub64_less v bid h u = omega arith

sub64_more :
    (v bid : ℕ)
    → v ≤ bid
    → 0 < v
    → bid < 2_147_483_648
    → (sub64 v bid ≡ 0) ⊎ (i64_bias ≤ sub64 v bid)
unfolding sub64
sub64_more v bid h l b = elim (dec_lt v bid) [
  | yes p ↦ inr (omega arith)
  | no p ↦ inl (omega arith)
]

All-bounded :
    (m : ℕ) (bids : List ℕ)
    → m < 2_147_483_648
    → All (λ bid. bid ≤ m) bids
    → All (λ bid. bid < 2_147_483_648) bids
All-bounded m [] h a = tt
All-bounded m (bid ∷ bids) h a = (omega arith, All-bounded m bids h a.1)

-- From a budget that is positive, whatever bids follow, none above `m`: the campaign is granted
-- less than its budget and one largest bid together.
pub granted-lt :
    (p : Counters) (id v m : ℕ) (bids : List ℕ)
    → p id ≡ some v
    → 0 < v
    → v < i64_bias
    → m < 2_147_483_648
    → All (λ bid. bid ≤ m) bids
    → granted p id bids < v + m
unfolding granted
granted-lt p id v m [] e l u b a = omega arith
granted-lt p id v m (bid ∷ bids) e l u b a =
    let (d, e') = taken p id v bid e l u (omega arith) in
    rw d (elim (dec_lt bid v) [
      | yes less ↦
          let diff = sub64_less v bid less u in
          let rest =
            granted-lt (check_and_reserve p id bid).0 id (sub64 v bid) m bids e'
              (omega (arith, diff)) (omega (arith, diff)) b a.1 in
          omega (arith, rest, diff)
      | no more ↦
          let rest =
            granted_none (check_and_reserve p id bid).0 id (sub64 v bid) bids e' (sub64_range v bid)
              (All-bounded m bids b a.1) (sub64_more v bid (omega arith) l (omega arith)) in
          omega (arith, rest)
    ])

-- The last budget that a list gives a campaign.
unfoldable pub last_budget : List (ℕ × ℕ) → ℕ → Option ℕ
last_budget [] id = none
last_budget ((j, v) ∷ budgets) id = elim (last_budget budgets id) [
  | none ↦ if id == j then some v else none
  | some w ↦ some w
]

-- After a reload a campaign that is listed has its listed budget, whatever it had spent before, and
-- every other campaign has the counter that it had.
pub reload-last_budget :
    (p : Counters) (budgets : List (ℕ × ℕ)) (id : ℕ)
    → reload p budgets id ≡ elim (last_budget budgets id) [ none ↦ p id | some v ↦ some v ]
unfolding reload last_budget
reload-last_budget p [] id = refl
reload-last_budget p ((j, v) ∷ budgets) id =
    ground (arith, reload-last_budget (store p j v) budgets id)

-- The bids in turn, with a refresh of the catalog after each round, which reloads the same budgets.
unfoldable pub granted_rounds : Counters → List (ℕ × ℕ) → ℕ → List (List ℕ) → ℕ
granted_rounds p budgets id [] = 0
granted_rounds p budgets id (bids ∷ rounds) =
    granted p id bids + granted_rounds (reload (reserve_all p id bids) budgets) budgets id rounds

abbrev pub sum : List ℕ → ℕ
sum [] = 0
sum (x ∷ xs) = x + sum xs

-- Bids that are worth the budget together are granted at least the budget.
granted-ge :
    (p : Counters) (id v : ℕ) (bids : List ℕ)
    → p id ≡ some v
    → 0 < v
    → v < i64_bias
    → All (λ bid. bid < 2_147_483_648) bids
    → v ≤ sum bids
    → v ≤ granted p id bids
unfolding granted
granted-ge p id v [] e l u b s = omega (arith, s)
granted-ge p id v (bid ∷ bids) e l u b s =
    let (d, e') = taken p id v bid e l u b.0 in
    rw d (elim (dec_lt bid v) [
      | yes less ↦
          let diff = sub64_less v bid less u in
          let rest =
            granted-ge (check_and_reserve p id bid).0 id (sub64 v bid) bids e' (omega (arith, diff))
              (omega (arith, diff)) b.1 (omega (arith, diff, s)) in
          omega (arith, rest, diff)
      | no more ↦ omega arith
    ])

-- A round of bids of at most `m` cents, which are worth the budget `b` together.
abbrev pub IsSpent : ℕ → ℕ → List ℕ → Type 0
IsSpent b m bids = All (λ bid. bid ≤ m) bids × (b ≤ sum bids)

-- A refresh forgets what was spent: from a counter at the daily budget of `b` cents, which is
-- positive, over rounds of bids with refreshes between them that reload the same budget, each round
-- with bids that are worth at least that budget together and none above `m` cents, the campaign is
-- granted at least as many times its daily budget as there are rounds, and at most that many times the
-- budget and one largest bid together.
pub granted_rounds-mul :
    (p : Counters) (budgets : List (ℕ × ℕ)) (id b m : ℕ) (rounds : List (List ℕ))
    → p id ≡ some b
    → last_budget budgets id ≡ some b
    → 0 < b
    → b < i64_bias
    → m < 2_147_483_648
    → All (IsSpent b m) rounds
    → (length rounds * b ≤ granted_rounds p budgets id rounds)
      × (granted_rounds p budgets id rounds ≤ length rounds * (b + m))
unfolding granted_rounds
granted_rounds-mul p budgets id b m [] e s l u k a = (omega arith, omega arith)
granted_rounds-mul p budgets id b m (bids ∷ rounds) e s l u k ((a, w), rest) =
    let least = granted-ge p id b bids e l u (All-bounded m bids k a) w in
    let most = granted-lt p id b m bids e l u k a in
    let again : reload (reserve_all p id bids) budgets id ≡ some b =
      reload-last_budget (reserve_all p id bids) budgets id ∙ rw s refl in
    let (low, high) =
      granted_rounds-mul (reload (reserve_all p id bids) budgets) budgets id b m rounds again s l u
        k rest in
    (omega (arith, least, low), omega (arith, most, high))
