-- ===== src/Hedge/Tests.antt =====
-- The Rust tests of the hedge budget and its trackers as runs, and the theorems at such inputs.
use rust_rtb_bidder.Base.{
  Bool, false, ◌-◌, ℕ, ◌+◌, ◌≤◌, ◌≡◌, refl, true, some, List, [], ◌∷◌, arith,
}
use rust_rtb_bidder.Base.Words.{add64}
use rust_rtb_bidder.Base.Ratio.{Ratio, ratio_ops}
use rust_rtb_bidder.Hedge.{
  new, restore, effective, set_load_shed_rate, Timing, by_second, hedged_call, update_p95,
  trigger_of,
}
use rust_rtb_bidder.Hedge.Budget.{
  Event, consume, finish, drop, adjust, Shared, after, run, tokens_never_grow, hedging_stays_off,
}
use rust_rtb_bidder.Hedge.Lost.{calls_in_turn, given_up, given_up-tokens}
use rust_rtb_bidder.Hedge.Feedback.{
  record_request, record_shed, record_call, snapshot, drain, count_all, Feedback, tick, turns,
  adjusted, turns-adjusted,
}

program : Unit {0}
unfolding new restore effective set_load_shed_rate hedged_call update_p95 trigger_of record_request
    record_shed record_call snapshot drain count_all tick turns adjusted add64
program = tt

-- The original is slow, and the second call overtakes it.
abbrev slow : Timing
slow = record { first = 50; second = 3; cut = some 40 }

-- The caller gives up during the race.
abbrev given_up_call : Timing
given_up_call = record { first = 50; second = 60; cut = some 40 }

hedge_wins : (hedged_call true (new 100) slow 8).ended ≡ by_second
unfolding program
hedge_wins = refl

set_load_shed_rate_contracts_budget :
    (set_load_shed_rate ratio_ops (new 100) (2, 100)).effective_cap ≡ 20
unfolding program
set_load_shed_rate_contracts_budget = refl

abbrev mixed : List (Bool × Timing)
mixed = (true, slow) ∷ (true, given_up_call) ∷ (false, given_up_call) ∷ (true, given_up_call) ∷ []

given_up-tokens_example :
    ((calls_in_turn 8 (new 2) mixed).tokens ≡ 2 - given_up 8 mixed)
    × (2 ≤ given_up 8 mixed
        → (closed_now : Bool) (t : Timing)
        → (hedged_call closed_now (calls_in_turn 8 (new 2) mixed) t 8).calls ≡ 1)
unfolding new
given_up-tokens_example =
    given_up-tokens 8 (new 2) mixed (record { within = omega arith; fits = omega arith })

two_are_given_up : given_up 8 mixed ≡ 2
unfolding given_up
two_are_given_up = refl

abbrev idle : Shared
idle = record {
  budget = record { tokens = 100; nominal = 100; effective_cap = 100 };
  in_flight = 0;
}

abbrev healthy_again : List (Event Ratio)
healthy_again = adjust (0, 1) ∷ consume ∷ finish ∷ drop ∷ []

tokens_never_grow_example :
    (run ratio_ops idle healthy_again).budget.tokens + (run ratio_ops idle healthy_again).in_flight
    ≤ 100 + 0
tokens_never_grow_example = tokens_never_grow ratio_ops idle healthy_again (omega arith)

hedging_stays_off_example :
    let s = run ratio_ops (after ratio_ops idle (adjust (6, 100))) healthy_again in
    (hedged_call true s.budget slow 8).calls ≡ 1
hedging_stays_off_example =
    hedging_stays_off ratio_ops idle (6, 100) healthy_again true slow 8 refl refl

abbrev started : Feedback
started = record {
  prev_total = 0;
  prev_shed = 0;
  hedge = record { budget = idle.budget; p95_ms = 0 };
  latency = record { count = 0; sum_us = 0 };
}

abbrev intervals : List (ℕ × ℕ)
intervals = (1000, 30) ∷ (0, 0) ∷ []

turns-adjusted_example :
    (turns ratio_ops started (record { requests_total = 0; shed_total = 0 }) intervals).hedge.budget
    ≡ adjusted ratio_ops idle.budget intervals
turns-adjusted_example =
    turns-adjusted ratio_ops started (record { requests_total = 0; shed_total = 0 }) intervals refl
      refl (omega arith) (omega arith)
