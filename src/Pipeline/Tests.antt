-- ===== src/Pipeline/Tests.antt =====
-- Two campaigns that compete for one impression, and the theorems at this request.
use Prim.Native.String.{String}
use mathlib.Core.List.{Perm}
use rust_rtb_bidder.Base.{
  ℕ, ◌*◌, ◌≡◌, refl, true, none, some, List, [], ◌∷◌, ◌++◌, arith, ◌==◌, inl, if◌then◌else◌,
}
use rust_rtb_bidder.Base.Words.{add64, sub64, le_i64}
use rust_rtb_bidder.Base.Ratio.{Ratio, ratio_ops}
use rust_rtb_bidder.Model.{AdCandidate, Imp, BidRequest, BidContext, pending}
use rust_rtb_bidder.Pacing.{Counters, as_i64, check_and_reserve, release}
use rust_rtb_bidder.Pipeline.{Stage, execute, go_on, is_no_bid}
use rust_rtb_bidder.Base.{All, length}
use rust_rtb_bidder.Pipeline.Limit.{limit_imp, drain_into, push_bounded, pop_least, is_less}
use rust_rtb_bidder.Pipeline.Limit.Kept.{limit_imp-keeps_best}
use rust_rtb_bidder.Pipeline.Limit.Popped.{Above}
use rust_rtb_bidder.Pipeline.Budget.{pace, pace_imps, pace_imp, reserve_each, keep_reserved}
use rust_rtb_bidder.Pipeline.Ranking.{
  rank, rank_imps, winner_of, best, ranks_above, release_each, losers, lt_i32, win, imp_id_at,
}
use rust_rtb_bidder.Pipeline.Response.{build_response, no_notice_url, settled}
use rust_rtb_bidder.Pipeline.Validation.{JsonOps, validate, is_under_gdpr}
use rust_rtb_bidder.Pipeline.Answers.{
  IsAnswered, execute-IsAnswered, late_stages_never_run, execute-IsRefused,
}
use rust_rtb_bidder.Pipeline.Accounts.{IsBooked, spent_is_won}

program : Unit {0}
unfolding execute go_on pace pace_imps pace_imp reserve_each keep_reserved rank rank_imps winner_of
    best ranks_above release_each losers lt_i32 win imp_id_at check_and_reserve release as_i64 add64
    sub64 le_i64 build_response settled validate is_under_gdpr
program = tt

abbrev ad : ℕ → ℕ → ℕ → AdCandidate Ratio
ad id price score = record {
  campaign_id = id;
  creative_id = id;
  bid_price_cents = price;
  score = (score, 1);
  daily_cap_imps = 10;
  hourly_cap_imps = 5;
}

abbrev slot : String → Imp
slot id = record { id = id; banner = some tt; video = none; audio = none; native = none }

abbrev request : String → BidRequest (Unit {0})
request id = record { id = id; imp = slot "1" ∷ []; device = none; user = none; regs = none }

abbrev context : String → BidContext Ratio (Unit {0}) (Unit {0})
context id = record {
  request = request id;
  outcome = pending;
  segment_ids = [];
  catalog = none;
  candidates = (ad 1 30 2 ∷ ad 2 40 3 ∷ []) ∷ [];
  winners = [];
  freq_cap_results = [];
  bid_response = none;
}

abbrev counters : Counters
counters id = if id == 1 then some 100 else if id == 2 then some 100 else none

abbrev texts : JsonOps (Unit {0})
texts = record { get = λ v s. none; as_str = λ v. none }

abbrev brief : Stage (Unit {0}) Counters Ratio (Unit {0}) (Unit {0})
brief = build_response ratio_ops (λ fields. tt) no_notice_url "adx"

abbrev auction : List (Stage (Unit {0}) Counters Ratio (Unit {0}) (Unit {0}))
auction = pace ∷ rank ratio_ops ∷ []

loser_is_repaid : (execute 50 (λ n. n) auction (counters, context "r")).state.0 1 ≡ some 100
unfolding program
loser_is_repaid = refl

winner_pays : (execute 50 (λ n. n) auction (counters, context "r")).state.0 2 ≡ some 60
unfolding program
winner_pays = refl

spent_is_won_example : IsBooked 2 100 (execute 50 (λ n. n) auction (counters, context "r")).state
spent_is_won_example =
    spent_is_won (Unit {0}) (Unit {0}) (Unit {0}) ratio_ops 50 (λ n. n) counters (context "r") 2 100
      (omega arith) (omega arith) refl (omega arith) ((refl, (refl, tt)), tt)
      ((omega arith, (omega arith, tt)), tt) refl refl

runs : (execute 50 (λ n. n) (auction ++ (brief ∷ [])) (counters, context "r")).error ≡ none
unfolding program
runs = refl

execute-IsAnswered_example :
    IsAnswered ratio_ops
      (λ fields. tt)
      no_notice_url
      "adx"
      (execute 50 (λ n. n) (auction ++ (brief ∷ [])) (counters, context "r")).state.1
execute-IsAnswered_example =
    execute-IsAnswered ratio_ops (λ fields. tt) no_notice_url "adx" 50 auction (λ n. n)
      (counters, context "r") runs

late_stages_never_run_example :
    execute 50 (λ n. n * 50) (pace ∷ (rank ratio_ops ∷ [])) (counters, context "r")
    ≡ execute 50 (λ n. n * 50) (pace ∷ (brief ∷ [])) (counters, context "r")
late_stages_never_run_example =
    late_stages_never_run 50 (pace ∷ []) (rank ratio_ops) brief [] [] (λ n. n * 50)
      (counters, context "r") (omega arith)

execute-IsRefused_example :
    ((execute 50 (λ n. n) (validate texts ∷ auction) (counters, context "")).state.0 ≡ counters)
    × (is_no_bid
          (execute 50 (λ n. n) (validate texts ∷ auction) (counters, context "")).state.1.outcome
        ≡ true)
execute-IsRefused_example =
    (execute-IsRefused texts 50 auction (λ n. n) counters (context "")).0 (inl refl)

limit_imp-keeps_best_example :
    (dropped : List (AdCandidate Ratio)) × ((length (limit_imp 1 (ad 1 30 2 ∷ ad 2 40 3 ∷ [])) ≡ 1)
      × (Perm (limit_imp 1 (ad 1 30 2 ∷ ad 2 40 3 ∷ []) ++ dropped) (ad 1 30 2 ∷ ad 2 40 3 ∷ [])
          × All (λ d. Above d (limit_imp 1 (ad 1 30 2 ∷ ad 2 40 3 ∷ []))) dropped))
limit_imp-keeps_best_example =
    limit_imp-keeps_best 1 (ad 1 30 2 ∷ ad 2 40 3 ∷ []) (omega arith, (omega arith, tt))

cheapest_is_dropped : limit_imp 1 (ad 1 30 2 ∷ ad 2 40 3 ∷ []) ≡ ad 2 40 3 ∷ []
unfolding limit_imp drain_into push_bounded pop_least is_less lt_i32
cheapest_is_dropped = refl
