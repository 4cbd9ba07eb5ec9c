-- ===== src/Pipeline/Budget.antt =====
-- bidder-core/src/pipeline/stages/budget_pacing.rs. The set of exhausted campaigns is the list of
-- their ids.
use rust_rtb_bidder.Base.{
  ℕ, not, none, List, [], ◌∷◌, is_empty, retain, contains, any, if◌then◌else◌,
}
use rust_rtb_bidder.Model.{AdCandidate, no_bid_for, no_eligible_bids}
use rust_rtb_bidder.Pacing.{Counters, has_budget, exhausted, check_and_reserve}
use rust_rtb_bidder.Pipeline.{Stage}

module _ {F : Type 0} where
  -- The inner loop: the counters after it, and `exhausted_ids`.
  unfoldable pub reserve_each : Counters → List (AdCandidate F) → Counters × List ℕ
  reserve_each p [] = (p, [])
  reserve_each p (candidate ∷ candidates) =
      let r = check_and_reserve p candidate.campaign_id candidate.bid_price_cents in
      let rest = reserve_each r.0 candidates in
      elim (r.1) [ has_budget ↦ rest | exhausted ↦ (rest.0, candidate.campaign_id ∷ rest.1) ]

  unfoldable pub keep_reserved : List ℕ → List (AdCandidate F) → List (AdCandidate F)
  keep_reserved exhausted_ids = retain (λ c. not (contains exhausted_ids c.campaign_id))

  -- The outer loop's body, on the candidates of one impression.
  unfoldable pub pace_imp : Counters → List (AdCandidate F) → Counters × List (AdCandidate F)
  pace_imp p candidates =
      if is_empty candidates
      then (p, candidates)
      else let r = reserve_each p candidates in
        (r.0, if is_empty r.1 then candidates else keep_reserved r.1 candidates)

  unfoldable pub pace_imps :
      Counters → List (List (AdCandidate F)) → Counters × List (List (AdCandidate F))
  pace_imps p [] = (p, [])
  pace_imps p (candidates ∷ imps) =
      let r = pace_imp p candidates in let rest = pace_imps r.0 imps in (rest.0, r.1 ∷ rest.1)

-- `BudgetPacingStage::execute`.
unfoldable pub pace : {E F V C : Type 0} → Stage E Counters F V C
pace (p, ctx) =
    let r = pace_imps p ctx.candidates in
    record {
      error = none;
      state = (
        r.0,
        record ctx {
          candidates = r.1;
          outcome =
              if any (λ v. not (is_empty v)) r.1 then ctx.outcome else no_bid_for no_eligible_bids;
        },
      );
    }
