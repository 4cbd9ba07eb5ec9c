-- ===== src/Pipeline/Ranking.antt =====
-- bidder-core/src/pipeline/stages/ranking.rs.
use Prim.Native.String.{String}
use rust_rtb_bidder.Base.{
  ℕ, zero, suc, ◌+◌, ◌%◌, Bool, true, false, not, Option, none, some, List, [], ◌∷◌, ◌++◌, is_empty,
  retain, ltb, ◌==◌, if◌then◌else◌, FloatOps,
}
use rust_rtb_bidder.Base.Words.{u32_mod}
use rust_rtb_bidder.Model.{
  AdCandidate, ImpWinner, Imp, bid, no_bid_for, no_eligible_bids, to_string,
}
use rust_rtb_bidder.Pacing.{Counters, release}
use rust_rtb_bidder.Pipeline.{Stage}

-- `a < b` of two i32.
unfoldable pub lt_i32 : ℕ → ℕ → Bool
lt_i32 a b = ltb ((a + 2_147_483_648) % u32_mod) ((b + 2_147_483_648) % u32_mod)

-- The id of the impression with this index, or the index in decimal.
unfoldable pub imp_id_at : List Imp → ℕ → ℕ → String
imp_id_at [] idx n = to_string idx
imp_id_at (i ∷ imps) idx zero = i.id
imp_id_at (i ∷ imps) idx (suc n) = imp_id_at imps idx n

module _ {F : Type 0} (fl : FloatOps F) where
  -- The comparison of `max_by` gives Greater: a score that is not a number counts as equal.
  unfoldable pub ranks_above : AdCandidate F → AdCandidate F → Bool
  ranks_above a b =
      if fl.gt a.score b.score
      then true
      else if fl.gt b.score a.score
      then false
      else lt_i32 b.bid_price_cents a.bid_price_cents

  -- `Iterator::max_by`: of two equal ones the later.
  unfoldable pub best : AdCandidate F → List (AdCandidate F) → AdCandidate F
  best w [] = w
  best w (c ∷ cs) = best (if ranks_above w c then w else c) cs

  unfoldable pub winner_of : List (AdCandidate F) → Option (AdCandidate F)
  winner_of [] = none
  winner_of (c ∷ cs) = some (best c cs)

module _ {F : Type 0} where
  unfoldable pub release_each : Counters → List (AdCandidate F) → Counters
  release_each p [] = p
  release_each p (c ∷ cs) = release_each (release p c.campaign_id c.bid_price_cents) cs

  unfoldable pub losers : ℕ → List (AdCandidate F) → List (AdCandidate F)
  losers winner_id = retain (λ c. not (c.campaign_id == winner_id))

  unfoldable pub win : String → AdCandidate F → ImpWinner F
  win imp_id w = record {
    imp_id = imp_id;
    campaign_id = w.campaign_id;
    creative_id = w.creative_id;
    bid_price_cents = w.bid_price_cents;
    score = w.score;
  }

module _ {F : Type 0} (fl : FloatOps F) where
  -- The loop over the impressions from the index `idx` on: the counters, and the new winners.
  unfoldable pub rank_imps :
      List Imp → ℕ → Counters → List (List (AdCandidate F)) → Counters × List (ImpWinner F)
  rank_imps imps idx p [] = (p, [])
  rank_imps imps idx p (candidates ∷ rest) = elim (winner_of fl candidates) [
    | none ↦ rank_imps imps (suc idx) p rest
    | some w ↦
        let after =
          rank_imps imps (suc idx) (release_each p (losers w.campaign_id candidates)) rest in
        (after.0, win (imp_id_at imps idx idx) w ∷ after.1)
  ]

  -- `RankingStage::execute`.
  unfoldable pub rank : {E V C : Type 0} → Stage E Counters F V C
  rank (p, ctx) =
      let r = rank_imps ctx.request.imp 0 p ctx.candidates in
      let winners = ctx.winners ++ r.1 in
      record {
        error = none;
        state = (
          r.0,
          record ctx {
            winners = winners;
            outcome = if is_empty winners then no_bid_for no_eligible_bids else bid;
          },
        );
      }
