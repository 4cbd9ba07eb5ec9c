-- ===== src/Pipeline/Limit.antt =====
-- bidder-core/src/pipeline/stages/candidate_limit.rs. The binary heap is the list of its entries, of
-- which a pop takes the least; the list's order stands for the order in which the heap is emptied,
-- which the source leaves open.
pub mod Popped
pub mod Kept
use rust_rtb_bidder.Base.{
  ℕ, suc, Bool, true, false, none, List, [], ◌∷◌, length, map, ltb, leb, if◌then◌else◌,
}
use rust_rtb_bidder.Model.{AdCandidate, BidContext}
use rust_rtb_bidder.Pipeline.{Ran, Stage}
use rust_rtb_bidder.Pipeline.Ranking.{lt_i32}

module _ {F : Type 0} where
  -- `HeapEntry::cmp` gives Less: a lower price, or the same price and a higher id.
  unfoldable pub is_less : AdCandidate F → AdCandidate F → Bool
  is_less a b =
      if lt_i32 a.bid_price_cents b.bid_price_cents
      then true
      else if lt_i32 b.bid_price_cents a.bid_price_cents
      then false
      else ltb b.campaign_id a.campaign_id

  -- The least of the entries, and the others.
  unfoldable pub pop_least :
      AdCandidate F → List (AdCandidate F) → AdCandidate F × List (AdCandidate F)
  pop_least w [] = (w, [])
  pop_least w (c ∷ cs) =
      let r = pop_least (if is_less c w then c else w) cs in
      (r.0, (if is_less c w then w else c) ∷ r.1)

  -- `push`, and `pop` of a heap that is over the limit.
  unfoldable pub push_bounded : ℕ → List (AdCandidate F) → AdCandidate F → List (AdCandidate F)
  push_bounded top_k heap c =
      if ltb top_k (suc (length heap)) then (pop_least c heap).1 else c ∷ heap

  unfoldable pub drain_into : ℕ → List (AdCandidate F) → List (AdCandidate F) → List (AdCandidate F)
  drain_into top_k heap [] = heap
  drain_into top_k heap (c ∷ cs) = drain_into top_k (push_bounded top_k heap c) cs

  unfoldable pub limit_imp : ℕ → List (AdCandidate F) → List (AdCandidate F)
  limit_imp top_k candidates =
      if leb (length candidates) top_k then candidates else drain_into top_k [] candidates

-- `CandidateLimitStage::execute`.
unfoldable pub limit : {E W F V C : Type 0} → ℕ → Stage E W F V C
limit top_k (w, ctx) = record {
  error = none;
  state = (w, record ctx { candidates = map (limit_imp top_k) ctx.candidates });
}
