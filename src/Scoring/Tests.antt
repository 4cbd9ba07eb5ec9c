-- ===== src/Scoring/Tests.antt =====
-- Scorers over fractions, and the theorems at three candidates.
use rust_rtb_bidder.Base.{
  ℕ, ◌+◌, min, ◌≡◌, refl, arith, true, false, none, some, List, [], ◌∷◌, ltb,
}
use rust_rtb_bidder.Base.Ratio.{whole}
use rust_rtb_bidder.Model.{AdCandidate, BidContext, pending}
use rust_rtb_bidder.Scoring.{
  ScoreOps, Scorer, hash_bytes, advancing, take, insert_by_score, sort_by_score, cascade_score_all,
}
use rust_rtb_bidder.Scoring.Cascade.{ScoreOrder}
use rust_rtb_bidder.Scoring.Chosen.{feature_weighted_kind, cascade, ScoringConfig}
use rust_rtb_bidder.Scoring.Features.{feature_weighted, score}

abbrev whole_score : ScoreOps ℕ
whole_score = record { add = λ a b. a + b; minimum = min; clamp = λ x a b. x; ln = λ x. x }

whole-gt_asym : (a b : ℕ) → ltb b a ≡ true → ltb a b ≡ false
whole-gt_asym a b h = ground arith

whole-not_gt : (a b c : ℕ) → ltb a b ≡ false → ltb b c ≡ false → ltb a c ≡ false
whole-not_gt a b c h k = ground arith

abbrev whole-scores : ScoreOrder whole
whole-scores = record { gt_asym = whole-gt_asym; not_gt_trans = whole-not_gt }

-- The published value of FNV-1a for the text `a`, here behind the separator.
hash_of_a : hash_bytes 14_695_981_039_346_656_037 (97 ∷ []) ≡ 12_638_187_200_555_641_996
unfolding hash_bytes
hash_of_a = refl

abbrev ad : ℕ → ℕ → AdCandidate ℕ
ad id score = record {
  campaign_id = id;
  creative_id = id;
  bid_price_cents = 10;
  score = score;
  daily_cap_imps = 1;
  hourly_cap_imps = 1;
}

abbrev ads : List (AdCandidate ℕ)
ads = ad 1 3 ∷ ad 2 9 ∷ ad 3 5 ∷ ad 4 0 ∷ []

best_two : advancing whole 2 1 ads ≡ ((2, 2), 9) ∷ ((3, 3), 5) ∷ []
unfolding advancing take sort_by_score insert_by_score
best_two = refl

abbrev config : ScoringConfig ℕ
config = record {
  kind = cascade;
  cascade_cfg = some (record {
    stage1 = feature_weighted_kind;
    stage2 = feature_weighted_kind;
    top_k = 2;
    threshold = 1;
  });
  ab_test_cfg = none;
}

abbrev built : Scorer ℕ
built = cascade_score_all whole (record {
  stage1 = feature_weighted whole whole_score;
  stage2 = feature_weighted whole whole_score;
  top_k = 2;
  threshold = 1;
})

abbrev context : BidContext ℕ (Unit {0}) (Unit {0})
context = record {
  request = record { id = "r"; imp = []; device = none; user = none; regs = none };
  outcome = pending;
  segment_ids = [];
  catalog = none;
  candidates = ads ∷ [];
  winners = [];
  freq_cap_results = [];
  bid_response = none;
}
