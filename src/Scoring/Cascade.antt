-- ===== src/Scoring/Cascade.antt =====
-- Which candidates reach the second stage of a cascade.
use rust_rtb_bidder.Base.{false, ◌≡◌, true, false, List, map, retain, FloatOps}
use rust_rtb_bidder.Model.{AdCandidate}
use rust_rtb_bidder.Scoring.{key_of, sort_by_score}
use rust_rtb_bidder.Scoring.Entries.{Entry}

-- The order of scores that are numbers: not to be greater is a total preorder.
pub record ScoreOrder {F : Type 0} (fl : FloatOps F) : Type 0 where
  pub gt_asym : (a b : F) → fl.gt a b ≡ true → fl.gt b a ≡ false
  pub not_gt_trans : (a b c : F) → fl.gt b a ≡ false → fl.gt c b ≡ false → fl.gt c a ≡ false

module _ {F : Type 0} (fl : FloatOps F) where
  module _ (order : ScoreOrder fl) where
    -- What advances is what passes the threshold, or the best top_k of it.
    passed : F → List (AdCandidate F) → List (Entry fl)
    passed threshold cs =
        retain (λ e. fl.ge e.1 threshold) (sort_by_score fl (map (λ c. (key_of c, c.score)) cs))
