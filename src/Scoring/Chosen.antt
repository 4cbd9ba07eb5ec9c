-- ===== src/Scoring/Chosen.antt =====
-- `build_scorer_root` of bidder-server/src/main.rs, on the configuration of
-- bidder-core/src/config/mod.rs: which scorers can be put together. The loading of a model, which
-- may fail, is an argument.
use Prim.Native.String.{String}
use rust_rtb_bidder.Base.{ℕ, Option, none, some, FloatOps, ◌>>=◌}
use rust_rtb_bidder.Scoring.{ScoreOps, Scorer, ab_score_all, cascade_score_all}
use rust_rtb_bidder.Scoring.Features.{feature_weighted}

pub data ScoringKind : Type 0 where
  feature_weighted_kind ml cascade ab_test : ScoringKind

pub record CascadeConfig (F : Type 0) : Type 0 where
  pub stage1 : ScoringKind
  pub stage2 : ScoringKind
  pub top_k : ℕ
  pub threshold : F

pub record AbTestConfig (F : Type 0) : Type 0 where
  pub control : ScoringKind
  pub treatment : ScoringKind
  pub treatment_share : F
  pub hash_seed : String

pub record ScoringConfig (F : Type 0) : Type 0 where
  pub kind : ScoringKind
  pub cascade_cfg : Option (CascadeConfig F)
  pub ab_test_cfg : Option (AbTestConfig F)

module _ {F : Type 0} (fl : FloatOps F) (sc : ScoreOps F) (build_ml : Option (Scorer F)) where
  unfoldable pub build_leaf : ScoringKind → Option (Scorer F)
  build_leaf feature_weighted_kind = some (feature_weighted fl sc)
  build_leaf ml = build_ml
  build_leaf cascade = none
  build_leaf ab_test = none

  module _ (cfg : ScoringConfig F) where
    unfoldable pub build_cascade : Option (Scorer F)
    build_cascade = do
      cascade_cfg ← cfg.cascade_cfg
      stage1 ← build_leaf cascade_cfg.stage1
      stage2 ← build_leaf cascade_cfg.stage2
      some (
          cascade_score_all fl (record {
            stage1 = stage1;
            stage2 = stage2;
            top_k = cascade_cfg.top_k;
            threshold = cascade_cfg.threshold;
          }))

    unfoldable pub build_leaf_or_cascade : ScoringKind → Option (Scorer F)
    build_leaf_or_cascade feature_weighted_kind = some (feature_weighted fl sc)
    build_leaf_or_cascade ml = build_ml
    build_leaf_or_cascade cascade = build_cascade
    build_leaf_or_cascade ab_test = none

    unfoldable pub build_ab_test : Option (Scorer F)
    build_ab_test = do
      ab_cfg ← cfg.ab_test_cfg
      control ← build_leaf_or_cascade ab_cfg.control
      treatment ← build_leaf_or_cascade ab_cfg.treatment
      some (
          ab_score_all fl (record {
            on_control = control;
            on_treatment = treatment;
            treatment_share = ab_cfg.treatment_share;
            hash_seed = ab_cfg.hash_seed;
          }))

    unfoldable pub build_scorer_root : ScoringKind → Option (Scorer F)
    build_scorer_root feature_weighted_kind = some (feature_weighted fl sc)
    build_scorer_root ml = build_ml
    build_scorer_root cascade = build_cascade
    build_scorer_root ab_test = build_ab_test
