-- ===== src/Ml/Kept.antt =====
-- What scoring with a model leaves of the candidates: everything but their scores, as any other scorer.
use rust_rtb_bidder.Base.{
  subst, ℕ, ◌≡◌, refl, ap, ◌∙◌, true, Option, none, some, List, [], ◌∷◌, map, if_intro, FloatOps,
  ◌>>=◌,
}
use rust_rtb_bidder.Model.{AdCandidate, BidContext}
use rust_rtb_bidder.Scoring.{ScoreOps, ScoringContext, Scorer}
use rust_rtb_bidder.Scoring.Chosen.{ScoringConfig, build_scorer_root}
use rust_rtb_bidder.Scoring.Features.{feature_weighted, score}
use rust_rtb_bidder.Scoring.Kept.{
  root-Sound, unscored, OnlyScores, Sound, weighted-OnlyScores, and_then-Sound,
  scoring_keeps_candidates,
}
use rust_rtb_bidder.Ml.{
  MlScorerConfig, ModelSnapshot, MlRuntime, new_with_fallback, validate, reset, ml_score_all,
  build_ml,
}
use rust_rtb_bidder.Ml.Windows.{with_scores-unscored}
use rust_rtb_bidder.Ml.Batches.{all_or_none, ml_score_all-all_or_none}

module _ {F S : Type 0} (rt : MlRuntime F S) (fl : FloatOps F) (sc : ScoreOps F) where
  module _ (cfg : MlScorerConfig) (scorer : Scorer F) (loads : ℕ → ModelSnapshot S) where
    reset-unscored :
        (ctx : ScoringContext) (cs : List (AdCandidate F))
        → map unscored (map (reset rt fl sc cfg ctx) cs) ≡ map unscored cs
    reset-unscored ctx [] = refl
    reset-unscored ctx (c ∷ cs) = ap (λ r. unscored c ∷ r) (reset-unscored ctx cs)

    all_or_none-unscored :
        (ctx : ScoringContext) (cs : List (AdCandidate F)) (o : Option (List F))
        → OnlyScores scorer
        → map unscored (all_or_none rt fl sc cfg ctx (some scorer) loads cs o) ≡ map unscored cs
    all_or_none-unscored ctx cs none h = h _ ctx ∙ reset-unscored ctx cs
    all_or_none-unscored ctx cs (some v) h = with_scores-unscored cs v

    ml-OnlyScores :
        validate cfg ≡ true
        → OnlyScores scorer
        → OnlyScores (ml_score_all rt fl sc cfg (some scorer) loads)
    ml-OnlyScores v h cs ctx =
        ap (map unscored) (ml_score_all-all_or_none rt fl sc cfg ctx (some scorer) loads cs v)
        ∙ all_or_none-unscored ctx cs _ h

  build_ml-Sound :
      (ml : Option MlScorerConfig) (now : ℕ) (loads : ℕ → ModelSnapshot S)
      → Sound fl sc (build_ml rt fl sc ml now loads)
  unfolding build_ml new_with_fallback
  build_ml-Sound none now loads = tt
  build_ml-Sound (some cfg) now loads =
      if_intro {A = Option (ModelSnapshot S)} (λ o. Sound fl sc (o >>= λ _. some built))
        (validate cfg) _ none
        (λ v.
          and_then-Sound fl sc _ (λ _. some built)
            (λ _. ml-OnlyScores cfg (feature_weighted fl sc) loads v (weighted-OnlyScores fl sc)))
        (λ _. tt)
    where
      built : Scorer F
      built = ml_score_all rt fl sc cfg (some (feature_weighted fl sc)) loads

  -- Whatever scorer the configuration asks for only scores, if it is built.
  pub configured-OnlyScores :
      (cfg : ScoringConfig F) (ml : Option MlScorerConfig) (now : ℕ) (loads : ℕ → ModelSnapshot S)
      (s : Scorer F)
      → build_scorer_root fl sc (build_ml rt fl sc ml now loads) cfg cfg.kind ≡ some s
      → OnlyScores s
  configured-OnlyScores cfg ml now loads s e =
      subst (Sound fl sc) e (
        root-Sound fl sc (build_ml rt fl sc ml now loads) cfg (build_ml-Sound ml now loads)
          cfg.kind)

  -- Whatever scorer the configuration asks for, the model's scorer included, however the model was
  -- loaded and whatever the runtime answers: if the scorer is built, the scoring stage with it gives no
  -- error and leaves the shared state, the outcome and every candidate list in its order, with the
  -- campaign, the creative, the price and the caps of each candidate.
  pub configured_scoring_keeps_candidates :
      {E W V C : Type 0} (cfg : ScoringConfig F) (ml : Option MlScorerConfig) (now : ℕ)
      (loads : ℕ → ModelSnapshot S) (secs : ℕ) (w : W) (ctx : BidContext F V C) (s : Scorer F)
      → build_scorer_root fl sc (build_ml rt fl sc ml now loads) cfg cfg.kind ≡ some s
      → let ran = score s {E = E} secs (w, ctx) in
        (ran.error ≡ none)
        × ((ran.state.0 ≡ w)
            × ((ran.state.1.outcome ≡ ctx.outcome)
                × (map (map unscored) ran.state.1.candidates ≡ map (map unscored) ctx.candidates)))
  configured_scoring_keeps_candidates cfg ml now loads =
      scoring_keeps_candidates fl sc (build_ml rt fl sc ml now loads) cfg
        (build_ml-Sound ml now loads)
