-- ===== src/Scoring/Kept.antt =====
-- What scoring leaves of the candidates: everything but their scores.
use rust_rtb_bidder.Base.{
  ℕ, ◌≡◌, refl, ap, subst, ◌∙◌, Option, none, some, List, [], ◌∷◌, map, is_empty, if_intro,
  FloatOps, ◌>>=◌,
}
use rust_rtb_bidder.Model.{AdCandidate, BidContext, Imp}
use rust_rtb_bidder.Catalog.{AdFormat}
use rust_rtb_bidder.Scoring.{
  ScoreOps, ScoringContext, Scorer, AbTestScorer, CascadeScorer, Arm, control, treatment, pick_arm,
  on_arm, ab_score_all, cascade_score_all, second_stage, write_back, with_score, score_for, key_of,
  advancing,
}
use rust_rtb_bidder.Scoring.Features.{
  feature_weighted, format_at, rest_of, score_imps, score, context_of,
}
use rust_rtb_bidder.Scoring.Chosen.{
  ScoringKind, feature_weighted_kind, ml, cascade, ab_test, ScoringConfig, build_leaf,
  build_cascade, build_leaf_or_cascade, build_ab_test, build_scorer_root,
}

module _ {F : Type 0} where
  -- A candidate but for its score: the campaign and the creative, the price, and the two caps.
  abbrev pub unscored : AdCandidate F → (ℕ × ℕ) × (ℕ × (ℕ × ℕ))
  unscored c =
      ((c.campaign_id, c.creative_id), (c.bid_price_cents, (c.daily_cap_imps, c.hourly_cap_imps)))

  -- A scorer that neither drops nor reorders, and changes scores only.
  abbrev pub OnlyScores : Scorer F → Type 0
  OnlyScores s =
      (cs : List (AdCandidate F)) (ctx : ScoringContext) → map unscored (s cs ctx) ≡ map unscored cs

  unscored-with_score : (c : AdCandidate F) (o : Option F) → unscored (with_score c o) ≡ unscored c
  unscored-with_score c none = refl
  unscored-with_score c (some s) = refl

  map-write_back :
      (scored cs : List (AdCandidate F))
      → map unscored (map (write_back scored) cs) ≡ map unscored cs
  unfolding write_back
  map-write_back scored [] = refl
  map-write_back scored (c ∷ cs) =
      λ i. unscored-with_score c (score_for scored (key_of c)) i ∷ map-write_back scored cs i

  module _ (fl : FloatOps F) where
    cascade-OnlyScores :
        (s : CascadeScorer F) → OnlyScores s.stage1 → OnlyScores (cascade_score_all fl s)
    unfolding cascade_score_all second_stage
    cascade-OnlyScores s h cs ctx =
        if_intro {A = List (AdCandidate F)} (λ r. map unscored r ≡ map unscored cs) (is_empty cs) _
          _ (λ _. refl)
          (λ _.
            if_intro {A = List (AdCandidate F)} (λ r. map unscored r ≡ map unscored cs)
              (is_empty (advancing fl s.top_k s.threshold (s.stage1 cs ctx))) _ _ (λ _. h cs ctx)
              (λ _. map-write_back _ (s.stage1 cs ctx) ∙ h cs ctx))

    on_arm-OnlyScores :
        (s : AbTestScorer F) (arm : Arm)
        → OnlyScores s.on_control
        → OnlyScores s.on_treatment
        → OnlyScores (on_arm fl s arm)
    on_arm-OnlyScores s control h k = h
    on_arm-OnlyScores s treatment h k = k

    ab-OnlyScores :
        (s : AbTestScorer F)
        → OnlyScores s.on_control
        → OnlyScores s.on_treatment
        → OnlyScores (ab_score_all fl s)
    unfolding ab_score_all
    ab-OnlyScores s h k cs ctx =
        on_arm-OnlyScores s (pick_arm fl s.treatment_share s.hash_seed ctx.user_id) h k cs ctx

    module _ (sc : ScoreOps F) where
      pub weighted-OnlyScores : OnlyScores (feature_weighted fl sc)
      unfolding feature_weighted
      weighted-OnlyScores [] ctx = refl
      weighted-OnlyScores (c ∷ cs) ctx = ap (λ r. unscored c ∷ r) (weighted-OnlyScores cs ctx)

      -- Whatever was built only scores.
      abbrev pub Sound : Option (Scorer F) → Type 0
      Sound none = Unit
      Sound (some s) = OnlyScores s

      pub and_then-Sound :
          {A : Type 0} (o : Option A) (f : A → Option (Scorer F))
          → ((a : A) → Sound (f a))
          → Sound (o >>= f)
      and_then-Sound none f h = tt
      and_then-Sound (some a) f h = h a

      scorer-Sound :
          (o : Option (Scorer F)) (f : Scorer F → Option (Scorer F))
          → Sound o
          → ((s : Scorer F) → OnlyScores s → Sound (f s))
          → Sound (o >>= f)
      scorer-Sound none f o h = tt
      scorer-Sound (some s) f o h = h s o

      module _ (build_ml : Option (Scorer F)) (cfg : ScoringConfig F) (h : Sound build_ml) where
        leaf-Sound : (kind : ScoringKind) → Sound (build_leaf fl sc build_ml kind)
        unfolding build_leaf
        leaf-Sound feature_weighted_kind = weighted-OnlyScores
        leaf-Sound ml = h
        leaf-Sound cascade = tt
        leaf-Sound ab_test = tt

        cascade-Sound : Sound (build_cascade fl sc build_ml cfg)
        unfolding build_cascade
        cascade-Sound = and_then-Sound cfg.cascade_cfg _ (λ c.
            scorer-Sound (build_leaf fl sc build_ml c.stage1) _ (leaf-Sound c.stage1) (λ s1 k.
              and_then-Sound (build_leaf fl sc build_ml c.stage2) _ (λ s2. cascade-OnlyScores _ k)))

        leaf_or_cascade-Sound :
            (kind : ScoringKind) → Sound (build_leaf_or_cascade fl sc build_ml cfg kind)
        unfolding build_leaf_or_cascade
        leaf_or_cascade-Sound feature_weighted_kind = weighted-OnlyScores
        leaf_or_cascade-Sound ml = h
        leaf_or_cascade-Sound cascade = cascade-Sound
        leaf_or_cascade-Sound ab_test = tt

        ab_test-Sound : Sound (build_ab_test fl sc build_ml cfg)
        unfolding build_ab_test
        ab_test-Sound = and_then-Sound cfg.ab_test_cfg _ (λ c.
            scorer-Sound (build_leaf_or_cascade fl sc build_ml cfg c.control) _
              (leaf_or_cascade-Sound c.control)
              (λ s1 k1.
                scorer-Sound (build_leaf_or_cascade fl sc build_ml cfg c.treatment) _
                  (leaf_or_cascade-Sound c.treatment) (λ s2 k2. ab-OnlyScores _ k1 k2)))

        pub root-Sound : (kind : ScoringKind) → Sound (build_scorer_root fl sc build_ml cfg kind)
        unfolding build_scorer_root
        root-Sound feature_weighted_kind = weighted-OnlyScores
        root-Sound ml = h
        root-Sound cascade = cascade-Sound
        root-Sound ab_test = ab_test-Sound

        score_imps-kept :
            (s : Scorer F) (context : Option AdFormat → ScoringContext) (imps : List Imp)
            (css : List (List (AdCandidate F)))
            → OnlyScores s
            → map (map unscored) (score_imps s context imps css) ≡ map (map unscored) css
        unfolding score_imps
        score_imps-kept s context imps [] k = refl
        score_imps-kept s context imps (cs ∷ css) k = λ i.
            if_intro {A = List (AdCandidate F)} (λ r. map unscored r ≡ map unscored cs)
              (is_empty cs) cs (s cs (context (format_at imps))) (λ _. refl) (λ _. k cs _) i
            ∷ score_imps-kept s context (rest_of imps) css k i

        -- Whatever scorer the configuration asks for, if the model's scorer only scores where there
        -- is one: the scoring stage with the scorer that is built gives no error and leaves the
        -- shared state, the outcome and every candidate list in its order, with the campaign, the
        -- creative, the price and the caps of each candidate.
        pub scoring_keeps_candidates :
            {E W V C : Type 0} (secs : ℕ) (w : W) (ctx : BidContext F V C) (s : Scorer F)
            → build_scorer_root fl sc build_ml cfg cfg.kind ≡ some s
            → let ran = score s {E = E} secs (w, ctx) in
              (ran.error ≡ none)
              × ((ran.state.0 ≡ w)
                  × ((ran.state.1.outcome ≡ ctx.outcome)
                      × (map (map unscored) ran.state.1.candidates
                          ≡ map (map unscored) ctx.candidates)))
        unfolding score
        scoring_keeps_candidates secs w ctx s e = (
          refl,
          (
            refl,
            (
              refl,
              score_imps-kept s (context_of ctx secs) ctx.request.imp ctx.candidates
                  (subst Sound e (root-Sound cfg.kind)),
            ),
          ),
        )
