-- ===== src/Bidder/Traced.antt =====
-- Where the winners of a whole run of the assembled pipeline come from.
use rust_rtb_bidder.Base.{
  ℕ, ◌≡◌, refl, sym, subst, Option, none, some, List, [], ◌∷◌, All, FloatOps,
}
use rust_rtb_bidder.Model.{BidRequest, PipelineOutcome, pending}
use rust_rtb_bidder.Handlers.{new_context}
use rust_rtb_bidder.FreqCap.{cap_stage}
use rust_rtb_bidder.Scoring.{ScoreOps}
use rust_rtb_bidder.Scoring.Chosen.{ScoringConfig, build_scorer_root}
use rust_rtb_bidder.Scoring.Kept.{OnlyScores}
use rust_rtb_bidder.Scoring.Features.{score}
use rust_rtb_bidder.Ml.{MlRuntime, MlScorerConfig, ModelSnapshot, build_ml}
use rust_rtb_bidder.Ml.Kept.{configured-OnlyScores}
use rust_rtb_bidder.Catalog.{BitmapOps, retrieve}
use rust_rtb_bidder.Enrichment.{fetch_for, fetched, enrich}
use rust_rtb_bidder.Pipeline.{execute}
use rust_rtb_bidder.Pipeline.Answers.{IsAnswered, execute-IsAnswered}
use rust_rtb_bidder.Pipeline.Validation.{validate}
use rust_rtb_bidder.Pipeline.Limit.{limit}
use rust_rtb_bidder.Pipeline.Budget.{pace}
use rust_rtb_bidder.Pipeline.Ranking.{rank}
use rust_rtb_bidder.Pipeline.Response.{user_id_of}
use rust_rtb_bidder.Bidder.{World, Bidder, on_shared, on_pacer, late_stages, stages}
use rust_rtb_bidder.Bidder.Runs.{IsGood, stage-IsGood, validate-outcome}
use rust_rtb_bidder.Bidder.Stages.{P, fresh, retrieved-IsGood}
use rust_rtb_bidder.Bidder.Offers.{IsTraced, IsOffered-IsTraced, IsOffered}

-- The segments of the request that its user's fetch gives.
abbrev pub segments_given :
    {B F V K : Type 0} → FloatOps F → Bidder B F V K → World F K → BidRequest V → List ℕ
segments_given fl b w req = fetched [] (fetch_for fl w.shared b.answers b.now (user_id_of req)).1

module _ {B F V K : Type 0} (ops : BitmapOps B) (fl : FloatOps F) (b : Bidder B F V K)
    (req : BidRequest V) where
  enriched-IsGood :
      (E : Type 0) (deadline_ms : ℕ) (clock : ℕ → ℕ) (w : World F K) (o : PipelineOutcome)
      → OnlyScores b.scorer
      → IsGood (IsOffered ops fl b.snapshot (segments_given fl b w req) req) (
          execute {E = E} deadline_ms clock
            (on_shared (enrich fl b.snapshot b.answers b.now)
              ∷ retrieve ops fl
              ∷ late_stages ops fl b)
            (w, record (new_context req) { outcome = o }))
  unfolding on_shared enrich
  enriched-IsGood E d clock w o h =
      let segments = segments_given fl b w req in
      stage-IsGood (P ops fl b segments req) d clock
        (on_shared (enrich fl b.snapshot b.answers b.now)) _ _
        (fresh ops fl b segments req pending w) (refl, fresh ops fl b segments req o w)
        (λ later. retrieved-IsGood ops fl b segments req E d later _ o h)

  run-IsGood :
      (E : Type 0) (deadline_ms : ℕ) (clock : ℕ → ℕ) (w : World F K)
      → OnlyScores b.scorer
      → IsGood
          (IsOffered ops fl b.snapshot (segments_given fl b w req) req)
          (execute {E = E} deadline_ms clock (stages ops fl b) (w, new_context req))
  unfolding stages
  run-IsGood E d clock w h =
      let segments = segments_given fl b w req in
      let (o, e) = validate-outcome E b.texts w (new_context req) in
      stage-IsGood (P ops fl b segments req) d clock (validate b.texts) _ _
        (fresh ops fl b segments req pending w)
        (subst (IsGood (P ops fl b segments req)) (sym e) (refl, fresh ops fl b segments req o w))
        (λ later.
          subst
            (λ r. IsGood (P ops fl b segments req) (
              execute {E = E} d later
                (on_shared (enrich fl b.snapshot b.answers b.now)
                  ∷ retrieve ops fl
                  ∷ late_stages ops fl b)
                r.state))
            (sym e) (enriched-IsGood E d later w o h))

-- A run of the assembled pipeline with a configured scorer, from a new request, gives no error. It ends
-- in a no-bid, or in a bid whose response is the one for its winners; and every winner is for an
-- impression of the request, and has the campaign, the creative and the price of a candidate that is
-- made, for the format of that impression, of a campaign which the bitmaps of the snapshot leave for
-- the request with the segments that its user's fetch gives. This holds whatever Redis, the capper,
-- the pacer, the model and the clock do.
pub run-IsTraced :
    {B F V K S : Type 0} (E : Type 0) (ops : BitmapOps B) (fl : FloatOps F) (sc : ScoreOps F)
    (rt : MlRuntime F S) (cfg : ScoringConfig F) (ml : Option MlScorerConfig) (started : ℕ)
    (loads : ℕ → ModelSnapshot S) (b : Bidder B F V K) (deadline_ms : ℕ) (clock : ℕ → ℕ)
    (w : World F K) (req : BidRequest V)
    → build_scorer_root fl sc (build_ml rt fl sc ml started loads) cfg cfg.kind ≡ some b.scorer
    → let ran = execute {E = E} deadline_ms clock (stages ops fl b) (w, new_context req) in
      (ran.error ≡ none)
      × (IsAnswered fl b.ext_of b.notice_url_builder b.exchange_id ran.state.1
          × All (IsTraced ops fl b.snapshot (segments_given fl b w req) req) ran.state.1.winners)
unfolding stages late_stages
run-IsTraced E ops fl sc rt cfg ml started loads b d clock w req e =
    let h = configured-OnlyScores rt fl sc cfg ml started loads b.scorer e in
    let r = run-IsGood ops fl b req E d clock w h in
    let ran = execute {E = E} d clock (stages ops fl b) (w, new_context req) in
    (
      r.0,
      (
        execute-IsAnswered fl b.ext_of b.notice_url_builder b.exchange_id d
            (validate b.texts
              ∷ on_shared (enrich fl b.snapshot b.answers b.now)
              ∷ retrieve ops fl
              ∷ limit b.max_candidates_per_imp
              ∷ score b.scorer b.secs
              ∷ cap_stage b.freq_capper
              ∷ on_pacer pace
              ∷ on_pacer (rank fl)
              ∷ [])
            clock (w, new_context req) r.0,
        IsOffered-IsTraced ops fl b.snapshot (segments_given fl b w req) req ran.state r.1,
      ),
    )
