-- ===== src/Bidder.antt =====
-- bidder-server/src/main.rs: the pipeline as `main` puts it together from the stages, on the state
-- that they share. The capper is a parameter, for it is one of two by the configuration.
pub mod Carried
pub mod Runs
pub mod Offers
pub mod Stages
pub mod Traced
mod Tests
use Prim.Native.String.{String}
use rust_rtb_bidder.Base.{ℕ, List, [], ◌∷◌, FloatOps}
use rust_rtb_bidder.Model.{AdCandidate}
use rust_rtb_bidder.Pacing.{Counters}
use rust_rtb_bidder.FreqCap.{FreqCapOutcome}
use rust_rtb_bidder.Scoring.{Scorer}
use rust_rtb_bidder.Scoring.Features.{score}
use rust_rtb_bidder.FreqCap.{cap_stage}
use rust_rtb_bidder.Catalog.{BitmapOps, CampaignCatalog, retrieve}
use rust_rtb_bidder.Enrichment.{GetAnswers, Shared, enrich}
use rust_rtb_bidder.Pipeline.{Stage}
use rust_rtb_bidder.Pipeline.Validation.{JsonOps, validate}
use rust_rtb_bidder.Pipeline.Limit.{limit}
use rust_rtb_bidder.Pipeline.Budget.{pace}
use rust_rtb_bidder.Pipeline.Ranking.{rank}
use rust_rtb_bidder.Pipeline.Response.{NoticeUrlBuilder, build_response}

-- What the stages share: the cache and Redis of the segments, what the capper keeps, and the pacer.
pub record World (F K : Type 0) : Type 0 where
  pub shared : Shared F
  pub capping : K
  pub pacer : Counters

-- What the stages are built with, and what they read while they run: the catalog's snapshot, the
-- answers of Redis, the time, and the seconds since the epoch.
pub record Bidder (B F V K : Type 0) : Type 0 where
  pub texts : JsonOps V
  pub snapshot : CampaignCatalog B
  pub answers : GetAnswers
  pub now : ℕ
  pub max_candidates_per_imp : ℕ
  pub scorer : Scorer F
  pub secs : ℕ
  pub freq_capper : String → ℕ → World F K → List (AdCandidate F) → World F K × FreqCapOutcome
  pub ext_of : List (String × F) → V
  pub notice_url_builder : NoticeUrlBuilder
  pub exchange_id : String

-- A stage on the part of the state that it was given.
unfoldable pub on_shared :
    {E F V C K : Type 0} → Stage E (Shared F) F V C → Stage E (World F K) F V C
on_shared stage (w, ctx) =
    let r = stage (w.shared, ctx) in
    record { error = r.error; state = (record w { shared = r.state.0 }, r.state.1) }

unfoldable pub on_pacer : {E F V C K : Type 0} → Stage E Counters F V C → Stage E (World F K) F V C
on_pacer stage (w, ctx) =
    let r = stage (w.pacer, ctx) in
    record { error = r.error; state = (record w { pacer = r.state.0 }, r.state.1) }

module _ {B F V K : Type 0} (ops : BitmapOps B) (fl : FloatOps F) (b : Bidder B F V K) where
  -- The stages after the retrieval.
  unfoldable pub late_stages : {E : Type 0} → List (Stage E (World F K) F V (CampaignCatalog B))
  late_stages =
      limit b.max_candidates_per_imp
      ∷ score b.scorer b.secs
      ∷ cap_stage b.freq_capper
      ∷ on_pacer pace
      ∷ on_pacer (rank fl)
      ∷ build_response fl b.ext_of b.notice_url_builder b.exchange_id
      ∷ []

  -- The calls of `add_stage`.
  unfoldable pub stages : {E : Type 0} → List (Stage E (World F K) F V (CampaignCatalog B))
  stages =
      validate b.texts
      ∷ on_shared (enrich fl b.snapshot b.answers b.now)
      ∷ retrieve ops fl
      ∷ late_stages
