-- ===== src/Bidder/Stages.antt =====
-- What the stages after the retrieval carry over, as stages, and what the retrieval starts them with.
use rust_rtb_bidder.Base.{
  ℕ, ◌≡◌, refl, subst, some, List, ◌∷◌, is_empty, All-append, if_intro, FloatOps, length, max,
  Option-cases, inl, inr, get_elem?, arith,
}
use rust_rtb_bidder.Model.{BidRequest, BidContext, PipelineOutcome}
use rust_rtb_bidder.Handlers.{new_context}
use rust_rtb_bidder.FreqCap.{cap_stage}
use rust_rtb_bidder.Scoring.{Scorer}
use rust_rtb_bidder.Scoring.Kept.{OnlyScores}
use rust_rtb_bidder.Scoring.Features.{score, context_of}
use rust_rtb_bidder.Catalog.{BitmapOps, CampaignCatalog, retrieve}
use rust_rtb_bidder.Pipeline.{Ran, execute}
use rust_rtb_bidder.Pipeline.Limit.{limit}
use rust_rtb_bidder.Pipeline.Budget.{pace}
use rust_rtb_bidder.Pipeline.Ranking.{rank}
use rust_rtb_bidder.Pipeline.Response.{build_response, user_id_of}
use rust_rtb_bidder.Bidder.{World, Bidder, on_pacer, late_stages}
use rust_rtb_bidder.Bidder.Runs.{IsGood, Carries, stage-IsGood, execute-IsGood}
use rust_rtb_bidder.Bidder.Carried.{
  Unscored, Each, limit-Each, score_imps-Each, cap_imps-Each, pace_imps-Each, Chosen,
  rank_imps-Chosen,
}
use rust_rtb_bidder.Bidder.Offers.{
  OfferedAt, retrieve_imps-Each, empty_lists-Each, resize_one-Each, IsOffered,
}

module _ {B F V K : Type 0} (ops : BitmapOps B) (fl : FloatOps F) (b : Bidder B F V K)
    (segment_ids : List ℕ) (req : BidRequest V) where
  abbrev G : ℕ → Unscored → Type 0
  G = OfferedAt ops fl b.snapshot segment_ids req

  abbrev pub P : World F K × BidContext F V (CampaignCatalog B) → Type 0
  P = IsOffered ops fl b.snapshot segment_ids req

  limit-Carries : (E : Type 0) (top_k : ℕ) → Carries P (limit {E = E} top_k)
  unfolding limit
  limit-Carries E top_k (w, ctx) p =
      (refl, (p.0, (limit-Each G top_k 0 ctx.candidates p.1.0, p.1.1)))

  score-Carries :
      (E : Type 0) (scorer : Scorer F) (secs : ℕ)
      → OnlyScores scorer
      → Carries P (score scorer {E = E} secs)
  unfolding score
  score-Carries E scorer secs h (w, ctx) p = (
    refl,
    (
      p.0,
      (
        score_imps-Each G scorer (context_of ctx secs) ctx.request.imp 0 ctx.candidates h p.1.0,
        p.1.1,
      ),
    ),
  )

  cap-Carries : (E : Type 0) → Carries P (cap_stage {E = E} b.freq_capper)
  unfolding cap_stage
  cap-Carries E (w, ctx) p = elim (Option-cases (user_id_of ctx.request)) [
    | inl e ↦ rw (cap_stage, e) (refl, p)
    | inr (user_id, e) ↦
        rw (cap_stage, e)
          (refl, (p.0, (cap_imps-Each G (b.freq_capper user_id) 0 0 w ctx.candidates p.1.0, p.1.1)))
  ]

  pace-Carries : (E : Type 0) → Carries P (on_pacer {E = E} pace)
  unfolding on_pacer pace
  pace-Carries E (w, ctx) p =
      (refl, (p.0, (pace_imps-Each G w.pacer 0 ctx.candidates p.1.0, p.1.1)))

  rank-Carries : (E : Type 0) → Carries P (on_pacer {E = E} (rank fl))
  unfolding on_pacer rank
  rank-Carries E (w, ctx) p = (
    refl,
    (
      p.0,
      (
        p.1.0,
        All-append (Chosen G ctx.request.imp) ctx.winners _ p.1.1
            (rank_imps-Chosen G fl ctx.request.imp 0 w.pacer ctx.candidates p.1.0),
      ),
    ),
  )

  build_response-Carries :
      (E : Type 0)
      → Carries P (build_response fl b.ext_of b.notice_url_builder b.exchange_id {E = E})
  unfolding build_response
  build_response-Carries E (w, ctx) p = (refl, p)

  late-IsGood :
      (E : Type 0) (deadline_ms : ℕ) (clock : ℕ → ℕ)
      (s : World F K × BidContext F V (CampaignCatalog B))
      → OnlyScores b.scorer
      → P s
      → IsGood P (execute {E = E} deadline_ms clock (late_stages ops fl b) s)
  unfolding late_stages
  late-IsGood E d clock s h p =
      execute-IsGood P d clock _ s (λ t o q. q)
        (
          limit-Carries E b.max_candidates_per_imp,
          (
            score-Carries E b.scorer b.secs h,
            (cap-Carries E, (pace-Carries E, (rank-Carries E, (build_response-Carries E, tt)))),
          ),
        )
        p

  -- The context with which the retrieval starts.
  abbrev pub enriched : PipelineOutcome → BidContext F V (CampaignCatalog B)
  enriched o = record (new_context req) {
    outcome = o;
    catalog = some b.snapshot;
    segment_ids = segment_ids;
  }

  pub fresh :
      (o : PipelineOutcome) (w : World F K) → P (w, record (new_context req) { outcome = o })
  fresh o w =
      (refl, (empty_lists-Each ops fl b.snapshot segment_ids req 0 (max (length req.imp) 1), tt))

  retrieve-IsGood :
      (E : Type 0) (w : World F K) (o : PipelineOutcome)
      → IsGood P (retrieve ops fl {E = E} (w, enriched o))
  unfolding retrieve
  retrieve-IsGood E w o =
      if_intro {A = Ran E (World F K × BidContext F V (CampaignCatalog B))} (IsGood P)
        b.snapshot.has_no_campaigns _ _ (λ _. (refl, fresh o w))
        (λ _. (
          refl,
          (
            refl,
            (
              if_intro (Each G 0) (is_empty req.imp) _ _
                  (λ _.
                    resize_one-Each ops fl b.snapshot segment_ids req _
                      (empty_lists-Each ops fl b.snapshot segment_ids req 0 _))
                  (λ _.
                    retrieve_imps-Each ops fl b.snapshot segment_ids req 0 req.imp
                      (λ k i e. subst (λ t. get_elem? req.imp t ≡ some i) (omega arith) e)),
              tt,
            ),
          ),
        ))

  pub retrieved-IsGood :
      (E : Type 0) (deadline_ms : ℕ) (clock : ℕ → ℕ) (w : World F K) (o : PipelineOutcome)
      → OnlyScores b.scorer
      → IsGood P (
          execute {E = E} deadline_ms clock
            (retrieve ops fl ∷ late_stages ops fl b)
            (w, enriched o))
  retrieved-IsGood E d clock w o h =
      let r = retrieve-IsGood E w o in
      stage-IsGood P d clock (retrieve ops fl) _ (w, enriched o) (fresh o w) r
        (λ later. late-IsGood E d later _ h r.1)
