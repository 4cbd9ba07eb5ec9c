-- ===== src/Handlers/Bids.antt =====
-- The bid handler around a pipeline that ends with the stage that builds the response.
use Prim.Native.String.{String}
use rust_rtb_bidder.Base.{
  ℕ, ◌≡◌, ◌≢◌, refl, sym, ap, subst, ◌∙◌, arith, true, Option, none, some, List, [], ◌∷◌, ◌++◌,
  append-nil, append_assoc, map, ◌⊎◌, inl, inr, FloatOps,
}
use rust_rtb_bidder.Model.{
  BidRequest, BidContext, ImpWinner, PipelineOutcome, pending, no_bid_for, bid,
}
use rust_rtb_bidder.Pipeline.{Ran, Stage, execute, is_no_bid}
use rust_rtb_bidder.Pipeline.Response.{NoticeUrlBuilder, build_response, response_of}
use rust_rtb_bidder.Pipeline.Answers.{IsAnswered, execute-IsAnswered}
use rust_rtb_bidder.Handlers.{
  AdEvent, bid_event, ExchangeAdapter, Answer, status, body, no_content, bad_request,
  internal_server_error, new_context, bid_event_of, publish_bids, publish_encoded, encode_bid,
  answer_outcome, answer_run, answer_decoded, bid_handler,
}

module _ {F V C : Type 0} where
  -- The event of one winner.
  abbrev pub event_of : BidContext F V C → ℕ → ImpWinner F → ℕ × AdEvent
  event_of ctx timestamp_ms w = (w.campaign_id, bid_event (bid_event_of ctx timestamp_ms w))

  publish_bids-map :
      (log : List (ℕ × AdEvent)) (ctx : BidContext F V C) (timestamp_ms : ℕ)
      (ws : List (ImpWinner F))
      → publish_bids log ctx timestamp_ms ws ≡ log ++ map (event_of ctx timestamp_ms) ws
  unfolding publish_bids
  publish_bids-map log ctx timestamp_ms [] = sym (append-nil log)
  publish_bids-map log ctx timestamp_ms (w ∷ ws) =
      publish_bids-map (log ++ (event_of ctx timestamp_ms w ∷ [])) ctx timestamp_ms ws
      ∙ append_assoc log (event_of ctx timestamp_ms w ∷ []) (map (event_of ctx timestamp_ms) ws)

module _ {E W F V C Bytes : Type 0} (adapter : ExchangeAdapter F V Bytes) (fl : FloatOps F)
    (json : List (String × F) → V) (build : NoticeUrlBuilder) (stages : List (Stage E W F V C))
    (deadline_ms : ℕ) (clock : ℕ → ℕ) (timestamp_ms : ℕ) where
  abbrev pub pipeline : Stage E W F V C
  pipeline = execute deadline_ms clock (stages ++ (build_response fl json build adapter.id ∷ []))

  -- What a bid is answered with: the encoding of the response for its winners, and an event for each.
  abbrev pub sent :
      List (ℕ × AdEvent)
      → BidContext F V C
      → Option (Bytes × String)
      → List (ℕ × AdEvent) × Answer Bytes
  sent log ctx none = (log, status internal_server_error)
  sent log ctx (some pair) =
      (log ++ map (event_of ctx timestamp_ms) ctx.winners, body pair.1 pair.0)

  -- What a settled run is answered with.
  abbrev pub IsSettled :
      List (ℕ × AdEvent) → BidContext F V C → List (ℕ × AdEvent) × Answer Bytes → Type 0
  IsSettled log ctx given =
      ((is_no_bid ctx.outcome ≡ true) × (given ≡ (log, status no_content)))
      ⊎ ((ctx.outcome ≡ bid)
          × (given
              ≡ sent log ctx (adapter.encode_response (response_of fl json build adapter.id ctx))))

  publish_encoded-sent :
      (log : List (ℕ × AdEvent)) (ctx : BidContext F V C) (o : Option (Bytes × String))
      → publish_encoded adapter timestamp_ms log ctx o ≡ sent log ctx o
  unfolding publish_encoded
  publish_encoded-sent log ctx none = refl
  publish_encoded-sent log ctx (some pair) =
      λ i. (publish_bids-map log ctx timestamp_ms ctx.winners i, body pair.1 pair.0)

  outcome-IsSettled :
      (log : List (ℕ × AdEvent)) (ctx : BidContext F V C) (o : PipelineOutcome)
      → ctx.outcome ≡ o
      → IsAnswered fl json build adapter.id ctx
      → IsSettled log ctx (answer_outcome adapter timestamp_ms log ctx o)
  unfolding answer_outcome encode_bid
  outcome-IsSettled log ctx pending e h = absurd (h.0 e)
  outcome-IsSettled log ctx (no_bid_for r) e h = inl (ap is_no_bid e, refl)
  outcome-IsSettled log ctx bid e h =
      inr (e, ap (encode_bid adapter timestamp_ms log ctx) (h.1 e) ∙ publish_encoded-sent log ctx _)

  run-IsSettled :
      (log : List (ℕ × AdEvent)) (ctx : BidContext F V C) (error : Option E)
      → (error ≡ none → IsAnswered fl json build adapter.id ctx)
      → (error ≢ none
          → answer_run adapter timestamp_ms log ctx error ≡ (log, status internal_server_error))
        × (error ≡ none → IsSettled log ctx (answer_run adapter timestamp_ms log ctx error))
  unfolding answer_run
  run-IsSettled log ctx none h =
      (λ n. absurd (n refl), λ e. outcome-IsSettled log ctx ctx.outcome refl (h refl))
  run-IsSettled log ctx (some x) h = (λ n. refl, λ e. absurd (grind (arith, e)))

  -- What a run of the pipeline is answered with, and the state that it leaves.
  abbrev pub IsHandled :
      List (ℕ × AdEvent)
      → Ran E (W × BidContext F V C)
      → W × (List (ℕ × AdEvent) × Answer Bytes)
      → Type 0
  IsHandled log ran given =
      (given.0 ≡ ran.state.0)
      × ((ran.error ≢ none → given.1 ≡ (log, status internal_server_error))
          × (ran.error ≡ none → IsSettled log ran.state.1 given.1))

  -- Whatever stages run before the one that builds the response: a body that does not decode is a
  -- bad request, and nothing runs; an error of the pipeline is an internal error, and nothing is
  -- published. A run without an error ends in a no-bid, which has no content and publishes nothing, or
  -- in a bid: it is answered with the encoding of the response for its winners, after one event for
  -- each of them in their order, or with an internal error and no event where the encoding fails. The
  -- handler never panics, and never finds the response missing.
  pub bid_handler-IsHandled :
      (w : W) (log : List (ℕ × AdEvent)) (request_body : Bytes)
      → (adapter.decode_request request_body ≡ none
          → bid_handler adapter timestamp_ms pipeline (w, log) request_body
            ≡ (w, (log, status bad_request)))
        × ((request : BidRequest V)
            → adapter.decode_request request_body ≡ some request
            → IsHandled log
                (pipeline (w, new_context request))
                (bid_handler adapter timestamp_ms pipeline (w, log) request_body))
  unfolding bid_handler answer_decoded
  bid_handler-IsHandled w log request_body = (
    λ d. ap (answer_decoded adapter timestamp_ms pipeline (w, log)) d,
    λ request d.
        let ran = pipeline (w, new_context request) in
        subst
          (λ decoded.
            IsHandled log ran (answer_decoded adapter timestamp_ms pipeline (w, log) decoded))
          (sym d)
          (
            refl,
            run-IsSettled log ran.state.1 ran.error (
                execute-IsAnswered fl json build adapter.id deadline_ms stages clock
                  (w, new_context request)),
          ),
  )
