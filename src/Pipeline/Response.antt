-- ===== src/Pipeline/Response.antt =====
-- bidder-core/src/pipeline/stages/response_build.rs and notice.rs. What `serde_json::json!` makes of
-- a list of named numbers is a parameter; an f32 and the f64 that it is widened to are one number.
use Prim.Native.String.{String, ◌++◌ as ◌<>◌}
use rust_rtb_bidder.Base.{ℕ, ◌*◌, ◌%◌, Option, none, some, List, [], ◌∷◌, map, unwrap_or, FloatOps}
use rust_rtb_bidder.Base.Words.{u64_mod}
use rust_rtb_bidder.Model.{
  BidRequest, Bid, BidResponse, User, ImpWinner, BidContext, PipelineOutcome, pending, no_bid_for,
  bid, no_bid, no_eligible_bids, to_string,
}
use rust_rtb_bidder.Pacing.{as_i64}
use rust_rtb_bidder.Pipeline.{Stage}

-- `bidder-core/src/notice.rs`.
pub record WinNoticeRequest : Type 0 where
  pub request_id : String
  pub imp_id : String
  pub campaign_id : ℕ
  pub creative_id : ℕ
  pub clearing_price_micros : ℕ
  pub user_id : String
  pub exchange_id : String

-- The trait `NoticeUrlBuilder`, and its implementation for no address.
abbrev pub NoticeUrlBuilder : Type 0
NoticeUrlBuilder = WinNoticeRequest → Option String

unfoldable pub no_notice_url : NoticeUrlBuilder
no_notice_url req = none

abbrev and_then_id : {V : Type 0} → Option (User V) → Option String
and_then_id none = none
and_then_id (some u) = u.id

unfoldable pub user_id_of : {V : Type 0} → BidRequest V → Option String
user_id_of req = and_then_id req.user

-- The outcome that the stage settles on.
unfoldable pub settled : PipelineOutcome → PipelineOutcome
settled pending = no_bid_for no_eligible_bids
settled (no_bid_for reason) = no_bid_for reason
settled bid = bid

module _ {F V : Type 0} (fl : FloatOps F) (json : List (String × F) → V) (build : NoticeUrlBuilder)
    (exchange_id : String) where
  unfoldable pub notice_of : BidRequest V → ImpWinner F → WinNoticeRequest
  notice_of req w = record {
    request_id = req.id;
    imp_id = w.imp_id;
    campaign_id = w.campaign_id;
    creative_id = w.creative_id;
    clearing_price_micros = (as_i64 w.bid_price_cents * 10_000) % u64_mod;
    user_id = unwrap_or (user_id_of req) "";
    exchange_id = exchange_id;
  }

  unfoldable pub bid_of : BidRequest V → ImpWinner F → Bid F V
  bid_of req w = record {
    id = req.id <> "-" <> w.imp_id;
    impid = w.imp_id;
    price = fl.div (fl.of_i32 w.bid_price_cents) (fl.literal 100 1);
    adid = some (to_string w.creative_id);
    nurl = build (notice_of req w);
    cid = some (to_string w.campaign_id);
    crid = some (to_string w.creative_id);
    ext = some (json (("bidder_pctr", w.score) ∷ ("bidder_score", w.score) ∷ []));
  }

  unfoldable pub response_of : {C : Type 0} → BidContext F V C → BidResponse F V
  response_of ctx = record {
    id = ctx.request.id;
    seatbid = record { bid = map (bid_of ctx.request) ctx.winners; seat = none; group = 0 } ∷ [];
    bidid = none;
    cur = some "USD";
    customdata = none;
    nbr = none;
  }

  unfoldable pub answer : {C : Type 0} → PipelineOutcome → BidContext F V C → BidResponse F V
  answer pending ctx = no_bid ctx.request.id no_eligible_bids
  answer (no_bid_for reason) ctx = no_bid ctx.request.id reason
  answer bid ctx = response_of ctx

  -- `ResponseBuildStage::execute`.
  unfoldable pub build_response : {E W C : Type 0} → Stage E W F V C
  build_response (w, ctx) = record {
    error = none;
    state = (
      w,
      record ctx {
        outcome = settled ctx.outcome;
        bid_response = some (answer (settled ctx.outcome) ctx);
      },
    );
  }
