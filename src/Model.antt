-- ===== src/Model.antt =====
-- bidder-core/src/model: candidates, the parts of an OpenRTB request and response, and the context
-- of one request. Fields that the pipeline never reads are left out, a list of ids or a signal
-- that it reads is kept; F is the type of f32 and f64, V of JSON values, C of the catalog snapshot.
mod Decimal
unfoldable pub use Decimal.*
use Prim.Native.String.{String}
use rust_rtb_bidder.Base.{ℕ, Bool, Option, none, some, List, []}

-- The prices are bit patterns of i32.
pub record AdCandidate (F : Type 0) : Type 0 where
  pub campaign_id : ℕ
  pub creative_id : ℕ
  pub bid_price_cents : ℕ
  pub score : F
  pub daily_cap_imps : ℕ
  pub hourly_cap_imps : ℕ

pub record ImpWinner (F : Type 0) : Type 0 where
  pub imp_id : String
  pub campaign_id : ℕ
  pub creative_id : ℕ
  pub bid_price_cents : ℕ
  pub score : F

-- Of a format object the code asks only whether it is there.
pub record Imp : Type 0 where
  pub id : String
  pub banner : Option (Unit {0})
  pub video : Option (Unit {0})
  pub audio : Option (Unit {0})
  pub native : Option (Unit {0})

pub record Geo : Type 0 where
  pub country : Option String
  pub metro : Option String

pub record Device : Type 0 where
  pub geo : Option Geo
  pub devicetype : Option ℕ

pub record User (V : Type 0) : Type 0 where
  pub id : Option String
  pub ext : Option V

pub record Regs : Type 0 where
  pub gdpr : Option ℕ

pub record BidRequest (V : Type 0) : Type 0 where
  pub id : String
  pub imp : List Imp
  pub device : Option Device
  pub user : Option (User V)
  pub regs : Option Regs

-- The numbers of `NoBidReason` that the pipeline gives.
abbrev pub NoBidReason : Type 0
NoBidReason = ℕ

abbrev pub invalid_request : NoBidReason
invalid_request = 2

abbrev pub no_eligible_bids : NoBidReason
no_eligible_bids = 11

abbrev pub request_blocked_privacy : NoBidReason
request_blocked_privacy = 13

abbrev pub pipeline_deadline : NoBidReason
pipeline_deadline = 103

-- The other fields of a bid are always empty in what the bidder builds.
pub record Bid (F V : Type 0) : Type 0 where
  pub id : String
  pub impid : String
  pub price : F
  pub adid : Option String
  pub nurl : Option String
  pub cid : Option String
  pub crid : Option String
  pub ext : Option V

pub record SeatBid (F V : Type 0) : Type 0 where
  pub bid : List (Bid F V)
  pub seat : Option String
  pub group : ℕ

pub record BidResponse (F V : Type 0) : Type 0 where
  pub id : String
  pub seatbid : List (SeatBid F V)
  pub bidid : Option String
  pub cur : Option String
  pub customdata : Option String
  pub nbr : Option NoBidReason

unfoldable pub no_bid : {F V : Type 0} → String → NoBidReason → BidResponse F V
no_bid request_id reason = record {
  id = request_id;
  seatbid = [];
  bidid = none;
  cur = none;
  customdata = none;
  nbr = some reason;
}

pub data PipelineOutcome : Type 0 where
  pending : PipelineOutcome
  no_bid_for : NoBidReason → PipelineOutcome
  bid : PipelineOutcome

-- `started_at` is in the readings of the clock that the pipeline is given.
pub record BidContext (F V C : Type 0) : Type 0 where
  pub request : BidRequest V
  pub outcome : PipelineOutcome
  pub segment_ids : List ℕ
  pub catalog : Option C
  pub candidates : List (List (AdCandidate F))
  pub winners : List (ImpWinner F)
  pub freq_cap_results : List (ℕ × (ℕ × Bool))
  pub bid_response : Option (BidResponse F V)
