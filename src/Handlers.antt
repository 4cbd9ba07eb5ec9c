-- ===== src/Handlers.antt =====
-- bidder-server/src/server/handlers.rs, with the readiness flag of bidder-core/src/health.rs. The
-- publisher of events is the list of what it is given, in order; the exchange's adapter, the pipeline
-- and the clock are arguments, and so is `to_le_bytes`, the key of an event.
pub mod Wins
pub mod Once
pub mod Bids
mod Tests
use Prim.Native.String.{String}
use rust_rtb_bidder.Base.{
  ℕ, zero, suc, max, length, ◌*◌, ◌%◌, Bool, true, false, Option, none, some, List, [], ◌∷◌, ◌++◌,
  map, if◌then◌else◌, unwrap_or,
}
use rust_rtb_bidder.Base.Words.{u64_mod}
use rust_rtb_bidder.Model.{
  BidRequest, BidResponse, BidContext, ImpWinner, Device, PipelineOutcome, pending, no_bid_for, bid,
  is_blank,
}
use rust_rtb_bidder.Pacing.{as_i64}
use rust_rtb_bidder.Pipeline.{Stage, Ran}
use rust_rtb_bidder.Pipeline.Response.{user_id_of}
use rust_rtb_bidder.FreqCap.WriteBehind.{ImpressionEvent, try_record}
use rust_rtb_bidder.WinNotice.{
  WinNoticeGateService, WinNoticeGate, accept, auth_failed, duplicate, dedup_unavailable, Crypto,
  SetNx, check,
}

-- The statuses that the handlers give.
pub data StatusCode : Type 0 where
  ok no_content bad_request unauthorized internal_server_error service_unavailable : StatusCode

-- `HealthState`.
pub record HealthState : Type 0 where
  pub ready : Bool

unfoldable pub set_ready : HealthState → HealthState
set_ready h = record h { ready = true }

unfoldable pub set_not_ready : HealthState → HealthState
set_not_ready h = record h { ready = false }

unfoldable pub readiness : HealthState → StatusCode
readiness h = if h.ready then ok else service_unavailable

-- `WinParams`; the price is a bit pattern of i64.
pub record WinParams : Type 0 where
  pub request_id : String
  pub imp_id : String
  pub campaign_id : ℕ
  pub creative_id : ℕ
  pub clearing_price_micros : ℕ
  pub user_id : Option String
  pub token : Option String
  pub exchange_id : Option String

pub record BidEvent : Type 0 where
  pub request_id : String
  pub imp_id : String
  pub campaign_id : ℕ
  pub creative_id : ℕ
  pub bid_price_micros : ℕ
  pub timestamp_ms : ℕ
  pub user_id : String
  pub device_type : ℕ

pub record WinEvent : Type 0 where
  pub request_id : String
  pub imp_id : String
  pub campaign_id : ℕ
  pub creative_id : ℕ
  pub clearing_price_micros : ℕ
  pub timestamp_ms : ℕ
  pub user_id : String

pub data AdEvent : Type 0 where
  bid_event : BidEvent → AdEvent
  win_event : WinEvent → AdEvent

-- What the win handler changes: the store, the recorder's channel and the publisher, which gets the
-- campaign that the key is made of with each event.
pub record WinState (R : Type 0) : Type 0 where
  pub redis : R
  pub recorder : List ImpressionEvent
  pub published : List (ℕ × AdEvent)

-- The clocks of one call: seconds of the store, the hour of the day, milliseconds since the epoch.
pub record Clocks : Type 0 where
  pub now : ℕ
  pub hour_of_day : ℕ
  pub timestamp_ms : ℕ

abbrev pub win_event_of : WinParams → ℕ → WinEvent
win_event_of p timestamp_ms = record {
  request_id = p.request_id;
  imp_id = p.imp_id;
  campaign_id = p.campaign_id;
  creative_id = p.creative_id;
  clearing_price_micros = p.clearing_price_micros;
  timestamp_ms = timestamp_ms;
  user_id = unwrap_or p.user_id "";
}

abbrev pub impression_of : WinParams → String → ℕ → ImpressionEvent
impression_of p user_id hour_of_day = record {
  user_id = user_id;
  campaign_id = p.campaign_id;
  creative_id = p.creative_id;
  device_type = 0;
  hour_of_day = hour_of_day;
}

-- The recording, for a user who is named.
unfoldable pub record_user : List ImpressionEvent → WinParams → ℕ → List ImpressionEvent
record_user events p hour_of_day = elim (p.user_id) [
  | none ↦ events
  | some user_id ↦
      if is_blank user_id
      then events
      else (try_record events (impression_of p user_id hour_of_day)).0
]

-- What follows the gate.
unfoldable pub settle_win :
    {R : Type 0} → Clocks → WinParams → WinState R → R × WinNoticeGate → WinState R × StatusCode
settle_win c p w (redis, accept) = (
  record {
    redis = redis;
    recorder = record_user w.recorder p c.hour_of_day;
    published = w.published ++ ((p.campaign_id, win_event (win_event_of p c.timestamp_ms)) ∷ []);
  },
  ok,
)
settle_win c p w (redis, auth_failed) = (record w { redis = redis }, unauthorized)
settle_win c p w (redis, duplicate) = (record w { redis = redis }, ok)
settle_win c p w (redis, dedup_unavailable) = (record w { redis = redis }, ok)

module _ (crypto : Crypto) {R : Type 0} (set_nx : SetNx R) (service : WinNoticeGateService) where
  unfoldable pub gate : WinParams → R × ℕ → R × WinNoticeGate
  gate p s =
      check crypto set_nx service s p.request_id p.imp_id p.campaign_id p.creative_id p.token
        (unwrap_or p.exchange_id "")

  -- The handler `win`.
  unfoldable pub win : WinState R → WinParams × Clocks → WinState R × StatusCode
  win w (p, c) = settle_win c p w (gate p (w.redis, c.now))

-- A trait object `ExchangeAdapter`; the error that it gives is not read.
pub record ExchangeAdapter (F V Bytes : Type 0) : Type 0 where
  pub id : String
  pub decode_request : Bytes → Option (BidRequest V)
  pub encode_response : BidResponse F V → Option (Bytes × String)

-- A response: its status, and the content type and the body where it has any. The `unreachable!` of
-- an outcome that is pending is a case of its own.
pub data Answer (Bytes : Type 0) : Type 0 where
  status : StatusCode → Answer Bytes
  body : String → Bytes → Answer Bytes
  panicked : Answer Bytes

abbrev pub empty_lists : {A : Type 0} → ℕ → List (List A)
empty_lists zero = []
empty_lists (suc n) = [] ∷ empty_lists n

-- `BidContext::new`.
abbrev pub new_context : {F V C : Type 0} → BidRequest V → BidContext F V C
new_context req = record {
  request = req;
  outcome = pending;
  segment_ids = [];
  catalog = none;
  candidates = empty_lists (max (length req.imp) 1);
  winners = [];
  freq_cap_results = [];
  bid_response = none;
}

abbrev pub device_type_of : Option Device → ℕ
device_type_of none = 0
device_type_of (some d) = unwrap_or d.devicetype 0

module _ {F V C : Type 0} where
  unfoldable pub bid_event_of : BidContext F V C → ℕ → ImpWinner F → BidEvent
  bid_event_of ctx timestamp_ms w = record {
    request_id = ctx.request.id;
    imp_id = w.imp_id;
    campaign_id = w.campaign_id;
    creative_id = w.creative_id;
    bid_price_micros = (as_i64 w.bid_price_cents * 10_000) % u64_mod;
    timestamp_ms = timestamp_ms;
    user_id = unwrap_or (user_id_of ctx.request) "";
    device_type = device_type_of ctx.request.device;
  }

  -- The loop over the winners.
  unfoldable pub publish_bids :
      List (ℕ × AdEvent) → BidContext F V C → ℕ → List (ImpWinner F) → List (ℕ × AdEvent)
  publish_bids log ctx timestamp_ms [] = log
  publish_bids log ctx timestamp_ms (w ∷ ws) =
      publish_bids (log ++ ((w.campaign_id, bid_event (bid_event_of ctx timestamp_ms w)) ∷ [])) ctx
        timestamp_ms ws

module _ {F V C Bytes : Type 0} (adapter : ExchangeAdapter F V Bytes) (timestamp_ms : ℕ) where
  -- Publishing, once the response is encoded.
  unfoldable pub publish_encoded :
      List (ℕ × AdEvent)
      → BidContext F V C
      → Option (Bytes × String)
      → List (ℕ × AdEvent) × Answer Bytes
  publish_encoded log ctx none = (log, status internal_server_error)
  publish_encoded log ctx (some pair) =
      (publish_bids log ctx timestamp_ms ctx.winners, body pair.1 pair.0)

  unfoldable pub encode_bid :
      List (ℕ × AdEvent)
      → BidContext F V C
      → Option (BidResponse F V)
      → List (ℕ × AdEvent) × Answer Bytes
  encode_bid log ctx none = (log, status internal_server_error)
  encode_bid log ctx (some response) = publish_encoded log ctx (adapter.encode_response response)

  unfoldable pub answer_outcome :
      List (ℕ × AdEvent) → BidContext F V C → PipelineOutcome → List (ℕ × AdEvent) × Answer Bytes
  answer_outcome log ctx (no_bid_for reason) = (log, status no_content)
  answer_outcome log ctx bid = encode_bid log ctx ctx.bid_response
  answer_outcome log ctx pending = (log, panicked)

  -- What follows the pipeline, with the error that it gives.
  unfoldable pub answer_run :
      {E : Type 0}
      → List (ℕ × AdEvent)
      → BidContext F V C
      → Option E
      → List (ℕ × AdEvent) × Answer Bytes
  answer_run log ctx (some e) = (log, status internal_server_error)
  answer_run log ctx none = answer_outcome log ctx ctx.outcome

  unfoldable pub answer_decoded :
      {E W : Type 0}
      → Stage E W F V C
      → W × List (ℕ × AdEvent)
      → Option (BidRequest V)
      → W × (List (ℕ × AdEvent) × Answer Bytes)
  answer_decoded run (w, log) none = (w, (log, status bad_request))
  answer_decoded run (w, log) (some request) =
      let ran = run (w, new_context request) in (ran.state.0, answer_run log ran.state.1 ran.error)

  -- The handler `bid`: the state that the stages share, what is published, and the answer.
  unfoldable pub bid_handler :
      {E W : Type 0}
      → Stage E W F V C
      → W × List (ℕ × AdEvent)
      → Bytes
      → W × (List (ℕ × AdEvent) × Answer Bytes)
  bid_handler run s request_body = answer_decoded run s (adapter.decode_request request_body)
