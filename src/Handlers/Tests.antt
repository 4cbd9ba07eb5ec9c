-- ===== src/Handlers/Tests.antt =====
-- The handlers at concrete calls.
use Prim.Native.String.{String}
use text.Mathlib.Text.{◌==◌ as ◌≟◌}
use text.Mathlib.TextEquality.{eq_iff}
use text.Mathlib.TextPositions.{eq_refl}
use rust_rtb_bidder.Base.{
  ℕ, suc, ◌+◌, ◌≤◌, ◌≡◌, refl, subst, arith, false, none, some, List, [], ◌∷◌, leb, ◌==◌,
  if◌then◌else◌, Bool-cases, inl, inr,
}
use rust_rtb_bidder.Base.Ratio.{Ratio, ratio_ops}
use rust_rtb_bidder.Model.{BidRequest, ImpWinner, bid}
use rust_rtb_bidder.Pipeline.{Stage}
use rust_rtb_bidder.Pipeline.Response.{no_notice_url}
use rust_rtb_bidder.WinNotice.{
  Crypto, WinNoticeGateService, SetNx, set_true, set_other, dedup_ttl, verify_token, secret_for,
}
use rust_rtb_bidder.Handlers.{
  WinParams, WinState, Clocks, ExchangeAdapter, win, bid_handler, new_context, win_event,
  win_event_of,
}
use rust_rtb_bidder.Handlers.Wins.{win-verified}
use rust_rtb_bidder.Handlers.Once.{SetNxLaws, wins_of, run_wins, wins-le-one}
use rust_rtb_bidder.Handlers.Bids.{pipeline, IsHandled, bid_handler-IsHandled}

-- A store that keeps until when each key is held.
abbrev Store : Type 0
Store = String → ℕ

abbrev set_nx : SetNx Store
set_nx r now key ttl =
    if leb (r key) now then (λ k. if key ≟ k then now + ttl else r k, set_true) else (r, set_other)

set_nx-grants :
    (r : Store) (now : ℕ) (key : String) (ttl : ℕ)
    → (set_nx r now key ttl).1 ≡ set_true
    → r key ≤ now
set_nx-grants r now key ttl h = ground arith

set_nx-holds :
    (r : Store) (now : ℕ) (key : String) (ttl : ℕ)
    → (set_nx r now key ttl).1 ≡ set_true
    → now + ttl ≤ (set_nx r now key ttl).0 key
set_nx-holds r now key ttl h = ground (arith, eq_refl key)

set_nx-keeps :
    (r : Store) (now : ℕ) (key : String) (ttl : ℕ) (other : String)
    → r other ≤ (set_nx r now key ttl).0 other
set_nx-keeps r now key ttl other = elim (Bool-cases (key ≟ other)) [
  | inl e ↦
      let same = (eq_iff key other).0 e in
      subst (λ k. r k ≤ (set_nx r now key ttl).0 k) same (ground (arith, eq_refl key))
  | inr e ↦ ground arith
]

abbrev laws : SetNxLaws set_nx
laws = record {
  held_until = λ r key. r key;
  grants_unheld = set_nx-grants;
  holds = set_nx-holds;
  keeps = set_nx-keeps;
}

-- No secret is configured, so every token is accepted.
abbrev open_gate : WinNoticeGateService
open_gate = record {
  cfg = record {
    require_auth = false;
    secret = "";
    secrets = [];
    dedup_ttl_secs = 3600;
    notice_base_url = "";
  };
  secret = none;
  secrets = [];
}

abbrev no_crypto : Crypto
no_crypto = record {
  hmac = λ key message. none;
  hex_encode = λ bs. "";
  hex_decode = λ s. none;
  ct_eq = λ a b. false;
}

abbrev notice : WinParams
notice = record {
  request_id = "r";
  imp_id = "i";
  campaign_id = 1;
  creative_id = 2;
  clearing_price_micros = 3;
  user_id = some "u";
  token = none;
  exchange_id = none;
}

abbrev clocks : ℕ → Clocks
clocks t = record { now = t; hour_of_day = 3; timestamp_ms = t }

abbrev fresh : WinState Store
fresh = record { redis = λ k. 0; recorder = []; published = [] }

abbrev twice : List (WinParams × Clocks)
twice = (notice, clocks 100) ∷ (notice, clocks 200) ∷ []

wins-le-one_example :
    wins_of "r" "i" (run_wins no_crypto set_nx open_gate fresh twice).published ≤ 1
unfolding dedup_ttl
wins-le-one_example =
    wins-le-one no_crypto set_nx open_gate laws "r" "i" 100 twice fresh
      ((omega arith, omega arith), ((omega arith, omega arith), tt)) refl

win-verified_example :
    (win no_crypto set_nx open_gate fresh (notice, clocks 100)).0.published
    ≡ (1, win_event (win_event_of notice 100)) ∷ []
unfolding verify_token secret_for
win-verified_example =
    (((win-verified no_crypto set_nx open_gate fresh notice (clocks 100)).1 refl).1.1.0 refl).1

abbrev request : BidRequest (Unit {0})
request = record { id = "r"; imp = []; device = none; user = none; regs = none }

abbrev adapter : ExchangeAdapter Ratio (Unit {0}) ℕ
adapter = record {
  id = "adx";
  decode_request = λ b. if b == 0 then none else some request;
  encode_response = λ r. some (1, "application/json");
}

abbrev winner : ImpWinner Ratio
winner = record {
  imp_id = "i";
  campaign_id = 1;
  creative_id = 2;
  bid_price_cents = 150;
  score = (1, 2);
}

abbrev bids : Stage ℕ ℕ Ratio (Unit {0}) (Unit {0})
bids (n, ctx) = record {
  error = none;
  state = (suc n, record ctx { outcome = bid; winners = winner ∷ [] });
}

abbrev stages : List (Stage ℕ ℕ Ratio (Unit {0}) (Unit {0}))
stages = bids ∷ []

abbrev bidder : Stage ℕ ℕ Ratio (Unit {0}) (Unit {0})
bidder = pipeline adapter ratio_ops (λ fields. tt) no_notice_url stages 50 (λ n. n) 9

bid_handler-IsHandled_example :
    IsHandled adapter ratio_ops
      (λ fields. tt)
      no_notice_url
      stages
      50
      (λ n. n)
      9
      []
      (bidder (0, new_context request))
      (bid_handler adapter 9 bidder (0, []) 1)
bid_handler-IsHandled_example =
    (bid_handler-IsHandled adapter ratio_ops (λ fields. tt) no_notice_url stages 50 (λ n. n) 9 0 []
        1).1
      request refl
