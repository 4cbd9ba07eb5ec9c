-- ===== src/WinNotice.antt =====
-- bidder-server/src/win_notice.rs: the gate in front of the win handler, and the address that a bid
-- carries for its notice. HMAC, hex and the comparison in constant time are of other crates: they are
-- a record of operations; so is the SET of Redis, which answers before the timeout, or fails.
pub mod Token
pub mod Query
pub mod Url
mod Tests
use Prim.Native.String.{String, ◌++◌ as ◌<>◌}
use text.Mathlib.Text.{◌==◌ as ◌≟◌}
use rust_rtb_bidder.Base.{
  ℕ, ◌-◌, max, Bool, true, false, not, ◌&&◌, Option, none, some, List, [], ◌∷◌, map, ltb, retain,
  if◌then◌else◌, ◌>>=◌,
}
use rust_rtb_bidder.Base.Words.{u64_mod, i64_bias}
use rust_rtb_bidder.Model.{to_string, is_blank}
use rust_rtb_bidder.Percent.{as_bytes, percent_encode}
use rust_rtb_bidder.Pipeline.Response.{WinNoticeRequest, NoticeUrlBuilder}

pub data WinNoticeGate : Type 0 where
  accept auth_failed duplicate dedup_unavailable : WinNoticeGate

-- `config::WinNoticeConfig`; the map of secrets is a list of its entries.
pub record WinNoticeConfig : Type 0 where
  pub require_auth : Bool
  pub secret : String
  pub secrets : List (String × String)
  pub dedup_ttl_secs : ℕ
  pub notice_base_url : String

pub record WinNoticeGateService : Type 0 where
  pub cfg : WinNoticeConfig
  pub secret : Option (List ℕ)
  pub secrets : List (String × List ℕ)

-- `HmacSha256` with `new_from_slice`, `hex::encode`, `hex::decode` and `ct_eq`.
pub record Crypto : Type 0 where
  pub hmac : List ℕ → List ℕ → Option (List ℕ)
  pub hex_encode : List ℕ → String
  pub hex_decode : String → Option (List ℕ)
  pub ct_eq : List ℕ → List ℕ → Bool

unfoldable pub new : WinNoticeConfig → WinNoticeGateService
new cfg = record {
  cfg = cfg;
  secret =
      if cfg.require_auth && not (is_blank cfg.secret) then some (as_bytes cfg.secret) else none;
  secrets = map (λ e. (e.0, as_bytes e.1)) (retain (λ e. not (is_blank e.1)) cfg.secrets);
}

-- `HashMap::get`.
abbrev pub get : {A : Type 0} → List (String × A) → String → Option A
get [] key = none
get (e ∷ es) key = let rest = get es key in if e.0 ≟ key then some e.1 else rest

unfoldable pub secret_for : WinNoticeGateService → String → Option (List ℕ)
secret_for s exchange_id =
    if is_blank exchange_id
    then s.secret
    else elim (get s.secrets exchange_id) [ some key ↦ some key | none ↦ s.secret ]

unfoldable pub signing_message : String → String → ℕ → ℕ → String
signing_message request_id imp_id campaign_id creative_id =
    request_id <> "|" <> imp_id <> "|" <> to_string campaign_id <> "|" <> to_string creative_id

-- The key of the deduplication.
unfoldable pub dedup_key : String → String → String
dedup_key request_id imp_id = "v1:winx:" <> request_id <> ":" <> imp_id

abbrev nonblank : Option String → Option String
nonblank none = none
nonblank (some s) = if is_blank s then none else some s

-- `{}` of an i64, given as its bit pattern.
unfoldable pub signed_text : ℕ → String
signed_text n = if ltb n i64_bias then to_string n else "-" <> to_string (u64_mod - n)

module _ (crypto : Crypto) where
  unfoldable pub sign : WinNoticeGateService → String → String → Option String
  sign s message exchange_id = do
    secret ← secret_for s exchange_id
    mac ← crypto.hmac secret (as_bytes message)
    some (crypto.hex_encode mac)

  unfoldable pub verify_token : WinNoticeGateService → String → Option String → String → Bool
  verify_token s message presented_hex exchange_id = elim (secret_for s exchange_id) [
    | none ↦ true
    | some secret ↦ elim (nonblank presented_hex) [
      | none ↦ false
      | some hex ↦ elim (crypto.hex_decode hex) [
        | none ↦ false
        | some presented ↦ elim (crypto.hmac secret (as_bytes message)) [
          | none ↦ false
          | some expected ↦ crypto.ct_eq expected presented
        ]
      ]
    ]
  ]

-- What the SET with NX answers: `Ok(Some(true))`, another `Ok`, or an error, a timeout with them.
pub data SetResult : Type 0 where
  set_true set_other set_error : SetResult

abbrev pub gate_of : SetResult → WinNoticeGate
gate_of set_true = accept
gate_of set_other = duplicate
gate_of set_error = dedup_unavailable

-- The store takes the time in seconds, a key and its time to live.
abbrev pub SetNx : Type 0 → Type 0
SetNx R = R → ℕ → String → ℕ → R × SetResult

unfoldable pub dedup_ttl : WinNoticeGateService → ℕ
dedup_ttl s = max s.cfg.dedup_ttl_secs 1

-- `WinNoticeGateService::check`.
unfoldable pub check :
    {R : Type 0}
    → Crypto
    → SetNx R
    → WinNoticeGateService
    → R × ℕ
    → String
    → String
    → ℕ
    → ℕ
    → Option String
    → String
    → R × WinNoticeGate
check crypto set_nx s (redis, now) request_id imp_id campaign_id creative_id token exchange_id =
    let message = signing_message request_id imp_id campaign_id creative_id in
    let answer = set_nx redis now (dedup_key request_id imp_id) (dedup_ttl s) in
    if verify_token crypto s message token exchange_id
    then (answer.0, gate_of answer.1)
    else (redis, auth_failed)

abbrev pub token_param : Option String → String
token_param none = ""
token_param (some t) = "&token=" <> t

abbrev pub exchange_param : String → String
exchange_param exchange_id =
    if is_blank exchange_id then "" else "&exchange_id=" <> percent_encode exchange_id

-- The query of the address, without the base and the question mark.
unfoldable pub query_of : WinNoticeRequest → Option String → String
query_of req token =
    "request_id="
    <> percent_encode req.request_id
    <> "&imp_id="
    <> percent_encode req.imp_id
    <> "&campaign_id="
    <> to_string req.campaign_id
    <> "&creative_id="
    <> to_string req.creative_id
    <> "&clearing_price_micros="
    <> signed_text req.clearing_price_micros
    <> "&user_id="
    <> percent_encode req.user_id
    <> exchange_param req.exchange_id
    <> token_param token

-- `build` of the trait `NoticeUrlBuilder`.
unfoldable pub build : Crypto → WinNoticeGateService → NoticeUrlBuilder
build crypto s req =
    let message = signing_message req.request_id req.imp_id req.campaign_id req.creative_id in
    if is_blank s.cfg.notice_base_url
    then none
    else some (s.cfg.notice_base_url <> "?" <> query_of req (sign crypto s message req.exchange_id))
