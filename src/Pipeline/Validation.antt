-- ===== src/Pipeline/Validation.antt =====
-- bidder-core/src/pipeline/stages/request_validation.rs. Of JSON values the code uses `get` and
-- `as_str`, which are parameters.
use Prim.Native.String.{String}
use rust_rtb_bidder.Base.{Bool, false, not, Option, none, some, is_empty, ◌==◌, if◌then◌else◌}
use rust_rtb_bidder.Model.{
  BidRequest, User, no_bid_for, invalid_request, request_blocked_privacy, is_blank,
}
use rust_rtb_bidder.Pipeline.{Stage}

pub record JsonOps (V : Type 0) : Type 0 where
  pub get : V → String → Option V
  pub as_str : V → Option String

-- `regs.gdpr == Some(1)`, of a request that has `regs`.
unfoldable pub is_under_gdpr : {V : Type 0} → BidRequest V → Bool
is_under_gdpr req = elim (req.regs) [
  | none ↦ false
  | some regs ↦ elim (regs.gdpr) [ none ↦ false | some n ↦ n == 1 ]
]

module _ {V : Type 0} (json : JsonOps V) where
  abbrev pub consent_text : Option (User V) → Option String
  consent_text none = none
  consent_text (some u) = elim (u.ext) [
    | none ↦ none
    | some e ↦ elim (json.get e "consent") [ none ↦ none | some v ↦ json.as_str v ]
  ]

  unfoldable pub has_consent : BidRequest V → Bool
  has_consent req = elim (consent_text req.user) [ none ↦ false | some s ↦ not (is_blank s) ]

  unfoldable pub validate : {E W F C : Type 0} → Stage E W F V C
  validate (w, ctx) =
      if is_blank ctx.request.id
      then record { error = none; state = (w, record ctx { outcome = no_bid_for invalid_request }) }
      else if is_empty ctx.request.imp
      then record { error = none; state = (w, record ctx { outcome = no_bid_for invalid_request }) }
      else if is_under_gdpr ctx.request
      then if has_consent ctx.request then record { error = none; state = (w, ctx) } else record {
        error = none;
        state = (w, record ctx { outcome = no_bid_for request_blocked_privacy });
      }
      else record { error = none; state = (w, ctx) }
