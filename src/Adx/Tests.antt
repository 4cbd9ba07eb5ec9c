-- ===== src/Adx/Tests.antt =====
-- An answer with one winner in the message of the exchange, and the texts it is read from.
use rust_rtb_bidder.Base.{◌≡◌, refl, arith, none, some, [], ◌∷◌, map}
use rust_rtb_bidder.Base.Ratio.{Ratio, ratio_ops}
use rust_rtb_bidder.Model.{ImpWinner, BidContext, bid, to_string}
use rust_rtb_bidder.Percent.{as_char}
use rust_rtb_bidder.Percent.Decoded.{codes}
use rust_rtb_bidder.Pipeline.Response.{response_of, no_notice_url}
use rust_rtb_bidder.Adx.{
  AdxOps, parse_u32, parse_codes, parse_digits, lower_hex, lower_digit, bytes_to_string_lossy,
  internal_to_adx,
}
use rust_rtb_bidder.Adx.Named.{said, offer, internal_to_adx-offers}

-- An id that is not UTF-8 is named by its digits.
opaque_id : bytes_to_string_lossy (λ b. none) (171 ∷ 5 ∷ []) ≡ "ab05"
unfolding bytes_to_string_lossy lower_hex lower_digit as_char
opaque_id = refl

parsed :
    map parse_u32 ("42" ∷ "+7" ∷ "" ∷ "+" ∷ "4294967295" ∷ "4294967296" ∷ "1a" ∷ [])
    ≡ some 42 ∷ some 7 ∷ none ∷ none ∷ some 4294967295 ∷ none ∷ none ∷ []
unfolding parse_u32 parse_codes parse_digits codes
parsed = refl

abbrev winner : ImpWinner Ratio
winner = record {
  imp_id = "42";
  campaign_id = 5;
  creative_id = 7;
  bid_price_cents = 120;
  score = (1, 2);
}

abbrev context : BidContext Ratio (Unit {0}) (Unit {0})
context = record {
  request = record { id = "r"; imp = []; device = none; user = none; regs = none };
  outcome = bid;
  segment_ids = [];
  catalog = none;
  candidates = [];
  winners = winner ∷ [];
  freq_cap_results = [];
  bid_response = none;
}

abbrev adx_ops : AdxOps Ratio (Unit {0}) (Unit {0})
adx_ops = record {
  text = λ s. tt;
  number = λ n. tt;
  float = λ x. tt;
  array = λ js. tt;
  object = λ fields. tt;
  of_i64 = λ n. (n, 1);
  round_i64 = λ x. x.0;
  from_utf8 = λ b. none;
  from_value = λ j. none;
  show_value = λ v. "{}";
}

internal_to_adx-offers_example :
    map
      (said ratio_ops adx_ops (λ fields. tt) no_notice_url "adx")
      (internal_to_adx ratio_ops adx_ops
        (response_of ratio_ops (λ fields. tt) no_notice_url "adx" context)).ad
    ≡ map (offer ratio_ops adx_ops (λ fields. tt) no_notice_url "adx" context 42) context.winners
unfolding to_string
internal_to_adx-offers_example =
    internal_to_adx-offers ratio_ops adx_ops (λ fields. tt) no_notice_url "adx" context 42
      (omega arith) ((refl, omega arith), tt)
