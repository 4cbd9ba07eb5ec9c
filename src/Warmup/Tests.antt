-- ===== src/Warmup/Tests.antt =====
-- Two users of the list, one of whom has segments, and the theorem at that one; a self-test that passes.
use Prim.Native.String.{String}
use text.Mathlib.Text.{◌==◌ as ◌≟◌}
use rust_rtb_bidder.Base.{
  ℕ, ◌≡◌, refl, arith, true, false, Option, none, some, List, [], ◌∷◌, map, ltb, if◌then◌else◌,
}
use rust_rtb_bidder.Base.Ratio.{Ratio, ratio_ops}
use rust_rtb_bidder.Model.{BidContext, pending, to_string}
use rust_rtb_bidder.Breaker.{open_, redis, fresh_window}
use rust_rtb_bidder.Pipeline.Response.{user_id_of}
use rust_rtb_bidder.Enrichment.{GetAnswers, Shared, enrich, segment_key}
use rust_rtb_bidder.Enrichment.Packed.{packed}
use rust_rtb_bidder.Handlers.{set_ready}
use rust_rtb_bidder.Warmup.{
  WarmAnswers, user_of_key, trim_start, trim_end, strip, warm_segment_cache, run, self_test,
  connect, failures, is_passed,
}
use rust_rtb_bidder.Warmup.Warmed.{warmed_user_is_served}

read_back : user_of_key "v1:seg:{u:42}" ≡ "42"
unfolding user_of_key trim_start trim_end strip
read_back = refl

abbrev stored : String → Option (List ℕ)
stored key = if key ≟ "v1:seg:{u:42}" then some (packed (257 ∷ 9 ∷ [])) else none

abbrev answers : WarmAnswers
answers = record {
  get_users = some (some (7 ∷ []));
  decode_users = λ bytes. some (5 ∷ 42 ∷ []);
  mget = λ keys. some (map stored keys);
}

-- The first two requests fail, and later ones get 204.
ready_in_the_end :
    (run answers
      (λ i. if ltb i 2 then none else some 204)
      (record { ready = false })
      (λ u. none)).0.ready
    ≡ true
unfolding run self_test connect failures is_passed set_ready
ready_in_the_end = refl

-- The breaker is open, which makes no difference to a user who was warmed.
abbrev shared : Shared Ratio
shared = record {
  cache = λ u. none;
  redis = record {
    breaker = record {
      cfg = redis ratio_ops;
      window = fresh_window;
      inner = record { state = open_; opened_at = some 0; half_open_probe_in_flight = false };
    };
    hedge = record { tokens = 5; nominal = 5; effective_cap = 5 };
    latency_tracker = record { count = 0; sum_us = 0 };
  };
}

abbrev context : BidContext Ratio (Unit {0}) (Unit {0})
context = record {
  request = record {
    id = "r";
    imp = [];
    device = none;
    user = some (record { id = some "42"; ext = none });
    regs = none;
  };
  outcome = pending;
  segment_ids = [];
  catalog = none;
  candidates = [];
  winners = [];
  freq_cap_results = [];
  bid_response = none;
}

abbrev silence : GetAnswers
silence = record { first_ms = 0; second_ms = 0; first = λ key. none; second = λ key. none }

warmed_user_is_served_example :
    let s' = record shared { cache = warm_segment_cache answers shared.cache } in
    let ran = enrich ratio_ops {E = Unit {0}} tt silence 100 (s', context) in
    (ran.state.0 ≡ s') × (ran.state.1.segment_ids ≡ 257 ∷ 9 ∷ [])
unfolding user_id_of to_string segment_key packed
warmed_user_is_served_example =
    warmed_user_is_served ratio_ops (Unit {0}) answers (7 ∷ []) (5 ∷ 42 ∷ []) (257 ∷ 9 ∷ []) stored
      42 shared context tt silence 100 refl refl (λ keys. refl) refl refl
      (omega arith, (omega arith, tt)) refl refl
