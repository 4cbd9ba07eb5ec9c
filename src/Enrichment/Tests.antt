-- ===== src/Enrichment/Tests.antt =====
-- A user with two stored segments, while the breaker is closed and while it is open.
use rust_rtb_bidder.Base.{◌≡◌, refl, arith, false, none, some, [], ◌∷◌}
use rust_rtb_bidder.Base.Ratio.{Ratio, ratio_ops}
use rust_rtb_bidder.Model.{BidContext, pending}
use rust_rtb_bidder.Breaker.{
  is_closed_sync, BreakerState, closed, open_, redis, fresh_window, allow_request, fast_path,
  try_enter_half_open, cool_down, elapsed,
}
use rust_rtb_bidder.Pipeline.Response.{user_id_of}
use rust_rtb_bidder.Enrichment.{GetAnswers, Shared, enrich, read_words}
use rust_rtb_bidder.Enrichment.Packed.{packed}
use rust_rtb_bidder.Enrichment.Segments.{segments_after, enrich-packed, refusal_is_cached}

bytes_of_two : read_words (1 ∷ 1 ∷ 0 ∷ 0 ∷ 2 ∷ 0 ∷ 0 ∷ 1 ∷ []) ≡ 257 ∷ 16_777_218 ∷ []
unfolding read_words
bytes_of_two = refl

abbrev shared : BreakerState → Shared Ratio
shared state = record {
  cache = λ u. none;
  redis = record {
    breaker = record {
      cfg = redis ratio_ops;
      window = fresh_window;
      inner = record { state = state; opened_at = some 0; half_open_probe_in_flight = false };
    };
    hedge = record { tokens = 5; nominal = 5; effective_cap = 5 };
    latency_tracker = record { count = 0; sum_us = 0 };
  };
}

abbrev context : BidContext Ratio (Unit {0}) (Unit {0})
context = record {
  request = record {
    id = "r";
    imp = [];
    device = none;
    user = some (record { id = some "u"; ext = none });
    regs = none;
  };
  outcome = pending;
  segment_ids = [];
  catalog = none;
  candidates = [];
  winners = [];
  freq_cap_results = [];
  bid_response = none;
}

abbrev answers : GetAnswers
answers = record {
  first_ms = 3;
  second_ms = 3;
  first = λ key. some (some (packed (257 ∷ 9 ∷ [])));
  second = λ key. none;
}

enrich-packed_example :
    segments_after ratio_ops tt (shared closed, context) answers 100 ≡ 257 ∷ 9 ∷ []
unfolding allow_request fast_path user_id_of is_closed_sync
enrich-packed_example =
    ((enrich-packed ratio_ops tt (shared closed) context "u" answers 100 refl refl).0 refl).0
      (257 ∷ 9 ∷ []) (omega arith, (omega arith, tt)) refl

refusal_is_cached_example :
    segments_after ratio_ops tt
      ((enrich ratio_ops {E = Unit {0}} tt answers 100 (shared open_, context)).state.0, context)
      answers
      900
    ≡ []
unfolding allow_request fast_path try_enter_half_open cool_down elapsed user_id_of redis
refusal_is_cached_example =
    refusal_is_cached ratio_ops tt (shared open_) context context "u" answers answers 100 900 refl
      refl refl refl
