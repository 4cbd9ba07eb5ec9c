-- ===== src/FreqCap/Tests.antt =====
-- Runs of the cappers on small inputs, and the theorems at them.
use Prim.Native.String.{String}
use rust_rtb_bidder.Base.{
  ℕ, ◌+◌, ◌≡◌, refl, true, false, not, Option, none, some, List, [], ◌∷◌, map, retain, length,
  arith,
}
use rust_rtb_bidder.Base.Words.{le_i64}
use rust_rtb_bidder.Base.Ratio.{Ratio, ratio_ops}
use rust_rtb_bidder.Model.{AdCandidate}
use rust_rtb_bidder.Breaker.{BreakerState, open_, closed, redis, fresh_window, elapsed}
use rust_rtb_bidder.FreqCap.{
  Redis, Answers, CapResult, checked, skipped_timeout, check, keep_uncapped, is_capped,
}
use rust_rtb_bidder.FreqCap.InProcess.{
  InProcess, scan, cold_candidates, lookup, check as check_cache,
}
use rust_rtb_bidder.FreqCap.WriteBehind.{Written, evict, write_behind_drain}
use rust_rtb_bidder.FreqCap.Enforced.{is_at_cap, check_enforces_caps}
use rust_rtb_bidder.FreqCap.Jammed.{behind, in_process_jams}
use rust_rtb_bidder.FreqCap.Recounted.{record_times, evicted_counts_again}

abbrev ad : ℕ → ℕ → AdCandidate Ratio
ad id cap = record {
  campaign_id = id;
  creative_id = id;
  bid_price_cents = 10;
  score = (0, 1);
  daily_cap_imps = cap;
  hourly_cap_imps = cap;
}

abbrev served : String → Option ℕ
served key = some 3

abbrev ads : List (AdCandidate Ratio)
ads = ad 1 3 ∷ ad 2 4 ∷ []

-- Both attempts answer with the store's counts.
abbrev replies : Answers
replies = record {
  first_ms = 2;
  second_ms = 2;
  first = λ keys. some (map served keys);
  second = λ keys. some (map served keys);
}

abbrev shared : BreakerState → Redis Ratio
shared state = record {
  breaker = record {
    cfg = redis ratio_ops;
    window = fresh_window;
    inner = record { state = state; opened_at = some 0; half_open_probe_in_flight = false };
  };
  hedge = record { tokens = 5; nominal = 5; effective_cap = 5 };
  latency_tracker = record { count = 0; sum_us = 0 };
}

abbrev cached : InProcess Ratio
cached = record { redis = shared open_; counters = λ u j. none }

cap_of_zero_is_reached_at_none : is_capped (ad 1 0) 0 0 ≡ true
unfolding is_capped le_i64
cap_of_zero_is_reached_at_none = refl

below_cap_is_kept : retain (λ c. not (is_at_cap served "u" c)) ads ≡ ad 2 4 ∷ []
unfolding is_capped le_i64
below_cap_is_kept = refl

check_enforces_caps_example :
    (results : List CapResult) × (((check ratio_ops 10 (shared closed) "u" ads replies 0).1
        ≡ checked results)
      × (keep_uncapped results ads ≡ retain (λ c. not (is_at_cap served "u" c)) ads))
check_enforces_caps_example =
    check_enforces_caps ratio_ops 10 (shared closed) "u" ads replies 0 served
      (refl, (omega arith, omega arith)) refl (refl, (refl, tt))

in_process_jams_example :
    ((check_cache (behind ratio_ops 10 replies 20_000) cached "u" ads 20_000).1
      ≡ checked (scan cached.counters "u" ads))
    × ((user_id' : String) (candidates' : List (AdCandidate Ratio)) (a' : Answers) (now' : ℕ)
        → check_cache
            (behind ratio_ops 10 a' now')
            (check_cache (behind ratio_ops 10 replies 20_000) cached "u" ads 20_000).0
            user_id'
            candidates'
            now'
          ≡ (
            (check_cache (behind ratio_ops 10 replies 20_000) cached "u" ads 20_000).0,
            skipped_timeout,
          ))
unfolding redis elapsed cold_candidates lookup
in_process_jams_example =
    in_process_jams ratio_ops 10 cached "u" ads replies 20_000 refl (omega arith) refl

abbrev empty : Written
empty = record { counters = λ u j. none; queue = [] }

evicted_counts_again_example :
    length
      (write_behind_drain (evict 65_536 (record_times 65_536 "u" 7 3 empty) "u" (7 ∷ [])).queue [])
    ≡ 3 + 1
evicted_counts_again_example =
    evicted_counts_again 65_536 "u" 7 3 empty refl (omega arith) (omega arith)
