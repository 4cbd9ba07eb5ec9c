-- ===== src/FreqCap/Counters/Tests.antt =====
-- Three impressions in the store in memory, and the theorem at them.
use Prim.Native.String.{String}
use rust_rtb_bidder.Base.{
  ℕ, ◌+◌, ◌≡◌, refl, false, not, ◌||◌, Option, none, some, List, [], ◌∷◌, map, retain, ltb,
  if◌then◌else◌, arith,
}
use rust_rtb_bidder.Base.Words.{le_i64}
use rust_rtb_bidder.Base.Ratio.{Ratio, ratio_ops}
use rust_rtb_bidder.Model.{AdCandidate, to_string}
use rust_rtb_bidder.Breaker.{closed, redis, fresh_window}
use rust_rtb_bidder.FreqCap.{Redis, Answers, CapResult, checked, check, keep_uncapped}
use rust_rtb_bidder.FreqCap.Enforced.{is_at_cap}
use rust_rtb_bidder.FreqCap.WriteBehind.{ImpressionEvent}
use rust_rtb_bidder.FreqCap.Counters.{
  counter_key, impression_workers, write_impression_counters, script,
}
use rust_rtb_bidder.FreqCap.Counters.Windows.{sum}
use rust_rtb_bidder.FreqCap.Counters.Capped.{store_at, impressions_are_capped}
use rust_rtb_bidder.FreqCap.Counters.Memory.{Memory, memory, memory-IsRedis}

abbrev event : ImpressionEvent
event = record { user_id = "u"; campaign_id = 7; creative_id = 0; device_type = 0; hour_of_day = 0 }

abbrev nothing : Memory
nothing = λ k. none

abbrev gaps : List ℕ
gaps = 1_000 ∷ 2_000 ∷ []

abbrev ad : AdCandidate Ratio
ad = record {
  campaign_id = 7;
  creative_id = 1;
  bid_price_cents = 10;
  score = (0, 1);
  daily_cap_imps = 5;
  hourly_cap_imps = 3;
}

abbrev later : String → Option ℕ
later = store_at memory memory-IsRedis nothing 0 500 event gaps 9_000

-- Both attempts answer with what is stored.
abbrev replies : Answers
replies = record {
  first_ms = 2;
  second_ms = 2;
  first = λ keys. some (map later keys);
  second = λ keys. some (map later keys);
}

abbrev shared : Redis Ratio
shared = record {
  breaker = record {
    cfg = redis ratio_ops;
    window = fresh_window;
    inner = record { state = closed; opened_at = none; half_open_probe_in_flight = false };
  };
  hedge = record { tokens = 5; nominal = 5; effective_cap = 5 };
  latency_tracker = record { count = 0; sum_us = 0 };
}

three_within_the_hour : later (counter_key event "h") ≡ some 3
unfolding impression_workers write_impression_counters script counter_key to_string
three_within_the_hour = refl

impressions_are_capped_example :
    ((results : List CapResult) × (((check ratio_ops 10 shared "u" (ad ∷ []) replies 9_000).1
          ≡ checked results)
        × (keep_uncapped results (ad ∷ []) ≡ retain (λ c. not (is_at_cap later "u" c)) (ad ∷ []))))
    × (is_at_cap later "u" ad
        ≡ (le_i64 5 3 || le_i64 3 (if ltb 9_000 (500 + 3_600_000) then 3 else 0)))
unfolding sum
impressions_are_capped_example =
    impressions_are_capped memory memory-IsRedis nothing 0 500 event gaps refl refl (omega arith)
      (omega arith) ratio_ops 10 shared (ad ∷ []) replies 9_000 ad (omega arith) (omega arith)
      (refl, (omega arith, omega arith)) refl (refl, tt) refl
