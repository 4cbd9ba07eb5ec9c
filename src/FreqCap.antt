-- ===== src/FreqCap.antt =====
-- bidder-core/src/frequency/mod.rs, bidder-server/src/freq_cap.rs and
-- bidder-core/src/pipeline/stages/freq_cap.rs. What Redis answers to the two attempts of a hedged
-- MGET, and when, is an argument of the check. Times are in milliseconds, counters bit patterns of
-- i64; the arguments for device and hour, which no check reads, are left out.
pub mod InProcess
pub mod WriteBehind
pub mod Recounted
pub mod Enforced
pub mod Counters
pub mod Jammed
mod Tests
use Prim.Native.String.{String, ◌++◌ as ◌<>◌}
use rust_rtb_bidder.Base.{
  ℕ, zero, suc, ◌+◌, ◌*◌, Bool, true, false, not, ◌||◌, Option, none, some, List, [], ◌∷◌, ◌++◌,
  map, retain, is_empty, any, ◌==◌, unwrap_or, if◌then◌else◌, FloatOps,
}
use rust_rtb_bidder.Base.Words.{le_i64}
use rust_rtb_bidder.Model.{AdCandidate, BidContext, to_string}
use rust_rtb_bidder.Breaker.{CircuitBreaker, allow_request, is_closed_sync, record_outcome}
use rust_rtb_bidder.Hedge.{
  HedgeBudget, Timing, Ended, by_first, by_second, dropped, Outcome, hedged_call,
}
use rust_rtb_bidder.Hedge.Feedback.{RedisLatencyTracker, record_call}
use rust_rtb_bidder.Pipeline.{Ran, Stage}
use rust_rtb_bidder.Pipeline.Response.{user_id_of}

pub data CapWindow : Type 0 where
  hour day week : CapWindow

abbrev pub suffix : CapWindow → String
suffix hour = "h"
suffix day = "d"
suffix week = "w"

pub record CapResult : Type 0 where
  pub campaign_id : ℕ
  pub capped : Bool
  pub day_count : Option ℕ
  pub hour_count : Option ℕ

pub data FreqCapOutcome : Type 0 where
  checked : List CapResult → FreqCapOutcome
  skipped_timeout skipped_no_user : FreqCapOutcome

unfoldable pub fc_key : String → String → ℕ → CapWindow → String
fc_key user_id dim dim_val window =
    "v1:fc:{u:" <> user_id <> "}:" <> dim <> ":" <> to_string dim_val <> ":" <> suffix window

-- `values.get(i).copied().flatten().unwrap_or(0)`.
abbrev pub value_at : List (Option ℕ) → ℕ → ℕ
value_at [] i = 0
value_at (v ∷ values) zero = unwrap_or v 0
value_at (v ∷ values) (suc i) = value_at values i

module _ {F : Type 0} where
  unfoldable pub keys_of : String → List (AdCandidate F) → List String
  keys_of user_id [] = []
  keys_of user_id (c ∷ cs) =
      fc_key user_id "c" c.campaign_id day
      ∷ fc_key user_id "c" c.campaign_id hour
      ∷ keys_of user_id cs

  -- The test that both cappers make on the counts of a candidate.
  unfoldable pub is_capped : AdCandidate F → ℕ → ℕ → Bool
  is_capped c day_count hour_count =
      le_i64 c.daily_cap_imps day_count || le_i64 c.hourly_cap_imps hour_count

  abbrev pub verdict : AdCandidate F → ℕ → ℕ → CapResult
  verdict c day_count hour_count = record {
    campaign_id = c.campaign_id;
    capped = is_capped c day_count hour_count;
    day_count = some day_count;
    hour_count = some hour_count;
  }

  -- The results of the candidates from the index `i` on.
  unfoldable pub results_of : List (Option ℕ) → ℕ → List (AdCandidate F) → List CapResult
  results_of values i [] = []
  results_of values i (c ∷ cs) =
      verdict c (value_at values (i * 2)) (value_at values (i * 2 + 1))
      ∷ results_of values (suc i) cs

-- What the capper shares with the rest of the program.
pub record Redis (F : Type 0) : Type 0 where
  pub breaker : CircuitBreaker F
  pub hedge : HedgeBudget
  pub latency_tracker : RedisLatencyTracker

-- What happens to the calls of one check: when each attempt ends, and its answer, where `none` is an
-- error.
pub record Answers : Type 0 where
  pub first_ms : ℕ
  pub second_ms : ℕ
  pub first : List String → Option (List (Option ℕ))
  pub second : List String → Option (List (Option ℕ))

abbrev pub hedge_trigger : ℕ
hedge_trigger = 8

-- The result of the `timeout`: `none` where it has elapsed.
abbrev pub mget_result : Ended → Answers → List String → Option (Option (List (Option ℕ)))
mget_result by_first a keys = some (a.first keys)
mget_result by_second a keys = some (a.second keys)
mget_result dropped a keys = none

abbrev pub elapsed_ms : Ended → Answers → ℕ → ℕ
elapsed_ms by_first a timeout_ms = a.first_ms
elapsed_ms by_second a timeout_ms = hedge_trigger + a.second_ms
elapsed_ms dropped a timeout_ms = timeout_ms

module _ {F : Type 0} (fl : FloatOps F) where
  -- After the MGET: the tracker, the breaker, and the outcome.
  unfoldable pub conclude :
      Redis F
      → Option (Option (List (Option ℕ)))
      → ℕ
      → ℕ
      → List (AdCandidate F)
      → Redis F × FreqCapOutcome
  conclude s result elapsed now candidates =
      let tracked = record_call s.latency_tracker (elapsed * 1000) in
      elim result [
        | none ↦ (
          record s {
            breaker = record_outcome fl s.breaker true elapsed now;
            latency_tracker = tracked;
          },
          skipped_timeout,
        )
        | some none ↦ (
          record s {
            breaker = record_outcome fl s.breaker true elapsed now;
            latency_tracker = tracked;
          },
          skipped_timeout,
        )
        | some (some values) ↦ (
          record s {
            breaker = record_outcome fl s.breaker false elapsed now;
            latency_tracker = tracked;
          },
          checked (results_of values 0 candidates),
        )
      ]

  -- The hedged MGET under the timeout.
  unfoldable pub call_redis :
      ℕ → Redis F → String → List (AdCandidate F) → Answers → ℕ → Redis F × FreqCapOutcome
  call_redis timeout_ms s user_id candidates a now =
      let timing : Timing = record {
        first = a.first_ms;
        second = a.second_ms;
        cut = some timeout_ms;
      } in
      let o = hedged_call (is_closed_sync s.breaker) s.hedge timing hedge_trigger in
      let elapsed = elapsed_ms o.ended a timeout_ms in
      conclude (record s { hedge = o.budget }) (mget_result o.ended a (keys_of user_id candidates))
        elapsed (now + elapsed) candidates

  -- `RedisFrequencyCapper::check`.
  unfoldable pub check :
      ℕ → Redis F → String → List (AdCandidate F) → Answers → ℕ → Redis F × FreqCapOutcome
  check timeout_ms s user_id candidates a now =
      if is_empty candidates
      then (s, checked [])
      else let asked = allow_request s.breaker now in
        if asked.1
        then call_redis timeout_ms (record s { breaker = asked.0 }) user_id candidates a now
        else (record s { breaker = asked.0 }, skipped_timeout)

-- The filter of `FreqCapStage`, and what it records of one impression.
unfoldable pub keep_uncapped :
    {F : Type 0} → List CapResult → List (AdCandidate F) → List (AdCandidate F)
keep_uncapped results candidates =
    let capped = retain (λ r. r.capped) results in
    if is_empty capped
    then candidates
    else retain (λ c. not (any (λ r. r.campaign_id == c.campaign_id) capped)) candidates

unfoldable pub apply_outcome :
    {F : Type 0}
    → ℕ
    → FreqCapOutcome
    → List (AdCandidate F)
    → List (AdCandidate F) × List (ℕ × (ℕ × Bool))
apply_outcome imp_idx (checked results) candidates =
    (keep_uncapped results candidates, map (λ r. (imp_idx, (r.campaign_id, r.capped))) results)
apply_outcome imp_idx skipped_timeout candidates = (candidates, [])
apply_outcome imp_idx skipped_no_user candidates = (candidates, [])

-- The body of the stage's loop, for a capper on the state W; `ask idx` is its check for the
-- impression `idx`.
unfoldable pub cap_imp :
    {F W : Type 0}
    → (ℕ → W → List (AdCandidate F) → W × FreqCapOutcome)
    → ℕ
    → W
    → List (AdCandidate F)
    → W × (List (AdCandidate F) × List (ℕ × (ℕ × Bool)))
cap_imp ask idx w candidates =
    let asked = ask idx w candidates in
    if is_empty candidates
    then (w, (candidates, []))
    else (asked.0, apply_outcome idx asked.1 candidates)

unfoldable pub cap_imps :
    {F W : Type 0}
    → (ℕ → W → List (AdCandidate F) → W × FreqCapOutcome)
    → ℕ
    → W
    → List (List (AdCandidate F))
    → W × (List (List (AdCandidate F)) × List (ℕ × (ℕ × Bool)))
cap_imps ask idx w [] = (w, ([], []))
cap_imps ask idx w (candidates ∷ imps) =
    let r = cap_imp ask idx w candidates in
    let rest = cap_imps ask (suc idx) r.0 imps in (rest.0, (r.1.0 ∷ rest.1.0, r.1.1 ++ rest.1.1))

-- `FreqCapStage::execute`, for a capper that is asked with the user's id.
unfoldable pub cap_stage :
    {E W F V C : Type 0}
    → (String → ℕ → W → List (AdCandidate F) → W × FreqCapOutcome)
    → Stage E W F V C
cap_stage ask (w, ctx) = elim (user_id_of ctx.request) [
  | none ↦ record { error = none; state = (w, ctx) }
  | some user_id ↦
      let r = cap_imps (ask user_id) 0 w ctx.candidates in
      record {
        error = none;
        state = (
          r.0,
          record ctx { candidates = r.1.0; freq_cap_results = ctx.freq_cap_results ++ r.1.1 },
        );
      }
]
