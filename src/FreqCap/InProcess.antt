-- ===== src/FreqCap/InProcess.antt =====
-- bidder-core/src/frequency/in_process.rs, the cache in front of Redis. The cache of moka, a map
-- of maps, is a function of the user and the campaign; the counters are bit patterns of i64.
use Prim.Native.String.{String, compare}
use Prim.Native.Nat.{Ordering}
use rust_rtb_bidder.Base.{
  ℕ, Bool, true, false, ◌&&◌, Option, none, some, List, [], ◌∷◌, is_empty, ◌==◌, if◌then◌else◌,
}
use rust_rtb_bidder.Base.Words.{lt_i64}
use rust_rtb_bidder.Model.{AdCandidate}
use rust_rtb_bidder.Breaker.{allow_request}
use rust_rtb_bidder.FreqCap.{
  Redis, CapResult, FreqCapOutcome, checked, skipped_timeout, skipped_no_user, verdict,
}

abbrev pub Cache : Type 0
Cache = String → ℕ → Option (ℕ × ℕ)

abbrev pub same : String → String → Bool
same u v = elim (compare u v) [ Ordering.eq ↦ true | _ ↦ false ]

abbrev pub put : Cache → String → ℕ → ℕ × ℕ → Cache
put cache user_id campaign_id counts u j =
    if same user_id u && (campaign_id == j) then some counts else cache u j

unfoldable pub lookup : Cache → String → ℕ → Option (ℕ × ℕ)
lookup cache user_id campaign_id = cache user_id campaign_id

-- The larger of two signed counts.
abbrev pub raise : ℕ → ℕ → ℕ
raise old new = if lt_i64 old new then new else old

unfoldable pub warm_cache : Cache → String → ℕ → ℕ → ℕ → Cache
warm_cache cache user_id campaign_id day hour = elim (cache user_id campaign_id) [
  | none ↦ put cache user_id campaign_id (day, hour)
  | some counts ↦ put cache user_id campaign_id (raise counts.0 day, raise counts.1 hour)
]

-- The cache is in front of a capper that shares the breaker with it: s is the state of both.
pub record InProcess (F : Type 0) : Type 0 where
  pub redis : Redis F
  pub counters : Cache

module _ {F : Type 0} where
  -- The pass over the candidates: their results, where a cold one has a placeholder.
  unfoldable pub scan : Cache → String → List (AdCandidate F) → List CapResult
  scan cache user_id [] = []
  scan cache user_id (c ∷ cs) =
      let rest = scan cache user_id cs in
      elim (lookup cache user_id c.campaign_id) [
        | some counts ↦ verdict c counts.0 counts.1 ∷ rest
        | none ↦
            record {
              campaign_id = c.campaign_id;
              capped = false;
              day_count = none;
              hour_count = none;
            }
            ∷ rest
      ]

  unfoldable pub cold_candidates : Cache → String → List (AdCandidate F) → List (AdCandidate F)
  cold_candidates cache user_id [] = []
  cold_candidates cache user_id (c ∷ cs) =
      let rest = cold_candidates cache user_id cs in
      elim (lookup cache user_id c.campaign_id) [ some counts ↦ rest | none ↦ c ∷ rest ]

-- The first result of the campaign takes the verdict of the fallback.
unfoldable pub patch : List CapResult → CapResult → List CapResult
patch [] fb = []
patch (slot ∷ slots) fb =
    if slot.campaign_id == fb.campaign_id then fb ∷ slots else slot ∷ patch slots fb

unfoldable pub warm : Cache → String → CapResult → Cache
warm cache user_id fb = elim (fb.day_count) [
  | none ↦ cache
  | some day ↦ elim (fb.hour_count) [
    | none ↦ cache
    | some hour ↦ warm_cache cache user_id fb.campaign_id day hour
  ]
]

-- The loop over the fallback's results.
unfoldable pub merge : Cache → String → List CapResult → List CapResult → Cache × List CapResult
merge cache user_id results [] = (cache, results)
merge cache user_id results (fb ∷ fbs) =
    merge (warm cache user_id fb) user_id (patch results fb) fbs

unfoldable pub take_fallback :
    {F : Type 0}
    → Cache
    → String
    → List CapResult
    → Redis F × FreqCapOutcome
    → InProcess F × FreqCapOutcome
take_fallback cache user_id results (redis, checked fbs) =
    let merged = merge cache user_id results fbs in
    (record { redis = redis; counters = merged.0 }, checked merged.1)
take_fallback cache user_id results (redis, skipped_timeout) =
    (record { redis = redis; counters = cache }, checked results)
take_fallback cache user_id results (redis, skipped_no_user) =
    (record { redis = redis; counters = cache }, checked results)

-- `InProcessFrequencyCapper::check`, with the check of the fallback.
unfoldable pub check :
    {F : Type 0}
    → (Redis F → String → List (AdCandidate F) → Redis F × FreqCapOutcome)
    → InProcess F
    → String
    → List (AdCandidate F)
    → ℕ
    → InProcess F × FreqCapOutcome
check fallback s user_id candidates now =
    let asked = allow_request s.redis.breaker now in
    let redis = record s.redis { breaker = asked.0 } in
    let results = scan s.counters user_id candidates in
    let cold = cold_candidates s.counters user_id candidates in
    if asked.1
    then if is_empty cold
      then (record s { redis = redis }, checked results)
      else take_fallback s.counters user_id results (fallback redis user_id cold)
    else (record s { redis = redis }, skipped_timeout)
