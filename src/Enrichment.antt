-- ===== src/Enrichment.antt =====
-- bidder-core/src/pipeline/stages/user_enrichment.rs, bidder-core/src/cache/mod.rs,
-- bidder-core/src/repository and bidder-server/src/segment_repo.rs. The cache of moka is a function of
-- the user. What Redis answers to the attempts of the hedged GET, and when, is an argument; a value is
-- the list of its bytes, and a missing key is not an error. Times are in milliseconds.
pub mod Packed
pub mod Segments
mod Tests
use Prim.Native.String.{String, ◌++◌ as ◌<>◌}
use text.Mathlib.Text.{◌==◌ as ◌≟◌}
use rust_rtb_bidder.Base.{
  ℕ, ◌+◌, ◌*◌, ◌%◌, Bool, true, false, Option, none, some, List, [], ◌∷◌, length, ◌==◌,
  if◌then◌else◌, FloatOps,
}
use rust_rtb_bidder.Model.{BidContext}
use rust_rtb_bidder.Breaker.{allow_request, is_closed_sync, record_outcome}
use rust_rtb_bidder.Hedge.{Timing, Ended, by_first, by_second, dropped, hedged_call}
use rust_rtb_bidder.Hedge.Feedback.{record_call}
use rust_rtb_bidder.Pipeline.{Stage}
use rust_rtb_bidder.Pipeline.Response.{user_id_of}
use rust_rtb_bidder.FreqCap.{Redis}

-- `SegmentCache`: what it holds for a user.
abbrev pub SegmentCache : Type 0
SegmentCache = String → Option (List ℕ)

-- An attempt's answer is none where it is an error.
pub record GetAnswers : Type 0 where
  pub first_ms : ℕ
  pub second_ms : ℕ
  pub first : String → Option (Option (List ℕ))
  pub second : String → Option (Option (List ℕ))

unfoldable pub segment_key : String → String
segment_key user_id = "v1:seg:{u:" <> user_id <> "}"

abbrev pub get_trigger : ℕ
get_trigger = 8

-- `chunks_exact(4)` with `u32::from_le_bytes`.
unfoldable pub read_words : List ℕ → List ℕ
read_words (a ∷ b ∷ c ∷ d ∷ rest) = (a + 256 * b + 65_536 * c + 16_777_216 * d) ∷ read_words rest
read_words _ = []

-- The segments of a value, or none where it cannot be one.
unfoldable pub segments_of : Option (List ℕ) → Option (List ℕ)
segments_of none = some []
segments_of (some bytes) = if length bytes % 4 == 0 then some (read_words bytes) else none

-- The attempts are awaited to the end, so the call is not dropped.
abbrev pub get_result : Ended → GetAnswers → String → Option (Option (List ℕ))
get_result by_first a key = a.first key
get_result by_second a key = a.second key
get_result dropped a key = none

abbrev pub get_elapsed : Ended → GetAnswers → ℕ
get_elapsed by_first a = a.first_ms
get_elapsed by_second a = get_trigger + a.second_ms
get_elapsed dropped a = 0

module _ {F : Type 0} (fl : FloatOps F) where
  -- After the GET: the tracker, the breaker, and the segments.
  unfoldable pub conclude_get :
      Redis F → Option (Option (List ℕ)) → ℕ → ℕ → Redis F × Option (List ℕ)
  conclude_get s none elapsed now = (
    record s {
      breaker = record_outcome fl s.breaker true elapsed now;
      latency_tracker = record_call s.latency_tracker (elapsed * 1000);
    },
    none,
  )
  conclude_get s (some value) elapsed now = (
    record s {
      breaker = record_outcome fl s.breaker false elapsed now;
      latency_tracker = record_call s.latency_tracker (elapsed * 1000);
    },
    segments_of value,
  )

  unfoldable pub get_segments : Redis F → String → GetAnswers → ℕ → Redis F × Option (List ℕ)
  get_segments s user_id a now =
      let timing : Timing = record { first = a.first_ms; second = a.second_ms; cut = none } in
      let o = hedged_call (is_closed_sync s.breaker) s.hedge timing get_trigger in
      let elapsed = get_elapsed o.ended a in
      conclude_get (record s { hedge = o.budget }) (get_result o.ended a (segment_key user_id))
        elapsed (now + elapsed)

  -- `RedisSegmentRepo::segments_for`; none is an error.
  unfoldable pub segments_for : Redis F → String → GetAnswers → ℕ → Redis F × Option (List ℕ)
  segments_for s user_id a now =
      let asked = allow_request s.breaker now in
      let s' = record s { breaker = asked.0 } in
      if asked.1 then get_segments s' user_id a now else (s', some [])

-- What the stage shares: the cache, and Redis behind it.
pub record Shared (F : Type 0) : Type 0 where
  pub cache : SegmentCache
  pub redis : Redis F

-- `try_get_with` keeps what a fetch gives, unless it is an error.
abbrev pub keep_fetched :
    {F : Type 0} → SegmentCache → String → Redis F × Option (List ℕ) → Shared F × Option (List ℕ)
keep_fetched cache user_id (redis, none) = (record { cache = cache; redis = redis }, none)
keep_fetched cache user_id (redis, some segments) = (
  record { cache = λ u. if user_id ≟ u then some segments else cache u; redis = redis },
  some segments,
)

unfoldable pub get_or_fetch :
    {F : Type 0}
    → Shared F
    → String
    → (Redis F → Redis F × Option (List ℕ))
    → Option (List ℕ)
    → Shared F × Option (List ℕ)
get_or_fetch s user_id fetch (some segments) = (s, some segments)
get_or_fetch s user_id fetch none = keep_fetched s.cache user_id (fetch s.redis)

abbrev pub fetched : List ℕ → Option (List ℕ) → List ℕ
fetched before none = before
fetched before (some segments) = segments

module _ {F : Type 0} (fl : FloatOps F) where
  -- The fetch of a request's segments, where it names a user.
  unfoldable pub fetch_for : Shared F → GetAnswers → ℕ → Option String → Shared F × Option (List ℕ)
  fetch_for s a now none = (s, none)
  fetch_for s a now (some user_id) =
      get_or_fetch s user_id (λ redis. segments_for fl redis user_id a now) (s.cache user_id)

  -- `UserEnrichmentStage::execute`, with the catalog's snapshot.
  unfoldable pub enrich : {E V C : Type 0} → C → GetAnswers → ℕ → Stage E (Shared F) F V C
  enrich snapshot a now (s, ctx) =
      let got = fetch_for s a now (user_id_of ctx.request) in
      record {
        error = none;
        state = (
          got.0,
          record ctx { catalog = some snapshot; segment_ids = fetched ctx.segment_ids got.1 },
        );
      }
