-- ===== src/Warmup.antt =====
-- bidder-server/src/server/warmup.rs. What Redis answers, the reading of the archived list of users, and
-- the outcomes of the requests to the own endpoint are arguments; a failed call is none.
pub mod Keys
pub mod Warmed
mod Tests
use Prim.Native.String.{String, ◌++◌ as ◌<>◌}
use Prim.Native.Char.{code}
use rust_rtb_bidder.Base.{
  ℕ, zero, suc, ◌+◌, ◌%◌, Bool, true, false, ◌&&◌, ◌||◌, Option, none, some, List, [], ◌∷◌, map,
  length, leb, ltb, ◌==◌, if◌then◌else◌, ◌>>=◌,
}
use rust_rtb_bidder.Model.{to_string, is_blank}
use rust_rtb_bidder.Scoring.{take}
use rust_rtb_bidder.Ml.{drop}
use rust_rtb_bidder.Enrichment.{SegmentCache, read_words}
use rust_rtb_bidder.Handlers.{HealthState, set_ready}
use text.Mathlib.Text.{◌==◌ as ◌≟◌}

abbrev pub key_prefix : String
key_prefix = "v1:seg:{u:"

unfoldable pub warm_key : ℕ → String
warm_key id = key_prefix <> (to_string id <> "}")

-- `strip_prefix`.
unfoldable pub strip : String → String → Option String
strip String.[] s = some s
strip (String.◌∷◌ c p) String.[] = none
strip (String.◌∷◌ c p) (String.◌∷◌ d s) =
    let rest = strip p s in if code c == code d then rest else none

-- `trim_start_matches`, for so many rounds.
unfoldable pub trim_start : ℕ → String → String → String
trim_start zero p s = s
trim_start (suc fuel) p s = elim (strip p s) [ none ↦ s | some rest ↦ trim_start fuel p rest ]

-- `trim_end_matches('}')`.
unfoldable pub trim_end : String → String
trim_end String.[] = String.[]
trim_end (String.◌∷◌ c s) =
    let rest = trim_end s in
    if is_blank rest && (code c == 125) then String.[] else String.◌∷◌ c rest

abbrev pub text_length : String → ℕ
text_length String.[] = 0
text_length (String.◌∷◌ c s) = suc (text_length s)

unfoldable pub user_of_key : String → String
user_of_key key = trim_end (trim_start (text_length key) key_prefix key)

-- `get_or_fetch` with segments that are at hand: what the cache has stays.
abbrev pub kept : Option (List ℕ) → List ℕ → List ℕ
kept none segments = segments
kept (some before) segments = before

unfoldable pub insert_fetched : SegmentCache → String → List ℕ → SegmentCache
insert_fetched cache user_id segments u =
    if user_id ≟ u then some (kept (cache u) segments) else cache u

-- One value of a batch, which may be missing or broken.
unfoldable pub warm_user : SegmentCache → String → Option (List ℕ) → SegmentCache
warm_user cache key none = cache
warm_user cache key (some raw) =
    if length raw % 4 == 0 then insert_fetched cache (user_of_key key) (read_words raw) else cache

-- The loop over a batch's keys and values.
unfoldable pub warm_batch : SegmentCache → List String → List (Option (List ℕ)) → SegmentCache
warm_batch cache [] values = cache
warm_batch cache (key ∷ keys) [] = cache
warm_batch cache (key ∷ keys) (value ∷ values) = warm_batch (warm_user cache key value) keys values

abbrev pub batch : ℕ
batch = 200

-- The loop over the chunks, with fuel for as many chunks as there are users. What was inserted before a
-- failed call stays.
unfoldable pub warm_chunks :
    (List String → Option (List (Option (List ℕ)))) → ℕ → SegmentCache → List ℕ → SegmentCache
warm_chunks mget zero cache ids = cache
warm_chunks mget (suc fuel) cache [] = cache
warm_chunks mget (suc fuel) cache (id ∷ ids) =
    let keys = map warm_key (take batch (id ∷ ids)) in
    elim (mget keys) [
      | none ↦ cache
      | some values ↦ warm_chunks mget fuel (warm_batch cache keys values) (drop batch (id ∷ ids))
    ]

-- What the warm-up asks of Redis: the archived list, its reading, and the batches.
pub record WarmAnswers : Type 0 where
  pub get_users : Option (Option (List ℕ))
  pub decode_users : List ℕ → Option (List ℕ)
  pub mget : List String → Option (List (Option (List ℕ)))

-- `warm_segment_cache`; its errors only end it.
unfoldable pub warm_segment_cache : WarmAnswers → SegmentCache → SegmentCache
warm_segment_cache a cache =
    elim (a.get_users >>= λ found. found >>= λ bytes. a.decode_users bytes) [
      | none ↦ cache
      | some ids ↦ warm_chunks a.mget (length ids) cache ids
    ]

-- The status of the i-th request of the self-test, or none where it fails. The loop of the first ones,
-- with the delays in between.
unfoldable pub connect : (ℕ → Option ℕ) → ℕ → List ℕ → Option ℕ
connect send i [] = none
connect send i (delay_ms ∷ delays) =
    let rest = connect send (i + 1) delays in
    elim (send i) [ some status ↦ some (i + 1) | none ↦ rest ]

-- `is_success() || as_u16() == 204`.
unfoldable pub is_passed : Option ℕ → Bool
is_passed none = false
is_passed (some status) = (leb 200 status && ltb status 300) || (status == 204)

-- The failures among so many requests from the i-th on.
unfoldable pub failures : (ℕ → Option ℕ) → ℕ → ℕ → ℕ
failures send i zero = 0
failures send i (suc n) = (if is_passed (send i) then 0 else 1) + failures send (i + 1) n

abbrev pub delays_ms : List ℕ
delays_ms = 10 ∷ 20 ∷ 40 ∷ 80 ∷ []

abbrev pub few_failures : ℕ → Option (Unit {0})
few_failures n = if ltb 10 n then none else some tt

unfoldable pub self_test : (ℕ → Option ℕ) → Option (Unit {0})
self_test send = do i ← connect send 0 delays_ms; few_failures (failures send i 100)

-- `run`, with the flag and the cache that it leaves; none in the third place is an error.
unfoldable pub run :
    WarmAnswers
    → (ℕ → Option ℕ)
    → HealthState
    → SegmentCache
    → HealthState × (SegmentCache × Option (Unit {0}))
run a send health cache =
    let passed = self_test send in
    (
      elim passed [ some _ ↦ set_ready health | none ↦ health ],
      (warm_segment_cache a cache, passed),
    )
