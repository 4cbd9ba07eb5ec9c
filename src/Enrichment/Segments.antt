-- ===== src/Enrichment/Segments.antt =====
-- The segments that a request gets.
use Prim.Native.String.{String}
use text.Mathlib.TextPositions.{eq_refl}
use rust_rtb_bidder.Base.{
  ◌&&◌, ltb, if◌then◌else◌, ℕ, ◌+◌, ◌%◌, ◌<◌, ◌≡◌, refl, ap, ◌∙◌, arith, true, false, Option, none,
  some, List, [], All, length, FloatOps,
}
use rust_rtb_bidder.Base.Words.{u32_mod}
use rust_rtb_bidder.Model.{BidContext}
use rust_rtb_bidder.Breaker.{allow_request, is_closed_sync}
use rust_rtb_bidder.Hedge.{hedged_call, await_first, race}
use rust_rtb_bidder.Pipeline.Response.{user_id_of}
use rust_rtb_bidder.FreqCap.{Redis}
use rust_rtb_bidder.Enrichment.{
  GetAnswers, segment_key, segments_of, conclude_get, get_segments, segments_for, get_or_fetch,
  fetch_for, enrich, Shared, fetched, keep_fetched, get_trigger, get_result,
}
use rust_rtb_bidder.Enrichment.Packed.{
  packed, segments_of-packed, segments_of-malformed, segments_of-missing,
}

module _ {F : Type 0} (fl : FloatOps F) where
  refused-segments_for :
      (s : Redis F) (user_id : String) (a : GetAnswers) (now : ℕ)
      → (allow_request s.breaker now).1 ≡ false
      → (segments_for fl s user_id a now).1 ≡ some []
  unfolding segments_for
  refused-segments_for s user_id a now h = rw h refl

  -- The answer of the attempt that ends first, where a second one is made after the trigger if the
  -- breaker is closed and a token is left; the first attempt's where both end at once.
  abbrev pub answer_of : Redis F → String → GetAnswers → Option (Option (List ℕ))
  answer_of s user_id a =
      if is_closed_sync s.breaker
        && (ltb 0 s.hedge.tokens
            && (ltb get_trigger a.first_ms && ltb (get_trigger + a.second_ms) a.first_ms))
      then a.second (segment_key user_id)
      else a.first (segment_key user_id)

  get_result-answer_of :
      (s : Redis F) (user_id : String) (a : GetAnswers)
      → get_result
          (hedged_call
            (is_closed_sync s.breaker)
            s.hedge
            (record { first = a.first_ms; second = a.second_ms; cut = none })
            get_trigger).ended
          a
          (segment_key user_id)
        ≡ answer_of s user_id a
  unfolding hedged_call await_first race
  get_result-answer_of s user_id a = ground arith

  -- What a result is worth: none where it is an error.
  abbrev read_result : Option (Option (List ℕ)) → Option (List ℕ)
  read_result none = none
  read_result (some value) = segments_of value

  conclude_get-read :
      (s : Redis F) (result : Option (Option (List ℕ))) (elapsed now : ℕ)
      → (conclude_get fl s result elapsed now).1 ≡ read_result result
  unfolding conclude_get
  conclude_get-read s none elapsed now = refl
  conclude_get-read s (some value) elapsed now = refl

  asked-segments_for :
      (s : Redis F) (user_id : String) (a : GetAnswers) (now : ℕ)
      → (allow_request s.breaker now).1 ≡ true
      → (segments_for fl s user_id a now).1
        ≡ read_result (answer_of (record s { breaker = (allow_request s.breaker now).0 }) user_id a)
  unfolding segments_for get_segments
  asked-segments_for s user_id a now h =
      let s' = record s { breaker = (allow_request s.breaker now).0 } in
      rw h (conclude_get-read _ _ _ _ ∙ ap read_result (get_result-answer_of s' user_id a))

  kept-segments :
      (cache : String → Option (List ℕ)) (user_id : String) (got : Redis F × Option (List ℕ))
      → (keep_fetched cache user_id got).1 ≡ got.1
  kept-segments cache user_id (redis, none) = refl
  kept-segments cache user_id (redis, some segments) = refl

  fetch-uncached :
      (s : Shared F) (user_id : String) (a : GetAnswers) (now : ℕ) (user : Option String)
      → user ≡ some user_id
      → s.cache user_id ≡ none
      → (fetch_for fl s a now user).1 ≡ (segments_for fl s.redis user_id a now).1
  unfolding fetch_for get_or_fetch
  fetch-uncached s user_id a now user u c =
      ap (λ v. (fetch_for fl s a now v).1) u
      ∙ (ap (λ held. (get_or_fetch s user_id (λ redis. segments_for fl redis user_id a now) held).1)
            c
          ∙ kept-segments s.cache user_id (segments_for fl s.redis user_id a now))

  keep_fetched-cache :
      (cache : String → Option (List ℕ)) (user_id : String) (got : Redis F × Option (List ℕ))
      (segments : List ℕ)
      → got.1 ≡ some segments
      → (keep_fetched cache user_id got).0.cache user_id ≡ some segments
  keep_fetched-cache cache user_id (redis, none) segments e = absurd (grind (arith, e))
  keep_fetched-cache cache user_id (redis, some found) segments e = rw (eq_refl user_id) e

  cached-fetch :
      (s : Shared F) (user_id : String) (a : GetAnswers) (now : ℕ) (user : Option String)
      (segments : List ℕ)
      → user ≡ some user_id
      → s.cache user_id ≡ none
      → (segments_for fl s.redis user_id a now).1 ≡ some segments
      → (fetch_for fl s a now user).0.cache user_id ≡ some segments
  unfolding fetch_for get_or_fetch
  cached-fetch s user_id a now user segments u c g =
      ap (λ v. (fetch_for fl s a now v).0.cache user_id) u
      ∙ (ap
            (λ held.
              (get_or_fetch s user_id (λ redis. segments_for fl redis user_id a now) held).0.cache
                user_id)
            c
          ∙ keep_fetched-cache s.cache user_id (segments_for fl s.redis user_id a now) segments g)

  fetch-cached :
      (s : Shared F) (user_id : String) (a : GetAnswers) (now : ℕ) (user : Option String)
      (segments : List ℕ)
      → user ≡ some user_id
      → s.cache user_id ≡ some segments
      → (fetch_for fl s a now user).1 ≡ some segments
  unfolding fetch_for get_or_fetch
  fetch-cached s user_id a now user segments u c =
      ap (λ v. (fetch_for fl s a now v).1) u
      ∙ ap (λ held. (get_or_fetch s user_id (λ redis. segments_for fl redis user_id a now) held).1)
          c

  module _ {V C : Type 0} (snapshot : C) where
    -- The segments that the stage leaves in the context.
    abbrev pub segments_after : Shared F × BidContext F V C → GetAnswers → ℕ → List ℕ
    segments_after t a now = (enrich fl {E = Unit {0}} snapshot a now t).state.1.segment_ids

    after-fetch :
        (s : Shared F) (ctx : BidContext F V C) (user_id : String) (a : GetAnswers) (now : ℕ)
        (got : Option (List ℕ))
        → user_id_of ctx.request ≡ some user_id
        → s.cache user_id ≡ none
        → (segments_for fl s.redis user_id a now).1 ≡ got
        → segments_after (s, ctx) a now ≡ fetched ctx.segment_ids got
    unfolding enrich
    after-fetch s ctx user_id a now got u c g =
        ap (fetched ctx.segment_ids)
          (fetch-uncached s user_id a now (user_id_of ctx.request) u c ∙ g)

    -- For a user whom the cache does not hold: while the breaker lets the call through, the answer is
    -- that of the attempt that ends first, the hedged one included. The request gets exactly the
    -- segments that the stored value packs; it keeps those that it had where the value is not of whole
    -- words of four bytes, or where the answer is an error; and it gets none where the key is missing.
    -- While the breaker refuses the call, the request gets none.
    pub enrich-packed :
        (s : Shared F) (ctx : BidContext F V C) (user_id : String) (a : GetAnswers) (now : ℕ)
        → user_id_of ctx.request ≡ some user_id
        → s.cache user_id ≡ none
        → let asked = allow_request s.redis.breaker now in
          let answer = answer_of (record s.redis { breaker = asked.0 }) user_id a in
          (asked.1 ≡ true
            → ((ns : List ℕ)
                → All (λ n. n < u32_mod) ns
                → answer ≡ some (some (packed ns))
                → segments_after (s, ctx) a now ≡ ns)
              × (((bytes : List ℕ)
                    → (length bytes % 4 ≡ 0 → ⊥)
                    → answer ≡ some (some bytes)
                    → segments_after (s, ctx) a now ≡ ctx.segment_ids)
                  × ((answer ≡ some none → segments_after (s, ctx) a now ≡ [])
                      × (answer ≡ none → segments_after (s, ctx) a now ≡ ctx.segment_ids))))
          × (asked.1 ≡ false → segments_after (s, ctx) a now ≡ [])
    enrich-packed s ctx user_id a now u c = (
      λ h.
          let worth = asked-segments_for s.redis user_id a now h in
          let gets : (got : Option (List ℕ))
              → read_result (
                  answer_of (record s.redis { breaker = (allow_request s.redis.breaker now).0 })
                    user_id a)
                ≡ got
              → segments_after (s, ctx) a now ≡ fetched ctx.segment_ids got =
            λ got e. after-fetch s ctx user_id a now got u c (worth ∙ e) in
          (
            λ ns b e. gets (some ns) (ap read_result e ∙ segments_of-packed ns b),
            (
              λ bytes n e. gets none (ap read_result e ∙ segments_of-malformed bytes n),
              (
                λ e. gets (some []) (ap read_result e ∙ segments_of-missing),
                λ e. gets none (ap read_result e),
              ),
            ),
          ),
      λ h.
          after-fetch s ctx user_id a now (some []) u c
            (refused-segments_for s.redis user_id a now h),
    )

    -- What the breaker's refusal leaves in the cache: until the entry goes, every later request of the
    -- user is without segments, whatever the breaker and Redis would answer.
    pub refusal_is_cached :
        (s : Shared F) (ctx later : BidContext F V C) (user_id : String) (a b : GetAnswers)
        (now next : ℕ)
        → user_id_of ctx.request ≡ some user_id
        → user_id_of later.request ≡ some user_id
        → s.cache user_id ≡ none
        → (allow_request s.redis.breaker now).1 ≡ false
        → segments_after ((enrich fl {E = Unit {0}} snapshot a now (s, ctx)).state.0, later) b next
          ≡ []
    unfolding enrich
    refusal_is_cached s ctx later user_id a b now next u v c h = ap (fetched later.segment_ids) (
        fetch-cached (fetch_for fl s a now (user_id_of ctx.request)).0 user_id b next
          (user_id_of later.request) [] v
          (cached-fetch s user_id a now (user_id_of ctx.request) [] u c
            (refused-segments_for s.redis user_id a now h)))
