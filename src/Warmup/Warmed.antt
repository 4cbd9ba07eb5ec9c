-- ===== src/Warmup/Warmed.antt =====
-- What the warm-up leaves in the cache, and what a request of a warmed user then gets.
use Prim.Native.String.{String, ◌++◌ as ◌<>◌}
use text.Mathlib.Text.{◌==◌ as ◌≟◌}
use text.Mathlib.TextEquality.{eq_iff}
use rust_rtb_bidder.Base.{
  ℕ, zero, suc, ◌%◌, ◌≤◌, ◌<◌, ◌≡◌, refl, sym, ap, ◌∙◌, arith, Bool, true, false, Option, none,
  some, List, [], ◌∷◌, ◌++◌, map, length, All, any, ◌==◌, ==_iff, if◌then◌else◌, FloatOps,
  Bool-cases, inl, inr, ◌>>=◌,
}
use rust_rtb_bidder.Base.Words.{u32_mod}
use rust_rtb_bidder.Model.{to_string, BidContext}
use rust_rtb_bidder.Scoring.{take}
use rust_rtb_bidder.Ml.{drop}
use rust_rtb_bidder.Ml.Windows.{take-drop, length-drop}
use rust_rtb_bidder.Enrichment.{
  SegmentCache, read_words, segment_key, Shared, GetAnswers, fetch_for, enrich, get_or_fetch,
  fetched, segments_for, segments_of,
}
use rust_rtb_bidder.Enrichment.Packed.{packed, segments_of-packed}
use rust_rtb_bidder.Pipeline.Response.{user_id_of}
use rust_rtb_bidder.Warmup.{
  warm_key, kept, insert_fetched, warm_user, warm_batch, batch, warm_chunks, WarmAnswers,
  warm_segment_cache,
}
use rust_rtb_bidder.Warmup.Keys.{user_of_key-warm_key}

abbrev or_else : {A : Type 0} → Option A → Option A → Option A
or_else none o = o
or_else (some a) o = some a

or_else_assoc : {A : Type 0} (a b c : Option A) → or_else (or_else a b) c ≡ or_else a (or_else b c)
or_else_assoc none b c = refl
or_else_assoc (some a) b c = refl

-- The segments of a value, where it is there and has whole words.
abbrev usable : Option (List ℕ) → Option (List ℕ)
usable none = none
usable (some raw) = if length raw % 4 == 0 then some (read_words raw) else none

-- What a user gets from the value of an id.
abbrev hit : String → ℕ → Option (List ℕ) → Option (List ℕ)
hit u id none = none
hit u id (some xs) = if to_string id ≟ u then some xs else none

elsewhere :
    (i : ℕ) (ids : List ℕ) (id : ℕ)
    → (to_string i ≟ to_string id) ≡ false
    → any (λ j. j == id) (i ∷ ids) ≡ true
    → any (λ j. j == id) ids ≡ true
elsewhere i ids id f h = elim (Bool-cases (i == id)) [
  | inl t ↦
      absurd (
        no_such
          (sym f ∙ (eq_iff (to_string i) (to_string id)).1 (ap to_string ((==_iff i id).0 t))))
  | inr n ↦ rw n at h
]
  where
    no_such : false ≡ true → ⊥
    no_such e = cc

module _ (store : String → Option (List ℕ)) where
  found : String → List ℕ → Option (List ℕ)
  found u [] = none
  found u (id ∷ ids) = or_else (hit u id (usable (store (warm_key id)))) (found u ids)

  found-append :
      (u : String) (xs ys : List ℕ) → found u (xs ++ ys) ≡ or_else (found u xs) (found u ys)
  unfolding found
  found-append u [] ys = refl
  found-append u (id ∷ xs) ys =
      ap (or_else (hit u id (usable (store (warm_key id))))) (found-append u xs ys)
      ∙ sym (or_else_assoc (hit u id (usable (store (warm_key id)))) (found u xs) (found u ys))

  kept-or_else : (o : Option (List ℕ)) (xs : List ℕ) → some (kept o xs) ≡ or_else o (some xs)
  kept-or_else none xs = refl
  kept-or_else (some ys) xs = refl

  or_else-none : (o : Option (List ℕ)) → o ≡ or_else o none
  or_else-none none = refl
  or_else-none (some ys) = refl

  by_test :
      (b : Bool) (o : Option (List ℕ)) (xs : List ℕ)
      → (if b then some (kept o xs) else o) ≡ or_else o (if b then some xs else none)
  by_test true o xs = kept-or_else o xs
  by_test false o xs = or_else-none o

  warm_user-hit :
      (cache : SegmentCache) (id : ℕ) (v : Option (List ℕ)) (u : String)
      → warm_user cache (warm_key id) v u ≡ or_else (cache u) (hit u id (usable v))
  unfolding warm_user insert_fetched
  warm_user-hit cache id none u = or_else-none (cache u)
  warm_user-hit cache id (some raw) u = elim (Bool-cases (length raw % 4 == 0)) [
    | inl t ↦
        rw t (rw (user_of_key-warm_key id) (by_test (to_string id ≟ u) (cache u) (read_words raw)))
    | inr f ↦ rw f (or_else-none (cache u))
  ]

  warm_batch-found :
      (cache : SegmentCache) (ids : List ℕ) (u : String)
      → warm_batch cache (map warm_key ids) (map store (map warm_key ids)) u
        ≡ or_else (cache u) (found u ids)
  unfolding warm_batch found
  warm_batch-found cache [] u = or_else-none (cache u)
  warm_batch-found cache (id ∷ ids) u =
      warm_batch-found (warm_user cache (warm_key id) (store (warm_key id))) ids u
      ∙ (ap (λ o. or_else o (found u ids)) (warm_user-hit cache id (store (warm_key id)) u)
          ∙ or_else_assoc (cache u) (hit u id (usable (store (warm_key id)))) (found u ids))

  module _ (mget : List String → Option (List (Option (List ℕ))))
      (answers : (keys : List String) → mget keys ≡ some (map store keys)) where
    chunk_step :
        (fuel : ℕ) (cache : SegmentCache) (id : ℕ) (ids : List ℕ)
        → let keys = map warm_key (take batch (id ∷ ids)) in
          warm_chunks mget (suc fuel) cache (id ∷ ids)
          ≡ warm_chunks mget fuel (warm_batch cache keys (map store keys)) (drop batch (id ∷ ids))
    unfolding warm_chunks
    chunk_step fuel cache id ids =
        rw (answers (map warm_key (take batch (id ∷ ids))), warm_chunks) refl

    warm_chunks-found :
        (fuel : ℕ) (cache : SegmentCache) (ids : List ℕ) (u : String)
        → length ids ≤ fuel
        → warm_chunks mget fuel cache ids u ≡ or_else (cache u) (found u ids)
    unfolding warm_chunks found
    warm_chunks-found zero cache [] u h = or_else-none (cache u)
    warm_chunks-found zero cache (id ∷ ids) u h = absurd (omega (arith, h))
    warm_chunks-found (suc fuel) cache [] u h = or_else-none (cache u)
    warm_chunks-found (suc fuel) cache (id ∷ ids) u h =
        ap (λ c. c u) (chunk_step fuel cache id ids)
        ∙ (warm_chunks-found fuel
              (warm_batch cache (map warm_key chunk) (map store (map warm_key chunk))) left u
              (omega (arith, h, length-drop batch (id ∷ ids)))
            ∙ (ap (λ o. or_else o (found u left)) (warm_batch-found cache chunk u)
                ∙ (or_else_assoc (cache u) (found u chunk) (found u left)
                    ∙ ap (or_else (cache u)) (
                        sym (found-append u chunk left)
                        ∙ ap (found u) (take-drop batch (id ∷ ids))))))
      where
        chunk : List ℕ
        chunk = take batch (id ∷ ids)

        left : List ℕ
        left = drop batch (id ∷ ids)

  hit-other :
      (u : String) (i : ℕ) (o : Option (List ℕ)) → (to_string i ≟ u) ≡ false → hit u i o ≡ none
  hit-other u i none h = refl
  hit-other u i (some xs) h = rw h refl

  found-listed :
      (ids : List ℕ) (id : ℕ) (xs : List ℕ)
      → any (λ i. i == id) ids ≡ true
      → usable (store (warm_key id)) ≡ some xs
      → found (to_string id) ids ≡ some xs
  unfolding found warm_key
  found-listed [] id xs h k = absurd (ground (arith, h))
  found-listed (i ∷ ids) id xs h k = elim (Bool-cases (to_string i ≟ to_string id)) [
    | inl t ↦
        let same : to_string i ≡ to_string id = (eq_iff (to_string i) (to_string id)).0 t in
        ap
          (λ s.
            or_else (hit (to_string id) i (usable (store ("v1:seg:{u:" <> (s <> "}")))))
              (found (to_string id) ids))
          same
        ∙ (ap (λ o. or_else (hit (to_string id) i o) (found (to_string id) ids)) k ∙ rw t refl)
    | inr f ↦
        ap (λ o. or_else o (found (to_string id) ids))
          (hit-other (to_string id) i (usable (store (warm_key i))) f)
        ∙ found-listed ids id xs (elsewhere i ids id f h) k
  ]

users_warmed :
    (w : WarmAnswers) (bytes ids : List ℕ) (cache : SegmentCache)
    → w.get_users ≡ some (some bytes)
    → w.decode_users bytes ≡ some ids
    → warm_segment_cache w cache ≡ warm_chunks w.mget (length ids) cache ids
unfolding warm_segment_cache
users_warmed w bytes ids cache g d = rw (users, warm_segment_cache) refl
  where
    users : (w.get_users >>= λ found. found >>= λ bytes. w.decode_users bytes) ≡ some ids
    users = rw g d

module _ {F : Type 0} (fl : FloatOps F) where
  hits_cache :
      (E : Type 0) {V C : Type 0} (s : Shared F) (ctx : BidContext F V C) (snapshot : C)
      (user_id : String) (xs : List ℕ) (a : GetAnswers) (now : ℕ)
      → user_id_of ctx.request ≡ some user_id
      → s.cache user_id ≡ some xs
      → let ran = enrich fl {E = E} snapshot a now (s, ctx) in
        (ran.state.0 ≡ s) × (ran.state.1.segment_ids ≡ xs)
  unfolding enrich fetch_for get_or_fetch
  hits_cache E s ctx snapshot user_id xs a now h k =
      (ap (λ r. r.0) e, ap (λ r. fetched ctx.segment_ids r.1) e)
    where
      e : fetch_for fl s a now (user_id_of ctx.request) ≡ (s, some xs)
      e =
          ap (fetch_for fl s a now) h
          ∙ ap (get_or_fetch s user_id (λ redis. segments_for fl redis user_id a now)) k

  -- The warm-up reads the list of users, and Redis answers each of its batches with what it holds. For a
  -- user of the list whose value in Redis is a list of segment ids of 32 bits as it is stored, and whom
  -- the cache did not have, a request that comes after the warm-up gets these segments, and the stage
  -- changes nothing that it shares: neither Redis nor its breaker is touched, whatever they would answer.
  pub warmed_user_is_served :
      (E : Type 0) {V C : Type 0} (w : WarmAnswers) (bytes ids ns : List ℕ)
      (store : String → Option (List ℕ)) (id : ℕ) (s : Shared F) (ctx : BidContext F V C)
      (snapshot : C) (a : GetAnswers) (now : ℕ)
      → w.get_users ≡ some (some bytes)
      → w.decode_users bytes ≡ some ids
      → ((keys : List String) → w.mget keys ≡ some (map store keys))
      → any (λ i. i == id) ids ≡ true
      → store (segment_key (to_string id)) ≡ some (packed ns)
      → All (λ n. n < u32_mod) ns
      → s.cache (to_string id) ≡ none
      → user_id_of ctx.request ≡ some (to_string id)
      → let s' = record s { cache = warm_segment_cache w s.cache } in
        let ran = enrich fl {E = E} snapshot a now (s', ctx) in
        (ran.state.0 ≡ s') × (ran.state.1.segment_ids ≡ ns)
  unfolding segment_key warm_key segments_of
  warmed_user_is_served E w bytes ids ns store id s ctx snapshot a now g d m l v b c u =
      hits_cache E (record s { cache = warm_segment_cache w s.cache }) ctx snapshot (to_string id)
        ns a now u
        (ap (λ r. r (to_string id)) (users_warmed w bytes ids s.cache g d)
          ∙ (warm_chunks-found store w.mget m (length ids) s.cache ids (to_string id) (omega arith)
              ∙ (ap (λ o. or_else o (found store (to_string id) ids)) c
                  ∙ found-listed store ids id ns l (ap usable v ∙ segments_of-packed ns b))))
