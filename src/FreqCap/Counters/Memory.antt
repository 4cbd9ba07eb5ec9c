-- ===== src/FreqCap/Counters/Memory.antt =====
-- A key store in memory that behaves as Redis is documented to: a key has its counter and, once it was
-- set, its deadline.
use Prim.Native.String.{String}
use text.Mathlib.Text.{◌==◌ as ◌≟◌}
use text.Mathlib.TextPositions.{eq_refl}
use text.Mathlib.TextEquality.{eq_iff}
use rust_rtb_bidder.Base.{
  ℕ, ◌+◌, ◌*◌, ◌≤◌, ◌≡◌, ◌≢◌, refl, ap, ◌∙◌, arith, Option, none, some, ltb, if◌then◌else◌,
  if_intro, unwrap_or, ◌>>=◌,
}
use rust_rtb_bidder.FreqCap.Counters.{KeyStore, IsRedis}

abbrev pub Entry : Type 0
Entry = Option (ℕ × Option ℕ)

abbrev pub Memory : Type 0
Memory = String → Entry

abbrev pub live : ℕ → Entry → Entry
live t none = none
live t (some (n, none)) = some (n, none)
live t (some (n, some end)) = if ltb t end then some (n, some end) else none

abbrev pub count : Entry → Option ℕ
count none = none
count (some (n, end)) = some n

abbrev pub bump : Entry → ℕ × Option ℕ
bump none = (1, none)
bump (some (n, end)) = (n + 1, end)

abbrev pub until : ℕ → Entry → Entry
until end none = none
until end (some (n, old)) = some (n, some end)

abbrev pub put : Memory → String → Entry → Memory
put d k v j = if j ≟ k then v else d j

abbrev pub memory : KeyStore Memory
memory = record {
  get = λ d t k. count (live t (d k));
  incr = λ d t k. (put d k (some (bump (live t (d k)))), (bump (live t (d k))).0);
  expire = λ d t k ttl. put d k (until (t + ttl * 1_000) (live t (d k)));
}

put_same : (d : Memory) (k : String) (v : Entry) → put d k v k ≡ v
put_same d k v = rw (eq_refl k) refl

put_other : (d : Memory) (k j : String) (v : Entry) → j ≢ k → put d k v j ≡ d j
put_other d k j v h =
    if_intro (λ e. e ≡ d j) (j ≟ k) v (d j) (λ t. absurd (h ((eq_iff j k).0 t))) (λ _. refl)

reply : (o : Entry) → (bump o).0 ≡ unwrap_or (count o) 0 + 1
reply none = omega arith
reply (some (n, end)) = refl

begun : (u : ℕ) (o : Entry) → count o ≡ none → count (live u (some (bump o))) ≡ some 1
begun u none h = refl
begun u (some (n, end)) h = absurd (ground (arith, h))

counted :
    (t u n : ℕ) (o : Entry)
    → t ≤ u
    → count (live t o) ≡ some n
    → count (live u (some (bump (live t o)))) ≡ (count (live u o) >>= λ m. some (m + 1))
counted t u n none h k = absurd (ground (arith, k))
counted t u n (some (m, none)) h k = refl
counted t u n (some (m, some end)) h k = ground (arith, k)

limited :
    (u n end : ℕ) (o : Entry)
    → count o ≡ some n
    → count (live u (until end o)) ≡ (if ltb u end then some n else none)
limited u n end none h = absurd (ground (arith, h))
limited u n end (some (m, old)) h = ground (arith, h)

pub memory-IsRedis : IsRedis memory
memory-IsRedis = record {
  incr_reply = λ d t k h. reply (live t (d k));
  incr_new = λ d t u k l h.
      ap (λ e. count (live u e)) (put_same d k (some (bump (live t (d k)))))
      ∙ begun u (live t (d k)) h;
  incr_old = λ d t u n k l m h.
      ap (λ e. count (live u e)) (put_same d k (some (bump (live t (d k)))))
      ∙ counted t u n (d k) l h;
  incr_other =
      λ d t u k j h. ap (λ e. count (live u e)) (put_other d k j (some (bump (live t (d k)))) h);
  expire_same = λ d t u n k ttl l h.
      ap (λ e. count (live u e)) (put_same d k (until (t + ttl * 1_000) (live t (d k))))
      ∙ limited u n (t + ttl * 1_000) (live t (d k)) h;
  expire_other = λ d t u k j ttl h.
      ap (λ e. count (live u e)) (put_other d k j (until (t + ttl * 1_000) (live t (d k))) h);
}
