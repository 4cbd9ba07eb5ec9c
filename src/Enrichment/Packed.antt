-- ===== src/Enrichment/Packed.antt =====
-- The values that Redis keeps for the segments of a user.
use rust_rtb_bidder.Base.{
  ℕ, ◌+◌, ◌*◌, ◌/◌, ◌%◌, ◌<◌, ◌≡◌, refl, ap, arith, true, none, some, List, [], ◌∷◌, All, length,
  ◌==◌,
}
use rust_rtb_bidder.Base.Words.{u32_mod}
use rust_rtb_bidder.Enrichment.{read_words, segments_of}

-- The value that a list of segments is stored as: each number in four bytes, the lowest first.
unfoldable pub packed : List ℕ → List ℕ
packed [] = []
packed (n ∷ ns) = n % 256 ∷ n / 256 % 256 ∷ n / 65_536 % 256 ∷ n / 16_777_216 % 256 ∷ packed ns

length-packed : (ns : List ℕ) → length (packed ns) ≡ 4 * length ns
unfolding packed
length-packed [] = refl
length-packed (n ∷ ns) = omega (arith, length-packed ns)

word :
    (n : ℕ)
    → n < u32_mod
    → n % 256
        + 256 * (n / 256 % 256)
        + 65_536 * (n / 65_536 % 256)
        + 16_777_216 * (n / 16_777_216 % 256)
      ≡ n
word n h = omega (arith, h)

read_words-packed : (ns : List ℕ) → All (λ n. n < u32_mod) ns → read_words (packed ns) ≡ ns
unfolding packed read_words
read_words-packed [] h = refl
read_words-packed (n ∷ ns) (h, hs) = λ i. word n h i ∷ read_words-packed ns hs i

bytes_of :
    (a b c d : ℕ)
    → a < 256
    → b < 256
    → c < 256
    → d < 256
    → let n = a + 256 * b + 65_536 * c + 16_777_216 * d in
      (n % 256 ≡ a) × ((n / 256 % 256 ≡ b) × ((n / 65_536 % 256 ≡ c) × (n / 16_777_216 % 256 ≡ d)))
bytes_of a b c d ha hb hc hd = (omega arith, (omega arith, (omega arith, omega arith)))

-- Every value of whole words is stored so.
pub packed-read_words :
    (bytes : List ℕ)
    → All (λ n. n < 256) bytes
    → length bytes % 4 ≡ 0
    → (packed (read_words bytes) ≡ bytes) × All (λ n. n < u32_mod) (read_words bytes)
unfolding packed read_words
packed-read_words [] h k = (refl, tt)
packed-read_words (a ∷ []) h k = absurd (omega (arith, k))
packed-read_words (a ∷ b ∷ []) h k = absurd (omega (arith, k))
packed-read_words (a ∷ b ∷ c ∷ []) h k = absurd (omega (arith, k))
packed-read_words (a ∷ b ∷ c ∷ d ∷ rest) (ha, (hb, (hc, (hd, hs)))) k =
    let (e, w) = packed-read_words rest hs (omega (arith, k)) in
    let (ea, (eb, (ec, ed))) = bytes_of a b c d ha hb hc hd in
    (λ i. ea i ∷ eb i ∷ ec i ∷ ed i ∷ e i, (omega arith, w))

pub segments_of-packed :
    (ns : List ℕ) → All (λ n. n < u32_mod) ns → segments_of (some (packed ns)) ≡ some ns
unfolding segments_of
segments_of-packed ns h = rw divided (ap some (read_words-packed ns h))
  where
    divided : (length (packed ns) % 4 == 0) ≡ true
    divided = ground (arith, length-packed ns)

pub segments_of-malformed :
    (bytes : List ℕ) → (length bytes % 4 ≡ 0 → ⊥) → segments_of (some bytes) ≡ none
unfolding segments_of
segments_of-malformed bytes n = ground arith

pub segments_of-missing : segments_of none ≡ some []
unfolding segments_of
segments_of-missing = refl
