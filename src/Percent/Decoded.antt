-- ===== src/Percent/Decoded.antt =====
-- An independent decoder of percent-encoded texts, and the round trip.
use Prim.Native.String.{String, ◌++◌ as ◌<>◌}
use text.Mathlib.TextLemmas.{nil-append, cons-append}
use Prim.Native.Char.{Char, char, code}
use rust_rtb_bidder.Base.{
  ℕ, ◌+◌, ◌-◌, ◌*◌, ◌/◌, ◌%◌, ◌<◌, ◌≡◌, refl, ap, arith, Bool, true, false, ◌||◌, Option, none,
  some, List, [], ◌∷◌, ◌++◌, ltb, ◌==◌, if◌then◌else◌, All, All-append, if_intro,
}
use rust_rtb_bidder.Percent.{
  utf8, as_bytes, as_char, is_safe, is_between, hex_digit, encode_byte, encode_bytes,
  percent_encode, char_of_byte,
}

-- The number of a hexadecimal digit, in either case.
unfoldable pub digit_value : ℕ → Option ℕ
digit_value c =
    if is_between 48 57 c
    then some (c - 48)
    else if is_between 65 70 c
    then some (c - 55)
    else if is_between 97 102 c
    then some (c - 87)
    else none

-- What has been read of an escape: nothing, the percent sign, or the first digit as well.
pub data Reading : Type 0 where
  plain : Reading
  escaped : Reading
  half : ℕ → Reading

abbrev keep : ℕ → Option (List ℕ) → Option (List ℕ)
keep a (some rest) = some (a ∷ rest)
keep a none = none

-- The bytes that a query component stands for, or none where an escape is broken.
unfoldable pub decode : Reading → List ℕ → Option (List ℕ)
decode plain [] = some []
decode _ [] = none
decode plain (c ∷ cs) =
    let after = decode escaped cs in
    let rest = decode plain cs in if c == 37 then after else keep c rest
decode escaped (c ∷ cs) = elim (digit_value c) [ none ↦ none | some d ↦ decode (half d) cs ]
decode (half a) (c ∷ cs) = elim (digit_value c) [
  | none ↦ none
  | some d ↦ let rest = decode plain cs in keep (a * 16 + d) rest
]

unfoldable pub codes : String → List ℕ
codes String.[] = []
codes (String.◌∷◌ c s) = code c ∷ codes s

pub codes-append : (s t : String) → codes (s <> t) ≡ codes s ++ codes t
unfolding codes
codes-append String.[] t = rw (nil-append t) refl
codes-append (String.◌∷◌ c s) t = simp (cons-append, codes-append s t)

code-char_of_byte : (b : ℕ) (t : Bool) (h : ltb b 256 ≡ t) → b < 256 → code (char_of_byte b t h) ≡ b
code-char_of_byte b true h k = refl
code-char_of_byte b false h k = absurd (ground arith)

code-as_char : (b : ℕ) → b < 256 → code (as_char b) ≡ b
unfolding as_char
code-as_char b h = code-char_of_byte b (ltb b 256) refl h

code-hex_digit : (d : ℕ) → d < 16 → code (hex_digit d) ≡ (if ltb d 10 then 48 + d else 55 + d)
unfolding hex_digit
code-hex_digit d h = ground (arith, code-as_char (48 + d), code-as_char (55 + d))

digit_value-hex : (d : ℕ) → d < 16 → digit_value (if ltb d 10 then 48 + d else 55 + d) ≡ some d
unfolding digit_value
digit_value-hex d h = ground arith

safe-not_percent : (b : ℕ) → is_safe b ≡ true → (b == 37) ≡ false
unfolding is_safe
safe-not_percent b h = ground arith

decode-safe :
    (b : ℕ) (rest : List ℕ)
    → b < 256
    → is_safe b ≡ true
    → decode plain (code (as_char b) ∷ rest) ≡ keep b (decode plain rest)
unfolding decode
decode-safe b rest h k = rw (code-as_char b h) (rw (safe-not_percent b k) refl)

decode-escape :
    (b : ℕ) (rest : List ℕ)
    → b < 256
    → decode plain (37 ∷ code (hex_digit (b / 16)) ∷ code (hex_digit (b % 16)) ∷ rest)
      ≡ keep b (decode plain rest)
unfolding decode
decode-escape b rest h = rw (code-hex_digit (b / 16) (omega arith)) (
    rw (digit_value-hex (b / 16) (omega arith)) (
      rw (code-hex_digit (b % 16) (omega arith)) (
        rw (digit_value-hex (b % 16) (omega arith))
          (ap (λ n. keep n (decode plain rest)) (omega arith)))))

decode-encode_byte :
    (b : ℕ) (rest : List ℕ)
    → b < 256
    → decode plain (codes (encode_byte b) ++ rest) ≡ keep b (decode plain rest)
unfolding encode_byte codes
decode-encode_byte b rest h =
    if_intro {A = String} (λ s. decode plain (codes s ++ rest) ≡ keep b (decode plain rest))
      (is_safe b) _ _ (decode-safe b rest h) (λ _. decode-escape b rest h)

pub decode-encode_bytes :
    (bs : List ℕ) → All (λ b. b < 256) bs → decode plain (codes (encode_bytes bs)) ≡ some bs
unfolding encode_bytes codes decode
decode-encode_bytes [] h = refl
decode-encode_bytes (b ∷ bs) (h, hs) =
    rw (codes-append (encode_byte b) (encode_bytes bs))
      (rw (decode-encode_byte b (codes (encode_bytes bs)) h) (rw (decode-encode_bytes bs hs) refl))

code-lt : (c : Char) → code c < 1_114_112
code-lt (char n p) = ground (arith, p)

utf8-All-byte : (n : ℕ) → n < 1_114_112 → All (λ b. b < 256) (utf8 n)
unfolding utf8
utf8-All-byte n h = ground arith

pub as_bytes-All-byte : (s : String) → All (λ b. b < 256) (as_bytes s)
unfolding as_bytes
as_bytes-All-byte String.[] = tt
as_bytes-All-byte (String.◌∷◌ c s) =
    All-append _ (utf8 (code c)) (as_bytes s) (utf8-All-byte (code c) (code-lt c))
      (as_bytes-All-byte s)

-- A character that may stand in a query component: one that stands for itself, or a percent sign.
abbrev pub IsQuerySafe : ℕ → Type 0
IsQuerySafe c = (is_safe c || (c == 37)) ≡ true

hex_digit-IsQuerySafe : (d : ℕ) → d < 16 → IsQuerySafe (code (hex_digit d))
unfolding is_safe
hex_digit-IsQuerySafe d h = rw (code-hex_digit d h) (ground arith)

encode_byte-IsQuerySafe : (b : ℕ) → b < 256 → All IsQuerySafe (codes (encode_byte b))
unfolding encode_byte codes is_safe
encode_byte-IsQuerySafe b h =
    if_intro {A = String} (λ s. All IsQuerySafe (codes s)) (is_safe b) _ _
      (λ k. (rw (code-as_char b h) (ground (arith, k)), tt))
      (λ _. (
        refl,
        (
          hex_digit-IsQuerySafe (b / 16) (omega arith),
          (hex_digit-IsQuerySafe (b % 16) (omega arith), tt),
        ),
      ))

pub encode_bytes-IsQuerySafe :
    (bs : List ℕ) → All (λ b. b < 256) bs → All IsQuerySafe (codes (encode_bytes bs))
unfolding encode_bytes codes
encode_bytes-IsQuerySafe [] h = tt
encode_bytes-IsQuerySafe (b ∷ bs) (h, hs) = rw (codes-append (encode_byte b) (encode_bytes bs)) (
    All-append _ (codes (encode_byte b)) (codes (encode_bytes bs)) (encode_byte-IsQuerySafe b h)
      (encode_bytes-IsQuerySafe bs hs))

-- Whatever the text, its encoding has only characters that may stand in a query component, and the
-- decoder finds the bytes of the text in it.
pub decode-percent_encode :
    (s : String)
    → All IsQuerySafe (codes (percent_encode s))
      × (decode plain (codes (percent_encode s)) ≡ some (as_bytes s))
unfolding percent_encode
decode-percent_encode s = (
  encode_bytes-IsQuerySafe (as_bytes s) (as_bytes-All-byte s),
  decode-encode_bytes (as_bytes s) (as_bytes-All-byte s),
)
