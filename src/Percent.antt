-- ===== src/Percent.antt =====
-- bidder-server/src/win_notice.rs, `percent_encode`, and the bytes of a text that it reads:
-- `str::as_bytes` and `u8 as char` of the standard library.
pub mod Decoded
pub mod Numbers
mod Tests
use Prim.Native.String.{String, ◌++◌ as ◌<>◌}
use Prim.Native.Nat.{Ordering, compare}
use Prim.Native.Char.{Char, char, code, nul, IsScalar}
use rust_rtb_bidder.Base.{
  ℕ, ◌+◌, ◌/◌, ◌%◌, ◌<◌, ◌≡◌, refl, arith, Bool, true, false, ◌&&◌, ◌||◌, List, [], ◌∷◌, ◌++◌, leb,
  ltb, ◌==◌, if◌then◌else◌, ltb→lt,
}

-- The UTF-8 of a character.
unfoldable pub utf8 : ℕ → List ℕ
utf8 n =
    if ltb n 128
    then n ∷ []
    else if ltb n 2048
    then (192 + n / 64) ∷ (128 + n % 64) ∷ []
    else if ltb n 65536
    then (224 + n / 4096) ∷ (128 + n / 64 % 64) ∷ (128 + n % 64) ∷ []
    else (240 + n / 262144) ∷ (128 + n / 4096 % 64) ∷ (128 + n / 64 % 64) ∷ (128 + n % 64) ∷ []

-- `str::as_bytes`.
unfoldable pub as_bytes : String → List ℕ
as_bytes String.[] = []
as_bytes (String.◌∷◌ c s) = utf8 (code c) ++ as_bytes s

lt-compare : (a b : ℕ) → a < b → compare a b ≡ Ordering.lt
lt-compare a b h = ground arith

pub byte-IsScalar : (n : ℕ) → ltb n 256 ≡ true → IsScalar n
byte-IsScalar n h = rw (lt-compare n 55296 (ground (arith, ltb→lt n 256 h))) tt

-- `b as char`.
abbrev char_of_byte : (b : ℕ) (t : Bool) → ltb b 256 ≡ t → Char
char_of_byte b true h = char b (byte-IsScalar b h)
char_of_byte b false h = nul

unfoldable pub as_char : ℕ → Char
as_char b = char_of_byte b (ltb b 256) refl

abbrev pub is_between : ℕ → ℕ → ℕ → Bool
is_between a z b = leb a b && leb b z

-- The bytes that stand for themselves.
unfoldable pub is_safe : ℕ → Bool
is_safe b =
    is_between 65 90 b
    || is_between 97 122 b
    || is_between 48 57 b
    || (b == 45)
    || (b == 95)
    || (b == 46)
    || (b == 126)

-- A digit of `{:02X}`.
unfoldable pub hex_digit : ℕ → Char
hex_digit d = if ltb d 10 then as_char (48 + d) else as_char (55 + d)

abbrev pub percent : Char
percent = char 37 tt

unfoldable pub encode_byte : ℕ → String
encode_byte b =
    if is_safe b
    then String.◌∷◌ (as_char b) String.[]
    else String.◌∷◌ percent
        (String.◌∷◌ (hex_digit (b / 16)) (String.◌∷◌ (hex_digit (b % 16)) String.[]))

unfoldable pub encode_bytes : List ℕ → String
encode_bytes [] = ""
encode_bytes (b ∷ bs) = encode_byte b <> encode_bytes bs

unfoldable pub percent_encode : String → String
percent_encode s = encode_bytes (as_bytes s)
