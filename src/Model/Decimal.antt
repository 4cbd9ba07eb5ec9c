-- ===== src/Model/Decimal.antt =====
-- The text of an unsigned integer, and the tests on texts.
use Prim.Native.String.{String, ◌++◌ as ◌<>◌}
use rust_rtb_bidder.Base.{
  ℕ, zero, suc, ◌/◌, ◌%◌, Bool, true, false, ltb, List, [], ◌∷◌, if◌then◌else◌,
}

abbrev pub entry : List String → ℕ → String
entry [] n = ""
entry (s ∷ rest) zero = s
entry (s ∷ rest) (suc n) = entry rest n

abbrev pub digits : List String
digits = "0" ∷ "1" ∷ "2" ∷ "3" ∷ "4" ∷ "5" ∷ "6" ∷ "7" ∷ "8" ∷ "9" ∷ []

abbrev pub digit : ℕ → String
digit = entry digits

-- On fuel: a number of n digits needs n.
abbrev pub print : ℕ → ℕ → String
print zero n = ""
print (suc fuel) n =
    let rest = print fuel (n / 10) in if ltb n 10 then digit n else rest <> digit (n % 10)

-- `to_string` of a u32 or a usize, which have at most twenty digits.
unfoldable pub to_string : ℕ → String
to_string n = print 20 n

-- `str::is_empty`.
abbrev pub is_blank : String → Bool
is_blank String.[] = true
is_blank _ = false
