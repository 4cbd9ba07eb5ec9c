-- ===== src/Warmup/Keys.antt =====
-- The user that is read back from a key.
use Prim.Native.String.{String, ◌++◌ as ◌<>◌}
use Prim.Native.Char.{code}
use text.Mathlib.TextLemmas.{nil-append, cons-append}
use rust_rtb_bidder.Base.{
  ℕ, zero, suc, ◌+◌, ◌/◌, ◌%◌, ◌<◌, ◌≤◌, ◌≡◌, refl, ap, ◌∙◌, arith, ◌&&◌, none, some, ltb, ltb→lt,
  ◌==◌, if_intro,
}
use rust_rtb_bidder.Model.{to_string, print, digit, is_blank}
use rust_rtb_bidder.Warmup.{
  key_prefix, warm_key, strip, trim_start, trim_end, text_length, user_of_key,
}

-- All characters are digits.
abbrev pub AreDigits : String → Type 0
AreDigits String.[] = Unit
AreDigits (String.◌∷◌ c s) = ((48 ≤ code c) × (code c < 58)) × AreDigits s

AreDigits-append : (s t : String) → AreDigits s → AreDigits t → AreDigits (s <> t)
AreDigits-append String.[] t h k = rw (nil-append t) k
AreDigits-append (String.◌∷◌ c s) t (d, h) k = rw (cons-append c s t) (d, AreDigits-append s t h k)

digit-AreDigits : (d : ℕ) → d < 10 → AreDigits (digit d)
digit-AreDigits zero h = (omega arith, tt)
digit-AreDigits (suc zero) h = (omega arith, tt)
digit-AreDigits (suc (suc zero)) h = (omega arith, tt)
digit-AreDigits (suc (suc (suc zero))) h = (omega arith, tt)
digit-AreDigits (suc (suc (suc (suc zero)))) h = (omega arith, tt)
digit-AreDigits (suc (suc (suc (suc (suc zero))))) h = (omega arith, tt)
digit-AreDigits (suc (suc (suc (suc (suc (suc zero)))))) h = (omega arith, tt)
digit-AreDigits (suc (suc (suc (suc (suc (suc (suc zero))))))) h = (omega arith, tt)
digit-AreDigits (suc (suc (suc (suc (suc (suc (suc (suc zero)))))))) h = (omega arith, tt)
digit-AreDigits (suc (suc (suc (suc (suc (suc (suc (suc (suc zero))))))))) h = (omega arith, tt)
digit-AreDigits (suc (suc (suc (suc (suc (suc (suc (suc (suc (suc d)))))))))) h =
    absurd (omega (arith, h))

print-AreDigits : (fuel n : ℕ) → AreDigits (print fuel n)
print-AreDigits zero n = tt
print-AreDigits (suc fuel) n =
    if_intro {A = String} AreDigits (ltb n 10) _ _ (λ t. digit-AreDigits n (ltb→lt n 10 t))
      (λ _.
        AreDigits-append (print fuel (n / 10)) (digit (n % 10)) (print-AreDigits fuel (n / 10))
          (digit-AreDigits (n % 10) (omega arith)))

to_string-AreDigits : (n : ℕ) → AreDigits (to_string n)
unfolding to_string
to_string-AreDigits n = print-AreDigits 20 n

trim_end-digits : (s : String) → AreDigits s → trim_end (s <> "}") ≡ s
unfolding trim_end
trim_end-digits String.[] h = refl
trim_end-digits (String.◌∷◌ c s) ((l, u), h) = rw (cons-append c s "}") (
    rw (trim_end-digits s h) (
      if_intro (λ r. r ≡ String.◌∷◌ c s) (is_blank s && (code c == 125)) _ _
        (λ t. absurd (ground (arith, t, u))) (λ _. refl)))

strip-append : (p s : String) → strip p (p <> s) ≡ some s
unfolding strip
strip-append String.[] s = rw (nil-append s) refl
strip-append (String.◌∷◌ c p) s = rw (cons-append c p s) (ground (arith, strip-append p s))

strip-digits : (s : String) → AreDigits s → strip key_prefix (s <> "}") ≡ none
unfolding strip
strip-digits String.[] h = refl
strip-digits (String.◌∷◌ c s) ((l, u), h) = rw (cons-append c s "}") (ground (arith, u))

text_length-append : (s t : String) → text_length (s <> t) ≡ text_length s + text_length t
text_length-append String.[] t = rw (nil-append t) (omega arith)
text_length-append (String.◌∷◌ c s) t =
    rw (cons-append c s t) (omega (arith, text_length-append s t))

trim_more :
    (fuel : ℕ) (p s r : String)
    → strip p s ≡ some r
    → trim_start (suc fuel) p s ≡ trim_start fuel p r
unfolding trim_start
trim_more fuel p s r h = rw (h, trim_start) refl

trim_stop : (fuel : ℕ) (p s : String) → strip p s ≡ none → trim_start (suc fuel) p s ≡ s
unfolding trim_start
trim_stop fuel p s h = rw (h, trim_start) refl

trim_start-key :
    (fuel : ℕ) (s : String)
    → AreDigits s
    → trim_start (suc (suc fuel)) key_prefix (key_prefix <> (s <> "}")) ≡ s <> "}"
trim_start-key fuel s h =
    trim_more (suc fuel) key_prefix (key_prefix <> (s <> "}")) (s <> "}")
      (strip-append key_prefix (s <> "}"))
    ∙ trim_stop fuel key_prefix (s <> "}") (strip-digits s h)

-- The key of a user's segments gives the user back.
pub user_of_key-warm_key : (id : ℕ) → user_of_key (warm_key id) ≡ to_string id
unfolding user_of_key warm_key
user_of_key-warm_key id =
    let s = to_string id in
    let h = to_string-AreDigits id in
    let e : text_length (key_prefix <> (s <> "}")) ≡ suc (suc (8 + text_length (s <> "}"))) =
      omega (arith, text_length-append key_prefix (s <> "}")) in
    ap (λ n. trim_end (trim_start n key_prefix (key_prefix <> (s <> "}")))) e
    ∙ (ap trim_end (trim_start-key (8 + text_length (s <> "}")) s h) ∙ trim_end-digits s h)
