-- ===== src/Percent/Numbers.antt =====
-- The decimal printer of Model/Decimal.antt: the text reads back as the number, so that twenty digits
-- of fuel are enough for 64 bits.
use Prim.Native.String.{String}
use native.Mathlib.Nat.{pow-succ'}
use rust_rtb_bidder.Base.{
  ℕ, zero, suc, ◌+◌, ◌-◌, ◌*◌, ◌/◌, ◌%◌, ◌^◌, ◌<◌, ◌≡◌, refl, ap, subst, ◌∙◌, arith, List, [], ◌∷◌,
  ◌++◌, ltb, if_intro, ltb→lt,
}
use rust_rtb_bidder.Model.{to_string, print, digit}
use rust_rtb_bidder.Percent.Decoded.{codes, codes-append}

-- The number that decimal digits stand for, after one that was read.
unfoldable pub number : ℕ → List ℕ → ℕ
number acc [] = acc
number acc (c ∷ cs) = number (acc * 10 + (c - 48)) cs

number-append : (acc : ℕ) (xs ys : List ℕ) → number acc (xs ++ ys) ≡ number (number acc xs) ys
unfolding number
number-append acc [] ys = refl
number-append acc (x ∷ xs) ys = number-append (acc * 10 + (x - 48)) xs ys

number-digit : (acc d : ℕ) → d < 10 → number acc (codes (digit d)) ≡ acc * 10 + d
unfolding number codes
number-digit acc zero h = omega arith
number-digit acc (suc zero) h = omega arith
number-digit acc (suc (suc zero)) h = omega arith
number-digit acc (suc (suc (suc zero))) h = omega arith
number-digit acc (suc (suc (suc (suc zero)))) h = omega arith
number-digit acc (suc (suc (suc (suc (suc zero))))) h = omega arith
number-digit acc (suc (suc (suc (suc (suc (suc zero)))))) h = omega arith
number-digit acc (suc (suc (suc (suc (suc (suc (suc zero))))))) h = omega arith
number-digit acc (suc (suc (suc (suc (suc (suc (suc (suc zero)))))))) h = omega arith
number-digit acc (suc (suc (suc (suc (suc (suc (suc (suc (suc zero))))))))) h = omega arith
number-digit acc (suc (suc (suc (suc (suc (suc (suc (suc (suc (suc d)))))))))) h =
    absurd (omega (arith, h))

-- With its last digit dropped, a number has a digit less.
pub below_power : (n p : ℕ) → n < 10 * p → n / 10 < p
below_power n p h = omega (arith, h)

number-print : (fuel n : ℕ) → n < 10 ^ fuel → number 0 (codes (print fuel n)) ≡ n
unfolding codes number
number-print zero n h = omega (arith, h)
number-print (suc fuel) n h =
    if_intro {A = String} (λ s. number 0 (codes s) ≡ n) (ltb n 10) _ _
      (λ k. number-digit 0 n (ltb→lt n 10 k) ∙ omega arith)
      (λ k.
        ap (number 0) (codes-append (print fuel (n / 10)) (digit (n % 10)))
        ∙ (number-append 0 (codes (print fuel (n / 10))) (codes (digit (n % 10)))
            ∙ (ap (λ m. number m (codes (digit (n % 10))))
                  (number-print fuel (n / 10)
                    (below_power n (10 ^ fuel) (subst (λ p. n < p) (pow-succ' 10 fuel) h)))
                ∙ (number-digit (n / 10) (n % 10) (omega arith) ∙ omega arith))))

-- The printer has fuel enough for every number of 64 bits: the digits that it gives, read as decimal,
-- are the number.
pub number-to_string : (n : ℕ) → n < 18_446_744_073_709_551_616 → number 0 (codes (to_string n)) ≡ n
unfolding to_string
number-to_string n h = number-print 20 n (omega (arith, h))
