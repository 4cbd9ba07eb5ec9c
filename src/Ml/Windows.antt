-- ===== src/Ml/Windows.antt =====
-- Lists cut at a place, and candidates that get their numbers: the facts that the loop over the batches
-- needs.
use rust_rtb_bidder.Base.{
  ℕ, zero, suc, ◌+◌, ◌-◌, ◌<◌, min, ◌≡◌, refl, ap, ◌∙◌, arith, false, Option, none, some, List, [],
  ◌∷◌, ◌++◌, map, length, length-append, is_empty, ltb, if◌then◌else◌, ◌>>=◌,
}
use rust_rtb_bidder.Model.{AdCandidate}
use rust_rtb_bidder.Scoring.{take}
use rust_rtb_bidder.Scoring.Kept.{unscored}
use rust_rtb_bidder.Ml.{drop, with_scores}

module _ {A : Type 0} where
  pub take-append : (xs ys : List A) → take (length xs) (xs ++ ys) ≡ xs
  unfolding take
  take-append [] ys = refl
  take-append (x ∷ xs) ys = ap (λ r. x ∷ r) (take-append xs ys)

  pub drop-append : (n : ℕ) (xs ys : List A) → drop (length xs + n) (xs ++ ys) ≡ drop n ys
  unfolding drop
  drop-append n [] ys = ap (λ m. drop m ys) (omega arith)
  drop-append n (x ∷ xs) ys =
      let e : suc (length xs) + n ≡ suc (length xs + n) = omega arith in
      ap (λ m. drop m (x ∷ (xs ++ ys))) e ∙ drop-append n xs ys

  pub drop-length : (xs ys : List A) → drop (length xs) (xs ++ ys) ≡ ys
  unfolding drop
  drop-length [] ys = refl
  drop-length (x ∷ xs) ys = drop-length xs ys

  pub take-min : (n : ℕ) (xs : List A) → take (min n (length xs)) xs ≡ take n xs
  unfolding take
  take-min zero xs = ground arith
  take-min (suc n) [] = ground arith
  take-min (suc n) (x ∷ xs) = ground (arith, take-min n xs)

  pub drop-min : (n : ℕ) (xs : List A) → drop (min n (length xs)) xs ≡ drop n xs
  unfolding drop
  drop-min zero xs = ground arith
  drop-min (suc n) [] = ground arith
  drop-min (suc n) (x ∷ xs) = ground (arith, drop-min n xs)

  pub take-drop : (n : ℕ) (xs : List A) → take n xs ++ drop n xs ≡ xs
  unfolding take drop
  take-drop zero xs = refl
  take-drop (suc n) [] = refl
  take-drop (suc n) (x ∷ xs) = ap (λ r. x ∷ r) (take-drop n xs)

  pub length-take : (n : ℕ) (xs : List A) → length (take n xs) ≡ min n (length xs)
  unfolding take
  length-take zero xs = omega arith
  length-take (suc n) [] = omega arith
  length-take (suc n) (x ∷ xs) = omega (arith, length-take n xs)

  pub take-filled : (n : ℕ) (xs : List A) → 0 < n → 0 < length xs → is_empty (take n xs) ≡ false
  unfolding take
  take-filled zero xs h k = absurd (omega (arith, h))
  take-filled (suc n) [] h k = absurd (omega (arith, k))
  take-filled (suc n) (x ∷ xs) h k = refl

  pub length-drop : (n : ℕ) (xs : List A) → length (drop n xs) ≡ length xs - n
  unfolding drop
  length-drop zero xs = omega arith
  length-drop (suc n) [] = omega arith
  length-drop (suc n) (x ∷ xs) = omega (arith, length-drop n xs)

  -- The loop's window onto a list of which a part is done.
  pub window :
      (m : ℕ) (xs ys : List A)
      → let stop = min (length xs + m) (length (xs ++ ys)) in
        take (stop - length xs) (drop (length xs) (xs ++ ys)) ≡ take m ys
  window m xs ys =
      ap (take (min (length xs + m) (length (xs ++ ys)) - length xs)) (drop-length xs ys)
      ∙ (ap (λ n. take n ys) (omega (arith, length-append xs ys)) ∙ take-min m ys)

  pub rest_of_window :
      (m : ℕ) (xs ys : List A)
      → drop (min (length xs + m) (length (xs ++ ys))) (xs ++ ys) ≡ drop m ys
  rest_of_window m xs ys =
      ap (λ n. drop n (xs ++ ys)) (omega (arith, length-append xs ys))
      ∙ (drop-append (min m (length ys)) xs ys ∙ drop-min m ys)

module _ {F : Type 0} where
  pub length-with_scores :
      (cs : List (AdCandidate F)) (v : List F) → length (with_scores cs v) ≡ length cs
  unfolding with_scores
  length-with_scores [] v = refl
  length-with_scores (c ∷ cs) [] = refl
  length-with_scores (c ∷ cs) (s ∷ v) = omega (arith, length-with_scores cs v)

  pub with_scores-append :
      (cs ds : List (AdCandidate F)) (v w : List F)
      → length v ≡ length cs
      → with_scores (cs ++ ds) (v ++ w) ≡ with_scores cs v ++ with_scores ds w
  unfolding with_scores
  with_scores-append [] ds [] w h = refl
  with_scores-append [] ds (s ∷ v) w h = absurd (omega (arith, h))
  with_scores-append (c ∷ cs) ds [] w h = absurd (omega (arith, h))
  with_scores-append (c ∷ cs) ds (s ∷ v) w h =
      ap (λ r. record c { score = s } ∷ r) (with_scores-append cs ds v w (omega (arith, h)))

  pub with_scores-unscored :
      (cs : List (AdCandidate F)) (v : List F) → map unscored (with_scores cs v) ≡ map unscored cs
  unfolding with_scores
  with_scores-unscored [] v = refl
  with_scores-unscored (c ∷ cs) [] = refl
  with_scores-unscored (c ∷ cs) (s ∷ v) = ap (λ r. unscored c ∷ r) (with_scores-unscored cs v)

-- What a chain of fallible steps gives, from what its last part gives.
pub bind_some :
    {A B P : Type 0} (o : Option A) (f : A → Option B) (b : B)
    → (o >>= f) ≡ some b
    → ((a : A) → f a ≡ some b → P)
    → P
bind_some none f b h k = absurd (ground (arith, h))
bind_some (some a) f b h k = k a h

pub length-first :
    {A : Type 0} (n : ℕ) (values v : List A)
    → (if ltb (length values) n then none else some (take n values)) ≡ some v
    → length v ≡ n
length-first n values v h = ground (arith, length-take n values)
