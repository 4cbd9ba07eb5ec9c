-- ===== src/WinNotice/Query.antt =====
-- An independent reader of the query of an address: its parts between the ampersands, each a key and
-- a value around the first equals sign, the value with its escapes decoded.
use rust_rtb_bidder.Base.{
  ℕ, ◌≡◌, refl, sym, arith, false, Option, List, [], ◌∷◌, ◌++◌, ◌==◌, if◌then◌else◌, ◌⊎◌, inl, inr,
  append-nil, append_assoc, All, contains, map,
}
use rust_rtb_bidder.Percent.{is_safe}
use rust_rtb_bidder.Percent.Decoded.{decode, plain, IsQuerySafe}

abbrev pub Field : Type 0
Field = List ℕ × Option (List ℕ)

abbrev onto_first : ℕ → List (List ℕ) → List (List ℕ)
onto_first c [] = (c ∷ []) ∷ []
onto_first c (p ∷ ps) = (c ∷ p) ∷ ps

unfoldable pub split : ℕ → List ℕ → List (List ℕ)
split sep [] = [] ∷ []
split sep (c ∷ cs) = let rest = split sep cs in if c == sep then [] ∷ rest else onto_first c rest

unfoldable pub cut : ℕ → List ℕ → List ℕ × List ℕ
cut sep [] = ([], [])
cut sep (c ∷ cs) = let rest = cut sep cs in if c == sep then ([], cs) else (c ∷ rest.0, rest.1)

unfoldable pub field_of : List ℕ → Field
field_of part = ((cut 61 part).0, decode plain (cut 61 part).1)

unfoldable pub fields : List ℕ → List Field
fields cs = map field_of (split 38 cs)

module _ (sep : ℕ) where
  split-last : (xs : List ℕ) → contains xs sep ≡ false → split sep xs ≡ xs ∷ []
  unfolding split
  split-last [] h = refl
  split-last (x ∷ xs) h = ground (arith, split-last xs)

  split-append :
      (xs ys : List ℕ) → contains xs sep ≡ false → split sep (xs ++ sep ∷ ys) ≡ xs ∷ split sep ys
  unfolding split
  split-append [] ys h = ground arith
  split-append (x ∷ xs) ys h = ground (arith, split-append xs ys)

  cut-append : (k v : List ℕ) → contains k sep ≡ false → cut sep (k ++ sep ∷ v) ≡ (k, v)
  unfolding cut
  cut-append [] v h = ground arith
  cut-append (x ∷ k) v h = ground (arith, cut-append k v)

contains-append :
    (sep : ℕ) (xs ys : List ℕ)
    → contains xs sep ≡ false
    → contains ys sep ≡ false
    → contains (xs ++ ys) sep ≡ false
contains-append sep [] ys h k = k
contains-append sep (x ∷ xs) ys h k = ground (arith, contains-append sep xs ys)

pub safe-no_ampersand : (v : List ℕ) → All IsQuerySafe v → contains v 38 ≡ false
unfolding is_safe
safe-no_ampersand [] h = refl
safe-no_ampersand (c ∷ v) (h, hs) = ground (arith, h, safe-no_ampersand v hs)

-- A key that may be read back: it has neither of the two separators.
abbrev pub IsKey : List ℕ → Type 0
IsKey k = (contains k 38 ≡ false) × (contains k 61 ≡ false)

no_ampersand : (k v : List ℕ) → IsKey k → contains v 38 ≡ false → contains (k ++ 61 ∷ v) 38 ≡ false
no_ampersand k v h g = contains-append 38 k (61 ∷ v) h.0 (ground (arith, g))

-- What may stand after a value, and the fields that it holds: nothing, or an ampersand and more.
abbrev pub Continues : List ℕ → List Field → Type 0
Continues tail fs =
    ((tail ≡ []) × (fs ≡ [])) ⊎ ((rest : List ℕ) × ((tail ≡ 38 ∷ rest) × (fields rest ≡ fs)))

pub fields-first :
    (k v tail : List ℕ) (fs : List Field)
    → IsKey k
    → All IsQuerySafe v
    → Continues tail fs
    → fields (k ++ 61 ∷ (v ++ tail)) ≡ (k, decode plain v) ∷ fs
unfolding fields field_of
fields-first k v tail fs h g (inl (e, f)) = rw e (
    rw f (
      rw (append-nil v) (
        rw (split-last 38 (k ++ 61 ∷ v) (no_ampersand k v h (safe-no_ampersand v g)))
          (rw (cut-append 61 k v h.1) refl))))
fields-first k v tail fs h g (inr (rest, (e, f))) = rw e (
    rw (sym f) (
      rw (sym (append_assoc k (61 ∷ v) (38 ∷ rest))) (
        rw (split-append 38 (k ++ 61 ∷ v) rest (no_ampersand k v h (safe-no_ampersand v g)))
          (rw (cut-append 61 k v h.1) refl))))
