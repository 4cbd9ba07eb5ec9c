-- ===== src/Scoring/Entries.antt =====
-- The entries that a cascade sorts, filters and cuts, and the candidates whose keys they have.
use rust_rtb_bidder.Base.{
  contains, false, ◌+◌, All-retain, ℕ, zero, suc, ◌≤◌, ◌≡◌, refl, sym, ap, subst, ◌∙◌, arith, Bool,
  true, false, ◌||◌, List, [], ◌∷◌, map, retain, any, length, ◌⊎◌, inl, inr, if_intro, Bool-cases,
  All, FloatOps,
}
use rust_rtb_bidder.Model.{AdCandidate}
use rust_rtb_bidder.Pipeline.Accounts.Paced.{AreDistinct, ids}
use rust_rtb_bidder.Scoring.{Key, same_key, key_of, take, insert_by_score, sort_by_score, advances}

module _ {F : Type 0} (fl : FloatOps F) where
  abbrev pub Entry : Type 0
  Entry = Key × F

  abbrev pub In : Entry → List Entry → Type 0
  In x [] = ⊥
  In x (y ∷ ys) = (x ≡ y) ⊎ In x ys

  -- No entry has a greater score.
  abbrev pub NoneBeats : F → List Entry → Type 0
  NoneBeats s es = All (λ e. fl.gt s e.1 ≡ false) es

  abbrev pub Sorted : List Entry → Type 0
  Sorted [] = Unit
  Sorted (x ∷ xs) = All (λ e. fl.gt e.1 x.1 ≡ false) xs × Sorted xs

  pub below :
      (z x y : Entry) (ys zs : List Entry)
      → ((z ≡ x) ⊎ In z ys → In z zs)
      → (z ≡ x) ⊎ ((z ≡ y) ⊎ In z ys)
      → (z ≡ y) ⊎ In z zs
  below z x y ys zs f (inl e) = inr (f (inl e))
  below z x y ys zs f (inr (inl e)) = inl e
  below z x y ys zs f (inr (inr m)) = inr (f (inr m))

  pub insert-In :
      (z x : Entry) (xs : List Entry) → (z ≡ x) ⊎ In z xs → In z (insert_by_score fl x xs)
  unfolding insert_by_score
  insert-In z x [] (inl e) = inl e
  insert-In z x [] (inr n) = inr n
  insert-In z x (y ∷ ys) h =
      if_intro (In z) (fl.gt y.1 x.1) _ _
        (λ _. below z x y ys (insert_by_score fl x ys) (insert-In z x ys) h) (λ _. h)

  pub sort-In : (z : Entry) (xs : List Entry) → In z xs → In z (sort_by_score fl xs)
  unfolding sort_by_score
  sort-In z [] n = n
  sort-In z (x ∷ xs) (inl e) = insert-In z x (sort_by_score fl xs) (inl e)
  sort-In z (x ∷ xs) (inr m) = insert-In z x (sort_by_score fl xs) (inr (sort-In z xs m))

  pub retain-In :
      (p : Entry → Bool) (z : Entry) (xs : List Entry) → p z ≡ true → In z xs → In z (retain p xs)
  retain-In p z [] h m = m
  retain-In p z (x ∷ xs) h (inl e) = rw (ap p (sym e) ∙ h) (inl e)
  retain-In p z (x ∷ xs) h (inr m) =
      if_intro (In z) (p x) _ _ (λ _. inr (retain-In p z xs h m)) (λ _. retain-In p z xs h m)

  pub All-insert :
      (P : Entry → Type 0) (x : Entry) (xs : List Entry)
      → P x
      → All P xs
      → All P (insert_by_score fl x xs)
  unfolding insert_by_score
  All-insert P x [] h hs = (h, tt)
  All-insert P x (y ∷ ys) h (k, ks) =
      if_intro (All P) (fl.gt y.1 x.1) _ _ (λ _. (k, All-insert P x ys h ks)) (λ _. (h, (k, ks)))

  pub retain-All : (p : Entry → Bool) (xs : List Entry) → All (λ e. p e ≡ true) (retain p xs)
  retain-All p [] = tt
  retain-All p (x ∷ xs) =
      if_intro (All (λ e. p e ≡ true)) (p x) _ _ (λ h. (h, retain-All p xs)) (λ _. retain-All p xs)

  pub retain-Sorted : (p : Entry → Bool) (xs : List Entry) → Sorted xs → Sorted (retain p xs)
  retain-Sorted p [] h = tt
  retain-Sorted p (x ∷ xs) (h, hs) =
      if_intro Sorted (p x) _ _ (λ _. (All-retain _ p xs h, retain-Sorted p xs hs))
        (λ _. retain-Sorted p xs hs)

  pub All-take : (P : Entry → Type 0) (n : ℕ) (xs : List Entry) → All P xs → All P (take n xs)
  unfolding take
  All-take P zero xs h = tt
  All-take P (suc n) [] h = tt
  All-take P (suc n) (x ∷ xs) (h, hs) = (h, All-take P n xs hs)

  pub length-take : (n : ℕ) (xs : List Entry) → n ≤ length xs → length (take n xs) ≡ n
  unfolding take
  length-take zero xs h = refl
  length-take (suc n) [] h = absurd (omega (arith, h))
  length-take (suc n) (x ∷ xs) h = ap suc (length-take n xs (omega (arith, h)))

  pub All-In : (P : Entry → Type 0) (z : Entry) (xs : List Entry) → All P xs → In z xs → P z
  All-In P z [] h m = absurd m
  All-In P z (x ∷ xs) (h, hs) (inl e) = subst P (sym e) h
  All-In P z (x ∷ xs) (h, hs) (inr m) = All-In P z xs hs m

  -- An entry of a sorted list is taken, or beats nothing of what is taken.
  pub take-cases :
      (n : ℕ) (z : Entry) (xs : List Entry)
      → Sorted xs
      → In z xs
      → In z (take n xs) ⊎ NoneBeats z.1 (take n xs)
  unfolding take
  take-cases zero z xs s m = inr tt
  take-cases (suc n) z [] s m = absurd m
  take-cases (suc n) z (x ∷ xs) s (inl e) = inl (inl e)
  take-cases (suc n) z (x ∷ xs) (h, hs) (inr m) = elim (take-cases n z xs hs m) [
    | inl t ↦ inl (inr t)
    | inr b ↦ inr (All-In (λ e. fl.gt e.1 x.1 ≡ false) z xs h m, b)
  ]

  pub In-any :
      (k : Key) (f : F) (xs : List Entry) → In (k, f) xs → any (λ e. same_key e.0 k) xs ≡ true
  In-any k f [] m = absurd m
  In-any k f (x ∷ xs) (inl e) =
      subst (λ z. (same_key z.0 k || any (λ e. same_key e.0 k) xs) ≡ true) e (ground arith)
  In-any k f (x ∷ xs) (inr m) = ground (arith, In-any k f xs m)

  abbrev pub entry_of : AdCandidate F → Entry
  entry_of c = (key_of c, c.score)

  -- The candidate reaches the second stage, or the stage is full of candidates that it does not beat.
  abbrev pub IsPlaced : ℕ → F → List Entry → AdCandidate F → Type 0
  IsPlaced top_k threshold keys c =
      fl.ge c.score threshold ≡ true
      → (advances fl keys c ≡ true) ⊎ ((length keys ≡ top_k) × NoneBeats c.score keys)

  -- Of candidates of different campaigns at most one has a key.
  abbrev pub with_key : Key → List (AdCandidate F) → ℕ
  with_key k cs = length (retain (λ c. same_key k (key_of c)) cs)

  pub with_key_none :
      (k : Key) (cs : List (AdCandidate F)) → contains (ids cs) k.0 ≡ false → with_key k cs ≡ 0
  with_key_none k [] h = refl
  with_key_none k (c ∷ cs) h = ground (arith, with_key_none k cs (ground arith))

  pub with_key-le-one : (k : Key) (cs : List (AdCandidate F)) → AreDistinct cs → with_key k cs ≤ 1
  with_key-le-one k [] d = omega arith
  with_key-le-one k (c ∷ cs) d = elim (Bool-cases (same_key k (key_of c))) [
    | inl e ↦ rw e (omega (arith, with_key_none k cs (ground (arith, d.0))))
    | inr e ↦ rw e (with_key-le-one k cs d.1)
  ]

  pub advances-cons :
      (e : Entry) (keys : List Entry) (cs : List (AdCandidate F))
      → length (retain (advances fl (e ∷ keys)) cs)
        ≤ with_key e.0 cs + length (retain (advances fl keys) cs)
  advances-cons e keys [] = omega arith
  advances-cons e keys (c ∷ cs) = ground (arith, advances-cons e keys cs)

  pub advances-nil : (cs : List (AdCandidate F)) → length (retain (advances fl []) cs) ≡ 0
  advances-nil [] = refl
  advances-nil (c ∷ cs) = advances-nil cs

  pub advances-length :
      (keys : List Entry) (cs : List (AdCandidate F))
      → AreDistinct cs
      → length (retain (advances fl keys) cs) ≤ length keys
  advances-length [] cs d = omega (arith, advances-nil cs)
  advances-length (e ∷ keys) cs d =
      omega (arith, advances-cons e keys cs, with_key-le-one e.0 cs d, advances-length keys cs d)

  pub sort-All : (P : Entry → Type 0) (xs : List Entry) → All P xs → All P (sort_by_score fl xs)
  unfolding sort_by_score
  sort-All P [] h = tt
  sort-All P (x ∷ xs) (h, hs) = All-insert P x (sort_by_score fl xs) h (sort-All P xs hs)

  pub retain-if :
      (p : AdCandidate F → Bool) (Q : AdCandidate F → Type 0) (cs : List (AdCandidate F))
      → All (λ c. p c ≡ true → Q c) cs
      → All Q (retain p cs)
  retain-if p Q [] h = tt
  retain-if p Q (c ∷ cs) (h, hs) =
      if_intro (All Q) (p c) _ _ (λ e. (h e, retain-if p Q cs hs)) (λ _. retain-if p Q cs hs)

  -- The entries with the key of a candidate have its score.
  abbrev pub Own : AdCandidate F → Entry → Type 0
  Own c e = same_key e.0 (key_of c) ≡ true → e.1 ≡ c.score

  pub no_entry :
      (c : AdCandidate F) (cs : List (AdCandidate F))
      → contains (ids cs) c.campaign_id ≡ false
      → All (Own c) (map entry_of cs)
  no_entry c [] h = tt
  no_entry c (d ∷ cs) h = (λ e. absurd (ground arith), no_entry c cs (ground arith))

  pub Own-beside :
      (c : AdCandidate F) (ds : List (AdCandidate F)) (es : List Entry)
      → contains (ids ds) c.campaign_id ≡ false
      → All (λ d. All (Own d) es) ds
      → All (λ d. All (Own d) (entry_of c ∷ es)) ds
  Own-beside c [] es h k = tt
  Own-beside c (d ∷ ds) es h (k, ks) =
      ((λ e. absurd (ground arith), k), Own-beside c ds es (ground arith) ks)

  pub All-Own :
      (cs : List (AdCandidate F)) → AreDistinct cs → All (λ c. All (Own c) (map entry_of cs)) cs
  All-Own [] d = tt
  All-Own (c ∷ cs) (d, ds) =
      ((λ e. refl, no_entry c cs d), Own-beside c cs (map entry_of cs) d (All-Own cs ds))

  pub passing :
      (threshold : F) (keys : List Entry) (c : AdCandidate F)
      → All (λ e. fl.ge e.1 threshold ≡ true) keys
      → All (Own c) keys
      → advances fl keys c ≡ true
      → fl.ge c.score threshold ≡ true
  passing threshold [] c g o h = absurd (ground (arith, h))
  passing threshold (e ∷ keys) c g o h = elim (Bool-cases (same_key e.0 (key_of c))) [
    | inl k ↦ subst (λ x. fl.ge x threshold ≡ true) (o.0 k) g.0
    | inr k ↦ passing threshold keys c g.1 o.1 (ground arith)
  ]
