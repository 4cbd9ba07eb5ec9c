-- ===== src/Ml/Rowwise.antt =====
-- What the batching is invisible to: a model that answers row by row, and everything of a candidate but
-- its score.
use mathlib.Core.List.{map-append}
use rust_rtb_bidder.Base.{
  get_elem?, ℕ, zero, suc, ◌+◌, ◌-◌, ◌*◌, ◌/◌, ◌%◌, ◌<◌, ◌≡◌, refl, sym, ap, ◌∙◌, arith, true,
  Option, none, some, List, [], ◌∷◌, ◌++◌, map, length, length-append, All, ltb, if◌then◌else◌,
  if_intro, FloatOps,
}
use rust_rtb_bidder.Model.{AdCandidate}
use rust_rtb_bidder.Scoring.{ScoreOps, ScoringContext, Scorer, take}
use rust_rtb_bidder.Ml.{
  MlScorerConfig, ModelSnapshot, MlRuntime, drop, with_scores, pick, infer, padded_rows, row_of,
  ml_score_all, validate, replicate,
}
use rust_rtb_bidder.Ml.Windows.{take-append, take-drop}
use rust_rtb_bidder.Ml.Batches.{
  answers, all_or_none, Covers, rounds, rounds-Covers, ml_score_all-all_or_none,
}

length-map : {A B : Type 0} (f : A → B) (xs : List A) → length (map f xs) ≡ length xs
length-map f [] = refl
length-map f (x ∷ xs) = omega (arith, length-map f xs)

map_twice :
    {A B C : Type 0} (f : A → B) (g : B → C) (xs : List A)
    → map g (map f xs) ≡ map (λ x. g (f x)) xs
map_twice f g [] = refl
map_twice f g (x ∷ xs) = ap (λ r. g (f x) ∷ r) (map_twice f g xs)

picked :
    {S : Type 0} (P : S → Type 0) (ss : List S) (j : ℕ)
    → All P ss
    → j < length ss
    → (s : S) × ((get_elem? ss j ≡ some s) × P s)
picked P [] j a h = absurd (omega (arith, h))
picked P (s ∷ ss) zero (p, a) h = (s, (refl, p))
picked P (s ∷ ss) (suc j) (p, a) h = picked P ss j a (omega (arith, h))

abbrev pub scored_by : {F : Type 0} → (AdCandidate F → F) → AdCandidate F → AdCandidate F
scored_by f c = record c { score = f c }

with_scores-map :
    {F : Type 0} (f : AdCandidate F → F) (cs : List (AdCandidate F))
    → with_scores cs (map f cs) ≡ map (scored_by f) cs
unfolding with_scores
with_scores-map f [] = refl
with_scores-map f (c ∷ cs) = ap (λ r. scored_by f c ∷ r) (with_scores-map f cs)

first_numbers :
    {A : Type 0} (n : ℕ) (xs ys : List A)
    → length xs ≡ n
    → (if ltb (length (xs ++ ys)) n then none else some (take n (xs ++ ys))) ≡ some xs
first_numbers n xs ys h =
    if_intro (λ o. o ≡ some xs) (ltb (length (xs ++ ys)) n) _ _
      (λ t. absurd (ground (arith, t, h, length-append xs ys)))
      (λ _. ap (λ m. some (take m (xs ++ ys))) (sym h) ∙ ap some (take-append xs ys))

module _ {F S : Type 0} (rt : MlRuntime F S) (fl : FloatOps F) (sc : ScoreOps F)
    (cfg : MlScorerConfig) (ctx : ScoringContext) (fallback : Option (Scorer F))
    (loads : ℕ → ModelSnapshot S) where
  -- The pool is not empty, and each of its sessions answers every row of an input with a number of that
  -- row alone.
  abbrev pub Serves : (List F → F) → ModelSnapshot S → Type 0
  Serves model snap =
      (0 < length snap.sessions)
      × All
          (λ s.
            (rows : List (List F))
            → rt.run s snap.input_name snap.output_name rows ≡ some (map model rows))
          snap.sessions

  abbrev pub score_by : (List F → F) → AdCandidate F → F
  score_by model c = model (row_of rt fl sc cfg ctx c)

  abbrev padding : (List F → F) → List (AdCandidate F) → List F
  padding model cs =
      let n = length cs in
      map model (
        replicate ((n + cfg.batch_pad_to - 1) / cfg.batch_pad_to * cfg.batch_pad_to - n)
          (replicate 13 (fl.literal 0 1)))

  values-eq :
      (model : List F → F) (cs : List (AdCandidate F))
      → map model (padded_rows rt fl sc cfg ctx cs) ≡ map (score_by model) cs ++ padding model cs
  unfolding padded_rows
  values-eq model cs =
      map-append model (map (row_of rt fl sc cfg ctx) cs) _
      ∙ ap (λ r. r ++ padding model cs) (map_twice (row_of rt fl sc cfg ctx) model cs)

  infer-rowwise :
      (model : List F → F) (snap : ModelSnapshot S) (cs : List (AdCandidate F))
      → Serves model snap
      → infer rt fl sc cfg ctx snap cs ≡ some (map (score_by model) cs)
  unfolding infer pick
  infer-rowwise model snap cs (n, a) =
      let (s, (e, h)) = picked _ snap.sessions (snap.next % length snap.sessions) a (grind arith) in
      rw e (
        rw (h (padded_rows rt fl sc cfg ctx cs)) (
          rw (values-eq model cs) (
            first_numbers (length cs) (map (score_by model) cs) (padding model cs)
              (length-map (score_by model) cs))))

  answers-rowwise :
      (model : List F → F) (k i : ℕ) (cs : List (AdCandidate F))
      → ((j : ℕ) → Serves model (loads j))
      → Covers rt fl sc cfg ctx fallback loads k cs
      → answers rt fl sc cfg ctx fallback loads k i cs ≡ some (map (score_by model) cs)
  unfolding answers
  answers-rowwise model zero i [] h c = refl
  answers-rowwise model zero i (x ∷ xs) h c = absurd (omega (arith, c))
  answers-rowwise model (suc k) i cs h (p, c) =
      rw (infer-rowwise model (loads i) (take cfg.max_batch cs) (h i)) (
        rw (answers-rowwise model k (i + 1) (drop cfg.max_batch cs) h c) (
          ap some (
            sym (map-append (score_by model) (take cfg.max_batch cs) (drop cfg.max_batch cs))
            ∙ ap (map (score_by model)) (take-drop cfg.max_batch cs))))

  -- If the configuration is accepted, and every session that a batch can find answers each row of its
  -- input with the number that a model has for that row, then each candidate gets the model's number for
  -- the row of its own features and is otherwise as it was: the size of the batches, their padding, the
  -- size of the pool and the session that the counter picks make no difference.
  pub ml_score_all-rowwise :
      (model : List F → F) (cs : List (AdCandidate F))
      → validate cfg ≡ true
      → ((i : ℕ) → Serves model (loads i))
      → ml_score_all rt fl sc cfg fallback loads cs ctx ≡ map (scored_by (score_by model)) cs
  ml_score_all-rowwise model cs v h =
      ml_score_all-all_or_none rt fl sc cfg ctx fallback loads cs v
      ∙ (ap (all_or_none rt fl sc cfg ctx fallback loads cs) (
            answers-rowwise model (rounds rt fl sc cfg ctx fallback loads (length cs)) 0 cs h
              (rounds-Covers rt fl sc cfg ctx fallback loads cs v))
          ∙ with_scores-map (score_by model) cs)
