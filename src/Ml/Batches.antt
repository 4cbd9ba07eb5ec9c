-- ===== src/Ml/Batches.antt =====
-- The loop over the batches against its description: the batches are those of the given candidates, all
-- are asked before anything is decided, and either every candidate gets its number or none does.
use mathlib.Core.List.{map-append}
use rust_rtb_bidder.Base.{
  ℕ, zero, suc, ◌+◌, ◌-◌, ◌*◌, ◌/◌, ◌≤◌, ◌<◌, min, ◌≡◌, refl, sym, ap, ◌∙◌, arith, true, false,
  Option, none, some, List, [], ◌∷◌, ◌++◌, map, append_assoc, length, length-append, is_empty, ltb,
  if_intro, FloatOps, ◌>>=◌, Option-cases, inl, inr,
}
use rust_rtb_bidder.Model.{AdCandidate}
use rust_rtb_bidder.Scoring.{ScoreOps, ScoringContext, Scorer, take}
use rust_rtb_bidder.Ml.Windows.{
  take-append, take-drop, length-take, take-filled, length-drop, window, rest_of_window,
  length-with_scores, with_scores-append, bind_some, length-first,
}
use rust_rtb_bidder.Ml.{
  MlScorerConfig, ModelSnapshot, MlRuntime, drop, with_scores, pick, infer, score_batch, reset,
  delegate, fall_back, batches, ml_score_all, padded_rows, validate,
}

module _ {F S : Type 0} (rt : MlRuntime F S) (fl : FloatOps F) (sc : ScoreOps F)
    (cfg : MlScorerConfig) (ctx : ScoringContext) (fallback : Option (Scorer F))
    (loads : ℕ → ModelSnapshot S) where
  -- What the runtime answers to the batches of a list, of which there are k, from the i-th load on:
  -- a number for each candidate, or none where a batch fails.
  unfoldable pub answers : ℕ → ℕ → List (AdCandidate F) → Option (List F)
  answers zero i cs = some []
  answers (suc k) i cs = do
    values ← infer rt fl sc cfg ctx (loads i) (take cfg.max_batch cs)
    rest ← answers k (i + 1) (drop cfg.max_batch cs)
    some (values ++ rest)

  -- What becomes of the candidates: each has its number, or the fallback gets all of them with their
  -- scores wiped.
  abbrev pub all_or_none : List (AdCandidate F) → Option (List F) → List (AdCandidate F)
  all_or_none cs none =
      delegate rt fl sc cfg ctx fallback loads fallback (map (reset rt fl sc cfg ctx) cs)
  all_or_none cs (some values) = with_scores cs values

  -- The list has k batches.
  abbrev pub Covers : ℕ → List (AdCandidate F) → Type 0
  Covers zero cs = length cs ≡ 0
  Covers (suc k) cs = (0 < length cs) × Covers k (drop cfg.max_batch cs)

  length-infer :
      (snap : ModelSnapshot S) (cs : List (AdCandidate F)) (v : List F)
      → infer rt fl sc cfg ctx snap cs ≡ some v
      → length v ≡ length cs
  unfolding infer
  length-infer snap cs v h = bind_some (pick snap).0 _ v h (λ session k.
      bind_some (rt.run session snap.input_name snap.output_name (padded_rows rt fl sc cfg ctx cs))
        _ v k (λ values l. length-first (length cs) values v l))

  -- What the loop goes on with after a batch.
  abbrev after :
      ℕ
      → ℕ
      → List (AdCandidate F)
      → List (AdCandidate F)
      → Option (List F)
      → Option (List (AdCandidate F))
  after fuel i done rest none = some (fall_back rt fl sc cfg ctx fallback loads (done ++ rest))
  after fuel i done rest (some v) =
      let next = done ++ with_scores (take cfg.max_batch rest) v in
      batches rt fl sc cfg ctx fallback loads fuel (i + 1) (length next)
        (next ++ drop cfg.max_batch rest)

  batch_step :
      (fuel i : ℕ) (done rest : List (AdCandidate F))
      → 0 < cfg.max_batch
      → 0 < length rest
      → batches rt fl sc cfg ctx fallback loads (suc fuel) i (length done) (done ++ rest)
        ≡ after fuel i done rest (infer rt fl sc cfg ctx (loads i) (take cfg.max_batch rest))
  unfolding batches score_batch
  batch_step fuel i done rest h k =
      if_intro (λ r. r ≡ after fuel i done rest (infer rt fl sc cfg ctx (loads i) chunk))
        (ltb (length done) (length (done ++ rest))) _ _
        (λ _. rw (window cfg.max_batch done rest) (
          rw filled (elim (Option-cases (infer rt fl sc cfg ctx (loads i) chunk)) [
            | inl e ↦ rw e refl
            | inr (v, e) ↦ rw e (λ j.
                batches rt fl sc cfg ctx fallback loads fuel (i + 1) (stop_eq v j) (next_eq v j))
          ])))
        (λ f. absurd (ground (arith, f, length-append done rest)))
    where
      chunk : List (AdCandidate F)
      chunk = take cfg.max_batch rest

      filled : is_empty (take cfg.max_batch rest) ≡ false
      filled = take-filled cfg.max_batch rest h k

      stop : ℕ
      stop = min (length done + cfg.max_batch) (length (done ++ rest))

      stop_eq : (v : List F) → stop ≡ length (done ++ with_scores chunk v)
      stop_eq v = omega (
        arith,
        length-append done rest,
        length-append done (with_scores chunk v),
        length-with_scores chunk v,
        length-take cfg.max_batch rest,
      )

      next_eq :
          (v : List F)
          → take (length done) (done ++ rest) ++ (with_scores chunk v ++ drop stop (done ++ rest))
            ≡ (done ++ with_scores chunk v) ++ drop cfg.max_batch rest
      next_eq v =
          ap (λ r. r ++ (with_scores chunk v ++ drop stop (done ++ rest))) (take-append done rest)
          ∙ (ap (λ r. done ++ (with_scores chunk v ++ r)) (rest_of_window cfg.max_batch done rest)
              ∙ sym (append_assoc done (with_scores chunk v) (drop cfg.max_batch rest)))

  -- The end of the loop, from the numbers for what is left.
  abbrev ended :
      List (AdCandidate F) → List (AdCandidate F) → Option (List F) → List (AdCandidate F)
  ended done rest none = fall_back rt fl sc cfg ctx fallback loads (done ++ rest)
  ended done rest (some v) = done ++ with_scores rest v

  reset-with_scores :
      (cs : List (AdCandidate F)) (v : List F)
      → map (reset rt fl sc cfg ctx) (with_scores cs v) ≡ map (reset rt fl sc cfg ctx) cs
  unfolding with_scores
  reset-with_scores [] v = refl
  reset-with_scores (c ∷ cs) [] = refl
  reset-with_scores (c ∷ cs) (s ∷ v) =
      ap (λ r. reset rt fl sc cfg ctx c ∷ r) (reset-with_scores cs v)

  -- A batch more that is done changes nothing of the end.
  ended_after :
      (done chunk rest : List (AdCandidate F)) (v : List F) (o : Option (List F))
      → length v ≡ length chunk
      → ended (done ++ with_scores chunk v) rest o
        ≡ ended done (chunk ++ rest) (o >>= λ w. some (v ++ w))
  unfolding fall_back
  ended_after done chunk rest v none h =
      ap (delegate rt fl sc cfg ctx fallback loads fallback)
        (simp (map-append, reset-with_scores chunk v, append_assoc))
  ended_after done chunk rest v (some w) h =
      append_assoc done (with_scores chunk v) (with_scores rest w)
      ∙ ap (λ r. done ++ r) (sym (with_scores-append chunk rest v w h))

  batches_done :
      (fuel i : ℕ) (done : List (AdCandidate F))
      → batches rt fl sc cfg ctx fallback loads (suc fuel) i (length done) (done ++ [])
        ≡ some (done ++ [])
  unfolding batches
  batches_done fuel i done =
      if_intro (λ r. r ≡ some (done ++ [])) (ltb (length done) (length (done ++ []))) _ _
        (λ t. absurd (ground (arith, t, length-append done []))) (λ _. refl)

  batches-ended :
      (k fuel i : ℕ) (done rest : List (AdCandidate F))
      → 0 < cfg.max_batch
      → k < fuel
      → Covers k rest
      → batches rt fl sc cfg ctx fallback loads fuel i (length done) (done ++ rest)
        ≡ some (ended done rest (answers k i rest))
  unfolding answers with_scores
  batches-ended k zero i done rest m h c = absurd (omega (arith, h))
  batches-ended zero (suc fuel) i done (x ∷ xs) m h c = absurd (omega (arith, c))
  batches-ended zero (suc fuel) i done [] m h c = batches_done fuel i done
  batches-ended (suc k) (suc fuel) i done rest m h (p, c) =
      batch_step fuel i done rest m p
      ∙ elim (Option-cases (infer rt fl sc cfg ctx (loads i) chunk)) [
        | inl e ↦ rw e refl
        | inr (v, e) ↦ rw e (
            batches-ended k fuel (i + 1) (done ++ with_scores chunk v) left m (omega (arith, h)) c
            ∙ ap some (
                ended_after done chunk left v (answers k (i + 1) left)
                  (length-infer (loads i) chunk v e)
                ∙ ap (λ r. ended done r (answers k (i + 1) left >>= λ w. some (v ++ w)))
                    (take-drop cfg.max_batch rest)))
      ]
    where
      chunk : List (AdCandidate F)
      chunk = take cfg.max_batch rest

      left : List (AdCandidate F)
      left = drop cfg.max_batch rest

  -- The number of batches of n candidates.
  abbrev pub rounds : ℕ → ℕ
  rounds n = (n + cfg.max_batch - 1) / cfg.max_batch

  rounds_bounds :
      (n : ℕ)
      → 0 < cfg.max_batch
      → (n ≤ rounds n * cfg.max_batch) × (rounds n * cfg.max_batch < n + cfg.max_batch)
  rounds_bounds n h = grind arith

  bounds-Covers :
      (k : ℕ) (cs : List (AdCandidate F))
      → length cs ≤ k * cfg.max_batch
      → k * cfg.max_batch < length cs + cfg.max_batch
      → Covers k cs
  bounds-Covers zero cs h l = omega (arith, h)
  bounds-Covers (suc k) cs h l = (
    grind arith,
    bounds-Covers k (drop cfg.max_batch cs) (grind (arith, length-drop cfg.max_batch cs))
        (grind (arith, length-drop cfg.max_batch cs)),
  )

  Covers-le : (k : ℕ) (cs : List (AdCandidate F)) → 0 < cfg.max_batch → Covers k cs → k ≤ length cs
  Covers-le zero cs m c = omega arith
  Covers-le (suc k) cs m (p, c) =
      omega (arith, Covers-le k (drop cfg.max_batch cs) m c, length-drop cfg.max_batch cs)

  ended-all_or_none :
      (cs : List (AdCandidate F)) (o : Option (List F)) → ended [] cs o ≡ all_or_none cs o
  unfolding fall_back
  ended-all_or_none cs none = refl
  ended-all_or_none cs (some v) = refl

  pub max_batch_pos : validate cfg ≡ true → 0 < cfg.max_batch
  unfolding validate
  max_batch_pos h = ground arith

  pub rounds-Covers :
      (cs : List (AdCandidate F)) → validate cfg ≡ true → Covers (rounds (length cs)) cs
  rounds-Covers cs v =
      let b = rounds_bounds (length cs) (max_batch_pos v) in
      bounds-Covers (rounds (length cs)) cs b.0 b.1

  -- With a configuration that is accepted and more fuel than there are candidates, the loop over the
  -- batches ends. If the runtime answers every batch of the given candidates in turn, each candidate has
  -- the number that was answered in its place and is otherwise as it was. If it fails at any batch, the
  -- fallback gets all the candidates with their scores wiped, and without a fallback they stay so: no
  -- candidate keeps a number of an earlier batch.
  pub batches-all_or_none :
      (fuel : ℕ) (cs : List (AdCandidate F))
      → validate cfg ≡ true
      → length cs < fuel
      → batches rt fl sc cfg ctx fallback loads fuel 0 0 cs
        ≡ some (all_or_none cs (answers (rounds (length cs)) 0 cs))
  batches-all_or_none fuel cs v h =
      batches-ended (rounds (length cs)) fuel 0 [] cs m (omega (arith, h, Covers-le _ cs m covers))
        covers
      ∙ ap some (ended-all_or_none cs (answers (rounds (length cs)) 0 cs))
    where
      m : 0 < cfg.max_batch
      m = max_batch_pos v

      covers : Covers (rounds (length cs)) cs
      covers = rounds-Covers cs v

  pub ml_score_all-all_or_none :
      (cs : List (AdCandidate F))
      → validate cfg ≡ true
      → ml_score_all rt fl sc cfg fallback loads cs ctx
        ≡ all_or_none cs (answers (rounds (length cs)) 0 cs)
  unfolding ml_score_all
  ml_score_all-all_or_none cs v = rw (batches-all_or_none (suc (length cs)) cs v (omega arith)) refl
