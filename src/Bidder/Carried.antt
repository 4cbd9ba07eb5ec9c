-- ===== src/Bidder/Carried.antt =====
-- What every stage after the retrieval carries over from the candidates that it is given: a property
-- of a candidate that does not look at its score, and of the position of its impression.
use rust_rtb_bidder.Base.{
  All-retain, ℕ, suc, ◌≡◌, refl, sym, subst, Bool, Option, List, [], ◌∷◌, map, retain, is_empty,
  leb, ltb, All, if_intro, length, FloatOps, if◌then◌else◌,
}
use rust_rtb_bidder.Model.{AdCandidate, ImpWinner, Imp}
use rust_rtb_bidder.Pacing.{Counters}
use rust_rtb_bidder.FreqCap.{
  FreqCapOutcome, CapResult, checked, skipped_timeout, skipped_no_user, keep_uncapped,
  apply_outcome, cap_imp, cap_imps,
}
use rust_rtb_bidder.Scoring.{Scorer, ScoringContext}
use rust_rtb_bidder.Scoring.Kept.{unscored, OnlyScores}
use rust_rtb_bidder.Scoring.Features.{score_imps, format_at, rest_of}
use rust_rtb_bidder.Catalog.{AdFormat}
use rust_rtb_bidder.Pipeline.Limit.{push_bounded, drain_into, limit_imp}
use rust_rtb_bidder.Pipeline.Limit.Popped.{pop_least-All}
use rust_rtb_bidder.Pipeline.Budget.{reserve_each, keep_reserved, pace_imp, pace_imps}
use rust_rtb_bidder.Pipeline.Ranking.{best, ranks_above, winner_of, rank_imps, win, imp_id_at}

-- What stays of a candidate when it is scored.
abbrev pub Unscored : Type 0
Unscored = (ℕ × ℕ) × (ℕ × (ℕ × ℕ))

module _ {F : Type 0} where
  -- G holds of the candidates of every impression, the first of which has the index n.
  abbrev pub Each : (ℕ → Unscored → Type 0) → ℕ → List (List (AdCandidate F)) → Type 0
  Each G n [] = Unit
  Each G n (cs ∷ rest) = All (λ c. G n (unscored c)) cs × Each G (suc n) rest

  module _ (P : AdCandidate F → Type 0) where
    push_bounded-All :
        (top_k : ℕ) (heap : List (AdCandidate F)) (c : AdCandidate F)
        → All P heap
        → P c
        → All P (push_bounded top_k heap c)
    unfolding push_bounded
    push_bounded-All top_k heap c h p =
        if_intro (All P) (ltb top_k (suc (length heap))) _ _ (λ _. (pop_least-All P c heap p h).1)
          (λ _. (p, h))

    drain_into-All :
        (top_k : ℕ) (heap cs : List (AdCandidate F))
        → All P heap
        → All P cs
        → All P (drain_into top_k heap cs)
    unfolding drain_into
    drain_into-All top_k heap [] h k = h
    drain_into-All top_k heap (c ∷ cs) h k =
        drain_into-All top_k (push_bounded top_k heap c) cs (push_bounded-All top_k heap c h k.0)
          k.1

    limit_imp-All : (top_k : ℕ) (cs : List (AdCandidate F)) → All P cs → All P (limit_imp top_k cs)
    unfolding limit_imp
    limit_imp-All top_k cs h =
        if_intro (All P) (leb (length cs) top_k) _ _ (λ _. h) (λ _. drain_into-All top_k [] cs tt h)

    keep_uncapped-All :
        (results : List CapResult) (cs : List (AdCandidate F))
        → All P cs
        → All P (keep_uncapped results cs)
    unfolding keep_uncapped
    keep_uncapped-All results cs h =
        if_intro (All P) (is_empty (retain (λ r. r.capped) results)) _ _ (λ _. h)
          (λ _. All-retain P _ cs h)

    apply_outcome-All :
        (idx : ℕ) (o : FreqCapOutcome) (cs : List (AdCandidate F))
        → All P cs
        → All P (apply_outcome idx o cs).0
    unfolding apply_outcome
    apply_outcome-All idx (checked results) cs h = keep_uncapped-All results cs h
    apply_outcome-All idx skipped_timeout cs h = h
    apply_outcome-All idx skipped_no_user cs h = h

    cap_imp-All :
        {W : Type 0} (ask : ℕ → W → List (AdCandidate F) → W × FreqCapOutcome) (idx : ℕ) (w : W)
        (cs : List (AdCandidate F))
        → All P cs
        → All P (cap_imp ask idx w cs).1.0
    unfolding cap_imp
    cap_imp-All {W = W} ask idx w cs h =
        if_intro {A = W × (List (AdCandidate F) × List (ℕ × (ℕ × Bool)))} (λ r. All P r.1.0)
          (is_empty cs) _ _ (λ _. h) (λ _. apply_outcome-All idx (ask idx w cs).1 cs h)

    pace_imp-All : (p : Counters) (cs : List (AdCandidate F)) → All P cs → All P (pace_imp p cs).1
    unfolding pace_imp keep_reserved
    pace_imp-All p cs h =
        if_intro {A = Counters × List (AdCandidate F)} (λ r. All P r.1) (is_empty cs) _ _ (λ _. h)
          (λ _.
            if_intro (All P) (is_empty (reserve_each p cs).1) _ _ (λ _. h)
              (λ _. All-retain P _ cs h))

    best-All :
        (fl : FloatOps F) (w : AdCandidate F) (cs : List (AdCandidate F))
        → P w
        → All P cs
        → P (best fl w cs)
    unfolding best
    best-All fl w [] p h = p
    best-All fl w (c ∷ cs) p h =
        best-All fl (if ranks_above fl w c then w else c) cs
          (if_intro P (ranks_above fl w c) w c (λ _. p) (λ _. h.0)) h.1

  -- A property that does not look at the scores carries over to lists that differ in scores only.
  unscored-All :
      (Q : Unscored → Type 0) (xs : List (AdCandidate F))
      → All (λ c. Q (unscored c)) xs
      → All Q (map unscored xs)
  unscored-All Q [] h = tt
  unscored-All Q (x ∷ xs) h = (h.0, unscored-All Q xs h.1)

  All-unscored :
      (Q : Unscored → Type 0) (xs : List (AdCandidate F))
      → All Q (map unscored xs)
      → All (λ c. Q (unscored c)) xs
  All-unscored Q [] h = tt
  All-unscored Q (x ∷ xs) h = (h.0, All-unscored Q xs h.1)

  module _ (G : ℕ → Unscored → Type 0) where
    pub limit-Each :
        (top_k n : ℕ) (imps : List (List (AdCandidate F)))
        → Each G n imps
        → Each G n (map (limit_imp top_k) imps)
    limit-Each top_k n [] h = tt
    limit-Each top_k n (cs ∷ imps) h =
        (limit_imp-All (λ c. G n (unscored c)) top_k cs h.0, limit-Each top_k (suc n) imps h.1)

    pub score_imps-Each :
        (scorer : Scorer F) (context : Option AdFormat → ScoringContext) (slots : List Imp) (n : ℕ)
        (imps : List (List (AdCandidate F)))
        → OnlyScores scorer
        → Each G n imps
        → Each G n (score_imps scorer context slots imps)
    unfolding score_imps
    score_imps-Each scorer context slots n [] s h = tt
    score_imps-Each scorer context slots n (cs ∷ imps) s h = (
      if_intro {A = List (AdCandidate F)} (All (λ c. G n (unscored c))) (is_empty cs) _ _ (λ _. h.0)
          (λ _. All-unscored (G n) _ (
            subst (All (G n)) (sym (s cs (context (format_at slots))))
              (unscored-All (G n) cs h.0))),
      score_imps-Each scorer context (rest_of slots) (suc n) imps s h.1,
    )

    pub cap_imps-Each :
        {W : Type 0} (ask : ℕ → W → List (AdCandidate F) → W × FreqCapOutcome) (idx n : ℕ) (w : W)
        (imps : List (List (AdCandidate F)))
        → Each G n imps
        → Each G n (cap_imps ask idx w imps).1.0
    unfolding cap_imps
    cap_imps-Each ask idx n w [] h = tt
    cap_imps-Each ask idx n w (cs ∷ imps) h = (
      cap_imp-All (λ c. G n (unscored c)) ask idx w cs h.0,
      cap_imps-Each ask (suc idx) (suc n) (cap_imp ask idx w cs).0 imps h.1,
    )

    pub pace_imps-Each :
        (p : Counters) (n : ℕ) (imps : List (List (AdCandidate F)))
        → Each G n imps
        → Each G n (pace_imps p imps).1
    unfolding pace_imps
    pace_imps-Each p n [] h = tt
    pace_imps-Each p n (cs ∷ imps) h = (
      pace_imp-All (λ c. G n (unscored c)) p cs h.0,
      pace_imps-Each (pace_imp p cs).0 (suc n) imps h.1,
    )

    -- A winner is a candidate of which G holds, for the impression with the id of that index.
    abbrev pub Chosen : List Imp → ImpWinner F → Type 0
    Chosen slots w =
        (n : ℕ) × ((c : AdCandidate F) × (G n (unscored c) × (w ≡ win (imp_id_at slots n n) c)))

    pub rank_imps-Chosen :
        (fl : FloatOps F) (slots : List Imp) (n : ℕ) (p : Counters)
        (imps : List (List (AdCandidate F)))
        → Each G n imps
        → All (Chosen slots) (rank_imps fl slots n p imps).1
    unfolding rank_imps winner_of
    rank_imps-Chosen fl slots n p [] h = tt
    rank_imps-Chosen fl slots n p ([] ∷ imps) h = rank_imps-Chosen fl slots (suc n) p imps h.1
    rank_imps-Chosen fl slots n p ((c ∷ cs) ∷ imps) h = (
      (n, (best fl c cs, (best-All (λ x. G n (unscored x)) fl c cs h.0.0 h.0.1, refl))),
      rank_imps-Chosen fl slots (suc n) _ imps h.1,
    )
