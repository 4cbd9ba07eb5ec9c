-- ===== src/Pipeline/Accounts/Ranked.antt =====
-- The releases of one request.
use Prim.Native.String.{String}
use rust_rtb_bidder.Base.{
  ℕ, suc, ◌+◌, ◌%◌, ◌<◌, ◌≡◌, refl, sym, ap, subst, ◌∙◌, true, false, some, List, [], ◌∷◌, All,
  arith, ◌==◌, if◌then◌else◌, contains, Bool-cases, ◌⊎◌, inl, inr, FloatOps,
}
use rust_rtb_bidder.Base.Words.{u64_mod, add64}
use rust_rtb_bidder.Model.{AdCandidate, ImpWinner, Imp}
use rust_rtb_bidder.Pacing.{Counters, as_i64, release}
use rust_rtb_bidder.Pipeline.Ranking.{
  release_each, losers, best, winner_of, rank_imps, ranks_above, win, imp_id_at,
}
use rust_rtb_bidder.Pipeline.Accounts.Paced.{share, total, totals, ids, AreDistinct}

release_one :
    (p : Counters) (id price j v : ℕ)
    → p j ≡ some v
    → v < u64_mod
    → release p id price j ≡ some ((v + (if id == j then as_i64 price else 0)) % u64_mod)
unfolding release add64
release_one p id price j v e r = elim (Bool-cases (id == j)) [
  | inl k ↦ ground arith
  | inr k ↦ ground arith
]

module _ {F : Type 0} where
  release_each-total :
      (p : Counters) (cs : List (AdCandidate F)) (j v : ℕ)
      → p j ≡ some v
      → v < u64_mod
      → release_each p cs j ≡ some ((v + total j cs) % u64_mod)
  unfolding release_each
  release_each-total p [] j v e r = e ∙ ap some (omega arith)
  release_each-total p (c ∷ cs) j v e r =
      release_each-total (release p c.campaign_id c.bid_price_cents) cs j
        ((v + share j c) % u64_mod) (release_one p c.campaign_id c.bid_price_cents j v e r)
        (omega arith)
      ∙ ap some (omega arith)

  abbrev In : AdCandidate F → List (AdCandidate F) → Type 0
  In w [] = ⊥
  In w (c ∷ cs) = (w ≡ c) ⊎ In w cs

  In-contains :
      (w : AdCandidate F) (cs : List (AdCandidate F))
      → In w cs
      → contains (ids cs) w.campaign_id ≡ true
  In-contains w [] i = absurd i
  In-contains w (c ∷ cs) (inl e) =
      subst (λ t. contains (ids (t ∷ cs)) w.campaign_id ≡ true) e (ground arith)
  In-contains w (c ∷ cs) (inr i) = ground (arith, In-contains w cs i)

  losers_head :
      (c : AdCandidate F) (cs : List (AdCandidate F))
      → losers c.campaign_id (c ∷ cs) ≡ losers c.campaign_id cs
  unfolding losers
  losers_head c cs = ground arith

  losers_of_absent :
      (a : ℕ) (cs : List (AdCandidate F)) → contains (ids cs) a ≡ false → losers a cs ≡ cs
  unfolding losers
  losers_of_absent a [] h = refl
  losers_of_absent a (c ∷ cs) h = ground (arith, losers_of_absent a cs (ground arith))

  winner_first :
      (j : ℕ) (c : AdCandidate F) (cs : List (AdCandidate F))
      → contains (ids cs) c.campaign_id ≡ false
      → total j (c ∷ cs) ≡ total j (losers c.campaign_id (c ∷ cs)) + share j c
  winner_first j c cs h =
      subst (λ t. share j c + total j cs ≡ total j t + share j c)
        (sym (losers_head c cs ∙ losers_of_absent c.campaign_id cs h)) (omega arith)

  -- What the losers reserved, and what the winner did, is what all did.
  total-losers :
      (j : ℕ) (w : AdCandidate F) (cs : List (AdCandidate F))
      → In w cs
      → AreDistinct cs
      → total j cs ≡ total j (losers w.campaign_id cs) + share j w
  unfolding losers
  total-losers j w [] i d = absurd i
  total-losers j w (c ∷ cs) (inl e) d =
      subst (λ t. total j (c ∷ cs) ≡ total j (losers t.campaign_id (c ∷ cs)) + share j t) (sym e)
        (winner_first j c cs d.0)
  total-losers j w (c ∷ cs) (inr i) d =
      ground (arith, total-losers j w cs i d.1, In-contains w cs i, d.0)

  skip_second :
      (w c x : AdCandidate F) (cs : List (AdCandidate F)) → In x (w ∷ cs) → In x (w ∷ c ∷ cs)
  skip_second w c x cs (inl e) = inl e
  skip_second w c x cs (inr i) = inr (inr i)

  best-In :
      (fl : FloatOps F) (w : AdCandidate F) (cs : List (AdCandidate F)) → In (best fl w cs) (w ∷ cs)
  unfolding best
  best-In fl w [] = inl refl
  best-In fl w (c ∷ cs) = elim (Bool-cases (ranks_above fl w c)) [
    | inl k ↦
        subst (λ b. In (best fl (if b then w else c) cs) (w ∷ c ∷ cs)) (sym k)
          (skip_second w c _ cs (best-In fl w cs))
    | inr k ↦
        subst (λ b. In (best fl (if b then w else c) cs) (w ∷ c ∷ cs)) (sym k)
          (inr (best-In fl c cs))
  ]

  -- What the winners of campaign j are to pay.
  abbrev pub spent : ℕ → List (ImpWinner F) → ℕ
  spent j [] = 0
  spent j (w ∷ ws) = (if w.campaign_id == j then as_i64 w.bid_price_cents else 0) + spent j ws

  -- The counter of j after the stage, from what the impressions held of it.
  abbrev pub Settled : ℕ → ℕ → ℕ → Counters × List (ImpWinner F) → Type 0
  Settled j v held r =
      (v' : ℕ) × ((r.0 j ≡ some v')
        × ((v' < u64_mod) × ((v' + spent j r.1) % u64_mod ≡ (v + held) % u64_mod)))

  settle_one :
      (fl : FloatOps F) (c : AdCandidate F) (cs : List (AdCandidate F)) (imp_id : String)
      (j v held : ℕ) (r : Counters × List (ImpWinner F))
      → AreDistinct (c ∷ cs)
      → Settled j ((v + total j (losers (best fl c cs).campaign_id (c ∷ cs))) % u64_mod) held r
      → Settled j v (total j (c ∷ cs) + held) (r.0, win imp_id (best fl c cs) ∷ r.1)
  unfolding win
  settle_one fl c cs imp_id j v held r d (v', (e, (q, f))) =
      (v', (e, (q, omega (arith, f, total-losers j (best fl c cs) (c ∷ cs) (best-In fl c cs) d))))

  pub rank_imps-Settled :
      (fl : FloatOps F) (imps : List Imp) (idx : ℕ) (p : Counters)
      (candidates : List (List (AdCandidate F))) (j v : ℕ)
      → p j ≡ some v
      → v < u64_mod
      → All AreDistinct candidates
      → Settled j v (totals j candidates) (rank_imps fl imps idx p candidates)
  unfolding rank_imps winner_of
  rank_imps-Settled fl imps idx p [] j v e r d = (v, (e, (r, omega arith)))
  rank_imps-Settled fl imps idx p ([] ∷ rest) j v e r d =
      subst (λ t. Settled j v t (rank_imps fl imps (suc idx) p rest)) (omega arith)
        (rank_imps-Settled fl imps (suc idx) p rest j v e r d.1)
  rank_imps-Settled fl imps idx p ((c ∷ cs) ∷ rest) j v e r d =
      let lost = losers (best fl c cs).campaign_id (c ∷ cs) in
      settle_one fl c cs (imp_id_at imps idx idx) j v (totals j rest)
        (rank_imps fl imps (suc idx) (release_each p lost) rest) d.0
        (rank_imps-Settled fl imps (suc idx) (release_each p lost) rest j
          ((v + total j lost) % u64_mod) (release_each-total p lost j v e r) (omega arith) d.1)
