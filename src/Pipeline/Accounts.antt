-- ===== src/Pipeline/Accounts.antt =====
-- The books of the budget: what the pacer holds after a request is what it held before it, less the
-- prices of the winners.
pub mod Paced
mod Ranked
use Paced.{
  AreDistinct, ArePriced, totals, Reserved, Reserved-join, pace_imp-Reserved, pace_imp-AreDistinct,
}
use Ranked.{spent, Settled, rank_imps-Settled}
use rust_rtb_bidder.Base.{
  ℕ, zero, suc, ◌+◌, ◌%◌, ◌<◌, ◌≡◌, refl, sym, ap, subst, ◌∙◌, Bool, not, any, is_empty, Bool-cases,
  if_intro, inl, inr, leb, true, false, Option, none, some, List, [], ◌∷◌, ◌++◌, All, arith, ◌==◌,
  if◌then◌else◌, FloatOps,
}
use rust_rtb_bidder.Base.Words.{u32_mod, u64_mod}
use rust_rtb_bidder.Model.{
  AdCandidate, ImpWinner, BidContext, PipelineOutcome, no_bid_for, no_eligible_bids,
}
use rust_rtb_bidder.Pacing.{Counters, as_i64}
use rust_rtb_bidder.Pipeline.{Ran}
use rust_rtb_bidder.Pipeline.Budget.{pace, pace_imp, pace_imps}
use rust_rtb_bidder.Pipeline.Answers.{go_on_cases}
use rust_rtb_bidder.Pipeline.{execute, go_on, is_no_bid}
use rust_rtb_bidder.Pipeline.Ranking.{rank, rank_imps}

module _ {F : Type 0} where
  pace_imps-Reserved :
      (p : Counters) (candidates : List (List (AdCandidate F))) (j v : ℕ)
      → p j ≡ some v
      → v < u64_mod
      → All AreDistinct candidates
      → All ArePriced candidates
      → Reserved (pace_imps p candidates).0 j v (totals j (pace_imps p candidates).1)
        × All AreDistinct (pace_imps p candidates).1
  unfolding pace_imps
  pace_imps-Reserved p [] j v e r d q = ((v, (e, (r, omega arith))), tt)
  pace_imps-Reserved p (cs ∷ rest) j v e r d q =
      let (v', (e', (r', f))) = pace_imp-Reserved p cs j v e r d.0 q.0 in
      let p' = (pace_imp p cs).0 in
      let (b, ds) = pace_imps-Reserved p' rest j v' e' r' d.1 q.1 in
      (
        Reserved-join (pace_imps p' rest).0 j v v' _ (totals j (pace_imps p' rest).1) f b,
        (pace_imp-AreDistinct p cs d.0, ds),
      )

  -- What both stages leave of the counter of j.
  abbrev pub IsBooked : {V C : Type 0} → ℕ → ℕ → Counters × BidContext F V C → Type 0
  IsBooked j v s = (v' : ℕ) × ((s.0 j ≡ some v') × ((v' + spent j s.1.winners) % u64_mod ≡ v))

  totals_of_empty :
      (candidates : List (List (AdCandidate F))) (j : ℕ)
      → any (λ cs. not (is_empty cs)) candidates ≡ false
      → totals j candidates ≡ 0
  totals_of_empty [] j h = refl
  totals_of_empty ([] ∷ rest) j h = omega (arith, totals_of_empty rest j h)
  totals_of_empty ((c ∷ cs) ∷ rest) j h = absurd (ground arith)

  IsBooked-in_turn :
      {V C : Type 0} (ctx : BidContext F V C) (j v v1 held : ℕ) (r : Counters × List (ImpWinner F))
      → ctx.winners ≡ []
      → (v1 + held) % u64_mod ≡ v
      → Settled j v1 held r
      → IsBooked j v (r.0, record ctx { winners = ctx.winners ++ r.1 })
  IsBooked-in_turn ctx j v v1 held r n f (v', (k, (q, g))) =
      (v', (k, subst (λ t. (v' + spent j (t ++ r.1)) % u64_mod ≡ v) (sym n) (omega (arith, f, g))))

  go_on_end :
      {E V C : Type 0} (r : Ran E (Counters × BidContext F V C))
      → (go_on r (execute {E = E} 0 (λ n. 0) [])).state ≡ r.state
  unfolding execute
  go_on_end r = elim (go_on_cases r (execute 0 (λ n. 0) [])) [
    | inl (k, x) ↦ ap (λ t. t.state) k
    | inr k ↦ ap (λ t. t.state) k
  ]

  none_left :
      (candidates : List (List (AdCandidate F))) (o : PipelineOutcome)
      → is_no_bid o ≡ false
      → is_no_bid
          (if any (λ cs. not (is_empty cs)) candidates then o else no_bid_for no_eligible_bids)
        ≡ true
      → any (λ cs. not (is_empty cs)) candidates ≡ false
  none_left candidates o h k = ground arith

  after_pace :
      (E V C : Type 0) (fl : FloatOps F) (deadline_ms : ℕ) (clock : ℕ → ℕ) (p : Counters)
      (ctx : BidContext F V C) (j v : ℕ)
      → clock 1 < deadline_ms
      → p j ≡ some v
      → v < u64_mod
      → All AreDistinct ctx.candidates
      → All ArePriced ctx.candidates
      → ctx.winners ≡ []
      → is_no_bid ctx.outcome ≡ false
      → IsBooked j v
          (go_on
            (pace {E = E} (p, ctx))
            (execute deadline_ms (λ n. clock (suc n)) (rank fl ∷ []))).state
  unfolding execute pace rank
  after_pace E V C fl deadline clock p ctx j v t1 e r d q n o =
      let ((v1, (e1, (r1, f))), ds) = pace_imps-Reserved p ctx.candidates j v e r d q in
      let left = (pace_imps p ctx.candidates).1 in
      elim (go_on_cases (pace {E = E} (p, ctx))
        (execute deadline (λ m. clock (suc m)) (rank fl ∷ []))) [
          | inl (k, inl x) ↦ absurd (x refl)
          | inl (k, inr x) ↦
              subst (λ t. IsBooked j v t.state) (sym k)
                (
                  v1,
                  (
                    e1,
                    subst (λ t. (v1 + spent j t) % u64_mod ≡ v) (sym n)
                        (omega (arith, f, totals_of_empty left j (none_left left ctx.outcome o x))),
                  ),
                )
          | inr k ↦
              subst (λ t. IsBooked j v t.state) (sym k)
                (if_intro {A = Ran E (Counters × BidContext F V C)} (λ x. IsBooked j v x.state)
                  (leb deadline (clock 1)) _ _ (λ h. absurd (ground arith))
                  (λ _.
                    subst (IsBooked j v) (sym (go_on_end (rank fl (pace {E = E} (p, ctx)).state))) (
                      IsBooked-in_turn (pace {E = E} (p, ctx)).state.1 j v v1 (totals j left)
                        (rank_imps fl ctx.request.imp 0 (pace_imps p ctx.candidates).0 left) n f
                        (rank_imps-Settled fl ctx.request.imp 0 (pace_imps p ctx.candidates).0 left
                          j v1 e1 r1 ds))))
        ]

  -- Where the candidates of an impression are of different campaigns, there is no winner and no
  -- no-bid yet, and both stages start before the deadline, the stages for budget and ranking take
  -- off the 64-bit counter of every campaign that has one exactly the prices of its winners, modulo
  -- 2 ^ 64: what the losers reserved is given back, and a refused candidate has nothing reserved.
  pub spent_is_won :
      (E V C : Type 0) (fl : FloatOps F) (deadline_ms : ℕ) (clock : ℕ → ℕ) (p : Counters)
      (ctx : BidContext F V C) (j v : ℕ)
      → clock 0 < deadline_ms
      → clock 1 < deadline_ms
      → p j ≡ some v
      → v < u64_mod
      → All AreDistinct ctx.candidates
      → All ArePriced ctx.candidates
      → ctx.winners ≡ []
      → is_no_bid ctx.outcome ≡ false
      → IsBooked j v (execute {E = E} deadline_ms clock (pace ∷ rank fl ∷ []) (p, ctx)).state
  unfolding execute pace rank
  spent_is_won E V C fl deadline clock p ctx j v t0 t1 e r d q n o =
      if_intro {A = Ran E (Counters × BidContext F V C)} (λ x. IsBooked j v x.state)
        (leb deadline (clock 0)) _ _ (λ h. absurd (ground arith))
        (λ _. after_pace E V C fl deadline clock p ctx j v t1 e r d q n o)
