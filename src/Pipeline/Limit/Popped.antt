-- ===== src/Pipeline/Limit/Popped.antt =====
-- Candidates in the order of their ranks, and the least of them out of a heap.
use native.Mathlib.Decide.{dec_le}
use mathlib.Core.List.{Perm}
use mathlib.Core.List.Perm
use rust_rtb_bidder.Base.{
  ℕ, suc, ◌+◌, ◌*◌, ◌-◌, ◌%◌, ◌≤◌, ◌<◌, ◌≡◌, inl, inr, refl, sym, ap, subst, true, false, List, [],
  ◌∷◌, length, All, arith, Bool-cases, if_intro, if◌then◌else◌,
}
use rust_rtb_bidder.Base.Words.{u32_mod}
use rust_rtb_bidder.Model.{AdCandidate}
use rust_rtb_bidder.Pipeline.Ranking.{lt_i32}
use rust_rtb_bidder.Pipeline.Limit.{is_less, pop_least}

module _ {F : Type 0} where
  -- The rank of a candidate: its price as a signed number above the least one, then its id, where a
  -- lower id ranks higher.
  abbrev rank_of : AdCandidate F → ℕ
  rank_of c =
      ((c.bid_price_cents + 2_147_483_648) % u32_mod) * u32_mod + (u32_mod - 1 - c.campaign_id)

  abbrev pub IsId : AdCandidate F → Type 0
  IsId c = c.campaign_id < u32_mod

  less-rank_of :
      (a b : AdCandidate F)
      → IsId a
      → IsId b
      → (is_less a b ≡ true → rank_of a < rank_of b) × (is_less a b ≡ false → rank_of b ≤ rank_of a)
  unfolding is_less lt_i32
  less-rank_of a b h k = (λ e. ground arith, λ e. ground arith)

  -- Popping keeps what holds of all entries.
  pub pop_least-All :
      (P : AdCandidate F → Type 0) (w : AdCandidate F) (cs : List (AdCandidate F))
      → P w
      → All P cs
      → P (pop_least w cs).0 × All P (pop_least w cs).1
  unfolding pop_least
  pop_least-All P w [] p q = (p, tt)
  pop_least-All P w (c ∷ cs) p q =
      let r =
        pop_least-All P (if is_less c w then c else w) cs
          (if_intro P (is_less c w) c w (λ _. q.0) (λ _. p)) q.1 in
      (r.0, (if_intro P (is_less c w) w c (λ _. p) (λ _. q.0), r.1))

  pub pop_least-perm :
      (w : AdCandidate F) (cs : List (AdCandidate F))
      → Perm ((pop_least w cs).0 ∷ (pop_least w cs).1) (w ∷ cs)
  unfolding pop_least
  pop_least-perm w [] = Perm.rfl
  pop_least-perm w (c ∷ cs) = elim (Bool-cases (is_less c w)) [
    | inl e ↦ rw e (Perm.trans (Perm.swap w _ _) (Perm.cons w (pop_least-perm c cs)))
    | inr e ↦ rw e (
        Perm.trans (Perm.swap c _ _)
          (Perm.trans (Perm.cons c (pop_least-perm w cs)) (Perm.swap w c cs)))
  ]

  pub pop_least-length :
      (w : AdCandidate F) (cs : List (AdCandidate F)) → length (pop_least w cs).1 ≡ length cs
  unfolding pop_least
  pop_least-length w [] = refl
  pop_least-length w (c ∷ cs) = ap (λ n. suc n) (pop_least-length (if is_less c w then c else w) cs)

  abbrev pub Above : AdCandidate F → List (AdCandidate F) → Type 0
  Above d = All (λ c. rank_of d ≤ rank_of c)

  abbrev pub AreIds : List (AdCandidate F) → Type 0
  AreIds = All IsId

  smaller :
      (w c : AdCandidate F)
      → IsId w
      → IsId c
      → (rank_of (if is_less c w then c else w) ≤ rank_of w)
        × (rank_of (if is_less c w then c else w) ≤ rank_of (if is_less c w then w else c))
  smaller w c h k = elim (Bool-cases (is_less c w)) [
    | inl e ↦
        rw e (omega (arith, (less-rank_of c w k h).0 e), omega (arith, (less-rank_of c w k h).0 e))
    | inr e ↦ rw e (omega arith, (less-rank_of c w k h).1 e)
  ]

  pub pop_least-Above :
      (w : AdCandidate F) (cs : List (AdCandidate F))
      → IsId w
      → AreIds cs
      → (rank_of (pop_least w cs).0 ≤ rank_of w) × Above (pop_least w cs).0 (pop_least w cs).1
  unfolding pop_least
  pop_least-Above w [] h k = (omega arith, tt)
  pop_least-Above w (c ∷ cs) h k =
      let r =
        pop_least-Above (if is_less c w then c else w) cs
          (if_intro IsId (is_less c w) c w (λ _. k.0) (λ _. h)) k.1 in
      let l = smaller w c h k.0 in (omega (arith, r.0, l.0), (omega (arith, r.0, l.1), r.1))

  -- An entry that is under all the others is the one that is popped.
  pop_least-under :
      (w : AdCandidate F) (cs : List (AdCandidate F))
      → IsId w
      → AreIds cs
      → Above w cs
      → (pop_least w cs).1 ≡ cs
  unfolding pop_least
  pop_least-under w [] h k u = refl
  pop_least-under w (c ∷ cs) h k u = elim (Bool-cases (is_less c w)) [
    | inl e ↦ absurd (omega (arith, (less-rank_of c w k.0 h).0 e, u.0))
    | inr e ↦ rw e (ap (λ t. c ∷ t) (pop_least-under w cs h k.1 u.1))
  ]

  weaker :
      (x d : AdCandidate F) (heap : List (AdCandidate F))
      → Above d heap
      → rank_of x ≤ rank_of d
      → Above x heap
  weaker x d [] u l = tt
  weaker x d (c ∷ heap) u l = (omega (arith, u.0, l), weaker x d heap u.1 l)

  -- What has been dropped is under the heap, before and after an entry takes another one's place.
  still_under :
      (d x : AdCandidate F) (heap : List (AdCandidate F))
      → IsId x
      → AreIds heap
      → Above d heap
      → Above d (pop_least x heap).1
  still_under d x heap h k u = elim (dec_le (rank_of d) (rank_of x)) [
    | yes l ↦ (pop_least-All (λ c. rank_of d ≤ rank_of c) x heap l u).1
    | no n ↦
        subst (Above d) (sym (pop_least-under x heap h k (weaker x d heap u (omega (arith, n))))) u
  ]

  pub All-still_under :
      (dropped : List (AdCandidate F)) (x : AdCandidate F) (heap : List (AdCandidate F))
      → IsId x
      → AreIds heap
      → All (λ d. Above d heap) dropped
      → All (λ d. Above d (pop_least x heap).1) dropped
  All-still_under [] x heap h k u = tt
  All-still_under (d ∷ dropped) x heap h k u =
      (still_under d x heap h k u.0, All-still_under dropped x heap h k u.1)
