-- ===== src/Pipeline/Limit/Kept.antt =====
-- What the limit keeps of the candidates of an impression.
use native.Mathlib.Decide.{dec_lt}
use mathlib.Core.List.{Perm, perm_middle}
use mathlib.Core.List.Perm
use rust_rtb_bidder.Base.{
  ◌++◌, append-nil, ℕ, suc, ◌+◌, ◌≤◌, ◌<◌, ◌≡◌, ◌⊎◌, inl, inr, refl, sym, ap, subst, min, List, [],
  ◌∷◌, length, All, arith, leb, lt→ltb, leb→le, Bool-cases,
}
use rust_rtb_bidder.Model.{AdCandidate}
use rust_rtb_bidder.Pipeline.Limit.{pop_least, push_bounded, drain_into, limit_imp}
use rust_rtb_bidder.Pipeline.Limit.Popped.{
  IsId, pop_least-All, pop_least-perm, pop_least-length, Above, AreIds, pop_least-Above,
  All-still_under,
}

module _ {F : Type 0} where
  -- The heap and what has been dropped so far, of which the heap is full unless nothing has been.
  record IsSplit (top_k : ℕ) (seen heap : List (AdCandidate F)) : Type 0 where
    dropped : List (AdCandidate F)
    under : All (λ d. Above d heap) dropped
    same : Perm (heap ++ dropped) seen
    lengths : length heap + length dropped ≡ length seen
    within : length heap ≤ top_k
    full : (length heap ≡ top_k) ⊎ (dropped ≡ [])

  push_bounded-full :
      (top_k : ℕ) (heap : List (AdCandidate F)) (c : AdCandidate F)
      → top_k ≤ length heap
      → push_bounded top_k heap c ≡ (pop_least c heap).1
  unfolding push_bounded
  push_bounded-full top_k heap c h = rw (lt→ltb top_k (suc (length heap)) (omega arith)) refl

  push_bounded-room :
      (top_k : ℕ) (heap : List (AdCandidate F)) (c : AdCandidate F)
      → length heap < top_k
      → push_bounded top_k heap c ≡ c ∷ heap
  unfolding push_bounded
  push_bounded-room top_k heap c h = ground arith

  pushed :
      (top_k : ℕ) (seen heap : List (AdCandidate F)) (c : AdCandidate F)
      → length heap < top_k
      → IsSplit top_k seen heap
      → IsSplit top_k (c ∷ seen) (c ∷ heap)
  pushed top_k seen heap c l s = elim (s.full) [
    | inl e ↦ absurd (omega (arith, e, l))
    | inr e ↦ record {
      dropped = [];
      under = tt;
      same = Perm.cons c (subst (λ t. Perm (heap ++ t) seen) e s.same);
      lengths = omega (arith, s.lengths, ap length e);
      within = omega (arith, l);
      full = inr refl;
    }
  ]

  popped :
      (top_k : ℕ) (seen heap : List (AdCandidate F)) (c : AdCandidate F)
      → IsId c
      → AreIds heap
      → top_k ≤ length heap
      → IsSplit top_k seen heap
      → IsSplit top_k (c ∷ seen) (pop_least c heap).1
  popped top_k seen heap c h k l s = record {
    dropped = (pop_least c heap).0 ∷ s.dropped;
    under = ((pop_least-Above c heap h k).1, All-still_under s.dropped c heap h k s.under);
    same =
        Perm.trans (perm_middle (pop_least c heap).1 s.dropped)
          (Perm.trans (Perm.append_right s.dropped (pop_least-perm c heap)) (Perm.cons c s.same));
    lengths = omega (arith, s.lengths, pop_least-length c heap);
    within = omega (arith, s.within, pop_least-length c heap);
    full = inl (omega (arith, s.within, pop_least-length c heap));
  }

  push_bounded-IsSplit :
      (top_k : ℕ) (seen heap : List (AdCandidate F)) (c : AdCandidate F)
      → IsId c
      → AreIds heap
      → IsSplit top_k seen heap
      → IsSplit top_k (c ∷ seen) (push_bounded top_k heap c) × AreIds (push_bounded top_k heap c)
  push_bounded-IsSplit top_k seen heap c h k s = elim (dec_lt (length heap) top_k) [
    | yes l ↦
        subst (λ t. IsSplit top_k (c ∷ seen) t × AreIds t) (sym (push_bounded-room top_k heap c l))
          (pushed top_k seen heap c l s, (h, k))
    | no n ↦
        subst (λ t. IsSplit top_k (c ∷ seen) t × AreIds t)
          (sym (push_bounded-full top_k heap c (omega (arith, n))))
          (popped top_k seen heap c h k (omega (arith, n)) s, (pop_least-All IsId c heap h k).1)
  ]

  -- The candidates in the order in which they have been seen, the latest first.
  abbrev pushed_on : List (AdCandidate F) → List (AdCandidate F) → List (AdCandidate F)
  pushed_on seen [] = seen
  pushed_on seen (c ∷ cs) = pushed_on (c ∷ seen) cs

  pushed_on-perm : (seen cs : List (AdCandidate F)) → Perm (pushed_on seen cs) (seen ++ cs)
  pushed_on-perm seen [] = subst (Perm seen) (sym (append-nil seen)) Perm.rfl
  pushed_on-perm seen (c ∷ cs) =
      Perm.trans (pushed_on-perm (c ∷ seen) cs) (Perm.symm (perm_middle seen cs))

  pushed_on-length :
      (seen cs : List (AdCandidate F)) → length (pushed_on seen cs) ≡ length seen + length cs
  pushed_on-length seen [] = omega arith
  pushed_on-length seen (c ∷ cs) = omega (arith, pushed_on-length (c ∷ seen) cs)

  nothing_seen : (top_k : ℕ) → IsSplit top_k [] []
  nothing_seen top_k = record {
    dropped = [];
    under = tt;
    same = Perm.nil;
    lengths = refl;
    within = omega arith;
    full = inr refl;
  }

  kept_length :
      (top_k : ℕ) (candidates : List (AdCandidate F))
      → IsSplit top_k (pushed_on [] candidates) (drain_into top_k [] candidates)
      → length (drain_into top_k [] candidates) ≡ min (length candidates) top_k
  kept_length top_k candidates s = elim (s.full) [
    | inl e ↦ omega (arith, e, s.lengths, pushed_on-length [] candidates)
    | inr e ↦ omega (arith, ap length e, s.within, s.lengths, pushed_on-length [] candidates)
  ]

  drain_into-IsSplit :
      (top_k : ℕ) (seen heap cs : List (AdCandidate F))
      → AreIds heap
      → AreIds cs
      → IsSplit top_k seen heap
      → IsSplit top_k (pushed_on seen cs) (drain_into top_k heap cs)
  unfolding drain_into
  drain_into-IsSplit top_k seen heap [] h k s = s
  drain_into-IsSplit top_k seen heap (c ∷ cs) h k s =
      let (s', h') = push_bounded-IsSplit top_k seen heap c k.0 h s in
      drain_into-IsSplit top_k (c ∷ seen) (push_bounded top_k heap c) cs h' k.1 s'

  best_of :
      (top_k : ℕ) (candidates : List (AdCandidate F))
      → AreIds candidates
      → (dropped : List (AdCandidate F)) × ((length (drain_into top_k [] candidates)
            ≡ min (length candidates) top_k)
          × (Perm (drain_into top_k [] candidates ++ dropped) candidates
              × All (λ d. Above d (drain_into top_k [] candidates)) dropped))
  best_of top_k candidates h =
      let s = drain_into-IsSplit top_k [] [] candidates tt h (nothing_seen top_k) in
      (
        s.dropped,
        (
          kept_length top_k candidates s,
          (Perm.trans s.same (pushed_on-perm [] candidates), s.under),
        ),
      )

  -- The limit keeps at most top_k candidates, all if there are no more, and else exactly top_k; the
  -- kept and the dropped ones together are the candidates themselves in another order, and no dropped
  -- one ranks above a kept one, by signed price and then by the lower id. The ids are 32-bit numbers.
  pub limit_imp-keeps_best :
      (top_k : ℕ) (candidates : List (AdCandidate F))
      → AreIds candidates
      → (dropped : List (AdCandidate F)) × ((length (limit_imp top_k candidates)
            ≡ min (length candidates) top_k)
          × (Perm (limit_imp top_k candidates ++ dropped) candidates
              × All (λ d. Above d (limit_imp top_k candidates)) dropped))
  unfolding limit_imp
  limit_imp-keeps_best top_k candidates h = elim (Bool-cases (leb (length candidates) top_k)) [
    | inl e ↦ rw e (
      [],
      (
        omega (arith, leb→le (length candidates) top_k e),
        (subst (λ t. Perm t candidates) (sym (append-nil candidates)) Perm.rfl, tt),
      ),
    )
    | inr e ↦ rw e (best_of top_k candidates h)
  ]
