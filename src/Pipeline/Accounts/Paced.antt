-- ===== src/Pipeline/Accounts/Paced.antt =====
-- The reservations of one request.
use rust_rtb_bidder.Base.{
  ℕ, ◌+◌, ◌%◌, ◌<◌, ◌≡◌, refl, sym, ap, subst, ◌∙◌, false, not, some, List, [], ◌∷◌, map, All,
  arith, ◌==◌, if◌then◌else◌, contains, is_empty, Bool-cases, if_intro, ◌⊎◌, inl, inr,
}
use rust_rtb_bidder.Base.Words.{u32_mod, u64_mod, sub64, add64-sub64}
use rust_rtb_bidder.Model.{AdCandidate}
use rust_rtb_bidder.Pacing.{
  Counters, PaceDecision, has_budget, exhausted, as_i64, check_and_reserve,
}
use rust_rtb_bidder.Pacing.Laws.{as_i64_range}
use rust_rtb_bidder.Pipeline.Budget.{reserve_each, keep_reserved, pace_imp}

module _ {F : Type 0} where
  -- What a candidate reserves of campaign j, and what a list of them does.
  abbrev pub share : ℕ → AdCandidate F → ℕ
  share j c = if c.campaign_id == j then as_i64 c.bid_price_cents else 0

  abbrev pub total : ℕ → List (AdCandidate F) → ℕ
  total j [] = 0
  total j (c ∷ cs) = share j c + total j cs

  abbrev pub totals : ℕ → List (List (AdCandidate F)) → ℕ
  totals j [] = 0
  totals j (cs ∷ imps) = total j cs + totals j imps

  abbrev pub ids : List (AdCandidate F) → List ℕ
  ids = map (λ c. c.campaign_id)

  -- The candidates of one impression are of different campaigns.
  abbrev pub AreDistinct : List (AdCandidate F) → Type 0
  AreDistinct [] = Unit
  AreDistinct (c ∷ cs) = (contains (ids cs) c.campaign_id ≡ false) × AreDistinct cs

  -- The prices are 32-bit patterns.
  abbrev pub ArePriced : List (AdCandidate F) → Type 0
  ArePriced = All (λ c. c.bid_price_cents < u32_mod)

-- The counter of j after a decision on a bid of campaign `id`.
abbrev pub Reserved : Counters → ℕ → ℕ → ℕ → Type 0
Reserved p j v s = (v' : ℕ) × ((p j ≡ some v') × ((v' < u64_mod) × ((v' + s) % u64_mod ≡ v)))

granted_one :
    (p : Counters) (id price j v : ℕ)
    → p j ≡ some v
    → v < u64_mod
    → price < u32_mod
    → (check_and_reserve p id price).1 ≡ has_budget
    → Reserved (check_and_reserve p id price).0 j v (if id == j then as_i64 price else 0)
unfolding check_and_reserve sub64
granted_one p id price j v e r q g =
    let w = as_i64_range price q in
    elim (Bool-cases (id == j)) [
      | inl k ↦ (sub64 v (as_i64 price), (ground arith, (ground arith, ground arith)))
      | inr k ↦ (v, (ground arith, (r, ground arith)))
    ]

refused_one :
    (p : Counters) (id price j v : ℕ)
    → p j ≡ some v
    → v < u64_mod
    → price < u32_mod
    → (check_and_reserve p id price).1 ≡ exhausted
    → (check_and_reserve p id price).0 j ≡ some v
unfolding check_and_reserve
refused_one p id price j v e r q x = elim (Bool-cases (id == j)) [
  | inl k ↦ ground (arith, add64-sub64 v (as_i64 price) r (as_i64_range price q))
  | inr k ↦ ground arith
]

Decision-cases : (d : PaceDecision) → (d ≡ has_budget) ⊎ (d ≡ exhausted)
Decision-cases has_budget = inl refl
Decision-cases exhausted = inr refl

reserve_granted :
    {F : Type 0} (p : Counters) (c : AdCandidate F) (cs : List (AdCandidate F))
    → (check_and_reserve p c.campaign_id c.bid_price_cents).1 ≡ has_budget
    → reserve_each p (c ∷ cs)
      ≡ reserve_each (check_and_reserve p c.campaign_id c.bid_price_cents).0 cs
unfolding reserve_each
reserve_granted p c cs g = rw (g, reserve_each) refl

reserve_refused :
    {F : Type 0} (p : Counters) (c : AdCandidate F) (cs : List (AdCandidate F))
    → (check_and_reserve p c.campaign_id c.bid_price_cents).1 ≡ exhausted
    → reserve_each p (c ∷ cs) ≡ (
      (reserve_each (check_and_reserve p c.campaign_id c.bid_price_cents).0 cs).0,
      c.campaign_id ∷ (reserve_each (check_and_reserve p c.campaign_id c.bid_price_cents).0 cs).1,
    )
unfolding reserve_each
reserve_refused p c cs g = rw (g, reserve_each) refl

reserve_nothing :
    (F : Type 0) (p : Counters) (a : ℕ) → contains (reserve_each {F = F} p []).1 a ≡ false
unfolding reserve_each
reserve_nothing F p a = refl

exhausted_among :
    {F : Type 0} (p : Counters) (cs : List (AdCandidate F)) (a : ℕ)
    → contains (ids cs) a ≡ false
    → contains (reserve_each p cs).1 a ≡ false
exhausted_among p [] a h = reserve_nothing _ p a
exhausted_among p (c ∷ cs) a h =
    let q = (check_and_reserve p c.campaign_id c.bid_price_cents).0 in
    let rest = exhausted_among q cs a (ground arith) in
    elim (Decision-cases (check_and_reserve p c.campaign_id c.bid_price_cents).1) [
      | inl g ↦ rw (reserve_granted p c cs g) rest
      | inr g ↦ rw (reserve_refused p c cs g) (ground arith)
    ]

pub keep_skips :
    {F : Type 0} (a : ℕ) (ex : List ℕ) (cs : List (AdCandidate F))
    → contains (ids cs) a ≡ false
    → keep_reserved (a ∷ ex) cs ≡ keep_reserved ex cs
unfolding keep_reserved
keep_skips a ex [] h = refl
keep_skips a ex (c ∷ cs) h = ground (arith, keep_skips a ex cs (ground arith))

pub keep_all : {F : Type 0} (cs : List (AdCandidate F)) → keep_reserved [] cs ≡ cs
unfolding keep_reserved
keep_all [] = refl
keep_all (c ∷ cs) = ap (λ t. c ∷ t) (keep_all cs)

pub keep_head :
    {F : Type 0} (ex : List ℕ) (c : AdCandidate F) (cs : List (AdCandidate F))
    → contains ex c.campaign_id ≡ false
    → keep_reserved ex (c ∷ cs) ≡ c ∷ keep_reserved ex cs
unfolding keep_reserved
keep_head ex c cs h = rw h refl

pub drop_head :
    {F : Type 0} (ex : List ℕ) (c : AdCandidate F) (cs : List (AdCandidate F))
    → keep_reserved (c.campaign_id ∷ ex) (c ∷ cs) ≡ keep_reserved (c.campaign_id ∷ ex) cs
unfolding keep_reserved
drop_head ex c cs = ground arith

keep_among :
    {F : Type 0} (a : ℕ) (ex : List ℕ) (cs : List (AdCandidate F))
    → contains (ids cs) a ≡ false
    → contains (ids (keep_reserved ex cs)) a ≡ false
unfolding keep_reserved
keep_among a ex [] h = refl
keep_among a ex (c ∷ cs) h = ground (arith, keep_among a ex cs (ground arith))

pub keep-AreDistinct :
    {F : Type 0} (ex : List ℕ) (cs : List (AdCandidate F))
    → AreDistinct cs
    → AreDistinct (keep_reserved ex cs)
unfolding keep_reserved
keep-AreDistinct ex [] d = tt
keep-AreDistinct ex (c ∷ cs) d =
    if_intro AreDistinct (not (contains ex c.campaign_id)) _ _
      (λ _. (keep_among c.campaign_id ex cs d.0, keep-AreDistinct ex cs d.1))
      (λ _. keep-AreDistinct ex cs d.1)

-- Two reservations in a row.
pub Reserved-join :
    (p : Counters) (j v v' s t : ℕ)
    → (v' + s) % u64_mod ≡ v
    → Reserved p j v' t
    → Reserved p j v (s + t)
Reserved-join p j v v' s t e (w, (k, (r, f))) = (w, (k, (r, omega arith)))

-- The counters and the exhausted ids that a list of candidates leaves, and what is kept.
abbrev Booked : {F : Type 0} → ℕ → ℕ → List (AdCandidate F) → Counters × List ℕ → Type 0
Booked j v cs r = Reserved r.0 j v (total j (keep_reserved r.1 cs))

Booked-nothing :
    (F : Type 0) (p : Counters) (j v : ℕ)
    → p j ≡ some v
    → v < u64_mod
    → Booked {F = F} j v [] (reserve_each {F = F} p [])
unfolding reserve_each keep_reserved
Booked-nothing F p j v e r = (v, (e, (r, omega arith)))

Booked-granted :
    {F : Type 0} (c : AdCandidate F) (cs : List (AdCandidate F)) (j v v' : ℕ)
    (r : Counters × List ℕ)
    → (v' + share j c) % u64_mod ≡ v
    → contains r.1 c.campaign_id ≡ false
    → Booked j v' cs r
    → Booked j v (c ∷ cs) r
Booked-granted c cs j v v' r f n b =
    subst (λ t. Reserved r.0 j v (total j t)) (sym (keep_head r.1 c cs n))
      (Reserved-join r.0 j v v' (share j c) (total j (keep_reserved r.1 cs)) f b)

Booked-refused :
    {F : Type 0} (c : AdCandidate F) (cs : List (AdCandidate F)) (j v : ℕ) (r : Counters × List ℕ)
    → contains (ids cs) c.campaign_id ≡ false
    → Booked j v cs r
    → Booked j v (c ∷ cs) (r.0, c.campaign_id ∷ r.1)
Booked-refused c cs j v r n b =
    subst (λ t. Reserved r.0 j v (total j t))
      (sym (drop_head r.1 c cs ∙ keep_skips c.campaign_id r.1 cs n)) b

reserve_each-Reserved :
    {F : Type 0} (p : Counters) (cs : List (AdCandidate F)) (j v : ℕ)
    → p j ≡ some v
    → v < u64_mod
    → AreDistinct cs
    → ArePriced cs
    → Booked j v cs (reserve_each p cs)
reserve_each-Reserved p [] j v e r d q = Booked-nothing _ p j v e r
reserve_each-Reserved p (c ∷ cs) j v e r d q =
    let p' = (check_and_reserve p c.campaign_id c.bid_price_cents).0 in
    elim (Decision-cases (check_and_reserve p c.campaign_id c.bid_price_cents).1) [
      | inl g ↦
          let (v', (k, (r', f))) = granted_one p c.campaign_id c.bid_price_cents j v e r q.0 g in
          subst (Booked j v (c ∷ cs)) (sym (reserve_granted p c cs g)) (
            Booked-granted c cs j v v' (reserve_each p' cs) f
              (exhausted_among p' cs c.campaign_id d.0)
              (reserve_each-Reserved p' cs j v' k r' d.1 q.1))
      | inr g ↦ subst (Booked j v (c ∷ cs)) (sym (reserve_refused p c cs g)) (
          Booked-refused c cs j v (reserve_each p' cs) d.0 (
            reserve_each-Reserved p' cs j v
              (refused_one p c.campaign_id c.bid_price_cents j v e r q.0 g) r d.1 q.1))
    ]

kept_or_all :
    {F : Type 0} (cs : List (AdCandidate F)) (j v : ℕ) (p : Counters) (ex : List ℕ)
    → Booked j v cs (p, ex)
    → Reserved p j v (total j (if is_empty ex then cs else keep_reserved ex cs))
kept_or_all cs j v p [] b = subst (λ t. Reserved p j v (total j t)) (keep_all cs) b
kept_or_all cs j v p (x ∷ ex) b = b

-- What the stage keeps of one impression is what it has reserved.
pub pace_imp-Reserved :
    {F : Type 0} (p : Counters) (cs : List (AdCandidate F)) (j v : ℕ)
    → p j ≡ some v
    → v < u64_mod
    → AreDistinct cs
    → ArePriced cs
    → Reserved (pace_imp p cs).0 j v (total j (pace_imp p cs).1)
unfolding pace_imp
pace_imp-Reserved p [] j v e r d q = (v, (e, (r, omega arith)))
pace_imp-Reserved p (c ∷ cs) j v e r d q =
    kept_or_all (c ∷ cs) j v (reserve_each p (c ∷ cs)).0 (reserve_each p (c ∷ cs)).1
      (reserve_each-Reserved p (c ∷ cs) j v e r d q)

pub pace_imp-AreDistinct :
    {F : Type 0} (p : Counters) (cs : List (AdCandidate F))
    → AreDistinct cs
    → AreDistinct (pace_imp p cs).1
unfolding pace_imp
pace_imp-AreDistinct p [] d = tt
pace_imp-AreDistinct p (c ∷ cs) d =
    let ex = (reserve_each p (c ∷ cs)).1 in
    if_intro AreDistinct (is_empty ex) (c ∷ cs) (keep_reserved ex (c ∷ cs)) (λ _. d)
      (λ _. keep-AreDistinct ex (c ∷ cs) d)
