-- ===== src/Pacing/Laws.antt =====
-- One call of the pacer on every branch.
use rust_rtb_bidder.Base.{ℕ, ◌<◌, ◌≡◌, ◌↔◌, false, some, arith, Option-cases, inl, inr}
use rust_rtb_bidder.Base.Words.{u32_mod, u64_mod, add64, sub64, le_i64, add64-sub64}
use rust_rtb_bidder.Pacing.{Counters, has_budget, exhausted, as_i64, check_and_reserve, release}

-- Every counter is a 64-bit pattern.
abbrev pub IsValid : Counters → Type 0
IsValid p = (id v : ℕ) → p id ≡ some v → v < u64_mod

pub as_i64_range : (x : ℕ) → x < u32_mod → as_i64 x < u64_mod
unfolding as_i64
as_i64_range x h = ground arith

-- The campaign has a counter, and it is positive as a signed number.
abbrev pub IsSolvent : Counters → ℕ → Type 0
IsSolvent p id = (v : ℕ) × (p id ≡ some v) × (le_i64 v 0 ≡ false)

grant-IsSolvent :
    (p : Counters) (id bid : ℕ) → (check_and_reserve p id bid).1 ≡ has_budget → IsSolvent p id
unfolding check_and_reserve
grant-IsSolvent p id bid g = elim (Option-cases (p id)) [
  | inl e ↦ absurd (ground arith)
  | inr (v, e) ↦ (v, e, ground arith)
]

grant :
    (p : Counters) (id bid v : ℕ)
    → p id ≡ some v
    → le_i64 v 0 ≡ false
    → (check_and_reserve p id bid).1 ≡ has_budget
unfolding check_and_reserve
grant p id bid v e s = ground arith

refusal_keeps :
    (p : Counters) (id bid j : ℕ)
    → IsValid p
    → bid < u32_mod
    → (check_and_reserve p id bid).1 ≡ exhausted
    → (check_and_reserve p id bid).0 j ≡ p j
unfolding check_and_reserve
refusal_keeps p id bid j valid h r = elim (Option-cases (p id)) [
  | inl e ↦ ground arith
  | inr (v, e) ↦ ground (arith, add64-sub64 v (as_i64 bid) (valid id v e) (as_i64_range bid h))
]

-- A reservation is granted exactly when the campaign has a positive counter, and a refusal leaves
-- every counter as it was.
pub grants_iff :
    (p : Counters) (id bid : ℕ)
    → IsValid p
    → bid < u32_mod
    → (((check_and_reserve p id bid).1 ≡ has_budget) ↔ IsSolvent p id)
      × ((check_and_reserve p id bid).1 ≡ exhausted
          → (j : ℕ) → (check_and_reserve p id bid).0 j ≡ p j)
unfolding check_and_reserve
grants_iff p id bid valid h = (
  (grant-IsSolvent p id bid, λ s. grant p id bid s.0 s.1 s.2),
  λ r j. refusal_keeps p id bid j valid h r,
)

-- A granted reservation takes the bid off that campaign's counter alone, and a release of the same
-- bid puts every counter back.
pub release-check_and_reserve :
    (p : Counters) (id bid : ℕ)
    → IsValid p
    → bid < u32_mod
    → (check_and_reserve p id bid).1 ≡ has_budget
    → (j : ℕ) → release (check_and_reserve p id bid).0 id bid j ≡ p j
unfolding check_and_reserve release
release-check_and_reserve p id bid valid h g j = elim (Option-cases (p id)) [
  | inl e ↦ ground arith
  | inr (v, e) ↦ ground (arith, add64-sub64 v (as_i64 bid) (valid id v e) (as_i64_range bid h))
]

pub check_and_reserve-IsValid :
    (p : Counters) (id bid : ℕ) → IsValid p → IsValid (check_and_reserve p id bid).0
unfolding check_and_reserve add64 sub64
check_and_reserve-IsValid p id bid valid j v e = ground (arith, valid j v)
