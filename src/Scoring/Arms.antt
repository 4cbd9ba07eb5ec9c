-- ===== src/Scoring/Arms.antt =====
-- Which users the arms of an experiment get.
use Prim.Native.String.{String}
use rust_rtb_bidder.Base.{◌≡◌, ◌%◌, arith, true, FloatOps}
use rust_rtb_bidder.Model.{is_blank}
use rust_rtb_bidder.Scoring.{control, treatment, fnv1a, pick_arm}

-- The order of the floats, on numbers.
pub record FloatOrder {F : Type 0} (fl : FloatOps F) : Type 0 where
  pub ge_trans : (a b c : F) → fl.ge a b ≡ true → fl.ge b c ≡ true → fl.ge a c ≡ true
  pub ge-gt : (a b c : F) → fl.ge a b ≡ true → fl.gt b c ≡ true → fl.gt a c ≡ true

module _ {F : Type 0} (fl : FloatOps F) (order : FloatOrder fl) where
  -- A user without an id is in the control arm. When the share of the treatment grows, whoever is in
  -- the treatment stays there.
  pub treatment_stays :
      (share larger : F) (hash_seed user_id : String)
      → fl.ge larger share ≡ true
      → (is_blank user_id ≡ true → pick_arm fl share hash_seed user_id ≡ control)
        × (pick_arm fl share hash_seed user_id ≡ treatment
            → pick_arm fl larger hash_seed user_id ≡ treatment)
  unfolding pick_arm
  treatment_stays share larger hash_seed user_id h = (
    λ b. ground arith,
    λ t. ground (
      arith,
      order.ge_trans (fl.literal 0 1) larger share,
      order.ge_trans larger share (fl.literal 1 1),
      order.ge-gt larger share
          (fl.div (fl.of_ℕ (fnv1a hash_seed user_id % 10_000)) (fl.literal 10_000 1)),
    ),
  )
