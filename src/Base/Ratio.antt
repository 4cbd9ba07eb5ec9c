-- ===== src/Base/Ratio.antt =====
-- Fractions of natural numbers in the place of the machine's floats, for tests and examples
-- whose integers are not negative.
use rust_rtb_bidder.Base.{ℕ, ◌+◌, ◌-◌, ◌*◌, ◌/◌, ltb, leb, FloatOps}

abbrev pub Ratio : Type 0
Ratio = ℕ × ℕ

abbrev pub ratio_ops : FloatOps Ratio
ratio_ops = record {
  of_ℕ = λ n. (n, 1);
  to_ℕ = λ x. x.0 / x.1;
  of_i32 = λ n. (n, 1);
  literal = λ a b. (a, b);
  div = λ x y. (x.0 * y.1, x.1 * y.0);
  mul = λ x y. (x.0 * y.0, x.1 * y.1);
  ceil = λ x. ((x.0 + x.1 - 1) / x.1, 1);
  gt = λ x y. ltb (y.0 * x.1) (x.0 * y.1);
  ge = λ x y. leb (y.0 * x.1) (x.0 * y.1);
}

-- Natural numbers, where no fractions are needed.
abbrev pub whole : FloatOps ℕ
whole = record {
  of_ℕ = λ n. n;
  to_ℕ = λ n. n;
  of_i32 = λ n. n;
  literal = λ a b. a;
  div = λ a b. a;
  mul = λ a b. a * b;
  ceil = λ n. n;
  gt = λ a b. ltb b a;
  ge = λ a b. leb b a;
}
