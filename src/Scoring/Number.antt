-- ===== src/Scoring/Number.antt =====
-- The JavaScript numbers of the scores: the operations that the code applies to scores and weights,
-- as a parameter, with what IEEE arithmetic promises of them where no value is NaN or infinite.
use agent_benchmark.Common.{
  ℕ, ◌+◌, ◌*◌, ◌/◌, ◌≤◌, max, ◌≡◌, Bool, true, false, arith, leb, ltb, nat_eq, ◌<◌, refl, ◌-◌,
}

pub record Number (N : Type 0) : Type 0 where
  pub nought : N
  pub one : N
  pub plus : N → N → N
  pub times : N → N → N
  pub divide : N → N → N
  pub maximum : N → N → N
  -- `Math.abs(a - b)`, and the 0.000001 that it is compared with
  pub distance : N → N → N
  pub tolerance : N
  -- `<=`, `>` and `===`
  pub le : N → N → Bool
  pub gt : N → N → Bool
  pub equals : N → N → Bool
  -- `Number(x.toFixed(4))`
  pub to_fixed : N → N

infix 50 ◌≼◌
abbrev pub ◌≼◌ : {N : Type 0} ⦃n : Number N⦄ → N → N → Type 0
◌≼◌ ⦃n⦄ x y = n.le x y ≡ true

abbrev pub IsUnit : {N : Type 0} ⦃n : Number N⦄ → N → Type 0
IsUnit ⦃n⦄ x = (n.nought ≼ x) × (x ≼ n.one)

-- Rounding is monotone and keeps 0 and 1, so sums, products and quotients keep these bounds. A value
-- that is `<=` itself is not NaN.
pub record IsRounded (N : Type 0) ⦃n : Number N⦄ : Type 0 where
  pub nought_le : n.nought ≼ n.nought
  pub one_le : n.nought ≼ n.one
  pub one_le_one : n.one ≼ n.one
  pub refl_of_le : (x y : N) → x ≼ y → y ≼ y
  pub le_trans : (x y z : N) → x ≼ y → y ≼ z → x ≼ z
  pub plus_mono : (a b c d : N) → a ≼ c → b ≼ d → n.plus a b ≼ n.plus c d
  pub plus_nonneg : (a b : N) → n.nought ≼ a → n.nought ≼ b → n.nought ≼ n.plus a b
  pub times_nonneg : (a b : N) → n.nought ≼ a → n.nought ≼ b → n.nought ≼ n.times a b
  pub times_le : (s w : N) → n.nought ≼ s → s ≼ n.one → n.nought ≼ w → n.times s w ≼ w
  pub divide_unit :
      (a b : N) → n.nought ≼ a → a ≼ b → n.equals b n.nought ≡ false → IsUnit (n.divide a b)
  pub maximum_nonneg : (w : N) → w ≼ w → n.nought ≼ n.maximum w n.nought
  pub to_fixed_unit : (x : N) → IsUnit x → IsUnit (n.to_fixed x)
  pub equals_of_gt : (x : N) → n.gt x n.nought ≡ true → n.equals x n.nought ≡ false

-- Numbers of four decimals, in units of 1/10000, meet the laws. The tolerance rounds to 0 there.
abbrev pub Decimal : Type 0
Decimal = ℕ

instance abbrev pub decimal : Number Decimal
decimal = record {
  nought = 0;
  one = 10000;
  plus = λ a b. a + b;
  times = λ a b. a * b / 10000;
  divide = λ a b. a * 10000 / b;
  maximum = max;
  distance = λ a b. a - b + (b - a);
  tolerance = 0;
  le = leb;
  gt = λ a b. ltb b a;
  equals = nat_eq;
  to_fixed = λ x. x;
}

mul-div_le : (s w : ℕ) → s ≤ 10000 → s * w / 10000 ≤ w
mul-div_le s w h = let bound : s * w ≤ 10000 * w = grind arith in omega arith

div_le : (a b : ℕ) → a ≤ b → 0 < b → a * 10000 / b ≤ 10000
div_le a b h p = let bound : a * 10000 ≤ 10000 * b = omega arith in grind arith

pub Decimal-IsRounded : IsRounded Decimal
Decimal-IsRounded = record {
  nought_le = refl;
  one_le = refl;
  one_le_one = refl;
  refl_of_le = λ x y p. ground arith;
  le_trans = λ x y z p q. ground arith;
  plus_mono = λ a b c d p q. ground arith;
  plus_nonneg = λ a b p q. ground arith;
  times_nonneg = λ a b p q. ground arith;
  times_le = λ s w p q r. ground (arith, mul-div_le s w);
  divide_unit = λ a b p q r. ground (arith, div_le a b);
  maximum_nonneg = λ w p. ground arith;
  to_fixed_unit = λ x p. p;
  equals_of_gt = λ x p. ground arith;
}
