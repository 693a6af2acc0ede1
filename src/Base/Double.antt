-- ===== src/Base/Double.antt =====
-- What the program uses of `double` and `float`. A `float` is the `double` of the same value, and
-- `narrow` is the cast from `double` to `float`. The arithmetic itself is the machine's: a parameter.
use Prim.Native.Nat.{ℕ, ◌*◌, ◌/◌, ◌+◌, ◌-◌, ◌^◌, ◌%◌, ◌<◌}
use mathlib.Core.Path.{◌≡◌}
use mathlib.Core.Bool.{Bool, true, false}
use native.Mathlib.Omega.{arith}
use cong_shed.Base.Int.{ℤ, pos, pos_part}
use cong_shed.Base.Tests.{ltb, if◌then◌else◌}

pub record Double (W : Type 0) : Type 0 where
  -- `decimal m k` is the literal m · 10⁻ᵏ.
  pub decimal : ℕ → ℕ → W
  -- the casts from and to `uint64_t`, and from `int`
  pub of_nat : ℕ → W
  pub of_int : ℤ → W
  pub to_nat : W → ℕ
  pub narrow : W → W
  pub add : W → W → W
  pub sub : W → W → W
  pub mul : W → W → W
  pub div : W → W → W
  pub pow : W → W → W
  pub exp : W → W
  pub tanh : W → W
  pub sqrt : W → W
  pub sin : W → W
  -- `std::abs`, and `std::lround` as an `int`
  pub abs : W → W
  pub lround : W → ℤ
  -- the four bytes of a `float`, as a number, and back
  pub float_bits : W → ℕ
  pub bits_float : ℕ → W
  -- `a < b`
  pub lt : W → W → Bool
  -- `std::numeric_limits<double>::max()`
  pub max_value : W

module _ {W : Type 0} ⦃d : Double W⦄ where
  open d use {decimal, add, sub, mul, div, lt, narrow}

  infixl 65 ◌⊕◌ ◌⊖◌
  infixl 70 ◌⊗◌ ◌⊘◌
  abbrev pub ◌⊕◌ : W → W → W
  ◌⊕◌ = add

  abbrev pub ◌⊖◌ : W → W → W
  ◌⊖◌ = sub

  abbrev pub ◌⊗◌ : W → W → W
  ◌⊗◌ = mul

  abbrev pub ◌⊘◌ : W → W → W
  ◌⊘◌ = div

  infix 50 ◌≺◌
  abbrev pub ◌≺◌ : W → W → Bool
  ◌≺◌ = lt

  -- `std::min`, `std::max` and `std::clamp`, with the operand that each returns on a tie
  abbrev pub fmin : W → W → W
  fmin a b = if b ≺ a then b else a

  abbrev pub fmax : W → W → W
  fmax a b = if a ≺ b then b else a

  abbrev pub fclamp : W → W → W → W
  fclamp v lo hi = if v ≺ lo then lo else if hi ≺ v then hi else v

  abbrev pub nought : W
  nought = decimal 0 0

  abbrev pub one : W
  one = decimal 1 0

-- Of the order the theorems use that `<` is irreflexive and transitive, NaN included.
pub record IsOrdered (W : Type 0) ⦃d : Double W⦄ : Type 0 where
  pub lt_irrefl : (x : W) → d.lt x x ≡ false
  pub lt_trans : (x y z : W) → d.lt x y ≡ true → d.lt y z ≡ true → d.lt x z ≡ true

-- Of a `float` the theorems use that its four bytes hold it, and that a cast of a `float` is the same
-- `float`.
pub record IsFloating (W : Type 0) ⦃d : Double W⦄ : Type 0 where
  pub bits_lt : (w : W) → d.float_bits w < 2 ^ 32
  pub bits_float-float_bits : (w : W) → d.bits_float (d.float_bits (d.narrow w)) ≡ d.narrow w
  pub narrow-narrow : (w : W) → d.narrow (d.narrow w) ≡ d.narrow w

-- Whole thousandths, to run the model on. A `float` has 2³² of them.
abbrev pub Milli : Type 0
Milli = ℕ

instance abbrev pub milli : Double Milli
milli = record {
  decimal = λ m k. m * 1000 / 10 ^ k;
  of_nat = λ n. n * 1000;
  of_int = λ z. pos_part z * 1000;
  to_nat = λ w. w / 1000;
  narrow = λ w. w % 2 ^ 32;
  add = λ a b. a + b;
  sub = λ a b. a - b;
  mul = λ a b. a * b / 1000;
  div = λ a b. a * 1000 / b;
  pow = λ a b. a;
  exp = λ a. 1000 + a;
  tanh = λ a. a;
  sqrt = λ a. a;
  sin = λ a. a;
  abs = λ a. a;
  lround = λ a. pos (a / 1000);
  float_bits = λ a. a % 2 ^ 32;
  bits_float = λ n. n;
  lt = ltb;
  max_value = 10 ^ 300;
}

pub Milli-IsOrdered : IsOrdered Milli
Milli-IsOrdered = ground arith

pub Milli-IsFloating : IsFloating Milli
Milli-IsFloating = record {
  bits_lt = λ w. omega arith;
  bits_float-float_bits = λ w. omega arith;
  narrow-narrow = λ w. omega arith;
}
