-- ===== src/Base/Int.antt =====
-- `int`: rail ids, device numbers and quantised weights. The program adds, compares and clamps them.
use Prim.Native.Nat.{ℕ, suc, ◌+◌, ◌-◌, ◌≤◌}
use mathlib.Core.Bool.{Bool, true, false}
use native.Mathlib.Omega.{arith}
use cong_shed.Base.Tests.{◌==◌, ltb, if◌then◌else◌}

-- `negsuc n` is -(n + 1).
pub data ℤ : Type 0 where
  pos : ℕ → ℤ
  negsuc : ℕ → ℤ

-- `a >= 0`
abbrev pub is_nonneg : ℤ → Bool
is_nonneg (pos n) = true
is_nonneg (negsuc n) = false

-- `std::max(0, a)`
abbrev pub pos_part : ℤ → ℕ
pos_part (pos n) = n
pos_part (negsuc n) = 0

abbrev pub eqb_ℤ : ℤ → ℤ → Bool
eqb_ℤ (pos a) (pos b) = a == b
eqb_ℤ (negsuc a) (negsuc b) = a == b
eqb_ℤ _ _ = false

-- a - b
abbrev pub diff : ℕ → ℕ → ℤ
diff a b = if ltb a b then negsuc (b - suc a) else pos (a - b)

-- `a + b`, far from the ends of `int`
infixl 65 ◌+ℤ◌
abbrev pub ◌+ℤ◌ : ℤ → ℤ → ℤ
pos a +ℤ pos b = pos (a + b)
pos a +ℤ negsuc b = diff a (suc b)
negsuc a +ℤ pos b = diff b (suc a)
negsuc a +ℤ negsuc b = negsuc (suc (a + b))

abbrev pub lt_ℤ : ℤ → ℤ → Bool
lt_ℤ (pos a) (pos b) = ltb a b
lt_ℤ (pos a) (negsuc b) = false
lt_ℤ (negsuc a) (pos b) = true
lt_ℤ (negsuc a) (negsuc b) = ltb b a

-- `std::clamp`
abbrev pub clamp_ℤ : ℤ → ℤ → ℤ → ℤ
clamp_ℤ v lo hi = if lt_ℤ v lo then lo else if lt_ℤ hi v then hi else v

-- The magnitude is at most `b`.
abbrev pub Between : ℕ → ℤ → Type 0
Between b (pos n) = n ≤ b
Between b (negsuc n) = suc n ≤ b

pub clamp_ℤ-Between : (b : ℕ) (v : ℤ) → Between (suc b) (clamp_ℤ v (negsuc b) (pos (suc b)))
clamp_ℤ-Between b (pos n) = ground arith
clamp_ℤ-Between b (negsuc n) = ground arith
