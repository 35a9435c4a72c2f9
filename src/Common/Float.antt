-- ===== src/Common/Float.antt =====
-- `f64` as a parameter: the type, the operations that the service uses, and the order laws of
-- IEEE 754 that hold at every value, NaN included.
use Prim.Native.Nat.{ℕ}
use mathlib.Core.Path.{◌≡◌}
use mathlib.Core.Bool.{Bool, true, false, not}
use proxy_fleet.Common.Tests.{if◌then◌else◌}

pub record Float : Type 1 where
  pub F : Type 0
  -- `<` and `<=`
  pub lt : F → F → Bool
  pub le : F → F → Bool
  pub add : F → F → F
  pub sub : F → F → F
  pub mul : F → F → F
  pub div : F → F → F
  pub neg : F → F
  pub powf : F → F → F
  -- the literal a / b, and `a as f64` at an unsigned integer
  pub ratio : ℕ → ℕ → F
  pub of_ℕ : ℕ → F
  -- `.floor() as usize`
  pub floor_usize : F → ℕ
  -- `.round() as i64`, at the values that are not negative
  pub round : F → ℕ
  -- what IEEE 754 says of the comparisons
  pub lt_irrefl : (x : F) → lt x x ≡ false
  pub lt_asymm : (x y : F) → lt x y ≡ true → lt y x ≡ false
  pub lt_trans : (x y z : F) → lt x y ≡ true → lt y z ≡ true → lt x z ≡ true
  pub le-lt_false : (x y : F) → le x y ≡ true → lt y x ≡ false

module _ (f : Float) where
  open f use {F, lt, le}

  -- `f64::clamp`
  abbrev pub fclamp : F → F → F → F
  fclamp lo hi x = if lt x lo then lo else if lt hi x then hi else x

  -- `f64::max` and `f64::min` return the other operand at NaN
  abbrev pub is_nan : F → Bool
  is_nan x = not (le x x)

  abbrev pub fmax : F → F → F
  fmax x y = if is_nan x then y else if lt x y then y else x

  abbrev pub fmin : F → F → F
  fmin x y = if is_nan x then y else if lt y x then y else x
