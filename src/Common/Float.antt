-- ===== src/Common/Float.antt =====
-- Python's `float`, which antt does not have: any type with the operations that the code uses. The laws are the
-- facts of IEEE 754 that proofs rely on; they hold with NaN, the infinities and rounding.
pub mod Fixed
pub mod Laws
use Prim.Native.Nat.{ℕ, ◌*◌, ◌^◌, ◌≤◌, ◌<◌}
use mathlib.Core.Path.{◌≡◌}
use mathlib.Core.Logic.{◌⊎◌}
use mathlib.Core.Bool.{Bool, true, false, not, ◌&&◌}
use mathlib.Core.List.{List, [], ◌∷◌}
use mathlib.Core.Option.{Option, none, some}
use native.Mathlib.Omega.{arith}
use aether_quantum_engine.Common.Tests.{if◌then◌else◌}
use aether_quantum_engine.Common.Int.{ℤ, pos}

pub record Float (F : Type 0) : Type 0 where
  -- `lit n k` is the literal n / 10^k: 0.56 is `lit 56 2`.
  pub lit : ℕ → ℕ → F
  pub neg : F → F
  pub add : F → F → F
  pub sub : F → F → F
  pub mul : F → F → F
  pub div : F → F → F
  pub le : F → F → Bool
  pub lt : F → F → Bool
  -- `math.isfinite`, `math.floor`, `math.ceil` and `float(n)` of an `int`
  pub is_finite : F → Bool
  pub floor : F → ℤ
  pub ceil : F → ℤ
  pub of_int : ℤ → F
  -- `round(x, n)`
  pub round_to : F → ℕ → F

module _ {F : Type 0} ⦃f : Float F⦄ where
  open f use {lit, neg, add, le, lt}

  abbrev pub nought : F
  nought = lit 0 0

  abbrev pub one : F
  one = lit 1 0

  -- `max(a, b)` and `min(a, b)`: on a tie, or if `b` is NaN, the first argument.
  abbrev pub fmax : F → F → F
  fmax a b = if lt a b then b else a

  abbrev pub fmin : F → F → F
  fmin a b = if lt b a then b else a

  abbrev pub fabs : F → F
  fabs a = if lt a nought then neg a else a

  -- `a == b` on floats
  abbrev pub feq : F → F → Bool
  feq a b = le a b && le b a

  -- `float(x or 0.0)`
  abbrev pub or_nought : Option F → F
  or_nought none = nought
  or_nought (some x) = if feq x nought then nought else x

  -- `sum(xs)`, from the left
  abbrev pub sum_from : F → List F → F
  sum_from acc [] = acc
  sum_from acc (x ∷ xs) = sum_from (add acc x) xs

  abbrev pub fsum : List F → F
  fsum = sum_from nought

infix 50 ◌≼◌ ◌≺◌
abbrev pub ◌≼◌ : {F : Type 0} ⦃f : Float F⦄ → F → F → Type 0
◌≼◌ ⦃f⦄ x y = f.le x y ≡ true

abbrev pub ◌≺◌ : {F : Type 0} ⦃f : Float F⦄ → F → F → Type 0
◌≺◌ ⦃f⦄ x y = f.lt x y ≡ true

-- NaN is the value that is not `<=` itself.
abbrev pub IsNumber : {F : Type 0} ⦃f : Float F⦄ → F → Type 0
IsNumber x = x ≼ x

pub record IsIeee (F : Type 0) ⦃f : Float F⦄ : Type 0 where
  pub lit_finite : (n k : ℕ) → n < 2 ^ 53 → f.is_finite (f.lit n k) ≡ true
  pub lit-le : (n k m j : ℕ) → n * 10 ^ j ≤ m * 10 ^ k → f.lit n k ≼ f.lit m j
  pub refl_of_finite : (x : F) → f.is_finite x ≡ true → x ≼ x
  pub refl_of_le : (x y : F) → x ≼ y → (x ≼ x) × (y ≼ y)
  pub le_trans : (x y z : F) → x ≼ y → y ≼ z → x ≼ z
  pub le_total : (x y : F) → x ≼ x → y ≼ y → (x ≼ y) ⊎ (y ≼ x)
  pub lt-eq : (x y : F) → f.lt x y ≡ f.le x y && not (f.le y x)
  pub add_nonneg : (x y : F) → f.lit 0 0 ≼ x → f.lit 0 0 ≼ y → f.lit 0 0 ≼ f.add x y
  pub sub_of_lt : (x y : F) → x ≺ y → f.lit 0 0 ≼ f.sub y x
  pub sub_of_le : (x y : F) → x ≼ y → f.is_finite y ≡ true → f.lit 0 0 ≼ f.sub y x
  pub sub-le : (x y : F) → f.lit 0 0 ≼ y → y ≼ x → f.is_finite y ≡ true → f.sub x y ≼ x
  pub sub-finite :
      (x y : F) → f.lit 0 0 ≼ y → y ≼ x → f.is_finite x ≡ true → f.is_finite (f.sub x y) ≡ true
  pub sub_of_gt : (x y : F) → x ≺ y → f.sub x y ≼ f.lit 0 0
  pub sub-self : (x : F) → f.is_finite x ≡ true → f.le (f.sub x x) (f.lit 0 0) ≡ true
  pub neg_nonneg : (x : F) → x ≺ f.lit 0 0 → f.lit 0 0 ≼ f.neg x
  pub add_mono : (x y z : F) → x ≼ y → f.is_finite z ≡ true → f.add x z ≼ f.add y z
  pub between_finite :
      (x y z : F)
      → x ≼ y
      → y ≼ z
      → f.is_finite x ≡ true
      → f.is_finite z ≡ true
      → f.is_finite y ≡ true
  pub mul_mono :
      (x y z : F)
      → f.lit 0 0 ≼ x
      → x ≼ y
      → f.is_finite y ≡ true
      → f.lit 0 0 ≼ z
      → f.is_finite z ≡ true
      → f.mul z x ≼ f.mul z y
  pub mul_nought : (z : F) → f.lit 0 0 ≼ z → f.is_finite z ≡ true → f.lit 0 0 ≼ f.mul z (f.lit 0 0)
  pub mul_one-le : (x : F) → f.lit 0 0 ≼ x → f.mul x (f.lit 1 0) ≼ x
  pub cents_refl :
      (n : ℤ) → f.div (f.of_int n) (f.of_int (pos 100)) ≼ f.div (f.of_int n) (f.of_int (pos 100))
