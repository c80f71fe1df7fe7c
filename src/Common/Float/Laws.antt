-- ===== src/Common/Float/Laws.antt =====
-- Consequences of the laws of floats for signs, `max` and `min`.
use mathlib.Core.Path.{◌≡◌}
use mathlib.Core.Bool.{true, false}
use native.Mathlib.Omega.{arith}
use aether_quantum_engine.Common.Float.{Float, IsIeee, ◌≼◌, ◌≺◌, nought, fmax, fmin, fabs, IsNumber}

module _ {F : Type 0} ⦃f : Float F⦄ (laws : IsIeee F) where
  open laws use {
    lit_finite, refl_of_finite, refl_of_le, le_trans, le_total, lt-eq, neg_nonneg, mul_mono,
    mul_nought,
  }

  pub nought_finite : f.is_finite (nought {F = F}) ≡ true
  nought_finite = lit_finite 0 0 (omega arith)

  pub nought_refl : ◌≼◌ {F = F} nought nought
  nought_refl = refl_of_finite nought nought_finite

  pub le_of_lt : (x y : F) → x ≺ y → x ≼ y
  le_of_lt x y h = ground (arith, lt-eq x y)

  pub lt_of_not-le : (x y : F) → x ≼ x → y ≼ y → f.le y x ≡ false → x ≺ y
  lt_of_not-le x y a b h = ground (arith, lt-eq x y, le_total x y a b)

  pub not-lt_of_le : (x y : F) → y ≼ x → f.lt x y ≡ false
  not-lt_of_le x y h = ground (arith, lt-eq x y)

  -- `max(0.0, x)` is at least 0, also if `x` is NaN.
  pub fmax_nonneg : (x : F) → nought ≼ fmax nought x
  fmax_nonneg x = ground (arith, le_of_lt nought x, nought_refl)

  pub fabs_nonneg : (x : F) → x ≺ nought → nought ≼ fabs x
  fabs_nonneg x h = rw h (neg_nonneg x h)

  pub fmax-finite : (x : F) → f.is_finite x ≡ true → f.is_finite (fmax nought x) ≡ true
  fmax-finite x h = ground (arith, nought_finite)

  -- `max(0.0, x)` is 0 where `x` is not above 0.
  pub fmax_of_le : (x : F) → x ≼ nought → fmax nought x ≡ nought
  fmax_of_le x h = rw (not-lt_of_le nought x h)

  -- `min(a, b)` and `max(a, b)` are numbers where `a` is one, whatever `b` is.
  pub fmin-IsNumber : (a b : F) → IsNumber a → IsNumber (fmin a b)
  fmin-IsNumber a b h = ground (arith, le_of_lt b a, refl_of_le b a)

  pub fmax-IsNumber : (a b : F) → IsNumber a → IsNumber (fmax a b)
  fmax-IsNumber a b h = ground (arith, le_of_lt a b, refl_of_le a b)

  pub fmin-le : (a b : F) → IsNumber a → fmin a b ≼ a
  fmin-le a b h = ground (arith, le_of_lt b a)

  pub fmin-le_right : (a b : F) → IsNumber a → IsNumber b → fmin a b ≼ b
  fmin-le_right a b h k = ground (arith, lt-eq b a, le_total a b h k)

  pub mul_nonneg :
      (x z : F)
      → nought ≼ x
      → f.is_finite x ≡ true
      → nought ≼ z
      → f.is_finite z ≡ true
      → nought ≼ f.mul z x
  mul_nonneg x z above finite z_above z_finite =
      le_trans nought (f.mul z nought) (f.mul z x) (mul_nought z z_above z_finite)
        (mul_mono nought x z nought_refl above finite z_above z_finite)

  pub fmax-above : (a b : F) → nought ≼ a → nought ≼ fmax a b
  fmax-above a b h = ground (arith, le_of_lt a b, le_trans nought a b h)

  pub above_of_not-le : (x : F) → IsNumber x → f.le x nought ≡ false → nought ≼ x
  above_of_not-le x h k = ground (arith, le_total x nought h nought_refl)
