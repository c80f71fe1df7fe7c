-- ===== src/Common/Float/Fixed.antt =====
-- Fixed-point numbers in units of 10^-6, at which the laws of `float` hold: the concrete floats of the tests.
use Prim.Native.Nat.{ℕ, zero, suc, ◌+◌, ◌*◌, ◌/◌, ◌^◌, ◌≤◌, ◌<◌}
use mathlib.Core.Path.{◌≡◌, refl}
use mathlib.Core.Bool.{true}
use native.Mathlib.Omega.{arith}
use native.Mathlib.Nat.{
  le-div_iff_mul-le, div-mul-le_self, mul-le-mul, le_refl, pow-suc, le_of_mul-le-mul_right,
}
use aether_quantum_engine.Common.Int.{
  ℤ, pos, negsuc, pos_part, neg_part, sub_ℕ, leb_ℤ, ltb_ℤ, ◌+ℤ◌, ◌-ℤ◌, ◌*ℤ◌, floor_div, +ℤ_parts,
  -ℤ_parts,
}
use aether_quantum_engine.Common.Float.{Float, IsIeee}

abbrev unit : ℕ
unit = 1_000_000

abbrev negate : ℤ → ℤ
negate a = sub_ℕ (neg_part a) (pos_part a)

-- The quotient of integers, rounded down; 0 where the divisor is 0.
unfoldable pub quotient : ℤ → ℤ → ℤ
quotient a (pos zero) = pos 0
quotient a (pos (suc n)) = floor_div a (suc n)
quotient a (negsuc n) = floor_div (negate a) (suc n)

instance abbrev pub fixed : Float ℤ
fixed = record {
  lit = λ n k. pos (n * unit / 10 ^ k);
  neg = negate;
  add = λ a b. a +ℤ b;
  sub = λ a b. a -ℤ b;
  mul = λ a b. floor_div (a *ℤ b) unit;
  div = λ a b. quotient (a *ℤ pos unit) b;
  le = leb_ℤ;
  lt = ltb_ℤ;
  is_finite = λ a. true;
  floor = λ a. floor_div a unit;
  ceil = λ a. negate (floor_div (negate a) unit);
  of_int = λ a. a *ℤ pos unit;
  round_to = λ a k. a;
}

power-pos : (k : ℕ) → 0 < 10 ^ k
power-pos zero = omega arith
power-pos (suc k) = omega (arith, pow-suc 10 k, power-pos k)

lit_le : (n k m j : ℕ) → n * 10 ^ j ≤ m * 10 ^ k → n * unit / 10 ^ k ≤ m * unit / 10 ^ j
lit_le n k m j h =
    let p = 10 ^ k in
    let q = 10 ^ j in
    let a = n * unit / p in
    let low : a * p ≤ n * unit = div-mul-le_self (n * unit) p in
    let scaled : a * p * q ≤ n * unit * q = mul-le-mul low (le_refl q) in
    let all : a * q * p ≤ m * unit * p = omega arith in
    (le-div_iff_mul-le (power-pos j)).1 (le_of_mul-le-mul_right all (power-pos k))

mul_pos : (z x : ℕ) → floor_div (pos z *ℤ pos x) unit ≡ pos (z * x / unit)
unfolding ◌*ℤ◌ floor_div
mul_pos z x =
    let prod : sub_ℕ (z * x + 0 * 0) (z * 0 + 0 * x) ≡ pos (z * x) = ground arith in rw prod

mul_mono_of_nonneg :
    (x y z : ℤ)
    → leb_ℤ (pos 0) x ≡ true
    → leb_ℤ x y ≡ true
    → leb_ℤ (pos 0) z ≡ true
    → leb_ℤ (floor_div (z *ℤ x) unit) (floor_div (z *ℤ y) unit) ≡ true
mul_mono_of_nonneg (pos x) (pos y) (pos z) _ h _ =
    let scaled : z * x ≤ z * y = mul-le-mul (le_refl z) (ground arith) in
    rw (mul_pos z x, mul_pos z y) (ground arith)
mul_mono_of_nonneg (pos x) (negsuc y) z _ h _ = ground arith
mul_mono_of_nonneg (negsuc x) y z h _ _ = ground arith
mul_mono_of_nonneg (pos x) (pos y) (negsuc z) _ _ h = ground arith

mul_one-le_of_nonneg :
    (x : ℤ) → leb_ℤ (pos 0) x ≡ true → leb_ℤ (floor_div (x *ℤ pos unit) unit) x ≡ true
mul_one-le_of_nonneg (pos x) _ = rw (mul_pos x unit) (ground arith)
mul_one-le_of_nonneg (negsuc x) h = ground arith

mul_nought_of_nonneg :
    (z : ℤ) → leb_ℤ (pos 0) z ≡ true → leb_ℤ (pos 0) (floor_div (z *ℤ pos 0) unit) ≡ true
mul_nought_of_nonneg (pos z) _ = rw (mul_pos z 0) (ground arith)
mul_nought_of_nonneg (negsuc z) h = ground arith

pub fixed-IsIeee : IsIeee ℤ
fixed-IsIeee = record {
  lit_finite = λ n k h. refl;
  lit-le = λ n k m j h. ground (arith, lit_le n k m j h);
  refl_of_finite = λ x h. ground arith;
  refl_of_le = λ x y h. ground arith;
  le_trans = λ x y z h k. ground arith;
  le_total = λ x y h k. ground arith;
  lt-eq = λ x y. ground arith;
  add_nonneg = λ x y h k. ground (arith, +ℤ_parts x y);
  sub_of_lt = λ x y h. ground (arith, -ℤ_parts y x);
  sub_of_le = λ x y h k. ground (arith, -ℤ_parts y x);
  sub-le = λ x y h k l. ground (arith, -ℤ_parts x y);
  sub-finite = λ x y h k l. refl;
  sub_of_gt = λ x y h. ground (arith, -ℤ_parts x y);
  sub-self = λ x h. ground (arith, -ℤ_parts x x);
  neg_nonneg = λ x h. ground arith;
  between_finite = λ x y z h k l m. refl;
  mul_mono = λ x y z h k l m n. mul_mono_of_nonneg x y z h k m;
  mul_nought = λ z h k. mul_nought_of_nonneg z h;
  mul_one-le = mul_one-le_of_nonneg;
  cents_refl = λ n. ground arith;
  add_mono = λ x y z h k. ground (arith, +ℤ_parts x z, +ℤ_parts y z);
}
