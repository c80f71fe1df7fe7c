-- ===== src/Handlers/RingBuffer/Mask.antt =====
-- The bit mask of `DisruptorRingBuffer`: which capacities pass, and what `& mask` computes.
use Prim.Native.Nat.{bit_and, digits, bit_and-bitwise}
use native.Mathlib.Decide.{dec_lt}
use native.Mathlib.Nat.{
  mod-lt, mul-add-mod_self_right, mod-eq_of_lt, div-add-mod', pow-suc, mod_self, zero-mod,
}
use aether_quantum_engine.Common.{
  ℕ, zero, suc, ◌+◌, ◌-◌, ◌*◌, ◌/◌, ◌%◌, ◌^◌, ◌≤◌, ◌<◌, min, ◌≡◌, refl, sym, ap, ◌∙◌, arith,
}

pub pow-pos : (k : ℕ) → 0 < 2 ^ k
pow-pos zero = omega arith
pow-pos (suc k) = omega (arith, pow-suc 2 k, pow-pos k)

-- A number modulo 2 * p, from its half modulo p and its last digit.
mod_double : (x p : ℕ) → 0 < p → x % (p * 2) ≡ x / 2 % p * 2 + x % 2
mod_double x p h =
    let q = x / 2 / p in
    let r = x / 2 % p in
    let low : r < p = mod-lt (x / 2) h in
    let whole : x ≡ q * (p * 2) + (r * 2 + x % 2) =
      grind (arith, div-add-mod' (x / 2) p, div-add-mod' x 2) in
    ap (λ (t : ℕ). t % (p * 2)) whole
    ∙ mul-add-mod_self_right q (p * 2) (r * 2 + x % 2)
    ∙ mod-eq_of_lt (omega arith)

abbrev and_digits : ℕ → ℕ → ℕ → ℕ
and_digits = digits (λ b. zero) min

-- The digits of `a` under a mask of `k` ones.
masked : (n a k : ℕ) → a ≤ n → and_digits n a (2 ^ k - 1) ≡ a % 2 ^ k
masked zero zero k h = sym (zero-mod (2 ^ k))
masked zero (suc a) k h = absurd (omega arith)
masked (suc n) zero k h = sym (zero-mod (2 ^ k))
masked (suc n) (suc a) zero h = omega (arith, masked n (suc a / 2) zero (omega arith))
masked (suc n) (suc a) (suc k) h =
    let p = 2 ^ k in
    let pos : 0 < p = pow-pos k in
    let half : (p * 2 - 1) / 2 ≡ p - 1 = omega arith in
    rw (pow-suc 2 k, half)
      (omega (arith, mod_double (suc a) p pos, masked n (suc a / 2) k (omega arith)))

-- With a capacity of 2^k the mask takes a sequence number to its remainder.
pub bit_and-mask : (a k : ℕ) → bit_and a (2 ^ k - 1) ≡ a % 2 ^ k
bit_and-mask a k = bit_and-bitwise a (2 ^ k - 1) ∙ masked a a k (omega arith)

and_self : (n a : ℕ) → a ≤ n → and_digits n a a ≡ a
and_self zero zero h = refl
and_self zero (suc a) h = absurd (omega arith)
and_self (suc n) zero h = refl
and_self (suc n) (suc a) h = omega (arith, and_self n (suc a / 2) (omega arith))

power_of_and : (n c : ℕ) → 0 < c → c ≤ n → and_digits n c (c - 1) ≡ 0 → (k : ℕ) × (c ≡ 2 ^ k)
power_of_and n zero p h e = absurd (omega arith)
power_of_and zero (suc a) p h e = absurd (omega arith)
power_of_and (suc n) (suc a) p h e = elim (dec_lt 0 (suc a % 2)) [
  | yes odd ↦
      let below : (suc a - 1) / 2 ≡ suc a / 2 = omega arith in
      (0, omega (arith, and_self n (suc a / 2) (omega arith), rw below at e))
  | no even ↦
      let below : (suc a - 1) / 2 ≡ suc a / 2 - 1 = omega arith in
      let (k, f) =
        power_of_and n (suc a / 2) (omega arith) (omega arith) (omega (arith, rw below at e)) in
      (suc k, omega (arith, f, pow-suc 2 k))
]

-- A positive capacity passes the test of the constructor exactly when it is a power of two.
pub power_of_bit_and : (c : ℕ) → 0 < c → bit_and c (c - 1) ≡ 0 → (k : ℕ) × (c ≡ 2 ^ k)
power_of_bit_and c p e = power_of_and c c p (omega arith) (sym (bit_and-bitwise c (c - 1)) ∙ e)

pub bit_and-power : (k : ℕ) → bit_and (2 ^ k) (2 ^ k - 1) ≡ 0
bit_and-power k = bit_and-mask (2 ^ k) k ∙ mod_self (2 ^ k)
