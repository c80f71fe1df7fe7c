-- ===== src/Session/StopWin/Laws.antt =====
-- What the stop-win target of `StopWin` promises.
use aether_quantum_engine.Common.{true, ◌≡◌, arith}
use aether_quantum_engine.Common.Float.{Float, IsIeee, nought, one, fmin, ◌≼◌}
use aether_quantum_engine.Common.Float.Laws.{nought_refl, le_of_lt}
use aether_quantum_engine.Session.StopWin.{
  StopWinConfig, clamp, compounding_rate, tolerance, is_stop_win_reached,
}

module _ {F : Type 0} ⦃f : Float F⦄ where
  open f use {lit, add, mul, le, lt, is_finite}

  clamp-bounds : IsIeee F → (lo hi x : F) → lo ≼ hi → (lo ≼ clamp lo hi x) × (clamp lo hi x ≼ hi)
  clamp-bounds laws lo hi x h =
      ground (arith, le_of_lt laws x hi, le_of_lt laws lo (fmin hi x), laws.refl_of_le lo hi h)

  -- Every answer of the rate lies between 0 and 1, whatever the configuration holds, NaN included.
  compounding_rate-bounds :
      IsIeee F → (c : StopWinConfig F) → (nought ≼ compounding_rate c) × (compounding_rate c ≼ one)
  unfolding compounding_rate
  compounding_rate-bounds laws c =
      clamp-bounds laws nought one _ (laws.lit-le 0 0 1 0 (omega arith))

  -- The stop win is monotone in the profit: where a profit reaches the target, every larger profit does.
  is_stop_win_reached_mono :
      IsIeee F
      → (p q target : F) → (c : StopWinConfig F) → p ≼ q
      → is_stop_win_reached p target c ≡ true
      → is_stop_win_reached q target c ≡ true
  unfolding is_stop_win_reached
  is_stop_win_reached_mono laws p q target c h reached =
      let tiny = lit 1 9 in
      let raised : add p tiny ≼ add q tiny =
        laws.add_mono p q tiny h (laws.lit_finite 1 9 (omega arith)) in
      ground (
        arith,
        laws.le_trans target (add p tiny) (add q tiny) _ raised,
        laws.le_trans (mul target (tolerance c)) (add p tiny) (add q tiny) _ raised,
      )

  tolerance-bounds :
      IsIeee F → (c : StopWinConfig F) → (lit 80 2 ≼ tolerance c) × (tolerance c ≼ one)
  tolerance-bounds laws c = clamp-bounds laws (lit 80 2) one _ (laws.lit-le 80 2 1 0 (omega arith))

  -- The stop win is never declared early: with a finite target, the profit (with the code's 10^-9 of slack) is at
  -- least 80% of it, whatever tolerance is configured.
  pub is_stop_win_reached-sound :
      IsIeee F
      → (profit target : F) → (c : StopWinConfig F) → is_finite target ≡ true
      → is_stop_win_reached profit target c ≡ true
      → mul target (lit 80 2) ≼ add profit (lit 1 9)
  unfolding is_stop_win_reached
  is_stop_win_reached-sound laws profit target c fin reached =
      let tol = tolerance c in
      let slack = add profit (lit 1 9) in
      let (low, high) = tolerance-bounds laws c in
      let positive : nought ≼ target =
        ground (
          arith,
          laws.le_total target nought (laws.refl_of_finite target fin) (nought_refl laws),
        ) in
      let tol_fin : is_finite tol ≡ true =
        laws.between_finite (lit 80 2) tol one low high (laws.lit_finite 80 2 (omega arith))
          (laws.lit_finite 1 0 (omega arith)) in
      let low_nonneg : nought ≼ lit 80 2 = laws.lit-le 0 0 80 2 (omega arith) in
      let scaled : mul target (lit 80 2) ≼ mul target tol =
        laws.mul_mono (lit 80 2) tol target low_nonneg low tol_fin positive fin in
      let whole : mul target (lit 80 2) ≼ mul target one =
        laws.mul_mono (lit 80 2) one target low_nonneg (laws.lit-le 80 2 1 0 (omega arith))
          (laws.lit_finite 1 0 (omega arith)) positive fin in
      let bound : mul target (lit 80 2) ≼ target =
        laws.le_trans _ _ _ whole (laws.mul_one-le target positive) in
      ground
        (arith, laws.le_trans _ (mul target tol) slack scaled, laws.le_trans _ target slack bound)
