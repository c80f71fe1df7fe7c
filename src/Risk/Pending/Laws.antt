-- ===== src/Risk/Pending/Laws.antt =====
-- Pending losses are never negative, and a win only lowers them.
use aether_quantum_engine.Common.{
  String, true, [], ◌∷◌, ◌≡◌, ◌⊎◌, inl, inr, refl, arith, string_eq, Bool-cases,
}
use aether_quantum_engine.Common.Dict.{Dict, get_default, Values, put-Values, pop-Values}
use aether_quantum_engine.Common.Float.{Float, IsIeee, ◌≼◌, ◌≺◌, nought, fmax, feq}
use aether_quantum_engine.Common.Float.Laws.{
  nought_finite, nought_refl, le_of_lt, lt_of_not-le, fmax_nonneg,
}
use aether_quantum_engine.Risk.Pending.{
  apply_win_to_pending_loss, apply_fractional_payoff_residual_to_pending,
}

module _ {F : Type 0} ⦃f : Float F⦄ where
  abbrev pub IsNonneg : F → Type 0
  IsNonneg v = nought ≼ v

  -- The same keys in the same order, and no value above the old one.
  abbrev pub IsReduced : Dict String F → Dict String F → Type 0
  IsReduced [] [] = Unit
  IsReduced [] (e ∷ d) = ⊥
  IsReduced (e ∷ d) [] = ⊥
  IsReduced ((k, v) ∷ d) ((j, w) ∷ e) = (k ≡ j) × (w ≼ v) × IsReduced d e

  -- A profit pays the losses one after the other: where nothing of it remains, all stay; a loss that it covers is gone,
  -- and the profit is less by it; a loss that it does not cover is less by all that remained, and the later ones stay.
  pub PaysOff : F → Dict String F → Dict String F → Type 0
  PaysOff r [] [] = Unit
  PaysOff r [] (e ∷ d) = ⊥
  PaysOff r (e ∷ d) [] = ⊥
  PaysOff r ((k, v) ∷ d) ((j, w) ∷ e) =
      (k ≡ j)
      × ((r ≼ nought) × (w ≡ v) × (e ≡ d)
          ⊎ (nought ≺ r) × (v ≼ r) × (w ≡ nought) × PaysOff (f.sub r v) d e
          ⊎ (nought ≺ r) × (r ≺ v) × (w ≡ f.sub v r) × (e ≡ d))

module _ {F : Type 0} ⦃f : Float F⦄ (laws : IsIeee F) where
  open laws use {
    refl_of_finite, refl_of_le, le_total, sub_of_lt, sub_of_le, sub-le, sub-finite, lt-eq,
  }

  IsReduced-refl : (d : Dict String F) → Values IsNonneg d → IsReduced d d
  IsReduced-refl [] h = tt
  IsReduced-refl ((k, v) ∷ d) h = (refl, (refl_of_le nought v h.0).1, IsReduced-refl d h.1)

  apply_win-bounds :
      (d : Dict String F) (profit : F)
      → f.is_finite profit ≡ true
      → Values IsNonneg d
      → Values IsNonneg (apply_win_to_pending_loss d profit)
        × IsReduced d (apply_win_to_pending_loss d profit)
  unfolding apply_win_to_pending_loss
  apply_win-bounds [] r fin h = (tt, tt)
  apply_win-bounds ((k, v) ∷ d) r fin h =
      let num = refl_of_finite r fin in
      let zero_num = nought_refl laws in
      let v_num = (refl_of_le nought v h.0).1 in
      elim (Bool-cases (f.le r nought)) [
        | inl spent ↦ rw spent (h, IsReduced-refl ((k, v) ∷ d) h)
        | inr left ↦
            let pos : nought ≼ r =
              le_of_lt laws nought r (lt_of_not-le laws nought r zero_num num left) in
            elim (Bool-cases (f.le v r)) [
              | inl paid ↦
                  let ih = apply_win-bounds d (f.sub r v) (sub-finite r v h.0 paid fin) h.1 in
                  rw (left, paid) ((zero_num, ih.0), (refl, h.0, ih.1))
              | inr more ↦
                  let less = lt_of_not-le laws r v num v_num more in
                  let ih = apply_win-bounds d nought (nought_finite laws) h.1 in
                  rw (left, more)
                    (
                      (sub_of_lt r v less, ih.0),
                      (refl, sub-le v r pos (le_of_lt laws r v less) fin, ih.1),
                    )
            ]
      ]

  apply_win_of_nought : (d : Dict String F) → apply_win_to_pending_loss d nought ≡ d
  unfolding apply_win_to_pending_loss
  apply_win_of_nought [] = refl
  apply_win_of_nought ((k, v) ∷ d) = rw (nought_refl laws) refl

  apply_win-PaysOff :
      (d : Dict String F) (profit : F)
      → f.is_finite profit ≡ true
      → Values IsNonneg d
      → PaysOff profit d (apply_win_to_pending_loss d profit)
  unfolding apply_win_to_pending_loss PaysOff
  apply_win-PaysOff [] r fin h = tt
  apply_win-PaysOff ((k, v) ∷ d) r fin h = elim (Bool-cases (f.le r nought)) [
    | inl spent ↦ rw spent (refl, inl (spent, refl, refl))
    | inr left ↦
        let pos = lt_of_not-le laws nought r (nought_refl laws) (refl_of_finite r fin) left in
        elim (Bool-cases (f.le v r)) [
          | inl paid ↦
              let ih = apply_win-PaysOff d (f.sub r v) (sub-finite r v h.0 paid fin) h.1 in
              rw (left, paid) (refl, inr (inl (pos, refl, refl, ih)))
          | inr more ↦
              let less =
                lt_of_not-le laws r v (refl_of_finite r fin) (refl_of_le nought v h.0).1 more in
              rw (left, more) (refl, inr (inr (pos, less, refl, apply_win_of_nought d)))
        ]
  ]

  -- A finite profit pays off pending losses that are not negative one after the other, each as far as what remains of
  -- the profit covers it, and then no more; none goes below 0 and none grows.
  pub apply_win-reduces :
      (d : Dict String F) (profit : F)
      → f.is_finite profit ≡ true
      → Values IsNonneg d
      → let after = apply_win_to_pending_loss d profit in
        PaysOff profit d after × Values IsNonneg after × IsReduced d after
  apply_win-reduces d profit fin h =
      let (nonneg, reduced) = apply_win-bounds d profit fin h in
      (apply_win-PaysOff d profit fin h, nonneg, reduced)

  pub apply_residual-IsNonneg :
      (d : Dict String F) (symbol : String) (delta : F)
      → Values IsNonneg d
      → Values IsNonneg (apply_fractional_payoff_residual_to_pending d symbol delta)
  unfolding apply_fractional_payoff_residual_to_pending
  apply_residual-IsNonneg d symbol delta h =
      let current = get_default symbol nought d in
      let updated = fmax nought (f.sub current delta) in
      elim (Bool-cases (feq delta nought)) [
        | inl none_left ↦ rw none_left h
        | inr some_left ↦ rw some_left (
            ground (
              arith,
              pop-Values IsNonneg symbol d h,
              put-Values IsNonneg symbol updated d (fmax_nonneg laws (f.sub current delta)) h,
            ))
      ]
