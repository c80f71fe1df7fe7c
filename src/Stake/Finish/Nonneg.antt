-- ===== src/Stake/Finish/Nonneg.antt =====
-- The stake that `calculate_stake_for_manager` of app/src/domain/risk/risk_stake_calc.py answers is not negative.
use aether_quantum_engine.Common.{
  Bool-cases, if◌then◌else◌, Bool, true, not, ◌||◌, Option, none, some, ◌≡◌, inl, inr, arith,
  if_both,
}
use aether_quantum_engine.Common.Float.{Float, IsIeee, IsNumber, nought, fmax, fmin, ◌≼◌, or_nought}
use aether_quantum_engine.Risk.{RiskManager}
use aether_quantum_engine.Stake.{SoftRecovery, Runtime}
use aether_quantum_engine.Stake.Metrics.{Metrics}
use aether_quantum_engine.Stake.Sizing.{up_to, KellyConfig, enforce_min_stake_pct}
use aether_quantum_engine.Stake.Caps.{stake_min_of, cap_provisional_stake, checkpoint_stake_cap_pct}
use aether_quantum_engine.Stake.Finish.{Cycle, floored, finish_capped, finish_stake}
use aether_quantum_engine.Stake.Finish.Numbers.{
  finalize-IsNumber, weak_cap-IsNumber, post_caps-IsNumber, cap_final-IsNumber, squeeze-IsNumber,
}
use aether_quantum_engine.Stake.Finish.{provisional_of}
use aether_quantum_engine.Common.Float.Laws.{
  nought_refl, le_of_lt, mul_nonneg, fmax-above, above_of_not-le,
}
use aether_quantum_engine.Stake.Finish.Provisional.{checkpoint-bounds}

module _ {F : Type 0} ⦃f : Float F⦄ (laws : IsIeee F) where
  up_to-nonneg : (m x : F) → nought ≼ x → nought ≼ up_to m x
  up_to-nonneg m x h = ground (arith, le_of_lt laws nought m)

  cap-nonneg : (cap x : F) → nought ≼ x → nought ≼ (if f.lt nought cap then fmin x cap else x)
  cap-nonneg cap x h = ground (arith, le_of_lt laws nought cap)

  -- What a stake that is not 0 is not below.
  if_above :
      (x : F) (p : F × Option (Metrics F)) (metrics : Option (Metrics F))
      → IsNumber x
      → (nought ≼ x → nought ≼ p.0)
      → nought ≼ (if f.le x nought then (nought, metrics) else p).0
  if_above x p metrics h k = elim (Bool-cases (f.le x nought)) [
    | inl e ↦ rw e (nought_refl laws)
    | inr e ↦ rw e (k (above_of_not-le laws x h e))
  ]

  first-nonneg :
      (b : Bool) (p q : F × Option (Metrics F))
      → nought ≼ p.0
      → nought ≼ q.0
      → nought ≼ (if b then p else q).0
  first-nonneg b p q h k = if_both (λ (z : F × Option (Metrics F)). nought ≼ z.0) b h k

  enforce-nonneg :
      (x bankroll : F) (k : KellyConfig F) (safe_cap : F) (metrics : Option (Metrics F))
      → IsNumber x
      → nought ≼ (enforce_min_stake_pct x bankroll k safe_cap metrics).0
  unfolding enforce_min_stake_pct
  enforce-nonneg x bankroll k safe_cap metrics h =
      let max_stake = or_nought k.max_stake in
      let floor = up_to max_stake (f.mul bankroll (or_nought k.min_stake_pct)) in
      let lifted = up_to max_stake (fmax x floor) in
      if_above x _ metrics h (λ above.
        first-nonneg (f.le (or_nought k.min_stake_pct) nought || f.le bankroll nought) _ _
          (up_to-nonneg max_stake x above)
          (up_to-nonneg max_stake _ (
            cap-nonneg safe_cap lifted
              (up_to-nonneg max_stake (fmax x floor) (fmax-above laws x floor above)))))

  provisional-nonneg :
      (x bankroll : F) (metrics : Option (Metrics F)) (safe_cap : F)
      → nought ≼ bankroll
      → f.is_finite bankroll ≡ true
      → nought ≼ x
      → nought ≼ (cap_provisional_stake x bankroll metrics safe_cap).0
  unfolding cap_provisional_stake
  provisional-nonneg x bankroll none safe_cap above finite h = h
  provisional-nonneg x bankroll (some m) safe_cap above finite h =
      let pct = checkpoint_stake_cap_pct m in
      let (pct_above, pct_low) = checkpoint-bounds laws m in
      let pct_finite =
        laws.between_finite nought pct (f.lit 1 2) pct_above pct_low
          (laws.lit_finite 0 0 (omega arith)) (laws.lit_finite 1 2 (omega arith)) in
      let most = f.mul bankroll pct in
      let most_above = mul_nonneg laws pct bankroll pct_above pct_finite above finite in
      let capped = if_both (λ (z : F). nought ≼ z) (f.lt most x) most_above h in
      first-nonneg (not m.deploy_provisional) _ _ h (cap-nonneg safe_cap (fmin x most) capped)

  module _ (r : Runtime F) (soft : SoftRecovery F) (k : KellyConfig F) (rm : RiskManager F)
      (c : Cycle F) where
    provisional_of-nonneg :
        (safe_cap : F) (p : F × Option (Metrics F))
        → nought ≼ c.bankroll
        → f.is_finite c.bankroll ≡ true
        → nought ≼ p.0
        → nought ≼ (provisional_of r soft k rm c safe_cap p).0
    provisional_of-nonneg safe_cap (x, metrics) = provisional-nonneg x c.bankroll metrics safe_cap

    floored-nonneg :
        (safe_cap : F) (p : F × Option (Metrics F))
        → nought ≼ c.bankroll
        → f.is_finite c.bankroll ≡ true
        → IsNumber (stake_min_of rm)
        → IsNumber p.0
        → nought ≼ (floored r soft k rm c safe_cap p).0
    floored-nonneg safe_cap (x, metrics) above finite least h =
        let capped = post_caps-IsNumber laws x c.bankroll metrics c.loss_to_recover soft h in
        let final =
          finalize-IsNumber laws _ (stake_min_of rm) c.bankroll c.conviction _ c.mandatory_flag
            capped least in
        provisional_of-nonneg safe_cap _ above finite
          (enforce-nonneg _ c.bankroll k safe_cap metrics final)

    finish_capped-nonneg :
        (p : F × F) (metrics : Option (Metrics F))
        → nought ≼ c.bankroll
        → f.is_finite c.bankroll ≡ true
        → IsNumber (stake_min_of rm)
        → IsNumber p.0
        → nought ≼ (finish_capped r soft k rm c p metrics).0
    finish_capped-nonneg (x, safe_cap) metrics above finite least h =
        let weak =
          weak_cap-IsNumber laws x c.bankroll c.stake_regime c.mandatory_flag c.dl_execute k h in
        first-nonneg _ _ _ (nought_refl laws) (
          floored-nonneg safe_cap _ above finite least
            (squeeze-IsNumber laws r _ (stake_min_of rm) metrics c.loss_to_recover weak least))

    -- With a balance that is finite and not negative, the answer is a number of at least 0, if the proposed stake and
    -- the smallest stake are numbers, negative ones included.
    pub finish_stake_nonneg :
        (proposed : F) (metrics : Option (Metrics F))
        → nought ≼ c.bankroll
        → f.is_finite c.bankroll ≡ true
        → IsNumber (stake_min_of rm)
        → IsNumber proposed
        → nought ≼ (finish_stake r soft k rm c proposed metrics).0
    unfolding finish_stake
    finish_stake_nonneg proposed metrics above finite least h =
        finish_capped-nonneg _ metrics above finite least (
          cap_final-IsNumber laws r soft k proposed c.bankroll c.conviction c.recovery_stress rm
            metrics h)
