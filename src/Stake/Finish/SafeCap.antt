-- ===== src/Stake/Finish/SafeCap.antt =====
-- The safe cap of app/src/domain/risk/consensus_stake_penalty.py holds also where a minimum lifts the stake.
use aether_quantum_engine.Common.{
  Bool, true, false, ◌≡◌, if◌then◌else◌, arith, ◌||◌, Option, if_both,
}
use aether_quantum_engine.Common.Float.{
  Float, IsIeee, IsNumber, nought, fmax, fmin, ◌≼◌, ◌≺◌, or_nought,
}
use aether_quantum_engine.Common.Float.Laws.{
  fmin-le_right, fmin-IsNumber, fmax-IsNumber, fmin-le, le_of_lt,
}
use aether_quantum_engine.Risk.{RiskManager}
use aether_quantum_engine.Stake.{SoftRecovery, Runtime}
use aether_quantum_engine.Stake.Metrics.{Metrics}
use aether_quantum_engine.Stake.Sizing.{KellyConfig, up_to, enforce_min_stake_pct}
use aether_quantum_engine.Stake.Caps.{cap_final_stake, safe_cap_of, stake_min_of}
use aether_quantum_engine.Stake.Finish.{Cycle, floored, finish_capped, finish_stake}
use aether_quantum_engine.Stake.Finish.Numbers.{
  if-IsNumber, up_to-IsNumber, finalize-IsNumber, weak_cap-IsNumber, post_caps-IsNumber,
  cap_final-IsNumber, enforce-IsNumber, squeeze-IsNumber,
}
use aether_quantum_engine.Stake.Finish.Bounds.{first-le, provisional_of-le}

module _ {F : Type 0} ⦃f : Float F⦄ (laws : IsIeee F) where
  second-le :
      (m : F) (b : Bool) (p q : F × Option (Metrics F))
      → b ≡ false
      → q.0 ≼ m
      → (if b then p else q).0 ≼ m
  second-le m true p q e h = ground arith
  second-le m false p q e h = h

  up_to-le_of_le : (m x cap : F) → IsNumber x → x ≼ cap → up_to m x ≼ cap
  up_to-le_of_le m x cap h low =
      if_both (λ (z : F). z ≼ cap) (f.lt nought m)
        (laws.le_trans (fmin x m) x cap (fmin-le laws x m h) low) low

  capped-le :
      (cap x : F) → nought ≺ cap → IsNumber x → (if f.lt nought cap then fmin x cap else x) ≼ cap
  capped-le cap x above h =
      rw above
        (fmin-le_right laws x cap h (laws.refl_of_le nought cap (le_of_lt laws nought cap above)).1)

  enforce-le_safe :
      (x bankroll : F) (k : KellyConfig F) (safe_cap : F) (metrics : Option (Metrics F))
      → nought ≺ safe_cap
      → f.le (or_nought k.min_stake_pct) nought ≡ false
      → f.le bankroll nought ≡ false
      → IsNumber x
      → (enforce_min_stake_pct x bankroll k safe_cap metrics).0 ≼ safe_cap
  unfolding enforce_min_stake_pct
  enforce-le_safe x bankroll k safe_cap metrics above pct funds h =
      let max_stake = or_nought k.max_stake in
      let floor = up_to max_stake (f.mul bankroll (or_nought k.min_stake_pct)) in
      let lifted = up_to-IsNumber laws max_stake (fmax x floor) (fmax-IsNumber laws x floor h) in
      let is_number =
        if-IsNumber laws (f.lt nought safe_cap) (fmin-IsNumber laws _ safe_cap lifted) lifted in
      let neither : f.le (or_nought k.min_stake_pct) nought || f.le bankroll nought ≡ false =
        ground arith in
      first-le laws safe_cap _ _ (f.le x nought) (le_of_lt laws nought safe_cap above) (
        second-le safe_cap _ _ _ neither
          (up_to-le_of_le max_stake _ safe_cap is_number (capped-le safe_cap _ above lifted)))

  module _ (r : Runtime F) (soft : SoftRecovery F) (k : KellyConfig F) (rm : RiskManager F)
      (c : Cycle F) where
    floored-le_safe :
        (safe_cap : F) (p : F × Option (Metrics F))
        → nought ≺ safe_cap
        → f.le (or_nought k.min_stake_pct) nought ≡ false
        → f.le c.bankroll nought ≡ false
        → IsNumber (stake_min_of rm)
        → IsNumber p.0
        → (floored r soft k rm c safe_cap p).0 ≼ safe_cap
    floored-le_safe safe_cap (x, metrics) above pct funds least h =
        let capped = post_caps-IsNumber laws x c.bankroll metrics c.loss_to_recover soft h in
        let final =
          finalize-IsNumber laws _ (stake_min_of rm) c.bankroll c.conviction _ c.mandatory_flag
            capped least in
        provisional_of-le laws r soft k rm c safe_cap safe_cap _
          (enforce-IsNumber laws _ c.bankroll k safe_cap metrics final)
          (enforce-le_safe _ c.bankroll k safe_cap metrics above pct funds final)

    finish_capped-le_safe :
        (p : F × F) (metrics : Option (Metrics F))
        → nought ≺ p.1
        → f.le (or_nought k.min_stake_pct) nought ≡ false
        → f.le c.bankroll nought ≡ false
        → IsNumber (stake_min_of rm)
        → IsNumber p.0
        → (finish_capped r soft k rm c p metrics).0 ≼ p.1
    finish_capped-le_safe (x, safe_cap) metrics above pct funds least h =
        let weak =
          weak_cap-IsNumber laws x c.bankroll c.stake_regime c.mandatory_flag c.dl_execute k h in
        first-le laws safe_cap _ _ _ (le_of_lt laws nought safe_cap above) (
          floored-le_safe safe_cap _ above pct funds least
            (squeeze-IsNumber laws r _ (stake_min_of rm) metrics c.loss_to_recover weak least))

    -- Where a smallest share of the balance is configured and the balance and the safe cap are above 0, the answer is
    -- at most the safe cap, if the proposed stake and the smallest stake are numbers: no minimum lifts it over the cap.
    pub finish_stake-le_safe :
        (proposed : F) (metrics : Option (Metrics F))
        → nought ≺ safe_cap_of r soft c.bankroll rm metrics
        → f.le (or_nought k.min_stake_pct) nought ≡ false
        → f.le c.bankroll nought ≡ false
        → IsNumber (stake_min_of rm)
        → IsNumber proposed
        → (finish_stake r soft k rm c proposed metrics).0 ≼ safe_cap_of r soft c.bankroll rm metrics
    unfolding finish_stake cap_final_stake
    finish_stake-le_safe proposed metrics above pct funds least h =
        finish_capped-le_safe
          (cap_final_stake r soft k proposed c.bankroll c.conviction c.recovery_stress rm metrics)
          metrics above pct funds least
          (cap_final-IsNumber laws r soft k proposed c.bankroll c.conviction c.recovery_stress rm
            metrics h)
