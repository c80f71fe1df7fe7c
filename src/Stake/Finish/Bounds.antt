-- ===== src/Stake/Finish/Bounds.antt =====
-- The bounds of the stake that `calculate_stake_for_manager` of app/src/domain/risk/risk_stake_calc.py answers.
use aether_quantum_engine.Common.{Bool, not, ◌||◌, Option, none, some, if◌then◌else◌, if_both}
use aether_quantum_engine.Common.Float.{
  Float, IsIeee, IsNumber, nought, fmax, fmin, ◌≼◌, ◌≺◌, or_nought,
}
use aether_quantum_engine.Common.Float.Laws.{fmin-IsNumber, fmax-IsNumber, fmin-le, le_of_lt}
use aether_quantum_engine.Risk.{RiskManager}
use aether_quantum_engine.Stake.{SoftRecovery, Runtime}
use aether_quantum_engine.Stake.Metrics.{Metrics}
use aether_quantum_engine.Stake.Sizing.{KellyConfig, up_to, enforce_min_stake_pct}
use aether_quantum_engine.Stake.Caps.{stake_min_of, cap_provisional_stake, checkpoint_stake_cap_pct}
use aether_quantum_engine.Stake.Finish.{Cycle, floored, finish_capped, finish_stake}
use aether_quantum_engine.Stake.Finish.Numbers.{
  if-IsNumber, up_to-IsNumber, up_to-le, finalize-IsNumber, weak_cap-IsNumber, post_caps-IsNumber,
  cap_final-IsNumber, enforce-IsNumber, squeeze-IsNumber,
}
use aether_quantum_engine.Stake.Finish.{provisional_of}

module _ {F : Type 0} ⦃f : Float F⦄ (laws : IsIeee F) where
  pub first-le :
      (m : F) (p q : F × Option (Metrics F)) (b : Bool)
      → p.0 ≼ m
      → q.0 ≼ m
      → (if b then p else q).0 ≼ m
  first-le m p q b h k = if_both (λ (z : F × Option (Metrics F)). z.0 ≼ m) b h k

  provisional-le :
      (x bankroll : F) (metrics : Option (Metrics F)) (safe_cap : F)
      → IsNumber x
      → (cap_provisional_stake x bankroll metrics safe_cap).0 ≼ x
  unfolding cap_provisional_stake
  provisional-le x bankroll none safe_cap h = h
  provisional-le x bankroll (some m) safe_cap h =
      let most = f.mul bankroll (checkpoint_stake_cap_pct m) in
      let low = fmin-le laws x most h in
      let lower = fmin-le laws (fmin x most) safe_cap (fmin-IsNumber laws x most h) in
      first-le x _ _ (not m.deploy_provisional) h (
        if_both (λ (z : F). z ≼ x) (f.lt nought safe_cap)
          (laws.le_trans (fmin (fmin x most) safe_cap) (fmin x most) x lower low) low)

  enforce-le_max :
      (x bankroll : F) (k : KellyConfig F) (safe_cap : F) (metrics : Option (Metrics F))
      → nought ≺ or_nought k.max_stake
      → IsNumber x
      → (enforce_min_stake_pct x bankroll k safe_cap metrics).0 ≼ or_nought k.max_stake
  unfolding enforce_min_stake_pct
  enforce-le_max x bankroll k safe_cap metrics above h =
      let max_stake = or_nought k.max_stake in
      let floor = up_to max_stake (f.mul bankroll (or_nought k.min_stake_pct)) in
      let lifted = up_to-IsNumber laws max_stake (fmax x floor) (fmax-IsNumber laws x floor h) in
      first-le max_stake _ _ (f.le x nought) (le_of_lt laws nought max_stake above) (
        first-le max_stake _ _ (f.le (or_nought k.min_stake_pct) nought || f.le bankroll nought)
          (up_to-le laws max_stake x above h)
          (up_to-le laws max_stake _ above (
            if-IsNumber laws (f.lt nought safe_cap) (fmin-IsNumber laws _ safe_cap lifted) lifted)))

  module _ (r : Runtime F) (soft : SoftRecovery F) (k : KellyConfig F) (rm : RiskManager F)
      (c : Cycle F) where
    pub provisional_of-le :
        (safe_cap m : F) (p : F × Option (Metrics F))
        → IsNumber p.0
        → p.0 ≼ m
        → (provisional_of r soft k rm c safe_cap p).0 ≼ m
    provisional_of-le safe_cap m (x, metrics) h low =
        laws.le_trans _ x m (provisional-le x c.bankroll metrics safe_cap h) low

    floored-le_max :
        (safe_cap : F) (p : F × Option (Metrics F))
        → nought ≺ or_nought k.max_stake
        → IsNumber (stake_min_of rm)
        → IsNumber p.0
        → (floored r soft k rm c safe_cap p).0 ≼ or_nought k.max_stake
    floored-le_max safe_cap (x, metrics) above least h =
        let capped = post_caps-IsNumber laws x c.bankroll metrics c.loss_to_recover soft h in
        let final =
          finalize-IsNumber laws _ (stake_min_of rm) c.bankroll c.conviction _ c.mandatory_flag
            capped least in
        provisional_of-le safe_cap (or_nought k.max_stake) _
          (enforce-IsNumber laws _ c.bankroll k safe_cap metrics final)
          (enforce-le_max _ c.bankroll k safe_cap metrics above final)

    finish_capped-le_max :
        (p : F × F) (metrics : Option (Metrics F))
        → nought ≺ or_nought k.max_stake
        → IsNumber (stake_min_of rm)
        → IsNumber p.0
        → (finish_capped r soft k rm c p metrics).0 ≼ or_nought k.max_stake
    finish_capped-le_max (x, safe_cap) metrics above least h =
        let weak =
          weak_cap-IsNumber laws x c.bankroll c.stake_regime c.mandatory_flag c.dl_execute k h in
        first-le (or_nought k.max_stake) _ _ _ (le_of_lt laws nought (or_nought k.max_stake) above)
          (floored-le_max safe_cap _ above least
            (squeeze-IsNumber laws r _ (stake_min_of rm) metrics c.loss_to_recover weak least))

    -- Where `max_stake` is above 0, the answer is at most `max_stake`, if the proposed stake and the smallest stake are
    -- numbers, whatever the balance, the other configuration and the metrics hold.
    pub finish_stake-le_max :
        (proposed : F) (metrics : Option (Metrics F))
        → nought ≺ or_nought k.max_stake
        → IsNumber (stake_min_of rm)
        → IsNumber proposed
        → (finish_stake r soft k rm c proposed metrics).0 ≼ or_nought k.max_stake
    unfolding finish_stake
    finish_stake-le_max proposed metrics above least h =
        finish_capped-le_max _ metrics above least (
          cap_final-IsNumber laws r soft k proposed c.bankroll c.conviction c.recovery_stress rm
            metrics h)
