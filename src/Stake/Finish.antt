-- ===== src/Stake/Finish.antt =====
-- The end of `calculate_stake_for_manager` of app/src/domain/risk/risk_stake_calc.py: from the stake that the sizing
-- proposes to the one that is sent. The sizing itself is a parameter: the proposed stake is an argument.
pub mod Numbers
pub mod Bounds
pub mod Provisional
pub mod Nonneg
pub mod SafeCap
use aether_quantum_engine.Common.{
  Bool, true, false, not, ◌&&◌, ◌||◌, Option, none, some, if◌then◌else◌,
}
use aether_quantum_engine.Common.Float.{Float, nought}
use aether_quantum_engine.Risk.{RiskManager}
use aether_quantum_engine.Stake.{SoftRecovery, Runtime}
use aether_quantum_engine.Stake.Metrics.{Metrics}
use aether_quantum_engine.Stake.Sizing.{
  KellyConfig, Regime, finalize_stake_with_min, enforce_min_stake_pct,
}
use aether_quantum_engine.Stake.Caps.{
  stake_min_of, cap_final_stake, apply_mandatory_weak_explore_cap, apply_post_kelly_stake_caps,
  cap_provisional_stake, enforce_d_squeeze_stake_floor,
}

-- What the function holds of the cycle when it comes to the caps. `is_dalembert` is `mode_tag == "D'ALEMBERT"`.
pub record Cycle (F : Type 0) : Type 0 where
  pub bankroll : F
  pub conviction : F
  pub loss_to_recover : F
  pub stake_regime : Regime
  pub is_dalembert : Bool
  pub recovery_stress : Bool
  pub mandatory_flag : Bool
  pub mandatory_blocked : Bool
  pub dl_execute : Bool

module _ {F : Type 0} ⦃f : Float F⦄ where
  open f use {le, lt}

  module _ (r : Runtime F) (soft : SoftRecovery F) (k : KellyConfig F) (rm : RiskManager F)
      (c : Cycle F) where
    abbrev pub provisional_of : F → F × Option (Metrics F) → F × Option (Metrics F)
    provisional_of safe_cap (stake, metrics) =
        cap_provisional_stake stake c.bankroll metrics safe_cap

    abbrev pub floored : F → F × Option (Metrics F) → F × Option (Metrics F)
    floored safe_cap (stake, metrics) =
        let capped = apply_post_kelly_stake_caps stake c.bankroll metrics c.loss_to_recover soft in
        let linear = c.recovery_stress && (not c.mandatory_blocked && lt nought capped) in
        let least =
          finalize_stake_with_min capped (stake_min_of rm) c.bankroll c.conviction linear
            c.mandatory_flag in
        provisional_of safe_cap (enforce_min_stake_pct least c.bankroll k safe_cap metrics)

    abbrev pub finish_capped : F × F → Option (Metrics F) → F × Option (Metrics F)
    finish_capped (capped, safe_cap) metrics =
        let stake_min = stake_min_of rm in
        let stake =
          apply_mandatory_weak_explore_cap capped c.bankroll c.stake_regime c.mandatory_flag
            c.dl_execute k in
        if c.is_dalembert && (le stake stake_min && not c.mandatory_flag)
        then (nought, metrics)
        else floored safe_cap
            (enforce_d_squeeze_stake_floor r stake stake_min metrics c.loss_to_recover)

    -- The stake and the metrics.
    unfoldable pub finish_stake : F → Option (Metrics F) → F × Option (Metrics F)
    finish_stake proposed metrics =
        finish_capped
          (cap_final_stake r soft k proposed c.bankroll c.conviction c.recovery_stress rm metrics)
          metrics
