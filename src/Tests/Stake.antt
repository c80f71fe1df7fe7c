-- ===== src/Tests/Stake.antt =====
-- A stake on its way through the caps, and a manager that is saved and restored.
use aether_quantum_engine.Common.{true, false, none, some, [], ◌≡◌, refl, ◌⊎◌, string_eq}
use aether_quantum_engine.Common.Int.{ℤ, pos, ◌*ℤ◌, floor_div}
use aether_quantum_engine.Common.Float.{nought, ◌≼◌, ◌≺◌, or_nought}
use aether_quantum_engine.Common.Float.Fixed.{fixed, fixed-IsIeee}
use aether_quantum_engine.Risk.{RiskManager}
use aether_quantum_engine.Risk.Snapshot.{
  build_risk_state_snapshot, apply_risk_snapshot, apply-build,
}
use aether_quantum_engine.Stake.{
  SoftRecovery, Runtime, resolve_amort_cycles, max_safe_stake_cap, configured_max_safe_stake_pct,
  apply_small_account_hard_floor,
}
use aether_quantum_engine.Stake.Metrics.{Metrics}
use aether_quantum_engine.Stake.Sizing.{KellyConfig, Regime}
use aether_quantum_engine.Stake.Finish.{Cycle, finish_stake}
use aether_quantum_engine.Stake.Finish.Bounds.{finish_stake-le_max}
use aether_quantum_engine.Stake.Finish.Provisional.{trial_cap, finish_stake-le_trial}
use aether_quantum_engine.Stake.Caps.{safe_cap_of}
use aether_quantum_engine.Stake.Finish.SafeCap.{finish_stake-le_safe}
use aether_quantum_engine.Stake.Finish.Nonneg.{finish_stake_nonneg}
use aether_quantum_engine.Tests.Data.{negative, dollars, risk}

abbrev runtime : Runtime ℤ
runtime = record {
  recovery_micro_bankroll_threshold = dollars 100;
  micro_tail_linear_level = 3;
  micro_tail_unit_multiplier = dollars 4;
  micro_bankroll_threshold = dollars 100;
  micro_bankroll_pct = pos 20_000;
  neutral_bankroll_pct = pos 10_000;
  d_squeeze_sovereign_trade_score = pos 530_000;
}

abbrev soft : SoftRecovery ℤ
soft = record {
  max_safe_stake_pct = pos 100_000;
  max_safe_stake_pct_linear2 = pos 80_000;
  max_safe_stake_pct_linear3 = pos 60_000;
  amort_cycles_min = 1;
  amort_cycles_max = 4;
  micro_residual_bankroll_max = dollars 100;
  micro_residual_pending_max = dollars 1;
  micro_residual_pending_pct = pos 10_000;
  small_account_hard_floor_threshold = dollars 100;
  small_account_hard_floor_pct = pos 50_000;
  material_pending_min = dollars 1;
  cover_multiple = dollars 1;
  pending_waives_scale_explore = true;
  own_max_safe_stake_cap = none;
  settings_max_safe_stake_pct = pos 100_000;
}

-- At least 3% of the balance and at most 8 dollars.
abbrev kelly : KellyConfig ℤ
kelly = record {
  min_stake_pct = some (pos 30_000);
  max_stake = some (dollars 8);
  max_stake_pct = some (pos 50_000);
  max_stake_pct_high_conviction = none;
  high_conviction_stake_threshold = none;
  max_bankroll_stake_fraction = none;
  mandatory_weak_max_stake_pct = none;
  stop_win_kelly_min_conviction = none;
  stop_win_kelly_conviction_strong = none;
  stop_win_kelly_min_fraction = none;
  stop_win_kelly_max_fraction = none;
}

abbrev cycle : Cycle ℤ
cycle = record {
  bankroll = dollars 200;
  conviction = pos 600_000;
  loss_to_recover = dollars 4;
  stake_regime = Regime.recover;
  is_dalembert = true;
  recovery_stress = true;
  mandatory_flag = false;
  mandatory_blocked = false;
  dl_execute = true;
}

abbrev on_trial : Metrics ℤ
on_trial = record {
  recovery_cap_mode = none;
  gate_verdict = none;
  scale_discordance = false;
  scale_adapted = false;
  scale_max_stake_pct = none;
  loss_clf_soft = false;
  loss_clf_soft_max_stake_pct = none;
  cal_margin_soft = false;
  mini_pair_soft = false;
  regime_chop_soft = false;
  fusion_weak_ev_soft = false;
  anti_loss_soft = false;
  micro_discord_follow_soft = false;
  soft_signal_max_stake_pct = none;
  soft_size_stake_floor_applied = false;
  neg_edge_tcn_cal_edge = none;
  edge = none;
  cal_edge = none;
  payoff_edge = none;
  cal_side_edge = none;
  meta_squeeze_downgrade = false;
  consensus_stake_floor = false;
  trade_score = some (pos 600_000);
  conviction = none;
  deploy_provisional = true;
  provisional_max_stake_pct = some (pos 50_000);
  d_squeeze_floor_waived_for_recovery = false;
  d_squeeze_floor_waived_for_soft_size = false;
  d_squeeze_recovery_waiver_revoked = false;
  min_stake_pct_floor_applied = false;
  min_stake_pct_floor = none;
  provisional_stake_cap_applied = false;
}

amortised : resolve_amort_cycles 2 soft ≡ 2
unfolding resolve_amort_cycles
amortised = refl

finish_stake-le_max_example :
    (finish_stake runtime soft kelly risk cycle (dollars 30) none).0 ≼ or_nought kelly.max_stake
finish_stake-le_max_example =
    finish_stake-le_max fixed-IsIeee runtime soft kelly risk cycle (dollars 30) none refl refl refl

finish_stake-le_trial_example :
    ((finish_stake runtime soft kelly risk cycle (dollars 30) (some on_trial)).0 ≡ nought)
    ⊎ ((finish_stake runtime soft kelly risk cycle (dollars 30) (some on_trial)).0
        ≼ trial_cap (dollars 200))
finish_stake-le_trial_example =
    finish_stake-le_trial fixed-IsIeee runtime soft kelly risk cycle (dollars 30) (some on_trial)
      refl refl refl refl refl

-- A stake below 0 is proposed.
finish_stake_nonneg_example :
    nought ≼ (finish_stake runtime soft kelly risk cycle (negative 3) (some on_trial)).0
finish_stake_nonneg_example =
    finish_stake_nonneg fixed-IsIeee runtime soft kelly risk cycle (negative 3) (some on_trial) refl
      refl refl refl

safe_cap_above : ◌≺◌ {F = ℤ} nought (safe_cap_of runtime soft cycle.bankroll risk none)
unfolding max_safe_stake_cap configured_max_safe_stake_pct apply_small_account_hard_floor ◌*ℤ◌
    floor_div
safe_cap_above = refl

finish_stake-le_safe_example :
    (finish_stake runtime soft kelly risk cycle (dollars 30) none).0
    ≼ safe_cap_of runtime soft cycle.bankroll risk none
finish_stake-le_safe_example =
    finish_stake-le_safe fixed-IsIeee runtime soft kelly risk cycle (dollars 30) none safe_cap_above
      refl refl refl refl

abbrev fresh : RiskManager ℤ
fresh = record risk {
  pending_loss = [];
  consecutive_losses_linear = 0;
  contract_stakes = [];
  contract_requested_stakes = [];
  active_contract_ids = [];
  contract_to_symbol = [];
}

abbrev lost_before : RiskManager ℤ
lost_before = record risk { last_loss_symbol = some "R_100" }

apply-build_example :
    let after = apply_risk_snapshot fresh (build_risk_state_snapshot lost_before) in
    (build_risk_state_snapshot after ≡ build_risk_state_snapshot lost_before)
    × (after.pending_loss ≡ lost_before.pending_loss)
    × (after.active_contract_ids ≡ fresh.active_contract_ids)
    × (after.contract_stakes ≡ fresh.contract_stakes)
apply-build_example = apply-build lost_before fresh refl refl
