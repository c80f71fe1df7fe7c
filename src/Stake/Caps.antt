-- ===== src/Stake/Caps.antt =====
-- The caps of app/src/domain/risk/risk_stake_calc_helpers.py, and those of checkpoint_stake_cap.py,
-- stake_target_proximity.py and consensus_stake_penalty.py beside it.
use aether_quantum_engine.Common.{
  Bool, true, false, not, ◌||◌, Option, none, some, if◌then◌else◌, ◌==◌, string_eq,
}
use aether_quantum_engine.Common.Dict.{get_default}
use aether_quantum_engine.Common.Text.{upper, strip}
use aether_quantum_engine.Common.Float.{Float, nought, one, fmax, fmin, fabs, or_nought}
use aether_quantum_engine.Risk.{RiskManager}
use aether_quantum_engine.Stake.{
  SoftRecovery, Runtime, pending_waives_scale_explore, configured_max_safe_stake_pct,
  apply_small_account_hard_floor, max_safe_stake_cap,
}
use aether_quantum_engine.Stake.Metrics.{Metrics}
use aether_quantum_engine.Stake.Sizing.{KellyConfig, Regime, value_or, truthy_or, up_to}

module _ {F : Type 0} ⦃f : Float F⦄ where
  open f use {lit, add, sub, mul, le, lt}

  abbrev pub stake_min_of : RiskManager F → F
  stake_min_of rm = get_default "stake_min" one rm.config.risk_params

  -- With the fractions 0.25 and 0.50.
  unfoldable pub apply_session_profit_lock : F → F → F → F → F → F
  apply_session_profit_lock stake_raw target current_pnl peak_session_profit stake_min =
      let peak = fmax peak_session_profit current_pnl in
      let locked_profit = mul target (lit 25 2) in
      if le target nought
      then stake_raw
      else if lt (add peak (lit 1 9)) (mul target (lit 50 2))
      then stake_raw
      else if lt locked_profit current_pnl
      then fmin stake_raw (fmax stake_min (sub current_pnl locked_profit))
      else fmin stake_raw stake_min

  abbrev pub covers_l0 : Option (Metrics F) → Bool
  covers_l0 none = false
  covers_l0 (some m) = elim m.recovery_cap_mode [ none ↦ false | some mode ↦ mode == "cover_l0" ]

  abbrev pub safe_cap_of : Runtime F → SoftRecovery F → F → RiskManager F → Option (Metrics F) → F
  safe_cap_of r soft bankroll rm metrics =
      if covers_l0 metrics
      then apply_small_account_hard_floor (mul bankroll (configured_max_safe_stake_pct soft))
          bankroll soft
      else max_safe_stake_cap r soft bankroll rm.consecutive_losses_linear

  abbrev pub pct_cap_of : KellyConfig F → F → F → F
  pct_cap_of k bankroll conviction =
      let max_pct = truthy_or k.max_stake_pct (lit 35 3) in
      let threshold = value_or k.high_conviction_stake_threshold (lit 101 2) in
      let pct =
        if le threshold (add conviction (lit 1 9))
        then truthy_or k.max_stake_pct_high_conviction max_pct
        else max_pct in
      fmax nought (mul bankroll pct)

  -- The stake and the safe cap.
  unfoldable pub cap_final_stake :
      Runtime F
      → SoftRecovery F
      → KellyConfig F
      → F
      → F
      → F
      → Bool
      → RiskManager F
      → Option (Metrics F)
      → F × F
  cap_final_stake r soft k final_stake bankroll conviction recovery_stress rm metrics =
      let safe_cap = safe_cap_of r soft bankroll rm metrics in
      let pct_cap = pct_cap_of k bankroll conviction in
      let under =
        if recovery_stress
        then fmin final_stake safe_cap
        else fmin (fmin final_stake safe_cap) pct_cap in
      let capped = up_to (or_nought k.max_stake) under in
      let locked =
        apply_session_profit_lock capped rm.daily_stop_win_target rm.total_session_profit
          rm.peak_session_profit (stake_min_of rm) in
      (if lt nought rm.daily_stop_win_target then locked else capped, safe_cap)

  unfoldable pub apply_mandatory_weak_explore_cap : F → F → Regime → Bool → Bool → KellyConfig F → F
  apply_mandatory_weak_explore_cap final_stake bankroll Regime.recover mandatory_flag dl_execute k =
      final_stake
  apply_mandatory_weak_explore_cap final_stake bankroll Regime.explore mandatory_flag dl_execute k =
      let weak_pct = or_nought k.mandatory_weak_max_stake_pct in
      if not mandatory_flag || dl_execute
      then final_stake
      else if le weak_pct nought
      then final_stake
      else fmin final_stake (fmax nought (mul bankroll weak_pct))

  abbrev pub up_to_pct : F → F → Option F → F
  up_to_pct final_stake bankroll none = final_stake
  up_to_pct final_stake bankroll (some pct) = fmin final_stake (fmax nought (mul bankroll pct))

  abbrev pub up_to_positive_pct : F → F → Option F → F
  up_to_positive_pct final_stake bankroll none = final_stake
  up_to_positive_pct final_stake bankroll (some pct) =
      if le pct nought then final_stake else fmin final_stake (fmax nought (mul bankroll pct))

  unfoldable pub apply_scale_stake_cap : F → F → Option (Metrics F) → F → SoftRecovery F → F
  apply_scale_stake_cap final_stake bankroll none pending soft = final_stake
  apply_scale_stake_cap final_stake bankroll (some m) pending soft =
      if pending_waives_scale_explore pending soft
      then final_stake
      else if not (m.scale_discordance || m.scale_adapted)
      then final_stake
      else up_to_pct final_stake bankroll m.scale_max_stake_pct

  unfoldable pub apply_loss_clf_soft_stake_cap : F → F → Option (Metrics F) → F → SoftRecovery F → F
  apply_loss_clf_soft_stake_cap final_stake bankroll none pending soft = final_stake
  apply_loss_clf_soft_stake_cap final_stake bankroll (some m) pending soft =
      if not m.loss_clf_soft
      then final_stake
      else if pending_waives_scale_explore pending soft
      then final_stake
      else up_to_positive_pct final_stake bankroll m.loss_clf_soft_max_stake_pct

  abbrev pub has_soft_signal : Metrics F → Bool
  has_soft_signal m =
      m.loss_clf_soft
      || (m.cal_margin_soft
          || (m.mini_pair_soft
              || (m.regime_chop_soft || (m.fusion_weak_ev_soft || m.anti_loss_soft))))

  unfoldable pub apply_signal_soft_stake_cap : F → F → Option (Metrics F) → F → SoftRecovery F → F
  apply_signal_soft_stake_cap final_stake bankroll none pending soft = final_stake
  apply_signal_soft_stake_cap final_stake bankroll (some m) pending soft =
      if not (has_soft_signal m)
      then final_stake
      else if pending_waives_scale_explore pending soft
      then final_stake
      else up_to_positive_pct final_stake bankroll m.soft_signal_max_stake_pct

  unfoldable pub apply_post_kelly_stake_caps : F → F → Option (Metrics F) → F → SoftRecovery F → F
  apply_post_kelly_stake_caps final_stake bankroll metrics pending soft =
      let scaled = apply_scale_stake_cap final_stake bankroll metrics pending soft in
      let capped = apply_loss_clf_soft_stake_cap scaled bankroll metrics pending soft in
      apply_signal_soft_stake_cap capped bankroll metrics pending soft

  unfoldable pub checkpoint_stake_cap_pct : Metrics F → F
  checkpoint_stake_cap_pct m = fmin (lit 1 2) (fmax nought (or_nought m.provisional_max_stake_pct))

  unfoldable pub cap_provisional_stake : F → F → Option (Metrics F) → F → F × Option (Metrics F)
  cap_provisional_stake final_stake bankroll none safe_cap = (final_stake, none)
  cap_provisional_stake final_stake bankroll (some m) safe_cap =
      let capped = fmin final_stake (mul bankroll (checkpoint_stake_cap_pct m)) in
      let out = if lt nought safe_cap then fmin capped safe_cap else capped in
      if not m.deploy_provisional
      then (final_stake, some m)
      else (out, some (record m { provisional_stake_cap_applied = true }))

  -- `str(metrics.get("gate_verdict") or "").strip().upper() == "SOFT_SIZE"`, or one of the flags.
  unfoldable pub blocks_single_strike_boost : Metrics F → Bool
  blocks_single_strike_boost m =
      let verdict = upper (strip (value_or m.gate_verdict "")) in
      (verdict == "SOFT_SIZE") || (has_soft_signal m || m.micro_discord_follow_soft)

  abbrev pub or_else : Option F → Option F → Option F
  or_else none next = next
  or_else (some edge) next = some edge

  abbrev pub soft_size_cycle_edge : Metrics F → Option F
  soft_size_cycle_edge m =
      or_else m.neg_edge_tcn_cal_edge
        (or_else m.edge (or_else m.cal_edge (or_else m.payoff_edge m.cal_side_edge)))

  -- With the smallest edge 0.015.
  unfoldable pub soft_size_waives_d_squeeze_floor : Metrics F → Bool
  soft_size_waives_d_squeeze_floor m =
      if not (blocks_single_strike_boost m)
      then false
      else if m.soft_size_stake_floor_applied
      then true
      else elim (soft_size_cycle_edge m) [
        | none ↦ false
        | some edge ↦ le (lit 15 3) (add edge (lit 1 12))
      ]

  unfoldable pub d_squeeze_sovereignty_active : Runtime F → Metrics F → Bool
  d_squeeze_sovereignty_active r m =
      let score = value_or m.trade_score (value_or m.conviction (f.neg one)) in
      if m.meta_squeeze_downgrade || m.consensus_stake_floor
      then true
      else lt (fabs (sub score r.d_squeeze_sovereign_trade_score)) (lit 1 6)

  unfoldable pub enforce_d_squeeze_stake_floor :
      Runtime F → F → F → Option (Metrics F) → F → F × Option (Metrics F)
  enforce_d_squeeze_stake_floor r final_stake stake_min none pending = (final_stake, none)
  enforce_d_squeeze_stake_floor r final_stake stake_min (some m) pending =
      if not (d_squeeze_sovereignty_active r m)
      then (final_stake, some m)
      else if lt nought pending
      then (final_stake, some (record m { d_squeeze_floor_waived_for_recovery = true }))
      else if soft_size_waives_d_squeeze_floor m
      then (final_stake, some (record m { d_squeeze_floor_waived_for_soft_size = true }))
      else (stake_min, some (record m { d_squeeze_recovery_waiver_revoked = true }))
