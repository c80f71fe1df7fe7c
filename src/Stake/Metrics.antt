-- ===== src/Stake/Metrics.antt =====
-- What the sizing of stakes reads and writes of the metrics of a cycle.
use aether_quantum_engine.Common.{String, Bool, Option}

-- `none` for a missing value, or for one that `float` refuses. The last six are only written.
pub record Metrics (F : Type 0) : Type 0 where
  pub recovery_cap_mode : Option String
  pub gate_verdict : Option String
  pub scale_discordance : Bool
  pub scale_adapted : Bool
  pub scale_max_stake_pct : Option F
  pub loss_clf_soft : Bool
  pub loss_clf_soft_max_stake_pct : Option F
  pub cal_margin_soft : Bool
  pub mini_pair_soft : Bool
  pub regime_chop_soft : Bool
  pub fusion_weak_ev_soft : Bool
  pub anti_loss_soft : Bool
  pub micro_discord_follow_soft : Bool
  pub soft_signal_max_stake_pct : Option F
  pub soft_size_stake_floor_applied : Bool
  pub neg_edge_tcn_cal_edge : Option F
  pub edge : Option F
  pub cal_edge : Option F
  pub payoff_edge : Option F
  pub cal_side_edge : Option F
  pub meta_squeeze_downgrade : Bool
  pub consensus_stake_floor : Bool
  pub trade_score : Option F
  pub conviction : Option F
  pub deploy_provisional : Bool
  pub provisional_max_stake_pct : Option F
  pub d_squeeze_floor_waived_for_recovery : Bool
  pub d_squeeze_floor_waived_for_soft_size : Bool
  pub d_squeeze_recovery_waiver_revoked : Bool
  pub min_stake_pct_floor_applied : Bool
  pub min_stake_pct_floor : Option F
  pub provisional_stake_cap_applied : Bool
