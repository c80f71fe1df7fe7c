-- ===== src/Stake.antt =====
-- app/src/domain/risk/soft_recovery_policy.py: the policy of the soft recovery, with the functions of
-- consensus_stake_penalty.py, consensus_stake_helpers.py and soft_recovery_config.py beside it that give the safe
-- stake. Reading and merging the settings is not modelled: what they hold is an argument.
pub mod Sizing
pub mod Metrics
pub mod Caps
pub mod Finish
use aether_quantum_engine.Common.{
  ℕ, ◌+◌, ◌-◌, min, max, Bool, true, false, not, ◌&&◌, ◌||◌, Option, none, some, if◌then◌else◌, leb,
}
use aether_quantum_engine.Common.Float.{Float, nought, one, fmax, fmin}

-- What `soft_cfg` gives. The last two are the `max_safe_stake_cap` of the caller's own block, where it has a number,
-- and the `max_safe_stake_pct` of the settings.
pub record SoftRecovery (F : Type 0) : Type 0 where
  pub max_safe_stake_pct : F
  pub max_safe_stake_pct_linear2 : F
  pub max_safe_stake_pct_linear3 : F
  pub amort_cycles_min : ℕ
  pub amort_cycles_max : ℕ
  pub micro_residual_bankroll_max : F
  pub micro_residual_pending_max : F
  pub micro_residual_pending_pct : F
  pub small_account_hard_floor_threshold : F
  pub small_account_hard_floor_pct : F
  pub material_pending_min : F
  pub cover_multiple : F
  pub pending_waives_scale_explore : Bool
  pub own_max_safe_stake_cap : Option F
  pub settings_max_safe_stake_pct : F

-- What is read of the settings' sections `recovery_state` and `kelly`.
pub record Runtime (F : Type 0) : Type 0 where
  pub recovery_micro_bankroll_threshold : F
  pub micro_tail_linear_level : ℕ
  pub micro_tail_unit_multiplier : F
  pub micro_bankroll_threshold : F
  pub micro_bankroll_pct : F
  pub neutral_bankroll_pct : F
  pub d_squeeze_sovereign_trade_score : F

module _ {F : Type 0} where
  -- The cycles over which a loss is recovered.
  unfoldable pub resolve_amort_cycles : ℕ → SoftRecovery F → ℕ
  resolve_amort_cycles losses c =
      let amin = max 1 c.amort_cycles_min in
      let amax = max amin c.amort_cycles_max in
      max amin (min amax (amax - min losses (amax - amin)))

module _ {F : Type 0} ⦃f : Float F⦄ where
  open f use {lit, add, mul, div, le, lt, of_int}

  unfoldable pub is_micro_residual_liability : F → F → SoftRecovery F → Bool
  is_micro_residual_liability bal pending c =
      if le bal nought || le pending nought
      then false
      else if lt c.micro_residual_bankroll_max bal
      then false
      else if lt c.micro_residual_pending_max pending
      then false
      else lt pending (mul c.micro_residual_pending_pct bal)

  unfoldable pub pending_waives_scale_explore : F → SoftRecovery F → Bool
  pending_waives_scale_explore pending c =
      if not c.pending_waives_scale_explore
      then false
      else le c.material_pending_min (add pending (lit 1 12))

  unfoldable pub configured_max_safe_stake_cap : SoftRecovery F → Option F
  configured_max_safe_stake_cap c = elim c.own_max_safe_stake_cap [
    | none ↦ none
    | some value ↦ if lt nought value then some value else none
  ]

  unfoldable pub configured_max_safe_stake_pct : SoftRecovery F → F
  configured_max_safe_stake_pct c =
      if le c.max_safe_stake_pct nought
      then c.settings_max_safe_stake_pct
      else fmin c.max_safe_stake_pct one

  unfoldable pub apply_small_account_hard_floor : F → F → SoftRecovery F → F
  apply_small_account_hard_floor cap bankroll c =
      let bal = fmax nought bankroll in
      if le bal nought || le c.small_account_hard_floor_threshold bal
      then cap
      else fmin cap (mul bal c.small_account_hard_floor_pct)

  unfoldable pub neutral_edge_dynamic_unit : Runtime F → F → F
  neutral_edge_dynamic_unit r bankroll =
      let pct =
        if le bankroll r.micro_bankroll_threshold
        then r.micro_bankroll_pct
        else r.neutral_bankroll_pct in
      mul (fmax nought bankroll) pct

  abbrev pub or_tail : Option F → F → F
  or_tail none tail = tail
  or_tail (some cap) tail = cap

  -- The share of the balance, smaller after two losses and again after three.
  abbrev pub safe_pct : SoftRecovery F → ℕ → F
  safe_pct c linear =
      let pct = configured_max_safe_stake_pct c in
      if leb 3 linear
      then fmin pct c.max_safe_stake_pct_linear3
      else if leb 2 linear
      then fmin pct c.max_safe_stake_pct_linear2
      else pct

  unfoldable pub max_safe_stake_cap : Runtime F → SoftRecovery F → F → ℕ → F
  max_safe_stake_cap r c bankroll linear =
      let bal = fmax nought bankroll in
      let tail = mul r.micro_tail_unit_multiplier (neutral_edge_dynamic_unit r bal) in
      if le bal r.recovery_micro_bankroll_threshold && leb r.micro_tail_linear_level linear
      then apply_small_account_hard_floor (or_tail (configured_max_safe_stake_cap c) tail) bal c
      else apply_small_account_hard_floor (mul bal (safe_pct c linear)) bal c
