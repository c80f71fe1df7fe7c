-- ===== src/Stake/Sizing.antt =====
-- app/src/domain/risk/stake_sizing.py, with `resolve_max_stake_pct` of stop_win_target.py beside it: the percentages
-- and the smallest stake.
use aether_quantum_engine.Common.{
  Bool, true, not, ◌&&◌, ◌||◌, Option, none, some, if◌then◌else◌, ℕ, leb,
}
use aether_quantum_engine.Common.Float.{Float, nought, one, fmax, fmin, feq, or_nought}
use aether_quantum_engine.Stake.Metrics.{Metrics}

-- What is read of `kelly_config`, `none` for a missing key.
pub record KellyConfig (F : Type 0) : Type 0 where
  pub min_stake_pct : Option F
  pub max_stake : Option F
  pub max_stake_pct : Option F
  pub max_stake_pct_high_conviction : Option F
  pub high_conviction_stake_threshold : Option F
  pub max_bankroll_stake_fraction : Option F
  pub mandatory_weak_max_stake_pct : Option F
  pub stop_win_kelly_min_conviction : Option F
  pub stop_win_kelly_conviction_strong : Option F
  pub stop_win_kelly_min_fraction : Option F
  pub stop_win_kelly_max_fraction : Option F

pub data Regime : Type 0 where
  explore recover : Regime

-- `d.get(key, default)`
abbrev pub value_or {ℓ} : {A : Type ℓ} → Option A → A → A
value_or none default = default
value_or (some a) default = a

module _ {F : Type 0} ⦃f : Float F⦄ where
  open f use {lit, add, sub, mul, div, le, lt, is_finite, floor, ceil, of_int}

  -- `float(d.get(key, default) or default)`
  abbrev pub truthy_or : Option F → F → F
  truthy_or none default = default
  truthy_or (some a) default = if feq a nought then default else a

  unfoldable pub resolve_stake_regime : F → ℕ → Regime
  resolve_stake_regime pending linear =
      if lt nought pending || leb 1 linear then Regime.recover else Regime.explore

  unfoldable pub resolve_max_stake_pct : KellyConfig F → F → F
  resolve_max_stake_pct k conviction =
      let base = value_or k.max_stake_pct (lit 1 2) in
      if le (value_or k.high_conviction_stake_threshold (lit 75 2)) conviction
      then value_or k.max_stake_pct_high_conviction base
      else base

  abbrev pub ceiling_pct : KellyConfig F → F → F
  ceiling_pct k conviction =
      let max_pct = resolve_max_stake_pct k conviction in
      let bankroll_cap = value_or k.max_bankroll_stake_fraction max_pct in
      if lt nought bankroll_cap then fmin max_pct bankroll_cap else max_pct

  -- `max_stake` counts where it is positive.
  abbrev pub up_to : F → F → F
  up_to max_stake stake = if lt nought max_stake then fmin stake max_stake else stake

  unfoldable pub clamp_kelly_stake : F → F → KellyConfig F → F → F
  clamp_kelly_stake bankroll raw_stake k conviction =
      let min_pct = value_or k.min_stake_pct nought in
      let floor_stake = if lt nought min_pct then mul bankroll min_pct else nought in
      let bounded = fmax floor_stake raw_stake in
      let ceiling = ceiling_pct k conviction in
      let under = if lt nought ceiling then fmin bounded (mul bankroll ceiling) else bounded in
      let out = up_to (or_nought k.max_stake) under in if lt nought out then out else nought

  -- In cents; `none` is the OverflowError or ValueError of an infinity or a NaN.
  unfoldable pub round_stake : F → Bool → Option F
  round_stake value recovery_linear =
      let cents = mul value (lit 100 0) in
      let whole = if recovery_linear then ceil cents else floor cents in
      if is_finite cents then some (div (of_int whole) (lit 100 0)) else none

  unfoldable pub conviction_stop_win_weight : F → KellyConfig F → F
  conviction_stop_win_weight conviction k =
      let min_conv = value_or k.stop_win_kelly_min_conviction (lit 50 2) in
      let strong = value_or k.stop_win_kelly_conviction_strong (lit 82 2) in
      let lo_frac = value_or k.stop_win_kelly_min_fraction one in
      let hi_frac = value_or k.stop_win_kelly_max_fraction one in
      let span = fmax (sub strong min_conv) (lit 1 9) in
      let t = div (sub conviction min_conv) span in
      if lt (add conviction (lit 1 9)) min_conv
      then nought
      else if le strong conviction
      then hi_frac
      else add lo_frac (mul t (sub hi_frac lo_frac))

  unfoldable pub finalize_stake_with_min : F → F → F → F → Bool → Bool → F
  finalize_stake_with_min final_stake stake_min bankroll conviction recovery_linear mandatory =
      if lt (add bankroll (lit 1 12)) stake_min
      then nought
      else if le final_stake nought && not mandatory
      then nought
      else if (le (lit 50 2) conviction || (recovery_linear || mandatory))
          && lt final_stake stake_min
      then if le stake_min bankroll then stake_min else nought
      else final_stake

  abbrev pub note_floor : Bool → F → Option (Metrics F) → Option (Metrics F)
  note_floor applied floor none = none
  note_floor applied floor (some m) =
      if applied
      then some (record m { min_stake_pct_floor_applied = true; min_stake_pct_floor = some floor })
      else some m

  -- The stake and the metrics.
  unfoldable pub enforce_min_stake_pct :
      F → F → KellyConfig F → F → Option (Metrics F) → F × Option (Metrics F)
  enforce_min_stake_pct final_stake bankroll k safe_cap metrics =
      let min_pct = or_nought k.min_stake_pct in
      let max_stake = or_nought k.max_stake in
      let floor = up_to max_stake (mul bankroll min_pct) in
      let lifted = up_to max_stake (fmax final_stake floor) in
      let out = if lt nought safe_cap then fmin lifted safe_cap else lifted in
      if le final_stake nought
      then (nought, metrics)
      else if le min_pct nought || le bankroll nought
      then (up_to max_stake final_stake, metrics)
      else (up_to max_stake out, note_floor (lt final_stake (add lifted (lit 1 12))) floor metrics)
