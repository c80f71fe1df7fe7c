-- ===== src/Session/StopWin.antt =====
-- app/src/domain/risk/stop_win_target.py: the target of profit of a session and the test that it is reached.
pub mod Laws
use aether_quantum_engine.Common.{ℕ, Bool, true, false, Option, none, some, if◌then◌else◌}
use aether_quantum_engine.Common.Int.{ℤ, pos}
use aether_quantum_engine.Common.Float.{Float, nought, one, fmax, fmin}

-- What the section `risk_management` holds, `none` for a missing key. The last four are in its `params`.
pub record StopWinConfig (F : Type 0) : Type 0 where
  pub small_account_threshold : Option F
  pub small_account_stop_win : Option F
  pub large_account_stop_win_pct : Option F
  pub compounding_enabled : Option Bool
  pub compounding_rate_daily : Option F
  pub params_session_start_balance : Option F
  pub stop_win_target_tolerance_ratio : Option F

pub record SessionTargets (F : Type 0) : Type 0 where
  pub session_start_balance : F
  pub target_win : F
  pub compounding_rate : F

-- `d.get(key, default)`
abbrev pub or_default {ℓ} : {A : Type ℓ} → Option A → A → A
or_default none default = default
or_default (some a) default = a

module _ {F : Type 0} ⦃f : Float F⦄ where
  open f use {lit, add, mul, div, le, lt, is_finite, floor, of_int}

  -- `max(lo, min(hi, x))`
  abbrev pub clamp : F → F → F → F
  clamp lo hi x = fmax lo (fmin hi x)

  -- `none` is the `OverflowError` of `math.floor` on an infinity. A NaN counts as 0.
  unfoldable pub round_currency : F → Option F
  round_currency value =
      let cents = mul (fmax nought value) (lit 100 0) in
      if is_finite cents then some (div (of_int (floor cents)) (of_int (pos 100))) else none

  unfoldable pub is_compounding_enabled : StopWinConfig F → Bool
  is_compounding_enabled c = or_default c.compounding_enabled false

  unfoldable pub compounding_rate : StopWinConfig F → F
  compounding_rate c = clamp nought one (or_default c.compounding_rate_daily (lit 431 4))

  unfoldable pub small_account_fixed_win : StopWinConfig F → F → Option F
  small_account_fixed_win c start =
      if lt start (or_default c.small_account_threshold (lit 100 0))
      then some (fmax nought (or_default c.small_account_stop_win (lit 10 0)))
      else none

  pub is_small_account : StopWinConfig F → F → Bool
  is_small_account c start = elim (small_account_fixed_win c start) [ none ↦ false | some _ ↦ true ]

  unfoldable pub calculate_session_targets : StopWinConfig F → F → Option (SessionTargets F)
  calculate_session_targets c balance =
      let start = fmax nought balance in
      let rate = compounding_rate c in
      let target = or_default (small_account_fixed_win c start) (mul start rate) in
      elim (round_currency target) [
        | none ↦ none
        | some win ↦
            some
              (record { session_start_balance = start; target_win = win; compounding_rate = rate })
      ]

  unfoldable pub resolve_legacy_stop_win_target : StopWinConfig F → F → Option F
  resolve_legacy_stop_win_target c start =
      let pct = clamp nought (lit 100 0) (or_default c.large_account_stop_win_pct one) in
      elim (small_account_fixed_win c start) [
        | some fixed_win ↦ some fixed_win
        | none ↦ round_currency (div (mul start pct) (lit 100 0))
      ]

  abbrev pub target_of : Option (SessionTargets F) → Option F
  target_of none = none
  target_of (some t) = some t.target_win

  -- A persisted target counts where it is positive.
  abbrev pub persisted : Option F → Option F
  persisted none = none
  persisted (some p) = if lt nought p then some p else none

  unfoldable pub resolve_target : StopWinConfig F → F → Option F → Option F
  resolve_target c start persisted_target =
      if is_compounding_enabled c
      then elim (persisted persisted_target) [
        | some p ↦ round_currency p
        | none ↦ target_of (calculate_session_targets c start)
      ]
      else resolve_legacy_stop_win_target c start

  pub resolve_session_start_balance : F → StopWinConfig F → F
  resolve_session_start_balance live c =
      or_default (persisted c.params_session_start_balance) (fmax nought live)

  abbrev pub tolerance : StopWinConfig F → F
  tolerance c = clamp (lit 80 2) one (or_default c.stop_win_target_tolerance_ratio (lit 98 2))

  unfoldable pub is_stop_win_reached : F → F → StopWinConfig F → Bool
  is_stop_win_reached profit target c =
      let reached = add profit (lit 1 9) in
      if le target nought
      then false
      else if le target reached
      then true
      else le (mul target (tolerance c)) reached
