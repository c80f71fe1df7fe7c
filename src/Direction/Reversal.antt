-- ===== src/Direction/Reversal.antt =====
-- app/src/application/services/direction_error_reversal.py and app/src/domain/math/error_driven_reversal.py: a loss
-- that the model was sure of turns the side of the symbol once.
pub mod Opposite
use aether_quantum_engine.Common.{
  ℕ, ◌+◌, ◌≤◌, String, Bool, true, false, ◌&&◌, ◌||◌, not, Option, none, some, List, [], ◌∷◌,
  if◌then◌else◌, ◌≡◌, refl, arith, ◌==◌, string_eq, nat_eq, leb, ltb, contains, ◌⊎◌, inl, inr,
}
use aether_quantum_engine.Common.Dict.{Dict, get, put, pop, get-pop, get-put}
use aether_quantum_engine.Common.Text.{upper, strip}
use aether_quantum_engine.Common.Float.{Float, nought, one, fmax, fmin}
use aether_quantum_engine.Direction.{TradeDirection, call, name, direction_keys}
use aether_quantum_engine.Direction.Quote.{QuoteMetrics, QuoteConfig, flip_candidate_has_edge}

-- An entry of `_pending_alpha_reversal`.
pub record Armed (F : Type 0) : Type 0 where
  pub brier : F
  pub residual : F
  pub from_dir : String
  pub target_dir : String
  pub armed_cycle : ℕ

-- `_pending_alpha_reversal` and `_active_cycle_id`
pub record Reversals (F : Type 0) : Type 0 where
  pub pending : Dict String (Armed F)
  pub active_cycle : ℕ

-- The configuration that `_get_reversal_config` finds. A missing key has the default of the code.
pub record ReversalConfig (F : Type 0) : Type 0 where
  pub enabled : Option Bool
  pub brier_threshold : Option F
  pub min_conviction : Option F

-- What a flip leaves in the metrics: nothing, `alpha_flip_rejected`, or the fields of `alpha_flip_applied`.
pub data FlipNote (F : Type 0) : Type 0 where
  untouched : FlipNote F
  rejected : FlipNote F
  applied : (brier residual : F) (from_dir to_dir : String) → FlipNote F

abbrev pub or_else : {A : Type 0} → Option A → A → A
or_else none d = d
or_else (some x) d = x

unfoldable pub resolve_target_reversal_direction : String → String
resolve_target_reversal_direction direction =
    let dir_clean = strip (upper direction) in
    if dir_clean == "CALL" then "PUT" else if dir_clean == "PUT" then "CALL" else "PUT"

-- `TradeDirection[target_name]`, or the other side where the name is none.
abbrev pub flipped_to : TradeDirection → String → TradeDirection
flipped_to current target =
    if target == "CALL"
    then call
    else if target == "PUT"
    then TradeDirection.put
    else if name current == "CALL"
    then TradeDirection.put
    else call

-- The entry is from before the last cycle.
abbrev pub is_stale : ℕ → ℕ → Bool
is_stale armed active = ltb 0 armed && ltb (armed + 1) active

module _ {F : Type 0} ⦃f : Float F⦄ where
  open f use {add, sub, mul, le, lt, lit}

  abbrev pub clamped : F → F
  clamped p = fmax nought (fmin one p)

  -- `y`: 1 where the price rose.
  abbrev pub outcome_of : Bool → String → F
  outcome_of won direction =
      if direction == "PUT" then (if won then nought else one) else (if won then one else nought)

  -- The score and the residual. `epsilon ** 2` is the product.
  abbrev pub calculate_trade_brier_score : F → Bool → String → F × F
  calculate_trade_brier_score prob won direction =
      let epsilon = sub (outcome_of won (strip (upper direction))) (clamped prob) in
      (mul epsilon epsilon, epsilon)

  abbrev pub is_error_driven_reversal_armed : F → F → F → F → Bool
  is_error_driven_reversal_armed brier_score prob threshold min_conviction =
      let conviction = fmax (clamped prob) (sub one (clamped prob)) in
      if lt brier_score threshold then false else le min_conviction conviction

  abbrev pub entry_of : Reversals F → F → String → Armed F
  entry_of r prob direction =
      let (brier, eps) = calculate_trade_brier_score prob false direction in
      record {
        brier = brier;
        residual = eps;
        from_dir = direction;
        target_dir = resolve_target_reversal_direction direction;
        armed_cycle = r.active_cycle;
      }

  abbrev pub is_shock : F → String → ReversalConfig F → Bool
  is_shock prob direction cfg =
      is_error_driven_reversal_armed (calculate_trade_brier_score prob false direction).0 prob
        (or_else cfg.brier_threshold (lit 40 2)) (or_else cfg.min_conviction (lit 60 2))

  abbrev pub armed_by : Reversals F → String → F → String → ReversalConfig F → Reversals F
  armed_by r symbol prob direction cfg =
      if is_shock prob direction cfg
      then record r { pending = put symbol (entry_of r prob direction) r.pending }
      else r

  abbrev pub on_loss : Reversals F → String → Option F → String → ReversalConfig F → Reversals F
  on_loss r symbol none direction cfg = r
  on_loss r symbol (some prob) direction cfg =
      if contains (strip (upper direction)) direction_keys
      then armed_by r symbol prob (strip (upper direction)) cfg
      else r

  -- An empty `direction` is a missing one; its clean form is no side either.
  unfoldable pub record_error_reversal_on_settlement :
      Reversals F → String → Bool → Option F → String → ReversalConfig F → Reversals F
  record_error_reversal_on_settlement r symbol won raw_prob direction cfg =
      if won
      then record r { pending = pop symbol r.pending }
      else if not (or_else cfg.enabled true)
      then record r { pending = pop symbol r.pending }
      else on_loss r symbol raw_prob direction cfg

  -- The quote is looked at only where a payout is assumed.
  abbrev pub lacks_edge : QuoteMetrics F → String → Option F → QuoteConfig F → Bool
  lacks_edge m side none exec_cfg = false
  lacks_edge m side (some payout) exec_cfg = not (flip_candidate_has_edge m side payout exec_cfg)

  abbrev pub applied_of :
      Armed F
      → ℕ
      → TradeDirection
      → QuoteMetrics F
      → Option F
      → QuoteConfig F
      → ReversalConfig F
      → TradeDirection × FlipNote F
  applied_of info active current m payout exec_cfg cfg =
      let flipped = flipped_to current (upper info.target_dir) in
      if is_stale info.armed_cycle active
      then (current, untouched)
      else if not (or_else cfg.enabled true)
      then (current, untouched)
      else if lacks_edge m (name flipped) payout exec_cfg
      then (current, rejected)
      else (flipped, applied info.brier info.residual info.from_dir (name flipped))

  abbrev pub consume :
      Reversals F
      → String
      → Option (Armed F)
      → TradeDirection
      → QuoteMetrics F
      → Option F
      → QuoteConfig F
      → ReversalConfig F
      → Reversals F × TradeDirection × FlipNote F
  consume r symbol none current m payout exec_cfg cfg = (r, current, untouched)
  consume r symbol (some info) current m payout exec_cfg cfg =
      let (side, note) = applied_of info r.active_cycle current m payout exec_cfg cfg in
      (record r { pending = pop symbol r.pending }, side, note)

  -- `payout` is `payout_assumed` of the metrics, and `cfg` what `_get_reversal_config` finds.
  unfoldable pub apply_error_reversal_to_direction :
      Reversals F
      → String
      → TradeDirection
      → QuoteMetrics F
      → Option F
      → QuoteConfig F
      → ReversalConfig F
      → Reversals F × TradeDirection × FlipNote F
  apply_error_reversal_to_direction r symbol current m payout exec_cfg cfg =
      consume r symbol (get symbol r.pending) current m payout exec_cfg cfg
