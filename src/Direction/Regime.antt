-- ===== src/Direction/Regime.antt =====
-- app/src/domain/trading/elastic_regime.py: the regime of the market, and the side that it makes of a signal.
use aether_quantum_engine.Common.{
  String, Bool, true, false, ◌&&◌, ◌||◌, if◌then◌else◌, ◌≡◌, refl, arith, ◌==◌, string_eq, contains,
  Bool-cases, inl, inr,
}
use aether_quantum_engine.Common.Text.{upper, strip}
use aether_quantum_engine.Common.Float.{Float, nought, fabs}
use aether_quantum_engine.Direction.{direction_keys}
use aether_quantum_engine.Direction.LossTracker.{opposite_key}

pub data MarketRegime : Type 0 where
  strong_trend moderate_trend ranging exhaustion : MarketRegime

module _ {F : Type 0} ⦃f : Float F⦄ where
  open f use {lit, le, lt}

  -- The indicators are numbers: for anything else the code takes 0, and 50 for the RSI.
  pub classify_market_regime : F → F → F → F → MarketRegime
  classify_market_regime adx spread rsi recuo =
      if (lt (lit 75 0) rsi || lt rsi (lit 25 0)) || lt (lit 2 0) recuo
      then exhaustion
      else if le (lit 22 0) adx || lt (lit 1 2) (fabs spread)
      then strong_trend
      else if le (lit 18 0) adx && lt adx (lit 22 0)
      then moderate_trend
      else if lt nought adx && lt adx (lit 18 0)
      then ranging
      else moderate_trend

-- `str(side).upper().strip()`
abbrev pub clean : String → String
clean s = strip (upper s)

abbrev pub is_aligned : String → String → Bool
is_aligned trend side = (trend == "ALTA" && side == "CALL") || (trend == "BAIXA" && side == "PUT")

-- The side, the reason, and whether the side was turned.
abbrev pub evaluate_valid : String → String → MarketRegime → Bool → String × String × Bool
evaluate_valid side trend strong_trend has_loss_reversal =
    if is_aligned trend side
    then (side, "TREND_ALIGNED_DIRECT", false)
    else if has_loss_reversal
    then (opposite_key side, "REVERSAL_ON_LOSS", true)
    else (side, "BASE_SIGNAL_DIRECT", false)
evaluate_valid side trend exhaustion has_loss_reversal =
    (opposite_key side, "ELASTIC_EXHAUSTION_INVERTED", true)
evaluate_valid side trend ranging has_loss_reversal =
    if has_loss_reversal
    then (opposite_key side, "REVERSAL_ON_LOSS", true)
    else (opposite_key side, "LATERAL_FADE_INVERTED", true)
evaluate_valid side trend moderate_trend has_loss_reversal =
    if has_loss_reversal
    then (opposite_key side, "REVERSAL_ON_LOSS", true)
    else (side, "BASE_SIGNAL_DIRECT", false)

pub evaluate_elastic_direction : String → String → MarketRegime → Bool → String × String × Bool
evaluate_elastic_direction original_side trend regime has_loss_reversal =
    let side = clean original_side in
    if contains side direction_keys
    then evaluate_valid side (clean trend) regime has_loss_reversal
    else (side, "INVALID_SIDE", false)

opposite_key-valid : (side : String) → contains (opposite_key side) direction_keys ≡ true
opposite_key-valid side = elim (Bool-cases (side == "CALL")) [
  | inl c ↦ rw c refl
  | inr o ↦ rw o refl
]

valid-flag :
    (side trend : String) (regime : MarketRegime) (reversal : Bool)
    → contains side direction_keys ≡ true
    → let q = evaluate_valid side trend regime reversal in
      (q.0 ≡ (if q.2 then opposite_key side else side))
      × (contains q.0 direction_keys ≡ true)
      × (reversal ≡ true → q.2 ≡ false → regime ≡ strong_trend)
valid-flag side trend strong_trend reversal h = ground (arith, opposite_key-valid side)
valid-flag side trend moderate_trend reversal h = ground (arith, opposite_key-valid side)
valid-flag side trend ranging reversal h = ground (arith, opposite_key-valid side)
valid-flag side trend exhaustion reversal h = ground (arith, opposite_key-valid side)

-- In every regime the side of a CALL or a PUT stays a CALL or a PUT, it is the opposite one exactly where the answer
-- says that it was turned, and a reversal on a loss is passed over only in a strong trend. Any other side is answered
-- as it is.
pub evaluate_elastic_direction-flag :
    (original trend : String) (regime : MarketRegime) (reversal : Bool)
    → let side = clean original in
      let q = evaluate_elastic_direction original trend regime reversal in
      (q.0 ≡ (if q.2 then opposite_key side else side))
      × (contains q.0 direction_keys ≡ contains side direction_keys)
      × (contains side direction_keys ≡ true
          → reversal ≡ true
          → q.2 ≡ false
          → regime ≡ strong_trend)
unfolding evaluate_elastic_direction
evaluate_elastic_direction-flag original trend regime reversal =
    elim (Bool-cases (contains (clean original) direction_keys)) [
      | inl valid ↦
          let (a, b, c) = valid-flag (clean original) (clean trend) regime reversal valid in
          rw valid (a, b, λ _ r n. c r n)
      | inr invalid ↦ rw invalid (refl, invalid, λ e r n. ground arith)
    ]
