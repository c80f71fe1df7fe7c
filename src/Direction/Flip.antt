-- ===== src/Direction/Flip.antt =====
-- `should_anti_trend_lock_flip` of app/src/application/services/direction_loss_tracker.py: when losses or an
-- exhausted move turn the proposed side.
use aether_quantum_engine.Common.{
  ℕ, ◌≤◌, String, Bool, true, false, ◌&&◌, ◌||◌, not, Option, none, some, [], ◌∷◌, if◌then◌else◌,
  ◌≡◌, arith, ◌==◌, string_eq, leb, contains,
}
use aether_quantum_engine.Common.Text.{upper, lower, strip}
use aether_quantum_engine.Common.Float.{Float, nought}
use aether_quantum_engine.Direction.{
  TradeDirection, call, put, multup, multdown, name, direction_keys,
}
use aether_quantum_engine.Direction.LossTracker.{LossTracker, consecutive_losses}

-- The keyword arguments. `none` and the empty text are the same to the code.
pub record FlipContext (F : Type 0) : Type 0 where
  pub pending_loss_total : F
  pub edge : F
  pub prob : F
  pub trend_direction : String
  pub elastic_zeta : F
  pub micro_regime : String
  pub regime_side : String
  pub closed_candle : String
  pub rsi : Option F

abbrev pub is_call : TradeDirection → Bool
is_call call = true
is_call put = false
is_call multup = false
is_call multdown = false

abbrev pub is_put : TradeDirection → Bool
is_put put = true
is_put call = false
is_put multup = false
is_put multdown = false

-- The order of the tests.
abbrev pub flips_by : String → ℕ → Bool → Bool → Bool → Bool → Bool → Bool
flips_by symbol losses forbidden exhausted against pending on_one_loss =
    if symbol == ""
    then false
    else if forbidden
    then false
    else if exhausted
    then true
    else if against
    then true
    else if leb 2 losses
    then true
    else if pending && leb 1 losses
    then on_one_loss
    else false

after_losses :
    (symbol : String) (losses : ℕ) (forbidden exhausted against pending one : Bool)
    → symbol == "" ≡ false
    → 2 ≤ losses
    → flips_by symbol losses forbidden exhausted against pending one ≡ not forbidden
after_losses symbol losses forbidden exhausted against pending one named many = ground arith

without_losses :
    (symbol : String) (losses : ℕ) (forbidden exhausted against pending one : Bool)
    → losses ≡ 0
    → flips_by symbol losses forbidden exhausted against pending one ≡ true
    → exhausted || against ≡ true
without_losses symbol losses forbidden exhausted against pending one few flips = ground arith

module _ {F : Type 0} ⦃f : Float F⦄ where
  open f use {lit, neg, le, lt}

  -- The RSI, on a scale of 0 to 1, forbids a flip at the end of its range that the side already bets on.
  abbrev pub rsi_forbids : TradeDirection → Option F → Bool
  rsi_forbids d none = false
  rsi_forbids d (some r) = (is_call d && le r (lit 30 2)) || (is_put d && le (lit 70 2) r)

  abbrev pub is_exhausted : TradeDirection → F → Bool
  is_exhausted d zeta = (is_call d && lt (lit 2 0) zeta) || (is_put d && lt zeta (neg (lit 2 0)))

  -- The regime is on the other side, and the signal is weak.
  abbrev pub is_against_regime : TradeDirection → FlipContext F → Bool
  is_against_regime d x =
      let regime = lower (strip x.micro_regime) in
      let reg_side = upper (strip x.regime_side) in
      let trend = upper (strip x.trend_direction) in
      let aligned = contains trend direction_keys && trend == name d in
      let prob_floor = if regime == "retraction" && aligned then lit 52 2 else lit 56 2 in
      contains regime ("explosion" ∷ "retraction" ∷ [])
      && (contains reg_side direction_keys
          && (not (reg_side == name d) && (lt x.prob prob_floor && lt x.edge (lit 45 3))))

  -- The answer with one loss and a pending amount.
  abbrev pub flips_on_one_loss : TradeDirection → FlipContext F → Bool
  flips_on_one_loss d x =
      let regime = lower (strip x.micro_regime) in
      let flipped = if is_call d then "PUT" else "CALL" in
      if regime == "chop"
      then false
      else if not (x.closed_candle == "")
          && (upper (strip x.closed_candle) == flipped && contains regime ("" ∷ "chop" ∷ []))
      then false
      else not (le (lit 62 2) x.prob && le (lit 8 2) x.edge)

  unfoldable pub should_anti_trend_lock_flip :
      LossTracker → String → TradeDirection → FlipContext F → Bool
  should_anti_trend_lock_flip t symbol d x =
      flips_by symbol (consecutive_losses t symbol (name d)) (rsi_forbids d x.rsi)
        (is_exhausted d x.elastic_zeta) (is_against_regime d x) (lt nought x.pending_loss_total)
        (flips_on_one_loss d x)

  -- A named symbol with two losses in a row on a side is flipped unless the RSI forbids it.
  should_flip_after_losses :
      (t : LossTracker) (symbol : String) (d : TradeDirection) (x : FlipContext F)
      → symbol == "" ≡ false
      → 2 ≤ consecutive_losses t symbol (name d)
      → should_anti_trend_lock_flip t symbol d x ≡ not (rsi_forbids d x.rsi)
  unfolding should_anti_trend_lock_flip
  should_flip_after_losses t symbol d x named losses =
      after_losses symbol _ (rsi_forbids d x.rsi) _ _ _ (flips_on_one_loss d x) named losses

  -- A flip without any loss on the side comes only of an exhausted move or of a regime on the other side.
  should_flip_without_losses :
      (t : LossTracker) (symbol : String) (d : TradeDirection) (x : FlipContext F)
      → consecutive_losses t symbol (name d) ≡ 0
      → should_anti_trend_lock_flip t symbol d x ≡ true
      → is_exhausted d x.elastic_zeta || is_against_regime d x ≡ true
  unfolding should_anti_trend_lock_flip
  should_flip_without_losses t symbol d x none_lost flips =
      without_losses symbol _ (rsi_forbids d x.rsi) _ _ _ (flips_on_one_loss d x) none_lost flips
