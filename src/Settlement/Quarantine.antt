-- ===== src/Settlement/Quarantine.antt =====
-- settlement_loss_quarantine.py: how long a symbol is kept out after a loss, and the side armed against it.
use aether_quantum_engine.Common.{
  ℕ, ◌+◌, String, ◌&&◌, Option, none, some, if◌then◌else◌, ◌==◌, string_eq, leb, contains,
}
use aether_quantum_engine.Common.Int.{ℤ, pos, ◌+ℤ◌, ◌-ℤ◌, ◌*ℤ◌, leb_ℤ, ltb_ℤ}
use aether_quantum_engine.Common.Dict.{get_default, put, pop}
use aether_quantum_engine.Common.Text.{upper}
use aether_quantum_engine.Common.Float.{Float, nought, fmax}
use aether_quantum_engine.Direction.{name, direction_keys}
use aether_quantum_engine.Direction.LossTracker.{opposite_key}
use aether_quantum_engine.Settlement.{
  Contract, PullbackConfig, LossReversal, Orchestrator, pair_settlement, loss_quarantine_stored,
  emit,
}

-- `str(d).upper()` of the direction of the audit, else the name of the contract's direction.
pub resolve_loss_direction : {F : Type 0} → Option String → Contract F → String
resolve_loss_direction none contract = upper (name contract.direction)
resolve_loss_direction (some d) contract =
    if d == "" then upper (name contract.direction) else upper d

module _ {F : Type 0} ⦃f : Float F⦄ where
  open f use {lit, add, sub, div, le, lt, ceil, of_int}

  -- The end of the candle that `now_ts` is in; a moment on a boundary is in the candle that starts there.
  abbrev pub next_boundary : F → ℕ → ℤ
  next_boundary now_ts period =
      let boundary = ceil (div now_ts (of_int (pos period))) *ℤ pos period in
      if le (of_int boundary) now_ts then boundary +ℤ pos period else boundary

  -- `period_seconds` is not 0, where Python raises ZeroDivisionError.
  pub calculate_loss_cooldown_expiry : PullbackConfig → ℕ → F → F × ℤ
  calculate_loss_cooldown_expiry c consecutive now_ts =
      let candles =
        if leb 2 consecutive
        then c.consecutive_loss_cooldown_candles
        else c.loss_cooldown_candles in
      let whole =
        next_boundary now_ts c.period_seconds +ℤ (candles -ℤ pos 1) *ℤ pos c.period_seconds in
      let expiry_ts = fmax now_ts (sub (of_int whole) (lit 5 0)) in
      let seconds = ceil (sub expiry_ts now_ts) in
      if c.enabled
      then if leb_ℤ candles (pos 0)
        then (nought, pos 0)
        else (expiry_ts, if ltb_ℤ (pos 1) seconds then seconds else pos 1)
      else (add now_ts (lit 900 0), pos 900)

  -- The reversal that a loss on a CALL or a PUT arms.
  abbrev pub arm_reversal : Orchestrator F → String → String → Orchestrator F
  arm_reversal o symbol dir_lost =
      let armed : LossReversal F = record {
        from_dir = dir_lost;
        target_dir = opposite_key dir_lost;
        armed_at = o.wall;
      } in
      if contains dir_lost direction_keys && o.pullback.reversal_on_loss
      then record o { pending_loss_reversals = put symbol armed o.pending_loss_reversals }
      else o

  abbrev pub set_quarantine : Orchestrator F → String → F × ℤ → Orchestrator F
  set_quarantine o symbol (quarantine_ts, ttl) =
      let marked = record o {
        symbol_loss_quarantine = put symbol quarantine_ts o.symbol_loss_quarantine;
      } in
      if lt nought quarantine_ts
      then if o.has_redis then emit (loss_quarantine_stored symbol ttl) marked else marked
      else o

  -- `record_symbol_settlement` of the tracker of pairs, where there is one.
  abbrev pub tell_pair : Orchestrator F → String → F → Orchestrator F
  tell_pair o symbol profit =
      if o.has_pair_tracker then emit (pair_settlement symbol (le nought profit) profit) o else o

  abbrev pub forget_losses : Orchestrator F → String → Orchestrator F
  forget_losses o symbol = record o {
    symbol_consecutive_losses = put symbol 0 o.symbol_consecutive_losses;
    pending_loss_reversals = pop symbol o.pending_loss_reversals;
  }

  abbrev pub count_loss : Orchestrator F → String → Orchestrator F
  count_loss o symbol =
      let losses = get_default symbol 0 o.symbol_consecutive_losses + 1 in
      record o { symbol_consecutive_losses = put symbol losses o.symbol_consecutive_losses }

  abbrev pub keep_out : Orchestrator F → String → String → Orchestrator F
  keep_out o symbol dir_lost =
      let counted = count_loss o symbol in
      let losses = get_default symbol 1 counted.symbol_consecutive_losses in
      set_quarantine (arm_reversal counted symbol dir_lost) symbol
        (calculate_loss_cooldown_expiry o.pullback losses o.wall)

  unfoldable pub handle_settlement_loss_quarantine :
      Orchestrator F → String → Option String → Contract F → F → Orchestrator F
  handle_settlement_loss_quarantine o symbol audit_direction contract profit =
      let told = tell_pair o symbol profit in
      if symbol == ""
      then o
      else if le nought profit
      then forget_losses told symbol
      else keep_out told symbol (resolve_loss_direction audit_direction contract)
