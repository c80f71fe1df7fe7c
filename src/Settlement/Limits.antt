-- ===== src/Settlement/Limits.antt =====
-- settlement_outcome.py: the session's limits after a settlement.
use aether_quantum_engine.Common.{
  ◌+◌, Bool, true, false, ◌&&◌, ◌||◌, Option, none, some, if◌then◌else◌,
}
use aether_quantum_engine.Common.Float.{Float, nought}
use aether_quantum_engine.Session.StopWin.{StopWinConfig, resolve_target, is_stop_win_reached}
use aether_quantum_engine.Session.State.{
  SessionState, StateManager, session_profit, mirror_balance, save_state, check_session_limits,
}
use aether_quantum_engine.Settlement.{Orchestrator}

module _ {F : Type 0} ⦃f : Float F⦄ where
  open f use {le, lt}

  -- The bankroll and the target, where the session has none yet.
  abbrev pub with_defaults : F → F → SessionState F → SessionState F
  with_defaults bankroll target s = record s {
    initial_balance = if le s.initial_balance nought then bankroll else s.initial_balance;
    daily_stop_win_target =
        if le s.daily_stop_win_target nought then target else s.daily_stop_win_target;
  }

  abbrev pub with_trade : Bool → SessionState F → SessionState F
  with_trade increment s = record s {
    total_trades_today = if increment then s.total_trades_today + 1 else s.total_trades_today;
  }

  -- The sum of the session with the balance, and the test of the target with its tolerance.
  abbrev pub sync_manager : StopWinConfig F → F → F → F → Bool → StateManager F → StateManager F
  sync_manager c balance bankroll target increment m =
      let mirrored = mirror_balance m balance in
      let counted = record mirrored {
        state = with_trade increment (with_defaults bankroll target mirrored.state);
      } in
      let checked = check_session_limits counted in
      record checked {
        state = record checked.state {
          stop_win_triggered =
              is_stop_win_reached (session_profit checked.state) target c
              || checked.state.stop_win_triggered;
        };
      }

  abbrev pub sync_optional :
      Option (StateManager F) → StopWinConfig F → F → F → F → Bool → Option (StateManager F) × Bool
  sync_optional none c balance bankroll target increment = (none, false)
  sync_optional (some m) c balance bankroll target increment =
      let synced = sync_manager c balance bankroll target increment m in
      (some synced, synced.state.stop_win_triggered)

  unfoldable pub sync_state_manager_session : Orchestrator F → F → Bool → Orchestrator F × Bool
  sync_state_manager_session o target increment_trades =
      let (m, triggered) =
        sync_optional o.state_mgr o.stop_win o.balance o.risk_manager.initial_bankroll target
          increment_trades in
      (record o { state_mgr = m }, triggered)

  abbrev pub saved : Option (StateManager F) → Option (StateManager F)
  saved none = none
  saved (some m) = some (save_state m)

  -- `target > 0 and is_stop_win_reached(pnl, target)`
  abbrev pub reached_without_manager : Orchestrator F → F → F → Bool
  reached_without_manager o target pnl =
      lt nought target && is_stop_win_reached pnl target o.stop_win

  unfoldable pub update_state_manager_and_check_stop_win :
      Orchestrator F → F → F → Orchestrator F × Bool
  update_state_manager_and_check_stop_win o target pnl =
      let (synced, triggered) = sync_state_manager_session o target true in
      elim o.state_mgr [
        | none ↦ (synced, reached_without_manager o target pnl)
        | some _ ↦ (record synced { state_mgr = saved synced.state_mgr }, triggered)
      ]

  -- `none` where the target is not finite, where `_round_currency` raises.
  unfoldable pub check_session_limits_before_post_settlement :
      Orchestrator F → Option (Orchestrator F × Bool)
  check_session_limits_before_post_settlement o =
      let pnl = o.risk_manager.total_session_profit in
      elim (resolve_target o.stop_win o.risk_manager.initial_bankroll none) [
        | none ↦ none
        | some target ↦
            let (synced, triggered) = sync_state_manager_session o target false in
            some (synced, reached_without_manager o target pnl || triggered)
      ]
