-- ===== src/Settlement/Barrier.antt =====
-- session_persistence_barrier.py: what is saved where a cluster ended with a reset of the linear recovery.
use aether_quantum_engine.Common.{String, false, not, Option, none, some, if◌then◌else◌, keep_if}
use aether_quantum_engine.Common.Float.{Float, nought}
use aether_quantum_engine.Risk.{RiskManager}
use aether_quantum_engine.Session.State.{
  StateManager, mirror_balance, save_state, check_session_limits,
}
use aether_quantum_engine.Settlement.{Orchestrator, full_state_persisted, emit}
use aether_quantum_engine.Settlement.Limits.{with_defaults}

module _ {F : Type 0} ⦃f : Float F⦄ where
  open f use {le}

  -- `_finalize_linear_reset_risk_state`
  abbrev pub finalize_linear_reset_risk_state : RiskManager F → RiskManager F
  finalize_linear_reset_risk_state rm = record rm {
    consecutive_losses_linear = 0;
    last_loss_stake = nought;
    pending_loss = keep_if (λ (e : String × F). not (le e.1 nought)) rm.pending_loss;
  }

  abbrev pub snapshot : Option (StateManager F) → F → F → F → Option (StateManager F)
  snapshot none balance bankroll target = none
  snapshot (some m) balance bankroll target =
      let mirrored = mirror_balance m balance in
      let filled = record mirrored { state = with_defaults bankroll target mirrored.state } in
      some (save_state (check_session_limits filled))

  -- `_persist_session_state_snapshot`. The target is that of the handler: it is computed again here from the same
  -- configuration and bankroll.
  abbrev pub persist_session_state_snapshot : F → Orchestrator F → Orchestrator F
  persist_session_state_snapshot target o = record o {
    state_mgr = snapshot o.state_mgr o.balance o.risk_manager.initial_bankroll target;
  }

  abbrev pub run_linear_reset_persistence_barrier : F → Orchestrator F → Orchestrator F
  run_linear_reset_persistence_barrier target o =
      let risk = finalize_linear_reset_risk_state o.risk_manager in
      emit full_state_persisted
        (persist_session_state_snapshot target (record o { risk_manager = risk }))

  -- `_finalize_settlement_persistence`, which consumes the flag.
  abbrev pub finalize_settlement_persistence : F → Orchestrator F → Orchestrator F
  finalize_settlement_persistence target o =
      let consumed = record o {
        risk_manager = record o.risk_manager { linear_reset_occurred = false };
      } in
      if o.risk_manager.linear_reset_occurred
      then run_linear_reset_persistence_barrier target consumed
      else emit full_state_persisted consumed
