-- ===== src/Settlement/Process.antt =====
-- settlement_logic.py, execution_contract_registration.py, settlement_queue_ops.py and
-- orchestrator_settlement_queue.py: the handlers of purchases and settlements. Each runs under the orchestrator's
-- settlement lock and is one step.
use aether_quantum_engine.Common.{
  ℕ, String, Bool, true, false, ◌&&◌, ◌||◌, Option, none, some, List, [], ◌∷◌, ◌++◌, if◌then◌else◌,
  string_eq, nat_eq, ◌==◌, leb, length, contains, set_add,
}
use aether_quantum_engine.Common.Dict.{get, put, pop, has_key}
use aether_quantum_engine.Common.Float.{Float, nought}
use aether_quantum_engine.Risk.{RiskManager, record_contract_stake}
use aether_quantum_engine.Risk.Pending.{pending_loss_total}
use aether_quantum_engine.Risk.Settlement.{is_tracked}
use aether_quantum_engine.Session.StopWin.{or_default, resolve_target}
use aether_quantum_engine.Settlement.{
  Contract, Payload, Orchestrator, stop_win_metrics, contract_settlement_log,
  order_symbol_claim_released, recovery_released, recovery_skip_reset, queued_in_redis,
  trading_cycle_scheduled, full_state_persisted, graceful_shutdown, emit,
}
use aether_quantum_engine.Settlement.Detect.{contract_payload_is_settled}
use aether_quantum_engine.Settlement.Quarantine.{handle_settlement_loss_quarantine}
use aether_quantum_engine.Settlement.Outcome.{
  Audit, truthy, or_else, default_to, process_contract_outcome, settled_symbol,
}
use aether_quantum_engine.Settlement.Limits.{update_state_manager_and_check_stop_win}
use aether_quantum_engine.Settlement.Barrier.{finalize_settlement_persistence}

-- A handler's state and whether it ran to its end: `false` where it raised, or shut the engine down.
abbrev pub Handled : (F : Type 0) → Type 0
Handled F = Orchestrator F × Bool

module _ {F : Type 0} ⦃f : Float F⦄ where
  open f use {le}

  -- `TradingState.add_contract`
  abbrev pub add_contract : Orchestrator F → Contract F → Orchestrator F
  add_contract o contract = record o {
    active_contracts = put contract.contract_id contract o.active_contracts;
  }

  -- `TradingState.finalize_contract`: the contract, taken out, or `none`.
  abbrev pub finalize_contract : Orchestrator F → ℕ → Orchestrator F × Option (Contract F)
  finalize_contract o cid =
      (record o { active_contracts = pop cid o.active_contracts }, get cid o.active_contracts)

  -- `if contract_id not in rm.active_contract_ids: rm.active_contract_ids.append(contract_id)`
  abbrev pub activate : ℕ → RiskManager F → RiskManager F
  activate cid rm =
      if contains cid rm.active_contract_ids
      then rm
      else record rm { active_contract_ids = rm.active_contract_ids ++ cid ∷ [] }

  unfoldable pub register_confirmed_contract :
      Orchestrator F → Contract F → String → F → Orchestrator F × Bool
  register_confirmed_contract o contract symbol stake =
      let cid = contract.contract_id in
      let rm = o.risk_manager in
      let named = record rm { contract_to_symbol = put cid symbol rm.contract_to_symbol } in
      let tracked = activate cid (record_contract_stake named cid stake none) in
      let added = add_contract (record o { risk_manager = tracked }) contract in
      if contains cid o.settled_contract_ids
      then (o, false)
      else if has_key cid o.active_contracts
      then (o, true)
      else (record added { contract_cycle = put cid o.active_cycle_id o.contract_cycle }, true)

  abbrev pub reset_recovery_skip : Orchestrator F → F → Orchestrator F
  reset_recovery_skip o profit =
      if le nought profit && le (pending_loss_total o.risk_manager.pending_loss) nought
      then emit recovery_skip_reset o
      else o

  abbrev pub schedule_cycle : Orchestrator F → Orchestrator F
  schedule_cycle o =
      if leb (length o.active_contracts) 0 && o.running then emit trading_cycle_scheduled o else o

  abbrev pub emptied : Option (List (Payload F)) → Option (List (Payload F))
  emptied none = none
  emptied (some queue) = some []

  -- `graceful_shutdown(orch, fast_path=True)`, which does not return: `cancel_settlement_queue_fast`, then the end of
  -- the process. The connections that it closes before are left out.
  abbrev pub shut_down : Orchestrator F → Orchestrator F
  shut_down o = emit graceful_shutdown (record o {
    running = false;
    settlement_queue = emptied o.settlement_queue;
    settlement_queued_ids = [];
    has_exited = true;
  })

  -- What follows a reached stop win.
  abbrev pub stop_session : Orchestrator F → Orchestrator F
  stop_session o =
      let measured = if o.has_business_metrics then emit stop_win_metrics o else o in
      let stopped = record measured { shutdown_reason = some "stop_win"; is_trading = false } in
      shut_down (emit full_state_persisted stopped)

  abbrev pub release_claims : Orchestrator F → ℕ → String → Orchestrator F
  release_claims o cid sym =
      let logged = emit (contract_settlement_log cid sym) o in
      emit (order_symbol_claim_released sym)
        (record logged { pullback_contract_modes = pop cid logged.pullback_contract_modes })

  -- The end of `_complete_contract_settlement`: whether the stop win is reached.
  abbrev pub after_limits : F → Orchestrator F × Bool → Handled F
  after_limits target (o, true) = (stop_session o, false)
  after_limits target (o, false) = (finalize_settlement_persistence target (schedule_cycle o), true)

  -- What `_complete_contract_settlement` does once it has its target.
  abbrev pub complete_with_target :
      Orchestrator F → F → Contract F → ℕ → F → String → Audit F → F → Handled F
  complete_with_target o target contract cid profit sym audit pnl =
      let released = release_claims o cid sym in
      let kept_out =
        handle_settlement_loss_quarantine released sym audit.audit_direction contract profit in
      let skipped = reset_recovery_skip kept_out profit in
      after_limits target (update_state_manager_and_check_stop_win skipped target pnl)

  -- `resolve_stop_win_target(config, rm.initial_bankroll)`, `none` where it raises.
  abbrev pub session_target : Orchestrator F → Option F
  session_target o = resolve_target o.stop_win o.risk_manager.initial_bankroll none

  abbrev pub complete_or_raise :
      Orchestrator F → Contract F → ℕ → F → String → Audit F → F → Option F → Handled F
  complete_or_raise o contract cid profit sym audit pnl none = (o, false)
  complete_or_raise o contract cid profit sym audit pnl (some target) =
      complete_with_target o target contract cid profit sym audit pnl

  unfoldable pub complete_contract_settlement :
      Orchestrator F → Payload F → Contract F → ℕ → F → String → Audit F → Handled F
  complete_contract_settlement o c contract cid profit sym audit =
      let done = process_contract_outcome o c (some contract) cid profit audit in
      let pnl = done.risk_manager.total_session_profit in
      complete_or_raise done contract cid profit sym audit pnl (session_target done)

  -- `contract.symbol or contract_to_symbol.get(c_id) or c.get("underlying") or "UNK"`
  abbrev pub confirmed_symbol : Orchestrator F → Payload F → Contract F → ℕ → String
  confirmed_symbol o c contract cid =
      let named = or_else (some contract.symbol) (get cid o.risk_manager.contract_to_symbol) in
      default_to (truthy (or_else named c.underlying)) "UNK"

  unfoldable pub process_confirmed_settlement :
      Orchestrator F → Payload F → Contract F → ℕ → Audit F → Handled F
  process_confirmed_settlement o c contract cid audit =
      complete_contract_settlement o c contract cid (or_default c.profit nought)
        (confirmed_symbol o c contract cid) audit

  abbrev pub late_tail : Orchestrator F → ℕ → String → F → F → Orchestrator F
  late_tail o cid sym profit target =
      let released = release_claims o cid sym in
      finalize_settlement_persistence target (schedule_cycle (reset_recovery_skip released profit))

  abbrev pub late_or_raise : Orchestrator F → ℕ → String → F → Option F → Handled F
  late_or_raise o cid sym profit none = (o, false)
  late_or_raise o cid sym profit (some target) = (late_tail o cid sym profit target, true)

  unfoldable pub process_late_settlement_once : Orchestrator F → Payload F → ℕ → Audit F → Handled F
  process_late_settlement_once o poc cid audit =
      let profit = or_default poc.profit nought in
      let sym = settled_symbol o.risk_manager poc cid in
      let done = process_contract_outcome o poc none cid profit audit in
      late_or_raise done cid sym profit (session_target done)

  -- `release_recovery` and the note that the contract is settled, where the handler ran to its end.
  abbrev pub mark_settled : ℕ → Handled F → Orchestrator F
  mark_settled cid (o, ok) =
      let released = emit (recovery_released cid) o in
      if ok
      then record released { settled_contract_ids = set_add cid released.settled_contract_ids }
      else o

  abbrev pub settle_found :
      Orchestrator F → Payload F → Option (Contract F) → ℕ → Audit F → Orchestrator F
  settle_found o c (some found) cid audit =
      mark_settled cid (process_confirmed_settlement o c found cid audit)
  settle_found o c none cid audit =
      if is_tracked o.risk_manager cid
      then mark_settled cid (process_late_settlement_once o c cid audit)
      else o

  -- What both entry points do under the lock.
  abbrev pub settle_known : Orchestrator F → Payload F → ℕ → Audit F → Orchestrator F
  settle_known o c cid audit =
      let (taken, contract) = finalize_contract o cid in settle_found taken c contract cid audit

  abbrev pub settle_once : Orchestrator F → Payload F → ℕ → Audit F → Orchestrator F
  settle_once o c cid audit =
      if contains cid o.settled_contract_ids then o else settle_known o c cid audit

  -- `push_to_redis_priority_queue`: once for each contract. It takes the lock of the queue; where a poll holds it for
  -- ever it never returns.
  unfoldable pub push_to_redis_priority_queue : Orchestrator F → ℕ → Orchestrator F
  push_to_redis_priority_queue o cid =
      if leb cid 0 || (o.redis_queue_locked || contains cid o.settlement_redis_enqueued)
      then o
      else emit (queued_in_redis cid) (record o {
        settlement_redis_enqueued = set_add cid o.settlement_redis_enqueued;
        settlement_redis_poll_at = 0;
      })

  abbrev pub process_settled_payload :
      Orchestrator F → Payload F → Option ℕ → Audit F → Orchestrator F
  process_settled_payload o c none audit = o
  process_settled_payload o c (some cid) audit =
      if o.ws_is_running then settle_once o c cid audit else push_to_redis_priority_queue o cid

  unfoldable pub process_contract_settlement : Orchestrator F → Payload F → Audit F → Orchestrator F
  process_contract_settlement o c audit =
      if contract_payload_is_settled c then process_settled_payload o c c.contract_id audit else o

  abbrev pub process_late_payload : Orchestrator F → Payload F → Option ℕ → Audit F → Orchestrator F
  process_late_payload o c none audit = o
  process_late_payload o c (some cid) audit = settle_once o c cid audit

  unfoldable pub process_late_settlement_from_payload :
      Orchestrator F → Payload F → Audit F → Orchestrator F
  process_late_settlement_from_payload o poc audit =
      if contract_payload_is_settled poc
      then process_late_payload o poc poc.contract_id audit
      else o

  -- A contract waits in the queue at most once. `none` for the queue is an engine without a worker.
  abbrev pub enqueue_in :
      Orchestrator F → Payload F → ℕ → Audit F → Option (List (Payload F)) → Orchestrator F
  enqueue_in o poc cid audit none = process_contract_settlement o poc audit
  enqueue_in o poc cid audit (some queue) =
      if contains cid o.settlement_queued_ids then o else record o {
        settlement_queued_ids = set_add cid o.settlement_queued_ids;
        settlement_queue = some (queue ++ poc ∷ []);
        settlement_pending_since =
            if o.settlement_pending_since == 0 then o.monotonic else o.settlement_pending_since;
      }

  abbrev pub enqueue_known : Orchestrator F → Payload F → ℕ → Audit F → Orchestrator F
  enqueue_known o poc cid audit = enqueue_in o poc cid audit o.settlement_queue

  abbrev pub enqueue_settled : Orchestrator F → Payload F → Option ℕ → Audit F → Orchestrator F
  enqueue_settled o poc none audit = o
  enqueue_settled o poc (some cid) audit =
      if contains cid o.settled_contract_ids then o else enqueue_known o poc cid audit

  unfoldable pub enqueue_contract_settlement : Orchestrator F → Payload F → Audit F → Orchestrator F
  enqueue_contract_settlement o poc audit =
      if contract_payload_is_settled poc then enqueue_settled o poc poc.contract_id audit else o
