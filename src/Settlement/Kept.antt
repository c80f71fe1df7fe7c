-- ===== src/Settlement/Kept.antt =====
-- What the handlers of a settlement leave alone: the contracts that are settled and open, and what the target of the
-- session is computed from.
use aether_quantum_engine.Common.{
  ℕ, String, Bool, true, false, Option, if◌then◌else◌, ◌≡◌, refl, ◌∙◌, arith, ◌==◌, string_eq,
}
use aether_quantum_engine.Common.Int.{ℤ}
use aether_quantum_engine.Common.Float.{Float, nought}
use aether_quantum_engine.Risk.Settlement.Bankroll.{apply_contract-bankroll}
use aether_quantum_engine.Settlement.{Contract, Payload, Orchestrator, Event, emit}
use aether_quantum_engine.Settlement.Outcome.{
  Audit, record_directional_learning, record_direction, record_side_equilibrium, count_result,
  business_metrics, close_cluster, bind_outcome, register_outcome, settled_symbol, dir_name_of,
  stake_of, with_planned_stake, process_contract_outcome,
}
use aether_quantum_engine.Settlement.Quarantine.{
  tell_pair, forget_losses, count_loss, keep_out, arm_reversal, set_quarantine,
  resolve_loss_direction, handle_settlement_loss_quarantine,
}
use aether_quantum_engine.Settlement.Limits.{
  sync_state_manager_session, update_state_manager_and_check_stop_win,
}
use aether_quantum_engine.Settlement.Barrier.{finalize_settlement_persistence}
use aether_quantum_engine.Settlement.Process.{
  after_limits, reset_recovery_skip, schedule_cycle, stop_session, release_claims,
  complete_with_target, late_tail,
}

module _ {F : Type 0} ⦃f : Float F⦄ where
  pub record Kept (o p : Orchestrator F) : Type 0 where
    pub settled : p.settled_contract_ids ≡ o.settled_contract_ids
    pub open_contracts : p.active_contracts ≡ o.active_contracts
    pub config : p.stop_win ≡ o.stop_win
    pub bankroll : p.risk_manager.initial_bankroll ≡ o.risk_manager.initial_bankroll
    pub online : p.ws_is_running ≡ o.ws_is_running
    pub locked : p.redis_queue_locked ≡ o.redis_queue_locked

  pub Kept-trans : {o p q : Orchestrator F} → Kept o p → Kept p q → Kept o q
  Kept-trans a b = record {
    settled = b.settled ∙ a.settled;
    open_contracts = b.open_contracts ∙ a.open_contracts;
    config = b.config ∙ a.config;
    bankroll = b.bankroll ∙ a.bankroll;
    online = b.online ∙ a.online;
    locked = b.locked ∙ a.locked;
  }

  pub Kept-refl : (o : Orchestrator F) → Kept o o
  Kept-refl o = record {
    settled = refl;
    open_contracts = refl;
    config = refl;
    bankroll = refl;
    online = refl;
    locked = refl;
  }

  if-Kept : {o p q : Orchestrator F} (b : Bool) → Kept o p → Kept o q → Kept o (if b then p else q)
  if-Kept true a b = a
  if-Kept false a b = b

  emit-Kept : (e : Event F) (o : Orchestrator F) → Kept o (emit e o)
  emit-Kept e o = record {
    settled = refl;
    open_contracts = refl;
    config = refl;
    bankroll = refl;
    online = refl;
    locked = refl;
  }

  close_cluster-Kept : (o : Orchestrator F) → Kept o (close_cluster o)
  close_cluster-Kept o = ground arith

  business_metrics-Kept :
      (o : Orchestrator F) (sym : String) (cid : ℕ) (profit stake : F) (dir_name : Option String)
      → Kept o (business_metrics o sym cid profit stake dir_name)
  business_metrics-Kept o sym cid profit stake dir_name = ground arith

  count_result-Kept :
      (o : Orchestrator F) (profit : F) (sym : String) (dir_name : Option String)
      → Kept o (count_result o profit sym dir_name)
  count_result-Kept o profit sym dir_name = ground arith

  record_direction-Kept :
      (o : Orchestrator F) (sym : String) (won : Bool) (dir_name : Option String)
      → Kept o (record_direction o sym won dir_name)
  record_direction-Kept o sym won dir_name = ground arith

  record_side_equilibrium-Kept :
      (o : Orchestrator F) (sym : String) (cid : ℕ) (profit : F) (dir_name : Option String)
      (raw_prob : Option F)
      → Kept o (record_side_equilibrium o sym cid profit dir_name raw_prob)
  record_side_equilibrium-Kept o sym cid profit dir_name raw_prob = ground arith

  arm_reversal-Kept :
      (o : Orchestrator F) (symbol dir_lost : String) → Kept o (arm_reversal o symbol dir_lost)
  arm_reversal-Kept o symbol dir_lost = ground arith

  set_quarantine-Kept :
      (o : Orchestrator F) (symbol : String) (q : F × ℤ) → Kept o (set_quarantine o symbol q)
  set_quarantine-Kept o symbol q = ground arith

  sync-Kept :
      (o : Orchestrator F) (target pnl : F)
      → Kept o (update_state_manager_and_check_stop_win o target pnl).0
  unfolding update_state_manager_and_check_stop_win sync_state_manager_session
  sync-Kept o target pnl = ground arith

  finalize_settlement_persistence-Kept :
      (o : Orchestrator F) (target : F) → Kept o (finalize_settlement_persistence target o)
  finalize_settlement_persistence-Kept o target = ground arith

  reset_recovery_skip-Kept :
      (o : Orchestrator F) (profit : F) → Kept o (reset_recovery_skip o profit)
  reset_recovery_skip-Kept o profit = ground arith

  schedule_cycle-Kept : (o : Orchestrator F) → Kept o (schedule_cycle o)
  schedule_cycle-Kept o = ground arith

  stop_session-Kept : (o : Orchestrator F) → Kept o (stop_session o)
  stop_session-Kept o = ground arith

  record_directional_learning-Kept :
      (o : Orchestrator F) (sym : String) (cid : ℕ) (profit : F) (dir_name : Option String)
      (audit : Audit F)
      → Kept o (record_directional_learning o sym cid profit dir_name audit)
  unfolding record_directional_learning
  record_directional_learning-Kept o sym cid profit dir_name audit = Kept-trans (emit-Kept _ o) (
      Kept-trans (record_direction-Kept _ sym _ dir_name)
        (Kept-trans (emit-Kept _ _) (record_side_equilibrium-Kept _ sym cid profit dir_name _)))

  bind_outcome-Kept :
      (o : Orchestrator F) (c : Payload F) (cid : ℕ) (profit executed : F) (stake : Option F)
      → Kept o (bind_outcome o c cid profit executed (with_planned_stake stake cid o.risk_manager))
  bind_outcome-Kept o c cid profit executed stake = ground arith

  register_outcome-Kept :
      (o : Orchestrator F) (cid : ℕ) (sym : String) (profit : F) (dir_name : Option String)
      → Kept o (register_outcome o cid sym profit dir_name)
  register_outcome-Kept o cid sym profit dir_name = record {
    settled = refl;
    open_contracts = refl;
    config = refl;
    bankroll = apply_contract-bankroll o.risk_manager profit cid sym o.tick_count dir_name;
    online = refl;
    locked = refl;
  }

  pub process_contract_outcome-Kept :
      (o : Orchestrator F) (c : Payload F) (contract : Option (Contract F)) (cid : ℕ) (profit : F)
      (audit : Audit F)
      → Kept o (process_contract_outcome o c contract cid profit audit)
  unfolding process_contract_outcome
  process_contract_outcome-Kept o c contract cid profit audit =
      let sym = settled_symbol o.risk_manager c cid in
      let dir_name = dir_name_of contract audit.audit_direction in
      Kept-trans (bind_outcome-Kept o c cid profit _ (stake_of contract)) (
        Kept-trans (emit-Kept _ _) (
          Kept-trans (record_directional_learning-Kept _ sym cid _ dir_name audit) (
            Kept-trans (register_outcome-Kept _ cid sym _ dir_name) (
              Kept-trans (count_result-Kept _ _ sym dir_name) (
                Kept-trans (business_metrics-Kept _ sym cid _ _ dir_name)
                  (close_cluster-Kept _))))))

  tell_pair-Kept :
      (o : Orchestrator F) (symbol : String) (profit : F) → Kept o (tell_pair o symbol profit)
  tell_pair-Kept o symbol profit = ground arith

  forget_losses-Kept : (o : Orchestrator F) (symbol : String) → Kept o (forget_losses o symbol)
  forget_losses-Kept o symbol = ground arith

  count_loss-Kept : (o : Orchestrator F) (symbol : String) → Kept o (count_loss o symbol)
  count_loss-Kept o symbol = ground arith

  keep_out-Kept :
      (o : Orchestrator F) (symbol dir_lost : String) → Kept o (keep_out o symbol dir_lost)
  keep_out-Kept o symbol dir_lost =
      Kept-trans (count_loss-Kept o symbol)
        (Kept-trans (arm_reversal-Kept _ symbol dir_lost) (set_quarantine-Kept _ symbol _))

  handle_quarantine-Kept :
      (o : Orchestrator F) (symbol : String) (direction : Option String) (contract : Contract F)
      (profit : F)
      → Kept o (handle_settlement_loss_quarantine o symbol direction contract profit)
  unfolding handle_settlement_loss_quarantine
  handle_quarantine-Kept o symbol direction contract profit = if-Kept (symbol == "") (Kept-refl o) (
      if-Kept (f.le nought profit)
        (Kept-trans (tell_pair-Kept o symbol profit) (forget_losses-Kept _ symbol))
        (Kept-trans (tell_pair-Kept o symbol profit)
          (keep_out-Kept _ symbol (resolve_loss_direction direction contract))))

  released-Kept : (o : Orchestrator F) (cid : ℕ) (sym : String) → Kept o (release_claims o cid sym)
  released-Kept o cid sym = ground arith

  ended-Kept :
      (target : F) (o : Orchestrator F) (r : Orchestrator F × Bool)
      → Kept o r.0
      → Kept o (after_limits target r).0
  ended-Kept target o (p, true) k = Kept-trans k (stop_session-Kept p)
  ended-Kept target o (p, false) k =
      Kept-trans k
        (Kept-trans (schedule_cycle-Kept p) (finalize_settlement_persistence-Kept _ target))

  pub complete_with_target-Kept :
      (o : Orchestrator F) (target : F) (contract : Contract F) (cid : ℕ) (profit : F)
      (sym : String) (audit : Audit F) (pnl : F)
      → Kept o (complete_with_target o target contract cid profit sym audit pnl).0
  complete_with_target-Kept o target contract cid profit sym audit pnl =
      Kept-trans (released-Kept o cid sym) (
        Kept-trans (handle_quarantine-Kept _ sym audit.audit_direction contract profit) (
          Kept-trans (reset_recovery_skip-Kept _ profit)
            (ended-Kept target _ _ (sync-Kept _ target pnl))))

  pub late_tail-Kept :
      (o : Orchestrator F) (cid : ℕ) (sym : String) (profit target : F)
      → Kept o (late_tail o cid sym profit target)
  late_tail-Kept o cid sym profit target = Kept-trans (released-Kept o cid sym) (
      Kept-trans (reset_recovery_skip-Kept _ profit)
        (Kept-trans (schedule_cycle-Kept _) (finalize_settlement_persistence-Kept _ target)))
