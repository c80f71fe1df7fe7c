-- ===== src/Settlement/Settles.antt =====
-- A settlement of a contract that is open or tracked settles it, or stops the session.
use aether_quantum_engine.Common.{
  ℕ, String, Bool, true, false, ◌||◌, Option, none, some, ◌≡◌, refl, arith, nat_eq, contains, ◌∙◌,
  ◌⊎◌, inl, inr, Option-cases, if_both,
}
use aether_quantum_engine.Common.Dict.{get, has_key}
use aether_quantum_engine.Common.Float.{Float}
use aether_quantum_engine.Risk.Settlement.{is_tracked}
use aether_quantum_engine.Settlement.{Contract, Payload, Orchestrator}
use aether_quantum_engine.Settlement.Outcome.{Audit, settled_symbol}
use aether_quantum_engine.Settlement.Process.{
  complete_contract_settlement, process_confirmed_settlement, process_late_settlement_once,
  late_or_raise, complete_or_raise, release_claims, reset_recovery_skip, after_limits, Handled,
  mark_settled, confirmed_symbol, session_target,
}
use aether_quantum_engine.Settlement.Quarantine.{handle_settlement_loss_quarantine}
use aether_quantum_engine.Settlement.Kept.{Kept, process_contract_outcome-Kept}
use aether_quantum_engine.Settlement.Once.{Seen, contains-set_add_self}
use aether_quantum_engine.Settlement.Limits.{
  update_state_manager_and_check_stop_win, sync_state_manager_session,
}
use aether_quantum_engine.Session.State.{StateManager, save_state}

module _ {F : Type 0} ⦃f : Float F⦄ where
  -- The flag of the session's manager is raised, where there is a manager.
  abbrev pub IsFlagged : Option (StateManager F) → Type 0
  IsFlagged none = Unit
  IsFlagged (some m) = m.state.stop_win_triggered ≡ true

  -- The engine has exited, with the stop win as its reason.
  pub record IsStopped (p : Orchestrator F) : Type 0 where
    pub exited : p.has_exited ≡ true
    pub reason : p.shutdown_reason ≡ some "stop_win"
    pub halted : p.running ≡ false
    pub flagged : IsFlagged p.state_mgr

  session_target-Kept : (o p : Orchestrator F) → Kept o p → session_target p ≡ session_target o
  session_target-Kept o p k = rw (k.config, k.bankroll)

  pub Seen-mark : (cid : ℕ) (h : Handled F) → h.1 ≡ true → Seen cid (mark_settled cid h)
  Seen-mark cid (o, true) ok = record { is_seen = contains-set_add_self cid o.settled_contract_ids }
  Seen-mark cid (o, false) ok = ground arith

  -- A handler ran to its end, or stopped the session.
  abbrev pub Ends : Handled F → Type 0
  Ends h = (h.1 ≡ true) ⊎ IsStopped h.0

  update-IsFlagged :
      (o : Orchestrator F) (target pnl : F)
      → (update_state_manager_and_check_stop_win o target pnl).1 ≡ true
      → IsFlagged (update_state_manager_and_check_stop_win o target pnl).0.state_mgr
  unfolding update_state_manager_and_check_stop_win sync_state_manager_session save_state
  update-IsFlagged o target pnl = elim (Option-cases o.state_mgr) [
    | inl e ↦ rw e (λ h. tt)
    | inr (m, e) ↦ rw e (λ h. h)
  ]

  after_limits-Ends :
      (target : F) (r : Orchestrator F × Bool)
      → (r.1 ≡ true → IsFlagged r.0.state_mgr)
      → Ends (after_limits target r)
  after_limits-Ends target (o, false) h = inl refl
  after_limits-Ends target (o, true) h = inr (record {
    exited = refl;
    reason = refl;
    halted = refl;
    flagged =
        if_both (λ (x : Orchestrator F). IsFlagged x.state_mgr) o.has_business_metrics (h refl)
          (h refl);
  })

  complete_or_raise-Ends :
      (o : Orchestrator F) (contract : Contract F) (cid : ℕ) (profit : F) (name : String)
      (audit : Audit F) (pnl : F) (target : Option F) (t : F)
      → target ≡ some t
      → Ends (complete_or_raise o contract cid profit name audit pnl target)
  complete_or_raise-Ends o contract cid profit name audit pnl none t h = ground arith
  complete_or_raise-Ends o contract cid profit name audit pnl (some target) t h =
      let kept_out =
        handle_settlement_loss_quarantine (release_claims o cid name) name audit.audit_direction
          contract profit in
      let skipped = reset_recovery_skip kept_out profit in
      after_limits-Ends target (update_state_manager_and_check_stop_win skipped target pnl)
        (update-IsFlagged skipped target pnl)

  late_or_raise-ok :
      (o : Orchestrator F) (cid : ℕ) (name : String) (profit : F) (target : Option F) (t : F)
      → target ≡ some t
      → (late_or_raise o cid name profit target).1 ≡ true
  late_or_raise-ok o cid name profit none t h = ground arith
  late_or_raise-ok o cid name profit (some target) t h = refl

  pub confirmed-Ends :
      (o : Orchestrator F) (c : Payload F) (contract : Contract F) (cid : ℕ) (audit : Audit F)
      (t : F)
      → session_target o ≡ some t
      → Ends (process_confirmed_settlement o c contract cid audit)
  unfolding process_confirmed_settlement complete_contract_settlement
  confirmed-Ends o c contract cid audit t h =
      let kept = process_contract_outcome-Kept o c (some contract) cid _ audit in
      complete_or_raise-Ends _ contract cid _ (confirmed_symbol o c contract cid) audit _ _ t
        (session_target-Kept o _ kept ∙ h)

  pub late-ok :
      (o : Orchestrator F) (c : Payload F) (cid : ℕ) (audit : Audit F) (t : F)
      → session_target o ≡ some t
      → (process_late_settlement_once o c cid audit).1 ≡ true
  unfolding process_late_settlement_once
  late-ok o c cid audit t h =
      let kept = process_contract_outcome-Kept o c none cid _ audit in
      late_or_raise-ok _ cid (settled_symbol o.risk_manager c cid) _ _ t
        (session_target-Kept o _ kept ∙ h)

  -- The contract is open, or the risk state still tracks it.
  abbrev pub is_known : Orchestrator F → ℕ → Bool
  is_known o cid = has_key cid o.active_contracts || is_tracked o.risk_manager cid

  -- The contract is settled, or it is closed and its settlement stopped the session.
  abbrev Done : ℕ → Orchestrator F → Type 0
  Done cid p =
      (contains cid p.settled_contract_ids ≡ true)
      ⊎ IsStopped p × (get cid p.active_contracts ≡ none)

  pub tracked_of_none :
      (o : Orchestrator F) (cid : ℕ)
      → is_known o cid ≡ true
      → get cid o.active_contracts ≡ none
      → is_tracked o.risk_manager cid ≡ true
  tracked_of_none o cid known gone = ground arith
