-- ===== src/Settlement/Reconciliation.antt =====
-- settlement_reconciliation.py: the audit of the contracts after the connection came back.
pub mod Open
use aether_quantum_engine.Common.{
  ℕ, ◌+◌, Bool, true, false, not, ◌&&◌, ◌||◌, Option, none, some, List, [], ◌∷◌, ◌++◌,
  if◌then◌else◌, nat_eq, contains, set_add, keep_if, length, leb,
}
use aether_quantum_engine.Common.Dict.{has_key}
use aether_quantum_engine.Common.Float.{Float}
use aether_quantum_engine.Settlement.{Payload, Orchestrator, Event, emit}
use aether_quantum_engine.Settlement.Event.{full_state_persisted}
use aether_quantum_engine.Settlement.Detect.{contract_payload_is_settled}
use aether_quantum_engine.Settlement.Outcome.{Audit}
use aether_quantum_engine.Settlement.Rows.{ProfitRow, settlement_payload_from_profit_row}
use aether_quantum_engine.Settlement.Process.{
  process_contract_settlement, process_late_settlement_from_payload,
}
use aether_quantum_engine.Settlement.Queue.{Reply, Answers, heard, late_runs}
use aether_quantum_engine.Settlement.Backfill.{
  RestAnswers, Called, after_error, has_id, runs_process, reconcile_single_contract,
}
use aether_quantum_engine.Settlement.Worker.{known_contract_ids}

-- Where an error came from: the reconciliation of a contract, its settlement by its row, or a request of the audit.
pub data AuditError : Type 0 where
  cid profit : ℕ → AuditError
  request : AuditError

-- `ReconciliationResult` without the time that it took.
pub record ReconciliationResult : Type 0 where
  pub settled_count : ℕ
  pub errors : List AuditError

-- The engine, the result so far, and the contracts that are settled.
pub record Auditing (F : Type 0) : Type 0 where
  pub engine : Orchestrator F
  pub result : ReconciliationResult
  pub settled_ids : List ℕ

-- The engine with its flags `_reconciliation_active` and `_reconciliation_pending`.
pub record Audited (F : Type 0) : Type 0 where
  pub engine : Orchestrator F
  pub active : Bool
  pub pending : Bool

abbrev pub no_result : ReconciliationResult
no_result = record { settled_count = 0; errors = [] }

abbrev pub with_error : ReconciliationResult → AuditError → ReconciliationResult
with_error r e = record r { errors = r.errors ++ e ∷ [] }

module _ {F : Type 0} where
  -- `row_by_id.get(c_id)`: the last row of the contract.
  abbrev pub last_row : ℕ → List (ProfitRow F) → Option (ProfitRow F) → Option (ProfitRow F)
  last_row id [] found = found
  last_row id (row ∷ rows) found =
      last_row id rows (if has_id row.contract_id id then some row else found)

module _ {F : Type 0} ⦃f : Float F⦄ (answers : ℕ → Answers F) (rest : ℕ → RestAnswers F) where
  -- An error that is transient has already marked the connection as lost.
  abbrev pub note_reconciled : Auditing F → ℕ → Called F → Auditing F
  note_reconciled s id (o, some true) = record {
    engine = o;
    result = record s.result { settled_count = s.result.settled_count + 1 };
    settled_ids = set_add id s.settled_ids;
  }
  note_reconciled s id (o, some false) = record s { engine = o }
  note_reconciled s id (o, none) = record s {
    engine = o;
    result = with_error s.result (AuditError.cid id);
  }

  -- `_reconcile_known_offline`
  unfoldable pub reconcile_known_offline : List ℕ → List ℕ → Auditing F → Auditing F
  reconcile_known_offline open_ids [] s = s
  reconcile_known_offline open_ids (id ∷ ids) s = reconcile_known_offline open_ids ids (
      if s.engine.has_exited
      then s
      else if contains id open_ids
      then s
      else note_reconciled s id (reconcile_single_contract s.engine id (answers id) (rest id)))

  abbrev pub runs_late : Orchestrator F → Payload F → Audit F → Bool
  runs_late o poc audit =
      if contract_payload_is_settled poc then late_runs o poc poc.contract_id audit else true

  abbrev pub counted : Bool → ReconciliationResult → ℕ → ReconciliationResult
  counted runs r id =
      if runs
      then record r { settled_count = r.settled_count + 1 }
      else with_error r (AuditError.profit id)

  abbrev pub settle_row : Auditing F → ℕ → Option (ProfitRow F) → Auditing F
  settle_row s id none = s
  settle_row s id (some row) =
      let poc = settlement_payload_from_profit_row id row in
      let audit = (answers id).audit in
      if s.engine.has_exited
      then s
      else if has_key id s.engine.active_contracts
      then record s {
        engine = process_contract_settlement s.engine poc audit;
        result = counted (runs_process s.engine poc audit) s.result id;
      }
      else record s {
        engine = process_late_settlement_from_payload s.engine poc audit;
        result = counted (runs_late s.engine poc audit) s.result id;
      }

  unfoldable pub settle_rows : List (ProfitRow F) → List ℕ → Auditing F → Auditing F
  settle_rows rows [] s = s
  settle_rows rows (id ∷ ids) s = settle_rows rows ids (settle_row s id (last_row id rows none))

  -- `_settle_from_profit_burst`, and whether it raised: only the request of the table can.
  abbrev pub burst :
      List ℕ
      → Reply (List (ProfitRow F))
      → Auditing F
      → Option (List (ProfitRow F))
      → Auditing F × Bool
  burst remaining table s none = (s, true)
  burst remaining table s (some rows) =
      (settle_rows rows remaining (record s { engine = heard s.engine table }), false)

  abbrev pub settle_from_profit_burst :
      List ℕ → Reply (List (ProfitRow F)) → Auditing F → Auditing F × Bool
  settle_from_profit_burst open_ids table s =
      let remaining =
        keep_if (λ id. not (contains id open_ids) && not (contains id s.settled_ids))
          (known_contract_ids s.engine) in
      if s.engine.has_exited || leb (length remaining) 0
      then (s, false)
      else burst remaining table s table.answer

  -- Where the engine has exited the flags are gone with it.
  abbrev pub finished :
      Reply (List (ProfitRow F)) → Auditing F × Bool → Audited F × ReconciliationResult
  finished table (s, true) = (
    record { engine = after_error s.engine table; active = false; pending = false },
    with_error s.result AuditError.request,
  )
  finished table (s, false) = (
    record {
      engine = if s.engine.has_exited then s.engine else emit full_state_persisted s.engine;
      active = false;
      pending = false;
    },
    s.result,
  )

  abbrev pub audit_open :
      Orchestrator F
      → Reply (List ℕ)
      → Reply (List (ProfitRow F))
      → Option (List ℕ)
      → Audited F × ReconciliationResult
  audit_open o portfolio table none = (
    record { engine = after_error o portfolio; active = false; pending = false },
    with_error no_result AuditError.request,
  )
  audit_open o portfolio table (some open_ids) =
      let start : Auditing F = record {
        engine = heard o portfolio;
        result = no_result;
        settled_ids = [];
      } in
      let known = reconcile_known_offline open_ids (known_contract_ids start.engine) start in
      finished table (settle_from_profit_burst open_ids table known)

  -- `portfolio` are the ids of the contracts that are open at the broker. Saving the state does not raise.
  unfoldable pub reconcile_after_ws_recovery :
      Audited F → Reply (List ℕ) → Reply (List (ProfitRow F)) → Audited F × ReconciliationResult
  reconcile_after_ws_recovery a portfolio table =
      if a.active then (a, no_result) else audit_open a.engine portfolio table portfolio.answer
