-- ===== src/Settlement/Queue/Keeps.antt =====
-- What a confirmation of settlement_queue_ops.py keeps: what one settlement, a push and a change of the connection keep.
use aether_quantum_engine.Common.{
  ℕ, Bool, true, false, ◌||◌, Option, none, some, List, if◌then◌else◌, ◌≡◌, ◌∙◌, leb, contains,
  if_both, nat_eq,
}
use aether_quantum_engine.Common.Dict.{get, has_key}
use aether_quantum_engine.Common.Float.{Float}
use aether_quantum_engine.Risk.Settlement.{is_tracked}
use aether_quantum_engine.Settlement.{Contract, Payload, Orchestrator}
use aether_quantum_engine.Settlement.Detect.{contract_payload_is_settled}
use aether_quantum_engine.Settlement.Outcome.{Audit}
use aether_quantum_engine.Settlement.Rows.{ProfitRow, settlement_payload_from_profit_row}
use aether_quantum_engine.Settlement.Process.{
  Handled, mark_settled, settle_found, settle_once, finalize_contract, process_late_payload,
  process_late_settlement_from_payload, push_to_redis_priority_queue,
}
use aether_quantum_engine.Settlement.Kept.{Kept}
use aether_quantum_engine.Settlement.Once.{
  Seen, Seen-settle_once, Seen-push, confirmed-Kept, late-Kept,
}
use aether_quantum_engine.Settlement.Queue.{
  Answers, Attempt, waits_for_lock, ended, heard, is_owned, find_row, push_under_lock,
  process_under_lock_known, process_late, settle_confirmed, confirm_by_row, confirm_by_table,
  ask_table, confirm_by_contract, confirm_known,
}

pub record IsKept {F : Type 0} ⦃f : Float F⦄ (P : Orchestrator F → Type 0) : Type 0 where
  pub settles :
      (o : Orchestrator F) (c : Payload F) (cid : ℕ) (audit : Audit F)
      → P o
      → P (settle_once o c cid audit)
  pub pushes : (o : Orchestrator F) (cid : ℕ) → P o → P (push_to_redis_priority_queue o cid)
  pub connects :
      (o : Orchestrator F) (online : Bool) → P o → P (record o { ws_is_running = online })

module _ {F : Type 0} ⦃f : Float F⦄ where
  pub Seen-IsKept : (id : ℕ) → IsKept {F = F} (Seen id)
  Seen-IsKept id = record {
    settles = λ o c cid audit h. Seen-settle_once id o c cid audit h;
    pushes = λ o cid h. Seen-push id o cid h;
    connects = λ o online h. record { is_seen = h.is_seen };
  }

  -- The lock of the queue is held.
  abbrev pub IsLocked : Orchestrator F → Type 0
  IsLocked o = o.redis_queue_locked ≡ true

  IsLocked-mark :
      (o : Orchestrator F) (cid : ℕ) (h : Handled F)
      → Kept o h.0
      → IsLocked o
      → IsLocked (mark_settled cid h)
  IsLocked-mark o cid (p, true) k h = k.locked ∙ h
  IsLocked-mark o cid (p, false) k h = k.locked ∙ h

  IsLocked-found :
      (o : Orchestrator F) (c : Payload F) (contract : Option (Contract F)) (cid : ℕ)
      (audit : Audit F)
      → IsLocked o
      → IsLocked (settle_found o c contract cid audit)
  IsLocked-found o c none cid audit h =
      if_both IsLocked (is_tracked o.risk_manager cid)
        (IsLocked-mark o cid _ (late-Kept o c cid audit) h) h
  IsLocked-found o c (some contract) cid audit h =
      IsLocked-mark o cid _ (confirmed-Kept o c contract cid audit) h

  pub IsLocked-IsKept : IsKept IsLocked
  unfolding push_to_redis_priority_queue
  IsLocked-IsKept = record {
    settles = λ o c cid audit h.
        if_both IsLocked (contains cid o.settled_contract_ids) h
          (IsLocked-found (finalize_contract o cid).0 c (get cid o.active_contracts) cid audit h);
    pushes = λ o cid h.
        if_both IsLocked
          (leb cid 0 || (o.redis_queue_locked || contains cid o.settlement_redis_enqueued)) h h;
    connects = λ o online h. h;
  }

module _ {F : Type 0} ⦃f : Float F⦄ (P : Orchestrator F → Type 0) (kept : IsKept P) where
  -- An attempt keeps the predicate.
  unfoldable pub Keeps : Attempt F → Type 0
  Keeps (waits_for_lock o) = P o
  Keeps (ended o removed) = P o

  Keeps-if : (b : Bool) (a d : Attempt F) → Keeps a → Keeps d → Keeps (if b then a else d)
  Keeps-if true a d h k = h
  Keeps-if false a d h k = k

  push-Keeps : (o : Orchestrator F) (cid : ℕ) → P o → Keeps (push_under_lock o cid)
  unfolding Keeps
  push-Keeps o cid h =
      Keeps-if (leb cid 0) (ended o true) _ h
        (Keeps-if o.redis_queue_locked (waits_for_lock o) _ h (kept.pushes o cid h))

  late_payload-kept :
      (o : Orchestrator F) (c : Payload F) (key : Option ℕ) (audit : Audit F)
      → P o
      → P (process_late_payload o c key audit)
  late_payload-kept o c none audit h = h
  late_payload-kept o c (some cid) audit h = kept.settles o c cid audit h

  under_lock_known-Keeps :
      (o : Orchestrator F) (c : Payload F) (key : Option ℕ) (audit : Audit F)
      → P o
      → Keeps (process_under_lock_known o c key audit)
  unfolding Keeps
  under_lock_known-Keeps o c none audit h = h
  under_lock_known-Keeps o c (some cid) audit h =
      Keeps-if o.ws_is_running _ _ (kept.settles o c cid audit h) (push-Keeps o cid h)

  late-Keeps :
      (o : Orchestrator F) (c : Payload F) (audit : Audit F) → P o → Keeps (process_late o c audit)
  unfolding Keeps process_late_settlement_from_payload
  late-Keeps o c audit h =
      if_both P (contract_payload_is_settled c) (late_payload-kept o c c.contract_id audit h) h

  confirmed-Keeps :
      (o : Orchestrator F) (c : Payload F) (cid : ℕ) (audit : Audit F)
      → P o
      → Keeps (settle_confirmed o c cid audit)
  unfolding Keeps
  confirmed-Keeps o c cid audit h =
      Keeps-if (has_key cid o.active_contracts) _ _
        (Keeps-if (contract_payload_is_settled c) _ (ended o true)
          (under_lock_known-Keeps o c c.contract_id audit h) h)
        (late-Keeps o c audit h)

  row-Keeps :
      (o : Orchestrator F) (cid : ℕ) (audit : Audit F) (row : Option (ProfitRow F))
      → P o
      → Keeps (confirm_by_row o cid audit row)
  unfolding Keeps
  row-Keeps o cid audit none h = h
  row-Keeps o cid audit (some row) h =
      confirmed-Keeps o (settlement_payload_from_profit_row cid row) cid audit h

  table-Keeps :
      (o : Orchestrator F) (cid : ℕ) (audit : Audit F) (rows : Option (List (ProfitRow F)))
      → P o
      → Keeps (confirm_by_table o cid audit rows)
  unfolding Keeps
  table-Keeps o cid audit none h = h
  table-Keeps o cid audit (some rows) h = row-Keeps o cid audit (find_row cid rows) h

  ask-Keeps : (o : Orchestrator F) (cid : ℕ) (a : Answers F) → P o → Keeps (ask_table o cid a)
  ask-Keeps o cid a h =
      table-Keeps (heard o a.profit_table) cid a.audit a.profit_table.answer (kept.connects o _ h)

  contract-Keeps :
      (o : Orchestrator F) (cid : ℕ) (a : Answers F) (reply : Option (Option (Payload F)))
      → P o
      → Keeps (confirm_by_contract o cid a reply)
  unfolding Keeps
  contract-Keeps o cid a none h = h
  contract-Keeps o cid a (some none) h = ask-Keeps o cid a h
  contract-Keeps o cid a (some (some poc)) h =
      Keeps-if (contract_payload_is_settled poc) _ _ (confirmed-Keeps o poc cid a.audit h)
        (ask-Keeps o cid a h)

  pub known-Keeps :
      (o : Orchestrator F) (key : Option ℕ) (answers : ℕ → Answers F)
      → P o
      → Keeps (confirm_known o key answers)
  unfolding Keeps
  known-Keeps o none answers h = h
  known-Keeps o (some cid) answers h =
      let a = answers cid in
      Keeps-if (is_owned o cid) _ (ended o false)
        (contract-Keeps (heard o a.open_contract) cid a a.open_contract.answer
          (kept.connects o _ h))
        h
