-- ===== src/Settlement/Once.antt =====
-- The messages of the orchestrator in any order: what is settled stays settled.
use aether_quantum_engine.Common.{
  ℕ, String, Bool, true, false, ◌||◌, Option, none, some, List, [], ◌∷◌, if◌then◌else◌, ◌≡◌, arith,
  nat_eq, contains, set_add, ◌∙◌, ap, eq_refl, leb,
}
use aether_quantum_engine.Common.Dict.{get}
use aether_quantum_engine.Common.Float.{Float}
use aether_quantum_engine.Risk.Settlement.{is_tracked}
use aether_quantum_engine.Settlement.{Contract, Payload, Orchestrator}
use aether_quantum_engine.Settlement.Detect.{contract_payload_is_settled}
use aether_quantum_engine.Settlement.Outcome.{Audit, settled_symbol}
use aether_quantum_engine.Settlement.Process.{
  register_confirmed_contract, complete_contract_settlement, process_confirmed_settlement,
  process_late_settlement_once, late_or_raise, complete_or_raise, settle_found, Handled,
  mark_settled, settle_once, push_to_redis_priority_queue, process_contract_settlement,
  process_late_settlement_from_payload, enqueue_contract_settlement, confirmed_symbol,
  process_settled_payload, process_late_payload, enqueue_in, enqueue_settled, finalize_contract,
}
use aether_quantum_engine.Settlement.Kept.{
  Kept, Kept-refl, Kept-trans, process_contract_outcome-Kept, complete_with_target-Kept,
  late_tail-Kept,
}

-- A message that reaches the orchestrator: a confirmed purchase, or a payload of the broker by each of its ways.
pub data Message (F : Type 0) : Type 0 where
  bought : Contract F → String → F → Message F
  settled_now : Payload F → Audit F → Message F
  settled_late : Payload F → Audit F → Message F
  to_queue : Payload F → Audit F → Message F

contains-set_add :
    (id cid : ℕ) (xs : List ℕ) → contains id xs ≡ true → contains id (set_add cid xs) ≡ true
contains-set_add id cid xs h = ground arith

pub contains-set_add_self : (cid : ℕ) (xs : List ℕ) → contains cid (set_add cid xs) ≡ true
contains-set_add_self cid xs = ground (arith, eq_refl cid)

module _ {F : Type 0} ⦃f : Float F⦄ where
  abbrev pub respond : Orchestrator F → Message F → Orchestrator F
  respond o (bought contract symbol stake) = (register_confirmed_contract o contract symbol stake).0
  respond o (settled_now c audit) = process_contract_settlement o c audit
  respond o (settled_late c audit) = process_late_settlement_from_payload o c audit
  respond o (to_queue c audit) = enqueue_contract_settlement o c audit

  -- An engine that has exited answers no message.
  unfoldable pub handle : Orchestrator F → Message F → Orchestrator F
  handle o m = if o.has_exited then o else respond o m

  unfoldable pub handle_all : Orchestrator F → List (Message F) → Orchestrator F
  handle_all o [] = o
  handle_all o (m ∷ ms) = handle_all (handle o m) ms

  -- The contract is among those that are settled.
  pub record Seen (cid : ℕ) (o : Orchestrator F) : Type 0 where
    pub is_seen : contains cid o.settled_contract_ids ≡ true

  complete_or_raise-Kept :
      (o : Orchestrator F) (contract : Contract F) (cid : ℕ) (profit : F) (name : String)
      (audit : Audit F) (pnl : F) (target : Option F)
      → Kept o (complete_or_raise o contract cid profit name audit pnl target).0
  complete_or_raise-Kept o contract cid profit name audit pnl none = Kept-refl o
  complete_or_raise-Kept o contract cid profit name audit pnl (some target) =
      complete_with_target-Kept o target contract cid profit name audit pnl

  late_or_raise-Kept :
      (o : Orchestrator F) (cid : ℕ) (name : String) (profit : F) (target : Option F)
      → Kept o (late_or_raise o cid name profit target).0
  late_or_raise-Kept o cid name profit none = Kept-refl o
  late_or_raise-Kept o cid name profit (some target) = late_tail-Kept o cid name profit target

  pub confirmed-Kept :
      (o : Orchestrator F) (c : Payload F) (contract : Contract F) (cid : ℕ) (audit : Audit F)
      → Kept o (process_confirmed_settlement o c contract cid audit).0
  unfolding process_confirmed_settlement complete_contract_settlement
  confirmed-Kept o c contract cid audit =
      Kept-trans (process_contract_outcome-Kept o c (some contract) cid _ audit)
        (complete_or_raise-Kept _ contract cid _ (confirmed_symbol o c contract cid) audit _ _)

  pub late-Kept :
      (o : Orchestrator F) (c : Payload F) (cid : ℕ) (audit : Audit F)
      → Kept o (process_late_settlement_once o c cid audit).0
  unfolding process_late_settlement_once
  late-Kept o c cid audit =
      Kept-trans (process_contract_outcome-Kept o c none cid _ audit)
        (late_or_raise-Kept _ cid (settled_symbol o.risk_manager c cid) _ _)

  pub Seen-if :
      {id : ℕ} {p q : Orchestrator F} (b : Bool)
      → Seen id p
      → Seen id q
      → Seen id (if b then p else q)
  Seen-if true a b = a
  Seen-if false a b = b

  pub Seen-of_Kept : {id : ℕ} {o p : Orchestrator F} → Kept o p → Seen id o → Seen id p
  Seen-of_Kept {id} k before = record { is_seen = ap (contains id) k.settled ∙ before.is_seen }

  Seen-mark :
      (id cid : ℕ) {o : Orchestrator F} (h : Handled F)
      → Kept o h.0
      → Seen id o
      → Seen id (mark_settled cid h)
  Seen-mark id cid (p, true) k before = record {
    is_seen = contains-set_add id cid _ (Seen-of_Kept k before).is_seen;
  }
  Seen-mark id cid (p, false) k before = Seen-of_Kept k before

  Seen-settle_found :
      (id : ℕ) (o : Orchestrator F) (c : Payload F) (contract : Option (Contract F)) (cid : ℕ)
      (audit : Audit F)
      → Seen id o
      → Seen id (settle_found o c contract cid audit)
  Seen-settle_found id o c none cid audit h =
      Seen-if (is_tracked o.risk_manager cid) (Seen-mark id cid _ (late-Kept o c cid audit) h) h
  Seen-settle_found id o c (some contract) cid audit h =
      Seen-mark id cid _ (confirmed-Kept o c contract cid audit) h

  pub Seen-settle_once :
      (id : ℕ) (o : Orchestrator F) (c : Payload F) (cid : ℕ) (audit : Audit F)
      → Seen id o
      → Seen id (settle_once o c cid audit)
  Seen-settle_once id o c cid audit h = Seen-if (contains cid o.settled_contract_ids) h (
      Seen-settle_found id (finalize_contract o cid).0 c (get cid o.active_contracts) cid audit
        (record { is_seen = h.is_seen }))

  pub Seen-push :
      (id : ℕ) (o : Orchestrator F) (cid : ℕ)
      → Seen id o
      → Seen id (push_to_redis_priority_queue o cid)
  unfolding push_to_redis_priority_queue
  Seen-push id o cid h =
      Seen-if (leb cid 0 || (o.redis_queue_locked || contains cid o.settlement_redis_enqueued)) h
        (record { is_seen = h.is_seen })

  Seen-settled_payload :
      (id : ℕ) (o : Orchestrator F) (c : Payload F) (key : Option ℕ) (audit : Audit F)
      → Seen id o
      → Seen id (process_settled_payload o c key audit)
  Seen-settled_payload id o c none audit h = h
  Seen-settled_payload id o c (some cid) audit h =
      Seen-if o.ws_is_running (Seen-settle_once id o c cid audit h) (Seen-push id o cid h)

  pub Seen-process :
      (id : ℕ) (o : Orchestrator F) (c : Payload F) (audit : Audit F)
      → Seen id o
      → Seen id (process_contract_settlement o c audit)
  unfolding process_contract_settlement
  Seen-process id o c audit h =
      Seen-if (contract_payload_is_settled c) (Seen-settled_payload id o c c.contract_id audit h) h

  pub Seen-late_payload :
      (id : ℕ) (o : Orchestrator F) (c : Payload F) (key : Option ℕ) (audit : Audit F)
      → Seen id o
      → Seen id (process_late_payload o c key audit)
  Seen-late_payload id o c none audit h = h
  Seen-late_payload id o c (some cid) audit h = Seen-settle_once id o c cid audit h

  Seen-enqueue_in :
      (id : ℕ) (o : Orchestrator F) (c : Payload F) (cid : ℕ) (audit : Audit F)
      (queue : Option (List (Payload F)))
      → Seen id o
      → Seen id (enqueue_in o c cid audit queue)
  Seen-enqueue_in id o c cid audit none h = Seen-process id o c audit h
  Seen-enqueue_in id o c cid audit (some queue) h =
      Seen-if (contains cid o.settlement_queued_ids) h (record { is_seen = h.is_seen })

  Seen-enqueue_settled :
      (id : ℕ) (o : Orchestrator F) (c : Payload F) (key : Option ℕ) (audit : Audit F)
      → Seen id o
      → Seen id (enqueue_settled o c key audit)
  Seen-enqueue_settled id o c none audit h = h
  Seen-enqueue_settled id o c (some cid) audit h =
      Seen-if (contains cid o.settled_contract_ids) h
        (Seen-enqueue_in id o c cid audit o.settlement_queue h)

  Seen-respond : (id : ℕ) (o : Orchestrator F) (m : Message F) → Seen id o → Seen id (respond o m)
  unfolding register_confirmed_contract process_late_settlement_from_payload
      enqueue_contract_settlement
  Seen-respond id o (bought contract name stake) h = ground arith
  Seen-respond id o (settled_now c audit) h = Seen-process id o c audit h
  Seen-respond id o (settled_late c audit) h =
      Seen-if (contract_payload_is_settled c) (Seen-late_payload id o c c.contract_id audit h) h
  Seen-respond id o (to_queue c audit) h =
      Seen-if (contract_payload_is_settled c) (Seen-enqueue_settled id o c c.contract_id audit h) h

  Seen-handle : (id : ℕ) (o : Orchestrator F) (m : Message F) → Seen id o → Seen id (handle o m)
  unfolding handle
  Seen-handle id o m h = Seen-if o.has_exited h (Seen-respond id o m h)

  -- A contract that is settled stays so over any messages.
  pub Seen-handle_all :
      (id : ℕ) (o : Orchestrator F) (ms : List (Message F)) → Seen id o → Seen id (handle_all o ms)
  unfolding handle_all
  Seen-handle_all id o [] h = h
  Seen-handle_all id o (m ∷ ms) h = Seen-handle_all id (handle o m) ms (Seen-handle id o m h)
