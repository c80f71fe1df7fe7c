-- ===== src/Settlement/Final.antt =====
-- A contract that is settled stays as it is over every later message of it.
use aether_quantum_engine.Common.{
  ℕ, String, Bool, true, false, Option, none, some, List, if◌then◌else◌, ◌≡◌, refl, arith, nat_eq,
}
use aether_quantum_engine.Common.Float.{Float}
use aether_quantum_engine.Settlement.{Contract, Payload, Orchestrator}
use aether_quantum_engine.Settlement.Detect.{contract_payload_is_settled}
use aether_quantum_engine.Settlement.Outcome.{Audit}
use aether_quantum_engine.Settlement.Process.{
  register_confirmed_contract, settle_once, process_contract_settlement,
  process_late_settlement_from_payload, enqueue_contract_settlement, process_settled_payload,
  process_late_payload, enqueue_settled,
}
use aether_quantum_engine.Settlement.Once.{Message, handle_all, Seen, Seen-handle_all}

module _ {F : Type 0} ⦃f : Float F⦄ where
  settle_once_of_Seen :
      (o : Orchestrator F) (c : Payload F) (cid : ℕ) (audit : Audit F)
      → Seen cid o
      → settle_once o c cid audit ≡ o
  settle_once_of_Seen o c cid audit h = rw h.is_seen

  if-unchanged :
      {o : Orchestrator F} (b : Bool) (p : Orchestrator F) → p ≡ o → (if b then p else o) ≡ o
  if-unchanged true p h = h
  if-unchanged false p h = refl

  if-first : (b : Bool) (p q r : Orchestrator F) → b ≡ true → p ≡ r → (if b then p else q) ≡ r
  if-first true p q r _ h = h
  if-first false p q r e h = ground arith

  settled_payload_of_Seen :
      (o : Orchestrator F) (c : Payload F) (key : Option ℕ) (cid : ℕ) (audit : Audit F)
      → Seen cid o
      → key ≡ some cid
      → o.ws_is_running ≡ true
      → process_settled_payload o c key audit ≡ o
  settled_payload_of_Seen o c none cid audit h named online = ground arith
  settled_payload_of_Seen o c (some k) cid audit h named online =
      let same : k ≡ cid = ground arith in
      if-first o.ws_is_running _ _ o online (rw same (settle_once_of_Seen o c cid audit h))

  late_payload_of_Seen :
      (o : Orchestrator F) (c : Payload F) (key : Option ℕ) (cid : ℕ) (audit : Audit F)
      → Seen cid o
      → key ≡ some cid
      → process_late_payload o c key audit ≡ o
  late_payload_of_Seen o c none cid audit h named = ground arith
  late_payload_of_Seen o c (some k) cid audit h named =
      let same : k ≡ cid = ground arith in rw same (settle_once_of_Seen o c cid audit h)

  enqueue_settled_of_Seen :
      (o : Orchestrator F) (c : Payload F) (key : Option ℕ) (cid : ℕ) (audit : Audit F)
      → Seen cid o
      → key ≡ some cid
      → enqueue_settled o c key audit ≡ o
  enqueue_settled_of_Seen o c none cid audit h named = ground arith
  enqueue_settled_of_Seen o c (some k) cid audit h named =
      let same : k ≡ cid = ground arith in rw (same, h.is_seen)

  process_of_Seen :
      (o : Orchestrator F) (c : Payload F) (cid : ℕ) (audit : Audit F)
      → Seen cid o
      → c.contract_id ≡ some cid
      → o.ws_is_running ≡ true
      → process_contract_settlement o c audit ≡ o
  unfolding process_contract_settlement
  process_of_Seen o c cid audit h named online =
      if-unchanged (contract_payload_is_settled c) _
        (settled_payload_of_Seen o c c.contract_id cid audit h named online)

  late_of_Seen :
      (o : Orchestrator F) (c : Payload F) (cid : ℕ) (audit : Audit F)
      → Seen cid o
      → c.contract_id ≡ some cid
      → process_late_settlement_from_payload o c audit ≡ o
  unfolding process_late_settlement_from_payload
  late_of_Seen o c cid audit h named =
      if-unchanged (contract_payload_is_settled c) _
        (late_payload_of_Seen o c c.contract_id cid audit h named)

  enqueue_of_Seen :
      (o : Orchestrator F) (c : Payload F) (cid : ℕ) (audit : Audit F)
      → Seen cid o
      → c.contract_id ≡ some cid
      → enqueue_contract_settlement o c audit ≡ o
  unfolding enqueue_contract_settlement
  enqueue_of_Seen o c cid audit h named =
      if-unchanged (contract_payload_is_settled c) _
        (enqueue_settled_of_Seen o c c.contract_id cid audit h named)

  register_of_Seen :
      (o : Orchestrator F) (contract : Contract F) (name : String) (stake : F)
      → Seen contract.contract_id o
      → register_confirmed_contract o contract name stake ≡ (o, false)
  unfolding register_confirmed_contract
  register_of_Seen o contract name stake h = rw h.is_seen

  -- Once a contract is settled, and whatever messages come in between, another settlement of it by any way changes
  -- nothing while the broker is connected, and a purchase with its id is refused.
  pub settled_for_good :
      (o : Orchestrator F) (ms : List (Message F)) (c : Payload F) (audit : Audit F)
      (contract : Contract F) (name : String) (stake : F)
      → Seen contract.contract_id o
      → c.contract_id ≡ some contract.contract_id
      → let later = handle_all o ms in
        later.ws_is_running ≡ true
        → (process_contract_settlement later c audit ≡ later)
          × (process_late_settlement_from_payload later c audit ≡ later)
          × (enqueue_contract_settlement later c audit ≡ later)
          × (register_confirmed_contract later contract name stake ≡ (later, false))
  settled_for_good o ms c audit contract name stake h named online =
      let later = handle_all o ms in
      let cid = contract.contract_id in
      let still = Seen-handle_all cid o ms h in
      (
        process_of_Seen later c cid audit still named online,
        late_of_Seen later c cid audit still named,
        enqueue_of_Seen later c cid audit still named,
        register_of_Seen later contract name stake still,
      )
