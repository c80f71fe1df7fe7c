-- ===== src/Settlement/Queue/Stuck.antt =====
-- settlement_queue_ops.py holds the lock of the queue while it settles an item, and the settlement takes the same lock
-- to push its payload where the broker is offline.
use aether_quantum_engine.Common.{ℕ, nat_eq, ◌<◌, true, false, some, ◌≡◌}
use aether_quantum_engine.Common.Dict.{has_key}
use aether_quantum_engine.Common.Float.{Float}
use aether_quantum_engine.Settlement.{Payload, Orchestrator}
use aether_quantum_engine.Settlement.Detect.{contract_payload_is_settled}
use aether_quantum_engine.Settlement.Queue.{Answers}

module _ {F : Type 0} ⦃f : Float F⦄ where
  -- The broker says that the open contract is settled, and the connection breaks as it answers.
  pub record Breaks (o : Orchestrator F) (cid : ℕ) (a : Answers F) (poc : Payload F) : Type 0 where
    pub above : 0 < cid
    pub active : has_key cid o.active_contracts ≡ true
    pub answered : a.open_contract.answer ≡ some (some poc)
    pub settled : contract_payload_is_settled poc ≡ true
    pub named : poc.contract_id ≡ some cid
    pub offline : a.open_contract.online ≡ false
