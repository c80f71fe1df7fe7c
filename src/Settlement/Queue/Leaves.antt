-- ===== src/Settlement/Queue/Leaves.antt =====
-- A poll of settlement_queue_ops.py takes out an item that the broker confirms.
use aether_quantum_engine.Common.{
  ℕ, nat_eq, String, true, false, some, List, ◌≡◌, string_eq, contains, ◌⊎◌,
}
use aether_quantum_engine.Common.Dict.{has_key}
use aether_quantum_engine.Common.Float.{Float}
use aether_quantum_engine.Settlement.{Payload, Orchestrator}
use aether_quantum_engine.Settlement.Detect.{contract_payload_is_settled}
use aether_quantum_engine.Settlement.Process.{session_target}
use aether_quantum_engine.Settlement.Settles.{IsStopped}
use aether_quantum_engine.Settlement.Queue.{Answers, Attempt, waits_for_lock, ended, Polled}

module _ {F : Type 0} ⦃f : Float F⦄ where
  -- The broker says that the open contract is settled, the connection stands, and the session has a target.
  pub record Stands (o : Orchestrator F) (cid : ℕ) (a : Answers F) (poc : Payload F) (t : F)
      : Type 0 where
    pub active : has_key cid o.active_contracts ≡ true
    pub answered : a.open_contract.answer ≡ some (some poc)
    pub settled : contract_payload_is_settled poc ≡ true
    pub named : poc.contract_id ≡ some cid
    pub online : a.open_contract.online ≡ true
    pub target : session_target o ≡ some t

  -- The attempt takes the item out, or stops the session.
  pub Succeeds : Attempt F → Type 0
  Succeeds (waits_for_lock o) = ⊥
  Succeeds (ended o removed) = (removed ≡ true) ⊎ IsStopped o

  module _ (loads : String → Payload F) (answers : ℕ → Answers F) where
    -- The item has left the queue, or a stop win has shut the engine down and the queue is as it was.
    abbrev Outcome : String → List String → Polled F → Type 0
    Outcome item queue q = (contains item q.queue ≡ false) ⊎ IsStopped q.engine × (q.queue ≡ queue)
