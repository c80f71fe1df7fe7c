-- ===== src/Settlement/Queue/Confirmed.antt =====
-- No settlement is lost in the queue of settlement_queue_ops.py: what leaves it is settled.
use aether_quantum_engine.Common.{
  ℕ, ◌<◌, Bool, true, false, Option, none, some, List, if◌then◌else◌, ◌≡◌, refl, arith, string_eq,
  nat_eq, leb, contains, inl, inr, Bool-cases,
}
use aether_quantum_engine.Common.Dict.{get, has_key}
use aether_quantum_engine.Common.Float.{Float}
use aether_quantum_engine.Risk.Settlement.{is_tracked}
use aether_quantum_engine.Settlement.{Contract, Payload, Orchestrator}
use aether_quantum_engine.Settlement.Detect.{contract_payload_is_settled}
use aether_quantum_engine.Settlement.Outcome.{Audit}
use aether_quantum_engine.Settlement.Rows.{ProfitRow, settlement_payload_from_profit_row}
use aether_quantum_engine.Settlement.Process.{
  process_late_settlement_once, settle_found, settle_once, finalize_contract, process_late_payload,
  process_late_settlement_from_payload,
}
use aether_quantum_engine.Settlement.Once.{Seen, Seen-settle_once}
use aether_quantum_engine.Settlement.Settles.{Seen-mark, tracked_of_none, is_known}
use aether_quantum_engine.Settlement.Queue.{
  Answers, Attempt, waits_for_lock, ended, heard, is_owned, find_row, runs_found, runs_once,
  push_under_lock, process_under_lock_known, late_runs, process_late, settle_confirmed,
  confirm_by_row, confirm_by_table, ask_table, confirm_by_contract, confirm_known,
}

if_of_true : (b : Bool) (x y : Bool) → b ≡ true → (if b then x else y) ≡ true → x ≡ true
if_of_true b x y e h = ground arith

if_of_false : (b : Bool) (x y : Bool) → b ≡ false → (if b then x else y) ≡ true → y ≡ true
if_of_false b x y e h = ground arith

module _ {F : Type 0} ⦃f : Float F⦄ where
  -- An attempt keeps what is settled, and where it takes the item out, its contract is settled.
  unfoldable pub Confirms : ℕ → Attempt F → Type 0
  Confirms cid (waits_for_lock o) = Unit
  Confirms cid (ended o removed) = removed ≡ true → Seen cid o

  found-Seen :
      (o : Orchestrator F) (c : Payload F) (contract : Option (Contract F)) (cid : ℕ)
      (audit : Audit F)
      → (contract ≡ none → is_tracked o.risk_manager cid ≡ true)
      → runs_found o c contract cid audit ≡ true
      → Seen cid (settle_found o c contract cid audit)
  found-Seen o c none cid audit known runs =
      let late = process_late_settlement_once o c cid audit in
      let tracked = known refl in
      rw tracked
        (Seen-mark cid late (if_of_true (is_tracked o.risk_manager cid) late.1 true tracked runs))
  found-Seen o c (some found) cid audit known runs = Seen-mark cid _ runs

  known_of_owned :
      (o : Orchestrator F) (cid : ℕ)
      → is_owned o cid ≡ true
      → contains cid o.settled_contract_ids ≡ false
      → is_known o cid ≡ true
  known_of_owned o cid owned unseen = ground arith

  Seen-if_false :
      (cid : ℕ) (b : Bool) (p q : Orchestrator F)
      → b ≡ false
      → Seen cid q
      → Seen cid (if b then p else q)
  Seen-if_false cid true p q e h = ground arith
  Seen-if_false cid false p q e h = h

  -- A settlement that runs to its end on a contract that the engine owns settles it.
  once-Seen :
      (o : Orchestrator F) (c : Payload F) (cid : ℕ) (audit : Audit F)
      → is_owned o cid ≡ true
      → runs_once o c cid audit ≡ true
      → Seen cid (settle_once o c cid audit)
  once-Seen o c cid audit owned runs = elim (Bool-cases (contains cid o.settled_contract_ids)) [
    | inl e ↦ Seen-settle_once cid o c cid audit (record { is_seen = e })
    | inr e ↦
        let found =
          found-Seen (finalize_contract o cid).0 c (get cid o.active_contracts) cid audit
            (tracked_of_none o cid (known_of_owned o cid owned e)) (if_of_false _ true _ e runs) in
        Seen-if_false cid (contains cid o.settled_contract_ids) o _ e found
  ]

  Confirms-if :
      (cid : ℕ) (b : Bool) (a d : Attempt F)
      → (b ≡ true → Confirms cid a)
      → (b ≡ false → Confirms cid d)
      → Confirms cid (if b then a else d)
  Confirms-if cid true a d h k = h refl
  Confirms-if cid false a d h k = k refl

  -- The payload is settled and names the contract.
  pub record Names (cid : ℕ) (c : Payload F) : Type 0 where
    pub settled : contract_payload_is_settled c ≡ true
    pub named : c.contract_id ≡ some cid

  -- The engine owns the contract, and the lock of the queue is held.
  Ready : Orchestrator F → ℕ → Type 0
  Ready o cid = (is_owned o cid ≡ true) × (o.redis_queue_locked ≡ true)

  push-Confirms :
      (o : Orchestrator F) (k cid : ℕ)
      → 0 < k
      → o.redis_queue_locked ≡ true
      → Confirms cid (push_under_lock o k)
  unfolding Confirms
  push-Confirms o k cid above locked =
      Confirms-if cid (leb k 0) _ _ (λ e. ground arith)
        (λ e. Confirms-if cid o.redis_queue_locked _ _ (λ e. tt) (λ free. absurd (ground arith)))

  under_lock_known-Confirms :
      (o : Orchestrator F) (c : Payload F) (key : Option ℕ) (cid : ℕ) (audit : Audit F)
      → key ≡ some cid
      → 0 < cid
      → Ready o cid
      → Confirms cid (process_under_lock_known o c key audit)
  unfolding Confirms Ready
  under_lock_known-Confirms o c none cid audit named above owned = ground arith
  under_lock_known-Confirms o c (some k) cid audit named above owned =
      let same : cid ≡ k = ground arith in
      Confirms-if cid o.ws_is_running _ _
        (λ online runs. rw same (once-Seen o c k audit (rw⁻¹ same owned.0) runs))
        (λ offline. push-Confirms o k cid (rw⁻¹ same above) owned.1)

  late_payload-Seen :
      (o : Orchestrator F) (c : Payload F) (key : Option ℕ) (cid : ℕ) (audit : Audit F)
      → key ≡ some cid
      → is_owned o cid ≡ true
      → late_runs o c key audit ≡ true
      → Seen cid (process_late_payload o c key audit)
  late_payload-Seen o c none cid audit named owned runs = ground arith
  late_payload-Seen o c (some k) cid audit named owned runs =
      let same : cid ≡ k = ground arith in rw same (once-Seen o c k audit (rw⁻¹ same owned) runs)

  row-Names :
      (cid : ℕ) (row : ProfitRow F)
      → contract_payload_is_settled (settlement_payload_from_profit_row cid row) ≡ true
      → Names cid (settlement_payload_from_profit_row cid row)
  unfolding settlement_payload_from_profit_row
  row-Names cid row h = record { settled = h; named = refl }

  late-Confirms :
      (o : Orchestrator F) (c : Payload F) (cid : ℕ) (audit : Audit F)
      → Names cid c
      → is_owned o cid ≡ true
      → Confirms cid (process_late o c audit)
  unfolding Confirms process_late_settlement_from_payload
  late-Confirms o c cid audit n owned runs = rw n.settled (
      late_payload-Seen o c c.contract_id cid audit n.named owned
        (if_of_true (contract_payload_is_settled c) _ true n.settled runs))

  settle_confirmed-Confirms :
      (o : Orchestrator F) (c : Payload F) (cid : ℕ) (audit : Audit F)
      → Names cid c
      → 0 < cid
      → Ready o cid
      → Confirms cid (settle_confirmed o c cid audit)
  unfolding Ready
  settle_confirmed-Confirms o c cid audit n above owned =
      Confirms-if cid (has_key cid o.active_contracts) _ _
        (λ e.
          Confirms-if cid (contract_payload_is_settled c) _ _
            (λ s. under_lock_known-Confirms o c c.contract_id cid audit n.named above owned)
            (λ s. absurd (ground (arith, n.settled))))
        (λ e. late-Confirms o c cid audit n owned.0)

  -- The broker answers about the contract that was asked for, and its profit table lists contracts that are closed.
  pub record IsHonest (answers : ℕ → Answers F) : Type 0 where
    pub contract :
        (cid : ℕ) (poc : Payload F)
        → (answers cid).open_contract.answer ≡ some (some poc)
        → poc.contract_id ≡ some cid
    pub table :
        (cid : ℕ) (rows : List (ProfitRow F)) (row : ProfitRow F)
        → (answers cid).profit_table.answer ≡ some rows
        → find_row cid rows ≡ some row
        → contract_payload_is_settled (settlement_payload_from_profit_row cid row) ≡ true

  by_row-Confirms :
      (o : Orchestrator F) (cid : ℕ) (audit : Audit F) (row : Option (ProfitRow F))
      → ((r : ProfitRow F)
          → row ≡ some r
          → contract_payload_is_settled (settlement_payload_from_profit_row cid r) ≡ true)
      → 0 < cid
      → Ready o cid
      → Confirms cid (confirm_by_row o cid audit row)
  unfolding Confirms
  by_row-Confirms o cid audit none closed above owned = λ e. ground arith
  by_row-Confirms o cid audit (some row) closed above owned =
      settle_confirmed-Confirms o (settlement_payload_from_profit_row cid row) cid audit
        (row-Names cid row (closed row refl)) above owned

  module _ (answers : ℕ → Answers F) (honest : IsHonest answers) where
    by_table-Confirms :
        (o : Orchestrator F) (cid : ℕ) (rows : Option (List (ProfitRow F)))
        → (answers cid).profit_table.answer ≡ rows
        → 0 < cid
        → Ready o cid
        → Confirms cid (confirm_by_table o cid (answers cid).audit rows)
    unfolding Confirms
    by_table-Confirms o cid none e above owned = λ h. ground arith
    by_table-Confirms o cid (some rows) e above owned =
        by_row-Confirms o cid (answers cid).audit (find_row cid rows)
          (λ r. honest.table cid rows r e) above owned

    ask-Confirms :
        (o : Orchestrator F) (cid : ℕ)
        → 0 < cid
        → Ready o cid
        → Confirms cid (ask_table o cid (answers cid))
    unfolding Ready
    ask-Confirms o cid above owned =
        let a = answers cid in
        by_table-Confirms (heard o a.profit_table) cid a.profit_table.answer refl above owned

    by_contract-Confirms :
        (o : Orchestrator F) (cid : ℕ) (reply : Option (Option (Payload F)))
        → (answers cid).open_contract.answer ≡ reply
        → 0 < cid
        → Ready o cid
        → Confirms cid (confirm_by_contract o cid (answers cid) reply)
    unfolding Confirms
    by_contract-Confirms o cid none e above owned = λ h. ground arith
    by_contract-Confirms o cid (some none) e above owned = ask-Confirms o cid above owned
    by_contract-Confirms o cid (some (some poc)) e above owned =
        Confirms-if cid (contract_payload_is_settled poc) _ _
          (λ s.
            settle_confirmed-Confirms o poc cid (answers cid).audit
              (record { settled = s; named = honest.contract cid poc e }) above owned)
          (λ s. ask-Confirms o cid above owned)

    pub known-Confirms :
        (o : Orchestrator F) (key : Option ℕ) (cid : ℕ)
        → key ≡ some cid
        → 0 < cid
        → o.redis_queue_locked ≡ true
        → Confirms cid (confirm_known o key answers)
    unfolding Confirms Ready
    known-Confirms o none cid named above locked = absurd (ground arith)
    known-Confirms o (some k) cid named above locked =
        let same : cid ≡ k = ground arith in
        let positive : 0 < k = ground arith in
        let a = answers k in
        rw same (
          Confirms-if k (is_owned o k) _ _
            (λ owned.
              by_contract-Confirms (heard o a.open_contract) k a.open_contract.answer refl positive
                (owned, locked))
            (λ e h. ground arith))
