-- ===== src/Settlement/Backfill/Preserved.antt =====
-- A predicate of the engine that one settlement keeps is kept by the ways of settlement_backfill.py and
-- settlement_rest.py, which settle only contracts that they were asked for.
use aether_quantum_engine.Common.{
  ℕ, subst, String, Bool, true, false, Option, none, some, List, ◌≡◌, refl, if_both, nat_eq, not,
  sym, arith,
}
use aether_quantum_engine.Common.Dict.{get}
use aether_quantum_engine.Common.Float.{Float}
use aether_quantum_engine.Settlement.{Contract, Payload, Orchestrator}
use aether_quantum_engine.Settlement.Detect.{contract_payload_is_settled}
use aether_quantum_engine.Settlement.Outcome.{Audit}
use aether_quantum_engine.Settlement.Rows.{ProfitRow, settlement_payload_from_profit_row}
use aether_quantum_engine.Settlement.Process.{
  settle_once, push_to_redis_priority_queue, process_contract_settlement, process_settled_payload,
  process_late_payload, process_late_settlement_from_payload,
}
use aether_quantum_engine.Settlement.Queue.{Reply, Answers, heard}
use aether_quantum_engine.Settlement.Backfill.{
  RestAnswers, Called, after_error, named_row, backfill_row, backfill_table,
  backfill_contract_from_profit_table, infer_from_balance, infer_rest, rest_after_backfill,
  settle_rest_contract_when_due, is_expired_by, rest_for, after_backfill, reconcile_by,
  reconcile_single_contract,
}

-- What the predicate must bear: settlements of the contracts in question, a payload that waits in Redis, a change of
-- the connection and of the balance; and contracts stand under their ids.
pub record IsStable {F : Type 0} ⦃f : Float F⦄ (P : Orchestrator F → Type 0)
    (InQuestion : ℕ → Type 0) : Type 0 where
  pub settles :
      (o : Orchestrator F) (c : Payload F) (cid : ℕ) (audit : Audit F)
      → InQuestion cid
      → P o
      → P (settle_once o c cid audit)
  pub pushes : (o : Orchestrator F) (cid : ℕ) → P o → P (push_to_redis_priority_queue o cid)
  pub connects :
      (o : Orchestrator F) (online : Bool) → P o → P (record o { ws_is_running = online })
  pub pays : (o : Orchestrator F) (balance : F) → P o → P (record o { balance = balance })
  pub keyed :
      (o : Orchestrator F) (cid : ℕ) (contract : Contract F)
      → P o
      → get cid o.active_contracts ≡ some contract
      → contract.contract_id ≡ cid

module _ {F : Type 0} ⦃f : Float F⦄ (P : Orchestrator F → Type 0) (InQuestion : ℕ → Type 0)
    (stable : IsStable P InQuestion) where
  settled_payload-kept :
      (o : Orchestrator F) (c : Payload F) (key : Option ℕ) (audit : Audit F)
      → ((cid : ℕ) → key ≡ some cid → InQuestion cid)
      → P o
      → P (process_settled_payload o c key audit)
  settled_payload-kept o c none audit q h = h
  settled_payload-kept o c (some cid) audit q h =
      if_both P o.ws_is_running (stable.settles o c cid audit (q cid refl) h)
        (stable.pushes o cid h)

  pub process-kept :
      (o : Orchestrator F) (c : Payload F) (audit : Audit F)
      → ((cid : ℕ) → c.contract_id ≡ some cid → InQuestion cid)
      → P o
      → P (process_contract_settlement o c audit)
  unfolding process_contract_settlement
  process-kept o c audit q h =
      if_both P (contract_payload_is_settled c) (settled_payload-kept o c c.contract_id audit q h) h

  late_payload-kept :
      (o : Orchestrator F) (c : Payload F) (key : Option ℕ) (audit : Audit F)
      → ((cid : ℕ) → key ≡ some cid → InQuestion cid)
      → P o
      → P (process_late_payload o c key audit)
  late_payload-kept o c none audit q h = h
  late_payload-kept o c (some cid) audit q h = stable.settles o c cid audit (q cid refl) h

  pub late-kept :
      (o : Orchestrator F) (c : Payload F) (audit : Audit F)
      → ((cid : ℕ) → c.contract_id ≡ some cid → InQuestion cid)
      → P o
      → P (process_late_settlement_from_payload o c audit)
  unfolding process_late_settlement_from_payload
  late-kept o c audit q h =
      if_both P (contract_payload_is_settled c) (late_payload-kept o c c.contract_id audit q h) h

  row-kept :
      (o : Orchestrator F) (cid : ℕ) (audit : Audit F) (row : Option (ProfitRow F))
      → InQuestion cid
      → P o
      → P (backfill_row o cid audit row).0
  unfolding settlement_payload_from_profit_row
  row-kept o cid audit none q h = h
  row-kept o cid audit (some row) q h =
      process-kept o (settlement_payload_from_profit_row cid row) audit
        (λ k e. subst InQuestion (ground arith) q) h

  pub error-kept : {A : Type 0} (o : Orchestrator F) (r : Reply A) → P o → P (after_error o r)
  error-kept o r h =
      if_both P r.is_transient (stable.connects (heard o r) false (stable.connects o r.online h))
        (stable.connects o r.online h)

  table-kept :
      (o : Orchestrator F) (cid : ℕ) (a : Answers F) (rows : Option (List (ProfitRow F)))
      → InQuestion cid
      → P o
      → P (backfill_table o cid a rows).0
  table-kept o cid a none q h = error-kept o a.profit_table h
  table-kept o cid a (some rows) q h =
      row-kept (heard o a.profit_table) cid a.audit (named_row cid rows) q
        (stable.connects o a.profit_table.online h)

  backfill-kept :
      (o : Orchestrator F) (cid : ℕ) (a : Answers F)
      → InQuestion cid
      → P o
      → P (backfill_contract_from_profit_table o cid a).0
  unfolding backfill_contract_from_profit_table
  backfill-kept o cid a q h = table-kept o cid a a.profit_table.answer q h

  infer-kept :
      (o : Orchestrator F) (contract : Contract F) (b : F) (rest : RestAnswers F) (audit : Audit F)
      (accounts : Option (List (String × F)))
      → InQuestion contract.contract_id
      → P o
      → P (infer_from_balance o contract b rest audit accounts)
  infer-kept o contract b rest audit none q h = h
  infer-kept o contract b rest audit (some accounts) q h =
      process-kept _ _ audit (λ k e. subst InQuestion (ground arith) q) (stable.pays o _ h)

  infer_rest-kept :
      (o : Orchestrator F) (contract : Contract F) (b : F) (rest : RestAnswers F) (audit : Audit F)
      → InQuestion contract.contract_id
      → P o
      → P (infer_rest o contract b rest audit)
  infer_rest-kept o contract b rest audit q h =
      infer-kept (heard o rest.accounts) contract b rest audit rest.accounts.answer q
        (stable.connects o rest.accounts.online h)

  after-kept :
      (r : Called F) (contract : Contract F) (b : F) (a : Answers F) (rest : RestAnswers F)
      → InQuestion contract.contract_id
      → P r.0
      → P (rest_after_backfill r contract b a rest)
  after-kept (o, some true) contract b a rest q h = h
  after-kept (o, some false) contract b a rest q h = infer_rest-kept o contract b rest a.audit q h
  after-kept (o, none) contract b a rest q h =
      if_both P o.has_exited h (infer_rest-kept o contract b rest a.audit q h)

  settle_rest-kept :
      (o : Orchestrator F) (contract : Contract F) (b : F) (a : Answers F) (rest : RestAnswers F)
      → InQuestion contract.contract_id
      → P o
      → P (settle_rest_contract_when_due o contract b a rest)
  unfolding settle_rest_contract_when_due
  settle_rest-kept o contract b a rest q h =
      if_both P o.ws_is_running
        (after-kept _ contract b a rest q (backfill-kept o contract.contract_id a q h))
        (infer_rest-kept o contract b rest a.audit q h)

  rest_for-kept :
      (o : Orchestrator F) (cid : ℕ) (found : Option (Contract F)) (a : Answers F)
      (rest : RestAnswers F)
      → InQuestion cid
      → get cid o.active_contracts ≡ found
      → P o
      → P (rest_for o found a rest).0
  rest_for-kept o cid none a rest q e h = h
  rest_for-kept o cid (some contract) a rest q e h =
      let asked = subst InQuestion (sym (stable.keyed o cid contract h e)) q in
      if_both (λ (r : Called F). P r.0) (not (is_expired_by o.wall contract.expiry_time)) h
        (if_both (λ (r : Called F). P r.0) (not rest.has_auth) h
          (settle_rest-kept o contract o.balance a rest asked h))

  after_backfill-kept :
      (r : Called F) (cid : ℕ) (a : Answers F) (rest : RestAnswers F)
      → InQuestion cid
      → P r.0
      → P (after_backfill r cid a rest).0
  after_backfill-kept (o, none) cid a rest q h = h
  after_backfill-kept (o, some true) cid a rest q h = h
  after_backfill-kept (o, some false) cid a rest q h =
      rest_for-kept o cid (get cid o.active_contracts) a rest q refl h

  reconcile_by-kept :
      (o : Orchestrator F) (cid : ℕ) (a : Answers F) (rest : RestAnswers F)
      (reply : Option (Option (Payload F)))
      → ((poc : Payload F) → reply ≡ some (some poc) → poc.contract_id ≡ some cid)
      → InQuestion cid
      → P o
      → P (reconcile_by o cid a rest reply).0
  reconcile_by-kept o cid a rest none asked q h = error-kept o a.open_contract h
  reconcile_by-kept o cid a rest (some none) asked q h =
      after_backfill-kept _ cid a rest q (
        backfill-kept (heard o a.open_contract) cid a q
          (stable.connects o a.open_contract.online h))
  reconcile_by-kept o cid a rest (some (some poc)) asked q h =
      let told = stable.connects o a.open_contract.online h in
      if_both (λ (r : Called F). P r.0) (contract_payload_is_settled poc)
        (process-kept (heard o a.open_contract) poc a.audit
          (λ k e. subst InQuestion (ground (arith, asked poc refl)) q) told)
        told

  -- Where the broker answers about the contract that was asked for, reconciling it keeps the predicate.
  pub reconcile-kept :
      (o : Orchestrator F) (cid : ℕ) (a : Answers F) (rest : RestAnswers F)
      → ((poc : Payload F) → a.open_contract.answer ≡ some (some poc) → poc.contract_id ≡ some cid)
      → InQuestion cid
      → P o
      → P (reconcile_single_contract o cid a rest).0
  unfolding reconcile_single_contract
  reconcile-kept o cid a rest asked q h =
      reconcile_by-kept o cid a rest a.open_contract.answer asked q h
