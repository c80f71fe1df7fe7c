-- ===== src/Settlement/Reconciliation/Open.antt =====
-- The audit of settlement_reconciliation.py leaves alone what the broker says is open.
use aether_quantum_engine.Common.{
  ℕ, Bool, true, false, not, ◌&&◌, ◌||◌, Option, none, some, List, [], ◌∷◌, if◌then◌else◌, ◌≡◌, ◌≢◌,
  refl, sym, subst, arith, nat_eq, contains, keep_if, All, if_both, length, leb, Bool-cases, inl,
  inr, if_false,
}
use aether_quantum_engine.Common.Dict.{get, has_key}
use aether_quantum_engine.Common.Float.{Float}
use aether_quantum_engine.Settlement.{Payload, Orchestrator}
use aether_quantum_engine.Settlement.Rows.{ProfitRow, settlement_payload_from_profit_row}
use aether_quantum_engine.Settlement.Queue.{Reply, Answers, heard}
use aether_quantum_engine.Settlement.Backfill.{RestAnswers, Called, reconcile_single_contract}
use aether_quantum_engine.Settlement.Backfill.Preserved.{
  process-kept, late-kept, reconcile-kept, error-kept,
}
use aether_quantum_engine.Settlement.Worker.{known_contract_ids}
use aether_quantum_engine.Settlement.Worker.Cleaner.{
  IsKeyed, Untouched, Untouched-stable, ne_of_contains,
}
use aether_quantum_engine.Settlement.Reconciliation.{
  Auditing, Audited, ReconciliationResult, no_result, last_row, note_reconciled,
  reconcile_known_offline, settle_row, settle_rows, burst, settle_from_profit_burst, finished,
  audit_open, reconcile_after_ws_recovery,
}

-- The ids that pass a test for those that are neither open nor settled are not open.
kept_apart :
    (id : ℕ) (open_ids settled ids : List ℕ)
    → contains id open_ids ≡ true
    → All (λ k. k ≢ id) (keep_if (λ k. not (contains k open_ids) && not (contains k settled)) ids)
kept_apart id open_ids settled [] here = tt
kept_apart id open_ids settled (k ∷ ids) here =
    let rest = kept_apart id open_ids settled ids here in
    elim (Bool-cases (contains k open_ids)) [
      | inl e ↦ rw e rest
      | inr e ↦ rw e (
          if_both (All (λ j. j ≢ id)) (not (contains k settled))
            (ne_of_contains k id open_ids here e, rest) rest)
    ]

module _ {F : Type 0} ⦃f : Float F⦄ (answers : ℕ → Answers F) (rest : ℕ → RestAnswers F)
    (asked : (cid : ℕ) (poc : Payload F)
      → (answers cid).open_contract.answer ≡ some (some poc)
      → poc.contract_id ≡ some cid)
    (id : ℕ) (o : Orchestrator F) where
  Untouched-note :
      (s : Auditing F) (cid : ℕ) (r : Called F)
      → Untouched id o r.0
      → Untouched id o (note_reconciled answers rest s cid r).engine
  Untouched-note s cid (p, some true) u = u
  Untouched-note s cid (p, some false) u = u
  Untouched-note s cid (p, none) u = u

  Untouched-offline :
      (open_ids ids : List ℕ) (s : Auditing F)
      → contains id open_ids ≡ true
      → Untouched id o s.engine
      → Untouched id o (reconcile_known_offline answers rest open_ids ids s).engine
  unfolding reconcile_known_offline
  Untouched-offline open_ids [] s here u = u
  Untouched-offline open_ids (cid ∷ ids) s here u = Untouched-offline open_ids ids _ here (
      if_both (λ (z : Auditing F). Untouched id o z.engine) s.engine.has_exited u
        (next (contains cid open_ids) refl))
    where
      next :
          (b : Bool)
          → contains cid open_ids ≡ b
          → Untouched id o
              (if b
                then s
                else note_reconciled answers rest s cid
                    (reconcile_single_contract s.engine cid (answers cid) (rest cid))).engine
      next true e = u
      next false e = Untouched-note s cid _ (
          reconcile-kept (Untouched id o) (λ k. k ≢ id) (Untouched-stable id o) s.engine cid
            (answers cid) (rest cid) (asked cid) (ne_of_contains cid id open_ids here e) u)

  Untouched-row :
      (s : Auditing F) (cid : ℕ) (row : Option (ProfitRow F))
      → cid ≢ id
      → Untouched id o s.engine
      → Untouched id o (settle_row answers rest s cid row).engine
  unfolding settlement_payload_from_profit_row
  Untouched-row s cid none ne u = u
  Untouched-row s cid (some row) ne u =
      let poc = settlement_payload_from_profit_row cid row in
      let named : (k : ℕ) → poc.contract_id ≡ some k → k ≢ id =
        λ k e. subst (λ x. x ≢ id) (ground arith) ne in
      let kept : Auditing F → Type 0 = λ z. Untouched id o z.engine in
      if_both kept s.engine.has_exited u (
        if_both kept (has_key cid s.engine.active_contracts)
          (process-kept (Untouched id o) (λ k. k ≢ id) (Untouched-stable id o) s.engine poc
            (answers cid).audit named u)
          (late-kept (Untouched id o) (λ k. k ≢ id) (Untouched-stable id o) s.engine poc
            (answers cid).audit named u))

  Untouched-rows :
      (rows : List (ProfitRow F)) (ids : List ℕ) (s : Auditing F)
      → All (λ k. k ≢ id) ids
      → Untouched id o s.engine
      → Untouched id o (settle_rows answers rest rows ids s).engine
  unfolding settle_rows
  Untouched-rows rows [] s apart u = u
  Untouched-rows rows (cid ∷ ids) s apart u =
      Untouched-rows rows ids _ apart.1 (Untouched-row s cid (last_row cid rows none) apart.0 u)

  Untouched-burst :
      (remaining : List ℕ) (table : Reply (List (ProfitRow F))) (s : Auditing F)
      (rows : Option (List (ProfitRow F)))
      → All (λ k. k ≢ id) remaining
      → Untouched id o s.engine
      → Untouched id o (burst answers rest remaining table s rows).0.engine
  Untouched-burst remaining table s none apart u = u
  Untouched-burst remaining table s (some rows) apart u =
      Untouched-rows rows remaining _ apart
        ((Untouched-stable id o).connects s.engine table.online u)

  Untouched-finished :
      (table : Reply (List (ProfitRow F))) (r : Auditing F × Bool)
      → Untouched id o r.0.engine
      → Untouched id o (finished answers rest table r).0.engine
  Untouched-finished table (s, true) u =
      error-kept (Untouched id o) (λ k. k ≢ id) (Untouched-stable id o) s.engine table u
  Untouched-finished table (s, false) u =
      if_both (Untouched id o) s.engine.has_exited u
        (record { keyed = u.keyed; same = u.same; unsettled = u.unsettled })

  Untouched-audit :
      (p : Orchestrator F) (portfolio : Reply (List ℕ)) (table : Reply (List (ProfitRow F)))
      (open_ids : Option (List ℕ))
      → ((ids : List ℕ) → open_ids ≡ some ids → contains id ids ≡ true)
      → Untouched id o p
      → Untouched id o (audit_open answers rest p portfolio table open_ids).0.engine
  Untouched-audit p portfolio table none here u =
      error-kept (Untouched id o) (λ k. k ≢ id) (Untouched-stable id o) p portfolio u
  Untouched-audit p portfolio table (some open_ids) here u =
      let stands = here open_ids refl in
      let start : Auditing F = record {
        engine = heard p portfolio;
        result = no_result;
        settled_ids = [];
      } in
      let known =
        reconcile_known_offline answers rest open_ids (known_contract_ids start.engine) start in
      let reconciled : Untouched id o known.engine =
        Untouched-offline open_ids (known_contract_ids start.engine) start stands
          ((Untouched-stable id o).connects p portfolio.online u) in
      let remaining =
        keep_if (λ k. not (contains k open_ids) && not (contains k known.settled_ids))
          (known_contract_ids known.engine) in
      Untouched-finished table (settle_from_profit_burst answers rest open_ids table known) (
        if_both (λ (z : Auditing F × Bool). Untouched id o z.0.engine)
          (known.engine.has_exited || leb (length remaining) 0) reconciled
          (Untouched-burst remaining table known table.answer
            (kept_apart id open_ids known.settled_ids (known_contract_ids known.engine) stands)
            reconciled))

module _ {F : Type 0} ⦃f : Float F⦄ (answers : ℕ → Answers F) (rest : ℕ → RestAnswers F) where
  finished_flags :
      (table : Reply (List (ProfitRow F))) (r : Auditing F × Bool)
      → let b = (finished answers rest table r).0 in (b.active ≡ false) × (b.pending ≡ false)
  finished_flags table (s, true) = (refl, refl)
  finished_flags table (s, false) = (refl, refl)

  audit_flags :
      (p : Orchestrator F) (portfolio : Reply (List ℕ)) (table : Reply (List (ProfitRow F)))
      (open_ids : Option (List ℕ))
      → let b = (audit_open answers rest p portfolio table open_ids).0 in
        (b.active ≡ false) × (b.pending ≡ false)
  audit_flags p portfolio table none = (refl, refl)
  audit_flags p portfolio table (some open_ids) =
      let start : Auditing F = record {
        engine = heard p portfolio;
        result = no_result;
        settled_ids = [];
      } in
      let known =
        reconcile_known_offline answers rest open_ids (known_contract_ids start.engine) start in
      finished_flags table (settle_from_profit_burst answers rest open_ids table known)

module _ {F : Type 0} ⦃f : Float F⦄ where
  -- A contract that the portfolio lists as open keeps its place among the open ones, and is not settled, through the
  -- audit after a reconnection, whatever the profit table holds and the broker answers on the other contracts; after
  -- an audit that no other audit kept from running, neither of its flags is set.
  pub audit_keeps_open :
      (answers : ℕ → Answers F) (rest : ℕ → RestAnswers F)
      → ((cid : ℕ) (poc : Payload F)
          → (answers cid).open_contract.answer ≡ some (some poc)
          → poc.contract_id ≡ some cid)
      → (id : ℕ) (a : Audited F) (portfolio : Reply (List ℕ)) (table : Reply (List (ProfitRow F)))
      → a.active ≡ false
      → IsKeyed a.engine
      → ((ids : List ℕ) → portfolio.answer ≡ some ids → contains id ids ≡ true)
      → let b = (reconcile_after_ws_recovery answers rest a portfolio table).0 in
        (get id b.engine.active_contracts ≡ get id a.engine.active_contracts)
        × (contains id b.engine.settled_contract_ids ≡ contains id a.engine.settled_contract_ids)
        × (b.active ≡ false)
        × (b.pending ≡ false)
  unfolding reconcile_after_ws_recovery
  audit_keeps_open answers rest asked id a portfolio table idle keyed here =
      let start : Untouched id a.engine a.engine = record {
        keyed = keyed;
        same = refl;
        unsettled = refl;
      } in
      let u =
        Untouched-audit answers rest asked id a.engine a.engine portfolio table portfolio.answer
          here start in
      let (active, pending) = audit_flags answers rest a.engine portfolio table portfolio.answer in
      subst
        (λ (z : Audited F × ReconciliationResult).
          (get id z.0.engine.active_contracts ≡ get id a.engine.active_contracts)
          × (contains id z.0.engine.settled_contract_ids
              ≡ contains id a.engine.settled_contract_ids)
          × (z.0.active ≡ false)
          × (z.0.pending ≡ false))
        (sym (
          if_false a.active (a, no_result)
            (audit_open answers rest a.engine portfolio table portfolio.answer) idle))
        (u.same, u.unsettled, active, pending)
