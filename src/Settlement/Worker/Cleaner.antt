-- ===== src/Settlement/Worker/Cleaner.antt =====
-- The cleaner of orphans in orchestrator_settlement_queue.py leaves alone what the broker says is open.
use aether_quantum_engine.Common.{
  ℕ, Bool, true, false, not, ◌||◌, Option, none, some, List, [], ◌∷◌, if◌then◌else◌, ◌≡◌, ◌≢◌, refl,
  arith, nat_eq, contains, set_add, leb, length, if_both, if_false, ap, sym, ◌∙◌, ◌==◌,
}
use aether_quantum_engine.Common.Dict.{get, get-pop}
use aether_quantum_engine.Common.Float.{Float}
use aether_quantum_engine.Risk.Settlement.{is_tracked}
use aether_quantum_engine.Settlement.{Contract, Payload, Orchestrator}
use aether_quantum_engine.Settlement.Outcome.{Audit}
use aether_quantum_engine.Settlement.Process.{
  settle_found, finalize_contract, mark_settled, Handled, push_to_redis_priority_queue,
}
use aether_quantum_engine.Settlement.Kept.{Kept}
use aether_quantum_engine.Settlement.Once.{confirmed-Kept, late-Kept}
use aether_quantum_engine.Settlement.Queue.{Reply, Answers, heard}
use aether_quantum_engine.Settlement.Backfill.{RestAnswers, reconcile_single_contract}
use aether_quantum_engine.Settlement.Backfill.Preserved.{IsStable, reconcile-kept}
use aether_quantum_engine.Settlement.Worker.{
  known_contract_ids, prune_local_orphans, count_settled, reconcile_one, reconcile_each, pruned,
  reconcile_known, reconcile_stale_contracts,
}

contains-set_add_ne :
    (id cid : ℕ) (xs : List ℕ) → cid ≢ id → contains id (set_add cid xs) ≡ contains id xs
contains-set_add_ne id cid xs h = ground (arith, nat_eq.beq_iff cid id)

not_same : (cid id : ℕ) → cid ≢ id → (cid == id) ≡ false
not_same cid id h = ground (arith, nat_eq.beq_iff cid id)

pub ne_of_contains :
    (cid id : ℕ) (xs : List ℕ) → contains id xs ≡ true → contains cid xs ≡ false → cid ≢ id
ne_of_contains cid id xs h k e = ground (arith, ap (λ x. contains x xs) e)

module _ {F : Type 0} ⦃f : Float F⦄ where
  -- Every open contract stands under its id.
  abbrev pub IsKeyed : Orchestrator F → Type 0
  IsKeyed o = (cid : ℕ) (c : Contract F) → get cid o.active_contracts ≡ some c → c.contract_id ≡ cid

  -- From `o` to `p` the contract `id` is as it was.
  pub record Untouched (id : ℕ) (o p : Orchestrator F) : Type 0 where
    pub keyed : IsKeyed p
    pub same : get id p.active_contracts ≡ get id o.active_contracts
    pub unsettled : contains id p.settled_contract_ids ≡ contains id o.settled_contract_ids

  Untouched-of_Kept :
      {id : ℕ} {o p q : Orchestrator F} → Untouched id o p → Kept p q → Untouched id o q
  Untouched-of_Kept {id} u k = record {
    keyed = λ cid c e. u.keyed cid c (ap (get cid) (sym k.open_contracts) ∙ e);
    same = ap (get id) k.open_contracts ∙ u.same;
    unsettled = ap (contains id) k.settled ∙ u.unsettled;
  }

  Untouched-mark :
      (id cid : ℕ) (o : Orchestrator F) (h : Handled F)
      → cid ≢ id
      → Untouched id o h.0
      → Untouched id o (mark_settled cid h)
  Untouched-mark id cid o (p, true) ne u = record {
    keyed = u.keyed;
    same = u.same;
    unsettled = contains-set_add_ne id cid p.settled_contract_ids ne ∙ u.unsettled;
  }
  Untouched-mark id cid o (p, false) ne u = u

  Untouched-found :
      (id : ℕ) (o p : Orchestrator F) (c : Payload F) (contract : Option (Contract F)) (cid : ℕ)
      (audit : Audit F)
      → cid ≢ id
      → Untouched id o p
      → Untouched id o (settle_found p c contract cid audit)
  Untouched-found id o p c none cid audit ne u =
      if_both (Untouched id o) (is_tracked p.risk_manager cid)
        (Untouched-mark id cid o _ ne (Untouched-of_Kept u (late-Kept p c cid audit))) u
  Untouched-found id o p c (some contract) cid audit ne u =
      Untouched-mark id cid o _ ne (Untouched-of_Kept u (confirmed-Kept p c contract cid audit))

  Untouched-finalize :
      (id : ℕ) (o p : Orchestrator F) (cid : ℕ)
      → cid ≢ id
      → Untouched id o p
      → Untouched id o (finalize_contract p cid).0
  Untouched-finalize id o p cid ne u = record {
    keyed = λ k c e. u.keyed k c (ground (arith, get-pop k cid p.active_contracts));
    same =
        get-pop id cid p.active_contracts
        ∙ if_false (cid == id) none _ (not_same cid id ne)
        ∙ u.same;
    unsettled = u.unsettled;
  }

  -- Settlements of other contracts leave the contract untouched.
  pub Untouched-stable : (id : ℕ) (o : Orchestrator F) → IsStable (Untouched id o) (λ cid. cid ≢ id)
  unfolding push_to_redis_priority_queue
  Untouched-stable id o = record {
    settles = λ p c cid audit ne u.
        if_both (Untouched id o) (contains cid p.settled_contract_ids) u (
          Untouched-found id o _ c (get cid p.active_contracts) cid audit ne
            (Untouched-finalize id o p cid ne u));
    pushes = λ p cid u.
        if_both (Untouched id o)
          (leb cid 0 || (p.redis_queue_locked || contains cid p.settlement_redis_enqueued)) u
          (record { keyed = u.keyed; same = u.same; unsettled = u.unsettled });
    connects = λ p online u. record { keyed = u.keyed; same = u.same; unsettled = u.unsettled };
    pays = λ p balance u. record { keyed = u.keyed; same = u.same; unsettled = u.unsettled };
    keyed = λ p cid c u e. u.keyed cid c e;
  }

  Untouched-prune :
      (id : ℕ) (o p : Orchestrator F) → Untouched id o p → Untouched id o (prune_local_orphans p)
  unfolding prune_local_orphans
  Untouched-prune id o p u = if_both (Untouched id o) (not (leb (length p.active_contracts) 0)) u (
      if_both (Untouched id o) (leb (length p.risk_manager.active_contract_ids) 0) u
        (record { keyed = u.keyed; same = u.same; unsettled = u.unsettled }))

  -- What holds of one pair, and of the other where the test fails.
  if_apart :
      (P : Orchestrator F → Type 0) (b : Bool) (x y : Orchestrator F × ℕ)
      → P x.0
      → (b ≡ false → P y.0)
      → P (if b then x else y).0
  if_apart P true x y p q = p
  if_apart P false x y p q = q refl

  module _ (answers : ℕ → Answers F) (rest : ℕ → RestAnswers F)
      (asked : (cid : ℕ) (poc : Payload F)
        → (answers cid).open_contract.answer ≡ some (some poc)
        → poc.contract_id ≡ some cid)
      (id : ℕ) (o : Orchestrator F) where
    Untouched-one :
        (open_ids : List ℕ) (p : Orchestrator F) (settled cid : ℕ)
        → contains id open_ids ≡ true
        → Untouched id o p
        → Untouched id o (reconcile_one answers rest open_ids (p, settled) cid).0
    Untouched-one open_ids p settled cid here u =
        let r = reconcile_single_contract p cid (answers cid) (rest cid) in
        if_apart (Untouched id o) p.has_exited (p, settled) _ u
          (λ alive.
            if_apart (Untouched id o) (contains cid open_ids) (p, settled)
              (r.0, count_settled answers rest settled r.1) u
              (λ away.
                reconcile-kept (Untouched id o) (λ k. k ≢ id) (Untouched-stable id o) p cid
                  (answers cid) (rest cid) (asked cid) (ne_of_contains cid id open_ids here away)
                  u))

    Untouched-each :
        (open_ids : List ℕ) (r : Orchestrator F × ℕ) (ids : List ℕ)
        → contains id open_ids ≡ true
        → Untouched id o r.0
        → Untouched id o (reconcile_each answers rest open_ids r ids).0
    unfolding reconcile_each
    Untouched-each open_ids r [] here u = u
    Untouched-each open_ids (p, settled) (cid ∷ ids) here u =
        Untouched-each open_ids (reconcile_one answers rest open_ids (p, settled) cid) ids here
          (Untouched-one open_ids p settled cid here u)

    Untouched-pruned :
        (r : Orchestrator F × ℕ) → Untouched id o r.0 → Untouched id o (pruned answers rest r).0
    Untouched-pruned (p, settled) u =
        if_apart (Untouched id o) p.has_exited (p, settled) (prune_local_orphans p, settled) u
          (λ alive. Untouched-prune id o p u)

    Untouched-known :
        (p : Orchestrator F) (known : List ℕ) (portfolio : Option (List ℕ))
        → ((open_ids : List ℕ) → portfolio ≡ some open_ids → contains id open_ids ≡ true)
        → Untouched id o p
        → Untouched id o (reconcile_known answers rest p known portfolio).0
    Untouched-known p known none here u = u
    Untouched-known p known (some open_ids) here u =
        Untouched-pruned (reconcile_each answers rest open_ids (p, 0) known)
          (Untouched-each open_ids (p, 0) known (here open_ids refl) u)

    -- A contract that the portfolio lists as open keeps its place among the open ones, and is not settled, through a
    -- run of the cleaner, whatever the broker answers on the other contracts.
    pub cleaner_keeps_open :
        (portfolio : Reply (List ℕ))
        → IsKeyed o
        → ((open_ids : List ℕ) → portfolio.answer ≡ some open_ids → contains id open_ids ≡ true)
        → let p = (reconcile_stale_contracts answers rest o portfolio).0 in
          (get id p.active_contracts ≡ get id o.active_contracts)
          × (contains id p.settled_contract_ids ≡ contains id o.settled_contract_ids)
    unfolding reconcile_stale_contracts
    cleaner_keeps_open portfolio keyed here =
        let start : Untouched id o o = record { keyed = keyed; same = refl; unsettled = refl } in
        let heard_open : Untouched id o (heard o portfolio) = record {
          keyed = keyed;
          same = refl;
          unsettled = refl;
        } in
        let known = known_contract_ids o in
        let u =
          if_apart (Untouched id o) (not o.ws_is_running) (o, 0) _ start
            (λ online.
              if_apart (Untouched id o) (leb (length known) 0) (prune_local_orphans o, 0) _
                (Untouched-prune id o o start)
                (λ some_known.
                  Untouched-known (heard o portfolio) known portfolio.answer here heard_open)) in
        (u.same, u.unsettled)
