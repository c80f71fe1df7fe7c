-- ===== src/Settlement/Worker.antt =====
-- orchestrator_settlement_queue.py and settlement_utils.py: the worker of the settlement queue and the cleaner of
-- orphans. Times are microseconds of the loop's clock.
pub mod Cleaner
use aether_quantum_engine.Common.{
  ℕ, ◌+◌, String, Bool, true, false, not, ◌&&◌, ◌||◌, Option, none, some, List, [], ◌∷◌, ◌++◌, map,
  if◌then◌else◌, ◌==◌, string_eq, nat_eq, leb, ltb, length, contains, set_discard, keep_if,
  insert_ids,
}
use aether_quantum_engine.Common.Dict.{Dict, keys, pop, has_key}
use aether_quantum_engine.Common.Float.{Float}
use aether_quantum_engine.Risk.{RiskManager}
use aether_quantum_engine.Settlement.{Contract, Payload, Orchestrator}
use aether_quantum_engine.Settlement.Outcome.{Audit}
use aether_quantum_engine.Settlement.Process.{process_contract_settlement}
use aether_quantum_engine.Settlement.Queue.{
  Reply, Answers, Polled, heard, process_redis_settlement_queue,
}
use aether_quantum_engine.Settlement.Backfill.{
  RestAnswers, Called, reconcile_single_contract, runs_process,
}

module _ {F : Type 0} where
  -- `_known_contract_ids`
  unfoldable pub known_contract_ids : Orchestrator F → List ℕ
  known_contract_ids o = insert_ids (keys o.active_contracts) (
      insert_ids o.risk_manager.active_contract_ids
        (insert_ids (keys o.risk_manager.contract_to_symbol) []))

  -- `prune_orphan_contract_ids`: the ids that the state has, and the others.
  abbrev pub prune_orphan_contract_ids : List ℕ → Dict ℕ (Contract F) → List ℕ × List ℕ
  prune_orphan_contract_ids ids active =
      (keep_if (λ c. has_key c active) ids, keep_if (λ c. not (has_key c active)) ids)

  abbrev pub clear_contract_metadata : List ℕ → RiskManager F → RiskManager F
  clear_contract_metadata [] rm = rm
  clear_contract_metadata (cid ∷ ids) rm = clear_contract_metadata ids (record rm {
    contract_to_symbol = pop cid rm.contract_to_symbol;
    cluster_results = pop cid rm.cluster_results;
  })

  -- `_prune_local_orphans`
  unfoldable pub prune_local_orphans : Orchestrator F → Orchestrator F
  prune_local_orphans o =
      let (kept, orphans) =
        prune_orphan_contract_ids o.risk_manager.active_contract_ids o.active_contracts in
      let rm = record o.risk_manager { active_contract_ids = kept } in
      if not (leb (length o.active_contracts) 0)
      then o
      else if leb (length o.risk_manager.active_contract_ids) 0
      then o
      else record o { risk_manager = clear_contract_metadata orphans rm }

module _ {F : Type 0} ⦃f : Float F⦄ (answers : ℕ → Answers F) (rest : ℕ → RestAnswers F) where
  abbrev pub count_settled : ℕ → Option Bool → ℕ
  count_settled n none = n
  count_settled n (some true) = n + 1
  count_settled n (some false) = n

  abbrev pub reconcile_one : List ℕ → Orchestrator F × ℕ → ℕ → Orchestrator F × ℕ
  reconcile_one open_ids (o, settled) cid =
      let (p, answer) = reconcile_single_contract o cid (answers cid) (rest cid) in
      if o.has_exited
      then (o, settled)
      else if contains cid open_ids
      then (o, settled)
      else (p, count_settled settled answer)

  unfoldable pub reconcile_each : List ℕ → Orchestrator F × ℕ → List ℕ → Orchestrator F × ℕ
  reconcile_each open_ids r [] = r
  reconcile_each open_ids r (cid ∷ ids) = reconcile_each open_ids (reconcile_one open_ids r cid) ids

  abbrev pub pruned : Orchestrator F × ℕ → Orchestrator F × ℕ
  pruned (o, settled) = if o.has_exited then (o, settled) else (prune_local_orphans o, settled)

  abbrev pub reconcile_known : Orchestrator F → List ℕ → Option (List ℕ) → Orchestrator F × ℕ
  reconcile_known o known none = (o, 0)
  reconcile_known o known (some open_ids) = pruned (reconcile_each open_ids (o, 0) known)

  -- `portfolio` are the ids of the contracts that are open at the broker.
  unfoldable pub reconcile_stale_contracts : Orchestrator F → Reply (List ℕ) → Orchestrator F × ℕ
  reconcile_stale_contracts o portfolio =
      let known = known_contract_ids o in
      if not o.ws_is_running
      then (o, 0)
      else if leb (length known) 0
      then (prune_local_orphans o, 0)
      else reconcile_known (heard o portfolio) known portfolio.answer

  -- After a run of the cleaner the window starts again where contracts are left.
  abbrev pub cleaned : Orchestrator F → Orchestrator F
  cleaned o = if o.has_exited then o else record o {
    settlement_pending_since = if leb (length (known_contract_ids o)) 0 then 0 else o.monotonic;
  }

  -- `_maybe_run_orphan_cleaner`, with the window of tolerance
  unfoldable pub maybe_run_orphan_cleaner : Orchestrator F → ℕ → Reply (List ℕ) → Orchestrator F
  maybe_run_orphan_cleaner o window portfolio =
      if leb (length (known_contract_ids o)) 0
      then record o { settlement_pending_since = 0 }
      else if o.settlement_pending_since == 0
      then record o { settlement_pending_since = o.monotonic }
      else if ltb o.monotonic (o.settlement_pending_since + window)
      then o
      else cleaned (reconcile_stale_contracts o portfolio).0

-- Where a worker is after a round: in its loop, at the end of it, waiting for the lock of the queue that it holds
-- itself, gone with an error, or gone with the engine.
pub data WorkerState : Type 0 where
  working finished stuck failed exited : WorkerState

pub record Worker (F : Type 0) : Type 0 where
  pub engine : Orchestrator F
  pub redis_queue : List String
  pub state : WorkerState

-- What a round hears from outside: the broker's answers, the audit of the contract that it settles, and whether
-- nothing was put into the queue for a quarter of a second.
pub record Heard (F : Type 0) : Type 0 where
  pub answers : ℕ → Answers F
  pub rest : ℕ → RestAnswers F
  pub portfolio : Reply (List ℕ)
  pub audit : Audit F

module _ {F : Type 0} ⦃f : Float F⦄ where
  abbrev pub discard_queued : Option ℕ → Orchestrator F → Orchestrator F
  discard_queued none o = o
  discard_queued (some cid) o = record o {
    settlement_queued_ids = set_discard cid o.settlement_queued_ids;
  }

  -- The `finally` of a settlement: `queue` is what is left.
  abbrev pub after_settlement : Orchestrator F → Payload F → List (Payload F) → Orchestrator F
  after_settlement o c queue =
      let discarded = discard_queued c.contract_id o in
      if leb (length queue) 0 && leb (length (known_contract_ids discarded)) 0
      then record discarded { settlement_pending_since = 0 }
      else discarded

  -- The next payload of the queue, which an empty queue does not give in time.
  abbrev pub settle_next : Worker F → Heard F → Option (List (Payload F)) → Worker F
  settle_next w h none = w
  settle_next w h (some []) = w
  settle_next w h (some (c ∷ queue)) =
      let taken = record w.engine { settlement_queue = some queue } in
      let settled = process_contract_settlement taken c h.audit in
      if settled.has_exited then record w { engine = settled; state = exited } else record w {
        engine = after_settlement settled c queue;
        state = if runs_process taken c h.audit then working else failed;
      }

  abbrev pub is_queue_empty : Option (List (Payload F)) → Bool
  is_queue_empty none = true
  is_queue_empty (some queue) = leb (length queue) 0

  abbrev pub after_poll : Polled F → Worker F → Heard F → ℕ → Worker F
  after_poll p w h window =
      let o = maybe_run_orphan_cleaner h.answers h.rest p.engine window h.portfolio in
      let cleaned_up = record w { engine = o; redis_queue = p.queue } in
      if p.is_stuck
      then record w { engine = p.engine; redis_queue = p.queue; state = stuck }
      else if p.engine.has_exited
      then record w { engine = p.engine; redis_queue = p.queue; state = exited }
      else if o.has_exited
      then record cleaned_up { state = exited }
      else settle_next cleaned_up h o.settlement_queue

  -- One turn of `_settlement_worker_loop`
  unfoldable pub worker_round : (String → Payload F) → ℕ → Worker F → Heard F → Worker F
  worker_round loads window w h =
      let o = w.engine in
      let polled = process_redis_settlement_queue loads h.answers o w.redis_queue false in
      if o.running || not (is_queue_empty o.settlement_queue)
      then after_poll polled w h window
      else record w { state = finished }
