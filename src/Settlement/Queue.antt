-- ===== src/Settlement/Queue.antt =====
-- settlement_queue_ops.py: the queue in Redis of settlements that came while the broker was offline, and how each is
-- confirmed with the broker. While a poll waits for the broker only the connection may change.
pub mod Confirmed
pub mod Poll
pub mod Stuck
pub mod Keeps
pub mod Leaves
use aether_quantum_engine.Common.{
  ℕ, ◌+◌, String, Bool, true, false, not, ◌&&◌, ◌||◌, Option, none, some, List, [], ◌∷◌,
  if◌then◌else◌, ◌==◌, string_eq, nat_eq, leb, ltb, contains, set_discard,
}
use aether_quantum_engine.Common.Dict.{get, has_key}
use aether_quantum_engine.Common.Float.{Float}
use aether_quantum_engine.Risk.Settlement.{is_tracked}
use aether_quantum_engine.Settlement.{Contract, Payload, Orchestrator}
use aether_quantum_engine.Settlement.Detect.{contract_payload_is_settled}
use aether_quantum_engine.Settlement.Outcome.{Audit}
use aether_quantum_engine.Settlement.Rows.{ProfitRow, settlement_payload_from_profit_row}
use aether_quantum_engine.Settlement.Process.{
  process_confirmed_settlement, process_late_settlement_once, settle_once, finalize_contract,
  process_late_settlement_from_payload, push_to_redis_priority_queue,
}

-- What comes of a request to the broker: its answer, `none` where it raised; whether it is `is_transient_broker_error`
-- that it raised; and whether the connection stands then.
pub record Reply (A : Type 0) : Type 0 where
  pub answer : Option A
  pub is_transient : Bool
  pub online : Bool

-- What the broker answers on one contract, and its audit.
pub record Answers (F : Type 0) : Type 0 where
  pub open_contract : Reply (Option (Payload F))
  pub profit_table : Reply (List (ProfitRow F))
  pub audit : Audit F

-- A confirmation ends, and takes the item out of the queue or not; or it waits for the lock of the queue, which its own
-- poll holds.
pub data Attempt (F : Type 0) : Type 0 where
  waits_for_lock : Orchestrator F → Attempt F
  ended : Orchestrator F → Bool → Attempt F

-- What a poll leaves: the engine, the queue, and whether it still waits.
pub record Polled (F : Type 0) : Type 0 where
  pub engine : Orchestrator F
  pub queue : List String
  pub is_stuck : Bool

-- `int(r.get("contract_id", 0))`
abbrev pub row_id : Option ℕ → ℕ
row_id none = 0
row_id (some cid) = cid

module _ {F : Type 0} where
  abbrev pub heard : {A : Type 0} → Orchestrator F → Reply A → Orchestrator F
  heard o r = record o { ws_is_running = r.online }

  -- `next((r for r in rows if …), None)`
  abbrev pub find_row : ℕ → List (ProfitRow F) → Option (ProfitRow F)
  find_row cid [] = none
  find_row cid (r ∷ rows) =
      let later = find_row cid rows in if row_id r.contract_id == cid then some r else later

module _ {F : Type 0} ⦃f : Float F⦄ where
  abbrev pub is_owned : Orchestrator F → ℕ → Bool
  is_owned o cid =
      has_key cid o.active_contracts
      || (is_tracked o.risk_manager cid || contains cid o.settled_contract_ids)

  -- Whether a settlement runs to its end, on each way of `settle_once`.
  abbrev pub runs_found : Orchestrator F → Payload F → Option (Contract F) → ℕ → Audit F → Bool
  runs_found o c (some found) cid audit = (process_confirmed_settlement o c found cid audit).1
  runs_found o c none cid audit =
      if is_tracked o.risk_manager cid then (process_late_settlement_once o c cid audit).1 else true

  abbrev pub runs_once : Orchestrator F → Payload F → ℕ → Audit F → Bool
  runs_once o c cid audit =
      if contains cid o.settled_contract_ids
      then true
      else runs_found (finalize_contract o cid).0 c (get cid o.active_contracts) cid audit

  -- `push_to_redis_priority_queue` as its caller sees it: it waits where the lock, which is not reentrant, is held.
  abbrev pub push_under_lock : Orchestrator F → ℕ → Attempt F
  push_under_lock o cid =
      if leb cid 0
      then ended o true
      else if o.redis_queue_locked
      then waits_for_lock o
      else ended (push_to_redis_priority_queue o cid) true

  -- `process_contract_settlement`, as a poll of the queue sees it.
  abbrev pub process_under_lock_known : Orchestrator F → Payload F → Option ℕ → Audit F → Attempt F
  process_under_lock_known o c none audit = ended o true
  process_under_lock_known o c (some cid) audit =
      if o.ws_is_running
      then ended (settle_once o c cid audit) (runs_once o c cid audit)
      else push_under_lock o cid

  abbrev pub process_under_lock : Orchestrator F → Payload F → Audit F → Attempt F
  process_under_lock o c audit =
      if contract_payload_is_settled c
      then process_under_lock_known o c c.contract_id audit
      else ended o true

  abbrev pub late_runs : Orchestrator F → Payload F → Option ℕ → Audit F → Bool
  late_runs o c none audit = true
  late_runs o c (some cid) audit = runs_once o c cid audit

  -- A late payload is settled whether or not the connection stands.
  abbrev pub process_late : Orchestrator F → Payload F → Audit F → Attempt F
  process_late o c audit =
      ended (process_late_settlement_from_payload o c audit)
        (if contract_payload_is_settled c then late_runs o c c.contract_id audit else true)

  abbrev pub settle_confirmed : Orchestrator F → Payload F → ℕ → Audit F → Attempt F
  settle_confirmed o c cid audit =
      if has_key cid o.active_contracts
      then process_under_lock o c audit
      else process_late o c audit

  abbrev pub confirm_by_row : Orchestrator F → ℕ → Audit F → Option (ProfitRow F) → Attempt F
  confirm_by_row o cid audit none = ended o false
  confirm_by_row o cid audit (some row) =
      settle_confirmed o (settlement_payload_from_profit_row cid row) cid audit

  abbrev pub confirm_by_table :
      Orchestrator F → ℕ → Audit F → Option (List (ProfitRow F)) → Attempt F
  confirm_by_table o cid audit none = ended o false
  confirm_by_table o cid audit (some rows) = confirm_by_row o cid audit (find_row cid rows)

  abbrev pub ask_table : Orchestrator F → ℕ → Answers F → Attempt F
  ask_table o cid a = confirm_by_table (heard o a.profit_table) cid a.audit a.profit_table.answer

  -- The open contract where the broker says that it is settled, else its row in the profit table.
  abbrev pub confirm_by_contract :
      Orchestrator F → ℕ → Answers F → Option (Option (Payload F)) → Attempt F
  confirm_by_contract o cid a none = ended o false
  confirm_by_contract o cid a (some none) = ask_table o cid a
  confirm_by_contract o cid a (some (some poc)) =
      if contract_payload_is_settled poc
      then settle_confirmed o poc cid a.audit
      else ask_table o cid a

  abbrev pub confirm_known : Orchestrator F → Option ℕ → (ℕ → Answers F) → Attempt F
  confirm_known o none answers = ended o true
  confirm_known o (some cid) answers =
      let a = answers cid in
      if is_owned o cid
      then confirm_by_contract (heard o a.open_contract) cid a a.open_contract.answer
      else ended o false

  -- `payload` is `json.loads(item_str)`.
  unfoldable pub confirm_queued_item : Orchestrator F → Payload F → (ℕ → Answers F) → Attempt F
  confirm_queued_item o payload answers = confirm_known o payload.contract_id answers

  abbrev pub discard_enqueued : Option ℕ → Orchestrator F → Orchestrator F
  discard_enqueued none o = o
  discard_enqueued (some cid) o = record o {
    settlement_redis_enqueued = set_discard cid o.settlement_redis_enqueued;
  }

  -- The items are the members of the queue, which `json.loads` reads.
  module _ (loads : String → Payload F) (answers : ℕ → Answers F) where
    abbrev pub after_attempt : Polled F → String → Attempt F → Polled F
    after_attempt p item (waits_for_lock o) = record p { engine = o; is_stuck = true }
    after_attempt p item (ended o false) = record p { engine = o }
    after_attempt p item (ended o true) = record p {
      engine = discard_enqueued (loads item).contract_id o;
      queue = set_discard item p.queue;
    }

    abbrev pub poll_item : Polled F → String → Polled F
    poll_item p item =
        if p.is_stuck || p.engine.has_exited
        then p
        else after_attempt p item (confirm_queued_item p.engine (loads item) answers)

    unfoldable pub poll_items : Polled F → List String → Polled F
    poll_items p [] = p
    poll_items p (item ∷ items) = poll_items (poll_item p item) items

    -- The end of `async with _redis_lock(orch)`, which a poll that waits does not reach.
    abbrev pub unlocked : Polled F → Polled F
    unlocked p = record p {
      engine = record p.engine { redis_queue_locked = p.is_stuck && p.engine.redis_queue_locked };
    }

    -- At most once in 2 seconds, unless forced. The queue that is read is the queue that is changed.
    unfoldable pub process_redis_settlement_queue : Orchestrator F → List String → Bool → Polled F
    process_redis_settlement_queue o queue force =
        let idle : Polled F = record { engine = o; queue = queue; is_stuck = false } in
        let polled = record o { settlement_redis_poll_at = o.monotonic } in
        let started : Polled F = record idle {
          engine = record polled { redis_queue_locked = true };
        } in
        if not o.ws_is_running
        then idle
        else if not force && ltb o.monotonic (o.settlement_redis_poll_at + 2_000_000)
        then idle
        else if o.redis_queue_locked
        then record idle { engine = polled; is_stuck = true }
        else unlocked (poll_items started queue)
