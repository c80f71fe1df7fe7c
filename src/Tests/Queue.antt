-- ===== src/Tests/Queue.antt =====
-- A contract whose settlement waits in Redis, and one that the cleaner asks the broker about.
use aether_quantum_engine.Common.{
  ℕ, String, true, false, none, some, List, [], ◌∷◌, ◌≡◌, refl, ap, contains, nat_eq, string_eq,
  arith,
}
use aether_quantum_engine.Common.Dict.{get}
use aether_quantum_engine.Common.Int.{ℤ, pos}
use aether_quantum_engine.Common.Float.Fixed.{fixed}
use aether_quantum_engine.Settlement.{Orchestrator, Payload}
use aether_quantum_engine.Settlement.Queue.{
  Reply, Answers, Polled, ended, runs_once, after_attempt, process_redis_settlement_queue,
  poll_items, confirm_queued_item,
}
use aether_quantum_engine.Settlement.Detect.{contract_payload_is_settled}
use aether_quantum_engine.Common.Text.{upper}
use aether_quantum_engine.Settlement.Process.{process_late_settlement_from_payload}
use aether_quantum_engine.Settlement.Settles.{late-ok}
use aether_quantum_engine.Settlement.Queue.Confirmed.{IsHonest}
use aether_quantum_engine.Settlement.Queue.Poll.{poll_settles}
use aether_quantum_engine.Tests.Settlement.{target_of_engine}
use aether_quantum_engine.Settlement.Backfill.{RestAnswers}
use aether_quantum_engine.Settlement.Worker.{reconcile_stale_contracts}
use aether_quantum_engine.Settlement.Worker.Cleaner.{cleaner_keeps_open}
use aether_quantum_engine.Settlement.Rows.{ProfitRow}
use aether_quantum_engine.Settlement.Reconciliation.{Audited, reconcile_after_ws_recovery}
use aether_quantum_engine.Settlement.Reconciliation.Open.{audit_keeps_open}
use aether_quantum_engine.Tests.Data.{engine, contract, lost, no_audit, negative}

abbrev loads : String → Payload ℤ
loads item = lost

-- The broker knows nothing of a contract but that it is closed.
abbrev closed : ℕ → Answers ℤ
closed cid = record {
  open_contract = record {
    answer = some (some (record lost { contract_id = some cid }));
    is_transient = false;
    online = true;
  };
  profit_table = record { answer = none; is_transient = false; online = true };
  audit = no_audit;
}

closed-IsHonest : IsHonest closed
closed-IsHonest = record {
  contract = λ cid poc e. ground arith;
  table = λ cid rows row e found. ground arith;
}

-- Contract 7 is no longer open, but the risk state tracks it.
abbrev late_engine : Orchestrator ℤ
late_engine = record engine { active_contracts = [] }

abbrev asked : Orchestrator ℤ
asked = record late_engine {
  settlement_redis_poll_at = late_engine.monotonic;
  redis_queue_locked = true;
}

late_runs_to_end : runs_once asked lost 7 no_audit ≡ true
late_runs_to_end = late-ok asked lost 7 no_audit (pos 8_620_000) target_of_engine

item_leaves :
    contains "a" (process_redis_settlement_queue loads closed late_engine ("a" ∷ []) true).queue
    ≡ false
unfolding process_redis_settlement_queue poll_items confirm_queued_item contract_payload_is_settled
    upper
item_leaves =
    let started : Polled ℤ = record { engine = asked; queue = "a" ∷ []; is_stuck = false } in
    let done = process_late_settlement_from_payload asked lost no_audit in
    ap (λ b. contains "a" (after_attempt loads closed started "a" (ended done b)).queue)
      late_runs_to_end

poll_settles_example :
    contains 7
      (process_redis_settlement_queue loads closed late_engine
        ("a" ∷ [])
        true).engine.settled_contract_ids
    ≡ true
poll_settles_example =
    poll_settles loads closed closed-IsHonest late_engine ("a" ∷ []) true "a" 7 refl (omega arith)
      refl item_leaves

-- The connection breaks as the broker answers.
abbrev broken : ℕ → Answers ℤ
broken cid = record (closed cid) {
  open_contract = record (closed cid).open_contract { online = false };
}

abbrev no_rest : ℕ → RestAnswers ℤ
no_rest cid = record {
  has_auth = false;
  deriv_account_id = "";
  accounts = record { answer = none; is_transient = false; online = true };
}

-- Contract 8 is open beside contract 7, and the broker lists it.
abbrev two_open : Orchestrator ℤ
two_open = record engine {
  active_contracts = (8, record contract { contract_id = 8 }) ∷ engine.active_contracts;
}

abbrev portfolio : Reply (List ℕ)
portfolio = record { answer = some (8 ∷ []); is_transient = false; online = true }

keeps_open_example :
    let p = (reconcile_stale_contracts closed no_rest two_open portfolio).0 in
    (get 8 p.active_contracts ≡ get 8 two_open.active_contracts)
    × (contains 8 p.settled_contract_ids ≡ contains 8 two_open.settled_contract_ids)
keeps_open_example =
    cleaner_keeps_open closed no_rest (λ cid poc e. ground arith) 8 two_open portfolio
      (λ cid c e. ground arith) (λ ids e. ground arith)

-- The portfolio lists contract 8; the profit table has a row of contract 7, which is lost.
abbrev lost_row : ProfitRow ℤ
lost_row = record {
  contract_id = some 7;
  profit = some (negative 10);
  sell_price = none;
  buy_price = none;
  balance_after = none;
  contract_status = none;
  status = some "lost";
  symbol = some "R_100";
  underlying = none;
  shortcode = none;
}

abbrev table : Reply (List (ProfitRow ℤ))
table = record { answer = some (lost_row ∷ []); is_transient = false; online = true }

abbrev reconnected : Audited ℤ
reconnected = record { engine = two_open; active = false; pending = true }

audit_keeps_open_example :
    let b = (reconcile_after_ws_recovery closed no_rest reconnected portfolio table).0 in
    (get 8 b.engine.active_contracts ≡ get 8 two_open.active_contracts)
    × (contains 8 b.engine.settled_contract_ids ≡ contains 8 two_open.settled_contract_ids)
    × (b.active ≡ false)
    × (b.pending ≡ false)
audit_keeps_open_example =
    audit_keeps_open closed no_rest (λ cid poc e. ground arith) 8 reconnected portfolio table refl
      (λ cid c e. ground arith) (λ ids e. ground arith)
