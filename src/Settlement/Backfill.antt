-- ===== src/Settlement/Backfill.antt =====
-- settlement_backfill.py and settlement_rest.py: how one contract is settled with the broker where no message came.
-- While a request waits only the connection may change.
pub mod Preserved
use aether_quantum_engine.Common.{
  ℕ, String, Bool, true, false, not, ◌&&◌, ◌||◌, Option, none, some, List, [], ◌∷◌, if◌then◌else◌,
  ◌==◌, string_eq, nat_eq,
}
use aether_quantum_engine.Common.Int.{ℤ, pos}
use aether_quantum_engine.Common.Dict.{get}
use aether_quantum_engine.Common.Float.{Float, nought}
use aether_quantum_engine.Settlement.{Contract, Payload, Orchestrator}
use aether_quantum_engine.Settlement.Detect.{contract_payload_is_settled}
use aether_quantum_engine.Settlement.Outcome.{Audit}
use aether_quantum_engine.Settlement.Rows.{ProfitRow, settlement_payload_from_profit_row}
use aether_quantum_engine.Settlement.Process.{process_contract_settlement}
use aether_quantum_engine.Settlement.Queue.{Reply, Answers, heard, runs_once}

-- What the broker's REST interface answers: `orch.auth` may be missing, and `accounts` are the ids and balances of
-- `list_accounts`.
pub record RestAnswers (F : Type 0) : Type 0 where
  pub has_auth : Bool
  pub deriv_account_id : String
  pub accounts : Reply (List (String × F))

-- A call that returns a Boolean; `none` where it raised, or shut the engine down.
abbrev pub Called : (F : Type 0) → Type 0
Called F = Orchestrator F × Option Bool

abbrev pub has_id : Option ℕ → ℕ → Bool
has_id none cid = false
has_id (some k) cid = k == cid

module _ {F : Type 0} where
  abbrev pub mark_ws_offline : Orchestrator F → Orchestrator F
  mark_ws_offline o = record o { ws_is_running = false }

  -- What a request that raised leaves.
  abbrev pub after_error : {A : Type 0} → Orchestrator F → Reply A → Orchestrator F
  after_error o r = if r.is_transient then mark_ws_offline (heard o r) else heard o r

  -- The first row that names the contract.
  abbrev pub named_row : ℕ → List (ProfitRow F) → Option (ProfitRow F)
  named_row cid [] = none
  named_row cid (r ∷ rows) =
      let later = named_row cid rows in if has_id r.contract_id cid then some r else later

  abbrev pub account_balance : String → List (String × F) → Option F
  account_balance account [] = none
  account_balance account ((id, balance) ∷ rest) =
      let later = account_balance account rest in
      if not (account == "") && id == account then some balance else later

  abbrev pub first_balance : List (String × F) → F → F
  first_balance [] d = d
  first_balance ((id, balance) ∷ rest) d = balance

  -- `_balance_after_wait`: the active account, else the first, else the balance that is known.
  abbrev pub balance_after_wait : String → List (String × F) → F → F
  balance_after_wait account accounts d = elim (account_balance account accounts) [
    | none ↦ first_balance accounts d
    | some balance ↦ balance
  ]

module _ {F : Type 0} ⦃f : Float F⦄ where
  open f use {lit, neg, add, sub, mul, le, lt, of_int}

  abbrev pub runs_known : Orchestrator F → Payload F → Option ℕ → Audit F → Bool
  runs_known o c none audit = true
  runs_known o c (some cid) audit = if o.ws_is_running then runs_once o c cid audit else true

  -- Whether `process_contract_settlement` runs to its end.
  abbrev pub runs_process : Orchestrator F → Payload F → Audit F → Bool
  runs_process o c audit =
      if contract_payload_is_settled c then runs_known o c c.contract_id audit else true

  -- `await process_contract_settlement(...)` and `return True`
  abbrev pub settle_and_tell : Orchestrator F → Payload F → Audit F → Called F
  settle_and_tell o c audit =
      (process_contract_settlement o c audit, if runs_process o c audit then some true else none)

  abbrev pub backfill_row : Orchestrator F → ℕ → Audit F → Option (ProfitRow F) → Called F
  backfill_row o cid audit none = (o, some false)
  backfill_row o cid audit (some row) =
      settle_and_tell o (settlement_payload_from_profit_row cid row) audit

  abbrev pub backfill_table :
      Orchestrator F → ℕ → Answers F → Option (List (ProfitRow F)) → Called F
  backfill_table o cid a none = (after_error o a.profit_table, some false)
  backfill_table o cid a (some rows) =
      backfill_row (heard o a.profit_table) cid a.audit (named_row cid rows)

  -- An answer with an error has no rows.
  unfoldable pub backfill_contract_from_profit_table : Orchestrator F → ℕ → Answers F → Called F
  backfill_contract_from_profit_table o cid a = backfill_table o cid a a.profit_table.answer

  -- `_synthetic_poc`
  abbrev pub synthetic_poc : ℕ → Bool → F → F → Payload F
  synthetic_poc cid won buy_price payout = record {
    contract_id = some cid;
    status = some (if won then "won" else "lost");
    is_settled = none;
    is_expired = none;
    profit = some (if won then sub payout buy_price else neg buy_price);
    balance_after = none;
    underlying = none;
    buy_price = some buy_price;
    purchase_price = none;
    amount = none;
  }

  -- The balance holds the payout, or most of it.
  abbrev pub inferred_won : F → F → F → F → Bool
  inferred_won balance balance_after_buy buy_price payout =
      le balance_after_buy balance
      || le (add (sub balance_after_buy buy_price) (mul payout (lit 4 1))) balance

  abbrev pub infer_from_balance :
      Orchestrator F
      → Contract F
      → F
      → RestAnswers F
      → Audit F
      → Option (List (String × F))
      → Orchestrator F
  infer_from_balance o contract balance_after_buy rest audit none = o
  infer_from_balance o contract balance_after_buy rest audit (some accounts) =
      let balance = balance_after_wait rest.deriv_account_id accounts o.balance in
      let won = inferred_won balance balance_after_buy contract.buy_price contract.payout in
      process_contract_settlement (record o { balance = balance })
        (synthetic_poc contract.contract_id won contract.buy_price contract.payout) audit

  abbrev pub infer_rest : Orchestrator F → Contract F → F → RestAnswers F → Audit F → Orchestrator F
  infer_rest o contract balance_after_buy rest audit =
      infer_from_balance (heard o rest.accounts) contract balance_after_buy rest audit
        rest.accounts.answer

  -- An error of either way is logged and passed over; an engine that has exited does nothing more.
  abbrev pub rest_after_backfill :
      Called F → Contract F → F → Answers F → RestAnswers F → Orchestrator F
  rest_after_backfill (o, some true) contract balance_after_buy a rest = o
  rest_after_backfill (o, some false) contract balance_after_buy a rest =
      infer_rest o contract balance_after_buy rest a.audit
  rest_after_backfill (o, none) contract balance_after_buy a rest =
      if o.has_exited then o else infer_rest o contract balance_after_buy rest a.audit

  unfoldable pub settle_rest_contract_when_due :
      Orchestrator F → Contract F → F → Answers F → RestAnswers F → Orchestrator F
  settle_rest_contract_when_due o contract balance_after_buy a rest =
      if o.ws_is_running
      then rest_after_backfill (backfill_contract_from_profit_table o contract.contract_id a)
          contract balance_after_buy a rest
      else infer_rest o contract balance_after_buy rest a.audit

  -- At least 3 seconds after the expiry.
  abbrev pub is_expired_by : F → ℕ → Bool
  is_expired_by wall expiry_time =
      let expiry = of_int (pos expiry_time) in
      not (le expiry nought || lt wall (add expiry (lit 3 0)))

  abbrev pub rest_for : Orchestrator F → Option (Contract F) → Answers F → RestAnswers F → Called F
  rest_for o none a rest = (o, some false)
  rest_for o (some contract) a rest =
      if not (is_expired_by o.wall contract.expiry_time)
      then (o, some false)
      else if not rest.has_auth
      then (o, some false)
      else (settle_rest_contract_when_due o contract o.balance a rest, some true)

  -- `_reconcile_expired_contract_via_rest`
  abbrev pub reconcile_expired_contract_via_rest :
      Orchestrator F → ℕ → Answers F → RestAnswers F → Called F
  reconcile_expired_contract_via_rest o cid a rest = rest_for o (get cid o.active_contracts) a rest

  abbrev pub after_backfill : Called F → ℕ → Answers F → RestAnswers F → Called F
  after_backfill (o, none) cid a rest = (o, none)
  after_backfill (o, some true) cid a rest = (o, some true)
  after_backfill (o, some false) cid a rest = reconcile_expired_contract_via_rest o cid a rest

  -- An empty answer is `none`.
  abbrev pub reconcile_by :
      Orchestrator F → ℕ → Answers F → RestAnswers F → Option (Option (Payload F)) → Called F
  reconcile_by o cid a rest none = (after_error o a.open_contract, none)
  reconcile_by o cid a rest (some none) =
      after_backfill (backfill_contract_from_profit_table (heard o a.open_contract) cid a) cid a
        rest
  reconcile_by o cid a rest (some (some poc)) =
      if contract_payload_is_settled poc
      then settle_and_tell (heard o a.open_contract) poc a.audit
      else (heard o a.open_contract, some false)

  unfoldable pub reconcile_single_contract :
      Orchestrator F → ℕ → Answers F → RestAnswers F → Called F
  reconcile_single_contract o cid a rest = reconcile_by o cid a rest a.open_contract.answer
