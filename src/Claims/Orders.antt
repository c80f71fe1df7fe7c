-- ===== src/Claims/Orders.antt =====
-- app/src/application/services/indicator_order_claims.py and indicator_purchase_quarantine.py: one purchase for each
-- symbol and candle. `now` is a reading of `time.time()` in microseconds.
pub mod Local
pub mod Exclusion
use Prim.Native.String.{◌++◌ as str_append}
use aether_quantum_engine.Common.{
  ℕ, ◌+◌, ◌-◌, ◌*◌, ◌/◌, String, Bool, true, false, ◌&&◌, ◌||◌, not, Option, none, some, List, [],
  ◌∷◌, if◌then◌else◌, ◌≡◌, ◌↔◌, refl, arith, Eq, ◌==◌, nat_eq, string_eq, ltb, leb, contains,
  set_add, set_discard, keep_if,
}
use aether_quantum_engine.Common.Dict.{Dict, get_default, put}
use aether_quantum_engine.Risk.{RiskManager}
use aether_quantum_engine.Settlement.{Contract, Orchestrator}
use aether_quantum_engine.Claims.Store.{
  Redis, Key, order_claim, order_symbol_claim, unknown_purchase,
}

-- `(symbol, period, epoch)`
pub record OrderKey : Type 0 where
  pub symbol : String
  pub period : ℕ
  pub epoch : ℕ

abbrev pub same_order : OrderKey → OrderKey → Bool
same_order j k = j.symbol == k.symbol && (j.period == k.period && j.epoch == k.epoch)

pub same_order_iff : (j k : OrderKey) → (same_order j k ≡ true) ↔ (j ≡ k)
same_order_iff j k = ground (
  arith,
  string_eq.beq_iff j.symbol k.symbol,
  nat_eq.beq_iff j.period k.period,
  nat_eq.beq_iff j.epoch k.epoch,
)

instance abbrev pub order_key_eq : Eq OrderKey
order_key_eq = record { beq_iff = same_order_iff; beq = same_order }

-- What the claims keep in one process, and what they read of its configuration: `account` is `mode:account`, and
-- `has_store` tells whether `state_store` is a RedisStateStore.
pub record Claims : Type 0 where
  pub indicator_order_claims : List OrderKey
  pub unknown_purchase_until : Dict String ℕ
  pub account : String
  pub period_seconds : Option ℕ
  pub multi_period_trading : Bool
  pub has_store : Bool

-- The keys of `metrics` that the claims read and write.
pub record Metrics : Type 0 where
  pub indicator_controls_execution : Bool
  pub indicator_candle_epoch : Option ℕ
  pub indicator_period_seconds : Option ℕ
  pub model_input_candle_epoch : Option ℕ
  pub order_candle_epoch : Option ℕ
  pub order_claim_token : Option String
  pub symbol_claim_token : Option String

-- `a or b`: zero counts as absent.
abbrev pub or_nat : Option ℕ → ℕ → ℕ
or_nat none b = b
or_nat (some a) b = if a == 0 then b else a

abbrev pub default_period : Claims → ℕ
default_period c = or_missing c.period_seconds 300
  where
    or_missing : Option ℕ → ℕ → ℕ
    or_missing none b = b
    or_missing (some a) b = a

-- The period that a claim is made with, and the one that `release_unbought_order_claim` looks for.
unfoldable pub claim_period : Claims → Metrics → ℕ
claim_period c m = or_nat m.indicator_period_seconds (default_period c)

unfoldable pub release_period : Metrics → ℕ
release_period m = or_nat m.indicator_period_seconds 300

-- The start of the last closed candle, where the metrics name none.
unfoldable pub claim_epoch : Claims → ℕ → Metrics → ℕ
claim_epoch c now m =
    let period = claim_period c m in
    or_nat m.indicator_candle_epoch
      (or_nat m.model_input_candle_epoch (now / 1_000_000 / period * period - period))

abbrev pub claims_from : ℕ → List OrderKey → List OrderKey
claims_from epoch claims = keep_if (λ k. leb epoch k.epoch) claims

-- A claim drops the claims of older candles first.
unfoldable pub claim_indicator_order : Claims → ℕ → String → Metrics → Claims × Metrics × Bool
claim_indicator_order c now symbol m =
    let epoch = claim_epoch c now m in
    let key : OrderKey = record { symbol = symbol; period = claim_period c m; epoch = epoch } in
    let kept = claims_from epoch c.indicator_order_claims in
    let named = record m { order_candle_epoch = some epoch } in
    if m.indicator_controls_execution && or_nat m.indicator_candle_epoch 0 == 0
    then (c, m, false)
    else if leb epoch 0
    then (c, m, false)
    else if contains key kept
    then (record c { indicator_order_claims = kept }, named, false)
    else (record c { indicator_order_claims = set_add key kept }, named, true)

abbrev pub any_active : String → Dict ℕ String → List ℕ → Bool
any_active symbol names [] = false
any_active symbol names (cid ∷ rest) =
    let later = any_active symbol names rest in get_default cid "" names == symbol || later

module _ {F : Type 0} where
  abbrev pub any_symbol : String → Dict ℕ (Contract F) → Bool
  any_symbol symbol [] = false
  any_symbol symbol ((_, c) ∷ rest) =
      let later = any_symbol symbol rest in c.symbol == symbol || later

  unfoldable pub has_active_contract_for_symbol : Orchestrator F → String → Bool
  has_active_contract_for_symbol o symbol =
      any_symbol symbol o.active_contracts
      || any_active symbol o.risk_manager.contract_to_symbol o.risk_manager.active_contract_ids

-- `purchase_account_key`
abbrev pub purchase_account_key : Claims → String → String
purchase_account_key c symbol = str_append c.account (str_append ":" symbol)

abbrev pub candle_key : Claims → String → Metrics → Key
candle_key c symbol m =
    order_claim (purchase_account_key c symbol) (release_period m) (or_nat m.order_candle_epoch 0)

-- A mark of an unknown purchase, or no answer.
abbrev pub is_marked : Option Bool → Bool
is_marked none = true
is_marked (some b) = b

-- `metrics.get("_order_claim_token")` is set.
abbrev pub holds_claim : Metrics → Bool
holds_claim m = elim m.order_claim_token [ none ↦ false | some held ↦ not (held == "") ]

module _ {S : Type 0} ⦃r : Redis S⦄ where
  abbrev pub or_same : S → Option S → S
  or_same s none = s
  or_same s (some t) = t

  -- Both keys are let go if the first call does not raise; the local claim is kept where either raises.
  abbrev pub release_stored : Claims → S → String → ℕ → ℕ → String → S × Bool
  release_stored c s symbol period epoch token =
      elim (r.delete_if s (order_claim (purchase_account_key c symbol) period epoch) token) [
        | none ↦ (s, false)
        | some t ↦
            if c.multi_period_trading
            then elim (r.delete_if t (order_symbol_claim (purchase_account_key c symbol)) token) [
              | none ↦ (t, false)
              | some u ↦ (u, true)
            ]
            else (t, true)
      ]

  abbrev pub release_token : Claims → S → String → ℕ → ℕ → Option String → S × Bool
  release_token c s symbol period epoch none = (s, true)
  release_token c s symbol period epoch (some token) =
      if c.has_store && not (token == "")
      then release_stored c s symbol period epoch token
      else (s, true)

  unfoldable pub release_unbought_order_claim : Claims → S → String → Metrics → Claims × S
  release_unbought_order_claim c s symbol m =
      let epoch = or_nat m.order_candle_epoch 0 in
      let period = release_period m in
      let key : OrderKey = record { symbol = symbol; period = period; epoch = epoch } in
      let (t, released) = release_token c s symbol period epoch m.order_claim_token in
      (
        if released
            then record c { indicator_order_claims = set_discard key c.indicator_order_claims }
            else c,
        t,
      )

  -- `release_order_symbol_claim`
  unfoldable pub release_order_symbol_claim : Claims → S → String → S
  release_order_symbol_claim c s symbol =
      if c.has_store && not (symbol == "")
      then or_same s (r.delete s (order_symbol_claim (purchase_account_key c symbol)))
      else s

  -- `quarantine_unknown_purchase`
  unfoldable pub quarantine_unknown_purchase : Claims → S → ℕ → String → Claims × S
  quarantine_unknown_purchase c s now symbol =
      let blocked = put symbol (now + 900_000_000) c.unknown_purchase_until in
      let stored = r.set_ex s (unknown_purchase (purchase_account_key c symbol)) "unknown" 900 in
      (record c { unknown_purchase_until = blocked }, if c.has_store then or_same s stored else s)

  -- Gives up a claim whose order key is held: the claim fails, and is let go.
  abbrev pub give_up : Claims → S → String → Metrics → Claims × S × Metrics × Bool
  give_up c s symbol m =
      let (c', t) = release_unbought_order_claim c s symbol m in (c', t, m, false)

  -- Takes over the lock of the symbol, or gives up where that raises.
  abbrev pub take_over :
      Claims → S → String → Metrics → String → Option S → Claims × S × Metrics × Bool
  take_over c s symbol m token none = give_up c s symbol m
  take_over c s symbol m token (some t) = (c, t, record m { symbol_claim_token = some token }, true)

  -- The answer of `set` with `nx` for the lock of the symbol. A lock without an open contract is taken over.
  abbrev pub with_symbol :
      Claims
      → S
      → String
      → Metrics
      → String
      → Bool
      → Option (S × Bool)
      → Claims × S × Metrics × Bool
  with_symbol c s symbol m token active none = give_up c s symbol m
  with_symbol c s symbol m token active (some (t, true)) =
      (c, t, record m { symbol_claim_token = some token }, true)
  with_symbol c s symbol m token active (some (t, false)) =
      if active
      then give_up c t symbol m
      else take_over c t symbol m token (
          r.set_ex t (order_symbol_claim (purchase_account_key c symbol)) token
            (release_period m + 30))

  -- The answer of `set` with `nx` for the candle. Where it raises, a claim that the metrics hold from before is let go.
  abbrev pub with_candle :
      Claims
      → S
      → String
      → Metrics
      → String
      → Bool
      → Option (S × Bool)
      → Claims × S × Metrics × Bool
  with_candle c s symbol m token active none =
      if holds_claim m then give_up c s symbol m else (c, s, m, false)
  with_candle c s symbol m token active (some (t, false)) = (c, t, m, false)
  with_candle c s symbol m token active (some (t, true)) =
      let held = record m { order_claim_token = some token } in
      let key = order_symbol_claim (purchase_account_key c symbol) in
      if c.multi_period_trading
      then with_symbol c t symbol held token active (r.set_nx t key token (release_period m + 30))
      else (c, t, held, true)

  abbrev pub after_local :
      Claims × Metrics × Bool → S → String → String → Bool → Claims × S × Metrics × Bool
  after_local (c, m, claimed) s symbol token active =
      if not claimed
      then (c, s, m, false)
      else if not c.has_store
      then (c, s, m, true)
      else with_candle c s symbol m token active (r.set_nx s (candle_key c symbol m) token 900)

  -- `active` is `_has_active_contract_for_symbol`, and `token` the new `uuid4().hex`.
  unfoldable pub claim_indicator_order_once :
      Claims → S → ℕ → String → Metrics → String → Bool → Claims × S × Metrics × Bool
  claim_indicator_order_once c s now symbol m token active =
      let marked = r.exists s (unknown_purchase (purchase_account_key c symbol)) in
      if ltb now (get_default symbol 0 c.unknown_purchase_until)
      then (c, s, m, false)
      else if c.has_store && is_marked marked
      then (c, s, m, false)
      else after_local (claim_indicator_order c now symbol m) s symbol token active
