-- ===== src/Tests/Claims.antt =====
-- The claims of orders and of the pending loss on concrete candles.
use aether_quantum_engine.Common.{
  ℕ, String, true, false, not, some, none, List, [], ◌∷◌, ◌≡◌, refl, arith, ◌==◌, nat_eq, contains,
}
use aether_quantum_engine.Common.Int.{ℤ}
use aether_quantum_engine.Common.Dict.{Dict}
use aether_quantum_engine.Common.Float.Fixed.{fixed}
use aether_quantum_engine.Claims.Store.{Key, entries, entries-IsRedis}
use aether_quantum_engine.Claims.Orders.{
  order_key_eq, Claims, Metrics, claim_epoch, claim_period, release_period, claim_indicator_order,
  claim_indicator_order_once, release_unbought_order_claim,
}
use aether_quantum_engine.Claims.Orders.Local.{
  Attempt, attempts, claimed_once, order_key, release_after_claim,
}
use aether_quantum_engine.Claims.Orders.Exclusion.{claim_order_once_exclusive}
use aether_quantum_engine.Claims.Recovery.{by_contract, Reservations}
use aether_quantum_engine.Claims.Recovery.Single.{
  Call, claims, binds, releases, IsSingle, calls, calls-IsSingle,
}
use aether_quantum_engine.Tests.Data.{dollars}

abbrev process : Claims
process = record {
  indicator_order_claims = [];
  unknown_purchase_until = [];
  account = "demo:default";
  period_seconds = some 900;
  multi_period_trading = true;
  has_store = true;
}

abbrev candle : ℕ → Metrics
candle epoch = record {
  indicator_controls_execution = true;
  indicator_candle_epoch = some epoch;
  indicator_period_seconds = none;
  model_input_candle_epoch = none;
  order_candle_epoch = none;
  order_claim_token = none;
  symbol_claim_token = none;
}

abbrev other_symbol : List Attempt
other_symbol = record { at = 5; symbol = "R_50"; metrics = candle 900 } ∷ []

claimed_once_example :
    (claim_indicator_order
      (attempts (claim_indicator_order process 3 "R_100" (candle 900)).0 other_symbol)
      9
      "R_100"
      (candle 900)).2
    ≡ false
unfolding claim_indicator_order claim_epoch claim_period attempts
claimed_once_example =
    claimed_once process 3 9 "R_100" (candle 900) (candle 900) other_symbol refl (omega arith, tt)
      refl

abbrev no_keys : Dict Key String
no_keys = []

exclusive_example :
    (claim_indicator_order_once process
      (claim_indicator_order_once process no_keys 3 "R_100" (candle 900) "a" false).1
      4
      "R_100"
      (candle 900)
      "b"
      false).3
    ≡ false
unfolding claim_indicator_order_once claim_indicator_order claim_epoch claim_period release_period
exclusive_example =
    claim_order_once_exclusive entries-IsRedis process process no_keys
      (claim_indicator_order_once process no_keys 3 "R_100" (candle 900) "a" false).1 3 4 "R_100"
      "R_100" (candle 900) (candle 900) "a" "b" false false refl refl refl refl refl

-- The configured period is 900, so the release misses the claim.
release_example :
    contains
      (order_key process 3 "R_100" (candle 900))
      (release_unbought_order_claim
        (claim_indicator_order process 3 "R_100" (candle 900)).0
        no_keys
        "R_100"
        (record (candle 900) {
          order_candle_epoch = some (claim_epoch process 3 (candle 900));
        })).0.indicator_order_claims
    ≡ not (release_period (candle 900) == claim_period process (candle 900))
unfolding claim_indicator_order claim_epoch claim_period
release_example = release_after_claim process no_keys 3 "R_100" (candle 900) refl refl

abbrev account : Reservations ℤ
account = record { claims = []; account = "demo:default"; has_store = true }

abbrev bought_once : List (Call ℤ)
bought_once =
    claims 1 "a" (dollars 4)
    ∷ claims 2 "b" (dollars 4)
    ∷ binds 3 "a" 7
    ∷ releases 9 (by_contract 7)
    ∷ claims 10 "c" (dollars 2)
    ∷ []

single_example : IsSingle (calls (account, no_keys) bought_once).0
single_example = calls-IsSingle account no_keys bought_once (record { single = omega arith })
