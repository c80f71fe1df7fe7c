-- ===== src/Claims/Orders/Local.antt =====
-- What the local claims of a process guarantee.
use aether_quantum_engine.Common.{
  ℕ, ◌≤◌, String, true, false, not, ◌&&◌, Option, none, some, List, [], ◌∷◌, if◌then◌else◌, ◌≡◌,
  refl, arith, ◌==◌, nat_eq, string_eq, eq_refl, leb, contains, set_discard,
}
use aether_quantum_engine.Claims.Orders.{
  OrderKey, order_key_eq, same_order_iff, Claims, Metrics, or_nat, claim_period, release_period,
  claim_epoch, claims_from, claim_indicator_order, release_unbought_order_claim, release_token,
}
use aether_quantum_engine.Claims.Store.{Redis}

-- The key of the candle that a claim is for.
abbrev pub order_key : Claims → ℕ → String → Metrics → OrderKey
order_key c now symbol m = record {
  symbol = symbol;
  period = claim_period c m;
  epoch = claim_epoch c now m;
}

contains-claims_from :
    (k : OrderKey) (epoch : ℕ) (ks : List OrderKey)
    → contains k (claims_from epoch ks) ≡ leb epoch k.epoch && contains k ks
contains-claims_from k epoch [] = ground arith
contains-claims_from k epoch (j ∷ ks) =
    ground (arith, contains-claims_from k epoch ks, same_order_iff j k)

-- A claim keeps every claim of its candle's epoch or a later one.
claim-keeps :
    (c : Claims) (now : ℕ) (symbol : String) (m : Metrics) (k : OrderKey)
    → claim_epoch c now m ≤ k.epoch
    → contains k c.indicator_order_claims ≡ true
    → contains k (claim_indicator_order c now symbol m).0.indicator_order_claims ≡ true
unfolding claim_indicator_order
claim-keeps c now symbol m k le h =
    let epoch = claim_epoch c now m in
    ground (arith, contains-claims_from k epoch c.indicator_order_claims)

claim-period :
    (c : Claims) (now : ℕ) (symbol : String) (m : Metrics)
    → (claim_indicator_order c now symbol m).0.period_seconds ≡ c.period_seconds
unfolding claim_indicator_order
claim-period c now symbol m = ground arith

pub record Attempt : Type 0 where
  pub at : ℕ
  pub symbol : String
  pub metrics : Metrics

unfoldable pub attempts : Claims → List Attempt → Claims
attempts c [] = c
attempts c (a ∷ tries) = attempts (claim_indicator_order c a.at a.symbol a.metrics).0 tries

-- Every attempt is for a candle that starts no later than `epoch`.
abbrev pub UpTo : Claims → ℕ → List Attempt → Type 0
UpTo c epoch [] = Unit
UpTo c epoch (a ∷ tries) =
    (claim_epoch c a.at a.metrics ≤ epoch)
    × UpTo (claim_indicator_order c a.at a.symbol a.metrics).0 epoch tries

attempts-keep :
    (c : Claims) (tries : List Attempt) (k : OrderKey)
    → UpTo c k.epoch tries
    → contains k c.indicator_order_claims ≡ true
    → contains k (attempts c tries).indicator_order_claims ≡ true
unfolding attempts
attempts-keep c [] k _ h = h
attempts-keep c (a ∷ tries) k (le, rest) h =
    attempts-keep (claim_indicator_order c a.at a.symbol a.metrics).0 tries k rest
      (claim-keeps c a.at a.symbol a.metrics k le h)

claim-contains :
    (c : Claims) (now : ℕ) (symbol : String) (m : Metrics)
    → (claim_indicator_order c now symbol m).2 ≡ true
    → contains
        (order_key c now symbol m)
        (claim_indicator_order c now symbol m).0.indicator_order_claims
      ≡ true
unfolding claim_indicator_order
claim-contains c now symbol m h = ground (arith, eq_refl (order_key c now symbol m))

claim_again :
    (c : Claims) (now : ℕ) (symbol : String) (m : Metrics)
    → contains (order_key c now symbol m) c.indicator_order_claims ≡ true
    → (claim_indicator_order c now symbol m).2 ≡ false
unfolding claim_indicator_order
claim_again c now symbol m h = ground (
  arith,
  contains-claims_from (order_key c now symbol m) (claim_epoch c now m) c.indicator_order_claims,
)

-- Once a symbol's candle is claimed, and after any attempts on candles that start no later, it is not claimed again.
pub claimed_once :
    (c : Claims) (now later : ℕ) (symbol : String) (m n : Metrics) (tries : List Attempt)
    → (claim_indicator_order c now symbol m).2 ≡ true
    → let claimed = (claim_indicator_order c now symbol m).0 in
      UpTo claimed (claim_epoch c now m) tries
      → order_key (attempts claimed tries) later symbol n ≡ order_key c now symbol m
      → (claim_indicator_order (attempts claimed tries) later symbol n).2 ≡ false
claimed_once c now later symbol m n tries h upto same =
    let claimed = (claim_indicator_order c now symbol m).0 in
    let kept =
      attempts-keep claimed tries (order_key c now symbol m) upto
        (claim-contains c now symbol m h) in
    claim_again (attempts claimed tries) later symbol n (rw same kept)

contains-set_discard :
    (j k : OrderKey) (ks : List OrderKey)
    → contains k (set_discard j ks) ≡ not (j == k) && contains k ks
contains-set_discard j k [] = ground arith
contains-set_discard j k (i ∷ ks) =
    ground (
      arith,
      contains-set_discard j k ks,
      same_order_iff i j,
      same_order_iff i k,
      same_order_iff j k,
    )

claim-named :
    (c : Claims) (now : ℕ) (symbol : String) (m : Metrics)
    → (claim_indicator_order c now symbol m).2 ≡ true
    → (claim_indicator_order c now symbol m).1
      ≡ record m { order_candle_epoch = some (claim_epoch c now m) }
unfolding claim_indicator_order
claim-named c now symbol m h = ground arith

positive_epoch :
    (c : Claims) (now : ℕ) (symbol : String) (m : Metrics)
    → (claim_indicator_order c now symbol m).2 ≡ true
    → or_nat (some (claim_epoch c now m)) 0 ≡ claim_epoch c now m
positive_epoch c now symbol m h = ground arith

-- What a release looks for.
abbrev pub released_key : String → Metrics → OrderKey
released_key symbol m = record {
  symbol = symbol;
  period = release_period m;
  epoch = or_nat m.order_candle_epoch 0;
}

module _ {S : Type 0} ⦃r : Redis S⦄ where
  release_without_token :
      (c : Claims) (s : S) (symbol : String) (m : Metrics) (period epoch : ℕ) (key : OrderKey)
      (token : Option String)
      → token ≡ none
      → (if (release_token c s symbol period epoch token).1
          then record c { indicator_order_claims = set_discard key c.indicator_order_claims }
          else c).indicator_order_claims
        ≡ set_discard key c.indicator_order_claims
  release_without_token c s symbol m period epoch key none e = refl
  release_without_token c s symbol m period epoch key (some t) e = ground arith

  release-discard :
      (c : Claims) (s : S) (symbol : String) (m : Metrics)
      → m.order_claim_token ≡ none
      → (release_unbought_order_claim c s symbol m).0.indicator_order_claims
        ≡ set_discard (released_key symbol m) c.indicator_order_claims
  unfolding release_unbought_order_claim
  release-discard c s symbol m e =
      release_without_token c s symbol m _ _ (released_key symbol m) m.order_claim_token e

  -- A claim that is released without a token in the store stays in the process exactly where the release looks for
  -- another period: where the metrics name none and the configured period is not 300.
  pub release_after_claim :
      (c : Claims) (s : S) (now : ℕ) (symbol : String) (m : Metrics)
      → (claim_indicator_order c now symbol m).2 ≡ true
      → m.order_claim_token ≡ none
      → let claimed = (claim_indicator_order c now symbol m).0 in
        let named = record m { order_candle_epoch = some (claim_epoch c now m) } in
        contains
          (order_key c now symbol m)
          (release_unbought_order_claim claimed s symbol named).0.indicator_order_claims
        ≡ not (release_period m == claim_period c m)
  unfolding release_period
  release_after_claim c s now symbol m h free =
      let claimed = (claim_indicator_order c now symbol m).0 in
      let named = record m { order_candle_epoch = some (claim_epoch c now m) } in
      let k = order_key c now symbol m in
      let looked_for = released_key symbol named in
      rw
        (
          release-discard claimed s symbol named free,
          contains-set_discard looked_for k claimed.indicator_order_claims,
        )
        (ground (
          arith,
          claim-contains c now symbol m h,
          positive_epoch c now symbol m h,
          string_eq.beq_iff symbol symbol,
        ))
