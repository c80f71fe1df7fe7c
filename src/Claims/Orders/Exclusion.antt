-- ===== src/Claims/Orders/Exclusion.antt =====
-- Two processes on one account: the store gives a candle to one of them.
use aether_quantum_engine.Common.{
  ℕ, String, Bool, true, false, not, ◌&&◌, Option, none, some, if◌then◌else◌, ◌≡◌, refl, arith,
  nat_eq, string_eq, ltb, ◌∙◌, ap,
}
use aether_quantum_engine.Common.Dict.{get_default}
use aether_quantum_engine.Claims.Store.{
  Redis, IsRedis, Key, order_claim, order_symbol_claim, unknown_purchase, order_claim-ne-symbol,
}
use aether_quantum_engine.Claims.Orders.{
  Claims, Metrics, claim_indicator_order, candle_key, take_over, with_symbol, with_candle,
  holds_claim, after_local, is_marked, purchase_account_key, claim_indicator_order_once,
}

-- The answer of a claim: the process, the store, the metrics, and whether it succeeded.
abbrev pub Answer : Type 0 → Type 0
Answer S = Claims × S × Metrics × Bool

module _ {S : Type 0} ⦃r : Redis S⦄ where
  -- If the claim succeeded, the store has the token at the key.
  pub record IsHeld (k : Key) (token : String) (q : Answer S) : Type 0 where
    pub held : q.3 ≡ true → r.holds q.1 k ≡ some token

  if-IsHeld :
      {k : Key} {w : String} {p q : Answer S} (b : Bool)
      → IsHeld k w p
      → IsHeld k w q
      → IsHeld k w (if b then p else q)
  if-IsHeld true x y = x
  if-IsHeld false x y = y

  failed-IsHeld :
      (k : Key) (w : String) (c : Claims) (s : S) (m : Metrics) → IsHeld k w (c, s, m, false)
  failed-IsHeld k w c s m = record { held = λ h. ground arith }

  if-IsHeld_no :
      {k : Key} {w : String} {q : Answer S} (p : Answer S) (b : Bool)
      → b ≡ false
      → IsHeld k w q
      → IsHeld k w (if b then p else q)
  if-IsHeld_no p true e y = ground arith
  if-IsHeld_no p false e y = y

  pub record IsRefused (q : Answer S) : Type 0 where
    pub refused : q.3 ≡ false

  if-IsRefused :
      {p q : Answer S} (b : Bool) → IsRefused p → IsRefused q → IsRefused (if b then p else q)
  if-IsRefused true x y = x
  if-IsRefused false x y = y

  if-IsRefused_no :
      {q : Answer S} (p : Answer S) (b : Bool)
      → b ≡ false
      → IsRefused q
      → IsRefused (if b then p else q)
  if-IsRefused_no p true e y = ground arith
  if-IsRefused_no p false e y = y

module _ {S : Type 0} ⦃r : Redis S⦄ (laws : IsRedis S) where
  -- A claim that succeeded left its token at the key of the candle.
  take_over-holds :
      (c : Claims) (s : S) (symbol : String) (m : Metrics) (token : String) (k : Key) (t : Option S)
      → ((u : S) → t ≡ some u → r.holds u k ≡ r.holds s k)
      → (take_over c s symbol m token t).3 ≡ true
      → r.holds (take_over c s symbol m token t).1 k ≡ r.holds s k
  take_over-holds c s symbol m token k none keeps h = ground arith
  take_over-holds c s symbol m token k (some u) keeps h = keeps u refl

  with_symbol-holds :
      (c : Claims) (s : S) (symbol : String) (m : Metrics) (token : String) (active : Bool)
      (a : String) (p e : ℕ) (v : String) (ex : ℕ) (answer : Option (S × Bool))
      → r.set_nx s (order_symbol_claim (purchase_account_key c symbol)) v ex ≡ answer
      → let q = with_symbol c s symbol m token active answer in
        q.3 ≡ true → r.holds q.1 (order_claim a p e) ≡ r.holds s (order_claim a p e)
  with_symbol-holds c s symbol m token active a p e v ex none eq h = ground arith
  with_symbol-holds c s symbol m token active a p e v ex (some (t, true)) eq h =
      laws.set_nx_other s t (order_claim a p e) _ v ex true eq (order_claim-ne-symbol a _ p e)
  with_symbol-holds c s symbol m token true a p e v ex (some (t, false)) eq h = ground arith
  with_symbol-holds c s symbol m token false a p e v ex (some (t, false)) eq h =
      take_over-holds c t symbol m token (order_claim a p e) _
        (λ u f.
          laws.set_ex_other t u (order_claim a p e) _ token _ f (order_claim-ne-symbol a _ p e))
        h
      ∙ laws.set_nx_other s t (order_claim a p e) _ v ex false eq (order_claim-ne-symbol a _ p e)

  with_candle-IsHeld :
      (c : Claims) (s : S) (symbol : String) (m : Metrics) (token : String) (active : Bool)
      (answer : Option (S × Bool))
      → r.set_nx s (candle_key c symbol m) token 900 ≡ answer
      → IsHeld (candle_key c symbol m) token (with_candle c s symbol m token active answer)
  with_candle-IsHeld c s symbol m token active none eq =
      if-IsHeld (holds_claim m) (record { held = λ g. ground arith }) (failed-IsHeld _ token c s m)
  with_candle-IsHeld c s symbol m token active (some (t, false)) eq = failed-IsHeld _ token c t m
  with_candle-IsHeld c s symbol m token active (some (t, true)) eq =
      let held = record m { order_claim_token = some token } in
      let free = laws.set_nx_free s t (candle_key c symbol m) token 900 eq in
      if-IsHeld c.multi_period_trading
        (record {
          held =
              λ g. with_symbol-holds c t symbol held token active _ _ _ token _ _ refl g ∙ free.1;
        })
        (record { held = λ g. free.1 })

  after_local-IsHeld :
      (c : Claims) (m : Metrics) (claimed : Bool) (s : S) (symbol token : String) (active : Bool)
      → c.has_store ≡ true
      → IsHeld (candle_key c symbol m) token (after_local (c, m, claimed) s symbol token active)
  after_local-IsHeld c m claimed s symbol token active stored =
      if-IsHeld (not claimed) (failed-IsHeld _ token c s m) (
        if-IsHeld_no (c, s, m, true) (not c.has_store) (ground arith)
          (with_candle-IsHeld c s symbol m token active _ refl))

  with_candle-IsRefused :
      (c : Claims) (s : S) (symbol : String) (m : Metrics) (token w : String) (active : Bool)
      (answer : Option (S × Bool))
      → r.set_nx s (candle_key c symbol m) token 900 ≡ answer
      → r.holds s (candle_key c symbol m) ≡ some w
      → IsRefused (with_candle c s symbol m token active answer)
  with_candle-IsRefused c s symbol m token w active none eq held =
      if-IsRefused (holds_claim m) (record { refused = refl }) (record { refused = refl })
  with_candle-IsRefused c s symbol m token w active (some (t, false)) eq held = record {
    refused = refl;
  }
  with_candle-IsRefused c s symbol m token w active (some (t, true)) eq held =
      ground (arith, laws.set_nx_free s t (candle_key c symbol m) token 900 eq)

  after_local-IsRefused :
      (c : Claims) (m : Metrics) (claimed : Bool) (s : S) (symbol token w : String) (active : Bool)
      → c.has_store ≡ true
      → r.holds s (candle_key c symbol m) ≡ some w
      → IsRefused (after_local (c, m, claimed) s symbol token active)
  after_local-IsRefused c m claimed s symbol token w active stored held =
      if-IsRefused (not claimed) (record { refused = refl })
        (if-IsRefused_no (c, s, m, true) (not c.has_store) (ground arith)
          (with_candle-IsRefused c s symbol m token w active _ refl held))

  local-has_store :
      (c : Claims) (now : ℕ) (symbol : String) (m : Metrics)
      → (claim_indicator_order c now symbol m).0.has_store ≡ c.has_store
  unfolding claim_indicator_order
  local-has_store c now symbol m = ground arith

  -- The key of the candle that a claim names.
  abbrev pub named_key : Claims → ℕ → String → Metrics → Key
  named_key c now symbol m =
      candle_key (claim_indicator_order c now symbol m).0 symbol
        (claim_indicator_order c now symbol m).1

  claim_once-IsHeld :
      (c : Claims) (s : S) (now : ℕ) (symbol : String) (m : Metrics) (token : String)
      (active : Bool)
      → c.has_store ≡ true
      → IsHeld
          (named_key c now symbol m)
          token
          (claim_indicator_order_once c s now symbol m token active)
  unfolding claim_indicator_order_once
  claim_once-IsHeld c s now symbol m token active stored =
      let q = claim_indicator_order c now symbol m in
      if-IsHeld (ltb now (get_default symbol 0 c.unknown_purchase_until))
        (failed-IsHeld _ token c s m)
        (if-IsHeld
          (c.has_store && is_marked (r.exists s (unknown_purchase (purchase_account_key c symbol))))
          (failed-IsHeld _ token c s m)
          (after_local-IsHeld q.0 q.1 q.2 s symbol token active
            (local-has_store c now symbol m ∙ stored)))

  claim_once-IsRefused :
      (c : Claims) (s : S) (now : ℕ) (symbol : String) (m : Metrics) (token w : String)
      (active : Bool)
      → c.has_store ≡ true
      → r.holds s (named_key c now symbol m) ≡ some w
      → IsRefused (claim_indicator_order_once c s now symbol m token active)
  unfolding claim_indicator_order_once
  claim_once-IsRefused c s now symbol m token w active stored held =
      let q = claim_indicator_order c now symbol m in
      if-IsRefused (ltb now (get_default symbol 0 c.unknown_purchase_until))
        (record { refused = refl })
        (if-IsRefused
          (c.has_store && is_marked (r.exists s (unknown_purchase (purchase_account_key c symbol))))
          (record { refused = refl })
          (after_local-IsRefused q.0 q.1 q.2 s symbol token w active
            (local-has_store c now symbol m ∙ stored) held))

  -- If a process with the store claims a candle of a symbol, then any process of the account, whatever it holds of its
  -- own, fails to claim the same candle while the store keeps the key of the first.
  pub claim_order_once_exclusive :
      (c d : Claims) (s t : S) (now later : ℕ) (symbol other : String) (m n : Metrics)
      (token w : String) (active busy : Bool)
      → c.has_store ≡ true
      → d.has_store ≡ true
      → (claim_indicator_order_once c s now symbol m token active).3 ≡ true
      → named_key d later other n ≡ named_key c now symbol m
      → r.holds t (named_key c now symbol m)
        ≡ r.holds
            (claim_indicator_order_once c s now symbol m token active).1
            (named_key c now symbol m)
      → (claim_indicator_order_once d t later other n w busy).3 ≡ false
  claim_order_once_exclusive c d s t now later symbol other m n token w active busy cs ds won same
        kept =
      let first = (claim_once-IsHeld c s now symbol m token active cs).held won in
      (claim_once-IsRefused d t later other n w token busy ds
        (ap (r.holds t) same ∙ kept ∙ first)).refused
