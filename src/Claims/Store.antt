-- ===== src/Claims/Store.antt =====
-- What the claims use of Redis. A key is a constructor with the parts of the text that the code builds.
use aether_quantum_engine.Common.{
  ℕ, String, Bool, true, false, ◌&&◌, Option, none, some, if◌then◌else◌, ◌≡◌, ◌≢◌, ◌↔◌, arith, Eq,
  ◌==◌, nat_eq, string_eq,
}
use aether_quantum_engine.Common.Dict.{Dict, get, put, pop, get-put, get-pop}

-- The text `prefix:account:period:epoch`; a key without a period and an epoch has 0 there.
pub record Key : Type 0 where
  pub prefix : String
  pub account : String
  pub period : ℕ
  pub epoch : ℕ

abbrev pub order_claim : String → ℕ → ℕ → Key
order_claim a p e = record { prefix = "order_claim"; account = a; period = p; epoch = e }

abbrev pub order_symbol_claim : String → Key
order_symbol_claim a = record { prefix = "order_symbol_claim"; account = a; period = 0; epoch = 0 }

abbrev pub unknown_purchase : String → Key
unknown_purchase a = record { prefix = "unknown_purchase"; account = a; period = 0; epoch = 0 }

abbrev pub pullback_recovery : String → Key
pullback_recovery a = record { prefix = "pullback_recovery"; account = a; period = 0; epoch = 0 }

abbrev pub same_key : Key → Key → Bool
same_key j k =
    (j.prefix == k.prefix && j.account == k.account) && (j.period == k.period && j.epoch == k.epoch)

pub same_key_iff : (j k : Key) → (same_key j k ≡ true) ↔ (j ≡ k)
same_key_iff j k = ground (
  arith,
  string_eq.beq_iff j.prefix k.prefix,
  string_eq.beq_iff j.account k.account,
  nat_eq.beq_iff j.period k.period,
  nat_eq.beq_iff j.epoch k.epoch,
)

instance abbrev pub key_eq : Eq Key
key_eq = record { beq_iff = same_key_iff; beq = same_key }

pub order_claim-ne-symbol : (a b : String) (p e : ℕ) → order_claim a p e ≢ order_symbol_claim b
order_claim-ne-symbol a b p e h =
    ground (arith, (same_key_iff (order_claim a p e) (order_symbol_claim b)).1 h)

-- A call that raises answers `none`. `holds` is what is stored now: a key that has expired is not stored.
-- `set_nx` is `set(key, value, nx=True, ex=...)`, `set_ex` is `set` without `nx`, and `delete_if` is the script that
-- deletes a key only if it has the given value.
pub record Redis (S : Type 0) : Type 0 where
  pub holds : S → Key → Option String
  pub exists : S → Key → Option Bool
  pub set_nx : S → Key → String → ℕ → Option (S × Bool)
  pub set_ex : S → Key → String → ℕ → Option S
  pub delete : S → Key → Option S
  pub delete_if : S → Key → String → Option S

pub record IsRedis (S : Type 0) ⦃r : Redis S⦄ : Type 0 where
  pub set_nx_free :
      (s t : S) (k : Key) (v : String) (ex : ℕ)
      → r.set_nx s k v ex ≡ some (t, true)
      → (r.holds s k ≡ none) × (r.holds t k ≡ some v)
  pub set_nx_held :
      (s t : S) (k : Key) (v : String) (ex : ℕ) → r.set_nx s k v ex ≡ some (t, false) → t ≡ s
  pub set_nx_other :
      (s t : S) (j k : Key) (v : String) (ex : ℕ) (b : Bool)
      → r.set_nx s k v ex ≡ some (t, b)
      → j ≢ k
      → r.holds t j ≡ r.holds s j
  pub set_ex_other :
      (s t : S) (j k : Key) (v : String) (ex : ℕ)
      → r.set_ex s k v ex ≡ some t
      → j ≢ k
      → r.holds t j ≡ r.holds s j
  pub delete_if_own :
      (s t : S) (k : Key) (v : String)
      → r.delete_if s k v ≡ some t
      → r.holds s k ≡ some v
      → r.holds t k ≡ none
  pub delete_if_foreign :
      (s t : S) (j k : Key) (v w : String)
      → r.delete_if s k v ≡ some t
      → r.holds s j ≡ some w
      → w ≢ v
      → r.holds t j ≡ some w
  pub delete_if_other :
      (s t : S) (j k : Key) (v : String)
      → r.delete_if s k v ≡ some t
      → j ≢ k
      → r.holds t j ≡ r.holds s j

-- A store that never fails and that nothing expires in.
instance abbrev pub entries : Redis (Dict Key String)
entries = record {
  holds = λ s k. get k s;
  exists = λ s k. some (elim (get k s) [ none ↦ false | some _ ↦ true ]);
  set_nx = λ s k v ex. elim (get k s) [ none ↦ some (put k v s, true) | some _ ↦ some (s, false) ];
  set_ex = λ s k v ex. some (put k v s);
  delete = λ s k. some (pop k s);
  delete_if =
      λ s k v. elim (get k s) [ none ↦ some s | some w ↦ some (if w == v then pop k s else s) ];
}

pub entries-IsRedis : IsRedis (Dict Key String)
entries-IsRedis = record {
  set_nx_free = λ s t k v ex h. ground (arith, get-put k k v s, key_eq.beq_iff k k);
  set_nx_held = λ s t k v ex h. ground arith;
  set_nx_other = λ s t j k v ex b h n. ground (arith, get-put j k v s, key_eq.beq_iff k j);
  set_ex_other = λ s t j k v ex h n. ground (arith, get-put j k v s, key_eq.beq_iff k j);
  delete_if_own =
      λ s t k v h held. ground (arith, get-pop k k s, key_eq.beq_iff k k, string_eq.beq_iff v v);
  delete_if_foreign = λ s t j k v w h held n.
      ground (arith, get-pop j k s, key_eq.beq_iff k j, string_eq.beq_iff w v);
  delete_if_other = λ s t j k v h n. ground (arith, get-pop j k s, key_eq.beq_iff k j);
}
