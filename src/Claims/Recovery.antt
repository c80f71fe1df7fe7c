-- ===== src/Claims/Recovery.antt =====
-- app/src/application/services/pullback_recovery_claim.py: one reservation of the pending loss for each account. `now`
-- is a reading of `time.monotonic()` in microseconds.
pub mod Single
use aether_quantum_engine.Common.{
  ℕ, ◌+◌, String, Bool, true, false, ◌&&◌, not, Option, none, some, List, [], ◌∷◌, if◌then◌else◌,
  ◌≡◌, ◌↔◌, refl, arith, map, Eq, ◌==◌, nat_eq, string_eq, ltb, leb, length, keep_if,
}
use aether_quantum_engine.Common.Dict.{Dict, get, put, pop}
use aether_quantum_engine.Common.Float.{Float, nought, fmax, fsum}
use aether_quantum_engine.Claims.Store.{Redis, Key, pullback_recovery}

-- `int | str`: a claim is known by its token until the contract is bought.
pub data Identity : Type 0 where
  by_token : String → Identity
  by_contract : ℕ → Identity

abbrev pub same_identity : Identity → Identity → Bool
same_identity (by_token a) (by_token b) = a == b
same_identity (by_contract a) (by_contract b) = a == b
same_identity (by_token a) (by_contract b) = false
same_identity (by_contract a) (by_token b) = false

pub same_identity_iff : (j k : Identity) → (same_identity j k ≡ true) ↔ (j ≡ k)
same_identity_iff (by_token a) (by_token b) = ground (arith, string_eq.beq_iff a b)
same_identity_iff (by_contract a) (by_contract b) = ground (arith, nat_eq.beq_iff a b)
same_identity_iff (by_token a) (by_contract b) = ground arith
same_identity_iff (by_contract a) (by_token b) = ground arith

instance abbrev pub identity_eq : Eq Identity
identity_eq = record { beq_iff = same_identity_iff; beq = same_identity }

pub record Claim (F : Type 0) : Type 0 where
  pub token : String
  pub amount : F
  pub expires_at : ℕ

-- `account` is `mode:account`; `has_store` tells whether `state_store` is a RedisStateStore.
pub record Reservations (F : Type 0) : Type 0 where
  pub claims : Dict Identity (Claim F)
  pub account : String
  pub has_store : Bool

abbrev pub let_go {ℓ} : {S : Type ℓ} → S → Option S → S
let_go s none = s
let_go s (some t) = t

module _ {F : Type 0} where
  -- `_claims` drops the claims that have expired.
  abbrev pub alive : ℕ → Reservations F → Reservations F
  alive now p = record p { claims = keep_if (λ e. ltb now e.1.expires_at) p.claims }

  abbrev pub bind_claim : Reservations F → String → ℕ → Option (Claim F) → Reservations F
  bind_claim p token contract_id none = p
  bind_claim p token contract_id (some claim) = record p {
    claims =
        put (by_contract contract_id) (record claim { expires_at = claim.expires_at + 900_000_000 })
          (pop (by_token token) p.claims);
  }

  unfoldable pub bind_recovery_contract : Reservations F → ℕ → String → ℕ → Reservations F
  bind_recovery_contract p now token contract_id =
      let q = alive now p in bind_claim q token contract_id (get (by_token token) q.claims)

module _ {F : Type 0} ⦃f : Float F⦄ where
  open f use {sub, le, lt}

  -- `pending` is `risk_manager.pending_loss_total()`, and `active` whether a contract is open.
  unfoldable pub unreserved_loss : Reservations F → ℕ → F → Bool → F
  unreserved_loss p now pending_loss active =
      let pending = fmax nought pending_loss in
      let claims = (alive now p).claims in
      if lt nought pending && active && leb (length claims) 0
      then nought
      else fmax nought (sub pending (fsum (map (λ e. e.1.amount) claims)))

  abbrev pub with_claim : Reservations F → ℕ → String → F → Reservations F
  with_claim p now token amount = record p {
    claims =
        put (by_token token)
          (record { token = token; amount = amount; expires_at = now + 900_000_000 }) p.claims;
  }

  module _ {S : Type 0} ⦃r : Redis S⦄ where
    -- The answer of `set` with `nx`, or no answer.
    abbrev pub claim_stored :
        Reservations F → S → ℕ → String → F → Option (S × Bool) → Reservations F × S × Option String
    claim_stored p s now token amount none = (p, s, none)
    claim_stored p s now token amount (some (t, false)) = (p, t, none)
    claim_stored p s now token amount (some (t, true)) =
        (with_claim p now token amount, t, some token)

    -- `token` is the new `uuid4().hex`.
    unfoldable pub claim_recovery :
        Reservations F → S → ℕ → String → F → Reservations F × S × Option String
    claim_recovery p s now token amount =
        let q = alive now p in
        if le amount nought
        then (p, s, none)
        else if not (leb (length q.claims) 0)
        then (q, s, none)
        else if q.has_store
        then claim_stored q s now token amount (r.set_nx s (pullback_recovery q.account) token 900)
        else (with_claim q now token amount, s, some token)

    abbrev pub release_claim : Reservations F → S → Identity → Option (Claim F) → Reservations F × S
    release_claim p s identity none = (p, s)
    release_claim p s identity (some claim) =
        let stored = r.delete_if s (pullback_recovery p.account) claim.token in
        (record p { claims = pop identity p.claims }, if p.has_store then let_go s stored else s)

    unfoldable pub release_recovery : Reservations F → S → ℕ → Identity → Reservations F × S
    release_recovery p s now identity =
        let q = alive now p in release_claim q s identity (get identity q.claims)
