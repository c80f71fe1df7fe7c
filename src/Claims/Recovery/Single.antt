-- ===== src/Claims/Recovery/Single.antt =====
-- A process never holds two reservations.
use aether_quantum_engine.Common.{
  ℕ, ◌≤◌, String, Bool, true, false, not, Option, none, some, List, [], ◌∷◌, if◌then◌else◌, ◌≡◌,
  refl, arith, ltb, leb, length, keep_if,
}
use aether_quantum_engine.Common.Dict.{Dict, get, put, pop}
use aether_quantum_engine.Common.Float.{Float, nought}
use aether_quantum_engine.Claims.Store.{Redis, pullback_recovery}
use aether_quantum_engine.Claims.Recovery.{
  Identity, by_token, by_contract, identity_eq, same_identity_iff, Claim, Reservations, alive,
  bind_claim, bind_recovery_contract, with_claim, claim_stored, claim_recovery, release_claim,
  release_recovery,
}

-- What cycles do with the reservations: `at` is the reading of the clock.
pub data Call (F : Type 0) : Type 0 where
  claims : ℕ → String → F → Call F
  binds : ℕ → String → ℕ → Call F
  releases : ℕ → Identity → Call F

module _ {F : Type 0} where
  -- At most one reservation.
  pub record IsSingle (p : Reservations F) : Type 0 where
    pub single : length p.claims ≤ 1

  alive-IsSingle : (now : ℕ) (p : Reservations F) → IsSingle p → IsSingle (alive now p)
  alive-IsSingle now p h = record { single = shorter p.claims h.single }
    where
      shorter :
          (d : Dict Identity (Claim F))
          → length d ≤ 1
          → length (keep_if (λ e. ltb now e.1.expires_at) d) ≤ 1
      shorter [] h = omega arith
      shorter (e ∷ []) h = ground arith
      shorter (e ∷ (g ∷ d)) h = ground arith

  pop_one : (k : Identity) (d : Dict Identity (Claim F)) → length d ≤ 1 → length (pop k d) ≤ 1
  pop_one k [] h = omega arith
  pop_one k (e ∷ []) h = ground arith
  pop_one k (e ∷ (g ∷ d)) h = ground arith

  moved_one :
      (j k : Identity) (v w : Claim F) (d : Dict Identity (Claim F))
      → length d ≤ 1
      → get j d ≡ some w
      → length (put k v (pop j d)) ≤ 1
  moved_one j k v w [] h e = ground arith
  moved_one j k v w ((i, u) ∷ []) h e = ground (arith, same_identity_iff i j)
  moved_one j k v w (e ∷ (g ∷ d)) h _ = ground arith

  bind_claim-IsSingle :
      (p : Reservations F) (token : String) (cid : ℕ) (claim : Option (Claim F))
      → get (by_token token) p.claims ≡ claim
      → IsSingle p
      → IsSingle (bind_claim p token cid claim)
  bind_claim-IsSingle p token cid none e h = h
  bind_claim-IsSingle p token cid (some claim) e h = record {
    single = moved_one (by_token token) (by_contract cid) _ claim p.claims h.single e;
  }

  put_first :
      (k : Identity) (v : Claim F) (d : Dict Identity (Claim F))
      → length d ≡ 0
      → length (put k v d) ≤ 1
  put_first k v [] e = omega arith
  put_first k v (x ∷ d) e = ground arith

module _ {F : Type 0} ⦃f : Float F⦄ where
  with_claim-IsSingle :
      (p : Reservations F) (now : ℕ) (token : String) (amount : F)
      → length p.claims ≡ 0
      → IsSingle (with_claim p now token amount)
  with_claim-IsSingle p now token amount e = record {
    single = put_first (by_token token) _ p.claims e;
  }

module _ {F : Type 0} ⦃f : Float F⦄ {S : Type 0} ⦃r : Redis S⦄ where
  pub call : Reservations F × S → Call F → Reservations F × S
  call (p, s) (claims now token amount) =
      let (q, t, _) = claim_recovery p s now token amount in (q, t)
  call (p, s) (binds now token cid) = (bind_recovery_contract p now token cid, s)
  call (p, s) (releases now identity) = release_recovery p s now identity

  pub calls : Reservations F × S → List (Call F) → Reservations F × S
  calls q [] = q
  calls q (c ∷ cs) = calls (call q c) cs

  release_claim-IsSingle :
      (p : Reservations F) (s : S) (k : Identity) (claim : Option (Claim F))
      → IsSingle p
      → IsSingle (release_claim p s k claim).0
  release_claim-IsSingle p s k none h = h
  release_claim-IsSingle p s k (some claim) h = record { single = pop_one k p.claims h.single }

  if-IsSingle :
      (x y : Reservations F × S × Option String) (b : Bool)
      → IsSingle x.0
      → (b ≡ false → IsSingle y.0)
      → IsSingle (if b then x else y).0
  if-IsSingle x y true p q = p
  if-IsSingle x y false p q = q refl

  claim_stored-IsSingle :
      (p : Reservations F) (s : S) (now : ℕ) (token : String) (amount : F)
      (answer : Option (S × Bool))
      → length p.claims ≡ 0
      → IsSingle p
      → IsSingle (claim_stored p s now token amount answer).0
  claim_stored-IsSingle p s now token amount none e h = h
  claim_stored-IsSingle p s now token amount (some (t, false)) e h = h
  claim_stored-IsSingle p s now token amount (some (t, true)) e h =
      with_claim-IsSingle p now token amount e

  claim_recovery-IsSingle :
      (p : Reservations F) (s : S) (now : ℕ) (token : String) (amount : F)
      → IsSingle p
      → IsSingle (claim_recovery p s now token amount).0
  unfolding claim_recovery
  claim_recovery-IsSingle p s now token amount h =
      let q = alive now p in
      let kept = alive-IsSingle now p h in
      if-IsSingle (p, s, none) _ (f.le amount nought) h
        (λ _.
          if-IsSingle (q, s, none) _ (not (leb (length q.claims) 0)) kept
            (λ e.
              let empty : length q.claims ≡ 0 = ground arith in
              if-IsSingle
                (claim_stored q s now token amount
                  (r.set_nx s (pullback_recovery q.account) token 900))
                _ q.has_store (claim_stored-IsSingle q s now token amount _ empty kept)
                (λ _. with_claim-IsSingle q now token amount empty)))

  call-IsSingle :
      (p : Reservations F) (s : S) (c : Call F) → IsSingle p → IsSingle (call (p, s) c).0
  unfolding call bind_recovery_contract release_recovery
  call-IsSingle p s (claims now token amount) h = claim_recovery-IsSingle p s now token amount h
  call-IsSingle p s (binds now token cid) h =
      bind_claim-IsSingle (alive now p) token cid _ refl (alive-IsSingle now p h)
  call-IsSingle p s (releases now identity) h =
      release_claim-IsSingle (alive now p) s identity _ (alive-IsSingle now p h)

  -- Over any claims, bindings and releases at any times, a process that starts with at most one reservation never
  -- holds two, whatever the store answers.
  pub calls-IsSingle :
      (p : Reservations F) (s : S) (cs : List (Call F)) → IsSingle p → IsSingle (calls (p, s) cs).0
  unfolding calls
  calls-IsSingle p s [] h = h
  calls-IsSingle p s (c ∷ cs) h =
      calls-IsSingle (call (p, s) c).0 (call (p, s) c).1 cs (call-IsSingle p s c h)
