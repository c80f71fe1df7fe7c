-- ===== src/Handlers/Granularity.antt =====
-- app/src/infrastructure/api/deriv_granularity.py: the periods of candles that the broker takes.
use aether_quantum_engine.Common.{
  ℕ, ◌≤◌, true, List, [], ◌∷◌, if◌then◌else◌, ◌≡◌, arith, nat_eq, leb, ltb, contains,
}
use aether_quantum_engine.Common.Int.{ℤ, pos_part}

-- `DERIV_ALLOWED_GRANULARITY_SECONDS`
abbrev pub allowed_seconds : List ℕ
allowed_seconds = 60 ∷ 120 ∷ 180 ∷ 300 ∷ 600 ∷ 900 ∷ 1800 ∷ 3600 ∷ 7200 ∷ 14400 ∷ 28800 ∷ 86400 ∷ []

-- The first that is at least `gran`, else `last`.
abbrev pub first_from : ℕ → ℕ → List ℕ → ℕ
first_from last gran [] = last
first_from last gran (a ∷ rest) =
    let later = first_from last gran rest in if leb gran a then a else later

-- `int(value)` is the argument.
pub normalize_granularity_seconds : ℤ → ℕ
normalize_granularity_seconds value =
    let gran = if ltb 1 (pos_part value) then pos_part value else 1 in
    if contains gran allowed_seconds then gran else first_from 86400 gran allowed_seconds

normalize-allowed :
    (value : ℤ) → contains (normalize_granularity_seconds value) allowed_seconds ≡ true
unfolding normalize_granularity_seconds
normalize-allowed value = ground arith

-- For a request that some allowed period reaches, the answer is an allowed period that is at least the request, and no
-- shorter allowed period is.
pub normalize_granularity_least :
    (value : ℤ) (a : ℕ)
    → contains a allowed_seconds ≡ true
    → pos_part value ≤ a
    → let n = normalize_granularity_seconds value in
      (contains n allowed_seconds ≡ true) × (pos_part value ≤ n) × (n ≤ a)
unfolding normalize_granularity_seconds
normalize_granularity_least value a allowed enough = ground arith
