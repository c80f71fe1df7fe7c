-- ===== src/Direction/LossTracker/Counts.antt =====
-- The counts of `DirectionLossTracker` are the runs of losses in the outcomes that it was told.
use aether_quantum_engine.Common.{
  ℕ, suc, ◌+◌, ◌≤◌, String, Bool, true, false, not, ◌&&◌, Option, some, List, [], ◌∷◌,
  if◌then◌else◌, ◌==◌, nat_eq, string_eq, contains, arith, ◌≡◌, ◌↔◌, ◌⊎◌, inl, inr, refl,
  Bool-cases, Option-cases,
}
use aether_quantum_engine.Common.Dict.{Dict, get, get_default, put, get_default-put}
use aether_quantum_engine.Common.Text.{upper}
use aether_quantum_engine.Direction.{
  TradeDirection, call, put as put_side, multup, multdown, name, direction_keys,
}
use aether_quantum_engine.Direction.LossTracker.{
  LossTracker, reset, direction_key, count_of, consecutive_losses, opposite_key, zero_counts,
  record_key, record_outcome, anti_trend_lock_active,
}

pub key_cases : (k : String) → contains k direction_keys ≡ true → (k ≡ "CALL") ⊎ (k ≡ "PUT")
key_cases k h = ground (arith, string_eq.beq_iff "CALL" k, string_eq.beq_iff "PUT" k)

-- The counts of one symbol after an outcome.
bucket_after :
    (k key : String) (won : Bool) (b : Dict String ℕ)
    → contains k direction_keys ≡ true
    → contains key direction_keys ≡ true
    → get_default key 0 (
        let cleared = put (opposite_key k) 0 b in
        if won then put k 0 cleared else put k (get_default k 0 cleared + 1) cleared)
      ≡ (if k == key && not won then suc (get_default key 0 b) else 0)
bucket_after k key won b h g = elim (key_cases k h) [
  | inl e ↦ elim (key_cases key g) [
    | inl f ↦ rw (e, f) (grind (arith, get_default-put))
    | inr f ↦ rw (e, f) (grind (arith, get_default-put))
  ]
  | inr e ↦ elim (key_cases key g) [
    | inl f ↦ rw (e, f) (grind (arith, get_default-put))
    | inr f ↦ rw (e, f) (grind (arith, get_default-put))
  ]
]

-- A symbol without an entry counts as 0 on both sides.
default_counts :
    (t : LossTracker) (s key : String)
    → contains key direction_keys ≡ true
    → get_default key 0 (get_default s zero_counts t.losses) ≡ count_of t s key
default_counts t s key g = elim (Option-cases (get s t.losses)) [
  | inl e ↦ elim (key_cases key g) [ inl f ↦ rw f (ground arith) | inr f ↦ rw f (ground arith) ]
  | inr (b, e) ↦ ground arith
]

-- The entry of the symbol in the outcome, and the entries of the others.
losses-record_key :
    (t : LossTracker) (now : ℕ) (s k : String) (won : Bool) (sym : String)
    → get_default sym [] (record_key t now s k won).losses ≡ (
        if s == sym
        then (let cleared = put (opposite_key k) 0 (get_default s zero_counts t.losses) in
            if won then put k 0 cleared else put k (get_default k 0 cleared + 1) cleared)
        else get_default sym [] t.losses)
losses-record_key t now s k true sym = get_default-put sym s _ [] t.losses
losses-record_key t now s k false sym = get_default-put sym s _ [] t.losses

-- One outcome: the count of its own side grows on a loss, all else of the symbol goes to 0, other symbols stay.
count_of-record_key :
    (t : LossTracker) (now : ℕ) (s k : String) (won : Bool) (sym key : String)
    → contains k direction_keys ≡ true
    → contains key direction_keys ≡ true
    → count_of (record_key t now s k won) sym key ≡ (
        if s == sym
        then if k == key && not won then suc (count_of t sym key) else 0
        else count_of t sym key)
count_of-record_key t now s k won sym key h g = elim (Bool-cases (s == sym)) [
  | inl e ↦ rw (
    losses-record_key t now s k won sym,
    e,
    bucket_after k key won _ h g,
    default_counts t s key g,
    (string_eq.beq_iff s sym).0 e,
  )
  | inr n ↦ rw (losses-record_key t now s k won sym, n)
]

pub record Outcome : Type 0 where
  pub symbol : String
  pub direction : Option String
  pub won : Bool
  pub at : ℕ

-- The tracker after a list of outcomes, the newest first.
unfoldable pub tracked : List Outcome → LossTracker
tracked [] = reset
tracked (o ∷ older) = record_outcome (tracked older) o.at o.symbol o.direction o.won

-- The run of losses of `key` on `sym` up to now: outcomes of other symbols, and those whose direction is neither
-- CALL nor PUT, do not count; any other outcome ends it.
abbrev pub loss_run : String → String → List Outcome → ℕ
loss_run sym key [] = 0
loss_run sym key (o ∷ older) =
    let rest = loss_run sym key older in
    if contains (direction_key o.direction) direction_keys && o.symbol == sym
    then if direction_key o.direction == key && not o.won then suc rest else 0
    else rest

count_of-loss_run :
    (os : List Outcome) (sym key : String)
    → contains key direction_keys ≡ true
    → count_of (tracked os) sym key ≡ loss_run sym key os
unfolding tracked record_outcome
count_of-loss_run [] sym key g = refl
count_of-loss_run (o ∷ older) sym key g =
    elim (Bool-cases (contains (direction_key o.direction) direction_keys)) [
      | inl valid ↦ rw (
        valid,
        count_of-record_key (tracked older) o.at o.symbol (direction_key o.direction) o.won sym key
            valid g,
        count_of-loss_run older sym key g,
      )
      | inr other ↦ rw other (count_of-loss_run older sym key g)
    ]

-- After any outcomes, `consecutive_losses` is the length of the current run of losses of that symbol and side.
pub consecutive_losses-loss_run :
    (os : List Outcome) (sym direction : String)
    → consecutive_losses (tracked os) sym direction ≡ (
        let key = direction_key (some direction) in
        if contains key direction_keys then loss_run sym key os else 0)
unfolding consecutive_losses
consecutive_losses-loss_run os sym direction =
    elim (Bool-cases (contains (direction_key (some direction)) direction_keys)) [
      | inl valid ↦ rw valid (count_of-loss_run os sym (direction_key (some direction)) valid)
      | inr other ↦ rw other
    ]

key_of_name : (d : TradeDirection) → direction_key (some (name d)) ≡ name d
unfolding direction_key upper
key_of_name call = refl
key_of_name put_side = refl
key_of_name multup = refl
key_of_name multdown = refl

-- The lock holds exactly when the side is CALL or PUT and the last two outcomes of the symbol, at least, were losses
-- on it.
pub anti_trend_lock_active_iff :
    (os : List Outcome) (sym : String) (d : TradeDirection)
    → (anti_trend_lock_active (tracked os) sym d ≡ true)
      ↔ ((contains (name d) direction_keys ≡ true) × (2 ≤ loss_run sym (name d) os))
unfolding anti_trend_lock_active
anti_trend_lock_active_iff os sym d =
    let e = consecutive_losses-loss_run os sym (name d) in
    elim (Bool-cases (contains (name d) direction_keys)) [
      | inl valid ↦ let f = rw (key_of_name d, valid) at e in ground arith
      | inr other ↦ let f = rw (key_of_name d, other) at e in ground arith
    ]
