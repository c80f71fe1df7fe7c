-- ===== src/Direction/LossTracker.antt =====
-- `DirectionLossTracker` of app/src/application/services/direction_loss_tracker.py. A reading of the loop's clock is
-- a number of microseconds.
pub mod Counts
pub mod Prune
use Prim.Native.String.{◌++◌ as str_append}
use aether_quantum_engine.Common.{
  ℕ, ◌+◌, ◌-◌, String, Bool, true, false, not, Option, none, some, List, [], ◌∷◌, if◌then◌else◌,
  ltb, leb, ◌==◌, nat_eq, string_eq, contains, arith, ◌≡◌,
}
use aether_quantum_engine.Common.Dict.{Dict, get, get_default, put, pop}
use aether_quantum_engine.Common.Text.{upper}
use aether_quantum_engine.Direction.{TradeDirection, name, direction_keys}

pub record LossTracker : Type 0 where
  pub losses : Dict String (Dict String ℕ)
  pub timestamps : Dict String ℕ

-- `__init__` and `reset`
abbrev pub reset : LossTracker
reset = record { losses = []; timestamps = [] }

-- `f"{symbol}:{direction}"`
pub loss_timestamp_key : String → String → String
loss_timestamp_key symbol direction = str_append symbol (str_append ":" direction)

-- `str(direction or "").upper()`
unfoldable pub direction_key : Option String → String
direction_key none = upper ""
direction_key (some d) = upper d

abbrev pub count_of : LossTracker → String → String → ℕ
count_of t sym key = get_default key 0 (get_default sym [] t.losses)

unfoldable pub consecutive_losses : LossTracker → String → String → ℕ
unfolding direction_key
consecutive_losses t symbol direction =
    let key = direction_key (some direction) in
    if contains key direction_keys then count_of t symbol key else 0

-- `dict.fromkeys(_DIRECTION_KEYS, 0)`
abbrev pub zero_counts : Dict String ℕ
zero_counts = ("CALL", 0) ∷ ("PUT", 0) ∷ []

abbrev pub opposite_key : String → String
opposite_key key = if key == "CALL" then "PUT" else "CALL"

-- The part of `record_outcome` behind its guard.
abbrev pub record_key : LossTracker → ℕ → String → String → Bool → LossTracker
record_key t now sym key won =
    let opp = opposite_key key in
    let bucket = put opp 0 (get_default sym zero_counts t.losses) in
    let stamps = pop (loss_timestamp_key sym opp) t.timestamps in
    if won
    then record {
      losses = put sym (put key 0 bucket) t.losses;
      timestamps = pop (loss_timestamp_key sym key) stamps;
    }
    else record {
      losses = put sym (put key (get_default key 0 bucket + 1) bucket) t.losses;
      timestamps = put (loss_timestamp_key sym key) now stamps;
    }

unfoldable pub record_outcome : LossTracker → ℕ → String → Option String → Bool → LossTracker
record_outcome t now symbol direction won =
    let key = direction_key direction in
    if contains key direction_keys then record_key t now symbol key won else t

pub anti_trend_lock_active : LossTracker → String → TradeDirection → Bool
anti_trend_lock_active t symbol direction = leb 2 (consecutive_losses t symbol (name direction))

-- One round of the inner loop of `prune_obsolete_direction_losses`.
pub prune_key :
    ℕ → ℕ → String → String → Dict String ℕ × Dict String ℕ → Dict String ℕ × Dict String ℕ
prune_key max_age now sym key (bucket, stamps) =
    let ts = loss_timestamp_key sym key in
    if leb (get_default key 0 bucket) 0 then (bucket, stamps) else elim (get ts stamps) [
      | none ↦ (bucket, stamps)
      | some last_ts ↦
          if ltb max_age (now - last_ts)
          then (put key 0 bucket, pop ts stamps)
          else (bucket, stamps)
    ]

pub prune_bucket : ℕ → ℕ → String → Dict String ℕ × Dict String ℕ → Dict String ℕ × Dict String ℕ
prune_bucket max_age now sym s =
    prune_key max_age now sym "PUT" (prune_key max_age now sym "CALL" s)

-- The outer loop: each symbol's counts, with the timestamps passed along.
pub prune_all :
    ℕ
    → ℕ
    → Dict String (Dict String ℕ)
    → Dict String ℕ
    → Dict String (Dict String ℕ) × Dict String ℕ
prune_all max_age now [] stamps = ([], stamps)
prune_all max_age now ((sym, bucket) ∷ rest) stamps =
    let (bucket', stamps') = prune_bucket max_age now sym (bucket, stamps) in
    let (rest', stamps'') = prune_all max_age now rest stamps' in ((sym, bucket') ∷ rest', stamps'')

pub prune_obsolete_direction_losses : LossTracker → ℕ → ℕ → LossTracker
prune_obsolete_direction_losses t max_age now =
    let (losses, stamps) = prune_all max_age now t.losses t.timestamps in
    record { losses = losses; timestamps = stamps }
