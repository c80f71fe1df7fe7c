-- ===== src/Tests/Indicator.antt =====
-- Candles of three hours with a conflict, a gap and one that is still open.
use aether_quantum_engine.Common.{
  ℕ, ◌+◌, true, none, some, List, [], ◌∷◌, ◌≡◌, refl, All, nat_eq, IsAscending,
}
use aether_quantum_engine.Common.Int.{ℤ, pos}
use aether_quantum_engine.Common.Float.Fixed.{fixed, fixed-IsIeee}
use mathlib.Core.List.{Memᴰ}
use aether_quantum_engine.Indicator.{
  Candle, Row, candle_of, same_candle, is_usable, closed_candles, latest_contiguous, current_spot,
}
use aether_quantum_engine.Indicator.Closed.{epochs_of, closed_candles-agree}
use aether_quantum_engine.Indicator.Contiguous.{IsSplit, latest_contiguous-IsSplit}
use aether_quantum_engine.Indicator.Aggregate.{aggregate}
use aether_quantum_engine.Indicator.Aggregate.Built.{IsBuilt, aggregate-IsBuilt}

abbrev candle_at : ℕ → ℕ → Candle ℤ
candle_at epoch n = record {
  epoch = epoch;
  open_price = pos n;
  high = pos (n + 3);
  low = pos n;
  close = pos (n + 1);
}

abbrev row_at : ℕ → ℕ → Row ℤ
row_at epoch n = record {
  epoch = some epoch;
  open_price = some (pos n);
  high = some (pos (n + 3));
  low = some (pos n);
  close = some (pos (n + 1));
}

abbrev missing : Row ℤ
missing = record (row_at 900 1) { low = none }

-- The second candle comes twice and is the same, the third comes with two values, the last is still open.
abbrev rows : List (Row ℤ)
rows =
    row_at 900 1
    ∷ row_at 0 5
    ∷ missing
    ∷ row_at 900 1
    ∷ row_at 1800 2
    ∷ row_at 1800 3
    ∷ row_at 2700 4
    ∷ []

closed : closed_candles rows 3000 900 ≡ candle_at 0 5 ∷ candle_at 900 1 ∷ []
unfolding closed_candles candle_of
closed = refl

spot : current_spot rows 3000 900 ≡ some (pos 5)
unfolding current_spot
spot = refl

second_read : candle_of 3000 900 (row_at 900 1) ≡ some (candle_at 900 1)
unfolding candle_of
second_read = refl

second_is_closed : Memᴰ (candle_at 900 1) (closed_candles rows 3000 900)
unfolding closed_candles candle_of
second_is_closed = Memᴰ.tail (Memᴰ.head refl)

agree_example :
    IsAscending (epochs_of (closed_candles rows 3000 900))
    × (is_usable 3000 900 (candle_at 900 1) ≡ true)
    × (same_candle (candle_at 900 1) (candle_at 900 1) ≡ true)
agree_example =
    closed_candles-agree fixed-IsIeee 3000 900 rows (candle_at 900 1) (candle_at 900 1)
      (row_at 900 1) second_is_closed (Memᴰ.head refl) second_read refl

abbrev apart : List (Candle ℤ)
apart = candle_at 0 5 ∷ candle_at 1800 1 ∷ candle_at 2700 2 ∷ []

block : latest_contiguous apart 900 ≡ candle_at 1800 1 ∷ candle_at 2700 2 ∷ []
unfolding latest_contiguous
block = refl

IsSplit-example : (rest : List (Candle ℤ)) × IsSplit 900 apart rest (latest_contiguous apart 900)
IsSplit-example = latest_contiguous-IsSplit 900 apart

abbrev hours : List (Candle ℤ)
hours =
    candle_at 900 2 ∷ candle_at 0 5 ∷ candle_at 1800 9 ∷ candle_at 2700 1 ∷ candle_at 3600 1 ∷ []

abbrev hour : Candle ℤ
hour = record { epoch = 0; open_price = pos 5; high = pos 12; low = pos 1; close = pos 2 }

hour_of : aggregate hours 3600 900 ≡ some (hour ∷ [])
unfolding aggregate
hour_of = refl

not_supported : aggregate hours 1000 900 ≡ none
unfolding aggregate
not_supported = refl

IsBuilt-example : All (IsBuilt 900 4 hours) (hour ∷ [])
IsBuilt-example = aggregate-IsBuilt hours (hour ∷ []) 3600 900 refl hour_of
