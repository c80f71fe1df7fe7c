-- ===== src/Indicator.antt =====
-- indicator/app/src/indicator/domain.py: the candles that the indicator reads, closed, contiguous and aggregated.
-- Epochs are seconds since 1970 and natural
-- numbers, and periods are above 0.
pub mod Ascending
pub mod Closed
pub mod Contiguous
pub mod Aggregate
use aether_quantum_engine.Common.{
  ℕ, ◌+◌, ◌-◌, ◌*◌, ◌/◌, ◌%◌, String, Bool, true, false, not, ◌&&◌, ◌||◌, Option, none, some, List,
  [], ◌∷◌, ◌++◌, if◌then◌else◌, ◌==◌, nat_eq, string_eq, leb, ltb, length, contains, set_add,
  insert_ids, reverse,
}
use aether_quantum_engine.Common.Dict.{Dict, get, get_default, put, has_key, keys}
use aether_quantum_engine.Common.Float.{Float, nought, fmax, fmin, feq}

-- `Candle`
pub record Candle (F : Type 0) : Type 0 where
  pub epoch : ℕ
  pub open_price : F
  pub high : F
  pub low : F
  pub close : F

-- A row of the broker: `none` for a missing value, or for one that `int` or `float` refuses. An infinite epoch, which
-- raises OverflowError, does not occur.
pub record Row (F : Type 0) : Type 0 where
  pub epoch : Option ℕ
  pub open_price : Option F
  pub high : Option F
  pub low : Option F
  pub close : Option F

-- The candles of `closed_candles` so far, and the epochs with two different ones.
pub record Reading (F : Type 0) : Type 0 where
  pub candles : Dict ℕ (Candle F)
  pub conflicts : List ℕ

module _ {F : Type 0} ⦃f : Float F⦄ where
  open f use {sub, le, lt, is_finite}

  abbrev pub parsed : Row F → Option (Candle F)
  parsed row = elim row.epoch [
    | none ↦ none
    | some epoch ↦ elim row.open_price [
      | none ↦ none
      | some o ↦ elim row.high [
        | none ↦ none
        | some h ↦ elim row.low [
          | none ↦ none
          | some l ↦ elim row.close [
            | none ↦ none
            | some c ↦ some (record { epoch = epoch; open_price = o; high = h; low = l; close = c })
          ]
        ]
      ]
    ]
  ]

  -- On the grid of the period, closed by `now`, and with finite values.
  abbrev pub is_usable : ℕ → ℕ → Candle F → Bool
  is_usable now period c =
      (c.epoch % period == 0)
      && (leb (c.epoch + period) now
          && (is_finite c.open_price
              && (is_finite c.high && (is_finite c.low && is_finite c.close))))

  abbrev pub usable : ℕ → ℕ → Option (Candle F) → Option (Candle F)
  usable now period none = none
  usable now period (some c) = if is_usable now period c then some c else none

  -- The candle of a row, `none` where the loop passes the row over.
  unfoldable pub candle_of : ℕ → ℕ → Row F → Option (Candle F)
  candle_of now period row = usable now period (parsed row)

  -- `==` on candles
  abbrev pub same_candle : Candle F → Candle F → Bool
  same_candle a b =
      (a.epoch == b.epoch)
      && (feq a.open_price b.open_price
          && (feq a.high b.high && (feq a.low b.low && feq a.close b.close)))

  abbrev pub conflicts_with : Option (Candle F) → Candle F → Bool
  conflicts_with none c = false
  conflicts_with (some old) c = not (same_candle old c)

  abbrev pub read_candle : Reading F → Option (Candle F) → Reading F
  read_candle r none = r
  read_candle r (some c) = record {
    candles = put c.epoch c r.candles;
    conflicts =
        if conflicts_with (get c.epoch r.candles) c
        then set_add c.epoch r.conflicts
        else r.conflicts;
  }

  abbrev pub read_rows : ℕ → ℕ → Reading F → List (Row F) → Reading F
  read_rows now period r [] = r
  read_rows now period r (row ∷ rows) =
      read_rows now period (read_candle r (candle_of now period row)) rows

  abbrev pub with_candle_at : Option (Candle F) → List (Candle F) → List (Candle F)
  with_candle_at none cs = cs
  with_candle_at (some c) cs = c ∷ cs

  abbrev pub candles_at : Reading F → List ℕ → List (Candle F)
  candles_at r [] = []
  candles_at r (e ∷ epochs) =
      let later = candles_at r epochs in
      if contains e r.conflicts then later else with_candle_at (get e r.candles) later

  unfoldable pub closed_candles : List (Row F) → ℕ → ℕ → List (Candle F)
  closed_candles rows now period =
      let r = read_rows now period (record { candles = []; conflicts = [] }) rows in
      candles_at r (insert_ids (keys r.candles) [])

  -- The last price of the candle that is being formed, looked for from the end.
  abbrev pub spot_of : ℕ → Row F → Option F
  spot_of expected row = elim row.epoch [
    | none ↦ none
    | some epoch ↦ elim row.close [
      | none ↦ none
      | some close ↦
          if (epoch == expected) && (is_finite close && lt nought close) then some close else none
    ]
  ]

  abbrev pub first_spot : ℕ → List (Row F) → Option F
  first_spot expected [] = none
  first_spot expected (row ∷ rows) = elim (spot_of expected row) [
    | none ↦ first_spot expected rows
    | some close ↦ some close
  ]

  unfoldable pub current_spot : List (Row F) → ℕ → ℕ → Option F
  current_spot rows now period = first_spot (now / period * period) (reverse rows)

  -- Goes back from the block that starts with `first` as long as there is no gap.
  abbrev pub extend : ℕ → List (Candle F) → Candle F → List (Candle F) → List (Candle F)
  extend period [] first block = first ∷ block
  extend period (c ∷ before) first block =
      let longer = extend period before c (first ∷ block) in
      if c.epoch + period == first.epoch then longer else first ∷ block

  abbrev pub contiguous_of : ℕ → List (Candle F) → List (Candle F)
  contiguous_of period [] = []
  contiguous_of period (last ∷ before) = extend period before last []

  unfoldable pub latest_contiguous : List (Candle F) → ℕ → List (Candle F)
  latest_contiguous candles period = contiguous_of period (reverse candles)
