-- ===== src/Indicator/Aggregate.antt =====
-- `aggregate` of indicator/app/src/indicator/domain.py: candles of a longer period out of those of a shorter one.
pub mod Built
use aether_quantum_engine.Common.{
  ℕ, ◌+◌, ◌-◌, ◌*◌, ◌/◌, ◌%◌, Bool, true, false, not, ◌&&◌, ◌||◌, Option, none, some, List, [], ◌∷◌,
  ◌++◌, if◌then◌else◌, ◌==◌, nat_eq, ltb, length, contains, insert_ids,
}
use aether_quantum_engine.Common.Dict.{Dict, get_default, put, keys}
use aether_quantum_engine.Common.Float.{Float, fmax, fmin}
use aether_quantum_engine.Indicator.{Candle}

abbrev pub supported_periods : List ℕ
supported_periods = 300 ∷ 900 ∷ 3600 ∷ 86400 ∷ []

module _ {F : Type 0} ⦃f : Float F⦄ where
  -- Whether the closest two neighbours are 300 seconds apart. Where an epoch goes back, none of the two is.
  abbrev pub min_gap : ℕ → List (Candle F) → ℕ
  min_gap first [] = 0
  min_gap first (c ∷ []) = c.epoch - first
  min_gap first (c ∷ d ∷ rest) =
      let later = min_gap c.epoch (d ∷ rest) in
      if ltb later (c.epoch - first) then later else c.epoch - first

  abbrev pub is_off_grid : List (Candle F) → Bool
  is_off_grid [] = false
  is_off_grid (c ∷ cs) = let later = is_off_grid cs in not (c.epoch % 900 == 0) || later

  abbrev pub has_short_gap : List (Candle F) → Bool
  has_short_gap [] = false
  has_short_gap (c ∷ []) = false
  has_short_gap (c ∷ d ∷ rest) = min_gap c.epoch (d ∷ rest) == 300

  abbrev pub base_of : List (Candle F) → ℕ → ℕ
  base_of candles base_period =
      if is_off_grid candles || has_short_gap candles then 300 else base_period

  abbrev pub group_by : ℕ → Dict ℕ (List (Candle F)) → List (Candle F) → Dict ℕ (List (Candle F))
  group_by period groups [] = groups
  group_by period groups (c ∷ cs) =
      let epoch = c.epoch / period * period in
      group_by period (put epoch (get_default epoch [] groups ++ c ∷ []) groups) cs

  -- A stable sort by epoch
  abbrev pub insert_candle : Candle F → List (Candle F) → List (Candle F)
  insert_candle c [] = c ∷ []
  insert_candle c (d ∷ ds) =
      let later = insert_candle c ds in if ltb d.epoch c.epoch then d ∷ later else c ∷ d ∷ ds

  abbrev pub sort_candles : List (Candle F) → List (Candle F)
  sort_candles [] = []
  sort_candles (c ∷ cs) = insert_candle c (sort_candles cs)

  -- `item.epoch == epoch + index * base` for each
  abbrev pub is_complete : ℕ → ℕ → List (Candle F) → Bool
  is_complete base epoch [] = true
  is_complete base epoch (c ∷ cs) =
      let later = is_complete base (epoch + base) cs in c.epoch == epoch && later

  abbrev pub highest : F → List (Candle F) → F
  highest h [] = h
  highest h (c ∷ cs) = highest (fmax h c.high) cs

  abbrev pub lowest : F → List (Candle F) → F
  lowest l [] = l
  lowest l (c ∷ cs) = lowest (fmin l c.low) cs

  abbrev pub last_close : Candle F → List (Candle F) → F
  last_close c [] = c.close
  last_close c (d ∷ ds) = last_close d ds

  abbrev pub merged : ℕ → Candle F → List (Candle F) → Candle F
  merged epoch first others = record {
    epoch = epoch;
    open_price = first.open_price;
    high = highest first.high others;
    low = lowest first.low others;
    close = last_close first others;
  }

  -- The candle of a group, where none of its candles is missing.
  abbrev pub merge_group : ℕ → ℕ → ℕ → List (Candle F) → List (Candle F)
  merge_group base count epoch [] = []
  merge_group base count epoch (first ∷ others) =
      if (length (first ∷ others) == count) && is_complete base epoch (first ∷ others)
      then merged epoch first others ∷ []
      else []

  abbrev pub merge_groups : ℕ → ℕ → Dict ℕ (List (Candle F)) → List ℕ → List (Candle F)
  merge_groups base count groups [] = []
  merge_groups base count groups (e ∷ epochs) =
      merge_group base count e (sort_candles (get_default e [] groups))
      ++ merge_groups base count groups epochs

  -- `none` is the ValueError.
  abbrev pub aggregate_on : ℕ → List (Candle F) → ℕ → Option (List (Candle F))
  aggregate_on base candles period =
      let groups = group_by period [] candles in
      if period == base
      then some candles
      else if not (contains period supported_periods)
      then none
      else some (merge_groups base (period / base) groups (insert_ids (keys groups) []))

  unfoldable pub aggregate : List (Candle F) → ℕ → ℕ → Option (List (Candle F))
  aggregate [] period base_period = some []
  aggregate (c ∷ cs) period base_period =
      aggregate_on (base_of (c ∷ cs) base_period) (c ∷ cs) period
