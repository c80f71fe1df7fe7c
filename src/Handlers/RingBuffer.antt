-- ===== src/Handlers/RingBuffer.antt =====
-- infrastructure/handlers/disruptor_ring_buffer.py: `DisruptorRingBuffer`. An epoch is an `int64` and a price a
-- `float64`; the buffer only moves them, so both are any types, with the values that `np.zeros` writes.
pub mod Mask
pub mod History
pub mod Window
use Prim.Native.Nat.{bit_and}
use aether_quantum_engine.Common.{
  ℕ, zero, suc, ◌+◌, ◌-◌, min, Bool, not, ◌||◌, Option, none, some, List, [], ◌∷◌, map, ◌==◌,
  nat_eq, if◌then◌else◌, get_or, set, replicate,
}

pub record RingBuffer (E P : Type 0) : Type 0 where
  pub capacity : ℕ
  pub mask : ℕ
  pub sequence : ℕ
  pub epochs : List E
  pub prices : List P

-- The test of `__init__` that raises `ValueError`.
abbrev pub is_refused : ℕ → Bool
is_refused capacity = capacity == 0 || not (bit_and capacity (capacity - 1) == 0)

-- `np.arange(start, start + n)`
abbrev pub arange : ℕ → ℕ → List ℕ
arange start zero = []
arange start (suc n) = start ∷ arange (start + 1) n

module _ {E P : Type 0} (epoch_zero : E) (price_zero : P) where
  -- The fields that `__init__` sets.
  abbrev pub fresh : ℕ → RingBuffer E P
  fresh capacity = record {
    capacity = capacity;
    mask = capacity - 1;
    sequence = 0;
    epochs = replicate capacity epoch_zero;
    prices = replicate capacity price_zero;
  }

  -- `none` is the `ValueError`.
  pub init : ℕ → Option (RingBuffer E P)
  init capacity = if is_refused capacity then none else some (fresh capacity)

  pub count : RingBuffer E P → ℕ
  count b = min b.sequence b.capacity

  abbrev pub slot : RingBuffer E P → ℕ → ℕ
  slot b seq = bit_and seq b.mask

  -- `History.Represents` has the slots below the length of both arrays, so the default is never read.
  abbrev pub epoch_at : RingBuffer E P → ℕ → E
  epoch_at b seq = get_or b.epochs (slot b seq) epoch_zero

  abbrev pub price_at : RingBuffer E P → ℕ → P
  price_at b seq = get_or b.prices (slot b seq) price_zero

  -- The new buffer, and the cursor that the tick was written at.
  pub push_tick : RingBuffer E P → E → P → RingBuffer E P × ℕ
  push_tick b epoch_ms price = (
    record b {
      sequence = b.sequence + 1;
      epochs = set b.epochs (slot b b.sequence) epoch_ms;
      prices = set b.prices (slot b b.sequence) price;
    },
    b.sequence,
  )

  pub latest_tick : RingBuffer E P → Option (E × P)
  latest_tick b =
      if b.sequence == 0
      then none
      else some (epoch_at b (b.sequence - 1), price_at b (b.sequence - 1))

  -- The sequence numbers that `latest_window` and `get_prices_array` read.
  abbrev pub window : RingBuffer E P → ℕ → List ℕ
  window b n = let target_n = min n (count b) in arange (b.sequence - target_n) target_n

  pub latest_window : RingBuffer E P → ℕ → List E × List P
  unfolding count
  latest_window b n =
      if n == 0 || b.sequence == 0
      then ([], [])
      else (map (epoch_at b) (window b n), map (price_at b) (window b n))

  pub get_prices_array : RingBuffer E P → ℕ → List P
  unfolding count
  get_prices_array b n = if n == 0 || b.sequence == 0 then [] else map (price_at b) (window b n)

  pub clear : RingBuffer E P → RingBuffer E P
  clear b = record b {
    sequence = 0;
    epochs = replicate b.capacity epoch_zero;
    prices = replicate b.capacity price_zero;
  }
