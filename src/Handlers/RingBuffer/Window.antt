-- ===== src/Handlers/RingBuffer/Window.antt =====
-- What the reads of `DisruptorRingBuffer` give of the ticks that it stands for.
use native.Mathlib.Numerals.{add-one}
use aether_quantum_engine.Common.{
  ℕ, zero, suc, ◌+◌, ◌-◌, ◌^◌, ◌||◌, inl, inr, Bool-cases, get_elem?-get_or, get_elem?_past,
  length-replicate, ◌≤◌, ◌<◌, min, ◌≡◌, refl, ap, ◌∙◌, List, [], ◌∷◌, ◌++◌, map, arith, nat_eq,
  ◌==◌, length, get_elem?, drop, drop_all, drop_step,
}
use aether_quantum_engine.Handlers.RingBuffer.{
  RingBuffer, arange, fresh, count, epoch_at, price_at, push_tick, latest_tick, latest_window,
  get_prices_array, clear,
}
use aether_quantum_engine.Handlers.RingBuffer.Mask.{pow-pos, bit_and-mask}
use aether_quantum_engine.Handlers.RingBuffer.History.{
  Represents, tick_at, fresh-Represents, push_tick-Represents,
}

-- The last `n` of a list.
abbrev pub last {ℓ} : {A : Type ℓ} → ℕ → List A → List A
last n xs = drop (length xs - n) xs

prices_of_window :
    {E P : Type 0} (ez : E) (pz : P) (b : RingBuffer E P) (n : ℕ)
    → get_prices_array ez pz b n ≡ (latest_window ez pz b n).1
unfolding get_prices_array latest_window count
prices_of_window ez pz b n = elim (Bool-cases (n == 0 || b.sequence == 0)) [
  | inl e ↦ rw e
  | inr e ↦ rw e
]

module _ {E P : Type 0} {ez : E} {pz : P} {k : ℕ} {h : List (E × P)} {b : RingBuffer E P}
    (r : Represents ez pz k h b) where
  read_epoch :
      (i : ℕ) → i < length h → length h ≤ i + 2 ^ k → epoch_at ez pz b i ≡ (tick_at ez pz h i).0
  read_epoch i lt near = rw (r.mask, bit_and-mask i k) (r.epochs i lt near)

  read_price :
      (i : ℕ) → i < length h → length h ≤ i + 2 ^ k → price_at ez pz b i ≡ (tick_at ez pz h i).1
  read_price i lt near = rw (r.mask, bit_and-mask i k) (r.prices i lt near)

  -- A loop over the last sequence numbers reads the last ticks.
  read_range :
      {A : Type 0} (read : ℕ → A) (f : E × P → A)
      → ((i : ℕ) → i < length h → length h ≤ i + 2 ^ k → read i ≡ f (tick_at ez pz h i))
      → (start n : ℕ) → start + n ≡ length h
      → n ≤ 2 ^ k
      → map read (arange start n) ≡ map f (drop start h)
  read_range read f reads start zero e le = rw (drop_all start h (omega arith))
  read_range read f reads start (suc n) e le = rw (
    drop_step start h (ez, pz) (omega arith),
    reads start (omega arith) (omega arith),
    read_range read f reads (start + 1) n (omega arith) (omega arith),
    add-one start,
  )

  -- `latest_window` reads the last `n` ticks, oldest first, as far as they fit the capacity.
  pub latest_window-last :
      (n : ℕ)
      → latest_window ez pz b n
        ≡ (map (λ t. t.0) (last (min n (2 ^ k)) h), map (λ t. t.1) (last (min n (2 ^ k)) h))
  unfolding latest_window count
  latest_window-last n = elim (Bool-cases (n == 0 || b.sequence == 0)) [
    | inl empty ↦
        let s = r.sequence in
        let all : length h ≤ length h - min n (2 ^ k) = ground arith in
        rw (empty, drop_all (length h - min n (2 ^ k)) h all)
    | inr full ↦
        let s = r.sequence in
        let c = r.capacity in
        let start : b.sequence - min n (min b.sequence b.capacity) ≡ length h - min n (2 ^ k) =
          omega arith in
        let range : length h - min n (2 ^ k) + min n (min b.sequence b.capacity) ≡ length h =
          omega arith in
        let few : min n (min b.sequence b.capacity) ≤ 2 ^ k = omega arith in
        rw (
          full,
          start,
          read_range (epoch_at ez pz b) (λ t. t.0) read_epoch _ _ range few,
          read_range (price_at ez pz b) (λ t. t.1) read_price _ _ range few,
        )
  ]

  -- `latest_tick` is the last tick pushed, and there is none exactly when nothing was.
  pub latest_tick-last : latest_tick ez pz b ≡ get_elem? h (length h - 1)
  unfolding latest_tick
  latest_tick-last = elim (Bool-cases (b.sequence == 0)) [
    | inl empty ↦
        let s = r.sequence in
        let gone : length h ≤ length h - 1 = ground arith in
        rw (empty, get_elem?_past h (length h - 1) gone)
    | inr full ↦
        let s = r.sequence in
        let some_tick : length h - 1 < length h = ground arith in
        let near : length h ≤ length h - 1 + 2 ^ k = omega (arith, pow-pos k) in
        rw (
          full,
          r.sequence,
          get_elem?-get_or h (length h - 1) (ez, pz) some_tick,
          read_epoch _ some_tick near,
          read_price _ some_tick near,
        )
  ]

  -- `clear` forgets every tick.
  pub clear-Represents : Represents ez pz k [] (clear ez pz b)
  unfolding clear
  clear-Represents = record {
    capacity = r.capacity;
    mask = r.mask;
    sequence = refl;
    epochs_length = length-replicate b.capacity ez ∙ r.capacity;
    prices_length = length-replicate b.capacity pz ∙ r.capacity;
    epochs = λ i h. absurd (omega arith);
    prices = λ i h. absurd (omega arith);
  }

  -- `get_prices_array` reads the prices of `latest_window`.
  pub get_prices_array-last :
      (n : ℕ) → get_prices_array ez pz b n ≡ map (λ t. t.1) (last (min n (2 ^ k)) h)
  get_prices_array-last n = prices_of_window ez pz b n ∙ ap (λ w. w.1) (latest_window-last n)

  count-Represents : count ez pz b ≡ min (length h) (2 ^ k)
  unfolding count
  count-Represents = rw (r.sequence, r.capacity)

-- The calls that change a buffer.
pub data Call (E P : Type 0) : Type 0 where
  pushes : E → P → Call E P
  clears : Call E P

module _ {E P : Type 0} (ez : E) (pz : P) where
  pub step : RingBuffer E P → Call E P → RingBuffer E P
  step b (pushes e p) = (push_tick ez pz b e p).0
  step b clears = clear ez pz b

  pub run : RingBuffer E P → List (Call E P) → RingBuffer E P
  run b [] = b
  run b (c ∷ cs) = run (step b c) cs

  -- The ticks pushed since the last `clear`, in order.
  abbrev pub history : List (E × P) → List (Call E P) → List (E × P)
  history h [] = h
  history h (pushes e p ∷ cs) = history (h ++ (e, p) ∷ []) cs
  history h (clears ∷ cs) = history [] cs

  run-Represents :
      {k : ℕ} (h : List (E × P)) (b : RingBuffer E P) (cs : List (Call E P))
      → Represents ez pz k h b
      → Represents ez pz k (history h cs) (run b cs)
  unfolding run step
  run-Represents h b [] r = r
  run-Represents h b (pushes e p ∷ cs) r =
      run-Represents (h ++ (e, p) ∷ []) (push_tick ez pz b e p).0 cs
        (push_tick-Represents ez pz r e p).0
  run-Represents h b (clears ∷ cs) r = run-Represents [] (clear ez pz b) cs (clear-Represents r)

  -- After any calls on a new buffer of capacity 2^k, `latest_window`, `get_prices_array` and `latest_tick` give the
  -- last ticks of the history: the sealed arrays, the mask and the cursor refine a list.
  pub run_window :
      (k n : ℕ) (cs : List (Call E P))
      → let b = run (fresh ez pz (2 ^ k)) cs in
        let kept = last (min n (2 ^ k)) (history [] cs) in
        (latest_window ez pz b n ≡ (map (λ t. t.0) kept, map (λ t. t.1) kept))
        × (get_prices_array ez pz b n ≡ map (λ t. t.1) kept)
        × (latest_tick ez pz b ≡ get_elem? (history [] cs) (length (history [] cs) - 1))
        × (count ez pz b ≡ min (length (history [] cs)) (2 ^ k))
  run_window k n cs =
      let r = run-Represents [] (fresh ez pz (2 ^ k)) cs (fresh-Represents ez pz k) in
      (latest_window-last r n, get_prices_array-last r n, latest_tick-last r, count-Represents r)
