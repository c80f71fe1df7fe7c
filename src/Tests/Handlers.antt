-- ===== src/Tests/Handlers.antt =====
-- The ring buffer on concrete ticks.
use aether_quantum_engine.Common.Int.{pos}
use aether_quantum_engine.Handlers.Granularity.{
  allowed_seconds, normalize_granularity_seconds, normalize_granularity_least,
}
use aether_quantum_engine.Common.{
  ℕ, ◌≤◌, true, contains, nat_eq, arith, ◌^◌, some, List, [], ◌∷◌, ◌≡◌, refl,
}
use aether_quantum_engine.Handlers.RingBuffer.{
  fresh, count, latest_tick, latest_window, get_prices_array,
}
use aether_quantum_engine.Handlers.RingBuffer.History.{Represents, init-Represents, init_power}
use aether_quantum_engine.Handlers.RingBuffer.Window.{Call, pushes, clears, run, run_window}

abbrev five_ticks : List (Call ℕ ℕ)
five_ticks =
    pushes 9 9 ∷ clears ∷ pushes 1 10 ∷ pushes 2 20 ∷ pushes 3 30 ∷ pushes 4 40 ∷ pushes 5 50 ∷ []

run_window_example :
    (latest_window 0 0 (run 0 0 (fresh 0 0 (2 ^ 2)) five_ticks) 3
      ≡ (3 ∷ 4 ∷ 5 ∷ [], 30 ∷ 40 ∷ 50 ∷ []))
    × (get_prices_array 0 0 (run 0 0 (fresh 0 0 (2 ^ 2)) five_ticks) 3 ≡ 30 ∷ 40 ∷ 50 ∷ [])
    × (latest_tick 0 0 (run 0 0 (fresh 0 0 (2 ^ 2)) five_ticks) ≡ some (5, 50))
    × (count 0 0 (run 0 0 (fresh 0 0 (2 ^ 2)) five_ticks) ≡ 4)
run_window_example = run_window 0 0 2 3 five_ticks

init-Represents_example :
    (k : ℕ) × (2 ^ 3 ≡ 2 ^ k) × Represents {E = ℕ} {P = ℕ} 0 0 k [] (fresh 0 0 (2 ^ 3))
init-Represents_example = init-Represents 0 0 (2 ^ 3) (init_power 0 0 3)

granularity_example :
    (contains (normalize_granularity_seconds (pos 200)) allowed_seconds ≡ true)
    × (200 ≤ normalize_granularity_seconds (pos 200))
    × (normalize_granularity_seconds (pos 200) ≤ 300)
granularity_example = normalize_granularity_least (pos 200) 300 refl (omega arith)
