-- ===== src/Tests/Session.antt =====
-- The session's target and state on concrete amounts.
use aether_quantum_engine.Common.{true, List, [], ◌∷◌, ◌≡◌, refl}
use aether_quantum_engine.Common.Int.{ℤ, ◌+ℤ◌, ◌*ℤ◌, floor_div}
use aether_quantum_engine.Common.Float.{◌≼◌}
use aether_quantum_engine.Common.Float.Fixed.{fixed, fixed-IsIeee}
use aether_quantum_engine.Session.StopWin.{is_stop_win_reached}
use aether_quantum_engine.Session.StopWin.Laws.{is_stop_win_reached-sound}
use aether_quantum_engine.Session.State.{
  Call, mirror, reset, check, load, save, calls, fresh, save_state, load_state,
}
use aether_quantum_engine.Session.State.Laws.{IsMirrored, calls-IsMirrored, load-save}
use aether_quantum_engine.Tests.Data.{dollars, stop_win_config, manager, session}

reached_by_8 : is_stop_win_reached (dollars 8) (dollars 8) stop_win_config ≡ true
unfolding is_stop_win_reached ◌+ℤ◌ ◌*ℤ◌ floor_div
reached_by_8 = refl

sound_example : fixed.mul (dollars 8) (fixed.lit 80 2) ≼ fixed.add (dollars 8) (fixed.lit 1 9)
sound_example =
    is_stop_win_reached-sound fixed-IsIeee (dollars 8) (dollars 8) stop_win_config refl reached_by_8

abbrev morning : List (Call ℤ)
morning = mirror (dollars 210) ∷ check ∷ save ∷ reset (dollars 210) (dollars 9) ∷ load ∷ []

calls_example : IsMirrored (calls manager morning)
calls_example = calls-IsMirrored manager morning refl

load-save_example : (load_state (fresh (save_state manager).persistence)).0.state ≡ session
load-save_example = load-save fixed-IsIeee manager
