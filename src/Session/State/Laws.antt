-- ===== src/Session/State/Laws.antt =====
-- Invariants of the session's state and of its file.
use aether_quantum_engine.Common.{false, Option, none, some, List, [], ◌∷◌, ◌≡◌, ◌⊎◌, arith}
use aether_quantum_engine.Common.Float.{Float, IsIeee, nought, fabs}
use aether_quantum_engine.Common.Float.Laws.{nought_refl}
use aether_quantum_engine.Session.StopWin.{or_default}
use aether_quantum_engine.Session.State.{
  StateFile, StateManager, fresh, with_initial, session_profit, mirror_balance, save_state,
  reset_session_metrics, check_session_limits, load_file, load_from, load_state, Call, mirror,
  reset, check, load, save, call, calls,
}

module _ {F : Type 0} ⦃f : Float F⦄ where
  open f use {lit, sub, le, is_finite, round_to}

  -- The balance that other tasks read without the lock is the balance of the session.
  abbrev pub IsMirrored : StateManager F → Type 0
  IsMirrored m = m.balance_snapshot ≡ m.state.current_balance

  mirror_balance-IsMirrored :
      (m : StateManager F) (balance : F) → IsMirrored m → IsMirrored (mirror_balance m balance)
  unfolding mirror_balance
  mirror_balance-IsMirrored m balance h = ground arith

  load_file-IsMirrored :
      (m : StateManager F) (file : StateFile F) → IsMirrored m → IsMirrored (load_file m file)
  load_file-IsMirrored m file h =
      mirror_balance-IsMirrored (with_initial m (or_default file.file_initial_balance nought)) _ h

  load_from-IsMirrored :
      (m : StateManager F) (file : Option (StateFile F))
      → IsMirrored m
      → IsMirrored (load_from m file).0
  load_from-IsMirrored m none h = h
  load_from-IsMirrored m (some file) h = load_file-IsMirrored m file h

  call-IsMirrored : (m : StateManager F) (c : Call F) → IsMirrored m → IsMirrored (call m c)
  unfolding call reset_session_metrics check_session_limits save_state load_state
  call-IsMirrored m (mirror balance) h = mirror_balance-IsMirrored m balance h
  call-IsMirrored m (reset balance target) h = mirror_balance-IsMirrored m balance h
  call-IsMirrored m check h = h
  call-IsMirrored m load h = load_from-IsMirrored m m.persistence h
  call-IsMirrored m save h = h

  -- From a fresh manager on, whatever is called and whatever the file holds, the cached balance is the session's.
  pub calls-IsMirrored :
      (m : StateManager F) (cs : List (Call F)) → IsMirrored m → IsMirrored (calls m cs)
  unfolding calls
  calls-IsMirrored m [] h = h
  calls-IsMirrored m (c ∷ cs) h = calls-IsMirrored (call m c) cs (call-IsMirrored m c h)

  -- A process that starts on a saved file has the state that was saved.
  pub load-save :
      IsIeee F
      → (m : StateManager F) → (load_state (fresh (save_state m).persistence)).0.state ≡ m.state
  unfolding load_state save_state mirror_balance
  load-save laws m = ground (arith, nought_refl laws)

  -- After a reset the session's profit is that of the balance on itself, or the new balance was within two cents
  -- of the cached one, which stays.
  reset-profit :
      (m : StateManager F) (balance target : F)
      → IsMirrored m
      → let s = (reset_session_metrics m balance target).state in
        (session_profit s ≡ sub balance balance)
        ⊎ ((session_profit s ≡ sub m.balance_snapshot balance)
            × (le (lit 2 2) (round_to (fabs (sub balance m.balance_snapshot)) 4) ≡ false))
  unfolding reset_session_metrics save_state mirror_balance
  reset-profit m balance target h = ground arith
