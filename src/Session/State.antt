-- ===== src/Session/State.antt =====
-- app/src/infrastructure/state/state_manager.py: `SessionState` and `StateManager`. The file on disk is a field of the
-- manager; what PersistenceManager saves is what it loads.
pub mod Laws
use aether_quantum_engine.Common.{
  ℕ, ◌+◌, Bool, true, false, ◌&&◌, ◌||◌, Option, none, some, if◌then◌else◌, ltb, List, [], ◌∷◌,
}
use aether_quantum_engine.Common.Float.{Float, nought, fabs, feq}
use aether_quantum_engine.Session.StopWin.{or_default}

pub record SessionState (F : Type 0) : Type 0 where
  pub initial_balance : F
  pub current_balance : F
  pub daily_stop_win_target : F
  pub total_trades_today : ℕ
  pub stop_win_triggered : Bool

-- A state file, `none` for a key that it lacks.
pub record StateFile (F : Type 0) : Type 0 where
  pub file_initial_balance : Option F
  pub file_current_balance : Option F
  pub file_daily_stop_win_target : Option F
  pub file_total_trades_today : Option ℕ
  pub file_stop_win_triggered : Option Bool

-- `persistence` is the file, `none` where there is none or it is empty.
pub record StateManager (F : Type 0) : Type 0 where
  pub persistence : Option (StateFile F)
  pub state : SessionState F
  pub balance_snapshot : F

-- What the engine does to the manager, one call after another.
pub data Call (F : Type 0) : Type 0 where
  mirror : F → Call F
  reset : F → F → Call F
  check : Call F
  load : Call F
  save : Call F

module _ {F : Type 0} ⦃f : Float F⦄ where
  open f use {lit, sub, le, lt, round_to}

  -- `SessionState.__init__` and `StateManager.__init__`, over the file that is there.
  abbrev pub fresh_state : SessionState F
  fresh_state = record {
    initial_balance = nought;
    current_balance = nought;
    daily_stop_win_target = nought;
    total_trades_today = 0;
    stop_win_triggered = false;
  }

  abbrev pub fresh : Option (StateFile F) → StateManager F
  fresh file = record { persistence = file; state = fresh_state; balance_snapshot = nought }

  abbrev pub session_profit : SessionState F → F
  session_profit s = sub s.current_balance s.initial_balance

  -- A change of the balance below two cents is not taken over, except from 0.
  pub mirror_balance : StateManager F → F → StateManager F
  mirror_balance m value =
      let moved = le (lit 2 2) (round_to (fabs (sub value m.balance_snapshot)) 4) in
      if moved || feq m.balance_snapshot nought
      then record m { state = record m.state { current_balance = value }; balance_snapshot = value }
      else m

  abbrev pub file_of : SessionState F → StateFile F
  file_of s = record {
    file_initial_balance = some s.initial_balance;
    file_current_balance = some s.current_balance;
    file_daily_stop_win_target = some s.daily_stop_win_target;
    file_total_trades_today = some s.total_trades_today;
    file_stop_win_triggered = some s.stop_win_triggered;
  }

  unfoldable pub save_state : StateManager F → StateManager F
  save_state m = record m { persistence = some (file_of m.state) }

  pub reset_session_metrics : StateManager F → F → F → StateManager F
  reset_session_metrics m balance target =
      let mirrored = mirror_balance m balance in
      save_state (record mirrored {
        state = record mirrored.state {
          initial_balance = balance;
          daily_stop_win_target = target;
          total_trades_today = 0;
          stop_win_triggered = false;
        };
      })

  -- The new `stop_win_triggered`, which is also the answer.
  abbrev pub limits_reached : SessionState F → Bool
  limits_reached s =
      lt nought s.daily_stop_win_target
      && le s.daily_stop_win_target (session_profit s)
      && ltb 0 s.total_trades_today

  unfoldable pub check_session_limits : StateManager F → StateManager F
  check_session_limits m = record m {
    state = record m.state { stop_win_triggered = limits_reached m.state };
  }

  abbrev pub with_initial : StateManager F → F → StateManager F
  with_initial m balance = record m { state = record m.state { initial_balance = balance } }

  abbrev pub load_file : StateManager F → StateFile F → StateManager F
  load_file m file =
      let started = with_initial m (or_default file.file_initial_balance nought) in
      let mirrored = mirror_balance started (or_default file.file_current_balance nought) in
      record mirrored {
        state = record mirrored.state {
          daily_stop_win_target = or_default file.file_daily_stop_win_target nought;
          total_trades_today = or_default file.file_total_trades_today 0;
          stop_win_triggered = or_default file.file_stop_win_triggered false;
        };
      }

  abbrev pub load_from : StateManager F → Option (StateFile F) → StateManager F × Bool
  load_from m none = (m, false)
  load_from m (some file) = (load_file m file, true)

  pub load_state : StateManager F → StateManager F × Bool
  load_state m = load_from m m.persistence

  pub call : StateManager F → Call F → StateManager F
  call m (mirror balance) = mirror_balance m balance
  call m (reset balance target) = reset_session_metrics m balance target
  call m check = check_session_limits m
  call m load = (load_state m).0
  call m save = save_state m

  pub calls : StateManager F → List (Call F) → StateManager F
  calls m [] = m
  calls m (c ∷ cs) = calls (call m c) cs
