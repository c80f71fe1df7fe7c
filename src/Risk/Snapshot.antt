-- ===== src/Risk/Snapshot.antt =====
-- app/src/domain/risk/risk_manager_restore.py: the part of the risk state that outlives the process.
use aether_quantum_engine.Common.{ℕ, String, Option, none, some, List, ◌≡◌, refl, ap, arith}
use aether_quantum_engine.Common.Dict.{Dict}
use aether_quantum_engine.Common.Float.{Float, or_nought}
use aether_quantum_engine.Risk.{RiskManager}

-- The dictionary that is persisted, `none` for a missing key. Its values have their types: what `float` and `int`
-- refuse does not occur.
pub record Snapshot (F : Type 0) : Type 0 where
  pub initial_bankroll : Option F
  pub total_session_profit : Option F
  pub last_result_tick : Option ℕ
  pub rolling_wins : Option (Dict String (List ℕ))
  pub pending_loss : Option (Dict String F)
  pub last_loss_stake : Option F
  pub consecutive_losses_linear : Option ℕ
  pub dlambert_unit : Option F
  pub last_loss_symbol : Option String
  pub last_loss_direction : Option String
  pub peak_session_profit : Option F
  -- The name of the count of losses in older snapshots
  pub consecutive_losses : Option ℕ

-- A key that is missing leaves the field as it is.
abbrev pub restored {ℓ} : {A : Type ℓ} → Option A → A → A
restored none old = old
restored (some a) old = a

-- A symbol or a side that is `None` leaves the field as it is.
abbrev pub restored_name : Option String → Option String → Option String
restored_name none old = old
restored_name (some name) old = some name

abbrev pub restored_losses : Option ℕ → Option ℕ → ℕ → ℕ
restored_losses none none old = old
restored_losses none (some n) old = n
restored_losses (some n) legacy old = n

restored_by_name : (o : Option String) → restored_name o none ≡ o
restored_by_name none = refl
restored_by_name (some name) = refl

module _ {F : Type 0} ⦃f : Float F⦄ where
  unfoldable pub build_risk_state_snapshot : RiskManager F → Snapshot F
  build_risk_state_snapshot rm = record {
    initial_bankroll = some rm.initial_bankroll;
    total_session_profit = some rm.total_session_profit;
    last_result_tick = some rm.last_result_tick;
    rolling_wins = some rm.rolling_wins;
    pending_loss = some rm.pending_loss;
    last_loss_stake = some rm.last_loss_stake;
    consecutive_losses_linear = some rm.consecutive_losses_linear;
    dlambert_unit = some rm.dlambert_unit;
    last_loss_symbol = rm.last_loss_symbol;
    last_loss_direction = rm.last_loss_direction;
    peak_session_profit = some (or_nought (some rm.peak_session_profit));
    consecutive_losses = none;
  }

  unfoldable pub apply_risk_snapshot : RiskManager F → Snapshot F → RiskManager F
  apply_risk_snapshot rm s = record rm {
    initial_bankroll = restored s.initial_bankroll rm.initial_bankroll;
    total_session_profit = restored s.total_session_profit rm.total_session_profit;
    peak_session_profit = restored s.peak_session_profit rm.peak_session_profit;
    last_loss_stake = restored s.last_loss_stake rm.last_loss_stake;
    dlambert_unit = restored s.dlambert_unit rm.dlambert_unit;
    last_result_tick = restored s.last_result_tick rm.last_result_tick;
    consecutive_losses_linear =
        restored_losses s.consecutive_losses_linear s.consecutive_losses
          rm.consecutive_losses_linear;
    rolling_wins = restored s.rolling_wins rm.rolling_wins;
    pending_loss = restored s.pending_loss rm.pending_loss;
    last_loss_symbol = restored_name s.last_loss_symbol rm.last_loss_symbol;
    last_loss_direction = restored_name s.last_loss_direction rm.last_loss_direction;
  }

  or_nought_twice : (x : F) → or_nought (some (or_nought (some x))) ≡ or_nought (some x)
  or_nought_twice x = ground arith

  -- What a manager saves and a new one, which knows no symbol and no side of a loss, takes over, the new one saves the
  -- same; the losses of each symbol are then those of the first, the open contracts and their stakes its own.
  pub apply-build :
      (rm new : RiskManager F)
      → new.last_loss_symbol ≡ none
      → new.last_loss_direction ≡ none
      → (build_risk_state_snapshot (apply_risk_snapshot new (build_risk_state_snapshot rm))
          ≡ build_risk_state_snapshot rm)
        × ((apply_risk_snapshot new (build_risk_state_snapshot rm)).pending_loss ≡ rm.pending_loss)
        × ((apply_risk_snapshot new (build_risk_state_snapshot rm)).active_contract_ids
            ≡ new.active_contract_ids)
        × ((apply_risk_snapshot new (build_risk_state_snapshot rm)).contract_stakes
            ≡ new.contract_stakes)
  unfolding build_risk_state_snapshot apply_risk_snapshot
  apply-build rm new s d = (
    rw (s, d, restored_by_name rm.last_loss_symbol, restored_by_name rm.last_loss_direction)
        (ap (λ (x : F). record (build_risk_state_snapshot rm) { peak_session_profit = some x })
          (or_nought_twice rm.peak_session_profit)),
    refl,
    refl,
    refl,
  )
