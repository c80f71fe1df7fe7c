-- ===== src/Tests/Direction.antt =====
-- The trackers, the flips and the quotes on concrete inputs.
use aether_quantum_engine.Direction.Reversal.{
  Reversals, ReversalConfig, applied, lacks_edge, apply_error_reversal_to_direction,
  record_error_reversal_on_settlement, resolve_target_reversal_direction,
}
use aether_quantum_engine.Direction.Reversal.Opposite.{Call, after_calls, flip_is_opposite}
use aether_quantum_engine.Direction.{TradeDirection}
use aether_quantum_engine.Common.{◌⊎◌}
use aether_quantum_engine.Common.Int.{negsuc}
use aether_quantum_engine.Common.Float.{or_nought}
use aether_quantum_engine.Common.Text.{strip}
use aether_quantum_engine.Common.{
  ℕ, ◌≤◌, String, Bool, true, false, some, List, [], ◌∷◌, ◌≡◌, ◌↔◌, refl, if◌then◌else◌, contains,
  string_eq,
}
use aether_quantum_engine.Common.Dict.{get}
use aether_quantum_engine.Direction.{call, name, direction_keys}
use aether_quantum_engine.Direction.LossTracker.{
  consecutive_losses, count_of, anti_trend_lock_active, prune_obsolete_direction_losses,
  direction_key, loss_timestamp_key,
}
use aether_quantum_engine.Direction.LossTracker.Counts.{
  Outcome, tracked, loss_run, consecutive_losses-loss_run, anti_trend_lock_active_iff,
}
use aether_quantum_engine.Direction.LossTracker.Prune.{is_obsolete, prune_obsolete-count_of}
use aether_quantum_engine.Direction.LossTracker.{opposite_key}
use aether_quantum_engine.Direction.Regime.{
  strong_trend, clean, evaluate_elastic_direction, evaluate_elastic_direction-flag,
}
use aether_quantum_engine.Direction.PairTracker
use aether_quantum_engine.Direction.PairTracker.{
  Settled, Stats, get_symbol_stats, results, signed_run, streak-signed_run,
}
use aether_quantum_engine.Common.Int.{ℤ, pos, ◌+ℤ◌, ◌-ℤ◌, ◌*ℤ◌, floor_div}
use aether_quantum_engine.Common.Float.Fixed.{fixed, quotient}
use aether_quantum_engine.Common.{none, Option}
use aether_quantum_engine.Common.Text.{upper}
use aether_quantum_engine.Direction.Quote.{
  QuoteMetrics, QuoteConfig, is_quote_edge_acceptable, quoted_edge,
  resolve_effective_side_probability, flip_candidate_has_edge, of_side,
}
use aether_quantum_engine.Direction.Quote.Worth.{
  IsWorth, is_quote_edge_acceptable-IsWorth, flip_candidate-IsWorth,
}
use aether_quantum_engine.Direction.LossTracker.{reset}
use aether_quantum_engine.Direction.Flip.{FlipContext, should_anti_trend_lock_flip}

abbrev outcome : String → String → Bool → ℕ → Outcome
outcome s d w t = record { symbol = s; direction = some d; won = w; at = t }

-- The newest first: two losses on a CALL of R_100 behind a win, with one loss of another symbol between.
abbrev day : List Outcome
day =
    outcome "R_100" "call" false 40
    ∷ outcome "R_50" "PUT" false 30
    ∷ outcome "R_100" "CALL" false 20
    ∷ outcome "R_100" "CALL" true 10
    ∷ []

consecutive_losses_example : consecutive_losses (tracked day) "R_100" "CALL" ≡ (
    let key = direction_key (some "CALL") in
    if contains key direction_keys then loss_run "R_100" key day else 0)
consecutive_losses_example = consecutive_losses-loss_run day "R_100" "CALL"

anti_trend_lock_example :
    (anti_trend_lock_active (tracked day) "R_100" call ≡ true)
    ↔ ((contains (name call) direction_keys ≡ true) × (2 ≤ loss_run "R_100" (name call) day))
anti_trend_lock_example = anti_trend_lock_active_iff day "R_100" call

prune_obsolete_example :
    count_of (prune_obsolete_direction_losses (tracked day) 15 60) "R_100" "CALL" ≡ (
      if is_obsolete 15 60 (get (loss_timestamp_key "R_100" "CALL") (tracked day).timestamps)
      then 0
      else count_of (tracked day) "R_100" "CALL")
prune_obsolete_example = prune_obsolete-count_of 15 60 (tracked day) "R_100" "CALL" refl

flag_example :
    let side = clean " put " in
    let q = evaluate_elastic_direction " put " "alta" strong_trend true in
    (q.0 ≡ (if q.2 then opposite_key side else side))
    × (contains q.0 direction_keys ≡ contains side direction_keys)
    × (contains side direction_keys ≡ true
        → true ≡ true
        → q.2 ≡ false
        → strong_trend ≡ strong_trend)
flag_example = evaluate_elastic_direction-flag " put " "alta" strong_trend true

abbrev settled : String → Bool → Settled ℤ
settled s w = record { symbol = s; won = w; profit = pos 0; at = pos 0 }

-- The newest first: the symbol is compared without case and white space.
abbrev pair_day : List (Settled ℤ)
pair_day =
    settled "R_100" false ∷ settled " r_100" false ∷ settled "R_50" true ∷ settled "R_100" true ∷ []

streak_example :
    (get_symbol_stats (PairTracker.tracked pair_day) "R_100").streak
    ≡ signed_run (results "R_100" pair_day)
streak_example = streak-signed_run pair_day "R_100"

-- No regime is known, and nothing is pending.
abbrev calm : FlipContext ℤ
calm = record {
  pending_loss_total = pos 0;
  edge = pos 0;
  prob = pos 500_000;
  trend_direction = "";
  elastic_zeta = pos 0;
  micro_regime = "";
  regime_side = "";
  closed_candle = "";
  rsi = none;
}

abbrev stretched : FlipContext ℤ
stretched = record calm { elastic_zeta = pos 3_000_000 }

stretched_flips : should_anti_trend_lock_flip reset "R_100" call stretched ≡ true
unfolding should_anti_trend_lock_flip
stretched_flips = refl

no_losses : consecutive_losses reset "R_100" (name call) ≡ 0
unfolding consecutive_losses direction_key upper
no_losses = refl

-- A probability of 0.6 for CALL.
abbrev sure_call : QuoteMetrics ℤ
sure_call = record {
  calibrated_prob = some (pos 600_000);
  loss_clf_flip = false;
  loss_clf_p_eff = none;
  loss_clf_p_loss = none;
}

abbrev no_floor : QuoteConfig ℤ
no_floor = record {
  min_edge_execute = none;
  quote_safety_margin = none;
  quote_probability_haircut = none;
}

-- A payout of 0.8 earns 0.08 for each unit.
sure_accepted :
    is_quote_edge_acceptable sure_call "CALL" (some (pos 800_000)) (pos 0) (pos 0) (pos 0)
    ≡ (true, some (pos 80_000), "ok")
unfolding is_quote_edge_acceptable quoted_edge resolve_effective_side_probability ◌+ℤ◌ ◌-ℤ◌ ◌*ℤ◌
    floor_div quotient
sure_accepted = refl

acceptable_example :
    (p : ℤ) × (rate : ℤ) × (resolve_effective_side_probability sure_call "CALL" ≡ some p)
    × (◌≡◌ {A = Option ℤ} (some (pos 800_000)) (some rate))
    × IsWorth p rate (pos 0) (pos 0) (pos 0) (pos 80_000)
acceptable_example =
    is_quote_edge_acceptable-IsWorth sure_call "CALL" (some (pos 800_000)) (pos 0) (pos 0) (pos 0)
      (pos 80_000) "ok" sure_accepted

sure_flips : flip_candidate_has_edge sure_call "CALL" (pos 800_000) no_floor ≡ true
unfolding flip_candidate_has_edge is_quote_edge_acceptable quoted_edge
    resolve_effective_side_probability ◌+ℤ◌ ◌-ℤ◌ ◌*ℤ◌ floor_div quotient
sure_flips = refl

candidate_example :
    (p_call : ℤ) × (edge : ℤ) × (sure_call.calibrated_prob ≡ some p_call)
    × IsWorth
        (of_side "CALL" p_call)
        (pos 800_000)
        (or_nought no_floor.min_edge_execute)
        (or_nought no_floor.quote_safety_margin)
        (or_nought no_floor.quote_probability_haircut)
        edge
candidate_example = flip_candidate-IsWorth sure_call "CALL" (pos 800_000) no_floor sure_flips

-- A loss on CALL at 0.9, and two cycles.
abbrev shock : List (Call ℤ)
shock =
    Call.cycle 8
    ∷ Call.settled "R_100" false (some (pos 900_000)) "call"
        (record { enabled = none; brier_threshold = none; min_conviction = none })
    ∷ Call.cycle 7
    ∷ []

abbrev sure_put : QuoteMetrics ℤ
sure_put = record sure_call { calibrated_prob = some (pos 300_000) }

abbrev defaults : ReversalConfig ℤ
defaults = record { enabled = none; brier_threshold = none; min_conviction = none }

abbrev used : Reversals ℤ
used = record { pending = []; active_cycle = 8 }

shock_turns :
    apply_error_reversal_to_direction
      (after_calls shock)
      "R_100"
      call
      sure_put
      (some (pos 800_000))
      no_floor
      defaults
    ≡ (used, TradeDirection.put, applied (pos 810_000) (negsuc 899_999) "CALL" "PUT")
unfolding apply_error_reversal_to_direction after_calls record_error_reversal_on_settlement
    resolve_target_reversal_direction upper strip flip_candidate_has_edge is_quote_edge_acceptable
    quoted_edge resolve_effective_side_probability ◌+ℤ◌ ◌-ℤ◌ ◌*ℤ◌ floor_div quotient
shock_turns = refl

opposite_example :
    (((◌≡◌ {A = String} "CALL" "CALL") × (TradeDirection.put ≡ TradeDirection.put))
      ⊎ ((◌≡◌ {A = String} "CALL" "PUT") × (TradeDirection.put ≡ call)))
    × (lacks_edge sure_put "PUT" (some (pos 800_000)) no_floor ≡ false)
    × (get "R_100" used.pending ≡ none)
opposite_example =
    flip_is_opposite shock "R_100" call TradeDirection.put sure_put (some (pos 800_000)) no_floor
      defaults (pos 810_000) (negsuc 899_999) "CALL" "PUT" used shock_turns
