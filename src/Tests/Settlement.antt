-- ===== src/Tests/Settlement.antt =====
-- A contract that is lost, and messages after it.
use aether_quantum_engine.Common.{true, false, some, List, [], ◌∷◌, ◌≡◌, refl, nat_eq}
use aether_quantum_engine.Common.Int.{ℤ, pos, ◌*ℤ◌, floor_div}
use aether_quantum_engine.Common.Float.Fixed.{fixed, quotient}
use aether_quantum_engine.Settlement.{Orchestrator}
use aether_quantum_engine.Settlement.Process.{
  process_contract_settlement, process_late_settlement_from_payload, enqueue_contract_settlement,
  register_confirmed_contract, session_target,
}
use aether_quantum_engine.Settlement.Detect.{contract_payload_is_settled}
use aether_quantum_engine.Common.Text.{upper}
use aether_quantum_engine.Session.StopWin.{
  resolve_target, is_compounding_enabled, calculate_session_targets, compounding_rate,
  small_account_fixed_win, round_currency,
}
use aether_quantum_engine.Settlement.Once.{
  Message, bought, settled_now, to_queue, handle, handle_all,
}
use aether_quantum_engine.Settlement.Final.{settled_for_good}
use aether_quantum_engine.Tests.Data.{dollars, engine, contract, lost, no_audit}

pub lost_says_so : contract_payload_is_settled lost ≡ true
unfolding contract_payload_is_settled upper
lost_says_so = refl

pub target_of_engine : session_target engine ≡ some (pos 8_620_000)
unfolding resolve_target is_compounding_enabled calculate_session_targets compounding_rate
    small_account_fixed_win round_currency ◌*ℤ◌ floor_div quotient
target_of_engine = refl

abbrev after_loss : Orchestrator ℤ
after_loss = record engine { active_contracts = []; settled_contract_ids = 7 ∷ [] }

abbrev noise : List (Message ℤ)
noise =
    settled_now lost no_audit ∷ bought contract "R_100" (dollars 10) ∷ to_queue lost no_audit ∷ []

still_online : (handle_all after_loss noise).ws_is_running ≡ true
unfolding handle_all handle process_contract_settlement enqueue_contract_settlement
    register_confirmed_contract contract_payload_is_settled upper
still_online = refl

good_example :
    let later = handle_all after_loss noise in
    (process_contract_settlement later lost no_audit ≡ later)
    × (process_late_settlement_from_payload later lost no_audit ≡ later)
    × (enqueue_contract_settlement later lost no_audit ≡ later)
    × (register_confirmed_contract later contract "R_100" (dollars 10) ≡ (later, false))
good_example =
    settled_for_good after_loss noise lost no_audit contract "R_100" (dollars 10)
      (record { is_seen = refl }) refl still_online
