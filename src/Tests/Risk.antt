-- ===== src/Tests/Risk.antt =====
-- The risk state on concrete settlements.
use aether_quantum_engine.Common.{
  ℕ, ◌+◌, ◌≤◌, ◌<◌, max, String, true, false, some, none, [], ◌∷◌, ◌≡◌, ◌⊎◌, ◌↔◌, refl, contains,
  string_eq,
}
use aether_quantum_engine.Common.Int.{ℤ, pos, ◌+ℤ◌, ◌-ℤ◌, ◌*ℤ◌, floor_div}
use aether_quantum_engine.Common.Dict.{Dict, get_default, Values}
use aether_quantum_engine.Common.Float.{nought, ◌≺◌}
use aether_quantum_engine.Common.Float.Fixed.{fixed, fixed-IsIeee, quotient}
use aether_quantum_engine.Risk.Pullback.{pullback_stake, IsCapped, pullback_stake-IsCapped}
use aether_quantum_engine.Risk.{RiskManager}
use aether_quantum_engine.Risk.Pending.{
  pending_loss_total, recovery_financially_active, apply_win_to_pending_loss,
}
use aether_quantum_engine.Risk.Pending.Laws.{IsNonneg, IsReduced, PaysOff, apply_win-reduces}
use aether_quantum_engine.Risk.Cluster.{
  clear_dust_pending_loss, after_dust, apply_cluster_profit_to_recovery_state,
}
use aether_quantum_engine.Risk.Cluster.Recovery.{cluster_profit-linear}
use aether_quantum_engine.Risk.Settlement.{apply_contract_settlement_result}
use aether_quantum_engine.Risk.Settlement.Once.{apply_contract_settlement_twice}
use aether_quantum_engine.Risk.Settlement.Ledger.{IsSound, apply_contract-IsSound}
use aether_quantum_engine.Risk.Skip.{register_proposal_failure, proposal_skip_symbols}
use aether_quantum_engine.Risk.Skip.Decay.{decays, failure_excludes}
use aether_quantum_engine.Tests.Data.{dollars, negative, risk}

twice_example :
    let once = apply_contract_settlement_result risk (negative 10) 7 "R_100" 42 (some "CALL") in
    apply_contract_settlement_result once (dollars 9) 7 "R_50" 43 none ≡ once
twice_example =
    apply_contract_settlement_twice risk (negative 10) (dollars 9) 7 "R_100" "R_50" 42 43
      (some "CALL") none

risk-IsSound : IsSound risk
risk-IsSound = record { pending = (refl, tt); stakes = (refl, tt); requested = (refl, tt) }

ledger_example :
    IsSound (apply_contract_settlement_result risk (dollars 9) 7 "R_100" 42 (some "CALL"))
ledger_example =
    apply_contract-IsSound fixed-IsIeee risk (dollars 9) 7 "R_100" 42 (some "CALL") refl
      risk-IsSound

abbrev two_losses : Dict String ℤ
two_losses = ("R_100", dollars 4) ∷ ("R_50", dollars 6) ∷ []

win_example :
    let after = apply_win_to_pending_loss two_losses (dollars 7) in
    PaysOff (dollars 7) two_losses after
    × Values (IsNonneg {F = ℤ}) after
    × IsReduced two_losses after
win_example = apply_win-reduces fixed-IsIeee two_losses (dollars 7) refl (refl, (refl, tt))

linear_example :
    let after = (apply_cluster_profit_to_recovery_state risk (negative 10)).0 in
    (after.consecutive_losses_linear ≡ 0
      → (risk.consecutive_losses_linear ≡ 0)
        ⊎ (recovery_financially_active after.pending_loss ≡ false))
    × (after.consecutive_losses_linear ≤ risk.consecutive_losses_linear + 1)
    × (negative 10 ≺ nought → 0 < after.consecutive_losses_linear)
linear_example = cluster_profit-linear fixed-IsIeee risk (negative 10)

-- The pending loss is below the limit of dust, so the win of the cluster resets the count.
abbrev dusty : RiskManager ℤ
dusty = record risk { pending_loss = ("R_100", pos 200_000) ∷ [] }

dusty_resets : (apply_cluster_profit_to_recovery_state dusty (dollars 9)).1 ≡ true
unfolding apply_cluster_profit_to_recovery_state after_dust clear_dust_pending_loss
    pending_loss_total ◌+ℤ◌
dusty_resets = refl

abbrev one_skip : Dict String ℕ
one_skip = ("R_50", 1) ∷ []

failure_example :
    (contains "R_50"
        (proposal_skip_symbols (decays 2 (register_proposal_failure one_skip "R_50" 3)))
      ≡ true)
    ↔ (2 < max 3 (get_default "R_50" 0 one_skip))
failure_example = failure_excludes one_skip "R_50" 3 2 (refl, tt)

-- With 200 on the account and 4 pending at a payout of 0.8, the stake is 5, half of the cap.
stake_of_200 :
    pullback_stake (dollars 200) (dollars 4) (pos 800_000) (pos 350_000) (pos 0) (pos 1)
    ≡ some (dollars 5, dollars 4)
unfolding pullback_stake ◌+ℤ◌ ◌-ℤ◌ ◌*ℤ◌ floor_div quotient
stake_of_200 = refl

pullback_example : IsCapped (dollars 200) (dollars 4) (dollars 5, dollars 4)
pullback_example =
    pullback_stake-IsCapped fixed-IsIeee (dollars 200) (dollars 4) (pos 800_000) (pos 350_000)
      (pos 0) (pos 1) (dollars 5, dollars 4) stake_of_200
