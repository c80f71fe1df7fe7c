-- ===== src/Stake/Finish/Provisional.antt =====
-- The stake that app/src/domain/risk/checkpoint_stake_cap.py allows while a model is on trial.
use aether_quantum_engine.Common.{
  Bool, true, not, ◌||◌, Option, none, some, ◌≡◌, ◌⊎◌, inl, inr, refl, arith, if_both,
}
use aether_quantum_engine.Common.Float.{Float, IsIeee, IsNumber, nought, fmax, fmin, ◌≼◌, or_nought}
use aether_quantum_engine.Common.Float.Laws.{fmin-IsNumber, fmin-le, fmin-le_right, fmax_nonneg}
use aether_quantum_engine.Risk.{RiskManager}
use aether_quantum_engine.Stake.{SoftRecovery, Runtime}
use aether_quantum_engine.Stake.Metrics.{Metrics}
use aether_quantum_engine.Stake.Sizing.{KellyConfig, enforce_min_stake_pct, note_floor}
use aether_quantum_engine.Stake.Caps.{
  stake_min_of, cap_provisional_stake, d_squeeze_sovereignty_active,
  soft_size_waives_d_squeeze_floor, enforce_d_squeeze_stake_floor, checkpoint_stake_cap_pct,
}
use aether_quantum_engine.Stake.Finish.{Cycle, floored, finish_capped, finish_stake}
use aether_quantum_engine.Stake.Finish.Numbers.{
  finalize-IsNumber, weak_cap-IsNumber, post_caps-IsNumber, cap_final-IsNumber, enforce-IsNumber,
  squeeze-IsNumber,
}
use aether_quantum_engine.Stake.Finish.{provisional_of}

module _ {F : Type 0} ⦃f : Float F⦄ where
  -- The model of the cycle is on trial.
  abbrev pub IsProvisional : Option (Metrics F) → Type 0
  IsProvisional none = ⊥
  IsProvisional (some m) = m.deploy_provisional ≡ true

  -- 1% of the balance
  abbrev pub trial_cap : F → F
  trial_cap bankroll = f.mul bankroll (f.lit 1 2)

module _ {F : Type 0} ⦃f : Float F⦄ (laws : IsIeee F) where
  pub checkpoint-bounds :
      (m : Metrics F)
      → (nought ≼ checkpoint_stake_cap_pct m) × (checkpoint_stake_cap_pct m ≼ f.lit 1 2)
  unfolding checkpoint_stake_cap_pct
  checkpoint-bounds m =
      let asked = fmax nought (or_nought m.provisional_max_stake_pct) in
      let hundredth = laws.refl_of_finite (f.lit 1 2) (laws.lit_finite 1 2 (omega arith)) in
      (
        if_both (λ (z : F). nought ≼ z) (f.lt asked (f.lit 1 2))
            (fmax_nonneg laws (or_nought m.provisional_max_stake_pct))
            (laws.lit-le 0 0 1 2 (omega arith)),
        fmin-le laws (f.lit 1 2) asked hundredth,
      )

  provisional-le_trial :
      (x bankroll : F) (metrics : Option (Metrics F)) (safe_cap : F)
      → nought ≼ bankroll
      → f.is_finite bankroll ≡ true
      → IsProvisional metrics
      → IsNumber x
      → (cap_provisional_stake x bankroll metrics safe_cap).0 ≼ trial_cap bankroll
  unfolding cap_provisional_stake checkpoint_stake_cap_pct
  provisional-le_trial x bankroll none safe_cap above finite trial h = elim trial [ ]
  provisional-le_trial x bankroll (some m) safe_cap above finite trial h =
      let pct = checkpoint_stake_cap_pct m in
      let (pct_above, pct_low) = checkpoint-bounds m in
      let scaled =
        laws.mul_mono pct (f.lit 1 2) bankroll pct_above pct_low (laws.lit_finite 1 2 (omega arith))
          above finite in
      let most = f.mul bankroll pct in
      let is_number = (laws.refl_of_le most (trial_cap bankroll) scaled).0 in
      let low =
        laws.le_trans (fmin x most) most (trial_cap bankroll)
          (fmin-le_right laws x most h is_number) scaled in
      let lower = fmin-le laws (fmin x most) safe_cap (fmin-IsNumber laws x most h) in
      rw trial (
        if_both (λ (z : F). z ≼ trial_cap bankroll) (f.lt nought safe_cap)
          (laws.le_trans (fmin (fmin x most) safe_cap) (fmin x most) (trial_cap bankroll) lower low)
          low)

  squeeze-IsProvisional :
      (r : Runtime F) (x least : F) (metrics : Option (Metrics F)) (pending : F)
      → IsProvisional metrics
      → IsProvisional (enforce_d_squeeze_stake_floor r x least metrics pending).1
  unfolding enforce_d_squeeze_stake_floor
  squeeze-IsProvisional r x least none pending h = h
  squeeze-IsProvisional r x least (some m) pending h =
      let P = λ (z : F × Option (Metrics F)). IsProvisional z.1 in
      if_both P (not (d_squeeze_sovereignty_active r m)) h
        (if_both P (f.lt nought pending) h (if_both P (soft_size_waives_d_squeeze_floor m) h h))

  note-IsProvisional :
      (applied : Bool) (floor : F) (metrics : Option (Metrics F))
      → IsProvisional metrics
      → IsProvisional (note_floor applied floor metrics)
  note-IsProvisional applied floor none h = h
  note-IsProvisional applied floor (some m) h = if_both IsProvisional applied h h

  enforce-IsProvisional :
      (x bankroll : F) (k : KellyConfig F) (safe_cap : F) (metrics : Option (Metrics F))
      → IsProvisional metrics
      → IsProvisional (enforce_min_stake_pct x bankroll k safe_cap metrics).1
  unfolding enforce_min_stake_pct
  enforce-IsProvisional x bankroll k safe_cap metrics h =
      let P = λ (z : F × Option (Metrics F)). IsProvisional z.1 in
      if_both P (f.le x nought) h (
        if_both P (f.le (or_nought k.min_stake_pct) nought || f.le bankroll nought) h
          (note-IsProvisional _ _ metrics h))

  module _ (r : Runtime F) (soft : SoftRecovery F) (k : KellyConfig F) (rm : RiskManager F)
      (c : Cycle F) where
    provisional_of-le_trial :
        (safe_cap : F) (p : F × Option (Metrics F))
        → nought ≼ c.bankroll
        → f.is_finite c.bankroll ≡ true
        → IsProvisional p.1
        → IsNumber p.0
        → (provisional_of r soft k rm c safe_cap p).0 ≼ trial_cap c.bankroll
    provisional_of-le_trial safe_cap (x, metrics) =
        provisional-le_trial x c.bankroll metrics safe_cap

    floored-le_trial :
        (safe_cap : F) (p : F × Option (Metrics F))
        → nought ≼ c.bankroll
        → f.is_finite c.bankroll ≡ true
        → IsNumber (stake_min_of rm)
        → IsProvisional p.1
        → IsNumber p.0
        → (floored r soft k rm c safe_cap p).0 ≼ trial_cap c.bankroll
    floored-le_trial safe_cap (x, metrics) above finite least trial h =
        let capped = post_caps-IsNumber laws x c.bankroll metrics c.loss_to_recover soft h in
        let final =
          finalize-IsNumber laws _ (stake_min_of rm) c.bankroll c.conviction _ c.mandatory_flag
            capped least in
        provisional_of-le_trial safe_cap _ above finite
          (enforce-IsProvisional _ c.bankroll k safe_cap metrics trial)
          (enforce-IsNumber laws _ c.bankroll k safe_cap metrics final)

    finish_capped-le_trial :
        (p : F × F) (metrics : Option (Metrics F))
        → nought ≼ c.bankroll
        → f.is_finite c.bankroll ≡ true
        → IsNumber (stake_min_of rm)
        → IsProvisional metrics
        → IsNumber p.0
        → ((finish_capped r soft k rm c p metrics).0 ≡ nought)
          ⊎ ((finish_capped r soft k rm c p metrics).0 ≼ trial_cap c.bankroll)
    finish_capped-le_trial (x, safe_cap) metrics above finite least trial h =
        let weak =
          weak_cap-IsNumber laws x c.bankroll c.stake_regime c.mandatory_flag c.dl_execute k h in
        if_both (λ (z : F × Option (Metrics F)). (z.0 ≡ nought) ⊎ (z.0 ≼ trial_cap c.bankroll)) _
          (inl refl)
          (inr (
            floored-le_trial safe_cap _ above finite least
              (squeeze-IsProvisional r _ (stake_min_of rm) metrics c.loss_to_recover trial)
              (squeeze-IsNumber laws r _ (stake_min_of rm) metrics c.loss_to_recover weak least)))

    -- While the model is on trial, the answer is 0 or at most 1% of the balance, which is finite and not negative, if
    -- the proposed stake and the smallest stake are numbers: no minimum and no recovery lifts it above that.
    pub finish_stake-le_trial :
        (proposed : F) (metrics : Option (Metrics F))
        → nought ≼ c.bankroll
        → f.is_finite c.bankroll ≡ true
        → IsNumber (stake_min_of rm)
        → IsProvisional metrics
        → IsNumber proposed
        → ((finish_stake r soft k rm c proposed metrics).0 ≡ nought)
          ⊎ ((finish_stake r soft k rm c proposed metrics).0 ≼ trial_cap c.bankroll)
    unfolding finish_stake
    finish_stake-le_trial proposed metrics above finite least trial h =
        finish_capped-le_trial _ metrics above finite least trial (
          cap_final-IsNumber laws r soft k proposed c.bankroll c.conviction c.recovery_stress rm
            metrics h)
