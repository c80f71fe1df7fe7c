-- ===== src/Stake/Finish/Numbers.antt =====
-- The caps of Stake/Caps.antt and the minima give a number where they are given one, whatever the metrics hold.
use aether_quantum_engine.Common.{Bool, not, ◌&&◌, ◌||◌, Option, none, some, if◌then◌else◌, if_both}
use aether_quantum_engine.Common.Float.{
  Float, IsIeee, IsNumber, nought, fmax, fmin, ◌≼◌, ◌≺◌, or_nought,
}
use aether_quantum_engine.Common.Float.Laws.{
  fmin-IsNumber, fmax-IsNumber, fmin-le_right, nought_refl, le_of_lt,
}
use aether_quantum_engine.Risk.{RiskManager}
use aether_quantum_engine.Stake.{SoftRecovery, Runtime, pending_waives_scale_explore}
use aether_quantum_engine.Stake.Metrics.{Metrics}
use aether_quantum_engine.Stake.Sizing.{
  KellyConfig, Regime, up_to, finalize_stake_with_min, enforce_min_stake_pct,
}
use aether_quantum_engine.Stake.Caps.{
  stake_min_of, cap_final_stake, apply_mandatory_weak_explore_cap, apply_post_kelly_stake_caps,
  apply_scale_stake_cap, apply_loss_clf_soft_stake_cap, apply_signal_soft_stake_cap, up_to_pct,
  up_to_positive_pct, apply_session_profit_lock, has_soft_signal, safe_cap_of, pct_cap_of,
  d_squeeze_sovereignty_active, soft_size_waives_d_squeeze_floor, enforce_d_squeeze_stake_floor,
}

module _ {F : Type 0} ⦃f : Float F⦄ (laws : IsIeee F) where
  pub if-IsNumber : (b : Bool) {x y : F} → IsNumber x → IsNumber y → IsNumber (if b then x else y)
  if-IsNumber b p q = if_both (λ (z : F). z ≼ z) b p q

  pub first-IsNumber :
      (p q : F × Option (Metrics F)) (b : Bool)
      → IsNumber p.0
      → IsNumber q.0
      → IsNumber (if b then p else q).0
  first-IsNumber p q b h k = if_both (λ (z : F × Option (Metrics F)). z.0 ≼ z.0) b h k

  pub up_to-IsNumber : (m x : F) → IsNumber x → IsNumber (up_to m x)
  up_to-IsNumber m x h = if-IsNumber (f.lt nought m) (fmin-IsNumber laws x m h) h

  pub up_to-le : (m x : F) → nought ≺ m → IsNumber x → up_to m x ≼ m
  up_to-le m x above h =
      rw above
        (fmin-le_right laws x m h (laws.refl_of_le nought m (le_of_lt laws nought m above)).1)

  lock-IsNumber :
      (x target pnl peak least : F)
      → IsNumber x
      → IsNumber (apply_session_profit_lock x target pnl peak least)
  unfolding apply_session_profit_lock
  lock-IsNumber x target pnl peak least h = if-IsNumber (f.le target nought) h (
      if-IsNumber (f.lt (f.add (fmax peak pnl) (f.lit 1 9)) (f.mul target (f.lit 50 2))) h (
        if-IsNumber (f.lt (f.mul target (f.lit 25 2)) pnl)
          (fmin-IsNumber laws x (fmax least (f.sub pnl (f.mul target (f.lit 25 2)))) h)
          (fmin-IsNumber laws x least h)))

  pub weak_cap-IsNumber :
      (x bankroll : F) (regime : Regime) (mandatory dl_execute : Bool) (k : KellyConfig F)
      → IsNumber x
      → IsNumber (apply_mandatory_weak_explore_cap x bankroll regime mandatory dl_execute k)
  unfolding apply_mandatory_weak_explore_cap
  weak_cap-IsNumber x bankroll Regime.recover mandatory dl_execute k h = h
  weak_cap-IsNumber x bankroll Regime.explore mandatory dl_execute k h =
      let pct = or_nought k.mandatory_weak_max_stake_pct in
      if-IsNumber (not mandatory || dl_execute) h (
        if-IsNumber (f.le pct nought) h (fmin-IsNumber laws x (fmax nought (f.mul bankroll pct)) h))

  up_to_pct-IsNumber :
      (x bankroll : F) (pct : Option F) → IsNumber x → IsNumber (up_to_pct x bankroll pct)
  up_to_pct-IsNumber x bankroll none h = h
  up_to_pct-IsNumber x bankroll (some pct) h =
      fmin-IsNumber laws x (fmax nought (f.mul bankroll pct)) h

  up_to_positive_pct-IsNumber :
      (x bankroll : F) (pct : Option F) → IsNumber x → IsNumber (up_to_positive_pct x bankroll pct)
  up_to_positive_pct-IsNumber x bankroll none h = h
  up_to_positive_pct-IsNumber x bankroll (some pct) h =
      if-IsNumber (f.le pct nought) h (fmin-IsNumber laws x (fmax nought (f.mul bankroll pct)) h)

  scale-IsNumber :
      (x bankroll : F) (metrics : Option (Metrics F)) (pending : F) (soft : SoftRecovery F)
      → IsNumber x
      → IsNumber (apply_scale_stake_cap x bankroll metrics pending soft)
  unfolding apply_scale_stake_cap
  scale-IsNumber x bankroll none pending soft h = h
  scale-IsNumber x bankroll (some m) pending soft h =
      if-IsNumber (pending_waives_scale_explore pending soft) h (
        if-IsNumber (not (m.scale_discordance || m.scale_adapted)) h
          (up_to_pct-IsNumber x bankroll m.scale_max_stake_pct h))

  loss_clf-IsNumber :
      (x bankroll : F) (metrics : Option (Metrics F)) (pending : F) (soft : SoftRecovery F)
      → IsNumber x
      → IsNumber (apply_loss_clf_soft_stake_cap x bankroll metrics pending soft)
  unfolding apply_loss_clf_soft_stake_cap
  loss_clf-IsNumber x bankroll none pending soft h = h
  loss_clf-IsNumber x bankroll (some m) pending soft h = if-IsNumber (not m.loss_clf_soft) h (
      if-IsNumber (pending_waives_scale_explore pending soft) h
        (up_to_positive_pct-IsNumber x bankroll m.loss_clf_soft_max_stake_pct h))

  signal-IsNumber :
      (x bankroll : F) (metrics : Option (Metrics F)) (pending : F) (soft : SoftRecovery F)
      → IsNumber x
      → IsNumber (apply_signal_soft_stake_cap x bankroll metrics pending soft)
  unfolding apply_signal_soft_stake_cap
  signal-IsNumber x bankroll none pending soft h = h
  signal-IsNumber x bankroll (some m) pending soft h = if-IsNumber (not (has_soft_signal m)) h (
      if-IsNumber (pending_waives_scale_explore pending soft) h
        (up_to_positive_pct-IsNumber x bankroll m.soft_signal_max_stake_pct h))

  pub post_caps-IsNumber :
      (x bankroll : F) (metrics : Option (Metrics F)) (pending : F) (soft : SoftRecovery F)
      → IsNumber x
      → IsNumber (apply_post_kelly_stake_caps x bankroll metrics pending soft)
  unfolding apply_post_kelly_stake_caps
  post_caps-IsNumber x bankroll metrics pending soft h =
      signal-IsNumber _ bankroll metrics pending soft (
        loss_clf-IsNumber _ bankroll metrics pending soft
          (scale-IsNumber x bankroll metrics pending soft h))

  pub finalize-IsNumber :
      (x least bankroll conviction : F) (linear mandatory : Bool)
      → IsNumber x
      → IsNumber least
      → IsNumber (finalize_stake_with_min x least bankroll conviction linear mandatory)
  unfolding finalize_stake_with_min
  finalize-IsNumber x least bankroll conviction linear mandatory h k =
      let zero = nought_refl laws in
      if-IsNumber (f.lt (f.add bankroll (f.lit 1 12)) least) zero (
        if-IsNumber (f.le x nought && not mandatory) zero (
          if-IsNumber ((f.le (f.lit 50 2) conviction || (linear || mandatory)) && f.lt x least)
            (if-IsNumber (f.le least bankroll) k zero) h))

  pub cap_final-IsNumber :
      (r : Runtime F) (soft : SoftRecovery F) (k : KellyConfig F) (x bankroll conviction : F)
      (stress : Bool) (rm : RiskManager F) (metrics : Option (Metrics F))
      → IsNumber x
      → IsNumber (cap_final_stake r soft k x bankroll conviction stress rm metrics).0
  unfolding cap_final_stake
  cap_final-IsNumber r soft k x bankroll conviction stress rm metrics h =
      let safe_cap = safe_cap_of r soft bankroll rm metrics in
      let low = fmin-IsNumber laws x safe_cap h in
      let capped = up_to-IsNumber (or_nought k.max_stake) _ (
        if-IsNumber stress low
          (fmin-IsNumber laws (fmin x safe_cap) (pct_cap_of k bankroll conviction) low)) in
      if-IsNumber (f.lt nought rm.daily_stop_win_target)
        (lock-IsNumber _ rm.daily_stop_win_target rm.total_session_profit rm.peak_session_profit
          (stake_min_of rm) capped)
        capped

  pub enforce-IsNumber :
      (x bankroll : F) (k : KellyConfig F) (safe_cap : F) (metrics : Option (Metrics F))
      → IsNumber x
      → IsNumber (enforce_min_stake_pct x bankroll k safe_cap metrics).0
  unfolding enforce_min_stake_pct
  enforce-IsNumber x bankroll k safe_cap metrics h =
      let max_stake = or_nought k.max_stake in
      let floor = up_to max_stake (f.mul bankroll (or_nought k.min_stake_pct)) in
      let lifted = up_to-IsNumber max_stake (fmax x floor) (fmax-IsNumber laws x floor h) in
      first-IsNumber _ _ (f.le x nought) (nought_refl laws) (
        first-IsNumber _ _ (f.le (or_nought k.min_stake_pct) nought || f.le bankroll nought)
          (up_to-IsNumber max_stake x h)
          (up_to-IsNumber max_stake _
            (if-IsNumber (f.lt nought safe_cap) (fmin-IsNumber laws _ safe_cap lifted) lifted)))

  pub squeeze-IsNumber :
      (r : Runtime F) (x least : F) (metrics : Option (Metrics F)) (pending : F)
      → IsNumber x
      → IsNumber least
      → IsNumber (enforce_d_squeeze_stake_floor r x least metrics pending).0
  unfolding enforce_d_squeeze_stake_floor
  squeeze-IsNumber r x least none pending h k = h
  squeeze-IsNumber r x least (some m) pending h k =
      first-IsNumber _ _ (not (d_squeeze_sovereignty_active r m)) h (
        first-IsNumber _ _ (f.lt nought pending) h
          (first-IsNumber _ _ (soft_size_waives_d_squeeze_floor m) h k))
