-- ===== src/Direction/PairTracker.antt =====
-- app/src/application/services/orchestrator/session_pair_tracker.py: wins, losses and streaks of each symbol.
use aether_quantum_engine.Common.{
  ℕ, zero, suc, ◌+◌, String, Bool, true, false, none, some, List, [], ◌∷◌, if◌then◌else◌, ◌≡◌, refl,
  arith, ◌==◌, string_eq, Bool-cases, inl, inr, ap, ◌∙◌,
}
use aether_quantum_engine.Common.Int.{ℤ, pos, negsuc, ◌+ℤ◌, ◌-ℤ◌, ltb_ℤ}
use aether_quantum_engine.Common.Dict.{Dict, get, get_default, put, get_default-put}
use aether_quantum_engine.Common.Text.{upper, strip}
use aether_quantum_engine.Common.Float.{Float, nought, fmax, fmin}

pub record Stats (F : Type 0) : Type 0 where
  pub wins : ℕ
  pub losses : ℕ
  pub streak : ℤ
  pub pnl : F
  pub last_settled : F

-- `str(symbol).upper().strip()`
abbrev pub tracked_symbol : String → String
tracked_symbol s = strip (upper s)

-- `(streak + 1) if streak > 0 else 1`, and its mirror image.
abbrev pub longer_win : ℤ → ℤ
longer_win streak = if ltb_ℤ (pos 0) streak then streak +ℤ pos 1 else pos 1

abbrev pub longer_loss : ℤ → ℤ
longer_loss streak = if ltb_ℤ streak (pos 0) then streak -ℤ pos 1 else negsuc 0

module _ {F : Type 0} ⦃f : Float F⦄ where
  open f use {lit, add, mul, neg, of_int}

  abbrev pub no_stats : Stats F
  no_stats = record { wins = 0; losses = 0; streak = pos 0; pnl = nought; last_settled = nought }

  abbrev pub settled_stats : Stats F → Bool → F → F → Stats F
  settled_stats d won profit now =
      let paid = record d { pnl = add d.pnl profit; last_settled = now } in
      if won
      then record paid { wins = d.wins + 1; streak = longer_win d.streak }
      else record paid { losses = d.losses + 1; streak = longer_loss d.streak }

  -- `now` is `time.time()`.
  pub record_symbol_settlement :
      Dict String (Stats F) → F → String → Bool → F → Dict String (Stats F)
  record_symbol_settlement stats now symbol won profit =
      let sym = tracked_symbol symbol in
      put sym (settled_stats (get_default sym no_stats stats) won profit now) stats

  pub get_symbol_stats : Dict String (Stats F) → String → Stats F
  get_symbol_stats stats symbol = get_default (tracked_symbol symbol) no_stats stats

  abbrev pub adjustment : ℤ → F
  adjustment streak =
      if ltb_ℤ streak (pos 0)
      then fmax (neg (lit 25 2)) (mul (of_int streak) (lit 10 2))
      else if ltb_ℤ (pos 0) streak
      then fmin (lit 12 2) (mul (of_int streak) (lit 4 2))
      else nought

  pub symbol_rotation_adjustment : Dict String (Stats F) → String → F
  symbol_rotation_adjustment stats symbol = elim (get (tracked_symbol symbol) stats) [
    | none ↦ nought
    | some d ↦ adjustment d.streak
  ]

-- A settlement of a symbol: whether it won, its profit and the time.
pub record Settled (F : Type 0) : Type 0 where
  pub symbol : String
  pub won : Bool
  pub profit : F
  pub at : F

-- The wins at the head of a list of results, and the losses.
abbrev pub run_of : Bool → List Bool → ℕ
run_of b [] = 0
run_of b (r ∷ rs) =
    let rest = run_of b rs in if b then (if r then suc rest else 0) else if r then 0 else suc rest

-- The streak of results, the newest first: the run of wins, or the run of losses below 0.
abbrev pub signed_run : List Bool → ℤ
signed_run rs = elim (run_of false rs) [ zero ↦ pos (run_of true rs) | suc n ↦ negsuc n ]

module _ {F : Type 0} ⦃f : Float F⦄ where
  -- The tracker after settlements, the newest first.
  pub tracked : List (Settled F) → Dict String (Stats F)
  tracked [] = []
  tracked (s ∷ older) = record_symbol_settlement (tracked older) s.at s.symbol s.won s.profit

module _ {F : Type 0} where
  abbrev pub results : String → List (Settled F) → List Bool
  results symbol [] = []
  results symbol (s ∷ older) =
      let rest = results symbol older in
      if tracked_symbol s.symbol == tracked_symbol symbol then s.won ∷ rest else rest

longer_win-run : (rs : List Bool) → longer_win (signed_run rs) ≡ signed_run (true ∷ rs)
unfolding ◌+ℤ◌
longer_win-run [] = refl
longer_win-run (true ∷ rs) = ground arith
longer_win-run (false ∷ rs) = ground arith

longer_loss-run : (rs : List Bool) → longer_loss (signed_run rs) ≡ signed_run (false ∷ rs)
unfolding ◌-ℤ◌
longer_loss-run [] = refl
longer_loss-run (true ∷ rs) = ground arith
longer_loss-run (false ∷ rs) = ground arith

module _ {F : Type 0} ⦃f : Float F⦄ where
  settled_stats-streak :
      (d : Stats F) (won : Bool) (profit now : F) (rs : List Bool)
      → d.streak ≡ signed_run rs
      → (settled_stats d won profit now).streak ≡ signed_run (won ∷ rs)
  settled_stats-streak d true profit now rs e = ap longer_win e ∙ longer_win-run rs
  settled_stats-streak d false profit now rs e = ap longer_loss e ∙ longer_loss-run rs

  -- After any settlements, the streak of a symbol is its current run of wins, or of losses below 0.
  pub streak-signed_run :
      (settled : List (Settled F)) (symbol : String)
      → (get_symbol_stats (tracked settled) symbol).streak ≡ signed_run (results symbol settled)
  unfolding get_symbol_stats tracked record_symbol_settlement
  streak-signed_run [] symbol = refl
  streak-signed_run (s ∷ older) symbol =
      let sym = tracked_symbol s.symbol in
      let old = tracked older in
      let new = settled_stats (get_default sym no_stats old) s.won s.profit s.at in
      let ih = streak-signed_run older symbol in
      let here = get_default-put (tracked_symbol symbol) sym new no_stats old in
      elim (Bool-cases (sym == tracked_symbol symbol)) [
        | inl same ↦
            let e = (string_eq.beq_iff sym (tracked_symbol symbol)).0 same in
            rw (here, same)
              (settled_stats-streak (get_default sym no_stats old) s.won s.profit s.at
                (results symbol older) (ap (λ k. (get_default k no_stats old).streak) e ∙ ih))
        | inr other ↦ rw (here, other) ih
      ]
