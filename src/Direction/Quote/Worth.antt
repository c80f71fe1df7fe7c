-- ===== src/Direction/Quote/Worth.antt =====
-- What a quote must be worth to pass app/src/application/services/rise_fall_quote_guard.py.
use aether_quantum_engine.Common.{
  String, Bool, true, false, ◌||◌, not, Option, none, some, if◌then◌else◌, ◌≡◌, refl, arith, ◌==◌,
  string_eq,
}
use aether_quantum_engine.Common.Float.{Float, nought, one, fmax, or_nought}
use aether_quantum_engine.Direction.Quote.{
  QuoteMetrics, QuoteConfig, is_probability, is_rate, unit_ev, calculate_payout_breakeven_prob,
  of_side, resolve_calibrated, resolve_effective_side_probability, edge_of, quoted_at, quoted_edge,
  is_below_margin, judge, is_quote_edge_acceptable, candidate, flip_candidate_has_edge,
}

if_some :
    {A : Type 0} (b : Bool) (y : Option A) (x : A) → (if b then none else y) ≡ some x → y ≡ some x
if_some b y x e = ground arith

module _ {F : Type 0} ⦃f : Float F⦄ where
  open f use {add, sub, mul, div, le, lt}

  -- The quote is worth it: the side's probability less the haircut earns more than `min_edge` for each unit, and it is
  -- not below the break-even of the payout and the margin.
  pub IsWorth : F → F → F → F → F → F → Type 0
  IsWorth p rate min_edge margin haircut edge =
      (is_probability p ≡ true)
      × (is_rate rate ≡ true)
      × (edge ≡ sub (mul (fmax nought (sub p haircut)) (add one rate)) one)
      × (le edge min_edge ≡ false)
      × (lt (sub p haircut) (add (div one (add one rate)) margin) ≡ false)

  unit_ev-some :
      (p r edge : F)
      → unit_ev (some p) (some r) ≡ some edge
      → (is_rate r ≡ true) × (edge ≡ sub (mul p (add one r)) one)
  unit_ev-some p r edge e = ground arith

  judge-true :
      (edge : Option F) (below : Bool) (min_edge x : F) (why : String)
      → judge edge below min_edge ≡ (true, some x, why)
      → (edge ≡ some x) × (below ≡ false) × (le x min_edge ≡ false)
  judge-true none below min_edge x why e = ground arith
  judge-true (some edge) below min_edge x why e = ground arith

  -- A side that has a probability has a valid one.
  resolve_calibrated-some :
      (m : QuoteMetrics F) (direction : String) (p : Option F) (p_side : F)
      → resolve_calibrated m direction p ≡ some p_side
      → is_probability p_side ≡ true
  resolve_calibrated-some m direction none p_side e = ground arith
  resolve_calibrated-some m direction (some p_call) p_side e = ground arith

  edge_of-some :
      (p : Option F) (rate haircut edge : F)
      → edge_of p rate haircut ≡ some edge
      → (p_side : F) × (p ≡ some p_side)
        × (is_rate rate ≡ true)
        × (edge ≡ sub (mul (fmax nought (sub p_side haircut)) (add one rate)) one)
  edge_of-some none rate haircut edge e = ground arith
  edge_of-some (some p_side) rate haircut edge e =
      let (rated, value) = unit_ev-some (fmax nought (sub p_side haircut)) rate edge e in
      (p_side, refl, rated, value)

  quoted_at-some :
      (m : QuoteMetrics F) (direction : String) (payout : Option F) (haircut edge : F)
      → quoted_at m direction payout haircut ≡ some edge
      → (rate : F) × (payout ≡ some rate)
        × (edge_of (resolve_effective_side_probability m direction) rate haircut ≡ some edge)
  quoted_at-some m direction none haircut edge e = ground arith
  quoted_at-some m direction (some rate) haircut edge e = (
    rate,
    refl,
    if_some _ _ edge (if_some (not (direction == "CALL" || direction == "PUT")) _ edge e),
  )

  breakeven_of_rate :
      (payout : Option F) (r : F)
      → payout ≡ some r
      → is_rate r ≡ true
      → calculate_payout_breakeven_prob payout ≡ some (div one (add one r))
  breakeven_of_rate payout r paid h = ground arith

  margin_of :
      (p b : Option F) (p_side p_be margin haircut : F)
      → p ≡ some p_side
      → b ≡ some p_be
      → is_below_margin p b margin haircut ≡ false
      → lt (sub p_side haircut) (add p_be margin) ≡ false
  margin_of p b p_side p_be margin haircut known even above = ground arith

  -- A quote is accepted only where the side has a probability, the broker quotes a rate, and the quote is worth it.
  pub is_quote_edge_acceptable-IsWorth :
      (m : QuoteMetrics F) (direction : String) (payout : Option F)
      (min_edge margin haircut edge : F) (why : String)
      → is_quote_edge_acceptable m direction payout min_edge margin haircut ≡ (true, some edge, why)
      → (p : F) × (rate : F) × (resolve_effective_side_probability m direction ≡ some p)
        × (payout ≡ some rate)
        × IsWorth p rate min_edge margin haircut edge
  unfolding is_quote_edge_acceptable quoted_edge resolve_effective_side_probability IsWorth
  is_quote_edge_acceptable-IsWorth m direction payout min_edge margin haircut edge why e =
      let (quoted, above, worth) = judge-true _ _ min_edge edge why e in
      let (rate, paid, priced) = quoted_at-some m direction payout haircut edge quoted in
      let (p, known, rated, value) = edge_of-some _ rate haircut edge priced in
      let even = breakeven_of_rate payout rate paid rated in
      let sure = resolve_calibrated-some m direction m.calibrated_prob p known in
      (
        p,
        rate,
        known,
        paid,
        (sure, rated, value, worth, margin_of _ _ p _ margin haircut known even above),
      )

  judge-accepts :
      (edge : Option F) (below : Bool) (min_edge : F)
      → (judge edge below min_edge).0 ≡ true
      → (x : F) × (judge edge below min_edge ≡ (true, some x, "ok"))
  judge-accepts none below min_edge e = ground arith
  judge-accepts (some x) below min_edge e = (x, ground arith)

  candidate-some :
      (c : Option F) (direction : String) (p : F)
      → resolve_calibrated (candidate c) direction c ≡ some p
      → (p_call : F) × (c ≡ some p_call) × (p ≡ of_side direction p_call)
  candidate-some none direction p e = ground arith
  candidate-some (some p_call) direction p e = (p_call, refl, ground arith)

  same-IsWorth :
      (p q r s min_edge margin haircut edge : F)
      → p ≡ q
      → ◌≡◌ {A = Option F} (some r) (some s)
      → IsWorth p s min_edge margin haircut edge
      → IsWorth q r min_edge margin haircut edge
  same-IsWorth p q r s min_edge margin haircut edge e paid h = ground arith

  -- A flip passes only where the calibrated probability is known, and the quote is worth it at that of the new side,
  -- with the floor, the margin and the haircut of the configuration.
  pub flip_candidate-IsWorth :
      (m : QuoteMetrics F) (direction : String) (payout : F) (cfg : QuoteConfig F)
      → flip_candidate_has_edge m direction payout cfg ≡ true
      → (p_call : F) × (edge : F) × (m.calibrated_prob ≡ some p_call)
        × IsWorth
            (of_side direction p_call)
            payout
            (or_nought cfg.min_edge_execute)
            (or_nought cfg.quote_safety_margin)
            (or_nought cfg.quote_probability_haircut)
            edge
  unfolding flip_candidate_has_edge is_quote_edge_acceptable resolve_effective_side_probability
  flip_candidate-IsWorth m direction payout cfg e =
      let (edge, accepted) = judge-accepts _ _ (or_nought cfg.min_edge_execute) e in
      let (p, rate, known, paid, worth) =
        is_quote_edge_acceptable-IsWorth (candidate m.calibrated_prob) direction (some payout) _ _ _
          edge "ok" accepted in
      let (p_call, calibrated, side) = candidate-some m.calibrated_prob direction p known in
      (p_call, edge, calibrated, same-IsWorth p _ payout rate _ _ _ edge side paid worth)
