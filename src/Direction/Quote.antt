-- ===== src/Direction/Quote.antt =====
-- app/src/application/services/rise_fall_quote_guard.py: whether the payout that the broker quotes is worth the risk
-- on a side.
pub mod Worth
use aether_quantum_engine.Common.{
  String, Bool, true, false, ◌&&◌, ◌||◌, not, Option, none, some, if◌then◌else◌, ◌≡◌, refl, arith,
  ◌==◌, string_eq,
}
use aether_quantum_engine.Common.Float.{Float, nought, one, fmax, or_nought}

-- The metrics that the guard reads, each a float or missing.
pub record QuoteMetrics (F : Type 0) : Type 0 where
  pub calibrated_prob : Option F
  pub loss_clf_flip : Bool
  pub loss_clf_p_eff : Option F
  pub loss_clf_p_loss : Option F

-- The keys of `exec_cfg` that `flip_candidate_has_edge` reads.
pub record QuoteConfig (F : Type 0) : Type 0 where
  pub min_edge_execute : Option F
  pub quote_safety_margin : Option F
  pub quote_probability_haircut : Option F

module _ {F : Type 0} ⦃f : Float F⦄ where
  open f use {add, sub, mul, div, le, lt, is_finite, lit}

  abbrev pub is_probability : F → Bool
  is_probability p = is_finite p && (le nought p && le p one)

  abbrev pub is_rate : F → Bool
  is_rate r = is_finite r && not (le r nought)

  abbrev pub unit_ev : Option F → Option F → Option F
  unit_ev none r = none
  unit_ev (some p) none = none
  unit_ev (some p) (some r) =
      if not (is_probability p)
      then none
      else if not (is_rate r)
      then none
      else some (sub (mul p (add one r)) one)

  abbrev pub calculate_payout_breakeven_prob : Option F → Option F
  calculate_payout_breakeven_prob none = none
  calculate_payout_breakeven_prob (some r) =
      if not (is_rate r) then none else some (div one (add one r))

  abbrev pub of_side : String → F → F
  of_side direction p = if direction == "CALL" then p else sub one p

  -- The value of the classifier of losses: the effective one, else the raw one, else the calibrated one.
  abbrev pub first_known : Option F → Option F → F → F
  first_known (some a) b p = a
  first_known none (some b) p = b
  first_known none none p = p

  abbrev pub resolve_calibrated : QuoteMetrics F → String → Option F → Option F
  resolve_calibrated m direction none = none
  resolve_calibrated m direction (some p_call) =
      let side = of_side direction p_call in
      let p_side =
        if m.loss_clf_flip then first_known m.loss_clf_p_eff m.loss_clf_p_loss side else side in
      if not (is_probability p_call)
      then none
      else if is_probability p_side
      then some p_side
      else none

  unfoldable pub resolve_effective_side_probability : QuoteMetrics F → String → Option F
  resolve_effective_side_probability m direction = resolve_calibrated m direction m.calibrated_prob

  abbrev pub edge_of : Option F → F → F → Option F
  edge_of none rate haircut = none
  edge_of (some p_side) rate haircut = unit_ev (some (fmax nought (sub p_side haircut))) (some rate)

  abbrev pub quoted_at : QuoteMetrics F → String → Option F → F → Option F
  quoted_at m direction none haircut = none
  quoted_at m direction (some rate) haircut =
      if not (direction == "CALL" || direction == "PUT")
      then none
      else if not (is_rate rate)
          || not (is_finite haircut && (le nought haircut && lt haircut (lit 5 1)))
      then none
      else edge_of (resolve_effective_side_probability m direction) rate haircut

  unfoldable pub quoted_edge : QuoteMetrics F → String → Option F → F → Option F
  quoted_edge m direction payout_rate haircut = quoted_at m direction payout_rate haircut

  -- Whether the probability is below the break-even and the margin.
  abbrev pub is_below_margin : Option F → Option F → F → F → Bool
  is_below_margin (some p_side) (some p_be) margin haircut =
      lt (sub p_side haircut) (add p_be margin)
  is_below_margin none p_be margin haircut = false
  is_below_margin (some p_side) none margin haircut = false

  abbrev pub judge : Option F → Bool → F → Bool × Option F × String
  judge none below min_edge = (false, none, "insufficient_evidence")
  judge (some edge) below min_edge =
      if le edge min_edge
      then (false, some edge, "quote_edge_below_min")
      else if below
      then (false, some edge, "below_payout_breakeven_margin")
      else (true, some edge, "ok")

  -- The arguments are those of the code, in its order.
  unfoldable pub is_quote_edge_acceptable :
      QuoteMetrics F → String → Option F → F → F → F → Bool × Option F × String
  is_quote_edge_acceptable m direction payout_rate min_edge margin haircut =
      judge (quoted_edge m direction payout_rate haircut)
        (is_below_margin (resolve_effective_side_probability m direction)
          (calculate_payout_breakeven_prob payout_rate) margin haircut)
        min_edge

  abbrev pub candidate : Option F → QuoteMetrics F
  candidate p = record {
    calibrated_prob = p;
    loss_clf_flip = false;
    loss_clf_p_eff = none;
    loss_clf_p_loss = none;
  }

  unfoldable pub flip_candidate_has_edge : QuoteMetrics F → String → F → QuoteConfig F → Bool
  flip_candidate_has_edge m direction payout cfg =
      (is_quote_edge_acceptable (candidate m.calibrated_prob) direction (some payout)
        (or_nought cfg.min_edge_execute) (or_nought cfg.quote_safety_margin)
        (or_nought cfg.quote_probability_haircut)).0
