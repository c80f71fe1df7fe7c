-- ===== src/Risk/Settlement/Ledger.antt =====
-- The ledger of the session stays sound: no pending loss and no stake is ever negative.
use aether_quantum_engine.Common.{
  ℕ, String, true, Option, none, some, ◌≡◌, inl, inr, refl, arith, nat_eq, string_eq, Bool-cases,
}
use aether_quantum_engine.Common.Dict.{
  Dict, get, has_key, Values, put-Values, pop-Values, get_default-Values, get-Values,
}
use aether_quantum_engine.Common.Float.{Float, IsIeee, ◌≼◌, ◌≺◌, nought, fmax}
use aether_quantum_engine.Common.Float.Laws.{
  nought_finite, nought_refl, le_of_lt, lt_of_not-le, fmax_nonneg, fabs_nonneg, fmax-finite,
  fmax_of_le,
}
use aether_quantum_engine.Risk.{RiskManager, record_trade_outcome, record_loss_context}
use aether_quantum_engine.Risk.Pending.{apply_win_to_pending_loss}
use aether_quantum_engine.Risk.Pending.Laws.{IsNonneg, apply_win-reduces, apply_residual-IsNonneg}
use aether_quantum_engine.Risk.Cluster.{
  finalize_risk_cluster, apply_cluster_profit_to_recovery_state, clear_dust_pending_loss,
  after_dust, apply_dlambert_partial_win_retraction,
}
use aether_quantum_engine.Risk.Settlement.{
  loss_amount, register_loss, register_win, recovery_profit, with_residual, book_profit,
  close_contract, is_tracked, apply_settlement, apply_contract_settlement_result,
}

module _ {F : Type 0} ⦃f : Float F⦄ where
  pub record IsSound (rm : RiskManager F) : Type 0 where
    pub pending : Values (IsNonneg {F = F}) rm.pending_loss
    pub stakes : Values (IsNonneg {F = F}) rm.contract_stakes
    pub requested : Values (IsNonneg {F = F}) rm.contract_requested_stakes

  finalize_keeps : (rm : RiskManager F) → IsSound rm → IsSound (finalize_risk_cluster rm)
  unfolding finalize_risk_cluster apply_cluster_profit_to_recovery_state clear_dust_pending_loss
      after_dust apply_dlambert_partial_win_retraction
  finalize_keeps rm s = ground arith

  close_keeps : (rm : RiskManager F) (cid : ℕ) → IsSound rm → IsSound (close_contract rm cid)
  unfolding close_contract
  close_keeps rm cid s = grind (arith, finalize_keeps)

  book_keeps :
      (rm : RiskManager F) (profit : F) (cid : ℕ) (symbol : String) (tick : ℕ)
      → IsSound rm
      → IsSound (book_profit rm profit cid symbol tick)
  unfolding book_profit record_trade_outcome
  book_keeps rm profit cid symbol tick s = record {
    pending = s.pending;
    stakes = pop-Values IsNonneg cid rm.contract_stakes s.stakes;
    requested = pop-Values IsNonneg cid rm.contract_requested_stakes s.requested;
  }

  -- A value that may be absent is at least 0 where it is there.
  abbrev pub Nonneg? : Option F → Type 0
  Nonneg? none = Unit
  Nonneg? (some v) = IsNonneg v

  get-Nonneg? : (cid : ℕ) (d : Dict ℕ F) → Values IsNonneg d → Nonneg? (get cid d)
  get-Nonneg? cid d h =
      elim (get cid d) as (λ o. get cid d ≡ o → Nonneg? o) [
        | none ↦ λ e. tt
        | some v ↦ λ e. get-Values IsNonneg cid d h e
      ]
        refl

module _ {F : Type 0} ⦃f : Float F⦄ (laws : IsIeee F) where
  open laws use {
    refl_of_finite, refl_of_le, le_total, add_nonneg, sub_of_le, sub_of_gt, sub-finite, lt-eq,
  }

  loss_amount-IsNonneg :
      (requested recorded : Option F) (profit : F)
      → profit ≺ nought
      → Nonneg? recorded
      → IsNonneg (loss_amount requested recorded profit)
  loss_amount-IsNonneg none none profit loss h = fabs_nonneg laws profit loss
  loss_amount-IsNonneg none (some r) profit loss h = h
  loss_amount-IsNonneg (some q) none profit loss h = elim (Bool-cases (f.lt nought q)) [
    | inl p ↦ rw (p, loss_amount) (le_of_lt laws nought q p)
    | inr n ↦ rw (n, loss_amount) (fabs_nonneg laws profit loss)
  ]
  loss_amount-IsNonneg (some q) (some r) profit loss h = elim (Bool-cases (f.lt nought q)) [
    | inl p ↦ rw (p, loss_amount) (le_of_lt laws nought q p)
    | inr n ↦ rw (n, loss_amount) h
  ]

  -- The part of a profit that pays off losses is finite, since the profit is.
  recovery_profit-finite :
      (requested recorded : Option F) (profit : F)
      → f.is_finite profit ≡ true
      → nought ≼ profit
      → f.is_finite (recovery_profit requested recorded profit) ≡ true
  recovery_profit-finite none recorded profit fin pos = fin
  recovery_profit-finite (some q) none profit fin pos = fin
  recovery_profit-finite (some q) (some r) profit fin pos =
      let cut = fmax nought (f.sub q r) in
      let cut_pos : nought ≼ cut = fmax_nonneg laws (f.sub q r) in
      let num = refl_of_finite profit fin in
      elim (Bool-cases (f.le cut profit)) [
        | inl enough ↦
            fmax-finite laws (f.sub profit cut) (sub-finite profit cut cut_pos enough fin)
        | inr short ↦
            let less = lt_of_not-le laws profit cut num (refl_of_le nought cut cut_pos).1 short in
            rw (fmax_of_le laws (f.sub profit cut) (sub_of_gt profit cut less)) (nought_finite laws)
      ]

  register_loss_keeps :
      (rm : RiskManager F) (profit : F) (symbol : String) (direction : Option String)
      (requested recorded : Option F)
      → profit ≺ nought
      → Nonneg? recorded
      → IsSound rm
      → IsSound (register_loss rm profit symbol direction requested recorded)
  unfolding register_loss record_loss_context
  register_loss_keeps rm profit symbol direction requested recorded loss h s =
      let old =
        get_default-Values IsNonneg symbol nought rm.pending_loss (nought_refl laws) s.pending in
      record {
        pending =
            put-Values IsNonneg symbol _ rm.pending_loss
              (add_nonneg _ _ old (loss_amount-IsNonneg requested recorded profit loss h))
              s.pending;
        stakes = s.stakes;
        requested = s.requested;
      }

  register_win_keeps :
      (rm : RiskManager F) (profit : F) (symbol : String) (requested recorded : Option F)
      → f.is_finite profit ≡ true
      → nought ≼ profit
      → IsSound rm
      → IsSound (register_win rm profit symbol requested recorded)
  unfolding register_win
  register_win_keeps rm profit symbol requested recorded fin pos s = record {
    pending = residual_keeps recorded;
    stakes = s.stakes;
    requested = s.requested;
  }
    where
      paid : Dict String F
      paid = apply_win_to_pending_loss rm.pending_loss (recovery_profit requested recorded profit)

      paid_nonneg : Values IsNonneg paid
      paid_nonneg =
          (apply_win-reduces laws rm.pending_loss _
            (recovery_profit-finite requested recorded profit fin pos) s.pending).1

      residual_keeps :
          (r : Option F) → Values IsNonneg (with_residual rm.config r profit symbol paid)
      residual_keeps none = paid_nonneg
      residual_keeps (some r) = elim (Bool-cases (f.lt nought r)) [
        | inl p ↦ rw (p, with_residual) (apply_residual-IsNonneg laws paid symbol _ paid_nonneg)
        | inr n ↦ rw (n, with_residual) paid_nonneg
      ]

  -- A settlement with a finite profit keeps every pending loss and every stake at 0 or above.
  pub apply_contract-IsSound :
      (rm : RiskManager F) (profit : F) (cid : ℕ) (symbol : String) (tick : ℕ)
      (direction : Option String)
      → f.is_finite profit ≡ true
      → IsSound rm
      → IsSound (apply_contract_settlement_result rm profit cid symbol tick direction)
  unfolding apply_contract_settlement_result apply_settlement
  apply_contract-IsSound rm profit cid symbol tick direction fin s =
      let booked = book_keeps rm profit cid symbol tick s in
      let num = refl_of_finite profit fin in
      elim (Bool-cases (has_key cid rm.cluster_results)) [
        | inl seen ↦ rw seen s
        | inr new ↦ elim (Bool-cases (is_tracked rm cid)) [
          | inr gone ↦ rw (new, gone) s
          | inl tracked ↦ elim (Bool-cases (f.lt profit nought)) [
            | inl loss ↦
                rw (new, tracked, loss)
                  (close_keeps _ cid (
                    register_loss_keeps _ profit symbol direction _ _ loss
                      (get-Nonneg? cid rm.contract_stakes s.stakes) booked))
            | inr win ↦
                let pos : nought ≼ profit =
                  ground
                    (arith, lt-eq profit nought, le_total nought profit (nought_refl laws) num) in
                rw (new, tracked, win)
                  (close_keeps _ cid (register_win_keeps _ profit symbol _ _ fin pos booked))
          ]
        ]
      ]
