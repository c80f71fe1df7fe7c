-- ===== src/Risk/Settlement/Once.antt =====
-- A contract is settled at most once.
use aether_quantum_engine.Common.{
  ℕ, String, true, false, Option, ◌≡◌, ◌⊎◌, inl, inr, arith, nat_eq, string_eq, Bool-cases,
}
use aether_quantum_engine.Common.Dict.{has_key, get-put}
use aether_quantum_engine.Common.Float.{Float}
use aether_quantum_engine.Risk.{RiskManager, record_trade_outcome, record_loss_context}
use aether_quantum_engine.Risk.Cluster.{finalize_risk_cluster}
use aether_quantum_engine.Risk.Settlement.{
  book_profit, register_loss, register_win, close_contract, is_tracked, apply_settlement,
  apply_contract_settlement_result,
}

module _ {F : Type 0} ⦃f : Float F⦄ where
  -- The contract has its result in the cluster, or is not tracked any more.
  abbrev pub IsSettled : RiskManager F → ℕ → Type 0
  IsSettled rm cid = (has_key cid rm.cluster_results ≡ true) ⊎ (is_tracked rm cid ≡ false)

  close_contract-IsSettled :
      (rm : RiskManager F) (cid : ℕ)
      → has_key cid rm.cluster_results ≡ true
      → IsSettled (close_contract rm cid) cid
  unfolding close_contract finalize_risk_cluster
  close_contract-IsSettled rm cid h = ground arith

  book_profit-has_key :
      (rm : RiskManager F) (profit : F) (cid : ℕ) (symbol : String) (tick : ℕ)
      → has_key cid (book_profit rm profit cid symbol tick).cluster_results ≡ true
  unfolding book_profit record_trade_outcome
  book_profit-has_key rm profit cid symbol tick =
      ground (arith, get-put cid cid profit rm.cluster_results)

  apply_settlement-IsSettled :
      (rm : RiskManager F) (profit : F) (cid : ℕ) (symbol : String) (tick : ℕ)
      (direction : Option String)
      → IsSettled (apply_settlement rm profit cid symbol tick direction) cid
  unfolding apply_settlement register_loss register_win record_loss_context
  apply_settlement-IsSettled rm profit cid symbol tick direction =
      elim (Bool-cases (f.lt profit (f.lit 0 0))) [
        | inl loss ↦
            rw loss (close_contract-IsSettled _ cid (book_profit-has_key rm profit cid symbol tick))
        | inr win ↦
            rw win (close_contract-IsSettled _ cid (book_profit-has_key rm profit cid symbol tick))
      ]

  settled_again :
      (rm : RiskManager F) (profit : F) (cid : ℕ) (symbol : String) (tick : ℕ)
      (direction : Option String)
      → IsSettled rm cid
      → apply_contract_settlement_result rm profit cid symbol tick direction ≡ rm
  unfolding apply_contract_settlement_result
  settled_again rm profit cid symbol tick direction (inl seen) = rw seen
  settled_again rm profit cid symbol tick direction (inr gone) =
      elim (Bool-cases (has_key cid rm.cluster_results)) [
        | inl seen ↦ rw seen
        | inr new ↦ rw (new, gone)
      ]

  apply_contract-IsSettled :
      (rm : RiskManager F) (profit : F) (cid : ℕ) (symbol : String) (tick : ℕ)
      (direction : Option String)
      → IsSettled (apply_contract_settlement_result rm profit cid symbol tick direction) cid
  unfolding apply_contract_settlement_result
  apply_contract-IsSettled rm profit cid symbol tick direction =
      elim (Bool-cases (has_key cid rm.cluster_results)) [
        | inl seen ↦ rw seen (inl seen)
        | inr new ↦ elim (Bool-cases (is_tracked rm cid)) [
          | inl tracked ↦
              rw (new, tracked) (apply_settlement-IsSettled rm profit cid symbol tick direction)
          | inr gone ↦ rw (new, gone) (inr gone)
        ]
      ]

  -- Whatever the second message says, settling a contract again changes nothing of the risk state.
  pub apply_contract_settlement_twice :
      (rm : RiskManager F) (profit again : F) (cid : ℕ) (symbol other : String) (tick later : ℕ)
      (direction turned : Option String)
      → let once = apply_contract_settlement_result rm profit cid symbol tick direction in
        apply_contract_settlement_result once again cid other later turned ≡ once
  apply_contract_settlement_twice rm profit again cid symbol other tick later direction turned =
      settled_again _ again cid other later turned
        (apply_contract-IsSettled rm profit cid symbol tick direction)
