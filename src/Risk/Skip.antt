-- ===== src/Risk/Skip.antt =====
-- `ProposalSkipMixin` of app/src/domain/risk/risk_proposal_skip.py: symbols that sit out some cycles after a failed
-- proposal.
pub mod Decay
use aether_quantum_engine.Common.{
  ℕ, ◌-◌, max, String, Bool, true, false, List, [], ◌∷◌, map, if◌then◌else◌, ltb, leb, string_eq,
  keep_if,
}
use aether_quantum_engine.Common.Dict.{Dict, get_default, put}

pub register_proposal_failure : Dict String ℕ → String → ℕ → Dict String ℕ
register_proposal_failure skips symbol cycles =
    put symbol (max cycles (get_default symbol 0 skips)) skips

-- An entry whose count has run out is dropped, any other counts down.
pub decay_proposal_skip_cycles : Dict String ℕ → Dict String ℕ
decay_proposal_skip_cycles [] = []
decay_proposal_skip_cycles ((symbol, remaining) ∷ skips) =
    let rest = decay_proposal_skip_cycles skips in
    let left = remaining - 1 in if leb left 0 then rest else (symbol, left) ∷ rest

pub proposal_skip_symbols : Dict String ℕ → List String
proposal_skip_symbols skips = map (λ e. e.0) (keep_if (λ e. ltb 0 e.1) skips)
