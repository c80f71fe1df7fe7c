-- ===== src/Risk/Skip/Decay.antt =====
-- A symbol sits out exactly the cycles that it was given.
use aether_quantum_engine.Common.{
  ℕ, zero, suc, ◌-◌, ◌<◌, max, String, true, false, [], ◌∷◌, string_eq, eq_refl, contains, ◌≡◌, ◌↔◌,
  refl, arith,
}
use aether_quantum_engine.Common.Dict.{
  Dict, get_default, put, has_key, IsDict, get_default-put, put-IsDict,
}
use aether_quantum_engine.Risk.Skip.{
  register_proposal_failure, decay_proposal_skip_cycles, proposal_skip_symbols,
}

decay-has_key :
    (s : String) (d : Dict String ℕ)
    → has_key s d ≡ false
    → has_key s (decay_proposal_skip_cycles d) ≡ false
unfolding decay_proposal_skip_cycles
decay-has_key s [] h = refl
decay-has_key s ((k, n) ∷ d) h = ground (arith, decay-has_key s d)

decay-IsDict : (d : Dict String ℕ) → IsDict d → IsDict (decay_proposal_skip_cycles d)
unfolding decay_proposal_skip_cycles
decay-IsDict [] h = tt
decay-IsDict ((k, n) ∷ d) h = ground (arith, decay-IsDict d h.1, decay-has_key k d h.0)

absent_default : (s : String) (d : Dict String ℕ) → has_key s d ≡ false → get_default s 0 d ≡ 0
absent_default s d h = ground arith

-- One cycle takes one off every count.
decay-get_default :
    (s : String) (d : Dict String ℕ)
    → IsDict d
    → get_default s 0 (decay_proposal_skip_cycles d) ≡ get_default s 0 d - 1
unfolding decay_proposal_skip_cycles
decay-get_default s [] h = omega arith
decay-get_default s ((k, n) ∷ d) h = ground (
  arith,
  decay-get_default s d h.1,
  string_eq.beq_iff k s,
  absent_default s (decay_proposal_skip_cycles d),
  decay-has_key s d,
)

pub decays : ℕ → Dict String ℕ → Dict String ℕ
decays zero d = d
decays (suc n) d = decays n (decay_proposal_skip_cycles d)

decays-get_default :
    (n : ℕ) (s : String) (d : Dict String ℕ)
    → IsDict d
    → get_default s 0 (decays n d) ≡ get_default s 0 d - n
unfolding decays
decays-get_default zero s d h = omega arith
decays-get_default (suc n) s d h = omega (
  arith,
  decays-get_default n s (decay_proposal_skip_cycles d) (decay-IsDict d h),
  decay-get_default s d h,
)

decays-IsDict : (n : ℕ) (d : Dict String ℕ) → IsDict d → IsDict (decays n d)
unfolding decays
decays-IsDict zero d h = h
decays-IsDict (suc n) d h = decays-IsDict n (decay_proposal_skip_cycles d) (decay-IsDict d h)

skipped-absent :
    (s : String) (d : Dict String ℕ)
    → has_key s d ≡ false
    → contains s (proposal_skip_symbols d) ≡ false
unfolding proposal_skip_symbols
skipped-absent s [] h = refl
skipped-absent s ((k, n) ∷ d) h = ground (arith, skipped-absent s d, string_eq.beq_iff k s)

-- The excluded symbols are those with a count above 0.
skip_symbols_iff :
    (s : String) (d : Dict String ℕ)
    → IsDict d
    → (contains s (proposal_skip_symbols d) ≡ true) ↔ (0 < get_default s 0 d)
unfolding proposal_skip_symbols
skip_symbols_iff s [] h = ground arith
skip_symbols_iff s ((k, n) ∷ d) h =
    ground (
      arith,
      skip_symbols_iff s d h.1,
      string_eq.beq_iff k s,
      skipped-absent s d,
      absent_default s d,
    )

-- After a failure with `cycles`, and `n` cycles more, the symbol is excluded exactly while `n` is below the longer of
-- `cycles` and what it still had to sit out.
pub failure_excludes :
    (d : Dict String ℕ) (s : String) (cycles n : ℕ)
    → IsDict d
    → (contains s (proposal_skip_symbols (decays n (register_proposal_failure d s cycles))) ≡ true)
      ↔ (n < max cycles (get_default s 0 d))
unfolding register_proposal_failure
failure_excludes d s cycles n h =
    let d' = put s (max cycles (get_default s 0 d)) d in
    let v = put-IsDict s (max cycles (get_default s 0 d)) d h in
    ground (
      arith,
      eq_refl s,
      skip_symbols_iff s (decays n d') (decays-IsDict n d' v),
      decays-get_default n s d' v,
      get_default-put s s (max cycles (get_default s 0 d)) 0 d,
    )
