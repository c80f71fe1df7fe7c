-- ===== src/Indicator/Contiguous.antt =====
-- `latest_contiguous` of indicator/app/src/indicator/domain.py gives the longest block at the end without a gap.
use aether_quantum_engine.Common.{
  ℕ, ◌+◌, false, List, [], ◌∷◌, ◌++◌, ◌≡◌, ◌≢◌, refl, sym, ◌∙◌, ◌==◌, nat_eq, arith, reverse,
  reverse-reverse, Bool-cases, inl, inr, append_assoc,
}
use aether_quantum_engine.Common.Float.{Float}
use aether_quantum_engine.Indicator.{Candle, extend, contiguous_of, latest_contiguous}
use aether_quantum_engine.Indicator.Ascending.{nat_of_beq}

module _ {F : Type 0} where
  -- Each candle starts a period after the one before it.
  abbrev pub IsContiguous : ℕ → List (Candle F) → Type 0
  IsContiguous period [] = Unit
  IsContiguous period (c ∷ []) = Unit
  IsContiguous period (c ∷ d ∷ cs) = (c.epoch + period ≡ d.epoch) × IsContiguous period (d ∷ cs)

  -- The candle before the block, the first of `before`, does not end where the block starts.
  abbrev pub HasGap : ℕ → List (Candle F) → List (Candle F) → Type 0
  HasGap period [] block = Unit
  HasGap period (c ∷ before) [] = ⊥
  HasGap period (c ∷ before) (d ∷ block) = c.epoch + period ≢ d.epoch

  -- The list is the block after the reverse of `before`.
  pub record IsSplit (period : ℕ) (candles before block : List (Candle F)) : Type 0 where
    pub whole : candles ≡ reverse before ++ block
    pub contiguous : IsContiguous period block
    pub gap : HasGap period before block

gap_of_false : (a b : ℕ) → (a == b) ≡ false → a ≢ b
gap_of_false a b h e = ground (arith, nat_eq.beq_iff a b)

module _ {F : Type 0} ⦃f : Float F⦄ (period : ℕ) where
  extend-IsSplit :
      (before : List (Candle F)) (first : Candle F) (block : List (Candle F))
      → IsContiguous period (first ∷ block)
      → (rest : List (Candle F)) × IsSplit period
          (reverse before ++ (first ∷ block))
          rest
          (extend period before first block)
  extend-IsSplit [] first block h = ([], record { whole = refl; contiguous = h; gap = tt })
  extend-IsSplit (c ∷ before) first block h = elim (Bool-cases (c.epoch + period == first.epoch)) [
    | inl next ↦
        let (rest, s) =
          extend-IsSplit before c (first ∷ block)
            (nat_of_beq (c.epoch + period) first.epoch next, h) in
        (
          rest,
          rw next (record {
            whole = append_assoc (reverse before) (c ∷ []) (first ∷ block) ∙ s.whole;
            contiguous = s.contiguous;
            gap = s.gap;
          }),
        )
    | inr apart ↦ (
      c ∷ before,
      rw apart (record {
        whole = refl;
        contiguous = h;
        gap = gap_of_false (c.epoch + period) first.epoch apart;
      }),
    )
  ]

  contiguous_of-IsSplit :
      (backwards : List (Candle F))
      → (rest : List (Candle F)) × IsSplit period
          (reverse backwards)
          rest
          (contiguous_of period backwards)
  contiguous_of-IsSplit [] = ([], record { whole = refl; contiguous = tt; gap = tt })
  contiguous_of-IsSplit (last ∷ before) = extend-IsSplit before last [] tt

  -- The block is contiguous, it ends the list, and it is the whole list or the candle before it leaves a gap.
  pub latest_contiguous-IsSplit :
      (candles : List (Candle F))
      → (rest : List (Candle F)) × IsSplit period candles rest (latest_contiguous candles period)
  unfolding latest_contiguous
  latest_contiguous-IsSplit candles =
      let (rest, s) = contiguous_of-IsSplit (reverse candles) in
      (
        rest,
        record {
          whole = sym (reverse-reverse candles) ∙ s.whole;
          contiguous = s.contiguous;
          gap = s.gap;
        },
      )
