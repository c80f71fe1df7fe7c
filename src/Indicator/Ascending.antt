-- ===== src/Indicator/Ascending.antt =====
-- `closed_candles` of indicator/app/src/indicator/domain.py gives each closed candle once, in order, and none that two
-- rows tell apart.
use aether_quantum_engine.Common.{
  ℕ, Bool, true, false, not, Option, none, some, List, if◌then◌else◌, ◌≡◌, refl, sym, ap, ◌∙◌, ◌==◌,
  nat_eq, contains, set_add, arith, ◌⊎◌, inl, inr, Bool-cases, eq_refl, if_true, if_false,
}
use aether_quantum_engine.Common.Dict.{Dict, get, get-put}
use aether_quantum_engine.Common.Float.{Float, IsIeee, feq}
use aether_quantum_engine.Indicator.{
  Candle, Row, Reading, is_usable, usable, parsed, candle_of, same_candle, conflicts_with,
  read_candle,
}

pub nat_of_beq : (a b : ℕ) → (a == b) ≡ true → a ≡ b
nat_of_beq a b h = ground (arith, nat_eq.beq_iff a b)

free_before :
    (e a : ℕ) (k : List ℕ) (b : Bool)
    → contains e (if b then set_add a k else k) ≡ false
    → contains e k ≡ false
free_before e a k b h = ground arith

no_conflict :
    (e a : ℕ) (k : List ℕ) (b : Bool)
    → a ≡ e
    → contains e (if b then set_add a k else k) ≡ false
    → b ≡ false
no_conflict e a k b same h = ground (arith, eq_refl e)

not-false : (b : Bool) → not b ≡ false → b ≡ true
not-false b h = ground arith

module _ {F : Type 0} ⦃f : Float F⦄ where
  agreed_with :
      (old c : Candle F) (d : Dict ℕ (Candle F))
      → get c.epoch d ≡ some old
      → conflicts_with (get c.epoch d) c ≡ false
      → same_candle old c ≡ true
  agreed_with old c d found h = by_found (get c.epoch d) found h
    where
      by_found :
          (o : Option (Candle F))
          → o ≡ some old
          → conflicts_with o c ≡ false
          → same_candle old c ≡ true
      by_found none e h = ground arith
      by_found (some x) e h =
          let same : x ≡ old = ground arith in
          ap (λ z. same_candle z c) (sym same) ∙ not-false (same_candle x c) h

module _ {F : Type 0} ⦃f : Float F⦄ (laws : IsIeee F) where
  open f use {le, is_finite}

  feq_trans : (a b c : F) → feq a b ≡ true → feq b c ≡ true → feq a c ≡ true
  feq_trans a b c h k = ground (arith, laws.le_trans a b c, laws.le_trans c b a)

  same_trans :
      (a b c : Candle F) → same_candle a b ≡ true → same_candle b c ≡ true → same_candle a c ≡ true
  same_trans a b c h k = ground (
    arith,
    feq_trans a.open_price b.open_price c.open_price,
    feq_trans a.high b.high c.high,
    feq_trans a.low b.low c.low,
    feq_trans a.close b.close c.close,
  )

  same_self :
      (now period : ℕ) (c : Candle F) → is_usable now period c ≡ true → same_candle c c ≡ true
  same_self now period c h = ground (
    arith,
    laws.refl_of_finite c.open_price,
    laws.refl_of_finite c.high,
    laws.refl_of_finite c.low,
    laws.refl_of_finite c.close,
  )

  -- What is read so far, of the rows in `Seen`: each candle is that of a row, under its epoch, and where no conflict is
  -- noted it has the values of every row of the epoch.
  pub record IsRead (now period : ℕ) (Seen : Row F → Type 0) (r : Reading F) : Type 0 where
    pub from_row :
        (e : ℕ) (c : Candle F)
        → get e r.candles ≡ some c
        → (c.epoch ≡ e) × ((row : Row F) × Seen row × (candle_of now period row ≡ some c))
    pub agrees :
        (row : Row F) (c : Candle F)
        → Seen row
        → candle_of now period row ≡ some c
        → contains c.epoch r.conflicts ≡ false
        → (d : Candle F) × (get c.epoch r.candles ≡ some d) × (same_candle c d ≡ true)

  pub usable_of :
      (now period : ℕ) (row : Row F) (c : Candle F)
      → candle_of now period row ≡ some c
      → is_usable now period c ≡ true
  unfolding candle_of
  usable_of now period row c h = usable_is (parsed row) h
    where
      usable_is :
          (p : Option (Candle F)) → usable now period p ≡ some c → is_usable now period c ≡ true
      usable_is none e = ground arith
      usable_is (some d) e = ground arith

  pub read_candle-IsRead :
      (now period : ℕ) (Seen : Row F → Type 0) (r : Reading F) (row : Row F) (o : Option (Candle F))
      → candle_of now period row ≡ o
      → IsRead now period Seen r
      → IsRead now period (λ x. Seen x ⊎ (x ≡ row)) (read_candle r o)
  read_candle-IsRead now period Seen r row none e h = record {
    from_row = λ k c g. let (same, (x, seen, is)) = h.from_row k c g in (same, (x, inl seen, is));
    agrees = λ x c s is free. elim s [
      | inl seen ↦ h.agrees x c seen is free
      | inr here ↦ absurd (ground (arith, ap (candle_of now period) here))
    ];
  }
  read_candle-IsRead now period Seen r row (some c) e h = record {
    from_row = λ k d g. elim (Bool-cases (c.epoch == k)) [
      | inl same ↦
          let is_new : some c ≡ some d =
            sym (if_true (c.epoch == k) _ _ same) ∙ sym (get-put k c.epoch c r.candles) ∙ g in
          let new : c ≡ d = ground arith in
          (ap (λ x. x.epoch) (sym new) ∙ nat_of_beq c.epoch k same, (row, inr refl, e ∙ is_new))
      | inr other ↦
          let is_old =
            sym (if_false (c.epoch == k) (some c) _ other)
            ∙ sym (get-put k c.epoch c r.candles)
            ∙ g in
          let (same, (x, seen, is)) = h.from_row k d is_old in (same, (x, inl seen, is))
    ];
    agrees = λ x d s is free.
        let before =
          free_before d.epoch c.epoch r.conflicts (conflicts_with (get c.epoch r.candles) c) free in
        elim (Bool-cases (c.epoch == d.epoch)) [
          | inl same ↦ (
            c,
            get-put d.epoch c.epoch c r.candles ∙ if_true (c.epoch == d.epoch) _ _ same,
            elim s [
              | inl seen ↦
                  let at : c.epoch ≡ d.epoch = nat_of_beq c.epoch d.epoch same in
                  let (old, found, agreed) = h.agrees x d seen is before in
                  same_trans d old c agreed (
                    agreed_with old c r.candles (ap (λ n. get n r.candles) at ∙ found)
                      (no_conflict d.epoch c.epoch r.conflicts _ at free))
              | inr here ↦
                  let is_c : d ≡ c = ground (arith, ap (candle_of now period) here) in
                  ap (λ z. same_candle z c) is_c
                  ∙ same_self now period c (usable_of now period row c e)
            ],
          )
          | inr other ↦ elim s [
            | inl seen ↦
                let (old, found, agreed) = h.agrees x d seen is before in
                (
                  old,
                  get-put d.epoch c.epoch c r.candles
                      ∙ if_false (c.epoch == d.epoch) (some c) _ other
                      ∙ found,
                  agreed,
                )
            | inr here ↦ absurd (ground (arith, ap (candle_of now period) here, eq_refl d.epoch))
          ]
        ];
  }
