-- ===== src/Indicator/Closed.antt =====
-- What `closed_candles` of indicator/app/src/indicator/domain.py gives.
use aether_quantum_engine.Common.{
  ℕ, ◌<◌, Bool, true, false, Option, none, some, List, [], ◌∷◌, map, if◌then◌else◌, ◌≡◌, refl, sym,
  ap, ◌∙◌, nat_eq, contains, insert_ids, insert_ids-IsAscending, IsAscending, All, arith, ◌⊎◌, inl,
  inr, subst, if_both, some_inj,
}
use aether_quantum_engine.Common.Dict.{get, keys}
use aether_quantum_engine.Common.Float.{Float, IsIeee}
use mathlib.Core.List.{Memᴰ}
use aether_quantum_engine.Indicator.{
  Candle, Row, Reading, is_usable, candle_of, same_candle, read_candle, read_rows, with_candle_at,
  candles_at, closed_candles,
}
use aether_quantum_engine.Indicator.Ascending.{IsRead, read_candle-IsRead, usable_of}

module _ {F : Type 0} where
  abbrev pub epochs_of : List (Candle F) → List ℕ
  epochs_of cs = map (λ c. c.epoch) cs

module _ {F : Type 0} ⦃f : Float F⦄ (laws : IsIeee F) (now period : ℕ) where
  IsRead-iff :
      (S T : Row F → Type 0) (r : Reading F)
      → ((x : Row F) → S x → T x)
      → ((x : Row F) → T x → S x)
      → IsRead laws now period S r
      → IsRead laws now period T r
  IsRead-iff S T r to from h = record {
    from_row = λ e c g. let (same, (x, seen, is)) = h.from_row e c g in (same, (x, to x seen, is));
    agrees = λ x c seen is free. h.agrees x c (from x seen) is free;
  }

  read_rows-IsRead :
      (S : Row F → Type 0) (r : Reading F) (rows : List (Row F))
      → IsRead laws now period S r
      → IsRead laws now period (λ x. S x ⊎ Memᴰ x rows) (read_rows now period r rows)
  read_rows-IsRead S r [] h = IsRead-iff S _ r (λ x s. inl s) (λ x s. seen_of_none x s) h
    where
      seen_of_none : (x : Row F) → S x ⊎ Memᴰ x [] → S x
      seen_of_none x (inl s) = s
      seen_of_none x (inr m) = elim m [ ]
  read_rows-IsRead S r (row ∷ rows) h = IsRead-iff _ _ _ to from (
      read_rows-IsRead (λ x. S x ⊎ (x ≡ row)) (read_candle r (candle_of now period row)) rows
        (read_candle-IsRead laws now period S r row (candle_of now period row) refl h))
    where
      to : (x : Row F) → (S x ⊎ (x ≡ row)) ⊎ Memᴰ x rows → S x ⊎ Memᴰ x (row ∷ rows)
      to x (inl (inl s)) = inl s
      to x (inl (inr e)) = inr (Memᴰ.head e)
      to x (inr m) = inr (Memᴰ.tail m)

      from : (x : Row F) → S x ⊎ Memᴰ x (row ∷ rows) → (S x ⊎ (x ≡ row)) ⊎ Memᴰ x rows
      from x (inl s) = inl (inl s)
      from x (inr (Memᴰ.head e)) = inl (inr e)
      from x (inr (Memᴰ.tail m)) = inr m

  all-IsRead :
      (rows : List (Row F))
      → IsRead laws now period
          (λ x. Memᴰ x rows)
          (read_rows now period (record { candles = []; conflicts = [] }) rows)
  all-IsRead rows =
      IsRead-iff _ _ _ (λ x s. only x s) (λ x m. inr m)
        (read_rows-IsRead (λ x. ⊥) (record { candles = []; conflicts = [] }) rows
          (record { from_row = λ e c g. ground arith; agrees = λ x c s is free. elim s [ ] }))
    where
      only : (x : Row F) → ⊥ ⊎ Memᴰ x rows → Memᴰ x rows
      only x (inl s) = elim s [ ]
      only x (inr m) = m

  module _ (S : Row F → Type 0) (r : Reading F) (h : IsRead laws now period S r) where
    above_at :
        (lo e : ℕ) (o : Option (Candle F)) (cs : List (Candle F))
        → get e r.candles ≡ o
        → lo < e
        → All (λ y. lo < y) (epochs_of cs)
        → All (λ y. lo < y) (epochs_of (with_candle_at o cs))
    above_at lo e none cs g below rest = rest
    above_at lo e (some c) cs g below rest =
        (subst (λ n. lo < n) (sym (h.from_row e c g).0) below, rest)

    above :
        (lo : ℕ) (es : List ℕ)
        → All (λ y. lo < y) es
        → All (λ y. lo < y) (epochs_of (candles_at r es))
    above lo [] a = tt
    above lo (e ∷ es) a =
        if_both (λ (cs : List (Candle F)). All (λ y. lo < y) (epochs_of cs))
          (contains e r.conflicts) (above lo es a.1)
          (above_at lo e (get e r.candles) (candles_at r es) refl a.0 (above lo es a.1))

    IsAscending-at :
        (e : ℕ) (o : Option (Candle F)) (es : List ℕ)
        → get e r.candles ≡ o
        → All (λ y. e < y) es
        → IsAscending (epochs_of (candles_at r es))
        → IsAscending (epochs_of (with_candle_at o (candles_at r es)))
    IsAscending-at e none es g below rest = rest
    IsAscending-at e (some c) es g below rest =
        let at = (h.from_row e c g).0 in
        (
          subst (λ n. All (λ y. n < y) (epochs_of (candles_at r es))) (sym at) (above e es below),
          rest,
        )

    IsAscending-candles : (es : List ℕ) → IsAscending es → IsAscending (epochs_of (candles_at r es))
    IsAscending-candles [] a = tt
    IsAscending-candles (e ∷ es) a =
        if_both (λ (cs : List (Candle F)). IsAscending (epochs_of cs)) (contains e r.conflicts)
          (IsAscending-candles es a.1)
          (IsAscending-at e (get e r.candles) es refl a.0 (IsAscending-candles es a.1))

    -- A candle of the list stands in the dictionary, at an epoch without a conflict.
    abbrev Kept : Candle F → Type 0
    Kept c = (get c.epoch r.candles ≡ some c) × (contains c.epoch r.conflicts ≡ false)

    kept_at :
        (e : ℕ) (o : Option (Candle F)) (cs : List (Candle F)) (c : Candle F)
        → get e r.candles ≡ o
        → contains e r.conflicts ≡ false
        → (Memᴰ c cs → Kept c)
        → Memᴰ c (with_candle_at o cs)
        → Kept c
    kept_at e none cs c g free rest m = rest m
    kept_at e (some d) cs c g free rest (Memᴰ.head x) =
        let at : c.epoch ≡ e = ap (λ z. z.epoch) x ∙ (h.from_row e d g).0 in
        (
          ap (λ n. get n r.candles) at ∙ g ∙ ap some (sym x),
          ap (λ n. contains n r.conflicts) at ∙ free,
        )
    kept_at e (some d) cs c g free rest (Memᴰ.tail m) = rest m

    kept_if :
        (b : Bool) (xs ys : List (Candle F)) (c : Candle F)
        → (Memᴰ c xs → Kept c)
        → (b ≡ false → Memᴰ c ys → Kept c)
        → Memᴰ c (if b then xs else ys)
        → Kept c
    kept_if true xs ys c p q m = p m
    kept_if false xs ys c p q m = q refl m

    kept : (es : List ℕ) (c : Candle F) → Memᴰ c (candles_at r es) → Kept c
    kept [] c m = elim m [ ]
    kept (e ∷ es) c m =
        kept_if (contains e r.conflicts) (candles_at r es)
          (with_candle_at (get e r.candles) (candles_at r es)) c (kept es c)
          (λ free. kept_at e (get e r.candles) (candles_at r es) c refl free (kept es c)) m

  -- The list ascends strictly by epoch; each of its candles is on the grid, closed and finite, and every row of the
  -- same epoch that is so too has the same values.
  pub closed_candles-agree :
      (rows : List (Row F)) (c d : Candle F) (row : Row F)
      → Memᴰ c (closed_candles rows now period)
      → Memᴰ row rows
      → candle_of now period row ≡ some d
      → d.epoch ≡ c.epoch
      → IsAscending (epochs_of (closed_candles rows now period))
        × (is_usable now period c ≡ true)
        × (same_candle d c ≡ true)
  unfolding closed_candles
  closed_candles-agree rows c d row m here is at =
      let r = read_rows now period (record { candles = []; conflicts = [] }) rows in
      let h = all-IsRead rows in
      let es = insert_ids (keys r.candles) [] in
      let (found, free) = kept _ r h es c m in
      let (same, (x, seen, is_c)) = h.from_row c.epoch c found in
      let (old, at_old, agreed) =
        h.agrees row d here is (ap (λ n. contains n r.conflicts) at ∙ free) in
      let old_is_c : some old ≡ some c = sym at_old ∙ ap (λ n. get n r.candles) at ∙ found in
      (
        IsAscending-candles _ r h es (insert_ids-IsAscending (keys r.candles) [] tt),
        usable_of laws now period x c is_c,
        ap (same_candle d) (some_inj (sym old_is_c)) ∙ agreed,
      )
