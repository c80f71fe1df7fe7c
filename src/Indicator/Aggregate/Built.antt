-- ===== src/Indicator/Aggregate/Built.antt =====
-- `aggregate` of indicator/app/src/indicator/domain.py makes a candle only out of all the candles of its span.
use aether_quantum_engine.Common.{
  ℕ, ◌+◌, ◌*◌, ◌/◌, Bool, true, false, not, ◌&&◌, none, some, List, [], ◌∷◌, ◌++◌, if◌then◌else◌,
  ◌≡◌, refl, sym, ◌∙◌, ◌==◌, nat_eq, arith, length, ltb, contains, insert_ids, inl, inr, if_both,
  All, Bool-cases, subst, some_inj, if_false,
}
use aether_quantum_engine.Common.Dict.{Dict, get_default, put, keys, get_default-put}
use aether_quantum_engine.Common.Float.{Float}
use mathlib.Core.List.{Memᴰ}
use aether_quantum_engine.Indicator.{Candle}
use aether_quantum_engine.Indicator.Ascending.{nat_of_beq}
use aether_quantum_engine.Indicator.Aggregate.{
  base_of, group_by, insert_candle, sort_candles, is_complete, merged, merge_group, merge_groups,
  aggregate_on, aggregate, supported_periods,
}

both : (a b : Bool) → a && b ≡ true → (a ≡ true) × (b ≡ true)
both a b h = ground arith

module _ {F : Type 0} ⦃f : Float F⦄ where
  -- The candles stand at `epoch` and each `base` after the one before it.
  abbrev pub Steps : ℕ → ℕ → List (Candle F) → Type 0
  Steps base epoch [] = Unit
  Steps base epoch (c ∷ cs) = (c.epoch ≡ epoch) × Steps base (epoch + base) cs

  is_complete-Steps :
      (base epoch : ℕ) (cs : List (Candle F))
      → is_complete base epoch cs ≡ true
      → Steps base epoch cs
  is_complete-Steps base epoch [] h = tt
  is_complete-Steps base epoch (c ∷ cs) h =
      ground (arith, nat_eq.beq_iff c.epoch epoch, is_complete-Steps base (epoch + base) cs)

  -- The candle is made of `count` candles of the list, which fill its span.
  pub record IsBuilt (base count : ℕ) (candles : List (Candle F)) (r : Candle F) : Type 0 where
    pub first : Candle F
    pub others : List (Candle F)
    pub from_list : All (λ c. Memᴰ c candles) (first ∷ others)
    pub full : length (first ∷ others) ≡ count
    pub spaced : Steps base r.epoch (first ∷ others)
    pub made : r ≡ merged r.epoch first others

  All-append :
      (P : Candle F → Type 0) (xs ys : List (Candle F)) → All P xs → All P ys → All P (xs ++ ys)
  All-append P [] ys h k = k
  All-append P (x ∷ xs) ys h k = (h.0, All-append P xs ys h.1 k)

  All-insert :
      (P : Candle F → Type 0) (c : Candle F) (ds : List (Candle F))
      → P c
      → All P ds
      → All P (insert_candle c ds)
  All-insert P c [] p h = (p, tt)
  All-insert P c (d ∷ ds) p h =
      if_both (All P) (ltb d.epoch c.epoch) (h.0, All-insert P c ds p h.1) (p, h)

  All-sort : (P : Candle F → Type 0) (cs : List (Candle F)) → All P cs → All P (sort_candles cs)
  All-sort P [] h = tt
  All-sort P (c ∷ cs) h = All-insert P c (sort_candles cs) h.0 (All-sort P cs h.1)

  -- Every group holds candles with the property.
  Grouped : (Candle F → Type 0) → Dict ℕ (List (Candle F)) → Type 0
  Grouped P groups = (e : ℕ) → All P (get_default e [] groups)

  group_by-Grouped :
      (P : Candle F → Type 0) (period : ℕ) (groups : Dict ℕ (List (Candle F)))
      (cs : List (Candle F))
      → All P cs
      → Grouped P groups
      → Grouped P (group_by period groups cs)
  unfolding Grouped
  group_by-Grouped P period groups [] h g = g
  group_by-Grouped P period groups (c ∷ cs) h g =
      let epoch = c.epoch / period * period in
      let longer = get_default epoch [] groups ++ c ∷ [] in
      group_by-Grouped P period (put epoch longer groups) cs h.1 (λ e.
        subst (All P) (sym (get_default-put e epoch longer [] groups)) (
          if_both (All P) (epoch == e)
            (All-append P (get_default epoch [] groups) (c ∷ []) (g epoch) (h.0, tt)) (g e)))

  no_groups : (P : Candle F → Type 0) → Grouped P []
  unfolding Grouped
  no_groups P e = tt

  later_members :
      (c : Candle F) (xs cs : List (Candle F))
      → All (λ x. Memᴰ x cs) xs
      → All (λ x. Memᴰ x (c ∷ cs)) xs
  later_members c [] cs h = tt
  later_members c (x ∷ xs) cs h = (Memᴰ.tail h.0, later_members c xs cs h.1)

  All-members : (cs : List (Candle F)) → All (λ x. Memᴰ x cs) cs
  All-members [] = tt
  All-members (c ∷ cs) = (Memᴰ.head refl, later_members c cs cs (All-members cs))

  module _ (base count : ℕ) (candles : List (Candle F)) where
    merge_group-IsBuilt :
        (epoch : ℕ) (cs : List (Candle F))
        → All (λ c. Memᴰ c candles) cs
        → All (IsBuilt base count candles) (merge_group base count epoch cs)
    merge_group-IsBuilt epoch [] h = tt
    merge_group-IsBuilt epoch (first ∷ others) h =
        elim (Bool-cases
          ((length (first ∷ others) == count) && is_complete base epoch (first ∷ others))) [
            | inl e ↦ rw e (
              record {
                first = first;
                others = others;
                from_list = h;
                full = nat_of_beq (length (first ∷ others)) count (both _ _ e).0;
                spaced = is_complete-Steps base epoch (first ∷ others) (both _ _ e).1;
                made = refl;
              },
              tt,
            )
            | inr e ↦ rw e tt
          ]

    merge_groups-IsBuilt :
        (groups : Dict ℕ (List (Candle F))) (epochs : List ℕ)
        → Grouped (λ c. Memᴰ c candles) groups
        → All (IsBuilt base count candles) (merge_groups base count groups epochs)
    unfolding Grouped
    merge_groups-IsBuilt groups [] g = tt
    merge_groups-IsBuilt groups (e ∷ epochs) g =
        All-append (IsBuilt base count candles)
          (merge_group base count e (sort_candles (get_default e [] groups))) _
          (merge_group-IsBuilt e (sort_candles (get_default e [] groups))
            (All-sort (λ c. Memᴰ c candles) _ (g e)))
          (merge_groups-IsBuilt groups epochs g)

  module _ (base : ℕ) (candles : List (Candle F)) (period : ℕ) where
    on_supported :
        (b : Bool) (xs out : List (Candle F)) → (if b then none else some xs) ≡ some out → xs ≡ out
    on_supported b xs out h = ground arith

    aggregate_on-IsBuilt :
        (out : List (Candle F))
        → (period == base) ≡ false
        → aggregate_on base candles period ≡ some out
        → All (IsBuilt base (period / base) candles) out
    aggregate_on-IsBuilt out apart h =
        let groups = group_by period [] candles in
        let supported = sym (if_false (period == base) (some candles) _ apart) ∙ h in
        let is_out = on_supported (not (contains period supported_periods)) _ out supported in
        subst (All (IsBuilt base (period / base) candles)) is_out (
          merge_groups-IsBuilt base (period / base) candles groups (insert_ids (keys groups) []) (
            group_by-Grouped (λ c. Memᴰ c candles) period [] candles (All-members candles)
              (no_groups (λ c. Memᴰ c candles))))

  -- Each candle of another period is made of candles of the list, one for each step of its span, in order: nothing is
  -- filled in.
  pub aggregate-IsBuilt :
      (candles out : List (Candle F)) (period base_period : ℕ)
      → (period == base_of candles base_period) ≡ false
      → aggregate candles period base_period ≡ some out
      → All
          (IsBuilt (base_of candles base_period) (period / base_of candles base_period) candles)
          out
  unfolding aggregate
  aggregate-IsBuilt [] out period base_period apart h =
      let none_at : List (Candle F) = [] in
      subst
        (All (IsBuilt (base_of none_at base_period) (period / base_of none_at base_period) none_at))
        (some_inj h) tt
  aggregate-IsBuilt (c ∷ cs) out period base_period apart h =
      aggregate_on-IsBuilt (base_of (c ∷ cs) base_period) (c ∷ cs) period out apart h
