-- ===== src/Risk/Pullback.antt =====
-- app/src/domain/risk/pullback_stake.py: the stake of an order that recovers a pending loss.
use aether_quantum_engine.Common.{
  Bool, true, false, ◌&&◌, ◌||◌, not, Option, none, some, if◌then◌else◌, ◌≡◌, ◌⊎◌, inl, inr, refl,
  arith, Bool-cases,
}
use aether_quantum_engine.Common.Int.{ℤ, pos, ltb_ℤ}
use aether_quantum_engine.Common.Float.{Float, IsIeee, nought, fmax, fmin, ◌≼◌}
use aether_quantum_engine.Common.Float.Laws.{fmin-le, fmax_nonneg}

-- `max(1, n)` on `int`
abbrev pub at_least_one : ℤ → ℤ
at_least_one n = if ltb_ℤ (pos 1) n then n else pos 1

module _ {F : Type 0} ⦃f : Float F⦄ where
  open f use {lit, add, sub, mul, div, le, lt, is_finite, floor, ceil, of_int}

  -- `none` is the OverflowError of `math.ceil` and `math.floor` on an infinity or of a NaN.
  abbrev pub ceil_of : F → Option ℤ
  ceil_of x = if is_finite x then some (ceil x) else none

  abbrev pub floor_of : F → Option ℤ
  floor_of x = if is_finite x then some (floor x) else none

  pub resolve_pullback_amort_steps : F → F → F → Option ℤ
  resolve_pullback_amort_steps loss_amount quote_rate cap_stake =
      let needed = div loss_amount quote_rate in
      if not (is_finite loss_amount && (is_finite quote_rate && is_finite cap_stake))
      then some (pos 1)
      else if le loss_amount nought || (le quote_rate nought || le cap_stake nought)
      then some (pos 1)
      else if lt cap_stake needed
      then elim (ceil_of (div needed cap_stake)) [ none ↦ none | some n ↦ some (at_least_one n) ]
      else some (pos 1)

  -- `n / 100`
  abbrev pub cents : ℤ → F
  cents n = div (of_int n) (of_int (pos 100))

  abbrev pub target_stake : F → F → F → F → F → ℤ → F
  target_stake base pending payout_rate stake_min single_strike_target amort_steps =
      if lt nought pending
      then fmax (fmax base stake_min)
          (div (div pending (of_int (at_least_one amort_steps))) payout_rate)
      else if lt nought single_strike_target
      then fmax (fmax base stake_min) (div single_strike_target payout_rate)
      else fmax base stake_min

  abbrev pub stake_up_to : F → F → F → Option ℤ → Option (F × F)
  stake_up_to cap pending payout_rate none = none
  stake_up_to cap pending payout_rate (some up) =
      let stake = fmin cap (cents up) in
      some (stake, fmin (fmax nought pending) (mul stake payout_rate))

  abbrev pub stake_with_cap : F → F → F → F → F → F → ℤ → Option ℤ → Option (F × F)
  stake_with_cap cap available pending payout_rate stake_min single amort none = none
  stake_with_cap cap available pending payout_rate stake_min single amort (some base) =
      let target = target_stake (cents base) pending payout_rate stake_min single amort in
      stake_up_to cap pending payout_rate (ceil_of (sub (mul target (lit 100 0)) (lit 1 9)))

  abbrev pub capped : F → F → F → F → F → ℤ → Option ℤ → Option (F × F)
  capped available pending payout_rate stake_min single amort none = none
  capped available pending payout_rate stake_min single amort (some cap) =
      let base = floor_of (mul (mul available (lit 1 2)) (lit 100 0)) in
      if lt (add (cents cap) (lit 1 9)) stake_min
      then some (nought, nought)
      else stake_with_cap (cents cap) available pending payout_rate stake_min single amort base

  -- 5% of the balance, in cents.
  abbrev pub stake_cap : F → Option ℤ
  stake_cap available = floor_of (mul (fmin available (mul available (lit 5 2))) (lit 100 0))

  -- The stake, and the part of the loss that a win would pay off.
  unfoldable pub pullback_stake : F → F → F → F → F → ℤ → Option (F × F)
  pullback_stake available pending payout_rate stake_min single amort =
      if not (
        is_finite available
        && (is_finite pending
            && (is_finite payout_rate && (is_finite stake_min && is_finite single))))
      then some (nought, nought)
      else if le available nought || (le payout_rate nought || le stake_min nought)
      then some (nought, nought)
      else capped available pending payout_rate stake_min single amort (stake_cap available)

  -- No stake, or a stake of at most the cap, which covers no more than what is pending.
  IsBelow : F → Option ℤ → F × F → Type 0
  IsBelow pending cap (stake, covered) =
      ((stake ≡ nought) × (covered ≡ nought))
      ⊎ ((n : ℤ) × (cap ≡ some n) × (stake ≼ cents n) × (covered ≼ fmax nought pending))

  -- No stake and nothing covered; or the cents of 5% of the balance, 5 / 10^2 of it, rounded down, bound the stake, which
  -- covers no more than what is pending.
  pub IsCapped : F → F → F × F → Type 0
  IsCapped available pending (stake, covered) =
      ((stake ≡ nought) × (covered ≡ nought))
      ⊎ ((n : ℤ) × (is_finite (mul (fmin available (mul available (lit 5 2))) (lit 100 0)) ≡ true)
          × (floor (mul (fmin available (mul available (lit 5 2))) (lit 100 0)) ≡ n)
          × (stake ≼ div (of_int n) (of_int (pos 100)))
          × (covered ≼ fmax nought pending))

module _ {F : Type 0} ⦃f : Float F⦄ (laws : IsIeee F) where
  stake_up_to-IsBelow :
      (n : ℤ) (cap : Option ℤ) (pending payout_rate : F) (up : Option ℤ) (q : F × F)
      → cap ≡ some n
      → stake_up_to (cents n) pending payout_rate up ≡ some q
      → IsBelow pending cap q
  unfolding IsBelow
  stake_up_to-IsBelow n cap pending payout_rate none q c e = ground arith
  stake_up_to-IsBelow n cap pending payout_rate (some up) (stake, covered) c e =
      let most = fmax nought pending in
      let most_num = (laws.refl_of_le nought most (fmax_nonneg laws pending)).1 in
      inr (
        n,
        c,
        ground (arith, fmin-le laws (cents n) (cents up) (laws.cents_refl n)),
        ground (arith, fmin-le laws most (f.mul (fmin (cents n) (cents up)) payout_rate) most_num),
      )

  none-IsBelow :
      (pending : F) (cap : Option ℤ) (q : F × F)
      → ◌≡◌ {A = Option (F × F)} (some (nought, nought)) (some q)
      → IsBelow pending cap q
  unfolding IsBelow
  none-IsBelow pending cap (stake, covered) e = inl (ground arith, ground arith)

  stake_with_cap-IsBelow :
      (n : ℤ) (cap : Option ℤ) (available pending payout_rate stake_min single : F) (amort : ℤ)
      (base : Option ℤ) (q : F × F)
      → cap ≡ some n
      → stake_with_cap (cents n) available pending payout_rate stake_min single amort base ≡ some q
      → IsBelow pending cap q
  stake_with_cap-IsBelow n cap available pending payout_rate stake_min single amort none q c e =
      ground arith
  stake_with_cap-IsBelow n cap available pending payout_rate stake_min single amort (some base) q c
        e =
      stake_up_to-IsBelow n cap pending payout_rate _ q c e

  if-IsBelow :
      (pending : F) (cap : Option ℤ) (q : F × F) (b : Bool) (x y : Option (F × F))
      → (x ≡ some q → IsBelow pending cap q)
      → (y ≡ some q → IsBelow pending cap q)
      → (if b then x else y) ≡ some q
      → IsBelow pending cap q
  if-IsBelow pending cap q true x y h k e = h e
  if-IsBelow pending cap q false x y h k e = k e

  capped-IsBelow :
      (available pending payout_rate stake_min single : F) (amort : ℤ) (cap : Option ℤ) (q : F × F)
      → capped available pending payout_rate stake_min single amort cap ≡ some q
      → IsBelow pending cap q
  capped-IsBelow available pending payout_rate stake_min single amort none q e = ground arith
  capped-IsBelow available pending payout_rate stake_min single amort (some n) q e =
      if-IsBelow pending (some n) q (f.lt (f.add (cents n) (f.lit 1 9)) stake_min) _ _
        (none-IsBelow pending (some n) q)
        (stake_with_cap-IsBelow n (some n) available pending payout_rate stake_min single amort _ q
          refl)
        e

  pullback_stake-IsBelow :
      (available pending payout_rate stake_min single : F) (amort : ℤ) (q : F × F)
      → pullback_stake available pending payout_rate stake_min single amort ≡ some q
      → IsBelow pending (stake_cap available) q
  unfolding pullback_stake
  pullback_stake-IsBelow available pending payout_rate stake_min single amort q =
      let cap = stake_cap available in
      if-IsBelow pending cap q _ _ _ (none-IsBelow pending cap q) (
        if-IsBelow pending cap q _ _ _ (none-IsBelow pending cap q)
          (capped-IsBelow available pending payout_rate stake_min single amort cap q))

  floor_of-some : (x : F) (n : ℤ) → floor_of x ≡ some n → (f.is_finite x ≡ true) × (f.floor x ≡ n)
  floor_of-some x n e = elim (Bool-cases (f.is_finite x)) [
    | inl fin ↦ (fin, ground arith)
    | inr inf ↦ absurd (ground arith)
  ]

  IsCapped-of_IsBelow :
      (available pending : F) (q : F × F)
      → IsBelow pending (stake_cap available) q
      → IsCapped available pending q
  unfolding IsBelow IsCapped
  IsCapped-of_IsBelow available pending (stake, covered) (inl h) = inl h
  IsCapped-of_IsBelow available pending (stake, covered) (inr (n, cap, below, paid)) =
      let five = f.mul (fmin available (f.mul available (f.lit 5 2))) (f.lit 100 0) in
      let (fin, cents_of) = floor_of-some five n cap in inr (n, fin, cents_of, below, paid)

  -- Every answer is no stake at all, or a stake of at most 5% of the balance, rounded down to cents, that covers no more
  -- than the pending loss, whatever the arguments are, NaN and infinities included.
  pub pullback_stake-IsCapped :
      (available pending payout_rate stake_min single : F) (amort : ℤ) (q : F × F)
      → pullback_stake available pending payout_rate stake_min single amort ≡ some q
      → IsCapped available pending q
  pullback_stake-IsCapped available pending payout_rate stake_min single amort q e =
      IsCapped-of_IsBelow available pending q
        (pullback_stake-IsBelow available pending payout_rate stake_min single amort q e)
