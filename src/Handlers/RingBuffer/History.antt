-- ===== src/Handlers/RingBuffer/History.antt =====
-- What `DisruptorRingBuffer` promises: it stands for the list of the ticks pushed since it was made or cleared, of
-- which it gives back the newest, as many as its capacity.
use Prim.Native.Nat.{bit_and}
use native.Mathlib.Nat.{mod-lt, div-add-mod', le_refl, mul-le-mul}
use native.Mathlib.Decide.{dec_lt}
use mathlib.Core.Option.{some-injective}
use aether_quantum_engine.Common.{
  ℕ, suc, ◌+◌, ◌-◌, ◌*◌, ◌/◌, ◌%◌, ◌^◌, ◌≤◌, ◌<◌, ◌≡◌, ◌≢◌, refl, sym, ap, ◌∙◌, inl, inr, false,
  some, List, [], ◌∷◌, ◌++◌, arith, nat_eq, Bool-cases, length, get_or, set, length-append,
  length-set, length-replicate, get_or-set_self, get_or-set_ne, get_or-append_left,
  get_or-append_last,
}
use aether_quantum_engine.Handlers.RingBuffer.{RingBuffer, is_refused, fresh, init, slot, push_tick}
use aether_quantum_engine.Handlers.RingBuffer.Mask.{
  pow-pos, bit_and-mask, power_of_bit_and, bit_and-power,
}

module _ {E P : Type 0} (ez : E) (pz : P) where
  abbrev pub tick_at : List (E × P) → ℕ → E × P
  tick_at h i = get_or h i (ez, pz)

  -- The buffer of capacity 2^k holds the last 2^k ticks of `h`, each at its own slot.
  pub record Represents (k : ℕ) (h : List (E × P)) (b : RingBuffer E P) : Type 0 where
    pub capacity : b.capacity ≡ 2 ^ k
    pub mask : b.mask ≡ 2 ^ k - 1
    pub sequence : b.sequence ≡ length h
    pub epochs_length : length b.epochs ≡ 2 ^ k
    pub prices_length : length b.prices ≡ 2 ^ k
    pub epochs :
        (i : ℕ)
        → i < length h
        → length h ≤ i + 2 ^ k
        → get_or b.epochs (i % 2 ^ k) ez ≡ (tick_at h i).0
    pub prices :
        (i : ℕ)
        → i < length h
        → length h ≤ i + 2 ^ k
        → get_or b.prices (i % 2 ^ k) pz ≡ (tick_at h i).1

-- Two numbers less than `m` apart have different remainders.
mod_ne : (i j m : ℕ) → i < j → j < i + m → i % m ≢ j % m
mod_ne i j m h g e =
    let a = div-add-mod' i m in
    let b = div-add-mod' j m in
    elim (dec_lt (i / m) (j / m)) [
      | yes p ↦ let c : suc (i / m) * m ≤ j / m * m = mul-le-mul p (le_refl m) in grind arith
      | no p ↦
          let q : j / m ≤ i / m = omega arith in
          let c : j / m * m ≤ i / m * m = mul-le-mul q (le_refl m) in grind arith
    ]

accepted : (c : ℕ) → is_refused c ≡ false → (0 < c) × (bit_and c (c - 1) ≡ 0)
accepted c h = ground arith

power_accepted : (k : ℕ) → is_refused (2 ^ k) ≡ false
power_accepted k = ground (arith, pow-pos k, bit_and-power k)

module _ {E P : Type 0} (ez : E) (pz : P) where
  pub fresh-Represents : (k : ℕ) → Represents ez pz k [] (fresh ez pz (2 ^ k))
  fresh-Represents k = record {
    capacity = refl;
    mask = refl;
    sequence = refl;
    epochs_length = length-replicate (2 ^ k) ez;
    prices_length = length-replicate (2 ^ k) pz;
    epochs = λ i h. absurd (omega arith);
    prices = λ i h. absurd (omega arith);
  }

  -- The constructor raises unless the capacity is a power of two, and else makes the buffer that stands for no ticks.
  pub init-Represents :
      (c : ℕ) {b : RingBuffer E P}
      → init ez pz c ≡ some b
      → (k : ℕ) × (c ≡ 2 ^ k) × Represents ez pz k [] b
  unfolding init
  init-Represents c {b} e = elim (Bool-cases (is_refused c)) [
    | inl r ↦ absurd (cc (rw r at e))
    | inr r ↦
        let (p, m) = accepted c r in
        let (k, f) = power_of_bit_and c p m in
        let made = some-injective _ _ (rw r at e) in (k, f, rw (← made, f) (fresh-Represents k))
  ]

  pub init_power : (k : ℕ) → init ez pz (2 ^ k) ≡ some (fresh ez pz (2 ^ k))
  unfolding init
  init_power k = rw (power_accepted k)

  -- The slot that the next tick goes to.
  next_slot :
      {k : ℕ} {h : List (E × P)} {b : RingBuffer E P}
      → Represents ez pz k h b
      → slot ez pz b b.sequence ≡ length h % 2 ^ k
  next_slot {k} {h} {b} r = rw (r.mask, r.sequence) (bit_and-mask (length h) k)

  module _ {k : ℕ} {h : List (E × P)} {b : RingBuffer E P} (r : Represents ez pz k h b) (e : E)
      (p : P) where
    pushed_slot :
        {A : Type 0} (f : E × P → A) (d : A) (xs : List A)
        → length xs ≡ 2 ^ k
        → ((i : ℕ)
            → i < length h
            → length h ≤ i + 2 ^ k
            → get_or xs (i % 2 ^ k) d ≡ f (tick_at ez pz h i))
        → (i : ℕ) → i < suc (length h)
        → suc (length h) ≤ i + 2 ^ k
        → get_or (set xs (length h % 2 ^ k) (f (e, p))) (i % 2 ^ k) d
          ≡ f (tick_at ez pz (h ++ (e, p) ∷ []) i)
    pushed_slot f d xs l old i lt near = elim (dec_lt i (length h)) [
      | yes before ↦
          get_or-set_ne xs (f (e, p)) d
            (λ c. mod_ne i (length h) (2 ^ k) before (omega arith) (sym c))
          ∙ old i before (omega arith)
          ∙ ap f (sym (get_or-append_left h ((e, p) ∷ []) i (ez, pz) before))
      | no after ↦
          let same : i ≡ length h = omega arith in
          rw same (
            get_or-set_self xs (length h % 2 ^ k) (f (e, p)) d
              (omega (arith, mod-lt (length h) (pow-pos k)))
            ∙ ap f (sym (get_or-append_last h (e, p) (ez, pz))))
    ]

    -- A push adds one tick at the end of the history, and returns the number of ticks before it.
    pub push_tick-Represents :
        Represents ez pz k (h ++ (e, p) ∷ []) (push_tick ez pz b e p).0
        × ((push_tick ez pz b e p).1 ≡ length h)
    unfolding push_tick
    push_tick-Represents =
        let longer : length (h ++ (e, p) ∷ []) ≡ suc (length h) =
          omega (arith, length-append h ((e, p) ∷ [])) in
        (
          record {
            capacity = r.capacity;
            mask = r.mask;
            sequence = omega (arith, r.sequence);
            epochs_length = length-set b.epochs _ e ∙ r.epochs_length;
            prices_length = length-set b.prices _ p ∙ r.prices_length;
            epochs =
                rw (longer, next_slot r)
                  (pushed_slot (λ t. t.0) ez b.epochs r.epochs_length r.epochs);
            prices =
                rw (longer, next_slot r)
                  (pushed_slot (λ t. t.1) pz b.prices r.prices_length r.prices);
          },
          r.sequence,
        )
