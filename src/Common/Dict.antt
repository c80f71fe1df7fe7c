-- ===== src/Common/Dict.antt =====
-- Python's `dict` as an association list in the order of insertion, which the source iterates over.
use mathlib.Core.Path.{◌≡◌, refl, subst}
use mathlib.Core.Logic.{◌≢◌, inl, inr}
use mathlib.Core.Bool.{Bool, true, false}
use mathlib.Core.List.{List, [], ◌∷◌}
use mathlib.Core.Option.{Option, none, some, some-injective}
use native.Mathlib.Omega.{arith}
use aether_quantum_engine.Common.Tests.{Bool-cases, Eq, ◌==◌, if◌then◌else◌}

abbrev pub Dict {ℓ κ} : Type ℓ → Type κ → Type (ℓ ⊔ κ)
Dict K V = List (K × V)

-- `list(d)`
abbrev pub keys {ℓ κ} : {K : Type ℓ} {V : Type κ} → Dict K V → List K
keys [] = []
keys ((k, v) ∷ d) = k ∷ keys d

module _ {ℓ κ} {K : Type ℓ} {V : Type κ} ⦃e : Eq K⦄ where
  -- `d.get(k)`
  abbrev pub get : K → Dict K V → Option V
  get k [] = none
  get k ((j, v) ∷ d) = if j == k then some v else get k d

  -- `d.get(k, v)`
  abbrev pub get_default : K → V → Dict K V → V
  get_default k v d = elim (get k d) [ none ↦ v | some w ↦ w ]

  -- `d[k] = v`: a key that is there keeps its place.
  abbrev pub put : K → V → Dict K V → Dict K V
  put k v [] = (k, v) ∷ []
  put k v ((j, w) ∷ d) = if j == k then (j, v) ∷ d else (j, w) ∷ put k v d

  -- `d.pop(k, None)`, which drops the one entry that has the key
  abbrev pub pop : K → Dict K V → Dict K V
  pop k [] = []
  pop k ((j, w) ∷ d) = let rest = pop k d in if j == k then rest else (j, w) ∷ rest

  -- `k in d`
  abbrev pub has_key : K → Dict K V → Bool
  has_key k d = elim (get k d) [ none ↦ false | some v ↦ true ]

module _ {ℓ κ} {K : Type ℓ} {V : Type κ} ⦃e : Eq K⦄ where
  pub get-put :
      (j k : K) (v : V) (d : Dict K V) → get j (put k v d) ≡ (if k == j then some v else get j d)
  get-put j k v [] = refl
  get-put j k v ((i, w) ∷ d) =
      ground (arith, get-put j k v d, e.beq_iff i k, e.beq_iff i j, e.beq_iff k j)

  pub get-pop : (j k : K) (d : Dict K V) → get j (pop k d) ≡ (if k == j then none else get j d)
  get-pop j k [] = ground arith
  get-pop j k ((i, w) ∷ d) =
      ground (arith, get-pop j k d, e.beq_iff i k, e.beq_iff i j, e.beq_iff k j)

module _ {ℓ κ} {K : Type ℓ} {V : Type κ} ⦃e : Eq K⦄ where
  pub get_default-put :
      (j k : K) (v w : V) (d : Dict K V)
      → get_default j w (put k v d) ≡ (if k == j then v else get_default j w d)
  get_default-put j k v w d = ground (arith, get-put j k v d)

  pub get_default-pop :
      (j k : K) (w : V) (d : Dict K V)
      → get_default j w (pop k d) ≡ (if k == j then w else get_default j w d)
  get_default-pop j k w d = ground (arith, get-pop j k d)

-- A dict has one entry for each key.
module _ {ℓ κ} {K : Type ℓ} {V : Type κ} ⦃e : Eq K⦄ where
  abbrev pub IsDict : Dict K V → Type 0
  IsDict [] = Unit
  IsDict ((k, v) ∷ d) = (has_key k d ≡ false) × IsDict d

  pub has_key-put : (j k : K) (v : V) (d : Dict K V) → j ≢ k → has_key j (put k v d) ≡ has_key j d
  has_key-put j k v d n = ground (arith, get-put j k v d, e.beq_iff k j)

  pub put-IsDict : (k : K) (v : V) (d : Dict K V) → IsDict d → IsDict (put k v d)
  put-IsDict k v [] h = (refl, tt)
  put-IsDict k v ((j, w) ∷ d) h =
      ground (arith, e.beq_iff j k, put-IsDict k v d h.1, has_key-put j k v d)

  pub has_key-pop : (j k : K) (d : Dict K V) → has_key j d ≡ false → has_key j (pop k d) ≡ false
  has_key-pop j k d h = ground (arith, get-pop j k d)

  pub pop-IsDict : (k : K) (d : Dict K V) → IsDict d → IsDict (pop k d)
  pop-IsDict k [] h = tt
  pop-IsDict k ((j, w) ∷ d) h =
      ground (arith, e.beq_iff j k, pop-IsDict k d h.1, has_key-pop j k d h.0)

-- What holds of every value of a dict.
abbrev pub Values {ℓ κ μ} : {K : Type ℓ} {V : Type κ} → (V → Type μ) → Dict K V → Type μ
Values P [] = Unit
Values P ((k, v) ∷ d) = P v × Values P d

module _ {ℓ κ μ} {K : Type ℓ} {V : Type κ} ⦃e : Eq K⦄ (P : V → Type μ) where
  pub put-Values : (k : K) (v : V) (d : Dict K V) → P v → Values P d → Values P (put k v d)
  put-Values k v [] p h = (p, tt)
  put-Values k v ((j, w) ∷ d) p h = elim (Bool-cases (j == k)) [
    | inl same ↦ rw same (p, h.1)
    | inr other ↦ rw other (h.0, put-Values k v d p h.1)
  ]

  pub pop-Values : (k : K) (d : Dict K V) → Values P d → Values P (pop k d)
  pop-Values k [] h = tt
  pop-Values k ((j, w) ∷ d) h = elim (Bool-cases (j == k)) [
    | inl same ↦ rw same (pop-Values k d h.1)
    | inr other ↦ rw other (h.0, pop-Values k d h.1)
  ]

  pub get_default-Values : (k : K) (v : V) (d : Dict K V) → P v → Values P d → P (get_default k v d)
  get_default-Values k v [] p h = p
  get_default-Values k v ((j, w) ∷ d) p h = elim (Bool-cases (j == k)) [
    | inl same ↦ rw (same, get_default) h.0
    | inr other ↦ rw (other, get_default) (get_default-Values k v d p h.1)
  ]

  -- A value that is found has the property.
  pub get-Values : (k : K) (d : Dict K V) {v : V} → Values P d → get k d ≡ some v → P v
  get-Values k [] h f = absurd (cc)
  get-Values k ((j, w) ∷ d) {v} h f = elim (Bool-cases (j == k)) [
    | inl same ↦ subst P (some-injective _ _ (rw same at f)) h.0
    | inr other ↦ get-Values k d h.1 (rw other at f)
  ]

pub ruleset dict_laws = (get-put, get-pop, get_default-put, get_default-pop)
