-- ===== src/Common/Lists.antt =====
-- Lists measured and indexed by native numbers, under the library's names.
use Prim.Native.Nat.{ℕ, zero, suc, ◌+◌, ◌-◌, ◌≤◌, ◌<◌}
use mathlib.Core.Path.{◌≡◌, refl, ap, sym, ◌∙◌}
use mathlib.Core.Logic.{◌≢◌}
use mathlib.Core.Bool.{Bool, false, ◌||◌}
use mathlib.Core.List.{List, [], ◌∷◌, ◌++◌, append-nil, append_assoc}
use mathlib.Core.Option.{Option, none, some}
use native.Mathlib.Omega.{arith}
use aether_quantum_engine.Common.Tests.{Eq, ◌==◌, if◌then◌else◌, ltb, nat_beq}

module _ {ℓ} {A : Type ℓ} where
  abbrev pub length : List A → ℕ
  length [] = 0
  length (x ∷ xs) = suc (length xs)

  abbrev pub get_elem? : List A → ℕ → Option A
  get_elem? [] i = none
  get_elem? (x ∷ xs) zero = some x
  get_elem? (x ∷ xs) (suc i) = get_elem? xs i

  abbrev pub get_or : List A → ℕ → A → A
  get_or [] i d = d
  get_or (x ∷ xs) zero d = x
  get_or (x ∷ xs) (suc i) d = get_or xs i d

  -- A write out of bounds changes nothing.
  abbrev pub set : List A → ℕ → A → List A
  set [] i v = []
  set (x ∷ xs) zero v = v ∷ xs
  set (x ∷ xs) (suc i) v = x ∷ set xs i v

  abbrev pub drop : ℕ → List A → List A
  drop zero xs = xs
  drop (suc n) [] = []
  drop (suc n) (x ∷ xs) = drop n xs

  abbrev pub replicate : ℕ → A → List A
  replicate zero a = []
  replicate (suc n) a = a ∷ replicate n a

  abbrev pub All {κ} : (A → Type κ) → List A → Type κ
  All P [] = Unit
  All P (x ∷ xs) = P x × All P xs

  -- A list comprehension with an `if`.
  abbrev pub keep_if : (A → Bool) → List A → List A
  keep_if p [] = []
  keep_if p (x ∷ xs) = let rest = keep_if p xs in if p x then x ∷ rest else rest

module _ {ℓ} {A : Type ℓ} where
  pub length-append : (xs ys : List A) → length (xs ++ ys) ≡ length xs + length ys
  length-append [] ys = omega arith
  length-append (x ∷ xs) ys = omega (arith, length-append xs ys)

  pub length-set : (xs : List A) (i : ℕ) (v : A) → length (set xs i v) ≡ length xs
  length-set [] i v = refl
  length-set (x ∷ xs) zero v = refl
  length-set (x ∷ xs) (suc i) v = ap suc (length-set xs i v)

  pub length-replicate : (n : ℕ) (a : A) → length (replicate n a) ≡ n
  length-replicate zero a = refl
  length-replicate (suc n) a = ap suc (length-replicate n a)

  pub length-drop : (n : ℕ) (xs : List A) → length (drop n xs) ≡ length xs - n
  length-drop zero xs = omega arith
  length-drop (suc n) [] = omega arith
  length-drop (suc n) (x ∷ xs) = omega (arith, length-drop n xs)

  pub get_or-set_self :
      (xs : List A) (i : ℕ) (v d : A) → i < length xs → get_or (set xs i v) i d ≡ v
  get_or-set_self [] i v d h = elim h [ ]
  get_or-set_self (x ∷ xs) zero v d h = refl
  get_or-set_self (x ∷ xs) (suc i) v d h = get_or-set_self xs i v d (omega arith)

  pub get_or-set_ne :
      (xs : List A) {i j : ℕ} (v d : A) → i ≢ j → get_or (set xs i v) j d ≡ get_or xs j d
  get_or-set_ne [] v d h = refl
  get_or-set_ne (x ∷ xs) {i = zero} {j = zero} v d h = absurd (h refl)
  get_or-set_ne (x ∷ xs) {i = zero} {j = suc j} v d h = refl
  get_or-set_ne (x ∷ xs) {i = suc i} {j = zero} v d h = refl
  get_or-set_ne (x ∷ xs) {i = suc i} {j = suc j} v d h = get_or-set_ne xs v d (λ e. h (ap suc e))

  pub get_or-append_left :
      (xs ys : List A) (i : ℕ) (d : A) → i < length xs → get_or (xs ++ ys) i d ≡ get_or xs i d
  get_or-append_left [] ys i d h = elim h [ ]
  get_or-append_left (x ∷ xs) ys zero d h = refl
  get_or-append_left (x ∷ xs) ys (suc i) d h = get_or-append_left xs ys i d (omega arith)

  pub get_or-append_last : (xs : List A) (y d : A) → get_or (xs ++ y ∷ []) (length xs) d ≡ y
  get_or-append_last [] y d = refl
  get_or-append_last (x ∷ xs) y d = get_or-append_last xs y d

  pub get_elem?-get_or :
      (xs : List A) (i : ℕ) (d : A) → i < length xs → get_elem? xs i ≡ some (get_or xs i d)
  get_elem?-get_or [] i d h = elim h [ ]
  get_elem?-get_or (x ∷ xs) zero d h = refl
  get_elem?-get_or (x ∷ xs) (suc i) d h = get_elem?-get_or xs i d (omega arith)

  pub get_elem?_past : (xs : List A) (i : ℕ) → length xs ≤ i → get_elem? xs i ≡ none
  get_elem?_past [] i h = refl
  get_elem?_past (x ∷ xs) zero h = absurd (omega arith)
  get_elem?_past (x ∷ xs) (suc i) h = get_elem?_past xs i (omega arith)

  pub drop_all : (n : ℕ) (xs : List A) → length xs ≤ n → drop n xs ≡ []
  drop_all zero [] h = refl
  drop_all zero (x ∷ xs) h = absurd (omega arith)
  drop_all (suc n) [] h = refl
  drop_all (suc n) (x ∷ xs) h = drop_all n xs (omega arith)

  pub drop_step :
      (n : ℕ) (xs : List A) (d : A) → n < length xs → drop n xs ≡ get_or xs n d ∷ drop (suc n) xs
  drop_step n [] d h = elim h [ ]
  drop_step zero (x ∷ xs) d h = refl
  drop_step (suc n) (x ∷ xs) d h = drop_step n xs d (omega arith)

-- Python's `in` on a list or a set.
module _ {ℓ} {A : Type ℓ} ⦃e : Eq A⦄ where
  abbrev pub contains : A → List A → Bool
  contains a [] = false
  contains a (x ∷ xs) = x == a || contains a xs

  -- `set.add`: a set is a list without repetitions.
  abbrev pub set_add : A → List A → List A
  set_add a xs = if contains a xs then xs else a ∷ xs

  -- `set.discard`
  abbrev pub set_discard : A → List A → List A
  set_discard a [] = []
  set_discard a (x ∷ xs) = let rest = set_discard a xs in if x == a then rest else x ∷ rest

module _ {ℓ} {A : Type ℓ} where
  -- `reversed(xs)`
  abbrev pub reverse : List A → List A
  reverse [] = []
  reverse (x ∷ xs) = reverse xs ++ x ∷ []

  pub reverse-append : (xs ys : List A) → reverse (xs ++ ys) ≡ reverse ys ++ reverse xs
  reverse-append [] ys = sym (append-nil (reverse ys))
  reverse-append (x ∷ xs) ys =
      ap (λ zs. zs ++ x ∷ []) (reverse-append xs ys)
      ∙ append_assoc (reverse ys) (reverse xs) (x ∷ [])

  pub reverse-reverse : (xs : List A) → reverse (reverse xs) ≡ xs
  reverse-reverse [] = refl
  reverse-reverse (x ∷ xs) = reverse-append (reverse xs) (x ∷ []) ∙ ap (◌∷◌ x) (reverse-reverse xs)

-- `sorted` of a set of numbers: each is put in its place, once.
abbrev pub insert_id : ℕ → List ℕ → List ℕ
insert_id a [] = a ∷ []
insert_id a (x ∷ xs) =
    let later = insert_id a xs in
    if nat_beq a x then x ∷ xs else if ltb a x then a ∷ x ∷ xs else x ∷ later

abbrev pub insert_ids : List ℕ → List ℕ → List ℕ
insert_ids [] s = s
insert_ids (a ∷ rest) s = insert_id a (insert_ids rest s)

-- Each number is below all that follow.
abbrev pub IsAscending : List ℕ → Type 0
IsAscending [] = Unit
IsAscending (x ∷ xs) = All (λ y. x < y) xs × IsAscending xs

All-above : (a b : ℕ) (xs : List ℕ) → a < b → All (λ y. b < y) xs → All (λ y. a < y) xs
All-above a b [] h k = tt
All-above a b (x ∷ xs) h k = (omega (arith, k.0), All-above a b xs h k.1)

All-insert_id :
    (a b : ℕ) (xs : List ℕ) → a < b → All (λ y. a < y) xs → All (λ y. a < y) (insert_id b xs)
All-insert_id a b [] h k = (h, tt)
All-insert_id a b (x ∷ xs) h k = ground (arith, All-insert_id a b xs h k.1)

insert_id-IsAscending : (a : ℕ) (xs : List ℕ) → IsAscending xs → IsAscending (insert_id a xs)
insert_id-IsAscending a [] h = (tt, tt)
insert_id-IsAscending a (x ∷ xs) h =
    ground (arith, insert_id-IsAscending a xs h.1, All-insert_id x a xs, All-above a x xs)

pub insert_ids-IsAscending : (xs s : List ℕ) → IsAscending s → IsAscending (insert_ids xs s)
insert_ids-IsAscending [] s h = h
insert_ids-IsAscending (a ∷ rest) s h =
    insert_id-IsAscending a (insert_ids rest s) (insert_ids-IsAscending rest s h)
