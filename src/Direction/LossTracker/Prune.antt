-- ===== src/Direction/LossTracker/Prune.antt =====
-- `prune_obsolete_direction_losses` forgets exactly the counts whose last loss is older than the limit.
use Prim.Native.Char.{Char, code}
use Prim.Native.String.{◌++◌ as str_append}
use text.Mathlib.TextLemmas.{append_cancel_right, cons-append, nil-append}
use aether_quantum_engine.Common.{
  ℕ, ◌-◌, String, Bool, true, false, ◌&&◌, Option, none, some, [], ◌∷◌, if◌then◌else◌, ltb, ◌==◌,
  nat_eq, string_eq, contains, arith, ◌≡◌, ◌≢◌, inl, inr, refl, Bool-cases, sym as inverse, ◌∙◌, ap,
}
use aether_quantum_engine.Common.Dict.{Dict, get, get_default, get-pop, get_default-put}
use aether_quantum_engine.Direction.{direction_keys}
use aether_quantum_engine.Direction.LossTracker.{
  LossTracker, loss_timestamp_key, count_of, prune_key, prune_bucket, prune_all,
  prune_obsolete_direction_losses,
}
use aether_quantum_engine.Direction.LossTracker.Counts.{key_cases}

-- The last character of a text, as a number.
final_code : ℕ → String → ℕ
final_code n String.[] = n
final_code n (String.◌∷◌ c s) = final_code (code c) s

final_code-append :
    (n m : ℕ) (s : String) (c : Char) (t : String)
    → final_code n (str_append s (String.◌∷◌ c t)) ≡ final_code m (String.◌∷◌ c t)
unfolding final_code
final_code-append n m String.[] c t = rw nil-append
final_code-append n m (String.◌∷◌ d s) c t = rw cons-append (final_code-append (code d) m s c t)

call_ne_put : (s t : String) → loss_timestamp_key s "CALL" ≢ loss_timestamp_key t "PUT"
unfolding loss_timestamp_key final_code
call_ne_put s t e =
    let l : final_code 0 (str_append s ":CALL") ≡ 76 = final_code-append 0 0 s ":" "CALL" in
    let r : final_code 0 (str_append t ":PUT") ≡ 84 = final_code-append 0 0 t ":" "PUT" in
    let same : ◌≡◌ {A = ℕ} 76 84 = inverse l ∙ ap (final_code 0) e ∙ r in omega arith

same_key : (s t key : String) → loss_timestamp_key s key ≡ loss_timestamp_key t key → s ≡ t
unfolding loss_timestamp_key
same_key s t key e = append_cancel_right s t _ e

-- The timestamps of different symbols, and of the two sides, have different keys.
loss_timestamp_key_inj :
    (s t k key : String)
    → contains k direction_keys ≡ true
    → contains key direction_keys ≡ true
    → loss_timestamp_key s k ≡ loss_timestamp_key t key
    → (s ≡ t) × (k ≡ key)
loss_timestamp_key_inj s t k key h g e = elim (key_cases k h) [
  | inl a ↦ elim (key_cases key g) [
    | inl b ↦ (same_key s t "CALL" (rw (a, b) at e), a ∙ inverse b)
    | inr b ↦ absurd (call_ne_put s t (rw (a, b) at e))
  ]
  | inr a ↦ elim (key_cases key g) [
    | inl b ↦ absurd (call_ne_put t s (inverse (rw (a, b) at e)))
    | inr b ↦ (same_key s t "PUT" (rw (a, b) at e), a ∙ inverse b)
  ]
]

-- The last loss is older than the limit.
abbrev pub is_obsolete : ℕ → ℕ → Option ℕ → Bool
is_obsolete max_age now none = false
is_obsolete max_age now (some last_ts) = ltb max_age (now - last_ts)

module _ (max_age now : ℕ) where
  prune_key-count :
      (s k key : String) (b : Dict String ℕ) (stamps : Dict String ℕ)
      → get_default key 0 (prune_key max_age now s k (b, stamps)).0 ≡ (
          if k == key && is_obsolete max_age now (get (loss_timestamp_key s k) stamps)
          then 0
          else get_default key 0 b)
  unfolding prune_key
  prune_key-count s k key b stamps =
      ground (arith, get_default-put key k 0 0 b, string_eq.beq_iff k key)

  prune_key-stamps :
      (s k : String) (b : Dict String ℕ) (stamps : Dict String ℕ) (j : String)
      → loss_timestamp_key s k ≢ j
      → get j (prune_key max_age now s k (b, stamps)).1 ≡ get j stamps
  unfolding prune_key
  prune_key-stamps s k b stamps j n = ground (
    arith,
    get-pop j (loss_timestamp_key s k) stamps,
    string_eq.beq_iff (loss_timestamp_key s k) j,
  )

  -- Both rounds for one symbol read the timestamps as they were.
  prune_bucket-count :
      (s key : String) (b : Dict String ℕ) (stamps : Dict String ℕ)
      → contains key direction_keys ≡ true
      → get_default key 0 (prune_bucket max_age now s (b, stamps)).0 ≡ (
          if is_obsolete max_age now (get (loss_timestamp_key s key) stamps)
          then 0
          else get_default key 0 b)
  unfolding prune_bucket
  prune_bucket-count s key b stamps g =
      let (b', stamps') = prune_key max_age now s "CALL" (b, stamps) in
      let kept =
        prune_key-stamps s "CALL" b stamps (loss_timestamp_key s "PUT") (call_ne_put s s) in
      elim (key_cases key g) [
        | inl e ↦ rw e (
            ground (
              arith,
              prune_key-count s "CALL" "CALL" b stamps,
              prune_key-count s "PUT" "CALL" b' stamps',
            ))
        | inr e ↦ rw e (
            ground (
              arith,
              prune_key-count s "CALL" "PUT" b stamps,
              prune_key-count s "PUT" "PUT" b' stamps',
            ))
      ]

  prune_bucket-stamps :
      (s sym key : String) (b : Dict String ℕ) (stamps : Dict String ℕ)
      → contains key direction_keys ≡ true
      → s ≢ sym
      → get (loss_timestamp_key sym key) (prune_bucket max_age now s (b, stamps)).1
        ≡ get (loss_timestamp_key sym key) stamps
  unfolding prune_bucket
  prune_bucket-stamps s sym key b stamps g n =
      let (b', stamps') = prune_key max_age now s "CALL" (b, stamps) in
      let other =
        λ (k : String) (h : contains k direction_keys ≡ true)
            (e : loss_timestamp_key s k ≡ loss_timestamp_key sym key).
          n (loss_timestamp_key_inj s sym k key h g e).0 in
      prune_key-stamps s "PUT" b' stamps' (loss_timestamp_key sym key) (other "PUT" refl)
      ∙ prune_key-stamps s "CALL" b stamps (loss_timestamp_key sym key) (other "CALL" refl)

  prune_all-count :
      (d : Dict String (Dict String ℕ)) (stamps : Dict String ℕ) (sym key : String)
      → contains key direction_keys ≡ true
      → get_default key 0 (get_default sym [] (prune_all max_age now d stamps).0) ≡ (
          if is_obsolete max_age now (get (loss_timestamp_key sym key) stamps)
          then 0
          else get_default key 0 (get_default sym [] d))
  unfolding prune_all
  prune_all-count [] stamps sym key g = ground arith
  prune_all-count ((s, b) ∷ rest) stamps sym key g = elim (Bool-cases (s == sym)) [
    | inl same ↦
        let e = (string_eq.beq_iff s sym).0 same in
        let at = prune_bucket-count s key b stamps g in ground arith
    | inr other ↦
        let n : s ≢ sym = ground (arith, string_eq.beq_iff s sym) in
        let kept = prune_bucket-stamps s sym key b stamps g n in
        let ih = prune_all-count rest (prune_bucket max_age now s (b, stamps)).1 sym key g in
        ground arith
  ]

  -- Pruning sets a count to 0 exactly when its last loss is older than `max_age`; every other count stays.
  pub prune_obsolete-count_of :
      (t : LossTracker) (sym key : String)
      → contains key direction_keys ≡ true
      → count_of (prune_obsolete_direction_losses t max_age now) sym key ≡ (
          if is_obsolete max_age now (get (loss_timestamp_key sym key) t.timestamps)
          then 0
          else count_of t sym key)
  unfolding prune_obsolete_direction_losses
  prune_obsolete-count_of t sym key g = prune_all-count t.losses t.timestamps sym key g
