-- ===== src/Direction/Reversal/Opposite.antt =====
-- Proofs on app/src/application/services/direction_error_reversal.py: over any calls, a flip goes to the other side.
use aether_quantum_engine.Common.{
  ℕ, String, Bool, true, false, not, Option, none, some, List, [], ◌∷◌, ◌≡◌, refl, arith, string_eq,
  ◌⊎◌, inl, inr, contains, if◌then◌else◌, ap, sym, ◌∙◌,
}
use aether_quantum_engine.Common.Dict.{Dict, get, put, pop, get-pop, get-put}
use aether_quantum_engine.Common.Text.{upper, strip}
use aether_quantum_engine.Common.Float.{Float}
use aether_quantum_engine.Direction.{TradeDirection, call, name, direction_keys}
use aether_quantum_engine.Direction.Quote.{QuoteMetrics, QuoteConfig}
use aether_quantum_engine.Direction.Reversal.{
  Armed, Reversals, ReversalConfig, applied, or_else, resolve_target_reversal_direction, flipped_to,
  is_stale, armed_by, entry_of, is_shock, on_loss, record_error_reversal_on_settlement, lacks_edge,
  applied_of, consume, apply_error_reversal_to_direction,
}

-- What the engine does with the reversals: a settlement, a new cycle, or the choice of a side.
pub data Call (F : Type 0) : Type 0 where
  settled :
      (symbol : String) (won : Bool) (raw_prob : Option F) (direction : String)
      (cfg : ReversalConfig F)
      → Call F
  cycle : (number : ℕ) → Call F
  chosen :
      (symbol : String) (current : TradeDirection) (m : QuoteMetrics F) (payout : Option F)
      (exec_cfg : QuoteConfig F) (cfg : ReversalConfig F)
      → Call F

upper_call : upper "CALL" ≡ "CALL"
unfolding upper
upper_call = refl

upper_put : upper "PUT" ≡ "PUT"
unfolding upper
upper_put = refl

target_of_call : resolve_target_reversal_direction "CALL" ≡ "PUT"
unfolding resolve_target_reversal_direction upper strip
target_of_call = refl

target_of_put : resolve_target_reversal_direction "PUT" ≡ "CALL"
unfolding resolve_target_reversal_direction upper strip
target_of_put = refl

side_cases : (s : String) → contains s direction_keys ≡ true → (s ≡ "CALL") ⊎ (s ≡ "PUT")
side_cases s h = ground (arith, string_eq.beq_iff "CALL" s, string_eq.beq_iff "PUT" s)

get-pop_self : {V : Type 0} (s : String) (d : Dict String V) → get s (pop s d) ≡ none
get-pop_self s d = ground (arith, get-pop s s d, string_eq.beq_iff s s)

module _ {F : Type 0} where
  -- The entry turns the side that lost.
  pub IsOpposed : Armed F → Type 0
  IsOpposed a =
      ((a.from_dir ≡ "CALL") × (a.target_dir ≡ "PUT"))
      ⊎ ((a.from_dir ≡ "PUT") × (a.target_dir ≡ "CALL"))

  pub AreOpposed : Reversals F → Type 0
  AreOpposed r = (s : String) (a : Armed F) → get s r.pending ≡ some a → IsOpposed a

  pop-AreOpposed :
      (r : Reversals F) (s : String)
      → AreOpposed r
      → AreOpposed (record r { pending = pop s r.pending })
  unfolding AreOpposed
  pop-AreOpposed r s h t a e = h t a (ground (arith, get-pop t s r.pending))

  put-AreOpposed :
      (r : Reversals F) (s : String) (b : Armed F)
      → AreOpposed r
      → IsOpposed b
      → AreOpposed (record r { pending = put s b r.pending })
  unfolding AreOpposed IsOpposed
  put-AreOpposed r s b h o t a e = ground (arith, get-put t s b r.pending, h t a)

  if-AreOpposed :
      (b : Bool) (r s : Reversals F) → AreOpposed r → AreOpposed s → AreOpposed (if b then r else s)
  if-AreOpposed true r s h k = h
  if-AreOpposed false r s h k = k

  if_true-AreOpposed :
      (b : Bool) (r s : Reversals F)
      → (b ≡ true → AreOpposed r)
      → AreOpposed s
      → AreOpposed (if b then r else s)
  if_true-AreOpposed true r s h k = h refl
  if_true-AreOpposed false r s h k = k

  target-IsOpposed :
      (a : Armed F)
      → contains a.from_dir direction_keys ≡ true
      → a.target_dir ≡ resolve_target_reversal_direction a.from_dir
      → IsOpposed a
  unfolding IsOpposed
  target-IsOpposed a h e = elim (side_cases a.from_dir h) [
    | inl c ↦ inl (c, e ∙ ap resolve_target_reversal_direction c ∙ target_of_call)
    | inr p ↦ inr (p, e ∙ ap resolve_target_reversal_direction p ∙ target_of_put)
  ]

module _ {F : Type 0} ⦃f : Float F⦄ where
  armed_by-AreOpposed :
      (r : Reversals F) (s : String) (p : F) (direction : String) (cfg : ReversalConfig F)
      → AreOpposed r
      → contains direction direction_keys ≡ true
      → AreOpposed (armed_by r s p direction cfg)
  armed_by-AreOpposed r s p direction cfg h e =
      let entry = entry_of r p direction in
      if-AreOpposed (is_shock p direction cfg) _ r
        (put-AreOpposed r s entry h (target-IsOpposed entry e refl)) h

  on_loss-AreOpposed :
      (r : Reversals F) (s : String) (p : Option F) (direction : String) (cfg : ReversalConfig F)
      → AreOpposed r
      → AreOpposed (on_loss r s p direction cfg)
  on_loss-AreOpposed r s none direction cfg h = h
  on_loss-AreOpposed r s (some p) direction cfg h =
      let side = strip (upper direction) in
      if_true-AreOpposed (contains side direction_keys) (armed_by r s p side cfg) r
        (armed_by-AreOpposed r s p side cfg h) h

  record-AreOpposed :
      (r : Reversals F) (s : String) (won : Bool) (p : Option F) (direction : String)
      (cfg : ReversalConfig F)
      → AreOpposed r
      → AreOpposed (record_error_reversal_on_settlement r s won p direction cfg)
  unfolding record_error_reversal_on_settlement
  record-AreOpposed r s won p direction cfg h = if-AreOpposed won _ _ (pop-AreOpposed r s h) (
      if-AreOpposed (not (or_else cfg.enabled true)) _ _ (pop-AreOpposed r s h)
        (on_loss-AreOpposed r s p direction cfg h))

  consume-AreOpposed :
      (r : Reversals F) (s : String) (a : Option (Armed F)) (current : TradeDirection)
      (m : QuoteMetrics F) (payout : Option F) (exec_cfg : QuoteConfig F) (cfg : ReversalConfig F)
      → AreOpposed r
      → AreOpposed (consume r s a current m payout exec_cfg cfg).0
  consume-AreOpposed r s none current m payout exec_cfg cfg h = h
  consume-AreOpposed r s (some a) current m payout exec_cfg cfg h = pop-AreOpposed r s h

  answer_of :
      (a : Armed F) (active : ℕ) (current d : TradeDirection) (m : QuoteMetrics F)
      (payout : Option F) (exec_cfg : QuoteConfig F) (cfg : ReversalConfig F) (b e : F)
      (from to : String)
      → applied_of a active current m payout exec_cfg cfg ≡ (d, applied b e from to)
      → (is_stale a.armed_cycle active ≡ false)
        × (or_else cfg.enabled true ≡ true)
        × (a.from_dir ≡ from)
        × (d ≡ flipped_to current (upper a.target_dir))
        × (lacks_edge m (name d) payout exec_cfg ≡ false)
  answer_of a active current d m payout exec_cfg cfg b e from to h = ground arith

  abbrev pub call_step : Call F → Reversals F → Reversals F
  call_step (settled s won p direction cfg) r =
      record_error_reversal_on_settlement r s won p direction cfg
  call_step (cycle number) r = record r { active_cycle = number }
  call_step (chosen s current m payout exec_cfg cfg) r =
      (apply_error_reversal_to_direction r s current m payout exec_cfg cfg).0

  -- From no reversal, in cycle 0.
  unfoldable pub after_calls : List (Call F) → Reversals F
  after_calls [] = record { pending = []; active_cycle = 0 }
  after_calls (c ∷ before) = call_step c (after_calls before)

  call_step-AreOpposed : (c : Call F) (r : Reversals F) → AreOpposed r → AreOpposed (call_step c r)
  unfolding apply_error_reversal_to_direction AreOpposed
  call_step-AreOpposed (settled s won p direction cfg) r h =
      record-AreOpposed r s won p direction cfg h
  call_step-AreOpposed (cycle number) r h = h
  call_step-AreOpposed (chosen s current m payout exec_cfg cfg) r h =
      consume-AreOpposed r s (get s r.pending) current m payout exec_cfg cfg h

  after_calls-AreOpposed : (cs : List (Call F)) → AreOpposed (after_calls cs)
  unfolding after_calls AreOpposed
  after_calls-AreOpposed [] = λ s a e. ground arith
  after_calls-AreOpposed (c ∷ cs) =
      call_step-AreOpposed c (after_calls cs) (after_calls-AreOpposed cs)

  flipped_of_opposed :
      (a : Armed F) (current : TradeDirection)
      → IsOpposed a
      → ((a.from_dir ≡ "CALL") × (flipped_to current (upper a.target_dir) ≡ TradeDirection.put))
        ⊎ ((a.from_dir ≡ "PUT") × (flipped_to current (upper a.target_dir) ≡ call))
  unfolding IsOpposed
  flipped_of_opposed a current (inl (e, t)) =
      inl (e, ap (λ x. flipped_to current (upper x)) t ∙ ap (flipped_to current) upper_put)
  flipped_of_opposed a current (inr (e, t)) =
      inr (e, ap (λ x. flipped_to current (upper x)) t ∙ ap (flipped_to current) upper_call)

  opposite_of :
      (a : Armed F) (r : Reversals F) (s : String) (current d : TradeDirection) (m : QuoteMetrics F)
      (payout : Option F) (exec_cfg : QuoteConfig F) (cfg : ReversalConfig F) (b e : F)
      (from to : String) (q : Reversals F)
      → IsOpposed a
      → consume r s (some a) current m payout exec_cfg cfg ≡ (q, d, applied b e from to)
      → (((from ≡ "CALL") × (d ≡ TradeDirection.put)) ⊎ ((from ≡ "PUT") × (d ≡ call)))
        × (lacks_edge m (name d) payout exec_cfg ≡ false)
        × (get s q.pending ≡ none)
  opposite_of a r s current d m payout exec_cfg cfg b e from to q o h =
      let (stale, on, side, turned, edge) =
        answer_of a r.active_cycle current d m payout exec_cfg cfg b e from to
          (ap (λ x. (x.1, x.2)) h) in
      (
        elim (flipped_of_opposed a current o) [
          | inl (c, t) ↦ inl (sym side ∙ c, turned ∙ t)
          | inr (p, t) ↦ inr (sym side ∙ p, turned ∙ t)
        ],
        edge,
        sym (ap (λ x. get s x.0.pending) h) ∙ get-pop_self s r.pending,
      )

  opposite_of_found :
      (o : Option (Armed F)) (r : Reversals F) (s : String) (current d : TradeDirection)
      (m : QuoteMetrics F) (payout : Option F) (exec_cfg : QuoteConfig F) (cfg : ReversalConfig F)
      (b e : F) (from to : String) (q : Reversals F)
      → ((a : Armed F) → o ≡ some a → IsOpposed a)
      → consume r s o current m payout exec_cfg cfg ≡ (q, d, applied b e from to)
      → (((from ≡ "CALL") × (d ≡ TradeDirection.put)) ⊎ ((from ≡ "PUT") × (d ≡ call)))
        × (lacks_edge m (name d) payout exec_cfg ≡ false)
        × (get s q.pending ≡ none)
  opposite_of_found none r s current d m payout exec_cfg cfg b e from to q k h =
      ground (arith, ap (λ x. x.2) h)
  opposite_of_found (some a) r s current d m payout exec_cfg cfg b e from to q k h =
      opposite_of a r s current d m payout exec_cfg cfg b e from to q (k a refl) h

  -- After any settlements, new cycles and choices of sides, a side that is turned is turned to the opposite of the one
  -- that lost, never without an edge where a payout is assumed, and the reversal is used up.
  pub flip_is_opposite :
      (cs : List (Call F)) (s : String) (current d : TradeDirection) (m : QuoteMetrics F)
      (payout : Option F) (exec_cfg : QuoteConfig F) (cfg : ReversalConfig F) (b e : F)
      (from to : String) (q : Reversals F)
      → apply_error_reversal_to_direction (after_calls cs) s current m payout exec_cfg cfg
        ≡ (q, d, applied b e from to)
      → (((from ≡ "CALL") × (d ≡ TradeDirection.put)) ⊎ ((from ≡ "PUT") × (d ≡ call)))
        × (lacks_edge m (name d) payout exec_cfg ≡ false)
        × (get s q.pending ≡ none)
  unfolding apply_error_reversal_to_direction AreOpposed
  flip_is_opposite cs s current d m payout exec_cfg cfg b e from to q h =
      let r = after_calls cs in
      opposite_of_found (get s r.pending) r s current d m payout exec_cfg cfg b e from to q
        (after_calls-AreOpposed cs s) h
