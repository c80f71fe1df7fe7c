-- ===== src/Settlement/Queue/Poll.antt =====
-- The loop of a poll in settlement_queue_ops.py: nothing leaves the queue unsettled.
use aether_quantum_engine.Common.{
  ℕ, ◌<◌, String, Bool, true, false, not, ◌||◌, if_both, Option, none, some, List, [], ◌∷◌,
  if◌then◌else◌, ◌≡◌, refl, arith, string_eq, nat_eq, contains, set_discard, ap, sym, ◌∙◌, inl, inr,
  Bool-cases,
}
use aether_quantum_engine.Common.Float.{Float}
use aether_quantum_engine.Settlement.{Payload, Orchestrator}
use aether_quantum_engine.Settlement.Once.{Seen}
use aether_quantum_engine.Settlement.Queue.Keeps.{
  Keeps, IsKept, Seen-IsKept, IsLocked, IsLocked-IsKept, known-Keeps,
}
use aether_quantum_engine.Settlement.Queue.{
  Answers, Attempt, waits_for_lock, ended, Polled, confirm_queued_item, discard_enqueued,
  after_attempt, poll_item, poll_items, unlocked, process_redis_settlement_queue,
}
use aether_quantum_engine.Settlement.Queue.Confirmed.{Confirms, IsHonest, known-Confirms}

contains-set_discard :
    (a b : String) (xs : List String)
    → contains a xs ≡ true
    → contains a (set_discard b xs) ≡ false
    → a ≡ b
contains-set_discard a b [] h k = ground arith
contains-set_discard a b (x ∷ xs) h k =
    ground (arith, contains-set_discard a b xs, string_eq.beq_iff x a, string_eq.beq_iff x b)

module _ {F : Type 0} ⦃f : Float F⦄ where
  module _ (loads : String → Payload F) (answers : ℕ → Answers F) (honest : IsHonest answers) where
    -- The item is in the queue, or its contract is settled.
    Accounted : String → ℕ → Polled F → Type 0
    Accounted item cid p = contains item p.queue ≡ false → Seen cid p.engine

    discard-Seen :
        (id : ℕ) (key : Option ℕ) (o : Orchestrator F)
        → Seen id o
        → Seen id (discard_enqueued key o)
    discard-Seen id none o h = h
    discard-Seen id (some cid) o h = record { is_seen = h.is_seen }

    discard-IsLocked :
        (key : Option ℕ) (o : Orchestrator F) → IsLocked o → IsLocked (discard_enqueued key o)
    discard-IsLocked none o h = h
    discard-IsLocked (some cid) o h = h

    attempt-Accounted :
        (p : Polled F) (item other : String) (cid : ℕ) (a : Attempt F)
        → (loads item).contract_id ≡ some cid
        → Accounted item cid p
        → (other ≡ item → Confirms cid a)
        → (Seen cid p.engine → Keeps (Seen cid) (Seen-IsKept cid) a)
        → Accounted item cid (after_attempt loads answers p other a)
    unfolding Accounted Confirms Keeps
    attempt-Accounted p item other cid (waits_for_lock o) named h confirms keeps =
        λ gone. keeps (h gone)
    attempt-Accounted p item other cid (ended o false) named h confirms keeps =
        λ gone. keeps (h gone)
    attempt-Accounted p item other cid (ended o true) named h confirms keeps = λ gone.
        discard-Seen cid (loads other).contract_id o (elim (Bool-cases (contains item p.queue)) [
          | inl here ↦ confirms (sym (contains-set_discard item other p.queue here gone)) refl
          | inr away ↦ keeps (h away)
        ])

    attempt_of_same :
        (o : Orchestrator F) (item other : String) (cid : ℕ)
        → (loads item).contract_id ≡ some cid
        → 0 < cid
        → IsLocked o
        → other ≡ item
        → Confirms cid (confirm_queued_item o (loads other) answers)
    unfolding confirm_queued_item
    attempt_of_same o item other cid named above locked same =
        known-Confirms answers honest o (loads other).contract_id cid
          (ap (λ x. (loads x).contract_id) same ∙ named) above locked

    queued-Keeps :
        (P : Orchestrator F → Type 0) (kept : IsKept P) (o : Orchestrator F) (payload : Payload F)
        → P o
        → Keeps P kept (confirm_queued_item o payload answers)
    unfolding confirm_queued_item
    queued-Keeps P kept o payload h = known-Keeps P kept o payload.contract_id answers h

    attempt-IsLocked :
        (p : Polled F) (other : String) (a : Attempt F)
        → Keeps IsLocked IsLocked-IsKept a
        → IsLocked (after_attempt loads answers p other a).engine
    unfolding Keeps
    attempt-IsLocked p other (waits_for_lock o) h = h
    attempt-IsLocked p other (ended o false) h = h
    attempt-IsLocked p other (ended o true) h = discard-IsLocked (loads other).contract_id o h

    poll_item-IsLocked :
        (p : Polled F) (other : String)
        → IsLocked p.engine
        → IsLocked (poll_item loads answers p other).engine
    poll_item-IsLocked p other h =
        if_both (λ (q : Polled F). IsLocked q.engine) (p.is_stuck || p.engine.has_exited) h
          (attempt-IsLocked p other _
            (queued-Keeps IsLocked IsLocked-IsKept p.engine (loads other) h))

    if-Accounted :
        (item : String) (cid : ℕ) (b : Bool) (p q : Polled F)
        → Accounted item cid p
        → Accounted item cid q
        → Accounted item cid (if b then p else q)
    if-Accounted item cid true p q h k = h
    if-Accounted item cid false p q h k = k

    poll_item-Accounted :
        (p : Polled F) (item other : String) (cid : ℕ)
        → (loads item).contract_id ≡ some cid
        → 0 < cid
        → IsLocked p.engine
        → Accounted item cid p
        → Accounted item cid (poll_item loads answers p other)
    poll_item-Accounted p item other cid named above locked h =
        let a = confirm_queued_item p.engine (loads other) answers in
        if-Accounted item cid (p.is_stuck || p.engine.has_exited) p _ h (
          attempt-Accounted p item other cid a named h
            (attempt_of_same p.engine item other cid named above locked)
            (queued-Keeps (Seen cid) (Seen-IsKept cid) p.engine (loads other)))

    poll_items-Accounted :
        (p : Polled F) (item : String) (items : List String) (cid : ℕ)
        → (loads item).contract_id ≡ some cid
        → 0 < cid
        → IsLocked p.engine
        → Accounted item cid p
        → Accounted item cid (poll_items loads answers p items)
    unfolding poll_items
    poll_items-Accounted p item [] cid named above locked h = h
    poll_items-Accounted p item (other ∷ items) cid named above locked h =
        poll_items-Accounted (poll_item loads answers p other) item items cid named above
          (poll_item-IsLocked p other locked)
          (poll_item-Accounted p item other cid named above locked h)

    unlocked-Accounted :
        (item : String) (cid : ℕ) (p : Polled F)
        → Accounted item cid p
        → Accounted item cid (unlocked loads answers p)
    unfolding Accounted
    unlocked-Accounted item cid p h = λ gone. record { is_seen = (h gone).is_seen }

    -- An item that a poll takes out of the queue is settled, if its contract has an id above 0 and the broker answers
    -- about the contracts that it is asked for: no settlement is lost.
    pub poll_settles :
        (o : Orchestrator F) (queue : List String) (force : Bool) (item : String) (cid : ℕ)
        → (loads item).contract_id ≡ some cid
        → 0 < cid
        → contains item queue ≡ true
        → let p = process_redis_settlement_queue loads answers o queue force in
          contains item p.queue ≡ false → contains cid p.engine.settled_contract_ids ≡ true
    unfolding process_redis_settlement_queue Accounted
    poll_settles o queue force item cid named above here gone =
        let idle : Polled F = record { engine = o; queue = queue; is_stuck = false } in
        let polled = record o { settlement_redis_poll_at = o.monotonic } in
        let started : Polled F = record idle {
          engine = record polled { redis_queue_locked = true };
        } in
        let waiting : Polled F = record idle { engine = polled; is_stuck = true } in
        let start : (p : Polled F) → p.queue ≡ queue → Accounted item cid p =
          λ p e g. absurd (ground (arith, here)) in
        (if-Accounted item cid (not o.ws_is_running) idle _ (start idle refl)
          (if-Accounted item cid _ idle _ (start idle refl) (
            if-Accounted item cid o.redis_queue_locked waiting _ (start waiting refl) (
              unlocked-Accounted item cid _ (
                poll_items-Accounted started item queue cid named above refl
                  (start started refl)))))
          gone).is_seen
