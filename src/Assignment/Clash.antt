-- ===== src/Assignment/Clash.antt =====
-- The unique key of the attempts against a row that is reserved again.
use judah.Prelude.{
  ℕ, ◌≡◌, ◌↔◌, refl, ap, Bool, true, false, All-map, ◌∙◌, is_some, ◌&&◌, Option, none, some, List,
  [], ◌∷◌, any, find, All, arith, if_elim, Text, text_eq, inl, inr,
}
use judah.Matchmaker.Durable.{Reservation}
use judah.Queue.{Agent}
use judah.Assignment.{
  automatic, AssignmentAttempt, QueueRow, Store, integrity_error, agent_of, in_scope, same_option,
  is_live, is_completed, same_key, idempotency_key_of,
}
use judah.Assignment.Reserve.{
  Surroundings, Turn, raises, answers, scoped, has_key, reserve_with, reserve_agent, is_allowed_now,
  try_agent, live_or_new, done_or_live, reserve_row,
}

-- The attempt was made by an automatic reservation: its key is that of its ticket and cycle.
abbrev pub IsKeyed : AssignmentAttempt → Type 0
IsKeyed a = a.idempotency_key ≡ idempotency_key_of a.cycle_id a.ticket_id

key-of_cycle :
    (d : Option ℕ) (t : Text) (c : ℕ)
    → same_key (idempotency_key_of d t) (automatic (inr c)) ≡ same_option d (some c)
key-of_cycle none t c = refl
key-of_cycle (some d) t c = refl

key-of_ticket :
    (d : Option ℕ) (t ticket : Text)
    → same_key (idempotency_key_of d t) (automatic (inl ticket))
      ≡ (text_eq t ticket && same_option d none)
key-of_ticket none t ticket = ground arith
key-of_ticket (some d) t ticket = ground arith

has_key-in_scope :
    (c : Option ℕ) (ticket : Text) (a : AssignmentAttempt)
    → IsKeyed a
    → has_key (idempotency_key_of c ticket) a ≡ in_scope c ticket a
unfolding in_scope
has_key-in_scope (some c) ticket a k =
    ap (λ i. same_key i (automatic (inr c))) k ∙ key-of_cycle a.cycle_id a.ticket_id c
has_key-in_scope none ticket a k =
    ap (λ i. same_key i (automatic (inl ticket))) k ∙ key-of_ticket a.cycle_id a.ticket_id ticket

any-same :
    (p q : AssignmentAttempt → Bool) (xs : List AssignmentAttempt)
    → All (λ x. p x ≡ q x) xs
    → any p xs ≡ any q xs
any-same p q [] h = refl
any-same p q (x ∷ xs) h = ground (arith, h.0, any-same p q xs h.1)

any-find :
    (p : AssignmentAttempt → Bool) (xs : List AssignmentAttempt) → any p xs ≡ is_some (find p xs)
any-find p [] = refl
any-find p (x ∷ xs) = ground (arith, any-find p xs)

abbrev is_answer : Turn → Bool
is_answer (answers r) = true
is_answer t = false

answers-raises : (x : Reservation) → ¬ (answers x ≡ raises integrity_error)
answers-raises x h = ground (arith, ap is_answer h)

module _ (w : Surroundings) (candidate : ℕ) (r : QueueRow) (a : Agent) (s : Store)
    (e : agent_of candidate s ≡ some a) (h : is_allowed_now w a ≡ true) where
  abbrev is_taken : Bool
  is_taken = any (has_key (idempotency_key_of r.cycle_id r.ticket_id)) s.attempts

  reserve_agent_iff : ((reserve_agent w r a s).0 ≡ raises integrity_error) ↔ (is_taken ≡ true)
  unfolding reserve_with
  reserve_agent_iff =
      if_elim (λ (t : Turn × Store). (t.0 ≡ raises integrity_error) ↔ (is_taken ≡ true)) is_taken _
        _ (λ t. (λ k. t, λ k. refl))
        (λ f. (λ k. absurd (answers-raises _ k), λ k. absurd (ground (arith, f, k))))

  try_agent_iff :
      ((try_agent w r (agent_of candidate s) s).0 ≡ raises integrity_error) ↔ (is_taken ≡ true)
  try_agent_iff = rw e (rw h reserve_agent_iff)

  live_or_new_iff :
      (found : Option AssignmentAttempt)
      → ((live_or_new w candidate r found s).0 ≡ raises integrity_error)
        ↔ ((is_taken ≡ true) × (is_some found ≡ false))
  live_or_new_iff none = (λ k. (try_agent_iff.0 k, refl), λ k. try_agent_iff.1 k.0)
  live_or_new_iff (some b) = (λ k. absurd (answers-raises _ k), λ k. absurd (ground (arith, k)))

  done_or_live_iff :
      (found : Option AssignmentAttempt)
      → ((done_or_live w candidate r found s).0 ≡ raises integrity_error) ↔ (
          (is_taken ≡ true)
          × (is_some found ≡ false)
          × (is_some (find (scoped r is_live) s.attempts) ≡ false))
  done_or_live_iff none =
      let i = live_or_new_iff (find (scoped r is_live) s.attempts) in
      (λ k. let (t, f) = i.0 k in (t, refl, f), λ k. let (t, u, f) = k in i.1 (t, f))
  done_or_live_iff (some b) = (λ k. absurd (answers-raises _ k), λ k. absurd (ground (arith, k)))

-- Where the candidate is there and may be chosen, the reservation of a row violates the unique key of the
-- attempts exactly if an attempt was made for its cycle (for its ticket, where neither has one) and none
-- of these is live or completed: a row that comes back after a compensation is never reserved again. The
-- attempts are automatic and carry the keys of their tickets and cycles.
pub reserve_row-integrity_error_iff :
    (w : Surroundings) (candidate : ℕ) (r : QueueRow) (a : Agent) (s : Store)
    → agent_of candidate s ≡ some a
    → is_allowed_now w a ≡ true
    → All IsKeyed s.attempts
    → ((reserve_row w candidate r s).0 ≡ raises integrity_error) ↔ (
        (any (in_scope r.cycle_id r.ticket_id) s.attempts ≡ true)
        × (any (scoped r is_completed) s.attempts ≡ false)
        × (any (scoped r is_live) s.attempts ≡ false))
unfolding reserve_row
reserve_row-integrity_error_iff w candidate r a s e h k =
    let key = idempotency_key_of r.cycle_id r.ticket_id in
    rw (any-find (scoped r is_completed) s.attempts) (
      rw (any-find (scoped r is_live) s.attempts) (
        rw
          (← (
            any-same (has_key key) (in_scope r.cycle_id r.ticket_id) s.attempts
              (All-map IsKeyed _ (λ x. has_key-in_scope r.cycle_id r.ticket_id x) s.attempts k)))
          (done_or_live_iff w candidate r a s e h (find (scoped r is_completed) s.attempts))))
