-- ===== src/Lifecycle/Diagram.antt =====
-- What the validation lets pass, against the diagram as a relation.
use judah.Prelude.{◌≡◌, ◌↔◌, ◌⊎◌, inl, inr, Bool-cases, ◌||◌, ◌&&◌, Bool, true, false, ok, arith}
use judah.Lifecycle.{
  State, closed, resolved_by_human, human_handoff_requested, failed_retryable, ignored,
  queue_pending, is_terminal, is_closing, is_handoff, is_escape, is_queue_pending,
  is_failed_terminal, is_failed_retryable, is_valid_transition, validate_transition,
}

-- The moves that the validation authorises: out of a terminal state only with leave to reopen;
-- elsewhere into a closing, handoff, retry or ignored state, into the queue with authority, or
-- along an edge of the table.
pub data Authorized (s t : State) (reopen queue : Bool) : Type 0 where
  reopened : is_terminal s ≡ true → reopen ≡ true → Authorized s t reopen queue
  closing :
      is_terminal s ≡ false → (t ≡ closed) ⊎ (t ≡ resolved_by_human) → Authorized s t reopen queue
  diverted :
      is_terminal s ≡ false
      → (t ≡ human_handoff_requested) ⊎ (t ≡ failed_retryable) ⊎ (t ≡ ignored)
      → Authorized s t reopen queue
  queued : is_terminal s ≡ false → queue ≡ true → t ≡ queue_pending → Authorized s t reopen queue
  along : is_terminal s ≡ false → is_valid_transition s t ≡ true → Authorized s t reopen queue

closing_state : (t : State) → is_closing t ≡ true → (t ≡ closed) ⊎ (t ≡ resolved_by_human)
closing_state t e = ground arith

diverted_state :
    (t : State)
    → (is_handoff t ≡ true) ⊎ (is_escape t ≡ true)
    → (t ≡ human_handoff_requested) ⊎ (t ≡ failed_retryable) ⊎ (t ≡ ignored)
diverted_state t e = ground arith

queue_state : (t : State) → is_queue_pending t ≡ true → t ≡ queue_pending
queue_state t e = ground arith

-- The test for the terminal failure repeats an edge of the table.
failure_edge :
    (s t : State)
    → is_failed_terminal t ≡ true
    → is_failed_retryable s ≡ true
    → is_valid_transition s t ≡ true
unfolding is_valid_transition
failure_edge s t e f = ground arith

accepted :
    (s t : State) (reopen queue : Bool)
    → validate_transition s t reopen queue ≡ ok tt
    → Authorized s t reopen queue
unfolding validate_transition
accepted s t reopen queue e = elim (Bool-cases (is_terminal s)) [
  | inl terminal ↦ reopened terminal (ground arith)
  | inr live ↦ elim (Bool-cases (is_closing t)) [
    | inl c ↦ closing live (closing_state t c)
    | inr c ↦ elim (Bool-cases (is_handoff t || is_escape t)) [
      | inl d ↦ diverted live (diverted_state t (ground arith))
      | inr d ↦ elim (Bool-cases (queue && is_queue_pending t)) [
        | inl q ↦ queued live (ground arith) (queue_state t (ground arith))
        | inr q ↦ along live (ground (arith, failure_edge s t))
      ]
    ]
  ]
]

authorized :
    (s t : State) (reopen queue : Bool)
    → Authorized s t reopen queue
    → validate_transition s t reopen queue ≡ ok tt
unfolding validate_transition
authorized s t reopen queue (reopened a b) = ground arith
authorized s t reopen queue (closing a b) = ground arith
authorized s t reopen queue (diverted a b) = ground arith
authorized s t reopen queue (queued a b c) = ground arith
authorized s t reopen queue (along a b) = ground arith

-- A move is validated exactly when it is authorised.
pub validate_transition_iff :
    (s t : State) (reopen queue : Bool)
    → (validate_transition s t reopen queue ≡ ok tt) ↔ Authorized s t reopen queue
validate_transition_iff s t reopen queue = (accepted s t reopen queue, authorized s t reopen queue)
