-- ===== src/Assignment/Keeps.antt =====
-- Properties of the store that every call of the protocol keeps: from the writes to the calls.
use judah.Prelude.{
  ℕ, ◌≡◌, refl, true, false, ◌&&◌, ◌||◌, Option, none, some, List, ltb, is_some, arith, count,
  maybe_elim, if_elim,
}
use judah.Queue.{Agent}
use judah.Assignment.{
  IdempotencyKey, AssignmentAttempt, AttemptState, reserved, external_applied, completed,
  compensating, compensated, retryable, repair_required, QueueRow, CycleEntry, Store, attempt_of,
  agent_of, cycle_of, write_attempt, write_agent, is_completed, is_queued_cycle,
}
use judah.Assignment.Reserve.{Surroundings, occupied, delete_row, reserve_with}
use judah.Assignment.Settle.{
  Outcome, Compensation, applied_at, mark_in, mark_external_applied, finalize_writes,
  unique_assignment, of_cycle_entry, of_cycle, finalize_in, is_same_assignment,
  finalize_assignment_attempt, compensate_writes, compensate_in, compensate_assignment_attempt,
}
use judah.Assignment.Repair.{is_retryable, re_reserved}
use judah.Assignment.Attempts.{attempt_of-pk}

-- The writes of the protocol, each where the code makes it
pub record Keeps (P : Store → Type 0) : Type 0 where
  pub rows : (rs : List QueueRow) (s : Store) → P s → P (record s { rows = rs })
  pub without : (r : ℕ) (s : Store) → P s → P (delete_row r s)
  pub enter :
      (key : IdempotencyKey) (w : Surroundings) (r : QueueRow) (a : Agent) (s : Store)
      → agent_of a.pk s ≡ some a
      → P s
      → P (reserve_with key w r a s).1
  pub again :
      (now : ℕ) (a : AssignmentAttempt) (agent : Agent) (s : Store)
      → attempt_of a.pk s ≡ some a
      → agent_of a.selected_agent s ≡ some agent
      → is_retryable a.state ≡ true
      → P s
      → P (write_attempt a.pk (re_reserved now) (write_agent agent.pk (occupied now) s))
  pub apply :
      (now id : ℕ) (a : AssignmentAttempt) (s : Store)
      → attempt_of id s ≡ some a
      → is_completed a.state ≡ false
      → P s
      → P (write_attempt id (applied_at now) s)
  pub settle :
      (now : ℕ) (a : AssignmentAttempt) (s : Store)
      → attempt_of a.pk s ≡ some a
      → a.state ≡ external_applied
      → P s
      → P (finalize_writes now a s)
  pub give_back :
      (now : ℕ) (c : Compensation) (a : AssignmentAttempt) (s : Store)
      → attempt_of a.pk s ≡ some a
      → is_completed a.state ≡ false
      → P s
      → P (compensate_writes now c a s)

module _ {P : Store → Type 0} (k : Keeps P) where
  mark_in-Keeps :
      (st : AttemptState) (now id : ℕ) (a : AssignmentAttempt) (s : Store)
      → attempt_of id s ≡ some a
      → a.state ≡ st
      → P s
      → P (mark_in st now id s).1
  mark_in-Keeps completed now id a s e q b = b
  mark_in-Keeps compensating now id a s e q b = b
  mark_in-Keeps compensated now id a s e q b = b
  mark_in-Keeps retryable now id a s e q b = b
  mark_in-Keeps reserved now id a s e q b = k.apply now id a s e (ground arith) b
  mark_in-Keeps external_applied now id a s e q b = k.apply now id a s e (ground arith) b
  mark_in-Keeps repair_required now id a s e q b = k.apply now id a s e (ground arith) b

  pub mark_external_applied-Keeps :
      (now id : ℕ) (s : Store) → P s → P (mark_external_applied now id s).1
  unfolding mark_external_applied
  mark_external_applied-Keeps now id s b =
      maybe_elim (λ r. P r.1) _ (λ a. mark_in a.state now id s) (attempt_of id s) b
        (λ a e. mark_in-Keeps a.state now id a s e refl b)

  compensate_in-Keeps :
      (st : AttemptState) (now : ℕ) (c : Compensation) (a : AssignmentAttempt) (s : Store)
      → attempt_of a.pk s ≡ some a
      → a.state ≡ st
      → P s
      → P (compensate_in st now c a s).1
  compensate_in-Keeps completed now c a s e q b = b
  compensate_in-Keeps compensated now c a s e q b = b
  compensate_in-Keeps st now c a s e q b =
      if_elim (λ (r : Outcome). P r.1)
        (is_some a.compensated_at && (c.is_retryable || c.needs_repair)) _ _ (λ t. b)
        (λ t. k.give_back now c a s e (ground arith) b)

  pub compensate_assignment_attempt-Keeps :
      (now : ℕ) (c : Compensation) (id : ℕ) (s : Store)
      → P s
      → P (compensate_assignment_attempt now c id s).1
  unfolding compensate_assignment_attempt
  compensate_assignment_attempt-Keeps now c id s b =
      maybe_elim (λ r. P r.1) _ (λ a. compensate_in a.state now c a s) (attempt_of id s) b
        (λ a e. compensate_in-Keeps a.state now c a s (attempt_of-pk id s a e) refl b)

  module _ (now : ℕ) (a : AssignmentAttempt) where
    unique_assignment-Keeps :
        (s : Store)
        → attempt_of a.pk s ≡ some a
        → a.state ≡ external_applied
        → P s
        → P (unique_assignment now a s).1
    unique_assignment-Keeps s e st b =
        if_elim (λ (r : Outcome). P r.1) (ltb 1 (count (is_same_assignment a) s.assigned_rows)) _ _
          (λ t. b) (λ t. k.settle now a s e st b)

    of_cycle_entry-Keeps :
        (c : Option CycleEntry) (s : Store)
        → attempt_of a.pk s ≡ some a
        → a.state ≡ external_applied
        → P s
        → P (of_cycle_entry now a c s).1
    of_cycle_entry-Keeps none s e st b = b
    of_cycle_entry-Keeps (some c) s e st b =
        if_elim (λ (r : Outcome). P r.1) (is_queued_cycle c.state) _ _
          (λ t. unique_assignment-Keeps s e st b) (λ t. b)

    of_cycle-Keeps :
        (c : Option ℕ) (s : Store)
        → attempt_of a.pk s ≡ some a
        → a.state ≡ external_applied
        → P s
        → P (of_cycle now a c s).1
    of_cycle-Keeps none s e st b = unique_assignment-Keeps s e st b
    of_cycle-Keeps (some c) s e st b = of_cycle_entry-Keeps (cycle_of c s) s e st b

    finalize_in-Keeps :
        (st : AttemptState) (s : Store)
        → attempt_of a.pk s ≡ some a
        → a.state ≡ st
        → P s
        → P (finalize_in st now a s).1
    finalize_in-Keeps completed s e q b = b
    finalize_in-Keeps external_applied s e q b = of_cycle-Keeps a.cycle_id s e q b
    finalize_in-Keeps reserved s e q b = b
    finalize_in-Keeps compensating s e q b = b
    finalize_in-Keeps compensated s e q b = b
    finalize_in-Keeps retryable s e q b = b
    finalize_in-Keeps repair_required s e q b = b

  pub finalize_assignment_attempt-Keeps :
      (now id : ℕ) (s : Store) → P s → P (finalize_assignment_attempt now id s).1
  unfolding finalize_assignment_attempt
  finalize_assignment_attempt-Keeps now id s b =
      maybe_elim (λ r. P r.1) _ (λ a. finalize_in a.state now a s) (attempt_of id s) b
        (λ a e. finalize_in-Keeps now a a.state s (attempt_of-pk id s a e) refl b)
