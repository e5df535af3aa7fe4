-- ===== src/Assignment/Confirm.antt =====
-- What the confirmation of an owner does: the record of the effect, then the finalization.
use judah.Prelude.{
  ℕ, ◌+◌, ◌≡◌, refl, ap, ◌∙◌, sym, subst, Bool, true, false, Option, none, some, ltb, ◌==◌, ok, err,
  if◌then◌else◌, count, arith, find_by-modify,
}
use judah.Cycle
use judah.Matchmaker.Durable
use judah.Assignment.{
  AssignmentAttempt, AttemptState, reserved, external_applied, completed, compensating, compensated,
  retryable, repair_required, CycleEntry, Store, belongs_to_stale_cycle, multiple_rows, attempt_of,
  cycle_of, write_attempt, is_queued_cycle,
}
use judah.Assignment.Reserve.{delete_row}
use judah.Assignment.Settle.{
  done, fails, of_cycle_entry, applied_at, mark_in, mark_external_applied, is_same_assignment,
  finalized, finalize_writes, unique_assignment, of_cycle, finalize_assignment_attempt, upsert,
  assigned_row, log_row, delete_row_of, assign_cycle,
}
use judah.Assignment.Effect.{Effect, answer, confirm}
use judah.Assignment.Attempts.{attempt_of-write_attempt}
use judah.Assignment.Finals.{written_tables, attempt_of-delete_row_of}

-- The states out of which an effect may be recorded
abbrev pub is_recordable : AttemptState → Bool
is_recordable reserved = true
is_recordable external_applied = true
is_recordable repair_required = true
is_recordable s = false

mark_in-recordable :
    (st : AttemptState) (now id : ℕ) (s : Store)
    → is_recordable st ≡ true
    → mark_in st now id s ≡ done (write_attempt id (applied_at now) s)
mark_in-recordable reserved now id s h = refl
mark_in-recordable external_applied now id s h = refl
mark_in-recordable repair_required now id s h = refl
mark_in-recordable completed now id s h = absurd (ground (arith, h))
mark_in-recordable compensating now id s h = absurd (ground (arith, h))
mark_in-recordable compensated now id s h = absurd (ground (arith, h))
mark_in-recordable retryable now id s h = absurd (ground (arith, h))

module _ (now : ℕ) (a : AssignmentAttempt) (s : Store) (e : attempt_of a.pk s ≡ some a)
    (h : is_recordable a.state ≡ true) where
  marked : mark_external_applied now a.pk s ≡ done (write_attempt a.pk (applied_at now) s)
  unfolding mark_external_applied
  marked = rw e (mark_in-recordable a.state now a.pk s h)

  finalizing :
      finalize_assignment_attempt now a.pk (write_attempt a.pk (applied_at now) s)
      ≡ of_cycle now (applied_at now a) a.cycle_id (write_attempt a.pk (applied_at now) s)
  unfolding finalize_assignment_attempt
  finalizing = rw (attempt_of-write_attempt (applied_at now) a.pk s a (λ x. refl) e) refl

  pub confirm-of_cycle :
      confirm now a.pk s
      ≡ answer Durable.assigned
          (of_cycle now (applied_at now a) a.cycle_id (write_attempt a.pk (applied_at now) s))
  confirm-of_cycle = rw marked (ap (answer Durable.assigned) finalizing)

-- The attempt and its cycle stand in the tables, and no two conversations compete for the assignment.
pub record Stands (a : AssignmentAttempt) (c : ℕ) (x : CycleEntry) (s : Store) : Type 0 where
  pub attempt : attempt_of a.pk s ≡ some a
  pub cycle : cycle_of c s ≡ some x
  pub unique : ltb 1 (count (is_same_assignment a) s.assigned_rows) ≡ false

-- What a confirmed assignment leaves: the attempt completed, its cycle assigned.
pub record IsAssigned (now : ℕ) (a : AssignmentAttempt) (c : ℕ) (x : CycleEntry) (r : Effect)
    : Type 0 where
  pub answer : r.0 ≡ ok Durable.assigned
  pub attempt :
      (b : AssignmentAttempt) × (attempt_of a.pk r.1 ≡ some b)
      × (b.state ≡ completed)
      × (b.finalized_at ≡ some now)
  pub cycle : cycle_of c r.1 ≡ some (record x { state = Cycle.assigned })

finalize_writes-completed :
    (now : ℕ) (a : AssignmentAttempt) (s : Store)
    → attempt_of a.pk s ≡ some a
    → (b : AssignmentAttempt) × (attempt_of a.pk (finalize_writes now a s) ≡ some b)
      × (b.state ≡ completed)
      × (b.finalized_at ≡ some now)
unfolding finalize_writes
finalize_writes-completed now a s e =
    let recorded : Store = record s {
      assigned_rows = upsert (is_same_assignment a) (assigned_row now a) s.assigned_rows;
      logs = upsert (λ l. l.attempt == a.pk) (log_row a) s.logs;
      total_assignments = λ agent.
          if a.selected_agent == agent
          then s.total_assignments agent + 1
          else s.total_assignments agent;
    } in
    let (b, f, st) = attempt_of-delete_row_of a.queue_row a recorded e in
    let (ag, tot, at) = written_tables a.cycle_id a.queue_row a.pk (finalized now) recorded in
    (
      finalized now b,
      rw at (
          attempt_of-write_attempt (finalized now) a.pk (delete_row_of a.queue_row recorded) b
            (λ x. refl) f),
      refl,
      refl,
    )

cycles_after :
    (row : Option ℕ) (c : ℕ) (id : ℕ) (f : AssignmentAttempt → AssignmentAttempt) (s : Store)
    (x : CycleEntry)
    → cycle_of c s ≡ some x
    → cycle_of c (assign_cycle (some c) (write_attempt id f (delete_row_of row s)))
      ≡ some (record x { state = Cycle.assigned })
unfolding delete_row
cycles_after none c id f s x e = ground (
  arith,
  find_by-modify (λ c. c.pk) (λ (y : CycleEntry). record y { state = Cycle.assigned }) (λ x. refl) c
      c s.cycles,
)
cycles_after (some r) c id f s x e = ground (
  arith,
  find_by-modify (λ c. c.pk) (λ (y : CycleEntry). record y { state = Cycle.assigned }) (λ x. refl) c
      c s.cycles,
)

finalize_writes-assigned :
    (now : ℕ) (a : AssignmentAttempt) (c : ℕ) (s : Store) (x : CycleEntry)
    → a.cycle_id ≡ some c
    → cycle_of c s ≡ some x
    → cycle_of c (finalize_writes now a s) ≡ some (record x { state = Cycle.assigned })
unfolding finalize_writes
finalize_writes-assigned now a c s x i e =
    rw i (cycles_after a.queue_row c a.pk (finalized now) _ x e)

of_cycle-done :
    (now : ℕ) (a : AssignmentAttempt) (c : ℕ) (x : CycleEntry) (s : Store)
    → a.cycle_id ≡ some c
    → cycle_of c s ≡ some x
    → is_queued_cycle x.state ≡ true
    → ltb 1 (count (is_same_assignment a) s.assigned_rows) ≡ false
    → of_cycle now a a.cycle_id s ≡ done (finalize_writes now a s)
of_cycle-done now a c x s i f q u =
    ap (λ (o : Option ℕ). of_cycle now a o s) i
    ∙ ap (λ (o : Option CycleEntry). of_cycle_entry now a o s) f
    ∙ ap (λ b. if b then unique_assignment now a s else fails belongs_to_stale_cycle s) q
    ∙ ap (λ b. if b then fails multiple_rows s else done (finalize_writes now a s)) u

module _ (now : ℕ) (a : AssignmentAttempt) (c : ℕ) (x : CycleEntry) (s : Store)
    (i : a.cycle_id ≡ some c) (h : is_recordable a.state ≡ true) where
  pub confirm-belongs_to_stale_cycle :
      attempt_of a.pk s ≡ some a
      → cycle_of c s ≡ some x
      → is_queued_cycle x.state ≡ false
      → (confirm now a.pk s).0 ≡ err belongs_to_stale_cycle
  confirm-belongs_to_stale_cycle e f q = rw (confirm-of_cycle now a s e h) (rw i (rw f (rw q refl)))

  pub confirm-IsAssigned :
      Stands a c x s → is_queued_cycle x.state ≡ true → IsAssigned now a c x (confirm now a.pk s)
  confirm-IsAssigned t q =
      let b = applied_at now a in
      let s' = write_attempt a.pk (applied_at now) s in
      let e = attempt_of-write_attempt (applied_at now) a.pk s a (λ x. refl) t.attempt in
      subst (IsAssigned now a c x)
        (sym (
          confirm-of_cycle now a s t.attempt h
          ∙ ap (answer Durable.assigned) (of_cycle-done now b c x s' i t.cycle q t.unique)))
        (record {
          answer = refl;
          attempt = finalize_writes-completed now b s' e;
          cycle = finalize_writes-assigned now b c s' x i t.cycle;
        })
