-- ===== src/Assignment/Once.antt =====
-- The attempts of a ticket and its cycle, by their idempotency key.
use judah.Prelude.{
  ℕ, ◌+◌, ◌≤◌, ◌≡◌, refl, ap, ◌∙◌, subst, Bool, true, false, ◌&&◌, Option, none, some, List, [],
  ◌∷◌, ◌==◌, if◌then◌else◌, All, any, arith, find_by, modify, count, if_elim, count-map,
  count-modify, Text, text_eq_iff, ◌⊎◌, inl, inr, Bool-cases,
}
use judah.Queue.{Agent}
use judah.Assignment.{
  IdempotencyKey, automatic, manual, same_identity, AssignmentAttempt, external_applied, QueueRow,
  Store, attempt_of, is_completed, same_key, write_attempt, write_agent,
}
use judah.Assignment.Reserve.{Surroundings, Turn, occupied, has_key, delete_row, reserve_with}
use judah.Assignment.Settle.{
  applied_at, finalized, Compensation, compensated_attempt, compensate_writes, finalize_writes,
  requeue, release_agent, delete_row_of, upsert, is_same_assignment, assigned_row, log_row,
}
use judah.Assignment.Repair.{is_retryable, re_reserved}
use judah.Assignment.Finals.{without_row, written_tables, attempt_of-delete_row_of}
use judah.Assignment.Keeps.{Keeps}
use judah.Assignment.Calls.{Call, IsQuiet, calls, calls-Keeps}

abbrev pub is_finished : IdempotencyKey → AssignmentAttempt → Bool
is_finished k a = has_key k a && is_completed a.state

-- At most one attempt has the key, and `n` attempts with it, or more, are completed.
pub record Once (n : ℕ) (k : IdempotencyKey) (s : Store) : Type 0 where
  pub at_most : count (has_key k) s.attempts ≤ 1
  pub finished : n ≤ count (is_finished k) s.attempts

same_identity-eq : (x y : Text ⊎ ℕ) → same_identity x y ≡ true → x ≡ y
same_identity-eq (inl t) (inl u) h = ap inl ((text_eq_iff t u).0 h)
same_identity-eq (inr c) (inr d) h = ap inr (ground (arith, h))
same_identity-eq (inl t) (inr d) h = absurd (ground (arith, h))
same_identity-eq (inr c) (inl u) h = absurd (ground (arith, h))

same_key-eq : (x y : IdempotencyKey) → same_key x y ≡ true → x ≡ y
same_key-eq (automatic k) (automatic l) h = ap automatic (same_identity-eq k l h)
same_key-eq (manual k) (manual l) h = ap manual (same_identity-eq k l h)
same_key-eq (automatic k) (manual l) h = absurd (ground (arith, h))
same_key-eq (manual k) (automatic l) h = absurd (ground (arith, h))

count-any :
    (p : AssignmentAttempt → Bool) (xs : List AssignmentAttempt) → any p xs ≡ false → count p xs ≡ 0
unfolding count
count-any p [] h = refl
count-any p (x ∷ xs) h = ground (arith, count-any p xs)

module _ (n : ℕ) (k : IdempotencyKey) where
  -- A write of an attempt that keeps its key, and does not undo a completion
  write-Once :
      (id : ℕ) (f : AssignmentAttempt → AssignmentAttempt) (a : AssignmentAttempt) (s t : Store)
      → find_by (λ a. a.pk) id s.attempts ≡ some a
      → t.attempts ≡ modify (λ a. a.pk) id f s.attempts
      → (f a).idempotency_key ≡ a.idempotency_key
      → is_completed a.state ≡ false
      → Once n k s
      → Once n k t
  write-Once id f a s t e m i c o = record {
    at_most =
        rw m
          (ground (arith, o.at_most, i, count-modify (λ a. a.pk) f (has_key k) id s.attempts a e));
    finished = rw m (
        ground
          (arith, o.finished, c, count-modify (λ a. a.pk) f (is_finished k) id s.attempts a e));
  }

  delete_row-Once : (r : ℕ) (s : Store) → Once n k s → Once n k (delete_row r s)
  unfolding delete_row
  delete_row-Once r s o = record {
    at_most =
        ground
          (arith, o.at_most, count-map (without_row r) (has_key k) (λ a. ground arith) s.attempts);
    finished = ground (
      arith,
      o.finished,
      count-map (without_row r) (is_finished k) (λ a. ground arith) s.attempts,
    );
  }

  reserve_with-Once :
      (key : IdempotencyKey) (w : Surroundings) (r : QueueRow) (a : Agent) (s : Store)
      → Once n k s
      → Once n k (reserve_with key w r a s).1
  unfolding reserve_with count
  reserve_with-Once key w r a s o =
      if_elim (λ (t : Turn × Store). Once n k t.1) (any (has_key key) s.attempts) _ _ (λ t. o)
        (λ t. record {
          at_most = elim (Bool-cases (same_key key k)) [
            | inl e ↦ ground (
              arith,
              e,
              count-any (has_key k) s.attempts
                  (subst (λ i. any (has_key i) s.attempts ≡ false) (same_key-eq key k e) t),
            )
            | inr e ↦ ground (arith, e, o.at_most)
          ];
          finished = ground (arith, o.finished);
        })

  again-Once :
      (now : ℕ) (a : AssignmentAttempt) (agent : Agent) (s : Store)
      → attempt_of a.pk s ≡ some a
      → is_retryable a.state ≡ true
      → Once n k s
      → Once n k (write_attempt a.pk (re_reserved now) (write_agent agent.pk (occupied now) s))
  unfolding re_reserved
  again-Once now a agent s e r =
      write-Once a.pk (re_reserved now) a s _ e refl refl (ground (arith, r))

  delete_row_of-Once : (row : Option ℕ) (s : Store) → Once n k s → Once n k (delete_row_of row s)
  delete_row_of-Once none s o = o
  delete_row_of-Once (some r) s o = delete_row-Once r s o

  settle-Once :
      (now : ℕ) (a : AssignmentAttempt) (s : Store)
      → attempt_of a.pk s ≡ some a
      → a.state ≡ external_applied
      → Once n k s
      → Once n k (finalize_writes now a s)
  unfolding finalize_writes
  settle-Once now a s e q o =
      let recorded : Store = record s {
        assigned_rows = upsert (is_same_assignment a) (assigned_row now a) s.assigned_rows;
        logs = upsert (λ l. l.attempt == a.pk) (log_row a) s.logs;
        total_assignments = λ agent.
            if a.selected_agent == agent
            then s.total_assignments agent + 1
            else s.total_assignments agent;
      } in
      let (b, f, st) = attempt_of-delete_row_of a.queue_row a recorded e in
      let (ag, tot, at) = written_tables a.cycle_id a.queue_row a.pk (finalized now) recorded in
      write-Once a.pk (finalized now) b (delete_row_of a.queue_row recorded)
        (finalize_writes now a s) f at refl (ground (arith, st, q))
        (delete_row_of-Once a.queue_row recorded
          record { at_most = o.at_most; finished = o.finished })

  compensated-key :
      (now : ℕ) (c : Compensation) (a : AssignmentAttempt)
      → (compensated_attempt now c a).idempotency_key ≡ a.idempotency_key
  unfolding compensated_attempt
  compensated-key now c a = ground arith

  released_attempts :
      (now : ℕ) (a : AssignmentAttempt) (s : Store) → (release_agent now a s).attempts ≡ s.attempts
  released_attempts now a s = ground arith

  requeued_attempts :
      (now : ℕ) (c : Compensation) (a : AssignmentAttempt) (row : Option ℕ) (s : Store)
      → (requeue now c a row s).attempts ≡ s.attempts
  requeued_attempts now c a none s = refl
  requeued_attempts now c a (some r) s = refl

  give_back-Once :
      (now : ℕ) (c : Compensation) (a : AssignmentAttempt) (s : Store)
      → attempt_of a.pk s ≡ some a
      → is_completed a.state ≡ false
      → Once n k s
      → Once n k (compensate_writes now c a s)
  unfolding compensate_writes
  give_back-Once now c a s e f o =
      write-Once a.pk (compensated_attempt now c) a s (compensate_writes now c a s) e
        (ap (modify (λ a. a.pk) a.pk (compensated_attempt now c)) (
          requeued_attempts now c a a.queue_row (release_agent now a s)
          ∙ released_attempts now a s))
        (compensated-key now c a) f o

  Once-Keeps : Keeps (Once n k)
  Once-Keeps = record {
    rows = λ rs s o. record { at_most = o.at_most; finished = o.finished };
    without = delete_row-Once;
    enter = λ key w r a s e o. reserve_with-Once key w r a s o;
    again = λ now a agent s e g r o. again-Once now a agent s e r o;
    apply = λ now id a s e f o. write-Once id (applied_at now) a s _ e refl refl f o;
    settle = settle-Once;
    give_back = give_back-Once;
  }

  -- No sequence of calls of the protocol, raising ones included, gives a ticket and its cycle a second
  -- attempt under their idempotency key, or undoes the completion of the one: with `n = 0` there is at
  -- most one attempt with the key throughout, and with `n = 1` that one is completed and stays so. The
  -- condition is that the writes of other sessions in between keep this as well.
  pub calls-Once :
      (cs : List Call) (s : Store)
      → All (IsQuiet (Once n k)) cs
      → Once n k s
      → Once n k (calls cs s)
  calls-Once cs s q o = calls-Keeps Once-Keeps cs s q o
