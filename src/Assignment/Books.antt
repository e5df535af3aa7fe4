-- ===== src/Assignment/Books.antt =====
-- The books of the protocol: the chats of an agent and the assignments counted for it agree with the
-- attempts.
use judah.Prelude.{
  ℕ, ◌+◌, ◌≡◌, refl, Bool, true, false, ◌&&◌, not, Option, none, some, List, ◌==◌, is_some,
  if◌then◌else◌, All, arith, Bool-cases, Option-cases, inl, inr, find_by, modify, count,
  find_by-modify, count-modify, All-modify,
}
use judah.Queue.{Agent}
use judah.Assignment.{
  AssignmentAttempt, AttemptState, compensated, retryable, QueueRow, Store, attempt_of, agent_of,
  write_attempt, is_completed,
}
use judah.Assignment.Settle.{
  Compensation, compensated_attempt, released, requeue, release_agent, compensate_writes,
}

-- What stands on the books before: the chats and the assignments of an agent that no attempt accounts for.
pub record Opening : Type 0 where
  pub chats : ℕ → ℕ
  pub assignments : ℕ → ℕ

-- The attempt holds a chat of the agent.
abbrev pub holds : ℕ → AssignmentAttempt → Bool
holds agent a = a.selected_agent == agent && not (is_some a.compensated_at)

abbrev pub completes : ℕ → AssignmentAttempt → Bool
completes agent a = a.selected_agent == agent && is_completed a.state

-- An attempt that waits for a retry, or was given up, has given its chat back.
abbrev pub gave_back : AttemptState → Option ℕ → Bool
gave_back retryable t = is_some t
gave_back compensated t = is_some t
gave_back s t = true

abbrev pub HasGivenBack : AssignmentAttempt → Type 0
HasGivenBack a = gave_back a.state a.compensated_at ≡ true

pub record Books (o : Opening) (s : Store) : Type 0 where
  pub chats :
      (pk : ℕ) (a : Agent)
      → agent_of pk s ≡ some a
      → a.current_simultaneous_chats ≡ o.chats pk + count (holds pk) s.attempts
  pub assignments :
      (pk : ℕ) → s.total_assignments pk ≡ o.assignments pk + count (completes pk) s.attempts
  pub given_back : All HasGivenBack s.attempts

module _ (o : Opening) where
  -- A write of an attempt that changes neither what it holds nor whether it is completed.
  pub write_attempt-Books :
      (id : ℕ) (f : AssignmentAttempt → AssignmentAttempt) (a : AssignmentAttempt) (s : Store)
      → attempt_of id s ≡ some a
      → ((pk : ℕ) → holds pk (f a) ≡ holds pk a)
      → ((pk : ℕ) → completes pk (f a) ≡ completes pk a)
      → ((x : AssignmentAttempt) → HasGivenBack x → HasGivenBack (f x))
      → Books o s
      → Books o (write_attempt id f s)
  write_attempt-Books id f a s e h c g b = record {
    chats = λ pk x q.
        ground
          (arith, b.chats pk x q, h pk, count-modify (λ a. a.pk) f (holds pk) id s.attempts a e);
    assignments = λ pk. ground (
      arith,
      b.assignments pk,
      c pk,
      count-modify (λ a. a.pk) f (completes pk) id s.attempts a e,
    );
    given_back = All-modify f HasGivenBack (λ a. a.pk) id g s.attempts b.given_back;
  }

  -- Writes to the row of an attempt touch no book.
  pub write_rows-Books :
      (rs : List QueueRow) (s : Store) → Books o s → Books o (record s { rows = rs })
  write_rows-Books rs s b = record {
    chats = b.chats;
    assignments = b.assignments;
    given_back = b.given_back;
  }

  compensated-first :
      (now : ℕ) (c : Compensation) (a : AssignmentAttempt) (pk : ℕ)
      → holds pk (compensated_attempt now c a) ≡ false
  unfolding compensated_attempt
  compensated-first now c a pk = ground arith

  compensated-HasGivenBack :
      (now : ℕ) (c : Compensation) (a : AssignmentAttempt)
      → HasGivenBack a
      → HasGivenBack (compensated_attempt now c a)
  unfolding compensated_attempt
  compensated-HasGivenBack now c a g = ground arith

  compensated-completes :
      (now : ℕ) (c : Compensation) (a : AssignmentAttempt) (pk : ℕ)
      → completes pk (compensated_attempt now c a) ≡ false
  unfolding compensated_attempt
  compensated-completes now c a pk = ground arith

  -- An agent after a write, from what it was before.
  pub agent_before :
      (f : Agent → Agent) (pk id : ℕ) (agents : List Agent) (x : Agent)
      → ((y : Agent) → (f y).pk ≡ y.pk)
      → find_by (λ a. a.pk) pk (modify (λ a. a.pk) id f agents) ≡ some x
      → (y : Agent) × (find_by (λ a. a.pk) pk agents ≡ some y) × (x ≡ (if id == pk then f y else y))
  agent_before f pk id agents x keeps h = elim (Option-cases (find_by (λ a. a.pk) pk agents)) [
    | inl n ↦ absurd (ground (arith, find_by-modify (λ a. a.pk) f keeps pk id agents))
    | inr (y, e) ↦ (y, e, ground (arith, find_by-modify (λ a. a.pk) f keeps pk id agents))
  ]

  -- The first compensation gives the chat of the attempt back, a later one gives nothing.
  released-Books :
      (now : ℕ) (c : Compensation) (a : AssignmentAttempt) (s : Store)
      → attempt_of a.pk s ≡ some a
      → is_completed a.state ≡ false
      → Books o s
      → Books o (write_attempt a.pk (compensated_attempt now c) (release_agent now a s))
  released-Books now c a s e q b = elim (Bool-cases (is_some a.compensated_at)) [
    | inl t ↦ rw t (
        write_attempt-Books a.pk (compensated_attempt now c) a s e
          (λ pk. ground (arith, compensated-first now c a pk))
          (λ pk. ground (arith, compensated-completes now c a pk))
          (λ x g. compensated-HasGivenBack now c x g) b)
    | inr f ↦ rw f (record {
      chats = λ pk x h.
          let (y, g, k) =
            agent_before (released now) pk a.selected_agent s.agents x (λ y. refl) h in
          ground (
            arith,
            b.chats pk y g,
            compensated-first now c a pk,
            count-modify (λ a. a.pk) (compensated_attempt now c) (holds pk) a.pk s.attempts a e,
          );
      assignments = λ pk. ground (
        arith,
        b.assignments pk,
        compensated-completes now c a pk,
        count-modify (λ a. a.pk) (compensated_attempt now c) (completes pk) a.pk s.attempts a e,
      );
      given_back =
          All-modify (compensated_attempt now c) HasGivenBack (λ a. a.pk) a.pk
            (λ x g. compensated-HasGivenBack now c x g) s.attempts b.given_back;
    })
  ]

  requeued-Books :
      (now : ℕ) (c : Compensation) (a : AssignmentAttempt) (row : Option ℕ)
      (f : AssignmentAttempt → AssignmentAttempt) (s : Store)
      → Books o (write_attempt a.pk f s)
      → Books o (write_attempt a.pk f (requeue now c a row s))
  requeued-Books now c a none f s b = b
  requeued-Books now c a (some r) f s b = write_rows-Books _ (write_attempt a.pk f s) b

  pub compensate_writes-Books :
      (now : ℕ) (c : Compensation) (a : AssignmentAttempt) (s : Store)
      → attempt_of a.pk s ≡ some a
      → is_completed a.state ≡ false
      → Books o s
      → Books o (compensate_writes now c a s)
  unfolding compensate_writes
  compensate_writes-Books now c a s e q b =
      requeued-Books now c a a.queue_row (compensated_attempt now c) (release_agent now a s)
        (released-Books now c a s e q b)
