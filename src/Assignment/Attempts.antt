-- ===== src/Assignment/Attempts.antt =====
-- Lookups of attempts and agents.
use judah.Prelude.{ℕ, ◌≡◌, sym, subst, some, find_by-key, find_by-modify, arith}
use judah.Queue.{Agent}
use judah.Assignment.{AssignmentAttempt, Store, attempt_of, agent_of, write_attempt}

pub attempt_of-pk :
    (id : ℕ) (s : Store) (a : AssignmentAttempt)
    → attempt_of id s ≡ some a
    → attempt_of a.pk s ≡ some a
attempt_of-pk id s a e =
    subst (λ i. attempt_of i s ≡ some a) (sym (find_by-key (λ a. a.pk) id s.attempts a e)) e

pub agent_of-pk :
    (id : ℕ) (s : Store) (a : Agent) → agent_of id s ≡ some a → agent_of a.pk s ≡ some a
agent_of-pk id s a e =
    subst (λ i. agent_of i s ≡ some a) (sym (find_by-key (λ a. a.pk) id s.agents a e)) e

pub attempt_of-write_attempt :
    (f : AssignmentAttempt → AssignmentAttempt) (id : ℕ) (s : Store) (a : AssignmentAttempt)
    → ((x : AssignmentAttempt) → (f x).pk ≡ x.pk)
    → attempt_of id s ≡ some a
    → attempt_of id (write_attempt id f s) ≡ some (f a)
attempt_of-write_attempt f id s a keeps e =
    ground (arith, find_by-modify (λ a. a.pk) f keeps id id s.attempts)
