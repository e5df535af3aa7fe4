-- ===== src/Assignment/History.antt =====
-- The books through any sequence of calls.
use judah.Prelude.{
  ℕ, ◌≡◌, refl, subst, true, some, List, [], ◌∷◌, ◌==◌, All, any, count-map, All-map_same, arith,
  find_by, count, if_elim, count-modify, All-modify, find_by-key, Bool-cases, inl, inr,
}
use judah.Queue.{Agent}
use judah.Assignment.{
  IdempotencyKey, AssignmentAttempt, QueueRow, Store, attempt_of, agent_of, write_attempt,
  write_agent,
}
use judah.Assignment.Reserve.{Surroundings, Turn, occupied, has_key, delete_row, reserve_with}
use judah.Assignment.Settle.{applied_at}
use judah.Assignment.Repair.{is_retryable, re_reserved}
use judah.Assignment.Books.{
  Opening, holds, completes, HasGivenBack, Books, agent_before, write_attempt-Books,
  write_rows-Books, compensate_writes-Books,
}
use judah.Assignment.Finals.{
  without_row, holds-without_row, completes-without_row, without_row-HasGivenBack,
  finalize_writes-Books,
}
use judah.Assignment.Keeps.{Keeps}
use judah.Assignment.Calls.{Call, IsQuiet, calls, calls-Keeps}

All-found :
    (P : AssignmentAttempt → Type 0) (id : ℕ) (xs : List AssignmentAttempt) (a : AssignmentAttempt)
    → All P xs
    → find_by (λ a. a.pk) id xs ≡ some a
    → P a
unfolding find_by
All-found P id [] a h e = absurd (ground arith)
All-found P id (x ∷ xs) a h e = elim (Bool-cases (x.pk == id)) [
  | inl t ↦ subst P (ground (arith, e)) h.0
  | inr f ↦ All-found P id xs a h.1 (ground (arith, e))
]

module _ (o : Opening) where
  re_reserved-Books :
      (now : ℕ) (a : AssignmentAttempt) (agent : Agent) (s : Store)
      → attempt_of a.pk s ≡ some a
      → agent_of a.selected_agent s ≡ some agent
      → is_retryable a.state ≡ true
      → Books o s
      → Books o (write_attempt a.pk (re_reserved now) (write_agent agent.pk (occupied now) s))
  unfolding re_reserved
  re_reserved-Books now a agent s e g r b = record {
    chats = λ pk x q.
        let (y, f, k) = agent_before o (occupied now) pk agent.pk s.agents x (λ y. refl) q in
        ground (
          arith,
          b.chats pk y f,
          All-found HasGivenBack a.pk s.attempts a b.given_back e,
          find_by-key (λ a. a.pk) a.selected_agent s.agents agent g,
          count-modify (λ a. a.pk) (re_reserved now) (holds pk) a.pk s.attempts a e,
        );
    assignments = λ pk. ground (
      arith,
      b.assignments pk,
      count-modify (λ a. a.pk) (re_reserved now) (completes pk) a.pk s.attempts a e,
    );
    given_back =
        All-modify (re_reserved now) HasGivenBack (λ a. a.pk) a.pk (λ x g. refl) s.attempts
          b.given_back;
  }

  delete_row-Books : (r : ℕ) (s : Store) → Books o s → Books o (delete_row r s)
  unfolding delete_row
  delete_row-Books r s b = record {
    chats = λ pk x q. ground (
      arith,
      b.chats pk x q,
      count-map (without_row r) (holds pk) (holds-without_row pk r) s.attempts,
    );
    assignments = λ pk. ground (
      arith,
      b.assignments pk,
      count-map (without_row r) (completes pk) (completes-without_row pk r) s.attempts,
    );
    given_back =
        All-map_same (without_row r) HasGivenBack (without_row-HasGivenBack r) s.attempts
          b.given_back;
  }

  reserve_with-Books :
      (key : IdempotencyKey) (w : Surroundings) (r : QueueRow) (a : Agent) (s : Store)
      → agent_of a.pk s ≡ some a
      → Books o s
      → Books o (reserve_with key w r a s).1
  unfolding reserve_with count
  reserve_with-Books key w r a s e b =
      if_elim (λ (t : Turn × Store). Books o t.1) (any (has_key key) s.attempts) _ _ (λ t. b)
        (λ t. record {
          chats = λ pk x q.
              let (y, g, k) = agent_before o (occupied w.now) pk a.pk s.agents x (λ y. refl) q in
              ground (arith, b.chats pk y g);
          assignments = λ pk. ground (arith, b.assignments pk);
          given_back = (refl, b.given_back);
        })

  Books-Keeps : Keeps (Books o)
  Books-Keeps = record {
    rows = write_rows-Books o;
    without = delete_row-Books;
    enter = reserve_with-Books;
    again = re_reserved-Books;
    apply = λ now id a s e f b.
        write_attempt-Books o id (applied_at now) a s e (λ pk. refl) (λ pk. ground arith)
          (λ x g. refl) b;
    settle = λ now a s e f b. finalize_writes-Books o now a s e f b;
    give_back = compensate_writes-Books o;
  }

-- Through any sequence of automatic and manual reservations, executions, reconciliations, retries, records, finalizations and
-- compensations, raising ones included, the chats of each agent are those it opened with plus one for
-- each attempt of it whose chat was not given back, its counted assignments are those it opened with
-- plus one for each completed attempt of it, and a retryable or compensated attempt has given its chat
-- back. The condition is that the writes of other sessions in between keep this as well.
pub calls-Books :
    (o : Opening) (cs : List Call) (s : Store)
    → All (IsQuiet (Books o)) cs
    → Books o s
    → Books o (calls cs s)
calls-Books o cs s q b = calls-Keeps (Books-Keeps o) cs s q b
