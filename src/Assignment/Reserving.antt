-- ===== src/Assignment/Reserving.antt =====
-- What is kept by a reservation.
use judah.Prelude.{
  ok, maybe_elim, ℕ, ◌≡◌, refl, Option, none, some, List, [], ◌∷◌, Text, any, find, if_elim, Result,
  select,
}
use judah.Matchmaker.Durable.{
  ReservationReason, no_eligible_candidate, candidate_changed, Reservation,
}
use judah.Queue.{Agent}
use judah.Assignment.{
  idempotency_key_of, AssignmentAttempt, QueueRow, CycleEntry, Store, Fault, agent_of, cycle_of,
  is_live, is_completed, is_queued_cycle,
}
use judah.Assignment.Ready.{
  earliest, deferred, defer_without_candidate, ready_row, is_candidate_row,
}
use judah.Assignment.Reserve.{
  deferred_to_cohort, postponed, Surroundings, Turn, answers, raises, continues, is_allowed_now,
  scoped, has_completed, try_agent, live_or_new, done_or_live, reserve_row, of_queued_cycle,
  check_cycle, on_row, on_candidate, give_up, after_turn, reserve_from, with_candidates, prechecked,
  reserve_next_assignment,
}
use judah.Assignment.Keeps.{Keeps}
use judah.Assignment.Attempts.{agent_of-pk}

module _ {P : Store → Type 0} (k : Keeps P) where
  module _ (w : Surroundings) where
    try_agent-Keeps :
        (r : QueueRow) (candidate : ℕ) (a : Option Agent) (s : Store)
        → agent_of candidate s ≡ a
        → P s
        → P (try_agent w r a s).1
    try_agent-Keeps r candidate none s e b = b
    try_agent-Keeps r candidate (some a) s e b =
        if_elim (λ (t : Turn × Store). P t.1) (is_allowed_now w a) _ _
          (λ t.
            k.enter (idempotency_key_of r.cycle_id r.ticket_id) w r a s
              (agent_of-pk candidate s a e) b)
          (λ t. b)

    live_or_new-Keeps :
        (r : QueueRow) (candidate : ℕ) (a : Option AssignmentAttempt) (s : Store)
        → P s
        → P (live_or_new w candidate r a s).1
    live_or_new-Keeps r candidate none s b =
        try_agent-Keeps r candidate (agent_of candidate s) s refl b
    live_or_new-Keeps r candidate (some a) s b = b

    done_or_live-Keeps :
        (r : QueueRow) (candidate : ℕ) (a : Option AssignmentAttempt) (s : Store)
        → P s
        → P (done_or_live w candidate r a s).1
    done_or_live-Keeps r candidate none s b =
        live_or_new-Keeps r candidate (find (scoped r is_live) s.attempts) s b
    done_or_live-Keeps r candidate (some a) s b = k.without r.pk s b

    reserve_row-Keeps :
        (r : QueueRow) (candidate : ℕ) (s : Store) → P s → P (reserve_row w candidate r s).1
    unfolding reserve_row
    reserve_row-Keeps r candidate s b =
        done_or_live-Keeps r candidate (find (scoped r is_completed) s.attempts) s b

    of_queued_cycle-Keeps :
        (r : QueueRow) (candidate : ℕ) (c : Option CycleEntry) (s : Store)
        → P s
        → P (of_queued_cycle w candidate r c s).1
    of_queued_cycle-Keeps r candidate none s b = b
    of_queued_cycle-Keeps r candidate (some c) s b =
        if_elim (λ (t : Turn × Store). P t.1) (is_queued_cycle c.state) _ _
          (λ t. reserve_row-Keeps r candidate s b) (λ t. k.rows _ s b)

    check_cycle-Keeps :
        (r : QueueRow) (candidate : ℕ) (c : Option ℕ) (s : Store)
        → P s
        → P (check_cycle w candidate r c s).1
    unfolding check_cycle
    check_cycle-Keeps r candidate (some c) s b =
        of_queued_cycle-Keeps r candidate (cycle_of c s) s b
    check_cycle-Keeps r candidate none s b =
        if_elim (λ (t : Turn × Store). P t.1) (any (has_completed r.ticket_id) s.attempts) _ _
          (λ t. k.rows _ s b) (λ t. reserve_row-Keeps r candidate s b)

    on_row-Keeps :
        (candidate : ℕ) (r : Option QueueRow) (s : Store) → P s → P (on_row w candidate r s).1
    on_row-Keeps candidate none s b = b
    on_row-Keeps candidate (some r) s b =
        maybe_elim (λ (t : Turn × Store). P t.1) _
          (λ recheck. (answers (deferred_to_cohort r), postponed recheck r s)) (w.barrier r)
          (check_cycle-Keeps r candidate r.cycle_id s b) (λ recheck e. k.rows _ s b)

    deferred-Keeps : (r : Option QueueRow) (s : Store) → P s → P (deferred w.now r s).1
    deferred-Keeps none s b = b
    deferred-Keeps (some r) s b = k.rows _ s b

    module _ (ticket : Option Text) (excluded : List ℕ)
        (quiet : (s : Store) → P s → P (w.meanwhile s)) where
      give_up-Keeps :
          (reason : ReservationReason) (s : Store) → P s → P (give_up w reason ticket excluded s).1
      unfolding defer_without_candidate
      give_up-Keeps reason s b =
          deferred-Keeps (earliest (select (is_candidate_row ticket excluded) s.rows)) s b

      after_turn-Keeps :
          (t : Turn) (s : Store) (rest : Result Fault Reservation × Store)
          → P s
          → P rest.1
          → P (after_turn t s rest).1
      after_turn-Keeps (answers r) s rest b c = b
      after_turn-Keeps (raises f) s rest b c = b
      after_turn-Keeps continues s rest b c = c

      reserve_from-Keeps :
          (cs : List ℕ) (s : Store) → P s → P (reserve_from w ticket excluded cs s).1
      unfolding reserve_from on_candidate
      reserve_from-Keeps [] s b = give_up-Keeps candidate_changed (w.meanwhile s) (quiet s b)
      reserve_from-Keeps (c ∷ cs) s b =
          let t = on_candidate w ticket excluded c (w.meanwhile s) in
          let b' : P t.1 =
            on_row-Keeps c (ready_row w.locked w.now ticket excluded (w.meanwhile s))
              (w.meanwhile s) (quiet s b) in
          after_turn-Keeps t.0 t.1 (reserve_from w ticket excluded cs t.1) b'
            (reserve_from-Keeps cs t.1 b')

      with_candidates-Keeps :
          (cs : List ℕ) (s : Store) → P s → P (with_candidates w ticket excluded cs s).1
      with_candidates-Keeps [] s b = give_up-Keeps no_eligible_candidate (w.meanwhile s) (quiet s b)
      with_candidates-Keeps (c ∷ cs) s b = reserve_from-Keeps (c ∷ cs) s b

      prechecked-Keeps :
          (r : Option QueueRow) (s : Store) → P s → P (prechecked w ticket excluded r s).1
      prechecked-Keeps none s b = b
      prechecked-Keeps (some r) s b =
          maybe_elim (λ (t : Result Fault Reservation × Store). P t.1) _
            (λ recheck. (ok (deferred_to_cohort r), postponed recheck r s)) (w.barrier r)
            (with_candidates-Keeps w.candidates s b) (λ recheck e. k.rows _ s b)

      pub reserve_next_assignment-Keeps :
          (s : Store) → P s → P (reserve_next_assignment w ticket excluded s).1
      unfolding reserve_next_assignment
      reserve_next_assignment-Keeps s b =
          prechecked-Keeps (ready_row w.locked w.now ticket excluded s) s b
