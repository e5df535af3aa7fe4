-- ===== src/Assignment/Reserve.antt =====
-- `reserve_next_assignment`: the claim of the earliest ready row and the reservation of an agent.
use judah.Prelude.{
  ℕ, ◌+◌, Bool, true, false, ◌&&◌, Option, none, some, List, [], ◌∷◌, Text, text_eq, map, remove_by,
  any, find, ltb, ◌==◌, if◌then◌else◌, Result, ok, err, maybe,
}
use judah.Matchmaker.Durable
use judah.Matchmaker.Durable.{
  ReservationReason, Reservation, queue_empty_or_claimed, skipped_stale_cycle, candidate_changed,
  deferred_stabilizing_cohort, completed_same_cycle, existing_attempt, no_eligible_candidate,
}
use judah.Queue.{Agent, QueueSettings}
use judah.Queue.Eligibility.{evaluate_persisted_agent, limit_of}
use judah.Assignment.{
  AssignmentAttempt, AttemptState, reserved, stale_cycle, legacy_cycle_ambiguous, is_live,
  is_completed, QueueRow, failed, Store, Fault, does_not_exist, integrity_error, agent_of, cycle_of,
  write_row, write_agent, CycleEntry, ErrorCode, is_queued_cycle, in_scope, IdempotencyKey,
  idempotency_key_of, same_key,
}
use judah.Assignment.Ready.{ready_row, defer_without_candidate}

-- What a call meets: its clock readings, the recheck to which the opening barrier defers a row, the candidates
-- that `_verify_candidates` passed in order, the rows that other sessions lock, what they write
-- between two of its transactions, and the keys that are drawn for a claim and for an attempt.
pub record Surroundings : Type 0 where
  pub now : ℕ
  pub settings : QueueSettings
  pub barrier : QueueRow → Option ℕ
  pub candidates : List ℕ
  pub locked : ℕ → Bool
  pub meanwhile : Store → Store
  pub claim_ttl : ℕ
  pub claim_token : ℕ
  pub fresh : ℕ

abbrev pub without_attempt : ReservationReason → Option ℕ → Reservation
without_attempt reason row = record { attempt = none; reason = reason; queue_row_id = row }

abbrev pub is_reserved : AttemptState → Bool
is_reserved reserved = true
is_reserved s = false

-- The attempt as the caller reads it
abbrev pub seen_attempt : AssignmentAttempt → Durable.Attempt
seen_attempt a = record { pk = a.pk; is_reserved = is_reserved a.state }

abbrev pub with_attempt : ReservationReason → QueueRow → AssignmentAttempt → Reservation
with_attempt reason r a = record {
  attempt = some (seen_attempt a);
  reason = reason;
  queue_row_id = some r.pk;
}

abbrev pub quarantined : ErrorCode → QueueRow → QueueRow
quarantined code r = record r { queue_status = failed; failure_code = some code }

abbrev pub same_row : ℕ → Option ℕ → Bool
same_row pk none = false
same_row pk (some r) = r == pk

-- `queue_row.delete()`: the attempts of the row lose it (`SET_NULL`).
unfoldable pub delete_row : ℕ → Store → Store
delete_row pk s = record s {
  rows = remove_by (λ r. r.pk) pk s.rows;
  attempts =
      map (λ a. if same_row pk a.queue_row then record a { queue_row = none } else a) s.attempts;
}

abbrev pub claimed : Surroundings → QueueRow → QueueRow
claimed w r = record r {
  claim_owner_token = some w.claim_token;
  claimed_at = some w.now;
  claim_expires_at = some (w.now + w.claim_ttl);
  assignment_attempts = r.assignment_attempts + 1;
  last_assignment_attempt_at = some w.now;
}

-- One chat more, from now on
abbrev pub occupied : ℕ → Agent → Agent
occupied now a = record a {
  current_simultaneous_chats = a.current_simultaneous_chats + 1;
  last_assignment_at = some now;
  updated_at = some now;
}

abbrev pub new_attempt : IdempotencyKey → Surroundings → QueueRow → Agent → AssignmentAttempt
new_attempt key w r a = record {
  pk = w.fresh;
  idempotency_key = key;
  ticket_id = r.ticket_id;
  cycle_id = r.cycle_id;
  queue_row = some r.pk;
  selected_agent = a.pk;
  desired_hubspot_owner_id = a.hubspot_owner_id;
  prior_observed_owner_id = none;
  state = reserved;
  reserved_at = w.now;
  external_applied_at = none;
  finalized_at = none;
  compensation_started_at = none;
  compensated_at = none;
  retry_count = 0;
  next_retry_at = none;
  last_error_code = none;
}

abbrev pub has_key : IdempotencyKey → AssignmentAttempt → Bool
has_key k a = same_key a.idempotency_key k

-- How a transaction on one candidate ends: with an answer or an exception, or by `continue`.
pub data Turn : Type 0 where
  answers : Reservation → Turn
  raises : Fault → Turn
  continues : Turn

-- The claim, the agent's chat and the attempt, whose key is unique
unfoldable pub reserve_with :
    IdempotencyKey → Surroundings → QueueRow → Agent → Store → Turn × Store
reserve_with key w r a s =
    let attempt = new_attempt key w r a in
    if any (has_key key) s.attempts then (raises integrity_error, s) else (
      answers (with_attempt Durable.reserved r attempt),
      record (write_agent a.pk (occupied w.now) (write_row r.pk (claimed w) s)) {
        attempts = attempt ∷ s.attempts;
      },
    )

abbrev pub reserve_agent : Surroundings → QueueRow → Agent → Store → Turn × Store
reserve_agent w r a s = reserve_with (idempotency_key_of r.cycle_id r.ticket_id) w r a s

abbrev pub is_allowed_now : Surroundings → Agent → Bool
is_allowed_now w a =
    if w.settings.absence_safe_enforced
    then (evaluate_persisted_agent w.settings w.now a).allowed
    else ltb a.current_simultaneous_chats (limit_of a.max_simultaneous_chats)

abbrev pub try_agent : Surroundings → QueueRow → Option Agent → Store → Turn × Store
try_agent w r none s = (raises does_not_exist, s)
try_agent w r (some a) s = if is_allowed_now w a then reserve_agent w r a s else (continues, s)

abbrev pub scoped : QueueRow → (AttemptState → Bool) → AssignmentAttempt → Bool
scoped r in_state a = in_scope r.cycle_id r.ticket_id a && in_state a.state

abbrev pub live_or_new :
    Surroundings → ℕ → QueueRow → Option AssignmentAttempt → Store → Turn × Store
live_or_new w candidate r (some a) s = (answers (with_attempt existing_attempt r a), s)
live_or_new w candidate r none s = try_agent w r (agent_of candidate s) s

abbrev pub done_or_live :
    Surroundings → ℕ → QueueRow → Option AssignmentAttempt → Store → Turn × Store
done_or_live w candidate r (some a) s =
    (answers (with_attempt completed_same_cycle r a), delete_row r.pk s)
done_or_live w candidate r none s = live_or_new w candidate r (find (scoped r is_live) s.attempts) s

-- From the check for an attempt that was completed before
unfoldable pub reserve_row : Surroundings → ℕ → QueueRow → Store → Turn × Store
reserve_row w candidate r s = done_or_live w candidate r (find (scoped r is_completed) s.attempts) s

abbrev pub has_completed : Text → AssignmentAttempt → Bool
has_completed ticket a = text_eq a.ticket_id ticket && is_completed a.state

abbrev pub of_queued_cycle : Surroundings → ℕ → QueueRow → Option CycleEntry → Store → Turn × Store
of_queued_cycle w candidate r none s = (raises does_not_exist, s)
of_queued_cycle w candidate r (some c) s =
    if is_queued_cycle c.state then reserve_row w candidate r s else (
      answers (without_attempt skipped_stale_cycle (some r.pk)),
      write_row r.pk (quarantined stale_cycle) s,
    )

-- The check of the row's cycle or, without one, of the attempts that its ticket has completed
unfoldable pub check_cycle : Surroundings → ℕ → QueueRow → Option ℕ → Store → Turn × Store
check_cycle w candidate r (some c) s = of_queued_cycle w candidate r (cycle_of c s) s
check_cycle w candidate r none s =
    if any (has_completed r.ticket_id) s.attempts
    then (
      answers (without_attempt Durable.legacy_cycle_ambiguous (some r.pk)),
      write_row r.pk (quarantined legacy_cycle_ambiguous) s,
    )
    else reserve_row w candidate r s

abbrev pub deferred_to_cohort : QueueRow → Reservation
deferred_to_cohort r = without_attempt deferred_stabilizing_cohort (some r.pk)

-- The barrier that defers a row writes when it is tried again.
abbrev pub postponed : ℕ → QueueRow → Store → Store
postponed recheck r s =
    write_row r.pk (λ r. record r { next_assignment_attempt_at = some recheck }) s

abbrev pub on_row : Surroundings → ℕ → Option QueueRow → Store → Turn × Store
on_row w candidate none s = (answers (without_attempt queue_empty_or_claimed none), s)
on_row w candidate (some r) s =
    maybe (check_cycle w candidate r r.cycle_id s)
      (λ recheck. (answers (deferred_to_cohort r), postponed recheck r s)) (w.barrier r)

-- The transaction on one candidate
unfoldable pub on_candidate : Surroundings → Option Text → List ℕ → ℕ → Store → Turn × Store
on_candidate w ticket excluded candidate s =
    on_row w candidate (ready_row w.locked w.now ticket excluded s) s

abbrev pub give_up :
    Surroundings
    → ReservationReason
    → Option Text
    → List ℕ
    → Store
    → Result Fault Reservation × Store
give_up w reason ticket excluded s =
    let (row, s') = defer_without_candidate w.now ticket excluded s in
    (ok (without_attempt reason row), s')

abbrev pub after_turn :
    Turn → Store → Result Fault Reservation × Store → Result Fault Reservation × Store
after_turn (answers r) s rest = (ok r, s)
after_turn (raises f) s rest = (err f, s)
after_turn continues s rest = rest

-- The loop over the candidates
unfoldable pub reserve_from :
    Surroundings → Option Text → List ℕ → List ℕ → Store → Result Fault Reservation × Store
reserve_from w ticket excluded [] s = give_up w candidate_changed ticket excluded (w.meanwhile s)
reserve_from w ticket excluded (c ∷ cs) s =
    let (turn, s') = on_candidate w ticket excluded c (w.meanwhile s) in
    after_turn turn s' (reserve_from w ticket excluded cs s')

abbrev pub with_candidates :
    Surroundings → Option Text → List ℕ → List ℕ → Store → Result Fault Reservation × Store
with_candidates w ticket excluded [] s =
    give_up w no_eligible_candidate ticket excluded (w.meanwhile s)
with_candidates w ticket excluded (c ∷ cs) s = reserve_from w ticket excluded (c ∷ cs) s

abbrev pub prechecked :
    Surroundings → Option Text → List ℕ → Option QueueRow → Store → Result Fault Reservation × Store
prechecked w ticket excluded none s = (ok (without_attempt queue_empty_or_claimed none), s)
prechecked w ticket excluded (some r) s =
    maybe (with_candidates w ticket excluded w.candidates s)
      (λ recheck. (ok (deferred_to_cohort r), postponed recheck r s)) (w.barrier r)

unfoldable pub reserve_next_assignment :
    Surroundings → Option Text → List ℕ → Store → Result Fault Reservation × Store
reserve_next_assignment w ticket excluded s =
    prechecked w ticket excluded (ready_row w.locked w.now ticket excluded s) s
