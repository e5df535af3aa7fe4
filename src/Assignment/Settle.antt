-- ===== src/Assignment/Settle.antt =====
-- How an attempt is settled: the record of a confirmed owner, the finalization and the compensation.
-- A transaction that raises leaves the tables as they were.
use judah.Prelude.{
  ℕ, ◌+◌, ◌-◌, ◌*◌, ◌^◌, min, Bool, ◌&&◌, ◌||◌, not, Option, none, some, List, [], ◌∷◌, Text,
  text_eq, ltb, ◌==◌, if◌then◌else◌, Result, ok, err, is_some, get_or, count, maybe,
}
use judah.Cycle
use judah.Queue.{Agent}
use judah.Assignment.{
  AssignmentAttempt, AttemptState, reserved, external_applied, completed, compensated, retryable,
  repair_required, ErrorCode, QueueRow, queued, failed, CycleEntry, AssignedRow, LogRow, Store,
  Fault, does_not_exist, cannot_record, not_externally_applied, belongs_to_stale_cycle,
  multiple_rows, attempt_of, cycle_of, write_row, write_attempt, write_agent, write_cycle,
  is_queued_cycle, same_option,
}
use judah.Assignment.Reserve.{delete_row}

abbrev pub Outcome : Type 0
Outcome = Result Fault (Unit {0}) × Store

abbrev pub fails : Fault → Store → Outcome
fails f s = (err f, s)

abbrev pub done : Store → Outcome
done s = (ok tt, s)

abbrev pub applied_at : ℕ → AssignmentAttempt → AssignmentAttempt
applied_at now a = record a {
  state = external_applied;
  external_applied_at = some (get_or a.external_applied_at now);
  last_error_code = none;
}

abbrev pub mark_in : AttemptState → ℕ → ℕ → Store → Outcome
mark_in completed now id s = done s
mark_in reserved now id s = done (write_attempt id (applied_at now) s)
mark_in external_applied now id s = done (write_attempt id (applied_at now) s)
mark_in repair_required now id s = done (write_attempt id (applied_at now) s)
mark_in state now id s = fails cannot_record s

abbrev pub on_attempt : (AssignmentAttempt → Store → Outcome) → ℕ → Store → Outcome
on_attempt f id s = maybe (fails does_not_exist s) (λ a. f a s) (attempt_of id s)

-- `_mark_external_applied`
unfoldable pub mark_external_applied : ℕ → ℕ → Store → Outcome
mark_external_applied now id = on_attempt (λ a. mark_in a.state now id) id

-- The lookup of `update_or_create` for the conversation: by the cycle, or else by the ticket
abbrev pub fits : Option ℕ → Text → AssignedRow → Bool
fits (some c) ticket r = same_option r.cycle_id (some c)
fits none ticket r = text_eq r.ticket_id ticket

abbrev pub is_same_assignment : AssignmentAttempt → AssignedRow → Bool
is_same_assignment a = fits a.cycle_id a.ticket_id

-- `update_or_create`: the first row that fits is replaced, or a row is added.
unfoldable pub upsert {ℓ} : {A : Type ℓ} → (A → Bool) → A → List A → List A
upsert p row [] = row ∷ []
upsert p row (x ∷ xs) = if p x then row ∷ xs else x ∷ upsert p row xs

abbrev pub assigned_row : ℕ → AssignmentAttempt → AssignedRow
assigned_row now a = record {
  ticket_id = a.ticket_id;
  cycle_id = a.cycle_id;
  agent = a.selected_agent;
  hubspot_owner_id = a.desired_hubspot_owner_id;
  assigned_at = now;
}

abbrev pub log_row : AssignmentAttempt → LogRow
log_row a = record {
  attempt = a.pk;
  agent = a.selected_agent;
  hubspot_owner_id = a.desired_hubspot_owner_id;
}

abbrev pub finalized : ℕ → AssignmentAttempt → AssignmentAttempt
finalized now a = record a { state = completed; finalized_at = some now; next_retry_at = none }

abbrev pub delete_row_of : Option ℕ → Store → Store
delete_row_of none s = s
delete_row_of (some r) s = delete_row r s

abbrev pub assign_cycle : Option ℕ → Store → Store
assign_cycle none s = s
assign_cycle (some c) s = write_cycle c (λ e. record e { state = Cycle.assigned }) s

-- The writes of the finalization
unfoldable pub finalize_writes : ℕ → AssignmentAttempt → Store → Store
finalize_writes now a s =
    let recorded : Store = record s {
      assigned_rows = upsert (is_same_assignment a) (assigned_row now a) s.assigned_rows;
      logs = upsert (λ l. l.attempt == a.pk) (log_row a) s.logs;
      total_assignments = λ agent.
          if a.selected_agent == agent
          then s.total_assignments agent + 1
          else s.total_assignments agent;
    } in
    assign_cycle a.cycle_id
      (write_attempt a.pk (finalized now) (delete_row_of a.queue_row recorded))

abbrev pub unique_assignment : ℕ → AssignmentAttempt → Store → Outcome
unique_assignment now a s =
    if ltb 1 (count (is_same_assignment a) s.assigned_rows)
    then fails multiple_rows s
    else done (finalize_writes now a s)

abbrev pub of_cycle_entry : ℕ → AssignmentAttempt → Option CycleEntry → Store → Outcome
of_cycle_entry now a none s = fails does_not_exist s
of_cycle_entry now a (some c) s =
    if is_queued_cycle c.state then unique_assignment now a s else fails belongs_to_stale_cycle s

abbrev pub of_cycle : ℕ → AssignmentAttempt → Option ℕ → Store → Outcome
of_cycle now a none s = unique_assignment now a s
of_cycle now a (some c) s = of_cycle_entry now a (cycle_of c s) s

abbrev pub finalize_in : AttemptState → ℕ → AssignmentAttempt → Store → Outcome
finalize_in completed now a s = done s
finalize_in external_applied now a s = of_cycle now a a.cycle_id s
finalize_in state now a s = fails not_externally_applied s

-- `finalize_assignment_attempt`
unfoldable pub finalize_assignment_attempt : ℕ → ℕ → Store → Outcome
finalize_assignment_attempt now = on_attempt (λ a. finalize_in a.state now a)

-- The keyword arguments of the compensation
pub record Compensation : Type 0 where
  pub is_retryable : Bool
  pub error_code : ErrorCode
  pub quarantine : Bool
  pub needs_repair : Bool

-- `min(60 * 2 ** min(max(retry_count - 1, 0), 5), 1800)` seconds
unfoldable pub retry_backoff : ℕ → ℕ
retry_backoff retry_count = min (60_000_000 * 2 ^ min (retry_count - 1) 5) 1_800_000_000

-- The count and the time of a first compensation
abbrev pub first_compensated : ℕ → AssignmentAttempt → AssignmentAttempt
first_compensated now a =
    if is_some a.compensated_at
    then a
    else record a { compensated_at = some now; retry_count = a.retry_count + 1 }

abbrev pub state_after : Compensation → AttemptState
state_after c =
    if c.needs_repair then repair_required else (if c.is_retryable then retryable else compensated)

abbrev pub retry_at : ℕ → Compensation → AssignmentAttempt → Option ℕ
retry_at now c a =
    if not c.needs_repair && c.is_retryable then some (now + retry_backoff a.retry_count) else none

unfoldable pub compensated_attempt : ℕ → Compensation → AssignmentAttempt → AssignmentAttempt
compensated_attempt now c a = record (first_compensated now a) {
  compensation_started_at = some (get_or a.compensation_started_at now);
  last_error_code = some c.error_code;
  state = state_after c;
  next_retry_at = retry_at now c (first_compensated now a);
}

abbrev pub released : ℕ → Agent → Agent
released now a = record a {
  current_simultaneous_chats = a.current_simultaneous_chats - 1;
  updated_at = some now;
}

unfoldable pub requeued : ℕ → Compensation → Option ℕ → QueueRow → QueueRow
requeued now c next r = record r {
  claim_owner_token = none;
  claim_expires_at = none;
  claimed_at = none;
  last_assignment_attempt_at = some now;
  next_assignment_attempt_at = next;
  failure_code = some c.error_code;
  queue_status = if c.quarantine then failed else queued;
}

abbrev pub is_of_attempt : AssignmentAttempt → QueueRow → Bool
is_of_attempt a r = not (is_some a.cycle_id) || same_option r.cycle_id a.cycle_id

-- The row goes back to the queue, unless it belongs to another cycle by now.
abbrev pub requeue : ℕ → Compensation → AssignmentAttempt → Option ℕ → Store → Store
requeue now c a none s = s
requeue now c a (some r) s =
    let next = (compensated_attempt now c a).next_retry_at in
    write_row r (λ row. if is_of_attempt a row then requeued now c next row else row) s

-- The chat is given back once.
abbrev pub release_agent : ℕ → AssignmentAttempt → Store → Store
release_agent now a s =
    if is_some a.compensated_at then s else write_agent a.selected_agent (released now) s

unfoldable pub compensate_writes : ℕ → Compensation → AssignmentAttempt → Store → Store
compensate_writes now c a s =
    write_attempt a.pk (compensated_attempt now c)
      (requeue now c a a.queue_row (release_agent now a s))

abbrev pub compensate_in : AttemptState → ℕ → Compensation → AssignmentAttempt → Store → Outcome
compensate_in completed now c a s = done s
compensate_in compensated now c a s = done s
compensate_in state now c a s =
    if is_some a.compensated_at && (c.is_retryable || c.needs_repair)
    then done s
    else done (compensate_writes now c a s)

-- `compensate_assignment_attempt`
unfoldable pub compensate_assignment_attempt : ℕ → Compensation → ℕ → Store → Outcome
compensate_assignment_attempt now c = on_attempt (λ a. compensate_in a.state now c a)
