-- ===== src/Assignment/Repair.antt =====
-- The retry of an attempt, and the repair of a batch.
use judah.Prelude.{
  ℕ, ◌+◌, Bool, true, false, ◌&&◌, Option, none, some, List, [], ◌∷◌, leb, if◌then◌else◌, Result,
  ok, err, maybe,
}
use judah.Matchmaker.Durable
use judah.Matchmaker.Durable.{Execution}
use judah.Queue.{Agent, QueueSettings}
use judah.Queue.Eligibility.{evaluate_persisted_agent}
use judah.Assignment.{
  AssignmentAttempt, AttemptState, reserved, external_applied, completed, retryable,
  repair_required, unexpected, Store, Fault, does_not_exist, attempt_of, agent_of, cycle_of,
  write_attempt, write_agent, is_queued_cycle,
}
use judah.Assignment.Reserve.{occupied}
use judah.Assignment.Effect.{
  Provider, Effect, execute_assignment_attempt, reconcile_ambiguous_attempt,
}

-- What a retry meets before it executes: the eligibility settings, and the verdict of HubSpot.
pub record Verdicts : Type 0 where
  pub settings : QueueSettings
  pub remote_allows : Bool

abbrev pub is_retryable : AttemptState → Bool
is_retryable retryable = true
is_retryable s = false

-- What a retry returns: that of the execution, or the state in which the attempt remains.
pub data Retried : Type 0 where
  executes : Execution → Retried
  remains : AttemptState → Retried

abbrev pub RetryEffect : Type 0
RetryEffect = Result Fault Retried × Store

abbrev pub executing : Effect → RetryEffect
executing (ok e, s) = (ok (executes e), s)
executing (err f, s) = (err f, s)

unfoldable pub re_reserved : ℕ → AssignmentAttempt → AssignmentAttempt
re_reserved now a = record a {
  state = reserved;
  reserved_at = now;
  compensation_started_at = none;
  compensated_at = none;
  next_retry_at = none;
}

abbrev pub is_eligible_agent : Verdicts → ℕ → Agent → Bool
is_eligible_agent v now a = (evaluate_persisted_agent v.settings now a).allowed

-- The transaction of the retry, then the execution
abbrev pub reserve_again :
    Verdicts → Provider → AssignmentAttempt → Option Agent → Store → RetryEffect
reserve_again v p a none s = (err does_not_exist, s)
reserve_again v p a (some agent) s =
    if is_retryable a.state && is_eligible_agent v p.now agent
    then executing (
        execute_assignment_attempt p a.pk
          (write_attempt a.pk (re_reserved p.now) (write_agent agent.pk (occupied p.now) s)))
    else (ok (remains a.state), s)

abbrev pub on_attempt_row : ℕ → (AssignmentAttempt → Store → RetryEffect) → Store → RetryEffect
on_attempt_row id k s = maybe (err does_not_exist, s) (λ a. k a s) (attempt_of id s)

abbrev pub re_read : Verdicts → Provider → ℕ → Store → RetryEffect
re_read v p id = on_attempt_row id λ a s. reserve_again v p a (agent_of a.selected_agent s) s

-- The vetoes, outside of the transaction
abbrev pub vetoed : Verdicts → Provider → AssignmentAttempt → Option Agent → Store → RetryEffect
vetoed v p a none s = (err does_not_exist, s)
vetoed v p a (some agent) s =
    if is_eligible_agent v p.now agent && v.remote_allows
    then re_read v p a.pk (p.meanwhile s)
    else (ok (remains retryable), s)

abbrev pub unless_stale : Option ℕ → RetryEffect → Store → RetryEffect
unless_stale none k s = k
unless_stale (some c) k s =
    maybe (err does_not_exist, s)
      (λ e. if is_queued_cycle e.state then k else (ok (executes Durable.stale_cycle), s))
      (cycle_of c s)

-- `retry_assignment_attempt`
unfoldable pub retry_assignment_attempt : Verdicts → Provider → ℕ → Store → RetryEffect
retry_assignment_attempt v p id = on_attempt_row id λ a s.
    if is_retryable a.state
    then unless_stale a.cycle_id (vetoed v p a (agent_of a.selected_agent s) s) s
    else (ok (remains a.state), s)

abbrev pub has_come : ℕ → Option ℕ → Bool
has_come now none = false
has_come now (some t) = leb t now

-- The states that a repair takes up; `updated_at` of the attempt is an argument.
abbrev pub is_stuck : AttemptState → ℕ → ℕ → ℕ → AssignmentAttempt → Bool
is_stuck external_applied now stale_before updated_at a = leb updated_at stale_before
is_stuck retryable now stale_before updated_at a = has_come now a.next_retry_at
is_stuck reserved now stale_before updated_at a = leb a.reserved_at stale_before
is_stuck repair_required now stale_before updated_at a = leb updated_at stale_before
is_stuck state now stale_before updated_at a = false

unfoldable pub needs_repair : ℕ → ℕ → (ℕ → ℕ) → AssignmentAttempt → Bool
needs_repair now stale_before updated_at a = is_stuck a.state now stale_before (updated_at a.pk) a

pub record RepairCounts : Type 0 where
  pub completed_count : ℕ
  pub retryable_count : ℕ
  pub repair_count : ℕ
  pub conflict : ℕ
  pub failed_unexpected : ℕ
  pub stale_count : ℕ

abbrev pub tallied : Retried → RepairCounts → RepairCounts
tallied (executes Durable.assigned) c = record c { completed_count = c.completed_count + 1 }
tallied (executes Durable.repair_required) c = record c { repair_count = c.repair_count + 1 }
tallied (executes Durable.stale_cycle) c = record c { stale_count = c.stale_count + 1 }
tallied (remains completed) c = record c { completed_count = c.completed_count + 1 }
tallied (remains repair_required) c = record c { repair_count = c.repair_count + 1 }
tallied (remains retryable) c = record c { retryable_count = c.retryable_count + 1 }
tallied r c = c

-- The transaction on one attempt
abbrev pub repair_locked : Verdicts → Provider → AssignmentAttempt → Store → RetryEffect
repair_locked v p a s =
    if is_retryable a.state
    then retry_assignment_attempt v p a.pk s
    else executing (reconcile_ambiguous_attempt p none a.pk s)

abbrev pub give_in : AssignmentAttempt → AssignmentAttempt
give_in a = record a { state = repair_required; last_error_code = some unexpected }

-- An exception rolls the transaction back to what other sessions have made of the store, and leaves the
-- attempt to a later repair.
abbrev pub settled : ℕ → Store → RepairCounts → RetryEffect → RepairCounts × Store
settled id others c (ok e, s) = (tallied e c, s)
settled id others c (err f, s) =
    (record c { failed_unexpected = c.failed_unexpected + 1 }, write_attempt id give_in others)

-- One attempt of the batch; `none` where it is gone or another session locks it.
unfoldable pub repair_one :
    Verdicts → Provider → ℕ → Option AssignmentAttempt → RepairCounts → Store → RepairCounts × Store
repair_one v p id none c s = (record c { conflict = c.conflict + 1 }, s)
repair_one v p id (some a) c s = settled id (p.meanwhile s) c (repair_locked v p a s)

-- The loop of `repair_assignment_attempts` over the attempts it scanned; what each meets is its own.
unfoldable pub repair_batch :
    (ℕ → Verdicts)
    → (ℕ → Provider)
    → (ℕ → Bool)
    → List ℕ
    → RepairCounts
    → Store
    → RepairCounts × Store
repair_batch v p is_skipped [] c s = (c, s)
repair_batch v p is_skipped (id ∷ ids) c s =
    let found = if is_skipped id then none else attempt_of id s in
    let (c', s') = repair_one (v id) (p id) id found c s in repair_batch v p is_skipped ids c' s'
