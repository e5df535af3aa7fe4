-- ===== src/Assignment/Effect.antt =====
-- The effect of an attempt: the calls of HubSpot around the transactions, and their outcomes.
use judah.Prelude.{
  ℕ, Bool, true, false, ◌&&◌, Option, none, some, Text, if◌then◌else◌, Result, ok, err, maybe,
}
use judah.Cycle
use judah.Cycle.{CycleState}
use judah.Matchmaker.Durable
use judah.Matchmaker.Durable.{Execution}
use judah.Assignment.{
  AssignmentAttempt, AttemptState, reserved, external_applied, completed, repair_required,
  ErrorCode, stale_cycle, hubspot_provider_contract_unavailable, hubspot_ticket_not_found,
  hubspot_precondition_unreadable, stale_ticket, hubspot_manual_owner_observed,
  ambiguous_provider_result, unknown, provider, hubspot_http, owner_unreadable, owner_conflict,
  Store, Fault, does_not_exist, provider_exception, attempt_of, cycle_of, is_queued_cycle,
  same_option,
}
use judah.Assignment.Settle.{
  Outcome, Compensation, mark_external_applied, finalize_assignment_attempt,
  compensate_assignment_attempt,
}

-- The `owner_id` of a ticket: none, a text of digits, or any other text
pub data RawOwner : Type 0 where
  no_owner : RawOwner
  digits : ℕ → RawOwner
  other_text : RawOwner

abbrev pub owner_of : RawOwner → Option ℕ
owner_of no_owner = none
owner_of (digits n) = some n
owner_of other_text = none

-- `get_ticket_details`: whether the ticket is there, in the entry stage and not archived, and its owner
pub data Reading : Type 0 where
  not_found : Reading
  unreadable : Reading
  ticket : Bool → RawOwner → Reading

-- `HubSpotAPIError`; a code of `none` is "unknown".
pub record ProviderError : Type 0 where
  pub error_code : Option Text
  pub external_status : Option ℕ
  pub is_retryable : Bool

-- `assign_ticket_owner`
pub data Patch : Type 0 where
  patched : Patch
  patch_not_found : Patch
  patch_error : ProviderError → Patch
  patch_raises : Patch

-- What one call meets: its clock readings, the answers of HubSpot, and what other sessions write
-- during a call of HubSpot.
pub record Provider : Type 0 where
  pub now : ℕ
  pub assignment_allowed : Bool
  pub precondition : Reading
  pub patch : Patch
  pub readback : Reading
  pub meanwhile : Store → Store

abbrev pub Effect : Type 0
Effect = Result Fault Execution × Store

abbrev pub answer : Execution → Outcome → Effect
answer e (ok t, s) = (ok e, s)
answer e (err f, s) = (err f, s)

abbrev pub then_run : Outcome → (Store → Effect) → Effect
then_run (ok t, s) k = k s
then_run (err f, s) k = (err f, s)

abbrev pub plain : ErrorCode → Compensation
plain code = record {
  is_retryable = false;
  error_code = code;
  quarantine = false;
  needs_repair = false;
}

abbrev pub quarantining : ErrorCode → Compensation
quarantining code = record (plain code) { quarantine = true }

abbrev pub retrying : ErrorCode → Compensation
retrying code = record (plain code) { is_retryable = true }

abbrev pub repairing : ErrorCode → Compensation
repairing code = record (plain code) { needs_repair = true }

-- A compensation, and the answer after it
abbrev pub compensate_as : ℕ → Compensation → Execution → ℕ → Store → Effect
compensate_as now c e id s = answer e (compensate_assignment_attempt now c id s)

-- The owner is confirmed: the effect is recorded, then finalized.
abbrev pub confirm : ℕ → ℕ → Store → Effect
confirm now id s =
    then_run (mark_external_applied now id s)
      λ s'. answer Durable.assigned (finalize_assignment_attempt now id s')

abbrev pub named_code : Option Text → Option ℕ → ErrorCode
named_code (some t) status = provider t
named_code none (some status) = hubspot_http status
named_code none none = unknown

abbrev pub code_of : Option ProviderError → ErrorCode
code_of none = ambiguous_provider_result
code_of (some e) = named_code e.error_code e.external_status

abbrev pub may_retry : Option ProviderError → Bool
may_retry none = true
may_retry (some e) = e.is_retryable

-- `current_owner in (None, attempt.prior_observed_owner_id)`
abbrev pub is_prior : Option ℕ → AssignmentAttempt → Bool
is_prior none a = true
is_prior (some n) a = same_option (some n) a.prior_observed_owner_id

abbrev pub after_readback : ℕ → Option ProviderError → AssignmentAttempt → Reading → Store → Effect
after_readback now e a (ticket scope raw) s =
    if same_option (owner_of raw) (some a.desired_hubspot_owner_id)
    then confirm now a.pk s
    else (if is_prior (owner_of raw) a && may_retry e
        then compensate_as now (retrying (code_of e)) Durable.retryable_external_error a.pk s
        else compensate_as now (repairing (owner_conflict (code_of e))) Durable.repair_required a.pk
            s)
after_readback now e a reading s =
    compensate_as now (repairing (owner_unreadable (code_of e))) Durable.repair_required a.pk s

-- `cycle.state in (QUEUED, ASSIGNED)`
abbrev pub may_reconcile : CycleState → Bool
may_reconcile Cycle.queued = true
may_reconcile Cycle.assigned = true
may_reconcile s = false

abbrev pub of_cycle_state :
    (CycleState → Bool) → ℕ → AssignmentAttempt → CycleState → (Store → Effect) → Store → Effect
of_cycle_state test now a state k s =
    if test state then k s else compensate_as now (plain stale_cycle) Durable.stale_cycle a.pk s

-- A check of the attempt's cycle: without one it passes; a cycle that fails it is compensated.
abbrev pub checked :
    (CycleState → Bool) → ℕ → AssignmentAttempt → Option ℕ → (Store → Effect) → Store → Effect
checked test now a none k s = k s
checked test now a (some c) k s =
    maybe (err does_not_exist, s) (λ e. of_cycle_state test now a e.state k s) (cycle_of c s)

abbrev pub with_attempt : ℕ → (AssignmentAttempt → Store → Effect) → Store → Effect
with_attempt id k s = maybe (err does_not_exist, s) (λ a. k a s) (attempt_of id s)

-- `reconcile_ambiguous_attempt`
unfoldable pub reconcile_ambiguous_attempt : Provider → Option ProviderError → ℕ → Store → Effect
reconcile_ambiguous_attempt p e id = with_attempt id λ a.
    checked may_reconcile p.now a a.cycle_id
      λ s. after_readback p.now e a p.readback (p.meanwhile s)

abbrev pub not_found_as : ℕ → AssignmentAttempt → Store → Effect
not_found_as now a s =
    compensate_as now (quarantining hubspot_ticket_not_found) Durable.stale_ticket a.pk s

abbrev pub after_patch : Provider → AssignmentAttempt → Patch → Store → Effect
after_patch p a patched s = reconcile_ambiguous_attempt p none a.pk s
after_patch p a patch_not_found s = not_found_as p.now a s
after_patch p a (patch_error e) s = reconcile_ambiguous_attempt p (some e) a.pk s
after_patch p a patch_raises s = (err provider_exception, s)

abbrev pub by_owner : Provider → AssignmentAttempt → RawOwner → Store → Effect
by_owner p a no_owner s = after_patch p a p.patch (p.meanwhile s)
by_owner p a raw s =
    if same_option (owner_of raw) (some a.desired_hubspot_owner_id)
    then confirm p.now a.pk s
    else compensate_as p.now (quarantining hubspot_manual_owner_observed)
        Durable.converged_external_owner a.pk s

abbrev pub after_precondition : Provider → AssignmentAttempt → Reading → Store → Effect
after_precondition p a not_found s = not_found_as p.now a s
after_precondition p a unreadable s =
    compensate_as p.now (retrying hubspot_precondition_unreadable) Durable.retryable_external_error
      a.pk s
after_precondition p a (ticket in_scope raw) s =
    if in_scope
    then by_owner p a raw s
    else compensate_as p.now (quarantining stale_ticket) Durable.stale_ticket a.pk s

abbrev pub execute_reserved : Provider → AssignmentAttempt → Store → Effect
execute_reserved p a s =
    if p.assignment_allowed
    then after_precondition p a p.precondition (p.meanwhile s)
    else compensate_as p.now (retrying hubspot_provider_contract_unavailable)
        Durable.retryable_external_error a.pk s

-- After the checks for a completed attempt and a stale cycle; a state that is not executed is the answer.
abbrev pub execute_in : AttemptState → Provider → AssignmentAttempt → Store → Effect
execute_in external_applied p a s = reconcile_ambiguous_attempt p none a.pk s
execute_in reserved p a s = execute_reserved p a s
execute_in repair_required p a s = (ok Durable.repair_required, s)
execute_in state p a s = (ok Durable.other_execution, s)

abbrev pub unless_completed : AttemptState → Effect → Effect → Effect
unless_completed completed was k = was
unless_completed state was k = k

-- `_execute_assignment_attempt`
unfoldable pub execute_assignment_attempt : Provider → ℕ → Store → Effect
execute_assignment_attempt p id = with_attempt id λ a s.
    unless_completed a.state (ok Durable.assigned, s)
      (checked is_queued_cycle p.now a a.cycle_id (execute_in a.state p a) s)
