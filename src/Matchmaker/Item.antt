-- ===== src/Matchmaker/Item.antt =====
-- `process_queue_item` and its facade `matchmaker_assign_next`.
use judah.Prelude.{ℕ, Bool, true, false, not, Option, none, some, List, [], if◌then◌else◌}
use judah.Matchmaker.Durable
use judah.Matchmaker.Durable.{
  ReservationReason, queue_empty_or_claimed, legacy_cycle_ambiguous, skipped_stale_cycle,
  candidate_changed, deferred_stabilizing_cohort, capacity_not_ready, completed_same_cycle, Attempt,
  Reservation, Execution, Durable,
}

pub data QueueItemOutcome : Type 0 where
  assigned_new_effect converged_completed converged_external_owner : QueueItemOutcome
  quarantined_legacy_ambiguous quarantined_stale_cycle : QueueItemOutcome
  quarantined_permanent_provider_error deferred_no_agent : QueueItemOutcome
  deferred_candidate_changed deferred_provider_transient : QueueItemOutcome
  deferred_stabilizing_cohort_item deferred_capacity_not_ready : QueueItemOutcome
  claimed_elsewhere queue_empty systemic_failure : QueueItemOutcome

-- The `cycle_id` of a result serves telemetry alone, and is left out.
pub record QueueItemResult : Type 0 where
  pub outcome : QueueItemOutcome
  pub queue_row_id : Option ℕ
  pub made_progress : Bool
  pub effect_applied : Bool

abbrev pub without_effect : QueueItemOutcome → Option ℕ → Bool → QueueItemResult
without_effect o row progress = record {
  outcome = o;
  queue_row_id = row;
  made_progress = progress;
  effect_applied = false;
}

-- The answer where the reservation holds no attempt
unfoldable pub unreserved : ReservationReason → Option ℕ → QueueItemResult
unreserved queue_empty_or_claimed row = without_effect queue_empty none false
unreserved legacy_cycle_ambiguous row = without_effect quarantined_legacy_ambiguous row true
unreserved skipped_stale_cycle row = without_effect quarantined_stale_cycle row true
unreserved candidate_changed row = without_effect deferred_candidate_changed row false
unreserved deferred_stabilizing_cohort row =
    without_effect deferred_stabilizing_cohort_item row false
unreserved capacity_not_ready row = without_effect deferred_capacity_not_ready row false
unreserved r row = without_effect deferred_no_agent row false

abbrev pub is_completed : ReservationReason → Bool
is_completed completed_same_cycle = true
is_completed r = false

abbrev pub is_assigned : Execution → Bool
is_assigned Durable.assigned = true
is_assigned e = false

-- The dictionary from what the execution returns, with its exception for an effect that was there
unfoldable pub typed_outcome : Bool → Execution → QueueItemOutcome
typed_outcome effect_pending Durable.assigned =
    if effect_pending then assigned_new_effect else converged_completed
typed_outcome effect_pending Durable.converged_external_owner = converged_external_owner
typed_outcome effect_pending Durable.stale_ticket = quarantined_permanent_provider_error
typed_outcome effect_pending Durable.stale_cycle = quarantined_stale_cycle
typed_outcome effect_pending Durable.retryable_external_error = deferred_provider_transient
typed_outcome effect_pending Durable.repair_required = systemic_failure
typed_outcome effect_pending e = claimed_elsewhere

unfoldable pub is_progress : QueueItemOutcome → Bool
is_progress assigned_new_effect = true
is_progress converged_completed = true
is_progress converged_external_owner = true
is_progress quarantined_permanent_provider_error = true
is_progress quarantined_stale_cycle = true
is_progress o = false

abbrev pub is_new_effect : QueueItemOutcome → Bool
is_new_effect assigned_new_effect = true
is_new_effect o = false

unfoldable pub executed : Option ℕ → QueueItemOutcome → QueueItemResult
executed row typed = record {
  outcome = typed;
  queue_row_id = row;
  made_progress = is_progress typed;
  effect_applied = is_new_effect typed;
}

module _ {W : Type 0} (d : Durable W) where
  -- The attempt is executed and, if it assigned, the conversations of the ticket follow.
  unfoldable pub execute_and_follow : Attempt → Option ℕ → W → QueueItemResult × W
  execute_and_follow attempt row w =
      let (e, w') = d.execute_assignment_attempt attempt.pk w in
      (
        executed row (typed_outcome attempt.is_reserved e),
        (if is_assigned e then d.transition_assigned_lifecycle attempt.pk w' else w'),
      )

  unfoldable pub after_reservation :
      Option Attempt → ReservationReason → Option ℕ → W → QueueItemResult × W
  after_reservation none reason row w = (unreserved reason row, w)
  after_reservation (some attempt) reason row w =
      if is_completed reason
      then (without_effect converged_completed row true, w)
      else execute_and_follow attempt row w

  unfoldable pub process_queue_item : Option ℕ → List ℕ → W → QueueItemResult × W
  process_queue_item ticket exclude w =
      if not (d.may_assign w)
      then (without_effect deferred_no_agent none false, w)
      else (let (r, w') = d.reserve_next_assignment ticket exclude w in
          after_reservation r.attempt r.reason r.queue_row_id w')

pub data AssignmentOutcome : Type 0 where
  assigned queue_was_empty no_agent locked stale_ticket : AssignmentOutcome
  retryable_external_error non_retryable_external_error : AssignmentOutcome

unfoldable pub assignment_outcome : QueueItemOutcome → AssignmentOutcome
assignment_outcome assigned_new_effect = assigned
assignment_outcome converged_completed = assigned
assignment_outcome queue_empty = queue_was_empty
assignment_outcome deferred_no_agent = no_agent
assignment_outcome deferred_candidate_changed = no_agent
assignment_outcome deferred_stabilizing_cohort_item = no_agent
assignment_outcome deferred_capacity_not_ready = no_agent
assignment_outcome quarantined_stale_cycle = stale_ticket
assignment_outcome quarantined_permanent_provider_error = stale_ticket
assignment_outcome deferred_provider_transient = retryable_external_error
assignment_outcome systemic_failure = retryable_external_error
assignment_outcome o = locked

unfoldable pub matchmaker_assign_next :
    {W : Type 0} → Durable W → Option ℕ → W → AssignmentOutcome × W
matchmaker_assign_next d ticket w =
    let (r, w') = process_queue_item d ticket [] w in (assignment_outcome r.outcome, w')
