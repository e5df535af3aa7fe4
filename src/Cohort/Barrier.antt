-- ===== src/Cohort/Barrier.antt =====
-- The barrier over the tables: evaluate_opening_cohort_barrier and finalize_opening_assignment_cohort.
use judah.Prelude.{
  ℕ, Bool, true, false, Option, none, some, List, ◌∷◌, ◌++◌, find, modify, leb, ◌==◌, if◌then◌else◌,
  Result, ok, err, find_by, maybe,
}
use judah.Queue.{Agent}
use judah.Calendar.Resolve.{OperationalWindow}
use judah.Assignment.{QueueRow}
use judah.Cohort.{
  Mode, mode_off, shadow, CohortSettings, CohortState, active, released, ReleaseReason, all_settled,
  deadline, Cohort, candidate_snapshots, stabilizing_member_count, cohort_defaults,
}

pub data CohortBarrierOutcome : Type 0 where
  not_applicable shadow_would_defer deferred released_all_settled released_deadline :
      CohortBarrierOutcome

pub record CohortBarrierDecision : Type 0 where
  pub outcome : CohortBarrierOutcome
  pub cohort_id : Option ℕ
  pub recheck_at : Option ℕ
  pub released_now : Bool

-- The tables that the barrier works on
pub record Tables : Type 0 where
  pub cohorts : List Cohort
  pub agents : List Agent
  pub rows : List QueueRow

abbrev pub is_deferred : CohortBarrierOutcome → Bool
is_deferred deferred = true
is_deferred o = false

abbrev pub inapplicable : CohortBarrierDecision
inapplicable = record {
  outcome = not_applicable;
  cohort_id = none;
  recheck_at = none;
  released_now = false;
}

abbrev pub decision : CohortBarrierOutcome → Bool → Cohort → CohortBarrierDecision
decision o now c = record {
  outcome = o;
  cohort_id = some c.pk;
  recheck_at = some c.recheck_at;
  released_now = now;
}

abbrev pub starts_at : ℕ → Cohort → Bool
starts_at start c = c.window_started_at == start

-- A cohort whose creation the unique start of its window forbids is read instead; the flag tells whether
-- it was created.
abbrev pub create_or_read : ℕ → List Cohort → List Cohort → Cohort → (Cohort × Bool) × List Cohort
create_or_read start others cohorts c =
    maybe ((c, true), c ∷ (others ++ cohorts)) (λ o. ((o, false), others ++ cohorts))
      (find (starts_at start) others)

abbrev pub opened : (Cohort × Bool) × List Cohort → Option (Cohort × Bool) × List Cohort
opened (c, cohorts) = (some c, cohorts)

-- `_locked_get_or_create`; `others` are the cohorts that other sessions insert between its read and its
-- insert.
unfoldable pub locked_get_or_create :
    ℕ → List Cohort → Option Cohort → List Cohort → Option (Cohort × Bool) × List Cohort
locked_get_or_create start others defaults cohorts =
    maybe
      (maybe (none, others ++ cohorts) (λ c. opened (create_or_read start others cohorts c))
        defaults)
      (λ c. (some (c, false), cohorts)) (find (starts_at start) cohorts)

-- `cohort.save`
abbrev pub save : Cohort → Tables → Tables
save c t = record t { cohorts = modify (λ x. x.pk) c.pk (λ x. c) t.cohorts }

-- `_release`
unfoldable pub release : ReleaseReason → ℕ → Cohort → Cohort
release reason now c = record c {
  state = released;
  release_reason = some reason;
  released_at = some now;
}

abbrev pub outcome_of : ReleaseReason → CohortBarrierOutcome
outcome_of deadline = released_deadline
outcome_of r = released_all_settled

abbrev pub released_outcome : Option ReleaseReason → CohortBarrierOutcome
released_outcome (some deadline) = released_deadline
released_outcome r = released_all_settled

-- Why a cohort that is active is released, if it is
unfoldable pub reason_to_release : List Agent → ℕ → Cohort → Option ReleaseReason
reason_to_release agents now c =
    if stabilizing_member_count agents c == 0
    then some all_settled
    else (if leb c.deadline_at now then some deadline else none)

abbrev pub scheduled_at : ℕ → Option ℕ → Option ℕ
scheduled_at now none = some now
scheduled_at now (some t) = some t

-- `_schedule_recheck`, without the message that it publishes
abbrev pub scheduled : ℕ → Cohort → Cohort
scheduled now c = record c { callback_scheduled_at = scheduled_at now c.callback_scheduled_at }

-- The row waits for the recheck.
abbrev pub postpone : ℕ → QueueRow → Tables → Tables
postpone recheck r t = record t {
  rows =
      modify (λ r. r.pk) r.pk (λ r. record r { next_assignment_attempt_at = some recheck }) t.rows;
}

abbrev pub hold : Mode → ℕ → QueueRow → Cohort → Tables → CohortBarrierDecision × Tables
hold shadow now r c t = (decision shadow_would_defer false c, save (scheduled now c) t)
hold mode now r c t =
    (decision deferred false c, postpone c.recheck_at r (save (scheduled now c) t))

abbrev pub release_or_hold :
    Mode → ℕ → QueueRow → Cohort → Tables → Option ReleaseReason → CohortBarrierDecision × Tables
release_or_hold mode now r c t (some reason) =
    (decision (outcome_of reason) false c, save (release reason now c) t)
release_or_hold mode now r c t none = hold mode now r c t

abbrev pub with_cohort :
    CohortState → Mode → ℕ → QueueRow → Cohort → Tables → CohortBarrierDecision × Tables
with_cohort released mode now r c t = (decision (released_outcome c.release_reason) false c, t)
with_cohort active mode now r c t =
    release_or_hold mode now r c t (reason_to_release t.agents now c)

abbrev pub on_cohort :
    Mode
    → ℕ
    → QueueRow
    → Tables
    → Option (Cohort × Bool) × List Cohort
    → CohortBarrierDecision × Tables
on_cohort mode now r t (none, cohorts) = (inapplicable, record t { cohorts = cohorts })
on_cohort mode now r t (some (c, is_new), cohorts) =
    with_cohort c.state mode now r c (record t { cohorts = cohorts })

abbrev pub in_window :
    CohortSettings
    → OperationalWindow
    → ℕ
    → ℕ
    → List Cohort
    → QueueRow
    → Tables
    → CohortBarrierDecision × Tables
in_window s w now fresh others r t = on_cohort s.mode now r t (
    locked_get_or_create w.start_at others
      (cohort_defaults s fresh w.start_at now (candidate_snapshots s t.agents)) t.cohorts)

-- Of a row that entered before the window opened
abbrev pub before_window :
    CohortSettings
    → Option OperationalWindow
    → ℕ
    → ℕ
    → List Cohort
    → QueueRow
    → Tables
    → CohortBarrierDecision × Tables
before_window s none now fresh others r t = (inapplicable, t)
before_window s (some w) now fresh others r t =
    if leb w.start_at r.entered_queue_at
    then (inapplicable, t)
    else in_window s w now fresh others r t

abbrev pub unless_off :
    Mode
    → CohortBarrierDecision × Tables
    → CohortBarrierDecision × Tables
    → CohortBarrierDecision × Tables
unless_off mode_off was k = was
unless_off mode was k = k

-- `evaluate_opening_cohort_barrier`, with the window that the calendar resolves
unfoldable pub evaluate_barrier :
    CohortSettings
    → Option OperationalWindow
    → ℕ
    → ℕ
    → List Cohort
    → QueueRow
    → Tables
    → CohortBarrierDecision × Tables
evaluate_barrier s w now fresh others r t =
    unless_off s.mode (inapplicable, t) (before_window s w now fresh others r t)

pub data FinalizeError : Type 0 where
  forbidden : FinalizeError

abbrev pub finalize_active :
    ℕ → Cohort → Tables → Option ReleaseReason → CohortBarrierDecision × Tables
finalize_active now c t (some reason) =
    (decision (outcome_of reason) true c, save (release reason now c) t)
finalize_active now c t none = (decision deferred false c, t)

abbrev pub finalize_in : CohortState → ℕ → Cohort → Tables → CohortBarrierDecision × Tables
finalize_in released now c t = (decision (released_outcome c.release_reason) false c, t)
finalize_in active now c t = finalize_active now c t (reason_to_release t.agents now c)

-- `finalize_opening_assignment_cohort`, where the runtime has the authority to write or not
unfoldable pub finalize_cohort :
    Bool → ℕ → ℕ → Tables → Result FinalizeError (CohortBarrierDecision × Tables)
finalize_cohort may_write id now t =
    if may_write
    then ok (
        maybe (inapplicable, t) (λ c. finalize_in c.state now c t)
          (find_by (λ c. c.pk) id t.cohorts))
    else err forbidden
