-- ===== src/Matchmaker/Durable.antt =====
-- What apps/support/matchmaker_service.py calls: the durable protocol
-- (apps/support/durable_assignment_service.py), the switches of the runtime and the database, over
-- any type of worlds that these read and change.
use judah.Prelude.{ℕ, Bool, true, false, Option, none, some, List, contains, ◌≡◌}

-- `ReservationReason`; `other_reason` is any other text.
pub data ReservationReason : Type 0 where
  queue_empty_or_claimed legacy_cycle_ambiguous skipped_stale_cycle : ReservationReason
  candidate_changed deferred_stabilizing_cohort capacity_not_ready : ReservationReason
  completed_same_cycle existing_attempt no_eligible_candidate reserved : ReservationReason
  other_reason : ReservationReason

-- What the code reads of an `AssignmentAttempt`: its key, and whether its state is "reserved".
pub record Attempt : Type 0 where
  pub pk : ℕ
  pub is_reserved : Bool

pub record Reservation : Type 0 where
  pub attempt : Option Attempt
  pub reason : ReservationReason
  pub queue_row_id : Option ℕ

-- The texts that `execute_assignment_attempt` returns and the code tells apart
pub data Execution : Type 0 where
  assigned converged_external_owner stale_ticket stale_cycle : Execution
  retryable_external_error repair_required other_execution : Execution

-- The calls as far as they return. An exception of a reservation or of an execution leaves the drain, which
-- catches none, and is outside of these worlds.
pub record Durable (W : Type 0) : Type 0 where
  pub may_assign : W → Bool
  pub reserve_next_assignment : Option ℕ → List ℕ → W → Reservation × W
  pub execute_assignment_attempt : ℕ → W → Execution × W
  pub transition_assigned_lifecycle : ℕ → W → W
  pub pending_count : W → ℕ
  pub has_potential_agents : W → Bool

abbrev pub is_quarantined : ReservationReason → Bool
is_quarantined legacy_cycle_ambiguous = true
is_quarantined skipped_stale_cycle = true
is_quarantined r = false

-- What the drain relies on: a reservation never names an excluded row, and it names a row whenever it
-- holds an attempt or has put the row in quarantine.
pub record IsExclusive {W : Type 0} (d : Durable W) : Type 0 where
  pub fresh :
      (ticket : Option ℕ) (seen : List ℕ) (w : W) (row : ℕ)
      → (d.reserve_next_assignment ticket seen w).0.queue_row_id ≡ some row
      → contains row seen ≡ false
  pub named :
      (ticket : Option ℕ) (seen : List ℕ) (w : W)
      → (d.reserve_next_assignment ticket seen w).0.queue_row_id ≡ none
      → ((d.reserve_next_assignment ticket seen w).0.attempt ≡ none)
        × (is_quarantined (d.reserve_next_assignment ticket seen w).0.reason ≡ false)
