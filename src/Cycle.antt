-- ===== src/Cycle.antt =====
-- apps/support/conversation_cycle_service.py: the states of a support conversation cycle, what is
-- stored of one, and `transition_cycle_state`. Instants are microseconds from the Unix epoch.
pub mod Transitions
pub mod Identity
pub mod Keys
pub mod Admission
pub mod Decision
pub mod Open
pub mod Persistence
mod Tests
use judah.Prelude.{ℕ, Bool, true, false, Option, Text, Result, ok, err, if◌then◌else◌}

pub data CycleState : Type 0 where
  queued assigned repair_required closed cancelled : CycleState

-- `ACTIVE_CYCLE_STATES`
unfoldable pub is_active : CycleState → Bool
is_active queued = true
is_active assigned = true
is_active repair_required = true
is_active closed = false
is_active cancelled = false

-- `TERMINAL_CYCLE_STATES`
unfoldable pub is_terminal : CycleState → Bool
is_terminal closed = true
is_terminal cancelled = true
is_terminal queued = false
is_terminal assigned = false
is_terminal repair_required = false

-- `_ALLOWED_TRANSITIONS`
unfoldable pub is_allowed : CycleState → CycleState → Bool
is_allowed queued assigned = true
is_allowed queued closed = true
is_allowed queued cancelled = true
is_allowed assigned closed = true
is_allowed queued repair_required = true
is_allowed assigned repair_required = true
is_allowed c t = false

-- `_RECONCILIATION_TARGETS`
unfoldable pub is_reconciliation_target : CycleState → Bool
is_reconciliation_target queued = true
is_reconciliation_target assigned = true
is_reconciliation_target closed = true
is_reconciliation_target cancelled = true
is_reconciliation_target repair_required = false

-- The three ways in which `InvalidCycleTransitionError` is raised.
pub data InvalidTransition : Type 0 where
  from_terminal needs_reconciliation not_authorized : InvalidTransition

abbrev is_repair : CycleState → Bool
is_repair repair_required = true
is_repair c = false

unfoldable pub transition_cycle_state :
    CycleState → CycleState → Bool → Result InvalidTransition CycleState
unfolding is_terminal is_allowed is_reconciliation_target
transition_cycle_state current target reconciliation =
    if is_terminal current
    then err from_terminal
    else if is_repair current
    then if reconciliation
      then if is_reconciliation_target target then ok target else err needs_reconciliation
      else err needs_reconciliation
    else if is_allowed current target
    then ok target
    else err not_authorized

-- `CycleIdentity`
pub record CycleIdentity : Type 0 where
  pub source_system : Text
  pub source_account_id : Text
  pub hubspot_ticket_id : Text
  pub entered_stage_at : ℕ
  pub cycle_key : Text

-- `CycleSnapshot`, over a column that may be null.
pub record CycleSnapshot : Type 0 where
  pub cycle_key : Text
  pub entered_stage_at : Option ℕ
  pub state : CycleState
