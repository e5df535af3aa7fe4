-- ===== src/Lifecycle.antt =====
-- apps/ai_agents/services/lifecycle.py: the states of a conversation instance, `VALID_TRANSITIONS`
-- and `_validate_transition`.
pub mod ServiceCycles
pub mod Machine
pub mod Diagram
pub mod Attendances
pub mod Moves
pub mod Convergence
mod Tests
use judah.Prelude.{Bool, true, false, ◌&&◌, not, Result, ok, err, if◌then◌else◌}

-- `ConversationInstance.State`
pub data State : Type 0 where
  received normalized context_hydrating context_ready : State
  ai_service_pending ai_service_running waiting_for_customer : State
  human_handoff_requested queue_pending human_assigned human_in_progress : State
  resolved_by_ai resolved_by_human closed : State
  failed_retryable failed_terminal ignored : State

pub State-discrete : Discrete State
State-discrete = hlevel

-- `TERMINAL_STATES`, also that of service_cycles.py
unfoldable pub is_terminal : State → Bool
is_terminal closed = true
is_terminal failed_terminal = true
is_terminal ignored = true
is_terminal s = false

-- `ACTIVE_STATES`
abbrev pub is_active : State → Bool
is_active s = not (is_terminal s)

-- `to_state in VALID_TRANSITIONS.get(from_state, set())`
unfoldable pub is_valid_transition : State → State → Bool
is_valid_transition received normalized = true
is_valid_transition received ignored = true
is_valid_transition received failed_retryable = true
is_valid_transition normalized context_hydrating = true
is_valid_transition normalized queue_pending = true
is_valid_transition normalized human_handoff_requested = true
is_valid_transition normalized resolved_by_human = true
is_valid_transition normalized closed = true
is_valid_transition normalized ignored = true
is_valid_transition normalized failed_retryable = true
is_valid_transition context_hydrating context_ready = true
is_valid_transition context_hydrating resolved_by_ai = true
is_valid_transition context_hydrating human_handoff_requested = true
is_valid_transition context_hydrating ignored = true
is_valid_transition context_hydrating failed_retryable = true
is_valid_transition context_ready ai_service_pending = true
is_valid_transition context_ready human_handoff_requested = true
is_valid_transition context_ready queue_pending = true
is_valid_transition context_ready failed_retryable = true
is_valid_transition ai_service_pending ai_service_running = true
is_valid_transition ai_service_pending human_handoff_requested = true
is_valid_transition ai_service_pending failed_retryable = true
is_valid_transition ai_service_running waiting_for_customer = true
is_valid_transition ai_service_running resolved_by_ai = true
is_valid_transition ai_service_running human_handoff_requested = true
is_valid_transition ai_service_running ignored = true
is_valid_transition ai_service_running failed_retryable = true
is_valid_transition waiting_for_customer context_hydrating = true
is_valid_transition waiting_for_customer resolved_by_ai = true
is_valid_transition waiting_for_customer human_handoff_requested = true
is_valid_transition waiting_for_customer failed_retryable = true
is_valid_transition waiting_for_customer closed = true
is_valid_transition human_handoff_requested queue_pending = true
is_valid_transition human_handoff_requested ignored = true
is_valid_transition human_handoff_requested failed_retryable = true
is_valid_transition queue_pending context_hydrating = true
is_valid_transition queue_pending human_assigned = true
is_valid_transition queue_pending failed_retryable = true
is_valid_transition human_assigned human_in_progress = true
is_valid_transition human_assigned resolved_by_human = true
is_valid_transition human_assigned failed_retryable = true
is_valid_transition human_in_progress resolved_by_human = true
is_valid_transition human_in_progress failed_retryable = true
is_valid_transition resolved_by_ai closed = true
is_valid_transition resolved_by_human closed = true
is_valid_transition failed_retryable context_hydrating = true
is_valid_transition failed_retryable ai_service_pending = true
is_valid_transition failed_retryable human_handoff_requested = true
is_valid_transition failed_retryable resolved_by_ai = true
is_valid_transition failed_retryable ignored = true
is_valid_transition failed_retryable failed_terminal = true
is_valid_transition s t = false

abbrev pub is_queue_pending : State → Bool
is_queue_pending queue_pending = true
is_queue_pending s = false

abbrev pub is_handoff : State → Bool
is_handoff human_handoff_requested = true
is_handoff s = false

abbrev pub is_failed_terminal : State → Bool
is_failed_terminal failed_terminal = true
is_failed_terminal s = false

abbrev pub is_failed_retryable : State → Bool
is_failed_retryable failed_retryable = true
is_failed_retryable s = false

-- `to_state in {CLOSED, RESOLVED_BY_HUMAN}`
abbrev pub is_closing : State → Bool
is_closing closed = true
is_closing resolved_by_human = true
is_closing s = false

-- `to_state in {FAILED_RETRYABLE, IGNORED}`
abbrev pub is_escape : State → Bool
is_escape failed_retryable = true
is_escape ignored = true
is_escape s = false

-- `InvalidStateTransitionError` in its two messages
pub data InvalidStateTransition : Type 0 where
  leaves_terminal : State → State → InvalidStateTransition
  not_in_diagram : State → State → InvalidStateTransition

-- `_validate_transition`: whether it returns, and what it raises.
unfoldable pub validate_transition :
    State → State → Bool → Bool → Result InvalidStateTransition (Unit {0})
validate_transition from_state to_state allow_terminal_reopen allow_authoritative_queue_entry =
    if is_terminal from_state
    then if allow_terminal_reopen then ok tt else err (leaves_terminal from_state to_state)
    else if allow_authoritative_queue_entry && is_queue_pending to_state
    then ok tt
    else if is_closing to_state
    then ok tt
    else if is_handoff to_state && is_active from_state
    then ok tt
    else if is_escape to_state
    then ok tt
    else if is_failed_terminal to_state && is_failed_retryable from_state
    then ok tt
    else if is_valid_transition from_state to_state
    then ok tt
    else err (not_in_diagram from_state to_state)
