-- ===== src/Lifecycle/Machine.antt =====
-- `LifecycleEngine.transition` and `_close_all_ticket_instances`: an instance with its service cycles
-- and its log of transitions, newest first, all written in one transaction.
use judah.Prelude.{
  ℕ, ◌+◌, Bool, true, false, ◌&&◌, not, Option, none, some, List, [], ◌∷◌, Text, Result, ok, ◌>>=◌,
  get_or, is_some, ◌==◌, if◌then◌else◌,
}
use judah.Lifecycle.{
  State, State-discrete, closed, is_terminal, InvalidStateTransition, validate_transition,
}
use judah.Lifecycle.ServiceCycles.{
  Instance, ServiceCycle, ensure_current_service_cycle, reopen_service_cycle,
  close_current_service_cycle,
}

-- `ConversationStateTransition`
pub record TransitionRow : Type 0 where
  pub cycle_sequence : ℕ
  pub from_state : State
  pub to_state : State
  pub reason : Text
  pub actor_type : Text
  pub actor_id : Text
  pub source_event_id : Text

pub record Ledger : Type 0 where
  pub instance_row : Instance
  pub cycles : List ServiceCycle
  pub log : List TransitionRow

-- The arguments of `transition`
pub record Request : Type 0 where
  pub to_state : State
  pub reason : Text
  pub actor_type : Text
  pub actor_id : Text
  pub source_event_id : Text
  pub allow_terminal_reopen : Bool
  pub allow_authoritative_queue_entry : Bool
  pub occurred_at : Option ℕ

unfoldable pub is_same : State → State → Bool
is_same s t = elim (State-discrete s t) [ yes e ↦ true | no n ↦ false ]

abbrev pub is_closed : State → Bool
is_closed closed = true
is_closed s = false

-- `is_terminal_reopen`
abbrev pub reopens : State → Request → Bool
reopens from_state r =
    r.allow_terminal_reopen && is_terminal from_state && not (is_terminal r.to_state)

-- The service cycle that the transition is logged under, and the cycles after it was found.
unfoldable pub effective_cycle : Request → ℕ → Ledger → ServiceCycle × List ServiceCycle
effective_cycle r now l =
    if reopens l.instance_row.state r
    then reopen_service_cycle l.instance_row l.instance_row.state r.reason r.source_event_id now
        l.cycles
    else ensure_current_service_cycle l.instance_row now l.cycles

abbrev pub closed_at_after : Request → ℕ → Instance → Option ℕ
closed_at_after r now i =
    if is_closed r.to_state && not (is_some i.closed_at)
    then some (get_or r.occurred_at now)
    else if reopens i.state r
    then none
    else i.closed_at

unfoldable pub moved_instance : Request → ℕ → Instance → Instance
moved_instance r now i = record {
  state = r.to_state;
  state_version = i.state_version + 1;
  opened_at = i.opened_at;
  last_activity_at = some now;
  closed_at = closed_at_after r now i;
  assigned_agent_id = if reopens i.state r then none else i.assigned_agent_id;
}

abbrev pub log_row : Request → ServiceCycle → State → TransitionRow
log_row r c from_state = record {
  cycle_sequence = c.sequence;
  from_state = from_state;
  to_state = r.to_state;
  reason = r.reason;
  actor_type = r.actor_type;
  actor_id = r.actor_id;
  source_event_id = r.source_event_id;
}

-- The body of `transition` after its validation.
unfoldable pub move : Request → ℕ → Ledger → Ledger
move r now l =
    let (c, cycles) = effective_cycle r now l in
    let i = moved_instance r now l.instance_row in
    record {
      instance_row = i;
      cycles =
          if is_terminal r.to_state
          then (close_current_service_cycle i r.reason r.occurred_at now cycles).1
          else cycles;
      log = log_row r c l.instance_row.state ∷ l.log;
    }

unfoldable pub transition : Request → ℕ → Ledger → Result InvalidStateTransition Ledger
transition r now l =
    let checked =
      validate_transition l.instance_row.state r.to_state r.allow_terminal_reopen
        r.allow_authoritative_queue_entry in
    if is_same l.instance_row.state r.to_state then ok l else (checked >>= λ _. ok (move r now l))

-- A row of the table of instances: its key, its ticket, and what hangs on it.
pub record Conversation : Type 0 where
  pub pk : ℕ
  pub ticket_id : Option ℕ
  pub ledger : Ledger

abbrev of_ticket : ℕ → Option ℕ → Bool
of_ticket ticket none = false
of_ticket ticket (some t) = t == ticket

abbrev is_primary : Option ℕ → ℕ → Bool
is_primary none pk = false
is_primary (some p) pk = p == pk

-- The rows that the loop visits.
unfoldable pub is_target : ℕ → Option ℕ → Conversation → Bool
is_target ticket primary c = of_ticket ticket c.ticket_id && not (is_primary primary c.pk)

abbrev pub close_request : Text → Text → Text → Option ℕ → State → Request
close_request reason actor event occurred_at from_state = record {
  to_state = closed;
  reason = reason;
  actor_type = actor;
  actor_id = [];
  source_event_id = event;
  allow_terminal_reopen = is_terminal from_state;
  allow_authoritative_queue_entry = false;
  occurred_at = occurred_at;
}

-- `_close_all_ticket_instances`: whether an instance was found, and the table after the loop.
unfoldable pub close_all_ticket_instances :
    ℕ
    → Option ℕ
    → Text
    → Text
    → Text
    → Option ℕ
    → ℕ
    → List Conversation
    → Result InvalidStateTransition (Bool × List Conversation)
close_all_ticket_instances ticket primary reason actor event occurred_at now [] = ok (false, [])
close_all_ticket_instances ticket primary reason actor event occurred_at now (c ∷ cs) =
    let rest = close_all_ticket_instances ticket primary reason actor event occurred_at now cs in
    let s = c.ledger.instance_row.state in
    if is_target ticket primary c
    then ((if is_closed s
          then ok c.ledger
          else transition (close_request reason actor event occurred_at s) now c.ledger)
        >>= λ l. rest >>= λ r. ok (true, record c { ledger = l } ∷ r.1))
    else (rest >>= λ r. ok (r.0, c ∷ r.1))
