-- ===== src/Lifecycle/Tests.antt =====
-- Runs of the lifecycle engine, and its theorems at concrete instances.
use judah.Prelude.{
  ◌≡◌, refl, Bool, true, false, none, some, List, [], ◌∷◌, codes, ok, err, any, ◌==◌,
}
use judah.Lifecycle.{
  State-discrete, queue_pending, closed, human_assigned, is_terminal, leaves_terminal,
  validate_transition,
}
use judah.Lifecycle.ServiceCycles.{ServiceCycle, closed_cycle, given, blank, reopen_service_cycle}
use judah.Lifecycle.Machine.{
  Ledger, Request, Conversation, is_same, is_target, effective_cycle, moved_instance, move,
  transition, close_all_ticket_instances,
}
use judah.Lifecycle.Convergence.{Converged, close_all_ticket_instances-Converged}

abbrev first_cycle : ServiceCycle
first_cycle = record {
  sequence = 1;
  status = closed_cycle;
  opened_at = 10;
  closed_at = some 20;
  opened_from_state = none;
  opened_reason = blank;
  opened_by_event_id = [];
  closed_reason = given (codes "done");
}

abbrev closed_ledger : Ledger
closed_ledger = record {
  instance_row = record {
    state = closed;
    state_version = 4;
    opened_at = 10;
    last_activity_at = some 20;
    closed_at = some 20;
    assigned_agent_id = some 7;
  };
  cycles = first_cycle ∷ [];
  log = [];
}

abbrev reopening : Request
reopening = record {
  to_state = queue_pending;
  reason = codes "again";
  actor_type = codes "system";
  actor_id = [];
  source_event_id = codes "e9";
  allow_terminal_reopen = true;
  allow_authoritative_queue_entry = true;
  occurred_at = none;
}

refused :
    transition (record reopening { allow_terminal_reopen = false }) 30 closed_ledger
    ≡ err (leaves_terminal closed queue_pending)
unfolding transition validate_transition is_terminal is_same State-discrete
refused = refl

reopened_state :
    ((move reopening 30 closed_ledger).instance_row.assigned_agent_id ≡ none)
    × (any (λ c. c.sequence == 2) (move reopening 30 closed_ledger).cycles ≡ true)
unfolding move moved_instance effective_cycle is_terminal reopen_service_cycle
reopened_state = (refl, refl)

abbrev table : List Conversation
table =
    record { pk = 1; ticket_id = some 5; ledger = closed_ledger }
    ∷ record {
      pk = 2;
      ticket_id = some 5;
      ledger = record closed_ledger {
        instance_row = record (closed_ledger.instance_row) { state = human_assigned };
      };
    }
    ∷ record { pk = 3; ticket_id = none; ledger = closed_ledger }
    ∷ []

close_all_ticket_instances-Converged_example :
    (found : Bool) × (ds : List Conversation) × (close_all_ticket_instances 5 none
        (codes "r")
        (codes "a")
        (codes "e")
        none
        40
        table
      ≡ ok (found, ds))
    × (found ≡ any (is_target 5 none) table)
    × Converged 5 none table ds
close_all_ticket_instances-Converged_example =
    close_all_ticket_instances-Converged 5 none (codes "r") (codes "a") (codes "e") none 40 table
