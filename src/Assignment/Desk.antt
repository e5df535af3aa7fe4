-- ===== src/Assignment/Desk.antt =====
-- A small support desk: one agent, one row of a queued cycle, and what the calls meet there.
use judah.Prelude.{true, false, none, some, [], ◌∷◌, inr}
use judah.Cycle
use judah.Queue.{Agent, QueueSettings, online, eligible}
use judah.Assignment.{automatic, AssignmentAttempt, reserved, QueueRow, pending, CycleEntry, Store}
use judah.Assignment.Reserve.{Surroundings}
use judah.Assignment.Effect.{no_owner, digits, ticket, patched, Provider}

abbrev pub settings : QueueSettings
settings = record {
  absence_safe_enforced = false;
  freshness = 60;
  canary_configured = false;
  canary_ids = [];
}

abbrev pub ana : Agent
ana = record {
  pk = 1;
  hubspot_owner_id = 11;
  status_enum = online;
  auto_assign_enabled = true;
  is_active = some true;
  current_simultaneous_chats = 0;
  max_simultaneous_chats = none;
  last_assignment_at = none;
  updated_at = none;
  hubspot_user_id = none;
  availability_observed_at = none;
  eligibility_state = eligible;
  eligibility_reason = none;
  availability_revision = 1;
  availability_online_since = some 100;
}

abbrev pub first_row : QueueRow
first_row = record {
  pk = 3;
  ticket_id = 65 ∷ [];
  cycle_id = some 5;
  entered_queue_at = 10;
  queue_status = pending;
  assignment_attempts = 0;
  last_assignment_attempt_at = none;
  next_assignment_attempt_at = none;
  failure_code = none;
  automatic_assignment_eligible = true;
  claim_owner_token = none;
  claim_expires_at = none;
  claimed_at = none;
}

abbrev pub first_cycle : CycleEntry
first_cycle = record { pk = 5; state = Cycle.queued }

abbrev pub desk : Store
desk = record {
  rows = first_row ∷ [];
  attempts = [];
  agents = ana ∷ [];
  cycles = first_cycle ∷ [];
  assigned_rows = [];
  logs = [];
  total_assignments = λ agent. 0;
}

abbrev pub at_noon : Surroundings
at_noon = record {
  now = 1000;
  settings = settings;
  barrier = λ r. none;
  candidates = 1 ∷ [];
  locked = λ r. false;
  meanwhile = λ s. s;
  claim_ttl = 90;
  claim_token = 77;
  fresh = 7;
}

abbrev pub granting : Provider
granting = record {
  now = 1010;
  assignment_allowed = true;
  precondition = ticket true no_owner;
  patch = patched;
  readback = ticket true (digits 11);
  meanwhile = λ s. s;
}

abbrev pub attempt : AssignmentAttempt
attempt = record {
  pk = 7;
  idempotency_key = automatic (inr 5);
  ticket_id = 65 ∷ [];
  cycle_id = some 5;
  queue_row = some 3;
  selected_agent = 1;
  desired_hubspot_owner_id = 11;
  prior_observed_owner_id = none;
  state = reserved;
  reserved_at = 1000;
  external_applied_at = none;
  finalized_at = none;
  compensation_started_at = none;
  compensated_at = none;
  retry_count = 0;
  next_retry_at = none;
  last_error_code = none;
}

abbrev pub reserved_desk : Store
reserved_desk = record desk { attempts = attempt ∷ [] }
