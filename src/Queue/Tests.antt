-- ===== src/Queue/Tests.antt =====
-- Choices of an agent, and the theorems at concrete agents.
use judah.Prelude.{◌≡◌, refl, true, false, ◌&&◌, none, some, [], ◌∷◌, codes, arith}
use judah.Queue.{
  Agent, QueueSettings, online, eligible, is_eligible, is_online, passes_filters,
  get_eligible_agents, select_next_agent, candidates_of, before,
}
use judah.Prelude.Sorting.{sort}
use judah.Queue.Choice.{Answers, select_next_agent-IsChoice}
use judah.Queue.Eligibility.{Observation, available, monday_to_friday, evaluate_persisted_agent}
use judah.Queue.Agreement.{passes_filters-evaluate_persisted_agent}

abbrev ana : Agent
ana = record {
  pk = 1;
  hubspot_owner_id = 11;
  status_enum = online;
  auto_assign_enabled = true;
  is_active = some true;
  current_simultaneous_chats = 2;
  max_simultaneous_chats = some 5;
  last_assignment_at = none;
  updated_at = none;
  hubspot_user_id = some (codes "u1");
  availability_observed_at = some 900;
  eligibility_state = eligible;
  eligibility_reason = some is_eligible;
  availability_revision = 1;
  availability_online_since = some 100;
}

abbrev rui : Agent
rui = record ana { pk = 2; hubspot_owner_id = 12; last_assignment_at = some 946_684_800_000_700 }

abbrev enforced : QueueSettings
enforced = record {
  absence_safe_enforced = true;
  freshness = 120;
  canary_configured = false;
  canary_ids = [];
}

never_assigned_first : select_next_agent enforced 1000 none (rui ∷ ana ∷ []) ≡ some ana
unfolding select_next_agent get_eligible_agents passes_filters sort candidates_of before
never_assigned_first = refl

not_twice_in_a_row : select_next_agent enforced 1000 (some 11) (rui ∷ ana ∷ []) ≡ some rui
unfolding select_next_agent get_eligible_agents passes_filters sort candidates_of
not_twice_in_a_row = refl

select_next_agent-IsChoice_example :
    Answers
      (some 11)
      (get_eligible_agents enforced 1000 false (rui ∷ ana ∷ []))
      (select_next_agent enforced 1000 (some 11) (rui ∷ ana ∷ []))
select_next_agent-IsChoice_example =
    select_next_agent-IsChoice enforced 1000 (some 11) (rui ∷ ana ∷ [])

passes_filters-evaluate_persisted_agent_example :
    passes_filters enforced 1000 false ana
    ≡ is_online ana.status_enum && (evaluate_persisted_agent enforced 1000 ana).allowed
passes_filters-evaluate_persisted_agent_example =
    passes_filters-evaluate_persisted_agent enforced 1000 ana refl refl refl (ground arith)

abbrev observed : Observation
observed = record {
  hubspot_user_id = true;
  availability_status = available;
  out_of_office_hours = record { start_at = 10; end_at = 20 } ∷ [];
  timezone = some (λ t. (2, t));
  working_hours = record { days = monday_to_friday; start_minute = 0; end_minute = 60 } ∷ [];
}
