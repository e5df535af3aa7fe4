-- ===== src/Queue.antt =====
-- apps/support/queue_service.py: which agents may receive a ticket, and in what order. Instants are
-- microseconds; the text order of agent identifiers (UUIDs) is taken as the order of numbers.
pub mod Order
pub mod Choice
pub mod Eligibility
pub mod Agreement
mod Tests
use judah.Prelude.{
  ℕ, ◌+◌, ◌-◌, suc, Bool, true, false, ◌&&◌, ◌||◌, not, Option, none, some, List, [], ◌∷◌, select,
  is_empty, contains, length, get_or, Text, Result, ok, err, ltb, leb, ◌==◌, if◌then◌else◌,
}
use judah.Prelude.Sorting.{sort}

-- `Agent.StatusEnum`
pub data AgentStatus : Type 0 where
  online away offline busy : AgentStatus

-- `Agent.EligibilityState`
pub data EligibilityState : Type 0 where
  unknown ineligible eligible : EligibilityState

-- `EligibilityReason` (apps/support/eligibility_service.py); the column may hold another text.
pub data EligibilityReason : Type 0 where
  is_eligible runtime_not_authoritative agent_inactive auto_assign_disabled : EligibilityReason
  missing_identity missing_observation stale_observation remote_away : EligibilityReason
  unknown_remote_status active_out_of_office outside_working_hours stabilizing : EligibilityReason
  at_capacity malformed_remote_data : EligibilityReason

-- The columns of `Agent` that the assignment reads. `max_simultaneous_chats` may be null in old rows.
pub record Agent : Type 0 where
  pub pk : ℕ
  pub hubspot_owner_id : ℕ
  pub status_enum : AgentStatus
  pub auto_assign_enabled : Bool
  pub is_active : Option Bool
  pub current_simultaneous_chats : ℕ
  pub max_simultaneous_chats : Option ℕ
  pub last_assignment_at : Option ℕ
  pub hubspot_user_id : Option Text
  pub availability_observed_at : Option ℕ
  pub eligibility_state : EligibilityState
  pub eligibility_reason : Option EligibilityReason
  pub availability_revision : ℕ
  pub availability_online_since : Option ℕ
  pub updated_at : Option ℕ

pub record QueueSettings : Type 0 where
  pub absence_safe_enforced : Bool
  pub freshness : ℕ
  pub canary_configured : Bool
  pub canary_ids : List ℕ

abbrev pub is_online : AgentStatus → Bool
is_online online = true
is_online s = false

abbrev pub is_eligible_state : EligibilityState → Bool
is_eligible_state eligible = true
is_eligible_state s = false

abbrev pub is_false : Option Bool → Bool
is_false none = false
is_false (some b) = not b

-- `availability_observed_at >= now - freshness`; a null fails.
abbrev pub is_observed : QueueSettings → ℕ → Option ℕ → Bool
is_observed s now none = false
is_observed s now (some t) = leb now (t + s.freshness)

-- The conditions of the query in `get_eligible_agents`.
unfoldable pub passes_filters : QueueSettings → ℕ → Bool → Agent → Bool
passes_filters s now include_capacity_blocked a =
    is_online a.status_enum
    && (a.auto_assign_enabled
        && ((include_capacity_blocked
              || ltb a.current_simultaneous_chats (get_or a.max_simultaneous_chats 5))
            && ((not s.absence_safe_enforced
                  || (is_eligible_state a.eligibility_state
                      && is_observed s now a.availability_observed_at))
                && ((not s.canary_configured || contains a.pk s.canary_ids)
                    && not (is_false a.is_active)))))

unfoldable pub get_eligible_agents : QueueSettings → ℕ → Bool → List Agent → List Agent
get_eligible_agents s now include_capacity_blocked =
    select (passes_filters s now include_capacity_blocked)

-- 2000-01-01 in UTC
abbrev pub epoch : ℕ
epoch = 946_684_800_000_000

abbrev pub last_key : Agent → ℕ
last_key a = get_or a.last_assignment_at epoch

-- The order by `(last, current_simultaneous_chats)`
unfoldable pub before : Agent → Agent → Bool
before a b =
    ltb (last_key a) (last_key b)
    || (last_key a == last_key b && leb a.current_simultaneous_chats b.current_simultaneous_chats)

-- The order by `(last, current_simultaneous_chats, str(pk))`
unfoldable pub ranks_before : Agent → Agent → Bool
ranks_before a b =
    ltb (last_key a) (last_key b)
    || (last_key a == last_key b
        && (ltb a.current_simultaneous_chats b.current_simultaneous_chats
            || (a.current_simultaneous_chats == b.current_simultaneous_chats && leb a.pk b.pk)))

abbrev pub is_someone_else : ℕ → Agent → Bool
is_someone_else owner a = not (a.hubspot_owner_id == owner)

-- Rule 2: without the agent of the last assignment, unless nobody is left.
unfoldable pub candidates_of : Option ℕ → List Agent → List Agent
candidates_of none pool = pool
candidates_of (some owner) pool =
    let others = select (is_someone_else owner) pool in
    if ltb 1 (length pool) then (if is_empty others then pool else others) else pool

unfoldable pub get_ranked_eligible_agents : QueueSettings → ℕ → Option ℕ → List Agent → List Agent
get_ranked_eligible_agents s now last agents =
    let pool = get_eligible_agents s now false agents in
    if is_empty pool then [] else sort ranks_before (candidates_of last pool)

abbrev pub first_of_list : List Agent → Option Agent
first_of_list [] = none
first_of_list (a ∷ as') = some a

unfoldable pub select_next_agent : QueueSettings → ℕ → Option ℕ → List Agent → Option Agent
select_next_agent s now last agents =
    let pool = get_eligible_agents s now false agents in
    if is_empty pool then none else first_of_list (sort before (candidates_of last pool))

-- The exceptions of the two counters
pub data CounterError : Type 0 where
  no_routing_authority capacity_is_enforced : CounterError

-- The order of the checks before a counter is written
unfoldable pub guarded : Bool → Bool → Agent → Result CounterError Agent
guarded has_authority enforced a =
    if not has_authority
    then err no_routing_authority
    else (if enforced then err capacity_is_enforced else ok a)

unfoldable pub increment_agent_chat_count : Bool → Bool → ℕ → Agent → Result CounterError Agent
increment_agent_chat_count has_authority enforced now a = guarded has_authority enforced (record a {
  current_simultaneous_chats = a.current_simultaneous_chats + 1;
  last_assignment_at = some now;
  updated_at = some now;
})

-- The count does not go below 0.
unfoldable pub decrement_agent_chat_count : Bool → Bool → ℕ → Agent → Result CounterError Agent
decrement_agent_chat_count has_authority enforced now a = guarded has_authority enforced (record a {
  current_simultaneous_chats = a.current_simultaneous_chats - 1;
  updated_at = some now;
})
