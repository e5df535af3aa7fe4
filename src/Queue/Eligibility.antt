-- ===== src/Queue/Eligibility.antt =====
-- apps/support/eligibility_service.py: the fail-closed decisions on one agent.
use judah.Prelude.{
  ℕ, Bool, true, false, ◌&&◌, ◌||◌, not, Option, none, some, List, is_empty, any, Text, ltb, leb,
  ◌==◌, if◌then◌else◌,
}
use judah.Queue.{
  Agent, QueueSettings, EligibilityReason, is_eligible, agent_inactive, auto_assign_disabled,
  missing_identity, missing_observation, stale_observation, remote_away, unknown_remote_status,
  active_out_of_office, outside_working_hours, at_capacity, malformed_remote_data, is_false,
  is_eligible_state, is_observed,
}

pub record EligibilityDecision : Type 0 where
  pub allowed : Bool
  pub reason : EligibilityReason

abbrev pub yes : EligibilityDecision
yes = record { allowed = true; reason = is_eligible }

abbrev pub no : EligibilityReason → EligibilityDecision
no r = record { allowed = false; reason = r }

-- The texts of `availability_status` that are told apart
pub data Presence : Type 0 where
  away available other_status : Presence

-- The keys of `_DAY_GROUPS`, and any other text
pub data DayGroup : Type 0 where
  monday_to_friday saturday_sunday every_day monday tuesday wednesday : DayGroup
  thursday friday saturday sunday unlisted : DayGroup

-- `weekday in _DAY_GROUPS.get(days, set())`, with Monday as 0
unfoldable pub has_day : DayGroup → ℕ → Bool
has_day monday_to_friday d = ltb d 5
has_day saturday_sunday d = d == 5 || d == 6
has_day every_day d = ltb d 7
has_day monday d = d == 0
has_day tuesday d = d == 1
has_day wednesday d = d == 2
has_day thursday d = d == 3
has_day friday d = d == 4
has_day saturday d = d == 5
has_day sunday d = d == 6
has_day unlisted d = false

pub record Interval : Type 0 where
  pub start_at : ℕ
  pub end_at : ℕ

pub record Window : Type 0 where
  pub days : DayGroup
  pub start_minute : ℕ
  pub end_minute : ℕ

-- The parts of `AvailabilityObservation` that are read; a zone is the function from an instant to its
-- weekday and minute of the day there.
pub record Observation : Type 0 where
  pub hubspot_user_id : Bool
  pub availability_status : Presence
  pub out_of_office_hours : List Interval
  pub timezone : Option (ℕ → ℕ × ℕ)
  pub working_hours : List Window

abbrev pub covers : ℕ → Interval → Bool
covers now i = leb i.start_at now && ltb now i.end_at

abbrev pub is_within : ℕ → ℕ → Window → Bool
is_within weekday minute w =
    has_day w.days weekday && (leb w.start_minute minute && ltb minute w.end_minute)

abbrev pub by_hours : Bool → EligibilityDecision
by_hours within = if within then yes else no outside_working_hours

-- The working hours observed, in the zone observed
abbrev pub zone_hours : List Window → ℕ → Option (ℕ → ℕ × ℕ) → EligibilityDecision
zone_hours windows now none = no malformed_remote_data
zone_hours windows now (some zone) =
    if is_empty windows
    then no malformed_remote_data
    else by_hours (any (is_within (zone now).0 (zone now).1) windows)

-- The part of the decision that reads the local schedule or the working hours observed
unfoldable pub evaluate_hours : Observation → ℕ → Option Bool → EligibilityDecision
evaluate_hours o now (some within) = by_hours within
evaluate_hours o now none = zone_hours o.working_hours now o.timezone

abbrev pub is_away : Presence → Bool
is_away away = true
is_away s = false

abbrev pub is_available : Presence → Bool
is_available available = true
is_available s = false

unfoldable pub evaluate_observation_signals : Observation → ℕ → Option Bool → EligibilityDecision
evaluate_observation_signals o now within =
    if not o.hubspot_user_id
    then no missing_identity
    else (if is_away o.availability_status
        then no remote_away
        else (if not (is_available o.availability_status)
            then no unknown_remote_status
            else (if any (covers now) o.out_of_office_hours
                then no active_out_of_office
                else evaluate_hours o now within)))

-- `not agent.hubspot_user_id` is false on a text that is not empty.
abbrev pub has_identity : Option Text → Bool
has_identity none = false
has_identity (some t) = not (is_empty t)

abbrev pub is_seen : Option ℕ → Bool
is_seen none = false
is_seen (some t) = true

-- `EligibilityReason(agent.eligibility_reason)`, where another text is malformed data
abbrev pub reason_of : Option EligibilityReason → EligibilityReason
reason_of none = malformed_remote_data
reason_of (some r) = r

-- `max_simultaneous_chats or 5`: a 0 counts as missing.
abbrev pub limit_of : Option ℕ → ℕ
limit_of none = 5
limit_of (some n) = if n == 0 then 5 else n

unfoldable pub evaluate_persisted_agent : QueueSettings → ℕ → Agent → EligibilityDecision
evaluate_persisted_agent s now a =
    if is_false a.is_active
    then no agent_inactive
    else (if not a.auto_assign_enabled
        then no auto_assign_disabled
        else (if not (has_identity a.hubspot_user_id)
            then no missing_identity
            else (if not (is_seen a.availability_observed_at)
                then no missing_observation
                else (if not (is_observed s now a.availability_observed_at)
                    then no stale_observation
                    else (if not (is_eligible_state a.eligibility_state)
                        then no (reason_of a.eligibility_reason)
                        else (if leb (limit_of a.max_simultaneous_chats)
                              a.current_simultaneous_chats
                            then no at_capacity
                            else yes))))))
