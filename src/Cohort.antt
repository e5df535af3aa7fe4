-- ===== src/Cohort.antt =====
-- apps/support/opening_cohort_service.py: the agents whose availability is awaited at the opening of a
-- window, and the cohorts that are kept of them. Instants and durations are microseconds.
mod Tests
pub mod Barrier
pub mod Held
pub mod Kept
pub mod Calls
pub mod Released
pub mod Finalized
use judah.Prelude.{
  ℕ, ◌+◌, Bool, true, false, ◌&&◌, ◌||◌, not, Option, none, some, List, [], ◌∷◌, select, contains,
  map, length, is_empty, get_or, ltb, leb, min, max, any, is_some, if◌then◌else◌, Text, all,
}
use judah.Prelude.Sorting.{sort}
use judah.Queue.{Agent, EligibilityReason, stabilizing, is_false, is_eligible_state}
use judah.Calendar.Resolve.{OperationalWindow}

-- `OPENING_COHORT_BARRIER_MODE`
pub data Mode : Type 0 where
  mode_off shadow enforce : Mode

pub record CohortSettings : Type 0 where
  pub mode : Mode
  pub stable : ℕ
  pub heartbeat : ℕ
  pub canary_configured : Bool
  pub canary_ids : List ℕ

pub data CohortState : Type 0 where
  active released : CohortState

pub data ReleaseReason : Type 0 where
  all_settled deadline disabled : ReleaseReason

-- `OpeningAssignmentCohort`
pub record Cohort : Type 0 where
  pub pk : ℕ
  pub window_started_at : ℕ
  pub cohort_observed_at : ℕ
  pub recheck_at : ℕ
  pub deadline_at : ℕ
  pub member_agent_ids : List ℕ
  pub initial_eligible_count : ℕ
  pub initial_stabilizing_count : ℕ
  pub state : CohortState
  pub release_reason : Option ReleaseReason
  pub callback_scheduled_at : Option ℕ
  pub released_at : Option ℕ

-- `eligibility_reason == "stabilizing"`
abbrev pub is_stabilizing_reason : Option EligibilityReason → Bool
is_stabilizing_reason (some stabilizing) = true
is_stabilizing_reason r = false

abbrev pub is_stabilizing : Agent → Bool
is_stabilizing a = is_stabilizing_reason a.eligibility_reason

abbrev pub is_eligible_agent : Agent → Bool
is_eligible_agent a = is_eligible_state a.eligibility_state

-- Neither null nor empty
abbrev pub has_user_id : Option Text → Bool
has_user_id none = false
has_user_id (some t) = not (is_empty t)

-- Active, with automatic assignment on and a chat to spare
unfoldable pub may_receive : Agent → Bool
may_receive a =
    not (is_false a.is_active)
    && (a.auto_assign_enabled
        && ltb a.current_simultaneous_chats (get_or a.max_simultaneous_chats 5))

unfoldable pub is_candidate : CohortSettings → Agent → Bool
is_candidate s a =
    may_receive a
    && (has_user_id a.hubspot_user_id
        && ((is_eligible_agent a || is_stabilizing a)
            && (not s.canary_configured || contains a.pk s.canary_ids)))

-- `_candidate_snapshots`
unfoldable pub candidate_snapshots : CohortSettings → List Agent → List Agent
candidate_snapshots s agents = sort (λ a b. leb a.pk b.pk) (select (is_candidate s) agents)

-- `_stabilizing_member_count`
unfoldable pub stabilizing_member_count : List Agent → Cohort → ℕ
stabilizing_member_count agents c =
    length
      (select (λ a. contains a.pk c.member_agent_ids && (is_stabilizing a && may_receive a)) agents)

-- The least of the instants, or `none` where one is missing
unfoldable pub earliest_online : List Agent → Option ℕ
earliest_online [] = none
earliest_online (a ∷ []) = a.availability_online_since
earliest_online (a ∷ b ∷ rest) =
    let others = earliest_online (b ∷ rest) in min_of a.availability_online_since others
  where
    min_of : Option ℕ → Option ℕ → Option ℕ
    min_of (some x) (some y) = some (min x y)
    min_of x y = none

abbrev pub observed_from : ℕ → ℕ → Option ℕ → ℕ
observed_from now start none = now
observed_from now start (some t) = max start t

-- The latest instant at which a stabilizing agent may have settled
unfoldable pub latest_settling : ℕ → ℕ → List Agent → ℕ
latest_settling now stable [] = 0
latest_settling now stable (a ∷ rest) =
    max (get_or a.availability_online_since now + stable) (latest_settling now stable rest)

abbrev pub recheck_jitter : ℕ
recheck_jitter = 2_000_000

-- `_cohort_defaults`, as the row they make with its key and the start of its window
unfoldable pub new_cohort : CohortSettings → ℕ → ℕ → ℕ → List Agent → Cohort
new_cohort s fresh start now agents =
    let stabilizing_agents = select is_stabilizing agents in
    let observed = observed_from now start (earliest_online agents) in
    let last = observed + (s.stable + s.heartbeat) in
    record {
      pk = fresh;
      window_started_at = start;
      cohort_observed_at = observed;
      recheck_at =
          min last (max now (latest_settling now s.stable stabilizing_agents) + recheck_jitter);
      deadline_at = last;
      member_agent_ids = map (λ a. a.pk) agents;
      initial_eligible_count = length (select is_eligible_agent agents);
      initial_stabilizing_count = length stabilizing_agents;
      state = active;
      release_reason = none;
      callback_scheduled_at = none;
      released_at = none;
    }

-- No cohort where nobody is eligible, nobody is stabilizing, or the deadline has passed
unfoldable pub cohort_defaults : CohortSettings → ℕ → ℕ → ℕ → List Agent → Option Cohort
cohort_defaults s fresh start now agents =
    let c = new_cohort s fresh start now agents in
    if is_empty (select is_eligible_agent agents)
      || (is_empty (select is_stabilizing agents) || leb c.deadline_at now)
    then none
    else some c
