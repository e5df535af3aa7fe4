-- ===== src/Assignment.antt =====
-- apps/support/durable_assignment_service.py: the tables of the durable assignment protocol, where
-- SUPPORT_CAPACITY_MODE does not enforce capacity (the branches under `capacity_enforced()` are not
-- taken, and no occupancy is kept). Instants are microseconds; a token and a key stand for a UUID.
pub mod Ready
pub mod Reserve
pub mod Exclusive
pub mod Settle
pub mod Effect
pub mod Repair
pub mod Books
pub mod Finals
pub mod Attempts
pub mod Manual
pub mod Keeps
pub mod Manually
pub mod Reserving
pub mod Executing
pub mod Calls
pub mod History
pub mod Once
pub mod Confirm
pub mod Converge
pub mod Clash
pub mod Desk
mod Tests
use judah.Prelude.{
  ℕ, ◌+◌, Bool, true, false, ◌&&◌, ◌||◌, not, Option, none, some, List, [], ◌∷◌, Text, text_eq,
  ◌==◌, find_by, modify, if◌then◌else◌, ◌⊎◌, inl, inr,
}
use judah.Cycle
use judah.Cycle.{CycleState}
use judah.Queue.{Agent}

-- `AssignmentAttempt.State`
pub data AttemptState : Type 0 where
  reserved external_applied completed compensating compensated : AttemptState
  retryable repair_required : AttemptState

-- `LIVE_STATES`
abbrev pub is_live : AttemptState → Bool
is_live completed = false
is_live compensated = false
is_live s = true

abbrev pub is_completed : AttemptState → Bool
is_completed completed = true
is_completed s = false

-- The texts of `last_error_code` and `failure_code`; `provider` is a code of HubSpot's, and two are
-- made of another by a suffix.
pub data ErrorCode : Type 0 where
  stale_cycle legacy_cycle_ambiguous no_eligible_candidate : ErrorCode
  hubspot_provider_contract_unavailable hubspot_ticket_not_found : ErrorCode
  hubspot_precondition_unreadable stale_ticket hubspot_manual_owner_observed : ErrorCode
  ambiguous_provider_result unexpected : ErrorCode
  unknown : ErrorCode
  provider : Text → ErrorCode
  hubspot_http : ℕ → ErrorCode
  owner_unreadable : ErrorCode → ErrorCode
  owner_conflict : ErrorCode → ErrorCode

-- `NewConversation.QueueStatus`
pub data QueueStatus : Type 0 where
  pending queued failed : QueueStatus

-- `NewConversation`, less the texts that are only copied
pub record QueueRow : Type 0 where
  pub pk : ℕ
  pub ticket_id : Text
  pub cycle_id : Option ℕ
  pub entered_queue_at : ℕ
  pub queue_status : QueueStatus
  pub assignment_attempts : ℕ
  pub last_assignment_attempt_at : Option ℕ
  pub next_assignment_attempt_at : Option ℕ
  pub failure_code : Option ErrorCode
  pub automatic_assignment_eligible : Bool
  pub claim_owner_token : Option ℕ
  pub claim_expires_at : Option ℕ
  pub claimed_at : Option ℕ

-- The identity and the type of an attempt that the UUID of its key is derived from
pub data IdempotencyKey : Type 0 where
  automatic manual : Text ⊎ ℕ → IdempotencyKey

-- `AssignmentAttempt`, with what its idempotency key is derived from
pub record AssignmentAttempt : Type 0 where
  pub pk : ℕ
  pub idempotency_key : IdempotencyKey
  pub ticket_id : Text
  pub cycle_id : Option ℕ
  pub queue_row : Option ℕ
  pub selected_agent : ℕ
  pub desired_hubspot_owner_id : ℕ
  pub prior_observed_owner_id : Option ℕ
  pub state : AttemptState
  pub reserved_at : ℕ
  pub external_applied_at : Option ℕ
  pub finalized_at : Option ℕ
  pub compensation_started_at : Option ℕ
  pub compensated_at : Option ℕ
  pub retry_count : ℕ
  pub next_retry_at : Option ℕ
  pub last_error_code : Option ErrorCode

-- The columns of `SupportConversationCycle` that the protocol works with
pub record CycleEntry : Type 0 where
  pub pk : ℕ
  pub state : CycleState

-- `AssignedConversation`
pub record AssignedRow : Type 0 where
  pub ticket_id : Text
  pub cycle_id : Option ℕ
  pub agent : ℕ
  pub hubspot_owner_id : ℕ
  pub assigned_at : ℕ

-- `AssignmentLog` of one attempt
pub record LogRow : Type 0 where
  pub attempt : ℕ
  pub agent : ℕ
  pub hubspot_owner_id : ℕ

-- `total_assignments` of an agent stands apart from the columns that the queue reads.
pub record Store : Type 0 where
  pub rows : List QueueRow
  pub attempts : List AssignmentAttempt
  pub agents : List Agent
  pub cycles : List CycleEntry
  pub assigned_rows : List AssignedRow
  pub logs : List LogRow
  pub total_assignments : ℕ → ℕ

-- The exceptions that escape: a missing row, a violated constraint, and the `ValueError`s.
pub data Fault : Type 0 where
  does_not_exist integrity_error cannot_record not_externally_applied : Fault
  belongs_to_stale_cycle multiple_rows provider_exception : Fault

abbrev pub row_of : ℕ → Store → Option QueueRow
row_of id s = find_by (λ r. r.pk) id s.rows

abbrev pub attempt_of : ℕ → Store → Option AssignmentAttempt
attempt_of id s = find_by (λ a. a.pk) id s.attempts

abbrev pub agent_of : ℕ → Store → Option Agent
agent_of id s = find_by (λ a. a.pk) id s.agents

abbrev pub cycle_of : ℕ → Store → Option CycleEntry
cycle_of id s = find_by (λ c. c.pk) id s.cycles

-- `save` and `update` of one row
abbrev pub write_row : ℕ → (QueueRow → QueueRow) → Store → Store
write_row id f s = record s { rows = modify (λ r. r.pk) id f s.rows }

abbrev pub write_attempt : ℕ → (AssignmentAttempt → AssignmentAttempt) → Store → Store
write_attempt id f s = record s { attempts = modify (λ a. a.pk) id f s.attempts }

abbrev pub write_agent : ℕ → (Agent → Agent) → Store → Store
write_agent id f s = record s { agents = modify (λ a. a.pk) id f s.agents }

abbrev pub write_cycle : ℕ → (CycleEntry → CycleEntry) → Store → Store
write_cycle id f s = record s { cycles = modify (λ c. c.pk) id f s.cycles }

abbrev pub is_queued_cycle : CycleState → Bool
is_queued_cycle Cycle.queued = true
is_queued_cycle s = false

abbrev pub same_option : Option ℕ → Option ℕ → Bool
same_option none none = true
same_option (some a) (some b) = a == b
same_option a b = false

-- `_attempt_scope`: the attempts of the row's cycle or, without one, those of its ticket that have none
unfoldable pub in_scope : Option ℕ → Text → AssignmentAttempt → Bool
in_scope (some c) ticket a = same_option a.cycle_id (some c)
in_scope none ticket a = text_eq a.ticket_id ticket && same_option a.cycle_id none

-- `identity`: the cycle or, without one, the ticket
abbrev pub identity_of : Option ℕ → Text → Text ⊎ ℕ
identity_of (some c) ticket = inr c
identity_of none ticket = inl ticket

-- `_assignment_idempotency_key`, of an automatic and of a manual attempt
abbrev pub idempotency_key_of : Option ℕ → Text → IdempotencyKey
idempotency_key_of c ticket = automatic (identity_of c ticket)

abbrev pub manual_key_of : Option ℕ → Text → IdempotencyKey
manual_key_of c ticket = manual (identity_of c ticket)

abbrev pub same_identity : Text ⊎ ℕ → Text ⊎ ℕ → Bool
same_identity (inl t) (inl u) = text_eq t u
same_identity (inr c) (inr d) = c == d
same_identity k l = false

abbrev pub same_key : IdempotencyKey → IdempotencyKey → Bool
same_key (automatic k) (automatic l) = same_identity k l
same_key (manual k) (manual l) = same_identity k l
same_key k l = false
