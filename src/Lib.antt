-- ===== src/Lib.antt =====
-- JUDAH assigns the conversations of a help desk: HubSpot tickets enter a support queue, agents who are
-- available and eligible receive them, an AI attendant answers first in a conversation lifecycle of its
-- own, and events go to n8n through a durable outbox. This library models the parts that decide and
-- keep state, and says what holds of them.
--
-- The parts, and the files that model them:
--
--   Cycle        apps/support/conversation_cycle_service.py: the occurrences of the entry stage. The
--                state machine (Cycle), the parsing of timestamps and the keys (Cycle/Identity), the
--                admission decision (Cycle/Admission: classify_cycle_admission, admit_cycle_occurrence)
--                and open_or_get_cycle over the table SupportConversationCycle of
--                apps/support/models.py with its two unique constraints (Cycle/Open).
--   Lifecycle    apps/ai_agents/services/lifecycle.py and service_cycles.py: the diagram of states and
--                _validate_transition (Lifecycle), the attendances of an instance
--                (Lifecycle/ServiceCycles), transition and _close_all_ticket_instances
--                (Lifecycle/Machine).
--   Outbox       apps/webhooks/n8n_outbox.py: the rows and the leases of threads (Outbox), the delay of
--                a retry (Outbox/Retry), the classes of answers (Outbox/Response), the claim
--                (Outbox/Claim), the records of success and failure (Outbox/Record), a whole delivery
--                (Outbox/Delivery) and the selection of due rows (Outbox/Due). Outbox/Leases takes the
--                claims and records of several workers as steps on one store.
--   Queue        apps/support/queue_service.py: the eligible agents, their order and the choice
--                (Queue); apps/support/eligibility_service.py: the decisions on one agent
--                (Queue/Eligibility).
--   Matchmaker   apps/support/matchmaker_service.py: one item of the queue and its facade
--                (Matchmaker/Item) and the drain (Matchmaker/Drain), over the interface
--                Matchmaker/Durable of apps/support/durable_assignment_service.py.
--   Assignment   apps/support/durable_assignment_service.py, where capacity is not enforced: the tables
--                (Assignment), the row that is next (Assignment/Ready), reserve_next_assignment
--                (Assignment/Reserve), reserve_manual_assignment (Assignment/Manual), the record of an
--                effect, finalize_assignment_attempt and compensate_assignment_attempt
--                (Assignment/Settle), _execute_assignment_attempt and reconcile_ambiguous_attempt
--                around the calls of HubSpot (Assignment/Effect), retry_assignment_attempt and
--                repair_assignment_attempts (Assignment/Repair). Assignment/Keeps lists the writes of
--                the protocol, Assignment/Calls the sequences of its calls.
--   Calendar     apps/support/helpdesk_calendar/service.py: dates and rows (Calendar), the rules that match
--                a day and the tables from before (Calendar/Rules, with the hours and the holidays of
--                apps/ai_agents/utils/business_rules.py), resolve_day, resolve_range and
--                _current_resolution (Calendar/Resolve), save_rule and deactivate_rule (Calendar/Edit).
--   Cohort       apps/support/opening_cohort_service.py: the agents awaited at the opening of a window and
--                their cohort (Cohort), the barrier and the finalization over the tables
--                (Cohort/Barrier); Cohort/Calls takes the sequences of their calls.
--   Capacity     apps/support/capacity_service.py: the tickets that agents occupy or have reserved, holding
--                and concluding a reservation, the projected counts (Capacity); Capacity/Calls takes the
--                sequences of the calls.
--   Close        apps/support/ticket_close_service.py: the cycle that a close belongs to and the decision on
--                the provider's ticket (Close), apply_close_occurrence over the tables (Close/Apply).
--   Occurrence   apps/support/lifecycle_occurrence_service.py: the rows of the provider's evidence (Occurrence)
--                and their recording, which resolves pending closes by Close (Occurrence/Record).
--   Runtime      apps/support/availability_runtime.py: the authority of a runtime over the routing, the
--                canary and the gate of automatic assignment (Runtime).
--   Breaker      common/circuit_breaker.py: the breaker that guards calls of providers.
--   CacheLock    apps/support/owned_cache_lock.py: the lock in Redis that one owner holds.
--   Prelude      what the parts share: results of code that raises, texts, lists, a stable sort.
--
-- The drain chooses rows through the durable protocol (Assignment/Exclusive joins the two), which uses
-- the eligibility decisions of Queue; a row of the queue hangs on a cycle of Cycle; an assignment moves
-- the conversations of Lifecycle. The barrier of Cohort decides before a reservation and enters Assignment
-- as an argument; the occurrences of Occurrence come before the cycles and the closes.
--
-- Records stand for model instances and dataclasses, data types for enumerations and classes of
-- exceptions. A table is a list of rows; what a call does in its transaction is a function of the
-- table, and a lock held over it is what makes this one step. Instants and durations are natural
-- numbers of microseconds (clock seconds in Breaker). Clock readings, the draw of the jitter, the answer
-- of an HTTP call and the rows that other writers insert are arguments, so the theorems hold for all
-- of them; in Assignment the writes of other sessions between two transactions are a function of the
-- store. SHA-256 and the ISO format of an instant are parameters of Cycle/Identity, and Redis
-- is a parameter of CacheLock with the documented laws of its commands; the reading of a UUID
-- and of a normalised text are parameters of Runtime; a time zone is an argument of
-- Calendar, and so is the reading of a time of day from its text. Logging and metrics are left out,
-- and the columns `created_at` and `updated_at` that rows only carry along; an agent keeps its `updated_at`.
--
-- Loops are structural recursion, but for the drain: it runs on fuel, one more than the number of rows
-- that were pending when it began. This is enough, since every item that lets it go on has a row not
-- seen before.
--
-- Not modelled: the purge of old attempts, the branches of the assignment under enforced capacity, the
-- intake of webhooks, the event log and the routing of the conversations, the reconciliation of owners,
-- which are parts of their own; request handlers, schemas, tasks, clients of providers and the
-- language-model agents, which are input and output.

pub mod Prelude
pub mod Cycle
pub mod Lifecycle
pub mod Outbox
pub mod Breaker
pub mod Queue
pub mod Matchmaker
pub mod Assignment
pub mod Calendar
pub mod CacheLock
pub mod Cohort
pub mod Capacity
pub mod Close
pub mod Runtime
pub mod Occurrence
