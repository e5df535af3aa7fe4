-- ===== src/Close/Apply.antt =====
-- `apply_close_occurrence` over the tables, and the closed record it makes.
use judah.Prelude.{
  ℕ, Bool, true, false, ◌&&◌, ◌||◌, not, Option, none, some, List, ◌∷◌, Text, text_eq, any, find,
  find_by, select, modify, remove_by, is_empty, ◌==◌, if◌then◌else◌, Result, ok, err, maybe,
}
use judah.Queue.{Agent, decrement_agent_chat_count}
use judah.Cycle
use judah.Close.{
  CloseClassification, applied_current, applied_historical, duplicate, conflict,
  TicketCloseOccurrence, TicketCloseResult, CycleRow, Snapshot, Instant, aware, naive, Fault,
  no_authority, lifecycle_error, rejected, unless_rejected, classify_close_occurrence,
  provider_decision,
}

-- `AssignedConversation`, less the texts that are only copied
pub record AssignedConversation : Type 0 where
  pub pk : ℕ
  pub hubspot_ticket_id : Text
  pub cycle : Option ℕ
  pub agent : Option ℕ
  pub hubspot_owner_id : ℕ
  pub entered_queue_at : Option ℕ
  pub assigned_at : Option ℕ

-- `NewConversation`, what a close reads of it
pub record NewConversation : Type 0 where
  pub pk : ℕ
  pub hubspot_ticket_id : Text
  pub cycle : Option ℕ

-- `ClosedConversation`, less the texts and the durations
pub record ClosedConversation : Type 0 where
  pub hubspot_ticket_id : Text
  pub cycle : Option ℕ
  pub agent : Option ℕ
  pub hubspot_owner_id : Option ℕ
  pub entered_queue_at : Option ℕ
  pub assigned_at : Option ℕ
  pub closed_at : Instant
  pub closed_by_owner_id : Option ℕ
  pub is_closed_by_system : Bool

pub record Store : Type 0 where
  pub cycles : List CycleRow
  pub assigned : List AssignedConversation
  pub pending : List NewConversation
  pub closed : List ClosedConversation
  pub agents : List Agent

-- The switches and the clock that a close reads, and whether the strict transitions of the conversation
-- succeed
pub record Setting : Type 0 where
  pub cycles_enforced : Bool
  pub capacity_enforced : Bool
  pub has_authority : Bool
  pub lifecycle_moves : Bool
  pub now : ℕ

abbrev pub same_cycle : Option ℕ → Option ℕ → Bool
same_cycle none none = true
same_cycle (some a) (some b) = a == b
same_cycle a b = false

-- `cycle=target, hubspot_ticket_id=ticket`
abbrev pub assigned_to : Option ℕ → Text → AssignedConversation → Bool
assigned_to target ticket a = same_cycle a.cycle target && text_eq a.hubspot_ticket_id ticket

abbrev pub waits_for : Option ℕ → Text → NewConversation → Bool
waits_for target ticket n = same_cycle n.cycle target && text_eq n.hubspot_ticket_id ticket

abbrev pub closes : Option ℕ → Text → ClosedConversation → Bool
closes none ticket c = same_cycle c.cycle none && text_eq c.hubspot_ticket_id ticket
closes (some t) ticket c = same_cycle c.cycle (some t)

abbrev pub same_owner : Option ℕ → ℕ → Bool
same_owner none owner = true
same_owner (some o) owner = o == 0 || o == owner

abbrev pub closed_record :
    Option ℕ → TicketCloseOccurrence → Option AssignedConversation → ClosedConversation
closed_record target o none = record {
  hubspot_ticket_id = o.ticket_id;
  cycle = target;
  agent = none;
  hubspot_owner_id = none;
  entered_queue_at = none;
  assigned_at = none;
  closed_at = o.effective_at;
  closed_by_owner_id = o.closing_owner_id;
  is_closed_by_system = false;
}
closed_record target o (some a) = record {
  hubspot_ticket_id = o.ticket_id;
  cycle = target;
  agent = a.agent;
  hubspot_owner_id = some a.hubspot_owner_id;
  entered_queue_at = a.entered_queue_at;
  assigned_at = a.assigned_at;
  closed_at = o.effective_at;
  closed_by_owner_id = o.closing_owner_id;
  is_closed_by_system = not (same_owner o.closing_owner_id a.hubspot_owner_id);
}

abbrev pub counted_down : Setting → ℕ → List Agent → Option Agent → Result Fault (List Agent)
counted_down w id agents none = ok agents
counted_down w id agents (some a) =
    elim (decrement_agent_chat_count w.has_authority w.capacity_enforced w.now a) [
      | ok a' ↦ ok (modify (λ a. a.pk) id (λ x. a') agents)
      | err e ↦ err no_authority
    ]

-- The chat of the agent, where the close is of the current attendance
abbrev pub given_back :
    Setting → Bool → Option AssignedConversation → List Agent → Result Fault (List Agent)
given_back w current none agents = ok agents
given_back w current (some a) agents =
    if current && not w.capacity_enforced
    then maybe (ok agents) (λ id. counted_down w id agents (find_by (λ a. a.pk) id agents)) a.agent
    else ok agents

abbrev pub effective : TicketCloseOccurrence → ℕ
effective o = at o.effective_at
  where
    at : Instant → ℕ
    at (aware t) = t
    at (naive t) = t

abbrev pub close_cycle : Option ℕ → TicketCloseOccurrence → List CycleRow → List CycleRow
close_cycle none o cycles = cycles
close_cycle (some t) o cycles =
    modify (λ c. c.pk) t (λ c. record c { state = Cycle.closed; closed_at = some (effective o) })
      cycles

abbrev pub without_assigned :
    Option AssignedConversation → List AssignedConversation → List AssignedConversation
without_assigned none rows = rows
without_assigned (some a) rows = remove_by (λ a. a.pk) a.pk rows

abbrev pub written :
    Option ℕ → TicketCloseOccurrence → Option AssignedConversation → List Agent → Store → Store
written target o a agents s = record {
  cycles = close_cycle target o s.cycles;
  assigned = without_assigned a s.assigned;
  pending = select (λ n. not (waits_for target o.ticket_id n)) s.pending;
  closed = closed_record target o a ∷ s.closed;
  agents = agents;
}

-- The transitions of the conversation end the transaction of a current close.
abbrev pub unless_stuck : Setting → Bool → Store → Result Fault Store
unless_stuck w current s = if current && not w.lifecycle_moves then err lifecycle_error else ok s

abbrev pub finish_close :
    Setting
    → Option ℕ
    → TicketCloseOccurrence
    → Bool
    → Option AssignedConversation
    → Store
    → Result Fault (List Agent)
    → Result Fault Store
finish_close w target o current a s (err f) = err f
finish_close w target o current a s (ok agents) =
    unless_stuck w current (written target o a agents s)

-- `_materialize`
unfoldable pub materialize :
    Setting → Option ℕ → TicketCloseOccurrence → Bool → Store → Result Fault Store
materialize w target o current s =
    let a = find (assigned_to target o.ticket_id) s.assigned in
    finish_close w target o current a s (given_back w current a s.agents)

abbrev pub is_applied : CloseClassification → Bool
is_applied applied_current = true
is_applied applied_historical = true
is_applied c = false

abbrev pub of_ticket : Text → CycleRow → Bool
of_ticket ticket c = text_eq c.hubspot_ticket_id ticket

-- A ticket without cycles that is still assigned or queued
abbrev pub is_active_legacy : Option ℕ → Text → Store → Bool
is_active_legacy (some t) ticket s = false
is_active_legacy none ticket s =
    any (assigned_to none ticket) s.assigned || any (waits_for none ticket) s.pending

abbrev pub existing_verdict : Option ℕ → CloseClassification
existing_verdict none = duplicate
existing_verdict (some t) = conflict

abbrev pub answered :
    TicketCloseResult → Result Fault Store → Result Fault (TicketCloseResult × Store)
answered r (ok s) = ok (r, s)
answered r (err f) = err f

-- The writes, unless the close is recorded already or the run is dry
abbrev pub apply_to :
    Setting
    → TicketCloseOccurrence
    → Bool
    → Store
    → TicketCloseResult
    → Result Fault (TicketCloseResult × Store)
apply_to w o dry_run s r =
    if any (closes r.cycle_id o.ticket_id) s.closed
      && not (is_active_legacy r.cycle_id o.ticket_id s)
    then ok (rejected r (existing_verdict r.cycle_id), s)
    else (if dry_run
        then ok (r, s)
        else answered r (materialize w r.cycle_id o r.closes_current_lifecycle s))

abbrev pub if_applied :
    Setting
    → TicketCloseOccurrence
    → Bool
    → Store
    → Result Fault TicketCloseResult
    → Result Fault (TicketCloseResult × Store)
if_applied w o dry_run s (err f) = err f
if_applied w o dry_run s (ok r) =
    if is_applied r.classification then apply_to w o dry_run s r else ok (r, s)

abbrev pub legacy_result : TicketCloseResult
legacy_result = record {
  classification = applied_current;
  cycle_id = none;
  closes_current_lifecycle = true;
}

abbrev pub legacy_classified :
    TicketCloseOccurrence → Option Snapshot → Result Fault TicketCloseResult
legacy_classified o none = ok legacy_result
legacy_classified o (some s) = unless_rejected legacy_result (provider_decision o s)

abbrev pub classified :
    Setting
    → List CycleRow
    → TicketCloseOccurrence
    → Option Snapshot
    → Bool
    → Result Fault TicketCloseResult
classified w cycles o snapshot allow_legacy =
    if is_empty cycles && (allow_legacy && not w.cycles_enforced)
    then legacy_classified o snapshot
    else classify_close_occurrence cycles o snapshot

-- `apply_close_occurrence`, whose transaction is rolled back where it raises
unfoldable pub apply_close_occurrence :
    Setting
    → TicketCloseOccurrence
    → Option Snapshot
    → Bool
    → Bool
    → Store
    → Result Fault (TicketCloseResult × Store)
apply_close_occurrence w o snapshot dry_run allow_legacy s =
    if_applied w o dry_run s
      (classified w (select (of_ticket o.ticket_id) s.cycles) o snapshot allow_legacy)
