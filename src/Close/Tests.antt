-- ===== src/Close/Tests.antt =====
-- A ticket with a closed attendance and a current one, and the theorems there.
use judah.Prelude.{ℕ, ◌==◌, ◌≤◌, refl, true, false, none, some, [], ◌∷◌, Text, codes, arith, count}
use judah.Cycle
use judah.Close.{
  aware, TicketCloseOccurrence, TicketCloseResult, applied_current, CycleRow, Snapshot, missing,
  provider_decision, resolve_close_target,
}
use judah.Close.Target.{IsResolved, resolve_close_target-IsResolved}
use judah.Close.Apply.{materialize, AssignedConversation, Store, Setting, apply_close_occurrence}
use judah.Close.Confirmed.{IsAllowed, apply_close_occurrence-IsAllowed}
use judah.Close.Effect.{IsEffect, apply_close_occurrence-IsEffect}

abbrev ticket : Text
ticket = codes "42"

abbrev past : CycleRow
past = record {
  pk = 1;
  source_system = codes "hubspot";
  source_account_id = codes "7";
  hubspot_ticket_id = ticket;
  entered_stage_at = some 100;
  state = Cycle.closed;
  closed_at = some 150;
}

abbrev current : CycleRow
current = record past {
  pk = 2;
  entered_stage_at = some 200;
  state = Cycle.assigned;
  closed_at = none;
}

abbrev now_closed : TicketCloseOccurrence
now_closed = record {
  ticket_id = ticket;
  effective_at = aware 300;
  closing_owner_id = some 11;
  source_event_id = [];
}

abbrev snapshot : Snapshot
snapshot = record {
  id = ticket;
  is_complete = true;
  entered_novo_at = missing;
  is_closed_stage = true;
  is_support_pipeline = true;
  is_archived = false;
}

abbrev conversation : AssignedConversation
conversation = record {
  pk = 5;
  hubspot_ticket_id = ticket;
  cycle = some 2;
  agent = none;
  hubspot_owner_id = 11;
  entered_queue_at = some 200;
  assigned_at = some 210;
}

abbrev store : Store
store = record {
  cycles = past ∷ current ∷ [];
  assigned = conversation ∷ [];
  pending = [];
  closed = [];
  agents = [];
}

abbrev setting : Setting
setting = record {
  cycles_enforced = true;
  capacity_enforced = false;
  has_authority = true;
  lifecycle_moves = true;
  now = 400;
}

resolve_close_target-IsResolved_example :
    IsResolved 300 (past ∷ current ∷ []) (resolve_close_target (past ∷ current ∷ []) now_closed)
resolve_close_target-IsResolved_example =
    resolve_close_target-IsResolved 300 (past ∷ current ∷ []) now_closed refl refl

unique_keys : (id : ℕ) → count (λ a. a.pk == id) store.assigned ≤ 1
unfolding count
unique_keys id = ground arith

apply_close_occurrence-IsEffect_example :
    IsEffect now_closed
      (some snapshot)
      false
      store
      (apply_close_occurrence setting now_closed (some snapshot) false false store)
apply_close_occurrence-IsEffect_example =
    apply_close_occurrence-IsEffect setting now_closed (some snapshot) false store unique_keys false

abbrev applied : TicketCloseResult
applied = record {
  classification = applied_current;
  cycle_id = some 2;
  closes_current_lifecycle = true;
}

-- A ticket without cycles, while cycles are not enforced
abbrev without_cycles : Store
without_cycles = record store { cycles = []; assigned = [] }

abbrev legacy_setting : Setting
legacy_setting = record setting { cycles_enforced = false }

apply_close_occurrence-IsAllowed_example :
    IsAllowed legacy_setting now_closed (some snapshot) true without_cycles
unfolding apply_close_occurrence provider_decision materialize
apply_close_occurrence-IsAllowed_example =
    apply_close_occurrence-IsAllowed legacy_setting now_closed true true without_cycles
      (some snapshot) (record applied { cycle_id = none }) without_cycles refl refl
