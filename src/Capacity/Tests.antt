-- ===== src/Capacity/Tests.antt =====
-- One agent with an occupied and a reserved ticket, and the theorems there.
use judah.Prelude.{
  ℕ, ◌≤◌, ◌≡◌, refl, true, none, some, List, [], ◌∷◌, arith, find_by, count, modify,
}
use judah.Capacity.{
  enforce, Occupancy, active, unknown, Reservation, held, Store, AgentCapacity, ready, of_attempt,
  of_reassignment, occupied, reserved, distinct, capacity_count, capacity_ready, hold_capacity,
  conclude_reservation, materialize, degrade_agents,
}
use judah.Capacity.Held.{
  has_pk, hold_capacity-within, IsConcluded, conclude_reservation-IsConcluded,
}
use judah.Capacity.Calls.{IsAccounted, Call, holds, concludes, degrades, run, run-IsAccounted}

abbrev busy : Occupancy
busy = record { pk = 21; agent = some 1; state = active; revision = 4 }

abbrev new_ticket : Occupancy
new_ticket = record { pk = 22; agent = none; state = unknown; revision = 0 }

-- The reservation of a ticket that the agent occupies by now
abbrev pending : Reservation
pending = record {
  pk = 31;
  operation_key = of_attempt 7;
  occupancy = 21;
  agent = 1;
  state = held;
  held_at = 90;
  concluded_at = none;
  conclusion_reason = [];
}

abbrev agent : AgentCapacity
agent = record {
  pk = 1;
  current_simultaneous_chats = 1;
  max_simultaneous_chats = some 2;
  capacity_state = ready;
  capacity_reconciled_at = some 95;
  capacity_revision = 3;
}

abbrev store : Store
store = record {
  occupancies = busy ∷ new_ticket ∷ [];
  reservations = pending ∷ [];
  agents = agent ∷ [];
}

one_ticket : capacity_count 1 store ≡ 1
unfolding capacity_count reserved occupied distinct
one_ticket = refl

is_ready : capacity_ready 100 60 agent store ≡ true
unfolding capacity_ready capacity_count reserved occupied distinct
is_ready = refl

is_there : find_by (λ r. r.pk) 31 store.reservations ≡ some pending
unfolding find_by
is_there = refl

unique_keys : (id : ℕ) → count (has_pk id) store.reservations ≤ 1
unfolding count
unique_keys id = ground arith

hold_capacity-within_example :
    capacity_count 1 (hold_capacity enforce 100 32 new_ticket 1 (of_reassignment 5) store).1 ≤ 2
hold_capacity-within_example =
    hold_capacity-within enforce 100 32 new_ticket 1 (of_reassignment 5) store unique_keys agent 60
      is_ready

conclude_reservation-IsConcluded_example :
    IsConcluded 110 true pending store (conclude_reservation 110 true [] pending store)
conclude_reservation-IsConcluded_example =
    conclude_reservation-IsConcluded 110 true [] pending store is_there

store-IsAccounted : IsAccounted store
unfolding capacity_count reserved occupied distinct
store-IsAccounted = record { one_pk = unique_keys; marked = (refl, tt); projected = (refl, tt) }

abbrev calls : List Call
calls =
    concludes 110 true [] pending
    ∷ degrades (1 ∷ [])
    ∷ holds 120 32 new_ticket 1 (of_reassignment 5)
    ∷ []

run-IsAccounted_example : IsAccounted (run calls store)
unfolding count conclude_reservation find_by modify materialize degrade_agents
run-IsAccounted_example =
    run-IsAccounted calls store store-IsAccounted
      (is_there, (tt, ((refl, (λ t. absurd (ground arith), tt)), tt)))
