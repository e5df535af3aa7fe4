-- ===== src/Capacity.antt =====
-- apps/support/capacity_service.py: occupied tickets, the reservations of capacity, and the counts of the
-- agents that are projected from them. Instants are microseconds.
mod Tests
mod Identities
mod Counts
pub mod Held
pub mod Calls
use judah.Prelude.{
  ℕ, zero, suc, ◌+◌, Bool, true, false, ◌&&◌, Option, none, some, List, [], ◌∷◌, ◌++◌, contains,
  select, map, length, find_by, modify, find, get_or, ltb, leb, ◌==◌, if◌then◌else◌, Text, text_eq,
  codes, strip, is_empty, Result, ok, err, maybe,
}

pub data CapacityMode : Type 0 where
  off shadow enforce : CapacityMode

-- `ValueError`, by its message
pub data ConfigError : Type 0 where
  invalid_mode missing_account : ConfigError

-- `capacity_mode`
unfoldable pub capacity_mode : Text → Result ConfigError CapacityMode
capacity_mode s =
    if text_eq s (codes "off")
    then ok off
    else (if text_eq s (codes "shadow")
        then ok shadow
        else (if text_eq s (codes "enforce") then ok enforce else err invalid_mode))

-- `capacity_enforced`
abbrev pub capacity_enforced : CapacityMode → Bool
capacity_enforced enforce = true
capacity_enforced m = false

-- `capacity_account`
unfoldable pub capacity_account : Text → Result ConfigError Text
capacity_account portal = if is_empty (strip portal) then err missing_account else ok (strip portal)

pub data OccupancyState : Type 0 where
  unknown active unassigned closed out_of_scope : OccupancyState

-- `SupportTicketOccupancy`, what the counts read of it and its revision
pub record Occupancy : Type 0 where
  pub pk : ℕ
  pub agent : Option ℕ
  pub state : OccupancyState
  pub revision : ℕ

pub data ReservationState : Type 0 where
  held converted released : ReservationState

-- The operation that holds capacity
pub data Operation : Type 0 where
  of_attempt of_reassignment : ℕ → Operation

abbrev pub same_operation : Operation → Operation → Bool
same_operation (of_attempt a) (of_attempt b) = a == b
same_operation (of_reassignment a) (of_reassignment b) = a == b
same_operation x y = false

-- `AgentCapacityReservation`; the operation stands for its key and for the two references to it.
pub record Reservation : Type 0 where
  pub pk : ℕ
  pub operation_key : Operation
  pub occupancy : ℕ
  pub agent : ℕ
  pub state : ReservationState
  pub held_at : ℕ
  pub concluded_at : Option ℕ
  pub conclusion_reason : Text

pub data CapacityState : Type 0 where
  uninitialized ready degraded : CapacityState

-- The columns of `Agent` that hold its capacity
pub record AgentCapacity : Type 0 where
  pub pk : ℕ
  pub current_simultaneous_chats : ℕ
  pub max_simultaneous_chats : Option ℕ
  pub capacity_state : CapacityState
  pub capacity_reconciled_at : Option ℕ
  pub capacity_revision : ℕ

pub record Store : Type 0 where
  pub occupancies : List Occupancy
  pub reservations : List Reservation
  pub agents : List AgentCapacity

abbrev pub is_active : OccupancyState → Bool
is_active active = true
is_active s = false

abbrev pub is_held : ReservationState → Bool
is_held held = true
is_held s = false

abbrev pub is_released : ReservationState → Bool
is_released released = true
is_released s = false

abbrev pub is_ready : CapacityState → Bool
is_ready ready = true
is_ready s = false

abbrev pub is_of : ℕ → Option ℕ → Bool
is_of agent none = false
is_of agent (some a) = a == agent

-- The occupied tickets of an agent
unfoldable pub occupied : ℕ → List Occupancy → List ℕ
occupied agent [] = []
occupied agent (o ∷ os) =
    let rest = occupied agent os in
    if is_of agent o.agent && is_active o.state then o.pk ∷ rest else rest

abbrev pub holds_for : ℕ → Reservation → Bool
holds_for agent r = r.agent == agent && is_held r.state

-- The tickets reserved for an agent
unfoldable pub reserved : ℕ → List Reservation → List ℕ
reserved agent [] = []
reserved agent (r ∷ rs) =
    let rest = reserved agent rs in if holds_for agent r then r.occupancy ∷ rest else rest

-- `set(xs)`, in some order
unfoldable pub distinct : List ℕ → List ℕ
distinct [] = []
distinct (x ∷ xs) = let rest = distinct xs in if contains x xs then rest else x ∷ rest

-- `capacity_count`
unfoldable pub capacity_count : ℕ → Store → ℕ
capacity_count agent s =
    length (distinct (reserved agent s.reservations ++ occupied agent s.occupancies))

-- The count of the agent, where it is projected
abbrev pub projected : CapacityMode → ℕ → AgentCapacity → ℕ
projected enforce n a = n
projected m n a = a.current_simultaneous_chats

abbrev pub materialized : CapacityMode → Store → AgentCapacity → AgentCapacity
materialized mode s a = record a {
  capacity_revision = a.capacity_revision + 1;
  current_simultaneous_chats = projected mode (capacity_count a.pk s) a;
}

-- `materialize`
unfoldable pub materialize : CapacityMode → List ℕ → Store → Store
materialize mode ids s = record s {
  agents = map (λ a. if contains a.pk ids then materialized mode s a else a) s.agents;
}

abbrev pub limit_of : Option ℕ → ℕ
limit_of limit = get_or limit 5

-- `capacity_reconciled_at` is at most the freshness ago.
abbrev pub is_fresh : ℕ → ℕ → Option ℕ → Bool
is_fresh now freshness none = false
is_fresh now freshness (some t) = leb now (t + freshness)

-- `capacity_ready`
unfoldable pub capacity_ready : ℕ → ℕ → AgentCapacity → Store → Bool
capacity_ready now freshness a s =
    is_ready a.capacity_state
    && (is_fresh now freshness a.capacity_reconciled_at
        && ltb (capacity_count a.pk s) (limit_of a.max_simultaneous_chats))

abbrev pub new_reservation : ℕ → ℕ → Occupancy → ℕ → Operation → Reservation
new_reservation now fresh o agent key = record {
  pk = fresh;
  operation_key = key;
  occupancy = o.pk;
  agent = agent;
  state = held;
  held_at = now;
  concluded_at = none;
  conclusion_reason = [];
}

abbrev pub held_again : ℕ → Reservation → Reservation
held_again now r = record r {
  state = held;
  held_at = now;
  concluded_at = none;
  conclusion_reason = [];
}

abbrev pub save : (Reservation → Reservation) → Reservation → Store → Store
save f r s = record s { reservations = modify (λ r. r.pk) r.pk f s.reservations }

-- A reservation of the operation that is there is held again if it was released.
abbrev pub held_of : ℕ → Reservation → Store → Reservation × Store
held_of now r s =
    if is_released r.state then (held_again now r, save (held_again now) r s) else (r, s)

abbrev pub created : Reservation → Store → Reservation × Store
created r s = (r, record s { reservations = r ∷ s.reservations })

-- `AgentCapacityReservation.objects.get_or_create`, and the state after it
unfoldable pub get_or_hold : ℕ → ℕ → Occupancy → ℕ → Operation → Store → Reservation × Store
get_or_hold now fresh o agent key s =
    maybe (created (new_reservation now fresh o agent key) s) (λ r. held_of now r s)
      (find (λ r. same_operation r.operation_key key) s.reservations)

abbrev pub bump : Occupancy → Store → Store
bump o s = record s {
  occupancies = modify (λ o. o.pk) o.pk (λ x. record x { revision = o.revision + 1 }) s.occupancies;
}

-- `hold_capacity`
unfoldable pub hold_capacity :
    CapacityMode → ℕ → ℕ → Occupancy → ℕ → Operation → Store → Reservation × Store
hold_capacity mode now fresh o agent key s =
    let (r, s') = get_or_hold now fresh o agent key s in
    (r, materialize mode (agent ∷ []) (bump o s'))

abbrev pub conclusion : Bool → ReservationState
conclusion true = converted
conclusion false = released

-- `reason[:128]`
unfoldable pub clipped : ℕ → Text → Text
clipped zero s = []
clipped (suc n) [] = []
clipped (suc n) (c ∷ s) = c ∷ clipped n s

abbrev pub concluded : ℕ → Bool → Text → Reservation → Reservation
concluded now is_converted reason r = record r {
  state = conclusion is_converted;
  concluded_at = some now;
  conclusion_reason = clipped 128 reason;
}

-- `conclude_reservation`
unfoldable pub conclude_reservation : ℕ → Bool → Text → Reservation → Store → Store
conclude_reservation now is_converted reason r s =
    if is_held r.state then save (concluded now is_converted reason) r s else s

abbrev pub degraded_agent : AgentCapacity → AgentCapacity
degraded_agent a = record a {
  capacity_state = degraded;
  capacity_revision = a.capacity_revision + 1;
}

-- `degrade_agents`
unfoldable pub degrade_agents : List ℕ → Store → Store
degrade_agents ids s = record s {
  agents = map (λ a. if contains a.pk ids then degraded_agent a else a) s.agents;
}
