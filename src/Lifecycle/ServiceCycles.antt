-- ===== src/Lifecycle/ServiceCycles.antt =====
-- apps/ai_agents/services/service_cycles.py over the attendances of one instance, newest first.
-- A `now` stands for the clock readings of one call.
use judah.Prelude.{
  ℕ, ◌+◌, Bool, true, false, Option, none, some, List, [], ◌∷◌, Text, get_or, ◌==◌, if◌then◌else◌,
}
use judah.Lifecycle.{State, is_terminal}

-- A reason that a caller gives, or one of the service's own texts.
pub data Reason : Type 0 where
  given : Text → Reason
  blank legacy_adopted legacy_terminal recovered superseded : Reason

pub data CycleStatus : Type 0 where
  open_cycle closed_cycle : CycleStatus

-- `ConversationServiceCycle`
pub record ServiceCycle : Type 0 where
  pub sequence : ℕ
  pub status : CycleStatus
  pub opened_at : ℕ
  pub closed_at : Option ℕ
  pub opened_from_state : Option State
  pub opened_reason : Reason
  pub opened_by_event_id : Text
  pub closed_reason : Reason

-- The fields of `ConversationInstance` that the lifecycle works with.
pub record Instance : Type 0 where
  pub state : State
  pub state_version : ℕ
  pub opened_at : ℕ
  pub last_activity_at : Option ℕ
  pub closed_at : Option ℕ
  pub assigned_agent_id : Option ℕ

abbrev pub is_open : ServiceCycle → Bool
is_open c = elim c.status [ open_cycle ↦ true | closed_cycle ↦ false ]

-- `.filter(status=OPEN).first()` in the table's order by sequence: the oldest open one.
unfoldable pub first_open : List ServiceCycle → Option ServiceCycle
first_open [] = none
first_open (c ∷ cs) =
    let older = first_open cs in
    elim older [ some o ↦ some o | none ↦ if is_open c then some c else none ]

-- `.order_by("-sequence").first()`
abbrev pub latest : List ServiceCycle → Option ServiceCycle
latest [] = none
latest (c ∷ cs) = some c

-- `cycle.save(...)`: the row with its sequence is written.
unfoldable pub save_cycle : ServiceCycle → List ServiceCycle → List ServiceCycle
save_cycle c [] = []
save_cycle c (d ∷ cs) = if d.sequence == c.sequence then c ∷ cs else d ∷ save_cycle c cs

unfoldable pub bootstrap_legacy_cycle : Instance → ℕ → ServiceCycle
bootstrap_legacy_cycle i now = record {
  sequence = 1;
  status = if is_terminal i.state then closed_cycle else open_cycle;
  opened_at = i.opened_at;
  closed_at = if is_terminal i.state then some (get_or i.closed_at now) else none;
  opened_from_state = none;
  opened_reason = legacy_adopted;
  opened_by_event_id = [];
  closed_reason = if is_terminal i.state then legacy_terminal else blank;
}

abbrev pub recovered_cycle : ServiceCycle → ℕ → ServiceCycle
recovered_cycle last now = record {
  sequence = last.sequence + 1;
  status = open_cycle;
  opened_at = now;
  closed_at = none;
  opened_from_state = last.opened_from_state;
  opened_reason = recovered;
  opened_by_event_id = [];
  closed_reason = blank;
}

-- `ensure_current_service_cycle`: the effective cycle, and the table after it.
unfoldable pub ensure_current_service_cycle :
    Instance → ℕ → List ServiceCycle → ServiceCycle × List ServiceCycle
unfolding first_open bootstrap_legacy_cycle
ensure_current_service_cycle i now cycles = elim (first_open cycles) [
  | some o ↦ (o, cycles)
  | none ↦ elim (latest cycles) [
    | none ↦ (bootstrap_legacy_cycle i now, bootstrap_legacy_cycle i now ∷ [])
    | some last ↦
        if is_terminal i.state
        then (last, cycles)
        else (recovered_cycle last now, recovered_cycle last now ∷ cycles)
  ]
]

-- `closed_reason or "Superseded …"`: an empty text is replaced.
abbrev or_superseded : Reason → Reason
or_superseded blank = superseded
or_superseded (given []) = superseded
or_superseded r = r

-- The open cycle, if there is one, is superseded.
abbrev pub superseded_open : ℕ → List ServiceCycle → List ServiceCycle
superseded_open now cycles = elim (first_open cycles) [
  | none ↦ cycles
  | some o ↦
      save_cycle
        (record o {
          status = closed_cycle;
          closed_at = some (get_or o.closed_at now);
          closed_reason = or_superseded o.closed_reason;
        })
        cycles
]

abbrev pub reopened_cycle : ℕ → State → Text → Text → ℕ → ServiceCycle
reopened_cycle sequence from_state reason event now = record {
  sequence = sequence + 1;
  status = open_cycle;
  opened_at = now;
  closed_at = none;
  opened_from_state = some from_state;
  opened_reason = given reason;
  opened_by_event_id = event;
  closed_reason = blank;
}

-- The table with at least the first historical cycle in it.
abbrev pub adopted : Instance → ℕ → List ServiceCycle → List ServiceCycle
adopted i now [] = bootstrap_legacy_cycle i now ∷ []
adopted i now (c ∷ cs) = c ∷ cs

abbrev pub latest_sequence : List ServiceCycle → ℕ
latest_sequence [] = 0
latest_sequence (c ∷ cs) = c.sequence

unfoldable pub reopen_service_cycle :
    Instance → State → Text → Text → ℕ → List ServiceCycle → ServiceCycle × List ServiceCycle
unfolding bootstrap_legacy_cycle first_open save_cycle
reopen_service_cycle i from_state reason event now cycles =
    let table = superseded_open now (adopted i now cycles) in
    let fresh = reopened_cycle (latest_sequence table) from_state reason event now in
    (fresh, fresh ∷ table)

unfoldable pub close_current_service_cycle :
    Instance → Text → Option ℕ → ℕ → List ServiceCycle → ServiceCycle × List ServiceCycle
unfolding ensure_current_service_cycle save_cycle
close_current_service_cycle i reason occurred_at now cycles =
    let (c, table) = ensure_current_service_cycle i now cycles in
    let done = record c {
      status = closed_cycle;
      closed_at = some (get_or occurred_at now);
      closed_reason = given reason;
    } in
    if is_open c then (done, save_cycle done table) else (c, table)
