-- ===== src/Assignment/Manual.antt =====
-- The reservation of an agent that someone chose.
use judah.Prelude.{
  ℕ, Bool, ◌&&◌, ◌||◌, not, Option, none, some, Text, text_eq, ◌==◌, if◌then◌else◌, select, find,
  Result, ok, err, maybe,
}
use judah.Matchmaker.Durable.{Reservation, other_reason, skipped_stale_cycle, existing_attempt}
use judah.Queue.{Agent}
use judah.Queue.Eligibility.{evaluate_persisted_agent}
use judah.Assignment.{
  AssignmentAttempt, QueueRow, Store, Fault, does_not_exist, agent_of, cycle_of, is_live,
  is_queued_cycle, manual_key_of,
}
use judah.Assignment.Ready.{earliest}
use judah.Assignment.Reserve.{
  Surroundings, without_attempt, with_attempt, Turn, answers, raises, continues, reserve_with,
  is_allowed_now, scoped,
}

-- An answer of a manual reservation names no row.
abbrev pub ManualEffect : Type 0
ManualEffect = Result Fault Reservation × Store

abbrev pub refuses : Store → ManualEffect
refuses s = (ok (without_attempt other_reason none), s)

abbrev pub nameless : Reservation → Reservation
nameless r = record r { queue_row_id = none }

abbrev pub of_turn : Turn × Store → ManualEffect
of_turn (answers r, s) = (ok (nameless r), s)
of_turn (raises f, s) = (err f, s)
of_turn (continues, s) = refuses s

-- The agent is locked and checked again, against the revision of the one that was verified.
abbrev pub with_agent : Surroundings → Agent → QueueRow → Option Agent → Store → ManualEffect
with_agent w candidate r none s = (err does_not_exist, s)
with_agent w candidate r (some a) s =
    if is_allowed_now w a && a.availability_revision == candidate.availability_revision
    then of_turn (reserve_with (manual_key_of r.cycle_id r.ticket_id) w r a s)
    else refuses s

abbrev pub unless_live :
    Surroundings → ℕ → Agent → QueueRow → Option AssignmentAttempt → Store → ManualEffect
unless_live w id candidate r none s = with_agent w candidate r (agent_of id s) s
unless_live w id candidate r (some a) s = (ok (nameless (with_attempt existing_attempt r a)), s)

abbrev pub on_queued_row : Surroundings → ℕ → Agent → QueueRow → Store → ManualEffect
on_queued_row w id candidate r s =
    unless_live w id candidate r (find (scoped r is_live) s.attempts) s

abbrev pub on_cycle : Surroundings → ℕ → Agent → QueueRow → Option ℕ → Store → ManualEffect
on_cycle w id candidate r none s = on_queued_row w id candidate r s
on_cycle w id candidate r (some c) s =
    maybe (err does_not_exist, s)
      (λ e.
        if is_queued_cycle e.state
        then on_queued_row w id candidate r s
        else (ok (without_attempt skipped_stale_cycle none), s))
      (cycle_of c s)

-- The transaction, on the row of the ticket that entered first
abbrev pub on_ticket : Surroundings → ℕ → Agent → Text → Store → ManualEffect
on_ticket w id candidate ticket s =
    maybe (refuses s) (λ r. on_cycle w id candidate r r.cycle_id s)
      (earliest (select (λ r. text_eq r.ticket_id ticket) s.rows))

abbrev pub is_vetoed : Surroundings → Agent → Bool
is_vetoed w a =
    w.settings.absence_safe_enforced && not (evaluate_persisted_agent w.settings w.now a).allowed

-- `reserve_manual_assignment`; `remote_allows` is the verdict of HubSpot on the agent.
unfoldable pub reserve_manual_assignment : Surroundings → Bool → Text → ℕ → Store → ManualEffect
reserve_manual_assignment w remote_allows ticket id s =
    maybe (err does_not_exist, s)
      (λ candidate.
        if is_vetoed w candidate || not remote_allows
        then refuses s
        else on_ticket w id candidate ticket (w.meanwhile s))
      (agent_of id s)
