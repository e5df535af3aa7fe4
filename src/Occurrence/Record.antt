-- ===== src/Occurrence/Record.antt =====
-- `record_proven_occurrence`, `record_pending_close` and `mark_processed` over the table.
use judah.Prelude.{
  ℕ, ◌+◌, Bool, true, false, ◌||◌, Option, none, some, List, [], ◌∷◌, ◌++◌, Text, strip, is_empty,
  any, find, modify, if◌then◌else◌, Result, ok, err, maybe,
}
use judah.Close
use judah.Close.{Instant, aware, naive, TicketCloseOccurrence, resolve_close_target}
use judah.Occurrence.{
  Evidence, EvidenceStatus, Occurrence, OccurrenceError, OccurrenceType, ProcessingStatus, closed,
  does_not_exist, has_identity, invalid_evidence, key_of, materialization_pending, materialized,
  new_occurrence, pending, pending_close, processed, proven, reconcile_delay, same_key, waits_as,
}

-- `objects.get` of the temporal identity
abbrev pub read_again : Evidence → ℕ → List Occurrence → Result OccurrenceError Occurrence
read_again e t table = maybe (err does_not_exist) (λ o. ok o) (find (has_identity e t) table)

-- `objects.create`, or the read after a constraint forbids it
abbrev pub create_or_read :
    ℕ → ℕ → Evidence → ℕ → List Occurrence → Result OccurrenceError Occurrence × List Occurrence
create_or_read now fresh e t table =
    if any (λ o. has_identity e t o || same_key o.evidence_key (key_of e t)) table
    then (read_again e t table, table)
    else (ok (new_occurrence now fresh e t), new_occurrence now fresh e t ∷ table)

-- The save of a pending close, or the read after the temporal identity forbids it
abbrev pub materialize_or_read :
    ℕ
    → Evidence
    → ℕ
    → Occurrence
    → List Occurrence
    → Result OccurrenceError Occurrence × List Occurrence
materialize_or_read now e t o table =
    if any (has_identity e t) table
    then (read_again e t table, table)
    else (ok (materialized now e t o), modify (λ o. o.pk) o.pk (materialized now e t) table)

abbrev pub close_of : Evidence → TicketCloseOccurrence
close_of e = record {
  ticket_id = e.ticket_id;
  effective_at = e.occurred_at;
  closing_owner_id = none;
  source_event_id = [];
}

-- The pending close of the cycle that the close belongs to
abbrev pub pending_of :
    OccurrenceType → Evidence → List Close.CycleRow → List Occurrence → Option Occurrence
pending_of closed e cycles table =
    find
      (waits_as (
        pending_close e.account_id e.ticket_id (resolve_close_target cycles (close_of e)).cycle_id))
      table
pending_of k e cycles table = none

abbrev pub record_new :
    ℕ
    → ℕ
    → Evidence
    → ℕ
    → List Close.CycleRow
    → List Occurrence
    → List Occurrence
    → Result OccurrenceError Occurrence × List Occurrence
record_new now fresh e t cycles others table =
    maybe (create_or_read now fresh e t (table ++ others))
      (λ o. materialize_or_read now e t o (table ++ others))
      (pending_of e.occurrence_type e cycles table)

abbrev pub record_at :
    ℕ
    → ℕ
    → Evidence
    → Instant
    → List Close.CycleRow
    → List Occurrence
    → List Occurrence
    → Result OccurrenceError Occurrence × List Occurrence
record_at now fresh e (naive t) cycles others table = (err invalid_evidence, table)
record_at now fresh e (aware t) cycles others table =
    maybe (record_new now fresh e t cycles others table) (λ o. (ok o, table))
      (find (has_identity e t) table)

-- `_require_identity`
abbrev pub lacks_identity : Text → Text → Bool
lacks_identity account ticket = is_empty (strip account) || is_empty (strip ticket)

-- `record_proven_occurrence`; `cycles` are those of the account and the ticket, and `others` what other
-- sessions insert between the read and the write.
unfoldable pub record_proven_occurrence :
    ℕ
    → ℕ
    → Evidence
    → List Close.CycleRow
    → List Occurrence
    → List Occurrence
    → Result OccurrenceError Occurrence × List Occurrence
record_proven_occurrence now fresh e cycles others table =
    if lacks_identity e.account_id e.ticket_id
    then (err invalid_evidence, table)
    else record_at now fresh e e.occurred_at cycles others table

abbrev pub new_pending : ℕ → ℕ → Text → Text → Option ℕ → Text → Option ℕ → Text → Occurrence
new_pending now fresh account ticket cycle readback updated observation = record {
  pk = fresh;
  source_account_id = account;
  hubspot_ticket_id = ticket;
  occurrence_type = closed;
  occurred_at = none;
  evidence_status = materialization_pending;
  evidence_source = readback;
  evidence_key = pending_close account ticket cycle;
  source_event_id = [];
  provider_updated_at = updated;
  observation_id = observation;
  processing_status = pending;
  next_reconcile_at = some (now + reconcile_delay);
}

-- `record_pending_close`, without the task that it schedules; `readback` is the text "crm_readback".
unfoldable pub record_pending_close :
    ℕ
    → ℕ
    → Text
    → Text
    → Option ℕ
    → Text
    → Option ℕ
    → Text
    → List Occurrence
    → Result OccurrenceError Occurrence × List Occurrence
record_pending_close now fresh account ticket cycle readback updated observation table =
    let o = new_pending now fresh account ticket cycle readback updated observation in
    if lacks_identity account ticket
    then (err invalid_evidence, table)
    else maybe (ok o, o ∷ table) (λ o. (ok o, table))
        (find (λ o. same_key o.evidence_key (pending_close account ticket cycle)) table)

abbrev pub is_processable : EvidenceStatus → ProcessingStatus → Bool
is_processable proven pending = true
is_processable e p = false

abbrev pub process : Occurrence → Occurrence
process o =
    if is_processable o.evidence_status o.processing_status
    then record o { processing_status = processed; next_reconcile_at = none }
    else o

-- `mark_processed`
unfoldable pub mark_processed : ℕ → List Occurrence → List Occurrence
mark_processed id table = modify (λ o. o.pk) id process table
