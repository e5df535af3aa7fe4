-- ===== src/Outbox/Claim.antt =====
-- `claim_outbox_event`: one due row is taken under the lease of its thread.
use judah.Prelude.{
  ℕ, ◌+◌, Bool, true, false, ◌&&◌, ◌||◌, not, Option, none, some, Text, get_or, is_empty, ◌==◌, ltb,
  if◌then◌else◌,
}
use judah.Outbox.{
  Status, processing, delivered, dead_letter, cancelled, OutboxEvent, Lease, ClaimedDelivery,
  Settings, Store, is_fresh, get_event, save_event, get_lease, put_lease, thread_id,
}

abbrev pub is_finished : Status → Bool
is_finished delivered = true
is_finished dead_letter = true
is_finished cancelled = true
is_finished s = false

abbrev pub is_processing : Status → Bool
is_processing processing = true
is_processing s = false

-- The guards on the row itself, in their order: finished, being processed, not yet due.
unfoldable pub is_refused : Settings → ℕ → OutboxEvent → Bool
is_refused s now e =
    is_finished e.status
    || ((is_processing e.status && is_fresh s now e.locked_at) || ltb now e.available_at)

abbrev is_other : ℕ → Option ℕ → Bool
is_other pk none = false
is_other pk (some holder) = not (holder == pk)

-- The lease is held by another row, and not stale.
unfoldable pub is_held_by_other : Settings → ℕ → OutboxEvent → Lease → Bool
is_held_by_other s now e l = is_other e.pk l.current_outbox && is_fresh s now l.locked_at

-- The lease that `get_or_create` finds or makes.
abbrev pub lease_of : Text → Store → Lease
lease_of t store =
    get_or (get_lease t store.leases)
      (record { thread_id = t; current_outbox = none; locked_at = none })

abbrev pub taken_lease : ℕ → OutboxEvent → Lease → Lease
taken_lease now e l = record l { current_outbox = some e.pk; locked_at = some now }

abbrev pub taken_event : ℕ → OutboxEvent → OutboxEvent
taken_event now e = record e {
  status = processing;
  locked_at = some now;
  attempt_count = e.attempt_count + 1;
}

abbrev pub claim_of : OutboxEvent → ClaimedDelivery
claim_of e = record {
  outbox_id = e.pk;
  event_id = e.event_id;
  attempt = e.attempt_count + 1;
  max_attempts = e.max_attempts;
  thread_id = thread_id e;
}

-- The part after the event's guards and its thread identifier.
unfoldable pub take : Settings → ℕ → OutboxEvent → Lease → Store → Option ClaimedDelivery × Store
take s now e l store =
    if is_held_by_other s now e l
    then (none, record store { leases = put_lease l store.leases })
    else (
      some (claim_of e),
      record {
        events = save_event (taken_event now e) store.events;
        leases = put_lease (taken_lease now e l) store.leases;
      },
    )

unfoldable pub claim_outbox_event : Settings → ℕ → ℕ → Store → Option ClaimedDelivery × Store
claim_outbox_event s now id store = elim (get_event id store.events) [
  | none ↦ (none, store)
  | some e ↦
      if is_refused s now e || is_empty (thread_id e)
      then (none, store)
      else take s now e (lease_of (thread_id e) store) store
]
