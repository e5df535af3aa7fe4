-- ===== src/Outbox/Due.antt =====
-- `due_outbox_ids`, less its order and its limit, and `pending_outbox_count`; a selected row passes
-- the guards of the claim.
use judah.Prelude.{
  ℕ, ◌+◌, ◌≡◌, Bool, true, false, ◌&&◌, ◌||◌, Option, none, some, List, select, length, leb, arith,
  is_empty,
}
use judah.Outbox.{
  Status, pending, processing, retry_scheduled, OutboxEvent, Settings, Store, get_event,
  processing_stale_seconds, thread_id,
}
use judah.Outbox.Claim.{claim_outbox_event, take, is_refused, is_held_by_other, lease_of, claim_of}

abbrev is_waiting : Status → Bool
is_waiting pending = true
is_waiting retry_scheduled = true
is_waiting s = false

abbrev is_running : Status → Bool
is_running processing = true
is_running s = false

-- `locked_at <= stale_before`; SQL finds no row by a null.
abbrev is_stale : Settings → ℕ → Option ℕ → Bool
is_stale s now none = false
is_stale s now (some locked) = leb (locked + processing_stale_seconds s) now

unfoldable pub is_due : Settings → ℕ → OutboxEvent → Bool
is_due s now e =
    (is_waiting e.status || (is_running e.status && is_stale s now e.locked_at))
    && leb e.available_at now

unfoldable pub due_outbox_rows : Settings → ℕ → List OutboxEvent → List OutboxEvent
due_outbox_rows s now = select (is_due s now)

unfoldable pub pending_outbox_count : List OutboxEvent → ℕ
pending_outbox_count es = length (select (λ e. is_waiting e.status || is_running e.status) es)

due-not_refused :
    (s : Settings) (now : ℕ) (e : OutboxEvent) → is_due s now e ≡ true → is_refused s now e ≡ false
unfolding is_due is_refused
due-not_refused s now e h = ground arith

-- A row that the dispatcher selects can be claimed at once: the claim succeeds and counts one more
-- attempt, unless the row has no thread or another row holds a fresh lease of its thread.
pub due-claimed :
    (s : Settings) (now id : ℕ) (store : Store) (e : OutboxEvent)
    → get_event id store.events ≡ some e
    → is_due s now e ≡ true
    → is_empty (thread_id e) ≡ false
    → is_held_by_other s now e (lease_of (thread_id e) store) ≡ false
    → (claim_outbox_event s now id store).0 ≡ some (claim_of e)
unfolding claim_outbox_event take
due-claimed s now id store e h due thread free = ground (arith, due-not_refused s now e)
