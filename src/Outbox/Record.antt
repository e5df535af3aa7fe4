-- ===== src/Outbox/Record.antt =====
-- `_release_thread_lease`, `_record_success` and `_record_failure`: the outcome of one delivery.
use judah.Prelude.{
  ℕ, ◌+◌, ◌-◌, max, Bool, true, false, ◌&&◌, ◌||◌, not, none, some, Result, ok, err, ◌==◌, leb,
  if◌then◌else◌,
}
use judah.Outbox.{
  Status, delivered, dead_letter, retry_scheduled, DeliveryFailure, OutboxEvent, Lease,
  ClaimedDelivery, Settings, Store, get_event, save_event, get_lease, put_lease,
}
use judah.Outbox.Retry.{retry_delay}

-- `OutboxEvent.DoesNotExist`
pub data Missing : Type 0 where
  does_not_exist : Missing

abbrev pub is_delivered : Status → Bool
is_delivered delivered = true
is_delivered s = false

abbrev pub is_held_by : ℕ → Lease → Bool
is_held_by id l = elim l.current_outbox [ none ↦ false | some holder ↦ holder == id ]

unfoldable pub release_thread_lease : ClaimedDelivery → Store → Store
release_thread_lease c store = elim (get_lease c.thread_id store.leases) [
  | none ↦ store
  | some l ↦
      if is_held_by c.outbox_id l
      then record store {
        leases = put_lease (record l { current_outbox = none; locked_at = none }) store.leases;
      }
      else store
]

abbrev pub success_event : ℕ → ℕ → OutboxEvent → OutboxEvent
success_event now http_status e = record e {
  status = delivered;
  delivered_at = some now;
  locked_at = none;
  last_error = none;
  last_http_status = some http_status;
}

unfoldable pub record_success : ClaimedDelivery → ℕ → ℕ → Store → Result Missing Store
record_success c now http_status store = elim (get_event c.outbox_id store.events) [
  | none ↦ err does_not_exist
  | some e ↦
      if is_delivered e.status
      then ok (release_thread_lease c store)
      else ok (
          release_thread_lease c
            (record store { events = save_event (success_event now http_status e) store.events }))
]

-- `not failure.retryable or exhausted`
unfoldable pub is_final : ClaimedDelivery → DeliveryFailure → Bool
is_final c f = not f.retryable || (not f.configuration_missing && leb c.max_attempts c.attempt)

-- The row after the failure; a missing configuration gives its attempt back.
unfoldable pub failure_event :
    Settings → ℕ → ℕ → ClaimedDelivery → DeliveryFailure → OutboxEvent → OutboxEvent
failure_event s now jitter c f e = record e {
  attempt_count = if f.configuration_missing then e.attempt_count - 1 else e.attempt_count;
  status = if is_final c f then dead_letter else retry_scheduled;
  dead_lettered_at = if is_final c f then some now else e.dead_lettered_at;
  available_at = if is_final c f then now else now + retry_delay s (max c.attempt 1) jitter;
  locked_at = none;
  last_error = some f.kind;
  last_http_status = f.http_status;
}

unfoldable pub record_failure :
    Settings → ℕ → ℕ → ClaimedDelivery → DeliveryFailure → Store → Result Missing Store
record_failure s now jitter c f store = elim (get_event c.outbox_id store.events) [
  | none ↦ err does_not_exist
  | some e ↦
      if is_delivered e.status
      then ok (release_thread_lease c store)
      else ok (
          release_thread_lease c
            (record store { events = save_event (failure_event s now jitter c f e) store.events }))
]
