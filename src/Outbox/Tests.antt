-- ===== src/Outbox/Tests.antt =====
-- Runs of the outbox, and its theorems at concrete rows.
use judah.Prelude.{ℕ, ◌*◌, ◌≤◌, ◌≡◌, ◌≢◌, refl, true, none, some, [], ◌∷◌, codes, ok, arith}
use judah.Outbox.{
  pending, delivered, n8n_error, DeliveryFailure, OutboxEvent, ClaimedDelivery, Settings, Store,
  get_event, save_event, get_lease, put_lease, thread_id,
}
use judah.Outbox.Retry.{retry_delay, retry_cap, exponential_delay, retry_delay_bounds}
use judah.Outbox.Response.{response, object, failure, classify_outcome}
use judah.Outbox.Claim.{claim_outbox_event, take, is_refused, is_held_by_other, claim_of}
use judah.Outbox.Record.{record_success, record_failure, release_thread_lease}
use judah.Outbox.Leases.{Held, Step, claims, claim_excluded, Step-Held}
use judah.Outbox.Delivery.{deliver_outbox_event, Rescheduled, record_failure-Rescheduled}
use judah.Outbox.Due.{is_due, due-claimed}

abbrev settings : Settings
settings = record {
  retry_base = 1_000_000;
  retry_max = 60_000_000;
  processing_stale = 0;
  connect_timeout = 5_000_000;
  read_timeout = 10_000_000;
  delivery_enabled = true;
  url = codes "https://n8n";
  secret = codes "s";
}

abbrev first : OutboxEvent
first = record {
  pk = 1;
  event_id = codes "ev1";
  payload_thread_id = some (codes " t ");
  webhook_thread_id = none;
  status = pending;
  attempt_count = 0;
  max_attempts = 8;
  available_at = 100;
  created_at = 100;
  locked_at = none;
  delivered_at = none;
  dead_lettered_at = none;
  last_error = none;
  last_http_status = none;
}

abbrev second : OutboxEvent
second = record first {
  pk = 2;
  event_id = codes "ev2";
  payload_thread_id = none;
  webhook_thread_id = some (codes "t");
}

abbrev done : OutboxEvent
done = record first { pk = 3; status = delivered; delivered_at = some 90 }

abbrev store : Store
store = record { events = first ∷ second ∷ done ∷ []; leases = [] }

abbrev leased : Store
leased = record store {
  leases = record { thread_id = codes "t"; current_outbox = some 1; locked_at = some 200 } ∷ [];
}

abbrev claim : ClaimedDelivery
claim = record {
  outbox_id = 1;
  event_id = codes "ev1";
  attempt = 1;
  max_attempts = 8;
  thread_id = codes "t";
}

abbrev server_error : DeliveryFailure
server_error = failure n8n_error true (some 503)

delivered_once :
    (deliver_outbox_event settings 200 300 0
      (response 200 (object (codes "accepted") (codes "ev1")))
      1
      store)
    ≡ ok (
      true,
      record {
        events =
            record first {
              status = delivered;
              attempt_count = 1;
              delivered_at = some 300;
              last_http_status = some 200;
            }
            ∷ second
            ∷ done
            ∷ [];
        leases = record { thread_id = codes "t"; current_outbox = none; locked_at = none } ∷ [];
      },
    )
unfolding deliver_outbox_event claim_outbox_event take is_refused is_held_by_other thread_id
    get_event save_event get_lease put_lease classify_outcome record_success release_thread_lease
delivered_once = refl

retry_delay_bounds_example :
    (exponential_delay settings 3 ≤ retry_delay settings 3 9)
    × (retry_delay settings 3 9 ≤ retry_cap settings)
    × (retry_delay settings 3 9 ≤ 2 * exponential_delay settings 3)
    × (100_000 ≤ retry_delay settings 3 9)
unfolding exponential_delay
retry_delay_bounds_example = retry_delay_bounds settings 3 9 (omega arith)

claim_excluded_example : (claim_outbox_event settings 5_000 2 leased).0 ≡ none
unfolding get_lease get_event thread_id
claim_excluded_example =
    claim_excluded settings 5_000 2 (codes "t") 1 200 leased second (omega arith) (omega arith) refl
      refl refl

abbrev claim_second : Step settings leased (claim_outbox_event settings 5_000 2 leased).1
claim_second = claims 5_000 2 refl

Step-Held_example : Held (codes "t") 1 200 (claim_outbox_event settings 5_000 2 leased).1
unfolding get_lease
Step-Held_example = Step-Held (codes "t") 1 200 claim_second (omega arith, omega arith) refl

record_failure-Rescheduled_example :
    (store' : Store) × (record_failure settings 400 0 claim server_error leased ≡ ok store')
    × (after : OutboxEvent) × (get_event 1 store'.events ≡ some after)
    × Rescheduled settings claim server_error 400 first after
    × ((id : ℕ) → id ≢ 1 → get_event id store'.events ≡ get_event id leased.events)
unfolding get_event
record_failure-Rescheduled_example =
    record_failure-Rescheduled settings claim server_error 400 0 leased first (omega arith) refl
      (λ e. cc)

due-claimed_example : (claim_outbox_event settings 150 1 store).0 ≡ some (claim_of first)
unfolding get_event is_due thread_id is_held_by_other get_lease
due-claimed_example = due-claimed settings 150 1 store first refl refl refl refl
