-- ===== src/Outbox.antt =====
-- apps/webhooks/n8n_outbox.py and the rows that it works on (apps/webhooks/models.py). Times are
-- microseconds; the settings in float seconds are taken in microseconds too.
pub mod Retry
pub mod Response
pub mod Claim
pub mod Record
pub mod Rows
pub mod Leases
pub mod Delivery
pub mod Due
mod Tests
use judah.Prelude.{
  ℕ, ◌+◌, ◌*◌, max, Bool, true, false, ◌&&◌, Option, none, some, List, [], ◌∷◌, Text, text_eq,
  strip, is_empty, ◌==◌, ltb, if◌then◌else◌,
}

-- `OutboxEvent.Status`
pub data Status : Type 0 where
  pending processing retry_scheduled delivered dead_letter cancelled : Status

-- `FailureKind`
pub data FailureKind : Type 0 where
  authentication_configuration rate_limit n8n_error timeout : FailureKind
  connection payload_rejected invalid_response : FailureKind

-- `DeliveryFailure`; its message is fixed by the place that makes it.
pub record DeliveryFailure : Type 0 where
  pub kind : FailureKind
  pub retryable : Bool
  pub http_status : Option ℕ
  pub configuration_missing : Bool

-- `OutboxEvent`. The thread identifiers are those of the payload and of the webhook event.
pub record OutboxEvent : Type 0 where
  pub pk : ℕ
  pub event_id : Text
  pub payload_thread_id : Option Text
  pub webhook_thread_id : Option Text
  pub status : Status
  pub attempt_count : ℕ
  pub max_attempts : ℕ
  pub available_at : ℕ
  pub created_at : ℕ
  pub locked_at : Option ℕ
  pub delivered_at : Option ℕ
  pub dead_lettered_at : Option ℕ
  pub last_error : Option FailureKind
  pub last_http_status : Option ℕ

-- `N8nThreadDeliveryLock`
pub record Lease : Type 0 where
  pub thread_id : Text
  pub current_outbox : Option ℕ
  pub locked_at : Option ℕ

-- `ClaimedDelivery`, less the body that is sent.
pub record ClaimedDelivery : Type 0 where
  pub outbox_id : ℕ
  pub event_id : Text
  pub attempt : ℕ
  pub max_attempts : ℕ
  pub thread_id : Text

pub record Settings : Type 0 where
  pub retry_base : ℕ
  pub retry_max : ℕ
  pub processing_stale : ℕ
  pub connect_timeout : ℕ
  pub read_timeout : ℕ
  pub delivery_enabled : Bool
  pub url : Text
  pub secret : Text

pub record Store : Type 0 where
  pub events : List OutboxEvent
  pub leases : List Lease

-- `_processing_stale_seconds`
abbrev pub processing_stale_seconds : Settings → ℕ
processing_stale_seconds s =
    max s.processing_stale (2 * (s.connect_timeout + s.read_timeout) + 30_000_000)

-- `locked_at > now - stale`
abbrev pub is_fresh : Settings → ℕ → Option ℕ → Bool
is_fresh s now none = false
is_fresh s now (some locked) = ltb now (locked + processing_stale_seconds s)

unfoldable pub get_event : ℕ → List OutboxEvent → Option OutboxEvent
get_event id [] = none
get_event id (e ∷ es) = if e.pk == id then some e else get_event id es

unfoldable pub save_event : OutboxEvent → List OutboxEvent → List OutboxEvent
save_event e [] = []
save_event e (d ∷ es) = if d.pk == e.pk then e ∷ es else d ∷ save_event e es

unfoldable pub get_lease : Text → List Lease → Option Lease
get_lease t [] = none
get_lease t (l ∷ ls) = if text_eq l.thread_id t then some l else get_lease t ls

-- A row is written, or created if there is none.
unfoldable pub put_lease : Lease → List Lease → List Lease
put_lease l [] = l ∷ []
put_lease l (k ∷ ls) = if text_eq k.thread_id l.thread_id then l ∷ ls else k ∷ put_lease l ls

-- `a or b`, for texts that may be missing or empty.
abbrev or_else : Option Text → Text → Text
or_else none d = d
or_else (some t) d = if is_empty t then d else t

-- `_thread_id`
unfoldable pub thread_id : OutboxEvent → Text
unfolding strip
thread_id e = strip (or_else e.payload_thread_id (or_else e.webhook_thread_id []))
