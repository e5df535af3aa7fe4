-- ===== src/Outbox/Delivery.antt =====
-- `deliver_outbox_event`: a claim, the call, and the record of its outcome; and what the record leaves.
use judah.Prelude.{
  ◌∙◌, ◌⊎◌, inl, inr, Bool-cases, ℕ, ◌+◌, ◌-◌, ◌≤◌, ◌≡◌, ◌≢◌, max, Bool, true, false, ◌||◌, not,
  none, some, Result, ok, err, is_empty, strip, arith, if◌then◌else◌, is_some,
}
use judah.Outbox.{
  delivered, dead_letter, retry_scheduled, authentication_configuration, DeliveryFailure,
  OutboxEvent, ClaimedDelivery, Settings, Store, get_event, save_event,
}
use judah.Outbox.Retry.{retry_cap, exponential_delay, retry_delay_bounds}
use judah.Outbox.Response.{HttpOutcome, response, classify_outcome}
use judah.Outbox.Claim.{claim_outbox_event}
use judah.Outbox.Record.{
  Missing, record_success, record_failure, failure_event, is_final, release_thread_lease,
}
use judah.Outbox.Rows.{get_event-save_event, get_event-pk}
use judah.Outbox.Leases.{release-events, failure_event-pk}

abbrev pub configuration_failure : DeliveryFailure
configuration_failure = record {
  kind = authentication_configuration;
  retryable = true;
  http_status = none;
  configuration_missing = true;
}

abbrev status_of : HttpOutcome → ℕ
status_of (response status body) = status
status_of o = 0

-- The part after the claim. `later` is the time of the record, `jitter` its draw.
unfoldable pub deliver_claim :
    Settings → ClaimedDelivery → ℕ → ℕ → HttpOutcome → Store → Result Missing (Bool × Store)
unfolding strip
deliver_claim s c later jitter outcome store =
    if is_empty (strip s.url) || is_empty s.secret
    then elim (record_failure s later jitter c configuration_failure store) [
      | err e ↦ err e
      | ok store' ↦ ok (false, store')
    ]
    else (elim (classify_outcome outcome c.event_id) [
      | none ↦ elim (record_success c later (status_of outcome) store) [
        | err e ↦ err e
        | ok store' ↦ ok (true, store')
      ]
      | some f ↦ elim (record_failure s later jitter c f store) [
        | err e ↦ err e
        | ok store' ↦ ok (false, store')
      ]
    ])

-- `deliver_outbox_event` where no other worker acts between its claim and its record.
unfoldable pub deliver_outbox_event :
    Settings → ℕ → ℕ → ℕ → HttpOutcome → ℕ → Store → Result Missing (Bool × Store)
unfolding deliver_claim
deliver_outbox_event s now later jitter outcome id store =
    if not s.delivery_enabled
    then ok (false, store)
    else (let (claim, store') = claim_outbox_event s now id store in
        elim claim [
          | none ↦ ok (false, store')
          | some c ↦ deliver_claim s c later jitter outcome store'
        ])

-- The failures after which a delivery is not tried again
abbrev pub IsGivenUp : ClaimedDelivery → DeliveryFailure → Type 0
IsGivenUp c f =
    (f.retryable ≡ false) ⊎ (f.configuration_missing ≡ false) × (c.max_attempts ≤ c.attempt)

-- What a recorded failure leaves of a row that was not delivered meanwhile. The row is dead exactly
-- when the failure is not retryable, or its attempts are used up and the configuration was there.
-- Otherwise it is due again after a delay within the bounds. In both cases its lock is gone.
pub record Rescheduled (s : Settings) (c : ClaimedDelivery) (f : DeliveryFailure) (now : ℕ)
    (before after : OutboxEvent) : Type 0 where
  pub fate :
      (IsGivenUp c f × (after.status ≡ dead_letter) × (after.dead_lettered_at ≡ some now))
      ⊎ (¬ IsGivenUp c f)
        × (after.status ≡ retry_scheduled)
        × (now + 100_000 ≤ after.available_at)
        × (after.available_at ≤ now + retry_cap s)
  pub unlocked : after.locked_at ≡ none
  pub counted :
      if f.configuration_missing
      then after.attempt_count ≡ before.attempt_count - 1
      else after.attempt_count ≡ before.attempt_count

is_final-IsGivenUp :
    (c : ClaimedDelivery) (f : DeliveryFailure) → is_final c f ≡ true → IsGivenUp c f
unfolding is_final
is_final-IsGivenUp c f e = ground arith

is_final-not_IsGivenUp :
    (c : ClaimedDelivery) (f : DeliveryFailure) → is_final c f ≡ false → ¬ IsGivenUp c f
unfolding is_final
is_final-not_IsGivenUp c f e = λ g. ground arith

failure_event-Rescheduled :
    (s : Settings) (c : ClaimedDelivery) (f : DeliveryFailure) (now jitter : ℕ) (e : OutboxEvent)
    → jitter ≤ exponential_delay s (max c.attempt 1)
    → Rescheduled s c f now e (failure_event s now jitter c f e)
unfolding failure_event
failure_event-Rescheduled s c f now jitter e h = record {
  fate = elim (Bool-cases (is_final c f)) [
    | inl t ↦ inl (is_final-IsGivenUp c f t, ground arith, ground arith)
    | inr r ↦ inr (
      is_final-not_IsGivenUp c f r,
      ground arith,
      ground (arith, retry_delay_bounds s (max c.attempt 1) jitter h),
      ground (arith, retry_delay_bounds s (max c.attempt 1) jitter h),
    )
  ];
  unlocked = ground arith;
  counted = ground arith;
}

-- A failure is recorded on the claimed row alone: if the row is there and not delivered, and the
-- jitter is in its range, the record returns and leaves every other row as it was. The claimed row is
-- dead if the failure is not retryable, or its attempts are used up and the configuration was there;
-- else it is to be retried after a delay from a tenth of a second to the cap. It is unlocked, and has
-- its attempt back where the configuration was missing.
pub record_failure-Rescheduled :
    (s : Settings) (c : ClaimedDelivery) (f : DeliveryFailure) (now jitter : ℕ) (store : Store)
    (e : OutboxEvent)
    → jitter ≤ exponential_delay s (max c.attempt 1)
    → get_event c.outbox_id store.events ≡ some e
    → e.status ≢ delivered
    → (store' : Store) × (record_failure s now jitter c f store ≡ ok store')
      × (after : OutboxEvent) × (get_event c.outbox_id store'.events ≡ some after)
      × Rescheduled s c f now e after
      × ((id : ℕ) → id ≢ c.outbox_id → get_event id store'.events ≡ get_event id store.events)
unfolding record_failure
record_failure-Rescheduled s c f now jitter store e j h n =
    let after = failure_event s now jitter c f e in
    let written = record store { events = save_event after store.events } in
    let pk : after.pk ≡ c.outbox_id =
      failure_event-pk s now jitter c f e ∙ get_event-pk c.outbox_id store.events h in
    let there : is_some (get_event after.pk store.events) ≡ true = rw (pk, h) in
    (
      release_thread_lease c written,
      ground arith,
      after,
      ground (
        arith,
        release-events c written,
        get_event-save_event c.outbox_id after store.events there,
      ),
      failure_event-Rescheduled s c f now jitter e j,
      λ id other.
          ground
            (arith, release-events c written, get_event-save_event id after store.events there),
    )
