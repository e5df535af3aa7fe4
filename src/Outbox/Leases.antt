-- ===== src/Outbox/Leases.antt =====
-- The lease of a thread keeps its deliveries apart, and a delivered row stays delivered, whatever
-- steps the workers take.
use judah.Prelude.{
  ℕ, ◌+◌, ◌<◌, ◌≡◌, ◌≢◌, refl, inl, inr, none, some, Text, text_eq, text_eq_iff, text_eq_refl, ok,
  arith, Option-cases, Bool-cases,
}
use judah.Outbox.{
  delivered, OutboxEvent, ClaimedDelivery, Settings, Store, get_event, save_event, get_lease,
  thread_id, DeliveryFailure, processing_stale_seconds,
}
use judah.Outbox.Rows.{get_lease-put_lease, get_event-save_event, get_event-pk, get_lease-thread}
use judah.Outbox.Claim.{
  claim_outbox_event, take, is_refused, is_held_by_other, lease_of, taken_lease, taken_event,
}
use judah.Outbox.Record.{
  record_success, record_failure, release_thread_lease, success_event, failure_event,
}

-- The thread is leased to a row since a time.
abbrev pub Held : Text → ℕ → ℕ → Store → Type 0
Held t id since store =
    get_lease t store.leases
    ≡ some (record { thread_id = t; current_outbox = some id; locked_at = some since })

lease_of-thread : (t : Text) (store : Store) → (lease_of t store).thread_id ≡ t
lease_of-thread t store = elim (Option-cases (get_lease t store.leases)) [
  | inl p ↦ rw p
  | inr (l, p) ↦ rw p (get_lease-thread t store.leases p)
]

-- A claim by another row neither takes a leased thread nor touches its lease.
take-Held :
    (s : Settings) (now : ℕ) (e : OutboxEvent) (t : Text) (id since : ℕ) (store : Store)
    → e.pk ≢ id
    → now < since + processing_stale_seconds s
    → Held t id since store
    → Held t id since (take s now e (lease_of (thread_id e) store) store).1
      × (thread_id e ≡ t → (take s now e (lease_of (thread_id e) store) store).0 ≡ none)
unfolding take is_held_by_other
take-Held s now e t id since store other early h = elim (Bool-cases (text_eq (thread_id e) t)) [
  | inl same ↦
      let q : thread_id e ≡ t = (text_eq_iff (thread_id e) t).0 same in
      let l : lease_of (thread_id e) store
          ≡ record { thread_id = t; current_outbox = some id; locked_at = some since } =
        rw (q, h) in
      (
        ground (
          arith,
          l,
          get_lease-put_lease t (lease_of (thread_id e) store) store.leases,
          text_eq_refl t,
        ),
        λ _. ground (arith, l),
      )
  | inr differs ↦ (
    ground (
      arith,
      lease_of-thread (thread_id e) store,
      get_lease-put_lease t (lease_of (thread_id e) store) store.leases,
      get_lease-put_lease t (taken_lease now e (lease_of (thread_id e) store)) store.leases,
    ),
    λ q. absurd (ground (arith, text_eq_iff (thread_id e) t)),
  )
]

claim-Held :
    (s : Settings) (now id' : ℕ) (t : Text) (id since : ℕ) (store : Store)
    → id' ≢ id
    → now < since + processing_stale_seconds s
    → Held t id since store
    → Held t id since (claim_outbox_event s now id' store).1
unfolding claim_outbox_event
claim-Held s now id' t id since store other early h =
    elim (Option-cases (get_event id' store.events)) [
      | inl p ↦ rw (p, claim_outbox_event) h
      | inr (e, p) ↦
          ground
            (arith, get_event-pk id' store.events {e = e} p, take-Held s now e t id since store)
    ]

-- While a thread is leased to a row, and the lease is not stale, no other row of the thread can be
-- claimed.
pub claim_excluded :
    (s : Settings) (now id' : ℕ) (t : Text) (id since : ℕ) (store : Store) (e : OutboxEvent)
    → id' ≢ id
    → now < since + processing_stale_seconds s
    → Held t id since store
    → get_event id' store.events ≡ some e
    → thread_id e ≡ t
    → (claim_outbox_event s now id' store).0 ≡ none
unfolding claim_outbox_event
claim_excluded s now id' t id since store e other early h p q =
    ground (arith, get_event-pk id' store.events {e = e} p, take-Held s now e t id since store)

release-Held :
    (c : ClaimedDelivery) (t : Text) (id since : ℕ) (store : Store)
    → c.outbox_id ≢ id
    → Held t id since store
    → Held t id since (release_thread_lease c store)
unfolding release_thread_lease
release-Held c t id since store other h = elim (Option-cases (get_lease c.thread_id store.leases)) [
  | inl p ↦ rw (p, release_thread_lease) h
  | inr (l, p) ↦ ground (
    arith,
    get_lease-thread c.thread_id store.leases {l = l} p,
    get_lease-put_lease t (record l { current_outbox = none; locked_at = none }) store.leases,
    text_eq_iff c.thread_id t,
  )
]

pub release-events :
    (c : ClaimedDelivery) (store : Store) → (release_thread_lease c store).events ≡ store.events
unfolding release_thread_lease
release-events c store = ground arith

pub failure_event-pk :
    (s : Settings) (now jitter : ℕ) (c : ClaimedDelivery) (f : DeliveryFailure) (e : OutboxEvent)
    → (failure_event s now jitter c f e).pk ≡ e.pk
unfolding failure_event
failure_event-pk s now jitter c f e = refl

-- The steps of the workers, each its own transaction. The HTTP call stands between a claim and the
-- step that records its outcome.
pub data Step (s : Settings) (a b : Store) : Type 0 where
  claims : (now id : ℕ) → b ≡ (claim_outbox_event s now id a).1 → Step s a b
  succeeds :
      (c : ClaimedDelivery) (now http_status : ℕ)
      → record_success c now http_status a ≡ ok b
      → Step s a b
  fails :
      (c : ClaimedDelivery) (now jitter : ℕ) (f : DeliveryFailure)
      → record_failure s now jitter c f a ≡ ok b
      → Step s a b

-- A step that a worker takes for another row, before a deadline.
abbrev pub IsForeign : {s : Settings} {a b : Store} → ℕ → ℕ → Step s a b → Type 0
IsForeign id deadline (claims now i e) = (i ≢ id) × (now < deadline)
IsForeign id deadline (succeeds c now http_status e) = c.outbox_id ≢ id
IsForeign id deadline (fails c now jitter f e) = c.outbox_id ≢ id

-- A lease outlives every step for other rows: a claim of another row before the lease is stale, and
-- a record of success or failure for another row at any time, leave the thread leased to its row
-- since the same instant.
pub Step-Held :
    {s : Settings} {a b : Store} (t : Text) (id since : ℕ) (step : Step s a b)
    → IsForeign id (since + processing_stale_seconds s) step
    → Held t id since a
    → Held t id since b
unfolding record_success record_failure
Step-Held {s} {a} t id since (claims now i e) f h = rw e (claim-Held s now i t id since a f.0 f.1 h)
Step-Held {s} {a} t id since (succeeds c now http_status e) f h =
    elim (Option-cases (get_event c.outbox_id a.events)) [
      | inl p ↦ absurd (ground arith)
      | inr (d, p) ↦ ground (
        arith,
        release-Held c t id since a,
        release-Held c t id since
            (record a { events = save_event (success_event now http_status d) a.events }),
      )
    ]
Step-Held {s} {a} t id since (fails c now jitter g e) f h =
    elim (Option-cases (get_event c.outbox_id a.events)) [
      | inl p ↦ absurd (ground arith)
      | inr (d, p) ↦ ground (
        arith,
        release-Held c t id since a,
        release-Held c t id since
            (record a { events = save_event (failure_event s now jitter c g d) a.events }),
      )
    ]

-- A delivered row is final: it stays as it is under every step of every worker.
pub Step-delivered :
    {s : Settings} {a b : Store} (id : ℕ) (e : OutboxEvent)
    → Step s a b
    → get_event id a.events ≡ some e
    → e.status ≡ delivered
    → get_event id b.events ≡ some e
unfolding claim_outbox_event take is_refused record_success record_failure
Step-delivered {s} {a} id e (claims now i q) h d = elim (Option-cases (get_event i a.events)) [
  | inl p ↦ ground arith
  | inr (x, p) ↦ ground (
    arith,
    get_event-pk i a.events {e = x} p,
    get_event-pk id a.events {e = e} h,
    get_event-save_event id (taken_event now x) a.events,
  )
]
Step-delivered {s} {a} id e (succeeds c now http_status q) h d =
    elim (Option-cases (get_event c.outbox_id a.events)) [
      | inl p ↦ absurd (ground arith)
      | inr (x, p) ↦ ground (
        arith,
        get_event-pk c.outbox_id a.events {e = x} p,
        get_event-save_event id (success_event now http_status x) a.events,
        release-events c a,
        release-events c
            (record a { events = save_event (success_event now http_status x) a.events }),
      )
    ]
Step-delivered {s} {a} id e (fails c now jitter g q) h d =
    elim (Option-cases (get_event c.outbox_id a.events)) [
      | inl p ↦ absurd (ground arith)
      | inr (x, p) ↦ ground (
        arith,
        get_event-pk c.outbox_id a.events {e = x} p,
        get_event-save_event id (failure_event s now jitter c g x) a.events,
        failure_event-pk s now jitter c g x,
        release-events c a,
        release-events c
            (record a { events = save_event (failure_event s now jitter c g x) a.events }),
      )
    ]
