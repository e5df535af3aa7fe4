-- ===== src/Outbox/Rows.antt =====
-- Reading a row of the store after writing one.
use judah.Prelude.{
  ℕ, ◌≡◌, refl, true, some, List, [], ◌∷◌, Text, text_eq, text_eq_iff, arith, is_some, ◌==◌,
  if◌then◌else◌,
}
use judah.Outbox.{OutboxEvent, Lease, get_event, save_event, get_lease, put_lease}

pub get_lease-put_lease :
    (t : Text) (l : Lease) (ls : List Lease)
    → get_lease t (put_lease l ls) ≡ (if text_eq l.thread_id t then some l else get_lease t ls)
unfolding get_lease put_lease
get_lease-put_lease t l [] = refl
get_lease-put_lease t l (k ∷ ls) = ground (
  arith,
  get_lease-put_lease t l ls,
  text_eq_iff k.thread_id l.thread_id,
  text_eq_iff l.thread_id t,
  text_eq_iff k.thread_id t,
)

pub get_event-save_event :
    (id : ℕ) (e : OutboxEvent) (es : List OutboxEvent)
    → is_some (get_event e.pk es) ≡ true
    → get_event id (save_event e es) ≡ (if e.pk == id then some e else get_event id es)
unfolding get_event save_event
get_event-save_event id e [] h = absurd (ground arith)
get_event-save_event id e (d ∷ es) h = ground (arith, get_event-save_event id e es)

pub get_event-pk :
    (id : ℕ) (es : List OutboxEvent) {e : OutboxEvent} → get_event id es ≡ some e → e.pk ≡ id
unfolding get_event
get_event-pk id [] h = absurd (ground arith)
get_event-pk id (d ∷ es) {e} h = ground (arith, get_event-pk id es {e = e})

pub get_lease-thread :
    (t : Text) (ls : List Lease) {l : Lease} → get_lease t ls ≡ some l → l.thread_id ≡ t
unfolding get_lease
get_lease-thread t [] h = absurd (ground arith)
get_lease-thread t (k ∷ ls) {l} h =
    ground (arith, get_lease-thread t ls {l = l}, text_eq_iff k.thread_id t)
