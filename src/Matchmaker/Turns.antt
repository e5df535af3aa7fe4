-- ===== src/Matchmaker/Turns.antt =====
-- What one turn of the drain does to its numbers.
use judah.Prelude.{
  ℕ, ◌+◌, ◌≤◌, ◌<◌, ◌≡◌, refl, true, false, none, some, List, contains, length, arith, ◌⊎◌, inl,
  inr,
}
use judah.Matchmaker.Item.{QueueItemOutcome, QueueItemResult, is_new_effect}
use judah.Matchmaker.Drain.{Counts, Progress, add_row, counted, stops, turn}

abbrev pub handled : Counts → ℕ
handled c = c.assigned + c.converged + c.quarantined + c.deferred + c.claimed + c.systemic_failures

-- Every row seen is counted once; the last item may be counted without a row.
pub record IsBounded (total : ℕ) (p : Progress) : Type 0 where
  pub rows : length p.seen_queue_row_ids ≤ total
  pub items : handled p.counts ≤ length p.seen_queue_row_ids + 1
  pub new_effects : p.counts.assigned ≤ length p.seen_queue_row_ids

-- The same before the last item
pub record IsRunning (total : ℕ) (p : Progress) : Type 0 where
  pub rows : length p.seen_queue_row_ids ≤ total
  pub items : handled p.counts ≤ length p.seen_queue_row_ids
  pub new_effects : p.counts.assigned ≤ length p.seen_queue_row_ids

-- What one item may be: it names a row that was not seen, or it names none and makes no progress.
abbrev pub IsItem : List ℕ → QueueItemResult → Type 0
IsItem seen r =
    ((row : ℕ) × (r.queue_row_id ≡ some row) × (contains row seen ≡ false))
    ⊎ ((r.queue_row_id ≡ none) × (r.made_progress ≡ false) × (is_new_effect r.outcome ≡ false))

handled-counted : (o : QueueItemOutcome) (c : Counts) → handled (counted o c) ≤ handled c + 1
unfolding counted
handled-counted o c = ground arith

assigned-counted : (o : QueueItemOutcome) (c : Counts) → (counted o c).assigned ≤ c.assigned + 1
unfolding counted
assigned-counted o c = ground arith

assigned-counted_other :
    (o : QueueItemOutcome) (c : Counts)
    → is_new_effect o ≡ false
    → (counted o c).assigned ≡ c.assigned
unfolding counted
assigned-counted_other o c e = ground arith

length-add_row :
    (row : ℕ) (seen : List ℕ)
    → contains row seen ≡ false
    → length (add_row (some row) seen) ≡ length seen + 1
unfolding add_row
length-add_row row seen e = ground arith

-- A row that was not seen keeps the loop going within its bounds.
pub turn-IsRunning :
    (total : ℕ) (r : QueueItemResult) (p : Progress) (row : ℕ)
    → IsRunning total p
    → length p.seen_queue_row_ids < total
    → r.queue_row_id ≡ some row
    → contains row p.seen_queue_row_ids ≡ false
    → IsRunning total (turn r p)
      × (length (turn r p).seen_queue_row_ids ≡ length p.seen_queue_row_ids + 1)
unfolding turn
turn-IsRunning total r p row h lt e f =
    let more : length (add_row r.queue_row_id p.seen_queue_row_ids)
        ≡ length p.seen_queue_row_ids + 1 =
      rw e (length-add_row row p.seen_queue_row_ids f) in
    let a = handled-counted r.outcome p.counts in
    let b = assigned-counted r.outcome p.counts in
    let h1 = h.rows in
    let h2 = h.items in
    let h3 = h.new_effects in
    (record { rows = omega arith; items = omega arith; new_effects = omega arith }, more)

pub widen : (total : ℕ) (p : Progress) → IsRunning total p → IsBounded total p
widen total p h =
    let h1 = h.rows in
    let h2 = h.items in
    let h3 = h.new_effects in record { rows = h1; items = omega arith; new_effects = h3 }

turn_nameless :
    (total : ℕ) (r : QueueItemResult) (p : Progress)
    → IsRunning total p
    → r.queue_row_id ≡ none
    → is_new_effect r.outcome ≡ false
    → IsBounded total (turn r p)
unfolding turn add_row
turn_nameless total r p h e g =
    let same : add_row r.queue_row_id p.seen_queue_row_ids ≡ p.seen_queue_row_ids = rw e refl in
    let a = handled-counted r.outcome p.counts in
    let b = assigned-counted_other r.outcome p.counts g in
    let h1 = h.rows in
    let h2 = h.items in
    let h3 = h.new_effects in
    record { rows = rw same h1; items = rw same (omega arith); new_effects = rw (same, b) h3 }

pub turn-IsBounded :
    (total : ℕ) (r : QueueItemResult) (p : Progress)
    → IsRunning total p
    → length p.seen_queue_row_ids < total
    → IsItem p.seen_queue_row_ids r
    → IsBounded total (turn r p)
turn-IsBounded total r p h lt (inl (row, e, f)) =
    widen total (turn r p) (turn-IsRunning total r p row h lt e f).0
turn-IsBounded total r p h lt (inr (e, f, g)) = turn_nameless total r p h e g

-- An item without a row stops the loop.
pub stops_nameless :
    (r : QueueItemResult) → r.queue_row_id ≡ none → r.made_progress ≡ false → stops r ≡ true
unfolding stops
stops_nameless r e f = ground arith
