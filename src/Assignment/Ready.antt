-- ===== src/Assignment/Ready.antt =====
-- Which row of the queue is next, and how a row backs off.
use judah.Prelude.{
  ℕ, ◌+◌, Bool, true, false, ◌&&◌, ◌||◌, not, Option, none, some, List, [], ◌∷◌, Text, text_eq,
  select, contains, ltb, leb, ◌==◌, if◌then◌else◌,
}
use judah.Assignment.{
  QueueRow, QueueStatus, queued, failed, Store, no_eligible_candidate, write_row,
}

-- `queue_status in (PENDING, QUEUED)`
abbrev pub is_waiting : QueueStatus → Bool
is_waiting failed = false
is_waiting s = true

-- `isnull=True` or `lte=now`
abbrev pub has_passed : ℕ → Option ℕ → Bool
has_passed now none = true
has_passed now (some t) = leb t now

abbrev pub is_for : Option Text → QueueRow → Bool
is_for none r = true
is_for (some ticket) r = text_eq r.ticket_id ticket

-- The rows that both queries share: eligible, waiting, of the ticket if one is asked for, not excluded.
unfoldable pub is_candidate_row : Option Text → List ℕ → QueueRow → Bool
is_candidate_row ticket excluded r =
    r.automatic_assignment_eligible
    && (is_waiting r.queue_status && (is_for ticket r && not (contains r.pk excluded)))

-- `_ready_queue`
unfoldable pub is_ready : ℕ → Option Text → List ℕ → QueueRow → Bool
is_ready now ticket excluded r =
    is_candidate_row ticket excluded r
    && (has_passed now r.next_assignment_attempt_at && has_passed now r.claim_expires_at)

-- The order by `entered_queue_at`, then `id`
unfoldable pub enters_before : QueueRow → QueueRow → Bool
enters_before a b =
    ltb a.entered_queue_at b.entered_queue_at
    || (a.entered_queue_at == b.entered_queue_at && leb a.pk b.pk)

abbrev pub earlier : QueueRow → Option QueueRow → Option QueueRow
earlier r none = some r
earlier r (some m) = if enters_before r m then some r else some m

-- `.order_by("entered_queue_at", "id").first()`
unfoldable pub earliest : List QueueRow → Option QueueRow
earliest [] = none
earliest (r ∷ rs) = earlier r (earliest rs)

-- The row that `select_for_update(skip_locked=True)` finds, where `locked` tells the rows that other
-- sessions hold.
unfoldable pub ready_row : (ℕ → Bool) → ℕ → Option Text → List ℕ → Store → Option QueueRow
ready_row locked now ticket excluded s =
    earliest (select (λ r. is_ready now ticket excluded r && not (locked r.pk)) s.rows)

unfoldable pub backed_off : ℕ → QueueRow → QueueRow
backed_off now r = record r {
  queue_status = queued;
  assignment_attempts = r.assignment_attempts + 1;
  last_assignment_attempt_at = some now;
  next_assignment_attempt_at = some (now + 30_000_000);
  failure_code = some no_eligible_candidate;
}

abbrev pub deferred : ℕ → Option QueueRow → Store → Option ℕ × Store
deferred now none s = (none, s)
deferred now (some r) s = (some r.pk, write_row r.pk (backed_off now) s)

-- `_defer_without_candidate`
unfoldable pub defer_without_candidate : ℕ → Option Text → List ℕ → Store → Option ℕ × Store
defer_without_candidate now ticket excluded s =
    deferred now (earliest (select (is_candidate_row ticket excluded) s.rows)) s
