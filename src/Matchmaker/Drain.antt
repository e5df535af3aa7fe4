-- ===== src/Matchmaker/Drain.antt =====
-- `matchmaker_drain_queue`: one item after another, until every row that was pending has been seen or
-- an item stops the loop. The loop runs on fuel; one more than the number of pending rows is given.
use judah.Prelude.{
  ℕ, suc, zero, ◌+◌, Bool, true, false, ◌&&◌, ◌||◌, not, Option, none, some, List, [], ◌∷◌,
  contains, length, ltb, ◌==◌, if◌then◌else◌,
}
use judah.Matchmaker.Durable.{Durable}
use judah.Matchmaker.Item.{
  QueueItemOutcome, assigned_new_effect, converged_completed, converged_external_owner,
  quarantined_legacy_ambiguous, quarantined_stale_cycle, quarantined_permanent_provider_error,
  claimed_elsewhere, queue_empty, systemic_failure, QueueItemResult, process_queue_item,
}

pub record Counts : Type 0 where
  pub assigned : ℕ
  pub converged : ℕ
  pub quarantined : ℕ
  pub deferred : ℕ
  pub claimed : ℕ
  pub systemic_failures : ℕ

pub record Progress : Type 0 where
  pub seen_queue_row_ids : List ℕ
  pub counts : Counts
  pub no_progress : ℕ

abbrev pub start : Progress
start = record {
  seen_queue_row_ids = [];
  counts = record {
    assigned = 0;
    converged = 0;
    quarantined = 0;
    deferred = 0;
    claimed = 0;
    systemic_failures = 0;
  };
  no_progress = 0;
}

-- `set.add`
unfoldable pub add_row : Option ℕ → List ℕ → List ℕ
add_row none seen = seen
add_row (some row) seen = if contains row seen then seen else row ∷ seen

unfoldable pub counted : QueueItemOutcome → Counts → Counts
counted queue_empty c = c
counted systemic_failure c = record c { systemic_failures = c.systemic_failures + 1 }
counted assigned_new_effect c = record c { assigned = c.assigned + 1 }
counted converged_completed c = record c { converged = c.converged + 1 }
counted converged_external_owner c = record c { converged = c.converged + 1 }
counted quarantined_legacy_ambiguous c = record c { quarantined = c.quarantined + 1 }
counted quarantined_stale_cycle c = record c { quarantined = c.quarantined + 1 }
counted quarantined_permanent_provider_error c = record c { quarantined = c.quarantined + 1 }
counted claimed_elsewhere c = record c { claimed = c.claimed + 1 }
counted o c = record c { deferred = c.deferred + 1 }

abbrev pub ends_drain : QueueItemOutcome → Bool
ends_drain queue_empty = true
ends_drain systemic_failure = true
ends_drain o = false

abbrev pub has_row : Option ℕ → Bool
has_row none = false
has_row (some row) = true

-- Whether the loop stops after this item
unfoldable pub stops : QueueItemResult → Bool
stops r = ends_drain r.outcome || (not r.made_progress && not (has_row r.queue_row_id))

-- The variables of the loop after an item
unfoldable pub turn : QueueItemResult → Progress → Progress
turn r p = record {
  seen_queue_row_ids = add_row r.queue_row_id p.seen_queue_row_ids;
  counts = counted r.outcome p.counts;
  no_progress =
      if ends_drain r.outcome || r.made_progress then p.no_progress else p.no_progress + 1;
}

pub record Summary : Type 0 where
  pub progress : Progress
  pub remaining : ℕ
  pub total_pending : ℕ

-- How the drain ends: not permitted, nothing to do, an `AssertionError`, or a run of the loop. The
-- last one says that the fuel was used up, where the code would go on.
pub data DrainEnd : Type 0 where
  skipped_assignment_disabled : ℕ → DrainEnd
  nothing_pending : DrainEnd
  no_potential_agent : ℕ → DrainEnd
  assertion_error : DrainEnd
  drained : Summary → DrainEnd
  exhausted : DrainEnd

module _ {W : Type 0} (d : Durable W) where
  unfoldable pub drain_loop : ℕ → ℕ → Progress → W → Option (Progress × W)
  unfolding stops
  drain_loop zero total p w = none
  drain_loop (suc n) total p w =
      let (r, w') = process_queue_item d none p.seen_queue_row_ids w in
      let rest = drain_loop n total (turn r p) w' in
      if ltb (length p.seen_queue_row_ids) total
      then (if stops r then some (turn r p, w') else rest)
      else some (p, w)

  unfoldable pub summarize : ℕ → Option (Progress × W) → DrainEnd
  summarize total none = exhausted
  summarize total (some (p, w)) =
      if ltb total p.counts.assigned
      then assertion_error
      else drained (record { progress = p; remaining = d.pending_count w; total_pending = total })

  unfoldable pub matchmaker_drain_queue : W → DrainEnd
  matchmaker_drain_queue w =
      let total = d.pending_count w in
      if not (d.may_assign w)
      then skipped_assignment_disabled total
      else (if total == 0
          then nothing_pending
          else (if not (d.has_potential_agents w)
              then no_potential_agent total
              else summarize total (drain_loop (suc total) total start w)))
