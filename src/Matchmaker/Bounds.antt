-- ===== src/Matchmaker/Bounds.antt =====
-- The drain of the queue always ends, and what its numbers mean.
use judah.Prelude.{
  ℕ, zero, suc, ◌+◌, ◌<◌, ◌≡◌, refl, true, false, Option, none, some, List, contains, length, ltb,
  ◌==◌, arith, Bool-cases, inl, inr,
}
use judah.Matchmaker.Durable.{Attempt, ReservationReason, Durable, is_quarantined, IsExclusive}
use judah.Matchmaker.Item.{
  is_completed, unreserved, is_new_effect, executed, execute_and_follow, after_reservation,
  process_queue_item,
}
use judah.Matchmaker.Drain.{
  Progress, start, stops, turn, DrainEnd, drained, assertion_error, exhausted,
  skipped_assignment_disabled, nothing_pending, no_potential_agent, drain_loop, summarize,
  matchmaker_drain_queue,
}
use judah.Matchmaker.Turns.{
  IsBounded, IsRunning, IsItem, turn-IsRunning, widen, turn-IsBounded, stops_nameless,
}

module _ {W : Type 0} (d : Durable W) where
  nameless_quiet :
      (reason : ReservationReason)
      → is_quarantined reason ≡ false
      → ((unreserved reason none).queue_row_id ≡ none)
        × ((unreserved reason none).made_progress ≡ false)
        × (is_new_effect (unreserved reason none).outcome ≡ false)
  unfolding unreserved
  nameless_quiet reason e = ground arith

  after_reservation-row :
      (attempt : Option Attempt) (reason : ReservationReason) (row : ℕ) (seen : List ℕ) (w : W)
      → contains row seen ≡ false
      → IsItem seen (after_reservation d attempt reason (some row) w).0
  unfolding after_reservation execute_and_follow executed unreserved
  after_reservation-row none reason row seen w e = ground arith
  after_reservation-row (some a) reason row seen w e = elim (Bool-cases (is_completed reason)) [
    | inl t ↦ rw t (inl (row, refl, e))
    | inr f ↦ rw f (inl (row, refl, e))
  ]

  module _ (ex : IsExclusive d) where
    process_queue_item-IsItem :
        (seen : List ℕ) (w : W) → IsItem seen (process_queue_item d none seen w).0
    unfolding process_queue_item after_reservation
    process_queue_item-IsItem seen w = elim (Bool-cases (d.may_assign w)) [
      | inl t ↦ rw t (by_row (d.reserve_next_assignment none seen w).0.queue_row_id refl)
      | inr f ↦ rw f (inr (refl, refl, refl))
    ]
      where
        by_row :
            (row : Option ℕ)
            → (d.reserve_next_assignment none seen w).0.queue_row_id ≡ row
            → IsItem seen
                (after_reservation d
                  (d.reserve_next_assignment none seen w).0.attempt
                  (d.reserve_next_assignment none seen w).0.reason
                  (d.reserve_next_assignment none seen w).0.queue_row_id
                  (d.reserve_next_assignment none seen w).1).0
        by_row none e =
            let (p, q) = ex.named none seen w e in
            rw (p, e) (inr (nameless_quiet (d.reserve_next_assignment none seen w).0.reason q))
        by_row (some row) e = rw e (
            after_reservation-row (d.reserve_next_assignment none seen w).0.attempt
              (d.reserve_next_assignment none seen w).0.reason row seen
              (d.reserve_next_assignment none seen w).1 (ex.fresh none seen w row e))

    -- With fuel for the rows not yet seen, the loop ends within its bounds.
    drain_loop-ends :
        (n total : ℕ) (p : Progress) (w : W)
        → IsRunning total p
        → total < n + length p.seen_queue_row_ids
        → (q : Progress) × (w' : W) × (drain_loop d n total p w ≡ some (q, w')) × IsBounded total q
    unfolding drain_loop
    drain_loop-ends zero total p w h lt = let h1 = h.rows in absurd (omega arith)
    drain_loop-ends (suc n) total p w h lt =
        elim (Bool-cases (ltb (length p.seen_queue_row_ids) total)) [
          | inr f ↦ (p, w, rw f refl, widen total p h)
          | inl t ↦
              let r = (process_queue_item d none p.seen_queue_row_ids w).0 in
              let w' = (process_queue_item d none p.seen_queue_row_ids w).1 in
              let item = process_queue_item-IsItem p.seen_queue_row_ids w in
              let below : length p.seen_queue_row_ids < total = ground arith in
              elim (Bool-cases (stops r)) [
                | inl st ↦ (turn r p, w', rw (t, st) refl, turn-IsBounded total r p h below item)
                | inr go ↦ elim item [
                  | inr (e, f, g) ↦ absurd (ground (arith, stops_nameless r e f))
                  | inl (row, e, f) ↦
                      let (h', more) = turn-IsRunning total r p row h below e f in
                      let (q, u, end, b) = drain_loop-ends n total (turn r p) w' h' (omega arith) in
                      (q, u, rw (t, go) end, b)
                ]
              ]
        ]

-- What each end of the drain means; the loop is never exhausted and the assertion never fails.
abbrev pub IsEnd : {W : Type 0} → Durable W → W → DrainEnd → Type 0
IsEnd d w (skipped_assignment_disabled n) = (d.may_assign w ≡ false) × (n ≡ d.pending_count w)
IsEnd d w nothing_pending = (d.may_assign w ≡ true) × (d.pending_count w ≡ 0)
IsEnd d w (no_potential_agent n) =
    (d.has_potential_agents w ≡ false) × (n ≡ d.pending_count w) × (0 < n)
IsEnd d w assertion_error = ⊥
IsEnd d w (drained s) =
    (d.may_assign w ≡ true)
    × (d.has_potential_agents w ≡ true)
    × (s.total_pending ≡ d.pending_count w)
    × IsBounded s.total_pending s.progress
IsEnd d w exhausted = ⊥

start-IsRunning : (total : ℕ) → IsRunning total start
start-IsRunning total = record {
  rows = omega arith;
  items = omega arith;
  new_effects = omega arith;
}

module _ {W : Type 0} (d : Durable W) where
  loop_case :
      (w : W)
      → IsExclusive d
      → d.may_assign w ≡ true
      → d.has_potential_agents w ≡ true
      → IsEnd d w (
          summarize d
            (d.pending_count w)
            (drain_loop d (suc (d.pending_count w)) (d.pending_count w) start w))
  unfolding summarize
  loop_case w ex may has =
      let total = d.pending_count w in
      let (q, w', e, b) =
        drain_loop-ends d ex (suc total) total start w (start-IsRunning total) (omega arith) in
      let few : ltb total q.counts.assigned ≡ false =
        let b1 = b.rows in let b3 = b.new_effects in ground arith in
      rw (e, few) (may, has, refl, b)

  -- Where a reservation never names an excluded row, and names one whenever it has an attempt or a
  -- quarantine to report, the drain ends. If it is permitted and there are agents, it sees at most
  -- the rows that were pending, it counts no more new effects than rows seen and at most one item
  -- more than rows seen; its assertion never fails. Else it reports the rows that were pending.
  pub matchmaker_drain_queue-IsEnd :
      (w : W) → IsExclusive d → IsEnd d w (matchmaker_drain_queue d w)
  unfolding matchmaker_drain_queue
  matchmaker_drain_queue-IsEnd w ex = elim (Bool-cases (d.may_assign w)) [
    | inr f ↦ rw f (f, refl)
    | inl t ↦ elim (Bool-cases (d.pending_count w == 0)) [
      | inl z ↦ rw (t, z) (t, ground arith)
      | inr p ↦ elim (Bool-cases (d.has_potential_agents w)) [
        | inl a ↦ rw (t, p, a) (loop_case w ex t a)
        | inr n ↦ rw (t, p, n) (n, refl, ground arith)
      ]
    ]
  ]
