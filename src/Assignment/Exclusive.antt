-- ===== src/Assignment/Exclusive.antt =====
-- What a reservation answers, and that the matchmaker's drain may rely on it.
use judah.Prelude.{
  maybe_elim, ℕ, ◌≡◌, refl, subst, All-of_select, ◌⊎◌, inl, inr, Bool, true, false, Option, none,
  some, List, [], ◌∷◌, Text, select, contains, All, arith, Bool-cases, Option-cases, any, Result,
  ok, err, find,
}
use judah.Matchmaker.Durable.{
  Reservation, ReservationReason, Durable, IsExclusive, is_quarantined, no_eligible_candidate,
  candidate_changed,
}
use judah.Matchmaker.Drain.{matchmaker_drain_queue}
use judah.Matchmaker.Bounds.{IsEnd, matchmaker_drain_queue-IsEnd}
use judah.Assignment.{
  idempotency_key_of, AssignmentAttempt, QueueRow, Store, Fault, CycleEntry, cycle_of, agent_of,
  is_queued_cycle, is_live, is_completed,
}
use judah.Queue.{Agent}
use judah.Assignment.Ready.{
  is_candidate_row, is_ready, enters_before, earliest, ready_row, deferred, defer_without_candidate,
}
use judah.Assignment.Reserve.{
  deferred_to_cohort, postponed, Surroundings, Turn, answers, raises, continues, scoped, has_key,
  is_allowed_now, has_completed, reserve_with, reserve_agent, try_agent, live_or_new, done_or_live,
  reserve_row, of_queued_cycle, check_cycle, on_row, on_candidate, give_up, after_turn,
  reserve_from, with_candidates, prechecked, reserve_next_assignment,
}

-- The earliest of some rows is one of them.
pub earliest-All :
    (P : QueueRow → Type 0) (rs : List QueueRow) (r : QueueRow)
    → All P rs
    → earliest rs ≡ some r
    → P r
unfolding earliest
earliest-All P [] r h e = absurd (ground arith)
earliest-All P (x ∷ xs) r h e = elim (Option-cases (earliest xs)) [
  | inl n ↦ let same : x ≡ r = ground arith in subst P (same) h.0
  | inr (m, f) ↦ elim (Bool-cases (enters_before x m)) [
    | inl t ↦ let same : x ≡ r = ground arith in subst P (same) h.0
    | inr u ↦ let same : m ≡ r = ground arith in subst P (same) (earliest-All P xs m h.1 f)
  ]
]

abbrev IsFreeOf : List ℕ → Option QueueRow → Type 0
IsFreeOf excluded none = Unit {0}
IsFreeOf excluded (some r) = contains r.pk excluded ≡ false

selected_free :
    (p : QueueRow → Bool) (excluded : List ℕ) (rs : List QueueRow)
    → ((r : QueueRow) → p r ≡ true → contains r.pk excluded ≡ false)
    → IsFreeOf excluded (earliest (select p rs))
selected_free p excluded rs h = go (earliest (select p rs)) refl
  where
    go : (o : Option QueueRow) → earliest (select p rs) ≡ o → IsFreeOf excluded o
    go none e = tt
    go (some r) e =
        earliest-All (λ r. contains r.pk excluded ≡ false) (select p rs) r
          (All-of_select (λ r. contains r.pk excluded ≡ false) p rs h) e

ready_row-IsFreeOf :
    (locked : ℕ → Bool) (now : ℕ) (ticket : Option Text) (excluded : List ℕ) (s : Store)
    → IsFreeOf excluded (ready_row locked now ticket excluded s)
unfolding ready_row is_ready is_candidate_row
ready_row-IsFreeOf locked now ticket excluded s =
    selected_free _ excluded s.rows (λ r h. ground arith)

-- What an answer may say of rows: it names one that is not excluded; or it names none, and then it
-- has no attempt and reports no quarantine.
abbrev pub IsAnswer : List ℕ → Reservation → Type 0
IsAnswer excluded r =
    ((row : ℕ) × (r.queue_row_id ≡ some row) × (contains row excluded ≡ false))
    ⊎ ((r.queue_row_id ≡ none) × (r.attempt ≡ none) × (is_quarantined r.reason ≡ false))

abbrev pub IsSafeResult : List ℕ → Result Fault Reservation → Type 0
IsSafeResult excluded (ok r) = IsAnswer excluded r
IsSafeResult excluded (err f) = Unit {0}

abbrev IsSafeTurn : List ℕ → Turn → Type 0
IsSafeTurn excluded (answers r) = IsAnswer excluded r
IsSafeTurn excluded t = Unit {0}

candidate_row_free :
    (ticket : Option Text) (excluded : List ℕ) (r : QueueRow)
    → is_candidate_row ticket excluded r ≡ true
    → contains r.pk excluded ≡ false
unfolding is_candidate_row
candidate_row_free ticket excluded r h = ground arith

give_up-IsSafeResult :
    (w : Surroundings) (reason : ReservationReason) (ticket : Option Text) (excluded : List ℕ)
    (s : Store)
    → is_quarantined reason ≡ false
    → IsSafeResult excluded (give_up w reason ticket excluded s).0
unfolding defer_without_candidate
give_up-IsSafeResult w reason ticket excluded s h =
    go (earliest (select (is_candidate_row ticket excluded) s.rows)) (
      selected_free (is_candidate_row ticket excluded) excluded s.rows
        (λ r c. candidate_row_free ticket excluded r c))
  where
    go :
        (o : Option QueueRow)
        → IsFreeOf excluded o
        → IsAnswer excluded
            (record { attempt = none; reason = reason; queue_row_id = (deferred w.now o s).0 })
    go none f = inr (refl, refl, h)
    go (some r) f = inl (r.pk, refl, f)

module _ (w : Surroundings) (excluded : List ℕ) (candidate : ℕ) (r : QueueRow)
    (free : contains r.pk excluded ≡ false) where
  reserve_agent-IsSafeTurn : (a : Agent) (s : Store) → IsSafeTurn excluded (reserve_agent w r a s).0
  unfolding reserve_with
  reserve_agent-IsSafeTurn a s =
      elim (Bool-cases (any (has_key (idempotency_key_of r.cycle_id r.ticket_id)) s.attempts)) [
        | inl t ↦ rw t tt
        | inr f ↦ rw f (inl (r.pk, refl, free))
      ]

  try_agent-IsSafeTurn : (a : Option Agent) (s : Store) → IsSafeTurn excluded (try_agent w r a s).0
  try_agent-IsSafeTurn none s = tt
  try_agent-IsSafeTurn (some a) s = elim (Bool-cases (is_allowed_now w a)) [
    | inl t ↦ rw t (reserve_agent-IsSafeTurn a s)
    | inr f ↦ rw f tt
  ]

  live_or_new-IsSafeTurn :
      (o : Option AssignmentAttempt) (s : Store)
      → IsSafeTurn excluded (live_or_new w candidate r o s).0
  live_or_new-IsSafeTurn none s = try_agent-IsSafeTurn (agent_of candidate s) s
  live_or_new-IsSafeTurn (some a) s = inl (r.pk, refl, free)

  done_or_live-IsSafeTurn :
      (o : Option AssignmentAttempt) (s : Store)
      → IsSafeTurn excluded (done_or_live w candidate r o s).0
  done_or_live-IsSafeTurn none s = live_or_new-IsSafeTurn (find (scoped r is_live) s.attempts) s
  done_or_live-IsSafeTurn (some a) s = inl (r.pk, refl, free)

  of_queued_cycle-IsSafeTurn :
      (c : Option CycleEntry) (s : Store)
      → IsSafeTurn excluded (of_queued_cycle w candidate r c s).0
  unfolding reserve_row
  of_queued_cycle-IsSafeTurn none s = tt
  of_queued_cycle-IsSafeTurn (some c) s = elim (Bool-cases (is_queued_cycle c.state)) [
    | inl t ↦ rw t (done_or_live-IsSafeTurn (find (scoped r is_completed) s.attempts) s)
    | inr f ↦ rw f (inl (r.pk, refl, free))
  ]

  check_cycle-IsSafeTurn :
      (c : Option ℕ) (s : Store) → IsSafeTurn excluded (check_cycle w candidate r c s).0
  unfolding check_cycle reserve_row
  check_cycle-IsSafeTurn (some c) s = of_queued_cycle-IsSafeTurn (cycle_of c s) s
  check_cycle-IsSafeTurn none s = elim (Bool-cases (any (has_completed r.ticket_id) s.attempts)) [
    | inl t ↦ rw t (inl (r.pk, refl, free))
    | inr f ↦ rw f (done_or_live-IsSafeTurn (find (scoped r is_completed) s.attempts) s)
  ]

module _ (w : Surroundings) (ticket : Option Text) (excluded : List ℕ) where
  on_row-IsSafeTurn :
      (candidate : ℕ) (o : Option QueueRow) (s : Store)
      → IsFreeOf excluded o
      → IsSafeTurn excluded (on_row w candidate o s).0
  on_row-IsSafeTurn candidate none s free = inr (refl, refl, refl)
  on_row-IsSafeTurn candidate (some r) s free =
      maybe_elim (λ (t : Turn × Store). IsSafeTurn excluded t.0) _
        (λ recheck. (answers (deferred_to_cohort r), postponed recheck r s)) (w.barrier r)
        (check_cycle-IsSafeTurn w excluded candidate r free r.cycle_id s)
        (λ recheck e. inl (r.pk, refl, free))

  on_candidate-IsSafeTurn :
      (candidate : ℕ) (s : Store)
      → IsSafeTurn excluded (on_candidate w ticket excluded candidate s).0
  unfolding on_candidate
  on_candidate-IsSafeTurn candidate s =
      on_row-IsSafeTurn candidate (ready_row w.locked w.now ticket excluded s) s
        (ready_row-IsFreeOf w.locked w.now ticket excluded s)

  after_turn-IsSafeResult :
      (t : Turn) (s : Store) (rest : Result Fault Reservation × Store)
      → IsSafeTurn excluded t
      → IsSafeResult excluded rest.0
      → IsSafeResult excluded (after_turn t s rest).0
  after_turn-IsSafeResult (answers r) s rest safe later = safe
  after_turn-IsSafeResult (raises f) s rest safe later = tt
  after_turn-IsSafeResult continues s rest safe later = later

  reserve_from-IsSafeResult :
      (cs : List ℕ) (s : Store) → IsSafeResult excluded (reserve_from w ticket excluded cs s).0
  unfolding reserve_from
  reserve_from-IsSafeResult [] s =
      give_up-IsSafeResult w candidate_changed ticket excluded (w.meanwhile s) refl
  reserve_from-IsSafeResult (c ∷ cs) s =
      after_turn-IsSafeResult (on_candidate w ticket excluded c (w.meanwhile s)).0
        (on_candidate w ticket excluded c (w.meanwhile s)).1
        (reserve_from w ticket excluded cs (on_candidate w ticket excluded c (w.meanwhile s)).1)
        (on_candidate-IsSafeTurn c (w.meanwhile s))
        (reserve_from-IsSafeResult cs (on_candidate w ticket excluded c (w.meanwhile s)).1)

  with_candidates-IsSafeResult :
      (cs : List ℕ) (s : Store) → IsSafeResult excluded (with_candidates w ticket excluded cs s).0
  with_candidates-IsSafeResult [] s =
      give_up-IsSafeResult w no_eligible_candidate ticket excluded (w.meanwhile s) refl
  with_candidates-IsSafeResult (c ∷ cs) s = reserve_from-IsSafeResult (c ∷ cs) s

  prechecked-IsSafeResult :
      (o : Option QueueRow) (s : Store)
      → IsFreeOf excluded o
      → IsSafeResult excluded (prechecked w ticket excluded o s).0
  prechecked-IsSafeResult none s free = inr (refl, refl, refl)
  prechecked-IsSafeResult (some r) s free =
      maybe_elim (λ (t : Result Fault Reservation × Store). IsSafeResult excluded t.0) _
        (λ recheck. (ok (deferred_to_cohort r), postponed recheck r s)) (w.barrier r)
        (with_candidates-IsSafeResult w.candidates s) (λ recheck e. inl (r.pk, refl, free))

  -- A reservation that returns, whatever other sessions write meanwhile, names a row that the caller did not
  -- exclude, or it names none, and then it holds no attempt and reports no quarantine.
  pub reserve_next_assignment-IsSafeResult :
      (s : Store) → IsSafeResult excluded (reserve_next_assignment w ticket excluded s).0
  unfolding reserve_next_assignment
  reserve_next_assignment-IsSafeResult s =
      prechecked-IsSafeResult (ready_row w.locked w.now ticket excluded s) s
        (ready_row-IsFreeOf w.locked w.now ticket excluded s)

answer_row :
    (excluded : List ℕ) (r : Reservation) (row : ℕ)
    → IsAnswer excluded r
    → r.queue_row_id ≡ some row
    → contains row excluded ≡ false
answer_row excluded r row (inl (row', e, free)) h =
    let same : row' ≡ row = ground arith in subst (λ x. contains x excluded ≡ false) (same) free
answer_row excluded r row (inr (e, a, q)) h = absurd (ground arith)

answer_none :
    (excluded : List ℕ) (r : Reservation)
    → IsAnswer excluded r
    → r.queue_row_id ≡ none
    → (r.attempt ≡ none) × (is_quarantined r.reason ≡ false)
answer_none excluded r (inl (row', e, free)) h = absurd (ground arith)
answer_none excluded r (inr (e, a, q)) h = (a, q)

abbrev pub map_ticket : (ℕ → Text) → Option ℕ → Option Text
map_ticket f none = none
map_ticket f (some t) = some (f t)

-- The durable protocol as the matchmaker calls it, as long as neither a reservation nor an execution raises:
-- a reservation is that of `reserve_next_assignment` on the tables of the world, in surroundings that may
-- differ.
pub record Reserves {W : Type 0} (d : Durable W) : Type 0 where
  pub ticket_text : ℕ → Text
  pub tables : W → Store
  pub surroundings : Option ℕ → List ℕ → W → Surroundings
  pub returns :
      (ticket : Option ℕ) (excluded : List ℕ) (w : W)
      → (reserve_next_assignment
          (surroundings ticket excluded w)
          (map_ticket ticket_text ticket)
          excluded
          (tables w)).0
        ≡ ok (d.reserve_next_assignment ticket excluded w).0

module _ {W : Type 0} (d : Durable W) (p : Reserves d) where
  reserves-IsAnswer :
      (ticket : Option ℕ) (excluded : List ℕ) (w : W)
      → IsAnswer excluded (d.reserve_next_assignment ticket excluded w).0
  reserves-IsAnswer ticket excluded w =
      subst (IsSafeResult excluded) (p.returns ticket excluded w) (
        reserve_next_assignment-IsSafeResult (p.surroundings ticket excluded w)
          (map_ticket p.ticket_text ticket) excluded (p.tables w))

  Reserves-IsExclusive : IsExclusive d
  Reserves-IsExclusive = record {
    fresh = λ ticket seen w row h.
        answer_row seen (d.reserve_next_assignment ticket seen w).0 row
          (reserves-IsAnswer ticket seen w) h;
    named = λ ticket seen w h.
        answer_none seen (d.reserve_next_assignment ticket seen w).0
          (reserves-IsAnswer ticket seen w) h;
  }

  -- Over the reservations of the durable protocol, as long as no reservation and no execution raises, the
  -- drain of the queue ends with its numbers within the rows that were pending, whatever the executions
  -- change and answer.
  pub drain_of_protocol-IsEnd : (w : W) → IsEnd d w (matchmaker_drain_queue d w)
  drain_of_protocol-IsEnd w = matchmaker_drain_queue-IsEnd d w Reserves-IsExclusive
