-- ===== src/Matchmaker/Tests.antt =====
-- Runs of the drain over a list of pending rows, and its theorems there.
use judah.Prelude.{
  ℕ, ◌≡◌, refl, true, false, Option, none, some, List, [], ◌∷◌, contains, length, arith, Bool-cases,
  inl, inr, if◌then◌else◌,
}
use judah.Matchmaker.Durable
use judah.Matchmaker.Durable.{
  Attempt, Reservation, queue_empty_or_claimed, reserved, Execution, Durable, is_quarantined,
  IsExclusive,
}
use judah.Matchmaker.Item.{
  process_queue_item, after_reservation, execute_and_follow, executed, typed_outcome, is_progress,
}
use judah.Matchmaker.Drain.{
  DrainEnd, drained, matchmaker_drain_queue, summarize, drain_loop, turn, add_row, counted,
}
use judah.Matchmaker.Bounds.{IsEnd, matchmaker_drain_queue-IsEnd}

-- The first pending row that is not excluded
abbrev first_row : List ℕ → List ℕ → Option ℕ
first_row seen [] = none
first_row seen (r ∷ rs) = if contains r seen then first_row seen rs else some r

abbrev reservation_of : Option ℕ → Reservation
reservation_of none = record {
  attempt = none;
  reason = queue_empty_or_claimed;
  queue_row_id = none;
}
reservation_of (some r) = record {
  attempt = some (record { pk = r; is_reserved = true });
  reason = reserved;
  queue_row_id = some r;
}

-- Every row can be assigned; the rows stay where they are.
abbrev desk : Durable (List ℕ)
desk = record {
  may_assign = λ w. true;
  reserve_next_assignment = λ ticket seen w. (reservation_of (first_row seen w), w);
  execute_assignment_attempt = λ pk w. (Durable.assigned, w);
  transition_assigned_lifecycle = λ pk w. w;
  pending_count = length;
  has_potential_agents = λ w. true;
}

first_row_fresh :
    (seen rs : List ℕ) (row : ℕ)
    → (reservation_of (first_row seen rs)).queue_row_id ≡ some row
    → contains row seen ≡ false
first_row_fresh seen [] row e = absurd (ground arith)
first_row_fresh seen (r ∷ rs) row e = elim (Bool-cases (contains r seen)) [
  | inl t ↦ first_row_fresh seen rs row (rw t at e)
  | inr f ↦ let same : r ≡ row = ground arith in rw (← same) f
]

named_of :
    (o : Option ℕ)
    → (reservation_of o).queue_row_id ≡ none
    → ((reservation_of o).attempt ≡ none) × (is_quarantined (reservation_of o).reason ≡ false)
named_of none e = (refl, refl)
named_of (some r) e = absurd (ground arith)

desk-IsExclusive : IsExclusive desk
desk-IsExclusive = record {
  fresh = λ ticket seen w row e. first_row_fresh seen w row e;
  named = λ ticket seen w e. named_of (first_row seen w) e;
}

abbrev three_rows : List ℕ
three_rows = 7 ∷ 8 ∷ 9 ∷ []

abbrev assigned_of : DrainEnd → ℕ
assigned_of (drained s) = s.progress.counts.assigned
assigned_of e = 0

three_assigned : assigned_of (matchmaker_drain_queue desk three_rows) ≡ 3
unfolding matchmaker_drain_queue summarize drain_loop process_queue_item after_reservation
    execute_and_follow executed typed_outcome is_progress turn add_row counted
three_assigned = refl

matchmaker_drain_queue-IsEnd_example :
    IsEnd desk three_rows (matchmaker_drain_queue desk three_rows)
matchmaker_drain_queue-IsEnd_example = matchmaker_drain_queue-IsEnd desk three_rows desk-IsExclusive
