-- ===== src/Assignment/Manually.antt =====
-- What is kept by a manual reservation.
use judah.Prelude.{
  ℕ, ◌≡◌, refl, Bool, ◌&&◌, ◌||◌, not, Option, none, some, Text, text_eq, ◌==◌, select, find,
  maybe_elim, if_elim,
}
use judah.Queue.{Agent}
use judah.Assignment.{
  AssignmentAttempt, QueueRow, Store, agent_of, cycle_of, is_live, is_queued_cycle, manual_key_of,
}
use judah.Assignment.Ready.{earliest}
use judah.Assignment.Reserve.{
  Surroundings, Turn, answers, raises, continues, is_allowed_now, scoped,
}
use judah.Assignment.Manual.{
  ManualEffect, of_turn, with_agent, unless_live, on_cycle, on_ticket, is_vetoed,
  reserve_manual_assignment,
}
use judah.Assignment.Attempts.{agent_of-pk}
use judah.Assignment.Keeps.{Keeps}

module _ {P : Store → Type 0} (k : Keeps P) where
  of_turn-Keeps : (t : Turn × Store) → P t.1 → P (of_turn t).1
  of_turn-Keeps (answers r, s) b = b
  of_turn-Keeps (raises f, s) b = b
  of_turn-Keeps (continues, s) b = b

  module _ (w : Surroundings) (id : ℕ) (candidate : Agent) where
    with_agent-Keeps :
        (r : QueueRow) (a : Option Agent) (s : Store)
        → agent_of id s ≡ a
        → P s
        → P (with_agent w candidate r a s).1
    with_agent-Keeps r none s e b = b
    with_agent-Keeps r (some a) s e b =
        if_elim (λ (x : ManualEffect). P x.1)
          (is_allowed_now w a && a.availability_revision == candidate.availability_revision) _ _
          (λ t.
            of_turn-Keeps _
              (k.enter (manual_key_of r.cycle_id r.ticket_id) w r a s (agent_of-pk id s a e) b))
          (λ t. b)

    unless_live-Keeps :
        (r : QueueRow) (a : Option AssignmentAttempt) (s : Store)
        → P s
        → P (unless_live w id candidate r a s).1
    unless_live-Keeps r none s b = with_agent-Keeps r (agent_of id s) s refl b
    unless_live-Keeps r (some a) s b = b

    on_cycle-Keeps :
        (r : QueueRow) (c : Option ℕ) (s : Store) → P s → P (on_cycle w id candidate r c s).1
    on_cycle-Keeps r none s b = unless_live-Keeps r (find (scoped r is_live) s.attempts) s b
    on_cycle-Keeps r (some c) s b =
        maybe_elim (λ (x : ManualEffect). P x.1) _ _ (cycle_of c s) b
          (λ e q.
            if_elim (λ (x : ManualEffect). P x.1) (is_queued_cycle e.state) _ _
              (λ t. unless_live-Keeps r (find (scoped r is_live) s.attempts) s b) (λ t. b))

    on_ticket-Keeps : (ticket : Text) (s : Store) → P s → P (on_ticket w id candidate ticket s).1
    on_ticket-Keeps ticket s b =
        maybe_elim (λ (x : ManualEffect). P x.1) _ (λ r. on_cycle w id candidate r r.cycle_id s)
          (earliest (select (λ r. text_eq r.ticket_id ticket) s.rows)) b
          (λ r q. on_cycle-Keeps r r.cycle_id s b)

  pub reserve_manual_assignment-Keeps :
      (w : Surroundings) (quiet : (s : Store) → P s → P (w.meanwhile s)) (remote_allows : Bool)
      (ticket : Text) (id : ℕ) (s : Store)
      → P s
      → P (reserve_manual_assignment w remote_allows ticket id s).1
  unfolding reserve_manual_assignment
  reserve_manual_assignment-Keeps w quiet remote_allows ticket id s b =
      maybe_elim (λ (x : ManualEffect). P x.1) _ _ (agent_of id s) b
        (λ c e.
          if_elim (λ (x : ManualEffect). P x.1) (is_vetoed w c || not remote_allows) _ _ (λ t. b)
            (λ t. on_ticket-Keeps w id c ticket (w.meanwhile s) (quiet s b)))
