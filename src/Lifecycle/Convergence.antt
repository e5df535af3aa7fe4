-- ===== src/Lifecycle/Convergence.antt =====
-- What the closure of a ticket does: `_close_all_ticket_instances` in apps/ai_agents/services/lifecycle.py.
use judah.Prelude.{
  if◌then◌else◌, ℕ, ◌≡◌, refl, inl, inr, Bool, true, false, Option, List, [], ◌∷◌, Text, ok, arith,
  any, Bool-cases,
}
use judah.Lifecycle.{State, closed, validate_transition}
use judah.Lifecycle.Machine.{
  Ledger, Conversation, is_same, is_closed, move, transition, is_target, close_request,
  close_all_ticket_instances,
}
use judah.Lifecycle.Moves.{arrives, is_same_eq}

closed_state : (s : State) → is_closed s ≡ true → s ≡ closed
closed_state s e = ground arith

close-returns :
    (reason actor event : Text) (occurred_at : Option ℕ) (now : ℕ) (l : Ledger)
    → (l' : Ledger) × (transition
          (close_request reason actor event occurred_at l.instance_row.state)
          now
          l
        ≡ ok l')
      × (l'.instance_row.state ≡ closed)
unfolding transition validate_transition
close-returns reason actor event occurred_at now l =
    let r = close_request reason actor event occurred_at l.instance_row.state in
    elim (Bool-cases (is_same l.instance_row.state closed)) [
      | inl p ↦ (l, ground arith, is_same_eq l.instance_row.state closed p)
      | inr p ↦ (move r now l, ground arith, arrives r now l)
    ]

-- What the closure of a ticket makes of the table, row by row.
abbrev pub Converged : ℕ → Option ℕ → List Conversation → List Conversation → Type 0
Converged ticket primary [] [] = Unit
Converged ticket primary (c ∷ cs) (d ∷ ds) =
    (d.pk ≡ c.pk)
    × (d.ticket_id ≡ c.ticket_id)
    × (if is_target ticket primary c then d.ledger.instance_row.state ≡ closed else d ≡ c)
    × Converged ticket primary cs ds
Converged ticket primary cs ds = ⊥

-- The closure of a ticket never raises. Each of its instances but the primary one ends closed, from
-- whatever state; every other row is as it was; and the answer says whether there was an instance.
pub close_all_ticket_instances-Converged :
    (ticket : ℕ) (primary : Option ℕ) (reason actor event : Text) (occurred_at : Option ℕ) (now : ℕ)
    (cs : List Conversation)
    → (found : Bool) × (ds : List Conversation) × (close_all_ticket_instances ticket primary reason
          actor event occurred_at now cs
        ≡ ok (found, ds))
      × (found ≡ any (is_target ticket primary) cs)
      × Converged ticket primary cs ds
unfolding close_all_ticket_instances
close_all_ticket_instances-Converged ticket primary reason actor event occurred_at now [] =
    (false, [], refl, refl, tt)
close_all_ticket_instances-Converged ticket primary reason actor event occurred_at now (c ∷ cs) =
    let (found, ds, e, f, v) =
      close_all_ticket_instances-Converged ticket primary reason actor event occurred_at now cs in
    elim (Bool-cases (is_target ticket primary c)) [
      | inl t ↦ elim (Bool-cases (is_closed c.ledger.instance_row.state)) [
        | inl k ↦ (
          true,
          record c { ledger = c.ledger } ∷ ds,
          rw (t, k, e),
          rw t,
          (refl, refl, rw t (closed_state _ k), v),
        )
        | inr k ↦
            let (l', q, s) = close-returns reason actor event occurred_at now c.ledger in
            (true, record c { ledger = l' } ∷ ds, rw (t, k, q, e), rw t, (refl, refl, rw t s, v))
      ]
      | inr t ↦ (found, c ∷ ds, rw (t, e), rw (t, f), (refl, refl, rw t refl, v))
    ]
