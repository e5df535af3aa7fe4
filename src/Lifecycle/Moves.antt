-- ===== src/Lifecycle/Moves.antt =====
-- What one accepted transition does.
use judah.Prelude.{
  ◌>>=◌, ℕ, ◌+◌, ◌≡◌, refl, ◌⊎◌, true, false, none, some, get_or, ◌∷◌, Result, ok, err, arith,
}
use judah.Lifecycle.{State, closed, is_terminal, InvalidStateTransition}
use judah.Lifecycle.Machine.{TransitionRow, Ledger, Request, is_same, moved_instance, move}
use judah.Lifecycle.Attendances.{Settled}

-- What an accepted change of state leaves behind.
pub record Moved (r : Request) (now : ℕ) (l l' : Ledger) : Type 0 where
  pub arrived : l'.instance_row.state ≡ r.to_state
  pub versioned : l'.instance_row.state_version ≡ l.instance_row.state_version + 1
  pub settled : Settled r.to_state l'.cycles
  pub logged :
      (row : TransitionRow) × (l'.log ≡ row ∷ l.log)
      × (row.from_state ≡ l.instance_row.state)
      × (row.to_state ≡ r.to_state)
  pub stamped :
      r.to_state ≡ closed
      → l'.instance_row.closed_at
        ≡ some (get_or l.instance_row.closed_at (get_or r.occurred_at now))
  pub unstamped :
      ¬ (r.to_state ≡ closed)
      → is_terminal l.instance_row.state ≡ false ⊎ is_terminal r.to_state ≡ true
      → l'.instance_row.closed_at ≡ l.instance_row.closed_at
  pub owned :
      is_terminal l.instance_row.state ≡ false ⊎ is_terminal r.to_state ≡ true
      → l'.instance_row.assigned_agent_id ≡ l.instance_row.assigned_agent_id
  pub released :
      is_terminal l.instance_row.state ≡ true
      → is_terminal r.to_state ≡ false
      → (l'.instance_row.closed_at ≡ none) × (l'.instance_row.assigned_agent_id ≡ none)

pub is_same_eq : (s t : State) → is_same s t ≡ true → s ≡ t
unfolding is_same
is_same_eq s t e = ground arith

pub validated {ℓ} :
    {A : Type ℓ} (m : Result InvalidStateTransition (Unit {0}))
    (f : Unit {0} → Result InvalidStateTransition A) {a : A}
    → (m >>= f) ≡ ok a
    → m ≡ ok tt
validated (ok u) f e = refl
validated (err x) f e = absurd (ground arith)

pub arrives : (r : Request) (now : ℕ) (l : Ledger) → (move r now l).instance_row.state ≡ r.to_state
unfolding move moved_instance
arrives r now l = refl

-- The closure of one instance of a ticket never raises, and leaves it closed.
