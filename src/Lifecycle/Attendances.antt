-- ===== src/Lifecycle/Attendances.antt =====
-- The service cycles of an instance: numbered from 1, all closed but the newest, and that one open
-- exactly while the instance is live. What each operation of service_cycles.py does to them.
use judah.Prelude.{
  ℕ, suc, ◌≡◌, refl, true, false, not, Option, none, List, [], ◌∷◌, Text, arith, All, length,
}
use judah.Lifecycle.{State, is_terminal}
use judah.Lifecycle.ServiceCycles.{
  Instance, ServiceCycle, is_open, first_open, ensure_current_service_cycle, reopen_service_cycle,
  close_current_service_cycle,
}

abbrev pub AllClosed : List ServiceCycle → Type 0
AllClosed = All (λ c. is_open c ≡ false)

abbrev pub IsNumbered : List ServiceCycle → Type 0
IsNumbered [] = Unit
IsNumbered (c ∷ cs) = (c.sequence ≡ suc (length cs)) × IsNumbered cs

-- At least one cycle, and the newest is open exactly in a live state.
abbrev pub Settled : State → List ServiceCycle → Type 0
Settled s [] = ⊥
Settled s (c ∷ cs) =
    (c.sequence ≡ suc (length cs))
    × IsNumbered cs
    × AllClosed cs
    × (is_open c ≡ not (is_terminal s))

-- The same, or no cycle at all: an instance that no service cycle tracks yet.
abbrev pub Tracked : State → List ServiceCycle → Type 0
Tracked s [] = Unit
Tracked s (c ∷ cs) = Settled s (c ∷ cs)

first_open-none : (cs : List ServiceCycle) → AllClosed cs → first_open cs ≡ none
unfolding first_open
first_open-none [] h = refl
first_open-none (c ∷ cs) h = ground (arith, first_open-none cs h.1)

-- The effective cycle of an instance exists, and is open exactly in a live state.
pub ensure-Settled :
    (i : Instance) (now : ℕ) (cs : List ServiceCycle)
    → Tracked i.state cs
    → Settled i.state (ensure_current_service_cycle i now cs).1
unfolding ensure_current_service_cycle
ensure-Settled i now [] h = ground arith
ensure-Settled i now (c ∷ cs) h = ground (arith, first_open-none cs h.2)

-- A reopening of a terminal instance adds one open cycle, whatever it is.
pub reopen-Settled :
    (i : Instance) (t from_state : State) (reason event : Text) (now : ℕ) (cs : List ServiceCycle)
    → is_terminal i.state ≡ true
    → is_terminal t ≡ false
    → Tracked i.state cs
    → Settled t (reopen_service_cycle i from_state reason event now cs).1
unfolding reopen_service_cycle
reopen-Settled i t from_state reason event now [] p q h = ground arith
reopen-Settled i t from_state reason event now (c ∷ cs) p q h =
    ground (arith, first_open-none cs h.2)

-- Closing leaves no open cycle.
pub close-Settled :
    (i : Instance) (s : State) (reason : Text) (occurred_at : Option ℕ) (now : ℕ)
    (cs : List ServiceCycle)
    → is_terminal i.state ≡ true
    → Settled s cs
    → Settled i.state (close_current_service_cycle i reason occurred_at now cs).1
unfolding close_current_service_cycle
close-Settled i s reason occurred_at now [] p h = absurd h
close-Settled i s reason occurred_at now (c ∷ cs) p h = ground (arith, first_open-none cs h.2)
