-- ===== src/Cycle/Transitions.antt =====
-- The transition diagram of a conversation cycle, apart from the code that tests it.
use judah.Prelude.{
  ℕ, ◌+◌, ◌≤◌, ◌≡◌, refl, ◌↔◌, ◌⊎◌, inl, inr, Bool, true, false, List, [], ◌∷◌, Result, ok, err,
  arith,
}
use judah.Cycle.{
  CycleState, queued, assigned, repair_required, closed, cancelled, transition_cycle_state,
}

-- The steps that an automatic flow may take, and those of an operator's reconciliation.
infix 40 ◌⟶◌ ◌⟹◌
pub data ◌⟶◌ : CycleState → CycleState → Type 0 where
  assign : queued ⟶ assigned
  close_queued : queued ⟶ closed
  cancel : queued ⟶ cancelled
  close_assigned : assigned ⟶ closed
  break_queued : queued ⟶ repair_required
  break_assigned : assigned ⟶ repair_required

pub data ◌⟹◌ : CycleState → CycleState → Type 0 where
  requeue : repair_required ⟹ queued
  restore : repair_required ⟹ assigned
  settle : repair_required ⟹ closed
  drop : repair_required ⟹ cancelled

abbrev pub Authorized : CycleState → CycleState → Bool → Type 0
Authorized c t true = (c ⟶ t) ⊎ (c ⟹ t)
Authorized c t false = c ⟶ t

ruleset edges = (assign, close_queued, cancel, close_assigned, break_queued, break_assigned)

ruleset repairs = (requeue, restore, settle, drop)

accept_step : (c t : CycleState) (r : Bool) → transition_cycle_state c t r ≡ ok t → Authorized c t r
unfolding transition_cycle_state
accept_step c t true e = grind (arith, edges, repairs)
accept_step c t false e = grind (arith, edges)

step_accepted : {c t : CycleState} (r : Bool) → c ⟶ t → transition_cycle_state c t r ≡ ok t
unfolding transition_cycle_state
step_accepted r assign = refl
step_accepted r close_queued = refl
step_accepted r cancel = refl
step_accepted r close_assigned = refl
step_accepted r break_queued = refl
step_accepted r break_assigned = refl

repair_accepted : {c t : CycleState} → c ⟹ t → transition_cycle_state c t true ≡ ok t
unfolding transition_cycle_state
repair_accepted requeue = refl
repair_accepted restore = refl
repair_accepted settle = refl
repair_accepted drop = refl

Authorized-accepted :
    (c t : CycleState) (r : Bool) → Authorized c t r → transition_cycle_state c t r ≡ ok t
Authorized-accepted c t true (inl s) = step_accepted true s
Authorized-accepted c t true (inr s) = repair_accepted s
Authorized-accepted c t false s = step_accepted false s

-- A transition is accepted exactly when it is a step of the diagram: without reconciliation, one
-- of the six automatic steps; with it, one of these or one of the four ways out of a repair.
pub transition_cycle_state_iff :
    (c t : CycleState) (r : Bool) → (transition_cycle_state c t r ≡ ok t) ↔ Authorized c t r
transition_cycle_state_iff c t r = (accept_step c t r, Authorized-accepted c t r)

-- Automatic requests in order: the state at the end, and how many were accepted. A refused one
-- leaves the state as it is.
pub run_requests : CycleState → List CycleState → CycleState × ℕ
run_requests c [] = (c, 0)
run_requests c (t ∷ ts) = elim (transition_cycle_state c t false) [
  | ok t' ↦ let (last, n) = run_requests t' ts in (last, n + 1)
  | err e ↦ run_requests c ts
]

-- How many automatic steps a state has left.
abbrev pub steps_left : CycleState → ℕ
steps_left queued = 2
steps_left assigned = 1
steps_left c = 0

request_uses_step :
    (c t t' : CycleState)
    → transition_cycle_state c t false ≡ ok t'
    → steps_left t' + 1 ≤ steps_left c
unfolding transition_cycle_state
request_uses_step c t t' e = ground arith

-- Of any automatic requests at most two are accepted from `queued`, one from `assigned`, and none
-- from `repair_required` or a terminal state.
pub run_requests-le : (c : CycleState) (ts : List CycleState) → (run_requests c ts).1 ≤ steps_left c
unfolding run_requests
run_requests-le c [] = omega arith
run_requests-le c (t ∷ ts) =
    go (transition_cycle_state c t false) refl (run_requests-le c ts) (λ t'. run_requests-le t' ts)
  where
    go :
        (r : Result _ CycleState)
        → transition_cycle_state c t false ≡ r
        → (run_requests c ts).1 ≤ steps_left c
        → ((t' : CycleState) → (run_requests t' ts).1 ≤ steps_left t')
        → (run_requests c (t ∷ ts)).1 ≤ steps_left c
    go (ok t') e same next =
        rw (e, run_requests) (omega (arith, next t', request_uses_step c t t' e))
    go (err x) e same next = rw (e, run_requests) same
