-- ===== src/Cohort/Released.antt =====
-- The window of a cohort that was released.
use judah.Prelude.{
  ℕ, ◌≤◌, ◌≡◌, refl, true, false, Option, none, some, List, [], ◌∷◌, ◌++◌, find, leb, arith, maybe,
  if_elim, inl, inr, Bool-cases, count,
}
use judah.Calendar.Resolve.{OperationalWindow}
use judah.Assignment.{QueueRow}
use judah.Cohort.{
  Mode, mode_off, shadow, enforce, CohortSettings, CohortState, active, released, Cohort,
  cohort_defaults, candidate_snapshots,
}
use judah.Cohort.Barrier.{
  CohortBarrierDecision, is_deferred, Tables, starts_at, create_or_read, opened,
  locked_get_or_create, with_cohort, on_cohort, in_window, before_window, unless_off,
  evaluate_barrier, inapplicable,
}
use judah.Cohort.Held.{released_outcome-is_deferred}
use judah.Cohort.Kept.{IsKept, released_at_start, is_released}
use judah.Cohort.Calls.{Call, run, AreAdmitted, run-IsKept}

released_le :
    (start : ℕ) (xs : List Cohort) → count (released_at_start start) xs ≤ count (starts_at start) xs
unfolding count
released_le start [] = omega arith
released_le start (c ∷ xs) = ground (arith, released_le start xs)

abbrev FindsReleased : ℕ → List Cohort → Type 0
FindsReleased start xs =
    (c : Cohort) × (find (starts_at start) xs ≡ some c) × (is_released c.state ≡ true)

finds_released :
    (start : ℕ) (xs : List Cohort)
    → count (starts_at start) xs ≤ 1
    → 1 ≤ count (released_at_start start) xs
    → FindsReleased start xs
unfolding count
finds_released start [] u k = absurd (omega (arith, k))
finds_released start (x ∷ xs) u k = elim (Bool-cases (starts_at start x)) [
  | inl t ↦ (x, ground (arith, t), ground (arith, t, u, k, released_le start xs))
  | inr f ↦
      let (c, e, s) = finds_released start xs (ground (arith, f, u)) (ground (arith, f, k)) in
      (c, ground (arith, f, e), s)
]

module _ (s : CohortSettings) (w : OperationalWindow) (now fresh : ℕ) (others : List Cohort)
    (r : QueueRow) (t : Tables) where
  on_released :
      (c : Cohort)
      → is_released c.state ≡ true
      → (state : CohortState) → state ≡ c.state
      → is_deferred (with_cohort state s.mode now r c t).0.outcome ≡ false
  on_released c h released e = released_outcome-is_deferred c.release_reason
  on_released c h active e = absurd (ground (arith, h, e))

  on_found :
      (defaults : Option Cohort) (there : Option Cohort) (c : Cohort)
      → there ≡ some c
      → is_released c.state ≡ true
      → is_deferred
          (on_cohort s.mode now r t (
            maybe
              (maybe
                (none, others ++ t.cohorts)
                (λ c. opened (create_or_read w.start_at others t.cohorts c))
                defaults)
              (λ c. (some (c, false), t.cohorts))
              there)).0.outcome
        ≡ false
  on_found defaults none c e h = absurd (ground (arith, e))
  on_found defaults (some b) c e h = on_released b (ground (arith, e, h)) b.state refl

  before_window-released :
      FindsReleased w.start_at t.cohorts
      → is_deferred (before_window s (some w) now fresh others r t).0.outcome ≡ false
  unfolding locked_get_or_create
  before_window-released (c, e, h) =
      if_elim (λ (x : CohortBarrierDecision × Tables). is_deferred x.0.outcome ≡ false)
        (leb w.start_at r.entered_queue_at) (inapplicable, t) (in_window s w now fresh others r t)
        (λ q. refl)
        (λ q.
          on_found (cohort_defaults s fresh w.start_at now (candidate_snapshots s t.agents))
            (find (starts_at w.start_at) t.cohorts) c e h)

  evaluate_barrier-released :
      FindsReleased w.start_at t.cohorts
      → is_deferred (evaluate_barrier s (some w) now fresh others r t).0.outcome ≡ false
  unfolding evaluate_barrier
  evaluate_barrier-released f = unless s.mode
    where
      unless :
          (m : Mode)
          → is_deferred
              (unless_off m
                (inapplicable, t)
                (before_window s (some w) now fresh others r t)).0.outcome
            ≡ false
      unless mode_off = refl
      unless shadow = before_window-released f
      unless enforce = before_window-released f

-- A window whose cohort was released defers no row again, after any sequence of calls and writes of other
-- sessions and under any settings. Of the tables the theorem assumes one cohort for a key and for a window,
-- and of what others insert what the constraints grant.
pub evaluate_barrier-never_deferred :
    (calls : List Call) (t : Tables) (s : CohortSettings) (w : OperationalWindow) (now fresh : ℕ)
    (others : List Cohort) (r : QueueRow)
    → IsKept w.start_at 1 t.cohorts
    → AreAdmitted calls t
    → is_deferred (evaluate_barrier s (some w) now fresh others r (run calls t)).0.outcome ≡ false
evaluate_barrier-never_deferred calls t s w now fresh others r k a =
    let kept = run-IsKept w.start_at 1 calls t k a in
    evaluate_barrier-released s w now fresh others r (run calls t)
      (finds_released w.start_at (run calls t).cohorts (kept.one_start w.start_at) kept.releases)
