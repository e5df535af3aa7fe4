-- ===== src/Cohort/Held.antt =====
-- When the barrier holds a row, and until when.
use judah.Prelude.{
  ℕ, ◌≤◌, ◌<◌, ◌≡◌, refl, ◌⊎◌, Bool, true, false, ◌||◌, Option, none, some, List, find, leb, arith,
  if_elim, is_empty, select,
}
use judah.Calendar.Resolve.{OperationalWindow}
use judah.Assignment.{QueueRow}
use judah.Queue.{Agent}
use judah.Cohort.{
  Mode, CohortSettings, active, ReleaseReason, all_settled, deadline, disabled, Cohort, new_cohort,
  cohort_defaults, candidate_snapshots, stabilizing_member_count, is_eligible_agent, is_stabilizing,
}
use judah.Cohort.Barrier.{CohortBarrierDecision, is_deferred, Tables, starts_at, released_outcome}

-- The times of a cohort: it is rechecked by its deadline, which is the time to settle and one heartbeat
-- after it was observed.
pub record IsTimed (c : Cohort) : Type 0 where
  pub rechecked : c.recheck_at ≤ c.deadline_at
  pub observed : c.cohort_observed_at ≤ c.deadline_at

pub new_cohort-IsTimed :
    (s : CohortSettings) (fresh start now : ℕ) (agents : List Agent)
    → IsTimed (new_cohort s fresh start now agents)
unfolding new_cohort
new_cohort-IsTimed s fresh start now agents = record {
  rechecked = omega arith;
  observed = omega arith;
}

-- What it takes to hold a row: a cohort of the window, still active, some member of which has yet to
-- settle, before its deadline.
pub record IsHeld (start now : ℕ) (agents : List Agent) (d : CohortBarrierDecision) (c : Cohort)
    : Type 0 where
  pub window : c.window_started_at ≡ start
  pub is_active : c.state ≡ active
  pub unsettled : 0 < stabilizing_member_count agents c
  pub before_deadline : now < c.deadline_at
  pub named : d.cohort_id ≡ some c.pk
  pub recheck : (d.recheck_at ≡ some c.recheck_at) × (c.recheck_at ≤ c.deadline_at)

-- The cohort of the window that the tables have, that another session has inserted, or that is created
abbrev pub IsKnown :
    CohortSettings → ℕ → ℕ → ℕ → List Cohort → List Agent → List Cohort → Cohort → Type 0
IsKnown s fresh start now others agents cohorts c =
    (find (starts_at start) cohorts ≡ some c)
    ⊎ (find (starts_at start) others ≡ some c)
    ⊎ (new_cohort s fresh start now (candidate_snapshots s agents) ≡ c)

abbrev IsHeldBy : (Cohort → Type 0) → ℕ → ℕ → List Agent → CohortBarrierDecision → Type 0
IsHeldBy K start now agents d =
    is_deferred d.outcome ≡ true → (c : Cohort) × K c × IsHeld start now agents d c

pub released_outcome-is_deferred :
    (x : Option ReleaseReason) → is_deferred (released_outcome x) ≡ false
released_outcome-is_deferred none = refl
released_outcome-is_deferred (some all_settled) = refl
released_outcome-is_deferred (some deadline) = refl
released_outcome-is_deferred (some disabled) = refl

module _ (mode : Mode) (start now : ℕ) (r : QueueRow) (K : Cohort → Type 0) where
  -- What the barrier finds or creates is a cohort of the window.
  abbrev IsOf : Option (Cohort × Bool) × List Cohort → Type 0
  IsOf (none, cohorts) = Unit
  IsOf (some (c, b), cohorts) = (c.window_started_at ≡ start) × IsTimed c × K c

-- What the defaults make
pub cohort_defaults-new_cohort :
    (s : CohortSettings) (fresh start now : ℕ) (agents : List Agent) (c : Cohort)
    → cohort_defaults s fresh start now agents ≡ some c
    → new_cohort s fresh start now agents ≡ c
unfolding cohort_defaults
cohort_defaults-new_cohort s fresh start now agents c =
    if_elim (λ (x : Option Cohort). x ≡ some c → new_cohort s fresh start now agents ≡ c)
      (is_empty (select is_eligible_agent agents)
        || (is_empty (select is_stabilizing agents)
            || leb (new_cohort s fresh start now agents).deadline_at now))
      none (some (new_cohort s fresh start now agents)) (λ q e. absurd (ground (arith, e)))
      (λ q e. ground (arith, e))

module _ (s : CohortSettings) (w : OperationalWindow) (now fresh : ℕ) (others : List Cohort)
    (r : QueueRow) (t : Tables) where
  abbrev Known : Cohort → Type 0
  Known = IsKnown s fresh w.start_at now others t.agents t.cohorts

-- The window that the calendar resolves opened after the row entered, and holds it by its cohort.
abbrev pub IsHeldIn :
    CohortSettings
    → Option OperationalWindow
    → ℕ
    → ℕ
    → List Cohort
    → QueueRow
    → Tables
    → CohortBarrierDecision
    → Type 0
IsHeldIn s none now fresh others r t d = ⊥
IsHeldIn s (some w) now fresh others r t d =
    (r.entered_queue_at < w.start_at)
    × ((c : Cohort) × IsKnown s fresh w.start_at now others t.agents t.cohorts c
        × IsHeld w.start_at now t.agents d c)
