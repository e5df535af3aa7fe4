-- ===== src/Cohort/Calls.antt =====
-- Sequences of calls of the barrier, with the writes of other sessions between them.
use judah.Prelude.{
  ℕ, ◌≡◌, refl, sym, subst, Bool, true, false, Option, none, some, List, [], ◌∷◌, leb, ◌==◌, arith,
  All, maybe_elim, if_elim, inl, inr, Bool-cases, find_by, find_by-key, Result, ok, err,
}
use judah.Calendar.Resolve.{OperationalWindow}
use judah.Assignment.{QueueRow}
use judah.Queue.{Agent}
use judah.Cohort.{
  Mode, mode_off, shadow, enforce, CohortSettings, Cohort, new_cohort, cohort_defaults,
  candidate_snapshots,
}
use judah.Cohort.Barrier.{
  CohortBarrierDecision, Tables, in_window, before_window, unless_off, evaluate_barrier,
  inapplicable, finalize_in, finalize_cohort, FinalizeError,
}
use judah.Cohort.Held.{IsTimed, new_cohort-IsTimed, cohort_defaults-new_cohort}
use judah.Cohort.Kept.{
  IsKept, IsAdmitted, IsMade, locked_get_or_create-AreFound, on_cohort-IsKept, finalize_in-IsKept,
}

-- A call of the barrier or of the finalization, or what other sessions make of the agents and the rows
pub data Call : Type 0 where
  evaluates : CohortSettings → Option OperationalWindow → ℕ → ℕ → List Cohort → QueueRow → Call
  finalizes : Bool → ℕ → ℕ → Call
  others_write : List Agent → List QueueRow → Call

abbrev tables_of : Tables → Result FinalizeError (CohortBarrierDecision × Tables) → Tables
tables_of t (ok (d, u)) = u
tables_of t (err e) = t

abbrev pub step : Call → Tables → Tables
step (evaluates s w now fresh others r) t = (evaluate_barrier s w now fresh others r t).1
step (finalizes may_write id now) t = tables_of t (finalize_cohort may_write id now t)
step (others_write agents rows) t = record t { agents = agents; rows = rows }

abbrev pub run : List Call → Tables → Tables
run [] t = t
run (c ∷ cs) t = run cs (step c t)

-- What the constraints of the table grant a call
abbrev pub IsAdmittedBy : Tables → Call → Type 0
IsAdmittedBy t (evaluates s w now fresh others r) = IsAdmitted fresh others t.cohorts
IsAdmittedBy t (finalizes may_write id now) = Unit
IsAdmittedBy t (others_write agents rows) = Unit

abbrev pub AreAdmitted : List Call → Tables → Type 0
AreAdmitted [] t = Unit
AreAdmitted (c ∷ cs) t = IsAdmittedBy t c × AreAdmitted cs (step c t)

find_by-All :
    (id : ℕ) (xs : List Cohort) (c : Cohort)
    → All IsTimed xs
    → find_by (λ c. c.pk) id xs ≡ some c
    → IsTimed c
unfolding find_by
find_by-All id [] c h e = absurd (ground (arith, e))
find_by-All id (x ∷ xs) c h e = elim (Bool-cases (x.pk == id)) [
  | inl t ↦ subst IsTimed (head t) h.0
  | inr f ↦ find_by-All id xs c h.1 (ground (arith, e, f))
]
  where
    head : x.pk == id ≡ true → x ≡ c
    head t = ground (arith, e, t)

module _ (start n : ℕ) where
  cohort_defaults-IsMade :
      (s : CohortSettings) (fresh w now : ℕ) (agents : List Agent) (c : Cohort)
      → cohort_defaults s fresh w now agents ≡ some c
      → IsMade start n fresh w c
  unfolding new_cohort
  cohort_defaults-IsMade s fresh w now agents c e =
      subst (IsMade start n fresh w) (cohort_defaults-new_cohort s fresh w now agents c e)
        (record { window = refl; pk = refl; timed = new_cohort-IsTimed s fresh w now agents })

  module _ (s : CohortSettings) (now fresh : ℕ) (others : List Cohort) (r : QueueRow)
      (t : Tables) where
    before_window-IsKept :
        (w : Option OperationalWindow)
        → IsKept start n t.cohorts
        → IsAdmitted fresh others t.cohorts
        → IsKept start n (before_window s w now fresh others r t).1.cohorts
    before_window-IsKept none k a = k
    before_window-IsKept (some w) k a =
        if_elim (λ (x : CohortBarrierDecision × Tables). IsKept start n x.1.cohorts)
          (leb w.start_at r.entered_queue_at) (inapplicable, t) (in_window s w now fresh others r t)
          (λ q. k)
          (λ q. on_cohort-IsKept start n now r s.mode t _ (
            locked_get_or_create-AreFound start n fresh w.start_at others t.cohorts k a _
              (cohort_defaults-IsMade s fresh w.start_at now (candidate_snapshots s t.agents))))

    evaluate_barrier-IsKept :
        (w : Option OperationalWindow)
        → IsKept start n t.cohorts
        → IsAdmitted fresh others t.cohorts
        → IsKept start n (evaluate_barrier s w now fresh others r t).1.cohorts
    unfolding evaluate_barrier
    evaluate_barrier-IsKept w k a = unless s.mode
      where
        unless :
            (m : Mode)
            → IsKept start n
                (unless_off m (inapplicable, t) (before_window s w now fresh others r t)).1.cohorts
        unless mode_off = k
        unless shadow = before_window-IsKept w k a
        unless enforce = before_window-IsKept w k a

  finalize_cohort-IsKept :
      (may_write : Bool) (id now : ℕ) (t : Tables)
      → IsKept start n t.cohorts
      → IsKept start n (tables_of t (finalize_cohort may_write id now t)).cohorts
  unfolding finalize_cohort
  finalize_cohort-IsKept false id now t k = k
  finalize_cohort-IsKept true id now t k =
      maybe_elim (λ (x : CohortBarrierDecision × Tables). IsKept start n x.1.cohorts)
        (inapplicable, t) (λ c. finalize_in c.state now c t) (find_by (λ c. c.pk) id t.cohorts) k
        (λ c e.
          finalize_in-IsKept start n c.state now c t
            (record {
              kept = k;
              found =
                  subst (λ (i : ℕ). find_by (λ c. c.pk) i t.cohorts ≡ some c)
                    (sym (find_by-key (λ c. c.pk) id t.cohorts c e)) e;
              timed = find_by-All id t.cohorts c k.timed e;
            })
            refl)

  step-IsKept :
      (c : Call) (t : Tables)
      → IsKept start n t.cohorts
      → IsAdmittedBy t c
      → IsKept start n (step c t).cohorts
  step-IsKept (evaluates s w now fresh others r) t k a =
      evaluate_barrier-IsKept s now fresh others r t w k a
  step-IsKept (finalizes may_write id now) t k a = finalize_cohort-IsKept may_write id now t k
  step-IsKept (others_write agents rows) t k a = k

-- Through any sequence of calls and writes of other sessions there is one cohort for a key and one for a
-- window, each is rechecked by its deadline, and no release of a window is lost. Of the rows of other
-- sessions and the new keys the theorem assumes what the constraints of the table grant.
pub run-IsKept :
    (start n : ℕ) (calls : List Call) (t : Tables)
    → IsKept start n t.cohorts
    → AreAdmitted calls t
    → IsKept start n (run calls t).cohorts
run-IsKept start n [] t k a = k
run-IsKept start n (c ∷ cs) t k a =
    run-IsKept start n cs (step c t) (step-IsKept start n c t k a.0) a.1
