-- ===== src/Cohort/Finalized.antt =====
-- The finalization of a cohort by its callback.
use judah.Prelude.{
  ℕ, ◌≤◌, ◌≡◌, refl, sym, subst, true, false, Option, none, some, arith, find_by, find_by-key,
  find_by-put, ok,
}
use judah.Cohort.{
  CohortState, active, released, ReleaseReason, all_settled, deadline, disabled, Cohort,
}
use judah.Cohort.Held.{released_outcome-is_deferred}
use judah.Cohort.Barrier.{
  CohortBarrierDecision, is_deferred, Tables, save, release, reason_to_release, outcome_of,
  released_outcome, decision, finalize_active, finalize_in, finalize_cohort,
}

-- The tables hold the cohort, released, as the answer says.
abbrev pub IsReleasedIn : ℕ → CohortBarrierDecision → Tables → Type 0
IsReleasedIn id d u =
    (c : Cohort) × (find_by (λ c. c.pk) id u.cohorts ≡ some c)
    × (c.state ≡ released)
    × (d.cohort_id ≡ some c.pk)
    × (d.outcome ≡ released_outcome c.release_reason)

-- The cohort is released in the tables, and the finalization again repeats the answer, as one that released
-- nothing, and writes nothing.
abbrev pub IsFinal : ℕ → ℕ → CohortBarrierDecision × Tables → Type 0
IsFinal id later (d, u) =
    IsReleasedIn id d u
    × (is_deferred d.outcome ≡ false)
    × (finalize_cohort true id later u ≡ ok (record d { released_now = false }, u))

again :
    (id later : ℕ) (u : Tables) (c : Cohort)
    → find_by (λ c. c.pk) id u.cohorts ≡ some c
    → c.state ≡ released
    → finalize_cohort true id later u ≡ ok (decision (released_outcome c.release_reason) false c, u)
unfolding finalize_cohort
again id later u c e h = rw e (rw h refl)

module _ (id now later : ℕ) (c : Cohort) (t : Tables)
    (e : find_by (λ c. c.pk) id t.cohorts ≡ some c) where
  put :
      (reason : ReleaseReason)
      → find_by (λ c. c.pk) id (save (release reason now c) t).cohorts ≡ some (release reason now c)
  unfolding release
  put reason =
      let same = find_by-key (λ c. c.pk) id t.cohorts c e in
      subst
        (λ (i : ℕ).
          find_by (λ c. c.pk) i (save (release reason now c) t).cohorts
          ≡ some (release reason now c))
        same
        (find_by-put (λ c. c.pk) (release reason now c) t.cohorts c
          (subst (λ (i : ℕ). find_by (λ c. c.pk) i t.cohorts ≡ some c) (sym same) e))

  released-IsFinal :
      (reason : ReleaseReason)
      → IsFinal id later (decision (outcome_of reason) true c, save (release reason now c) t)
  unfolding release
  released-IsFinal all_settled = (
    (release all_settled now c, put all_settled, refl, refl, refl),
    refl,
    again id later _ (release all_settled now c) (put all_settled) refl,
  )
  released-IsFinal deadline = (
    (release deadline now c, put deadline, refl, refl, refl),
    refl,
    again id later _ (release deadline now c) (put deadline) refl,
  )
  released-IsFinal disabled = (
    (release disabled now c, put disabled, refl, refl, refl),
    refl,
    again id later _ (release disabled now c) (put disabled) refl,
  )

  finalize_active-IsFinal :
      (reason : Option ReleaseReason)
      → reason_to_release t.agents now c ≡ reason
      → c.deadline_at ≤ now
      → IsFinal id later (finalize_active now c t reason)
  unfolding reason_to_release
  finalize_active-IsFinal none h l = absurd (ground (arith, h, l))
  finalize_active-IsFinal (some reason) h l = released-IsFinal reason

  finalize_in-IsFinal :
      (state : CohortState)
      → c.state ≡ state
      → c.deadline_at ≤ now
      → IsFinal id later (finalize_in state now c t)
  finalize_in-IsFinal released h l =
      ((c, e, h, refl, refl), released_outcome-is_deferred c.release_reason, again id later t c e h)
  finalize_in-IsFinal active h l = finalize_active-IsFinal (reason_to_release t.agents now c) refl l

-- The callback of a cohort that is run at its deadline or later, by a writer, leaves the cohort released in
-- the tables, names it, and answers with the outcome of its reason of release; a second run, at any time,
-- gives the same outcome as one that released nothing, and writes nothing.
pub finalize_cohort-IsFinal :
    (id now later : ℕ) (c : Cohort) (t : Tables)
    → find_by (λ c. c.pk) id t.cohorts ≡ some c
    → c.deadline_at ≤ now
    → (x : CohortBarrierDecision × Tables) × (finalize_cohort true id now t ≡ ok x)
      × IsFinal id later x
unfolding finalize_cohort
finalize_cohort-IsFinal id now later c t e l =
    (finalize_in c.state now c t, rw e refl, finalize_in-IsFinal id now later c t e c.state refl l)
