-- ===== src/Cohort/Tests.antt =====
-- An opening with one agent settled and one stabilizing, and the theorems there.
use judah.Prelude.{◌≡◌, refl, true, false, none, some, List, [], ◌∷◌, find_by, arith, ok, count}
use judah.Calendar.Resolve.{OperationalWindow}
use judah.Queue.{Agent, ineligible, stabilizing}
use judah.Assignment.Desk.{ana, first_row}
use judah.Cohort.{enforce, CohortSettings, active, released, deadline, Cohort}
use judah.Cohort.Barrier.{
  CohortBarrierDecision, is_deferred, Tables, evaluate_barrier, finalize_cohort,
}
use judah.Cohort.Kept.{IsKept}
use judah.Cohort.Calls.{Call, finalizes, others_write, run, run-IsKept}
use judah.Cohort.Released.{evaluate_barrier-never_deferred}
use judah.Cohort.Finalized.{IsFinal, finalize_cohort-IsFinal}

abbrev settings : CohortSettings
settings = record {
  mode = enforce;
  stable = 300;
  heartbeat = 60;
  canary_configured = false;
  canary_ids = [];
}

abbrev settled : Agent
settled = record ana { hubspot_user_id = some (49 ∷ []); availability_online_since = some 100 }

abbrev unsettled : Agent
unsettled = record settled {
  pk = 2;
  eligibility_state = ineligible;
  eligibility_reason = some stabilizing;
  availability_online_since = some 150;
}

abbrev opening : OperationalWindow
opening = record { start_at = 100; end_at = 1000; source_rule_id = none }

abbrev tables : Tables
tables = record { cohorts = []; agents = settled ∷ unsettled ∷ []; rows = first_row ∷ [] }

-- The cohort as the barrier makes it, once it is released
abbrev past : Cohort
past = record {
  pk = 9;
  window_started_at = 100;
  cohort_observed_at = 100;
  recheck_at = 460;
  deadline_at = 460;
  member_agent_ids = 1 ∷ 2 ∷ [];
  initial_eligible_count = 1;
  initial_stabilizing_count = 1;
  state = released;
  release_reason = some deadline;
  callback_scheduled_at = some 200;
  released_at = some 460;
}

abbrev later : Tables
later = record tables { cohorts = past ∷ [] }

abbrev calls : List Call
calls = others_write (unsettled ∷ settled ∷ []) [] ∷ finalizes true 9 470 ∷ []

later-IsKept : IsKept 100 1 later.cohorts
unfolding count
later-IsKept = record {
  timed = (record { rechecked = omega arith; observed = omega arith }, tt);
  one_pk = λ id. ground arith;
  one_start = λ w. ground arith;
  releases = ground arith;
}

run-IsKept_example : IsKept 100 1 (run calls later).cohorts
run-IsKept_example = run-IsKept 100 1 calls later later-IsKept (tt, (tt, tt))

evaluate_barrier-never_deferred_example :
    is_deferred
      (evaluate_barrier settings (some opening) 500 10 [] first_row (run calls later)).0.outcome
    ≡ false
evaluate_barrier-never_deferred_example =
    evaluate_barrier-never_deferred calls later settings opening 500 10 [] first_row later-IsKept
      (tt, (tt, tt))

abbrev waiting : Cohort
waiting = record past { state = active; release_reason = none; released_at = none }

abbrev held : Tables
held = record tables { cohorts = waiting ∷ [] }

held-found : find_by (λ c. c.pk) 9 held.cohorts ≡ some waiting
unfolding find_by
held-found = refl

finalize_cohort-IsFinal_example :
    (x : CohortBarrierDecision × Tables) × (finalize_cohort true 9 460 held ≡ ok x)
    × IsFinal 9 500 x
finalize_cohort-IsFinal_example =
    finalize_cohort-IsFinal 9 460 500 waiting held held-found (omega arith)
