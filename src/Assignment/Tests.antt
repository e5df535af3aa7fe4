-- ===== src/Assignment/Tests.antt =====
-- Runs of the protocol over a small support desk, and its theorems there.
use judah.Prelude.{
  ℕ, ◌≡◌, ◌↔◌, refl, Bool, true, false, Option, none, some, List, [], ◌∷◌, Text, inl, inr, Result,
  ok, err, arith, any, Bool-cases, find_by, modify, count, remove_by,
}
use judah.Cycle
use judah.Matchmaker.Durable
use judah.Matchmaker.Durable.{Reservation, Durable}
use judah.Matchmaker.Drain.{matchmaker_drain_queue}
use judah.Matchmaker.Bounds.{IsEnd}
use judah.Assignment.{
  automatic, AssignmentAttempt, AttemptState, reserved, external_applied, completed, compensated,
  CycleEntry, Store, Fault, integrity_error, stale_cycle, attempt_of, in_scope, is_completed,
  is_live,
}
use judah.Assignment.Ready.{ready_row, earliest, is_ready, enters_before, is_candidate_row}
use judah.Assignment.Reserve.{
  delete_row, raises, scoped, without_attempt, reserve_row, reserve_with, check_cycle, on_candidate,
  reserve_from, reserve_next_assignment,
}
use judah.Assignment.Exclusive.{
  IsSafeResult, reserve_next_assignment-IsSafeResult, Reserves, map_ticket, drain_of_protocol-IsEnd,
}
use judah.Assignment.Settle.{
  mark_external_applied, finalize_assignment_attempt, finalize_writes, upsert,
}
use judah.Assignment.Effect.{reconcile_ambiguous_attempt, digits, execute_assignment_attempt}
use judah.Assignment.Repair.{Verdicts, RepairCounts, repair_one, give_in}
use judah.Assignment.Books.{Opening, Books}
use judah.Assignment.Manual.{reserve_manual_assignment}
use judah.Assignment.Calls.{Call, call, reserve_manually, reserve_next, execute, compensate, calls}
use judah.Assignment.History.{calls-Books}
use judah.Assignment.Once.{Once, calls-Once}
use judah.Assignment.Confirm.{IsAssigned}
use judah.Assignment.Converge.{IsThere, execute_assignment_attempt-IsAssigned, repair_one-gives_in}
use judah.Assignment.Clash.{reserve_row-integrity_error_iff}
use judah.Assignment.Desk.{
  settings, ana, first_row, first_cycle, desk, at_noon, granting, attempt, reserved_desk,
}

abbrev opening : Opening
opening = record { chats = λ pk. 0; assignments = λ pk. 0 }

abbrev state_of_first : Option AssignmentAttempt → Option AttemptState
state_of_first none = none
state_of_first (some a) = some a.state

-- The agent is chosen by hand where HubSpot allows it.
by_hand :
    state_of_first (attempt_of 7 (call (reserve_manually at_noon true (65 ∷ []) 1) desk))
    ≡ some reserved
unfolding reserve_manual_assignment earliest enters_before reserve_with find_by modify
by_hand = refl

abbrev one_assignment : List Call
one_assignment = reserve_next at_noon none [] ∷ execute granting 7 ∷ []

-- The desk opens with an agent without chats; a compensation of the completed attempt changes nothing.
desk-Books : Books opening desk
unfolding find_by count
desk-Books = record {
  chats = λ pk a e. ground (arith, e);
  assignments = λ pk. refl;
  given_back = tt;
}

calls-Books_example : Books opening (
    calls
      (reserve_next at_noon none []
        ∷ execute granting 7
        ∷ compensate 1020
            (record {
              is_retryable = false;
              error_code = stale_cycle;
              quarantine = false;
              needs_repair = false;
            })
            7
        ∷ [])
      desk)
calls-Books_example = calls-Books opening _ desk (λ s b. b, (λ s b. b, (λ s b. b, tt))) desk-Books

calls-Once_example : Once 0 (automatic (inr 5)) (calls one_assignment desk)
unfolding count
calls-Once_example =
    calls-Once 0 (automatic (inr 5)) one_assignment desk (λ s o. o, (λ s o. o, tt))
      (record { at_most = ground arith; finished = ground arith })

execute_assignment_attempt-IsAssigned_example :
    IsAssigned 1010 attempt 5 first_cycle (execute_assignment_attempt granting 7 reserved_desk)
unfolding find_by count
execute_assignment_attempt-IsAssigned_example =
    execute_assignment_attempt-IsAssigned granting attempt 5 first_cycle reserved_desk refl
      (λ t s. s) (record { attempt = refl; cycle = refl; unique = refl }) refl refl
      (record {
        allowed = refl;
        unowned = refl;
        patched = refl;
        owner = digits 11;
        scope = true;
        readback = refl;
        desired = refl;
      })

abbrev assigned_cycle : CycleEntry
assigned_cycle = record { pk = 5; state = Cycle.assigned }

abbrev applied_attempt : AssignmentAttempt
applied_attempt = record attempt { state = external_applied }

abbrev assigned_desk : Store
assigned_desk = record desk { attempts = applied_attempt ∷ []; cycles = assigned_cycle ∷ [] }

abbrev no_counts : RepairCounts
no_counts = record {
  completed_count = 0;
  retryable_count = 0;
  repair_count = 0;
  conflict = 0;
  failed_unexpected = 0;
  stale_count = 0;
}

abbrev verdicts : Verdicts
verdicts = record { settings = settings; remote_allows = true }

repair_one-gives_in_example :
    (repair_one verdicts granting 7 (some applied_attempt) no_counts assigned_desk ≡ (
      record no_counts { failed_unexpected = 1 },
      record assigned_desk { attempts = give_in applied_attempt ∷ [] },
    ))
    × IsThere
        (give_in applied_attempt)
        5
        assigned_cycle
        (repair_one verdicts granting 7 (some applied_attempt) no_counts assigned_desk).1
unfolding find_by modify
repair_one-gives_in_example =
    repair_one-gives_in verdicts granting applied_attempt 5 assigned_cycle no_counts assigned_desk
      true (digits 11) refl refl refl refl refl (record { attempt = refl; cycle = refl })
      (record { attempt = refl; cycle = refl })

abbrev compensated_attempt : AssignmentAttempt
compensated_attempt = record attempt { state = compensated; compensated_at = some 1005 }

abbrev requeued_desk : Store
requeued_desk = record desk { attempts = compensated_attempt ∷ [] }

reserve_row-integrity_error_iff_example :
    ((reserve_row at_noon 1 first_row requeued_desk).0 ≡ raises integrity_error) ↔ (
      (any (in_scope (some 5) (65 ∷ [])) requeued_desk.attempts ≡ true)
      × (any (scoped first_row is_completed) requeued_desk.attempts ≡ false)
      × (any (scoped first_row is_live) requeued_desk.attempts ≡ false))
unfolding find_by
reserve_row-integrity_error_iff_example =
    reserve_row-integrity_error_iff at_noon 1 first_row ana requeued_desk refl refl (refl, tt)

-- Reserved, then assigned: the attempt is completed, the row is gone, the agent has one chat.
assigned_once :
    let s = calls one_assignment desk in
    (state_of_first (attempt_of 7 s) ≡ some completed) × (s.rows ≡ []) × (s.total_assignments 1 ≡ 1)
unfolding calls reserve_next_assignment ready_row earliest is_ready is_candidate_row reserve_from
    on_candidate check_cycle reserve_row reserve_with find_by modify remove_by count
    execute_assignment_attempt reconcile_ambiguous_attempt mark_external_applied
    finalize_assignment_attempt finalize_writes delete_row upsert
assigned_once = (refl, refl, refl)

-- The protocol over the desk, which no call changes
abbrev idle : Reservation
idle = without_attempt Durable.no_eligible_candidate none

abbrev got : Result Fault Reservation → Reservation
got (ok r) = r
got (err f) = idle

abbrev is_ok : Result Fault Reservation → Bool
is_ok (ok r) = true
is_ok (err f) = false

ok-got : (r : Result Fault Reservation) → is_ok r ≡ true → r ≡ ok (got r)
ok-got (ok r) h = refl
ok-got (err f) h = absurd (ground (arith, h))

never_raises :
    (t : Option Text) (excluded : List ℕ)
    → is_ok (reserve_next_assignment at_noon t excluded desk).0 ≡ true
unfolding reserve_next_assignment ready_row earliest enters_before reserve_from on_candidate
    check_cycle reserve_row reserve_with find_by modify
never_raises t excluded = elim (Bool-cases (is_ready 1000 t excluded first_row)) [
  | inl h ↦ rw h (rw h refl)
  | inr h ↦ rw h refl
]

abbrev protocol : Durable (Unit {0})
protocol = record {
  may_assign = λ w. true;
  reserve_next_assignment = λ t excluded w.
      (got (reserve_next_assignment at_noon (map_ticket (λ n. n ∷ []) t) excluded desk).0, tt);
  execute_assignment_attempt = λ pk w. (Durable.assigned, w);
  transition_assigned_lifecycle = λ pk w. w;
  pending_count = λ w. 1;
  has_potential_agents = λ w. true;
}

protocol-Reserves : Reserves protocol
protocol-Reserves = record {
  ticket_text = λ n. n ∷ [];
  tables = λ w. desk;
  surroundings = λ t excluded w. at_noon;
  returns = λ t excluded w. ok-got _ (never_raises (map_ticket (λ n. n ∷ []) t) excluded);
}

drain_of_protocol-IsEnd_example : IsEnd protocol tt (matchmaker_drain_queue protocol tt)
drain_of_protocol-IsEnd_example = drain_of_protocol-IsEnd protocol protocol-Reserves tt

reserve_next_assignment-IsSafeResult_example :
    IsSafeResult (9 ∷ []) (reserve_next_assignment at_noon none (9 ∷ []) desk).0
reserve_next_assignment-IsSafeResult_example =
    reserve_next_assignment-IsSafeResult at_noon none (9 ∷ []) desk
