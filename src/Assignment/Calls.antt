-- ===== src/Assignment/Calls.antt =====
-- Retries, and sequences of operations of the protocol.
use judah.Prelude.{
  Bool, ℕ, ◌≡◌, refl, ◌&&◌, Option, none, some, List, [], ◌∷◌, Text, All, arith, ok, err,
  maybe_elim, if_elim,
}
use judah.Queue.{Agent}
use judah.Assignment.{AssignmentAttempt, Store, attempt_of, agent_of, cycle_of, is_queued_cycle}
use judah.Assignment.Reserve.{Surroundings, reserve_next_assignment}
use judah.Assignment.Settle.{
  Compensation, mark_external_applied, finalize_assignment_attempt, compensate_assignment_attempt,
}
use judah.Assignment.Effect.{
  ProviderError, Provider, Effect, reconcile_ambiguous_attempt, execute_assignment_attempt,
}
use judah.Assignment.Repair.{
  Verdicts, RetryEffect, is_retryable, executing, is_eligible_agent, reserve_again, re_read, vetoed,
  unless_stale, retry_assignment_attempt,
}
use judah.Assignment.Keeps.{
  Keeps, mark_external_applied-Keeps, finalize_assignment_attempt-Keeps,
  compensate_assignment_attempt-Keeps,
}
use judah.Assignment.Reserving.{reserve_next_assignment-Keeps}
use judah.Assignment.Executing.{execute_assignment_attempt-Keeps, reconcile_ambiguous_attempt-Keeps}
use judah.Assignment.Manual.{reserve_manual_assignment}
use judah.Assignment.Manually.{reserve_manual_assignment-Keeps}
use judah.Assignment.Attempts.{attempt_of-pk}

module _ {P : Store → Type 0} (k : Keeps P) where
  executing-Keeps : (r : Effect) → P r.1 → P (executing r).1
  executing-Keeps (ok e, s) b = b
  executing-Keeps (err f, s) b = b

  module _ (v : Verdicts) (p : Provider) (quiet : (s : Store) → P s → P (p.meanwhile s)) where
    reserve_again-Keeps :
        (a : AssignmentAttempt) (agent : Option Agent) (s : Store)
        → attempt_of a.pk s ≡ some a
        → agent_of a.selected_agent s ≡ agent
        → P s
        → P (reserve_again v p a agent s).1
    reserve_again-Keeps a none s e g b = b
    reserve_again-Keeps a (some agent) s e g b =
        if_elim (λ (r : RetryEffect). P r.1)
          (is_retryable a.state && is_eligible_agent v p.now agent) _ _
          (λ t. executing-Keeps _ (
            execute_assignment_attempt-Keeps k p quiet a.pk _
              (k.again p.now a agent s e g (ground arith) b)))
          (λ t. b)

    re_read-Keeps : (id : ℕ) (s : Store) → P s → P (re_read v p id s).1
    re_read-Keeps id s b =
        maybe_elim (λ (r : RetryEffect). P r.1) _
          (λ a. reserve_again v p a (agent_of a.selected_agent s) s) (attempt_of id s) b
          (λ a e.
            reserve_again-Keeps a (agent_of a.selected_agent s) s (attempt_of-pk id s a e) refl b)

    vetoed-Keeps :
        (a : AssignmentAttempt) (agent : Option Agent) (s : Store)
        → P s
        → P (vetoed v p a agent s).1
    vetoed-Keeps a none s b = b
    vetoed-Keeps a (some agent) s b =
        if_elim (λ (r : RetryEffect). P r.1) (is_eligible_agent v p.now agent && v.remote_allows) _
          _ (λ t. re_read-Keeps a.pk (p.meanwhile s) (quiet s b)) (λ t. b)

    unless_stale-Keeps :
        (c : Option ℕ) (r : RetryEffect) (s : Store) → P s → P r.1 → P (unless_stale c r s).1
    unless_stale-Keeps none r s b h = h
    unless_stale-Keeps (some c) r s b h =
        maybe_elim (λ (r : RetryEffect). P r.1) _ _ (cycle_of c s) b
          (λ e q.
            if_elim (λ (r : RetryEffect). P r.1) (is_queued_cycle e.state) _ _ (λ t. h) (λ t. b))

    retry_assignment_attempt-Keeps :
        (id : ℕ) (s : Store) → P s → P (retry_assignment_attempt v p id s).1
    unfolding retry_assignment_attempt
    retry_assignment_attempt-Keeps id s b =
        maybe_elim (λ (r : RetryEffect). P r.1) _ _ (attempt_of id s) b
          (λ a q.
            if_elim (λ (r : RetryEffect). P r.1) (is_retryable a.state) _ _
              (λ t.
                unless_stale-Keeps a.cycle_id _ s b
                  (vetoed-Keeps a (agent_of a.selected_agent s) s b))
              (λ t. b))

-- A call of the protocol, with what it meets
pub data Call : Type 0 where
  reserve_next : Surroundings → Option Text → List ℕ → Call
  reserve_manually : Surroundings → Bool → Text → ℕ → Call
  execute : Provider → ℕ → Call
  reconcile : Provider → Option ProviderError → ℕ → Call
  retry : Verdicts → Provider → ℕ → Call
  mark_applied : ℕ → ℕ → Call
  finalize : ℕ → ℕ → Call
  compensate : ℕ → Compensation → ℕ → Call

abbrev pub meanwhile_of : Call → Store → Store
meanwhile_of (reserve_next w ticket seen) = w.meanwhile
meanwhile_of (reserve_manually w remote ticket id) = w.meanwhile
meanwhile_of (execute p id) = p.meanwhile
meanwhile_of (reconcile p e id) = p.meanwhile
meanwhile_of (retry v p id) = p.meanwhile
meanwhile_of (mark_applied now id) = λ s. s
meanwhile_of (finalize now id) = λ s. s
meanwhile_of (compensate now c id) = λ s. s

abbrev pub call : Call → Store → Store
call (reserve_next w ticket seen) s = (reserve_next_assignment w ticket seen s).1
call (reserve_manually w remote ticket id) s = (reserve_manual_assignment w remote ticket id s).1
call (execute p id) s = (execute_assignment_attempt p id s).1
call (reconcile p e id) s = (reconcile_ambiguous_attempt p e id s).1
call (retry v p id) s = (retry_assignment_attempt v p id s).1
call (mark_applied now id) s = (mark_external_applied now id s).1
call (finalize now id) s = (finalize_assignment_attempt now id s).1
call (compensate now c id) s = (compensate_assignment_attempt now c id s).1

-- The calls one after another; a call that raises leaves the store it reached.
unfoldable pub calls : List Call → Store → Store
calls [] s = s
calls (c ∷ cs) s = calls cs (call c s)

-- What other sessions write during the call keeps the property.
abbrev pub IsQuiet : (Store → Type 0) → Call → Type 0
IsQuiet P c = (s : Store) → P s → P (meanwhile_of c s)

module _ {P : Store → Type 0} (k : Keeps P) where
  call-Keeps : (c : Call) (s : Store) → IsQuiet P c → P s → P (call c s)
  call-Keeps (reserve_next w ticket seen) s q b =
      reserve_next_assignment-Keeps k w ticket seen q s b
  call-Keeps (reserve_manually w remote ticket id) s q b =
      reserve_manual_assignment-Keeps k w q remote ticket id s b
  call-Keeps (execute p id) s q b = execute_assignment_attempt-Keeps k p q id s b
  call-Keeps (reconcile p e id) s q b = reconcile_ambiguous_attempt-Keeps k p q e id s b
  call-Keeps (retry v p id) s q b = retry_assignment_attempt-Keeps k v p q id s b
  call-Keeps (mark_applied now id) s q b = mark_external_applied-Keeps k now id s b
  call-Keeps (finalize now id) s q b = finalize_assignment_attempt-Keeps k now id s b
  call-Keeps (compensate now c id) s q b = compensate_assignment_attempt-Keeps k now c id s b

  pub calls-Keeps : (cs : List Call) (s : Store) → All (IsQuiet P) cs → P s → P (calls cs s)
  unfolding calls
  calls-Keeps [] s q b = b
  calls-Keeps (c ∷ cs) s q b = calls-Keeps cs (call c s) q.1 (call-Keeps c s q.0 b)
