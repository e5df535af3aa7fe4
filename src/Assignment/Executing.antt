-- ===== src/Assignment/Executing.antt =====
-- What is kept when an attempt is executed, reconciled or retried.
use judah.Prelude.{ℕ, Bool, ◌&&◌, Option, none, some, if◌then◌else◌, ok, err, maybe_elim, if_elim}
use judah.Cycle.{CycleState}
use judah.Matchmaker.Durable
use judah.Matchmaker.Durable.{Execution}
use judah.Assignment.{
  AssignmentAttempt, AttemptState, reserved, external_applied, completed, compensating, compensated,
  retryable, repair_required, Store, attempt_of, cycle_of, is_queued_cycle, same_option,
  hubspot_manual_owner_observed,
}
use judah.Assignment.Settle.{
  Outcome, Compensation, mark_external_applied, finalize_assignment_attempt,
  compensate_assignment_attempt,
}
use judah.Assignment.Effect.{
  RawOwner, no_owner, digits, other_text, owner_of, Reading, not_found, unreadable, ticket,
  ProviderError, Patch, patched, patch_not_found, patch_error, patch_raises, Provider, Effect,
  answer, then_run, quarantining, confirm, compensate_as, may_retry, is_prior, after_readback,
  may_reconcile, of_cycle_state, checked, reconcile_ambiguous_attempt, after_patch, by_owner,
  after_precondition, execute_in, unless_completed, execute_assignment_attempt,
}
use judah.Assignment.Keeps.{
  Keeps, finalize_assignment_attempt-Keeps, mark_external_applied-Keeps,
  compensate_assignment_attempt-Keeps,
}

module _ {P : Store → Type 0} (k : Keeps P) where
  answer-Keeps : (e : Execution) (t : Outcome) → P t.1 → P (answer e t).1
  answer-Keeps e (ok t, s) b = b
  answer-Keeps e (err f, s) b = b

  then_run-Keeps :
      (t : Outcome) (k : Store → Effect)
      → ((s : Store) → P s → P (k s).1)
      → P t.1
      → P (then_run t k).1
  then_run-Keeps (ok t, s) k h b = h s b
  then_run-Keeps (err f, s) k h b = b

  compensate_as-Keeps :
      (now : ℕ) (c : Compensation) (e : Execution) (id : ℕ) (s : Store)
      → P s
      → P (compensate_as now c e id s).1
  compensate_as-Keeps now c e id s b =
      answer-Keeps e (compensate_assignment_attempt now c id s)
        (compensate_assignment_attempt-Keeps k now c id s b)

  confirm-Keeps : (now id : ℕ) (s : Store) → P s → P (confirm now id s).1
  confirm-Keeps now id s b =
      then_run-Keeps (mark_external_applied now id s) _
        (λ s' b'.
          answer-Keeps Durable.assigned (finalize_assignment_attempt now id s')
            (finalize_assignment_attempt-Keeps k now id s' b'))
        (mark_external_applied-Keeps k now id s b)

  after_readback-Keeps :
      (now : ℕ) (e : Option ProviderError) (a : AssignmentAttempt) (r : Reading) (s : Store)
      → P s
      → P (after_readback now e a r s).1
  after_readback-Keeps now e a not_found s b = compensate_as-Keeps now _ _ a.pk s b
  after_readback-Keeps now e a unreadable s b = compensate_as-Keeps now _ _ a.pk s b
  after_readback-Keeps now e a (ticket scope raw) s b =
      if_elim (λ (r : Effect). P r.1) (same_option (owner_of raw) (some a.desired_hubspot_owner_id))
        _ _ (λ t. confirm-Keeps now a.pk s b)
        (λ t.
          if_elim (λ (r : Effect). P r.1) (is_prior (owner_of raw) a && may_retry e) _ _
            (λ u. compensate_as-Keeps now _ _ a.pk s b) (λ u. compensate_as-Keeps now _ _ a.pk s b))

  checked-Keeps :
      (test : CycleState → Bool) (now : ℕ) (a : AssignmentAttempt) (c : Option ℕ)
      (k : Store → Effect) (s : Store)
      → P s
      → P (k s).1
      → P (checked test now a c k s).1
  checked-Keeps test now a none k s b h = h
  checked-Keeps test now a (some c) k s b h =
      maybe_elim (λ (r : Effect). P r.1) _ (λ e. of_cycle_state test now a e.state k s)
        (cycle_of c s) b
        (λ e q.
          if_elim (λ (r : Effect). P r.1) (test e.state) _ _ (λ t. h)
            (λ t. compensate_as-Keeps now _ _ a.pk s b))

  module _ (p : Provider) (quiet : (s : Store) → P s → P (p.meanwhile s)) where
    pub reconcile_ambiguous_attempt-Keeps :
        (e : Option ProviderError) (id : ℕ) (s : Store)
        → P s
        → P (reconcile_ambiguous_attempt p e id s).1
    unfolding reconcile_ambiguous_attempt
    reconcile_ambiguous_attempt-Keeps e id s b =
        maybe_elim (λ (r : Effect). P r.1) _ _ (attempt_of id s) b
          (λ a q.
            checked-Keeps may_reconcile p.now a a.cycle_id _ s b
              (after_readback-Keeps p.now e a p.readback (p.meanwhile s) (quiet s b)))

    after_patch-Keeps :
        (a : AssignmentAttempt) (r : Patch) (s : Store) → P s → P (after_patch p a r s).1
    after_patch-Keeps a patched s b = reconcile_ambiguous_attempt-Keeps none a.pk s b
    after_patch-Keeps a patch_not_found s b = compensate_as-Keeps p.now _ _ a.pk s b
    after_patch-Keeps a (patch_error e) s b = reconcile_ambiguous_attempt-Keeps (some e) a.pk s b
    after_patch-Keeps a patch_raises s b = b

    owned-Keeps :
        (a : AssignmentAttempt) (owner : Option ℕ) (s : Store)
        → P s
        → P
            (if same_option owner (some a.desired_hubspot_owner_id)
              then confirm p.now a.pk s
              else compensate_as p.now
                  (quarantining hubspot_manual_owner_observed)
                  Durable.converged_external_owner
                  a.pk
                  s).1
    owned-Keeps a owner s b =
        if_elim (λ (r : Effect). P r.1) (same_option owner (some a.desired_hubspot_owner_id)) _ _
          (λ t. confirm-Keeps p.now a.pk s b) (λ t. compensate_as-Keeps p.now _ _ a.pk s b)

    by_owner-Keeps :
        (a : AssignmentAttempt) (r : RawOwner) (s : Store) → P s → P (by_owner p a r s).1
    by_owner-Keeps a no_owner s b = after_patch-Keeps a p.patch (p.meanwhile s) (quiet s b)
    by_owner-Keeps a (digits n) s b = owned-Keeps a (some n) s b
    by_owner-Keeps a other_text s b = owned-Keeps a none s b

    after_precondition-Keeps :
        (a : AssignmentAttempt) (r : Reading) (s : Store) → P s → P (after_precondition p a r s).1
    after_precondition-Keeps a not_found s b = compensate_as-Keeps p.now _ _ a.pk s b
    after_precondition-Keeps a unreadable s b = compensate_as-Keeps p.now _ _ a.pk s b
    after_precondition-Keeps a (ticket scope raw) s b =
        if_elim (λ (r : Effect). P r.1) scope _ _ (λ t. by_owner-Keeps a raw s b)
          (λ t. compensate_as-Keeps p.now _ _ a.pk s b)

    execute_in-Keeps :
        (st : AttemptState) (a : AssignmentAttempt) (s : Store) → P s → P (execute_in st p a s).1
    execute_in-Keeps external_applied a s b = reconcile_ambiguous_attempt-Keeps none a.pk s b
    execute_in-Keeps reserved a s b =
        if_elim (λ (r : Effect). P r.1) p.assignment_allowed _ _
          (λ t. after_precondition-Keeps a p.precondition (p.meanwhile s) (quiet s b))
          (λ t. compensate_as-Keeps p.now _ _ a.pk s b)
    execute_in-Keeps repair_required a s b = b
    execute_in-Keeps completed a s b = b
    execute_in-Keeps compensating a s b = b
    execute_in-Keeps compensated a s b = b
    execute_in-Keeps retryable a s b = b

    unless_completed-Keeps :
        (st : AttemptState) (was k : Effect) → P was.1 → P k.1 → P (unless_completed st was k).1
    unless_completed-Keeps completed was k b c = b
    unless_completed-Keeps reserved was k b c = c
    unless_completed-Keeps external_applied was k b c = c
    unless_completed-Keeps compensating was k b c = c
    unless_completed-Keeps compensated was k b c = c
    unless_completed-Keeps retryable was k b c = c
    unless_completed-Keeps repair_required was k b c = c

    pub execute_assignment_attempt-Keeps :
        (id : ℕ) (s : Store) → P s → P (execute_assignment_attempt p id s).1
    unfolding execute_assignment_attempt
    execute_assignment_attempt-Keeps id s b =
        maybe_elim (λ (r : Effect). P r.1) _ _ (attempt_of id s) b
          (λ a q. unless_completed-Keeps a.state _ _ b (
            checked-Keeps is_queued_cycle p.now a a.cycle_id _ s b
              (execute_in-Keeps a.state a s b)))
