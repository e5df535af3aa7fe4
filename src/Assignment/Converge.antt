-- ===== src/Assignment/Converge.antt =====
-- Where an execution and a repair end.
use judah.Prelude.{
  ℕ, ◌+◌, ◌≡◌, refl, ap, ◌∙◌, sym, subst, Bool, true, false, Option, none, some, ok, err, arith,
}
use judah.Cycle
use judah.Cycle.{CycleState}
use judah.Assignment.{
  AssignmentAttempt, AttemptState, reserved, external_applied, completed, compensating, compensated,
  retryable, repair_required, CycleEntry, Store, Fault, belongs_to_stale_cycle, attempt_of,
  cycle_of, write_attempt, is_queued_cycle, same_option,
}
use judah.Assignment.Effect.{
  RawOwner, no_owner, owner_of, ticket, ProviderError, Provider, Effect, patched, confirm,
  may_reconcile, reconcile_ambiguous_attempt, execute_assignment_attempt,
}
use judah.Assignment.Repair.{
  Verdicts, RepairCounts, give_in, repair_one, repair_locked, settled, is_retryable, executing,
  RetryEffect,
}
use judah.Assignment.Attempts.{attempt_of-write_attempt}
use judah.Assignment.Confirm.{
  is_recordable, Stands, IsAssigned, confirm-belongs_to_stale_cycle, confirm-IsAssigned,
}

same_option_refl : (n : ℕ) → same_option (some n) (some n) ≡ true
same_option_refl n = ground arith

module _ (p : Provider) (a : AssignmentAttempt) (c : ℕ) (x : CycleEntry) (s : Store)
    (i : a.cycle_id ≡ some c) where
  -- A reconciliation that reads the desired owner confirms it.
  reconcile-confirm :
      (e : Option ProviderError) (scope : Bool) (raw : RawOwner)
      → attempt_of a.pk s ≡ some a
      → cycle_of c s ≡ some x
      → may_reconcile x.state ≡ true
      → p.readback ≡ ticket scope raw
      → owner_of raw ≡ some a.desired_hubspot_owner_id
      → reconcile_ambiguous_attempt p e a.pk s ≡ confirm p.now a.pk (p.meanwhile s)
  unfolding reconcile_ambiguous_attempt
  reconcile-confirm e scope raw f g m r d =
      rw f
        (rw i (rw g (rw m (rw r (rw d (rw (same_option_refl a.desired_hubspot_owner_id) refl))))))

-- HubSpot lets the assignment through: the ticket has no owner, the owner is set and read back.
pub record IsGranted (p : Provider) (a : AssignmentAttempt) : Type 0 where
  pub allowed : p.assignment_allowed ≡ true
  pub unowned : p.precondition ≡ ticket true no_owner
  pub patched : p.patch ≡ patched
  pub owner : RawOwner
  pub scope : Bool
  pub readback : p.readback ≡ ticket scope owner
  pub desired : owner_of owner ≡ some a.desired_hubspot_owner_id

module _ (p : Provider) (a : AssignmentAttempt) (c : ℕ) (x : CycleEntry) (s : Store)
    (i : a.cycle_id ≡ some c) where
  execute-reconcile :
      attempt_of a.pk s ≡ some a
      → a.state ≡ reserved
      → cycle_of c s ≡ some x
      → is_queued_cycle x.state ≡ true
      → IsGranted p a
      → execute_assignment_attempt p a.pk s
        ≡ reconcile_ambiguous_attempt p none a.pk (p.meanwhile (p.meanwhile s))
  unfolding execute_assignment_attempt
  execute-reconcile e r f q g =
      rw e (rw r (rw i (rw f (rw q (rw g.allowed (rw g.unowned (rw g.patched refl)))))))

  -- A reserved attempt of a queued cycle whose ticket has no owner at HubSpot, and whose owner is set and
  -- read back, is assigned: the answer is "assigned", the attempt is completed with the time of the call,
  -- and its cycle is assigned. The conditions are that the provider's contract allows the assignment,
  -- that no two conversations compete for it, and that other sessions leave the attempt, its cycle and
  -- that as they are during the calls of HubSpot.
  pub execute_assignment_attempt-IsAssigned :
      ((t : Store) → Stands a c x t → Stands a c x (p.meanwhile t))
      → Stands a c x s
      → a.state ≡ reserved
      → x.state ≡ Cycle.queued
      → IsGranted p a
      → IsAssigned p.now a c x (execute_assignment_attempt p a.pk s)
  execute_assignment_attempt-IsAssigned calm t r q g =
      let s₂ = p.meanwhile (p.meanwhile s) in
      let t₂ = calm (p.meanwhile s) (calm s t) in
      subst (IsAssigned p.now a c x)
        (sym (
          execute-reconcile t.attempt r t.cycle (rw q refl) g
          ∙ reconcile-confirm p a c x s₂ i none g.scope g.owner t₂.attempt t₂.cycle (rw q refl)
              g.readback g.desired))
        (confirm-IsAssigned p.now a c x (p.meanwhile s₂) i (rw r refl) (calm s₂ t₂) (rw q refl))

is_recordable-is_retryable : (st : AttemptState) → is_recordable st ≡ true → is_retryable st ≡ false
is_recordable-is_retryable reserved h = refl
is_recordable-is_retryable external_applied h = refl
is_recordable-is_retryable repair_required h = refl
is_recordable-is_retryable completed h = refl
is_recordable-is_retryable compensating h = refl
is_recordable-is_retryable compensated h = refl
is_recordable-is_retryable retryable h = absurd (ground (arith, h))

-- The attempt and its cycle are there.
pub record IsThere (a : AssignmentAttempt) (c : ℕ) (x : CycleEntry) (s : Store) : Type 0 where
  pub attempt : attempt_of a.pk s ≡ some a
  pub cycle : cycle_of c s ≡ some x

settled-error :
    (id : ℕ) (others : Store) (counts : RepairCounts) (r : RetryEffect) (f : Fault)
    → r.0 ≡ err f
    → settled id others counts r ≡ (
      record counts { failed_unexpected = counts.failed_unexpected + 1 },
      write_attempt id give_in others,
    )
settled-error id others counts (ok e, s) f h = absurd (ground (arith, h))
settled-error id others counts (err g, s) f h = refl

executing-error : (r : Effect) (f : Fault) → r.0 ≡ err f → (executing r).0 ≡ err f
executing-error (ok e, s) f h = absurd (ground (arith, h))
executing-error (err g, s) f h = ap err (ground (arith, h))

repair_locked-error :
    (v : Verdicts) (p : Provider) (a : AssignmentAttempt) (s : Store) (f : Fault)
    → is_retryable a.state ≡ false
    → (reconcile_ambiguous_attempt p none a.pk s).0 ≡ err f
    → (repair_locked v p a s).0 ≡ err f
repair_locked-error v p a s f h e =
    rw h (executing-error (reconcile_ambiguous_attempt p none a.pk s) f e)

-- The repair of an attempt whose owner HubSpot confirms, and whose cycle is assigned already, does not
-- converge: the finalization raises, everything is rolled back, the failure is counted, and the attempt
-- is given in as one that requires a repair, as which the next repair takes it up again. The attempt is
-- reserved, applied or in repair, and it and its cycle are there before and after the call of HubSpot.
pub repair_one-gives_in :
    (v : Verdicts) (p : Provider) (a : AssignmentAttempt) (c : ℕ) (x : CycleEntry)
    (counts : RepairCounts) (s : Store) (scope : Bool) (raw : RawOwner)
    → a.cycle_id ≡ some c
    → is_recordable a.state ≡ true
    → x.state ≡ Cycle.assigned
    → p.readback ≡ ticket scope raw
    → owner_of raw ≡ some a.desired_hubspot_owner_id
    → IsThere a c x s
    → IsThere a c x (p.meanwhile s)
    → (repair_one v p a.pk (some a) counts s ≡ (
      record counts { failed_unexpected = counts.failed_unexpected + 1 },
      write_attempt a.pk give_in (p.meanwhile s),
    ))
      × IsThere (give_in a) c x (repair_one v p a.pk (some a) counts s).1
unfolding repair_one
repair_one-gives_in v p a c x counts s scope raw i h q r d t u =
    let fault =
      ap (λ (r : Effect). r.0)
        (reconcile-confirm p a c x s i none scope raw t.attempt t.cycle (rw q refl) r d)
      ∙ confirm-belongs_to_stale_cycle p.now a c x (p.meanwhile s) i h u.attempt u.cycle
          (rw q refl) in
    let e =
      settled-error a.pk (p.meanwhile s) counts (repair_locked v p a s) belongs_to_stale_cycle (
        repair_locked-error v p a s belongs_to_stale_cycle (is_recordable-is_retryable a.state h)
          fault) in
    (
      e,
      subst (λ (r : RepairCounts × Store). IsThere (give_in a) c x r.1) (sym e)
          (record {
            attempt = attempt_of-write_attempt give_in a.pk (p.meanwhile s) a (λ x. refl) u.attempt;
            cycle = u.cycle;
          }),
    )
