-- ===== src/Close/Effect.antt =====
-- What a close that is applied comes with, and what the others leave.
use judah.Prelude.{
  ℕ, ◌≤◌, ◌≡◌, refl, Bool, true, false, ◌&&◌, not, ◌⊎◌, inl, inr, Option, none, some, List, any,
  find, select, ◌==◌, if◌then◌else◌, arith, Bool-cases, if_elim, count, Result, ok, err,
}
use judah.Queue.{Agent}
use judah.Close.{TicketCloseOccurrence, TicketCloseResult, Snapshot, Fault, rejected}
use judah.Close.Apply.{
  AssignedConversation, Store, Setting, assigned_to, closes, given_back, finish_close, materialize,
  is_applied, is_active_legacy, answered, apply_to, if_applied, classified, apply_close_occurrence,
  existing_verdict, of_ticket,
}
use judah.Close.Written.{IsWritten, written-IsWritten}

-- What a close that is applied comes with
pub record IsApplied (o : TicketCloseOccurrence) (snapshot : Option Snapshot) (s u : Store)
    (r : TicketCloseResult) : Type 0 where
  pub applied : is_applied r.classification ≡ true
  pub fresh :
      (any (closes r.cycle_id o.ticket_id) s.closed ≡ false)
      ⊎ (is_active_legacy r.cycle_id o.ticket_id s ≡ true)
  pub is_written : IsWritten r.cycle_id s u
  pub chats : r.closes_current_lifecycle ≡ false → u.agents ≡ s.agents

abbrev pub IsEffect :
    TicketCloseOccurrence
    → Option Snapshot
    → Bool
    → Store
    → Result Fault (TicketCloseResult × Store)
    → Type 0
IsEffect o snapshot dry_run s (err f) = Unit
IsEffect o snapshot dry_run s (ok (r, u)) =
    ((u ≡ s) × ((is_applied r.classification ≡ false) ⊎ (dry_run ≡ true)))
    ⊎ IsApplied o snapshot s u r

module _ (w : Setting) (o : TicketCloseOccurrence) (snapshot : Option Snapshot) (dry_run : Bool)
    (s : Store) (unique : (id : ℕ) → count (λ a. a.pk == id) s.assigned ≤ 1) where
  module _ (r : TicketCloseResult) (applied : is_applied r.classification ≡ true)
      (fresh : (any (closes r.cycle_id o.ticket_id) s.closed ≡ false)
        ⊎ (is_active_legacy r.cycle_id o.ticket_id s ≡ true)) where
    abbrev mine : Option AssignedConversation
    mine = find (assigned_to r.cycle_id o.ticket_id) s.assigned

    finished-IsEffect :
        (agents : Result Fault (List Agent))
        → (r.closes_current_lifecycle ≡ false → agents ≡ ok s.agents)
        → IsEffect o snapshot dry_run s
            (answered r (finish_close w r.cycle_id o r.closes_current_lifecycle mine s agents))
    finished-IsEffect (err f) q = tt
    finished-IsEffect (ok agents) q =
        if_elim (λ (x : Result Fault Store). IsEffect o snapshot dry_run s (answered r x))
          (r.closes_current_lifecycle && not w.lifecycle_moves) _ _ (λ t. tt)
          (λ t. inr (record {
            applied = applied;
            fresh = fresh;
            is_written = written-IsWritten o s unique r.cycle_id agents;
            chats = λ h. let same = q h in ground (arith, same);
          }))

    given_back-same :
        (a : Option AssignedConversation)
        → r.closes_current_lifecycle ≡ false
        → given_back w r.closes_current_lifecycle a s.agents ≡ ok s.agents
    given_back-same none h = refl
    given_back-same (some a) h = rw h refl

    materialize-IsEffect :
        IsEffect o snapshot dry_run s
          (answered r (materialize w r.cycle_id o r.closes_current_lifecycle s))
    unfolding materialize
    materialize-IsEffect =
        finished-IsEffect (given_back w r.closes_current_lifecycle mine s.agents)
          (given_back-same mine)

  existing-final : (target : Option ℕ) → is_applied (existing_verdict target) ≡ false
  existing-final none = refl
  existing-final (some t) = refl

  apply_to-IsEffect :
      (r : TicketCloseResult)
      → is_applied r.classification ≡ true
      → IsEffect o snapshot dry_run s (apply_to w o dry_run s r)
  apply_to-IsEffect r a =
      if_elim (IsEffect o snapshot dry_run s)
        (any (closes r.cycle_id o.ticket_id) s.closed
          && not (is_active_legacy r.cycle_id o.ticket_id s))
        (ok (rejected r (existing_verdict r.cycle_id), s))
        (if dry_run
          then ok (r, s)
          else answered r (materialize w r.cycle_id o r.closes_current_lifecycle s))
        (λ t. inl (refl, inl (existing-final r.cycle_id)))
        (λ f.
          if_elim (IsEffect o snapshot dry_run s) dry_run (ok (r, s))
            (answered r (materialize w r.cycle_id o r.closes_current_lifecycle s))
            (λ d. inl (refl, inr d))
            (λ d.
              materialize-IsEffect r a
                (elim (Bool-cases (any (closes r.cycle_id o.ticket_id) s.closed)) [
                  | inl y ↦ inr (ground (arith, y, f))
                  | inr n ↦ inl n
                ])))

  if_applied-IsEffect :
      (c : Result Fault TicketCloseResult)
      → IsEffect o snapshot dry_run s (if_applied w o dry_run s c)
  if_applied-IsEffect (err f) = tt
  if_applied-IsEffect (ok r) =
      if_elim (IsEffect o snapshot dry_run s) (is_applied r.classification)
        (apply_to w o dry_run s r) (ok (r, s)) (λ a. apply_to-IsEffect r a) (λ n. inl (refl, inl n))

  -- A close that returns has written nothing, since its answer says that it was not applied or the run is dry,
  -- or it has written the one record of its cycle and left the cycles, the assigned and the queued
  -- conversations of every other cycle as they were; a close of an earlier attendance leaves the chats of the
  -- agents too. The theorem assumes unique keys of the assigned conversations.
  pub apply_close_occurrence-IsEffect :
      (allow_legacy : Bool)
      → IsEffect o snapshot dry_run s (apply_close_occurrence w o snapshot dry_run allow_legacy s)
  unfolding apply_close_occurrence
  apply_close_occurrence-IsEffect allow_legacy =
      if_applied-IsEffect
        (classified w (select (of_ticket o.ticket_id) s.cycles) o snapshot allow_legacy)
