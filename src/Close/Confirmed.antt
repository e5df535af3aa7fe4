-- ===== src/Close/Confirmed.antt =====
-- Which closes of the current attendance the provider has confirmed.
use judah.Prelude.{
  ◌≡◌, refl, ap, Bool, true, false, ◌&&◌, not, ◌⊎◌, inl, inr, Option, none, some, List, [], ◌∷◌,
  subst, is_empty, any, select, if◌then◌else◌, arith, if_elim, Result, ok, err,
}
use judah.Close.{
  CloseClassification, TicketCloseOccurrence, TicketCloseResult, CycleRow, Snapshot, Fault,
  rejected, unless_rejected, classify_close_occurrence, provider_decision, rejection,
  resolve_close_target,
}
use judah.Close.Apply.{
  Store, Setting, closes, materialize, is_applied, is_active_legacy, answered, apply_to, if_applied,
  classified, legacy_classified, legacy_result, apply_close_occurrence, existing_verdict, of_ticket,
}

-- The provider was asked about the ticket and did not object.
abbrev pub IsConfirmed : TicketCloseOccurrence → Option Snapshot → Type 0
IsConfirmed o none = ⊥
IsConfirmed o (some s) = provider_decision o s ≡ ok none

confirmed :
    (o : TicketCloseOccurrence) (snapshot : Option Snapshot) (found r : TicketCloseResult)
    (rej : Result Fault (Option CloseClassification))
    → rejection o snapshot ≡ rej
    → unless_rejected found rej ≡ ok r
    → r.closes_current_lifecycle ≡ true
    → IsConfirmed o snapshot
confirmed o snapshot found r (err f) q e h = absurd (ground (arith, e))
confirmed o snapshot found r (ok (some c)) q e h =
    let same : rejected found c ≡ r = ground (arith, e) in
    absurd (ground (arith, h, ap (λ (x : TicketCloseResult). x.closes_current_lifecycle) same))
confirmed o none found r (ok none) q e h = absurd (ground (arith, q))
confirmed o (some s) found r (ok none) q e h = q

-- Of the cycles that are known, a close is classified as one of the current attendance only if the provider,
-- asked about the ticket, did not object.
classify_close_occurrence-IsConfirmed :
    (cycles : List CycleRow) (o : TicketCloseOccurrence) (snapshot : Option Snapshot)
    (r : TicketCloseResult)
    → classify_close_occurrence cycles o snapshot ≡ ok r
    → r.closes_current_lifecycle ≡ true
    → IsConfirmed o snapshot
unfolding classify_close_occurrence
classify_close_occurrence-IsConfirmed cycles o snapshot r =
    let found = resolve_close_target cycles o in
    if_elim
      (λ (x : Result Fault TicketCloseResult).
        x ≡ ok r → r.closes_current_lifecycle ≡ true → IsConfirmed o snapshot)
      found.closes_current_lifecycle (unless_rejected found (rejection o snapshot)) (ok found)
      (λ t e h. confirmed o snapshot found r (rejection o snapshot) refl e h)
      (λ f e h.
        let same : found ≡ r = ground (arith, e) in
        absurd
          (ground (arith, f, h, ap (λ (x : TicketCloseResult). x.closes_current_lifecycle) same)))

-- The ticket has no cycle, closes of such tickets are allowed, and the provider was not asked.
pub record IsLegacy (w : Setting) (o : TicketCloseOccurrence) (snapshot : Option Snapshot)
    (allow_legacy : Bool) (s : Store) : Type 0 where
  pub unknown : select (of_ticket o.ticket_id) s.cycles ≡ []
  pub allowed : allow_legacy ≡ true
  pub unenforced : w.cycles_enforced ≡ false
  pub unasked : snapshot ≡ none

abbrev pub IsAllowed : Setting → TicketCloseOccurrence → Option Snapshot → Bool → Store → Type 0
IsAllowed w o snapshot allow_legacy s =
    IsConfirmed o snapshot ⊎ IsLegacy w o snapshot allow_legacy s

empty-nil : (xs : List CycleRow) → is_empty xs ≡ true → xs ≡ []
empty-nil [] h = refl
empty-nil (x ∷ xs) h = absurd (ground (arith, h))

legacy-IsConfirmed :
    (o : TicketCloseOccurrence) (snapshot : Snapshot) (r : TicketCloseResult)
    (d : Result Fault (Option CloseClassification))
    → provider_decision o snapshot ≡ d
    → unless_rejected legacy_result d ≡ ok r
    → r.closes_current_lifecycle ≡ true
    → IsConfirmed o (some snapshot)
legacy-IsConfirmed o snapshot r (err f) q e h = absurd (ground (arith, e))
legacy-IsConfirmed o snapshot r (ok none) q e h = q
legacy-IsConfirmed o snapshot r (ok (some c)) q e h =
    let same : rejected legacy_result c ≡ r = ground (arith, e) in
    absurd (ground (arith, h, ap (λ (x : TicketCloseResult). x.closes_current_lifecycle) same))

module _ (w : Setting) (o : TicketCloseOccurrence) (dry_run allow_legacy : Bool) (s : Store) where
  legacy-IsAllowed :
      (snapshot : Option Snapshot) (r : TicketCloseResult)
      → is_empty (select (of_ticket o.ticket_id) s.cycles)
          && (allow_legacy && not w.cycles_enforced)
        ≡ true
      → legacy_classified o snapshot ≡ ok r
      → r.closes_current_lifecycle ≡ true
      → IsAllowed w o snapshot allow_legacy s
  legacy-IsAllowed none r t e h = inr (record {
    unknown = empty-nil (select (of_ticket o.ticket_id) s.cycles) (ground (arith, t));
    allowed = ground (arith, t);
    unenforced = ground (arith, t);
    unasked = refl;
  })
  legacy-IsAllowed (some x) r t e h =
      inl (legacy-IsConfirmed o x r (provider_decision o x) refl e h)

  classified-IsAllowed :
      (snapshot : Option Snapshot) (r : TicketCloseResult)
      → classified w (select (of_ticket o.ticket_id) s.cycles) o snapshot allow_legacy ≡ ok r
      → r.closes_current_lifecycle ≡ true
      → IsAllowed w o snapshot allow_legacy s
  classified-IsAllowed snapshot r =
      if_elim
        (λ (x : Result Fault TicketCloseResult).
          x ≡ ok r → r.closes_current_lifecycle ≡ true → IsAllowed w o snapshot allow_legacy s)
        (is_empty (select (of_ticket o.ticket_id) s.cycles)
          && (allow_legacy && not w.cycles_enforced))
        (legacy_classified o snapshot)
        (classify_close_occurrence (select (of_ticket o.ticket_id) s.cycles) o snapshot)
        (λ t e h. legacy-IsAllowed snapshot r t e h)
        (λ f e h. inl (
          classify_close_occurrence-IsConfirmed (select (of_ticket o.ticket_id) s.cycles) o snapshot
            r e h))

  -- What an answer of the current attendance comes from
  abbrev Comes : TicketCloseResult → Result Fault (TicketCloseResult × Store) → Type 0
  Comes r (err f) = Unit
  Comes r (ok (r', u)) = r'.closes_current_lifecycle ≡ true → r.closes_current_lifecycle ≡ true

  answered-Comes : (r : TicketCloseResult) (m : Result Fault Store) → Comes r (answered r m)
  answered-Comes r (err f) = tt
  answered-Comes r (ok u) = λ h. h

  apply_to-Comes : (r : TicketCloseResult) → Comes r (apply_to w o dry_run s r)
  apply_to-Comes r =
      if_elim (Comes r)
        (any (closes r.cycle_id o.ticket_id) s.closed
          && not (is_active_legacy r.cycle_id o.ticket_id s))
        (ok (rejected r (existing_verdict r.cycle_id), s))
        (if dry_run
          then ok (r, s)
          else answered r (materialize w r.cycle_id o r.closes_current_lifecycle s))
        (λ t h. absurd (ground (arith, h)))
        (λ f.
          if_elim (Comes r) dry_run (ok (r, s))
            (answered r (materialize w r.cycle_id o r.closes_current_lifecycle s)) (λ d h. h)
            (λ d. answered-Comes r (materialize w r.cycle_id o r.closes_current_lifecycle s)))

  applied-Comes :
      (r : TicketCloseResult)
      → Comes r (if is_applied r.classification then apply_to w o dry_run s r else ok (r, s))
  applied-Comes r =
      if_elim (Comes r) (is_applied r.classification) (apply_to w o dry_run s r) (ok (r, s))
        (λ t. apply_to-Comes r) (λ f h. h)

  if_applied-IsAllowed :
      (snapshot : Option Snapshot) (c : Result Fault TicketCloseResult)
      → classified w (select (of_ticket o.ticket_id) s.cycles) o snapshot allow_legacy ≡ c
      → (r : TicketCloseResult) (u : Store) → if_applied w o dry_run s c ≡ ok (r, u)
      → r.closes_current_lifecycle ≡ true
      → IsAllowed w o snapshot allow_legacy s
  if_applied-IsAllowed snapshot (err f) q r u e h = absurd (ground (arith, e))
  if_applied-IsAllowed snapshot (ok r') q r u e h =
      classified-IsAllowed snapshot r' q (subst (Comes r') e (applied-Comes r') h)

  -- A close that is answered as one of the current attendance was confirmed by the provider, which was asked
  -- about the ticket and did not object; the exception is a close that is allowed of a ticket without cycles,
  -- where cycles are not enforced and the provider was not asked.
  pub apply_close_occurrence-IsAllowed :
      (snapshot : Option Snapshot) (r : TicketCloseResult) (u : Store)
      → apply_close_occurrence w o snapshot dry_run allow_legacy s ≡ ok (r, u)
      → r.closes_current_lifecycle ≡ true
      → IsAllowed w o snapshot allow_legacy s
  unfolding apply_close_occurrence
  apply_close_occurrence-IsAllowed snapshot =
      if_applied-IsAllowed snapshot
        (classified w (select (of_ticket o.ticket_id) s.cycles) o snapshot allow_legacy) refl
