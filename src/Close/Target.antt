-- ===== src/Close/Target.antt =====
-- Which cycle a close belongs to.
use judah.Prelude.{
  ℕ, ◌≤◌, ◌<◌, ◌≡◌, refl, sym, subst, Bool, true, false, ◌⊎◌, inl, inr, Option, none, some, List,
  [], ◌∷◌, leb, ◌==◌, if◌then◌else◌, arith, All, All-map, Exists, Bool-cases, if_elim,
}
use judah.Prelude.Sorting.{All-sort}
use judah.Prelude.Ascending.{
  last, All-last, All-select, All-selected, Ascending, sort-back, select-Ascending, sort-Ascending,
  last-Ascending,
}
use judah.Cycle.{CycleState, queued, assigned, repair_required, closed, cancelled}
use judah.Close.{
  applied_current, applied_historical, duplicate, no_cycle, conflict, identity_unavailable, Instant,
  aware, TicketCloseOccurrence, TicketCloseResult, CycleRow, without_cycle, with_cycle, enters_by,
  entered, is_last, verdict, ordered, eligible, resolve_among, is_comparable, resolve_at,
  resolve_close_target,
}

module _ {ℓ} {A : Type ℓ} where
  Exists-cons :
      (x : A) (y : A) (xs : List A) → Exists (λ z. y ≡ z) xs → Exists (λ z. y ≡ z) (x ∷ xs)
  Exists-cons x y xs e = inr e

  All-Exists : (xs : List A) → All (λ y. Exists (λ z. y ≡ z) xs) xs
  All-Exists [] = tt
  All-Exists (x ∷ xs) = (inl refl, All-map _ _ (λ y e. Exists-cons x y xs e) xs (All-Exists xs))

-- The latest of the cycles that were entered by the close
pub record IsTarget (t : ℕ) (cycles : List CycleRow) (target : CycleRow) : Type 0 where
  pub known : Exists (λ z. target ≡ z) cycles
  pub entered_before : entered target ≤ t
  pub latest : All (λ c. entered c ≤ t → entered c ≤ entered target) cycles

-- The latest of all the cycles
pub record IsLatest (cycles : List CycleRow) (row : CycleRow) : Type 0 where
  pub known : Exists (λ z. row ≡ z) cycles
  pub latest : All (λ c. entered c ≤ entered row) cycles

module _ (t : ℕ) (cycles : List CycleRow) where
  ordered-Ascending : Ascending enters_by (ordered cycles)
  ordered-Ascending =
      sort-Ascending enters_by (λ a. ground arith) (λ a b h. ground (arith, h))
        (λ a b c h k. ground (arith, h, k)) cycles

  ordered-known : All (λ y. Exists (λ z. y ≡ z) cycles) (ordered cycles)
  ordered-known = All-sort enters_by (λ y. Exists (λ z. y ≡ z) cycles) cycles (All-Exists cycles)

  last-IsLatest : (row : CycleRow) → last (ordered cycles) ≡ some row → IsLatest cycles row
  last-IsLatest row e = record {
    known = All-last (λ y. Exists (λ z. y ≡ z) cycles) (ordered cycles) row ordered-known e;
    latest =
        sort-back enters_by (λ c. entered c ≤ entered row) cycles
          (All-map (λ c. enters_by c row ≡ true) (λ c. entered c ≤ entered row)
            (λ c h. ground (arith, h)) (ordered cycles)
            (last-Ascending enters_by (λ a. ground arith) (λ a b h. ground (arith, h))
              (λ a b c h k. ground (arith, h, k)) (ordered cycles) row ordered-Ascending e));
  }

  last-All {κ} : (P : CycleRow → Type κ) (xs : List CycleRow) → last xs ≡ none → All P xs
  last-All P [] e = tt
  last-All P (x ∷ []) e = absurd (ground (arith, e))
  last-All P (x ∷ y ∷ ys) e = absurd (go x y ys e)
    where
      go : (x y : CycleRow) (ys : List CycleRow) → ¬ (last (x ∷ y ∷ ys) ≡ none)
      go x y [] e = ground (arith, e)
      go x y (z ∷ zs) e = go y z zs e

  eligible-back :
      (P : CycleRow → Type 0)
      → All P (eligible t cycles)
      → All (λ c. leb (entered c) t ≡ true → P c) cycles
  eligible-back P h =
      sort-back enters_by (λ c. leb (entered c) t ≡ true → P c) cycles
        (All-selected P (λ c. leb (entered c) t) (ordered cycles) h)

  none-eligible : last (eligible t cycles) ≡ none → All (λ c. t < entered c) cycles
  none-eligible e =
      All-map (λ c. leb (entered c) t ≡ true → t < entered c) (λ c. t < entered c)
        (λ c h. elim (Bool-cases (leb (entered c) t)) [ inl q ↦ h q | inr q ↦ ground (arith, q) ])
        cycles (eligible-back (λ c. t < entered c) (last-All _ (eligible t cycles) e))

  eligible-IsTarget :
      (target : CycleRow) → last (eligible t cycles) ≡ some target → IsTarget t cycles target
  eligible-IsTarget target e =
      let both =
        All-last _ (eligible t cycles) target
          (All-select _ (λ c. leb (entered c) t) (ordered cycles) ordered-known) e in
      record {
        known = both.0;
        entered_before = ground (arith, both.1);
        latest =
            All-map (λ c. leb (entered c) t ≡ true → enters_by c target ≡ true)
              (λ c. entered c ≤ t → entered c ≤ entered target)
              (λ c h l. let k = h (ground (arith, l)) in ground (arith, k)) cycles
              (eligible-back (λ c. enters_by c target ≡ true)
                (last-Ascending enters_by (λ a. ground arith) (λ a b h. ground (arith, h))
                  (λ a b c h k. ground (arith, h, k)) (eligible t cycles) target
                  (select-Ascending enters_by (λ c. leb (entered c) t) (ordered cycles)
                    ordered-Ascending)
                  e));
      }

-- A close that is applied to the current attendance
abbrev pub current_result : CycleRow → TicketCloseResult
current_result target = record {
  classification = applied_current;
  cycle_id = some target.pk;
  closes_current_lifecycle = true;
}

-- What is said of the target: a conflict if it was cancelled, a duplicate if it is closed, and otherwise it is
-- applied, to the current attendance if it has the key of the latest cycle, and to an earlier one if not.
pub record IsVerdict (cycles : List CycleRow) (target : CycleRow) (r : TicketCloseResult)
    : Type 0 where
  pub names : r.cycle_id ≡ some target.pk
  pub cancels : target.state ≡ cancelled → r ≡ with_cycle conflict target
  pub repeats : target.state ≡ closed → r ≡ with_cycle duplicate target
  pub applies :
      ¬ (target.state ≡ cancelled)
      → ¬ (target.state ≡ closed)
      → (row : CycleRow) × IsLatest cycles row
        × ((row.pk ≡ target.pk) × (r ≡ current_result target)
            ⊎ (target.pk == row.pk ≡ false) × (r ≡ with_cycle applied_historical target))
  pub current :
      r.closes_current_lifecycle ≡ true
      → (r.classification ≡ applied_current)
        × ((row : CycleRow) × IsLatest cycles row × (row.pk ≡ target.pk))
  pub historical :
      r.classification ≡ applied_historical
      → (r.closes_current_lifecycle ≡ false)
        × ((row : CycleRow) × IsLatest cycles row × (target.pk == row.pk ≡ false))

module _ (t : ℕ) (cycles : List CycleRow) (target : CycleRow) where
  active-IsVerdict :
      (row : CycleRow)
      → ¬ (target.state ≡ cancelled)
      → ¬ (target.state ≡ closed)
      → IsLatest cycles row
      → IsVerdict cycles target (
          if target.pk == row.pk
          then current_result target
          else with_cycle applied_historical target)
  active-IsVerdict row n m l =
      if_elim (IsVerdict cycles target) (target.pk == row.pk) (current_result target)
        (with_cycle applied_historical target)
        (λ q. record {
          names = refl;
          cancels = λ h. absurd (n h);
          repeats = λ h. absurd (m h);
          applies = λ x y. (row, l, inl (ground (arith, q), refl));
          current = λ h. (refl, (row, l, ground (arith, q)));
          historical = λ h. absurd (ground (arith, h));
        })
        (λ q. record {
          names = refl;
          cancels = λ h. absurd (n h);
          repeats = λ h. absurd (m h);
          applies = λ x y. (row, l, inr (q, refl));
          current = λ h. absurd (ground (arith, h));
          historical = λ h. (refl, (row, l, q));
        })

  applied-IsVerdict :
      (state : CycleState) (row : CycleRow)
      → target.state ≡ state
      → IsLatest cycles row
      → IsVerdict cycles target (verdict state (is_last target (some row)) target)
  applied-IsVerdict cancelled row e l = record {
    names = refl;
    cancels = λ h. refl;
    repeats = λ h. absurd (ground (arith, e, h));
    applies = λ x y. absurd (x e);
    current = λ h. absurd (ground (arith, h));
    historical = λ h. absurd (ground (arith, h));
  }
  applied-IsVerdict closed row e l = record {
    names = refl;
    cancels = λ h. absurd (ground (arith, e, h));
    repeats = λ h. refl;
    applies = λ x y. absurd (y e);
    current = λ h. absurd (ground (arith, h));
    historical = λ h. absurd (ground (arith, h));
  }
  applied-IsVerdict queued row e l =
      active-IsVerdict row (λ h. ground (arith, e, h)) (λ h. ground (arith, e, h)) l
  applied-IsVerdict assigned row e l =
      active-IsVerdict row (λ h. ground (arith, e, h)) (λ h. ground (arith, e, h)) l
  applied-IsVerdict repair_required row e l =
      active-IsVerdict row (λ h. ground (arith, e, h)) (λ h. ground (arith, e, h)) l

-- No cycle was entered by the close, or the verdict is on the latest that was.
abbrev pub IsResolved : ℕ → List CycleRow → TicketCloseResult → Type 0
IsResolved t cycles r =
    ((r ≡ without_cycle no_cycle) × All (λ c. t < entered c) cycles)
    ⊎ ((target : CycleRow) × IsTarget t cycles target × IsVerdict cycles target r)

resolve_among-IsResolved :
    (t : ℕ) (cycles : List CycleRow) (found top : Option CycleRow)
    → last (eligible t cycles) ≡ found
    → last (ordered cycles) ≡ top
    → IsResolved t cycles (resolve_among cycles found)
resolve_among-IsResolved t cycles none top e l = inl (refl, none-eligible t cycles e)
resolve_among-IsResolved t cycles (some target) none e l = absurd (
    none_known target cycles (last-All t cycles (λ y. ⊥) (ordered cycles) l)
      (eligible-IsTarget t cycles target e).known)
  where
    none_known :
        (target : CycleRow) (cycles : List CycleRow)
        → All (λ y. ⊥) (ordered cycles)
        → ¬ Exists (λ z. target ≡ z) cycles
    none_known target [] h k = elim k [ ]
    none_known target (c ∷ cs) h k = absurd (sort-back enters_by (λ y. ⊥) (c ∷ cs) h).0
resolve_among-IsResolved t cycles (some target) (some row) e l = inr (
  target,
  eligible-IsTarget t cycles target e,
  subst
      (λ (o : Option CycleRow).
        IsVerdict cycles target (verdict target.state (is_last target o) target))
      (sym l)
      (applied-IsVerdict t cycles target target.state row refl (last-IsLatest t cycles row l)),
)

-- A close at a known instant, of a ticket whose cycles all have an entry and one source, belongs to the
-- latest cycle that was entered by then: it is a conflict if that cycle was cancelled, a duplicate if it is
-- closed, and otherwise is applied, to the current attendance where a cycle entered last of all has its key,
-- and to an earlier one where that cycle has another key. If all cycles were entered later there is none.
pub resolve_close_target-IsResolved :
    (t : ℕ) (cycles : List CycleRow) (o : TicketCloseOccurrence)
    → o.effective_at ≡ aware t
    → is_comparable cycles ≡ true
    → IsResolved t cycles (resolve_close_target cycles o)
unfolding resolve_close_target
resolve_close_target-IsResolved t [] o a c = inl (refl, tt)
resolve_close_target-IsResolved t (row ∷ rows) o a c =
    let cycles = row ∷ rows in
    subst (λ (i : Instant). IsResolved t (row ∷ rows) (resolve_at (row ∷ rows) i)) (sym a)
      (subst
        (λ (b : Bool). IsResolved t (row ∷ rows) (
          if b
          then resolve_among (row ∷ rows) (last (eligible t (row ∷ rows)))
          else without_cycle identity_unavailable))
        (sym c)
        (resolve_among-IsResolved t (row ∷ rows) (last (eligible t (row ∷ rows)))
          (last (ordered (row ∷ rows))) refl refl))
