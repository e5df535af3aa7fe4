-- ===== src/Cycle/Persistence.antt =====
-- What `open_or_get_cycle` does to the table: a new cycle is opened once, a repeated occurrence finds
-- it, and only a race can make the call raise.
use judah.Prelude.{
  ◌≡◌, ◌≢◌, refl, ◌⊎◌, inl, inr, Bool, true, false, ◌&&◌, none, some, List, [], ◌∷◌, ◌++◌, map,
  Text, text_eq, text_eq_refl, Result, ok, err, any, select, find, arith, All, any-select,
  Bool-cases, is_some, is_empty-select, ap, Exists,
}
use judah.Cycle.{is_active, CycleIdentity, CycleSnapshot}
use judah.Cycle.Admission.{
  created, duplicate, Fault, does_not_exist, CycleAdmission, classify_cycle_admission,
  already_persisted, has_key, decide,
}
use judah.Cycle.Decision.{Answers, classify_cycle_admission-Answers}
use judah.Cycle.Open.{
  is_created, CycleRow, CycleOpenResult, Table, snapshot_of, same_ticket, has_natural_key, forbids,
  row_of, insert_or_read, by_key, open_proven,
}

-- What a call may do to the table that the other writers made.
abbrev pub Effect : CycleIdentity → Text → Table → Result Fault CycleOpenResult × Table → Type 0
Effect identity event table (ok r, table') =
    (table' ≡ table) × (r.admission.classification ≢ created)
    ⊎ (table' ≡ row_of identity event ∷ table)
      × (r.admission.classification ≡ created)
      × (r.cycle ≡ some (row_of identity event))
Effect identity event table (err f, table') = table' ≡ table

-- A call that opens no new cycle, or raises, leaves the table as the other writers made it, and a
-- call that opens one adds exactly the queued row of the occurrence and answers with it.
pub open_proven-Effect :
    (identity : CycleIdentity) (event : Text) (table meanwhile : Table)
    → Effect identity event (meanwhile ++ table) (open_proven identity event table meanwhile)
unfolding open_proven insert_or_read
open_proven-Effect identity event table meanwhile = ground arith

-- The row of an occurrence is among the rows of its ticket, with its key.
by_key_found :
    (key : Text) (rows : List CycleRow)
    → any (λ r. text_eq r.cycle_key key) rows ≡ true
    → is_some (by_key key rows) ≡ true
unfolding by_key
by_key_found key [] e = absurd (ground arith)
by_key_found key (r ∷ rows) e = ground (arith, by_key_found key rows)

any-map-snapshot_of :
    (key : Text) (rows : List CycleRow)
    → any (has_key key) (map snapshot_of rows) ≡ any (λ r. text_eq r.cycle_key key) rows
unfolding has_key snapshot_of
any-map-snapshot_of key [] = refl
any-map-snapshot_of key (r ∷ rows) = ground (arith, any-map-snapshot_of key rows)

-- A row of the occurrence's ticket with its key, among the rows that the call reads.
abbrev is_stored : CycleIdentity → CycleRow → Bool
is_stored identity r =
    same_ticket identity.source_account_id identity.hubspot_ticket_id r
    && text_eq r.cycle_key identity.cycle_key

abbrev locked_rows : CycleIdentity → Table → List CycleRow
locked_rows identity = select (same_ticket identity.source_account_id identity.hubspot_ticket_id)

locked_has_key :
    (identity : CycleIdentity) (table : Table)
    → any (is_stored identity) table ≡ true
    → any (λ r. text_eq r.cycle_key identity.cycle_key) (locked_rows identity table) ≡ true
locked_has_key identity table e =
    rw
      (any-select (λ r. text_eq r.cycle_key identity.cycle_key)
        (same_ticket identity.source_account_id identity.hubspot_ticket_id) table)
      e

-- What a call on a stored occurrence returns.
abbrev found_again : CycleIdentity → Table → CycleOpenResult
found_again identity table = record {
  admission = record {
    classification = duplicate;
    identity = some identity;
    reason = already_persisted;
  };
  cycle = by_key identity.cycle_key (locked_rows identity table);
}

open_proven_stored :
    (identity : CycleIdentity) (event : Text) (table meanwhile : Table)
    → any (is_stored identity) table ≡ true
    → open_proven identity event table meanwhile
      ≡ (ok (found_again identity table), meanwhile ++ table)
unfolding open_proven classify_cycle_admission
open_proven_stored identity event table meanwhile e = ground (
  arith,
  any-map-snapshot_of identity.cycle_key (locked_rows identity table),
  locked_has_key identity table e,
)

row_of-is_stored :
    (identity : CycleIdentity) (event : Text) → is_stored identity (row_of identity event) ≡ true
unfolding row_of same_ticket
row_of-is_stored identity event = rw (
  text_eq_refl identity.source_account_id,
  text_eq_refl identity.hubspot_ticket_id,
  text_eq_refl identity.cycle_key,
)

-- A call that opened a cycle may be repeated at will: on the table that it left, whatever other
-- writers add meanwhile, a second call for the occurrence is a duplicate, finds a row, and adds none.
pub open_proven-twice :
    (identity : CycleIdentity) (event event' : Text) (table meanwhile meanwhile' : Table)
    (r : CycleOpenResult)
    → (open_proven identity event table meanwhile).0 ≡ ok r
    → r.admission.classification ≡ created
    → (let stored = (open_proven identity event table meanwhile).1 in
        let (result, table') = open_proven identity event' stored meanwhile' in
        (again : CycleOpenResult) × (result ≡ ok again)
        × (again.admission.classification ≡ duplicate)
        × (is_some again.cycle ≡ true)
        × (table' ≡ meanwhile' ++ stored))
open_proven-twice identity event event' table meanwhile meanwhile' r e c =
    let stored = (open_proven identity event table meanwhile).1 in
    let t : stored ≡ row_of identity event ∷ (meanwhile ++ table) =
      ground (arith, open_proven-Effect identity event table meanwhile) in
    let h : any (is_stored identity) stored ≡ true =
      ground (arith, row_of-is_stored identity event) in
    let again = open_proven_stored identity event' stored meanwhile' h in
    (
      found_again identity stored,
      ap (λ o. o.0) again,
      refl,
      by_key_found identity.cycle_key (locked_rows identity stored)
          (locked_has_key identity stored h),
      ap (λ o. o.1) again,
    )

-- In the rows of the table, the key of the occurrence stands exactly with its natural key.
abbrev pub KeysAgree : CycleIdentity → Table → Type 0
KeysAgree identity =
    All (λ row. text_eq row.cycle_key identity.cycle_key ≡ has_natural_key identity row)

none_forbids :
    (identity : CycleIdentity) (table : Table)
    → KeysAgree identity table
    → any (has_key identity.cycle_key) (map snapshot_of (locked_rows identity table)) ≡ false
    → any (λ s. is_active s.state) (map snapshot_of (locked_rows identity table)) ≡ false
    → any (forbids identity) table ≡ false
unfolding forbids has_natural_key snapshot_of has_key
none_forbids identity [] k p q = refl
none_forbids identity (row ∷ table) k p q = ground (arith, none_forbids identity table k.1)

created_clear :
    (identity : CycleIdentity) (ss : List CycleSnapshot) (a : CycleAdmission)
    → classify_cycle_admission identity ss ≡ ok a
    → a.classification ≡ created
    → (any (has_key identity.cycle_key) ss ≡ false) × (any (λ s. is_active s.state) ss ≡ false)
unfolding classify_cycle_admission decide
created_clear identity ss a e c = ground (arith, is_empty-select (λ s. is_active s.state) ss)

null_entry :
    (ss : List CycleSnapshot)
    → All (λ s. is_some s.entered_stage_at ≡ true) ss
    → Exists (λ s. s.entered_stage_at ≡ none) ss
    → ⊥
null_entry [] h e = elim e [ ]
null_entry (s ∷ ss) h (inl e) = ground arith
null_entry (s ∷ ss) h (inr e) = null_entry ss h.1 e

-- Without other writers the call returns, if each row that it reads has an entry and the key of the
-- occurrence stands in the table exactly with its natural key.
pub open_proven-returns_alone :
    (identity : CycleIdentity) (event : Text) (table : Table)
    → KeysAgree identity table
    → All (λ s. is_some s.entered_stage_at ≡ true) (map snapshot_of (locked_rows identity table))
    → (r : CycleOpenResult) × ((open_proven identity event table []).0 ≡ ok r)
unfolding open_proven insert_or_read
open_proven-returns_alone identity event table k h = go (classify_cycle_admission identity _) refl
  where
    go :
        (c : Result Fault CycleAdmission)
        → classify_cycle_admission identity (map snapshot_of (locked_rows identity table)) ≡ c
        → (r : CycleOpenResult) × ((open_proven identity event table []).0 ≡ ok r)
    go (err f) e =
        let a : Answers identity _ (err f) = rw e at (
          classify_cycle_admission-Answers identity
            (map snapshot_of (locked_rows identity table))) in
        absurd (null_entry _ h a.1)
    go (ok a) e = elim (Bool-cases (is_created a.classification)) [
      | inl c ↦
          let (p, q) = created_clear identity _ a e (ground arith) in
          (
            record { admission = a; cycle = some (row_of identity event) },
            ground (arith, none_forbids identity table k p q),
          )
      | inr c ↦ (
        record { admission = a; cycle = by_key identity.cycle_key (locked_rows identity table) },
        ground arith,
      )
    ]

-- A lost race against another occurrence escapes as `DoesNotExist`: the read rows let the cycle open,
-- then another writer inserts a queued or otherwise active cycle of the ticket, and no row has the
-- natural key that the recovery reads.
pub open_proven_race :
    (identity : CycleIdentity) (event : Text) (table : Table) (rival : CycleRow)
    (a : CycleAdmission)
    → classify_cycle_admission identity (map snapshot_of (locked_rows identity table)) ≡ ok a
    → a.classification ≡ created
    → is_active rival.state ≡ true
    → same_ticket identity.source_account_id identity.hubspot_ticket_id rival ≡ true
    → find (has_natural_key identity) (rival ∷ table) ≡ none
    → open_proven identity event table (rival ∷ []) ≡ (err does_not_exist, rival ∷ table)
unfolding open_proven insert_or_read forbids
open_proven_race identity event table rival a e c act same none_found = ground arith
