-- ===== src/Cycle/Open.antt =====
-- `open_or_get_cycle` over the rows of `support_conversation_cycles` and their two unique
-- constraints beside that of the key (apps/support/models.py).
use judah.Prelude.{
  ℕ, Bool, true, false, ◌&&◌, ◌||◌, Option, none, some, List, [], ◌∷◌, ◌++◌, map, Text, text_eq,
  Result, ok, err, ◌>>=◌, any, select, find, ◌==◌, if◌then◌else◌,
}
use judah.Cycle.{CycleState, queued, is_active, CycleIdentity, CycleSnapshot}
use judah.Cycle.Identity.{
  StageValue, IdentityError, datetime_naive, parse_stage_entry_timestamp, build_cycle_identity,
}
use judah.Cycle.Admission.{
  CycleClassification, created, duplicate, lost_insert_race, CycleAdmission, Fault, does_not_exist,
  classify_cycle_admission, unproven,
}

-- `SupportConversationCycle`, less the columns that this service neither reads nor sets.
pub record CycleRow : Type 0 where
  pub cycle_key : Text
  pub source_system : Text
  pub source_account_id : Text
  pub hubspot_ticket_id : Text
  pub entered_stage_at : Option ℕ
  pub source_event_id : Text
  pub state : CycleState
  pub opened_at : ℕ

-- `datetime | str | int | None`
pub data EnteredValue : Type 0 where
  aware naive : ℕ → EnteredValue
  raw : StageValue → EnteredValue

-- `CycleOpenResult`
pub record CycleOpenResult : Type 0 where
  pub admission : CycleAdmission
  pub cycle : Option CycleRow

abbrev pub Table : Type 0
Table = List CycleRow

unfoldable pub snapshot_of : CycleRow → CycleSnapshot
snapshot_of row = record {
  cycle_key = row.cycle_key;
  entered_stage_at = row.entered_stage_at;
  state = row.state;
}

unfoldable pub same_ticket : Text → Text → CycleRow → Bool
same_ticket account ticket row =
    text_eq row.source_account_id account && text_eq row.hubspot_ticket_id ticket

abbrev same_instant : Option ℕ → ℕ → Bool
same_instant none e = false
same_instant (some d) e = d == e

-- `uniq_conv_cycle_natural_key`, as the read after a lost insert spells it too.
unfoldable pub has_natural_key : CycleIdentity → CycleRow → Bool
unfolding same_ticket
has_natural_key identity row =
    text_eq row.source_system identity.source_system
    && (same_ticket identity.source_account_id identity.hubspot_ticket_id row
        && same_instant row.entered_stage_at identity.entered_stage_at)

-- A row that forbids the insert of a queued cycle with this identity: by its key, by its natural
-- key, or as the active cycle of the ticket.
unfoldable pub forbids : CycleIdentity → CycleRow → Bool
unfolding has_natural_key same_ticket is_active
forbids identity row =
    text_eq row.cycle_key identity.cycle_key
    || (has_natural_key identity row
        || (is_active row.state
            && same_ticket identity.source_account_id identity.hubspot_ticket_id row))

unfoldable pub row_of : CycleIdentity → Text → CycleRow
row_of identity source_event_id = record {
  cycle_key = identity.cycle_key;
  source_system = identity.source_system;
  source_account_id = identity.source_account_id;
  hubspot_ticket_id = identity.hubspot_ticket_id;
  entered_stage_at = some identity.entered_stage_at;
  source_event_id = source_event_id;
  state = queued;
  opened_at = identity.entered_stage_at;
}

-- `objects.create`, and the read by natural key after an `IntegrityError`.
unfoldable pub insert_or_read :
    CycleIdentity → Text → CycleAdmission → Table → Result Fault CycleOpenResult × Table
unfolding forbids row_of has_natural_key
insert_or_read identity source_event_id admission table =
    if any (forbids identity) table
    then (
      elim (find (has_natural_key identity) table) [
        | none ↦ err does_not_exist
        | some row ↦ ok (record {
          admission = record {
            classification = duplicate;
            identity = some identity;
            reason = lost_insert_race;
          };
          cycle = some row;
        })
      ],
      table,
    )
    else (
      ok (record { admission = admission; cycle = some (row_of identity source_event_id) }),
      row_of identity source_event_id ∷ table,
    )

abbrev pub is_created : CycleClassification → Bool
is_created created = true
is_created c = false

-- `by_key.get(key)`: of rows with one key the last stands in the dict.
unfoldable pub by_key : Text → List CycleRow → Option CycleRow
by_key key [] = none
by_key key (row ∷ rows) =
    let rest = by_key key rows in
    elim rest [
      | some found ↦ some found
      | none ↦ if text_eq row.cycle_key key then some row else none
    ]

-- The transaction: `table` is what it reads under lock, `meanwhile` the rows that others insert
-- before its own insert.
unfoldable pub open_proven :
    CycleIdentity → Text → Table → Table → Result Fault CycleOpenResult × Table
unfolding same_ticket snapshot_of insert_or_read by_key
open_proven identity source_event_id table meanwhile =
    let locked = select (same_ticket identity.source_account_id identity.hubspot_ticket_id) table in
    elim (classify_cycle_admission identity (map snapshot_of locked)) [
      | err fault ↦ (err fault, meanwhile ++ table)
      | ok admission ↦
          if is_created admission.classification
          then insert_or_read identity source_event_id admission (meanwhile ++ table)
          else (
            ok (record { admission = admission; cycle = by_key identity.cycle_key locked }),
            meanwhile ++ table,
          )
    ]

unfoldable pub entered_of : EnteredValue → Result IdentityError ℕ
entered_of (aware t) = ok t
entered_of (naive t) = err datetime_naive
entered_of (raw value) = parse_stage_entry_timestamp value

module _ (sha256 : Text → Text) (isoformat : ℕ → Text) (portal : Text) where
  unfoldable pub open_or_get_cycle :
      Text
      → EnteredValue
      → Text
      → Option Text
      → Table
      → Table
      → Result Fault CycleOpenResult × Table
  unfolding entered_of open_proven
  open_or_get_cycle ticket value source_event_id account table meanwhile =
      elim (entered_of value >>= λ entered.
      build_cycle_identity sha256 isoformat portal ticket entered account) [
        | err e ↦ (ok (record { admission = unproven e; cycle = none }), meanwhile ++ table)
        | ok identity ↦ open_proven identity source_event_id table meanwhile
      ]
