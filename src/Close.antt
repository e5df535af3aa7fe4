-- ===== src/Close.antt =====
-- apps/support/ticket_close_service.py: the closes that the provider reports, and the cycle each belongs
-- to. Instants are microseconds in UTC.
mod Tests
pub mod Apply
pub mod Target
pub mod Written
pub mod Confirmed
pub mod Effect
use judah.Prelude.{
  ℕ, Bool, true, false, ◌&&◌, ◌||◌, not, Option, none, some, List, [], ◌∷◌, Text, text_eq, any, all,
  select, is_empty, is_some, get_or, ltb, leb, ◌==◌, if◌then◌else◌, Result, ok, err, maybe,
}
use judah.Prelude.Sorting.{sort}
use judah.Prelude.Ascending.{last}
use judah.Cycle.{CycleState, closed, cancelled}
use judah.Cycle.Identity.{StageValue, IdentityError, parse_stage_entry_timestamp}

pub data CloseClassification : Type 0 where
  applied_current applied_historical duplicate no_cycle : CloseClassification
  identity_unavailable reopen_not_materialized provider_unavailable conflict : CloseClassification

-- `effective_at`, with a time zone or without
pub data Instant : Type 0 where
  aware naive : ℕ → Instant

-- `TicketCloseOccurrence`
pub record TicketCloseOccurrence : Type 0 where
  pub ticket_id : Text
  pub effective_at : Instant
  pub closing_owner_id : Option ℕ
  pub source_event_id : Text

-- `TicketCloseResult`
pub record TicketCloseResult : Type 0 where
  pub classification : CloseClassification
  pub cycle_id : Option ℕ
  pub closes_current_lifecycle : Bool

-- `SupportConversationCycle`, what a close reads and writes of it
pub record CycleRow : Type 0 where
  pub pk : ℕ
  pub source_system : Text
  pub source_account_id : Text
  pub hubspot_ticket_id : Text
  pub entered_stage_at : Option ℕ
  pub state : CycleState
  pub closed_at : Option ℕ

abbrev pub without_cycle : CloseClassification → TicketCloseResult
without_cycle c = record { classification = c; cycle_id = none; closes_current_lifecycle = false }

abbrev pub with_cycle : CloseClassification → CycleRow → TicketCloseResult
with_cycle c row = record {
  classification = c;
  cycle_id = some row.pk;
  closes_current_lifecycle = false;
}

abbrev pub same_source : CycleRow → CycleRow → Bool
same_source a b =
    text_eq a.source_system b.source_system && text_eq a.source_account_id b.source_account_id

-- The rows of one ticket have one source.
abbrev pub one_source : List CycleRow → Bool
one_source [] = false
one_source (row ∷ rows) = all (same_source row) rows

-- When a cycle was entered, once every one is known to be
abbrev pub entered : CycleRow → ℕ
entered row = get_or row.entered_stage_at 0

abbrev pub enters_by : CycleRow → CycleRow → Bool
enters_by a b = leb (entered a) (entered b)

abbrev pub has_no_entry : CycleRow → Bool
has_no_entry row = not (is_some row.entered_stage_at)

abbrev pub is_last : CycleRow → Option CycleRow → Bool
is_last target none = false
is_last target (some row) = target.pk == row.pk

-- The verdict on the cycle in whose interval the close falls
abbrev pub verdict : CycleState → Bool → CycleRow → TicketCloseResult
verdict cancelled is_current target = with_cycle conflict target
verdict closed is_current target = with_cycle duplicate target
verdict state is_current target =
    if is_current
    then record {
      classification = applied_current;
      cycle_id = some target.pk;
      closes_current_lifecycle = true;
    }
    else with_cycle applied_historical target

abbrev pub ordered : List CycleRow → List CycleRow
ordered cycles = sort enters_by cycles

abbrev pub eligible : ℕ → List CycleRow → List CycleRow
eligible t cycles = select (λ row. leb (entered row) t) (ordered cycles)

abbrev pub resolve_among : List CycleRow → Option CycleRow → TicketCloseResult
resolve_among cycles none = without_cycle no_cycle
resolve_among cycles (some target) =
    verdict target.state (is_last target (last (ordered cycles))) target

abbrev pub is_comparable : List CycleRow → Bool
is_comparable cycles = not (any has_no_entry cycles) && one_source cycles

abbrev pub resolve_at : List CycleRow → Instant → TicketCloseResult
resolve_at cycles (naive t) = without_cycle identity_unavailable
resolve_at cycles (aware t) =
    if is_comparable cycles
    then resolve_among cycles (last (eligible t cycles))
    else without_cycle identity_unavailable

-- `resolve_close_target`
unfoldable pub resolve_close_target : List CycleRow → TicketCloseOccurrence → TicketCloseResult
resolve_close_target [] o = without_cycle no_cycle
resolve_close_target (row ∷ rows) o = resolve_at (row ∷ rows) o.effective_at

-- `entered_novo_at` of the provider: falsy, an instant, a text or a number, or something else
pub data EnteredNovo : Type 0 where
  missing : EnteredNovo
  instant : Instant → EnteredNovo
  raw : StageValue → EnteredNovo
  other : EnteredNovo

-- The provider's ticket, with its stage and pipeline compared: neither is empty in `is_complete`.
pub record Snapshot : Type 0 where
  pub id : Text
  pub is_complete : Bool
  pub entered_novo_at : EnteredNovo
  pub is_closed_stage : Bool
  pub is_support_pipeline : Bool
  pub is_archived : Bool

-- The stage and the pipeline of a ticket that is active again
abbrev pub of_stage : Snapshot → Option CloseClassification
of_stage s =
    if not s.is_closed_stage && (s.is_support_pipeline && not s.is_archived)
    then some reopen_not_materialized
    else none

-- The comparison of instants raises `TypeError` where one of them has no time zone.
pub data Fault : Type 0 where
  type_error integrity_error no_authority lifecycle_error : Fault

abbrev pub of_reopening : Instant → Snapshot → ℕ → Result Fault (Option CloseClassification)
of_reopening (naive t) s reopened = err type_error
of_reopening (aware t) s reopened =
    ok (if ltb t reopened then some reopen_not_materialized else of_stage s)

abbrev pub of_parsed :
    Instant → Snapshot → Result IdentityError ℕ → Result Fault (Option CloseClassification)
of_parsed t s (ok reopened) = of_reopening t s reopened
of_parsed t s (err e) = ok (some identity_unavailable)

abbrev pub of_entry : Instant → Snapshot → EnteredNovo → Result Fault (Option CloseClassification)
of_entry t s missing = ok (of_stage s)
of_entry t s (instant (aware reopened)) = of_reopening t s reopened
of_entry t s (instant (naive reopened)) = ok (some identity_unavailable)
of_entry t s (raw value) = of_parsed t s (parse_stage_entry_timestamp value)
of_entry t s other = ok (some identity_unavailable)

-- `_provider_decision`
unfoldable pub provider_decision :
    TicketCloseOccurrence → Snapshot → Result Fault (Option CloseClassification)
provider_decision o s =
    if text_eq s.id o.ticket_id && s.is_complete
    then of_entry o.effective_at s s.entered_novo_at
    else ok (some conflict)

abbrev pub rejection :
    TicketCloseOccurrence → Option Snapshot → Result Fault (Option CloseClassification)
rejection o none = ok (some provider_unavailable)
rejection o (some s) = provider_decision o s

abbrev pub rejected : TicketCloseResult → CloseClassification → TicketCloseResult
rejected r c = record {
  classification = c;
  cycle_id = r.cycle_id;
  closes_current_lifecycle = false;
}

abbrev pub unless_rejected :
    TicketCloseResult → Result Fault (Option CloseClassification) → Result Fault TicketCloseResult
unless_rejected r (ok none) = ok r
unless_rejected r (ok (some c)) = ok (rejected r c)
unless_rejected r (err f) = err f

-- `classify_close_occurrence`
unfoldable pub classify_close_occurrence :
    List CycleRow → TicketCloseOccurrence → Option Snapshot → Result Fault TicketCloseResult
classify_close_occurrence cycles o s =
    let r = resolve_close_target cycles o in
    if r.closes_current_lifecycle then unless_rejected r (rejection o s) else ok r
