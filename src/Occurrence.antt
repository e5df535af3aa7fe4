-- ===== src/Occurrence.antt =====
-- apps/support/lifecycle_occurrence_service.py: the evidence of the provider for entries, closes and changes
-- of owner. Instants are microseconds in UTC; texts are not clipped.
pub mod Record
pub mod Recorded
pub mod Repeated
mod Tests
use judah.Prelude.{
  ℕ, ◌+◌, Bool, true, false, ◌&&◌, ◌||◌, not, Option, none, some, List, [], ◌∷◌, ◌++◌, Text,
  text_eq, strip, is_empty, any, find, modify, map, leb, ◌==◌, if◌then◌else◌, Result, ok, err,
  maybe,
}
use judah.Close
use judah.Close.{Instant, aware, naive, TicketCloseOccurrence, resolve_close_target}
use judah.Cycle.Admission.{CycleClassification, created, duplicate}

pub data OccurrenceType : Type 0 where
  entered_support_queue closed owner_changed : OccurrenceType

pub data EvidenceStatus : Type 0 where
  proven materialization_pending ambiguous rejected : EvidenceStatus

pub data ProcessingStatus : Type 0 where
  pending processed repair_required : ProcessingStatus

-- What an `evidence_key` is built from: `_temporal_key` and `_pending_key`
pub data EvidenceKey : Type 0 where
  temporal : Text → Text → OccurrenceType → ℕ → EvidenceKey
  pending_close : Text → Text → Option ℕ → EvidenceKey

-- `SupportLifecycleOccurrence`, less the counters that this service does not set
pub record Occurrence : Type 0 where
  pub pk : ℕ
  pub source_account_id : Text
  pub hubspot_ticket_id : Text
  pub occurrence_type : OccurrenceType
  pub occurred_at : Option ℕ
  pub evidence_status : EvidenceStatus
  pub evidence_source : Text
  pub evidence_key : EvidenceKey
  pub source_event_id : Text
  pub provider_updated_at : Option ℕ
  pub observation_id : Text
  pub processing_status : ProcessingStatus
  pub next_reconcile_at : Option ℕ

pub data OccurrenceError : Type 0 where
  invalid_evidence does_not_exist : OccurrenceError

-- What a proven occurrence is recorded with
pub record Evidence : Type 0 where
  pub account_id : Text
  pub ticket_id : Text
  pub occurrence_type : OccurrenceType
  pub occurred_at : Instant
  pub evidence_source : Text
  pub source_event_id : Text
  pub provider_updated_at : Option ℕ
  pub observation_id : Text

abbrev pub same_type : OccurrenceType → OccurrenceType → Bool
same_type entered_support_queue entered_support_queue = true
same_type closed closed = true
same_type owner_changed owner_changed = true
same_type a b = false

abbrev pub is_at : ℕ → Option ℕ → Bool
is_at t none = false
is_at t (some s) = s == t

abbrev pub same_target : Option ℕ → Option ℕ → Bool
same_target none none = true
same_target (some a) (some b) = a == b
same_target a b = false

-- The unique texts of the keys, compared by what they are built from
abbrev pub same_key : EvidenceKey → EvidenceKey → Bool
same_key (temporal a t k i) (temporal b u l j) =
    text_eq a b && (text_eq t u && (same_type k l && i == j))
same_key (pending_close a t c) (pending_close b u d) =
    text_eq a b && (text_eq t u && same_target c d)
same_key a b = false

-- `uq_occ_temporal_identity`
abbrev pub has_identity : Evidence → ℕ → Occurrence → Bool
has_identity e t o =
    text_eq o.source_account_id e.account_id
    && (text_eq o.hubspot_ticket_id e.ticket_id
        && (same_type o.occurrence_type e.occurrence_type && is_at t o.occurred_at))

abbrev pub is_materialization_pending : EvidenceStatus → Bool
is_materialization_pending materialization_pending = true
is_materialization_pending s = false

abbrev pub waits_as : EvidenceKey → Occurrence → Bool
waits_as key o = same_key o.evidence_key key && is_materialization_pending o.evidence_status

-- Thirty seconds
abbrev pub reconcile_delay : ℕ
reconcile_delay = 30_000_000

-- Closes and entries are reconciled once more.
abbrev pub next_reconcile : ℕ → OccurrenceType → Option ℕ
next_reconcile now owner_changed = none
next_reconcile now k = some (now + reconcile_delay)

abbrev pub key_of : Evidence → ℕ → EvidenceKey
key_of e t = temporal e.account_id e.ticket_id e.occurrence_type t

abbrev pub new_occurrence : ℕ → ℕ → Evidence → ℕ → Occurrence
new_occurrence now fresh e t = record {
  pk = fresh;
  source_account_id = e.account_id;
  hubspot_ticket_id = e.ticket_id;
  occurrence_type = e.occurrence_type;
  occurred_at = some t;
  evidence_status = proven;
  evidence_source = e.evidence_source;
  evidence_key = key_of e t;
  source_event_id = e.source_event_id;
  provider_updated_at = e.provider_updated_at;
  observation_id = e.observation_id;
  processing_status = pending;
  next_reconcile_at = next_reconcile now e.occurrence_type;
}

-- A close that was pending, once its time is proven
abbrev pub materialized : ℕ → Evidence → ℕ → Occurrence → Occurrence
materialized now e t o = record o {
  occurred_at = some t;
  evidence_status = proven;
  evidence_source = e.evidence_source;
  source_event_id = e.source_event_id;
  provider_updated_at = e.provider_updated_at;
  observation_id = e.observation_id;
  next_reconcile_at = some (now + reconcile_delay);
}
