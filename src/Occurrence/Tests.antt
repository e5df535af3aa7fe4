-- ===== src/Occurrence/Tests.antt =====
-- A close that was pending for its cycle, then proven, and the theorem there.
use judah.Prelude.{ℕ, ◌≤◌, ◌==◌, refl, none, [], ◌∷◌, Text, codes, arith, count}
use judah.Close.{aware}
use judah.Occurrence.{closed, Occurrence, Evidence}
use judah.Occurrence.Record.{new_pending, record_proven_occurrence}
use judah.Occurrence.Repeated.{IsAnswered, inserts, marks, reported, record_proven_occurrence-once}

abbrev account : Text
account = codes "7"

abbrev ticket : Text
ticket = codes "42"

abbrev waiting : Occurrence
waiting = new_pending 100 1 account ticket none (codes "crm_readback") none []

abbrev evidence : Evidence
evidence = record {
  account_id = account;
  ticket_id = ticket;
  occurrence_type = closed;
  occurred_at = aware 90;
  evidence_source = codes "webhook_property";
  source_event_id = codes "e1";
  provider_updated_at = none;
  observation_id = [];
}

unique_keys : (id : ℕ) → count (λ o. o.pk == id) (waiting ∷ []) ≤ 1
unfolding count
unique_keys id = ground arith

record_proven_occurrence-once_example :
    IsAnswered
      (marks 1 ∷ inserts ((record waiting { pk = 5 }) ∷ []) ∷ [])
      (record_proven_occurrence 300 3 (reported evidence (codes "crm_readback") [] none []) [] [])
      (record_proven_occurrence 200 2 evidence [] [] (waiting ∷ []))
record_proven_occurrence-once_example =
    record_proven_occurrence-once 200 2 evidence 90 [] [] (waiting ∷ [])
      (marks 1 ∷ inserts ((record waiting { pk = 5 }) ∷ []) ∷ []) 300 3 (codes "crm_readback") []
      none [] [] [] refl unique_keys ((refl, refl, refl), tt)
