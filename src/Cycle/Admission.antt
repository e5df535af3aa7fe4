-- ===== src/Cycle/Admission.antt =====
-- `classify_cycle_admission` and `admit_cycle_occurrence`: the decision on one proven occurrence.
use judah.Prelude.{
  ℕ, Bool, true, false, Option, none, some, List, [], ◌∷◌, Text, text_eq, Result, ok, err, ◌>>=◌,
  any, select, is_empty, ltb, not, if◌then◌else◌,
}
use judah.Cycle.{is_active, is_repair, CycleIdentity, CycleSnapshot}
use judah.Cycle.Identity.{
  StageValue, IdentityError, parse_stage_entry_timestamp, build_cycle_identity,
}

-- `CycleClassification`
pub data CycleClassification : Type 0 where
  created duplicate stale active_conflict : CycleClassification
  identity_unavailable : CycleClassification
  needs_repair : CycleClassification

-- The texts that `CycleAdmission.reason` holds.
pub data AdmissionReason : Type 0 where
  already_persisted newer_cycle_known awaits_reconciliation : AdmissionReason
  has_active_cycle nothing_blocks lost_insert_race : AdmissionReason
  unavailable : IdentityError → AdmissionReason

-- `CycleAdmission`
pub record CycleAdmission : Type 0 where
  pub classification : CycleClassification
  pub identity : Option CycleIdentity
  pub reason : AdmissionReason

-- What may escape from the service: the `TypeError` of an order against a null timestamp, and the
-- `DoesNotExist` of the read after a lost insert.
pub data Fault : Type 0 where
  type_error does_not_exist : Fault

-- `any(snapshot.entered_stage_at > entered for snapshot in snapshots)`
unfoldable pub any_later : ℕ → List CycleSnapshot → Result Fault Bool
any_later entered [] = ok false
any_later entered (s ∷ ss) =
    let rest = any_later entered ss in
    elim s.entered_stage_at [
      | none ↦ err type_error
      | some e ↦ if ltb entered e then ok true else rest
    ]

unfoldable pub has_key : Text → CycleSnapshot → Bool
has_key key s = text_eq s.cycle_key key

unfoldable pub decide : CycleIdentity → List CycleSnapshot → CycleAdmission
unfolding is_active
decide identity snapshots =
    let actives = select (λ s. is_active s.state) snapshots in
    if any (λ s. is_repair s.state) actives
    then record {
      classification = needs_repair;
      identity = some identity;
      reason = awaits_reconciliation;
    }
    else if not (is_empty actives)
    then record {
      classification = active_conflict;
      identity = some identity;
      reason = has_active_cycle;
    }
    else record { classification = created; identity = some identity; reason = nothing_blocks }

unfoldable pub classify_cycle_admission :
    CycleIdentity → List CycleSnapshot → Result Fault CycleAdmission
unfolding decide any_later has_key
classify_cycle_admission identity snapshots =
    if any (has_key identity.cycle_key) snapshots
    then ok (record {
      classification = duplicate;
      identity = some identity;
      reason = already_persisted;
    })
    else (do
      later ← any_later identity.entered_stage_at snapshots
      if later
          then ok (record {
            classification = stale;
            identity = some identity;
            reason = newer_cycle_known;
          })
          else ok (decide identity snapshots))

abbrev pub unproven : IdentityError → CycleAdmission
unproven e = record {
  classification = identity_unavailable;
  identity = none;
  reason = unavailable e;
}

module _ (sha256 : Text → Text) (isoformat : ℕ → Text) (portal : Text) where
  -- Both steps of the identity, under the `except` of the two domain errors.
  unfoldable pub admit_cycle_occurrence :
      Text → StageValue → List CycleSnapshot → Option Text → Result Fault CycleAdmission
  admit_cycle_occurrence ticket value existing account =
      elim (parse_stage_entry_timestamp value >>= λ entered.
      build_cycle_identity sha256 isoformat portal ticket entered account) [
        | err e ↦ ok (unproven e)
        | ok identity ↦ classify_cycle_admission identity existing
      ]
