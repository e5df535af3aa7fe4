-- ===== src/Cycle/Tests.antt =====
-- Runs of the conversation-cycle service, and its theorems at concrete occurrences.
use judah.Prelude.{ℕ, ◌*◌, ◌≡◌, refl, true, some, [], ◌∷◌, ◌++◌, Text, codes, ok, err, pos, is_some}
use judah.Cycle.{queued, closed, CycleIdentity, from_terminal, transition_cycle_state}
use judah.Cycle.Identity.{
  text, number, parse_stage_entry_timestamp, milliseconds_of, timestamp_not_numeric,
  timestamp_implausible, source_system_hubspot,
}
use judah.Cycle.Keys.{build_cycle_key-injective}
use judah.Cycle.Admission.{
  created, duplicate, nothing_blocks, classify_cycle_admission, does_not_exist,
}
use judah.Cycle.Decision.{Answers, classify_cycle_admission-Answers}
use judah.Cycle.Open.{
  CycleRow, CycleOpenResult, row_of, open_proven, same_ticket, has_natural_key, snapshot_of,
}
use judah.Cycle.Persistence.{Effect, open_proven-Effect, open_proven-twice, open_proven_race}

-- A digest that does not collide, for runs.
abbrev no_digest : Text → Text
no_digest t = t

abbrev decimal : ℕ → Text
decimal n = n ∷ []

abbrev identity_at : ℕ → CycleIdentity
identity_at t = record {
  source_system = source_system_hubspot;
  source_account_id = codes "77";
  hubspot_ticket_id = codes "5";
  entered_stage_at = t;
  cycle_key = t ∷ [];
}

abbrev earlier : CycleRow
earlier = record {
  cycle_key = 40 ∷ [];
  source_system = source_system_hubspot;
  source_account_id = codes "77";
  hubspot_ticket_id = codes "5";
  entered_stage_at = some 40;
  source_event_id = [];
  state = closed;
  opened_at = 40;
}

abbrev rival : CycleRow
rival = record earlier {
  cycle_key = 60 ∷ [];
  entered_stage_at = some 60;
  state = queued;
  opened_at = 60;
}

abbrev opened : CycleOpenResult
opened = record {
  admission = record {
    classification = created;
    identity = some (identity_at 50);
    reason = nothing_blocks;
  };
  cycle = some (row_of (identity_at 50) []);
}

parse_text :
    parse_stage_entry_timestamp (text (codes " 1700000000000 ")) ≡ ok (1700000000000 * 1000)
unfolding parse_stage_entry_timestamp milliseconds_of
parse_text = refl

parse_seconds : parse_stage_entry_timestamp (number (pos 1700000000)) ≡ err timestamp_implausible
unfolding parse_stage_entry_timestamp milliseconds_of
parse_seconds = refl

parse_word : parse_stage_entry_timestamp (text (codes "17_0_")) ≡ err timestamp_not_numeric
unfolding parse_stage_entry_timestamp milliseconds_of
parse_word = refl

open_first :
    open_proven (identity_at 50) [] (earlier ∷ []) []
    ≡ (ok opened, row_of (identity_at 50) [] ∷ earlier ∷ [])
unfolding open_proven classify_cycle_admission
open_first = refl

terminal_stays : transition_cycle_state closed queued true ≡ err from_terminal
unfolding transition_cycle_state
terminal_stays = refl

build_cycle_key-injective_example :
    (codes "77" ≡ codes "77") × (codes "5" ≡ codes "5") × (◌≡◌ {A = ℕ} 9 9)
build_cycle_key-injective_example =
    build_cycle_key-injective no_digest decimal (codes "77") (codes "77") (codes "5") (codes "5") 9
      9 refl refl refl refl (λ e. e) (λ e. refl) refl

classify_cycle_admission-Answers_example :
    Answers
      (identity_at 50)
      (snapshot_of earlier ∷ snapshot_of rival ∷ [])
      (classify_cycle_admission (identity_at 50) (snapshot_of earlier ∷ snapshot_of rival ∷ []))
classify_cycle_admission-Answers_example =
    classify_cycle_admission-Answers (identity_at 50) (snapshot_of earlier ∷ snapshot_of rival ∷ [])

open_proven-Effect_example :
    Effect
      (identity_at 50)
      []
      ([] ++ earlier ∷ [])
      (open_proven (identity_at 50) [] (earlier ∷ []) [])
open_proven-Effect_example = open_proven-Effect (identity_at 50) [] (earlier ∷ []) []

open_proven-twice_example :
    let stored = (open_proven (identity_at 50) [] (earlier ∷ []) []).1 in
    let (result, table') = open_proven (identity_at 50) [] stored (rival ∷ []) in
    (again : CycleOpenResult) × (result ≡ ok again)
    × (again.admission.classification ≡ duplicate)
    × (is_some again.cycle ≡ true)
    × (table' ≡ rival ∷ stored)
unfolding open_proven classify_cycle_admission
open_proven-twice_example =
    open_proven-twice (identity_at 50) [] [] (earlier ∷ []) [] (rival ∷ []) opened refl refl

open_proven_race_example :
    open_proven (identity_at 50) [] (earlier ∷ []) (rival ∷ [])
    ≡ (err does_not_exist, rival ∷ earlier ∷ [])
unfolding classify_cycle_admission snapshot_of same_ticket has_natural_key
open_proven_race_example =
    open_proven_race (identity_at 50) [] (earlier ∷ []) rival opened.admission refl refl refl refl
      refl
