-- ===== src/Cycle/Identity.antt =====
-- The external identity of a cycle: `parse_stage_entry_timestamp`, `build_cycle_key` and
-- `build_cycle_identity`. SHA-256 and the ISO format of a UTC instant are parameters.
use judah.Prelude.{
  ℕ, ◌*◌, ◌&&◌, Option, none, some, ◌∷◌, ◌++◌, Text, codes, strip, int_of, ℤ, pos, negsuc, is_empty,
  Result, ok, err, ◌>>=◌, leb, ltb, if◌then◌else◌,
}
use judah.Cycle.{CycleIdentity}

-- `str | int | None`
pub data StageValue : Type 0 where
  absent : StageValue
  number : ℤ → StageValue
  text : Text → StageValue

-- `InvalidStageTimestampError` in its three messages and that of a naive datetime, and
-- `CycleIdentityUnavailableError` in its first two. The third guards against a value that is no
-- datetime, which no caller passes.
pub data IdentityError : Type 0 where
  timestamp_absent timestamp_not_numeric timestamp_implausible datetime_naive : IdentityError
  portal_missing ticket_missing : IdentityError

abbrev pub min_stage_entry_ms : ℕ
min_stage_entry_ms = 946_684_800_000

abbrev pub max_stage_entry_ms : ℕ
max_stage_entry_ms = 4_102_444_800_000

abbrev plausible : ℤ → Result IdentityError ℕ
plausible (pos ms) =
    if leb min_stage_entry_ms ms && ltb ms max_stage_entry_ms
    then ok (ms * 1000)
    else err timestamp_implausible
plausible (negsuc n) = err timestamp_implausible

-- `int(str(value).strip())`: the decimal text of a number is read back as that number.
unfoldable pub milliseconds_of : StageValue → Result IdentityError ℤ
unfolding strip int_of
milliseconds_of absent = err timestamp_absent
milliseconds_of (number z) = ok z
milliseconds_of (text s) = elim (int_of (strip s)) [
  | none ↦ err timestamp_not_numeric
  | some z ↦ ok z
]

-- The result is in microseconds; the division by 1000 to a float is exact to the microsecond in
-- the plausible window.
unfoldable pub parse_stage_entry_timestamp : StageValue → Result IdentityError ℕ
parse_stage_entry_timestamp value = do ms ← milliseconds_of value; plausible ms

abbrev pub source_system_hubspot : Text
source_system_hubspot = codes "hubspot"

abbrev pub cycle_key_version : Text
cycle_key_version = codes "v1"

module _ (sha256 : Text → Text) (isoformat : ℕ → Text) where
  -- `"|".join(...)` of the four parts
  abbrev pub canonical : Text → Text → Text → ℕ → Text
  canonical system account ticket entered =
      system ++ b'|' ∷ (account ++ b'|' ∷ (ticket ++ b'|' ∷ isoformat entered))

  unfoldable pub build_cycle_key : Text → Text → Text → ℕ → Text
  build_cycle_key system account ticket entered =
      system
      ++ b':' ∷ (cycle_key_version ++ b':' ∷ sha256 (canonical system account ticket entered))

  -- `source_account_id or settings.HUBSPOT_PORTAL_ID`: an empty account falls back too.
  abbrev pub chosen_account : Text → Option Text → Text
  chosen_account portal none = portal
  chosen_account portal (some account) = if is_empty account then portal else account

  unfoldable pub build_cycle_identity :
      Text → Text → ℕ → Option Text → Result IdentityError CycleIdentity
  unfolding build_cycle_key strip
  build_cycle_identity portal hubspot_ticket_id entered_stage_at source_account_id =
      let account = strip (chosen_account portal source_account_id) in
      let ticket = strip hubspot_ticket_id in
      if is_empty account
      then err portal_missing
      else if is_empty ticket
      then err ticket_missing
      else ok (record {
        source_system = source_system_hubspot;
        source_account_id = account;
        hubspot_ticket_id = ticket;
        entered_stage_at = entered_stage_at;
        cycle_key = build_cycle_key source_system_hubspot account ticket entered_stage_at;
      })
