-- ===== src/Runtime.antt =====
-- apps/support/availability_runtime.py: which runtime may write the state of the routing, and when it may
-- assign. Environment variables and settings are texts, as they are configured.
pub mod Gate
mod Tests
use judah.Prelude.{
  ℕ, Bool, true, false, ◌&&◌, ◌||◌, not, Option, none, some, List, [], ◌∷◌, Text, text_eq, codes,
  strip, is_empty, is_some, any, select, map, length, ◌==◌, if◌then◌else◌, Result, ok, err,
}

-- `HUBSPOT_PROVIDER_CONTRACT_MODE == "enforce"`, with the reason that the provider is not ready for, if any
pub data ProviderContract : Type 0 where
  not_enforced : ProviderContract
  enforced : Option Text → ProviderContract

-- The environment of the process and the settings that the controls read
pub record Runtime : Type 0 where
  pub django_environment : Text
  pub railway_environment : Text
  pub authority : Text
  pub auto_assignment_enabled : Bool
  pub provider : ProviderContract
  pub canary_values : List Text
  pub eligibility_shadow : Bool
  pub eligibility_enforced : Bool

pub data RejectionReason : Type 0 where
  auto_assignment_disabled invalid_canary_configuration absence_safe_not_enforced : RejectionReason
  provider_not_ready : Text → RejectionReason

pub data WriterError : Type 0 where
  forbidden : WriterError

-- A variable or a setting after `strip` and `lower`, which are the library's
module _ (normal : Text → Text) where
  -- `is_authoritative_availability_runtime`
  unfoldable pub is_authoritative : Runtime → Bool
  is_authoritative w =
      let django = normal w.django_environment in
      let railway = normal w.railway_environment in
      let authority = normal w.authority in
      if text_eq django (codes "test")
      then is_empty railway
      else (text_eq django authority && (is_empty railway || text_eq railway authority))

  -- `may_ingest_queue`
  abbrev pub may_ingest_queue : Runtime → Bool
  may_ingest_queue w = is_authoritative w

  -- `may_reconcile_queue`
  abbrev pub may_reconcile_queue : Runtime → Bool
  may_reconcile_queue w = is_authoritative w

  -- `may_write_routing_state`
  abbrev pub may_write_routing_state : Runtime → Bool
  may_write_routing_state w = is_authoritative w

  -- `require_routing_writer_authority`
  unfoldable pub require_routing_writer_authority : Runtime → Result {0, 0} WriterError Unit
  require_routing_writer_authority w = if may_write_routing_state w then ok tt else err forbidden

-- `frozenset(texts)`, in some order
unfoldable pub distinct : List Text → List Text
distinct [] = []
distinct (x ∷ xs) = let rest = distinct xs in if any (text_eq x) xs then rest else x ∷ rest

-- `_configured_canary_values`
unfoldable pub configured_canary_values : Runtime → List Text
configured_canary_values w = distinct (select (λ v. not (is_empty v)) (map strip w.canary_values))

-- `is_automatic_assignment_canary_configured`
abbrev pub is_canary_configured : Runtime → Bool
is_canary_configured w = not (is_empty (configured_canary_values w))

abbrev pub keep_valid : Option Text → List Text → List Text
keep_valid none ids = ids
keep_valid (some id) ids = id ∷ ids

module _ (uuid : Text → Option Text) where
  -- The values that read as a UUID, in its canonical form
  unfoldable pub valid_ids : List Text → List Text
  valid_ids [] = []
  valid_ids (v ∷ vs) = keep_valid (uuid v) (valid_ids vs)

  -- `automatic_assignment_canary_agent_ids`
  unfoldable pub canary_agent_ids : Runtime → List Text
  canary_agent_ids w = distinct (valid_ids (configured_canary_values w))

  abbrev pub canary_rejection : Runtime → Option RejectionReason
  canary_rejection w =
      if is_canary_configured w
        && not (length (canary_agent_ids w) == length (configured_canary_values w))
      then some invalid_canary_configuration
      else (if (w.eligibility_shadow || is_canary_configured w) && not w.eligibility_enforced
          then some absence_safe_not_enforced
          else none)

  -- A reason that is empty is none.
  abbrev pub provider_rejection : ProviderContract → Option RejectionReason → Option RejectionReason
  provider_rejection not_enforced rest = rest
  provider_rejection (enforced none) rest = rest
  provider_rejection (enforced (some reason)) rest =
      if is_empty reason then rest else some (provider_not_ready reason)

  -- `assignment_gate_rejection_reason`
  unfoldable pub assignment_gate_rejection_reason : Runtime → Option RejectionReason
  assignment_gate_rejection_reason w =
      if not w.auto_assignment_enabled
      then some auto_assignment_disabled
      else provider_rejection w.provider (canary_rejection w)

  -- `may_assign`
  unfoldable pub may_assign : (Text → Text) → Runtime → Bool
  may_assign normal w =
      is_authoritative normal w && not (is_some (assignment_gate_rejection_reason w))
