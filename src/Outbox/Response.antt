-- ===== src/Outbox/Response.antt =====
-- `_validate_success` and `_classify_response`: what an HTTP response means for a delivery.
use judah.Prelude.{
  ℕ, ◌≤◌, ◌<◌, ◌≡◌, ◌≢◌, ◌↔◌, ◌⊎◌, Bool, true, false, ◌&&◌, ◌||◌, Option, none, some, Text, text_eq,
  text_eq_iff, text_eq_refl, codes, ltb, leb, ◌==◌, if◌then◌else◌, arith,
}
use judah.Outbox.{
  FailureKind, authentication_configuration, rate_limit, n8n_error, timeout, connection,
  payload_rejected, invalid_response, DeliveryFailure,
}

-- The body as JSON: none, a value that is no object, or an object with its two texts.
pub data Body : Type 0 where
  not_json : Body
  not_object : Body
  object : Text → Text → Body

-- How `httpx.post` ends.
pub data HttpOutcome : Type 0 where
  timed_out request_error : HttpOutcome
  response : ℕ → Body → HttpOutcome

abbrev pub failure : FailureKind → Bool → Option ℕ → DeliveryFailure
failure kind retryable status = record {
  kind = kind;
  retryable = retryable;
  http_status = status;
  configuration_missing = false;
}

abbrev is_acceptance : Body → Text → Bool
is_acceptance not_json event_id = false
is_acceptance not_object event_id = false
is_acceptance (object status id) event_id = text_eq status (codes "accepted") && text_eq id event_id

unfoldable pub validate_success : ℕ → Body → Text → Option DeliveryFailure
validate_success status body event_id =
    if is_acceptance body event_id then none else some (failure invalid_response true (some status))

unfoldable pub classify_response : ℕ → Body → Text → Option DeliveryFailure
unfolding validate_success
classify_response status body event_id =
    if leb 200 status && ltb status 300
    then validate_success status body event_id
    else if status == 429
    then some (failure rate_limit true (some status))
    else if leb 500 status || (status == 408 || status == 425)
    then some (failure n8n_error true (some status))
    else if status == 401 || status == 403
    then some (failure authentication_configuration true (some status))
    else some (failure payload_rejected false (some status))

-- The branches of `deliver_outbox_event` after the call.
unfoldable pub classify_outcome : HttpOutcome → Text → Option DeliveryFailure
unfolding classify_response
classify_outcome timed_out event_id = some (failure timeout true none)
classify_outcome request_error event_id = some (failure connection true none)
classify_outcome (response status body) event_id = classify_response status body event_id

-- A delivery counts as accepted exactly when n8n answered in the 200s with an object that says
-- `accepted` and names the event.
pub classify_outcome-none_iff :
    (outcome : HttpOutcome) (event_id : Text)
    → (classify_outcome outcome event_id ≡ none) ↔ (
        (status : ℕ) × (outcome ≡ response status (object (codes "accepted") event_id))
        × (200 ≤ status)
        × (status < 300))
unfolding classify_outcome
classify_outcome-none_iff outcome event_id = (accepted outcome, back outcome)
  where
    accepted :
        (o : HttpOutcome)
        → classify_outcome o event_id ≡ none
        → (status : ℕ) × (o ≡ response status (object (codes "accepted") event_id))
          × (200 ≤ status)
          × (status < 300)
    accepted timed_out e = absurd (ground arith)
    accepted request_error e = absurd (ground arith)
    accepted (response status not_json) e = absurd (ground arith)
    accepted (response status not_object) e = absurd (ground arith)
    accepted (response status (object s i)) e = (
      status,
      ground (arith, text_eq_iff s (codes "accepted"), text_eq_iff i event_id),
      ground arith,
      ground arith,
    )

    back :
        (o : HttpOutcome)
        → (status : ℕ) × (o ≡ response status (object (codes "accepted") event_id))
          × (200 ≤ status)
          × (status < 300)
        → classify_outcome o event_id ≡ none
    back o (status, e, lo, hi) = rw e (ground (arith, text_eq_refl event_id))

-- An answer is classified as a rejected payload, the failure that is not retried, exactly when its
-- status is below 500, outside the 200s and none of 401, 403, 408, 425 and 429.
pub classify_response-final_iff :
    (status : ℕ) (body : Body) (event_id : Text)
    → (classify_response status body event_id ≡ some (failure payload_rejected false (some status)))
      ↔ ((status < 200) ⊎ (300 ≤ status))
        × (status < 500)
        × (status ≢ 401)
        × (status ≢ 403)
        × (status ≢ 408)
        × (status ≢ 425)
        × (status ≢ 429)
unfolding classify_response
classify_response-final_iff status body event_id = (λ e. ground arith, λ h. ground arith)
