-- ===== src/Runtime/Gate.antt =====
-- What must hold where a runtime may assign.
use judah.Prelude.{
  suc, ◌≤◌, ◌≡◌, refl, true, false, ◌||◌, Option, none, some, List, [], ◌∷◌, Text, is_empty,
  is_some, length, arith, All,
}
use judah.Runtime.{
  Runtime, ProviderContract, not_enforced, enforced, RejectionReason, is_authoritative, distinct,
  configured_canary_values, is_canary_configured, keep_valid, valid_ids, canary_agent_ids,
  canary_rejection, provider_rejection, assignment_gate_rejection_reason, may_assign,
}

length-distinct : (xs : List Text) → length (distinct xs) ≤ length xs
unfolding distinct
length-distinct [] = omega arith
length-distinct (x ∷ xs) = ground (arith, length-distinct xs)

module _ (uuid : Text → Option Text) where
  length-valid_ids : (vs : List Text) → length (valid_ids uuid vs) ≤ length vs
  unfolding valid_ids
  length-valid_ids [] = omega arith
  length-valid_ids (v ∷ vs) = kept (uuid v) (length-valid_ids vs)
    where
      kept :
          (o : Option Text)
          → length (valid_ids uuid vs) ≤ length vs
          → length (keep_valid o (valid_ids uuid vs)) ≤ suc (length vs)
      kept none h = omega (arith, h)
      kept (some id) h = omega (arith, h)

  -- Where no value is lost every value is valid.
  valid_ids-All :
      (vs : List Text)
      → length (valid_ids uuid vs) ≡ length vs
      → All (λ v. is_some (uuid v) ≡ true) vs
  unfolding valid_ids
  valid_ids-All [] e = tt
  valid_ids-All (v ∷ vs) e = kept (uuid v) refl e (length-valid_ids vs) (λ k. valid_ids-All vs k)
    where
      kept :
          (o : Option Text)
          → uuid v ≡ o
          → length (keep_valid o (valid_ids uuid vs)) ≡ suc (length vs)
          → length (valid_ids uuid vs) ≤ length vs
          → (length (valid_ids uuid vs) ≡ length vs → All (λ v. is_some (uuid v) ≡ true) vs)
          → All (λ v. is_some (uuid v) ≡ true) (v ∷ vs)
      kept none q k h rest = absurd (omega (arith, k, h))
      kept (some id) q k h rest = (ground (arith, q), rest (ground (arith, k)))

  -- The controls that a runtime has passed
  pub record IsCleared (normal : Text → Text) (w : Runtime) : Type 0 where
    pub authoritative : is_authoritative normal w ≡ true
    pub enabled : w.auto_assignment_enabled ≡ true
    pub provider_ready :
        (reason : Text) → w.provider ≡ enforced (some reason) → is_empty reason ≡ true
    pub canary_valid : All (λ v. is_some (uuid v) ≡ true) (configured_canary_values w)
    pub canary_safe :
        (is_canary_configured w || w.eligibility_shadow) ≡ true → w.eligibility_enforced ≡ true

  canary-clear :
      (w : Runtime)
      → canary_rejection uuid w ≡ none
      → All (λ v. is_some (uuid v) ≡ true) (configured_canary_values w)
  unfolding canary_agent_ids
  canary-clear w h =
      all_valid (configured_canary_values w)
        (length-distinct (valid_ids uuid (configured_canary_values w))) (λ n. ground (arith, h, n))
    where
      all_valid :
          (vs : List Text)
          → length (distinct (valid_ids uuid vs)) ≤ length (valid_ids uuid vs)
          → (is_empty vs ≡ false → length (distinct (valid_ids uuid vs)) ≡ length vs)
          → All (λ v. is_some (uuid v) ≡ true) vs
      all_valid [] l q = tt
      all_valid (v ∷ vs) l q =
          valid_ids-All (v ∷ vs) (omega (arith, l, q refl, length-valid_ids (v ∷ vs)))

  provider-clear :
      (p : ProviderContract) (rest : Option RejectionReason)
      → is_some (provider_rejection uuid p rest) ≡ false
      → (rest ≡ none) × ((reason : Text) → p ≡ enforced (some reason) → is_empty reason ≡ true)
  provider-clear not_enforced none h = (refl, λ reason e. absurd (ground (arith, e)))
  provider-clear not_enforced (some x) h = absurd (ground (arith, h))
  provider-clear (enforced none) none h = (refl, λ reason e. absurd (ground (arith, e)))
  provider-clear (enforced none) (some x) h = absurd (ground (arith, h))
  provider-clear (enforced (some [])) none h =
      (refl, λ reason e. let same : [] ≡ reason = ground (arith, e) in ground (arith, same))
  provider-clear (enforced (some [])) (some x) h = absurd (ground (arith, h))
  provider-clear (enforced (some (c ∷ cs))) rest h = absurd (ground (arith, h))

  -- A runtime that may assign has the authority over the routing, assignment is enabled, an enforced provider
  -- contract gives no reason against it, every configured value of the canary reads as an agent, and a canary
  -- or a shadow comes with enforced eligibility.
  pub may_assign-IsCleared :
      (normal : Text → Text) (w : Runtime) → may_assign uuid normal w ≡ true → IsCleared normal w
  unfolding may_assign assignment_gate_rejection_reason
  may_assign-IsCleared normal w h =
      let (open_provider, ready) =
        provider-clear w.provider (canary_rejection uuid w) (ground (arith, h)) in
      record {
        authoritative = ground (arith, h);
        enabled = ground (arith, h);
        provider_ready = ready;
        canary_valid = canary-clear w open_provider;
        canary_safe = λ k. ground (arith, k, open_provider);
      }
