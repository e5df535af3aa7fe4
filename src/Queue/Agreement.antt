-- ===== src/Queue/Agreement.antt =====
-- The query for eligible agents and the decisions on one agent agree.
use judah.Prelude.{
  ℕ, ◌≡◌, ◌≢◌, get_or, refl, inl, inr, Bool, true, false, not, ◌&&◌, Option, none, some, List, [],
  ◌∷◌, ltb, leb, arith, All, Exists, any, ◌↔◌, any-true, any-false,
}
use judah.Queue.{Agent, QueueSettings, passes_filters, is_online, is_observed}
use judah.Queue.Eligibility.{
  Presence, available, Window, Observation, covers, is_within, evaluate_hours, zone_hours,
  evaluate_observation_signals, has_identity, is_seen, limit_of, evaluate_persisted_agent,
  is_available,
}

seen_of_observed :
    (s : QueueSettings) (now : ℕ) (t : Option ℕ) → is_observed s now t ≡ true → is_seen t ≡ true
seen_of_observed s now none e = e
seen_of_observed s now (some t) e = refl

limit_ge : (m : Option ℕ) (n : ℕ) → m ≢ some 0 → leb (limit_of m) n ≡ not (ltb n (get_or m 5))
limit_ge none n h = ground arith
limit_ge (some k) n h = ground arith

-- Where eligibility is enforced and there is no canary, the query finds exactly the agents that are
-- online and that the decision before a reservation allows, among the agents with an identity in
-- HubSpot and a limit that is not 0.
pub passes_filters-evaluate_persisted_agent :
    (s : QueueSettings) (now : ℕ) (a : Agent)
    → s.absence_safe_enforced ≡ true
    → s.canary_configured ≡ false
    → has_identity a.hubspot_user_id ≡ true
    → a.max_simultaneous_chats ≢ some 0
    → passes_filters s now false a
      ≡ is_online a.status_enum && (evaluate_persisted_agent s now a).allowed
unfolding passes_filters evaluate_persisted_agent
passes_filters-evaluate_persisted_agent s now a en can id lim = ground (
  arith,
  seen_of_observed s now a.availability_observed_at,
  limit_ge a.max_simultaneous_chats a.current_simultaneous_chats lim,
)

any_intro {ℓ} :
    {A : Type ℓ} → (p : A → Bool) (xs : List A) → Exists (λ x. p x ≡ true) xs → any p xs ≡ true
any_intro p [] h = elim h [ ]
any_intro p (x ∷ xs) (inl e) = ground arith
any_intro p (x ∷ xs) (inr h) = ground (arith, any_intro p xs h)

All-intro {ℓ} :
    {A : Type ℓ} → (p : A → Bool) (xs : List A) → All (λ x. p x ≡ false) xs → any p xs ≡ false
All-intro p [] h = refl
All-intro p (x ∷ xs) h = ground (arith, All-intro p xs h.1)

-- The local schedule says so or, without one, the working hours observed do, in the zone observed.
abbrev pub IsInHours : Observation → ℕ → Option Bool → Type 0
IsInHours o now (some within) = within ≡ true
IsInHours o now none =
    (zone : ℕ → ℕ × ℕ) × (o.timezone ≡ some zone)
    × Exists (λ w. is_within (zone now).0 (zone now).1 w ≡ true) o.working_hours

zone_hours_out :
    (windows : List Window) (now : ℕ) (z : Option (ℕ → ℕ × ℕ))
    → (zone_hours windows now z).allowed ≡ true
    → (zone : ℕ → ℕ × ℕ) × (z ≡ some zone)
      × Exists (λ w. is_within (zone now).0 (zone now).1 w ≡ true) windows
zone_hours_out windows now none e = absurd (ground arith)
zone_hours_out windows now (some zone) e =
    (zone, refl, any-true (is_within (zone now).0 (zone now).1) windows (ground arith))

zone_hours_in :
    (windows : List Window) (now : ℕ) (zone : ℕ → ℕ × ℕ)
    → Exists (λ w. is_within (zone now).0 (zone now).1 w ≡ true) windows
    → (zone_hours windows now (some zone)).allowed ≡ true
zone_hours_in [] now zone h = elim h [ ]
zone_hours_in (w ∷ ws) now zone h =
    ground (arith, any_intro (is_within (zone now).0 (zone now).1) (w ∷ ws) h)

evaluate_hours_iff :
    (o : Observation) (now : ℕ) (schedule : Option Bool)
    → (evaluate_hours o now schedule).allowed ≡ true ↔ IsInHours o now schedule
unfolding evaluate_hours
evaluate_hours_iff o now none = (
  λ e. zone_hours_out o.working_hours now o.timezone e,
  λ (zone, z, h). rw z (zone_hours_in o.working_hours now zone h),
)
evaluate_hours_iff o now (some within) = (λ e. ground arith, λ e. ground arith)

-- What an observation has to show for an agent to be allowed
pub record IsAdmissible (o : Observation) (now : ℕ) (schedule : Option Bool) : Type 0 where
  pub identified : o.hubspot_user_id ≡ true
  pub present : o.availability_status ≡ available
  pub in_office : All (λ i. covers now i ≡ false) o.out_of_office_hours
  pub in_hours : IsInHours o now schedule

available_of : (p : Presence) → is_available p ≡ true → p ≡ available
available_of p e = ground arith

-- The signals of an agent allow an assignment exactly when the agent is known, says to be available,
-- is in no interval out of office at that instant and is in its hours: those of the local schedule if
-- there is one, else those observed, and never without a zone.
pub evaluate_observation_signals_iff :
    (o : Observation) (now : ℕ) (schedule : Option Bool)
    → (evaluate_observation_signals o now schedule).allowed ≡ true ↔ IsAdmissible o now schedule
unfolding evaluate_observation_signals
evaluate_observation_signals_iff o now schedule = (
  λ e. record {
    identified = ground arith;
    present = available_of o.availability_status (ground arith);
    in_office = any-false (covers now) o.out_of_office_hours (ground arith);
    in_hours = (evaluate_hours_iff o now schedule).0 (ground arith);
  },
  λ g. ground (
    arith,
    g.identified,
    g.present,
    All-intro (covers now) o.out_of_office_hours g.in_office,
    (evaluate_hours_iff o now schedule).1 g.in_hours,
  ),
)
