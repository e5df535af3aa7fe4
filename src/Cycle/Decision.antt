-- ===== src/Cycle/Decision.antt =====
-- The admission decision against an independent reading of its five rules.
use judah.Prelude.{
  ℕ, ◌≤◌, ◌<◌, ◌≡◌, ◌≢◌, refl, inl, inr, Bool, true, false, none, some, List, [], ◌∷◌, text_eq_iff,
  Result, ok, err, any, arith, All, Exists, All-map, All-zip, Exists-map, any-true, any-false,
  any-select, is_empty-select, ltb, Bool-cases, Option-cases, ◌&&◌,
}
use judah.Cycle.{repair_required, is_repair, is_active, CycleIdentity, CycleSnapshot}
use judah.Cycle.Admission.{
  CycleClassification, Fault, type_error, does_not_exist, created, duplicate, stale,
  active_conflict, needs_repair, CycleAdmission, classify_cycle_admission, has_key, any_later,
  decide,
}

-- What a verdict on an occurrence says of the cycles known for its ticket.
module _ (identity : CycleIdentity) where
  abbrev pub SameKey : CycleSnapshot → Type 0
  SameKey s = s.cycle_key ≡ identity.cycle_key

  abbrev pub IsLater : CycleSnapshot → Type 0
  IsLater s = (e : ℕ) × (s.entered_stage_at ≡ some e) × (identity.entered_stage_at < e)

  abbrev pub NotLater : CycleSnapshot → Type 0
  NotLater s = (e : ℕ) × (s.entered_stage_at ≡ some e) × (e ≤ identity.entered_stage_at)

  pub data Verdict (ss : List CycleSnapshot) : CycleClassification → Type 0 where
    known : Exists SameKey ss → Verdict ss duplicate
    overtaken : All (λ s. ¬ SameKey s) ss → Exists IsLater ss → Verdict ss stale
    broken :
        All (λ s. (¬ SameKey s) × NotLater s) ss
        → Exists (λ s. s.state ≡ repair_required) ss
        → Verdict ss needs_repair
    busy :
        All (λ s. (¬ SameKey s) × NotLater s) ss
        → All (λ s. s.state ≢ repair_required) ss
        → Exists (λ s. is_active s.state ≡ true) ss
        → Verdict ss active_conflict
    clear :
        All (λ s. (¬ SameKey s) × NotLater s) ss
        → All (λ s. is_active s.state ≡ false) ss
        → Verdict ss created

  has_key-SameKey : (s : CycleSnapshot) → has_key identity.cycle_key s ≡ true → SameKey s
  unfolding has_key
  has_key-SameKey s e = (text_eq_iff s.cycle_key identity.cycle_key).0 e

  not-has_key : (s : CycleSnapshot) → has_key identity.cycle_key s ≡ false → ¬ SameKey s
  unfolding has_key
  not-has_key s e = λ p. ground (arith, (text_eq_iff s.cycle_key identity.cycle_key).1 p)

  IsLater-found :
      (ss : List CycleSnapshot)
      → any_later identity.entered_stage_at ss ≡ ok true
      → Exists IsLater ss
  unfolding any_later
  IsLater-found [] e = absurd (ground arith)
  IsLater-found (s ∷ ss) e = elim (Option-cases s.entered_stage_at) [
    | inl p ↦ absurd (ground arith)
    | inr (d, p) ↦ elim (Bool-cases (ltb identity.entered_stage_at d)) [
      | inl t ↦ inl (d, p, ground arith)
      | inr f ↦ inr (IsLater-found ss (ground arith))
    ]
  ]

  none_later :
      (ss : List CycleSnapshot)
      → any_later identity.entered_stage_at ss ≡ ok false
      → All NotLater ss
  unfolding any_later
  none_later [] e = tt
  none_later (s ∷ ss) e = elim (Option-cases s.entered_stage_at) [
    | inl p ↦ absurd (ground arith)
    | inr (d, p) ↦ ((d, p, ground arith), none_later ss (ground arith))
  ]

  -- The comparison fails only at a null entry.
  null_found :
      (ss : List CycleSnapshot) {f : Fault}
      → any_later identity.entered_stage_at ss ≡ err f
      → Exists (λ s. s.entered_stage_at ≡ none) ss
  unfolding any_later
  null_found [] e = absurd (ground arith)
  null_found (s ∷ ss) {f} e = elim (Option-cases s.entered_stage_at) [
    | inl p ↦ inl p
    | inr (d, p) ↦ inr (null_found ss {f = f} (ground arith))
  ]

  any_later-fault :
      (ss : List CycleSnapshot) → any_later identity.entered_stage_at ss ≢ err does_not_exist
  unfolding any_later
  any_later-fault [] = ground arith
  any_later-fault (s ∷ ss) = ground (arith, any_later-fault ss)

  not_repair :
      (s : CycleSnapshot)
      → (is_active s.state && is_repair s.state) ≡ false
      → s.state ≢ repair_required
  unfolding is_active
  not_repair s e = λ p. ground arith

  is_repair_state :
      (s : CycleSnapshot)
      → (is_active s.state && is_repair s.state) ≡ true
      → s.state ≡ repair_required
  unfolding is_active
  is_repair_state s e = ground arith

  decide-Verdict :
      (ss : List CycleSnapshot)
      → All (λ s. (¬ SameKey s) × NotLater s) ss
      → Verdict ss (decide identity ss).classification
  unfolding decide
  decide-Verdict ss h = go (any _ ss) refl (any _ ss) refl
    where
      go :
          (r : Bool)
          → any (λ s. is_active s.state && is_repair s.state) ss ≡ r
          → (a : Bool) → any (λ s. is_active s.state) ss ≡ a
          → Verdict ss (decide identity ss).classification
      go true e a f =
          rw (any-select (λ s. is_repair s.state) (λ s. is_active s.state) ss, e)
            (broken h (Exists-map _ _ is_repair_state ss (any-true _ ss e)))
      go false e true f =
          rw
            (
              any-select (λ s. is_repair s.state) (λ s. is_active s.state) ss,
              e,
              is_empty-select (λ s. is_active s.state) ss,
              f,
            )
            (busy h (All-map _ _ not_repair ss (any-false _ ss e)) (any-true _ ss f))
      go false e false f =
          rw
            (
              any-select (λ s. is_repair s.state) (λ s. is_active s.state) ss,
              e,
              is_empty-select (λ s. is_active s.state) ss,
              f,
            )
            (clear h (any-false _ ss f))

  abbrev pub Answers : List CycleSnapshot → Result Fault CycleAdmission → Type 0
  Answers ss (ok a) = Verdict ss a.classification
  Answers ss (err f) = (f ≡ type_error) × Exists (λ s. s.entered_stage_at ≡ none) ss

  -- Every decision of the admission is right. A duplicate has the key of a known cycle; a stale
  -- occurrence has no such key and enters before a known cycle; the other three verdicts, with no
  -- known key and no later entry, say whether the known cycles hold one in repair, or none in repair
  -- but an active one, or no active one. The order of instants fails only at a null entry.
  pub classify_cycle_admission-Answers :
      (ss : List CycleSnapshot) → Answers ss (classify_cycle_admission identity ss)
  unfolding classify_cycle_admission
  classify_cycle_admission-Answers ss =
      go (any (has_key identity.cycle_key) ss) refl (any_later identity.entered_stage_at ss) refl
    where
      go :
          (k : Bool)
          → any (has_key identity.cycle_key) ss ≡ k
          → (r : Result Fault Bool) → any_later identity.entered_stage_at ss ≡ r
          → Answers ss (classify_cycle_admission identity ss)
      go true p r q = rw p (known (Exists-map _ _ has_key-SameKey ss (any-true _ ss p)))
      go false p (ok true) q =
          rw (p, q) (overtaken (All-map _ _ not-has_key ss (any-false _ ss p)) (IsLater-found ss q))
      go false p (ok false) q =
          rw (p, q)
            (decide-Verdict ss
              (All-zip _ _ ss (All-map _ _ not-has_key ss (any-false _ ss p)) (none_later ss q)))
      go false p (err type_error) q = rw (p, q) (refl, null_found ss q)
      go false p (err does_not_exist) q = absurd (any_later-fault ss q)
