-- ===== src/Matchmaker/Effects.antt =====
-- When an item of the queue counts as a new effect.
use judah.Prelude.{
  ℕ, ◌≡◌, refl, ◌↔◌, Bool, true, false, Option, none, some, List, arith, Bool-cases, inl, inr,
}
use judah.Matchmaker.Durable
use judah.Matchmaker.Durable.{
  Attempt, Reservation, ReservationReason, Execution, Durable, is_quarantined, IsExclusive,
}
use judah.Matchmaker.Item.{
  is_completed, unreserved, typed_outcome, executed, is_new_effect, execute_and_follow,
  after_reservation, process_queue_item,
}

module _ {W : Type 0} (d : Durable W) where
  -- The runtime allows it, the reservation holds an attempt in state "reserved" that is not one
  -- completed before, and the execution of this attempt assigns.
  abbrev pub IsNewEffect : Option ℕ → List ℕ → W → Type 0
  IsNewEffect ticket seen w =
      let (r, w') = d.reserve_next_assignment ticket seen w in
      (a : Attempt) × (d.may_assign w ≡ true)
      × (r.attempt ≡ some a)
      × (is_completed r.reason ≡ false)
      × (a.is_reserved ≡ true)
      × ((d.execute_assignment_attempt a.pk w').0 ≡ Durable.assigned)

  new_effect_of :
      (pending : Bool) (e : Execution)
      → is_new_effect (typed_outcome pending e) ≡ true
      → (pending ≡ true) × (e ≡ Durable.assigned)
  unfolding typed_outcome
  new_effect_of pending e h = ground arith

  effect_out :
      (attempt : Option Attempt) (reason : ReservationReason) (row : Option ℕ) (w : W)
      → (after_reservation d attempt reason row w).0.effect_applied ≡ true
      → (a : Attempt) × (attempt ≡ some a)
        × (is_completed reason ≡ false)
        × (a.is_reserved ≡ true)
        × ((d.execute_assignment_attempt a.pk w).0 ≡ Durable.assigned)
  unfolding after_reservation execute_and_follow executed unreserved
  effect_out none reason row w h = absurd (ground arith)
  effect_out (some a) reason row w h = elim (Bool-cases (is_completed reason)) [
    | inl t ↦ absurd (ground arith)
    | inr f ↦
        let (p, q) =
          new_effect_of a.is_reserved (d.execute_assignment_attempt a.pk w).0 (ground arith) in
        (a, refl, f, p, q)
  ]

  effect_in :
      (a : Attempt) (reason : ReservationReason) (row : Option ℕ) (w : W)
      → is_completed reason ≡ false
      → a.is_reserved ≡ true
      → (d.execute_assignment_attempt a.pk w).0 ≡ Durable.assigned
      → (after_reservation d (some a) reason row w).0.effect_applied ≡ true
  unfolding after_reservation execute_and_follow executed typed_outcome
  effect_in a reason row w f p q = rw (f, p, q)

  -- An item counts as a new effect exactly when the runtime allows assignments, its reservation holds
  -- an attempt that is in state "reserved" and was not completed before, and executing it assigns.
  pub process_queue_item-effect_iff :
      (ticket : Option ℕ) (seen : List ℕ) (w : W)
      → (process_queue_item d ticket seen w).0.effect_applied ≡ true ↔ IsNewEffect ticket seen w
  unfolding process_queue_item
  process_queue_item-effect_iff ticket seen w = (
    λ h. elim (Bool-cases (d.may_assign w)) [
      | inl t ↦
          let (r, w') = d.reserve_next_assignment ticket seen w in
          let (a, e, f, p, q) = effect_out r.attempt r.reason r.queue_row_id w' (rw t at h) in
          (a, t, e, f, p, q)
      | inr f ↦ absurd (ground arith)
    ],
    λ (a, t, e, f, p, q).
        rw (t, e)
          (effect_in a (d.reserve_next_assignment ticket seen w).0.reason
            (d.reserve_next_assignment ticket seen w).0.queue_row_id
            (d.reserve_next_assignment ticket seen w).1 f p q),
  )
