-- ===== src/Capacity/Held.antt =====
-- What holding and concluding a reservation does to the counts.
use judah.Prelude.{
  ◌+◌, ◌++◌, not, one_if, find_by-modify, ℕ, suc, ◌≤◌, ◌≡◌, refl, sym, subst, ◌∙◌, Bool, true,
  false, some, List, [], ◌∷◌, find, find_by, contains, ◌==◌, arith, maybe_elim, if_elim,
  find-find_by, All-find, count, Text, All,
}
use judah.Capacity.{
  CapacityMode, Occupancy, Reservation, Store, AgentCapacity, Operation, same_operation, occupied,
  capacity_count, is_held, is_released, save, bump, materialize, held_of, held_again, created,
  new_reservation, get_or_hold, hold_capacity, capacity_ready, limit_of, conclude_reservation,
  concluded, conclusion, reserved, holds_for,
}
use judah.Capacity.Counts.{save-IsCounted, insert-IsCounted, capacity_count-bump, IsCounted}

-- Reservations have unique keys.
abbrev pub has_pk : ℕ → Reservation → Bool
has_pk id r = r.pk == id

pub materialize-count :
    (mode : CapacityMode) (ids : List ℕ) (agent : ℕ) (s : Store)
    → capacity_count agent (materialize mode ids s) ≡ capacity_count agent s
unfolding materialize capacity_count
materialize-count mode ids agent s = refl

-- A hold changes the count of an agent by at most one, and not at all where the reservation is another
-- agent's.
pub record IsStep (agent : ℕ) (r : Reservation) (s s' : Store) : Type 0 where
  pub up : capacity_count agent s' ≤ suc (capacity_count agent s)
  pub other : r.agent == agent ≡ false → capacity_count agent s' ≡ capacity_count agent s

held_of-IsStep :
    (agent now : ℕ) (r : Reservation) (s : Store)
    → find_by (λ r. r.pk) r.pk s.reservations ≡ some r
    → IsStep agent r s (held_of now r s).1
held_of-IsStep agent now r s e =
    if_elim (λ (x : Reservation × Store). IsStep agent r s x.1) (is_released r.state)
      (held_again now r, save (held_again now) r s) (r, s)
      (λ t.
        let (others, c) = save-IsCounted agent (held_again now) r s e in
        record { up = ground (arith, c.was, c.now); other = λ o. ground (arith, c.was, c.now, o) })
      (λ f. record { up = omega arith; other = λ o. refl })

created-IsStep : (agent : ℕ) (r : Reservation) (s : Store) → IsStep agent r s (created r s).1
created-IsStep agent r s = record {
  up = ground (arith, insert-IsCounted agent r s);
  other = λ o. ground (arith, insert-IsCounted agent r s, o);
}

module _ (mode : CapacityMode) (now fresh : ℕ) (o : Occupancy) (agent : ℕ) (key : Operation)
    (s : Store) (unique : (id : ℕ) → count (has_pk id) s.reservations ≤ 1) where
  get_or_hold-up :
      (a : ℕ) → capacity_count a (get_or_hold now fresh o agent key s).1 ≤ suc (capacity_count a s)
  unfolding get_or_hold
  get_or_hold-up a =
      maybe_elim (λ (x : Reservation × Store). capacity_count a x.1 ≤ suc (capacity_count a s))
        (created (new_reservation now fresh o agent key) s) (λ r. held_of now r s)
        (find (λ r. same_operation r.operation_key key) s.reservations)
        (created-IsStep a (new_reservation now fresh o agent key) s).up
        (λ r e.
          (held_of-IsStep a now r s
            (find-find_by (λ r. same_operation r.operation_key key) (λ r. r.pk) s.reservations r e
              (unique r.pk)).0).up)

  pub hold_capacity-count :
      (a : ℕ)
      → capacity_count a (hold_capacity mode now fresh o agent key s).1
        ≡ capacity_count a (get_or_hold now fresh o agent key s).1
  unfolding hold_capacity
  hold_capacity-count a =
      materialize-count mode (agent ∷ []) a (bump o (get_or_hold now fresh o agent key s).1)
      ∙ capacity_count-bump a o (get_or_hold now fresh o agent key s).1

  -- Capacity that is held for an agent who was ready stays within the limit of the agent, whether the
  -- operation holds it for the first time, again, or holds it already. Of the reservations the theorem
  -- assumes unique keys.
  pub hold_capacity-within :
      (a : AgentCapacity) (freshness : ℕ)
      → capacity_ready now freshness a s ≡ true
      → capacity_count a.pk (hold_capacity mode now fresh o agent key s).1
        ≤ limit_of a.max_simultaneous_chats
  unfolding capacity_ready
  hold_capacity-within a freshness h =
      ground (arith, h, hold_capacity-count a.pk, get_or_hold-up a.pk)

  -- Only the agent of the operation may count more.
  pub hold_capacity-others :
      All (λ r. same_operation r.operation_key key ≡ true → r.agent ≡ agent) s.reservations
      → (a : ℕ) → agent == a ≡ false
      → capacity_count a (hold_capacity mode now fresh o agent key s).1 ≡ capacity_count a s
  unfolding get_or_hold
  hold_capacity-others owns a f =
      hold_capacity-count a
      ∙ maybe_elim (λ (x : Reservation × Store). capacity_count a x.1 ≡ capacity_count a s)
          (created (new_reservation now fresh o agent key) s) (λ r. held_of now r s)
          (find (λ r. same_operation r.operation_key key) s.reservations)
          ((created-IsStep a (new_reservation now fresh o agent key) s).other f)
          (λ r e.
            let (own, same) =
              All-find (λ r. same_operation r.operation_key key ≡ true → r.agent ≡ agent)
                (λ r. same_operation r.operation_key key) s.reservations r owns e in
            let mine : r.agent ≡ agent = own same in
            (held_of-IsStep a now r s
                (find-find_by (λ r. same_operation r.operation_key key) (λ r. r.pk) s.reservations r
                  e (unique r.pk)).0).other
              (subst (λ (i : ℕ). i == a ≡ false) (sym mine) f))

-- Whether the ticket still counts for the agent, by a reservation that is held or as occupied
abbrev pub is_counted : ℕ → ℕ → Store → Bool
is_counted agent ticket s =
    contains ticket (reserved agent s.reservations ++ occupied agent s.occupancies)

-- What a conclusion does: a reservation that was held is converted or released, and of one that was not
-- nothing changes; of one that was held, the count of the agent falls by one, unless the ticket still
-- counts by another reservation or as occupied; no other reservation and no other agent's count changes.
pub record IsConcluded (now : ℕ) (is_converted : Bool) (r : Reservation) (s s' : Store)
    : Type 0 where
  pub ended :
      is_held r.state ≡ true
      → (x : Reservation) × (find_by (λ r. r.pk) r.pk s'.reservations ≡ some x)
        × (x.state ≡ conclusion is_converted)
        × (x.concluded_at ≡ some now)
  pub idle : is_held r.state ≡ false → s' ≡ s
  pub exact :
      is_held r.state ≡ true
      → capacity_count r.agent s
        ≡ capacity_count r.agent s' + one_if (not (is_counted r.agent r.occupancy s'))
  pub rows :
      (id : ℕ)
      → r.pk == id ≡ false
      → find_by (λ r. r.pk) id s'.reservations ≡ find_by (λ r. r.pk) id s.reservations
  pub falls : capacity_count r.agent s' ≤ capacity_count r.agent s
  pub by_one : capacity_count r.agent s ≤ suc (capacity_count r.agent s')
  pub occupied_still :
      contains r.occupancy (occupied r.agent s.occupancies) ≡ true
      → capacity_count r.agent s' ≡ capacity_count r.agent s
  pub others : (a : ℕ) → r.agent == a ≡ false → capacity_count a s' ≡ capacity_count a s

-- The conclusion of a reservation that is held leaves it converted or released at that time, and the count
-- of its agent falls by exactly one, unless the ticket still counts for the agent by another reservation or
-- as occupied: then it stays. The conclusion of a reservation that is not held changes nothing. No other
-- reservation and no other agent's count changes. The reservation is assumed to be the one in the table.
pub conclude_reservation-IsConcluded :
    (now : ℕ) (is_converted : Bool) (reason : Text) (r : Reservation) (s : Store)
    → find_by (λ r. r.pk) r.pk s.reservations ≡ some r
    → IsConcluded now is_converted r s (conclude_reservation now is_converted reason r s)
unfolding conclude_reservation
conclude_reservation-IsConcluded now is_converted reason r s e =
    if_elim (IsConcluded now is_converted r s) (is_held r.state)
      (save (concluded now is_converted reason) r s) s
      (λ t. written t (save-IsCounted r.agent (concluded now is_converted reason) r s e))
      (λ f. record {
        ended = λ h. absurd (ground (arith, f, h));
        idle = λ h. refl;
        exact = λ h. absurd (ground (arith, f, h));
        rows = λ id n. refl;
        falls = omega arith;
        by_one = omega arith;
        occupied_still = λ h. refl;
        others = λ a n. refl;
      })
  where
    out : (b : Bool) → is_held (conclusion b) ≡ false
    out true = refl
    out false = refl

    let_go : holds_for r.agent (concluded now is_converted reason r) ≡ false
    let_go = ground (arith, out is_converted)

    row_of :
        (id : ℕ)
        → r.pk == id ≡ false
        → find_by (λ r. r.pk) id (save (concluded now is_converted reason) r s).reservations
          ≡ find_by (λ r. r.pk) id s.reservations
    row_of id n = ground (
      arith,
      n,
      find_by-modify (λ r. r.pk) (concluded now is_converted reason) (λ x. refl) id r.pk
          s.reservations,
    )

    concluded_row :
        find_by (λ r. r.pk) r.pk (save (concluded now is_converted reason) r s).reservations
        ≡ some (concluded now is_converted reason r)
    concluded_row = ground (
      arith,
      e,
      find_by-modify (λ r. r.pk) (concluded now is_converted reason) (λ x. refl) r.pk r.pk
          s.reservations,
    )

    written :
        is_held r.state ≡ true
        → ((others : List ℕ) × IsCounted r.agent r
              (concluded now is_converted reason r)
              s
              (save (concluded now is_converted reason) r s)
              others)
        → IsConcluded now is_converted r s (save (concluded now is_converted reason) r s)
    written t (others, c) = record {
      ended = λ h. (concluded now is_converted reason r, concluded_row, refl, refl);
      idle = λ h. absurd (ground (arith, t, h));
      exact = λ h. ground (arith, t, c.was, c.now, out is_converted, c.rest let_go);
      rows = λ id n. row_of id n;
      falls = ground (arith, c.was, c.now, out is_converted);
      by_one = ground (arith, c.was, c.now, out is_converted);
      occupied_still =
          λ h. ground (arith, c.was, c.now, out is_converted, c.occupies r.occupancy h);
      others = λ a n.
          let (rest, d) = save-IsCounted a (concluded now is_converted reason) r s e in
          ground (arith, n, d.was, d.now);
    }
