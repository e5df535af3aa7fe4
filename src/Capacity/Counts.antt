-- ===== src/Capacity/Counts.antt =====
-- What each write does to the count of an agent.
use judah.Prelude.{
  ℕ, ◌+◌, ◌≡◌, refl, ap, subst, Bool, true, false, not, ◌&&◌, some, List, [], ◌∷◌, ◌++◌, find_by,
  modify, contains, length, ◌==◌, arith, inl, inr, Bool-cases, one_if, any-append, ◌∙◌,
}
use judah.Capacity.{
  Occupancy, Reservation, Store, occupied, reserved, distinct, capacity_count, holds_for, save,
  bump,
}
use judah.Capacity.Identities.{length-distinct_between}

append_assoc : (xs ys zs : List ℕ) → (xs ++ ys) ++ zs ≡ xs ++ (ys ++ zs)
append_assoc [] ys zs = refl
append_assoc (x ∷ xs) ys zs = ap (λ (l : List ℕ). x ∷ l) (append_assoc xs ys zs)

-- The ticket of a reservation that is in force for an agent
abbrev pub part_of : Bool → ℕ → List ℕ
part_of true o = o ∷ []
part_of false o = []

-- The tickets reserved before and after a write to one reservation: only its own part differs.
pub record IsSplit (agent : ℕ) (r r' : Reservation) (xs ys pre post : List ℕ) : Type 0 where
  pub was : xs ≡ pre ++ (part_of (holds_for agent r) r.occupancy ++ post)
  pub now : ys ≡ pre ++ (part_of (holds_for agent r') r'.occupancy ++ post)

abbrev pub Split : ℕ → Reservation → Reservation → List ℕ → List ℕ → Type 0
Split agent r r' xs ys = (pre : List ℕ) × (post : List ℕ) × IsSplit agent r r' xs ys pre post

module _ (agent id : ℕ) (f : Reservation → Reservation) where
  pub reserved-modify :
      (r : Reservation) (rs : List Reservation)
      → find_by (λ r. r.pk) id rs ≡ some r
      → Split agent r (f r) (reserved agent rs) (reserved agent (modify (λ r. r.pk) id f rs))
  unfolding find_by modify reserved
  reserved-modify r [] e = absurd (ground (arith, e))
  reserved-modify r (x ∷ xs) e = elim (Bool-cases (x.pk == id)) [
    | inl t ↦
        let same : x ≡ r = ground (arith, e, t) in
        subst
          (λ (z : Reservation).
            Split agent z (f z) (reserved agent (x ∷ xs))
              (reserved agent (modify (λ r. r.pk) id f (x ∷ xs))))
          same ([], reserved agent xs, record { was = ground arith; now = ground (arith, t) })
    | inr n ↦
        let (pre, post, h) = reserved-modify r xs (ground (arith, e, n)) in
        elim (Bool-cases (holds_for agent x)) [
          | inl b ↦ (
            x.occupancy ∷ pre,
            post,
            record { was = ground (arith, b, h.was); now = ground (arith, n, b, h.now) },
          )
          | inr b ↦ (
            pre,
            post,
            record { was = ground (arith, b, h.was); now = ground (arith, n, b, h.now) },
          )
        ]
  ]

distinct-part :
    (b : Bool) (y : ℕ) (pre post occ : List ℕ)
    → length (distinct ((pre ++ (part_of b y ++ post)) ++ occ))
      ≡ length (distinct (pre ++ (post ++ occ)))
        + one_if (b && not (contains y (pre ++ (post ++ occ))))
distinct-part false y pre post occ = ground (arith, append_assoc pre post occ)
distinct-part true y pre post occ =
    ground (arith, append_assoc pre (y ∷ post) occ, length-distinct_between y pre (post ++ occ))

-- What a reservation adds to the count over the other identities
abbrev pub adds : ℕ → List ℕ → Reservation → ℕ
adds agent others r = one_if (holds_for agent r && not (contains r.occupancy others))

-- The count before and after a write to one reservation; the occupied tickets are among the others.
pub record IsCounted (agent : ℕ) (r r' : Reservation) (s s' : Store) (others : List ℕ)
    : Type 0 where
  pub was : capacity_count agent s ≡ length (distinct others) + adds agent others r
  pub now : capacity_count agent s' ≡ length (distinct others) + adds agent others r'
  pub occupies :
      (y : ℕ) → contains y (occupied agent s.occupancies) ≡ true → contains y others ≡ true
  pub rest :
      holds_for agent r' ≡ false
      → others ≡ reserved agent s'.reservations ++ occupied agent s'.occupancies

contains-last :
    (y : ℕ) (xs ys zs : List ℕ) → contains y zs ≡ true → contains y (xs ++ (ys ++ zs)) ≡ true
contains-last y xs ys zs h =
    ground (arith, h, any-append (λ x. y == x) xs (ys ++ zs), any-append (λ x. y == x) ys zs)

pub save-IsCounted :
    (agent : ℕ) (f : Reservation → Reservation) (r : Reservation) (s : Store)
    → find_by (λ r. r.pk) r.pk s.reservations ≡ some r
    → (others : List ℕ) × IsCounted agent r (f r) s (save f r s) others
unfolding capacity_count
save-IsCounted agent f r s e =
    let (pre, post, h) = reserved-modify agent r.pk f r s.reservations e in
    let occ = occupied agent s.occupancies in
    (
      pre ++ (post ++ occ),
      record {
        was =
            ap (λ (l : List ℕ). length (distinct (l ++ occ))) h.was
            ∙ distinct-part (holds_for agent r) r.occupancy pre post occ;
        now =
            ap (λ (l : List ℕ). length (distinct (l ++ occ))) h.now
            ∙ distinct-part (holds_for agent (f r)) (f r).occupancy pre post occ;
        occupies = λ y t. contains-last y pre post occ t;
        rest = λ n. ground (arith, n, h.now, append_assoc pre post occ);
      },
    )

-- A new reservation
pub insert-IsCounted :
    (agent : ℕ) (r : Reservation) (s : Store)
    → capacity_count agent (record s { reservations = r ∷ s.reservations })
      ≡ capacity_count agent s
        + adds agent (reserved agent s.reservations ++ occupied agent s.occupancies) r
unfolding capacity_count reserved distinct
insert-IsCounted agent r s = elim (Bool-cases (holds_for agent r)) [
  | inl t ↦ ground (arith, t)
  | inr f ↦ ground (arith, f)
]

bumped :
    (agent id n : ℕ) (os : List Occupancy)
    → occupied agent (modify (λ o. o.pk) id (λ x. record x { revision = n }) os) ≡ occupied agent os
unfolding occupied modify
bumped agent id n [] = refl
bumped agent id n (o ∷ os) = ground (arith, bumped agent id n os)

pub capacity_count-bump :
    (agent : ℕ) (o : Occupancy) (s : Store)
    → capacity_count agent (bump o s) ≡ capacity_count agent s
unfolding capacity_count
capacity_count-bump agent o s =
    ap (λ (l : List ℕ). length (distinct (reserved agent s.reservations ++ l)))
      (bumped agent o.pk (o.revision + 1) s.occupancies)
