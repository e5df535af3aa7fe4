-- ===== src/Close/Written.antt =====
-- The rows that the writes of a close change, and those that they leave.
use judah.Prelude.{
  ℕ, ◌≤◌, ◌≡◌, refl, Bool, true, false, not, inl, inr, Option, none, some, List, [], ◌∷◌, find,
  find_by, select, remove_by, ◌==◌, arith, Bool-cases, count, find_by-modify, find-find_by,
}
use judah.Queue.{Agent}
use judah.Cycle
use judah.Close.{TicketCloseOccurrence}
use judah.Close.Apply.{
  AssignedConversation, NewConversation, ClosedConversation, Store, same_cycle, assigned_to,
  waits_for, closed_record, close_cycle, without_assigned, written, effective,
}

select-remove_by :
    (p : AssignedConversation → Bool) (id : ℕ) (xs : List AssignedConversation)
    (x : AssignedConversation)
    → find_by (λ a. a.pk) id xs ≡ some x
    → p x ≡ false
    → select p (remove_by (λ a. a.pk) id xs) ≡ select p xs
unfolding find_by remove_by
select-remove_by p id [] x e n = absurd (ground (arith, e))
select-remove_by p id (y ∷ ys) x e n = ground (arith, e, n, select-remove_by p id ys x)

select-select :
    (p q : NewConversation → Bool) (xs : List NewConversation)
    → ((x : NewConversation) → p x ≡ true → q x ≡ true)
    → select p (select q xs) ≡ select p xs
select-select p q [] h = refl
select-select p q (x ∷ xs) h = ground (arith, h x, select-select p q xs h)

same_cycle_trans :
    (a b c : Option ℕ) → same_cycle a b ≡ true → same_cycle a c ≡ true → same_cycle b c ≡ true
same_cycle_trans none none none h k = refl
same_cycle_trans none none (some c) h k = absurd (ground (arith, k))
same_cycle_trans none (some b) c h k = absurd (ground (arith, h))
same_cycle_trans (some a) none c h k = absurd (ground (arith, h))
same_cycle_trans (some a) (some b) none h k = absurd (ground (arith, k))
same_cycle_trans (some a) (some b) (some c) h k = ground (arith, h, k)

same_cycle_other :
    (c t x : Option ℕ) → same_cycle c t ≡ true → same_cycle t x ≡ false → same_cycle c x ≡ false
same_cycle_other c t x m n = elim (Bool-cases (same_cycle c x)) [
  | inl y ↦ absurd (ground (arith, n, same_cycle_trans c t x m y))
  | inr f ↦ f
]

same_cycle_apart :
    (c t x : Option ℕ) → same_cycle c x ≡ true → same_cycle t x ≡ false → same_cycle c t ≡ false
same_cycle_apart c t x m n = elim (Bool-cases (same_cycle c t)) [
  | inl y ↦ absurd (ground (arith, n, same_cycle_trans c t x y m))
  | inr f ↦ f
]

find-holds :
    (p : AssignedConversation → Bool) (xs : List AssignedConversation) (a : AssignedConversation)
    → find p xs ≡ some a
    → p a ≡ true
find-holds p [] a e = absurd (ground (arith, e))
find-holds p (x ∷ xs) a e = ground (arith, e, find-holds p xs a)

-- A close of one cycle, or of none, writes its record and leaves the rows of every other cycle, in their
-- order.
pub record IsWritten (target : Option ℕ) (s u : Store) : Type 0 where
  pub recorded : (c : ClosedConversation) × (u.closed ≡ c ∷ s.closed) × (c.cycle ≡ target)
  pub cycles :
      (id : ℕ)
      → same_cycle target (some id) ≡ false
      → find_by (λ c. c.pk) id u.cycles ≡ find_by (λ c. c.pk) id s.cycles
  pub assigned :
      (x : Option ℕ)
      → same_cycle target x ≡ false
      → select (λ a. same_cycle a.cycle x) u.assigned
        ≡ select (λ a. same_cycle a.cycle x) s.assigned
  pub pending :
      (x : Option ℕ)
      → same_cycle target x ≡ false
      → select (λ n. same_cycle n.cycle x) u.pending ≡ select (λ n. same_cycle n.cycle x) s.pending

module _ (o : TicketCloseOccurrence) (s : Store)
    (unique : (id : ℕ) → count (λ a. a.pk == id) s.assigned ≤ 1) where
  cycles_kept :
      (target : Option ℕ) (id : ℕ)
      → same_cycle target (some id) ≡ false
      → find_by (λ c. c.pk) id (close_cycle target o s.cycles) ≡ find_by (λ c. c.pk) id s.cycles
  cycles_kept none id h = refl
  cycles_kept (some t) id h = ground (
    arith,
    h,
    find_by-modify (λ c. c.pk)
        (λ c. record c { state = Cycle.closed; closed_at = some (effective o) }) (λ c. refl) id t
        s.cycles,
  )

  assigned_kept :
      (target x : Option ℕ) (a : Option AssignedConversation)
      → find (assigned_to target o.ticket_id) s.assigned ≡ a
      → same_cycle target x ≡ false
      → select (λ a. same_cycle a.cycle x) (without_assigned a s.assigned)
        ≡ select (λ a. same_cycle a.cycle x) s.assigned
  assigned_kept target x none e h = refl
  assigned_kept target x (some a) e h =
      let found =
        (find-find_by (assigned_to target o.ticket_id) (λ a. a.pk) s.assigned a e
          (unique a.pk)).0 in
      let mine = find-holds (assigned_to target o.ticket_id) s.assigned a e in
      let other : same_cycle a.cycle x ≡ false =
        same_cycle_other a.cycle target x (ground (arith, mine)) h in
      select-remove_by (λ a. same_cycle a.cycle x) a.pk s.assigned a found other

  pub written-IsWritten :
      (target : Option ℕ) (agents : List Agent)
      → IsWritten target s
          (written target o (find (assigned_to target o.ticket_id) s.assigned) agents s)
  written-IsWritten target agents = record {
    recorded = (
      closed_record target o (find (assigned_to target o.ticket_id) s.assigned),
      refl,
      of_target (find (assigned_to target o.ticket_id) s.assigned),
    );
    cycles = cycles_kept target;
    assigned =
        λ x h. assigned_kept target x (find (assigned_to target o.ticket_id) s.assigned) refl h;
    pending = λ x h.
        select-select (λ n. same_cycle n.cycle x) (λ n. not (waits_for target o.ticket_id n))
          s.pending (λ n k. ground (arith, same_cycle_apart n.cycle target x k h));
  }
    where
      of_target : (a : Option AssignedConversation) → (closed_record target o a).cycle ≡ target
      of_target none = refl
      of_target (some a) = refl
