-- ===== src/Capacity/Calls.antt =====
-- Sequences of calls where capacity is enforced, each with the projection that its callers make.
use judah.Prelude.{
  ℕ, ◌≤◌, ◌≡◌, refl, sym, subst, ◌∙◌, Bool, true, false, not, some, List, [], ◌∷◌, map, find,
  find_by, modify, contains, ◌==◌, arith, inl, inr, Bool-cases, if◌then◌else◌, maybe_elim, if_elim,
  All, All-modify, All-map_same, count, count-modify, find-find_by, Text, is_some,
}
use judah.Capacity.{
  enforce, Occupancy, Reservation, Store, AgentCapacity, Operation, same_operation, capacity_count,
  save, is_held, is_released, bump, materialize, materialized, held_of, held_again, created,
  new_reservation, get_or_hold, hold_capacity, conclude_reservation, concluded, conclusion,
  degrade_agents, degraded_agent,
}
use judah.Capacity.Held.{
  has_pk, hold_capacity-others, materialize-count, conclude_reservation-IsConcluded,
}

abbrev pub has_key : Operation → Reservation → Bool
has_key k r = same_operation r.operation_key k

-- The check constraint `ck_capacity_conclusion`
abbrev pub IsMarked : Reservation → Type 0
IsMarked r = is_held r.state ≡ not (is_some r.concluded_at)

-- The chats of an agent are the count of its tickets.
abbrev pub IsProjected : Store → AgentCapacity → Type 0
IsProjected s a = a.current_simultaneous_chats ≡ capacity_count a.pk s

pub record IsAccounted (s : Store) : Type 0 where
  pub one_pk : (id : ℕ) → count (has_pk id) s.reservations ≤ 1
  pub marked : All IsMarked s.reservations
  pub projected : All (IsProjected s) s.agents

-- The calls: a hold, a conclusion with the projection of its agent, a degradation, and an observation of
-- tickets with the projection of the agents that it affects
pub data Call : Type 0 where
  holds : ℕ → ℕ → Occupancy → ℕ → Operation → Call
  concludes : ℕ → Bool → Text → Reservation → Call
  degrades : List ℕ → Call
  observes : List Occupancy → List ℕ → Call

abbrev pub step : Call → Store → Store
step (holds now fresh o agent key) s = (hold_capacity enforce now fresh o agent key s).1
step (concludes now is_converted reason r) s =
    materialize enforce (r.agent ∷ []) (conclude_reservation now is_converted reason r s)
step (degrades ids) s = degrade_agents ids s
step (observes os ids) s = materialize enforce ids (record s { occupancies = os })

abbrev pub run : List Call → Store → Store
run [] s = s
run (c ∷ cs) s = run cs (step c s)

-- A new key is free and an operation holds for one agent; a reservation concluded is the one in the table;
-- the agents that an observation affects are among those it names.
abbrev pub IsAdmitted : Store → Call → Type 0
IsAdmitted s (holds now fresh o agent key) =
    (count (has_pk fresh) s.reservations ≡ 0)
    × All (λ r. has_key key r ≡ true → r.agent ≡ agent) s.reservations
IsAdmitted s (concludes now is_converted reason r) =
    find_by (λ r. r.pk) r.pk s.reservations ≡ some r
IsAdmitted s (degrades ids) = Unit
IsAdmitted s (observes os ids) =
    (a : ℕ)
    → contains a ids ≡ false
    → capacity_count a (record s { occupancies = os }) ≡ capacity_count a s

abbrev pub AreAdmitted : List Call → Store → Type 0
AreAdmitted [] s = Unit
AreAdmitted (c ∷ cs) s = IsAdmitted s c × AreAdmitted cs (step c s)

-- A projection makes up for what changed the counts of the agents it names.
module _ (ids : List ℕ) (t u : Store) where
  all_projected :
      (same : (a : ℕ) → capacity_count a u ≡ capacity_count a t)
      → (before : ℕ → ℕ) → ((a : ℕ) → contains a ids ≡ false → capacity_count a t ≡ before a)
      → (xs : List AgentCapacity) → All (λ a. a.current_simultaneous_chats ≡ before a.pk) xs
      → All
          (IsProjected u)
          (map (λ a. if contains a.pk ids then materialized enforce t a else a) xs)
  all_projected same before keeps [] h = tt
  all_projected same before keeps (a ∷ xs) h = (
    if_elim (IsProjected u) (contains a.pk ids) (materialized enforce t a) a (λ q. sym (same a.pk))
        (λ q. h.0 ∙ (sym (keeps a.pk q) ∙ sym (same a.pk))),
    all_projected same before keeps xs h.1,
  )

-- What a call keeps of the reservations
pub record AreRows (rs : List Reservation) : Type 0 where
  pub one_pk : (id : ℕ) → count (has_pk id) rs ≤ 1
  pub marked : All IsMarked rs

save-AreRows :
    (f : Reservation → Reservation) (r : Reservation) (rs : List Reservation)
    → ((x : Reservation) → (f x).pk ≡ x.pk)
    → ((x : Reservation) → IsMarked (f x))
    → find_by (λ r. r.pk) r.pk rs ≡ some r
    → AreRows rs
    → AreRows (modify (λ r. r.pk) r.pk f rs)
save-AreRows f r rs keeps marks e k = record {
  one_pk = λ id.
      ground (arith, count-modify (λ r. r.pk) f (has_pk id) r.pk rs r e, keeps r, k.one_pk id);
  marked = All-modify f IsMarked (λ r. r.pk) r.pk (λ x m. marks x) rs k.marked;
}

materialize-IsAccounted :
    (ids : List ℕ) (s t : Store)
    → AreRows t.reservations
    → t.agents ≡ s.agents
    → All (IsProjected s) s.agents
    → ((a : ℕ) → contains a ids ≡ false → capacity_count a t ≡ capacity_count a s)
    → IsAccounted (materialize enforce ids t)
unfolding materialize
materialize-IsAccounted ids s t rows same p keeps = record {
  one_pk = rows.one_pk;
  marked = rows.marked;
  projected =
      all_projected ids t (materialize enforce ids t) (λ a. materialize-count enforce ids a t)
        (λ a. capacity_count a s) keeps t.agents
        (subst (λ (xs : List AgentCapacity). All (IsProjected s) xs) (sym same) p);
}

module _ (now fresh : ℕ) (o : Occupancy) (agent : ℕ) (key : Operation) (s : Store)
    (k : IsAccounted s) where
  held_of-AreRows :
      (r : Reservation)
      → find_by (λ r. r.pk) r.pk s.reservations ≡ some r
      → AreRows (held_of now r s).1.reservations × ((held_of now r s).1.agents ≡ s.agents)
  held_of-AreRows r e =
      if_elim (λ (x : Reservation × Store). AreRows x.1.reservations × (x.1.agents ≡ s.agents))
        (is_released r.state) (held_again now r, save (held_again now) r s) (r, s)
        (λ t. (
          save-AreRows (held_again now) r s.reservations (λ x. refl) (λ x. refl) e
              (record { one_pk = k.one_pk; marked = k.marked }),
          refl,
        ))
        (λ f. (record { one_pk = k.one_pk; marked = k.marked }, refl))

  created-AreRows :
      count (has_pk fresh) s.reservations ≡ 0
      → AreRows (new_reservation now fresh o agent key ∷ s.reservations)
  unfolding count
  created-AreRows free = record {
    one_pk = λ id. elim (Bool-cases (fresh == id)) [
      | inl t ↦
          ground
            (arith, t, subst (λ (i : ℕ). count (has_pk i) s.reservations ≡ 0) (equal id t) free)
      | inr f ↦ ground (arith, f, k.one_pk id)
    ];
    marked = (refl, k.marked);
  }
    where
      equal : (id : ℕ) → fresh == id ≡ true → fresh ≡ id
      equal id t = ground (arith, t)

  get_or_hold-AreRows :
      count (has_pk fresh) s.reservations ≡ 0
      → AreRows (get_or_hold now fresh o agent key s).1.reservations
        × ((get_or_hold now fresh o agent key s).1.agents ≡ s.agents)
  unfolding get_or_hold
  get_or_hold-AreRows free =
      maybe_elim (λ (x : Reservation × Store). AreRows x.1.reservations × (x.1.agents ≡ s.agents))
        (created (new_reservation now fresh o agent key) s) (λ r. held_of now r s)
        (find (has_key key) s.reservations) (created-AreRows free, refl)
        (λ r e.
          held_of-AreRows r
            (find-find_by (has_key key) (λ r. r.pk) s.reservations r e (k.one_pk r.pk)).0)

  hold_capacity-IsAccounted :
      count (has_pk fresh) s.reservations ≡ 0
      → All (λ r. has_key key r ≡ true → r.agent ≡ agent) s.reservations
      → IsAccounted (hold_capacity enforce now fresh o agent key s).1
  unfolding hold_capacity
  hold_capacity-IsAccounted free owns =
      let (rows, same) = get_or_hold-AreRows free in
      let t = bump o (get_or_hold now fresh o agent key s).1 in
      materialize-IsAccounted (agent ∷ []) s t rows same k.projected (λ a f.
        sym (materialize-count enforce (agent ∷ []) a t)
        ∙ hold_capacity-others enforce now fresh o agent key s k.one_pk owns a (ground (arith, f)))

module _ (s : Store) (k : IsAccounted s) where
  conclude_reservation-AreRows :
      (now : ℕ) (is_converted : Bool) (reason : Text) (r : Reservation)
      → find_by (λ r. r.pk) r.pk s.reservations ≡ some r
      → AreRows (conclude_reservation now is_converted reason r s).reservations
        × ((conclude_reservation now is_converted reason r s).agents ≡ s.agents)
  unfolding conclude_reservation
  conclude_reservation-AreRows now is_converted reason r e =
      if_elim (λ (x : Store). AreRows x.reservations × (x.agents ≡ s.agents)) (is_held r.state)
        (save (concluded now is_converted reason) r s) s
        (λ t. (
          save-AreRows (concluded now is_converted reason) r s.reservations (λ x. refl)
              (λ x. out is_converted) e (record { one_pk = k.one_pk; marked = k.marked }),
          refl,
        ))
        (λ f. (record { one_pk = k.one_pk; marked = k.marked }, refl))
    where
      out : (b : Bool) → is_held (conclusion b) ≡ false
      out true = refl
      out false = refl

  degrade_agents-IsAccounted : (ids : List ℕ) → IsAccounted (degrade_agents ids s)
  unfolding degrade_agents capacity_count
  degrade_agents-IsAccounted ids = record {
    one_pk = k.one_pk;
    marked = k.marked;
    projected =
        All-map_same (λ a. if contains a.pk ids then degraded_agent a else a) (IsProjected s)
          (λ a p.
            if_elim (IsProjected s) (contains a.pk ids) (degraded_agent a) a (λ q. p) (λ q. p))
          s.agents k.projected;
  }

  step-IsAccounted : (c : Call) → IsAdmitted s c → IsAccounted (step c s)
  step-IsAccounted (holds now fresh o agent key) a =
      hold_capacity-IsAccounted now fresh o agent key s k a.0 a.1
  step-IsAccounted (concludes now is_converted reason r) e =
      let (rows, same) = conclude_reservation-AreRows now is_converted reason r e in
      materialize-IsAccounted (r.agent ∷ []) s (conclude_reservation now is_converted reason r s)
        rows same k.projected
        (λ a f.
          (conclude_reservation-IsConcluded now is_converted reason r s e).others a
            (ground (arith, f)))
  step-IsAccounted (degrades ids) a = degrade_agents-IsAccounted ids
  step-IsAccounted (observes os ids) a =
      materialize-IsAccounted ids s (record s { occupancies = os })
        (record { one_pk = k.one_pk; marked = k.marked }) refl k.projected a

-- Where capacity is enforced, the chats of every agent are the tickets that it occupies or has reserved,
-- each counted once, after any sequence of holds, conclusions, degradations and observations; reservations
-- keep unique keys, and are marked as concluded exactly when they are not held. The theorem assumes that new
-- keys are free, that an operation holds for one agent, that a reservation that is concluded is the one in
-- the table, and that an observation names the agents that it affects.
pub run-IsAccounted :
    (calls : List Call) (s : Store)
    → IsAccounted s
    → AreAdmitted calls s
    → IsAccounted (run calls s)
run-IsAccounted [] s k a = k
run-IsAccounted (c ∷ cs) s k a = run-IsAccounted cs (step c s) (step-IsAccounted s k c a.0) a.1
