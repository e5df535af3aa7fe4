-- ===== src/Queue/Choice.antt =====
-- What the choice of an agent guarantees.
use judah.Prelude.{
  ℕ, ◌<◌, ◌≡◌, ◌≢◌, refl, ◌⊎◌, inl, inr, Bool, true, false, Option, none, some, List, [], ◌∷◌,
  select, is_empty, length, arith, All, Exists, Exists-map, All-map, Bool-cases, any, any-false,
  is_empty-select, Exists-select, All-select, All-Exists,
}
use judah.Prelude.Sorting.{sort, sort-head}
use judah.Queue.{
  ranks_before, get_ranked_eligible_agents, Agent, QueueSettings, before, candidates_of,
  get_eligible_agents, select_next_agent, is_someone_else,
}
use judah.Queue.Order.{
  before_refl, before_total, before_trans, ranks_before_refl, ranks_before_total,
  ranks_before_trans,
}

-- The agents that rule 2 leaves: those that another agent had before, unless all did.
abbrev pub IsBlocked : Option ℕ → List Agent → Agent → Type 0
IsBlocked none pool a = ⊥
IsBlocked (some owner) pool a =
    (a.hubspot_owner_id ≡ owner) × Exists (λ b. b.hubspot_owner_id ≢ owner) pool

-- What the choice of `a` from a pool means: it is in the pool, rule 2 does not block it, and it comes
-- first among the agents that rule 2 does not block.
pub record IsChoice (order : Agent → Agent → Bool) (last : Option ℕ) (pool : List Agent) (a : Agent)
    : Type 0 where
  pub member : Exists (λ b. a ≡ b) pool
  pub allowed : ¬ IsBlocked last pool a
  pub foremost : All (λ b. ¬ IsBlocked last pool b → order a b ≡ true) pool

someone_else_ne :
    (owner : ℕ) (a : Agent) → is_someone_else owner a ≡ true → a.hubspot_owner_id ≢ owner
someone_else_ne owner a e = λ p. ground arith

not_someone_else :
    (owner : ℕ) (a : Agent) → is_someone_else owner a ≡ false → a.hubspot_owner_id ≡ owner
not_someone_else owner a e = ground arith

candidates_whole :
    (owner : ℕ) (pool : List Agent)
    → select (is_someone_else owner) pool ≡ []
    → candidates_of (some owner) pool ≡ pool
unfolding candidates_of
candidates_whole owner pool e = ground arith

candidates_others :
    (owner : ℕ) (pool : List Agent) (o : Agent) (os : List Agent)
    → 1 < length pool
    → select (is_someone_else owner) pool ≡ o ∷ os
    → candidates_of (some owner) pool ≡ o ∷ os
unfolding candidates_of
candidates_others owner pool o os h e = ground arith

-- Where rule 2 blocks nobody, the first agent of the whole pool is a choice.
module _ (order : Agent → Agent → Bool) where
  whole_pool :
      (last : Option ℕ) (pool : List Agent) (a : Agent)
      → ¬ IsBlocked last pool a
      → Exists (λ b. a ≡ b) pool
      → All (λ b. order a b ≡ true) pool
      → IsChoice order last pool a
  whole_pool last pool a free m f = record {
    member = m;
    allowed = free;
    foremost = All-map _ _ (λ b e _. e) pool f;
  }

  -- Where others than the last agent are there, the first of these is a choice.
  others_only :
      (owner : ℕ) (pool : List Agent) (a : Agent)
      → Exists (λ b. a ≡ b) (select (is_someone_else owner) pool)
      → All (λ b. order a b ≡ true) (select (is_someone_else owner) pool)
      → IsChoice order (some owner) pool a
  others_only owner pool a m f =
      let (there, else_a) = Exists-select (is_someone_else owner) pool a m in
      let other : Exists (λ b. b.hubspot_owner_id ≢ owner) pool =
        Exists-map _ _ (λ b e. someone_else_ne owner b (rw (← e) else_a)) pool there in
      record {
        member = there;
        allowed = λ k. someone_else_ne owner a else_a k.0;
        foremost =
            All-map _ _
              (λ b g n. elim (Bool-cases (is_someone_else owner b)) [
                | inl t ↦ g t
                | inr t ↦ absurd (n (not_someone_else owner b t, other))
              ])
              pool (All-select (is_someone_else owner) _ pool f);
      }

  nobody_else :
      (owner : ℕ) (pool : List Agent)
      → is_empty (select (is_someone_else owner) pool) ≡ true
      → (b : Agent) → ¬ IsBlocked (some owner) pool b
  nobody_else owner pool e b k =
      let none_other : any (is_someone_else owner) pool ≡ false =
        ground (arith, is_empty-select (is_someone_else owner) pool) in
      let (x, p, q) = All-Exists _ _ pool (any-false (is_someone_else owner) pool none_other) k.1 in
      q (not_someone_else owner x p)

  alone :
      (owner : ℕ) (x b : Agent) → Exists (λ y. b ≡ y) (x ∷ []) → ¬ IsBlocked (some owner) (x ∷ []) b
  alone owner x b (inl e) (p, inl q) = q (rw (← e) p)
  alone owner x b (inl e) (p, inr q) = elim q [ ]
  alone owner x b (inr e) k = elim e [ ]

  module _ (refl_order : (a : Agent) → order a a ≡ true)
      (total : (a b : Agent) → order a b ≡ false → order b a ≡ true)
      (trans : (a b c : Agent) → order a b ≡ true → order b c ≡ true → order a c ≡ true) where
    abbrev Chosen : Option ℕ → List Agent → Type 0
    Chosen last pool =
        (a : Agent) × (t : List Agent) × (sort order (candidates_of last pool) ≡ a ∷ t)
        × IsChoice order last pool a

    Chosen-some : (owner : ℕ) (x y : Agent) (zs : List Agent) → Chosen (some owner) (x ∷ y ∷ zs)
    Chosen-some owner x y zs = go (select (is_someone_else owner) (x ∷ y ∷ zs)) refl
      where
        go :
            (os : List Agent)
            → select (is_someone_else owner) (x ∷ y ∷ zs) ≡ os
            → Chosen (some owner) (x ∷ y ∷ zs)
        go [] e =
            let (a, t, s, m, f) = sort-head order refl_order total trans x (y ∷ zs) in
            (
              a,
              t,
              rw (candidates_whole owner (x ∷ y ∷ zs) e) s,
              whole_pool (some owner) (x ∷ y ∷ zs) a (nobody_else owner (x ∷ y ∷ zs) (rw e) a) m f,
            )
        go (o ∷ os) e =
            let (a, t, s, m, f) = sort-head order refl_order total trans o os in
            (
              a,
              t,
              rw (candidates_others owner (x ∷ y ∷ zs) o os (omega arith) e) s,
              others_only owner (x ∷ y ∷ zs) a (rw e m) (rw e f),
            )

    pub candidates_of-choice :
        (last : Option ℕ) (x : Agent) (xs : List Agent) → Chosen last (x ∷ xs)
    unfolding candidates_of
    candidates_of-choice none x xs =
        let (a, t, e, m, f) = sort-head order refl_order total trans x xs in
        (a, t, e, whole_pool none (x ∷ xs) a (λ k. k) m f)
    candidates_of-choice (some owner) x [] =
        let (a, t, e, m, f) = sort-head order refl_order total trans x [] in
        (a, t, e, whole_pool (some owner) (x ∷ []) a (alone owner x a m) m f)
    candidates_of-choice (some owner) x (y ∷ zs) = Chosen-some owner x y zs

-- What the next agent means for a pool of eligible agents.
abbrev pub Answers : Option ℕ → List Agent → Option Agent → Type 0
Answers last pool r =
    (pool ≡ []) × (r ≡ none) ⊎ (a : Agent) × (r ≡ some a) × IsChoice before last pool a

select_none :
    (s : QueueSettings) (now : ℕ) (last : Option ℕ) (agents : List Agent)
    → get_eligible_agents s now false agents ≡ []
    → select_next_agent s now last agents ≡ none
unfolding select_next_agent
select_none s now last agents e = ground arith

select_some :
    (s : QueueSettings) (now : ℕ) (last : Option ℕ) (agents : List Agent) (x a : Agent)
    (xs t : List Agent)
    → get_eligible_agents s now false agents ≡ x ∷ xs
    → sort before (candidates_of last (x ∷ xs)) ≡ a ∷ t
    → select_next_agent s now last agents ≡ some a
unfolding select_next_agent
select_some s now last agents x a xs t e q = rw (e, q)

-- The agent for the next ticket is eligible; it is the agent of the last assignment only if nobody
-- else is eligible; and among the agents that this rule leaves it comes first by the time of its last
-- assignment and then by its open chats. There is no agent exactly when none is eligible.
pub select_next_agent-IsChoice :
    (s : QueueSettings) (now : ℕ) (last : Option ℕ) (agents : List Agent)
    → Answers last (get_eligible_agents s now false agents) (select_next_agent s now last agents)
select_next_agent-IsChoice s now last agents = go (get_eligible_agents s now false agents) refl
  where
    go :
        (pool : List Agent)
        → get_eligible_agents s now false agents ≡ pool
        → Answers last
            (get_eligible_agents s now false agents)
            (select_next_agent s now last agents)
    go [] e = inl (e, select_none s now last agents e)
    go (x ∷ xs) e =
        let (a, t, q, choice) =
          candidates_of-choice before before_refl before_total before_trans last x xs in
        inr (a, select_some s now last agents x a xs t e q, rw e choice)

-- What the ranking means for a pool of eligible agents.
abbrev pub Ranked : Option ℕ → List Agent → List Agent → Type 0
Ranked last pool r =
    (pool ≡ []) × (r ≡ [])
    ⊎ (a : Agent) × (t : List Agent) × (r ≡ a ∷ t) × IsChoice ranks_before last pool a

ranked_none :
    (s : QueueSettings) (now : ℕ) (last : Option ℕ) (agents : List Agent)
    → get_eligible_agents s now false agents ≡ []
    → get_ranked_eligible_agents s now last agents ≡ []
unfolding get_ranked_eligible_agents
ranked_none s now last agents e = ground arith

ranked_some :
    (s : QueueSettings) (now : ℕ) (last : Option ℕ) (agents : List Agent) (x a : Agent)
    (xs t : List Agent)
    → get_eligible_agents s now false agents ≡ x ∷ xs
    → sort ranks_before (candidates_of last (x ∷ xs)) ≡ a ∷ t
    → get_ranked_eligible_agents s now last agents ≡ a ∷ t
unfolding get_ranked_eligible_agents
ranked_some s now last agents x a xs t e q = rw (e, q)

-- The ranking is empty exactly when no agent is eligible. Its first agent is eligible; it is the agent
-- of the last assignment only if nobody else is eligible; and among the agents that this rule leaves
-- it comes first by last assignment, then open chats, then identifier.
pub get_ranked_eligible_agents-IsChoice :
    (s : QueueSettings) (now : ℕ) (last : Option ℕ) (agents : List Agent)
    → Ranked last
        (get_eligible_agents s now false agents)
        (get_ranked_eligible_agents s now last agents)
get_ranked_eligible_agents-IsChoice s now last agents =
    go (get_eligible_agents s now false agents) refl
  where
    go :
        (pool : List Agent)
        → get_eligible_agents s now false agents ≡ pool
        → Ranked last
            (get_eligible_agents s now false agents)
            (get_ranked_eligible_agents s now last agents)
    go [] e = inl (e, ranked_none s now last agents e)
    go (x ∷ xs) e =
        let (a, t, q, choice) =
          candidates_of-choice ranks_before ranks_before_refl ranks_before_total ranks_before_trans
            last x xs in
        inr (a, t, ranked_some s now last agents x a xs t e q, rw e choice)
