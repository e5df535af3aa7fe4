-- ===== src/Assignment/Finals.antt =====
-- The books after the finalization of an attempt.
use judah.Prelude.{
  ap, ◌∙◌, ℕ, ◌+◌, ◌≡◌, refl, Option, none, some, List, ◌==◌, if◌then◌else◌, All, arith, find_by,
  modify, count, map_some, count-modify, find_by-map, count-map, All-modify, All-map_same,
}
use judah.Assignment.{AssignmentAttempt, external_applied, Store, attempt_of, write_attempt}
use judah.Assignment.Reserve.{delete_row, same_row}
use judah.Assignment.Settle.{
  upsert, assigned_row, log_row, is_same_assignment, finalized, delete_row_of, assign_cycle,
  finalize_writes,
}
use judah.Assignment.Books.{Opening, holds, completes, HasGivenBack, Books}

abbrev pub without_row : ℕ → AssignmentAttempt → AssignmentAttempt
without_row r a = if same_row r a.queue_row then record a { queue_row = none } else a

pub holds-without_row : (pk r : ℕ) (a : AssignmentAttempt) → holds pk (without_row r a) ≡ holds pk a
holds-without_row pk r a = ground arith

pub completes-without_row :
    (pk r : ℕ) (a : AssignmentAttempt) → completes pk (without_row r a) ≡ completes pk a
completes-without_row pk r a = ground arith

pub without_row-HasGivenBack :
    (r : ℕ) (a : AssignmentAttempt) → HasGivenBack a → HasGivenBack (without_row r a)
without_row-HasGivenBack r a g = ground arith

without_row-pk : (r : ℕ) (a : AssignmentAttempt) → (without_row r a).pk ≡ a.pk
without_row-pk r a = ground arith

without_row-agent :
    (r : ℕ) (a : AssignmentAttempt) → (without_row r a).selected_agent ≡ a.selected_agent
without_row-agent r a = ground arith

without_row-state : (r : ℕ) (a : AssignmentAttempt) → (without_row r a).state ≡ a.state
without_row-state r a = ground arith

-- The attempt is still there when a row is deleted.
pub attempt_of-delete_row_of :
    (row : Option ℕ) (a : AssignmentAttempt) (s : Store)
    → attempt_of a.pk s ≡ some a
    → (b : AssignmentAttempt) × (attempt_of a.pk (delete_row_of row s) ≡ some b)
      × (b.state ≡ a.state)
unfolding delete_row
attempt_of-delete_row_of none a s e = (a, e, refl)
attempt_of-delete_row_of (some r) a s e = (
  without_row r a,
  find_by-map (without_row r) (λ a. a.pk) (without_row-pk r) a.pk s.attempts
      ∙ ap (map_some (without_row r)) e,
  without_row-state r a,
)

-- The attempts after a row is deleted: the same but for their rows.
pub record SameBut (a : AssignmentAttempt) (before after : List AssignmentAttempt) : Type 0 where
  pub found : AssignmentAttempt
  pub at : find_by (λ a. a.pk) a.pk after ≡ some found
  pub same_agent : found.selected_agent ≡ a.selected_agent
  pub same_holds : (pk : ℕ) → holds pk found ≡ holds pk a
  pub same_completes : (pk : ℕ) → completes pk found ≡ completes pk a
  pub count_holds : (pk : ℕ) → count (holds pk) after ≡ count (holds pk) before
  pub count_completes : (pk : ℕ) → count (completes pk) after ≡ count (completes pk) before
  pub given_back : All HasGivenBack after

delete_row_of-SameBut :
    (row : Option ℕ) (a : AssignmentAttempt) (s : Store)
    → attempt_of a.pk s ≡ some a
    → All HasGivenBack s.attempts
    → SameBut a s.attempts (delete_row_of row s).attempts
unfolding delete_row
delete_row_of-SameBut none a s e g = record {
  found = a;
  at = e;
  same_agent = refl;
  same_holds = λ pk. refl;
  same_completes = λ pk. refl;
  count_holds = λ pk. refl;
  count_completes = λ pk. refl;
  given_back = g;
}
delete_row_of-SameBut (some r) a s e g = record {
  found = without_row r a;
  at =
      find_by-map (without_row r) (λ a. a.pk) (without_row-pk r) a.pk s.attempts
      ∙ ap (map_some (without_row r)) e;
  same_agent = without_row-agent r a;
  same_holds = λ pk. holds-without_row pk r a;
  same_completes = λ pk. completes-without_row pk r a;
  count_holds = λ pk. count-map (without_row r) (holds pk) (holds-without_row pk r) s.attempts;
  count_completes =
      λ pk. count-map (without_row r) (completes pk) (completes-without_row pk r) s.attempts;
  given_back = All-map_same (without_row r) HasGivenBack (without_row-HasGivenBack r) s.attempts g;
}

-- What the writes behind the record of the assignment leave of the books
pub written_tables :
    (cycle row : Option ℕ) (id : ℕ) (f : AssignmentAttempt → AssignmentAttempt) (s : Store)
    → let t = assign_cycle cycle (write_attempt id f (delete_row_of row s)) in
      (t.agents ≡ s.agents)
      × (t.total_assignments ≡ s.total_assignments)
      × (t.attempts ≡ modify (λ a. a.pk) id f (delete_row_of row s).attempts)
unfolding delete_row
written_tables none none id f s = (refl, refl, refl)
written_tables none (some r) id f s = (refl, refl, refl)
written_tables (some c) none id f s = (refl, refl, refl)
written_tables (some c) (some r) id f s = (refl, refl, refl)

abbrev tallied_total : ℕ → ℕ → ℕ → ℕ
tallied_total agent n selected = if selected == agent then n + 1 else n

-- The books over tables that differ by one attempt completed
settled-Books :
    (o : Opening) (now : ℕ) (a : AssignmentAttempt) (s t : Store) (mid : List AssignmentAttempt)
    → a.state ≡ external_applied
    → SameBut a s.attempts mid
    → t.agents ≡ s.agents
    → ((pk : ℕ)
        → t.total_assignments pk ≡ tallied_total pk (s.total_assignments pk) a.selected_agent)
    → t.attempts ≡ modify (λ a. a.pk) a.pk (finalized now) mid
    → Books o s
    → Books o t
settled-Books o now a s t mid st m ag tot at b = record {
  chats = λ pk x q.
      let k = count-modify (λ a. a.pk) (finalized now) (holds pk) a.pk mid m.found m.at in
      rw at (ground (arith, b.chats pk x (rw (← ag) q), m.count_holds pk, k));
  assignments = λ pk.
      let k = count-modify (λ a. a.pk) (finalized now) (completes pk) a.pk mid m.found m.at in
      rw at (
        ground (
          arith,
          b.assignments pk,
          tot pk,
          m.count_completes pk,
          m.same_completes pk,
          m.same_agent,
          k,
        ));
  given_back =
      rw at
        (All-modify (finalized now) HasGivenBack (λ a. a.pk) a.pk (λ x g. refl) mid m.given_back);
}

module _ (o : Opening) (now : ℕ) (a : AssignmentAttempt) where
  pub finalize_writes-Books :
      (s : Store)
      → attempt_of a.pk s ≡ some a
      → a.state ≡ external_applied
      → Books o s
      → Books o (finalize_writes now a s)
  unfolding finalize_writes
  finalize_writes-Books s e st b =
      let rec : Store = record s {
        assigned_rows = upsert (is_same_assignment a) (assigned_row now a) s.assigned_rows;
        logs = upsert (λ l. l.attempt == a.pk) (log_row a) s.logs;
        total_assignments = λ agent.
            if a.selected_agent == agent
            then s.total_assignments agent + 1
            else s.total_assignments agent;
      } in
      let (ag, tot, at) = written_tables a.cycle_id a.queue_row a.pk (finalized now) rec in
      settled-Books o now a s (finalize_writes now a s) (delete_row_of a.queue_row rec).attempts st
        (delete_row_of-SameBut a.queue_row a rec e b.given_back) ag
        (λ pk. ap (λ (t : ℕ → ℕ). t pk) tot) at b
