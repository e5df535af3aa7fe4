-- ===== src/Occurrence/Repeated.antt =====
-- What a repeated record of an occurrence answers.
use judah.Prelude.{
  All, ℕ, ◌≤◌, ◌≡◌, refl, sym, subst, ◌∙◌, Bool, true, false, Option, some, List, [], ◌∷◌, ◌++◌,
  Text, find, modify, ◌==◌, if◌then◌else◌, arith, Bool-cases, inl, inr, count, find-append, Result,
  ok, err,
}
use judah.Close
use judah.Close.{Instant, aware, naive, resolve_close_target}
use judah.Occurrence.{Occurrence, OccurrenceError, invalid_evidence, Evidence, has_identity}
use judah.Occurrence.Record.{
  record_at, lacks_identity, record_proven_occurrence, process, mark_processed,
}
use judah.Occurrence.Recorded.{IsFound, IsKeyed, record_proven_occurrence-IsFound}

refused :
    (now fresh : ℕ) (e : Evidence) (cycles : List Close.CycleRow) (others table : List Occurrence)
    → lacks_identity e.account_id e.ticket_id ≡ true
    → record_proven_occurrence now fresh e cycles others table ≡ (err invalid_evidence, table)
unfolding record_proven_occurrence
refused now fresh e cycles others table l = rw l refl

-- The evidence of an occurrence as another source reports it
abbrev pub reported : Evidence → Text → Text → Option ℕ → Text → Evidence
reported e source event updated observation = record e {
  evidence_source = source;
  source_event_id = event;
  provider_updated_at = updated;
  observation_id = observation;
}

-- What happens to the table meanwhile: rows are inserted after those there, or a row is marked as processed.
pub data Write : Type 0 where
  inserts : List Occurrence → Write
  marks : ℕ → Write

unfoldable pub written : List Write → List Occurrence → List Occurrence
written [] table = table
written (inserts xs ∷ ws) table = written ws (table ++ xs)
written (marks id ∷ ws) table = written ws (mark_processed id table)

-- The table has the row of the key as the first of the identity.
abbrev pub Keeps : Evidence → ℕ → ℕ → List Occurrence → Type 0
Keeps e t id table = (o : Occurrence) × (find (has_identity e t) table ≡ some o) × (o.pk ≡ id)

-- A write that keeps the property of each row leaves the row of the key found.
find-modify_kept :
    (p : Occurrence → Bool) (f : Occurrence → Occurrence)
    → ((x : Occurrence) → p (f x) ≡ p x)
    → ((x : Occurrence) → (f x).pk ≡ x.pk)
    → (id m : ℕ) (xs : List Occurrence) (o : Occurrence) → find p xs ≡ some o
    → o.pk ≡ id
    → (o' : Occurrence) × (find p (modify (λ o. o.pk) m f xs) ≡ some o') × (o'.pk ≡ id)
unfolding modify
find-modify_kept p f keeps same id m [] o h k = absurd (ground (arith, h))
find-modify_kept p f keeps same id m (x ∷ xs) o h k = elim (Bool-cases (p x)) [
  | inl y ↦
      let mine : x.pk ≡ id = ground (arith, h, y, k) in
      elim (Bool-cases (x.pk == m)) [
        | inl q ↦ (f x, ground (arith, y, q, keeps x), same x ∙ mine)
        | inr q ↦ (x, ground (arith, y, q), mine)
      ]
  | inr n ↦
      let there : find p xs ≡ some o = ground (arith, h, n) in
      elim (Bool-cases (x.pk == m)) [
        | inl q ↦ (o, ground (arith, n, q, keeps x, there), k)
        | inr q ↦
            let (o', g, r) = find-modify_kept p f keeps same id m xs o there k in
            (o', later x m xs o' n q g, r)
      ]
]
  where
    later :
        (x : Occurrence) (m : ℕ) (xs : List Occurrence) (o' : Occurrence)
        → p x ≡ false
        → x.pk == m ≡ false
        → find p (modify (λ o. o.pk) m f xs) ≡ some o'
        → find p (modify (λ o. o.pk) m f (x ∷ xs)) ≡ some o'
    later x m xs o' n q g = ground (arith, n, q, g)

module _ (e : Evidence) (t : ℕ) where
  process-has_identity : (o : Occurrence) → has_identity e t (process o) ≡ has_identity e t o
  process-has_identity o = ground arith

  process-pk : (o : Occurrence) → (process o).pk ≡ o.pk
  process-pk o = ground arith

  mark_processed-Keeps :
      (id m : ℕ) (table : List Occurrence)
      → Keeps e t id table
      → Keeps e t id (mark_processed m table)
  unfolding mark_processed
  mark_processed-Keeps id m table (o, h, k) =
      find-modify_kept (has_identity e t) process process-has_identity process-pk id m table o h k

  written-Keeps :
      (ws : List Write) (id : ℕ) (table : List Occurrence)
      → Keeps e t id table
      → Keeps e t id (written ws table)
  unfolding written
  written-Keeps [] id table h = h
  written-Keeps (inserts xs ∷ ws) id table (o, h, p) =
      written-Keeps ws id (table ++ xs) (o, find-append (has_identity e t) table xs o h, p)
  written-Keeps (marks m ∷ ws) id table (o, h, p) =
      written-Keeps ws id (mark_processed m table) (mark_processed-Keeps id m table (o, h, p))

-- A record answers with the row of the key and writes nothing.
abbrev pub Repeats :
    ℕ → List Occurrence → Result OccurrenceError Occurrence × List Occurrence → Type 0
Repeats id table x = (o : Occurrence) × (x ≡ (ok o, table)) × (o.pk ≡ id)

-- Where the first record returned, the later one, on the table after the writes in between, repeats it.
abbrev pub IsAnswered :
    List Write
    → (List Occurrence → Result OccurrenceError Occurrence × List Occurrence)
    → Result OccurrenceError Occurrence × List Occurrence
    → Type 0
IsAnswered ws again (err f, table) = Unit
IsAnswered ws again (ok o, table) = Repeats o.pk (written ws table) (again (written ws table))

module _ (now fresh : ℕ) (e : Evidence) (t : ℕ) (a : e.occurred_at ≡ aware t)
    (cycles : List Close.CycleRow) (others : List Occurrence) where
  record_kept :
      (id : ℕ) (table : List Occurrence)
      → lacks_identity e.account_id e.ticket_id ≡ false
      → Keeps e t id table
      → Repeats id table (record_proven_occurrence now fresh e cycles others table)
  unfolding record_proven_occurrence
  record_kept id table l (o, h, p) = (
    o,
    subst
        (λ (i : Instant).
          (if lacks_identity e.account_id e.ticket_id
            then (err invalid_evidence, table)
            else record_at now fresh e i cycles others table)
          ≡ (ok o, table))
        (sym a) (rw l (rw h refl)),
    p,
  )

  record_again :
      (ws : List Write)
      → lacks_identity e.account_id e.ticket_id ≡ false
      → (x : Result OccurrenceError Occurrence × List Occurrence) → IsFound e t x
      → IsAnswered ws (record_proven_occurrence now fresh e cycles others) x
  record_again ws l (err f, table) h = tt
  record_again ws l (ok o, table) h =
      record_kept o.pk (written ws table) l (written-Keeps e t ws o.pk table (o, h, refl))

-- Once an occurrence is recorded, a later record of it, by any source and at any time, answers with the same
-- row and writes nothing, also after rows were inserted behind the others and rows marked as processed in
-- between. Keys are assumed unique, and the columns of pending closes to agree with their keys.
pub record_proven_occurrence-once :
    (now fresh : ℕ) (e : Evidence) (t : ℕ) (cycles : List Close.CycleRow)
    (others table : List Occurrence) (ws : List Write) (now' fresh' : ℕ) (source event : Text)
    (updated : Option ℕ) (observation : Text) (cycles' : List Close.CycleRow)
    (others' : List Occurrence)
    → e.occurred_at ≡ aware t
    → ((id : ℕ) → count (λ o. o.pk == id) (table ++ others) ≤ 1)
    → All IsKeyed table
    → IsAnswered ws
        (record_proven_occurrence now' fresh'
          (reported e source event updated observation)
          cycles'
          others')
        (record_proven_occurrence now fresh e cycles others table)
record_proven_occurrence-once now fresh e t cycles others table ws now' fresh' source event updated
      observation cycles' others' a u k =
    either (lacks_identity e.account_id e.ticket_id) refl
  where
    either :
        (b : Bool)
        → lacks_identity e.account_id e.ticket_id ≡ b
        → IsAnswered ws
            (record_proven_occurrence now' fresh'
              (reported e source event updated observation)
              cycles'
              others')
            (record_proven_occurrence now fresh e cycles others table)
    either true l =
        subst
          (IsAnswered ws (
            record_proven_occurrence now' fresh' (reported e source event updated observation)
              cycles' others'))
          (sym (refused now fresh e cycles others table l)) tt
    either false l =
        record_again now' fresh' (reported e source event updated observation) t a cycles' others'
          ws l (record_proven_occurrence now fresh e cycles others table)
          (record_proven_occurrence-IsFound now fresh e t cycles others table u k a)
