-- ===== src/Occurrence/Recorded.antt =====
-- What recording an occurrence leaves in the table.
use judah.Prelude.{
  All, All-find, text_eq_iff, ℕ, ◌≤◌, ◌≡◌, refl, sym, subst, ◌∙◌, Bool, true, false, ◌||◌, Option,
  none, some, List, [], ◌∷◌, ◌++◌, Text, text_eq, text_eq_refl, any, find, find_by, modify, ◌==◌,
  arith, Bool-cases, inl, inr, if_elim, maybe, count, find-append, find-find_by, Result, ok, err,
}
use judah.Close
use judah.Close.{Instant, aware, naive, resolve_close_target}
use judah.Occurrence.{
  EvidenceKey, temporal, pending_close, OccurrenceType, entered_support_queue, closed,
  owner_changed, Occurrence, OccurrenceError, does_not_exist, Evidence, same_type, has_identity,
  new_occurrence, materialized, waits_as, same_key, key_of,
}
use judah.Occurrence.Record.{
  close_of, read_again, create_or_read, materialize_or_read, pending_of, record_new, record_at,
  lacks_identity, record_proven_occurrence,
}

find-none : (p : Occurrence → Bool) (xs : List Occurrence) → any p xs ≡ false → find p xs ≡ none
find-none p [] h = refl
find-none p (x ∷ xs) h = ground (arith, h, find-none p xs)

-- A row that gets the property by a write is found, where no other row has it.
find-modify :
    (p : Occurrence → Bool) (f : Occurrence → Occurrence) (id : ℕ) (xs : List Occurrence)
    (x : Occurrence)
    → any p xs ≡ false
    → find_by (λ o. o.pk) id xs ≡ some x
    → p (f x) ≡ true
    → find p (modify (λ o. o.pk) id f xs) ≡ some (f x)
unfolding find_by modify
find-modify p f id [] x h e k = absurd (ground (arith, e))
find-modify p f id (y ∷ ys) x h e k = elim (Bool-cases (y.pk == id)) [
  | inl t ↦
      let same : y ≡ x = ground (arith, e, t) in
      let k' : p (f y) ≡ true = subst (λ (z : Occurrence). p (f z) ≡ true) (sym same) k in
      subst (λ (z : Occurrence). find p (modify (λ o. o.pk) id f (y ∷ ys)) ≡ some (f z)) same
        (ground (arith, t, k'))
  | inr n ↦ ground (arith, h, e, n, k, find-modify p f id ys x)
]

same_type_refl : (k : OccurrenceType) → same_type k k ≡ true
same_type_refl entered_support_queue = refl
same_type_refl closed = refl
same_type_refl owner_changed = refl

new-has_identity :
    (now fresh : ℕ) (e : Evidence) (t : ℕ) → has_identity e t (new_occurrence now fresh e t) ≡ true
new-has_identity now fresh e t =
    ground
      (arith, text_eq_refl e.account_id, text_eq_refl e.ticket_id, same_type_refl e.occurrence_type)

-- A call that returns leaves its occurrence where a read of the identity finds it first.
abbrev pub IsFound : Evidence → ℕ → Result OccurrenceError Occurrence × List Occurrence → Type 0
IsFound e t (err f, table) = Unit
IsFound e t (ok o, table) = find (has_identity e t) table ≡ some o

module _ (now fresh : ℕ) (e : Evidence) (t : ℕ) where
  read_again-IsFound :
      (table : List Occurrence) (there : Option Occurrence)
      → find (has_identity e t) table ≡ there
      → IsFound e t (maybe (err does_not_exist) (λ o. ok o) there, table)
  read_again-IsFound table none h = tt
  read_again-IsFound table (some o) h = h

  create_or_read-IsFound :
      (table : List Occurrence) → IsFound e t (create_or_read now fresh e t table)
  create_or_read-IsFound table =
      if_elim (IsFound e t)
        (any (λ o. has_identity e t o || same_key o.evidence_key (key_of e t)) table) _ _
        (λ h. read_again-IsFound table (find (has_identity e t) table) refl)
        (λ h. ground (arith, new-has_identity now fresh e t))

-- The columns of a pending close agree with its key.
abbrev pub KeyAgrees : EvidenceKey → Occurrence → Type 0
KeyAgrees (temporal a t k i) o = Unit
KeyAgrees (pending_close a t c) o =
    (text_eq o.source_account_id a ≡ true)
    × (text_eq o.hubspot_ticket_id t ≡ true)
    × (same_type o.occurrence_type closed ≡ true)

abbrev pub IsKeyed : Occurrence → Type 0
IsKeyed o = KeyAgrees o.evidence_key o

text_eq_trans : (a b c : Text) → text_eq a b ≡ true → text_eq b c ≡ true → text_eq a c ≡ true
text_eq_trans a b c h k =
    let p = (text_eq_iff a b).0 h in let q = (text_eq_iff b c).0 k in (text_eq_iff a c).1 (p ∙ q)

keyed-columns :
    (key : EvidenceKey) (o : Occurrence) (account ticket : Text) (c : Option ℕ)
    → KeyAgrees key o
    → same_key key (pending_close account ticket c) ≡ true
    → (text_eq o.source_account_id account ≡ true)
      × (text_eq o.hubspot_ticket_id ticket ≡ true)
      × (same_type o.occurrence_type closed ≡ true)
keyed-columns (temporal a t k i) o account ticket c g h = absurd (ground (arith, h))
keyed-columns (pending_close a t d) o account ticket c (ga, gt, gk) h = (
  text_eq_trans o.source_account_id a account ga (ground (arith, h)),
  text_eq_trans o.hubspot_ticket_id t ticket gt (ground (arith, h)),
  gk,
)

module _ (now fresh : ℕ) (e : Evidence) (t : ℕ) where
  materialize_or_read-IsFound :
      (o : Occurrence) (table : List Occurrence)
      → find_by (λ o. o.pk) o.pk table ≡ some o
      → has_identity e t (materialized now e t o) ≡ true
      → IsFound e t (materialize_or_read now e t o table)
  materialize_or_read-IsFound o table f k =
      if_elim (IsFound e t) (any (has_identity e t) table) (read_again e t table, table)
        (ok (materialized now e t o), modify (λ o. o.pk) o.pk (materialized now e t) table)
        (λ h. read_again-IsFound now fresh e t table (find (has_identity e t) table) refl)
        (λ h. find-modify (has_identity e t) (materialized now e t) o.pk table o h f k)

  module _ (cycles : List Close.CycleRow) (others table : List Occurrence)
      (unique : (id : ℕ) → count (λ o. o.pk == id) (table ++ others) ≤ 1)
      (keyed : All IsKeyed table) where
    -- A pending close of the ticket becomes the occurrence.
    pending-IsFound :
        (k : OccurrenceType)
        → e.occurrence_type ≡ k
        → (there : Option Occurrence) → pending_of k e cycles table ≡ there
        → IsFound e t (
            maybe
              (create_or_read now fresh e t (table ++ others))
              (λ o. materialize_or_read now e t o (table ++ others))
              there)
    pending-IsFound k q none h = create_or_read-IsFound now fresh e t (table ++ others)
    pending-IsFound entered_support_queue q (some o) h = absurd (ground (arith, h))
    pending-IsFound owner_changed q (some o) h = absurd (ground (arith, h))
    pending-IsFound closed q (some o) h =
        let key =
          pending_close e.account_id e.ticket_id
            (resolve_close_target cycles (close_of e)).cycle_id in
        let found = find-append (waits_as key) table others o h in
        let (own, waits) = All-find IsKeyed (waits_as key) table o keyed h in
        let (a, b, c) =
          keyed-columns o.evidence_key o e.account_id e.ticket_id
            (resolve_close_target cycles (close_of e)).cycle_id own (ground (arith, waits)) in
        materialize_or_read-IsFound o (table ++ others)
          (find-find_by (waits_as key) (λ o. o.pk) (table ++ others) o found (unique o.pk)).0
          (ground (
            arith,
            a,
            b,
            c,
            subst (λ (z : OccurrenceType). same_type o.occurrence_type z ≡ true) (sym q) c,
          ))

    record_at-IsFound :
        (there : Option Occurrence)
        → find (has_identity e t) table ≡ there
        → IsFound e t
            (maybe (record_new now fresh e t cycles others table) (λ o. (ok o, table)) there)
    record_at-IsFound none h =
        pending-IsFound e.occurrence_type refl (pending_of e.occurrence_type e cycles table) refl
    record_at-IsFound (some o) h = h

    -- The occurrence that a call returns is the one that a read of its identity finds. Keys are assumed
    -- unique, and the columns of pending closes to agree with their keys.
    pub record_proven_occurrence-IsFound :
        e.occurred_at ≡ aware t
        → IsFound e t (record_proven_occurrence now fresh e cycles others table)
    unfolding record_proven_occurrence
    record_proven_occurrence-IsFound a =
        if_elim (IsFound e t) (lacks_identity e.account_id e.ticket_id) _ _ (λ h. tt)
          (λ h.
            subst (λ (i : Instant). IsFound e t (record_at now fresh e i cycles others table))
              (sym a) (record_at-IsFound (find (has_identity e t) table) refl))
