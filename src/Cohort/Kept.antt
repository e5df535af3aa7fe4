-- ===== src/Cohort/Kept.antt =====
-- What every sequence of calls keeps of the cohorts, and that a released cohort never defers again.
use judah.Prelude.{
  ℕ, ◌+◌, ◌≤◌, ◌≡◌, refl, sym, subst, Bool, true, false, ◌&&◌, Option, none, some, List, ◌∷◌, ◌++◌,
  find, ◌==◌, arith, All, All-append, All-modify, All-find, maybe, inl, inr, Bool-cases, count,
  one_if, count-append, count-modify, find-append, find-count, find-find_by, find_by, modify,
}
use judah.Assignment.{QueueRow}
use judah.Cohort.{
  Mode, mode_off, shadow, enforce, CohortState, active, released, ReleaseReason, Cohort,
}
use judah.Cohort.Barrier.{
  Tables, starts_at, create_or_read, opened, locked_get_or_create, release, scheduled,
  reason_to_release, hold, release_or_hold, with_cohort, on_cohort, finalize_active, finalize_in,
}
use judah.Cohort.Held.{IsTimed}

abbrev pub is_released : CohortState → Bool
is_released active = false
is_released released = true

abbrev pub has_pk : ℕ → Cohort → Bool
has_pk id c = c.pk == id

-- The cohort of the window was released.
abbrev pub released_at_start : ℕ → Cohort → Bool
released_at_start start c = starts_at start c && is_released c.state

-- One cohort for a key and for a window, rechecked by its deadline, and of one window as many released ones
-- as there were.
pub record IsKept (start n : ℕ) (xs : List Cohort) : Type 0 where
  pub timed : All IsTimed xs
  pub one_pk : (id : ℕ) → count (has_pk id) xs ≤ 1
  pub one_start : (w : ℕ) → count (starts_at w) xs ≤ 1
  pub releases : n ≤ count (released_at_start start) xs

-- What a save may write over a cohort that is active
pub record IsUpdate (c x : Cohort) : Type 0 where
  pub was_active : c.state ≡ active
  pub pk : x.pk ≡ c.pk
  pub window : x.window_started_at ≡ c.window_started_at
  pub timed : IsTimed c → IsTimed x

-- The keys that the constraints of the table leave to the rows of other sessions and to a new one
pub record IsAdmitted (fresh : ℕ) (others cohorts : List Cohort) : Type 0 where
  pub timed : All IsTimed others
  pub pks : (id : ℕ) → count (has_pk id) (others ++ cohorts) + one_if (fresh == id) ≤ 1
  pub starts : (w : ℕ) → count (starts_at w) (others ++ cohorts) ≤ 1

module _ (start n : ℕ) where
  -- The cohort found is the one that a save writes.
  pub record IsFound (c : Cohort) (xs : List Cohort) : Type 0 where
    pub kept : IsKept start n xs
    pub found : find_by (λ c. c.pk) c.pk xs ≡ some c
    pub timed : IsTimed c

  save-IsKept :
      (c x : Cohort) (xs : List Cohort)
      → IsFound c xs
      → IsUpdate c x
      → IsKept start n (modify (λ c. c.pk) x.pk (λ y. x) xs)
  save-IsKept c x xs f u =
      let e : find_by (λ c. c.pk) x.pk xs ≡ some c =
        subst (λ (i : ℕ). find_by (λ c. c.pk) i xs ≡ some c) (sym u.pk) f.found in
      let counted : (p : Cohort → Bool)
          → count p (modify (λ c. c.pk) x.pk (λ y. x) xs) + one_if (p c)
            ≡ count p xs + one_if (p x) =
        λ p. count-modify (λ c. c.pk) (λ y. x) p x.pk xs c e in
      record {
        timed =
            All-modify (λ y. x) IsTimed (λ c. c.pk) x.pk (λ y h. u.timed f.timed) xs f.kept.timed;
        one_pk = λ id. ground (arith, counted (has_pk id), f.kept.one_pk id, u.pk);
        one_start = λ w. ground (arith, counted (starts_at w), f.kept.one_start w, u.window);
        releases =
            ground
              (arith, counted (released_at_start start), f.kept.releases, u.window, u.was_active);
      }

  inserted-IsKept :
      (fresh : ℕ) (others xs : List Cohort)
      → IsKept start n xs
      → IsAdmitted fresh others xs
      → IsKept start n (others ++ xs)
  inserted-IsKept fresh others xs k a = record {
    timed = All-append IsTimed others xs a.timed k.timed;
    one_pk = λ id. ground (arith, a.pks id);
    one_start = a.starts;
    releases = ground (arith, count-append (released_at_start start) others xs, k.releases);
  }

  created-IsFound :
      (fresh w : ℕ) (others xs : List Cohort) (c : Cohort)
      → IsKept start n xs
      → IsAdmitted fresh others xs
      → find (starts_at w) xs ≡ none
      → find (starts_at w) others ≡ none
      → c.window_started_at ≡ w
      → c.pk ≡ fresh
      → IsTimed c
      → IsFound c (c ∷ (others ++ xs))
  unfolding count find_by
  created-IsFound fresh w others xs c k a e eo cw cp m =
      let in_kept = inserted-IsKept fresh others xs k a in
      let absent : count (starts_at w) (others ++ xs) ≡ 0 = ground (
        arith,
        count-append (starts_at w) others xs,
        find-count (starts_at w) xs e,
        find-count (starts_at w) others eo,
      ) in
      record {
        kept = record {
          timed = (m, in_kept.timed);
          one_pk = λ id. ground (arith, a.pks id, cp);
          one_start = λ v. elim (Bool-cases (w == v)) [
            | inl t ↦ ground (
              arith,
              subst (λ (v : ℕ). count (starts_at v) (others ++ xs) ≡ 0) (eq_of w v t) absent,
              cw,
            )
            | inr f ↦ ground (arith, a.starts v, f, cw)
          ];
          releases = ground (arith, in_kept.releases);
        };
        found = ground arith;
        timed = m;
      }
    where
      eq_of : (w v : ℕ) → w == v ≡ true → w ≡ v
      eq_of w v t = ground arith

  read-IsFound :
      (w : ℕ) (xs : List Cohort) (c : Cohort)
      → IsKept start n xs
      → find (starts_at w) xs ≡ some c
      → IsFound c xs
  read-IsFound w xs c k e = record {
    kept = k;
    found = (find-find_by (starts_at w) (λ c. c.pk) xs c e (k.one_pk c.pk)).0;
    timed = (All-find IsTimed (starts_at w) xs c k.timed e).0;
  }

  abbrev pub AreFound : Option (Cohort × Bool) × List Cohort → Type 0
  AreFound (none, xs) = IsKept start n xs
  AreFound (some (c, b), xs) = IsFound c xs

  -- A cohort that a window makes
  pub record IsMade (fresh w : ℕ) (c : Cohort) : Type 0 where
    pub window : c.window_started_at ≡ w
    pub pk : c.pk ≡ fresh
    pub timed : IsTimed c

  module _ (fresh w : ℕ) (others xs : List Cohort) (k : IsKept start n xs)
      (a : IsAdmitted fresh others xs) where
    created-AreFound :
        (c : Cohort) (there : Option Cohort)
        → find (starts_at w) xs ≡ none
        → find (starts_at w) others ≡ there
        → IsMade fresh w c
        → AreFound
            (opened (maybe ((c, true), c ∷ (others ++ xs)) (λ o. ((o, false), others ++ xs)) there))
    created-AreFound c none e eo m =
        created-IsFound fresh w others xs c k a e eo m.window m.pk m.timed
    created-AreFound c (some o) e eo m =
        read-IsFound w (others ++ xs) o (inserted-IsKept fresh others xs k a)
          (find-append (starts_at w) others xs o eo)

    found-AreFound :
        (defaults there : Option Cohort)
        → ((c : Cohort) → defaults ≡ some c → IsMade fresh w c)
        → find (starts_at w) xs ≡ there
        → AreFound (
            maybe
              (maybe (none, others ++ xs) (λ c. opened (create_or_read w others xs c)) defaults)
              (λ c. (some (c, false), xs))
              there)
    found-AreFound defaults (some c) d e = read-IsFound w xs c k e
    found-AreFound none none d e = inserted-IsKept fresh others xs k a
    found-AreFound (some c) none d e =
        created-AreFound c (find (starts_at w) others) e refl (d c refl)

    pub locked_get_or_create-AreFound :
        (defaults : Option Cohort)
        → ((c : Cohort) → defaults ≡ some c → IsMade fresh w c)
        → AreFound (locked_get_or_create w others defaults xs)
    unfolding locked_get_or_create
    locked_get_or_create-AreFound defaults d =
        found-AreFound defaults (find (starts_at w) xs) d refl

  scheduled-IsUpdate : (now : ℕ) (c : Cohort) → c.state ≡ active → IsUpdate c (scheduled now c)
  scheduled-IsUpdate now c e = record {
    was_active = e;
    pk = refl;
    window = refl;
    timed = λ m. record { rechecked = m.rechecked; observed = m.observed };
  }

  release-IsUpdate :
      (reason : ReleaseReason) (now : ℕ) (c : Cohort)
      → c.state ≡ active
      → IsUpdate c (release reason now c)
  unfolding release
  release-IsUpdate reason now c e = record {
    was_active = e;
    pk = refl;
    window = refl;
    timed = λ m. record { rechecked = m.rechecked; observed = m.observed };
  }

  module _ (now : ℕ) (r : QueueRow) where
    hold-IsKept :
        (mode : Mode) (c : Cohort) (t : Tables)
        → IsFound c t.cohorts
        → c.state ≡ active
        → IsKept start n (hold mode now r c t).1.cohorts
    hold-IsKept shadow c t f e =
        save-IsKept c (scheduled now c) t.cohorts f (scheduled-IsUpdate now c e)
    hold-IsKept mode_off c t f e =
        save-IsKept c (scheduled now c) t.cohorts f (scheduled-IsUpdate now c e)
    hold-IsKept enforce c t f e =
        save-IsKept c (scheduled now c) t.cohorts f (scheduled-IsUpdate now c e)

    release_or_hold-IsKept :
        (mode : Mode) (c : Cohort) (t : Tables) (reason : Option ReleaseReason)
        → IsFound c t.cohorts
        → c.state ≡ active
        → IsKept start n (release_or_hold mode now r c t reason).1.cohorts
    release_or_hold-IsKept mode c t (some reason) f e =
        save-IsKept c (release reason now c) t.cohorts f (release-IsUpdate reason now c e)
    release_or_hold-IsKept mode c t none f e = hold-IsKept mode c t f e

    with_cohort-IsKept :
        (state : CohortState) (mode : Mode) (c : Cohort) (t : Tables)
        → IsFound c t.cohorts
        → c.state ≡ state
        → IsKept start n (with_cohort state mode now r c t).1.cohorts
    with_cohort-IsKept released mode c t f e = f.kept
    with_cohort-IsKept active mode c t f e =
        release_or_hold-IsKept mode c t (reason_to_release t.agents now c) f e

    pub on_cohort-IsKept :
        (mode : Mode) (t : Tables) (f : Option (Cohort × Bool) × List Cohort)
        → AreFound f
        → IsKept start n (on_cohort mode now r t f).1.cohorts
    on_cohort-IsKept mode t (none, xs) k = k
    on_cohort-IsKept mode t (some (c, b), xs) k =
        with_cohort-IsKept c.state mode c (record t { cohorts = xs }) k refl

  finalize_active-IsKept :
      (now : ℕ) (c : Cohort) (t : Tables) (reason : Option ReleaseReason)
      → IsFound c t.cohorts
      → c.state ≡ active
      → IsKept start n (finalize_active now c t reason).1.cohorts
  finalize_active-IsKept now c t (some reason) f e =
      save-IsKept c (release reason now c) t.cohorts f (release-IsUpdate reason now c e)
  finalize_active-IsKept now c t none f e = f.kept

  pub finalize_in-IsKept :
      (state : CohortState) (now : ℕ) (c : Cohort) (t : Tables)
      → IsFound c t.cohorts
      → c.state ≡ state
      → IsKept start n (finalize_in state now c t).1.cohorts
  finalize_in-IsKept released now c t f e = f.kept
  finalize_in-IsKept active now c t f e =
      finalize_active-IsKept now c t (reason_to_release t.agents now c) f e
