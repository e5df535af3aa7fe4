-- ===== src/Prelude/Sorting.antt =====
-- Python's stable `list.sort` by a total order on keys.
use mathlib.Core.Path.{◌≡◌, refl, sym, subst}
use mathlib.Core.Logic.{◌⊎◌, inl, inr}
use mathlib.Core.Bool.{Bool, true, false}
use mathlib.Core.List.{List, [], ◌∷◌}
use judah.Prelude.Tests.{if◌then◌else◌, Bool-cases}
use judah.Prelude.Lists.{All, All-map, Exists}

module _ {ℓ} {A : Type ℓ} (leq : A → A → Bool) where
  unfoldable pub insert_sorted : A → List A → List A
  insert_sorted x [] = x ∷ []
  insert_sorted x (y ∷ ys) =
      let rest = insert_sorted x ys in if leq x y then x ∷ y ∷ ys else y ∷ rest

  unfoldable pub sort : List A → List A
  unfolding insert_sorted
  sort [] = []
  sort (x ∷ xs) = insert_sorted x (sort xs)

  -- A property of all elements passes to the sorted list, and back.
  pub All-insert_sorted {κ} :
      (P : A → Type κ) (x : A) (ys : List A) → P x → All P ys → All P (insert_sorted x ys)
  unfolding insert_sorted
  All-insert_sorted P x [] p h = (p, tt)
  All-insert_sorted P x (y ∷ ys) p h = elim (Bool-cases (leq x y)) [
    | inl e ↦ rw e (p, h)
    | inr e ↦ rw e (h.0, All-insert_sorted P x ys p h.1)
  ]

  pub All-sort {κ} : (P : A → Type κ) (xs : List A) → All P xs → All P (sort xs)
  unfolding sort
  All-sort P [] h = tt
  All-sort P (x ∷ xs) h = All-insert_sorted P x (sort xs) h.0 (All-sort P xs h.1)

  module _ (refl_leq : (a : A) → leq a a ≡ true)
      (total : (a b : A) → leq a b ≡ false → leq b a ≡ true)
      (trans : (a b c : A) → leq a b ≡ true → leq b c ≡ true → leq a c ≡ true) where
    -- The head of the sorted list is an element of the list, before all of them.
    pub insert_sorted-head :
        (x y : A) (ys : List A)
        → (h : A) × (t : List A) × (insert_sorted x (y ∷ ys) ≡ h ∷ t)
          × ((h ≡ x) ⊎ (h ≡ y))
          × (leq h x ≡ true)
          × (leq h y ≡ true)
    unfolding insert_sorted
    insert_sorted-head x y ys = elim (Bool-cases (leq x y)) [
      | inl e ↦ (x, y ∷ ys, rw e, inl refl, refl_leq x, e)
      | inr e ↦ (y, insert_sorted x ys, rw e, inr refl, total x y e, refl_leq y)
    ]

    pub sort-head :
        (x : A) (xs : List A)
        → (h : A) × (t : List A) × (sort (x ∷ xs) ≡ h ∷ t)
          × Exists (λ y. h ≡ y) (x ∷ xs)
          × All (λ y. leq h y ≡ true) (x ∷ xs)
    unfolding sort
    sort-head x [] = (x, [], refl, inl refl, (refl_leq x, tt))
    sort-head x (y ∷ ys) =
        let (k, t, e, m, b) = sort-head y ys in
        let (h, u, f, from, bx, bk) = insert_sorted-head x k t in
        (
          h,
          u,
          rw e f,
          elim from [
            | inl p ↦ inl p
            | inr p ↦ inr (subst (λ u. Exists (λ z. u ≡ z) (y ∷ ys)) (sym p) m)
          ],
          (bx, All-map _ _ (λ z q. trans h k z bk q) (y ∷ ys) b),
        )
