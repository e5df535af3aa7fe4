-- ===== src/Prelude/Ascending.antt =====
-- Lists in ascending order, such as `sort` gives, and their last elements.
use mathlib.Core.Path.{◌≡◌, refl, subst}
use mathlib.Core.Logic.{inl, inr}
use mathlib.Core.Bool.{Bool, true, false}
use mathlib.Core.Option.{Option, none, some}
use mathlib.Core.List.{List, [], ◌∷◌}
use native.Mathlib.Omega.{arith}
use judah.Prelude.Tests.{if◌then◌else◌, Bool-cases}
use judah.Prelude.Lists.{All, All-map, select}
use judah.Prelude.Sorting.{sort, insert_sorted, All-insert_sorted}

-- `xs[-1]`
abbrev pub last {ℓ} : {A : Type ℓ} → List A → Option A
last [] = none
last (x ∷ []) = some x
last (x ∷ y ∷ ys) = last (y ∷ ys)

module _ {ℓ} {A : Type ℓ} where
  pub All-last {κ} : (P : A → Type κ) (xs : List A) (t : A) → All P xs → last xs ≡ some t → P t
  All-last P [] t h e = absurd (ground arith)
  All-last P (x ∷ []) t h e = let same : x ≡ t = ground (arith, e) in subst P same h.0
  All-last P (x ∷ y ∷ ys) t h e = All-last P (y ∷ ys) t h.1 e

  pub All-select {κ} :
      (P : A → Type κ) (p : A → Bool) (xs : List A)
      → All P xs
      → All (λ x. P x × (p x ≡ true)) (select p xs)
  All-select P p [] h = tt
  All-select P p (x ∷ xs) h = elim (Bool-cases (p x)) [
    | inl t ↦ rw t ((h.0, t), All-select P p xs h.1)
    | inr f ↦ rw f (All-select P p xs h.1)
  ]

  -- What holds of the elements selected holds of all elements that are selected.
  pub All-selected {κ} :
      (P : A → Type κ) (p : A → Bool) (xs : List A)
      → All P (select p xs)
      → All (λ x. p x ≡ true → P x) xs
  All-selected P p [] h = tt
  All-selected P p (x ∷ xs) h = go (λ k. All-selected P p xs k) (p x) refl h
    where
      go :
          (All P (select p xs) → All (λ x. p x ≡ true → P x) xs)
          → (b : Bool) → p x ≡ b
          → All P (if b then x ∷ select p xs else select p xs)
          → All (λ x. p x ≡ true → P x) (x ∷ xs)
      go rest true e h = ((λ t. h.0), rest h.1)
      go rest false e h = ((λ t. absurd (ground (arith, e, t))), rest h)

  module _ (leq : A → A → Bool) where
    abbrev pub Ascending : List A → Type 0
    Ascending [] = Unit
    Ascending (x ∷ xs) = All (λ y. leq x y ≡ true) xs × Ascending xs

    insert_sorted-back {κ} :
        (P : A → Type κ) (x : A) (ys : List A) → All P (insert_sorted leq x ys) → P x × All P ys
    unfolding insert_sorted
    insert_sorted-back P x [] h = h
    insert_sorted-back P x (y ∷ ys) h = go (λ k. insert_sorted-back P x ys k) (leq x y) h
      where
        go :
            (All P (insert_sorted leq x ys) → P x × All P ys)
            → (b : Bool) → All P (if b then x ∷ y ∷ ys else y ∷ insert_sorted leq x ys)
            → P x × All P (y ∷ ys)
        go back true h = h
        go back false h = let (px, rest) = back h.1 in (px, (h.0, rest))

    pub sort-back {κ} : (P : A → Type κ) (xs : List A) → All P (sort leq xs) → All P xs
    unfolding sort
    sort-back P [] h = tt
    sort-back P (x ∷ xs) h =
        let (px, rest) = insert_sorted-back P x (sort leq xs) h in (px, sort-back P xs rest)

    pub select-Ascending : (p : A → Bool) (xs : List A) → Ascending xs → Ascending (select p xs)
    select-Ascending p [] h = tt
    select-Ascending p (x ∷ xs) h = elim (Bool-cases (p x)) [
      | inl t ↦ rw t (
        All-map _ _ (λ y q. q.0) (select p xs) (All-select _ p xs h.0),
        select-Ascending p xs h.1,
      )
      | inr f ↦ rw f (select-Ascending p xs h.1)
    ]

    module _ (refl_leq : (a : A) → leq a a ≡ true)
        (total : (a b : A) → leq a b ≡ false → leq b a ≡ true)
        (trans : (a b c : A) → leq a b ≡ true → leq b c ≡ true → leq a c ≡ true) where
      insert_sorted-Ascending :
          (x : A) (ys : List A) → Ascending ys → Ascending (insert_sorted leq x ys)
      unfolding insert_sorted
      insert_sorted-Ascending x [] h = (tt, tt)
      insert_sorted-Ascending x (y ∷ ys) h = elim (Bool-cases (leq x y)) [
        | inl t ↦ rw t ((t, All-map _ _ (λ z q. trans x y z t q) ys h.0), h)
        | inr f ↦
            rw f (All-insert_sorted leq _ x ys (total x y f) h.0, insert_sorted-Ascending x ys h.1)
      ]

      pub sort-Ascending : (xs : List A) → Ascending (sort leq xs)
      unfolding sort
      sort-Ascending [] = tt
      sort-Ascending (x ∷ xs) = insert_sorted-Ascending x (sort leq xs) (sort-Ascending xs)

      pub last-Ascending :
          (xs : List A) (t : A) → Ascending xs → last xs ≡ some t → All (λ y. leq y t ≡ true) xs
      last-Ascending [] t h e = tt
      last-Ascending (x ∷ []) t h e =
          let same : x ≡ t = ground (arith, e) in
          (subst (λ (z : A). leq x z ≡ true) same (refl_leq x), tt)
      last-Ascending (x ∷ y ∷ ys) t h e =
          (All-last (λ z. leq x z ≡ true) (y ∷ ys) t h.0 e, last-Ascending (y ∷ ys) t h.1 e)
