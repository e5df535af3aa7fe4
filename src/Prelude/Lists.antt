-- ===== src/Prelude/Lists.antt =====
-- Lists measured by native numbers, with Boolean quantifiers that run, and predicates on them.
use Prim.Native.Nat.{ℕ, suc}
use mathlib.Core.Path.{◌≡◌, refl, subst}
use mathlib.Core.Bool.{Bool, true, false, not, ◌&&◌, ◌||◌}
use mathlib.Core.Logic.{◌⊎◌, inl, inr}
use mathlib.Core.Option.{Option, none, some}
use mathlib.Core.List.{List, [], ◌∷◌, ◌++◌}
use native.Mathlib.Omega.{arith}
use judah.Prelude.Tests.{if◌then◌else◌, ◌==◌, Bool-cases}

module _ {ℓ} {A : Type ℓ} where
  abbrev pub length : List A → ℕ
  length [] = 0
  length (x ∷ xs) = suc (length xs)

  -- Python's `any` and `all` over a generator.
  abbrev pub any : (A → Bool) → List A → Bool
  any p [] = false
  any p (x ∷ xs) = p x || any p xs

  abbrev pub all : (A → Bool) → List A → Bool
  all p [] = true
  all p (x ∷ xs) = p x && all p xs

  -- `[x for x in xs if p(x)]`
  abbrev pub select : (A → Bool) → List A → List A
  select p [] = []
  select p (x ∷ xs) = let rest = select p xs in if p x then x ∷ rest else rest

  -- `next((x for x in xs if p(x)), None)`, and `.filter(...).first()`
  abbrev pub find : (A → Bool) → List A → Option A
  find p [] = none
  find p (x ∷ xs) = if p x then some x else find p xs

  abbrev pub is_empty : List A → Bool
  is_empty [] = true
  is_empty (x ∷ xs) = false

  pub any-select : (p q : A → Bool) (xs : List A) → any p (select q xs) ≡ any (λ x. q x && p x) xs
  any-select p q [] = refl
  any-select p q (x ∷ xs) = ground (arith, any-select p q xs)

  pub any-append : (p : A → Bool) (xs ys : List A) → any p (xs ++ ys) ≡ any p xs || any p ys
  any-append p [] ys = refl
  any-append p (x ∷ xs) ys = ground (arith, any-append p xs ys)

-- `x in xs`, for identifiers.
abbrev pub contains : ℕ → List ℕ → Bool
contains a = any (λ x. a == x)

abbrev pub All {ℓ κ} : {A : Type ℓ} → (A → Type κ) → List A → Type κ
All P [] = Unit
All P (x ∷ xs) = P x × All P xs

-- The empty type at any level.
pub data Never {ℓ} : Type ℓ where

abbrev pub Exists {ℓ κ} : {A : Type ℓ} → (A → Type κ) → List A → Type κ
Exists P [] = Never
Exists P (x ∷ xs) = P x ⊎ Exists P xs

module _ {ℓ} {A : Type ℓ} where
  pub any-true : (p : A → Bool) (xs : List A) → any p xs ≡ true → Exists (λ x. p x ≡ true) xs
  any-true p [] e = absurd (ground arith)
  any-true p (x ∷ xs) e = elim (Bool-cases (p x)) [
    | inl t ↦ inl t
    | inr f ↦ inr (any-true p xs (ground arith))
  ]

  pub any-false : (p : A → Bool) (xs : List A) → any p xs ≡ false → All (λ x. p x ≡ false) xs
  any-false p [] e = tt
  any-false p (x ∷ xs) e = (ground arith, any-false p xs (ground arith))

  pub All-map {κ μ} :
      (P : A → Type κ) (Q : A → Type μ)
      → ((x : A) → P x → Q x)
      → (xs : List A) → All P xs
      → All Q xs
  All-map P Q f [] h = tt
  All-map P Q f (x ∷ xs) h = (f x h.0, All-map P Q f xs h.1)

  pub All-zip {κ μ} :
      (P : A → Type κ) (Q : A → Type μ) (xs : List A)
      → All P xs
      → All Q xs
      → All (λ x. P x × Q x) xs
  All-zip P Q [] h k = tt
  All-zip P Q (x ∷ xs) h k = ((h.0, k.0), All-zip P Q xs h.1 k.1)

  pub Exists-map {κ μ} :
      (P : A → Type κ) (Q : A → Type μ)
      → ((x : A) → P x → Q x)
      → (xs : List A) → Exists P xs
      → Exists Q xs
  Exists-map P Q f [] h = elim h [ ]
  Exists-map P Q f (x ∷ xs) (inl h) = inl (f x h)
  Exists-map P Q f (x ∷ xs) (inr h) = inr (Exists-map P Q f xs h)

  pub is_empty-select : (p : A → Bool) (xs : List A) → is_empty (select p xs) ≡ not (any p xs)
  is_empty-select p [] = refl
  is_empty-select p (x ∷ xs) = ground (arith, is_empty-select p xs)

module _ {ℓ} {A : Type ℓ} (p : A → Bool) where
  -- A member of a selection is a member that passes.
  pub Exists-select :
      (xs : List A) (a : A)
      → Exists (λ b. a ≡ b) (select p xs)
      → Exists (λ b. a ≡ b) xs × (p a ≡ true)
  Exists-select [] a h = elim h [ ]
  Exists-select (x ∷ xs) a h = elim (Bool-cases (p x)) [
    | inl t ↦
        let h' : (a ≡ x) ⊎ Exists (λ b. a ≡ b) (select p xs) = rw t at h in
        elim h' [
          | inl e ↦ (inl e, rw e t)
          | inr r ↦ (inr (Exists-select xs a r).0, (Exists-select xs a r).1)
        ]
    | inr f ↦
        let h' : Exists (λ b. a ≡ b) (select p xs) = rw f at h in
        (inr (Exists-select xs a h').0, (Exists-select xs a h').1)
  ]

  -- What holds of a selection holds of the members that pass.
  pub All-select {κ} :
      (P : A → Type κ) (xs : List A) → All P (select p xs) → All (λ b. p b ≡ true → P b) xs
  All-select P [] h = tt
  All-select P (x ∷ xs) h = elim (Bool-cases (p x)) [
    | inl t ↦ let h' : P x × All P (select p xs) = rw t at h in (λ _. h'.0, All-select P xs h'.1)
    | inr f ↦
        let h' : All P (select p xs) = rw f at h in (λ t. absurd (ground arith), All-select P xs h')
  ]

-- The members of a selection pass.
pub All-of_select {ℓ κ} :
    {A : Type ℓ} (P : A → Type κ) (p : A → Bool) (xs : List A)
    → ((x : A) → p x ≡ true → P x)
    → All P (select p xs)
All-of_select P p [] h = tt
All-of_select P p (x ∷ xs) h = elim (Bool-cases (p x)) [
  | inl t ↦ rw t (h x t, All-of_select P p xs h)
  | inr f ↦ rw f (All-of_select P p xs h)
]

pub All-Exists {ℓ κ μ} :
    {A : Type ℓ} (P : A → Type κ) (Q : A → Type μ) (xs : List A)
    → All P xs
    → Exists Q xs
    → (x : A) × P x × Q x
All-Exists P Q [] h e = elim e [ ]
All-Exists P Q (x ∷ xs) h (inl q) = (x, h.0, q)
All-Exists P Q (x ∷ xs) h (inr e) = All-Exists P Q xs h.1 e

-- The member that is found passes, and what holds of all members holds of it.
pub All-find {ℓ κ} :
    {A : Type ℓ} (P : A → Type κ) (p : A → Bool) (xs : List A) (a : A)
    → All P xs
    → find p xs ≡ some a
    → P a × (p a ≡ true)
All-find P p [] a h e = absurd (ground (arith, e))
All-find P p (x ∷ xs) a h e = elim (Bool-cases (p x)) [
  | inl t ↦ let same : x ≡ a = ground (arith, e, t) in subst (λ b. P b × (p b ≡ true)) same (h.0, t)
  | inr f ↦ All-find P p xs a h.1 (ground (arith, e, f))
]

pub All-append {ℓ κ} :
    {A : Type ℓ} (P : A → Type κ) (xs ys : List A) → All P xs → All P ys → All P (xs ++ ys)
All-append P [] ys h k = k
All-append P (x ∷ xs) ys h k = (h.0, All-append P xs ys h.1 k)
