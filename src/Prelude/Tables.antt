-- ===== src/Prelude/Tables.antt =====
-- Tables of rows with a primary key: reading a row, and writing one in place.
use Prim.Native.Nat.{ℕ, ◌+◌, ◌≤◌, ◌<◌}
use mathlib.Core.Path.{◌≡◌, refl}
use mathlib.Core.Bool.{Bool, true, false}
use mathlib.Core.Option.{Option, none, some}
use mathlib.Core.List.{List, [], ◌∷◌, ◌++◌, map}
use mathlib.Core.Logic.{inl, inr}
use native.Mathlib.Omega.{arith}
use judah.Prelude.Tests.{if◌then◌else◌, ◌==◌, Bool-cases}
use judah.Prelude.Lists.{All, find}

module _ {ℓ} {A : Type ℓ} (key : A → ℕ) where
  unfoldable pub find_by : ℕ → List A → Option A
  find_by id [] = none
  find_by id (x ∷ xs) = if key x == id then some x else find_by id xs

  unfoldable pub modify : ℕ → (A → A) → List A → List A
  modify id f [] = []
  modify id f (x ∷ xs) = if key x == id then f x ∷ xs else x ∷ modify id f xs

  unfoldable pub remove_by : ℕ → List A → List A
  remove_by id [] = []
  remove_by id (x ∷ xs) = if key x == id then xs else x ∷ remove_by id xs

  pub find_by-key : (id : ℕ) (xs : List A) (x : A) → find_by id xs ≡ some x → key x ≡ id
  unfolding find_by
  find_by-key id [] x h = absurd (ground arith)
  find_by-key id (y ∷ ys) x h = ground (arith, find_by-key id ys x)

abbrev pub map_some {ℓ} : {A : Type ℓ} → (A → A) → Option A → Option A
map_some f none = none
map_some f (some x) = some (f x)

abbrev pub one_if : Bool → ℕ
one_if true = 1
one_if false = 0

unfoldable pub count {ℓ} : {A : Type ℓ} → (A → Bool) → List A → ℕ
count p [] = 0
count p (x ∷ xs) = one_if (p x) + count p xs

module _ {ℓ} {A : Type ℓ} (key : A → ℕ) (f : A → A) where
  pub find_by-modify :
      ((x : A) → key (f x) ≡ key x)
      → (id other : ℕ) (xs : List A)
      → find_by key id (modify key other f xs)
        ≡ (if other == id then map_some f (find_by key id xs) else find_by key id xs)
  unfolding find_by modify
  find_by-modify keeps id other [] = ground arith
  find_by-modify keeps id other (x ∷ xs) = ground (arith, keeps x, find_by-modify keeps id other xs)

  -- A row that is written is counted as it is then, instead of as it was.
  pub count-modify :
      (p : A → Bool) (id : ℕ) (xs : List A) (x : A)
      → find_by key id xs ≡ some x
      → count p (modify key id f xs) + one_if (p x) ≡ count p xs + one_if (p (f x))
  unfolding find_by modify count
  count-modify p id [] x h = absurd (ground arith)
  count-modify p id (y ∷ ys) x h = ground (arith, count-modify p id ys x)

module _ {ℓ} {A : Type ℓ} (f : A → A) where
  pub find_by-map :
      (key : A → ℕ)
      → ((x : A) → key (f x) ≡ key x)
      → (id : ℕ) (xs : List A) → find_by key id (map f xs) ≡ map_some f (find_by key id xs)
  unfolding find_by
  find_by-map key keeps id [] = refl
  find_by-map key keeps id (x ∷ xs) = ground (arith, keeps x, find_by-map key keeps id xs)

  pub count-map :
      (p : A → Bool) → ((x : A) → p (f x) ≡ p x) → (xs : List A) → count p (map f xs) ≡ count p xs
  unfolding count
  count-map p keeps [] = refl
  count-map p keeps (x ∷ xs) = ground (arith, keeps x, count-map p keeps xs)

  pub All-modify {κ} :
      (P : A → Type κ) (key : A → ℕ) (id : ℕ)
      → ((x : A) → P x → P (f x))
      → (xs : List A) → All P xs
      → All P (modify key id f xs)
  unfolding modify
  All-modify P key id step [] h = tt
  All-modify P key id step (x ∷ xs) h = elim (Bool-cases (key x == id)) [
    | inl t ↦ rw t (step x h.0, h.1)
    | inr e ↦ rw e (h.0, All-modify P key id step xs h.1)
  ]

  pub All-map_same {κ} :
      (P : A → Type κ) → ((x : A) → P x → P (f x)) → (xs : List A) → All P xs → All P (map f xs)
  All-map_same P step [] h = tt
  All-map_same P step (x ∷ xs) h = (step x h.0, All-map_same P step xs h.1)

-- What is done with a row that may be missing
abbrev pub maybe {ℓ κ} : {A : Type ℓ} {B : Type κ} → B → (A → B) → Option A → B
maybe d f none = d
maybe d f (some x) = f x

pub maybe_elim {ℓ κ μ} :
    {A : Type ℓ} {B : Type κ} (P : B → Type μ) (d : B) (f : A → B) (o : Option A)
    → P d
    → ((x : A) → o ≡ some x → P (f x))
    → P (maybe d f o)
maybe_elim P d f none p q = p
maybe_elim P d f (some x) p q = q x refl

-- A property of both branches
pub if_elim {ℓ κ} :
    {A : Type ℓ} (P : A → Type κ) (b : Bool) (x y : A)
    → (b ≡ true → P x)
    → (b ≡ false → P y)
    → P (if b then x else y)
if_elim P true x y p q = p refl
if_elim P false x y p q = q refl

module _ {ℓ} {A : Type ℓ} (p : A → Bool) where
  pub find-append : (xs ys : List A) (x : A) → find p xs ≡ some x → find p (xs ++ ys) ≡ some x
  find-append [] ys x h = absurd (ground arith)
  find-append (y ∷ xs) ys x h = ground (arith, h, find-append xs ys x)

  pub count-append : (xs ys : List A) → count p (xs ++ ys) ≡ count p xs + count p ys
  unfolding count
  count-append [] ys = ground arith
  count-append (x ∷ xs) ys = ground (arith, count-append xs ys)

  pub find-count : (xs : List A) → find p xs ≡ none → count p xs ≡ 0
  unfolding count
  find-count [] h = refl
  find-count (x ∷ xs) h = ground (arith, h, find-count xs)

  -- A row that is found has its own key, which finds it again where keys are unique.
  pub find-find_by :
      (key : A → ℕ) (xs : List A) (x : A)
      → find p xs ≡ some x
      → (count (λ y. key y == key x) xs ≤ 1)
      → (find_by key (key x) xs ≡ some x) × (0 < count (λ y. key y == key x) xs)
  unfolding find_by count
  find-find_by key [] x h u = absurd (ground arith)
  find-find_by key (y ∷ xs) x h u = elim (Bool-cases (p y)) [
    | inl t ↦ ground (arith, h, t)
    | inr f ↦ ground (arith, h, f, u, find-find_by key xs x)
  ]

-- A row that is put in the place of one with its key is found there.
pub find_by-put {ℓ} :
    {A : Type ℓ} (key : A → ℕ) (x : A) (xs : List A) (y : A)
    → find_by key (key x) xs ≡ some y
    → find_by key (key x) (modify key (key x) (λ z. x) xs) ≡ some x
unfolding find_by modify
find_by-put key x [] y h = absurd (ground arith)
find_by-put key x (z ∷ xs) y h = ground (arith, h, find_by-put key x xs y)
