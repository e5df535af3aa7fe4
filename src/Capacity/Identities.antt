-- ===== src/Capacity/Identities.antt =====
-- Counting identities once: what one more of them adds.
use judah.Prelude.{
  ℕ, ◌+◌, ◌≡◌, refl, sym, subst, not, ◌||◌, List, [], ◌∷◌, ◌++◌, contains, length, ◌==◌, arith, inl,
  inr, Bool-cases, one_if,
}
use judah.Capacity.{distinct}

pub contains_between :
    (x y : ℕ) (xs ys : List ℕ) → contains x (xs ++ (y ∷ ys)) ≡ (x == y || contains x (xs ++ ys))
contains_between x y [] ys = refl
contains_between x y (z ∷ xs) ys = ground (arith, contains_between x y xs ys)

-- One more identity counts unless it is there.
pub length-distinct_between :
    (y : ℕ) (xs ys : List ℕ)
    → length (distinct (xs ++ (y ∷ ys)))
      ≡ length (distinct (xs ++ ys)) + one_if (not (contains y (xs ++ ys)))
unfolding distinct
length-distinct_between y [] ys = ground arith
length-distinct_between y (x ∷ xs) ys = elim (Bool-cases (x == y)) [
  | inl t ↦
      let same : x ≡ y = ground (arith, t) in
      let equal : contains x (xs ++ ys) ≡ contains y (xs ++ ys) =
        subst (λ (z : ℕ). contains z (xs ++ ys) ≡ contains y (xs ++ ys)) (sym same) refl in
      ground (arith, t, equal, contains_between x y xs ys, length-distinct_between y xs ys)
  | inr f ↦ ground (arith, f, contains_between x y xs ys, length-distinct_between y xs ys)
]
