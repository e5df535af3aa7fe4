-- ===== src/Prelude/Strings.antt =====
-- Python text as the list of its code points: equality, `strip` and the `int` of a text.
use Prim.Native.Nat.{ℕ, zero, suc, ◌+◌, ◌-◌, ◌*◌}
use Prim.Native.Char.{code}
use Prim.Native.String.{String}
use mathlib.Core.Path.{◌≡◌, refl}
use mathlib.Core.Logic.{◌↔◌}
use mathlib.Core.Bool.{Bool, true, false, ◌&&◌, ◌||◌}
use mathlib.Core.Option.{Option, none, some}
use mathlib.Core.List.{List, [], ◌∷◌}
use native.Mathlib.Omega.{arith}
use judah.Prelude.Tests.{if◌then◌else◌, ◌==◌, leb}
use judah.Prelude.Lists.{any, is_empty}

abbrev pub Text : Type 0
Text = List ℕ

-- A literal of the source.
abbrev pub codes : String → Text
codes String.[] = []
codes (String.◌∷◌ c s) = code c ∷ codes s

abbrev pub text_eq : Text → Text → Bool
text_eq [] [] = true
text_eq (a ∷ s) (b ∷ t) = a == b && text_eq s t
text_eq s t = false

-- `negsuc n` is -(n + 1).
pub data ℤ : Type 0 where
  pos : ℕ → ℤ
  negsuc : ℕ → ℤ

-- `str.isspace` of one code point.
abbrev spaces : List ℕ
spaces =
    32 ∷ 9 ∷ 10 ∷ 11 ∷ 12 ∷ 13 ∷ 28 ∷ 29 ∷ 30 ∷ 31 ∷ 133 ∷ 160 ∷ 5760 ∷ 8232 ∷ 8233 ∷ 8239 ∷ 8287
    ∷ 12288 ∷ []

unfoldable pub is_space : ℕ → Bool
is_space c = any (λ s. c == s) spaces || (leb 8192 c && leb c 8202)

unfoldable pub strip_left : Text → Text
unfolding is_space
strip_left [] = []
strip_left (c ∷ s) = let rest = strip_left s in if is_space c then rest else c ∷ s

unfoldable pub strip_right : Text → Text
unfolding is_space
strip_right [] = []
strip_right (c ∷ s) =
    let rest = strip_right s in if is_space c && is_empty rest then [] else c ∷ rest

unfoldable pub strip : Text → Text
unfolding strip_left strip_right
strip s = strip_right (strip_left s)

-- The digits of `int`, with single underscores between them; `ready` says that a digit came last.
unfoldable pub digits_of : Bool → ℕ → Text → Option ℕ
digits_of ready acc [] = if ready then some acc else none
digits_of ready acc (c ∷ s) =
    let more = digits_of true (acc * 10 + (c - b'0')) s in
    let gap = digits_of false acc s in
    if leb b'0' c && leb c b'9' then more else if ready && c == b'_' then gap else none

abbrev negate : ℕ → ℤ
negate zero = pos 0
negate (suc n) = negsuc n

-- `int(s)` of a stripped text over the ASCII digits; `none` is the `ValueError`.
unfoldable pub int_of : Text → Option ℤ
unfolding digits_of
int_of [] = none
int_of (c ∷ s) =
    if c == b'-'
    then elim (digits_of false 0 s) [ none ↦ none | some n ↦ some (negate n) ]
    else elim (digits_of false 0 (if c == b'+' then s else c ∷ s)) [
      | none ↦ none
      | some n ↦ some (pos n)
    ]

pub text_eq_iff : (s t : Text) → (text_eq s t ≡ true) ↔ (s ≡ t)
text_eq_iff [] [] = ground arith
text_eq_iff [] (b ∷ t) = ground arith
text_eq_iff (a ∷ s) [] = ground arith
text_eq_iff (a ∷ s) (b ∷ t) = ground (arith, text_eq_iff s t)

pub text_eq_refl : (s : Text) → text_eq s s ≡ true
text_eq_refl s = (text_eq_iff s s).1 refl
