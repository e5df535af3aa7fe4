-- ===== src/Calendar/Precedence.antt =====
-- Which rule decides a day, and what an open instant means.
use judah.Prelude.{
  ◌≡◌, refl, ap, ◌∙◌, Bool, true, false, Option, none, some, List, [], ◌∷◌, arith, All, Exists,
  All-map, All-select, Exists-select, select, is_some, maybe,
}
use judah.Prelude.Sorting.{sort, sort-head}
use judah.Calendar.{Date, Rule, Legacy, Resolution}
use judah.Calendar.Rules.{rule_matches, legacy_resolution}
use judah.Calendar.Resolve.{
  matching_rules, is_absence, precedes, first_rule, or_else_rules, chosen_rule, of_rule, of_legacy,
  of_choice, resolve_day,
}

precedes_refl : (a : Rule) → precedes a a ≡ true
unfolding precedes
precedes_refl a = ground arith

precedes_total : (a b : Rule) → precedes a b ≡ false → precedes b a ≡ true
unfolding precedes
precedes_total a b h = ground arith

precedes_trans : (a b c : Rule) → precedes a b ≡ true → precedes b c ≡ true → precedes a c ≡ true
unfolding precedes
precedes_trans a b c h k = ground arith

abbrev pub matches : Date → Rule → Bool
matches day r = maybe false (λ b. b) (rule_matches r day)

-- The rule is one of the list, an absence if there is one, and comes before all others of its kind by
-- the higher priority, then by the identifier.
pub record IsPreferred (rules : List Rule) (r : Rule) : Type 0 where
  pub member : Exists (λ b. r ≡ b) rules
  pub absences_first : All (λ b. is_absence b ≡ true → is_absence r ≡ true) rules
  pub foremost : All (λ b. is_absence b ≡ is_absence r → precedes r b ≡ true) rules

abbrev pub IsResolved : Legacy → Date → List Rule → Option Resolution → Type 0
IsResolved legacy day [] result =
    result ≡ maybe none (λ r. some (of_legacy day r)) (legacy_resolution legacy day)
IsResolved legacy day (r ∷ rs) result =
    (rule : Rule) × IsPreferred (r ∷ rs) rule × (result ≡ some (of_rule rule day))

matching_rules-select :
    (day : Date) (rules : List Rule)
    → All (λ r. is_some (rule_matches r day) ≡ true) rules
    → matching_rules day rules ≡ some (select (matches day) rules)
unfolding matching_rules
matching_rules-select day [] h = refl
matching_rules-select day (r ∷ rs) h = ground (arith, h.0, matching_rules-select day rs h.1)

-- The choice, by the absences of the pool
or_else_rules-IsPreferred :
    (p : Rule) (ps absences : List Rule)
    → select is_absence (p ∷ ps) ≡ absences
    → (rule : Rule) × (first_rule (sort precedes (or_else_rules absences (p ∷ ps))) ≡ some rule)
      × IsPreferred (p ∷ ps) rule
or_else_rules-IsPreferred p ps [] e =
    let (h, t, q, m, b) = sort-head precedes precedes_refl precedes_total precedes_trans p ps in
    (
      h,
      ap first_rule q,
      record {
        member = m;
        absences_first = All-select is_absence (λ c. is_absence h ≡ true) (p ∷ ps) (rw e tt);
        foremost = All-map _ _ (λ c k. λ s. k) (p ∷ ps) b;
      },
    )
or_else_rules-IsPreferred p ps (a ∷ as') e =
    let (h, t, q, m, b) = sort-head precedes precedes_refl precedes_total precedes_trans a as' in
    let (from, absent) = Exists-select is_absence (p ∷ ps) h (rw e m) in
    let before = All-select is_absence (λ c. precedes h c ≡ true) (p ∷ ps) (rw e b) in
    (
      h,
      ap first_rule q,
      record {
        member = from;
        absences_first = All-map _ _ (λ c k. λ s. absent) (p ∷ ps) before;
        foremost = All-map _ _ (λ c k. λ s. k (s ∙ absent)) (p ∷ ps) before;
      },
    )

of_choice-IsResolved :
    (legacy : Legacy) (day : Date) (pool : List Rule)
    → IsResolved legacy day pool (of_choice legacy day (chosen_rule pool))
unfolding chosen_rule sort
of_choice-IsResolved legacy day [] = refl
of_choice-IsResolved legacy day (p ∷ ps) =
    let (rule, e, q) = or_else_rules-IsPreferred p ps (select is_absence (p ∷ ps)) refl in
    (rule, q, ap (of_choice legacy day) e)

-- Where no rule raises, a day is decided by the rule that is preferred among those that match it: an
-- absence before a service, then the higher priority, then the smaller identifier. Where none matches,
-- the older tables decide, and the day is not resolved if these raise.
pub resolve_day-IsResolved :
    (legacy : Legacy) (rules : List Rule) (day : Date)
    → All (λ r. is_some (rule_matches r day) ≡ true) rules
    → IsResolved legacy day (select (matches day) rules) (resolve_day legacy rules day)
unfolding resolve_day
resolve_day-IsResolved legacy rules day h =
    rw (matching_rules-select day rules h)
      (of_choice-IsResolved legacy day (select (matches day) rules))
