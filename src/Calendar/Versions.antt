-- ===== src/Calendar/Versions.antt =====
-- The optimistic versions of the rules.
use judah.Prelude.{
  ℕ, ◌+◌, ◌≡◌, refl, true, false, Option, none, some, all, arith, Result, find_by, modify,
  find_by-modify, find_by-key, ok, err, if_elim, maybe_elim,
}
use judah.Calendar.{Rule}
use judah.Calendar.Edit.{
  RuleRequest, Tables, EditError, conflict, deactivated, deactivate_in, Edited, rule_of,
  is_other_version, filled, is_clean, is_increasing, changed, update_rule, save_rule,
  deactivate_rule,
}

-- The rule was there in the version that was expected, and is there in the next one.
pub record IsAdvanced (id v : ℕ) (before after : Tables) : Type 0 where
  pub rule : Rule
  pub found : rule_of id after ≡ some rule
  pub next : rule.version ≡ v + 1

-- An edit of the rule with an expected version that is not its own
pub record IsRefused {A : Type 0} (t : Tables) (e : Edited A) : Type 0 where
  pub answer : e.0 ≡ err conflict
  pub unchanged : e.1 ≡ t

filled-id : (q : RuleRequest) (r : Rule) → (filled q r).id ≡ r.id
unfolding filled
filled-id q r = refl

filled-version : (q : RuleRequest) (r : Rule) → (filled q r).version ≡ r.version
unfolding filled
filled-version q r = refl

rule_of-modify :
    (f : Rule → Rule) (id : ℕ) (t : Tables) (r : Rule)
    → ((x : Rule) → (f x).id ≡ x.id)
    → rule_of id t ≡ some r
    → find_by (λ r. r.id) id (modify (λ r. r.id) r.id f t.rules) ≡ some (f r)
rule_of-modify f id t r keeps e = ground (
  arith,
  find_by-key (λ r. r.id) id t.rules r e,
  find_by-modify (λ r. r.id) f keeps id r.id t.rules,
)

refused_version :
    (id v : ℕ) (s t : Tables) (a : IsAdvanced id v s t) → is_other_version (some v) a.rule ≡ true
refused_version id v s t a = ground (arith, a.next)

save_rule-IsRefused :
    (fresh : ℕ) (q : RuleRequest) (id v : ℕ) (s t : Tables)
    → IsAdvanced id v s t
    → IsRefused t (save_rule fresh q (some id) (some v) t)
unfolding save_rule
save_rule-IsRefused fresh q id v s t a =
    rw a.found (rw (refused_version id v s t a) (record { answer = refl; unchanged = refl }))

deactivate_rule-IsRefused :
    (id v : ℕ) (s t : Tables) → IsAdvanced id v s t → IsRefused t (deactivate_rule id (some v) t)
unfolding deactivate_rule
deactivate_rule-IsRefused id v s t a =
    rw a.found (rw (refused_version id v s t a) (record { answer = refl; unchanged = refl }))

-- A rule that is written over one of the expected version
modify-IsAdvanced :
    (f : Rule → Rule) (id v : ℕ) (t : Tables) (r : Rule) (schedule : Option ℕ)
    → ((x : Rule) → (f x).id ≡ x.id)
    → (f r).version ≡ r.version + 1
    → rule_of id t ≡ some r
    → is_other_version (some v) r ≡ false
    → IsAdvanced id v t
        (record t { schedule = schedule; rules = modify (λ r. r.id) r.id f t.rules })
modify-IsAdvanced f id v t r schedule keeps n e o = record {
  rule = f r;
  found = rule_of-modify f id t r keeps e;
  next = ground (arith, n, o);
}

changed-id : (q : RuleRequest) (r : Rule) → (changed q r).id ≡ r.id
changed-id q r = filled-id q _

update_rule-IsAdvanced :
    (q : RuleRequest) (id v : ℕ) (t : Tables) (r : Rule)
    → rule_of id t ≡ some r
    → (answer : Rule) → (update_rule q (some v) r t).0 ≡ ok answer
    → IsAdvanced id v t (update_rule q (some v) r t).1
update_rule-IsAdvanced q id v t r e =
    let P : Edited Rule → Type 0 = λ x. (answer : Rule) → x.0 ≡ ok answer → IsAdvanced id v t x.1 in
    if_elim P (is_other_version (some v) r) _ _ (λ o answer h. absurd (ground (arith, h)))
      (λ o.
        if_elim P (is_clean (changed q r)) _ _
          (λ c.
            if_elim P (all is_increasing q.intervals) _ _
              (λ i answer h.
                modify-IsAdvanced (changed q) id v t r _ (changed-id q) (filled-version q _) e o)
              (λ i answer h. absurd (ground (arith, h))))
          (λ c answer h. absurd (ground (arith, h))))

save_rule-IsAdvanced :
    (fresh : ℕ) (q : RuleRequest) (id v : ℕ) (t : Tables) (answer : Rule)
    → (save_rule fresh q (some id) (some v) t).0 ≡ ok answer
    → IsAdvanced id v t (save_rule fresh q (some id) (some v) t).1
unfolding save_rule
save_rule-IsAdvanced fresh q id v t answer =
    maybe_elim (λ (x : Edited Rule). x.0 ≡ ok answer → IsAdvanced id v t x.1) _
      (λ r. update_rule q (some v) r t) (rule_of id t) (λ h. absurd (ground (arith, h)))
      (λ r e. update_rule-IsAdvanced q id v t r e answer)

deactivate_rule-IsAdvanced :
    (id v : ℕ) (t : Tables)
    → (deactivate_rule id (some v) t).0 ≡ ok tt
    → IsAdvanced id v t (deactivate_rule id (some v) t).1
unfolding deactivate_rule
deactivate_rule-IsAdvanced id v t =
    let P : Edited (Unit {0}) → Type 0 = λ x. x.0 ≡ ok tt → IsAdvanced id v t x.1 in
    maybe_elim P _ (λ r. deactivate_in (some v) r t) (rule_of id t)
      (λ h. absurd (ground (arith, h)))
      (λ r e.
        if_elim P (is_other_version (some v) r) _ _ (λ o h. absurd (ground (arith, h)))
          (λ o h. modify-IsAdvanced deactivated id v t r _ (λ x. refl) refl e o))

-- An edit of one rule: a save over it, with a fresh identifier for the case that there is none, or its
-- deactivation
pub data Edit : Type 0 where
  saves : ℕ → RuleRequest → Edit
  deactivates : Edit

abbrev saved_answer : Result EditError Rule → Result EditError (Option Rule)
saved_answer (ok r) = ok (some r)
saved_answer (err e) = err e

abbrev done_answer : Result EditError (Unit {0}) → Result EditError (Option Rule)
done_answer (ok u) = ok none
done_answer (err e) = err e

-- What an edit answers, and the tables after it
abbrev pub edit : Edit → ℕ → ℕ → Tables → Result EditError (Option Rule) × Tables
edit (saves fresh q) id v t =
    let (answer, u) = save_rule fresh q (some id) (some v) t in (saved_answer answer, u)
edit deactivates id v t = let (answer, u) = deactivate_rule id (some v) t in (done_answer answer, u)

edit-IsAdvanced :
    (first : Edit) (id v : ℕ) (t : Tables) (answer : Option Rule)
    → (edit first id v t).0 ≡ ok answer
    → IsAdvanced id v t (edit first id v t).1
edit-IsAdvanced (saves fresh q) id v t answer h =
    saved (save_rule fresh q (some id) (some v) t).0 refl h
  where
    saved :
        (a : Result EditError Rule)
        → (save_rule fresh q (some id) (some v) t).0 ≡ a
        → saved_answer a ≡ ok answer
        → IsAdvanced id v t (save_rule fresh q (some id) (some v) t).1
    saved (ok r) e h = save_rule-IsAdvanced fresh q id v t r e
    saved (err x) e h = absurd (ground (arith, h))
edit-IsAdvanced deactivates id v t answer h = done (deactivate_rule id (some v) t).0 refl h
  where
    done :
        (a : Result EditError (Unit {0}))
        → (deactivate_rule id (some v) t).0 ≡ a
        → done_answer a ≡ ok answer
        → IsAdvanced id v t (deactivate_rule id (some v) t).1
    done (ok u) e h = deactivate_rule-IsAdvanced id v t e
    done (err x) e h = absurd (ground (arith, h))

edit-IsRefused :
    (second : Edit) (id v : ℕ) (s t : Tables)
    → IsAdvanced id v s t
    → IsRefused t (edit second id v t)
edit-IsRefused (saves fresh q) id v s t a =
    let r = save_rule-IsRefused fresh q id v s t a in ground (arith, r.answer, r.unchanged)
edit-IsRefused deactivates id v s t a =
    let r = deactivate_rule-IsRefused id v s t a in ground (arith, r.answer, r.unchanged)

-- Of the edits of a rule that expect one version, only the first is made: after a save or a deactivation
-- that returns, every save and every deactivation that expects the version that the first expected is
-- refused as a conflict, and leaves the tables as they are.
pub edit-excludes :
    (first second : Edit) (id v : ℕ) (t : Tables) (answer : Option Rule)
    → (edit first id v t).0 ≡ ok answer
    → IsRefused (edit first id v t).1 (edit second id v (edit first id v t).1)
edit-excludes first second id v t answer h =
    edit-IsRefused second id v t (edit first id v t).1 (edit-IsAdvanced first id v t answer h)
