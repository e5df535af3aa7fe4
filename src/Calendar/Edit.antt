-- ===== src/Calendar/Edit.antt =====
-- The edits of the published rules, under an optimistic version.
use judah.Prelude.{
  ℕ, ◌+◌, Bool, true, false, ◌&&◌, not, Option, none, some, List, [], ◌∷◌, Text, ltb, leb, ◌==◌,
  all, if◌then◌else◌, is_empty, length, map, get_or, find_by, modify, maybe, Result, ok, err,
}
use judah.Calendar.{
  Date, date_before, RuleType, service, absence, Recurrence, ScheduleInterval, Rule,
}

-- `HelpdeskCalendarRuleRequest`, which other code has checked
pub record RuleRequest : Type 0 where
  pub name : Text
  pub rule_type : RuleType
  pub recurrence : Recurrence
  pub starts_on : Date
  pub ends_on : Option Date
  pub weekdays : List ℕ
  pub week_of_month : Option ℕ
  pub dates : List Date
  pub priority : ℕ
  pub intervals : List ScheduleInterval
  pub message : Option Text

-- The published schedule by its version, if there is one, and its rules
pub record Tables : Type 0 where
  pub schedule : Option ℕ
  pub rules : List Rule

pub data EditError : Type 0 where
  not_found conflict validation integrity : EditError

abbrev pub Edited : Type 0 → Type 0
Edited A = Result EditError A × Tables

abbrev pub rule_of : ℕ → Tables → Option Rule
rule_of id t = find_by (λ r. r.id) id t.rules

abbrev pub is_other_version : Option ℕ → Rule → Bool
is_other_version none r = false
is_other_version (some v) r = not (r.version == v)

abbrev pub ends_before : Option Date → Date → Bool
ends_before none d = false
ends_before (some e) d = date_before e d

abbrev pub is_week : Option ℕ → Bool
is_week none = true
is_week (some w) = leb 1 w && leb w 5

-- `full_clean`: a name of at most 160 characters, and the constraints of the table
unfoldable pub is_clean : Rule → Bool
is_clean r =
    not (is_empty r.name)
    && (leb (length r.name) 160
        && (not (ends_before r.ends_on r.starts_on) && is_week r.week_of_month))

abbrev pub message_of : RuleType → Option Text → Option Text
message_of absence m = some (get_or m [])
message_of service m = none

-- The fields of the request over a rule
unfoldable pub filled : RuleRequest → Rule → Rule
filled q r = record r {
  name = q.name;
  rule_type = q.rule_type;
  recurrence = q.recurrence;
  starts_on = q.starts_on;
  ends_on = q.ends_on;
  weekdays = map some q.weekdays;
  week_of_month = q.week_of_month;
  dates = map some q.dates;
  priority = q.priority;
  intervals =
      map (λ i. record { weekday = none; date = none; start = i.start; finish = i.finish })
        q.intervals;
  message = message_of q.rule_type q.message;
}

-- The table's constraint on an interval
abbrev pub is_increasing : ScheduleInterval → Bool
is_increasing i = ltb i.start i.finish

abbrev pub with_schedule : Tables → Tables
with_schedule t = record t { schedule = some (get_or t.schedule 1) }

-- `update(version=schedule.version + 1)`
abbrev pub published : Tables → Tables
published t = record t { schedule = some (get_or t.schedule 1 + 1) }

-- The checks and the writes behind the rule, for a rule filled in; a transaction that raises writes nothing.
abbrev pub checked : RuleRequest → Rule → Tables → Tables → Edited Rule
checked q r before after =
    if is_clean r
    then (if all is_increasing q.intervals
        then (ok r, published after)
        else (err integrity, before))
    else (err validation, before)

abbrev pub new_rule : ℕ → RuleRequest → Rule
new_rule fresh q = filled q (record {
  id = fresh;
  name = [];
  rule_type = service;
  recurrence = q.recurrence;
  starts_on = q.starts_on;
  ends_on = none;
  weekdays = [];
  week_of_month = none;
  dates = [];
  priority = 0;
  is_active = true;
  version = 1;
  intervals = [];
  message = none;
})

abbrev pub changed : RuleRequest → Rule → Rule
changed q r = filled q (record r { version = r.version + 1 })

abbrev pub update_rule : RuleRequest → Option ℕ → Rule → Tables → Edited Rule
update_rule q expected r t =
    if is_other_version expected r
    then (err conflict, t)
    else checked q (changed q r) t
        (record (with_schedule t) { rules = modify (λ r. r.id) r.id (changed q) t.rules })

abbrev pub create_rule : ℕ → RuleRequest → Tables → Edited Rule
create_rule fresh q t =
    checked q (new_rule fresh q) t (record (with_schedule t) { rules = new_rule fresh q ∷ t.rules })

-- `save_rule`; `fresh` is the identifier a new rule gets.
unfoldable pub save_rule : ℕ → RuleRequest → Option ℕ → Option ℕ → Tables → Edited Rule
save_rule fresh q none expected t = create_rule fresh q t
save_rule fresh q (some id) expected t =
    maybe (err not_found, t) (λ r. update_rule q expected r t) (rule_of id t)

abbrev pub deactivated : Rule → Rule
deactivated r = record r { is_active = false; version = r.version + 1 }

-- `F("version") + 1` on the schedule of the rule
abbrev pub advanced : Option ℕ → Option ℕ
advanced none = none
advanced (some v) = some (v + 1)

abbrev pub deactivate_in : Option ℕ → Rule → Tables → Edited (Unit {0})
deactivate_in expected r t = if is_other_version expected r then (err conflict, t) else (
  ok tt,
  record t { schedule = advanced t.schedule; rules = modify (λ r. r.id) r.id deactivated t.rules },
)

-- `deactivate_rule`
unfoldable pub deactivate_rule : ℕ → Option ℕ → Tables → Edited (Unit {0})
deactivate_rule id expected t =
    maybe (err not_found, t) (λ r. deactivate_in expected r t) (rule_of id t)
