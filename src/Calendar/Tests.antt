-- ===== src/Calendar/Tests.antt =====
-- Days and instants of a small calendar, and the theorems there.
use judah.Prelude.{
  if◌then◌else◌, arith, Option, Bool, false, ltb, ◌*◌, ◌≡◌, refl, true, none, some, [], ◌∷◌, select,
  find_by, codes,
}
use judah.Prelude.Sorting.{sort, insert_sorted}
use judah.Calendar.{
  Date, weekday, to_ordinal, days_before_month, next_day, service, absence, weekly, Rule, Legacy,
}
use judah.Calendar.Rules.{date_of, rule_matches, all_or_none, intervals_for, legacy_resolution}
use judah.Calendar.Resolve.{
  matching_rules, precedes, chosen_rule, of_rule, resolve_day, Zone, Now, Reader, covering,
  active_interval, located, Current, at_time, current_resolution,
}
use judah.Calendar.Precedence.{matches, IsResolved, resolve_day-IsResolved}
use judah.Calendar.Windows.{IsReader, IsAnswer, current_resolution-IsAnswer}
use judah.Calendar.Edit.{RuleRequest, Tables, deactivate_rule}
use judah.Calendar.Versions.{IsRefused, edit, saves, deactivates, edit-excludes}

abbrev thursday : Date
thursday = date_of 2026 11 26

-- Thursdays from 9:00 to 17:00
abbrev service_rule : Rule
service_rule = record {
  id = 1;
  name = codes "desk";
  rule_type = service;
  recurrence = weekly;
  starts_on = date_of 2026 1 1;
  ends_on = none;
  weekdays = some 3 ∷ [];
  week_of_month = none;
  dates = [];
  priority = 50;
  is_active = true;
  version = 4;
  intervals =
      record { weekday = none; date = none; start = 32_400_000_000; finish = 61_200_000_000 } ∷ [];
  message = none;
}

abbrev absence_rule : Rule
absence_rule = record service_rule { id = 2; rule_type = absence; priority = 10; intervals = [] }

abbrev tables_before : Legacy
tables_before = record { specials = []; config = none }

is_thursday : weekday thursday ≡ 3
unfolding weekday to_ordinal days_before_month
is_thursday = refl

leap_day : next_day (date_of 2028 2 28) ≡ date_of 2028 2 29
unfolding next_day
leap_day = refl

-- The absence decides, though the service has the higher priority.
absence_decides :
    resolve_day tables_before (service_rule ∷ absence_rule ∷ []) thursday
    ≡ some (of_rule absence_rule thursday)
unfolding resolve_day matching_rules rule_matches all_or_none weekday to_ordinal days_before_month
    chosen_rule sort insert_sorted precedes
absence_decides = refl

resolve_day-IsResolved_example :
    IsResolved tables_before thursday
      (select (matches thursday) (service_rule ∷ absence_rule ∷ []))
      (resolve_day tables_before (service_rule ∷ absence_rule ∷ []) thursday)
unfolding rule_matches all_or_none weekday to_ordinal days_before_month
resolve_day-IsResolved_example =
    resolve_day-IsResolved tables_before (service_rule ∷ absence_rule ∷ []) thursday
      (refl, (refl, tt))

-- A zone at the hour of UTC, on one day: instants count from its midnight.
abbrev one_day : Zone
one_day = record { to_local = λ n. (thursday, n); to_instant = λ day minute. minute * 60_000_000 }

abbrev ten_o_clock : Now
ten_o_clock = record { instant = 36_000_000_000; date = thursday }

-- A time of day reads as itself, and 24:00 not at all.
abbrev read_time : Reader
read_time m = if ltb m 1440 then some m else none

read_time-IsReader : IsReader read_time
read_time-IsReader m h = ground (arith, h)

current_resolution-IsAnswer_example :
    IsAnswer tables_before (service_rule ∷ []) thursday ten_o_clock (
      current_resolution read_time one_day
        (some one_day)
        tables_before
        (service_rule ∷ [])
        ten_o_clock)
current_resolution-IsAnswer_example =
    current_resolution-IsAnswer read_time read_time-IsReader one_day ten_o_clock
      (λ minute. (λ h. h, λ h. h)) tables_before (service_rule ∷ []) one_day

abbrev is_open : Option Current → Option Bool
is_open none = none
is_open (some c) = some c.is_open_now

open_at_ten :
    is_open (
      current_resolution read_time one_day
        (some one_day)
        tables_before
        (service_rule ∷ [])
        ten_o_clock)
    ≡ some true
unfolding current_resolution resolve_day matching_rules rule_matches all_or_none weekday to_ordinal
    days_before_month chosen_rule sort insert_sorted precedes of_rule intervals_for at_time covering
    active_interval located
open_at_ten = refl

-- A special day from 9 to 24, which the schema allows, raises as soon as it has begun.
abbrev special_day : Legacy
special_day = record tables_before {
  specials =
      record {
        date = thursday;
        is_closed = false;
        reason = [];
        start_hour = some 9;
        end_hour = some 24;
      }
      ∷ [];
}

special_day_raises :
    current_resolution read_time one_day (some one_day) special_day [] ten_o_clock ≡ none
unfolding current_resolution resolve_day matching_rules rule_matches chosen_rule sort
    legacy_resolution at_time covering active_interval
special_day_raises = refl

abbrev request : RuleRequest
request = record {
  name = codes "desk";
  rule_type = service;
  recurrence = weekly;
  starts_on = date_of 2026 1 1;
  ends_on = none;
  weekdays = 3 ∷ [];
  week_of_month = none;
  dates = [];
  priority = 60;
  intervals = service_rule.intervals;
  message = none;
}

abbrev published_once : Tables
published_once = record { schedule = some 7; rules = service_rule ∷ [] }

abbrev withdrawn : Tables
withdrawn = (edit deactivates 1 4 published_once).1

edit-excludes_example : IsRefused withdrawn (edit (saves 9 request) 1 4 withdrawn)
unfolding deactivate_rule find_by
edit-excludes_example = edit-excludes deactivates (saves 9 request) 1 4 published_once none refl
