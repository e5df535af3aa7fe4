-- ===== src/Calendar/Rules.antt =====
-- Which rules match a day, what their intervals are, and what the older tables say.
use judah.Prelude.{
  ℕ, ◌+◌, ◌-◌, ◌*◌, ◌/◌, Bool, true, false, ◌&&◌, ◌||◌, not, Option, none, some, List, [], ◌∷◌,
  Text, ltb, leb, ◌==◌, if◌then◌else◌, codes, find, any, is_empty, select, map, contains, map_some,
  maybe,
}
use judah.Calendar.{
  Date, same_date, date_before, weekday, Recurrence, once, weekly, monthly, yearly,
  ScheduleInterval, Rule, SpecialSchedule, Hours, BusinessHoursConfig, Legacy, Interval, Reason,
  named, holiday, special_schedule_closed, legacy_business_hours_closed,
}

-- A comprehension over entries that may raise
unfoldable pub all_or_none {ℓ} : {A : Type ℓ} → List (Option A) → Option (List A)
all_or_none [] = some []
all_or_none (none ∷ xs) = none
all_or_none (some x ∷ xs) = map_some (λ ys. x ∷ ys) (all_or_none xs)

abbrev pub is_over : Option Date → Date → Bool
is_over none day = false
is_over (some d) day = date_before d day

abbrev pub is_in_week : Option ℕ → Date → Bool
is_in_week none day = true
is_in_week (some w) day = (day.day - 1) / 7 + 1 == w

abbrev pub same_day_of_year : Date → Date → Bool
same_day_of_year a b = a.month == b.month && a.day == b.day

abbrev pub recurs : Recurrence → Rule → List ℕ → List Date → Date → Bool
recurs once rule weekdays dates day =
    any (same_date day) dates || (is_empty dates && same_date day rule.starts_on)
recurs weekly rule weekdays dates day = contains (weekday day) weekdays
recurs monthly rule weekdays dates day =
    (is_empty weekdays || contains (weekday day) weekdays) && is_in_week rule.week_of_month day
recurs yearly rule weekdays dates day =
    if is_empty dates then same_day_of_year day rule.starts_on else any (same_day_of_year day) dates

-- `_rule_matches`; `none` is a `ValueError`.
unfoldable pub rule_matches : Rule → Date → Option Bool
rule_matches rule day =
    if not rule.is_active || (date_before day rule.starts_on || is_over rule.ends_on day)
    then some false
    else maybe none
        (λ weekdays.
          maybe none (λ dates. some (recurs rule.recurrence rule weekdays dates day))
            (all_or_none rule.dates))
        (all_or_none rule.weekdays)

abbrev pub microseconds_per_minute : ℕ
microseconds_per_minute = 60_000_000

abbrev pub same_weekday : Option ℕ → Date → Bool
same_weekday none day = false
same_weekday (some w) day = w == weekday day

abbrev pub is_on : Option Date → Date → Bool
is_on none day = false
is_on (some d) day = same_date d day

abbrev pub is_for_day : Date → ScheduleInterval → Bool
is_for_day day i = is_on i.date day || same_weekday i.weekday day

abbrev pub is_general : ScheduleInterval → Bool
is_general i = maybe true (λ d. false) i.date && maybe true (λ w. false) i.weekday

-- `strftime("%H:%M")` drops the seconds.
abbrev pub to_minutes : ScheduleInterval → Interval
to_minutes i = record {
  start = i.start / microseconds_per_minute;
  finish = i.finish / microseconds_per_minute;
}

-- `_intervals_for`
unfoldable pub intervals_for : Rule → Date → List Interval
intervals_for rule day =
    let selected = select (is_for_day day) rule.intervals in
    map to_minutes (if is_empty selected then select is_general rule.intervals else selected)

-- `WEEKLY_BUSINESS_HOURS`
abbrev pub weekly_business_hours : ℕ → Interval
weekly_business_hours w =
    if w == 6
    then record { start = 480; finish = 720 }
    else (if w == 5
        then record { start = 540; finish = 780 }
        else record { start = 540; finish = 1070 })

abbrev pub date_of : ℕ → ℕ → ℕ → Date
date_of y m d = record { year = y; month = m; day = d }

-- `HOLIDAYS`
pub record Holiday : Type 0 where
  pub date : Date
  pub name : Text

unfoldable pub holidays : List Holiday
holidays =
    record { date = date_of 2026 1 1; name = codes "Confraternização Universal" }
    ∷ record { date = date_of 2026 2 16; name = codes "Carnaval (segunda)" }
    ∷ record { date = date_of 2026 2 17; name = codes "Carnaval (terça)" }
    ∷ record { date = date_of 2026 4 3; name = codes "Sexta-feira Santa" }
    ∷ record { date = date_of 2026 4 21; name = codes "Tiradentes" }
    ∷ record { date = date_of 2026 5 1; name = codes "Dia do Trabalho" }
    ∷ record { date = date_of 2026 6 4; name = codes "Corpus Christi" }
    ∷ record { date = date_of 2026 9 7; name = codes "Independência do Brasil" }
    ∷ record { date = date_of 2026 10 12; name = codes "Nossa Senhora Aparecida" }
    ∷ record { date = date_of 2026 11 2; name = codes "Finados" }
    ∷ record { date = date_of 2026 11 15; name = codes "Proclamação da República" }
    ∷ record { date = date_of 2026 12 25; name = codes "Natal" }
    ∷ record { date = date_of 2026 12 24; name = codes "Véspera de Natal (InChurch)" }
    ∷ record { date = date_of 2026 12 31; name = codes "Véspera de Ano Novo (InChurch)" }
    ∷ []

-- What the older tables give: the intervals and the reason, or `none` for a `ValueError` of `time`
abbrev pub LegacyResult : Type 0
LegacyResult = Option (List Interval × Option Reason)

-- `get_hours_for_weekday`
abbrev pub hours_for_weekday : BusinessHoursConfig → ℕ → Option Hours
hours_for_weekday c w = let h = c.hours w in if leb h.finish h.start then none else some h

-- `time(start)` and `time(end)` for two hours
abbrev pub interval_of : Hours → Option Interval
interval_of h =
    if ltb h.start 24 && ltb h.finish 24
    then some (record { start = 60 * h.start; finish = 60 * h.finish })
    else none

abbrev pub is_nine_to_six : Hours → Bool
is_nine_to_six h = h.start == 9 && h.finish == 18

-- The meeting on Thursdays from 12:00 to 13:00 is taken out.
abbrev pub around_meeting : ℕ → Interval → List Interval
around_meeting w i =
    if w == 3 && (ltb i.start 720 && ltb 780 i.finish)
    then record { start = i.start; finish = 720 } ∷ record { start = 780; finish = i.finish } ∷ []
    else i ∷ []

abbrev pub opened : ℕ → Option Interval → LegacyResult
opened w none = none
opened w (some i) = some (around_meeting w i, none)

abbrev pub configured_hours : ℕ → Option Hours → LegacyResult
configured_hours w none = some ([], some legacy_business_hours_closed)
configured_hours w (some h) =
    maybe none
      (λ i. opened w (some (if leb w 4 && is_nine_to_six h then weekly_business_hours w else i)))
      (interval_of h)

abbrev pub by_config : ℕ → Option BusinessHoursConfig → LegacyResult
by_config w none = opened w (some (weekly_business_hours w))
by_config w (some c) = configured_hours w (hours_for_weekday c w)

abbrev pub by_holiday : Option Holiday → ℕ → Option BusinessHoursConfig → LegacyResult
by_holiday (some h) w config = some ([], some (holiday h.name))
by_holiday none w config = by_config w config

abbrev pub reason_of : Text → Option Reason → Option Reason
reason_of t default = if is_empty t then default else some (named t)

-- The texts "HH:00" of the hours, as minutes; hour 24 gives "24:00".
abbrev pub special_hours : Text → Option ℕ → Option ℕ → LegacyResult → LegacyResult
special_hours reason (some a) (some b) otherwise =
    some (record { start = 60 * a; finish = 60 * b } ∷ [], reason_of reason none)
special_hours reason a b otherwise = otherwise

abbrev pub by_special : Option SpecialSchedule → LegacyResult → LegacyResult
by_special none otherwise = otherwise
by_special (some s) otherwise =
    if s.is_closed
    then some ([], reason_of s.reason (some special_schedule_closed))
    else special_hours s.reason s.start_hour s.end_hour otherwise

-- `_legacy_resolution`
unfoldable pub legacy_resolution : Legacy → Date → LegacyResult
legacy_resolution legacy day =
    by_special (find (λ s. same_date s.date day) legacy.specials)
      (by_holiday (find (λ h. same_date h.date day) holidays) (weekday day) legacy.config)
