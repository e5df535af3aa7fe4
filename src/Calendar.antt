-- ===== src/Calendar.antt =====
-- apps/support/helpdesk_calendar/service.py: the days, the rules of the calendar and the tables it had
-- before. A time of day is a number of microseconds, and an interval of a day is in minutes, as
-- "%H:%M" writes it.
pub mod Rules
pub mod Resolve
pub mod Precedence
pub mod Windows
pub mod Edit
pub mod Versions
mod Tests
use judah.Prelude.{
  ℕ, ◌+◌, ◌-◌, ◌*◌, ◌/◌, ◌%◌, Bool, true, false, ◌&&◌, ◌||◌, not, Option, none, some, List, [], ◌∷◌,
  Text, ltb, leb, ◌==◌, if◌then◌else◌, codes, find,
}

-- `datetime.date`
pub record Date : Type 0 where
  pub year : ℕ
  pub month : ℕ
  pub day : ℕ

abbrev pub same_date : Date → Date → Bool
same_date a b = a.year == b.year && (a.month == b.month && a.day == b.day)

abbrev pub date_before : Date → Date → Bool
date_before a b =
    ltb a.year b.year
    || (a.year == b.year && (ltb a.month b.month || (a.month == b.month && ltb a.day b.day)))

abbrev pub is_leap : ℕ → Bool
is_leap y = y % 4 == 0 && (not (y % 100 == 0) || y % 400 == 0)

abbrev pub days_in_month : ℕ → ℕ → ℕ
days_in_month y m =
    if m == 2
    then (if is_leap y then 29 else 28)
    else (if m == 4 || (m == 6 || (m == 9 || m == 11)) then 30 else 31)

-- `timedelta(days=1)` later
unfoldable pub next_day : Date → Date
next_day d =
    if ltb d.day (days_in_month d.year d.month)
    then record d { day = d.day + 1 }
    else (if ltb d.month 12
        then record d { month = d.month + 1; day = 1 }
        else record { year = d.year + 1; month = 1; day = 1 })

-- The days of the year before the month: 30 for each, and what these have more or less
unfoldable pub days_before_month : ℕ → ℕ → ℕ
days_before_month y m =
    if leb m 2 then 31 * (m - 1) else (153 * (m - 3) + 2) / 5 + (if is_leap y then 60 else 59)

unfoldable pub to_ordinal : Date → ℕ
to_ordinal d =
    let y = d.year - 1 in
    365 * y + y / 4 + y / 400 - y / 100 + days_before_month d.year d.month + d.day

-- `date.weekday()`: Monday is 0.
unfoldable pub weekday : Date → ℕ
weekday d = (to_ordinal d + 6) % 7

pub data RuleType : Type 0 where
  service absence : RuleType

pub data Recurrence : Type 0 where
  once weekly monthly yearly : Recurrence

-- `HelpdeskScheduleInterval`
pub record ScheduleInterval : Type 0 where
  pub weekday : Option ℕ
  pub date : Option Date
  pub start : ℕ
  pub finish : ℕ

-- `HelpdeskScheduleRule` with its intervals and its absence message. An entry of the lists `weekdays` and
-- `dates` is `none` where `int` or `date.fromisoformat` refuses it by a `ValueError`.
pub record Rule : Type 0 where
  pub id : ℕ
  pub name : Text
  pub rule_type : RuleType
  pub recurrence : Recurrence
  pub starts_on : Date
  pub ends_on : Option Date
  pub weekdays : List (Option ℕ)
  pub week_of_month : Option ℕ
  pub dates : List (Option Date)
  pub priority : ℕ
  pub is_active : Bool
  pub version : ℕ
  pub intervals : List ScheduleInterval
  pub message : Option Text

-- `SpecialSchedule`, whose hours are those of a day
pub record SpecialSchedule : Type 0 where
  pub date : Date
  pub is_closed : Bool
  pub start_hour : Option ℕ
  pub end_hour : Option ℕ
  pub reason : Text

pub record Hours : Type 0 where
  pub start : ℕ
  pub finish : ℕ

-- `BusinessHoursConfig`, by the day of the week
pub record BusinessHoursConfig : Type 0 where
  pub hours : ℕ → Hours

-- What the calendar falls back to
pub record Legacy : Type 0 where
  pub specials : List SpecialSchedule
  pub config : Option BusinessHoursConfig

-- An interval of a resolution, in minutes
pub record Interval : Type 0 where
  pub start : ℕ
  pub finish : ℕ

pub data DayState : Type 0 where
  open_day closed_day absence_day : DayState

pub data Reason : Type 0 where
  named : Text → Reason
  absence_of : Text → Reason
  holiday : Text → Reason
  special_schedule_closed legacy_business_hours_closed : Reason
  calendar_degraded quinta_fire off_hours : Reason

pub record Resolution : Type 0 where
  pub date : Date
  pub state : DayState
  pub intervals : List Interval
  pub reason : Option Reason
  pub message : Option Text
  pub source_rule_id : Option ℕ
  pub source_rule_name : Option Text
  pub priority : Option ℕ
