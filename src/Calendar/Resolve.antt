-- ===== src/Calendar/Resolve.antt =====
-- The resolution of a day, of a range of days and of an instant.
use judah.Prelude.{
  ℕ, zero, suc, ◌+◌, ◌-◌, ◌*◌, Bool, true, false, ◌&&◌, ◌||◌, not, Option, none, some, List, [],
  ◌∷◌, ltb, leb, ◌==◌, if◌then◌else◌, is_empty, is_some, select, map, map_some, maybe, Result, ok,
  err,
}
use judah.Prelude.Sorting.{sort}
use judah.Calendar.{
  Date, date_before, next_day, to_ordinal, weekday, absence, service, Rule, Legacy, Interval,
  DayState, open_day, closed_day, absence_day, Reason, named, absence_of, calendar_degraded,
  quinta_fire, off_hours, Resolution,
}
use judah.Calendar.Rules.{rule_matches, intervals_for, legacy_resolution, microseconds_per_minute}

abbrev pub keep_if {ℓ} : {A : Type ℓ} → A → Bool → List A → List A
keep_if x true xs = x ∷ xs
keep_if x false xs = xs

-- `[rule for rule in active_rules if _rule_matches(rule, day)]`; `none` where a rule raises.
unfoldable pub matching_rules : Date → List Rule → Option (List Rule)
matching_rules day [] = some []
matching_rules day (r ∷ rs) =
    let rest = matching_rules day rs in
    maybe none (λ b. map_some (keep_if r b) rest) (rule_matches r day)

abbrev pub is_absence : Rule → Bool
is_absence r = elim r.rule_type [ service ↦ false | absence ↦ true ]

-- The key `(-item.priority, str(item.id))`
unfoldable pub precedes : Rule → Rule → Bool
precedes a b = ltb b.priority a.priority || (a.priority == b.priority && leb a.id b.id)

abbrev pub first_rule : List Rule → Option Rule
first_rule [] = none
first_rule (r ∷ rs) = some r

abbrev pub or_else_rules : List Rule → List Rule → List Rule
or_else_rules [] rs = rs
or_else_rules (a ∷ as') rs = a ∷ as'

unfoldable pub chosen_rule : List Rule → Option Rule
chosen_rule matching =
    first_rule (sort precedes (or_else_rules (select is_absence matching) matching))

abbrev pub state_of_rule : Rule → List Interval → DayState
state_of_rule r intervals =
    if is_absence r then absence_day else (if is_empty intervals then closed_day else open_day)

unfoldable pub of_rule : Rule → Date → Resolution
of_rule r day =
    let intervals = if is_absence r then [] else intervals_for r day in
    record {
      date = day;
      state = state_of_rule r intervals;
      intervals = intervals;
      reason = some (named r.name);
      message = r.message;
      source_rule_id = some r.id;
      source_rule_name = some r.name;
      priority = some r.priority;
    }

abbrev pub without_rule : DayState → List Interval → Option Reason → Date → Resolution
without_rule state intervals reason day = record {
  date = day;
  state = state;
  intervals = intervals;
  reason = reason;
  message = none;
  source_rule_id = none;
  source_rule_name = none;
  priority = none;
}

abbrev pub of_legacy : Date → List Interval × Option Reason → Resolution
of_legacy day (intervals, reason) =
    without_rule (if is_empty intervals then closed_day else open_day) intervals reason day

abbrev pub of_choice : Legacy → Date → Option Rule → Option Resolution
of_choice legacy day none = maybe none (λ r. some (of_legacy day r)) (legacy_resolution legacy day)
of_choice legacy day (some r) = some (of_rule r day)

-- `resolve_day`; `none` is a `ValueError`.
unfoldable pub resolve_day : Legacy → List Rule → Date → Option Resolution
resolve_day legacy rules day =
    maybe none (λ matching. of_choice legacy day (chosen_rule matching)) (matching_rules day rules)

abbrev pub degraded : Date → Resolution
degraded day = without_rule closed_day [] (some calendar_degraded) day

-- The days from the first on
unfoldable pub days_from : Date → ℕ → List Date
days_from day zero = []
days_from day (suc n) = day ∷ days_from (next_day day) n

unfoldable pub resolve_days : Legacy → List Rule → List Date → Option (List Resolution)
resolve_days legacy rules [] = some []
resolve_days legacy rules (d ∷ ds) =
    let rest = resolve_days legacy rules ds in
    maybe none (λ r. map_some (λ rs. r ∷ rs) rest) (resolve_day legacy rules d)

-- `ValidationError` for a range out of order or longer than 366 days
pub data RangeError : Type 0 where
  invalid_range : RangeError

abbrev pub range_of : List Date → Option (List Resolution) → List Resolution × Bool
range_of days none = (map degraded days, true)
range_of days (some rs) = (rs, false)

-- `resolve_range`; `has_zone` tells whether the schedule's time zone is known.
unfoldable pub resolve_range :
    Bool → Legacy → List Rule → Date → Date → Result RangeError (List Resolution × Bool)
resolve_range has_zone legacy rules start end' =
    if date_before end' start || ltb 366 (to_ordinal end' - to_ordinal start)
    then err invalid_range
    else (let days = days_from start (to_ordinal end' - to_ordinal start + 1) in
        ok (range_of days (if has_zone then resolve_days legacy rules days else none)))

-- A time zone: the local date and time of an instant, and the instant of a local date and minute
pub record Zone : Type 0 where
  pub to_local : ℕ → Date × ℕ
  pub to_instant : Date → ℕ → ℕ

-- An instant, and its date where it was given
pub record Now : Type 0 where
  pub instant : ℕ
  pub date : Date

pub record OperationalWindow : Type 0 where
  pub start_at : ℕ
  pub end_at : ℕ
  pub source_rule_id : Option ℕ

-- The result of `_current_resolution`
pub record Current : Type 0 where
  pub resolution : Resolution
  pub is_open_now : Bool
  pub window : Option OperationalWindow

-- `time.fromisoformat` of the text of a time of day, "HH:MM", which stands here as minutes: the minutes that
-- it reads, or `none` for a `ValueError`. What it makes of "24:00" depends on the version of Python.
abbrev pub Reader : Type 0
Reader = ℕ → Option ℕ

abbrev pub with_some {ℓ κ} : {A : Type ℓ} {B : Type κ} → (A → B) → Option A → Option B
with_some f none = none
with_some f (some x) = some (f x)

abbrev pub bounded : ℕ → ℕ → ℕ → Option Interval
bounded time a b =
    if ltb time (b * microseconds_per_minute) then some (record { start = a; finish = b }) else none

-- Whether the interval covers the time, and its bounds as they are read; the end is read only of an interval
-- that has begun.
unfoldable pub covering : Reader → ℕ → Interval → Option (Option Interval)
covering read time i =
    maybe none
      (λ a.
        if leb (a * microseconds_per_minute) time
        then with_some (bounded time a) (read i.finish)
        else some none)
      (read i.start)

abbrev pub or_rest : Option (Option Interval) → Option Interval → Option (Option Interval)
or_rest rest none = rest
or_rest rest (some i) = some (some i)

-- The first interval that covers the time; `none` where a bound does not read.
unfoldable pub active_interval : Reader → ℕ → List Interval → Option (Option Interval)
active_interval read time [] = some none
active_interval read time (i ∷ is) =
    let rest = active_interval read time is in maybe none (or_rest rest) (covering read time i)

-- `is_quinta_fire`, of a local time in São Paulo
unfoldable pub is_quinta_fire : Date → ℕ → Bool
is_quinta_fire day time =
    weekday day == 3
    && (leb (720 * microseconds_per_minute) time && ltb time (780 * microseconds_per_minute))

abbrev pub is_open_state : DayState → Bool
is_open_state open_day = true
is_open_state s = false

abbrev pub said : Reason → Bool
said (named t) = not (is_empty t)
said r = true

abbrev pub or_off_hours : Bool → Option Reason → Option Reason
or_off_hours is_open none = if is_open then none else some off_hours
or_off_hours is_open (some r) = if not is_open && not (said r) then some off_hours else some r

abbrev pub absence_reason : Option Reason → Option Reason
absence_reason (some (named t)) = some (absence_of t)
absence_reason r = r

abbrev pub current_reason : DayState → Bool → Bool → Option Reason → Option Reason
current_reason absence_day is_open in_meeting r = absence_reason r
current_reason state is_open in_meeting r =
    or_off_hours is_open (if in_meeting then some quinta_fire else r)

abbrev pub window_of : Zone → Date → Resolution → Option Interval → Option OperationalWindow
window_of z day r none = none
window_of z day r (some i) =
    if is_open_state r.state
    then some (record {
      start_at = z.to_instant day i.start;
      end_at = z.to_instant day i.finish;
      source_rule_id = r.source_rule_id;
    })
    else none

-- The resolution with the interval that is active; `meeting` tells whether it is the meeting on Thursdays.
unfoldable pub located : Zone → Bool → Date → Resolution → Option Interval → Current
located z meeting day r active =
    let is_open = is_open_state r.state && is_some active in
    let in_meeting = not is_open && (meeting && not (is_some r.source_rule_id)) in
    record {
      resolution = record r { reason = current_reason r.state is_open in_meeting r.reason };
      is_open_now = is_open;
      window = window_of z day r active;
    }

-- The resolution at a local time; `none` is a `ValueError`.
unfoldable pub at_time : Reader → Zone → Bool → Date → ℕ → Resolution → Option Current
at_time read z meeting day time r =
    with_some (located z meeting day r) (active_interval read time r.intervals)

abbrev pub closed_now : Now → Current
closed_now now = record { resolution = degraded now.date; is_open_now = false; window = none }

abbrev pub in_zone : Reader → Zone → Zone → Legacy → List Rule → Now → Option Current
in_zone read sao_paulo z legacy rules now =
    let (day, time) = z.to_local now.instant in
    let (d, t) = sao_paulo.to_local now.instant in
    maybe (some (closed_now now)) (at_time read z (is_quinta_fire d t) day time)
      (resolve_day legacy rules day)

-- `_current_resolution`, with the time zone of the schedule if it is known. A `ValueError` of the resolution
-- of the day is caught; one of the reading of an interval, `none`, is not.
unfoldable pub current_resolution :
    Reader → Zone → Option Zone → Legacy → List Rule → Now → Option Current
current_resolution read sao_paulo none legacy rules now = some (closed_now now)
current_resolution read sao_paulo (some z) legacy rules now =
    in_zone read sao_paulo z legacy rules now

-- `resolve_operational_window`
abbrev pub resolve_operational_window :
    Reader → Zone → Option Zone → Legacy → List Rule → Now → Option (Option OperationalWindow)
resolve_operational_window read sao_paulo z legacy rules now =
    with_some (λ c. c.window) (current_resolution read sao_paulo z legacy rules now)
