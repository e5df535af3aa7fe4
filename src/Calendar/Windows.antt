-- ===== src/Calendar/Windows.antt =====
-- What an open instant and its window mean.
use judah.Prelude.{
  ℕ, ◌≤◌, ◌<◌, ◌*◌, ◌≡◌, refl, subst, Bool, true, ◌&&◌, Option, none, some, List, [], ◌∷◌, arith,
  is_some, maybe, maybe_elim, if_elim, Bool-cases, ◌⊎◌, inl, inr, Exists, if◌then◌else◌, ltb, leb,
}
use judah.Calendar.{
  Date, Rule, Legacy, Interval, Resolution, open_day, DayState, closed_day, absence_day,
}
use judah.Calendar.Rules.{microseconds_per_minute}
use judah.Calendar.Resolve.{
  Now, closed_now, current_resolution, resolve_day, Zone, Current, OperationalWindow, Reader,
  with_some, bounded, covering, or_rest, active_interval, located, is_open_state, window_of,
  at_time, is_quinta_fire,
}

-- On the day of the instant the zone keeps the order: what is earlier on the clock is an earlier instant.
abbrev pub IsRegular : Zone → Now → Type 0
IsRegular z now =
    (minute : ℕ)
    → (minute * microseconds_per_minute ≤ (z.to_local now.instant).1
        → z.to_instant (z.to_local now.instant).0 minute ≤ now.instant)
      × ((z.to_local now.instant).1 < minute * microseconds_per_minute
          → now.instant < z.to_instant (z.to_local now.instant).0 minute)

pub record IsWindow (now : Now) (c : Current) : Type 0 where
  pub agrees : c.is_open_now ≡ is_some c.window
  pub on_open_day : c.is_open_now ≡ true → c.resolution.state ≡ open_day
  pub contains :
      (w : OperationalWindow)
      → c.window ≡ some w
      → (w.start_at ≤ now.instant) × (now.instant < w.end_at)

-- A bound of the interval is not a time of day.
abbrev pub IsLate : Interval → Type 0
IsLate i = (1440 ≤ i.start) ⊎ (1440 ≤ i.finish)

-- What the answer is: a window as above, or an error for an interval of the day that has such a bound.
abbrev pub IsAnswer : Legacy → List Rule → Date → Now → Option Current → Type 0
IsAnswer legacy rules day now none =
    (r : Resolution) × (resolve_day legacy rules day ≡ some r) × Exists IsLate r.intervals
IsAnswer legacy rules day now (some c) = IsWindow now c

-- Every time of day reads as itself.
abbrev pub IsReader : Reader → Type 0
IsReader read = (m : ℕ) → m < 1440 → read m ≡ some m

module _ (read : Reader) (time : ℕ) where
  abbrev Covers : Option (Option Interval) → Type 0
  Covers (some (some j)) =
      (j.start * microseconds_per_minute ≤ time) × (time < j.finish * microseconds_per_minute)
  Covers (some none) = Unit
  Covers none = Unit

  begun-Covers :
      (a : ℕ) (b : Option ℕ)
      → a * microseconds_per_minute ≤ time
      → Covers (with_some (bounded time a) b)
  begun-Covers a none h = tt
  begun-Covers a (some b) h =
      if_elim (λ (x : Option Interval). Covers (some x)) (ltb time (b * microseconds_per_minute))
        (some (record { start = a; finish = b })) none (λ t. (h, ground (arith, t))) (λ f. tt)

  covering-Covers : (i : Interval) → Covers (covering read time i)
  unfolding covering
  covering-Covers i =
      maybe_elim Covers none
        (λ a.
          if leb (a * microseconds_per_minute) time
          then with_some (bounded time a) (read i.finish)
          else some none)
        (read i.start) tt
        (λ a e.
          if_elim Covers (leb (a * microseconds_per_minute) time)
            (with_some (bounded time a) (read i.finish)) (some none)
            (λ t. begun-Covers a (read i.finish) (ground (arith, t))) (λ f. tt))

  or_rest-Covers :
      (rest : Option (Option Interval)) (x : Option Interval)
      → Covers rest
      → Covers (some x)
      → Covers (or_rest rest x)
  or_rest-Covers rest none h k = h
  or_rest-Covers rest (some i) h k = k

  active_interval-Covers : (xs : List Interval) → Covers (active_interval read time xs)
  unfolding active_interval
  active_interval-Covers [] = tt
  active_interval-Covers (x ∷ xs) =
      maybe_elim Covers none (or_rest (active_interval read time xs)) (covering read time x) tt
        (λ y e.
          or_rest-Covers (active_interval read time xs) y (active_interval-Covers xs)
            (subst Covers e (covering-Covers x)))

  module _ (reads : IsReader read) where
    unread : (m : ℕ) → read m ≡ none → 1440 ≤ m
    unread m e = elim (Bool-cases (ltb m 1440)) [
      | inl t ↦ absurd (ground (arith, e, reads m (ground (arith, t))))
      | inr f ↦ ground (arith, f)
    ]

    covering-IsLate : (i : Interval) → covering read time i ≡ none → IsLate i
    unfolding covering
    covering-IsLate i = bounds (read i.start) (read i.finish) refl refl
      where
        bounds :
            (a b : Option ℕ)
            → read i.start ≡ a
            → read i.finish ≡ b
            → maybe none
                (λ a.
                  if leb (a * microseconds_per_minute) time
                  then with_some (bounded time a) b
                  else some none)
                a
              ≡ none
            → IsLate i
        bounds none b p q e = inl (unread i.start p)
        bounds (some a) none p q e = inr (unread i.finish q)
        bounds (some a) (some b) p q e = absurd (ground (arith, e))

    active_interval-IsLate :
        (xs : List Interval) → active_interval read time xs ≡ none → Exists IsLate xs
    unfolding active_interval
    active_interval-IsLate [] e = absurd (ground (arith, e))
    active_interval-IsLate (x ∷ xs) e =
        covered (covering read time x) refl (active_interval-IsLate xs) e
      where
        covered :
            (y : Option (Option Interval))
            → covering read time x ≡ y
            → (active_interval read time xs ≡ none → Exists IsLate xs)
            → maybe none (or_rest (active_interval read time xs)) y ≡ none
            → Exists IsLate (x ∷ xs)
        covered none p k e = inl (covering-IsLate x p)
        covered (some none) p k e = inr (k e)
        covered (some (some j)) p k e = absurd (ground (arith, e))

is_open_state-open_day : (s : DayState) → is_open_state s ≡ true → s ≡ open_day
is_open_state-open_day open_day h = refl
is_open_state-open_day closed_day h = absurd (ground (arith, h))
is_open_state-open_day absence_day h = absurd (ground (arith, h))

window-agrees :
    (z : Zone) (day : Date) (r : Resolution) (active : Option Interval)
    → (is_open_state r.state && is_some active) ≡ is_some (window_of z day r active)
window-agrees z day r none = ground arith
window-agrees z day r (some i) = ground arith

window-some :
    (z : Zone) (day : Date) (r : Resolution) (active : Option Interval) (w : OperationalWindow)
    → window_of z day r active ≡ some w
    → (i : Interval) × (active ≡ some i)
      × (w.start_at ≡ z.to_instant day i.start)
      × (w.end_at ≡ z.to_instant day i.finish)
window-some z day r none w h = absurd (ground (arith, h))
window-some z day r (some i) w h = (i, refl, ground (arith, h), ground (arith, h))

module _ (read : Reader) (reads : IsReader read) (z : Zone) (now : Now) (regular : IsRegular z now)
    (legacy : Legacy) (rules : List Rule) where
  located-IsWindow :
      (meeting : Bool) (r : Resolution) (active : Option Interval)
      → Covers read (z.to_local now.instant).1 (some active)
      → IsWindow now (located z meeting (z.to_local now.instant).0 r active)
  unfolding located
  located-IsWindow meeting r active h =
      let day = (z.to_local now.instant).0 in
      record {
        agrees = window-agrees z day r active;
        on_open_day = λ h. is_open_state-open_day r.state (ground (arith, h));
        contains = λ w e.
            let (i, f, a, b) = window-some z day r active w e in
            let (lo, hi) =
              subst (λ (x : Option Interval). Covers read (z.to_local now.instant).1 (some x)) f
                h in
            (rw a ((regular i.start).0 lo), rw b ((regular i.finish).1 hi));
      }

  at_time-IsAnswer :
      (meeting : Bool) (r : Resolution)
      → resolve_day legacy rules (z.to_local now.instant).0 ≡ some r
      → IsAnswer legacy rules
          (z.to_local now.instant).0
          now
          (at_time read z meeting (z.to_local now.instant).0 (z.to_local now.instant).1 r)
  unfolding at_time
  at_time-IsAnswer meeting r e =
      found (active_interval read (z.to_local now.instant).1 r.intervals) refl
    where
      found :
          (x : Option (Option Interval))
          → active_interval read (z.to_local now.instant).1 r.intervals ≡ x
          → IsAnswer legacy rules
              (z.to_local now.instant).0
              now
              (with_some (located z meeting (z.to_local now.instant).0 r) x)
      found none q =
          (r, e, active_interval-IsLate read (z.to_local now.instant).1 reads r.intervals q)
      found (some active) q = located-IsWindow meeting r active (
          subst (Covers read (z.to_local now.instant).1) q
            (active_interval-Covers read (z.to_local now.instant).1 r.intervals))

  -- The resolution of an instant raises only on a day with an interval that has a bound of 24:00 or later.
  -- Otherwise the instant is open exactly if it has an operational window, which contains it, and then its
  -- day is open. The conditions are that every time of day reads as itself and that the zone keeps the order
  -- of times on that day.
  pub current_resolution-IsAnswer :
      (sao_paulo : Zone)
      → IsAnswer legacy rules
          (z.to_local now.instant).0
          now
          (current_resolution read sao_paulo (some z) legacy rules now)
  unfolding current_resolution
  current_resolution-IsAnswer sao_paulo =
      let (d, t) = sao_paulo.to_local now.instant in
      maybe_elim (IsAnswer legacy rules (z.to_local now.instant).0 now) (some (closed_now now))
        (at_time read z (is_quinta_fire d t) (z.to_local now.instant).0 (z.to_local now.instant).1)
        (resolve_day legacy rules (z.to_local now.instant).0)
        (record {
          agrees = refl;
          on_open_day = λ h. absurd (ground (arith, h));
          contains = λ w h. absurd (ground (arith, h));
        })
        (λ r e. at_time-IsAnswer (is_quinta_fire d t) r e)
