-- ===== src/Breaker.antt =====
-- common/circuit_breaker.py: the breaker's state, its `state` property and a guarded call. Times are
-- readings of the monotonic clock, in one unit with `recovery_timeout`.
pub mod Laws
mod Tests
use judah.Prelude.{ℕ, ◌+◌, ◌-◌, Bool, true, false, Option, none, some, leb, if◌then◌else◌}

pub data CircuitState : Type 0 where
  closed open_circuit half_open : CircuitState

-- The constructor's arguments, less the name and the classes of excluded exceptions.
pub record Config : Type 0 where
  pub failure_threshold : ℕ
  pub recovery_timeout : ℕ
  pub half_open_max_calls : ℕ

pub record Breaker : Type 0 where
  pub state : CircuitState
  pub failure_count : ℕ
  pub last_failure_time : Option ℕ
  pub half_open_calls : ℕ

unfoldable pub new : Breaker
new = record { state = closed; failure_count = 0; last_failure_time = none; half_open_calls = 0 }

abbrev pub is_open : CircuitState → Bool
is_open open_circuit = true
is_open s = false

abbrev pub is_half_open : CircuitState → Bool
is_half_open half_open = true
is_half_open s = false

-- The timeout has passed since the last failure; the clock does not go back.
abbrev pub has_recovered : Config → ℕ → Option ℕ → Bool
has_recovered c now none = false
has_recovered c now (some t) = leb c.recovery_timeout (now - t)

-- The property `state`, which moves an open breaker on.
unfoldable pub observe : Config → ℕ → Breaker → Breaker
observe c now b =
    if is_open b.state
    then if has_recovered c now b.last_failure_time
      then record b { state = half_open; half_open_calls = 0 }
      else b
    else b

unfoldable pub on_success : Breaker → Breaker
on_success b = record b { failure_count = 0; state = closed }

unfoldable pub on_failure : Config → ℕ → Breaker → Breaker
on_failure c now b = record b {
  failure_count = b.failure_count + 1;
  last_failure_time = some now;
  state = if leb c.failure_threshold (b.failure_count + 1) then open_circuit else b.state;
}

-- How the guarded function ends: it returns, or raises, with or without being counted.
pub data CallEnd : Type 0 where
  returns raises raises_excluded : CallEnd

-- What the caller of `call` sees: `CircuitOpenError` in its two places, or the function's own end.
pub data Answer : Type 0 where
  rejected_open rejected_probe : Answer
  ran : CallEnd → Answer

-- The part before the function runs: a rejection, or the breaker with the probe counted.
unfoldable pub admit : Config → ℕ → Breaker → Option Answer × Breaker
unfolding observe
admit c now b =
    let o = observe c now b in
    if is_open o.state
    then (some rejected_open, o)
    else if is_half_open o.state
    then if leb c.half_open_max_calls o.half_open_calls
      then (some rejected_probe, o)
      else (none, record o { half_open_calls = o.half_open_calls + 1 })
    else (none, o)

unfoldable pub settle : Config → ℕ → CallEnd → Breaker → Breaker
unfolding on_success on_failure
settle c now returns b = on_success b
settle c now raises b = on_failure c now b
settle c now raises_excluded b = b

-- `call`: `now` is read before the function runs, `later` after it fails.
unfoldable pub call : Config → ℕ → ℕ → CallEnd → Breaker → Answer × Breaker
unfolding admit settle
call c now later end b =
    let (rejection, o) = admit c now b in
    elim rejection [ some r ↦ (r, o) | none ↦ (ran end, settle c later end o) ]
