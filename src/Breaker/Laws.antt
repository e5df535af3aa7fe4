-- ===== src/Breaker/Laws.antt =====
-- What a circuit breaker guarantees over any run of calls.
use judah.Prelude.{
  suc, ◌+◌, ◌++◌, ◌∙◌, sym, length, ℕ, ◌-◌, ◌≤◌, ◌<◌, ◌≡◌, ◌≢◌, refl, none, some, List, [], ◌∷◌,
  arith, map,
}
use judah.Breaker.{
  closed, open_circuit, half_open, Config, Breaker, new, CallEnd, returns, raises, raises_excluded,
  Answer, ran, rejected_open, rejected_probe, call,
}

-- An open breaker has failed, at least as often as the threshold; a closed one less often.
pub record IsSound (c : Config) (b : Breaker) : Type 0 where
  pub tripped : b.state ≡ open_circuit → c.failure_threshold ≤ b.failure_count
  pub timed : b.state ≡ open_circuit → b.last_failure_time ≢ none
  pub below : b.state ≡ closed → b.failure_count < c.failure_threshold
  pub probing :
      b.state ≡ half_open
      → (c.failure_threshold ≤ b.failure_count) × (b.half_open_calls ≤ c.half_open_max_calls)

pub call-IsSound :
    (c : Config) (now later : ℕ) (end : CallEnd) (b : Breaker)
    → 0 < c.failure_threshold
    → IsSound c b
    → IsSound c (call c now later end b).1
unfolding call
call-IsSound c now later end b p h = ground arith

-- The calls of a run: the two clock readings and the end of the function.
abbrev pub Calls : Type 0
Calls = List (ℕ × ℕ × CallEnd)

unfoldable pub run : Config → Calls → Breaker → List Answer × Breaker
run c [] b = ([], b)
run c ((now, later, end) ∷ cs) b =
    let (a, b') = call c now later end b in let (as', last) = run c cs b' in (a ∷ as', last)

run-IsSound :
    (c : Config) (cs : Calls) (b : Breaker)
    → 0 < c.failure_threshold
    → IsSound c b
    → IsSound c (run c cs b).1
unfolding run
run-IsSound c [] b p h = h
run-IsSound c ((now, later, end) ∷ cs) b p h =
    run-IsSound c cs (call c now later end b).1 p (call-IsSound c now later end b p h)

-- The failures since the last call that returned, `n` before these answers: rejections and excluded
-- exceptions do not count.
abbrev pub failures : ℕ → List Answer → ℕ
failures n [] = n
failures n (ran returns ∷ rest) = failures 0 rest
failures n (ran raises ∷ rest) = failures (n + 1) rest
failures n (ran raises_excluded ∷ rest) = failures n rest
failures n (rejected_open ∷ rest) = failures n rest
failures n (rejected_probe ∷ rest) = failures n rest

call-failures :
    (c : Config) (now later : ℕ) (end : CallEnd) (b : Breaker) (rest : List Answer)
    → failures b.failure_count ((call c now later end b).0 ∷ rest)
      ≡ failures (call c now later end b).1.failure_count rest
unfolding call
call-failures c now later returns b rest = ground arith
call-failures c now later raises b rest = ground arith
call-failures c now later raises_excluded b rest = ground arith

run-failures :
    (c : Config) (cs : Calls) (b : Breaker)
    → (run c cs b).1.failure_count ≡ failures b.failure_count (run c cs b).0
unfolding run
run-failures c [] b = refl
run-failures c ((now, later, end) ∷ cs) b =
    run-failures c cs (call c now later end b).1
    ∙ sym (call-failures c now later end b (run c cs (call c now later end b).1).0)

new-IsSound : (c : Config) → 0 < c.failure_threshold → IsSound c new
unfolding new
new-IsSound c p = ground arith

new-failures :
    (c : Config) (cs : Calls) → (run c cs new).1.failure_count ≡ failures 0 (run c cs new).0
unfolding new
new-failures c cs = run-failures c cs new

-- What the state of a breaker tells of the answers since it was new
pub record IsEarned (c : Config) (answers : List Answer) (b : Breaker) : Type 0 where
  pub counted : b.failure_count ≡ failures 0 answers
  pub tripped : b.state ≡ open_circuit → c.failure_threshold ≤ failures 0 answers
  pub timed : b.state ≡ open_circuit → b.last_failure_time ≢ none
  pub below : b.state ≡ closed → failures 0 answers < c.failure_threshold
  pub probing :
      b.state ≡ half_open
      → (c.failure_threshold ≤ failures 0 answers) × (b.half_open_calls ≤ c.half_open_max_calls)

-- After any calls on a new breaker with a positive threshold, in which the answers show how many calls
-- failed since the last that returned, excluded exceptions and rejections not counted: it is open only
-- after as many failures as the threshold, and then knows when the last one was; closed only with fewer;
-- and half open only after as many, with no more probes than allowed.
pub run-new-IsEarned :
    (c : Config) (cs : Calls)
    → 0 < c.failure_threshold
    → IsEarned c (run c cs new).0 (run c cs new).1
run-new-IsEarned c cs p =
    let h = run-IsSound c cs new p (new-IsSound c p) in
    let e : (run c cs new).1.failure_count ≡ failures 0 (run c cs new).0 = new-failures c cs in
    record {
      counted = e;
      tripped = λ s. ground (arith, e, h.tripped s);
      timed = h.timed;
      below = λ s. ground (arith, e, h.below s);
      probing = λ s. (ground (arith, e, (h.probing s).0), (h.probing s).1);
    }

-- Every call begins before the recovery time after `t`.
abbrev pub AllEarly : Config → ℕ → Calls → Type 0
AllEarly c t [] = Unit
AllEarly c t ((now, later, end) ∷ cs) = (now - t < c.recovery_timeout) × AllEarly c t cs

-- While the recovery time has not passed, an open breaker rejects every call, runs no function and
-- stays as it is.
pub run_open :
    (c : Config) (cs : Calls) (b : Breaker) (t : ℕ)
    → b.state ≡ open_circuit
    → b.last_failure_time ≡ some t
    → AllEarly c t cs
    → run c cs b ≡ (map (λ _. rejected_open) cs, b)
unfolding run call
run_open c [] b t s f h = refl
run_open c ((now, later, end) ∷ cs) b t s f h = ground (arith, run_open c cs b t s f h.1)

-- A half-open breaker is decided by one probe: a success closes it and forgets the failures, and a
-- counted failure opens it again from that moment on.
pub call_half_open :
    (c : Config) (now later : ℕ) (b : Breaker)
    → IsSound c b
    → b.state ≡ half_open
    → b.half_open_calls < c.half_open_max_calls
    → ((call c now later returns b).1.state ≡ closed)
      × ((call c now later returns b).1.failure_count ≡ 0)
      × ((call c now later raises b).1.state ≡ open_circuit)
      × ((call c now later raises b).1.last_failure_time ≡ some later)
unfolding call
call_half_open c now later b h s p = ground arith

rejected_probes :
    (c : Config) (cs : Calls) (b : Breaker)
    → b.state ≡ half_open
    → c.half_open_max_calls ≤ b.half_open_calls
    → run c cs b ≡ (map (λ _. rejected_probe) cs, b)
unfolding run call
rejected_probes c [] b s p = refl
rejected_probes c ((now, later, end) ∷ cs) b s p = ground (arith, rejected_probes c cs b s p)

-- Calls at these readings of the clock that all end in an excluded exception
abbrev pub excluded : List (ℕ × ℕ) → Calls
excluded [] = []
excluded ((now, later) ∷ ps) = (now, later, raises_excluded) ∷ excluded ps

-- A run of a breaker that answers those calls, and rejects all the others, with its probes used up
abbrev pub Stuck : Config → List (ℕ × ℕ) → Calls → Breaker → Type 0
Stuck c ps cs b = run c (excluded ps ++ cs) b ≡ (
  map (λ _. ran raises_excluded) ps ++ map (λ _. rejected_probe) cs,
  record b { state = half_open; half_open_calls = c.half_open_max_calls },
)

half_open-Stuck :
    (c : Config) (ps : List (ℕ × ℕ)) (cs : Calls) (b : Breaker)
    → b.state ≡ half_open
    → c.half_open_max_calls ≡ b.half_open_calls + length ps
    → Stuck c ps cs b
unfolding run call
half_open-Stuck c [] cs b s p = let r = rejected_probes c cs b s (omega arith) in ground (arith, r)
half_open-Stuck c ((now, later) ∷ ps) cs b s p = ground (
  arith,
  half_open-Stuck c ps cs (record b { half_open_calls = b.half_open_calls + 1 }) s (omega arith),
)

-- A probe that ends in an excluded exception is never given back. When an open breaker has recovered and
-- the next calls, as many as it allows probes, all end in excluded exceptions, these calls run, and every
-- call after them is rejected, at any time: the breaker stays half open with its probes used up.
pub run-Stuck :
    (c : Config) (now later : ℕ) (ps : List (ℕ × ℕ)) (cs : Calls) (b : Breaker) (t : ℕ)
    → b.state ≡ open_circuit
    → b.last_failure_time ≡ some t
    → c.recovery_timeout ≤ now - t
    → c.half_open_max_calls ≡ suc (length ps)
    → Stuck c ((now, later) ∷ ps) cs b
unfolding run call
run-Stuck c now later ps cs b t s f h p = ground (
  arith,
  half_open-Stuck c ps cs (record b { state = half_open; half_open_calls = 1 }) refl (omega arith),
)
