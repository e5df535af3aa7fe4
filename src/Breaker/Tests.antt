-- ===== src/Breaker/Tests.antt =====
-- Runs of the circuit breaker, and its theorems at concrete calls.
use judah.Prelude.{◌≡◌, refl, some, [], ◌∷◌, arith}
use judah.Breaker.{
  Breaker, Config, open_circuit, new, returns, raises, raises_excluded, ran, rejected_open,
  rejected_probe, call,
}
use judah.Breaker.Laws.{IsEarned, Calls, run, run-new-IsEarned, Stuck, run-Stuck}

abbrev config : Config
config = record { failure_threshold = 2; recovery_timeout = 60; half_open_max_calls = 1 }

abbrev failing : Calls
failing = (0, 1, raises) ∷ (2, 3, raises) ∷ (4, 5, returns) ∷ (63, 64, returns) ∷ []

abbrev tripped : Breaker
tripped = record {
  state = open_circuit;
  failure_count = 2;
  last_failure_time = some 3;
  half_open_calls = 0;
}

failing_answers :
    (run config failing new).0 ≡ ran raises ∷ ran raises ∷ rejected_open ∷ ran returns ∷ []
unfolding run call new
failing_answers = refl

-- One excluded exception in the half-open state, and the breaker rejects for good.
excluded_probe :
    (run config ((63, 64, raises_excluded) ∷ (500, 501, returns) ∷ []) tripped).0
    ≡ ran raises_excluded ∷ rejected_probe ∷ []
unfolding run call
excluded_probe = refl

run-new-IsEarned_example : IsEarned config (run config failing new).0 (run config failing new).1
run-new-IsEarned_example = run-new-IsEarned config failing (omega arith)

run-Stuck_example : Stuck config ((63, 64) ∷ []) ((500, 501, returns) ∷ []) tripped
run-Stuck_example =
    run-Stuck config 63 64 [] ((500, 501, returns) ∷ []) tripped 3 refl refl (omega arith) refl
