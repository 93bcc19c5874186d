-- ===== src/Gateway/Breaker/States.antt =====
-- services/api-gateway/app/circuit_breaker.py: the invariant of a breaker and the edges of its
-- state machine.
use microservices_project.Prelude.{ℕ, ◌≤◌, ◌<◌, ◌≡◌, ◌≢◌, some, List, [], ◌∷◌, arith}
use microservices_project.Prelude.Text.{Text}
use microservices_project.Gateway.Breaker.{
  CircuitState, closed, opened, half_open, CircuitBreaker, Call, check, probe, failure, success,
  new_breaker, step, run,
}

-- A closed breaker has counted fewer failures than the threshold. One that is not closed has
-- counted at least that many and knows when the last one was.
pub record IsValid (b : CircuitBreaker) : Type 0 where
  pub positive : 0 < b.failure_threshold
  pub closed_below : b.state ≡ closed → b.failure_count < b.failure_threshold
  pub tripped : b.state ≢ closed → b.failure_threshold ≤ b.failure_count
  pub stamped : b.state ≢ closed → (t : ℕ) × (b.last_failure_time ≡ some t)

pub step-IsValid : (c : Call) (b : CircuitBreaker) → IsValid b → IsValid (step c b)
unfolding step
step-IsValid (check now) b v = ground arith
step-IsValid (probe now) b v = ground arith
step-IsValid (failure now) b v = ground arith
step-IsValid success b v = ground arith

run-IsValid : (cs : List Call) (b : CircuitBreaker) → IsValid b → IsValid (run cs b)
unfolding run
run-IsValid [] b v = v
run-IsValid (c ∷ cs) b v = run-IsValid cs (step c b) (step-IsValid c b v)

-- After any list of calls on a breaker as the registry makes it: closed means that fewer failures
-- than the threshold are counted; open or half-open means at least that many, with the time of
-- the last one recorded.
pub run-new_breaker-IsValid : (cs : List Call) (name : Text) → IsValid (run cs (new_breaker name))
unfolding new_breaker
run-new_breaker-IsValid cs name = run-IsValid cs (new_breaker name) (ground arith)

-- The edges that the code follows. The last one is in no diagram of the source file.
pub data Edge : CircuitState → CircuitState → Type 0 where
  stay : {s : CircuitState} → Edge s s
  fail : Edge closed opened
  cool : Edge opened half_open
  mend : Edge half_open closed
  relapse : Edge half_open opened
  late_success : Edge opened closed

-- Every call moves the state along one edge or leaves it: closed never becomes half-open, and
-- half-open is reached from open only.
pub step-Edge : (c : Call) (b : CircuitBreaker) → Edge b.state (step c b).state
unfolding step
step-Edge c b = grind (arith, stay, fail, cool, mend, relapse, late_success)
