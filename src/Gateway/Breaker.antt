-- ===== src/Gateway/Breaker.antt =====
-- services/api-gateway/app/circuit_breaker.py: the circuit breaker of one upstream service and
-- the registry of breakers. `time.monotonic()` is the argument `now`, in ticks, so the test
-- `now - last >= recovery` is written as `last + recovery ≤ now`.
pub mod States
pub mod Opening
pub mod Registry
use microservices_project.Prelude.{
  ℕ, ◌+◌, Bool, true, false, Option, none, some, List, [], ◌∷◌, leb, if◌then◌else◌,
}
use microservices_project.Prelude.Text.{Text}

-- `OPEN` is spelled `opened`.
pub data CircuitState : Type 0 where
  closed opened half_open : CircuitState

pub record CircuitBreaker : Type 0 where
  pub service_name : Text
  pub failure_threshold : ℕ
  pub recovery_timeout : ℕ
  pub state : CircuitState
  pub failure_count : ℕ
  pub last_failure_time : Option ℕ

-- `CircuitBreaker(service_name)` with its two default arguments, in ticks of a second.
unfoldable pub new_breaker : Text → CircuitBreaker
new_breaker name = record {
  service_name = name;
  failure_threshold = 5;
  recovery_timeout = 30;
  state = closed;
  failure_count = 0;
  last_failure_time = none;
}

-- The recovery test of the `state` property.
abbrev elapsed : ℕ → ℕ → Option ℕ → Bool
elapsed now timeout none = false
elapsed now timeout (some t) = leb (t + timeout) now

abbrev recover : CircuitState → Bool → CircuitState
recover opened true = half_open
recover opened false = opened
recover closed _ = closed
recover half_open _ = half_open

-- The `state` property, which may move OPEN to HALF_OPEN: the breaker after the read.
unfoldable pub read_state : ℕ → CircuitBreaker → CircuitBreaker
read_state now b = record b {
  state = recover b.state (elapsed now b.recovery_timeout b.last_failure_time);
}

abbrev pub is_opened : CircuitState → Bool
is_opened opened = true
is_opened closed = false
is_opened half_open = false

abbrev pub is_half_open : CircuitState → Bool
is_half_open half_open = true
is_half_open closed = false
is_half_open opened = false

unfoldable pub is_open : ℕ → CircuitBreaker → CircuitBreaker × Bool
unfolding read_state
is_open now b = let b' = read_state now b in (b', is_opened b'.state)

unfoldable pub allow_probe : ℕ → CircuitBreaker → CircuitBreaker × Bool
unfolding read_state
allow_probe now b = let b' = read_state now b in (b', is_half_open b'.state)

unfoldable pub record_success : CircuitBreaker → CircuitBreaker
record_success b = record b { failure_count = 0; last_failure_time = none; state = closed }

-- The `if`/`elif` at the end of `record_failure`, over the count after the increment.
abbrev trip : CircuitState → ℕ → ℕ → CircuitState
trip half_open count threshold = opened
trip s count threshold = if leb threshold count then opened else s

unfoldable pub record_failure : ℕ → CircuitBreaker → CircuitBreaker
record_failure now b = record b {
  failure_count = b.failure_count + 1;
  last_failure_time = some now;
  state = trip b.state (b.failure_count + 1) b.failure_threshold;
}

-- What a coroutine does to a breaker in one go, with the time at which it does it.
pub data Call : Type 0 where
  check probe failure : ℕ → Call
  success : Call

unfoldable pub step : Call → CircuitBreaker → CircuitBreaker
unfolding is_open allow_probe record_failure record_success
step (check now) b = (is_open now b).0
step (probe now) b = (allow_probe now b).0
step (failure now) b = record_failure now b
step success b = record_success b

-- The coroutines of the event loop interleave between awaits: any list of calls may be made.
unfoldable pub run : List Call → CircuitBreaker → CircuitBreaker
unfolding step
run [] b = b
run (c ∷ cs) b = run cs (step c b)
