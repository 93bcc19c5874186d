-- ===== src/Tests/Breakers.antt =====
-- services/api-gateway/app/circuit_breaker.py, routes/proxy.py: breakers and dispatches.
use microservices_project.Prelude.{ℕ, zero, suc, ◌+◌, ◌≡◌, refl, true, none, some, [], ◌∷◌, nat_eq}
use microservices_project.Prelude.Text.{Text, codes, text_eq}
use microservices_project.Gateway.Breaker.{
  closed, opened, half_open, CircuitBreaker, check, failure, success, new_breaker, is_open, run,
}
use microservices_project.Gateway.Breaker.States.{IsValid, run-new_breaker-IsValid}
use microservices_project.Gateway.Breaker.Registry.{Registry}
use microservices_project.Gateway.Proxy.Dispatch.{Outcome, response, connect_error, dispatch}
use microservices_project.Gateway.Proxy.Retry.{settle, settle_breaker, dispatch_settles}
use microservices_project.Gateway.Proxy.Route as Route
use microservices_project.Gateway.Proxy.Route.{
  Stream, Answer, streaming, Call, is_stream, target, proxy,
}
use microservices_project.Prelude.{List, false}

abbrev tasks : Text
tasks = codes "task-service"

abbrev fresh : CircuitBreaker
fresh = record {
  service_name = tasks;
  failure_threshold = 5;
  recovery_timeout = 30;
  state = closed;
  failure_count = 0;
  last_failure_time = none;
}

abbrev near : CircuitBreaker
near = record fresh { failure_count = 4; last_failure_time = some 9 }

abbrev tripped : CircuitBreaker
tripped = record fresh { state = opened; failure_count = 5; last_failure_time = some 10 }

abbrev probing : CircuitBreaker
probing = record tripped { state = half_open }

run-new_breaker-IsValid_example :
    IsValid (run (failure 1 ∷ success ∷ failure 2 ∷ check 3 ∷ []) (new_breaker tasks))
run-new_breaker-IsValid_example =
    run-new_breaker-IsValid (failure 1 ∷ success ∷ failure 2 ∷ check 3 ∷ []) tasks

-- A connection error, then a response.
abbrev recovers : ℕ → Outcome
recovers zero = connect_error
recovers (suc n) = response (record { status_code = 200; content = [] })

abbrev ticks : ℕ → ℕ
ticks i = 100 + i

dispatch_settles_example :
    let d = dispatch recovers ticks 50 true near in
    (d.reply ≡ settle (recovers 1))
    × (d.delays ≡ 0 ∷ 100 ∷ [])
    × (d.breaker ≡ settle_breaker (ticks 1) (ticks 3) (recovers 1) (is_open 50 near).0)
unfolding is_open
dispatch_settles_example = dispatch_settles recovers ticks 50 true near refl

abbrev registry : Registry
registry = (codes "user-service", near) ∷ []

abbrev routes : List (Text × Text)
routes = (codes "/n", codes "http://n:8003") ∷ []

abbrev listen : Call
listen = record {
  path = codes "/n/stream";
  query = [];
  method = codes "GET";
  headers = (codes "Accept", codes "text/event-stream") ∷ [];
}

-- A stream that is refused with 401.
abbrev refused : Text → Stream
refused url = Route.opened 401 (codes "no" ∷ []) false
