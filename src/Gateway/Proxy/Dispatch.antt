-- ===== src/Gateway/Proxy/Dispatch.antt =====
-- services/api-gateway/app/routes/proxy.py: `_dispatch_with_retry`. The HTTP client is a
-- parameter: the outcome of the request of each attempt, with the clock when it is recorded.
use microservices_project.Prelude.{
  ℕ, zero, suc, ◌+◌, Bool, not, ◌&&◌, ◌||◌, List, [], ◌∷◌, ◌++◌, ltb, ◌==◌, if◌then◌else◌, nat_eq,
}
use microservices_project.Prelude.Text.{Text}
use microservices_project.Gateway.Breaker.{CircuitBreaker, is_open, record_success, record_failure}
use microservices_project.Gateway.Breaker.Registry.{Registry, get, put}

pub record Response : Type 0 where
  pub status_code : ℕ
  pub content : Text

-- What `client.request` does: it returns, raises one of the two exceptions that are caught, or
-- raises another one.
pub data Outcome : Type 0 where
  response : Response → Outcome
  connect_error timeout_exception other_exception : Outcome

-- How the call ends: a response, one of the four `HTTPException`s, or an exception that passes.
pub data Reply : Type 0 where
  returned : Response → Reply
  circuit_open unreachable timed_out exhausted : Reply
  propagated : Reply

-- The status of the `HTTPException`, or of the response.
unfoldable pub status : Reply → ℕ
status (returned r) = r.status_code
status circuit_open = 503
status unreachable = 503
status timed_out = 504
status exhausted = 503
status propagated = 500

-- `last_exc`
pub data LastExc : Type 0 where
  no_exc connect timed : LastExc

-- The breaker afterwards, the reply, and the delay in milliseconds before each request sent.
pub record Dispatched : Type 0 where
  pub breaker : CircuitBreaker
  pub reply : Reply
  pub delays : List ℕ

abbrev pub is_retryable : ℕ → Bool
is_retryable code = code == 502 || code == 503 || code == 504

-- `_BACKOFF_SCHEDULE`, in milliseconds; the loop reads indices below `_MAX_ATTEMPTS` only.
abbrev backoff_schedule : ℕ → ℕ
backoff_schedule zero = 0
backoff_schedule (suc zero) = 100
backoff_schedule (suc (suc n)) = 200

abbrev pub max_attempts : ℕ
max_attempts = 3

-- The two tests that record the response.
abbrev conclude : ℕ → ℕ → CircuitBreaker → CircuitBreaker
conclude now code b =
    if ltb code 500 || not (is_retryable code)
    then record_success b
    else if is_retryable code
    then record_failure now b
    else b

-- What follows the loop.
abbrev give_up : LastExc → Reply
give_up connect = unreachable
give_up timed = timed_out
give_up no_exc = exhausted

module _ (request : ℕ → Outcome) (clock : ℕ → ℕ) where
  -- The loop, with `left` rounds to go and `attempts` in all; `is_idempotent` as in the source.
  unfoldable pub attempt_loop :
      (left attempt attempts : ℕ) → Bool → LastExc → CircuitBreaker → List ℕ → Dispatched
  attempt_loop zero attempt attempts idem last b delays = record {
    breaker = record_failure (clock attempt) b;
    reply = give_up last;
    delays = delays;
  }
  attempt_loop (suc left) attempt attempts idem last b delays =
      let sent = delays ++ backoff_schedule attempt ∷ [] in
      elim (request attempt) [
        | response r ↦
            let retried = attempt_loop left (attempt + 1) attempts idem no_exc b sent in
            if is_retryable r.status_code && idem && ltb (attempt + 1) attempts
            then retried
            else record {
              breaker = conclude (clock attempt) r.status_code b;
              reply = returned r;
              delays = sent;
            }
        | connect_error ↦ attempt_loop left (attempt + 1) attempts idem connect b sent
        | timeout_exception ↦ attempt_loop left (attempt + 1) attempts idem timed b sent
        | other_exception ↦ record { breaker = b; reply = propagated; delays = sent }
      ]

  -- One dispatch on a breaker; `is_get` is `method.upper() == "GET"`, `now` the time of the check.
  unfoldable pub dispatch : ℕ → Bool → CircuitBreaker → Dispatched
  unfolding is_open attempt_loop
  dispatch now is_get b =
      let (b', rejected) = is_open now b in
      let attempts = if is_get then max_attempts else 1 in
      let sent = attempt_loop attempts 0 attempts is_get no_exc b' [] in
      if rejected then record { breaker = b'; reply = circuit_open; delays = [] } else sent

  -- `_dispatch_with_retry`: the registry afterwards, and what happened.
  unfoldable pub dispatch_with_retry : Text → ℕ → Bool → Registry → Registry × Dispatched
  unfolding dispatch get put
  dispatch_with_retry service_name now is_get r =
      let (r', b) = get service_name r in
      let d = dispatch now is_get b in (put service_name d.breaker r', d)
