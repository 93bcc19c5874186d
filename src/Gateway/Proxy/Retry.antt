-- ===== src/Gateway/Proxy/Retry.antt =====
-- services/api-gateway/app/routes/proxy.py: what a dispatch sends, returns and records.
use microservices_project.Prelude.{
  ℕ, suc, ◌≡◌, ◌∙◌, ◌≢◌, Bool, true, false, not, [], ◌∷◌, arith, if◌then◌else◌, take, nat_eq,
}
use microservices_project.Prelude.Text.{Text, text_eq}
use microservices_project.Prelude.Dict.{lookup}
use microservices_project.Gateway.Breaker.{CircuitBreaker, is_open, record_success, record_failure}
use microservices_project.Gateway.Breaker.Registry.{Registry, lookup-put_ne, lookup-get_ne}
use microservices_project.Gateway.Proxy.Dispatch.{
  Outcome, response, connect_error, timeout_exception, other_exception, Reply, returned,
  circuit_open, unreachable, timed_out, propagated, is_retryable, dispatch, dispatch_with_retry,
  status,
}

-- An outcome that a further attempt may replace.
abbrev pub is_transient : Outcome → Bool
is_transient (response r) = is_retryable r.status_code
is_transient connect_error = true
is_transient timeout_exception = true
is_transient other_exception = false

-- The attempt whose outcome counts: the first that is not transient, or the last of three; the
-- only one, if the method is not GET.
abbrev pub settled_at : (ℕ → Outcome) → Bool → ℕ
settled_at request false = 0
settled_at request true =
    if not (is_transient (request 0)) then 0 else if not (is_transient (request 1)) then 1 else 2

-- The reply that an outcome makes.
abbrev pub settle : Outcome → Reply
settle (response r) = returned r
settle connect_error = unreachable
settle timeout_exception = timed_out
settle other_exception = propagated

-- What it records: one success, one failure, or nothing.
abbrev pub settle_breaker : ℕ → ℕ → Outcome → CircuitBreaker → CircuitBreaker
settle_breaker at after (response r) b =
    if is_retryable r.status_code then record_failure at b else record_success b
settle_breaker at after connect_error b = record_failure after b
settle_breaker at after timeout_exception b = record_failure after b
settle_breaker at after other_exception b = b

module _ (request : ℕ → Outcome) (clock : ℕ → ℕ) where
  -- A dispatch that the breaker admits sends one request if the method is not GET, and otherwise
  -- requests until one is not transient, three at most, after 0, 100 and 200 milliseconds. The
  -- reply is that of the last request sent. The breaker records that reply once: a failure for
  -- 502, 503, 504 and the two caught exceptions, a success for every other response, also 500,
  -- and nothing for another exception. So the error for exhausted attempts is never raised.
  pub dispatch_settles :
      (now : ℕ) (is_get : Bool) (b : CircuitBreaker)
      → (is_open now b).1 ≡ false
      → let d = dispatch request clock now is_get b in
        let k = settled_at request is_get in
        (d.reply ≡ settle (request k))
        × (d.delays ≡ take (suc k) (0 ∷ 100 ∷ 200 ∷ []))
        × (d.breaker
            ≡ settle_breaker
                (clock k)
                (clock (if is_get then 3 else 1))
                (request k)
                (is_open now b).0)
  unfolding dispatch
  dispatch_settles now is_get b h = ground arith

  -- A dispatch that the breaker rejects sends nothing, leaves the breaker as it was, and answers
  -- 503.
  pub dispatch_fails_fast :
      (now : ℕ) (is_get : Bool) (b : CircuitBreaker)
      → (is_open now b).1 ≡ true
      → let d = dispatch request clock now is_get b in
        (d.delays ≡ []) × (d.reply ≡ circuit_open) × (d.breaker ≡ b) × (status d.reply ≡ 503)
  unfolding dispatch status
  dispatch_fails_fast now is_get b h = ground arith

  -- A dispatch to one service leaves every other service's breaker alone.
  pub dispatch_with_retry-isolates :
      (service_name other : Text) (now : ℕ) (is_get : Bool) (r : Registry)
      → other ≢ service_name
      → lookup other (dispatch_with_retry request clock service_name now is_get r).0
        ≡ lookup other r
  unfolding dispatch_with_retry
  dispatch_with_retry-isolates service_name other now is_get r ne =
      lookup-put_ne service_name other _ _ ne ∙ lookup-get_ne service_name other r ne
