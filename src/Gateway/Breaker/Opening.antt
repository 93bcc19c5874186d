-- ===== src/Gateway/Breaker/Opening.antt =====
-- services/api-gateway/app/circuit_breaker.py: when a breaker opens, and how long it stays so.
use microservices_project.Prelude.{
  ℕ, ◌+◌, ◌≤◌, ◌<◌, ◌≡◌, ◌↔◌, true, false, List, [], ◌∷◌, arith, length,
}
use microservices_project.Gateway.Breaker.{
  closed, opened, half_open, CircuitBreaker, is_open, record_failure,
}

-- Failures at the given times, with nothing in between.
unfoldable pub fail_at : List ℕ → CircuitBreaker → CircuitBreaker
fail_at [] b = b
fail_at (t ∷ ts) b = fail_at ts (record_failure t b)

fail_at-opened :
    (ts : List ℕ) (b : CircuitBreaker) → b.state ≡ opened → (fail_at ts b).state ≡ opened
unfolding fail_at record_failure
fail_at-opened [] b h = h
fail_at-opened (t ∷ ts) b h = fail_at-opened ts (record_failure t b) (ground arith)

-- A closed breaker whose count is below the threshold opens exactly when the consecutive
-- failures bring the count to the threshold.
pub fail_at_opens :
    (ts : List ℕ) (b : CircuitBreaker)
    → b.state ≡ closed
    → b.failure_count < b.failure_threshold
    → ((fail_at ts b).state ≡ opened) ↔ (b.failure_threshold ≤ b.failure_count + length ts)
unfolding fail_at record_failure
fail_at_opens [] b c lt = ground arith
fail_at_opens (t ∷ ts) b c lt =
    ground (arith, fail_at-opened ts (record_failure t b), fail_at_opens ts (record_failure t b))

-- Whatever opens a half-open or closed breaker opens it for the whole recovery time: after a
-- failure at `t` that leaves it open, a check rejects until `t` plus the timeout, changing
-- nothing, and from then on it admits, in state half-open.
pub open_window :
    (t now : ℕ) (b : CircuitBreaker)
    → (record_failure t b).state ≡ opened
    → (now < t + b.recovery_timeout → is_open now (record_failure t b) ≡ (record_failure t b, true))
      × (t + b.recovery_timeout ≤ now
          → ((is_open now (record_failure t b)).1 ≡ false)
            × ((is_open now (record_failure t b)).0.state ≡ half_open))
unfolding is_open record_failure
open_window t now b o = ground arith

-- Checks at the given times, one after the other; the last breaker.
unfoldable pub check_at : List ℕ → CircuitBreaker → CircuitBreaker
check_at [] b = b
check_at (t ∷ ts) b = check_at ts (is_open t b).0

half_open-check : (now : ℕ) (b : CircuitBreaker) → b.state ≡ half_open → is_open now b ≡ (b, false)
unfolding is_open
half_open-check now b h = ground arith

-- A breaker that is half-open admits after any number of checks, and they leave it as it is.
pub half_open-admits :
    (ts : List ℕ) (now : ℕ) (b : CircuitBreaker)
    → b.state ≡ half_open
    → is_open now (check_at ts b) ≡ (b, false)
unfolding check_at
half_open-admits [] now b h = half_open-check now b h
half_open-admits (t ∷ ts) now b h = rw (half_open-check t b h) (half_open-admits ts now b h)
