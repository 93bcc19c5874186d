-- ===== src/Gateway/Pipeline.antt =====
-- services/api-gateway/app/main.py: the middleware stack. Starlette runs the middleware that is
-- added last first, so a request passes the body limit, the authentication, the correlation and
-- the rate limiter, in this order. The headers that CORS and the security headers add to a
-- response and the metrics change no decision and are left out.
pub mod Order
use microservices_project.Prelude.{
  ℕ, zero, suc, ◌+◌, ◌-◌, ◌*◌, ◌≤◌, ◌<◌, ◌≡◌, refl, sym, ap, ◌∙◌, ◌≢◌, ◌↔◌, ◌⊎◌, inl, inr, Bool,
  true, false, not, ◌&&◌, ◌||◌, Option, none, some, List, [], ◌∷◌, ◌++◌, map, arith, ltb, leb, ◌==◌,
  if◌then◌else◌, Bool-cases, Option-cases, length, All, elem, get_elem?, take, filter, tests, Eq,
  nat_eq, Result, ok, err, ◌>>=◌, ◌>>◌, require, ok_or,
}
use microservices_project.Prelude.Text.{Text, codes}
use microservices_project.Gateway.Keyring.{Keyring, KeyringError}
use microservices_project.Gateway.Auth as Auth
use microservices_project.Gateway.Auth.{Jwt, Exempt, Identified, identified, anonymous, reject}
use microservices_project.Gateway.BodySize as BodySize
use microservices_project.Gateway.BodySize.{
  Message, App, call_next, Answer, answered, declared_too_large,
}
use microservices_project.Gateway.Correlation.{sanitize_or_generate}
use microservices_project.Gateway.RateLimiter as RateLimiter
use microservices_project.Gateway.RateLimiter.{Limits, RateHeaders, extract_client_ip}

-- What the stack reads of a request, the clock and a UUID for it.
pub record Arrival : Type 0 where
  pub path : Text
  pub authorization : Text
  pub content_length : Option Text
  pub x_request_id : Option Text
  pub x_real_ip : Text
  pub client : Option Text
  pub body : List Message
  pub wall : ℕ
  pub generated : Text

-- The arguments of the `add_middleware` calls.
pub record Config : Type 0 where
  pub max_bytes : ℕ
  pub exempt : Exempt
  pub ring : Result KeyringError Keyring
  pub limits : Limits
  pub unicode : ℕ → Bool

-- How a request leaves the stack: answered by a middleware, or given to the router with its identity
-- and request id, and then answered by the router, or by the body limit in its place.
pub data Outcome (R : Type 0) : Type 0 where
  too_large : Outcome R
  rejected : ℕ → Text → Outcome R
  limited : RateHeaders → Outcome R
  routed : Option Identified → (request_id : Text) → (response : Answer R) → Outcome R

-- The exemptions that `main.py` configures.
abbrev pub exempt_of_main : Exempt
exempt_of_main = record {
  paths = codes "/health" ∷ codes "/health/ready" ∷ codes "/metrics" ∷ [];
  prefixes = codes "/api/v1/auth/" ∷ [];
}

abbrev pub user_id_of : Option Identified → Text
user_id_of none = []
user_id_of (some who) = who.user_id

module _ {S R : Type 0} (check : Text → ℕ → ℕ → S → S × (Bool × ℕ)) (j : Jwt) (c : Config)
    (router : Arrival → Option Identified → Text → App R) where
  -- The router, and what it forwards to, runs over the counter of the body limit, and has run when
  -- the limit looks at its mark. No middleware reads the body.
  unfoldable pub route : Arrival → Option Identified → Text → Outcome R
  route a who request_id =
      let (counter, r) =
        call_next c.max_bytes (router a who request_id) a.body
          (record { received = 0; oversize = false }) in
      routed who request_id (if counter.oversize then BodySize.too_large else answered r)

  -- From the rate limiter on.
  unfoldable pub limit : Arrival → Option Identified → S → S × Outcome R
  unfolding route
  limit a who s =
      let ip = extract_client_ip c.unicode a.x_real_ip a.client in
      let request_id = sanitize_or_generate c.unicode a.x_request_id a.generated in
      let (s', verdict) = RateLimiter.dispatch check c.limits a.wall a.path ip (user_id_of who) s in
      elim verdict [
        | RateLimiter.too_many retry_after headers ↦ (s', limited headers)
        | RateLimiter.exempt ↦ (s', route a who request_id)
        | RateLimiter.forwarded headers ↦ (s', route a who request_id)
      ]

  unfoldable pub handle : Arrival → S → S × Outcome R
  unfolding limit
  handle a s =
      if declared_too_large c.max_bytes a.content_length
      then (s, too_large)
      else elim (Auth.dispatch j c.exempt c.ring a.path a.authorization) [
        | reject status detail ↦ (s, rejected status detail)
        | anonymous ↦ limit a none s
        | identified who ↦ limit a (some who) s
      ]
