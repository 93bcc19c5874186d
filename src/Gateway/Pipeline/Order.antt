-- ===== src/Gateway/Pipeline/Order.antt =====
-- services/api-gateway/app/main.py: what the order of the middleware means.
use mathlib.Core.Path.{subst}
use microservices_project.Prelude.{
  ℕ, ◌≤◌, ◌≡◌, refl, sym, ap, ◌∙◌, Bool, true, false, Option, none, some, List, arith, ltb,
  if◌then◌else◌, nat_eq,
}
use microservices_project.Prelude.{drop}
use microservices_project.Prelude.Text.{Text, strip}
use microservices_project.Gateway.Auth as Auth
use microservices_project.Gateway.Auth.{
  Jwt, Exempt, Identified, identified, anonymous, reject, is_exempt,
}
use microservices_project.Gateway.Auth.Accepts.{Grounds, dispatch_sound, dispatch_anonymous}
use microservices_project.Gateway.BodySize as BodySize
use microservices_project.Gateway.BodySize.{Message, App, Answer, answered}
use microservices_project.Gateway.BodySize.Counting.{
  total, unlimited, handed, start, dispatch_limits,
}
use microservices_project.Gateway.Correlation.{sanitize_or_generate}
use microservices_project.Gateway.RateLimiter as RateLimiter
use microservices_project.Gateway.RateLimiter.{extract_client_ip}
use microservices_project.Gateway.RateLimiter.Budget.{is_forwarded}
use microservices_project.Gateway.Pipeline.{
  Arrival, Config, routed, user_id_of, route, limit, handle,
}

module _ {S R : Type 0} (check : Text → ℕ → ℕ → S → S × (Bool × ℕ)) (j : Jwt) (c : Config)
    (router : Arrival → Option Identified → Text → App R) where
  -- Who a routed request is from: nobody, on an exempt path, or the owner of a token that
  -- verifies.
  abbrev pub Admits : Arrival → Option Identified → Type 0
  Admits a none = is_exempt c.exempt a.path ≡ true
  Admits a (some who) =
      Grounds j c.ring (strip (drop 7 a.authorization)) who × (is_exempt c.exempt a.path ≡ false)

  -- What the router reads of a body that nothing limits, and its answer.
  abbrev pub whole : Arrival → Option Identified → Text → List Message × R
  whole a who request_id = unlimited (router a who request_id) a.body

  abbrev pub reply : Arrival → Option Identified → Text → Answer R
  reply a who request_id =
      if ltb c.max_bytes (total (whole a who request_id).0)
      then BodySize.too_large
      else answered (whole a who request_id).1

  -- The rate limiter lets the request through.
  abbrev pub IsLet : Arrival → Option Identified → S → Type 0
  IsLet a who s =
      is_forwarded
        (RateLimiter.dispatch check c.limits a.wall a.path
          (extract_client_ip c.unicode a.x_real_ip a.client) (user_id_of who) s).1
      ≡ true

  -- What a routed request has passed, beside the authentication, and what the router is handed of its
  -- body.
  abbrev pub Passed : Arrival → Option Identified → Text → Answer R → S → Type 0
  Passed a who request_id response s =
      (request_id ≡ sanitize_or_generate c.unicode a.x_request_id a.generated)
      × (total (handed c.max_bytes (router a who request_id) a.body start) ≤ c.max_bytes)
      × (response ≡ reply a who request_id)
      × IsLet a who s

  route-reply :
      (a : Arrival) (who : Option Identified) (id : Text)
      → route check j c router a who id ≡ routed who id (reply a who id)
  unfolding route BodySize.dispatch
  route-reply a who id = ap (routed who id) (dispatch_limits c.max_bytes a.body (router a who id)).1

  routed_same :
      (who who' : Option Identified) (id id' : Text) (r r' : Answer R)
      → routed who id r ≡ routed who' id' r'
      → (who' ≡ who) × (id' ≡ id) × (r' ≡ r)
  routed_same who who' id id' r r' e = ground arith

  limit-IsLet :
      (a : Arrival) (who who' : Option Identified) (id : Text) (response : Answer R) (s : S)
      → (limit check j c router a who s).1 ≡ routed who' id response
      → (route check j c router a who (sanitize_or_generate c.unicode a.x_request_id a.generated)
          ≡ routed who' id response)
        × IsLet a who s
  unfolding limit
  limit-IsLet a who who' id response s e = ground arith

  limit-routed :
      (a : Arrival) (who who' : Option Identified) (id : Text) (response : Answer R) (s : S)
      → (limit check j c router a who s).1 ≡ routed who' id response
      → (who' ≡ who) × Passed a who id response s
  limit-routed a who who' id response s e =
      let given = sanitize_or_generate c.unicode a.x_request_id a.generated in
      let (at, forwarded) = limit-IsLet a who who' id response s e in
      let (same, known, r) =
        routed_same who who' given id (reply a who given) response
          (sym (route-reply a who given) ∙ at) in
      let within = (dispatch_limits c.max_bytes a.body (router a who id)).0 in
      (same, (known, within, r ∙ ap (reply a who) (sym known), forwarded))

  admitted :
      (a : Arrival) (who : Option Identified) (id : Text) (response : Answer R) (s : S)
      (d : Auth.Decision)
      → Auth.dispatch j c.exempt c.ring a.path a.authorization ≡ d
      → (handle check j c router a s).1 ≡ routed who id response
      → Admits a who × Passed a who id response s
  unfolding handle
  admitted a who id response s (reject status detail) d e = absurd (ground arith)
  admitted a who id response s anonymous d e =
      let l = limit-routed a none who id response s (ground arith) in
      let open_path = (dispatch_anonymous j c.exempt c.ring a.path a.authorization).0 d in
      subst (λ w. Admits a w × Passed a w id response s) (sym l.0) (open_path, l.1)
  admitted a who id response s (identified w) d e =
      let l = limit-routed a (some w) who id response s (ground arith) in
      let sound = dispatch_sound j c.exempt c.ring a.path a.authorization w d in
      subst (λ v. Admits a v × Passed a v id response s) (sym l.0) (sound, l.1)

  -- What reaches the router comes from nobody on an exempt path, or from the owner of a token
  -- that verifies; it has a sanitized request id, and the rate limiter let it pass under that
  -- owner's user id. Whatever the router does with the body, it is handed no more of it than the
  -- limit; the client gets the answer that the router would give without a limit where what it would
  -- read then is within it, and 413 in place of the router's response where it is not.
  pub handle-routed :
      (a : Arrival) (who : Option Identified) (request_id : Text) (response : Answer R) (s : S)
      → (handle check j c router a s).1 ≡ routed who request_id response
      → Admits a who × Passed a who request_id response s
  handle-routed a who request_id response s e =
      admitted a who request_id response s (Auth.dispatch j c.exempt c.ring a.path a.authorization)
        refl e
