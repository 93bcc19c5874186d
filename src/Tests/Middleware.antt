-- ===== src/Tests/Middleware.antt =====
-- services/api-gateway/app/middleware/ and app/main.py: requests through the stack.
use microservices_project.Prelude.{
  ◌+◌, Option, ℕ, ◌≤◌, ◌≡◌, refl, true, false, ◌&&◌, none, some, List, [], ◌∷◌, arith, ltb, ◌==◌,
  if◌then◌else◌, length, nat_eq, ok,
}
use microservices_project.Prelude.{drop, elem}
use microservices_project.Prelude.Text.{Text, codes, text_eq, text_beq, strip, lower, starts_with}
use microservices_project.Gateway.Config.{
  parse_origins, coerce_to_string, listed, parse_origins-coerce_to_string,
}
use microservices_project.Gateway.SecurityHeaders as SecurityHeaders
use microservices_project.Gateway.SecurityHeaders.{
  credential_paths, security_headers, headers_to_remove, no_store,
}
use microservices_project.Gateway.SecurityHeaders.Values.{
  values, assigned, override, values-dispatch,
}
use microservices_project.Gateway.RateLimiter as RateLimiter
use microservices_project.Gateway.RateLimiter.{
  Buckets, Limits, check_and_increment, get_bucket, hit, prune, answer, ip_key, extract_client_ip,
}
use microservices_project.Gateway.RateLimiter.Window.{bucket_after, in_window}
use microservices_project.Gateway.RateLimiter.Tracking.{bucket_of}
use microservices_project.Gateway.RateLimiter.Budget.{dispatch-le-limit}
use microservices_project.Gateway.Keyring.{Keyring, select_verification_key}
use microservices_project.Gateway.Auth as Auth
use microservices_project.Gateway.Auth.{
  Jwt, Payload, claims, invalid, Identified, identified, anonymous, reject, is_exempt, check_token,
}
use microservices_project.Gateway.Auth.Accepts.{Grounds, dispatch_sound}
use microservices_project.Gateway.BodySize.{
  Message, request, App, respond, receive, call_next, counting_receive, dispatch, too_large,
  answered,
}
use microservices_project.Gateway.BodySize.Counting.{
  size, total, handed, unlimited, start, dispatch_limits,
}
use microservices_project.Gateway.Correlation.{sanitize_or_generate}
use microservices_project.Gateway.Pipeline.{Arrival, Config, exempt_of_main, handle, route}
use microservices_project.Gateway.Pipeline.Order.{handle-routed, Admits, Passed}

abbrev limits : Limits
limits = record {
  max_requests = 3;
  window_seconds = 60;
  auth_max_requests = 2;
  user_max_requests = 5;
}

abbrev path : Text
path = codes "/t"

abbrev host : Text
host = codes "ip"

abbrev history : List ℕ
history = 10 ∷ 20 ∷ []

abbrev buckets : Buckets
buckets = (ip_key path host, history) ∷ []

known : bucket_of (ip_key path host) buckets ≡ bucket_after 60 [] history
unfolding bucket_after hit prune text_beq
known = refl

dispatch-le-limit_example : length (in_window 60 30 (10 ∷ 20 ∷ 30 ∷ [])) ≤ 3
unfolding RateLimiter.dispatch text_beq check_and_increment get_bucket hit prune answer
dispatch-le-limit_example =
    dispatch-le-limit limits 30 1000 path host [] history buckets refl (ground arith) known refl

-- A token library that knows one token, `t`, signed with `s`.
abbrev jwt : Jwt
jwt = record {
  get_unverified_header = λ token. some none;
  decode = λ token secret.
      if token == codes "t" && secret == codes "s"
      then claims (record { sub = codes "u"; email = none; roles = codes "user" ∷ [] })
      else invalid;
  uuid = λ s. some s;
}

abbrev ring : Keyring
ring = (codes "default", codes "s") ∷ []

abbrev owner : Identified
owner = record { user_id = codes "u"; user_email = none; user_roles = codes "user" ∷ [] }

dispatch_sound_example :
    Grounds jwt (ok ring) (strip (drop 7 (codes "Bearer t"))) owner
    × (is_exempt exempt_of_main path ≡ false)
unfolding Auth.dispatch is_exempt check_token select_verification_key strip text_beq starts_with
    lower
dispatch_sound_example =
    dispatch_sound jwt exempt_of_main (ok ring) path (codes "Bearer t") owner refl

abbrev pieces : List Message
pieces = request (1 ∷ 2 ∷ []) true ∷ request (3 ∷ []) false ∷ []

-- A handler that reads both pieces and answers with how much it has.
abbrev reader : App ℕ
reader = receive (λ m. receive (λ m'. respond (size m + size m')))

dispatch_limits_example :
    total (handed 2 reader pieces start) ≤ 2
    × dispatch 2 none pieces reader ≡ (if ltb 2 3 then too_large else answered 3)
unfolding unlimited
dispatch_limits_example = dispatch_limits 2 pieces reader

abbrev config : Config
config = record {
  max_bytes = 5;
  exempt = exempt_of_main;
  ring = ok ring;
  limits = limits;
  unicode = λ c. false;
}

abbrev arrival : Arrival
arrival = record {
  path = path;
  authorization = codes "Bearer t";
  content_length = none;
  x_request_id = none;
  x_real_ip = [];
  client = some host;
  body = pieces;
  wall = 1000;
  generated = codes "g";
}

abbrev intruder : Arrival
intruder = record arrival { authorization = [] }

abbrev router : Arrival → Option Identified → Text → App ℕ
router a who request_id = reader

handle-routed_example :
    Admits (check_and_increment 30) jwt config router arrival (some owner)
    × Passed
        (check_and_increment 30)
        jwt
        config
        router
        arrival
        (some owner)
        (codes "g")
        (answered 3)
        []
unfolding handle Auth.dispatch text_beq starts_with lower select_verification_key strip
    RateLimiter.dispatch check_and_increment extract_client_ip route call_next counting_receive
    sanitize_or_generate
handle-routed_example =
    handle-routed (check_and_increment 30) jwt config router arrival (some owner) (codes "g")
      (answered 3) [] refl

values-dispatch_example :
    let path = codes "/api/v1/auth/login" in
    let n = codes "x-frame-options" in
    let hs : SecurityHeaders.Headers =
      (codes "server", codes "uvicorn") ∷ (codes "x-frame-options", codes "ALLOW") ∷ [] in
    let given = override (values n hs) (assigned n security_headers) in
    values n (SecurityHeaders.dispatch path hs) ≡ (
      if elem n headers_to_remove
      then []
      else (if elem path credential_paths then override given (assigned n no_store) else given))
values-dispatch_example =
    values-dispatch (codes "/api/v1/auth/login") (codes "x-frame-options")
      ((codes "server", codes "uvicorn") ∷ (codes "x-frame-options", codes "ALLOW") ∷ [])

parse_origins-coerce_to_string_example :
    parse_origins (λ s. none) (coerce_to_string (listed (codes "ab" ∷ codes "c" ∷ [])))
    ≡ codes "ab" ∷ codes "c" ∷ []
parse_origins-coerce_to_string_example =
    parse_origins-coerce_to_string (λ s. none) 97 (codes "b") (codes "c" ∷ [])
      (
        (refl, (refl, (refl, tt)), ((λ e. ground arith), ((λ e. ground arith), tt))),
        ((refl, (refl, tt), ((λ e. ground arith), tt)), tt),
      )
      refl
