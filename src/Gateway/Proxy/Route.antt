-- ===== src/Gateway/Proxy/Route.antt =====
-- services/api-gateway/app/routes/proxy.py: the route `proxy`. The HTTP client is a parameter: the
-- outcome of each attempt, and what comes of a stream.
use microservices_project.Prelude.{
  ℕ, Bool, true, false, not, ◌&&◌, Option, none, some, List, [], ◌∷◌, ◌++◌, ◌==◌, if◌then◌else◌,
  elem, filter, nat_eq,
}
use microservices_project.Prelude.Text.{Text, codes, text_eq, starts_with, lower}
use microservices_project.Gateway.Breaker.{CircuitBreaker, is_open, record_success, record_failure}
use microservices_project.Gateway.Breaker.Registry.{Registry, get, put}
use microservices_project.Gateway.Proxy.Headers.{hop_by_hop, header, resolve_upstream}
use microservices_project.Gateway.Proxy.Dispatch.{Outcome, Reply, dispatch_with_retry}

-- A stream from upstream: it cannot be opened, or it is opened with a status, and yields its chunks
-- until it ends or raises.
pub data Stream : Type 0 where
  unopened : Stream
  opened : (status_code : ℕ) → (chunks : List Text) → (raised : Bool) → Stream

-- What the route answers: an `HTTPException`, a stream, or what the dispatch replies.
pub data Answer : Type 0 where
  http_exception : (status_code : ℕ) → Answer
  streaming : (status_code : ℕ) → (chunks : List Text) → Answer
  replied : Reply → Answer

pub record Call : Type 0 where
  pub path : Text
  pub query : Text
  pub method : Text
  pub headers : List (Text × Text)

-- The URL that is called.
unfoldable pub target : Text → Call → Text
target upstream_url call =
    let url = upstream_url ++ call.path in
    elim call.query [ [] ↦ url | c ∷ cs ↦ url ++ codes "?" ++ c ∷ cs ]

-- `is_sse and request.method.upper() == "GET"`; ASCII texts have the same upper case when they have
-- the same lower case.
unfoldable pub is_stream : Call → Bool
is_stream call =
    starts_with (header (codes "accept") call.headers) (codes "text/event-stream")
    && lower call.method == codes "get"

-- `_sse_generator`, to its end: the breaker afterwards, and the chunks that were sent. `failed_at` is
-- the time of a failure.
unfoldable pub sse_generator :
    (failed_at : ℕ) → Stream → CircuitBreaker → CircuitBreaker × List Text
sse_generator failed_at unopened b = (record_failure failed_at b, [])
sse_generator failed_at (opened status_code chunks false) b = (record_success b, chunks)
sse_generator failed_at (opened status_code chunks true) b =
    (record_failure failed_at (record_success b), chunks)

-- The headers of the response that are passed on.
unfoldable pub response_headers : List (Text × Text) → List (Text × Text)
response_headers hs = filter (λ h. not (elem (lower h.0) hop_by_hop)) hs

module _ (request : ℕ → Outcome) (clock : ℕ → ℕ) (stream : Text → Stream) (failed_at : ℕ) where
  abbrev pub stream_from : Text → Text → ℕ → Registry → Registry × Answer
  stream_from url service_name now r =
      let (r', b) = get service_name r in
      let (b', rejected) = is_open now b in
      let (b'', chunks) = sse_generator failed_at (stream url) b' in
      if rejected
      then (put service_name b' r', http_exception 503)
      else (put service_name b'' r', streaming 200 chunks)

  abbrev pub forward : Call → Text × Text → ℕ → Registry → Registry × Answer
  forward call (upstream_url, service_name) now r =
      let streamed = stream_from (target upstream_url call) service_name now r in
      let (r', d) =
        dispatch_with_retry request clock service_name now (lower call.method == codes "get") r in
      if is_stream call then streamed else (r', replied d.reply)

  abbrev pub forward_to : Bool → Call → Option (Text × Text) → ℕ → Registry → Registry × Answer
  forward_to ready call none now r = (r, http_exception 404)
  forward_to ready call (some upstream) now r =
      let forwarded = forward call upstream now r in
      if ready then forwarded else (r, http_exception 503)

  -- `ready` is whether the HTTP client is there.
  unfoldable pub proxy : Bool → List (Text × Text) → Call → (now : ℕ) → Registry → Registry × Answer
  proxy ready routes call now r = forward_to ready call (resolve_upstream call.path routes) now r
