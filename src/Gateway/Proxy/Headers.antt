-- ===== src/Gateway/Proxy/Headers.antt =====
-- services/api-gateway/app/routes/proxy.py: `_resolve_upstream` and `_build_forward_headers`.
use microservices_project.Prelude.{
  ℕ, Bool, not, ◌&&◌, Option, none, some, List, [], ◌∷◌, ◌++◌, ◌==◌, if◌then◌else◌, elem, nat_eq,
}
use microservices_project.Prelude.Text.{Text, text_eq, codes, lower, starts_with, join, split}
use microservices_project.Prelude.Dict.{Dict, insert}
use microservices_project.Identity.{Crypto, sign_identity, is_empty}

-- The three service URLs of the settings.
pub record Urls : Type 0 where
  pub user_service : Text
  pub task_service : Text
  pub notification_service : Text

-- `ROUTE_MAP`
abbrev pub route_map : Urls → List (Text × Text)
route_map s =
    (codes "/api/v1/users", s.user_service)
    ∷ (codes "/api/v1/auth", s.user_service)
    ∷ (codes "/api/v1/tasks", s.task_service)
    ∷ (codes "/api/v1/projects", s.task_service)
    ∷ (codes "/api/v1/notifications", s.notification_service)
    ∷ []

-- `s.split("//")[-1]`, with the field so far.
last_field : Text → Text → Text
last_field field [] = field
last_field field (c ∷ []) = field ++ c ∷ []
last_field field (c ∷ d ∷ s) =
    let cut = last_field [] s in
    let longer = last_field (field ++ c ∷ []) (d ∷ s) in if c == 47 && d == 47 then cut else longer

abbrev first_or_empty : List Text → Text
first_or_empty [] = []
first_or_empty (f ∷ fs) = f

-- `upstream.split("//")[-1].split(":")[0]`
unfoldable pub service_name_of : Text → Text
unfolding last_field split
service_name_of upstream = first_or_empty (split 58 (last_field [] upstream))

-- The first prefix that fits; `none` is the `HTTPException` 404.
-- `_resolve_upstream`: the base URL and the service name.
unfoldable pub resolve_upstream : Text → List (Text × Text) → Option (Text × Text)
unfolding service_name_of
resolve_upstream path [] = none
resolve_upstream path ((prefix, upstream) ∷ rest) =
    let next = resolve_upstream path rest in
    if starts_with path prefix then some (upstream, service_name_of upstream) else next

abbrev pub hop_by_hop : List Text
hop_by_hop =
    codes "connection"
    ∷ codes "keep-alive"
    ∷ codes "transfer-encoding"
    ∷ codes "te"
    ∷ codes "trailers"
    ∷ codes "upgrade"
    ∷ codes "proxy-authorization"
    ∷ []

abbrev pub gateway_owned : List Text
gateway_owned =
    codes "x-user-id"
    ∷ codes "x-user-email"
    ∷ codes "x-user-roles"
    ∷ codes "x-forwarded-for"
    ∷ codes "x-forwarded-host"
    ∷ codes "x-forwarded-proto"
    ∷ codes "x-original-url"
    ∷ codes "x-rewrite-url"
    ∷ codes "host"
    ∷ codes "x-http-method-override"
    ∷ codes "x-method-override"
    ∷ codes "x-http-method"
    ∷ []

-- The request and its state. An absent value is the empty text: the code treats both alike.
pub record Request : Type 0 where
  pub headers : List (Text × Text)
  pub client_host : Text
  pub scheme : Text
  pub hostname : Text
  pub user_id : Text
  pub user_email : Text
  pub user_roles : List Text
  pub request_id : Text

-- `k.lower() not in _HOP_BY_HOP and k.lower() not in _GATEWAY_OWNED`
unfoldable pub is_kept : Text → Bool
is_kept k = not (elem (lower k) hop_by_hop) && not (elem (lower k) gateway_owned)

-- The dict comprehension, into the dict so far.
unfoldable pub keep_headers : List (Text × Text) → Dict Text Text → Dict Text Text
keep_headers [] d = d
keep_headers ((k, v) ∷ hs) d = keep_headers hs (if is_kept k then insert k v d else d)

-- `headers.get(name, "")`: the first header of that name, whatever the case of its letters.
unfoldable pub header : Text → List (Text × Text) → Text
header name [] = []
header name ((k, v) ∷ hs) = if lower k == lower name then v else header name hs

-- `headers[k] = v`, one after the other.
unfoldable pub assign : List (Text × Text) → Dict Text Text → Dict Text Text
assign [] d = d
assign ((k, v) ∷ l) d = assign l (insert k v d)

unfoldable pub forwarded_for : Request → Text
unfolding header
forwarded_for r =
    let prior = header (codes "x-forwarded-for") r.headers in
    if is_empty prior then r.client_host else prior ++ codes ", " ++ r.client_host

-- `,`
abbrev pub comma : ℕ
comma = 44

-- The headers of a validated identity, with its signature, in the order of the assignments.
unfoldable pub identity_headers : Crypto → Text → ℕ → Request → List (Text × Text)
unfolding sign_identity
identity_headers k secret now r =
    let roles = join comma r.user_roles in
    let (sig, issued_at) = sign_identity k secret r.user_id r.user_email roles now in
    let signed =
      (codes "X-User-Roles", roles)
      ∷ (codes "X-Identity-Signature", sig)
      ∷ (codes "X-Identity-Issued-At", issued_at)
      ∷ [] in
    (codes "X-User-Id", r.user_id)
    ∷ (if is_empty r.user_email then signed else (codes "X-User-Email", r.user_email) ∷ signed)

-- The assignments that follow the comprehension.
unfoldable pub injected : Crypto → Text → ℕ → Request → List (Text × Text)
unfolding forwarded_for identity_headers
injected k secret now r =
    (if is_empty r.client_host then [] else (codes "X-Forwarded-For", forwarded_for r) ∷ [])
    ++ ((codes "X-Forwarded-Proto", r.scheme)
        ∷ (codes "X-Forwarded-Host", r.hostname)
        ∷ ((if is_empty r.user_id then [] else identity_headers k secret now r)
            ++ (if is_empty r.request_id then [] else (codes "X-Request-ID", r.request_id) ∷ [])))

unfoldable pub build_forward_headers : Crypto → Text → ℕ → Request → Dict Text Text
unfolding keep_headers assign injected
build_forward_headers k secret now r = assign (injected k secret now r) (keep_headers r.headers [])
