-- ===== src/Gateway/SecurityHeaders.antt =====
-- services/api-gateway/app/middleware/security_headers.py. The headers of a response are its list of
-- names, in the lower case in which Starlette compares them, and values.
pub mod Values
use microservices_project.Prelude.{
  ℕ, zero, suc, ◌+◌, ◌-◌, ◌*◌, ◌≤◌, ◌<◌, ◌≡◌, refl, sym, ap, ◌∙◌, ◌≢◌, ◌↔◌, ◌⊎◌, inl, inr, Bool,
  true, false, not, ◌&&◌, ◌||◌, Option, none, some, List, [], ◌∷◌, ◌++◌, map, arith, ltb, leb, ◌==◌,
  if◌then◌else◌, Bool-cases, Option-cases, length, All, elem, get_elem?, take, filter, tests, Eq,
  nat_eq, Result, ok, err, ◌>>=◌, ◌>>◌, require, ok_or,
}
use microservices_project.Prelude.Text.{Text, codes, text_eq}

abbrev pub Headers : Type 0
Headers = List (Text × Text)

abbrev pub credential_paths : List Text
credential_paths =
    codes "/api/v1/auth/login"
    ∷ codes "/api/v1/auth/register"
    ∷ codes "/api/v1/auth/refresh"
    ∷ codes "/api/v1/users/me/password"
    ∷ []

abbrev pub security_headers : Headers
security_headers =
    (codes "x-content-type-options", codes "nosniff")
    ∷ (codes "x-frame-options", codes "DENY")
    ∷ (codes "x-xss-protection", codes "0")
    ∷ (codes "strict-transport-security", codes "max-age=63072000; includeSubDomains; preload")
    ∷ (codes "content-security-policy", codes "default-src 'none'; frame-ancestors 'none'")
    ∷ (codes "referrer-policy", codes "strict-origin-when-cross-origin")
    ∷ (
      codes "permissions-policy",
      codes "camera=(), microphone=(), geolocation=(), interest-cohort=(), payment=()",
    )
    ∷ []

abbrev pub headers_to_remove : List Text
headers_to_remove = codes "server" ∷ codes "x-powered-by" ∷ []

-- `del response.headers[name]`
abbrev pub remove_header : Text → Headers → Headers
remove_header name hs = filter (λ h. not (h.0 == name)) hs

-- `response.headers[name] = value`: in place of the first of the name, the others go.
abbrev pub set_header : Text → Text → Headers → Headers
set_header name value [] = (name, value) ∷ []
set_header name value ((n, v) ∷ hs) =
    let rest = set_header name value hs in
    if n == name then (name, value) ∷ remove_header name hs else (n, v) ∷ rest

abbrev pub set_all : Headers → Headers → Headers
set_all [] hs = hs
set_all ((name, value) ∷ ps) hs = set_all ps (set_header name value hs)

abbrev pub remove_all : List Text → Headers → Headers
remove_all [] hs = hs
remove_all (name ∷ names) hs = remove_all names (remove_header name hs)

abbrev pub no_store : Headers
no_store =
    (codes "cache-control", codes "no-store, no-cache, must-revalidate")
    ∷ (codes "pragma", codes "no-cache")
    ∷ []

-- The headers of the response, from those that the application gave it.
unfoldable pub dispatch : Text → Headers → Headers
dispatch path hs =
    let secured = set_all security_headers hs in
    let stored = if elem path credential_paths then set_all no_store secured else secured in
    remove_all headers_to_remove stored
