-- ===== src/Gateway/Auth.antt =====
-- services/api-gateway/app/middleware/auth.py: `JWTAuthMiddleware`. The JWT library and
-- `uuid.UUID` are parameters.
pub mod Accepts
use microservices_project.Prelude.{
  ℕ, zero, suc, ◌+◌, ◌-◌, ◌*◌, ◌≤◌, ◌<◌, ◌≡◌, refl, sym, ap, ◌∙◌, ◌≢◌, ◌↔◌, ◌⊎◌, inl, inr, Bool,
  true, false, not, ◌&&◌, ◌||◌, Option, none, some, List, [], ◌∷◌, ◌++◌, map, arith, ltb, leb, ◌==◌,
  if◌then◌else◌, Bool-cases, Option-cases, length, All, elem, get_elem?, take, filter, tests, Eq,
  nat_eq, Result, ok, err, ◌>>=◌, ◌>>◌, require, ok_or,
}
use microservices_project.Prelude.{drop}
use microservices_project.Prelude.Text.{Text, text_eq, codes, strip, lower, starts_with}
use microservices_project.Gateway.Keyring.{
  Keyring, KeyringError, parse_keyring, select_verification_key,
}

-- The claims that are read: `sub` as text, and the two that are passed on.
pub record Payload : Type 0 where
  pub sub : Text
  pub email : Option Text
  pub roles : List Text

-- What `jwt.decode` does: it returns the claims, raises `ExpiredSignatureError`, or raises
-- another `InvalidTokenError`.
pub data Decoded : Type 0 where
  claims : Payload → Decoded
  expired invalid : Decoded

-- `get_unverified_header` is `none` where it raises, and else the kid or none. `decode` is given
-- the token and the secret. `uuid` is the canonical text of a UUID, or none where it raises.
pub record Jwt : Type 0 where
  pub get_unverified_header : Text → Option (Option Text)
  pub decode : Text → Text → Decoded
  pub uuid : Text → Option Text

-- `request.state` after the middleware.
pub record Identified : Type 0 where
  pub user_id : Text
  pub user_email : Option Text
  pub user_roles : List Text

-- An exempt request goes on without an identity, a validated one with it.
pub data Decision : Type 0 where
  anonymous : Decision
  identified : Identified → Decision
  reject : ℕ → Text → Decision

pub record Exempt : Type 0 where
  pub paths : List Text
  pub prefixes : List Text

any_prefix : Text → List Text → Bool
any_prefix path [] = false
any_prefix path (p ∷ ps) = starts_with path p || any_prefix path ps

unfoldable pub is_exempt : Exempt → Text → Bool
unfolding any_prefix
is_exempt e path = elem path e.paths || any_prefix path e.prefixes

module _ (j : Jwt) where
  -- The `try` around `jwt.decode`.
  abbrev pub identify : Text → Text → Decision
  identify token secret = elim (j.decode token secret) [
    | claims payload ↦ elim (j.uuid payload.sub) [
      | none ↦ reject 401 (codes "Invalid token claims")
      | some user_id ↦
          identified
            (record { user_id = user_id; user_email = payload.email; user_roles = payload.roles })
    ]
    | expired ↦ reject 401 (codes "Token expired")
    | invalid ↦ reject 401 (codes "Invalid token")
  ]

  -- From the kid of the header on, with the keyring or its error.
  unfoldable pub check_token : Result KeyringError Keyring → Text → Decision
  check_token ring token = elim (j.get_unverified_header token) [
    | none ↦ reject 401 (codes "Invalid token")
    | some kid ↦ elim ring [
      | err bad ↦ reject 500 (codes "Server misconfigured")
      | ok keyring ↦ elim (select_verification_key keyring kid) [
        | none ↦ reject 401 (codes "Invalid token")
        | some secret ↦ identify token secret
      ]
    ]
  ]

  -- `dispatch`, up to `call_next`; `authorization` is the header, or the empty text.
  unfoldable pub dispatch :
      Exempt → Result KeyringError Keyring → (path authorization : Text) → Decision
  unfolding is_exempt check_token
  dispatch exempt ring path authorization =
      let token = strip (drop 7 authorization) in
      if is_exempt exempt path
      then anonymous
      else if not (starts_with (lower authorization) (codes "bearer "))
      then reject 401 (codes "Missing or invalid Authorization header")
      else check_token ring token
