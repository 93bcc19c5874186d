-- ===== src/Gateway/Auth/Accepts.antt =====
-- services/api-gateway/app/middleware/auth.py: what an identity rests on.
use microservices_project.Prelude.{
  ◌≡◌, refl, ◌↔◌, inl, inr, true, false, Option, none, some, arith, Option-cases, nat_eq, Result,
  ok, err,
}
use microservices_project.Prelude.{drop}
use microservices_project.Prelude.Text.{Text, strip}
use microservices_project.Gateway.Keyring.{Keyring, KeyringError, select_verification_key}
use microservices_project.Gateway.Auth.{
  Jwt, Payload, claims, Identified, identified, anonymous, Exempt, is_exempt, dispatch, check_token,
  identify, Decoded, expired, invalid,
}

-- What the middleware found on its way to an identity.
pub record Grounds (j : Jwt) (ring : Result KeyringError Keyring) (token : Text) (who : Identified)
    : Type 0 where
  pub keyring : Keyring
  pub kid : Option Text
  pub secret : Text
  pub payload : Payload
  pub parsed : ring ≡ ok keyring
  pub header : j.get_unverified_header token ≡ some kid
  pub selected : select_verification_key keyring kid ≡ some secret
  pub decoded : j.decode token secret ≡ claims payload
  pub is_uuid : j.uuid payload.sub ≡ some who.user_id
  pub email : who.user_email ≡ payload.email
  pub roles : who.user_roles ≡ payload.roles

identify-Grounds :
    (j : Jwt) (keyring : Keyring) (kid : Option Text) (secret token : Text) (who : Identified)
    → j.get_unverified_header token ≡ some kid
    → select_verification_key keyring kid ≡ some secret
    → identify j token secret ≡ identified who
    → Grounds j (ok keyring) token who
identify-Grounds j keyring kid secret token who h s e = by_claims (j.decode token secret) refl
  where
    by_uuid :
        (p : Payload)
        → j.decode token secret ≡ claims p
        → (u : Option Text) → j.uuid p.sub ≡ u
        → Grounds j (ok keyring) token who
    by_uuid p d none n = absurd (ground arith)
    by_uuid p d (some u) n = record {
      keyring = keyring;
      kid = kid;
      secret = secret;
      payload = p;
      parsed = refl;
      header = h;
      selected = s;
      decoded = d;
      is_uuid = ground arith;
      email = ground arith;
      roles = ground arith;
    }

    by_claims : (d : Decoded) → j.decode token secret ≡ d → Grounds j (ok keyring) token who
    by_claims (claims p) d = by_uuid p d (j.uuid p.sub) refl
    by_claims expired d = absurd (ground arith)
    by_claims invalid d = absurd (ground arith)

check_token-Grounds :
    (j : Jwt) (ring : Result KeyringError Keyring) (token : Text) (who : Identified)
    → check_token j ring token ≡ identified who
    → Grounds j ring token who
unfolding check_token
check_token-Grounds j (err bad) token who e = absurd (ground arith)
check_token-Grounds j (ok keyring) token who e =
    elim (Option-cases (j.get_unverified_header token)) [
      | inl malformed ↦ absurd (ground arith)
      | inr (kid, header) ↦ elim (Option-cases (select_verification_key keyring kid)) [
        | inl unknown ↦ absurd (ground arith)
        | inr (secret, selected) ↦
            identify-Grounds j keyring kid secret token who header selected (ground arith)
      ]
    ]

-- An identity that goes on comes from a token that the key of its own kid, taken from a ring that
-- parsed, verifies; its user id is the canonical text of the UUID in `sub`, and its email and
-- roles are those of the claims. Its path is not exempt.
pub dispatch_sound :
    (j : Jwt) (exempt : Exempt) (ring : Result KeyringError Keyring) (path authorization : Text)
    (who : Identified)
    → dispatch j exempt ring path authorization ≡ identified who
    → Grounds j ring (strip (drop 7 authorization)) who × (is_exempt exempt path ≡ false)
unfolding dispatch
dispatch_sound j exempt ring path authorization who e =
    (check_token-Grounds j ring (strip (drop 7 authorization)) who (ground arith), ground arith)

-- A request goes on without an identity exactly where its path is exempt.
pub dispatch_anonymous :
    (j : Jwt) (exempt : Exempt) (ring : Result KeyringError Keyring) (path authorization : Text)
    → (dispatch j exempt ring path authorization ≡ anonymous) ↔ (is_exempt exempt path ≡ true)
unfolding dispatch check_token
dispatch_anonymous j exempt ring path authorization = ground arith
