-- ===== src/Identity.antt =====
-- services/_shared_identity_signing.py, of which services/*/app/identity_signing.py are copies:
-- the signed identity headers. HMAC-SHA256, base64 and `uuid.UUID` are parameters.
pub mod Envelope
pub mod Verify
use microservices_project.Prelude.{
  ℕ, zero, suc, ◌+◌, ◌-◌, ◌*◌, ◌≤◌, ◌<◌, ◌≡◌, refl, sym, ap, ◌∙◌, ◌≢◌, ◌↔◌, ◌⊎◌, inl, inr, Bool,
  true, false, not, ◌&&◌, ◌||◌, Option, none, some, List, [], ◌∷◌, ◌++◌, map, arith, ltb, leb, ◌==◌,
  if◌then◌else◌, Bool-cases, Option-cases, length, All, elem, get_elem?, take, filter, tests, Eq,
  nat_eq,
}
use microservices_project.Prelude.Text.{Text, text_beq, text_eq, codes}
use microservices_project.Prelude.Decimal.{ℤ, pos, negsuc, str, str_ℤ, int_of}

abbrev pub identity_max_age_seconds : ℕ
identity_max_age_seconds = 60

-- `|`
abbrev pub bar : ℕ
bar = 124

-- The string that is signed; `encode("utf-8")` is the text itself.
unfoldable pub canonical : Text → Text → Text → Text → Text
canonical user_id user_email user_roles ts =
    user_id ++ (bar ∷ (user_email ++ (bar ∷ (user_roles ++ (bar ∷ ts)))))

-- `age > max_age_seconds or age < -5`, for `age = now - ts`.
unfoldable pub is_stale : ℕ → ℕ → ℤ → Bool
is_stale max_age now (pos ts) = ltb (ts + max_age) now || ltb (now + 5) ts
is_stale max_age now (negsuc n) = ltb max_age (now + n + 1)

-- What a middleware does with a request: it answers with an error status, or passes it on.
pub data Verdict : Type 0 where
  pass : Verdict
  reject : ℕ → Text → Verdict

-- The headers that the middleware reads; a missing one is the empty text.
pub record Headers : Type 0 where
  pub user_id : Text
  pub user_email : Text
  pub user_roles : Text
  pub signature : Text
  pub issued_at : Text

abbrev pub is_empty : Text → Bool
is_empty [] = true
is_empty (c ∷ s) = false

-- The functions of the standard library that are not modelled: `hmac_sha256 secret message` is
-- the digest, `b64decode` is `none` where it raises, `is_uuid` is whether `uuid.UUID` accepts a text.
pub record Crypto : Type 0 where
  pub hmac_sha256 : Text → Text → Text
  pub b64encode : Text → Text
  pub b64decode : Text → Option Text
  pub is_uuid : Text → Bool

module _ (k : Crypto) where
  open k use {hmac_sha256, b64encode, b64decode, is_uuid}

  -- `sign_identity` at the time of issue: the signature, and the time as text.
  unfoldable pub sign_identity : Text → Text → Text → Text → ℕ → Text × Text
  unfolding canonical
  sign_identity secret user_id user_email user_roles issued_at =
      let ts = str issued_at in
      (b64encode (hmac_sha256 secret (canonical user_id user_email user_roles ts)), ts)

  abbrev matches : Text → Option Text → Bool
  matches expected none = false
  matches expected (some provided) = text_beq expected provided

  unfoldable pub verify_identity : Text → Text → Text → Text → Text → Text → ℕ → ℕ → Bool
  unfolding is_stale
  verify_identity secret user_id user_email user_roles issued_at signature_b64 max_age now =
      elim (int_of issued_at) [
        | none ↦ false
        | some ts ↦
            if is_stale max_age now ts
            then false
            else matches (hmac_sha256 secret (canonical user_id user_email user_roles (str_ℤ ts)))
                (b64decode signature_b64)
      ]

  -- `IdentityVerifierMiddleware.dispatch`, up to `call_next`.
  unfoldable pub dispatch : Text → List Text → ℕ → Text → Headers → Verdict
  dispatch secret exempt now path h =
      if elem path exempt
      then pass
      else if is_empty h.signature || is_empty h.issued_at
      then (if not (is_empty h.user_id)
          then reject 401 (codes "Missing identity signature")
          else pass)
      else if not (
          verify_identity secret h.user_id h.user_email h.user_roles h.issued_at h.signature
            identity_max_age_seconds now)
      then reject 401 (codes "Invalid identity signature")
      else if not (is_empty h.user_id) && not (is_uuid h.user_id)
      then reject 401 (codes "Invalid identity claims")
      else pass
