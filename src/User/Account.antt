-- ===== src/User/Account.antt =====
-- services/user-service/app/routes/auth.py: registration, email verification and password reset, with
-- the complexity rule of schemas.py. `uuid.UUID`, bcrypt, the random tokens and the tests of a
-- character are parameters. A mail is its address, subject and link; the text around the link is left
-- out. What a route writes to Redis and mails stays when it raises later.
pub mod Tokens
pub mod Registration
use microservices_project.Prelude.{
  ℕ, zero, suc, ◌+◌, ◌-◌, ◌*◌, ◌≤◌, ◌<◌, ◌≡◌, refl, sym, ap, ◌∙◌, ◌≢◌, ◌↔◌, ◌⊎◌, inl, inr, Bool,
  true, false, not, ◌&&◌, ◌||◌, Option, none, some, List, [], ◌∷◌, ◌++◌, map, arith, ltb, leb, ◌==◌,
  if◌then◌else◌, Bool-cases, Option-cases, length, All, elem, get_elem?, take, filter, tests, Eq,
  nat_eq, Result, ok, err, ◌>>=◌, ◌>>◌, require, ok_or,
}
use microservices_project.Prelude.Text.{Text, codes, text_eq}
use microservices_project.User.Models.{User, user_by, set_user, matching}
use microservices_project.User.Client.{
  Client, store_email_verification_token, consume_email_verification_token,
  store_password_reset_token, consume_password_reset_token,
}
use microservices_project.User.Login.{HttpError, http_exception, server_error}

abbrev any_of : (ℕ → Bool) → Text → Bool
any_of p [] = false
any_of p (c ∷ cs) = p c || any_of p cs

-- The field `new_password`: its two lengths, then `password_complexity`.
unfoldable pub password_accepted : (is_upper is_digit : ℕ → Bool) → Text → Bool
password_accepted is_upper is_digit v =
    leb 8 (length v) && leb (length v) 100 && any_of is_upper v && any_of is_digit v

pub record UserCreate : Type 0 where
  pub email : Text
  pub username : Text
  pub password : Text
  pub full_name : Option Text

pub record Mail : Type 0 where
  pub recipient : Text
  pub subject : Text
  pub link : Text

-- The table, Redis, and the mails sent.
pub record Store (C : Type 0) : Type 0 where
  pub users : List User
  pub redis : C
  pub outbox : List Mail

-- The settings that the routes read.
pub record Settings : Type 0 where
  pub public_base_url : Text
  pub email_verification_token_ttl_seconds : ℕ
  pub password_reset_token_ttl_seconds : ℕ

abbrev pub reset_invalid : HttpError
reset_invalid = http_exception 400 (codes "Reset token is invalid, expired, or already used")

abbrev pub verify_invalid : HttpError
verify_invalid =
    http_exception 400 (codes "Verification token is invalid, expired, or already used")

abbrev pub invalid_token : HttpError
invalid_token = http_exception 400 (codes "Invalid token")

-- `scalar_one_or_none`, which raises on several rows.
abbrev pub scalar_one_or_none : List User → Result HttpError (Option User)
scalar_one_or_none [] = ok none
scalar_one_or_none (u ∷ []) = ok (some u)
scalar_one_or_none (u ∷ v ∷ us) = err server_error

module _ {C : Type 0} (k : Client C) (connected : Bool) (cfg : Settings) (hash : Text → Text)
    (uuid : Text → Option Text) where
  -- `token` is the new random token.
  unfoldable pub send_verification_email : Text → User → Store C → Store C
  send_verification_email token u s =
      let (redis, stored) =
        store_email_verification_token k connected token u.id
          cfg.email_verification_token_ttl_seconds s.redis in
      let mail : Mail = record {
        recipient = u.email;
        subject = codes "Verify your email";
        link = cfg.public_base_url ++ codes "/verify-email?token=" ++ token;
      } in
      record s { redis = redis; outbox = if stored then s.outbox ++ mail ∷ [] else s.outbox }

  unfoldable pub send_password_reset_email : Text → User → Store C → Store C
  send_password_reset_email token u s =
      let (redis, stored) =
        store_password_reset_token k connected token u.id cfg.password_reset_token_ttl_seconds
          s.redis in
      let mail : Mail = record {
        recipient = u.email;
        subject = codes "Password reset";
        link = cfg.public_base_url ++ codes "/reset-password?token=" ++ token;
      } in
      record s { redis = redis; outbox = if stored then s.outbox ++ mail ∷ [] else s.outbox }

  abbrev pub new_user : Text → UserCreate → User
  new_user id payload = record {
    id = id;
    email = payload.email;
    username = payload.username;
    hashed_password = hash payload.password;
    full_name = payload.full_name;
    is_active = true;
    is_admin = false;
    email_verified = false;
  }

  abbrev pub finish_register :
      Text
      → Text
      → UserCreate
      → Store C
      → Result HttpError (Option User)
      → Store C × Result HttpError User
  finish_register id token payload s (err e) = (s, err e)
  finish_register id token payload s (ok (some u)) =
      (s, err (http_exception 409 (codes "Email or username already registered")))
  finish_register id token payload s (ok none) =
      let u = new_user id payload in
      (send_verification_email token u (record s { users = u ∷ s.users }), ok u)

  -- `id` is the new UUID.
  unfoldable pub register : Text → Text → UserCreate → Store C → Store C × Result HttpError User
  register id token payload s =
      finish_register id token payload s
        (scalar_one_or_none (matching payload.email payload.username s.users))

  -- The user of a consumed token: the id is a UUID, and the row is there.
  abbrev pub token_owner : Option Text → List User → Option User
  token_owner none users = none
  token_owner (some id) users = user_by (λ u. u.id) id users

  abbrev pub verify_of : Store C → Option User → Store C × Result HttpError (Unit {0})
  verify_of s none = (s, err invalid_token)
  verify_of s (some u) =
      (record s { users = set_user (record u { email_verified = true }) s.users }, ok tt)

  abbrev pub finish_verify : Store C → Option Text → Store C × Result HttpError (Unit {0})
  finish_verify s none = (s, err verify_invalid)
  finish_verify s (some []) = (s, err verify_invalid)
  finish_verify s (some (c ∷ cs)) = verify_of s (token_owner (uuid (c ∷ cs)) s.users)

  unfoldable pub verify_email : Text → Store C → Store C × Result HttpError (Unit {0})
  verify_email token s =
      let (redis, user_id) = consume_email_verification_token k connected token s.redis in
      finish_verify (record s { redis = redis }) user_id

  -- The background task of `resend_verification`, if there is one; the answer is 204 in any case.
  abbrev pub resend_to : Text → Store C → Option User → Store C
  resend_to token s none = s
  resend_to token s (some u) = if u.email_verified then s else send_verification_email token u s

  unfoldable pub resend_verification : Text → Text → Store C → Store C
  resend_verification token email s = resend_to token s (user_by (λ u. u.email) email s.users)

  abbrev pub mail_reset_to : Text → Store C → Option User → Store C
  mail_reset_to token s none = s
  mail_reset_to token s (some u) = if u.is_active then send_password_reset_email token u s else s

  unfoldable pub forgot_password : Text → Text → Store C → Store C
  forgot_password token email s = mail_reset_to token s (user_by (λ u. u.email) email s.users)

  abbrev pub reset_of : Text → Store C → Option User → Store C × Result HttpError (Unit {0})
  reset_of new_password s none = (s, err invalid_token)
  reset_of new_password s (some u) = (
    record s { users = set_user (record u { hashed_password = hash new_password }) s.users },
    ok tt,
  )

  abbrev pub finish_reset : Text → Store C → Option Text → Store C × Result HttpError (Unit {0})
  finish_reset new_password s none = (s, err reset_invalid)
  finish_reset new_password s (some []) = (s, err reset_invalid)
  finish_reset new_password s (some (c ∷ cs)) =
      reset_of new_password s (token_owner (uuid (c ∷ cs)) s.users)

  unfoldable pub reset_password : Text → Text → Store C → Store C × Result HttpError (Unit {0})
  reset_password token new_password s =
      let (redis, user_id) = consume_password_reset_token k connected token s.redis in
      finish_reset new_password (record s { redis = redis }) user_id

  -- `ResetPasswordRequest`, whose validation the framework answers with 422, then the route.
  unfoldable pub post_reset_password :
      (is_upper is_digit : ℕ → Bool) → Text → Text → Store C → Store C × Result HttpError (Unit {0})
  post_reset_password is_upper is_digit token new_password s =
      if leb 16 (length token)
        && leb (length token) 128
        && password_accepted is_upper is_digit new_password
      then reset_password token new_password s
      else (s, err (http_exception 422 []))
