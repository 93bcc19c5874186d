-- ===== src/User/Login.antt =====
-- services/user-service/app/routes/auth.py: `login`, `refresh_token` and `logout`. bcrypt, the access
-- token and the UUIDs are parameters; the rows of the users are read only, but for the time of the
-- last login, which is left out.
pub mod Sessions
use microservices_project.Prelude.{
  ℕ, zero, suc, ◌+◌, ◌-◌, ◌*◌, ◌≤◌, ◌<◌, ◌≡◌, refl, sym, ap, ◌∙◌, ◌≢◌, ◌↔◌, ◌⊎◌, inl, inr, Bool,
  true, false, not, ◌&&◌, ◌||◌, Option, none, some, List, [], ◌∷◌, ◌++◌, map, arith, ltb, leb, ◌==◌,
  if◌then◌else◌, Bool-cases, Option-cases, length, All, elem, get_elem?, take, filter, tests, Eq,
  nat_eq, Result, ok, err, ◌>>=◌, ◌>>◌, require, ok_or,
}
use microservices_project.Prelude.Text.{Text, codes, text_eq}
use microservices_project.User.Models.{User, user_by}
use microservices_project.User.Client.{
  Client, store_refresh_token, consume_refresh_token, revoke_refresh_token, is_account_locked,
  record_login_failure, reset_login_failures,
}

-- What a route raises: an HTTPException, or an error of the framework's, which is a 500.
pub data HttpError : Type 0 where
  http_exception : (status_code : ℕ) → (detail : Text) → HttpError
  server_error : HttpError

abbrev pub invalid_login : HttpError
invalid_login = http_exception 401 (codes "Invalid email or password")

abbrev pub invalid_refresh : HttpError
invalid_refresh = http_exception 401 (codes "Refresh token is invalid, expired, or already used")

pub record TokenResponse : Type 0 where
  pub user : User
  pub refresh_token : Option Text

-- `verify plain hashed` is `bcrypt.checkpw`; `dummy` is the hash for an unknown account.
module _ {C : Type 0} (k : Client C) (connected : Bool) (verify : Text → Text → Bool) (dummy : Text)
    (users : List User) where
  -- `fresh` is the new UUID.
  unfoldable pub issue_token_response : Text → User → C → C × TokenResponse
  issue_token_response fresh u c =
      let (c', stored) = store_refresh_token k connected fresh u.id c in
      (c', record { user = u; refresh_token = if stored then some fresh else none })

  -- Once the lockout and the password are known.
  abbrev pub decide_login :
      Text → Text → Bool → Option User → Bool → C → C × Result HttpError TokenResponse
  decide_login fresh email locked none password_ok c = (c, err invalid_login)
  decide_login fresh email true (some u) password_ok c = (c, err invalid_login)
  decide_login fresh email false (some u) false c =
      (record_login_failure k connected email c, err invalid_login)
  decide_login fresh email false (some u) true c =
      let (c', r) = issue_token_response fresh u (reset_login_failures k connected email c) in
      if u.is_active
      then (c', ok r)
      else (c, err (http_exception 403 (codes "Account deactivated")))

  abbrev pub candidate_hash : Option User → Text
  candidate_hash none = dummy
  candidate_hash (some u) = u.hashed_password

  unfoldable pub login : Text → Text → Text → C → C × Result HttpError TokenResponse
  login fresh email password c =
      let user = user_by (λ u. u.email) email users in
      decide_login fresh email (is_account_locked k connected email c) user
        (verify password (candidate_hash user)) c

  abbrev pub decide_refresh : Text → Option User → C → C × Result HttpError TokenResponse
  decide_refresh fresh none c = (c, err (http_exception 401 (codes "User account is unavailable")))
  decide_refresh fresh (some u) c =
      let (c', r) = issue_token_response fresh u c in
      if u.is_active
      then (c', ok r)
      else (c, err (http_exception 401 (codes "User account is unavailable")))

  abbrev pub after_consume : Text → C × Option Text → C × Result HttpError TokenResponse
  after_consume fresh (c, none) = (c, err invalid_refresh)
  after_consume fresh (c, some []) = (c, err invalid_refresh)
  after_consume fresh (c, some (d ∷ ds)) =
      decide_refresh fresh (user_by (λ u. u.id) (d ∷ ds) users) c

  -- The ids that are stored are texts of UUIDs, so `uuid.UUID` does not raise.
  unfoldable pub refresh_token : Text → Text → C → C × Result HttpError TokenResponse
  refresh_token fresh token c = after_consume fresh (consume_refresh_token k connected token c)

  unfoldable pub logout : Text → C → C
  logout token c = revoke_refresh_token k connected token c
