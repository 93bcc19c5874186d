-- ===== src/User/Client.antt =====
-- services/user-service/app/redis_client.py. The Redis client is a parameter, whose state holds the
-- clock; `connected` is whether `get_redis` returns it. The branches for an error in the middle of a
-- call are those of a missing client and left out.
use microservices_project.Prelude.{
  ℕ, ◌+◌, ◌*◌, ◌<◌, ◌≡◌, ◌≢◌, Bool, true, false, Option, none, some, ◌++◌, leb, if◌then◌else◌,
  nat_eq,
}
use microservices_project.Prelude.Text.{Text, codes}
use microservices_project.Prelude.Decimal.{pos, negsuc, str, int_of}

-- The commands that the module sends; `incr_expire` is its transaction of INCR and EXPIRE NX.
pub record Client (C : Type 0) : Type 0 where
  pub get : Text → C → Option Text
  pub setex : Text → (seconds : ℕ) → Text → C → C
  pub getdel : Text → C → C × Option Text
  pub delete : Text → C → C
  pub incr_expire : Text → (seconds : ℕ) → C → C × ℕ

-- What is documented of them: GETDEL reads and removes one key, SETEX writes one key, for a while, and
-- INCR adds one to a count, from zero where there is none.
pub record Laws {C : Type 0} (k : Client C) : Type 0 where
  pub getdel_reads : (key : Text) (c : C) → (k.getdel key c).1 ≡ k.get key c
  pub getdel_removes : (key : Text) (c : C) → k.get key (k.getdel key c).0 ≡ none
  pub setex_reads :
      (key v : Text) (seconds : ℕ) (c : C)
      → 0 < seconds
      → k.get key (k.setex key seconds v c) ≡ some v
  pub setex_others :
      (key other v : Text) (seconds : ℕ) (c : C)
      → other ≢ key
      → k.get other (k.setex key seconds v c) ≡ k.get other c
  pub incr_first :
      (key : Text) (seconds : ℕ) (c : C)
      → 0 < seconds
      → k.get key c ≡ none
      → k.get key (k.incr_expire key seconds c).0 ≡ some (str 1)
  pub incr_next :
      (key : Text) (seconds n : ℕ) (c : C)
      → k.get key c ≡ some (str n)
      → k.get key (k.incr_expire key seconds c).0 ≡ some (str (n + 1))

abbrev pub refresh_token_ttl : ℕ
refresh_token_ttl = 60 * 60 * 24 * 30

abbrev pub lockout_threshold : ℕ
lockout_threshold = 10

abbrev pub lockout_window_seconds : ℕ
lockout_window_seconds = 900

abbrev pub refresh_key : Text → Text
refresh_key token = codes "refresh:" ++ token

abbrev pub login_fail_key : Text → Text
login_fail_key email = codes "login_fail:" ++ email

abbrev pub verify_key : Text → Text
verify_key token = codes "verify:" ++ token

abbrev pub reset_key : Text → Text
reset_key token = codes "reset:" ++ token

-- `int(raw) >= LOCKOUT_THRESHOLD`; a text that is no number raises, which fails open.
abbrev pub over_threshold : Option Text → Bool
over_threshold none = false
over_threshold (some raw) = elim (int_of raw) [
  | none ↦ false
  | some (pos n) ↦ leb lockout_threshold n
  | some (negsuc n) ↦ false
]

module _ {C : Type 0} (k : Client C) (connected : Bool) where
  unfoldable pub store_refresh_token : Text → Text → C → C × Bool
  store_refresh_token token user_id c =
      if connected
      then (k.setex (refresh_key token) refresh_token_ttl user_id c, true)
      else (c, false)

  unfoldable pub consume_refresh_token : Text → C → C × Option Text
  consume_refresh_token token c = if connected then k.getdel (refresh_key token) c else (c, none)

  unfoldable pub revoke_refresh_token : Text → C → C
  revoke_refresh_token token c = if connected then k.delete (refresh_key token) c else c

  unfoldable pub is_account_locked : Text → C → Bool
  is_account_locked email c =
      if connected then over_threshold (k.get (login_fail_key email) c) else false

  unfoldable pub record_login_failure : Text → C → C
  record_login_failure email c =
      if connected then (k.incr_expire (login_fail_key email) lockout_window_seconds c).0 else c

  unfoldable pub reset_login_failures : Text → C → C
  reset_login_failures email c = if connected then k.delete (login_fail_key email) c else c

  -- The two spaces of single-use tokens, each with its prefix and lifetime.
  unfoldable pub store_email_verification_token : Text → Text → (ttl_seconds : ℕ) → C → C × Bool
  store_email_verification_token token user_id ttl_seconds c =
      if connected then (k.setex (verify_key token) ttl_seconds user_id c, true) else (c, false)

  unfoldable pub consume_email_verification_token : Text → C → C × Option Text
  consume_email_verification_token token c =
      if connected then k.getdel (verify_key token) c else (c, none)

  unfoldable pub store_password_reset_token : Text → Text → (ttl_seconds : ℕ) → C → C × Bool
  store_password_reset_token token user_id ttl_seconds c =
      if connected then (k.setex (reset_key token) ttl_seconds user_id c, true) else (c, false)

  unfoldable pub consume_password_reset_token : Text → C → C × Option Text
  consume_password_reset_token token c =
      if connected then k.getdel (reset_key token) c else (c, none)
