-- ===== src/User/Account/Tokens.antt =====
-- services/user-service/app/routes/auth.py: the tokens that are mailed.
use microservices_project.Prelude.{
  ℕ, ◌<◌, ◌≡◌, refl, sym, ap, ◌∙◌, ◌≢◌, true, Option, none, some, List, [], ◌∷◌, arith, nat_eq, ok,
  err,
}
use microservices_project.Prelude.Text.{Text, text_eq}
use microservices_project.User.Models.{User, user_by, user_by_column, set_user}
use microservices_project.User.Client.{
  Client, Laws, reset_key, verify_key, store_email_verification_token, store_password_reset_token,
  consume_password_reset_token,
}
use microservices_project.User.Account.{
  Settings, Store, reset_invalid, send_verification_email, send_password_reset_email, token_owner,
  reset_of, finish_reset, reset_password, forgot_password,
}

set_user_found :
    (email : Text) (u v : User) (users : List User)
    → user_by (λ w. w.id) v.id users ≡ some v
    → user_by (λ w. w.email) email users ≡ some v
    → u.id ≡ v.id
    → u.email ≡ v.email
    → user_by (λ w. w.email) email (set_user u users) ≡ some u
unfolding user_by set_user
set_user_found email u v [] i e d m = absurd (ground arith)
set_user_found email u v (w ∷ ws) i e d m = ground (
  arith,
  set_user_found email u v ws,
  user_by_column (λ w. w.email) email ws v,
  text_eq.beq_iff w.id u.id,
  text_eq.beq_iff w.id v.id,
  text_eq.beq_iff w.email email,
  text_eq.beq_iff u.email email,
  text_eq.beq_iff v.email email,
)

module _ {C : Type 0} (k : Client C) (laws : Laws k) (cfg : Settings) (hash : Text → Text)
    (uuid : Text → Option Text) where
  reset_of_redis :
      (new_password : Text) (s : Store C) (o : Option User)
      → (reset_of k true cfg hash uuid new_password s o).0.redis ≡ s.redis
  reset_of_redis new_password s none = refl
  reset_of_redis new_password s (some u) = refl

  finish_reset_redis :
      (new_password : Text) (s : Store C) (o : Option Text)
      → (finish_reset k true cfg hash uuid new_password s o).0.redis ≡ s.redis
  finish_reset_redis new_password s none = refl
  finish_reset_redis new_password s (some []) = refl
  finish_reset_redis new_password s (some (c ∷ cs)) =
      reset_of_redis new_password s (token_owner k true cfg hash uuid (uuid (c ∷ cs)) s.users)

  reset_redis :
      (token new_password : Text) (s : Store C)
      → (reset_password k true cfg hash uuid token new_password s).0.redis
        ≡ (k.getdel (reset_key token) s.redis).0
  unfolding reset_password consume_password_reset_token
  reset_redis token new_password s =
      let (redis, o) = k.getdel (reset_key token) s.redis in
      finish_reset_redis new_password (record s { redis = redis }) o

  reset_missing :
      (token new_password : Text) (s : Store C)
      → k.get (reset_key token) s.redis ≡ none
      → (reset_password k true cfg hash uuid token new_password s).1 ≡ err reset_invalid
  unfolding reset_password consume_password_reset_token
  reset_missing token new_password s e =
      let redis = (k.getdel (reset_key token) s.redis).0 in
      let missing = laws.getdel_reads (reset_key token) s.redis ∙ e in
      ap (λ o. (finish_reset k true cfg hash uuid new_password (record s { redis = redis }) o).1)
        missing

  -- The owner's id as the token's value.
  owner_found :
      (u : User) (users : List User) (c : ℕ) (cs : Text)
      → user_by (λ w. w.id) u.id users ≡ some u
      → u.id ≡ c ∷ cs
      → uuid u.id ≡ some u.id
      → token_owner k true cfg hash uuid (uuid (c ∷ cs)) users ≡ some u
  owner_found u users c cs i id parsed =
      let owner : Option Text → Option User = λ o. token_owner k true cfg hash uuid o users in
      ap (λ t. owner (uuid t)) (sym id) ∙ ap owner parsed ∙ i

  reset_owner :
      (token p : Text) (u : User) (s : Store C) (c : ℕ) (cs : Text)
      → k.get (reset_key token) s.redis ≡ some (c ∷ cs)
      → token_owner k true cfg hash uuid (uuid (c ∷ cs)) s.users ≡ some u
      → let out = reset_password k true cfg hash uuid token p s in
        out.1 ≡ ok tt × out.0.users ≡ set_user (record u { hashed_password = hash p }) s.users
  unfolding reset_password consume_password_reset_token
  reset_owner token p u s c cs got owner =
      let S : Store C = record s { redis = (k.getdel (reset_key token) s.redis).0 } in
      let read = laws.getdel_reads (reset_key token) s.redis ∙ got in
      let done =
        ap (finish_reset k true cfg hash uuid p S) read
        ∙ ap (reset_of k true cfg hash uuid p S) owner in
      (ap (λ o. o.1) done, ap (λ o. o.0.users) done)

  -- With Redis in reach, a reset token is used up by its first use, whatever came of it: presented
  -- again right after, it is rejected.
  pub reset_password_once :
      (token p p' : Text) (s : Store C)
      → let s' = (reset_password k true cfg hash uuid token p s).0 in
        (reset_password k true cfg hash uuid token p' s').1 ≡ err reset_invalid
  reset_password_once token p p' s =
      let s' = (reset_password k true cfg hash uuid token p s).0 in
      let gone =
        ap (λ c. k.get (reset_key token) c) (reset_redis token p s)
        ∙ laws.getdel_removes (reset_key token) s.redis in
      reset_missing token p' s' gone

  -- A verification token resets no password: where Redis has no reset token of that text, there is
  -- none after a verification token of that text was stored and mailed.
  pub verification_no_reset :
      (token p : Text) (u : User) (s : Store C)
      → k.get (reset_key token) s.redis ≡ none
      → (reset_password k true cfg hash uuid token p
          (send_verification_email k true cfg hash uuid token u s)).1
        ≡ err reset_invalid
  unfolding send_verification_email store_email_verification_token
  verification_no_reset token p u s e =
      let s' = send_verification_email k true cfg hash uuid token u s in
      let apart : reset_key token ≢ verify_key token = λ h. ground arith in
      let put =
        laws.setex_others (verify_key token) (reset_key token) u.id
          cfg.email_verification_token_ttl_seconds s.redis apart in
      reset_missing token p s' (put ∙ e)

  -- The reset token that is mailed for an active account sets its password: the route answers
  -- 204, and the account's row then has the hash of the new password. Redis is in reach, the token
  -- lives for a while, and the id of the account is a UUID and its own.
  pub forgot_password-reset_password :
      (token p email : Text) (u : User) (s : Store C) (c : ℕ) (cs : Text)
      → user_by (λ w. w.email) email s.users ≡ some u
      → user_by (λ w. w.id) u.id s.users ≡ some u
      → u.is_active ≡ true
      → u.id ≡ c ∷ cs
      → uuid u.id ≡ some u.id
      → 0 < cfg.password_reset_token_ttl_seconds
      → let out =
          reset_password k true cfg hash uuid token p
            (forgot_password k true cfg hash uuid token email s) in
        out.1 ≡ ok tt
        × user_by (λ w. w.email) email out.0.users ≡ some (record u { hashed_password = hash p })
  unfolding forgot_password send_password_reset_email store_password_reset_token
  forgot_password-reset_password token p email u s c cs e i active id parsed live =
      let s' = forgot_password k true cfg hash uuid token email s in
      let mailed : s' ≡ send_password_reset_email k true cfg hash uuid token u s = ground arith in
      let found =
        ap (λ (t : Store C). k.get (reset_key token) t.redis) mailed
        ∙ laws.setex_reads (reset_key token) u.id cfg.password_reset_token_ttl_seconds s.redis live
        ∙ ap (λ t. some t) id in
      let kept : s'.users ≡ s.users = ap (λ (t : Store C). t.users) mailed in
      let owner =
        ap (λ us. token_owner k true cfg hash uuid (uuid (c ∷ cs)) us) kept
        ∙ owner_found u s.users c cs i id parsed in
      let (answer, table) = reset_owner token p u s' c cs found owner in
      let new = record u { hashed_password = hash p } in
      let set = set_user_found email new u s.users i e refl refl in
      (
        answer,
        ap (λ us. user_by (λ w. w.email) email us) (table ∙ ap (λ us. set_user new us) kept) ∙ set,
      )
