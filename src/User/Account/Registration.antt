-- ===== src/User/Account/Registration.antt =====
-- services/user-service/app/routes/auth.py: what becomes of a registration.
use microservices_project.Prelude.{
  ◌≤◌, ◌≡◌, refl, ap, ◌∙◌, Bool, true, false, Option, some, List, [], ◌∷◌, arith, length, nat_eq,
  ok, err,
}
use microservices_project.Prelude.Text.{Text, codes, text_eq}
use microservices_project.User.Models.{User, user_by, matching}
use microservices_project.User.Client.{Client, is_account_locked}
use microservices_project.User.Login.{TokenResponse, login, http_exception, server_error}
use microservices_project.User.Login.Sessions.{login_found}
use microservices_project.User.Account.{
  UserCreate, Settings, Store, scalar_one_or_none, send_verification_email, new_user,
  finish_register, register,
}

-- The row in front is found.
first : (u : User) (us : List User) → user_by (λ w. w.email) u.email (u ∷ us) ≡ some u
unfolding user_by
first u us = ground (arith, text_eq.beq_iff u.email u.email)

module _ {C : Type 0} (k : Client C) (connected : Bool) (cfg : Settings) (hash : Text → Text)
    (uuid : Text → Option Text) (id token : Text) (payload : UserCreate) (s : Store C) where
  registered :
      (ms : List User)
      → let out =
          finish_register k connected cfg hash uuid id token payload s (scalar_one_or_none ms) in
        (length ms ≡ 0
          → out.0.users ≡ new_user k connected cfg hash uuid id payload ∷ s.users
            × out.1 ≡ ok (new_user k connected cfg hash uuid id payload))
        × (length ms ≡ 1
            → out ≡ (s, err (http_exception 409 (codes "Email or username already registered"))))
        × (2 ≤ length ms → out ≡ (s, err server_error))
  unfolding send_verification_email
  registered [] = (λ e. (refl, refl), λ e. absurd (omega arith), λ e. absurd (omega arith))
  registered (u ∷ []) = (λ e. absurd (omega arith), λ e. refl, λ e. absurd (omega arith))
  registered (u ∷ v ∷ ms) = (λ e. absurd (omega arith), λ e. absurd (omega arith), λ e. refl)

  -- A registration is answered by the number of accounts that have its email or its username: with
  -- none, the new account is added and returned; with one, the answer is 409; with more, when the
  -- email is one account's and the username another's, it is an error of the server. The last two
  -- leave the store as it was.
  register_answers :
      let out = register k connected cfg hash uuid id token payload s in
      let n = length (matching payload.email payload.username s.users) in
      let u = new_user k connected cfg hash uuid id payload in
      (n ≡ 0 → out.0.users ≡ u ∷ s.users × out.1 ≡ ok u)
      × (n ≡ 1 → out ≡ (s, err (http_exception 409 (codes "Email or username already registered"))))
      × (2 ≤ n → out ≡ (s, err server_error))
  unfolding register
  register_answers = registered (matching payload.email payload.username s.users)

  -- Who has registered can log in: where no account had the email or the username, the login with
  -- that email and password that follows is answered with the new account, unless the email is
  -- locked out. A password is verified against its own hash.
  pub register-login :
      (verify : Text → Text → Bool) (dummy fresh : Text)
      → matching payload.email payload.username s.users ≡ []
      → verify payload.password (hash payload.password) ≡ true
      → let s' = (register k connected cfg hash uuid id token payload s).0 in
        is_account_locked k connected payload.email s'.redis ≡ false
        → (r : TokenResponse) × (login k connected verify dummy s'.users fresh payload.email
              payload.password s'.redis).1
            ≡ ok r
          × r.user ≡ new_user k connected cfg hash uuid id payload
  register-login verify dummy fresh free checks open_account =
      let u = new_user k connected cfg hash uuid id payload in
      let s' = (register k connected cfg hash uuid id token payload s).0 in
      let added : s'.users ≡ u ∷ s.users = (register_answers.0 (ap length free)).0 in
      let found = ap (λ us. user_by (λ w. w.email) payload.email us) added ∙ first u s.users in
      login_found k connected verify dummy s'.users fresh payload.email payload.password u s'.redis
        found checks open_account refl
