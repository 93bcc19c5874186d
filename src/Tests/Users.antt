-- ===== src/Tests/Users.antt =====
-- services/user-service/app/: accounts and their administration.
use microservices_project.User.Client.{store_email_verification_token}
use microservices_project.User.Admin.{get_user_or_404, hard_delete_me, require_admin}
use microservices_project.User.Requests.{handle}
use microservices_project.Prelude.{
  ◌≡◌, refl, true, Option, none, some, List, [], ◌∷◌, arith, elem, nat_eq, ok, err,
}
use microservices_project.Prelude.Text.{Text, codes, text_eq, text_beq, split, strip}
use microservices_project.Prelude.Dict.{Dict}
use microservices_project.User.Models.{User, user_by, remove_user, matching}
use microservices_project.User.Client.{is_account_locked}
use microservices_project.User.Login.{TokenResponse, login}
use microservices_project.User.Account.{
  UserCreate, Settings, Store, new_user, register, reset_invalid, send_verification_email,
  forgot_password, reset_password,
}
use microservices_project.User.Account.Tokens.{reset_password_once, forgot_password-reset_password}
use microservices_project.User.Account.Registration.{register-login}
use microservices_project.User.Admin.{
  has_admin, admin_promote_user, admin_demote_user, admin_delete_user,
}
use microservices_project.User.Admin.Roles.{admin_keeps_self}
use microservices_project.User.Changes.{IsUnique, admin_ids}
use microservices_project.User.Requests.{
  Request, register_request, promote_request, hard_delete_request, has_role, handle_all,
  handle_all-IsUnique, no_escalation,
}
use microservices_project.Tests.Accounts.{client, client-Laws, ann, verify}

abbrev cfg : Settings
cfg = record {
  public_base_url = codes "https://host";
  email_verification_token_ttl_seconds = 86400;
  password_reset_token_ttl_seconds = 3600;
}

-- A hash that is the password itself, and ids that are all UUIDs.
abbrev hash : Text → Text
hash password = password

abbrev uuid : Text → Option Text
uuid t = some t

abbrev bob : User
bob = record ann { id = codes "2"; email = codes "bob"; username = codes "bob"; is_admin = true }

abbrev store : Store (Dict Text Text)
store = record { users = bob ∷ ann ∷ []; redis = []; outbox = [] }

abbrev payload : UserCreate
payload = record {
  email = codes "eve";
  username = codes "eve";
  password = codes "pw";
  full_name = none;
}

-- The email of one account with the username of another.
abbrev crossed : UserCreate
crossed = record payload { email = codes "ann"; username = codes "bob" }

abbrev requests : List Request
requests =
    register_request (codes "3") (codes "t") payload
    ∷ promote_request (codes "user") (codes "3")
    ∷ hard_delete_request (codes "1")
    ∷ []

handle_all-IsUnique_example : IsUnique (handle_all client true cfg hash uuid requests store).users
unfolding IsUnique text_beq
handle_all-IsUnique_example =
    handle_all-IsUnique client true cfg hash uuid requests store (refl, refl)

no_escalation_example : elem (codes "2") (admin_ids store.users) ≡ true
unfolding has_role has_admin admin_ids handle_all split text_beq strip handle hard_delete_me
    get_user_or_404 user_by admin_promote_user require_admin register matching
    send_verification_email remove_user
no_escalation_example =
    no_escalation client true cfg hash uuid requests store (codes "2") (refl, (refl, (refl, tt)))
      refl

reset_password_once_example :
    let s' = (reset_password client true cfg hash uuid (codes "t") (codes "p") store).0 in
    (reset_password client true cfg hash uuid (codes "t") (codes "q") s').1 ≡ err reset_invalid
reset_password_once_example =
    reset_password_once client client-Laws cfg hash uuid (codes "t") (codes "p") (codes "q") store

forgot_password-reset_password_example :
    let out =
      reset_password client true cfg hash uuid
        (codes "t")
        (codes "p")
        (forgot_password client true cfg hash uuid (codes "t") (codes "ann") store) in
    out.1 ≡ ok tt
    × user_by (λ w. w.email) (codes "ann") out.0.users
      ≡ some (record ann { hashed_password = codes "p" })
unfolding user_by text_beq
forgot_password-reset_password_example =
    forgot_password-reset_password client client-Laws cfg hash uuid (codes "t") (codes "p")
      (codes "ann") ann store 49 [] refl refl refl refl refl (omega arith)

register-login_example :
    let s' = (register client true cfg hash uuid (codes "3") (codes "t") payload store).0 in
    (r : TokenResponse) × (login client true verify [] s'.users
        (codes "r")
        payload.email
        payload.password
        s'.redis).1
      ≡ ok r
    × r.user ≡ new_user client true cfg hash uuid (codes "3") payload
unfolding matching text_beq is_account_locked register send_verification_email
    store_email_verification_token
register-login_example =
    register-login client true cfg hash uuid (codes "3") (codes "t") payload store verify []
      (codes "r") refl refl refl

admin_keeps_self_example :
    user_by (λ w. w.id) (codes "2") (admin_promote_user (codes "admin") (codes "2") store.users).0
      ≡ some bob
    × user_by
        (λ w. w.id)
        (codes "2")
        (admin_demote_user (codes "admin") (codes "2") (codes "2") store.users).0
      ≡ some bob
    × user_by
        (λ w. w.id)
        (codes "2")
        (admin_delete_user (codes "admin") (codes "2") (codes "2") store.users).0
      ≡ some bob
unfolding user_by text_beq
admin_keeps_self_example =
    admin_keeps_self (codes "admin") (codes "2") (codes "2") store.users bob refl refl
