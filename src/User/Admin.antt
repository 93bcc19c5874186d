-- ===== src/User/Admin.antt =====
-- services/user-service/app/routes/users.py, and the role check of dependencies.py. bcrypt is a
-- parameter. A route takes the table and returns it; an exception leaves it as it was.
pub mod Roles
use microservices_project.Prelude.{
  ℕ, zero, suc, ◌+◌, ◌-◌, ◌*◌, ◌≤◌, ◌<◌, ◌≡◌, refl, sym, ap, ◌∙◌, ◌≢◌, ◌↔◌, ◌⊎◌, inl, inr, Bool,
  true, false, not, ◌&&◌, ◌||◌, Option, none, some, List, [], ◌∷◌, ◌++◌, map, arith, ltb, leb, ◌==◌,
  if◌then◌else◌, Bool-cases, Option-cases, length, All, elem, get_elem?, take, filter, tests, Eq,
  nat_eq, Result, ok, err, ◌>>=◌, ◌>>◌, require, ok_or,
}
use microservices_project.Prelude.{drop}
use microservices_project.Prelude.Text.{Text, codes, text_eq, split, strip}
use microservices_project.User.Models.{User, user_by, set_user, remove_user}
use microservices_project.User.Login.{HttpError, http_exception}

abbrev pub user_not_found : HttpError
user_not_found = http_exception 404 (codes "User not found")

abbrev pub admin_required : HttpError
admin_required = http_exception 403 (codes "Admin privileges required for this operation")

abbrev pub already_admin : HttpError
already_admin = http_exception 409 (codes "User is already an admin")

abbrev pub self_demote : HttpError
self_demote = http_exception 400 (codes "Admins cannot demote themselves")

abbrev pub self_delete : HttpError
self_delete = http_exception 400 (codes "Admins cannot delete their own account via admin endpoint")

-- `"admin" in roles`, for the parts of the header that are not empty.
unfoldable pub has_admin : Text → Bool
has_admin x_user_roles = elem (codes "admin") (map strip (split 44 x_user_roles))

unfoldable pub require_admin : Text → Result HttpError (Unit {0})
require_admin x_user_roles = require (has_admin x_user_roles) admin_required

unfoldable pub get_user_or_404 : Text → List User → Result HttpError User
get_user_or_404 user_id users = ok_or (user_by (λ u. u.id) user_id users) user_not_found

-- What a route stores and answers: a change of one row, or the removal of one.
abbrev pub save : List User → Result HttpError User → List User × Result HttpError User
save users (err e) = (users, err e)
save users (ok u) = (set_user u users, ok u)

abbrev pub discard : List User → Result HttpError User → List User × Result HttpError (Unit {0})
discard users (err e) = (users, err e)
discard users (ok u) = (remove_user u.id users, ok tt)

unfoldable pub get_me : Text → List User → Result HttpError User
get_me caller_id users = get_user_or_404 caller_id users

pub record UserUpdate : Type 0 where
  pub full_name : Option Text
  pub password : Option Text

abbrev pub apply_update : (Text → Text) → UserUpdate → User → User
apply_update hash payload u = record u {
  full_name = elim payload.full_name [ none ↦ u.full_name | some name ↦ some name ];
  hashed_password = elim payload.password [
    | none ↦ u.hashed_password
    | some password ↦ hash password
  ];
}

unfoldable pub update_me :
    (Text → Text) → UserUpdate → Text → List User → List User × Result HttpError User
update_me hash payload caller_id users =
    save users (do u ← get_user_or_404 caller_id users; ok (apply_update hash payload u))

unfoldable pub deactivate_me : Text → List User → List User × Result HttpError User
deactivate_me caller_id users =
    save users (do u ← get_user_or_404 caller_id users; ok (record u { is_active = false }))

unfoldable pub hard_delete_me : Text → List User → List User × Result HttpError (Unit {0})
hard_delete_me caller_id users = discard users (get_user_or_404 caller_id users)

unfoldable pub get_user : Text → List User → Result HttpError User
get_user user_id users = get_user_or_404 user_id users

-- The rows of a page, in the order of their creation, which is that of the table, the newest first.
unfoldable pub admin_list_users : Text → ℕ → ℕ → Bool → List User → Result HttpError (ℕ × List User)
admin_list_users x_user_roles limit offset active_only users = do
  require_admin x_user_roles
  let rows = filter (λ u. not active_only || u.is_active) users in
      let page : ℕ × List User = (length rows, take limit (drop offset rows)) in ok page

unfoldable pub admin_get_user : Text → Text → List User → Result HttpError User
admin_get_user x_user_roles user_id users = do
  require_admin x_user_roles
  get_user_or_404 user_id users

unfoldable pub admin_promote_user : Text → Text → List User → List User × Result HttpError User
admin_promote_user x_user_roles user_id users = save users (do
  require_admin x_user_roles
  u ← get_user_or_404 user_id users
  require (not u.is_admin) already_admin
  ok (record u { is_admin = true }))

unfoldable pub admin_demote_user :
    Text → Text → Text → List User → List User × Result HttpError User
admin_demote_user x_user_roles caller_id user_id users = save users (do
  require_admin x_user_roles
  require (not (user_id == caller_id)) self_demote
  u ← get_user_or_404 user_id users
  ok (record u { is_admin = false }))

unfoldable pub admin_delete_user :
    Text → Text → Text → List User → List User × Result HttpError (Unit {0})
admin_delete_user x_user_roles caller_id user_id users = discard users (do
  require_admin x_user_roles
  require (not (user_id == caller_id)) self_delete
  get_user_or_404 user_id users)
