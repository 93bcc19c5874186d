-- ===== src/User/Models.antt =====
-- services/user-service/app/models.py: the users, and the queries that the routes make. A table is the
-- list of its rows; an id is the text of its UUID. The times of a row are left out.
use microservices_project.Prelude.{
  ◌≡◌, Bool, ◌||◌, Option, none, some, List, [], ◌∷◌, arith, ◌==◌, if◌then◌else◌, filter, nat_eq,
}
use microservices_project.Prelude.Text.{Text, text_eq}

pub record User : Type 0 where
  pub id : Text
  pub email : Text
  pub username : Text
  pub hashed_password : Text
  pub full_name : Option Text
  pub is_active : Bool
  pub is_admin : Bool
  pub email_verified : Bool

-- `select(User).where(User.column == value)`, for a column without duplicates.
unfoldable pub user_by : (User → Text) → Text → List User → Option User
user_by column value [] = none
user_by column value (u ∷ us) = if column u == value then some u else user_by column value us

-- The UPDATE of a row that was changed, at its id.
unfoldable pub set_user : User → List User → List User
set_user u [] = []
set_user u (v ∷ vs) = if v.id == u.id then u ∷ vs else v ∷ set_user u vs

-- `db.delete(user)`.
unfoldable pub remove_user : Text → List User → List User
remove_user id [] = []
remove_user id (v ∷ vs) = let rest = remove_user id vs in if v.id == id then rest else v ∷ rest

-- `or_` of two equations: the rows that `register` looks for.
unfoldable pub matching : Text → Text → List User → List User
matching email username us = filter (λ u. u.email == email || u.username == username) us

-- A row that a query finds has the value it asked for.
pub user_by_column :
    (column : User → Text) (value : Text) (users : List User) (v : User)
    → user_by column value users ≡ some v
    → column v ≡ value
unfolding user_by
user_by_column column value [] v e = absurd (ground arith)
user_by_column column value (w ∷ ws) v e =
    ground (arith, user_by_column column value ws v, text_eq.beq_iff (column w) value)
