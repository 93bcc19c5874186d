-- ===== src/Task/Pagination.antt =====
-- services/task-service/app/pagination.py, with the queries of `list_tasks` in routes/tasks.py and
-- `list_projects` in routes/projects.py that it is used by. A time and a UUID are numbers, in the
-- order the database has on them; a cursor is the pair it encodes.
pub mod Pages
pub mod Coverage
use microservices_project.Prelude.{
  ℕ, zero, suc, ◌+◌, ◌-◌, ◌*◌, ◌≤◌, ◌<◌, ◌≡◌, refl, sym, ap, ◌∙◌, ◌≢◌, ◌↔◌, ◌⊎◌, inl, inr, Bool,
  true, false, not, ◌&&◌, ◌||◌, Option, none, some, List, [], ◌∷◌, ◌++◌, map, arith, ltb, leb, ◌==◌,
  if◌then◌else◌, Bool-cases, Option-cases, length, All, elem, get_elem?, take, filter, tests, Eq,
  nat_eq, Result, ok, err, ◌>>=◌, ◌>>◌, require, ok_or,
}

-- The sort key of a row, and what a cursor decodes to.
pub record Cursor : Type 0 where
  pub created_at : ℕ
  pub item_id : ℕ

module _ {ℓ} {A : Type ℓ} (key : A → Cursor) where
  -- The keyset filter: `created_at < t or (created_at == t and id < i)`.
  unfoldable pub precedes : Cursor → A → Bool
  precedes c a =
      ltb (key a).created_at c.created_at
      || ((key a).created_at == c.created_at && ltb (key a).item_id c.item_id)

  abbrev pub place : A → List A → List A
  place a [] = a ∷ []
  place a (b ∷ bs) = if precedes (key a) b then a ∷ b ∷ bs else b ∷ place a bs

  -- `order_by(created_at.desc(), id.desc())`.
  unfoldable pub order_by : List A → List A
  order_by [] = []
  order_by (a ∷ xs) = place a (order_by xs)

  unfoldable pub make_cursor_page : List A → ℕ → List A × Option Cursor
  make_cursor_page items limit = elim (get_elem? items limit) [
    | none ↦ (items, none)
    | some next_item ↦ (take limit items, some (key next_item))
  ]

  unfoldable pub after_cursor : Option Cursor → List A → List A
  after_cursor none rows = rows
  after_cursor (some c) rows = filter (precedes c) rows

  -- A page of the rows that a caller may see.
  unfoldable pub list_page : List A → Option Cursor → ℕ → List A × Option Cursor
  list_page rows cursor limit =
      make_cursor_page (take (limit + 1) (order_by (after_cursor cursor rows))) limit
