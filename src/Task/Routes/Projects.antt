-- ===== src/Task/Routes/Projects.antt =====
-- services/task-service/app/routes/projects.py, and the query of `list_tasks` in routes/tasks.py.
use microservices_project.Prelude.{
  ℕ, Bool, true, false, ◌&&◌, Option, none, some, List, ◌==◌, filter, nat_eq, Result, ok, err,
  ◌>>=◌, ◌>>◌, require, ok_or,
}
use microservices_project.Prelude.Dict.{lookup, insert}
use microservices_project.Prelude.Text.{codes}
use microservices_project.Task.Models.{TaskStatus, status_beq, Project, Task, Db, ProjectCreate}
use microservices_project.Task.Pagination.{Cursor, list_page}
use microservices_project.Task.Routes.{HttpError, http_exception, project_not_found, can_view}

abbrev pub new_project : ProjectCreate → ℕ → ℕ → Project
new_project payload caller_id now = record {
  name = payload.name;
  description = payload.description;
  owner_id = caller_id;
  is_active = true;
  created_at = now;
}

unfoldable pub create_project : ℕ → ℕ → ProjectCreate → ℕ → Db → Db × Project
create_project fresh_id now payload caller_id db =
    let p = new_project payload caller_id now in
    (record db { projects = insert fresh_id p db.projects }, p)

unfoldable pub get_project_or_404 : ℕ → Db → Result HttpError Project
get_project_or_404 project_id db = ok_or (lookup project_id db.projects) project_not_found

unfoldable pub get_project : ℕ → ℕ → Db → Result HttpError Project
get_project project_id caller_id db = do
  p ← get_project_or_404 project_id db
  require (p.owner_id == caller_id) project_not_found
  ok p

unfoldable pub owned_for_delete : ℕ → ℕ → Db → Result HttpError Project
owned_for_delete project_id caller_id db = do
  p ← get_project_or_404 project_id db
  require (p.owner_id == caller_id) (http_exception 403 (codes "Not the project owner"))
  ok p

abbrev pub deactivate : ℕ → Db → Result HttpError Project → Db × Result HttpError (Unit {0})
deactivate project_id db (err e) = (db, err e)
deactivate project_id db (ok p) =
    (record db { projects = insert project_id (record p { is_active = false }) db.projects }, ok tt)

unfoldable pub delete_project : ℕ → ℕ → Db → Db × Result HttpError (Unit {0})
delete_project project_id caller_id db =
    deactivate project_id db (owned_for_delete project_id caller_id db)

abbrev pub project_key : ℕ × Project → Cursor
project_key (id, p) = record { created_at = p.created_at; item_id = id }

abbrev pub task_key : ℕ × Task → Cursor
task_key (id, t) = record { created_at = t.created_at; item_id = id }

unfoldable pub list_projects : ℕ → ℕ → Option Cursor → Db → List (ℕ × Project) × Option Cursor
list_projects caller_id limit cursor db =
    list_page project_key
      (filter (λ row. row.1.owner_id == caller_id && row.1.is_active) db.projects) cursor limit

-- A query parameter filters only where it is given.
abbrev pub in_project : Option ℕ → Task → Bool
in_project none t = true
in_project (some project_id) t = t.project_id == project_id

abbrev pub has_status : Option TaskStatus → Task → Bool
has_status none t = true
has_status (some status) t = status_beq t.status status

abbrev pub is_listed : ℕ → Option ℕ → Option TaskStatus → ℕ × Task → Bool
is_listed caller_id project_id status_filter (id, t) =
    can_view t caller_id && in_project project_id t && has_status status_filter t

unfoldable pub list_tasks :
    ℕ → Option ℕ → Option TaskStatus → ℕ → Option Cursor → Db → List (ℕ × Task) × Option Cursor
list_tasks caller_id project_id status_filter limit cursor db =
    list_page task_key (filter (is_listed caller_id project_id status_filter) db.tasks) cursor limit
