-- ===== src/Task/Routes.antt =====
-- services/task-service/app/routes/tasks.py and routes/projects.py. A handler works on the tables,
-- the idempotency cache and the events handed to the service bus; an exception rolls all of it back.
pub mod Access
pub mod Replay
pub mod Projects
pub mod Ownership
pub mod Requests
use microservices_project.Prelude.{
  ℕ, zero, suc, ◌+◌, ◌-◌, ◌*◌, ◌≤◌, ◌<◌, ◌≡◌, refl, sym, ap, ◌∙◌, ◌≢◌, ◌↔◌, ◌⊎◌, inl, inr, Bool,
  true, false, not, ◌&&◌, ◌||◌, Option, none, some, List, [], ◌∷◌, ◌++◌, map, arith, ltb, leb, ◌==◌,
  if◌then◌else◌, Bool-cases, Option-cases, length, All, elem, get_elem?, take, filter, tests, Eq,
  nat_eq, Result, ok, err, ◌>>=◌, ◌>>◌, require, ok_or,
}
use microservices_project.Prelude.Dict.{Dict, lookup, insert, erase}
use microservices_project.Prelude.Text.{Text, codes}
use microservices_project.Redis.{Redis}
use microservices_project.Task.Models.{
  TaskStatus, todo, status_beq, Project, Task, Db, ProjectCreate, TaskCreate, Patch, TaskUpdate,
}
use microservices_project.Task.Idempotency.{get_cached_response, cache_response}

-- What a handler raises: an HTTPException, or the error of a violated NOT NULL column.
pub data HttpError : Type 0 where
  http_exception : (status_code : ℕ) → (detail : Text) → HttpError
  integrity_error : HttpError

abbrev pub task_not_found : HttpError
task_not_found = http_exception 404 (codes "Task not found")

abbrev pub project_not_found : HttpError
project_not_found = http_exception 404 (codes "Project not found")

unfoldable pub get_task_or_404 : ℕ → Db → Result HttpError Task
get_task_or_404 task_id db = ok_or (lookup task_id db.tasks) task_not_found

abbrev pub is_assignee : Task → ℕ → Bool
is_assignee t caller_id = elim t.assignee_id [ none ↦ false | some a ↦ a == caller_id ]

abbrev pub can_view : Task → ℕ → Bool
can_view t caller_id = t.creator_id == caller_id || is_assignee t caller_id

unfoldable pub get_authorized_task : ℕ → ℕ → Bool → Db → Result HttpError Task
get_authorized_task task_id caller_id require_owner db = do
  t ← get_task_or_404 task_id db
  require (can_view t caller_id) task_not_found
  require (not require_owner || t.creator_id == caller_id)
      (http_exception 403 (codes "Only the task creator can perform this action"))
  ok t

unfoldable pub get_owned_project : ℕ → ℕ → Db → Result HttpError Project
get_owned_project project_id caller_id db = do
  p ← ok_or (lookup project_id db.projects) project_not_found
  require (p.owner_id == caller_id) project_not_found
  ok p

pub data Event : Type 0 where
  task_created :
      (task_id : ℕ)
      → (title : Text) → (project_id creator_id : ℕ) → (assignee_id : Option ℕ) → Event
  task_status_changed :
      (task_id : ℕ)
      → (old_status new_status : TaskStatus) → (updated_by creator_id : ℕ)
      → (assignee_id : Option ℕ) → Event
  task_deleted : (task_id creator_id : ℕ) → (assignee_id : Option ℕ) → Event

-- A response with a task: its id, its columns, and the Idempotency-Key-Replay header.
abbrev pub Body : Type 0
Body = ℕ × Task

pub record Reply : Type 0 where
  pub status_code : ℕ
  pub body : Body
  pub replay : Bool

pub record Store (C : Type 0) : Type 0 where
  pub db : Db
  pub cache : C
  pub events : List Event

-- What the database and Redis decide in a request: the id and the time of a new row, and whether
-- the cache is in reach for the read and for the write.
pub record Env : Type 0 where
  pub fresh_id : ℕ
  pub now : ℕ
  pub can_get : Bool
  pub can_set : Bool

abbrev pub new_task : TaskCreate → ℕ → ℕ → Task
new_task payload caller_id now = record {
  title = payload.title;
  description = payload.description;
  status = todo;
  priority = payload.priority;
  project_id = payload.project_id;
  creator_id = caller_id;
  assignee_id = payload.assignee_id;
  due_date = payload.due_date;
  created_at = now;
}

module _ (uuid_str : ℕ → Text) {C : Type 0} (redis : Redis (ℕ × Body) C) where
  -- The cached response, where the request has a key that is not empty.
  unfoldable pub cached : Env → ℕ → Option Text → Store C → Option (ℕ × Body)
  cached env caller_id none s = none
  cached env caller_id (some []) s = none
  cached env caller_id (some (c ∷ cs)) s =
      get_cached_response uuid_str redis env.can_get caller_id (c ∷ cs) s.cache

  unfoldable pub remember : Env → ℕ → Option Text → Body → C → C
  remember env caller_id none body cache = cache
  remember env caller_id (some []) body cache = cache
  remember env caller_id (some (c ∷ cs)) body cache =
      cache_response uuid_str redis env.can_set caller_id (c ∷ cs) 201 body cache

  -- The new row, the background tasks and the response, once the project is the caller's.
  abbrev pub finish_create :
      Env
      → TaskCreate
      → ℕ
      → Option Text
      → Store C
      → Result HttpError Project
      → Store C × Result HttpError Reply
  finish_create env payload caller_id idempotency_key s (err e) = (s, err e)
  finish_create env payload caller_id idempotency_key s (ok p) =
      let t : Task = new_task payload caller_id env.now in
      let body : Body = (env.fresh_id, t) in
      let db : Db = record { projects = s.db.projects; tasks = insert env.fresh_id t s.db.tasks } in
      let event = task_created env.fresh_id t.title t.project_id t.creator_id t.assignee_id in
      (
        record {
          db = db;
          cache = remember env caller_id idempotency_key body s.cache;
          events = s.events ++ event ∷ [];
        },
        ok (record { status_code = 201; body = body; replay = false }),
      )

  abbrev pub replay_or_create :
      Env
      → TaskCreate
      → ℕ
      → Option Text
      → Store C
      → Option (ℕ × Body)
      → Store C × Result HttpError Reply
  replay_or_create env payload caller_id idempotency_key s (some (code, body)) =
      (s, ok (record { status_code = code; body = body; replay = true }))
  replay_or_create env payload caller_id idempotency_key s none =
      finish_create env payload caller_id idempotency_key s
        (get_owned_project payload.project_id caller_id s.db)

  unfoldable pub create_task :
      Env → TaskCreate → ℕ → Option Text → Store C → Store C × Result HttpError Reply
  create_task env payload caller_id idempotency_key s =
      replay_or_create env payload caller_id idempotency_key s
        (cached env caller_id idempotency_key s)

unfoldable pub get_task : {C : Type 0} → ℕ → ℕ → Store C → Result HttpError Task
get_task task_id caller_id s = get_authorized_task task_id caller_id false s.db

-- `setattr` of a column that may be null, and of one that may not.
abbrev pub set_nullable : {A : Type 0} → Patch A → Option A → Option A
set_nullable none old = old
set_nullable (some new) old = new

abbrev pub set_required : {A : Type 0} → Patch A → A → Result HttpError A
set_required none old = ok old
set_required (some none) old = err integrity_error
set_required (some (some new)) old = ok new

unfoldable pub apply_update : TaskUpdate → Task → Result HttpError Task
apply_update payload t = do
  title ← set_required payload.title t.title
  status ← set_required payload.status t.status
  priority ← set_required payload.priority t.priority
  ok (record t {
    title = title;
    description = set_nullable payload.description t.description;
    status = status;
    priority = priority;
    assignee_id = set_nullable payload.assignee_id t.assignee_id;
    due_date = set_nullable payload.due_date t.due_date;
  })

-- `payload.status is not None`.
abbrev pub sets_status : TaskUpdate → Bool
sets_status payload = elim payload.status [ some (some new) ↦ true | _ ↦ false ]

unfoldable pub update_events : ℕ → ℕ → TaskUpdate → Task → Task → List Event
update_events task_id caller_id payload old t =
    if sets_status payload && not (status_beq t.status old.status)
    then task_status_changed task_id old.status t.status caller_id t.creator_id t.assignee_id ∷ []
    else []

-- The row before and after the update.
unfoldable pub updated_row : ℕ → TaskUpdate → ℕ → Db → Result HttpError (Task × Task)
updated_row task_id payload caller_id db = do
  old ← get_authorized_task task_id caller_id true db
  t ← apply_update payload old
  let pair : Task × Task = (old, t) in ok pair

abbrev pub finish_update :
    {C : Type 0}
    → ℕ
    → TaskUpdate
    → ℕ
    → Store C
    → Result HttpError (Task × Task)
    → Store C × Result HttpError Task
finish_update task_id payload caller_id s (err e) = (s, err e)
finish_update task_id payload caller_id s (ok (old, t)) = (
  record s {
    db = record { projects = s.db.projects; tasks = insert task_id t s.db.tasks };
    events = s.events ++ update_events task_id caller_id payload old t;
  },
  ok t,
)

unfoldable pub update_task :
    {C : Type 0} → ℕ → TaskUpdate → ℕ → Store C → Store C × Result HttpError Task
update_task task_id payload caller_id s =
    finish_update task_id payload caller_id s (updated_row task_id payload caller_id s.db)

abbrev pub finish_delete :
    {C : Type 0} → ℕ → Store C → Result HttpError Task → Store C × Result HttpError (Unit {0})
finish_delete task_id s (err e) = (s, err e)
finish_delete task_id s (ok t) = (
  record s {
    db = record { projects = s.db.projects; tasks = erase task_id s.db.tasks };
    events = s.events ++ task_deleted task_id t.creator_id t.assignee_id ∷ [];
  },
  ok tt,
)

unfoldable pub delete_task : {C : Type 0} → ℕ → ℕ → Store C → Store C × Result HttpError (Unit {0})
delete_task task_id caller_id s =
    finish_delete task_id s (get_authorized_task task_id caller_id true s.db)
