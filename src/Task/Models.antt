-- ===== src/Task/Models.antt =====
-- services/task-service/app/models.py and the payloads of schemas.py, as far as the routes use
-- them. A UUID and a time are numbers; `updated_at` is set by the database and not modelled.
use microservices_project.Prelude.{ℕ, Bool, true, false, Option, nat_eq}
use microservices_project.Prelude.Dict.{Dict}
use microservices_project.Prelude.Text.{Text}

pub data TaskStatus : Type 0 where
  todo : TaskStatus
  in_progress : TaskStatus
  in_review : TaskStatus
  done : TaskStatus
  cancelled : TaskStatus

unfoldable pub status_beq : TaskStatus → TaskStatus → Bool
status_beq todo todo = true
status_beq in_progress in_progress = true
status_beq in_review in_review = true
status_beq done done = true
status_beq cancelled cancelled = true
status_beq _ _ = false

pub data TaskPriority : Type 0 where
  low : TaskPriority
  medium : TaskPriority
  high : TaskPriority
  critical : TaskPriority

pub record Project : Type 0 where
  pub name : Text
  pub description : Option Text
  pub owner_id : ℕ
  pub is_active : Bool
  pub created_at : ℕ

pub record Task : Type 0 where
  pub title : Text
  pub description : Option Text
  pub status : TaskStatus
  pub priority : TaskPriority
  pub project_id : ℕ
  pub creator_id : ℕ
  pub assignee_id : Option ℕ
  pub due_date : Option ℕ
  pub created_at : ℕ

-- The two tables, by primary key.
pub record Db : Type 0 where
  pub projects : Dict ℕ Project
  pub tasks : Dict ℕ Task

pub record ProjectCreate : Type 0 where
  pub name : Text
  pub description : Option Text

pub record TaskCreate : Type 0 where
  pub title : Text
  pub description : Option Text
  pub priority : TaskPriority
  pub project_id : ℕ
  pub assignee_id : Option ℕ
  pub due_date : Option ℕ

-- A field of a PATCH: unset, or set to a value or to null.
abbrev pub Patch : Type 0 → Type 0
Patch A = Option (Option A)

pub record TaskUpdate : Type 0 where
  pub title : Patch Text
  pub description : Patch Text
  pub status : Patch TaskStatus
  pub priority : Patch TaskPriority
  pub assignee_id : Patch ℕ
  pub due_date : Patch ℕ
