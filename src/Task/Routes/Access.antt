-- ===== src/Task/Routes/Access.antt =====
-- services/task-service/app/routes/tasks.py: who may see and change a task.
use microservices_project.Prelude.{
  ℕ, ◌≡◌, inl, inr, Bool, true, false, some, arith, ◌==◌, Option-cases, nat_eq, ok, err,
}
use microservices_project.Prelude.Dict.{lookup}
use microservices_project.Task.Models.{Task, Db, TaskUpdate}
use microservices_project.Task.Routes.{
  task_not_found, get_task_or_404, can_view, get_authorized_task, Store, get_task, updated_row,
  update_task, delete_task,
}

-- What `_get_authorized_task` grants: the task is there, the caller is its creator or its
-- assignee, and its creator where the owner is required.
pub get_authorized_task_sound :
    (task_id caller_id : ℕ) (require_owner : Bool) (db : Db) (t : Task)
    → get_authorized_task task_id caller_id require_owner db ≡ ok t
    → (lookup task_id db.tasks ≡ some t)
      × (can_view t caller_id ≡ true)
      × (require_owner ≡ true → (t.creator_id == caller_id) ≡ true)
unfolding get_authorized_task get_task_or_404
get_authorized_task_sound task_id caller_id require_owner db t e = ground arith

-- The task is not there for this caller: it does not exist, or is another's.
abbrev pub IsHidden : ℕ → ℕ → Db → Type 0
IsHidden task_id caller_id db =
    (t : Task) → lookup task_id db.tasks ≡ some t → can_view t caller_id ≡ false

get_authorized_task_hidden :
    (task_id caller_id : ℕ) (require_owner : Bool) (db : Db)
    → IsHidden task_id caller_id db
    → get_authorized_task task_id caller_id require_owner db ≡ err task_not_found
unfolding get_authorized_task get_task_or_404
get_authorized_task_hidden task_id caller_id require_owner db h =
    elim (Option-cases (lookup task_id db.tasks)) [
      | inl e ↦ ground (arith, e)
      | inr (t, e) ↦ ground (arith, e, h t e)
    ]

-- A caller who is neither the creator nor the assignee of a task cannot tell it from one that does
-- not exist, by reading, changing or deleting it: each is answered by the same 404 error, and
-- nothing is stored.
pub hidden_task_not_found :
    (task_id caller_id : ℕ) (payload : TaskUpdate) {C : Type 0} (s : Store C)
    → IsHidden task_id caller_id s.db
    → (get_task task_id caller_id s ≡ err task_not_found)
      × (update_task task_id payload caller_id s ≡ (s, err task_not_found))
      × (delete_task task_id caller_id s ≡ (s, err task_not_found))
unfolding get_task update_task updated_row delete_task
hidden_task_not_found task_id caller_id payload s h =
    let seen = get_authorized_task_hidden task_id caller_id false s.db h in
    let owned = get_authorized_task_hidden task_id caller_id true s.db h in
    (seen, ground (arith, owned), ground (arith, owned))
