-- ===== src/Task/Routes/Requests.antt =====
-- services/task-service/app/routes/: the requests that change the tables, one after another.
use microservices_project.Prelude.{
  ℕ, ◌≡◌, refl, sym, ap, ◌∙◌, inl, inr, true, false, Option, none, some, arith, ◌==◌, Bool-cases,
  nat_eq, Result, ok, err,
}
use microservices_project.Prelude.Dict.{Dict, lookup, contains, lookup-insert, lookup-erase}
use microservices_project.Prelude.Text.{Text}
use microservices_project.Redis.{Redis}
use microservices_project.Task.Models.{Task, Db, Project, ProjectCreate, TaskCreate, TaskUpdate}
use microservices_project.Task.Routes.{
  HttpError, Body, Store, Env, new_task, cached, finish_create, replay_or_create, create_task,
  get_authorized_task, get_owned_project, updated_row, finish_update, update_task, finish_delete,
  delete_task,
}
use microservices_project.Task.Routes.Access.{get_authorized_task_sound}
use microservices_project.Task.Routes.Projects.{
  create_project, owned_for_delete, deactivate, delete_project,
}
use microservices_project.Task.Routes.Ownership.{
  IsOwned, create_task-IsOwned, update_task-IsOwned, delete_task-IsOwned, create_project-IsOwned,
  delete_project-IsOwned, updated_row_sound,
}

-- Two tasks, of which only the second is the caller's, have different ids.
not_at :
    (i id caller : ℕ) (tasks : Dict ℕ Task) (t old : Task)
    → lookup id tasks ≡ some t
    → lookup i tasks ≡ some old
    → (t.creator_id == caller) ≡ false
    → (old.creator_id == caller) ≡ true
    → (i == id) ≡ false
not_at i id caller tasks t old e found other own = elim (Bool-cases (i == id)) [
  | inl same ↦
      let at : i ≡ id = ground arith in
      let both : some old ≡ some t = sym found ∙ ap (λ k. lookup k tasks) at ∙ e in
      let eq : old.creator_id ≡ t.creator_id =
        ap (λ o. elim o [ none ↦ 0 | some x ↦ x.creator_id ]) both in
      ground arith
  | inr apart ↦ apart
]

delete_project_tasks : (id caller : ℕ) (db : Db) → (delete_project id caller db).0.tasks ≡ db.tasks
unfolding delete_project
delete_project_tasks id caller db = go (owned_for_delete id caller db)
  where
    go : (r : Result HttpError Project) → (deactivate id db r).0.tasks ≡ db.tasks
    go (err e) = refl
    go (ok p) = refl

module _ (uuid_str : ℕ → Text) {C : Type 0} (redis : Redis (ℕ × Body) C) where
  -- A request of a caller, with the state before and after it. The database gives a new row an id
  -- that its table does not have.
  pub data Step (caller : ℕ) : Store C → Store C → Type 0 where
    creates_task :
        {s : Store C} (env : Env) (payload : TaskCreate) (key : Option Text)
        → contains env.fresh_id s.db.tasks ≡ false
        → Step caller s (create_task uuid_str redis env payload caller key s).0
    updates_task :
        {s : Store C} (id : ℕ) (payload : TaskUpdate)
        → Step caller s (update_task id payload caller s).0
    deletes_task : {s : Store C} (id : ℕ) → Step caller s (delete_task id caller s).0
    creates_project :
        {s : Store C} (id now : ℕ) (payload : ProjectCreate)
        → contains id s.db.projects ≡ false
        → Step caller s (record s { db = (create_project id now payload caller s.db).0 })
    deletes_project :
        {s : Store C} (id : ℕ) → Step caller s (record s { db = (delete_project id caller s.db).0 })

  -- Any requests of any callers.
  pub data Reachable : Store C → Store C → Type 0 where
    here : {s : Store C} → Reachable s s
    after : {s t u : Store C} (caller : ℕ) → Step caller s t → Reachable t u → Reachable s u

  Step-IsOwned : (caller : ℕ) (s t : Store C) → Step caller s t → IsOwned s.db → IsOwned t.db
  Step-IsOwned caller s _ (creates_task env payload key new) h =
      create_task-IsOwned uuid_str redis env payload caller key s h
  Step-IsOwned caller s _ (updates_task id payload) h = update_task-IsOwned id payload caller s h
  Step-IsOwned caller s _ (deletes_task id) h = delete_task-IsOwned id caller s h
  Step-IsOwned caller s _ (creates_project id now payload new) h =
      create_project-IsOwned id now payload caller s.db new h
  Step-IsOwned caller s _ (deletes_project id) h = delete_project-IsOwned id caller s.db h

  -- After any requests of any callers, each task stands in a project that exists and that the
  -- task's creator owns, if this was so before.
  pub Reachable-IsOwned : (s t : Store C) → Reachable s t → IsOwned s.db → IsOwned t.db
  Reachable-IsOwned s _ here h = h
  Reachable-IsOwned s u (after {t = t} caller step rest) h =
      Reachable-IsOwned t u rest (Step-IsOwned caller s t step h)

  create_task_keeps :
      (env : Env) (payload : TaskCreate) (caller id : ℕ) (key : Option Text) (s : Store C)
      (t : Task)
      → contains env.fresh_id s.db.tasks ≡ false
      → lookup id s.db.tasks ≡ some t
      → lookup id (create_task uuid_str redis env payload caller key s).0.db.tasks ≡ some t
  unfolding create_task
  create_task_keeps env payload caller id key s t new e =
      go (cached uuid_str redis env caller key s)
    where
      add :
          (r : Result HttpError Project)
          → lookup id (finish_create uuid_str redis env payload caller key s r).0.db.tasks ≡ some t
      add (err x) = e
      add (ok p) =
          let put = lookup-insert env.fresh_id id (new_task payload caller env.now) s.db.tasks in
          ground (arith, put, e, new, nat_eq.beq_iff env.fresh_id id)

      go :
          (o : Option (ℕ × Body))
          → lookup id (replay_or_create uuid_str redis env payload caller key s o).0.db.tasks
            ≡ some t
      go (some (code, body)) = e
      go none = add (get_owned_project payload.project_id caller s.db)

  update_task_keeps :
      (i id caller : ℕ) (payload : TaskUpdate) (s : Store C) (t : Task)
      → lookup id s.db.tasks ≡ some t
      → (t.creator_id == caller) ≡ false
      → lookup id (update_task i payload caller s).0.db.tasks ≡ some t
  unfolding update_task
  update_task_keeps i id caller payload s t e other = go (updated_row i payload caller s.db) refl
    where
      go :
          (r : Result HttpError (Task × Task))
          → updated_row i payload caller s.db ≡ r
          → lookup id (finish_update i payload caller s r).0.db.tasks ≡ some t
      go (err x) f = e
      go (ok (old, new)) f =
          let row = (updated_row_sound i caller payload s.db old new f).0 in
          let (found, seen, own) = get_authorized_task_sound i caller true s.db old row in
          let put = lookup-insert i id new s.db.tasks in
          let apart = not_at i id caller s.db.tasks t old e found other (own refl) in
          ground (arith, put, apart, e)

  delete_task_keeps :
      (i id caller : ℕ) (s : Store C) (t : Task)
      → lookup id s.db.tasks ≡ some t
      → (t.creator_id == caller) ≡ false
      → lookup id (delete_task i caller s).0.db.tasks ≡ some t
  unfolding delete_task
  delete_task_keeps i id caller s t e other = go (get_authorized_task i caller true s.db) refl
    where
      go :
          (r : Result HttpError Task)
          → get_authorized_task i caller true s.db ≡ r
          → lookup id (finish_delete i s r).0.db.tasks ≡ some t
      go (err x) f = e
      go (ok old) f =
          let (found, seen, own) = get_authorized_task_sound i caller true s.db old f in
          let gone = lookup-erase i id s.db.tasks in
          let apart = not_at i id caller s.db.tasks t old e found other (own refl) in
          ground (arith, gone, apart, e)

  -- A request of a caller leaves every task of which the caller is not the creator as it is.
  pub Step-others :
      (caller id : ℕ) (s s' : Store C) (t : Task)
      → Step caller s s'
      → lookup id s.db.tasks ≡ some t
      → (t.creator_id == caller) ≡ false
      → lookup id s'.db.tasks ≡ some t
  unfolding create_project
  Step-others caller id s _ t (creates_task env payload key new) e other =
      create_task_keeps env payload caller id key s t new e
  Step-others caller id s _ t (updates_task i payload) e other =
      update_task_keeps i id caller payload s t e other
  Step-others caller id s _ t (deletes_task i) e other = delete_task_keeps i id caller s t e other
  Step-others caller id s _ t (creates_project i now payload new) e other = e
  Step-others caller id s _ t (deletes_project i) e other =
      ap (λ tasks. lookup id tasks) (delete_project_tasks i caller s.db) ∙ e
