-- ===== src/Task/Routes/Ownership.antt =====
-- services/task-service/app/routes/tasks.py and routes/projects.py: who owns what, after any
-- requests.
use microservices_project.Prelude.{
  Result-cases, ℕ, ◌≡◌, refl, sym, ap, ◌∙◌, inl, inr, true, false, Option, none, some, [], ◌∷◌,
  arith, ◌==◌, Bool-cases, nat_eq, Result, ok, err,
}
use microservices_project.Prelude.Dict.{
  Dict, lookup, contains, insert, lookup-insert, Every, insert-Every, erase-Every, lookup-Every,
}
use microservices_project.Prelude.Text.{Text}
use microservices_project.Redis.{Redis}
use microservices_project.Task.Models.{Task, Db, Project, ProjectCreate, TaskCreate, TaskUpdate}
use microservices_project.Task.Routes.{
  Body, HttpError, get_authorized_task, Store, Env, new_task, cached, finish_create,
  replay_or_create, create_task, get_owned_project, apply_update, updated_row, finish_update,
  update_task, finish_delete, delete_task,
}
use microservices_project.Task.Routes.Access.{get_authorized_task_sound}
use microservices_project.Task.Routes.Projects.{
  get_project_or_404, new_project, create_project, owned_for_delete, deactivate, delete_project,
}

-- An update leaves the creator and the project of a task.
apply_update_owner :
    (payload : TaskUpdate) (old t : Task)
    → apply_update payload old ≡ ok t
    → (t.creator_id ≡ old.creator_id) × (t.project_id ≡ old.project_id)
unfolding apply_update
apply_update_owner payload old t e = ground arith

pub updated_row_sound :
    (task_id caller : ℕ) (payload : TaskUpdate) (db : Db) (old t : Task)
    → updated_row task_id payload caller db ≡ ok (old, t)
    → (get_authorized_task task_id caller true db ≡ ok old) × (apply_update payload old ≡ ok t)
unfolding updated_row
updated_row_sound task_id caller payload db old t e =
    elim (Result-cases (get_authorized_task task_id caller true db)) [
      | inl (x, f) ↦ absurd (ground (arith, f))
      | inr (o, f) ↦ elim (Result-cases (apply_update payload o)) [
        | inl (x, g) ↦ absurd (ground (arith, f, g))
        | inr (u, g) ↦ ground (arith, f, g)
      ]
    ]

pub get_owned_project_sound :
    (project_id caller : ℕ) (db : Db) (p : Project)
    → get_owned_project project_id caller db ≡ ok p
    → (lookup project_id db.projects ≡ some p) × (p.owner_id ≡ caller)
unfolding get_owned_project
get_owned_project_sound project_id caller db p e = ground arith

-- A project of the owner that a task names.
abbrev pub HasProject : Dict ℕ Project → ℕ → Task → Type 0
HasProject projects id t =
    (p : Project) × (lookup t.project_id projects ≡ some p) × (p.owner_id ≡ t.creator_id)

-- Each task stands in a project, which is its creator's.
abbrev pub IsOwned : Db → Type 0
IsOwned db = Every (HasProject db.projects) db.tasks

module _ (uuid_str : ℕ → Text) {C : Type 0} (redis : Redis (ℕ × Body) C) where
  pub create_task-IsOwned :
      (env : Env) (payload : TaskCreate) (caller : ℕ) (key : Option Text) (s : Store C)
      → IsOwned s.db
      → IsOwned (create_task uuid_str redis env payload caller key s).0.db
  unfolding create_task
  create_task-IsOwned env payload caller key s h = go (cached uuid_str redis env caller key s)
    where
      add :
          (r : Result HttpError Project)
          → get_owned_project payload.project_id caller s.db ≡ r
          → IsOwned (finish_create uuid_str redis env payload caller key s r).0.db
      add (err e) f = h
      add (ok p) f =
          let own = get_owned_project_sound payload.project_id caller s.db p f in
          insert-Every (HasProject s.db.projects) env.fresh_id (new_task payload caller env.now)
            s.db.tasks (p, own.0, own.1) h

      go :
          (o : Option (ℕ × (ℕ × Task)))
          → IsOwned (replay_or_create uuid_str redis env payload caller key s o).0.db
      go (some (code, body)) = h
      go none = add (get_owned_project payload.project_id caller s.db) refl

pub update_task-IsOwned :
    {C : Type 0} (id : ℕ) (payload : TaskUpdate) (caller : ℕ) (s : Store C)
    → IsOwned s.db
    → IsOwned (update_task id payload caller s).0.db
unfolding update_task
update_task-IsOwned id payload caller s h = go (updated_row id payload caller s.db) refl
  where
    go :
        (r : Result HttpError (Task × Task))
        → updated_row id payload caller s.db ≡ r
        → IsOwned (finish_update id payload caller s r).0.db
    go (err e) f = h
    go (ok (old, t)) f =
        let row = updated_row_sound id caller payload s.db old t f in
        let found = (get_authorized_task_sound id caller true s.db old row.0).0 in
        let same = apply_update_owner payload old t row.1 in
        let before = lookup-Every (HasProject s.db.projects) id old s.db.tasks h found in
        insert-Every (HasProject s.db.projects) id t s.db.tasks
          (before.0, ap (λ i. lookup i s.db.projects) same.1 ∙ before.1, before.2 ∙ sym same.0) h

pub delete_task-IsOwned :
    {C : Type 0} (id caller : ℕ) (s : Store C)
    → IsOwned s.db
    → IsOwned (delete_task id caller s).0.db
unfolding delete_task
delete_task-IsOwned id caller s h = go (get_authorized_task id caller true s.db)
  where
    go : (r : Result HttpError Task) → IsOwned (finish_delete id s r).0.db
    go (err e) = h
    go (ok t) = erase-Every (HasProject s.db.projects) id s.db.tasks h

Every-later :
    (projects projects' : Dict ℕ Project) (tasks : Dict ℕ Task)
    → ((id : ℕ) (t : Task) → HasProject projects id t → HasProject projects' id t)
    → Every (HasProject projects) tasks
    → Every (HasProject projects') tasks
Every-later projects projects' [] f h = tt
Every-later projects projects' ((id, t) ∷ tasks) f h =
    (f id t h.0, Every-later projects projects' tasks f h.1)

pub create_project-IsOwned :
    (id now : ℕ) (payload : ProjectCreate) (caller : ℕ) (db : Db)
    → contains id db.projects ≡ false
    → IsOwned db
    → IsOwned (create_project id now payload caller db).0
unfolding create_project
create_project-IsOwned id now payload caller db new h =
    Every-later db.projects (insert id (new_project payload caller now) db.projects) db.tasks keep h
  where
    keep :
        (i : ℕ) (t : Task)
        → HasProject db.projects i t
        → HasProject (insert id (new_project payload caller now) db.projects) i t
    keep i t (p, found, own) =
        let there = lookup-insert id t.project_id (new_project payload caller now) db.projects in
        (p, ground (arith, there, found, new, nat_eq.beq_iff id t.project_id), own)

owned_for_delete_sound :
    (id caller : ℕ) (db : Db) (p : Project)
    → owned_for_delete id caller db ≡ ok p
    → lookup id db.projects ≡ some p
unfolding owned_for_delete get_project_or_404
owned_for_delete_sound id caller db p e = ground arith

-- A project that is switched off is still its owner's.
kept_project :
    (id : ℕ) (q : Project) (projects : Dict ℕ Project)
    → lookup id projects ≡ some q
    → (i : ℕ) (t : Task) → HasProject projects i t
    → HasProject (insert id (record q { is_active = false }) projects) i t
kept_project id q projects found i t (p, e, own) =
    let put = record q { is_active = false } in
    let there = lookup-insert id t.project_id put projects in
    elim (Bool-cases (id == t.project_id)) [
      | inl same ↦
          let at : id ≡ t.project_id = ground arith in
          let both : some q ≡ some p = sym found ∙ ap (λ k. lookup k projects) at ∙ e in
          let eq : q ≡ p = ground arith in
          (put, ground (arith, there, same), ap (λ x. x.owner_id) eq ∙ own)
      | inr other ↦ (p, ground (arith, there, other, e), own)
    ]

pub delete_project-IsOwned :
    (id caller : ℕ) (db : Db) → IsOwned db → IsOwned (delete_project id caller db).0
unfolding delete_project
delete_project-IsOwned id caller db h = go (owned_for_delete id caller db) refl
  where
    go :
        (r : Result HttpError Project)
        → owned_for_delete id caller db ≡ r
        → IsOwned (deactivate id db r).0
    go (err e) f = h
    go (ok q) f =
        let found = owned_for_delete_sound id caller db q f in
        let put = record q { is_active = false } in
        let keep : (i : ℕ) (t : Task)
            → HasProject db.projects i t
            → HasProject (insert id put db.projects) i t =
          λ i t has. kept_project id q db.projects found i t has in
        Every-later db.projects (insert id put db.projects) db.tasks keep h
