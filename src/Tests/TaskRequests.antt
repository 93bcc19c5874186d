-- ===== src/Tests/TaskRequests.antt =====
-- services/task-service/app/: pages and requests.
use microservices_project.Prelude.{
  ℕ, zero, suc, ◌+◌, ◌*◌, ◌≡◌, refl, true, false, none, some, List, [], ◌∷◌, arith, length, take,
  nat_eq, ok, err,
}
use microservices_project.Prelude.{drop}
use microservices_project.Prelude.Text.{Text, codes, text_eq}
use microservices_project.Prelude.Dict.{Dict, lookup, insert, lookup-insert}
use microservices_project.Redis.{Redis, Laws}
use microservices_project.Task.Pagination.{Cursor, order_by}
use microservices_project.Task.Pagination.Coverage.{nth_page, nth_page_segment}
use microservices_project.Task.Models.{TaskCreate, TaskUpdate, medium, todo, Project, Task}
use microservices_project.Task.Idempotency.{get_cached_response}
use microservices_project.Task.Routes.{
  Body, Env, Store, Reply, task_not_found, get_task, update_task, delete_task, create_task, cached,
  get_owned_project, new_task,
}
use microservices_project.Task.Routes.Access.{IsHidden, hidden_task_not_found}
use microservices_project.Task.Routes.Ownership.{IsOwned}
use microservices_project.Task.Routes.Requests.{
  deletes_task, here, after, Reachable-IsOwned, Step-others,
}
use microservices_project.Task.Routes.Replay.{create_task_replays}

abbrev key : ℕ → Cursor
key n = record { created_at = 7; item_id = n }

abbrev rows : List ℕ
rows = 3 ∷ 5 ∷ 4 ∷ 1 ∷ 2 ∷ []

nth_page_segment_example :
    (nth_page key rows 2 1).0 ≡ take 2 (drop (1 * (2 + 1)) (order_by key rows))
nth_page_segment_example = nth_page_segment key rows 2 1 (ground arith)

abbrev project : Project
project = record { name = []; description = none; owner_id = 1; is_active = true; created_at = 5 }

abbrev task : Task
task = record {
  title = codes "t";
  description = none;
  status = todo;
  priority = medium;
  project_id = 10;
  creator_id = 1;
  assignee_id = some 2;
  due_date = none;
  created_at = 6;
}

-- A client that keeps every value.
abbrev client : Redis (ℕ × Body) (Dict Text (ℕ × Body))
client = record { get = λ key c. lookup key c; setex = λ key seconds v c. insert key v c }

client-Laws : Laws client
client-Laws = record {
  read_back =
      λ key seconds v c live. ground (arith, lookup-insert key key v c, text_eq.beq_iff key key);
}

abbrev store : Store (Dict Text (ℕ × Body))
store = record {
  db = record { projects = (10, project) ∷ []; tasks = (20, task) ∷ [] };
  cache = [];
  events = [];
}

abbrev no_change : TaskUpdate
no_change = record {
  title = none;
  description = none;
  status = none;
  priority = none;
  assignee_id = none;
  due_date = none;
}

hidden : IsHidden 20 3 store.db
hidden t e = ground arith

hidden_task_not_found_example :
    (get_task 20 3 store ≡ err task_not_found)
    × (update_task 20 no_change 3 store ≡ (store, err task_not_found))
    × (delete_task 20 3 store ≡ (store, err task_not_found))
hidden_task_not_found_example = hidden_task_not_found 20 3 no_change store hidden

-- A text of 36 characters for each number.
abbrev repeat : ℕ → Text → Text
repeat zero s = s
repeat (suc n) s = 45 ∷ repeat n s

abbrev uuid_str : ℕ → Text
uuid_str i = i ∷ repeat 35 []

uuid_str-length : (i : ℕ) → length (uuid_str i) ≡ 36
uuid_str-length i = refl

uuid_str-injective : (i j : ℕ) → uuid_str i ≡ uuid_str j → i ≡ j
uuid_str-injective i j e = ground arith

abbrev caller : ℕ
caller = 4

abbrev env : Env
env = record { fresh_id = 21; now = 9; can_get = true; can_set = true }

abbrev payload : TaskCreate
payload = record {
  title = codes "new";
  description = none;
  priority = medium;
  project_id = 10;
  assignee_id = none;
  due_date = none;
}

-- What the creation answers, and what it leaves.
abbrev reply : Reply
reply = record { status_code = 201; body = (21, new_task payload 1 9); replay = false }

abbrev stored : Store (Dict Text (ℕ × Body))
stored = (create_task uuid_str client env payload 1 (some (codes "k")) store).0

create_task_replays_example :
    create_task uuid_str client env payload 1 (some (codes "k")) stored
    ≡ (stored, ok (record reply { replay = true }))
unfolding create_task cached get_cached_response get_owned_project
create_task_replays_example =
    create_task_replays uuid_str client client-Laws env env payload payload 1 107 [] store stored
      reply refl refl refl refl

Reachable-IsOwned_example : IsOwned (delete_task 20 1 store).0.db
Reachable-IsOwned_example =
    Reachable-IsOwned uuid_str client store (delete_task 20 1 store).0
      (after 1 (deletes_task 20) here) ((project, refl, refl), tt)

Step-others_example : lookup 20 (delete_task 20 2 store).0.db.tasks ≡ some task
Step-others_example =
    Step-others uuid_str client 2 20 store (delete_task 20 2 store).0 task (deletes_task 20) refl
      refl
