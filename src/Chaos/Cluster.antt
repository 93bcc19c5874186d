-- ===== src/Chaos/Cluster.antt =====
-- services/chaos-controller/app/cluster.py: the state of the simulated cluster. The dict of services
-- has four keys that never change, so it is a function of them; a pod is told by its name. The floats
-- are a parameter.
use microservices_project.Prelude.{
  ℕ, Bool, true, false, not, Option, none, some, List, [], ◌∷◌, ◌++◌, map, ◌==◌, if◌then◌else◌,
  take, filter, nat_eq,
}
use microservices_project.Prelude.Text.{Text, codes, text_eq}

-- The arithmetic of the floats: `dec n k` is the literal with the digits of `n`, `k` of them
-- behind the point.
pub record Floats (F : Type 0) : Type 0 where
  pub dec : (digits places : ℕ) → F
  pub add : F → F → F
  pub sub : F → F → F
  pub mul : F → F → F
  pub div : F → F → F
  pub least : F → F → F
  pub greatest : F → F → F
  pub round : F → (places : ℕ) → F

pub data ServiceName : Type 0 where
  api_gateway : ServiceName
  user_service : ServiceName
  task_service : ServiceName
  notification_service : ServiceName

abbrev pub name_of : ServiceName → Text
name_of api_gateway = codes "api-gateway"
name_of user_service = codes "user-service"
name_of task_service = codes "task-service"
name_of notification_service = codes "notification-service"

-- `service in self.services`, with the key.
unfoldable pub service_of : Text → Option ServiceName
service_of t =
    if t == codes "api-gateway"
    then some api_gateway
    else if t == codes "user-service"
    then some user_service
    else if t == codes "task-service"
    then some task_service
    else if t == codes "notification-service"
    then some notification_service
    else none

abbrev pub same_service : ServiceName → ServiceName → Bool
same_service api_gateway api_gateway = true
same_service user_service user_service = true
same_service task_service task_service = true
same_service notification_service notification_service = true
same_service m n = false

pub data Phase : Type 0 where
  pending : Phase
  container_creating : Phase
  running : Phase
  terminating : Phase

pub record PodState (F : Type 0) : Type 0 where
  pub name : Text
  pub phase : Phase
  pub ready : Bool
  pub age_sec : F

pub record ServiceState (F : Type 0) : Type 0 where
  pub desired_replicas : ℕ
  pub pods : List (PodState F)
  pub healthy : Bool
  pub latency_ms_p95 : F
  pub rps : F
  pub error_rate : F

abbrev pub Services : Type 0 → Type 0
Services F = ServiceName → ServiceState F

module _ {F : Type 0} where
  abbrev pub put : ServiceName → ServiceState F → Services F → Services F
  put n svc services m = if same_service m n then svc else services m

  -- The assignments to the pod of that name, and the removal of it.
  abbrev pub edit_pod : Text → (PodState F → PodState F) → List (PodState F) → List (PodState F)
  edit_pod name f [] = []
  edit_pod name f (p ∷ ps) = (if p.name == name then f p else p) ∷ edit_pod name f ps

  abbrev pub remove_pod : Text → List (PodState F) → List (PodState F)
  remove_pod name pods = filter (λ p. not (p.name == name)) pods

  abbrev pub with_phase : Phase → PodState F → PodState F
  with_phase phase p = record p { phase = phase }

  abbrev pub with_ready : Bool → PodState F → PodState F
  with_ready ready p = record p { ready = ready }

  abbrev pub turn_ready : PodState F → PodState F
  turn_ready p = record p { phase = running; ready = true }

  abbrev pub turn_off : PodState F → PodState F
  turn_off p = record p { phase = terminating; ready = false }

  abbrev pub edit : Text → (PodState F → PodState F) → ServiceState F → ServiceState F
  edit name f svc = record svc { pods = edit_pod name f svc.pods }

  abbrev pub add_pod : PodState F → ServiceState F → ServiceState F
  add_pod p svc = record svc { pods = svc.pods ++ p ∷ [] }

  abbrev pub drop_pod : Text → ServiceState F → ServiceState F
  drop_pod name svc = record svc { pods = remove_pod name svc.pods }

  -- `_init_services`, with the ages and suffixes that are drawn.
  unfoldable pub init_service : Floats F → ServiceName → List (Text × F) → ServiceState F
  init_service fl n drawn = record {
    desired_replicas = 3;
    pods =
        map
          (λ (suffix, age). record {
            name = name_of n ++ codes "-" ++ suffix;
            phase = running;
            ready = true;
            age_sec = age;
          })
          (take 3 drawn);
    healthy = true;
    latency_ms_p95 = fl.dec 45 0;
    rps = fl.dec 80 0;
    error_rate = fl.dec 1 3;
  }
