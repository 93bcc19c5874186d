-- ===== src/Chaos/Scenario.antt =====
-- services/chaos-controller/app/cluster.py and explainers.py: the steps of a scenario.
pub mod Shipped
use microservices_project.Prelude.{
  ℕ, zero, suc, ◌+◌, ◌-◌, ◌*◌, ◌≤◌, ◌<◌, ◌≡◌, refl, sym, ap, ◌∙◌, ◌≢◌, ◌↔◌, ◌⊎◌, inl, inr, Bool,
  true, false, not, ◌&&◌, ◌||◌, Option, none, some, List, [], ◌∷◌, ◌++◌, map, arith, ltb, leb, ◌==◌,
  if◌then◌else◌, Bool-cases, Option-cases, length, All, elem, get_elem?, take, filter, tests, Eq,
  nat_eq, Result, ok, err,
}
use microservices_project.Prelude.Text.{Text, codes, text_eq}
use microservices_project.Chaos.Script.{Script, ret, sleep, ◌>>=◌, ◌>>◌}
use microservices_project.Chaos.Cluster.{Floats, ServiceName, Services}
use microservices_project.Chaos.Commands.{
  Command, do_kill_pod, do_cpu_pressure, do_network_partition, do_expire_jwt, do_region_outage,
  do_bad_deploy, do_redis_failure, do_db_failure, do_slow_network, do_memory_leak, do_cert_expiry,
  do_dns_failure, do_cascading_failure, do_disk_full, do_gc_pause, do_thundering_herd,
  do_noisy_neighbor, do_spot_reclaim, do_autoscaler_stuck, do_api_throttle, do_secret_leak,
  do_service_mesh_crash, do_third_party_outage, perform,
}

-- A step of the dict `SCENARIOS`, of whole seconds.
pub record Step : Type 0 where
  pub at : ℕ
  pub action : Text
  pub service : Option Text
  pub duration : Option ℕ

-- What an action draws at random.
pub record Draw : Type 0 where
  pub suffix : Text
  pub suffix' : Text
  pub suffixes : ServiceName → List Text

module _ {F : Type 0} (fl : Floats F) (draw : Draw) where
  -- `step.get("duration", seconds)`
  abbrev pub seconds_or : ℕ → Option ℕ → F
  seconds_or seconds none = fl.dec seconds 0
  seconds_or seconds (some given) = fl.dec given 0

  -- `step["service"]`, which raises where there is none.
  abbrev pub with_service : Option Text → (Text → Command F) → Option (Command F)
  with_service none c = none
  with_service (some service) c = some (c service)

  -- The action of a step; `cpu_pressure` makes no use of its duration.
  unfoldable pub command_of : Step → Option (Command F)
  command_of step =
      if step.action == codes "kill_pod"
      then with_service step.service (λ service. do_kill_pod service draw.suffix)
      else if step.action == codes "cpu_pressure"
      then with_service step.service (λ service. do_cpu_pressure service draw.suffix draw.suffix')
      else if step.action == codes "network_partition"
      then with_service step.service
          (λ service. do_network_partition service (seconds_or 10 step.duration))
      else if step.action == codes "expire_jwt"
      then some do_expire_jwt
      else if step.action == codes "region_outage"
      then some (do_region_outage draw.suffixes (seconds_or 20 step.duration))
      else if step.action == codes "bad_deploy"
      then with_service step.service (λ service. do_bad_deploy service)
      else if step.action == codes "redis_failure"
      then some (do_redis_failure (seconds_or 20 step.duration))
      else if step.action == codes "db_failure"
      then some (do_db_failure (seconds_or 18 step.duration))
      else if step.action == codes "slow_network"
      then some (do_slow_network (seconds_or 25 step.duration))
      else if step.action == codes "memory_leak"
      then with_service step.service (λ service. do_memory_leak service draw.suffix)
      else if step.action == codes "cert_expiry"
      then some do_cert_expiry
      else if step.action == codes "dns_failure"
      then some (do_dns_failure (seconds_or 18 step.duration))
      else if step.action == codes "cascading_failure"
      then some do_cascading_failure
      else if step.action == codes "disk_full"
      then with_service step.service (λ service. do_disk_full service draw.suffix)
      else if step.action == codes "gc_pause"
      then with_service step.service (λ service. do_gc_pause service)
      else if step.action == codes "thundering_herd"
      then some (do_thundering_herd (seconds_or 18 step.duration))
      else if step.action == codes "noisy_neighbor"
      then some (do_noisy_neighbor (seconds_or 22 step.duration))
      else if step.action == codes "spot_reclaim"
      then some (do_spot_reclaim draw.suffix)
      else if step.action == codes "autoscaler_stuck"
      then some (do_autoscaler_stuck (seconds_or 20 step.duration))
      else if step.action == codes "api_throttle"
      then some (do_api_throttle (seconds_or 20 step.duration))
      else if step.action == codes "secret_leak"
      then some (do_secret_leak (seconds_or 22 step.duration))
      else if step.action == codes "service_mesh_crash"
      then with_service step.service (λ service. do_service_mesh_crash service)
      else if step.action == codes "third_party_outage"
      then some (do_third_party_outage (seconds_or 25 step.duration))
      else none

  abbrev pub started_step : Option (Command F) → Script (Services F) F (Unit {0})
  started_step none = ret tt
  started_step (some c) = perform fl c

  -- `_scenario_step`; an action of another name does nothing.
  unfoldable pub scenario_step : Step → Script (Services F) F (Unit {0})
  scenario_step step = sleep (fl.dec step.at 0) >> started_step (command_of step)

  -- The tasks of `run_scenario`, which run side by side.
  unfoldable pub scenario_tasks : List Step → List (Script (Services F) F (Unit {0}))
  scenario_tasks steps = map scenario_step steps
