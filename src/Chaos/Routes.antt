-- ===== src/Chaos/Routes.antt =====
-- services/chaos-controller/app/main.py: the routes that start an action.
use microservices_project.Prelude.{
  ℕ, ◌≡◌, refl, Bool, true, Option, none, some, ◌==◌, if◌then◌else◌, nat_eq, Result, ok, err, ok_or,
}
use microservices_project.Prelude.Text.{Text, codes, text_eq, text_beq}
use microservices_project.Chaos.Cluster.{Floats}
use microservices_project.Chaos.Commands.{
  Command, do_kill_pod, do_cpu_pressure, do_network_partition, do_expire_jwt, do_region_outage,
  do_bad_deploy, do_redis_failure, do_db_failure, do_slow_network, do_memory_leak, do_cert_expiry,
  do_dns_failure, do_cascading_failure, do_disk_full, do_gc_pause, do_thundering_herd,
  do_noisy_neighbor, do_spot_reclaim, do_autoscaler_stuck, do_api_throttle, do_secret_leak,
  do_service_mesh_crash, do_third_party_outage,
}
use microservices_project.Chaos.Scenario.{Step, Draw, command_of}

-- The JSON body, where there is one, with the fields that are present; other fields are ignored.
pub record Body (F : Type 0) : Type 0 where
  pub service : Option Text
  pub duration : Option F

module _ {F : Type 0} (fl : Floats F) (draw : Draw) where
  -- `ServiceBody` and `ServiceDurationBody`: the service is required, which the framework checks before
  -- the route runs.
  abbrev pub service_body : Option (Body F) → (Text → Option F → Command F) → Result ℕ (Command F)
  service_body none act = err 422
  service_body (some body) act = elim body.service [
    | none ↦ err 422
    | some service ↦ ok (act service body.duration)
  ]

  -- The duration of a body that may be left out.
  abbrev pub duration_or : F → Option (Body F) → F
  duration_or default none = default
  duration_or default (some body) = elim body.duration [ none ↦ fl.dec 200 1 | some given ↦ given ]

  abbrev pub given_or : F → Option F → F
  given_or default none = default
  given_or default (some given) = given

  -- The command that a POST queues, when it is valid.
  unfoldable pub route : Text → Option (Body F) → Result ℕ (Command F)
  route path body =
      if path == codes "/chaos/kill-pod"
      then service_body body (λ service duration. do_kill_pod service draw.suffix)
      else if path == codes "/chaos/cpu-pressure"
      then service_body body (λ service duration. do_cpu_pressure service draw.suffix draw.suffix')
      else if path == codes "/chaos/network-partition"
      then service_body body
          (λ service duration. do_network_partition service (given_or (fl.dec 100 1) duration))
      else if path == codes "/chaos/expire-jwt"
      then ok do_expire_jwt
      else if path == codes "/chaos/region-outage"
      then ok (do_region_outage draw.suffixes (duration_or (fl.dec 200 1) body))
      else if path == codes "/chaos/bad-deploy"
      then service_body body (λ service duration. do_bad_deploy service)
      else if path == codes "/chaos/redis-failure"
      then ok (do_redis_failure (duration_or (fl.dec 200 1) body))
      else if path == codes "/chaos/db-failure"
      then ok (do_db_failure (duration_or (fl.dec 180 1) body))
      else if path == codes "/chaos/slow-network"
      then ok (do_slow_network (duration_or (fl.dec 250 1) body))
      else if path == codes "/chaos/memory-leak"
      then service_body body (λ service duration. do_memory_leak service draw.suffix)
      else if path == codes "/chaos/cert-expiry"
      then ok do_cert_expiry
      else if path == codes "/chaos/dns-failure"
      then ok (do_dns_failure (duration_or (fl.dec 180 1) body))
      else if path == codes "/chaos/cascading-failure"
      then ok do_cascading_failure
      else if path == codes "/chaos/disk-full"
      then service_body body (λ service duration. do_disk_full service draw.suffix)
      else if path == codes "/chaos/gc-pause"
      then service_body body (λ service duration. do_gc_pause service)
      else if path == codes "/chaos/thundering-herd"
      then ok (do_thundering_herd (duration_or (fl.dec 180 1) body))
      else if path == codes "/chaos/noisy-neighbor"
      then ok (do_noisy_neighbor (duration_or (fl.dec 220 1) body))
      else if path == codes "/chaos/spot-reclaim"
      then ok (do_spot_reclaim draw.suffix)
      else if path == codes "/chaos/autoscaler-stuck"
      then ok (do_autoscaler_stuck (duration_or (fl.dec 200 1) body))
      else if path == codes "/chaos/api-throttle"
      then ok (do_api_throttle (duration_or (fl.dec 200 1) body))
      else if path == codes "/chaos/secret-leak"
      then ok (do_secret_leak (duration_or (fl.dec 220 1) body))
      else if path == codes "/chaos/service-mesh-crash"
      then service_body body (λ service duration. do_service_mesh_crash service)
      else if path == codes "/chaos/third-party-outage"
      then ok (do_third_party_outage (duration_or (fl.dec 250 1) body))
      else err 404

  -- `_ensure_cluster` in front: without a cluster a valid request is answered with 503.
  unfoldable pub post : Bool → Text → Option (Body F) → Result ℕ (Command F)
  post initialised path body = elim (route path body) [
    | err status ↦ err status
    | ok c ↦ if initialised then ok c else err 503
  ]

-- The actions, by the names that the scenarios and the routes give them.
pub data Kind : Type 0 where
  is_kill_pod : Kind
  is_cpu_pressure : Kind
  is_network_partition : Kind
  is_expire_jwt : Kind
  is_region_outage : Kind
  is_bad_deploy : Kind
  is_redis_failure : Kind
  is_db_failure : Kind
  is_slow_network : Kind
  is_memory_leak : Kind
  is_cert_expiry : Kind
  is_dns_failure : Kind
  is_cascading_failure : Kind
  is_disk_full : Kind
  is_gc_pause : Kind
  is_thundering_herd : Kind
  is_noisy_neighbor : Kind
  is_spot_reclaim : Kind
  is_autoscaler_stuck : Kind
  is_api_throttle : Kind
  is_secret_leak : Kind
  is_service_mesh_crash : Kind
  is_third_party_outage : Kind

abbrev pub action_name : Kind → Text
action_name is_kill_pod = codes "kill_pod"
action_name is_cpu_pressure = codes "cpu_pressure"
action_name is_network_partition = codes "network_partition"
action_name is_expire_jwt = codes "expire_jwt"
action_name is_region_outage = codes "region_outage"
action_name is_bad_deploy = codes "bad_deploy"
action_name is_redis_failure = codes "redis_failure"
action_name is_db_failure = codes "db_failure"
action_name is_slow_network = codes "slow_network"
action_name is_memory_leak = codes "memory_leak"
action_name is_cert_expiry = codes "cert_expiry"
action_name is_dns_failure = codes "dns_failure"
action_name is_cascading_failure = codes "cascading_failure"
action_name is_disk_full = codes "disk_full"
action_name is_gc_pause = codes "gc_pause"
action_name is_thundering_herd = codes "thundering_herd"
action_name is_noisy_neighbor = codes "noisy_neighbor"
action_name is_spot_reclaim = codes "spot_reclaim"
action_name is_autoscaler_stuck = codes "autoscaler_stuck"
action_name is_api_throttle = codes "api_throttle"
action_name is_secret_leak = codes "secret_leak"
action_name is_service_mesh_crash = codes "service_mesh_crash"
action_name is_third_party_outage = codes "third_party_outage"

abbrev pub action_path : Kind → Text
action_path is_kill_pod = codes "/chaos/kill-pod"
action_path is_cpu_pressure = codes "/chaos/cpu-pressure"
action_path is_network_partition = codes "/chaos/network-partition"
action_path is_expire_jwt = codes "/chaos/expire-jwt"
action_path is_region_outage = codes "/chaos/region-outage"
action_path is_bad_deploy = codes "/chaos/bad-deploy"
action_path is_redis_failure = codes "/chaos/redis-failure"
action_path is_db_failure = codes "/chaos/db-failure"
action_path is_slow_network = codes "/chaos/slow-network"
action_path is_memory_leak = codes "/chaos/memory-leak"
action_path is_cert_expiry = codes "/chaos/cert-expiry"
action_path is_dns_failure = codes "/chaos/dns-failure"
action_path is_cascading_failure = codes "/chaos/cascading-failure"
action_path is_disk_full = codes "/chaos/disk-full"
action_path is_gc_pause = codes "/chaos/gc-pause"
action_path is_thundering_herd = codes "/chaos/thundering-herd"
action_path is_noisy_neighbor = codes "/chaos/noisy-neighbor"
action_path is_spot_reclaim = codes "/chaos/spot-reclaim"
action_path is_autoscaler_stuck = codes "/chaos/autoscaler-stuck"
action_path is_api_throttle = codes "/chaos/api-throttle"
action_path is_secret_leak = codes "/chaos/secret-leak"
action_path is_service_mesh_crash = codes "/chaos/service-mesh-crash"
action_path is_third_party_outage = codes "/chaos/third-party-outage"

-- A route and a step of a scenario that name one action, with a service and a duration, start the
-- same command.
pub post-command_of :
    {F : Type 0} (fl : Floats F) (draw : Draw) (kind : Kind) (service : Text) (at seconds : ℕ)
    → let body : Body F = record { service = some service; duration = some (fl.dec seconds 0) } in
      let step : Step = record {
        at = at;
        action = action_name kind;
        service = some service;
        duration = some seconds;
      } in
      post fl draw true (action_path kind) (some body) ≡ ok_or (command_of fl draw step) 404
unfolding post route command_of text_beq
post-command_of fl draw is_kill_pod service at seconds = refl
post-command_of fl draw is_cpu_pressure service at seconds = refl
post-command_of fl draw is_network_partition service at seconds = refl
post-command_of fl draw is_expire_jwt service at seconds = refl
post-command_of fl draw is_region_outage service at seconds = refl
post-command_of fl draw is_bad_deploy service at seconds = refl
post-command_of fl draw is_redis_failure service at seconds = refl
post-command_of fl draw is_db_failure service at seconds = refl
post-command_of fl draw is_slow_network service at seconds = refl
post-command_of fl draw is_memory_leak service at seconds = refl
post-command_of fl draw is_cert_expiry service at seconds = refl
post-command_of fl draw is_dns_failure service at seconds = refl
post-command_of fl draw is_cascading_failure service at seconds = refl
post-command_of fl draw is_disk_full service at seconds = refl
post-command_of fl draw is_gc_pause service at seconds = refl
post-command_of fl draw is_thundering_herd service at seconds = refl
post-command_of fl draw is_noisy_neighbor service at seconds = refl
post-command_of fl draw is_spot_reclaim service at seconds = refl
post-command_of fl draw is_autoscaler_stuck service at seconds = refl
post-command_of fl draw is_api_throttle service at seconds = refl
post-command_of fl draw is_secret_leak service at seconds = refl
post-command_of fl draw is_service_mesh_crash service at seconds = refl
post-command_of fl draw is_third_party_outage service at seconds = refl
