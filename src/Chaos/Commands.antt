-- ===== src/Chaos/Commands.antt =====
-- services/chaos-controller/app/cluster.py: the actions by their names, as the routes of main.py and
-- the steps of a scenario call them. What is drawn at random is part of a command.
use microservices_project.Prelude.{Option, none, some, List, nat_eq}
use microservices_project.Prelude.Text.{Text}
use microservices_project.Chaos.Script.{Script, ret, emit, warned}
use microservices_project.Chaos.Cluster.{
  Floats, ServiceName, service_of, api_gateway, user_service, task_service, Services,
}
use microservices_project.Chaos.Actions.{
  kill_pod, cpu_pressure, network_partition, bad_deploy, memory_leak, disk_full, gc_pause,
  service_mesh_crash,
}
use microservices_project.Chaos.Outages.{
  on, expire_jwt, cert_expiry, spot_reclaim, autoscaler_stuck, api_throttle, secret_leak,
  third_party_outage,
}
use microservices_project.Chaos.Cascades.{
  region_outage, redis_failure, db_failure, slow_network, dns_failure, cascading_failure,
  thundering_herd, noisy_neighbor,
}

pub data Command (F : Type 0) : Type 0 where
  do_kill_pod : (service suffix : Text) → Command F
  do_cpu_pressure : (service suffix suffix' : Text) → Command F
  do_network_partition : (service : Text) → (duration_sec : F) → Command F
  do_expire_jwt : Command F
  do_region_outage : (suffixes : ServiceName → List Text) → (duration_sec : F) → Command F
  do_bad_deploy : (service : Text) → Command F
  do_redis_failure : (duration_sec : F) → Command F
  do_db_failure : (duration_sec : F) → Command F
  do_slow_network : (duration_sec : F) → Command F
  do_memory_leak : (service suffix : Text) → Command F
  do_cert_expiry : Command F
  do_dns_failure : (duration_sec : F) → Command F
  do_cascading_failure : Command F
  do_disk_full : (service suffix : Text) → Command F
  do_gc_pause : (service : Text) → Command F
  do_thundering_herd : (duration_sec : F) → Command F
  do_noisy_neighbor : (duration_sec : F) → Command F
  do_spot_reclaim : (suffix : Text) → Command F
  do_autoscaler_stuck : (duration_sec : F) → Command F
  do_api_throttle : (duration_sec : F) → Command F
  do_secret_leak : (duration_sec : F) → Command F
  do_service_mesh_crash : (service : Text) → Command F
  do_third_party_outage : (duration_sec : F) → Command F

module _ {F : Type 0} (fl : Floats F) where
  -- `if service not in self.services`, with what is done then.
  abbrev pub known :
      Script (Services F) F (Unit {0})
      → (ServiceName → Script (Services F) F (Unit {0}))
      → Option ServiceName
      → Script (Services F) F (Unit {0})
  known unknown act none = unknown
  known unknown act (some n) = act n

  unfoldable pub perform : Command F → Script (Services F) F (Unit {0})
  perform (do_kill_pod service suffix) =
      known (emit warned) (λ n. on n (kill_pod fl n suffix)) (service_of service)
  perform (do_cpu_pressure service suffix suffix') =
      known (ret tt) (λ n. on n (cpu_pressure fl n suffix suffix')) (service_of service)
  perform (do_network_partition service duration_sec) =
      known (ret tt) (λ n. on n (network_partition fl n duration_sec)) (service_of service)
  perform do_expire_jwt = on api_gateway (expire_jwt fl)
  perform (do_region_outage suffixes duration_sec) = region_outage fl suffixes duration_sec
  perform (do_bad_deploy service) =
      known (ret tt) (λ n. on n (bad_deploy fl n)) (service_of service)
  perform (do_redis_failure duration_sec) = redis_failure fl duration_sec
  perform (do_db_failure duration_sec) = db_failure fl duration_sec
  perform (do_slow_network duration_sec) = slow_network fl duration_sec
  perform (do_memory_leak service suffix) =
      known (ret tt) (λ n. on n (memory_leak fl n suffix)) (service_of service)
  perform do_cert_expiry = on api_gateway (cert_expiry fl)
  perform (do_dns_failure duration_sec) = dns_failure fl duration_sec
  perform do_cascading_failure = cascading_failure fl
  perform (do_disk_full service suffix) =
      known (ret tt) (λ n. on n (disk_full fl n suffix)) (service_of service)
  perform (do_gc_pause service) = known (ret tt) (λ n. on n (gc_pause fl n)) (service_of service)
  perform (do_thundering_herd duration_sec) = thundering_herd fl duration_sec
  perform (do_noisy_neighbor duration_sec) = noisy_neighbor fl duration_sec
  perform (do_spot_reclaim suffix) = on api_gateway (spot_reclaim fl suffix)
  perform (do_autoscaler_stuck duration_sec) = on api_gateway (autoscaler_stuck fl duration_sec)
  perform (do_api_throttle duration_sec) = on api_gateway (api_throttle fl duration_sec)
  perform (do_secret_leak duration_sec) = on user_service (secret_leak fl duration_sec)
  perform (do_service_mesh_crash service) =
      known (ret tt) (λ n. on n (service_mesh_crash fl n)) (service_of service)
  perform (do_third_party_outage duration_sec) =
      on task_service (third_party_outage fl duration_sec)
