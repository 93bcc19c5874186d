-- ===== src/Chaos/Quiet.antt =====
-- services/chaos-controller/app/cluster.py: the actions that leave the pods as they are.
use microservices_project.Prelude.{ℕ, refl, nat_eq}
use microservices_project.Chaos.Script.{run}
use microservices_project.Chaos.Cluster.{
  Floats, ServiceName, api_gateway, user_service, task_service, notification_service, ServiceState,
  Services,
}
use microservices_project.Chaos.Actions.{
  network_partition, bad_deploy, gc_pause, service_mesh_crash,
}
use microservices_project.Chaos.Outages.{
  expire_jwt, cert_expiry, autoscaler_stuck, api_throttle, secret_leak, third_party_outage,
}
use microservices_project.Chaos.Cascades.{
  redis_failure, db_failure, slow_network, dns_failure, cascading_failure, thundering_herd,
  noisy_neighbor,
}
use microservices_project.Chaos.Noise.{Noise, at_waits, amid}
use microservices_project.Chaos.Steady.{IsUp}

-- A property of the services, one by one.
pub by_name :
    (P : ServiceName → Type 0)
    → P api_gateway
    → P user_service
    → P task_service
    → P notification_service
    → (n : ServiceName) → P n
by_name P a u t k api_gateway = a
by_name P a u t k user_service = u
by_name P a u t k task_service = t
by_name P a u t k notification_service = k

module _ {F : Type 0} where
  abbrev pub IsSteady : Services F → Type 0
  IsSteady s = (n : ServiceName) → IsUp (s n)

module _ {F : Type 0} (fl : Floats F) where
  -- Actions that leave the pods as they are.
  pub quiet_local :
      (noise : ℕ → Noise F) (n : ServiceName) (duration_sec : F) (svc : ServiceState F)
      → IsUp svc
      → IsUp (run (at_waits noise) (network_partition fl n duration_sec) svc).0
        × IsUp (run (at_waits noise) (bad_deploy fl n) svc).0
        × IsUp (run (at_waits noise) (gc_pause fl n) svc).0
        × IsUp (run (at_waits noise) (service_mesh_crash fl n) svc).0
        × IsUp (run (at_waits noise) (expire_jwt fl) svc).0
        × IsUp (run (at_waits noise) (cert_expiry fl) svc).0
        × IsUp (run (at_waits noise) (autoscaler_stuck fl duration_sec) svc).0
        × IsUp (run (at_waits noise) (api_throttle fl duration_sec) svc).0
        × IsUp (run (at_waits noise) (secret_leak fl duration_sec) svc).0
        × IsUp (run (at_waits noise) (third_party_outage fl duration_sec) svc).0
  unfolding run network_partition bad_deploy gc_pause service_mesh_crash expire_jwt cert_expiry
      autoscaler_stuck api_throttle secret_leak third_party_outage
  quiet_local noise n duration_sec svc up =
      ((refl, up.1), up, up, up, (refl, up.1), (refl, up.1), up, up, (refl, up.1), up)

  pub quiet_cascades :
      (noise : ℕ → ServiceName → Noise F) (duration_sec : F) (s : Services F)
      → IsSteady s
      → IsSteady (run (amid noise) (redis_failure fl duration_sec) s).0
        × IsSteady (run (amid noise) (db_failure fl duration_sec) s).0
        × IsSteady (run (amid noise) (slow_network fl duration_sec) s).0
        × IsSteady (run (amid noise) (dns_failure fl duration_sec) s).0
        × IsSteady (run (amid noise) (cascading_failure fl) s).0
        × IsSteady (run (amid noise) (thundering_herd fl duration_sec) s).0
        × IsSteady (run (amid noise) (noisy_neighbor fl duration_sec) s).0
  unfolding run redis_failure db_failure slow_network dns_failure cascading_failure thundering_herd
      noisy_neighbor
  quiet_cascades noise duration_sec s up = (
    up,
    by_name (λ n. IsUp ((run (amid noise) (db_failure fl duration_sec) s).0 n)) (up api_gateway)
        (refl, (up user_service).1) (refl, (up task_service).1) (up notification_service),
    up,
    up,
    by_name (λ n. IsUp ((run (amid noise) (cascading_failure fl) s).0 n)) (up api_gateway)
        (refl, (up user_service).1) (up task_service) (up notification_service),
    by_name (λ n. IsUp ((run (amid noise) (thundering_herd fl duration_sec) s).0 n))
        (up api_gateway) (up user_service) (up task_service) (up notification_service),
    by_name (λ n. IsUp ((run (amid noise) (noisy_neighbor fl duration_sec) s).0 n)) (up api_gateway)
        (up user_service) (up task_service) (up notification_service),
  )
