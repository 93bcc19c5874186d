-- ===== src/Chaos/Completion.antt =====
-- services/chaos-controller/app/cluster.py: what an action reports.
use microservices_project.Prelude.{
  ℕ, suc, ◌≡◌, refl, ap, ◌∙◌, ◌++◌, Option, some, List, [], ◌∷◌, arith, nat_eq,
}
use microservices_project.Prelude.Text.{Text, codes, text_eq}
use microservices_project.Chaos.Script.{Script, run, Event, started, completed}
use microservices_project.Chaos.Cluster.{
  Floats, ServiceName, api_gateway, user_service, task_service, service_of, name_of, PodState,
  ServiceState, Services,
}
use microservices_project.Chaos.Actions.{
  labelled, kill_first, leak_first, fill_first, kill_pod, cpu_pressure, network_partition,
  bad_deploy, memory_leak, disk_full, gc_pause, service_mesh_crash,
}
use microservices_project.Chaos.OneService.{on_events}
use microservices_project.Chaos.Outages.{
  on, reclaim_first, expire_jwt, cert_expiry, spot_reclaim, autoscaler_stuck, api_throttle,
  secret_leak, third_party_outage,
}
use microservices_project.Chaos.Cascades.{
  region_outage, redis_failure, db_failure, slow_network, dns_failure, cascading_failure,
  thundering_herd, noisy_neighbor,
}
use microservices_project.Chaos.Steady.{IsUp, no_pods}
use microservices_project.Chaos.Noise.{Noise, at_waits, amid}
use microservices_project.Chaos.Quiet.{IsSteady}
use microservices_project.Chaos.Commands.{
  Command, do_kill_pod, do_cpu_pressure, do_network_partition, do_expire_jwt, do_region_outage,
  do_bad_deploy, do_redis_failure, do_db_failure, do_slow_network, do_memory_leak, do_cert_expiry,
  do_dns_failure, do_cascading_failure, do_disk_full, do_gc_pause, do_thundering_herd,
  do_noisy_neighbor, do_spot_reclaim, do_autoscaler_stuck, do_api_throttle, do_secret_leak,
  do_service_mesh_crash, do_third_party_outage, known, perform,
}

module _ {F : Type 0} (fl : Floats F) where
  -- The name that an action reports: that of its route, and the service that it is given.
  unfoldable pub label_of : Command F → Text
  label_of (do_kill_pod service suffix) = codes "kill_pod" ++ codes ":" ++ service
  label_of (do_cpu_pressure service suffix suffix') = codes "cpu_pressure" ++ codes ":" ++ service
  label_of (do_network_partition service d) = codes "network_partition" ++ codes ":" ++ service
  label_of (do_bad_deploy service) = codes "bad_deploy" ++ codes ":" ++ service
  label_of (do_memory_leak service suffix) = codes "memory_leak" ++ codes ":" ++ service
  label_of (do_disk_full service suffix) = codes "disk_full" ++ codes ":" ++ service
  label_of (do_gc_pause service) = codes "gc_pause" ++ codes ":" ++ service
  label_of (do_service_mesh_crash service) = codes "service_mesh_crash" ++ codes ":" ++ service
  label_of do_expire_jwt = codes "expire_jwt"
  label_of (do_region_outage suffixes d) = codes "region_outage"
  label_of (do_redis_failure d) = codes "redis_failure"
  label_of (do_db_failure d) = codes "db_failure"
  label_of (do_slow_network d) = codes "slow_network"
  label_of do_cert_expiry = codes "cert_expiry"
  label_of (do_dns_failure d) = codes "dns_failure"
  label_of do_cascading_failure = codes "cascading_failure"
  label_of (do_thundering_herd d) = codes "thundering_herd"
  label_of (do_noisy_neighbor d) = codes "noisy_neighbor"
  label_of (do_spot_reclaim suffix) = codes "spot_reclaim"
  label_of (do_autoscaler_stuck d) = codes "autoscaler_stuck"
  label_of (do_api_throttle d) = codes "api_throttle"
  label_of (do_secret_leak d) = codes "secret_leak"
  label_of (do_third_party_outage d) = codes "third_party_outage"

  -- An action reports its start and then its completion, and nothing of the kind in between.
  abbrev pub Completes : Text → List Event → Type 0
  Completes label es = es ≡ started label ∷ completed label ∷ []

  -- The service that the action names is one of the cluster's.
  unfoldable pub IsAimed : Command F → Type 0
  IsAimed (do_kill_pod service suffix) = (n : ServiceName) × service_of service ≡ some n
  IsAimed (do_cpu_pressure service suffix suffix') = (n : ServiceName) × service_of service ≡ some n
  IsAimed (do_network_partition service d) = (n : ServiceName) × service_of service ≡ some n
  IsAimed (do_bad_deploy service) = (n : ServiceName) × service_of service ≡ some n
  IsAimed (do_memory_leak service suffix) = (n : ServiceName) × service_of service ≡ some n
  IsAimed (do_disk_full service suffix) = (n : ServiceName) × service_of service ≡ some n
  IsAimed (do_gc_pause service) = (n : ServiceName) × service_of service ≡ some n
  IsAimed (do_service_mesh_crash service) = (n : ServiceName) × service_of service ≡ some n
  IsAimed c = Unit

  name_of-service_of :
      (service : Text) (n : ServiceName) → service_of service ≡ some n → name_of n ≡ service
  unfolding service_of
  name_of-service_of service n e = ground (
    arith,
    text_eq.beq_iff service (codes "api-gateway"),
    text_eq.beq_iff service (codes "user-service"),
    text_eq.beq_iff service (codes "task-service"),
    text_eq.beq_iff service (codes "notification-service"),
  )

  on-Completes :
      (noise : ℕ → ServiceName → Noise F) (n : ServiceName) (label : Text)
      (m : Script (ServiceState F) F (Unit {0})) (s : Services F)
      → Completes label (run (at_waits (λ i. noise i n)) m (s n)).1
      → Completes label (run (amid noise) (on n m) s).1
  on-Completes noise n label m s done = on_events n noise m s ∙ done

  known-Completes :
      (noise : ℕ → ServiceName → Noise F) (kind service : Text)
      (unknown : Script (Services F) F (Unit {0}))
      (m : ServiceName → Script (ServiceState F) F (Unit {0})) (s : Services F)
      → ((n : ServiceName) × service_of service ≡ some n)
      → ((n : ServiceName)
          → Completes (labelled fl n kind) (run (at_waits (λ i. noise i n)) (m n) (s n)).1)
      → Completes
          (kind ++ codes ":" ++ service)
          (run (amid noise) (known fl unknown (λ n. on n (m n)) (service_of service)) s).1
  known-Completes noise kind service unknown m s (n, e) done =
      let act : Option ServiceName → Script (Services F) F (Unit {0}) =
        known fl unknown (λ k. on k (m k)) in
      ap (λ o. (run (amid noise) (act o) s).1) e
      ∙ on-Completes noise n (labelled fl n kind) (m n) s (done n)
      ∙ ap
          (λ name. started (kind ++ codes ":" ++ name) ∷ completed (kind ++ codes ":" ++ name) ∷ [])
          (name_of-service_of service n e)

  local_completes :
      (noise : ℕ → Noise F) (n : ServiceName) (suffix : Text) (svc : ServiceState F)
      (ps : List (PodState F))
      → svc.pods ≡ ps
      → IsUp svc
      → (run (at_waits noise) (kill_first fl n suffix ps) svc).1
          ≡ completed (labelled fl n (codes "kill_pod")) ∷ []
        × (run (at_waits noise) (leak_first fl n suffix ps) svc).1
          ≡ completed (labelled fl n (codes "memory_leak")) ∷ []
        × (run (at_waits noise) (fill_first fl n suffix ps) svc).1
          ≡ completed (labelled fl n (codes "disk_full")) ∷ []
        × (run (at_waits noise) (reclaim_first fl suffix ps) svc).1
          ≡ completed (codes "spot_reclaim") ∷ []
  unfolding run
  local_completes noise n suffix svc [] e up = absurd (no_pods fl noise n svc e up)
  local_completes noise n suffix svc (p ∷ ps) e up = (refl, refl, refl, refl)

  pod-Completes :
      (noise : ℕ → Noise F) (n : ServiceName) (suffix : Text) (svc : ServiceState F)
      → IsUp svc
      → Completes
          (labelled fl n (codes "kill_pod"))
          (run (at_waits noise) (kill_pod fl n suffix) svc).1
        × Completes
            (labelled fl n (codes "memory_leak"))
            (run (at_waits noise) (memory_leak fl n suffix) svc).1
        × Completes
            (labelled fl n (codes "disk_full"))
            (run (at_waits noise) (disk_full fl n suffix) svc).1
        × Completes (codes "spot_reclaim") (run (at_waits noise) (spot_reclaim fl suffix) svc).1
  unfolding run kill_pod memory_leak disk_full spot_reclaim
  pod-Completes noise n suffix svc up =
      let begun : Text → List Event → List Event = λ label es. started label ∷ es in
      let done = local_completes noise n suffix svc svc.pods refl up in
      let later : ℕ → Noise F = λ i. noise (suc (suc i)) in
      let reclaimed =
        local_completes later n suffix (at_waits noise 1 (at_waits noise 0 svc)) svc.pods refl up in
      (
        ap (begun (labelled fl n (codes "kill_pod"))) done.0,
        ap (begun (labelled fl n (codes "memory_leak"))) done.1,
        ap (begun (labelled fl n (codes "disk_full"))) done.2,
        ap (begun (codes "spot_reclaim")) reclaimed.3,
      )

  -- On a steady cluster, each action that names no service, or one of the cluster's, runs to its end,
  -- whatever the ambient loop does to the metrics at its waits: it reports its start and, as the last
  -- of it, its completion, both under the name of its route and, where it is given one, the service.
  pub perform-Completes :
      (noise : ℕ → ServiceName → Noise F) (c : Command F) (s : Services F)
      → IsSteady s
      → IsAimed c
      → Completes (label_of c) (run (amid noise) (perform fl c) s).1
  unfolding perform IsAimed label_of run cpu_pressure network_partition bad_deploy gc_pause
      service_mesh_crash expire_jwt cert_expiry autoscaler_stuck api_throttle secret_leak
      third_party_outage region_outage redis_failure db_failure slow_network dns_failure
      cascading_failure thundering_herd noisy_neighbor
  perform-Completes noise (do_kill_pod service suffix) s up aimed =
      known-Completes noise (codes "kill_pod") service _ (λ n. kill_pod fl n suffix) s aimed
        (λ n. (pod-Completes (λ i. noise i n) n suffix (s n) (up n)).0)
  perform-Completes noise (do_cpu_pressure service suffix suffix') s up aimed =
      known-Completes noise (codes "cpu_pressure") service _ (λ n. cpu_pressure fl n suffix suffix')
        s aimed (λ n. refl)
  perform-Completes noise (do_network_partition service d) s up aimed =
      known-Completes noise (codes "network_partition") service _ (λ n. network_partition fl n d) s
        aimed (λ n. refl)
  perform-Completes noise (do_bad_deploy service) s up aimed =
      known-Completes noise (codes "bad_deploy") service _ (λ n. bad_deploy fl n) s aimed
        (λ n. refl)
  perform-Completes noise (do_memory_leak service suffix) s up aimed =
      known-Completes noise (codes "memory_leak") service _ (λ n. memory_leak fl n suffix) s aimed
        (λ n. (pod-Completes (λ i. noise i n) n suffix (s n) (up n)).1)
  perform-Completes noise (do_disk_full service suffix) s up aimed =
      known-Completes noise (codes "disk_full") service _ (λ n. disk_full fl n suffix) s aimed
        (λ n. (pod-Completes (λ i. noise i n) n suffix (s n) (up n)).2)
  perform-Completes noise (do_gc_pause service) s up aimed =
      known-Completes noise (codes "gc_pause") service _ (λ n. gc_pause fl n) s aimed (λ n. refl)
  perform-Completes noise (do_service_mesh_crash service) s up aimed =
      known-Completes noise (codes "service_mesh_crash") service _ (λ n. service_mesh_crash fl n) s
        aimed (λ n. refl)
  perform-Completes noise do_expire_jwt s up aimed =
      on-Completes noise api_gateway (codes "expire_jwt") (expire_jwt fl) s (refl)
  perform-Completes noise (do_region_outage suffixes d) s up aimed = refl
  perform-Completes noise (do_redis_failure d) s up aimed = refl
  perform-Completes noise (do_db_failure d) s up aimed = refl
  perform-Completes noise (do_slow_network d) s up aimed = refl
  perform-Completes noise do_cert_expiry s up aimed =
      on-Completes noise api_gateway (codes "cert_expiry") (cert_expiry fl) s (refl)
  perform-Completes noise (do_dns_failure d) s up aimed = refl
  perform-Completes noise do_cascading_failure s up aimed = refl
  perform-Completes noise (do_thundering_herd d) s up aimed = refl
  perform-Completes noise (do_noisy_neighbor d) s up aimed = refl
  perform-Completes noise (do_spot_reclaim suffix) s up aimed =
      on-Completes noise api_gateway (codes "spot_reclaim") (spot_reclaim fl suffix) s (
        (pod-Completes (λ i. noise i api_gateway) api_gateway suffix (s api_gateway)
          (up api_gateway)).3)
  perform-Completes noise (do_autoscaler_stuck d) s up aimed =
      on-Completes noise api_gateway (codes "autoscaler_stuck") (autoscaler_stuck fl d) s (refl)
  perform-Completes noise (do_api_throttle d) s up aimed =
      on-Completes noise api_gateway (codes "api_throttle") (api_throttle fl d) s (refl)
  perform-Completes noise (do_secret_leak d) s up aimed =
      on-Completes noise user_service (codes "secret_leak") (secret_leak fl d) s (refl)
  perform-Completes noise (do_third_party_outage d) s up aimed =
      on-Completes noise task_service (codes "third_party_outage") (third_party_outage fl d) s
        (refl)
