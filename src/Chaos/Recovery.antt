-- ===== src/Chaos/Recovery.antt =====
-- services/chaos-controller/app/cluster.py: the cluster after actions that ran under the lock, one by
-- one, while the ambient loop, which does not take it, changed the metrics.
use mathlib.Core.Path.{subst}
use microservices_project.Prelude.{
  ℕ, suc, ◌≤◌, ◌≡◌, refl, sym, ap, if◌then◌else◌, ◌≢◌, inl, inr, Option, none, some, List,
  Bool-cases, length, nat_eq,
}
use microservices_project.Prelude.Text.{Text}
use microservices_project.Chaos.Script.{Script, run}
use microservices_project.Chaos.Cluster.{
  Floats, ServiceName, api_gateway, user_service, task_service, service_of, same_service,
  ServiceState, Services,
}
use microservices_project.Chaos.Actions.{
  new_pod, kill_pod, cpu_pressure, network_partition, bad_deploy, memory_leak, disk_full, gc_pause,
  service_mesh_crash,
}
use microservices_project.Chaos.OneService.{same_service_eq, on_self, on_others}
use microservices_project.Chaos.Outages.{
  on, expire_jwt, cert_expiry, spot_reclaim, autoscaler_stuck, api_throttle, secret_leak,
  third_party_outage,
}
use microservices_project.Chaos.Cascades.{region_outage}
use microservices_project.Chaos.Steady.{
  IsUp, IsFresh, kill_first-IsUp, leak_first-IsUp, fill_first-IsUp, reclaim_first-IsUp,
  cpu_pressure-IsUp,
}
use microservices_project.Chaos.Quiet.{IsSteady, quiet_local, quiet_cascades}
use microservices_project.Chaos.Regions.{AreFresh, restore_zone-PodsUp}
use microservices_project.Chaos.Ambient.{drifted, drift, ambient_drift, ambient_rounds}
use microservices_project.Chaos.Noise.{Noise, at_waits, amid, noise_of_all, ambient_rounds_lem}
use microservices_project.Chaos.Commands.{
  Command, do_kill_pod, do_cpu_pressure, do_network_partition, do_expire_jwt, do_region_outage,
  do_bad_deploy, do_redis_failure, do_db_failure, do_slow_network, do_memory_leak, do_cert_expiry,
  do_dns_failure, do_cascading_failure, do_disk_full, do_gc_pause, do_thundering_herd,
  do_noisy_neighbor, do_spot_reclaim, do_autoscaler_stuck, do_api_throttle, do_secret_leak,
  do_service_mesh_crash, do_third_party_outage, known, perform,
}

module _ {F : Type 0} (fl : Floats F) where
  -- The names of the pods that an action makes are not taken.
  abbrev FreshAt : Option ServiceName → (ServiceName → Type 0) → Type 0
  FreshAt none p = Unit
  FreshAt (some n) p = p n

  always : (o : Option ServiceName) → FreshAt o (λ n. Unit)
  always none = tt
  always (some n) = tt

  unfoldable pub IsNew : Command F → Services F → Type 0
  IsNew (do_kill_pod service suffix) s =
      FreshAt (service_of service) (λ n. IsFresh (new_pod fl n suffix) (s n))
  IsNew (do_memory_leak service suffix) s =
      FreshAt (service_of service) (λ n. IsFresh (new_pod fl n suffix) (s n))
  IsNew (do_disk_full service suffix) s =
      FreshAt (service_of service) (λ n. IsFresh (new_pod fl n suffix) (s n))
  IsNew (do_cpu_pressure service suffix suffix') s = FreshAt (service_of service) (λ n.
      IsFresh (new_pod fl n suffix) (s n)
      × IsFresh (new_pod fl n suffix') (s n)
      × (new_pod fl n suffix').name ≢ (new_pod fl n suffix).name)
  IsNew (do_spot_reclaim suffix) s = IsFresh (new_pod fl api_gateway suffix) (s api_gateway)
  IsNew (do_region_outage suffixes duration_sec) s =
      (n : ServiceName)
      → AreFresh fl n (suffixes n) (s n).pods × (s n).desired_replicas ≤ length (suffixes n)
  IsNew c s = Unit

  on-IsSteady :
      (noise : ℕ → ServiceName → Noise F) (n : ServiceName)
      (m : Script (ServiceState F) F (Unit {0})) (s : Services F)
      → IsSteady s
      → IsUp (run (at_waits (λ i. noise i n)) m (s n)).0
      → IsSteady (run (amid noise) (on n m) s).0
  on-IsSteady noise n m s steady up k = elim (Bool-cases (same_service k n)) [
    | inl same ↦ let at = same_service_eq k n same in rw at (rw (on_self n noise m s) (up))
    | inr apart ↦ on_others n noise m s k apart (steady k)
  ]

  known-IsSteady :
      (noise : ℕ → ServiceName → Noise F) (unknown : Script (Services F) F (Unit {0}))
      (m : ServiceName → Script (ServiceState F) F (Unit {0})) (o : Option ServiceName)
      (p : ServiceName → Type 0) (s : Services F)
      → IsSteady s
      → (run (amid noise) unknown s).0 ≡ s
      → FreshAt o p
      → ((n : ServiceName) → p n → IsUp (run (at_waits (λ i. noise i n)) (m n) (s n)).0)
      → IsSteady (run (amid noise) (known fl unknown (λ n. on n (m n)) o) s).0
  known-IsSteady noise unknown m none p s steady same fresh up = rw same (steady)
  known-IsSteady noise unknown m (some n) p s steady same fresh up =
      on-IsSteady noise n (m n) s steady (up n fresh)

  quiet-IsSteady :
      (noise : ℕ → ServiceName → Noise F) (unknown : Script (Services F) F (Unit {0}))
      (m : ServiceName → Script (ServiceState F) F (Unit {0})) (o : Option ServiceName)
      (s : Services F)
      → IsSteady s
      → (run (amid noise) unknown s).0 ≡ s
      → ((n : ServiceName) → IsUp (run (at_waits (λ i. noise i n)) (m n) (s n)).0)
      → IsSteady (run (amid noise) (known fl unknown (λ n. on n (m n)) o) s).0
  quiet-IsSteady noise unknown m o s steady same up =
      known-IsSteady noise unknown m o (λ n. Unit) s steady same (always o) (λ n x. up n)

  spot_reclaim-IsUp :
      (noise : ℕ → Noise F) (suffix : Text) (svc : ServiceState F)
      → IsUp svc
      → IsFresh (new_pod fl api_gateway suffix) svc
      → IsUp (run (at_waits noise) (spot_reclaim fl suffix) svc).0
  unfolding run spot_reclaim
  spot_reclaim-IsUp noise suffix svc up fresh =
      reclaim_first-IsUp fl (λ i. noise (suc (suc i))) api_gateway suffix
        (at_waits noise 1 (at_waits noise 0 svc)) svc.pods refl up fresh

  kill_pod-IsUp :
      (noise : ℕ → Noise F) (n : ServiceName) (suffix : Text) (svc : ServiceState F)
      → IsUp svc
      → IsFresh (new_pod fl n suffix) svc
      → IsUp (run (at_waits noise) (kill_pod fl n suffix) svc).0
  unfolding run kill_pod
  kill_pod-IsUp noise n suffix svc up fresh =
      kill_first-IsUp fl noise n suffix svc svc.pods refl up fresh

  memory_leak-IsUp :
      (noise : ℕ → Noise F) (n : ServiceName) (suffix : Text) (svc : ServiceState F)
      → IsUp svc
      → IsFresh (new_pod fl n suffix) svc
      → IsUp (run (at_waits noise) (memory_leak fl n suffix) svc).0
  unfolding run memory_leak
  memory_leak-IsUp noise n suffix svc up fresh =
      leak_first-IsUp fl noise n suffix svc svc.pods refl up fresh

  disk_full-IsUp :
      (noise : ℕ → Noise F) (n : ServiceName) (suffix : Text) (svc : ServiceState F)
      → IsUp svc
      → IsFresh (new_pod fl n suffix) svc
      → IsUp (run (at_waits noise) (disk_full fl n suffix) svc).0
  unfolding run disk_full
  disk_full-IsUp noise n suffix svc up fresh =
      fill_first-IsUp fl noise n suffix svc svc.pods refl up fresh

  region_outage-IsSteady :
      (noise : ℕ → ServiceName → Noise F) (suffixes : ServiceName → List Text) (duration_sec : F)
      (s : Services F)
      → IsSteady s
      → ((n : ServiceName)
          → AreFresh fl n (suffixes n) (s n).pods × (s n).desired_replicas ≤ length (suffixes n))
      → IsSteady (run (amid noise) (region_outage fl suffixes duration_sec) s).0
  unfolding run region_outage
  region_outage-IsSteady noise suffixes duration_sec s up new n = (
    refl,
    restore_zone-PodsUp fl n (s n).desired_replicas (suffixes n) (s n).pods (up n).1 (new n).0
        (new n).1,
  )

  -- An action leaves a steady cluster steady, whatever happens to the metrics while it waits: each service healthy, with at
  -- least the pods that it wants, which all run and are ready. The names that are drawn for new pods
  -- are not taken, and a failure of a zone draws as many as may be wanted.
  pub perform-IsSteady :
      (noise : ℕ → ServiceName → Noise F) (c : Command F) (s : Services F)
      → IsSteady s
      → IsNew c s
      → IsSteady (run (amid noise) (perform fl c) s).0
  unfolding perform IsNew run
  perform-IsSteady noise (do_kill_pod service suffix) s up new =
      known-IsSteady noise _ (λ n. kill_pod fl n suffix) (service_of service) _ s up refl new
        (λ n fresh. kill_pod-IsUp (λ i. noise i n) n suffix (s n) (up n) fresh)
  perform-IsSteady noise (do_cpu_pressure service suffix suffix') s up new =
      known-IsSteady noise _ (λ n. cpu_pressure fl n suffix suffix') (service_of service) _ s up
        refl new
        (λ n fresh.
          cpu_pressure-IsUp fl (λ i. noise i n) n suffix suffix' (s n) (up n) fresh.0 fresh.1
            fresh.2)
  perform-IsSteady noise (do_memory_leak service suffix) s up new =
      known-IsSteady noise _ (λ n. memory_leak fl n suffix) (service_of service) _ s up refl new
        (λ n fresh. memory_leak-IsUp (λ i. noise i n) n suffix (s n) (up n) fresh)
  perform-IsSteady noise (do_disk_full service suffix) s up new =
      known-IsSteady noise _ (λ n. disk_full fl n suffix) (service_of service) _ s up refl new
        (λ n fresh. disk_full-IsUp (λ i. noise i n) n suffix (s n) (up n) fresh)
  perform-IsSteady noise (do_network_partition service d) s up new =
      quiet-IsSteady noise _ (λ n. network_partition fl n d) (service_of service) s up refl
        (λ n. (quiet_local fl (λ i. noise i n) n d (s n) (up n)).0)
  perform-IsSteady noise (do_bad_deploy service) s up new =
      quiet-IsSteady noise _ (λ n. bad_deploy fl n) (service_of service) s up refl
        (λ n. (quiet_local fl (λ i. noise i n) n (fl.dec 0 0) (s n) (up n)).1)
  perform-IsSteady noise (do_gc_pause service) s up new =
      quiet-IsSteady noise _ (λ n. gc_pause fl n) (service_of service) s up refl
        (λ n. (quiet_local fl (λ i. noise i n) n (fl.dec 0 0) (s n) (up n)).2)
  perform-IsSteady noise (do_service_mesh_crash service) s up new =
      quiet-IsSteady noise _ (λ n. service_mesh_crash fl n) (service_of service) s up refl
        (λ n. (quiet_local fl (λ i. noise i n) n (fl.dec 0 0) (s n) (up n)).3)
  perform-IsSteady noise do_expire_jwt s up new =
      on-IsSteady noise api_gateway (expire_jwt fl) s up
        (quiet_local fl (λ i. noise i api_gateway) api_gateway (fl.dec 0 0) (s api_gateway)
          (up api_gateway)).4
  perform-IsSteady noise do_cert_expiry s up new =
      on-IsSteady noise api_gateway (cert_expiry fl) s up
        (quiet_local fl (λ i. noise i api_gateway) api_gateway (fl.dec 0 0) (s api_gateway)
          (up api_gateway)).5
  perform-IsSteady noise (do_autoscaler_stuck d) s up new =
      on-IsSteady noise api_gateway (autoscaler_stuck fl d) s up
        (quiet_local fl (λ i. noise i api_gateway) api_gateway d (s api_gateway) (up api_gateway)).6
  perform-IsSteady noise (do_api_throttle d) s up new =
      on-IsSteady noise api_gateway (api_throttle fl d) s up
        (quiet_local fl (λ i. noise i api_gateway) api_gateway d (s api_gateway) (up api_gateway)).7
  perform-IsSteady noise (do_secret_leak d) s up new =
      on-IsSteady noise user_service (secret_leak fl d) s up
        (quiet_local fl (λ i. noise i user_service) user_service d (s user_service)
          (up user_service)).8
  perform-IsSteady noise (do_third_party_outage d) s up new =
      on-IsSteady noise task_service (third_party_outage fl d) s up
        (quiet_local fl (λ i. noise i task_service) task_service d (s task_service)
          (up task_service)).9
  perform-IsSteady noise (do_spot_reclaim suffix) s up new =
      on-IsSteady noise api_gateway (spot_reclaim fl suffix) s up
        (spot_reclaim-IsUp (λ i. noise i api_gateway) suffix (s api_gateway) (up api_gateway) new)
  perform-IsSteady noise (do_region_outage suffixes d) s up new =
      region_outage-IsSteady noise suffixes d s up new
  perform-IsSteady noise (do_redis_failure d) s up new = (quiet_cascades fl noise d s up).0
  perform-IsSteady noise (do_db_failure d) s up new = (quiet_cascades fl noise d s up).1
  perform-IsSteady noise (do_slow_network d) s up new = (quiet_cascades fl noise d s up).2
  perform-IsSteady noise (do_dns_failure d) s up new = (quiet_cascades fl noise d s up).3
  perform-IsSteady noise do_cascading_failure s up new =
      (quiet_cascades fl noise (fl.dec 0 0) s up).4
  perform-IsSteady noise (do_thundering_herd d) s up new = (quiet_cascades fl noise d s up).5
  perform-IsSteady noise (do_noisy_neighbor d) s up new = (quiet_cascades fl noise d s up).6

  ambient-IsSteady :
      (draws : ℕ → ServiceName → List (F × F × F)) (c : Command F) (s : Services F)
      → IsSteady s
      → IsNew c s
      → IsSteady (run (ambient_rounds fl draws) (perform fl c) s).0
  ambient-IsSteady draws c s up new =
      subst (λ between. IsSteady (run between (perform fl c) s).0)
        (sym (ambient_rounds_lem fl draws))
        (perform-IsSteady (λ i n. noise_of_all fl (draws i n)) c s up new)

  drift-IsUp : (gauss : F × F × F) (svc : ServiceState F) → IsUp svc → IsUp (drift fl gauss svc)
  drift-IsUp gauss svc up =
      let moved = ap (λ b. if b then drifted fl gauss svc else svc) up.0 in rw moved (up)

  -- A run of actions, one after another, each with names that are new when it starts, and of rounds
  -- of the ambient drift, between them and, any number of them, during each wait of an action.
  pub data Run : Services F → Services F → Type 0 where
    idle : {s : Services F} → Run s s
    then_perform :
        {s s' : Services F}
        → Run s s'
        → (c : Command F) → (draws : ℕ → ServiceName → List (F × F × F)) → IsNew c s'
        → Run s (run (ambient_rounds fl draws) (perform fl c) s').0
    then_drift :
        {s s' : Services F}
        → Run s s'
        → (gauss : ServiceName → F × F × F) → Run s (ambient_drift fl gauss s')

  -- Actions that run one after another, however many, with rounds of the ambient drift between them and
  -- while they wait, leave a steady cluster steady: each service healthy, with at least the pods that it wants, which
  -- all run, are ready and have different names. The names that are drawn for new pods are not taken,
  -- and a failure of a zone draws as many as may be wanted.
  pub Run-IsSteady : (s s' : Services F) → Run s s' → IsSteady s → IsSteady s'
  Run-IsSteady s s' idle up = up
  Run-IsSteady s s'' (then_perform r c draws new) up =
      ambient-IsSteady draws c _ (Run-IsSteady s _ r up) new
  Run-IsSteady s s'' (then_drift r gauss) up = λ n. drift-IsUp (gauss n) _ (Run-IsSteady s _ r up n)
