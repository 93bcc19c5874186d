-- ===== src/Chaos/Cascades.antt =====
-- services/chaos-controller/app/cluster.py: the actions on several services.
use microservices_project.Prelude.{
  ℕ, Bool, true, false, List, [], ◌∷◌, ◌++◌, ltb, if◌then◌else◌, length, filter, nat_eq,
}
use microservices_project.Prelude.Text.{Text, codes}
use microservices_project.Chaos.Script.{
  Script, ◌>>=◌, ◌>>◌, get, change, sleep, emit, started, completed,
}
use microservices_project.Chaos.Cluster.{
  Floats, ServiceName, api_gateway, user_service, task_service, notification_service, terminating,
  PodState, ServiceState, Services, put, turn_ready, turn_off,
}
use microservices_project.Chaos.Actions.{new_pod, remaining}

module _ {F : Type 0} where
  -- `svc = self.services[n]`, changed; and every service, changed.
  abbrev pub touch : ServiceName → (ServiceState F → ServiceState F) → Services F → Services F
  touch n f services = put n (f (services n)) services

  abbrev pub each : (ServiceState F → ServiceState F) → Services F → Services F
  each f services n = f (services n)

  -- `svc.pods[::2]`, changed.
  abbrev pub edit_even : (PodState F → PodState F) → List (PodState F) → List (PodState F)
  edit_even f [] = []
  edit_even f (p ∷ []) = f p ∷ []
  edit_even f (p ∷ q ∷ ps) = f p ∷ q ∷ edit_even f ps

  abbrev pub is_kept : PodState F → Bool
  is_kept p = elim p.phase [ terminating ↦ false | _ ↦ true ]

module _ {F : Type 0} (fl : Floats F) where
  abbrev pub cut_zone : ServiceState F → ServiceState F
  cut_zone svc = record svc {
    pods = edit_even turn_off svc.pods;
    healthy = false;
    rps = fl.mul svc.rps (fl.dec 55 2);
    latency_ms_p95 = fl.mul svc.latency_ms_p95 (fl.dec 15 1);
  }

  -- The loop that adds pods, over the suffixes that are drawn for them.
  abbrev pub refill : ServiceName → ℕ → List Text → List (PodState F) → List (PodState F)
  refill n desired [] pods = pods
  refill n desired (suffix ∷ suffixes) pods =
      let more = refill n desired suffixes (pods ++ turn_ready (new_pod fl n suffix) ∷ []) in
      if ltb (length pods) desired then more else pods

  abbrev pub restore_zone : ServiceName → List Text → ServiceState F → ServiceState F
  restore_zone n suffixes svc = record svc {
    pods = refill n svc.desired_replicas suffixes (filter is_kept svc.pods);
    healthy = true;
    rps = fl.div svc.rps (fl.dec 55 2);
    latency_ms_p95 = fl.div svc.latency_ms_p95 (fl.dec 15 1);
  }

  unfoldable pub region_outage : (ServiceName → List Text) → F → Script (Services F) F (Unit {0})
  region_outage suffixes duration_sec = do
    emit (started (codes "region_outage"))
    change (each cut_zone)
    sleep (fl.dec 20 1)
    sleep (fl.dec 30 1)
    sleep (fl.mul duration_sec (fl.dec 6 1))
    change (λ services n. restore_zone n (suffixes n) (services n))
    emit (completed (codes "region_outage"))

  unfoldable pub redis_failure : F → Script (Services F) F (Unit {0})
  redis_failure duration_sec = do
    emit (started (codes "redis_failure"))
    sleep (fl.dec 8 1)
    old ← get
    change (
        each (λ svc. record svc {
          latency_ms_p95 = fl.mul svc.latency_ms_p95 (fl.dec 17 1);
          error_rate = fl.least (fl.dec 5 2) (fl.add svc.error_rate (fl.dec 5 3));
        }))
    sleep (fl.dec 20 1)
    sleep (remaining fl duration_sec (fl.dec 30 1))
    change (λ services n. record (services n) {
      latency_ms_p95 = (old n).latency_ms_p95;
      error_rate = fl.greatest (fl.dec 1 3) (fl.sub (services n).error_rate (fl.dec 5 3));
    })
    sleep (fl.dec 25 1)
    emit (completed (codes "redis_failure"))

  abbrev refuse : ServiceState F → ServiceState F
  refuse svc = record svc {
    healthy = false;
    error_rate = fl.dec 45 2;
    latency_ms_p95 = fl.mul svc.latency_ms_p95 (fl.dec 35 1);
  }

  abbrev reconnect : ServiceState F → ServiceState F → ServiceState F
  reconnect old svc = record svc {
    healthy = true;
    latency_ms_p95 = old.latency_ms_p95;
    error_rate = old.error_rate;
  }

  unfoldable pub db_failure : F → Script (Services F) F (Unit {0})
  db_failure duration_sec = do
    emit (started (codes "db_failure"))
    old ← get
    change (touch user_service refuse)
    change (touch task_service refuse)
    sleep (fl.dec 12 1)
    sleep (fl.dec 25 1)
    sleep (remaining fl duration_sec (fl.dec 40 1))
    change (touch user_service (reconnect (old user_service)))
    change (touch task_service (reconnect (old task_service)))
    sleep (fl.dec 20 1)
    emit (completed (codes "db_failure"))

  unfoldable pub slow_network : F → Script (Services F) F (Unit {0})
  slow_network duration_sec = do
    emit (started (codes "slow_network"))
    old ← get
    change (each (λ svc. record svc { latency_ms_p95 = fl.add svc.latency_ms_p95 (fl.dec 500 0) }))
    sleep (fl.dec 20 1)
    sleep (fl.dec 30 1)
    sleep (fl.dec 20 1)
    change (
        each (λ svc. record svc {
          error_rate = fl.least (fl.dec 8 2) (fl.add svc.error_rate (fl.dec 2 2));
        }))
    sleep (remaining fl duration_sec (fl.dec 70 1))
    change (λ services n. record (services n) {
      latency_ms_p95 = (old n).latency_ms_p95;
      error_rate = fl.greatest (fl.dec 1 3) (fl.sub (services n).error_rate (fl.dec 2 2));
    })
    sleep (fl.dec 15 1)
    emit (completed (codes "slow_network"))

  unfoldable pub dns_failure : F → Script (Services F) F (Unit {0})
  dns_failure duration_sec = do
    emit (started (codes "dns_failure"))
    sleep (fl.dec 15 1)
    change (
        each (λ svc. record svc {
          error_rate = fl.least (fl.dec 4 1) (fl.add svc.error_rate (fl.dec 1 1));
        }))
    sleep (fl.dec 25 1)
    sleep (remaining fl duration_sec (fl.dec 40 1))
    change (
        each (λ svc. record svc {
          error_rate = fl.greatest (fl.dec 1 3) (fl.sub svc.error_rate (fl.dec 1 1));
        }))
    emit (completed (codes "dns_failure"))

  unfoldable pub cascading_failure : Script (Services F) F (Unit {0})
  cascading_failure = do
    emit (started (codes "cascading_failure"))
    change (
        touch user_service (λ user. record user {
          healthy = false;
          error_rate = fl.dec 92 2;
          latency_ms_p95 = fl.mul user.latency_ms_p95 (fl.dec 4 0);
        }))
    sleep (fl.dec 20 1)
    change (
        touch task_service (λ task. record task {
          error_rate = fl.dec 35 2;
          latency_ms_p95 = fl.mul task.latency_ms_p95 (fl.dec 22 1);
        }))
    sleep (fl.dec 30 1)
    change (touch api_gateway (λ api. record api { error_rate = fl.dec 15 2 }))
    sleep (fl.dec 80 1)
    change (
        touch user_service (λ user. record user {
          healthy = true;
          error_rate = fl.dec 1 3;
          latency_ms_p95 = fl.div user.latency_ms_p95 (fl.dec 4 0);
        }))
    change (
        touch task_service (λ task. record task {
          error_rate = fl.dec 1 3;
          latency_ms_p95 = fl.div task.latency_ms_p95 (fl.dec 22 1);
        }))
    change (touch api_gateway (λ api. record api { error_rate = fl.dec 1 3 }))
    sleep (fl.dec 20 1)
    emit (completed (codes "cascading_failure"))

  unfoldable pub thundering_herd : F → Script (Services F) F (Unit {0})
  thundering_herd duration_sec = do
    emit (started (codes "thundering_herd"))
    old ← get
    change (touch user_service (λ user. record user { error_rate = fl.dec 5 1 }))
    sleep (fl.dec 30 1)
    change (touch user_service (λ user. record user { error_rate = (old user_service).error_rate }))
    sleep (fl.dec 8 1)
    change (
        touch user_service (λ user. record user {
          error_rate = fl.dec 7 1;
          latency_ms_p95 = fl.mul user.latency_ms_p95 (fl.dec 4 0);
        }))
    change (
        touch api_gateway
          (λ api. record api { latency_ms_p95 = fl.mul api.latency_ms_p95 (fl.dec 2 0) }))
    sleep (fl.dec 35 1)
    sleep (remaining fl duration_sec (fl.dec 70 1))
    change (
        touch user_service (λ user. record user {
          error_rate = (old user_service).error_rate;
          latency_ms_p95 = fl.div user.latency_ms_p95 (fl.dec 4 0);
        }))
    change (
        touch api_gateway
          (λ api. record api { latency_ms_p95 = fl.div api.latency_ms_p95 (fl.dec 2 0) }))
    emit (completed (codes "thundering_herd"))

  unfoldable pub noisy_neighbor : F → Script (Services F) F (Unit {0})
  noisy_neighbor duration_sec = do
    emit (started (codes "noisy_neighbor"))
    old ← get
    change (
        touch task_service
          (λ svc. record svc { latency_ms_p95 = fl.mul svc.latency_ms_p95 (fl.dec 24 1) }))
    change (
        touch notification_service
          (λ svc. record svc { latency_ms_p95 = fl.mul svc.latency_ms_p95 (fl.dec 24 1) }))
    sleep (fl.dec 20 1)
    sleep (fl.dec 40 1)
    sleep (fl.dec 20 1)
    change (
        touch task_service
          (λ svc. record svc { latency_ms_p95 = (old task_service).latency_ms_p95 }))
    change (
        touch notification_service
          (λ svc. record svc { latency_ms_p95 = (old notification_service).latency_ms_p95 }))
    sleep (remaining fl duration_sec (fl.dec 80 1))
    emit (completed (codes "noisy_neighbor"))
