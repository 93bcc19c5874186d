-- ===== src/Chaos/Outages.antt =====
-- services/chaos-controller/app/cluster.py: the actions on one fixed service.
use microservices_project.Prelude.{true, false, List, [], ◌∷◌, nat_eq}
use microservices_project.Prelude.Text.{Text, codes}
use microservices_project.Chaos.Script.{
  Script, ret, read, modify, wait, publish, ◌>>=◌, ◌>>◌, get, change, sleep, emit, started,
  completed,
}
use microservices_project.Chaos.Cluster.{
  Floats, ServiceName, api_gateway, PodState, ServiceState, Services, put, edit, add_pod, drop_pod,
  turn_ready, turn_off,
}
use microservices_project.Chaos.Actions.{new_pod, remaining}

-- A coroutine that touches one service only, in the cluster.
unfoldable pub on :
    {F A : Type 0} → ServiceName → Script (ServiceState F) F A → Script (Services F) F A
on n (ret a) = ret a
on n (read k) = read (λ services. on n (k (services n)))
on n (modify f m) = modify (λ services. put n (f (services n)) services) (on n m)
on n (wait t m) = wait t (on n m)
on n (publish e m) = publish e (on n m)

module _ {F : Type 0} (fl : Floats F) where
  unfoldable pub expire_jwt : Script (ServiceState F) F (Unit {0})
  expire_jwt = do
    emit (started (codes "expire_jwt"))
    old ← get
    change (λ api. record api { error_rate = fl.dec 30 2; healthy = false })
    sleep (fl.dec 8 1)
    sleep (fl.dec 12 1)
    sleep (fl.dec 15 1)
    change (λ api. record api { error_rate = old.error_rate; healthy = true })
    emit (completed (codes "expire_jwt"))

  unfoldable pub cert_expiry : Script (ServiceState F) F (Unit {0})
  cert_expiry = do
    emit (started (codes "cert_expiry"))
    sleep (fl.dec 15 1)
    change (λ api. record api { healthy = false })
    old ← get
    change (λ api. record api { error_rate = fl.dec 85 2 })
    sleep (fl.dec 25 1)
    sleep (fl.dec 25 1)
    sleep (fl.dec 15 1)
    sleep (fl.dec 20 1)
    change (λ api. record api { error_rate = old.error_rate; healthy = true })
    emit (completed (codes "cert_expiry"))

  -- `api.pods[0]` raises where there is no pod, which ends the action.
  abbrev pub reclaim_first : Text → List (PodState F) → Script (ServiceState F) F (Unit {0})
  reclaim_first suffix [] = ret tt
  reclaim_first suffix (target ∷ rest) = do
    change (edit target.name turn_off)
    sleep (fl.dec 20 1)
    sleep (fl.dec 30 1)
    change (add_pod (new_pod fl api_gateway suffix))
    sleep (fl.dec 25 1)
    change (edit (new_pod fl api_gateway suffix).name turn_ready)
    change (drop_pod target.name)
    emit (completed (codes "spot_reclaim"))

  unfoldable pub spot_reclaim : Text → Script (ServiceState F) F (Unit {0})
  spot_reclaim suffix = do
    emit (started (codes "spot_reclaim"))
    sleep (fl.dec 10 1)
    sleep (fl.dec 15 1)
    api ← get
    reclaim_first suffix api.pods

  unfoldable pub autoscaler_stuck : F → Script (ServiceState F) F (Unit {0})
  autoscaler_stuck duration_sec = do
    emit (started (codes "autoscaler_stuck"))
    sleep (fl.dec 20 1)
    change (λ api. record api {
      latency_ms_p95 = fl.mul api.latency_ms_p95 (fl.dec 18 1);
      error_rate = fl.dec 4 2;
    })
    sleep (fl.dec 40 1)
    sleep (fl.dec 30 1)
    sleep (fl.dec 25 1)
    sleep (fl.dec 30 1)
    change (λ api. record api {
      latency_ms_p95 = fl.div api.latency_ms_p95 (fl.dec 18 1);
      error_rate = fl.dec 1 3;
    })
    sleep (remaining fl duration_sec (fl.dec 145 1))
    emit (completed (codes "autoscaler_stuck"))

  unfoldable pub secret_leak : F → Script (ServiceState F) F (Unit {0})
  secret_leak duration_sec = do
    emit (started (codes "secret_leak"))
    sleep (fl.dec 20 1)
    sleep (fl.dec 15 1)
    sleep (fl.dec 10 1)
    sleep (fl.dec 20 1)
    change (λ user. record user { healthy = false })
    sleep (fl.dec 25 1)
    change (λ user. record user { healthy = true })
    sleep (fl.dec 20 1)
    sleep (remaining fl duration_sec (fl.dec 110 1))
    emit (completed (codes "secret_leak"))

  unfoldable pub third_party_outage : F → Script (ServiceState F) F (Unit {0})
  third_party_outage duration_sec = do
    emit (started (codes "third_party_outage"))
    change (λ task. record task { error_rate = fl.dec 18 2 })
    sleep (fl.dec 25 1)
    sleep (fl.dec 20 1)
    sleep (remaining fl duration_sec (fl.dec 65 1))
    sleep (fl.dec 15 1)
    sleep (fl.dec 15 1)
    change (λ task. record task { error_rate = fl.dec 1 3 })
    emit (completed (codes "third_party_outage"))

  unfoldable pub api_throttle : F → Script (ServiceState F) F (Unit {0})
  api_throttle duration_sec = do
    emit (started (codes "api_throttle"))
    sleep (fl.dec 15 1)
    sleep (fl.dec 30 1)
    sleep (fl.dec 25 1)
    sleep (remaining fl duration_sec (fl.dec 70 1))
    emit (completed (codes "api_throttle"))
