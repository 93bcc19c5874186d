-- ===== src/Chaos/Actions.antt =====
-- services/chaos-controller/app/cluster.py: the actions on one service. The suffixes of new pods, which
-- are drawn at random, are arguments; the jitter of a wait is left out.
use microservices_project.Prelude.{
  ℕ, zero, suc, ◌-◌, true, false, List, [], ◌∷◌, ◌++◌, length, nat_eq,
}
use microservices_project.Prelude.Text.{Text, codes}
use microservices_project.Chaos.Script.{
  Script, ret, ◌>>=◌, ◌>>◌, get, change, sleep, emit, repeat, started, completed, warned,
}
use microservices_project.Chaos.Cluster.{
  Floats, ServiceName, name_of, pending, container_creating, terminating, PodState, ServiceState,
  edit, add_pod, drop_pod, with_phase, with_ready, turn_ready, turn_off,
}

-- The assignment to the pods from a place on.
abbrev pub edit_from :
    {F : Type 0} → ℕ → (PodState F → PodState F) → List (PodState F) → List (PodState F)
edit_from i f [] = []
edit_from zero f (p ∷ ps) = f p ∷ edit_from zero f ps
edit_from (suc i) f (p ∷ ps) = p ∷ edit_from i f ps

-- `max(0, duration_sec - secs)`
abbrev pub remaining : {F : Type 0} → Floats F → F → F → F
remaining fl duration_sec secs = fl.greatest (fl.dec 0 0) (fl.sub duration_sec secs)

module _ {F : Type 0} (fl : Floats F) (service : ServiceName) where
  abbrev pub Action : Type 0
  Action = Script (ServiceState F) F (Unit {0})

  abbrev pub labelled : Text → Text
  labelled action = action ++ codes ":" ++ name_of service

  abbrev pub new_pod : Text → PodState F
  new_pod suffix = record {
    name = name_of service ++ codes "-" ++ suffix;
    phase = pending;
    ready = false;
    age_sec = fl.dec 0 0;
  }

  abbrev restore : ServiceState F → ServiceState F → ServiceState F
  restore old svc = record svc {
    latency_ms_p95 = old.latency_ms_p95;
    error_rate = old.error_rate;
    rps = fl.mul svc.rps (fl.div (fl.dec 10 1) (fl.dec 65 2));
    healthy = true;
  }

  abbrev pub kill_first : Text → List (PodState F) → Action
  kill_first suffix [] = emit warned
  kill_first suffix (target ∷ rest) = do
    sleep (fl.dec 25 2)
    change (edit target.name (with_phase terminating))
    sleep (fl.dec 2 1)
    sleep (fl.dec 10 1)
    change (edit target.name (with_ready false))
    change (λ svc. record svc { healthy = false })
    old ← get
    change (λ svc. record svc {
      latency_ms_p95 = fl.mul svc.latency_ms_p95 (fl.dec 28 1);
      error_rate = fl.dec 8 2;
      rps = fl.mul svc.rps (fl.dec 65 2);
    })
    sleep (fl.dec 4 1)
    sleep (fl.dec 6 1)
    change (add_pod (new_pod suffix))
    sleep (fl.dec 6 1)
    change (edit (new_pod suffix).name (with_phase container_creating))
    sleep (fl.dec 3 1)
    sleep (fl.dec 24 1)
    change (edit (new_pod suffix).name turn_ready)
    change (drop_pod target.name)
    sleep (fl.dec 3 1)
    change (restore old)
    emit (completed (labelled (codes "kill_pod")))

  unfoldable pub kill_pod : Text → Action
  kill_pod suffix = do
    emit (started (labelled (codes "kill_pod")))
    svc ← get
    kill_first suffix svc.pods

  unfoldable pub cpu_pressure : Text → Text → Action
  cpu_pressure suffix suffix' = do
    emit (started (labelled (codes "cpu_pressure")))
    repeat 6 (do
      sleep (fl.dec 5 1)
      change (λ svc. record svc {
        latency_ms_p95 = fl.mul svc.latency_ms_p95 (fl.dec 118 2);
        rps = fl.mul svc.rps (fl.dec 92 2);
      }))
    sleep (fl.dec 20 1)
    sleep (fl.dec 10 1)
    change (add_pod (new_pod suffix))
    sleep (fl.dec 10 1)
    change (add_pod (new_pod suffix'))
    sleep (fl.dec 30 1)
    change (λ svc. record svc { pods = edit_from (length svc.pods - 2) turn_ready svc.pods })
    repeat 8 (do
      sleep (fl.dec 4 1)
      change (λ svc. record svc {
        latency_ms_p95 = fl.greatest (fl.dec 45 0) (fl.mul svc.latency_ms_p95 (fl.dec 88 2));
      }))
    emit (completed (labelled (codes "cpu_pressure")))

  unfoldable pub network_partition : F → Action
  network_partition duration_sec = do
    emit (started (labelled (codes "network_partition")))
    old ← get
    change (λ svc. record svc {
      healthy = false;
      error_rate = fl.dec 95 2;
      latency_ms_p95 = fl.dec 30000 0;
    })
    sleep (fl.dec 20 1)
    sleep (fl.dec 25 1)
    sleep (remaining fl duration_sec (fl.dec 45 1))
    change (λ svc. record svc {
      error_rate = old.error_rate;
      latency_ms_p95 = old.latency_ms_p95;
      healthy = true;
    })
    sleep (fl.dec 30 1)
    emit (completed (labelled (codes "network_partition")))

  unfoldable pub bad_deploy : Action
  bad_deploy = do
    emit (started (labelled (codes "bad_deploy")))
    sleep (fl.dec 15 1)
    sleep (fl.dec 25 1)
    sleep (fl.dec 20 1)
    sleep (fl.dec 25 1)
    emit (completed (labelled (codes "bad_deploy")))

  abbrev pub leak_first : Text → List (PodState F) → Action
  leak_first suffix [] = ret tt
  leak_first suffix (target ∷ rest) = do
    sleep (fl.dec 20 1)
    old ← get
    change (λ svc. record svc { latency_ms_p95 = fl.mul svc.latency_ms_p95 (fl.dec 13 1) })
    sleep (fl.dec 30 1)
    sleep (fl.dec 15 1)
    change (edit target.name turn_off)
    change (λ svc. record svc { healthy = false })
    sleep (fl.dec 10 1)
    sleep (fl.dec 15 1)
    change (add_pod (new_pod suffix))
    sleep (fl.dec 25 1)
    change (edit (new_pod suffix).name turn_ready)
    change (drop_pod target.name)
    change (λ svc. record svc { latency_ms_p95 = old.latency_ms_p95; healthy = true })
    emit (completed (labelled (codes "memory_leak")))

  unfoldable pub memory_leak : Text → Action
  memory_leak suffix = do
    emit (started (labelled (codes "memory_leak")))
    svc ← get
    leak_first suffix svc.pods

  abbrev pub fill_first : Text → List (PodState F) → Action
  fill_first suffix [] = ret tt
  fill_first suffix (target ∷ rest) = do
    sleep (fl.dec 15 1)
    old ← get
    change (λ svc. record svc { error_rate = fl.dec 30 2 })
    sleep (fl.dec 15 1)
    sleep (fl.dec 20 1)
    sleep (fl.dec 5 1)
    change (edit target.name turn_off)
    change (λ svc. record svc { healthy = false })
    sleep (fl.dec 15 1)
    change (add_pod (new_pod suffix))
    sleep (fl.dec 30 1)
    change (edit (new_pod suffix).name turn_ready)
    change (drop_pod target.name)
    change (λ svc. record svc { error_rate = old.error_rate; healthy = true })
    emit (completed (labelled (codes "disk_full")))

  unfoldable pub disk_full : Text → Action
  disk_full suffix = do
    emit (started (labelled (codes "disk_full")))
    svc ← get
    fill_first suffix svc.pods

  unfoldable pub gc_pause : Action
  gc_pause = do
    emit (started (labelled (codes "gc_pause")))
    old ← get
    change (λ svc. record svc { latency_ms_p95 = fl.mul svc.latency_ms_p95 (fl.dec 6 0) })
    sleep (fl.dec 6 1)
    sleep (fl.dec 15 1)
    change (λ svc. record svc { latency_ms_p95 = fl.mul old.latency_ms_p95 (fl.dec 13 1) })
    sleep (fl.dec 30 1)
    change (λ svc. record svc { latency_ms_p95 = old.latency_ms_p95 })
    emit (completed (labelled (codes "gc_pause")))

  unfoldable pub service_mesh_crash : Action
  service_mesh_crash = do
    emit (started (labelled (codes "service_mesh_crash")))
    sleep (fl.dec 10 1)
    old ← get
    change (λ svc. record svc { error_rate = fl.dec 20 2 })
    sleep (fl.dec 15 1)
    sleep (fl.dec 20 1)
    sleep (fl.dec 20 1)
    change (λ svc. record svc { error_rate = old.error_rate })
    emit (completed (labelled (codes "service_mesh_crash")))
