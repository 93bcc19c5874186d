-- ===== src/Chaos/Overlap.antt =====
-- services/chaos-controller/app/cluster.py: actions that overlap, as in a scenario, for which the lock
-- is suspended.
use microservices_project.Prelude.{◌≡◌, refl, true, [], ◌∷◌, nat_eq}
use microservices_project.Chaos.Script.{ret, interleave, advance_at, advance}
use microservices_project.Chaos.Cluster.{Floats, ServiceName, ServiceState}
use microservices_project.Chaos.Actions.{network_partition}

module _ {F : Type 0} (fl : Floats F) where
  -- Two partitions of a service that overlap, the first ending first, leave it marked as healthy with
  -- an error rate of 0.95 and a latency of 30 seconds.
  pub partitions_stick :
      (n : ServiceName) (d d' : F) (svc : ServiceState F)
      → let out =
          interleave
            (0 ∷ 1 ∷ 0 ∷ 0 ∷ 1 ∷ 1 ∷ 0 ∷ 0 ∷ 1 ∷ 1 ∷ [])
            (network_partition fl n d ∷ network_partition fl n d' ∷ [])
            svc in
        out.1 ≡ ret tt ∷ ret tt ∷ []
        × out.0.healthy ≡ true
        × out.0.error_rate ≡ fl.dec 95 2
        × out.0.latency_ms_p95 ≡ fl.dec 30000 0
  unfolding interleave advance_at advance network_partition
  partitions_stick n d d' svc = (refl, refl, refl, refl)
