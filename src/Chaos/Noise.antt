-- ===== src/Chaos/Noise.antt =====
-- services/chaos-controller/app/cluster.py: `_ambient_loop` as a change of the metrics only.
use microservices_project.Prelude.{
  ℕ, ◌≡◌, refl, ap, ◌∙◌, Bool, true, false, List, [], ◌∷◌, if◌then◌else◌, nat_eq,
}
use microservices_project.Chaos.Cluster.{Floats, ServiceName, ServiceState, Services}
use microservices_project.Chaos.Ambient.{drifted, rounds, ambient_rounds}

-- Any change of the three metrics of a service.
pub record Noise (F : Type 0) : Type 0 where
  pub latency : ServiceState F → F
  pub rps : ServiceState F → F
  pub errors : ServiceState F → F

module _ {F : Type 0} where
  abbrev pub disturb : Noise F → ServiceState F → ServiceState F
  disturb noise svc = record svc {
    latency_ms_p95 = noise.latency svc;
    rps = noise.rps svc;
    error_rate = noise.errors svc;
  }

  -- At each wait of an action on one service, and of one on the cluster.
  abbrev pub at_waits : (ℕ → Noise F) → ℕ → ServiceState F → ServiceState F
  at_waits noise i svc = disturb (noise i) svc

  abbrev pub amid : (ℕ → ServiceName → Noise F) → ℕ → Services F → Services F
  amid noise i services n = disturb (noise i n) (services n)

module _ {F : Type 0} (fl : Floats F) where
  abbrev noise_of : F × F × F → Noise F
  noise_of gauss = record {
    latency = λ svc. (if svc.healthy then drifted fl gauss svc else svc).latency_ms_p95;
    rps = λ svc. (if svc.healthy then drifted fl gauss svc else svc).rps;
    errors = λ svc. (if svc.healthy then drifted fl gauss svc else svc).error_rate;
  }

  disturb_if :
      (gauss : F × F × F) (svc : ServiceState F) (b : Bool)
      → (if b then drifted fl gauss svc else svc) ≡ record svc {
        latency_ms_p95 = (if b then drifted fl gauss svc else svc).latency_ms_p95;
        rps = (if b then drifted fl gauss svc else svc).rps;
        error_rate = (if b then drifted fl gauss svc else svc).error_rate;
      }
  disturb_if gauss svc true = refl
  disturb_if gauss svc false = refl

  abbrev pub noise_of_all : List (F × F × F) → Noise F
  noise_of_all [] = record {
    latency = λ svc. svc.latency_ms_p95;
    rps = λ svc. svc.rps;
    errors = λ svc. svc.error_rate;
  }
  noise_of_all (gauss ∷ draws) =
      let rest = noise_of_all draws in
      let first = disturb (noise_of gauss) in
      record {
        latency = λ svc. rest.latency (first svc);
        rps = λ svc. rest.rps (first svc);
        errors = λ svc. rest.errors (first svc);
      }

  -- Rounds of the loop change nothing but the metrics.
  rounds_lem :
      (draws : List (F × F × F)) (svc : ServiceState F)
      → rounds fl draws svc ≡ disturb (noise_of_all draws) svc
  rounds_lem [] svc = refl
  rounds_lem (gauss ∷ draws) svc =
      ap (rounds fl draws) (disturb_if gauss svc svc.healthy)
      ∙ rounds_lem draws (disturb (noise_of gauss) svc)

  pub ambient_rounds_lem :
      (draws : ℕ → ServiceName → List (F × F × F))
      → ambient_rounds fl draws ≡ amid (λ i n. noise_of_all (draws i n))
  ambient_rounds_lem draws = λ i. λ k services n. rounds_lem (draws k n) (services n) i
