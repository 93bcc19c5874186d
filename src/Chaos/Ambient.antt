-- ===== src/Chaos/Ambient.antt =====
-- services/chaos-controller/app/cluster.py: the drift of the metrics, one round of it, and the snapshot.
use microservices_project.Prelude.{
  ℕ, Bool, List, [], ◌∷◌, map, if◌then◌else◌, length, filter, nat_eq,
}
use microservices_project.Prelude.Text.{Text}
use microservices_project.Chaos.Cluster.{
  Floats, ServiceName, Phase, PodState, ServiceState, Services,
}

pub record PodView (F : Type 0) : Type 0 where
  pub name : Text
  pub phase : Phase
  pub ready : Bool
  pub age : F

pub record ServiceView (F : Type 0) : Type 0 where
  pub desired : ℕ
  pub ready : ℕ
  pub pods : List (PodView F)
  pub healthy : Bool
  pub latency_p95_ms : F
  pub rps : F
  pub error_rate : F

module _ {F : Type 0} (fl : Floats F) where
  -- A step of the walk, from three numbers that are drawn.
  abbrev pub drifted : F × F × F → ServiceState F → ServiceState F
  drifted (latency, rps, errors) svc = record svc {
    latency_ms_p95 = fl.greatest (fl.dec 20 0) (fl.add svc.latency_ms_p95 latency);
    rps = fl.greatest (fl.dec 10 0) (fl.add svc.rps rps);
    error_rate = fl.greatest (fl.dec 0 0) (fl.least (fl.dec 1 2) (fl.add svc.error_rate errors));
  }

  abbrev pub drift : F × F × F → ServiceState F → ServiceState F
  drift gauss svc = if svc.healthy then drifted gauss svc else svc

  -- A round of `_ambient_loop`.
  abbrev pub ambient_drift : (ServiceName → F × F × F) → Services F → Services F
  ambient_drift gauss services n = drift (gauss n) (services n)

  -- Rounds of the loop, one after another, on one service, and on all of them: what the loop does
  -- while an action waits, since it takes no lock.
  abbrev pub rounds : List (F × F × F) → ServiceState F → ServiceState F
  rounds [] svc = svc
  rounds (gauss ∷ draws) svc = rounds draws (drift gauss svc)

  abbrev pub ambient_rounds : (ℕ → ServiceName → List (F × F × F)) → ℕ → Services F → Services F
  ambient_rounds draws i services n = rounds (draws i n) (services n)

  abbrev pod_view : PodState F → PodView F
  pod_view p = record {
    name = p.name;
    phase = p.phase;
    ready = p.ready;
    age = fl.round p.age_sec 1;
  }

  unfoldable pub snapshot : Services F → ServiceName → ServiceView F
  snapshot services n = record {
    desired = (services n).desired_replicas;
    ready = length (filter (λ p. p.ready) (services n).pods);
    pods = map pod_view (services n).pods;
    healthy = (services n).healthy;
    latency_p95_ms = fl.round (services n).latency_ms_p95 1;
    rps = fl.round (services n).rps 1;
    error_rate = fl.round (services n).error_rate 4;
  }
