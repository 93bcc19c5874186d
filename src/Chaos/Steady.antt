-- ===== src/Chaos/Steady.antt =====
-- services/chaos-controller/app/cluster.py: what an action on one service leaves of it.
use microservices_project.Prelude.{
  ℕ, ◌+◌, ◌-◌, ◌≤◌, ◌<◌, ◌≡◌, refl, sym, ap, ◌∙◌, ◌≢◌, true, false, List, [], ◌∷◌, ◌++◌, arith,
  length, All, elem, nat_eq,
}
use microservices_project.Prelude.{are_distinct, All-append, length-append}
use microservices_project.Prelude.Text.{Text, text_eq}
use microservices_project.Chaos.Script.{run}
use microservices_project.Chaos.Cluster.{
  Floats, ServiceName, api_gateway, container_creating, terminating, PodState, ServiceState,
  edit_pod, remove_pod, with_phase, with_ready, turn_ready, turn_off,
}
use microservices_project.Chaos.Noise.{Noise, at_waits}
use microservices_project.Chaos.Pods.{
  names, KeepsName, IsReady, replaced, edit-edit, distinct_append, elem-append, names-append,
}
use microservices_project.Chaos.Actions.{
  new_pod, kill_first, leak_first, fill_first, edit_from, cpu_pressure,
}
use microservices_project.Chaos.Outages.{reclaim_first}

module _ {F : Type 0} where
  -- The pods that a service wants: as many, which all run and are ready and have different names.
  pub record PodsUp (desired : ℕ) (pods : List (PodState F)) : Type 0 where
    pub ready : All IsReady pods
    pub enough : desired ≤ length pods
    pub wanted : 0 < desired
    pub named : are_distinct (names pods) ≡ true

  abbrev pub IsUp : ServiceState F → Type 0
  IsUp svc = svc.healthy ≡ true × PodsUp svc.desired_replicas svc.pods

  -- No pod has the name of the new one.
  abbrev pub IsFresh : PodState F → ServiceState F → Type 0
  IsFresh q svc = elem q.name (names svc.pods) ≡ false

  -- One more pod, of a new name.
  pub grown :
      (desired : ℕ) (q : PodState F) (ps : List (PodState F))
      → All IsReady ps
      → are_distinct (names ps) ≡ true
      → elem q.name (names ps) ≡ false
      → IsReady q
      → 0 < desired
      → desired ≤ length ps + 1
      → PodsUp desired (ps ++ q ∷ [])
  grown desired q ps up named fresh ready wanted enough = record {
    ready = All-append IsReady ps (q ∷ []) up (ready, tt);
    enough = omega (arith, enough, length-append ps (q ∷ []));
    wanted = wanted;
    named =
        ap are_distinct (names-append ps (q ∷ [])) ∙ distinct_append (names ps) q.name named fresh;
  }

  rotated :
      (desired : ℕ) (t q : PodState F) (g : PodState F → PodState F) (rest : List (PodState F))
      → KeepsName g
      → PodsUp desired (t ∷ rest)
      → elem q.name (names (t ∷ rest)) ≡ false
      → IsReady (g q)
      → PodsUp desired (rest ++ g q ∷ [])
  rotated desired t q g rest kg up fresh ready =
      let named : are_distinct (names rest) ≡ true = ground (arith, up.named) in
      let other : elem q.name (names rest) ≡ false = ground (arith, fresh) in
      grown desired (g q) rest up.ready.1 named (ap (λ x. elem x (names rest)) (kg q) ∙ other) ready
        up.wanted (omega (arith, up.enough))

  -- An action that replaces the first pod.
  rotated_by :
      (desired : ℕ) (t q : PodState F) (f g : PodState F → PodState F) (rest ps : List (PodState F))
      → KeepsName f
      → KeepsName g
      → IsReady (g q)
      → ps ≡ t ∷ rest
      → PodsUp desired ps
      → elem q.name (names ps) ≡ false
      → PodsUp desired (remove_pod t.name (edit_pod q.name g (edit_pod t.name f ps ++ q ∷ [])))
  rotated_by desired t q f g rest ps kf kg ready e up fresh =
      let up' : PodsUp desired (t ∷ rest) = rw (sym e) (up) in
      let fresh' = ap (λ l. elem q.name (names l)) (sym e) ∙ fresh in
      let alone : elem t.name (names rest) ≡ false = ground (arith, up'.named) in
      let path =
        ap (λ l. remove_pod t.name (edit_pod q.name g (edit_pod t.name f l ++ q ∷ []))) e
        ∙ replaced t q f g rest kf kg alone fresh' in
      rw path (rotated desired t q g rest kg up' fresh' ready)

module _ {F : Type 0} (fl : Floats F) (noise : ℕ → Noise F) (service : ServiceName) where
  pub no_pods : (svc : ServiceState F) → svc.pods ≡ [] → IsUp svc → ⊥
  no_pods svc e up = omega (arith, up.1.enough, up.1.wanted, ap length e)

  pub kill_first-IsUp :
      (suffix : Text) (svc : ServiceState F) (ps : List (PodState F))
      → svc.pods ≡ ps
      → IsUp svc
      → IsFresh (new_pod fl service suffix) svc
      → IsUp (run (at_waits noise) (kill_first fl service suffix ps) svc).0
  unfolding run
  kill_first-IsUp suffix svc [] e up fresh = absurd (no_pods svc e up)
  kill_first-IsUp suffix svc (t ∷ rest) e up fresh =
      let q = new_pod fl service suffix in
      let creating : PodState F → PodState F = with_phase container_creating in
      let off : PodState F → PodState F = λ p. with_ready false (with_phase terminating p) in
      let path =
        ap
          (λ l.
            remove_pod t.name (edit_pod q.name turn_ready (edit_pod q.name creating (l ++ q ∷ []))))
          (edit-edit t.name (with_phase terminating) (with_ready false) svc.pods (λ p. refl))
        ∙ ap (remove_pod t.name) (
            edit-edit q.name creating turn_ready (edit_pod t.name off svc.pods ++ q ∷ [])
              (λ p. refl)) in
      (
        refl,
        rw path (
            rotated_by svc.desired_replicas t q off (λ p. turn_ready (creating p)) rest svc.pods
              (λ p. refl) (λ p. refl) (refl, refl) e up.1 fresh),
      )

  pub leak_first-IsUp :
      (suffix : Text) (svc : ServiceState F) (ps : List (PodState F))
      → svc.pods ≡ ps
      → IsUp svc
      → IsFresh (new_pod fl service suffix) svc
      → IsUp (run (at_waits noise) (leak_first fl service suffix ps) svc).0
  unfolding run
  leak_first-IsUp suffix svc [] e up fresh = absurd (no_pods svc e up)
  leak_first-IsUp suffix svc (t ∷ rest) e up fresh = (
    refl,
    rotated_by svc.desired_replicas t (new_pod fl service suffix) turn_off turn_ready rest svc.pods
        (λ p. refl) (λ p. refl) (refl, refl) e up.1 fresh,
  )

  pub fill_first-IsUp :
      (suffix : Text) (svc : ServiceState F) (ps : List (PodState F))
      → svc.pods ≡ ps
      → IsUp svc
      → IsFresh (new_pod fl service suffix) svc
      → IsUp (run (at_waits noise) (fill_first fl service suffix ps) svc).0
  unfolding run
  fill_first-IsUp suffix svc [] e up fresh = absurd (no_pods svc e up)
  fill_first-IsUp suffix svc (t ∷ rest) e up fresh = (
    refl,
    rotated_by svc.desired_replicas t (new_pod fl service suffix) turn_off turn_ready rest svc.pods
        (λ p. refl) (λ p. refl) (refl, refl) e up.1 fresh,
  )

  pub reclaim_first-IsUp :
      (suffix : Text) (svc : ServiceState F) (ps : List (PodState F))
      → svc.pods ≡ ps
      → IsUp svc
      → IsFresh (new_pod fl api_gateway suffix) svc
      → IsUp (run (at_waits noise) (reclaim_first fl suffix ps) svc).0
  unfolding run
  reclaim_first-IsUp suffix svc [] e up fresh = absurd (no_pods svc e up)
  reclaim_first-IsUp suffix svc (t ∷ rest) e up fresh = (
    up.0,
    rotated_by svc.desired_replicas t (new_pod fl api_gateway suffix) turn_off turn_ready rest
        svc.pods (λ p. refl) (λ p. refl) (refl, refl) e up.1 fresh,
  )

  -- The two pods of a scale-up.
  edit_from_end :
      (f : PodState F → PodState F) (ps : List (PodState F)) (a b : PodState F)
      → edit_from (length ps) f ((ps ++ a ∷ []) ++ b ∷ []) ≡ (ps ++ f a ∷ []) ++ f b ∷ []
  edit_from_end f [] a b = refl
  edit_from_end f (p ∷ ps) a b = ap (λ l. p ∷ l) (edit_from_end f ps a b)

  length_two :
      (ps : List (PodState F)) (a b : PodState F)
      → length ((ps ++ a ∷ []) ++ b ∷ []) - 2 ≡ length ps
  length_two ps a b =
      omega (arith, length-append (ps ++ a ∷ []) (b ∷ []), length-append ps (a ∷ []))

  -- The pods that a scale-up leaves.
  scaled :
      (suffix suffix' : Text) (svc : ServiceState F)
      → (run (at_waits noise) (cpu_pressure fl service suffix suffix') svc).0.pods
        ≡ (svc.pods ++ turn_ready (new_pod fl service suffix) ∷ [])
          ++ turn_ready (new_pod fl service suffix') ∷ []
  unfolding run cpu_pressure
  scaled suffix suffix' svc =
      let a = new_pod fl service suffix in
      let b = new_pod fl service suffix' in
      let all = (svc.pods ++ a ∷ []) ++ b ∷ [] in
      ap (λ i. edit_from i turn_ready all) (length_two svc.pods a b)
      ∙ edit_from_end turn_ready svc.pods a b

  pub cpu_pressure-IsUp :
      (suffix suffix' : Text) (svc : ServiceState F)
      → IsUp svc
      → IsFresh (new_pod fl service suffix) svc
      → IsFresh (new_pod fl service suffix') svc
      → (new_pod fl service suffix').name ≢ (new_pod fl service suffix).name
      → IsUp (run (at_waits noise) (cpu_pressure fl service suffix suffix') svc).0
  unfolding run cpu_pressure
  cpu_pressure-IsUp suffix suffix' svc up fresh fresh' apart =
      let a = turn_ready (new_pod fl service suffix) in
      let b = turn_ready (new_pod fl service suffix') in
      let d = svc.desired_replicas in
      let one =
        grown d a svc.pods up.1.ready up.1.named fresh (refl, refl) up.1.wanted
          (omega (arith, up.1.enough)) in
      let unknown : elem b.name (names (svc.pods ++ a ∷ [])) ≡ false = ground (
        arith,
        fresh',
        apart,
        ap (elem b.name) (names-append svc.pods (a ∷ [])),
        elem-append b.name (names svc.pods) (a.name ∷ []),
        text_eq.beq_iff b.name a.name,
      ) in
      let two =
        grown d b (svc.pods ++ a ∷ []) one.ready one.named unknown (refl, refl) one.wanted
          (omega (arith, one.enough)) in
      (up.0, rw (scaled suffix suffix' svc) (two))
