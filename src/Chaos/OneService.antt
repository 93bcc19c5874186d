-- ===== src/Chaos/OneService.antt =====
-- services/chaos-controller/app/cluster.py: the actions that touch one service only.
use microservices_project.Prelude.{
  ℕ, suc, ◌≡◌, refl, ap, ◌∙◌, true, false, ◌∷◌, arith, if◌then◌else◌, nat_eq,
}
use microservices_project.Chaos.Script.{Script, ret, read, modify, wait, publish, run}
use microservices_project.Chaos.Cluster.{
  ServiceName, api_gateway, user_service, task_service, notification_service, same_service,
  ServiceState, Services, put,
}
use microservices_project.Chaos.Outages.{on}
use microservices_project.Chaos.Noise.{Noise, at_waits, amid}
use microservices_project.Chaos.Steady.{IsUp}

same_service_self : (n : ServiceName) → same_service n n ≡ true
same_service_self api_gateway = refl
same_service_self user_service = refl
same_service_self task_service = refl
same_service_self notification_service = refl

pub same_service_eq : (m n : ServiceName) → same_service m n ≡ true → m ≡ n
same_service_eq m n h = ground arith

module _ {F A : Type 0} (n : ServiceName) where
  -- A coroutine on one service does to it what it does, and leaves the others to the ambient loop.
  pub on_self :
      (noise : ℕ → ServiceName → Noise F) (m : Script (ServiceState F) F A) (s : Services F)
      → (run (amid noise) (on n m) s).0 n ≡ (run (at_waits (λ i. noise i n)) m (s n)).0
  unfolding run on
  on_self noise (ret a) s = refl
  on_self noise (read k) s = on_self noise (k (s n)) s
  on_self noise (modify f m) s =
      on_self noise m (put n (f (s n)) s)
      ∙ ap (λ b. (run (at_waits (λ i. noise i n)) m (if b then f (s n) else s n)).0)
          (same_service_self n)
  on_self noise (wait t m) s = on_self (λ i. noise (suc i)) m (amid noise 0 s)
  on_self noise (publish e m) s = on_self noise m s

  pub on_events :
      (noise : ℕ → ServiceName → Noise F) (m : Script (ServiceState F) F A) (s : Services F)
      → (run (amid noise) (on n m) s).1 ≡ (run (at_waits (λ i. noise i n)) m (s n)).1
  unfolding run on
  on_events noise (ret a) s = refl
  on_events noise (read k) s = on_events noise (k (s n)) s
  on_events noise (modify f m) s =
      on_events noise m (put n (f (s n)) s)
      ∙ ap (λ b. (run (at_waits (λ i. noise i n)) m (if b then f (s n) else s n)).1)
          (same_service_self n)
  on_events noise (wait t m) s = on_events (λ i. noise (suc i)) m (amid noise 0 s)
  on_events noise (publish e m) s = ap (λ es. e ∷ es) (on_events noise m s)

  pub on_others :
      (noise : ℕ → ServiceName → Noise F) (m : Script (ServiceState F) F A) (s : Services F)
      (other : ServiceName)
      → same_service other n ≡ false
      → IsUp (s other)
      → IsUp ((run (amid noise) (on n m) s).0 other)
  unfolding run on
  on_others noise (ret a) s other h up = up
  on_others noise (read k) s other h up = on_others noise (k (s n)) s other h up
  on_others noise (modify f m) s other h up =
      on_others noise m (put n (f (s n)) s) other h (rw h (up))
  on_others noise (wait t m) s other h up =
      on_others (λ i. noise (suc i)) m (amid noise 0 s) other h up
  on_others noise (publish e m) s other h up = on_others noise m s other h up
