-- ===== src/Tests/Chaos.antt =====
-- services/chaos-controller/app/: actions on the cluster as it starts.
use microservices_project.Prelude.{
  ℕ, List, ◌&&◌, if◌then◌else◌, elem, ◌≡◌, refl, true, some, [], ◌∷◌, ◌++◌, arith, nat_eq, ok_or,
}
use microservices_project.Prelude.Text.{codes, text_eq, text_beq}
use microservices_project.Chaos.Script.{run}
use microservices_project.Chaos.Cluster.{
  Floats, ServiceName, api_gateway, user_service, task_service, notification_service, service_of,
  Services, init_service,
}
use microservices_project.Chaos.Commands.{Command, do_kill_pod, perform}
use microservices_project.Chaos.Ambient.{ambient_rounds}
use microservices_project.Chaos.Noise.{Noise, amid, noise_of_all}
use microservices_project.Chaos.Quiet.{IsSteady}
use microservices_project.Chaos.Steady.{IsUp}
use microservices_project.Chaos.Recovery.{IsNew, idle, then_perform, Run-IsSteady}
use microservices_project.Chaos.Completion.{Completes, IsAimed, label_of, perform-Completes}
use microservices_project.Chaos.Scenario.{Draw, command_of}
use microservices_project.Chaos.Routes.{
  post, is_kill_pod, action_name, action_path, post-command_of,
}
use microservices_project.Chaos.Hub.{new_hub, publish, subscribe, has_room}
use microservices_project.Chaos.Hub.Streams.{all_put, all_read, stream_order}
use microservices_project.Chaos.Hub.Publishing.{join, leave, send, listen, use_hub, publish_exact}

-- Floats that are the terms that make them.
data Number : Type 0 where
  literal : (digits places : ℕ) → Number
  binary : (operator : ℕ) → Number → Number → Number

abbrev floats : Floats Number
floats = record {
  dec = λ digits places. literal digits places;
  add = λ a b. binary 0 a b;
  sub = λ a b. binary 1 a b;
  mul = λ a b. binary 2 a b;
  div = λ a b. binary 3 a b;
  least = λ a b. binary 4 a b;
  greatest = λ a b. binary 5 a b;
  round = λ a places. binary 6 a (literal places 0);
}

abbrev services : Services Number
services n =
    init_service floats n
      ((codes "a", literal 300 0) ∷ (codes "b", literal 400 0) ∷ (codes "c", literal 500 0) ∷ [])

abbrev draw : Draw
draw = record { suffix = codes "d"; suffix' = codes "e"; suffixes = λ n. [] }

at_start : (n : ServiceName) → IsUp (services n)
unfolding init_service text_beq
at_start api_gateway = (
  refl,
  record {
    ready = ((refl, refl), ((refl, refl), ((refl, refl), tt)));
    enough = omega arith;
    wanted = omega arith;
    named = refl;
  },
)
at_start user_service = (
  refl,
  record {
    ready = ((refl, refl), ((refl, refl), ((refl, refl), tt)));
    enough = omega arith;
    wanted = omega arith;
    named = refl;
  },
)
at_start task_service = (
  refl,
  record {
    ready = ((refl, refl), ((refl, refl), ((refl, refl), tt)));
    enough = omega arith;
    wanted = omega arith;
    named = refl;
  },
)
at_start notification_service = (
  refl,
  record {
    ready = ((refl, refl), ((refl, refl), ((refl, refl), tt)));
    enough = omega arith;
    wanted = omega arith;
    named = refl;
  },
)

abbrev kill : Command Number
kill = do_kill_pod (codes "user-service") (codes "d")

-- Two rounds of the ambient loop at every wait.
abbrev draws : ℕ → ServiceName → List (Number × Number × Number)
draws i n = (literal 6 1, literal 8 1, literal 3 4) ∷ (literal 4 1, literal 2 1, literal 1 4) ∷ []

Run-IsSteady_example : IsSteady (run (ambient_rounds floats draws) (perform floats kill) services).0
unfolding IsNew service_of text_beq init_service
Run-IsSteady_example =
    Run-IsSteady floats services
      (run (ambient_rounds floats draws) (perform floats kill) services).0
      (then_perform idle kill draws refl) at_start

-- The ambient loop leaves the metrics as they are.
abbrev quiet : ℕ → ServiceName → Noise Number
quiet i n = noise_of_all floats []

perform-Completes_example :
    Completes floats
      (codes "kill_pod:user-service")
      (run (amid quiet) (perform floats kill) services).1
unfolding IsAimed service_of text_beq label_of
perform-Completes_example =
    perform-Completes floats quiet kill services at_start (user_service, refl)

post-command_of_example :
    post floats draw true
      (action_path is_kill_pod)
      (some (record { service = some (codes "user-service"); duration = some (literal 5 0) }))
    ≡ ok_or
        (command_of floats draw (record {
          at = 0;
          action = action_name is_kill_pod;
          service = some (codes "user-service");
          duration = some 5;
        }))
        404
post-command_of_example = post-command_of floats draw is_kill_pod (codes "user-service") 0 5

publish_exact_example :
    let h = use_hub (join ∷ join ∷ send (codes "a") ∷ listen 1 ∷ leave 0 ∷ []) new_hub in
    let h' = publish (codes "b") h in
    h'.queues 1 ≡ (
      if elem 1 h.subscribers && has_room (h.queues 1)
      then h.queues 1 ++ codes "b" ∷ []
      else h.queues 1)
    × elem 1 h'.subscribers ≡ (elem 1 h.subscribers && has_room (h.queues 1))
publish_exact_example =
    publish_exact (join ∷ join ∷ send (codes "a") ∷ listen 1 ∷ leave 0 ∷ []) (codes "b") 1

stream_order_example :
    let (h, number) = subscribe (use_hub (join ∷ []) new_hub) in
    let after = send (codes "a") ∷ send (codes "b") ∷ listen 1 ∷ leave 1 ∷ send (codes "c") ∷ [] in
    all_read number after h ++ (use_hub after h).queues number ≡ all_put number after h
stream_order_example =
    stream_order (join ∷ [])
      (send (codes "a") ∷ send (codes "b") ∷ listen 1 ∷ leave 1 ∷ send (codes "c") ∷ [])
