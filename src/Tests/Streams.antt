-- ===== src/Tests/Streams.antt =====
-- services/notification-service/app/: broadcasts and messages.
use microservices_project.Prelude.{
  ◌≡◌, true, Option, none, some, [], ◌∷◌, ◌==◌, if◌then◌else◌, nat_eq,
}
use microservices_project.Prelude.Text.{Text, codes, text_eq, text_beq}
use microservices_project.Notification.Broadcaster.{
  Broadcaster, new_broadcaster, broadcast, conns_of,
}
use microservices_project.Notification.Broadcaster.Delivery.{queue_of, broadcast_exact}
use microservices_project.Notification.Broadcaster.Invariant.{
  subscribed, sent, awaited, closed, run, IsValid, run-new_broadcaster-IsValid,
}
use microservices_project.Notification.Consumer.{Body, process_message, task_created}
use microservices_project.Notification.Consumer.Recipients.{process_message_exact}

abbrev ann : Text
ann = codes "ann"

abbrev bob : Text
bob = codes "bob"

abbrev streams : Broadcaster
streams = record { queues = (ann, (1, []) ∷ []) ∷ (bob, (2, []) ∷ []) ∷ []; next_conn_id = 2 }

broadcast_exact_example :
    queue_of bob 2 (broadcast (codes "p") (bob ∷ ann ∷ bob ∷ []) streams)
    ≡ some (codes "p" ∷ codes "p" ∷ [])
unfolding text_beq conns_of
broadcast_exact_example = broadcast_exact (codes "p") bob 2 (bob ∷ ann ∷ bob ∷ []) streams

run-new_broadcaster-IsValid_example : IsValid (
    run
      (subscribed ann ∷ sent (codes "p") (ann ∷ []) ∷ awaited ann 1 ∷ closed ann 1 ∷ [])
      new_broadcaster)
run-new_broadcaster-IsValid_example =
    run-new_broadcaster-IsValid
      (subscribed ann ∷ sent (codes "p") (ann ∷ []) ∷ awaited ann 1 ∷ closed ann 1 ∷ [])

-- The data of an event as a function from its keys.
abbrev Data : Type 0
Data = Text → Option Text

abbrev get : Text → Data → Option Text
get key d = d key

abbrev dumps : Text → Data → Text
dumps t d = codes "json"

abbrev created : Body get dumps
created = record {
  event_type = some task_created;
  event_data = λ key. if key == codes "creator_id" then some ann else none;
}

process_message_exact_example :
    queue_of ann 1 (process_message get dumps (some created) true streams).0
    ≡ some (codes "json" ∷ [])
unfolding text_beq conns_of
process_message_exact_example = process_message_exact get dumps created true streams ann 1
