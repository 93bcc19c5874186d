-- ===== src/Notification/Consumer/Recipients.antt =====
-- services/notification-service/app/consumer.py: whom an event reaches.
use microservices_project.Prelude.{
  ℕ, ◌≡◌, refl, sym, ap, ◌∙◌, inl, inr, Bool, true, false, ◌&&◌, ◌||◌, Option, none, some, List, [],
  ◌∷◌, arith, ◌==◌, if◌then◌else◌, Bool-cases, elem, nat_eq,
}
use microservices_project.Prelude.Text.{Text, text_eq}
use microservices_project.Notification.Broadcaster.{Broadcaster}
use microservices_project.Notification.Broadcaster.Delivery.{
  count, filled, nothing_put, queue_of, broadcast_exact,
}
use microservices_project.Notification.Consumer.{
  collect_loop, collect_targets, task_created, task_status_changed, task_deleted, Body, assignee_id,
  creator_id, on_task_created, on_task_status_changed, on_task_deleted, handle, type_of,
  process_message,
}

-- The user is one of the ids; an empty id names nobody.
abbrev pub is_id : Text → Option Text → Bool
is_id u none = false
is_id u (some []) = false
is_id u (some (c ∷ cs)) = (c ∷ cs) == u

abbrev pub mentions : Text → List (Option Text) → Bool
mentions u [] = false
mentions u (i ∷ ids) = is_id u i || mentions u ids

count-collect_loop :
    (u : Text) (seen : List Text) (ids : List (Option Text))
    → count u (collect_loop seen ids) ≡ (if elem u seen then 0 else if mentions u ids then 1 else 0)
unfolding collect_loop
count-collect_loop u seen [] = ground arith
count-collect_loop u seen (none ∷ ids) = ground (arith, count-collect_loop u seen ids)
count-collect_loop u seen (some [] ∷ ids) = ground (arith, count-collect_loop u seen ids)
count-collect_loop u seen (some (c ∷ cs) ∷ ids) = elim (Bool-cases (elem (c ∷ cs) seen)) [
  | inl e ↦ ground (
    arith,
    count-collect_loop u seen ids,
    text_eq.beq_iff (c ∷ cs) u,
    text_eq.beq_iff u (c ∷ cs),
    e,
  )
  | inr e ↦ ground (
    arith,
    count-collect_loop u ((c ∷ cs) ∷ seen) ids,
    text_eq.beq_iff (c ∷ cs) u,
    text_eq.beq_iff u (c ∷ cs),
    e,
  )
]

-- `_collect_targets` lists exactly the users it is given, each of them once, and no empty id.
pub count-collect_targets :
    (u : Text) (ids : List (Option Text))
    → count u (collect_targets ids) ≡ (if mentions u ids then 1 else 0)
unfolding collect_targets
count-collect_targets u ids = count-collect_loop u [] ids

once :
    (b : Bool) (payload : Text) (o : Option (List Text))
    → filled (if b then 1 else 0) payload o ≡ (if b then filled 1 payload o else o)
once true payload o = refl
once false payload o = sym (nothing_put payload o)

module _ {D : Type 0} (get : Text → D → Option Text) (dumps : Text → D → Text) where
  -- Whom an event is for: the creator and the assignee of the task, for the three known events.
  abbrev pub audience : Text → D → Text → Bool
  audience event_type d u =
      (event_type == task_created
        || event_type == task_status_changed
        || event_type == task_deleted)
      && mentions u (creator_id get dumps d ∷ assignee_id get dumps d ∷ [])

  count-handle :
      (u event_type : Text) (d : D)
      → count u (handle get dumps event_type d).1 ≡ (if audience event_type d u then 1 else 0)
  unfolding handle on_task_created on_task_status_changed on_task_deleted
  count-handle u event_type d =
      let a = assignee_id get dumps d in
      let c = creator_id get dumps d in
      ground (arith, count-collect_targets u (a ∷ c ∷ []), count-collect_targets u (c ∷ a ∷ []))

  -- A message that is completed is put once at the end of the queue of each connection of the creator
  -- and of the assignee of its task, where that queue has room, and every other queue stays as it was,
  -- as do all of them where the message is abandoned, or is of an unknown type.
  pub process_message_exact :
      (m : Body get dumps) (completes : Bool) (b : Broadcaster) (u : Text) (conn_id : ℕ)
      → queue_of u conn_id (process_message get dumps (some m) completes b).0 ≡ (
          if completes && audience (type_of get dumps m) m.event_data u
          then filled 1 (dumps (type_of get dumps m) m.event_data) (queue_of u conn_id b)
          else queue_of u conn_id b)
  unfolding process_message
  process_message_exact m false b u conn_id = refl
  process_message_exact m true b u conn_id =
      let t = type_of get dumps m in
      let payload = dumps t m.event_data in
      let targets = (handle get dumps t m.event_data).1 in
      broadcast_exact payload u conn_id targets b
      ∙ ap (λ n. filled n payload (queue_of u conn_id b)) (count-handle u t m.event_data)
      ∙ once (audience t m.event_data u) payload (queue_of u conn_id b)
