-- ===== src/Notification/Broadcaster/Delivery.antt =====
-- services/notification-service/app/broadcaster.py: who a broadcast reaches.
use mathlib.Core.List.{append_assoc, append-nil}
use microservices_project.Prelude.{length-append}
use microservices_project.Prelude.{
  ℕ, zero, suc, ◌-◌, ◌≡◌, refl, sym, ap, ◌∙◌, Bool-cases, ltb, length, ◌++◌, inl, inr, Option, none,
  some, List, [], ◌∷◌, arith, ◌==◌, if◌then◌else◌, Option-cases, nat_eq,
}
use microservices_project.Prelude.Dict.{Dict, lookup, lookup-insert}
use microservices_project.Prelude.Text.{Text, text_eq}
use microservices_project.Notification.Broadcaster.{
  Conns, Broadcaster, queue_maxsize, put_nowait, conns_of, deliver, deliver_to, deliver_all,
  broadcast,
}

-- How often a user is among the targets.
abbrev pub count : Text → List Text → ℕ
count u [] = 0
count u (t ∷ ts) = if t == u then suc (count u ts) else count u ts

abbrev pub deliver_times : ℕ → Text → Conns → Conns
deliver_times zero payload conns = conns
deliver_times (suc n) payload conns = deliver_times n payload (deliver payload conns)

-- What one user's entry becomes.
abbrev pub delivered : ℕ → Text → Option Conns → Option Conns
delivered n payload none = none
delivered n payload (some conns) = some (deliver_times n payload conns)

delivered-deliver_to :
    (payload user t : Text) (n : ℕ) (queues : Dict Text Conns)
    → delivered n payload (lookup user (deliver_to payload t queues))
      ≡ delivered (if t == user then suc n else n) payload (lookup user queues)
unfolding deliver_to
delivered-deliver_to payload user t n queues = elim (Option-cases (lookup t queues)) [
  | inl e ↦ ground (arith, text_eq.beq_iff t user, e)
  | inr (conns, e) ↦
      ground (arith, text_eq.beq_iff t user, lookup-insert t user (deliver payload conns) queues, e)
]

delivered-deliver_all :
    (payload user : Text) (targets : List Text) (queues : Dict Text Conns)
    → lookup user (deliver_all payload targets queues)
      ≡ delivered (count user targets) payload (lookup user queues)
unfolding deliver_all
delivered-deliver_all payload user [] queues = ground arith
delivered-deliver_all payload user (t ∷ ts) queues =
    delivered-deliver_all payload user ts (deliver_to payload t queues)
    ∙ delivered-deliver_to payload user t (count user ts) queues

-- Copies of the payload, but no more than there is room for.
abbrev pub copies : (room : ℕ) → ℕ → Text → List Text
copies zero n payload = []
copies (suc room) zero payload = []
copies (suc room) (suc n) payload = payload ∷ copies room n payload

-- A queue after so many copies of the payload: the first ones that it has room for, at its end.
abbrev pub filled : ℕ → Text → Option (List Text) → Option (List Text)
filled n payload none = none
filled n payload (some q) = some (q ++ copies (queue_maxsize - length q) n payload)

-- The queue of a connection.
abbrev pub queue_of : Text → ℕ → Broadcaster → Option (List Text)
queue_of user conn_id b = lookup conn_id (conns_of user b.queues)

no_room : (n : ℕ) (payload : Text) (room : ℕ) → room ≡ 0 → copies room n payload ≡ []
no_room n payload zero e = refl
no_room n payload (suc room) e = absurd (omega (arith, e))

no_copies : (room : ℕ) (payload : Text) → copies room 0 payload ≡ []
no_copies zero payload = refl
no_copies (suc room) payload = refl

one_more :
    (n : ℕ) (payload : Text) (room rest : ℕ)
    → room ≡ suc rest
    → copies room (suc n) payload ≡ payload ∷ copies rest n payload
one_more n payload zero rest e = absurd (omega (arith, e))
one_more n payload (suc room) rest e = ap (λ r. payload ∷ copies r n payload) (omega (arith, e))

-- One put before the others.
filled-put_nowait :
    (n : ℕ) (payload : Text) (q : List Text)
    → filled n payload (some (put_nowait payload q)) ≡ filled (suc n) payload (some q)
unfolding put_nowait
filled-put_nowait n payload q = elim (Bool-cases (ltb (length q) queue_maxsize)) [
  | inl room ↦
      let put : put_nowait payload q ≡ q ++ payload ∷ [] = ground (arith, room) in
      let rest = queue_maxsize - length (q ++ payload ∷ []) in
      let left : queue_maxsize - length q ≡ suc rest =
        ground (arith, room, length-append q (payload ∷ [])) in
      ap (λ l. filled n payload (some l)) put
      ∙ ap some (append_assoc q (payload ∷ []) (copies rest n payload))
      ∙ ap (λ l. some (q ++ l)) (sym (one_more n payload _ rest left))
  | inr full ↦
      let put : put_nowait payload q ≡ q = ground (arith, full) in
      let none_left : queue_maxsize - length q ≡ 0 = ground (arith, full) in
      ap (λ l. filled n payload (some l)) put
      ∙ ap (λ l. some (q ++ l))
          (no_room n payload _ none_left ∙ sym (no_room (suc n) payload _ none_left))
]

lookup-deliver :
    (payload : Text) (conn_id : ℕ) (conns : Conns)
    → lookup conn_id (deliver payload conns)
      ≡ elim (lookup conn_id conns) [ none ↦ none | some q ↦ some (put_nowait payload q) ]
unfolding deliver
lookup-deliver payload conn_id [] = refl
lookup-deliver payload conn_id ((i, q) ∷ conns) =
    ground (arith, lookup-deliver payload conn_id conns)

pub nothing_put : (payload : Text) (o : Option (List Text)) → o ≡ filled 0 payload o
nothing_put payload none = refl
nothing_put payload (some q) =
    ap some (sym (append-nil q))
    ∙ ap (λ l. some (q ++ l)) (sym (no_copies (queue_maxsize - length q) payload))

one_put :
    (n : ℕ) (payload : Text) (o : Option (List Text))
    → filled n payload (elim o [ none ↦ none | some q ↦ some (put_nowait payload q) ])
      ≡ filled (suc n) payload o
one_put n payload none = refl
one_put n payload (some q) = filled-put_nowait n payload q

lookup-deliver_times :
    (n : ℕ) (payload : Text) (conn_id : ℕ) (conns : Conns)
    → lookup conn_id (deliver_times n payload conns) ≡ filled n payload (lookup conn_id conns)
lookup-deliver_times zero payload conn_id conns = nothing_put payload (lookup conn_id conns)
lookup-deliver_times (suc n) payload conn_id conns =
    lookup-deliver_times n payload conn_id (deliver payload conns)
    ∙ ap (filled n payload) (lookup-deliver payload conn_id conns)
    ∙ one_put n payload (lookup conn_id conns)

-- The connections in a user's entry.
abbrev conns_in : Option Conns → Conns
conns_in none = []
conns_in (some conns) = conns

conns_of_lem :
    (user : Text) (queues : Dict Text Conns) → conns_of user queues ≡ conns_in (lookup user queues)
unfolding conns_of
conns_of_lem user queues = elim (Option-cases (lookup user queues)) [
  | inl e ↦ ground (arith, e)
  | inr (conns, e) ↦ ground (arith, e)
]

lookup-delivered :
    (n : ℕ) (payload : Text) (conn_id : ℕ) (o : Option Conns)
    → lookup conn_id (conns_in (delivered n payload o))
      ≡ filled n payload (lookup conn_id (conns_in o))
lookup-delivered n payload conn_id none = refl
lookup-delivered n payload conn_id (some conns) = lookup-deliver_times n payload conn_id conns

-- Each connection of a user gets one copy of the payload for every time the user is among the targets,
-- at the end of its queue, as long as the queue has room, and the copies beyond its size are dropped:
-- so the queues of all other users stay as they were, and no connection comes or goes.
pub broadcast_exact :
    (payload user : Text) (conn_id : ℕ) (targets : List Text) (b : Broadcaster)
    → queue_of user conn_id (broadcast payload targets b)
      ≡ filled (count user targets) payload (queue_of user conn_id b)
unfolding broadcast
broadcast_exact payload user conn_id targets b =
    let n = count user targets in
    ap (lookup conn_id) (
      conns_of_lem user (deliver_all payload targets b.queues)
      ∙ ap conns_in (delivered-deliver_all payload user targets b.queues))
    ∙ lookup-delivered n payload conn_id (lookup user b.queues)
    ∙ ap (λ conns. filled n payload (lookup conn_id conns)) (sym (conns_of_lem user b.queues))
