-- ===== src/Notification/Broadcaster.antt =====
-- services/notification-service/app/broadcaster.py: `_Broadcaster`. An event loop runs one
-- operation at a time, so a stream is taken apart at its awaits: it is opened, it receives, and
-- it is closed.
pub mod Delivery
pub mod Invariant
use microservices_project.Prelude.{
  ℕ, zero, suc, ◌+◌, ◌-◌, ◌*◌, ◌≤◌, ◌<◌, ◌≡◌, refl, sym, ap, ◌∙◌, ◌≢◌, ◌↔◌, ◌⊎◌, inl, inr, Bool,
  true, false, not, ◌&&◌, ◌||◌, Option, none, some, List, [], ◌∷◌, ◌++◌, map, arith, ltb, leb, ◌==◌,
  if◌then◌else◌, Bool-cases, Option-cases, length, All, elem, get_elem?, take, filter, tests, Eq,
  nat_eq, Result, ok, err, ◌>>=◌, ◌>>◌, require, ok_or,
}
use microservices_project.Prelude.Dict.{Dict, lookup, insert, erase}
use microservices_project.Prelude.Text.{Text, text_eq}

abbrev pub queue_maxsize : ℕ
queue_maxsize = 100

-- The connections of one user, and the queue of each.
abbrev pub Conns : Type 0
Conns = Dict ℕ (List Text)

pub record Broadcaster : Type 0 where
  pub queues : Dict Text Conns
  pub next_conn_id : ℕ

abbrev pub new_broadcaster : Broadcaster
new_broadcaster = record { queues = []; next_conn_id = 0 }

-- `queue.put_nowait(payload)`, where a full queue drops the payload.
unfoldable pub put_nowait : Text → List Text → List Text
put_nowait payload q = if ltb (length q) queue_maxsize then q ++ (payload ∷ []) else q

-- The loop over the connections of one user.
unfoldable pub deliver : Text → Conns → Conns
deliver payload [] = []
deliver payload ((conn_id, q) ∷ conns) = (conn_id, put_nowait payload q) ∷ deliver payload conns

-- The bucket of a user, if there is one, is changed in place.
unfoldable pub deliver_to : Text → Text → Dict Text Conns → Dict Text Conns
deliver_to payload user_id queues = elim (lookup user_id queues) [
  | none ↦ queues
  | some conns ↦ insert user_id (deliver payload conns) queues
]

unfoldable pub deliver_all : Text → List Text → Dict Text Conns → Dict Text Conns
deliver_all payload [] queues = queues
deliver_all payload (u ∷ us) queues = deliver_all payload us (deliver_to payload u queues)

unfoldable pub broadcast : Text → List Text → Broadcaster → Broadcaster
broadcast payload targets b = record b { queues = deliver_all payload targets b.queues }

-- `self._queues[user_id]` of the defaultdict, which is empty for a new user.
unfoldable pub conns_of : Text → Dict Text Conns → Conns
conns_of user_id queues = elim (lookup user_id queues) [ none ↦ [] | some conns ↦ conns ]

-- `subscribe` up to its loop: a new connection with an empty queue, and its id.
unfoldable pub subscribe : Text → Broadcaster → Broadcaster × ℕ
subscribe user_id b =
    let conn_id = b.next_conn_id + 1 in
    let conns = insert conn_id [] (conns_of user_id b.queues) in
    (record { queues = insert user_id conns b.queues; next_conn_id = conn_id }, conn_id)

-- What the loop of `subscribe` yields: the oldest payload, or a keepalive when there is none.
pub data Event : Type 0 where
  message : Text → Event
  keepalive : Event

-- `queue.get()` of a stream, where its connection has a queue.
abbrev pub receive_from : Text → ℕ → Broadcaster → Option (List Text) → Broadcaster × Event
receive_from user_id conn_id b none = (b, keepalive)
receive_from user_id conn_id b (some []) = (b, keepalive)
receive_from user_id conn_id b (some (p ∷ q)) =
    let conns = insert conn_id q (conns_of user_id b.queues) in
    (record b { queues = insert user_id conns b.queues }, message p)

unfoldable pub receive : Text → ℕ → Broadcaster → Broadcaster × Event
receive user_id conn_id b =
    receive_from user_id conn_id b (lookup conn_id (conns_of user_id b.queues))

-- The `finally` of `subscribe`.
unfoldable pub close : Text → ℕ → Broadcaster → Broadcaster
close user_id conn_id b = elim (erase conn_id (conns_of user_id b.queues)) [
  | [] ↦ record b { queues = erase user_id b.queues }
  | c ∷ conns ↦ record b { queues = insert user_id (c ∷ conns) b.queues }
]

unfoldable pub active_user_count : Broadcaster → ℕ
active_user_count b = length b.queues

abbrev pub total_conns : Dict Text Conns → ℕ
total_conns [] = 0
total_conns ((u, conns) ∷ queues) = length conns + total_conns queues

unfoldable pub active_connection_count : Broadcaster → ℕ
active_connection_count b = total_conns b.queues
