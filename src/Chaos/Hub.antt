-- ===== src/Chaos/Hub.antt =====
-- services/chaos-controller/app/events.py: the hub. A queue is an object that its stream holds as well:
-- it is a number here, and its lines, oldest first, stand in a store. The order of a Python set is that
-- of the subscriptions.
pub mod Publishing
pub mod Streams
use microservices_project.Prelude.{
  ℕ, zero, suc, ◌+◌, ◌-◌, ◌*◌, ◌≤◌, ◌<◌, ◌≡◌, refl, sym, ap, ◌∙◌, ◌≢◌, ◌↔◌, ◌⊎◌, inl, inr, Bool,
  true, false, not, ◌&&◌, ◌||◌, Option, none, some, List, [], ◌∷◌, ◌++◌, map, arith, ltb, leb, ◌==◌,
  if◌then◌else◌, Bool-cases, Option-cases, length, All, elem, get_elem?, take, filter, tests, Eq,
  nat_eq, Result, ok, err,
}
use microservices_project.Prelude.Text.{Text}

abbrev pub maxsize : ℕ
maxsize = 1000

-- The queue objects that have been made, and the lines in each.
abbrev pub Queues : Type 0
Queues = ℕ → List Text

abbrev pub set_queue : ℕ → List Text → Queues → Queues
set_queue n lines queues m = if m == n then lines else queues m

-- `_subscribers`, the store, and the number of the next queue.
pub record EventHub : Type 0 where
  pub subscribers : List ℕ
  pub queues : Queues
  pub next : ℕ

abbrev pub new_hub : EventHub
new_hub = record { subscribers = []; queues = λ n. []; next = 0 }

unfoldable pub subscribe : EventHub → EventHub × ℕ
subscribe h = (
  record {
    subscribers = h.subscribers ++ h.next ∷ [];
    queues = set_queue h.next [] h.queues;
    next = h.next + 1;
  },
  h.next,
)

abbrev pub discard : ℕ → List ℕ → List ℕ
discard n subscribers = filter (λ m. not (m == n)) subscribers

unfoldable pub unsubscribe : ℕ → EventHub → EventHub
unsubscribe n h = record h { subscribers = discard n h.subscribers }

abbrev pub has_room : List Text → Bool
has_room lines = ltb (length lines) maxsize

-- `put_nowait`, which raises on a full queue.
abbrev pub put_nowait : Text → List Text → Option (List Text)
put_nowait line lines = if has_room lines then some (lines ++ line ∷ []) else none

-- The loop of `publish`: the line is put, and the subscribers with a full queue are collected.
unfoldable pub put_all : Text → List ℕ → Queues → Queues × List ℕ
put_all line [] queues = (queues, [])
put_all line (n ∷ ns) queues = elim (put_nowait line (queues n)) [
  | some lines ↦ put_all line ns (set_queue n lines queues)
  | none ↦ let (queues', dead) = put_all line ns queues in (queues', n ∷ dead)
]

unfoldable pub discard_all : List ℕ → List ℕ → List ℕ
discard_all [] subscribers = subscribers
discard_all (n ∷ dead) subscribers = discard_all dead (discard n subscribers)

unfoldable pub publish : Text → EventHub → EventHub
publish line h =
    let (queues, dead) = put_all line h.subscribers h.queues in
    record h { subscribers = discard_all dead h.subscribers; queues = queues }

-- `get` on a queue with these lines.
abbrev pub take_line : (keepalive : Text) → ℕ → EventHub → List Text → EventHub × Text
take_line keepalive n h [] = (h, keepalive)
take_line keepalive n h (line ∷ lines) = (record h { queues = set_queue n lines h.queues }, line)

-- One round of `stream` on the queue that it holds: the oldest line, or a keepalive where none came in
-- time.
unfoldable pub next_line : (keepalive : Text) → ℕ → EventHub → EventHub × Text
next_line keepalive n h = take_line keepalive n h (h.queues n)
