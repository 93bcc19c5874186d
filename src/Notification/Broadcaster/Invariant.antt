-- ===== src/Notification/Broadcaster/Invariant.antt =====
-- services/notification-service/app/broadcaster.py: what holds of the registry of streams at all
-- times.
use microservices_project.Prelude.{
  ℕ, suc, ◌+◌, ◌≤◌, ◌≡◌, refl, ap, ◌∙◌, Option, none, some, List, [], ◌∷◌, arith, length, nat_eq,
}
use microservices_project.Prelude.Dict.{
  Dict, lookup, contains, insert, erase, IsDict, insert-IsDict, erase-IsDict, Every, insert-Every,
  erase-Every, lookup-Every,
}
use microservices_project.Prelude.{length-append}
use microservices_project.Prelude.Text.{Text, text_eq}
use microservices_project.Notification.Broadcaster.{
  Conns, Broadcaster, queue_maxsize, new_broadcaster, put_nowait, deliver, deliver_to, deliver_all,
  broadcast, conns_of, subscribe, receive_from, receive, close,
}

-- A connection has an id that has been given out, and a queue within its size.
abbrev pub IsConn : ℕ → ℕ → List Text → Type 0
IsConn n conn_id q = (conn_id ≤ n) × (length q ≤ queue_maxsize)

abbrev pub AreConns : ℕ → Conns → Type 0
AreConns n conns = IsDict conns × Every (IsConn n) conns

-- A bucket is never left empty.
abbrev pub IsBucket : ℕ → Text → Conns → Type 0
IsBucket n u conns = AreConns n conns × (1 ≤ length conns)

abbrev pub IsValid : Broadcaster → Type 0
IsValid b = IsDict b.queues × Every (IsBucket b.next_conn_id) b.queues

AreConns-conns_of :
    (n : ℕ) (u : Text) (queues : Dict Text Conns)
    → Every (IsBucket n) queues
    → AreConns n (conns_of u queues)
unfolding conns_of
AreConns-conns_of n u queues h = go (lookup u queues) refl
  where
    go :
        (o : Option Conns)
        → lookup u queues ≡ o
        → AreConns n (elim o [ none ↦ [] | some conns ↦ conns ])
    go none e = (tt, tt)
    go (some conns) e = (lookup-Every (IsBucket n) u conns queues h e).0

contains-deliver :
    (payload : Text) (c : ℕ) (conns : Conns) → contains c (deliver payload conns) ≡ contains c conns
unfolding deliver
contains-deliver payload c [] = refl
contains-deliver payload c ((i, q) ∷ conns) = ground (arith, contains-deliver payload c conns)

put_nowait-bounded :
    (payload : Text) (q : List Text)
    → length q ≤ queue_maxsize
    → length (put_nowait payload q) ≤ queue_maxsize
unfolding put_nowait
put_nowait-bounded payload q h = ground (arith, length-append q (payload ∷ []))

deliver-AreConns :
    (n : ℕ) (payload : Text) (conns : Conns) → AreConns n conns → AreConns n (deliver payload conns)
unfolding deliver
deliver-AreConns n payload [] h = h
deliver-AreConns n payload ((i, q) ∷ conns) h =
    let rest = deliver-AreConns n payload conns (h.0.1, h.1.1) in
    (
      (contains-deliver payload i conns ∙ h.0.0, rest.0),
      ((h.1.0.0, put_nowait-bounded payload q h.1.0.1), rest.1),
    )

length-deliver : (payload : Text) (conns : Conns) → length (deliver payload conns) ≡ length conns
unfolding deliver
length-deliver payload [] = refl
length-deliver payload ((i, q) ∷ conns) = ap suc (length-deliver payload conns)

-- Both halves of the invariant, for the dict of a state.
abbrev pub AreBuckets : ℕ → Dict Text Conns → Type 0
AreBuckets n queues = IsDict queues × Every (IsBucket n) queues

insert-AreBuckets :
    (n : ℕ) (u : Text) (conns : Conns) (queues : Dict Text Conns)
    → IsBucket n u conns
    → AreBuckets n queues
    → AreBuckets n (insert u conns queues)
insert-AreBuckets n u conns queues p h =
    (insert-IsDict u conns queues h.0, insert-Every (IsBucket n) u conns queues p h.1)

deliver_to-AreBuckets :
    (n : ℕ) (payload u : Text) (queues : Dict Text Conns)
    → AreBuckets n queues
    → AreBuckets n (deliver_to payload u queues)
unfolding deliver_to
deliver_to-AreBuckets n payload u queues h = go (lookup u queues) refl
  where
    go :
        (o : Option Conns)
        → lookup u queues ≡ o
        → AreBuckets n
            (elim o [ none ↦ queues | some conns ↦ insert u (deliver payload conns) queues ])
    go none e = h
    go (some conns) e =
        let found = lookup-Every (IsBucket n) u conns queues h.1 e in
        let size : 1 ≤ length (deliver payload conns) =
          ground (arith, found.1, length-deliver payload conns) in
        insert-AreBuckets n u (deliver payload conns) queues
          (deliver-AreConns n payload conns found.0, size) h

deliver_all-AreBuckets :
    (n : ℕ) (payload : Text) (targets : List Text) (queues : Dict Text Conns)
    → AreBuckets n queues
    → AreBuckets n (deliver_all payload targets queues)
unfolding deliver_all
deliver_all-AreBuckets n payload [] queues h = h
deliver_all-AreBuckets n payload (t ∷ ts) queues h =
    deliver_all-AreBuckets n payload ts (deliver_to payload t queues)
      (deliver_to-AreBuckets n payload t queues h)

Every-later : (n m : ℕ) (conns : Conns) → n ≤ m → Every (IsConn n) conns → Every (IsConn m) conns
Every-later n m [] l h = tt
Every-later n m ((i, q) ∷ conns) l h = ((ground (arith, h.0), h.0.1), Every-later n m conns l h.1)

AreBuckets-later :
    (n m : ℕ) (queues : Dict Text Conns)
    → n ≤ m
    → Every (IsBucket n) queues
    → Every (IsBucket m) queues
AreBuckets-later n m [] l h = tt
AreBuckets-later n m ((u, conns) ∷ queues) l h =
    (((h.0.0.0, Every-later n m conns l h.0.0.1), h.0.1), AreBuckets-later n m queues l h.1)

insert-nonempty : (c : ℕ) (q : List Text) (conns : Conns) → 1 ≤ length (insert c q conns)
insert-nonempty c q [] = omega arith
insert-nonempty c q ((i, p) ∷ conns) = ground arith

insert-IsBucket :
    (n c : ℕ) (u : Text) (q : List Text) (conns : Conns)
    → c ≤ n
    → length q ≤ queue_maxsize
    → AreConns n conns
    → IsBucket n u (insert c q conns)
insert-IsBucket n c u q conns l s h = (
  (insert-IsDict c q conns h.0, insert-Every (IsConn n) c q conns (l, s) h.1),
  insert-nonempty c q conns,
)

subscribe-IsValid : (u : Text) (b : Broadcaster) → IsValid b → IsValid (subscribe u b).0
unfolding subscribe
subscribe-IsValid u b h =
    let n = b.next_conn_id + 1 in
    let later = AreBuckets-later b.next_conn_id n b.queues (omega arith) h.1 in
    insert-AreBuckets n u (insert n [] (conns_of u b.queues)) b.queues
      (insert-IsBucket n n u [] (conns_of u b.queues) (omega arith) (omega arith)
        (AreConns-conns_of n u b.queues later))
      (h.0, later)

broadcast-IsValid :
    (payload : Text) (targets : List Text) (b : Broadcaster)
    → IsValid b
    → IsValid (broadcast payload targets b)
unfolding broadcast
broadcast-IsValid payload targets b h =
    deliver_all-AreBuckets b.next_conn_id payload targets b.queues h

receive-IsValid : (u : Text) (c : ℕ) (b : Broadcaster) → IsValid b → IsValid (receive u c b).0
unfolding receive
receive-IsValid u c b h = go (lookup c (conns_of u b.queues)) refl
  where
    go :
        (o : Option (List Text))
        → lookup c (conns_of u b.queues) ≡ o
        → IsValid (receive_from u c b o).0
    go none e = h
    go (some []) e = h
    go (some (p ∷ q)) e =
        let n = b.next_conn_id in
        let conns = AreConns-conns_of n u b.queues h.1 in
        let found = lookup-Every (IsConn n) c (p ∷ q) (conns_of u b.queues) conns.1 e in
        insert-AreBuckets n u (insert c q (conns_of u b.queues)) b.queues
          (insert-IsBucket n c u q (conns_of u b.queues) found.0 (ground (arith, found.1)) conns) h

close-IsValid : (u : Text) (c : ℕ) (b : Broadcaster) → IsValid b → IsValid (close u c b)
unfolding close
close-IsValid u c b h = go (erase c (conns_of u b.queues)) left
  where
    n : ℕ
    n = b.next_conn_id

    conns : AreConns n (conns_of u b.queues)
    conns = AreConns-conns_of n u b.queues h.1

    left : AreConns n (erase c (conns_of u b.queues))
    left = (
      erase-IsDict c (conns_of u b.queues) conns.0,
      erase-Every (IsConn n) c (conns_of u b.queues) conns.1,
    )

    go :
        (rest : Conns)
        → AreConns n rest
        → IsValid (elim rest [
          | [] ↦ record b { queues = erase u b.queues }
          | k ∷ ks ↦ record b { queues = insert u (k ∷ ks) b.queues }
        ])
    go [] k = (erase-IsDict u b.queues h.0, erase-Every (IsBucket n) u b.queues h.1)
    go (x ∷ xs) k = insert-AreBuckets n u (x ∷ xs) b.queues (k, omega arith) h

-- One operation of the event loop.
pub data Op : Type 0 where
  subscribed : Text → Op
  sent : Text → List Text → Op
  awaited : Text → ℕ → Op
  closed : Text → ℕ → Op

unfoldable pub perform : Op → Broadcaster → Broadcaster
perform (subscribed u) b = (subscribe u b).0
perform (sent payload targets) b = broadcast payload targets b
perform (awaited u c) b = (receive u c b).0
perform (closed u c) b = close u c b

unfoldable pub run : List Op → Broadcaster → Broadcaster
run [] b = b
run (op ∷ ops) b = run ops (perform op b)

perform-IsValid : (op : Op) (b : Broadcaster) → IsValid b → IsValid (perform op b)
unfolding perform
perform-IsValid (subscribed u) b h = subscribe-IsValid u b h
perform-IsValid (sent payload targets) b h = broadcast-IsValid payload targets b h
perform-IsValid (awaited u c) b h = receive-IsValid u c b h
perform-IsValid (closed u c) b h = close-IsValid u c b h

run-IsValid : (ops : List Op) (b : Broadcaster) → IsValid b → IsValid (run ops b)
unfolding run
run-IsValid [] b h = h
run-IsValid (op ∷ ops) b h = run-IsValid ops (perform op b) (perform-IsValid op b h)

-- Whatever is subscribed, broadcast, received and closed, in any order, no user and no
-- connection is registered twice, no user is kept without a connection, each connection has an
-- id that has been given out, and no queue is longer than its maximal size.
pub run-new_broadcaster-IsValid : (ops : List Op) → IsValid (run ops new_broadcaster)
run-new_broadcaster-IsValid ops = run-IsValid ops new_broadcaster (tt, tt)
