-- ===== src/Chaos/Hub/Streams.antt =====
-- services/chaos-controller/app/events.py: what the stream of a subscription reads, in which order.
use mathlib.Core.List.{append_assoc, append-nil}
use microservices_project.Prelude.{
  ℕ, ◌<◌, ◌≡◌, refl, sym, ap, ◌∙◌, inl, inr, Bool, true, false, ◌&&◌, List, [], ◌∷◌, ◌++◌, arith,
  ◌==◌, if◌then◌else◌, Bool-cases, elem, nat_eq,
}
use microservices_project.Prelude.Text.{Text}
use microservices_project.Chaos.Hub.{
  EventHub, new_hub, subscribe, unsubscribe, has_room, publish, take_line, next_line,
}
use microservices_project.Chaos.Hub.Publishing.{
  IsNumbered, put_all_queues, Use, join, leave, send, listen, use_once, use_hub,
  use_once-IsNumbered, use_hub-IsNumbered,
}

module _ (number : ℕ) where
  -- The line that an event puts into the queue: one that is published while the subscription is there
  -- and the queue has room.
  abbrev pub puts : Use → EventHub → List Text
  puts join h = []
  puts (leave m) h = []
  puts (send line) h =
      if elem number h.subscribers && has_room (h.queues number) then line ∷ [] else []
  puts (listen m) h = []

  abbrev pub oldest : List Text → List Text
  oldest [] = []
  oldest (line ∷ lines) = line ∷ []

  -- The line that the stream reads: the oldest one.
  abbrev pub gets : Use → EventHub → List Text
  gets join h = []
  gets (leave m) h = []
  gets (send line) h = []
  gets (listen m) h = if m == number then oldest (h.queues number) else []

  unfoldable pub all_put : List Use → EventHub → List Text
  all_put [] h = []
  all_put (u ∷ us) h = puts u h ++ all_put us (use_once u h)

  unfoldable pub all_read : List Use → EventHub → List Text
  all_read [] h = []
  all_read (u ∷ us) h = gets u h ++ all_read us (use_once u h)

  listened :
      (m : ℕ) (h : EventHub) (lines : List Text)
      → h.queues m ≡ lines
      → h.queues number
        ≡ (if m == number then oldest (h.queues number) else [])
          ++ (take_line [] m h lines).0.queues number
  listened m h [] e = elim (Bool-cases (m == number)) [
    | inl hit ↦
        let at : m ≡ number = (nat_eq.beq_iff m number).0 hit in
        let empty : h.queues number ≡ [] = ap h.queues (sym at) ∙ e in
        ground (arith, hit, empty, ap oldest empty)
    | inr apart ↦ ground (arith, apart)
  ]
  listened m h (line ∷ lines) e = elim (Bool-cases (m == number)) [
    | inl hit ↦
        let at : m ≡ number = (nat_eq.beq_iff m number).0 hit in
        let full : h.queues number ≡ line ∷ lines = ap h.queues (sym at) ∙ e in
        let own : (number == m) ≡ true = (nat_eq.beq_iff number m).1 (sym at) in
        ground (arith, hit, full, own, ap oldest full)
    | inr apart ↦ ground (arith, apart, nat_eq.beq_iff number m, nat_eq.beq_iff m number)
  ]

  sent :
      (line : Text) (b : Bool) (q : List Text)
      → q ++ (if b then line ∷ [] else []) ≡ (if b then q ++ line ∷ [] else q)
  sent line true q = refl
  sent line false q = append-nil q

  -- One event leaves the order as it is: what was in the queue and is put into it is what is read and
  -- what is in it then.
  step_order :
      (u : Use) (h : EventHub)
      → IsNumbered h
      → number < h.next
      → h.queues number ++ puts u h ≡ gets u h ++ (use_once u h).queues number
  unfolding use_once subscribe unsubscribe publish next_line
  step_order join h n old =
      let other : (number == h.next) ≡ false = ground (arith, old) in
      append-nil (h.queues number) ∙ sym (ap (λ b. if b then [] else h.queues number) other)
  step_order (leave m) h n old = append-nil (h.queues number)
  step_order (send line) h n old =
      sent line (elem number h.subscribers && has_room (h.queues number)) (h.queues number)
      ∙ sym (put_all_queues line number h.subscribers h.queues n.distinct)
  step_order (listen m) h n old = append-nil (h.queues number) ∙ listened m h (h.queues m) refl

  still_known :
      (m : ℕ) (h : EventHub) (lines : List Text)
      → number < h.next
      → number < (take_line [] m h lines).0.next
  still_known m h [] old = old
  still_known m h (line ∷ lines) old = old

  known_next : (u : Use) (h : EventHub) → number < h.next → number < (use_once u h).next
  unfolding use_once subscribe unsubscribe publish next_line
  known_next join h old = omega (arith, old)
  known_next (leave m) h old = old
  known_next (send line) h old = old
  known_next (listen m) h old = still_known m h (h.queues m) old

  run_order :
      (us : List Use) (h : EventHub)
      → IsNumbered h
      → number < h.next
      → h.queues number ++ all_put us h ≡ all_read us h ++ (use_hub us h).queues number
  unfolding all_put all_read use_hub
  run_order [] h n old = append-nil (h.queues number)
  run_order (u ∷ us) h n old =
      let h' = use_once u h in
      let q = h'.queues number in
      sym (append_assoc (h.queues number) (puts u h) (all_put us h'))
      ∙ ap (λ l. l ++ all_put us h') (step_order u h n old)
      ∙ append_assoc (gets u h) q (all_put us h')
      ∙ ap (λ l. gets u h ++ l) (run_order us h' (use_once-IsNumbered u h n) (known_next u h old))
      ∙ sym (append_assoc (gets u h) (all_read us h') ((use_hub us h').queues number))

pub stream_order :
    (before after : List Use)
    → let (h, number) = subscribe (use_hub before new_hub) in
      all_read number after h ++ (use_hub after h).queues number ≡ all_put number after h
unfolding subscribe
stream_order before after =
    let h = use_hub before new_hub in
    let h' = (subscribe h).0 in
    let n : IsNumbered h =
      use_hub-IsNumbered before new_hub (record { distinct = refl; before = tt }) in
    let n' : IsNumbered h' = unfold use_once in use_once-IsNumbered join h n in
    let own : (h.next == h.next) ≡ true = (nat_eq.beq_iff h.next h.next).1 refl in
    let empty : h'.queues h.next ≡ [] = ap (λ b. if b then [] else h.queues h.next) own in
    sym (run_order h.next after h' n' (omega arith)) ∙ ap (λ q. q ++ all_put h.next after h') empty
