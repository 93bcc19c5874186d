-- ===== src/Chaos/Hub/Publishing.antt =====
-- services/chaos-controller/app/events.py: who receives a line, and who is dropped.
use microservices_project.Prelude.{
  ℕ, ◌+◌, ◌<◌, ◌≡◌, refl, ap, ◌∙◌, ◌⊎◌, inl, inr, Bool, true, false, not, ◌&&◌, List, [], ◌∷◌, ◌++◌,
  arith, ◌==◌, if◌then◌else◌, Bool-cases, All, elem, nat_eq,
}
use microservices_project.Prelude.{are_distinct}
use microservices_project.Prelude.Text.{Text}
use microservices_project.Chaos.Hub.{
  Queues, set_queue, EventHub, new_hub, subscribe, unsubscribe, discard, has_room, put_all,
  discard_all, publish, take_line, next_line,
}

-- A subscriber is in the set once, and has a number smaller than the next one.
pub record IsNumbered (h : EventHub) : Type 0 where
  pub distinct : are_distinct h.subscribers ≡ true
  pub before : All (λ n. n < h.next) h.subscribers

put_all_room :
    (line : Text) (n : ℕ) (ns : List ℕ) (queues : Queues)
    → has_room (queues n) ≡ true
    → put_all line (n ∷ ns) queues ≡ put_all line ns (set_queue n (queues n ++ line ∷ []) queues)
unfolding put_all
put_all_room line n ns queues h = ground (arith, h)

put_all_full :
    (line : Text) (n : ℕ) (ns : List ℕ) (queues : Queues)
    → has_room (queues n) ≡ false
    → put_all line (n ∷ ns) queues ≡ ((put_all line ns queues).0, n ∷ (put_all line ns queues).1)
unfolding put_all
put_all_full line n ns queues h = ground (arith, h)

-- What a line does to a queue, if it is a subscriber's.
abbrev pub delivered : Text → Bool → List Text → List Text
delivered line subscribed lines = if subscribed && has_room lines then lines ++ line ∷ [] else lines

-- A number is the one in front, which is no other, or another one.
in_front :
    (m n : ℕ) (ns : List ℕ)
    → are_distinct (n ∷ ns) ≡ true
    → (m ≡ n × (m == n) ≡ true × elem m ns ≡ false) ⊎ ((m == n) ≡ false)
in_front m n ns h = elim (Bool-cases (m == n)) [
  | inl hit ↦
      let at : m ≡ n = (nat_eq.beq_iff m n).0 hit in
      let alone : elem n ns ≡ false = ground (arith, h) in
      inl (at, hit, ap (λ k. elem k ns) at ∙ alone)
  | inr apart ↦ inr apart
]

delivered_front :
    (line : Text) (m n : ℕ) (ns : List ℕ) (queues : Queues)
    → are_distinct (n ∷ ns) ≡ true
    → has_room (queues n) ≡ true
    → delivered line (elem m ns) (set_queue n (queues n ++ line ∷ []) queues m)
      ≡ delivered line (elem m (n ∷ ns)) (queues m)
delivered_front line m n ns queues h room = elim (in_front m n ns h) [
  | inl (at, hit, alone) ↦
      let same : queues m ≡ queues n = ap queues at in
      let roomy = ap has_room same ∙ room in
      ground (arith, hit, alone, roomy, ap (λ lines. lines ++ line ∷ []) same)
  | inr apart ↦ ground (arith, apart)
]

delivered_full :
    (line : Text) (m n : ℕ) (ns : List ℕ) (queues : Queues)
    → are_distinct (n ∷ ns) ≡ true
    → has_room (queues n) ≡ false
    → delivered line (elem m ns) (queues m) ≡ delivered line (elem m (n ∷ ns)) (queues m)
delivered_full line m n ns queues h full = elim (in_front m n ns h) [
  | inl (at, hit, alone) ↦
      let stuck = ap (λ k. has_room (queues k)) at ∙ full in ground (arith, hit, alone, stuck)
  | inr apart ↦ ground (arith, apart)
]

pub put_all_queues :
    (line : Text) (m : ℕ) (ns : List ℕ) (queues : Queues)
    → are_distinct ns ≡ true
    → (put_all line ns queues).0 m ≡ delivered line (elem m ns) (queues m)
put_all_queues line m [] queues h = unfold put_all in refl
put_all_queues line m (n ∷ ns) queues h = elim (Bool-cases (has_room (queues n))) [
  | inl room ↦
      let queues' = set_queue n (queues n ++ line ∷ []) queues in
      ap (λ p. p.0 m) (put_all_room line n ns queues room)
      ∙ put_all_queues line m ns queues' (ground (arith, h))
      ∙ delivered_front line m n ns queues h room
  | inr full ↦
      ap (λ p. p.0 m) (put_all_full line n ns queues full)
      ∙ put_all_queues line m ns queues (ground (arith, h))
      ∙ delivered_full line m n ns queues h full
]

dead_room :
    (line : Text) (m n : ℕ) (ns : List ℕ) (queues : Queues)
    → are_distinct (n ∷ ns) ≡ true
    → has_room (queues n) ≡ true
    → (elem m ns && not (has_room (set_queue n (queues n ++ line ∷ []) queues m)))
      ≡ (elem m (n ∷ ns) && not (has_room (queues m)))
dead_room line m n ns queues h room = elim (in_front m n ns h) [
  | inl (at, hit, alone) ↦
      let roomy = ap (λ k. has_room (queues k)) at ∙ room in ground (arith, hit, alone, roomy)
  | inr apart ↦ ground (arith, apart)
]

dead_full :
    (line : Text) (m n : ℕ) (ns : List ℕ) (queues : Queues)
    → are_distinct (n ∷ ns) ≡ true
    → has_room (queues n) ≡ false
    → elem m (put_all line ns queues).1 ≡ (elem m ns && not (has_room (queues m)))
    → elem m (n ∷ (put_all line ns queues).1) ≡ (elem m (n ∷ ns) && not (has_room (queues m)))
dead_full line m n ns queues h full rest = elim (in_front m n ns h) [
  | inl (at, hit, alone) ↦
      let stuck = ap (λ k. has_room (queues k)) at ∙ full in ground (arith, hit, stuck)
  | inr apart ↦ ground (arith, apart, rest)
]

put_all_dead :
    (line : Text) (m : ℕ) (ns : List ℕ) (queues : Queues)
    → are_distinct ns ≡ true
    → elem m (put_all line ns queues).1 ≡ (elem m ns && not (has_room (queues m)))
put_all_dead line m [] queues h = unfold put_all in refl
put_all_dead line m (n ∷ ns) queues h = elim (Bool-cases (has_room (queues n))) [
  | inl room ↦
      let queues' = set_queue n (queues n ++ line ∷ []) queues in
      ap (λ p. elem m p.1) (put_all_room line n ns queues room)
      ∙ put_all_dead line m ns queues' (ground (arith, h))
      ∙ dead_room line m n ns queues h room
  | inr full ↦
      ap (λ p. elem m p.1) (put_all_full line n ns queues full)
      ∙ dead_full line m n ns queues h full (put_all_dead line m ns queues (ground (arith, h)))
]

elem-discard : (m n : ℕ) (ns : List ℕ) → elem m (discard n ns) ≡ (elem m ns && not (m == n))
elem-discard m n [] = refl
elem-discard m n (k ∷ ns) = ground (
  arith,
  elem-discard m n ns,
  nat_eq.beq_iff k n,
  nat_eq.beq_iff m n,
  nat_eq.beq_iff m k,
  nat_eq.beq_iff k m,
)

elem-discard_all :
    (m : ℕ) (dead ns : List ℕ) → elem m (discard_all dead ns) ≡ (elem m ns && not (elem m dead))
unfolding discard_all
elem-discard_all m [] ns = ground arith
elem-discard_all m (n ∷ dead) ns = ground (
  arith,
  elem-discard_all m dead (discard n ns),
  elem-discard m n ns,
  nat_eq.beq_iff m n,
  nat_eq.beq_iff n m,
)

discard_distinct :
    (n : ℕ) (ns : List ℕ) → are_distinct ns ≡ true → are_distinct (discard n ns) ≡ true
discard_distinct n [] h = refl
discard_distinct n (k ∷ ns) h = ground (arith, discard_distinct n ns, elem-discard k n ns)

discard_before :
    (n next : ℕ) (ns : List ℕ) → All (λ k. k < next) ns → All (λ k. k < next) (discard n ns)
discard_before n next [] h = tt
discard_before n next (k ∷ ns) h = elim (Bool-cases (k == n)) [
  | inl gone ↦ rw gone (discard_before n next ns h.1)
  | inr kept ↦ rw kept ((h.0, discard_before n next ns h.1))
]

discard_all-IsNumbered :
    (dead ns : List ℕ) (next : ℕ)
    → are_distinct ns ≡ true
    → All (λ k. k < next) ns
    → are_distinct (discard_all dead ns) ≡ true × All (λ k. k < next) (discard_all dead ns)
unfolding discard_all
discard_all-IsNumbered [] ns next d b = (d, b)
discard_all-IsNumbered (n ∷ dead) ns next d b =
    discard_all-IsNumbered dead (discard n ns) next (discard_distinct n ns d)
      (discard_before n next ns b)

absent_append :
    (k : ℕ) (ns : List ℕ) (next : ℕ)
    → elem k ns ≡ false
    → (k == next) ≡ false
    → elem k (ns ++ next ∷ []) ≡ false
absent_append k [] next h e = ground (arith, e)
absent_append k (n ∷ ns) next h e = ground (arith, absent_append k ns next)

later_number :
    (next : ℕ) (ns : List ℕ)
    → are_distinct ns ≡ true
    → All (λ k. k < next) ns
    → are_distinct (ns ++ next ∷ []) ≡ true × All (λ k. k < next + 1) (ns ++ next ∷ [])
later_number next [] d b = (refl, (omega arith, tt))
later_number next (k ∷ ns) d b =
    let (distinct, before) = later_number next ns (ground (arith, d)) b.1 in
    let alone = absent_append k ns next (ground (arith, d)) (ground (arith, b.0)) in
    (ground (arith, alone, distinct), (omega (arith, b.0), before))

-- What happens to the hub: a client comes or goes, an event is published, a stream reads.
pub data Use : Type 0 where
  join : Use
  leave : (number : ℕ) → Use
  send : (line : Text) → Use
  listen : (number : ℕ) → Use

unfoldable pub use_once : Use → EventHub → EventHub
use_once join h = (subscribe h).0
use_once (leave number) h = unsubscribe number h
use_once (send line) h = publish line h
use_once (listen number) h = (next_line [] number h).0

unfoldable pub use_hub : List Use → EventHub → EventHub
use_hub [] h = h
use_hub (u ∷ us) h = use_hub us (use_once u h)

pub use_once-IsNumbered : (u : Use) (h : EventHub) → IsNumbered h → IsNumbered (use_once u h)
unfolding use_once subscribe unsubscribe publish next_line
use_once-IsNumbered join h n =
    let (distinct, before) = later_number h.next h.subscribers n.distinct n.before in
    record { distinct = distinct; before = before }
use_once-IsNumbered (leave number) h n = record {
  distinct = discard_distinct number h.subscribers n.distinct;
  before = discard_before number h.next h.subscribers n.before;
}
use_once-IsNumbered (send line) h n =
    let dead = (put_all line h.subscribers h.queues).1 in
    let (distinct, before) = discard_all-IsNumbered dead h.subscribers h.next n.distinct n.before in
    record { distinct = distinct; before = before }
use_once-IsNumbered (listen number) h n = listened (h.queues number)
  where
    listened : (lines : List Text) → IsNumbered (take_line [] number h lines).0
    listened [] = n
    listened (line ∷ rest) = record { distinct = n.distinct; before = n.before }

pub use_hub-IsNumbered : (us : List Use) (h : EventHub) → IsNumbered h → IsNumbered (use_hub us h)
unfolding use_hub
use_hub-IsNumbered [] h n = n
use_hub-IsNumbered (u ∷ us) h n = use_hub-IsNumbered us (use_once u h) (use_once-IsNumbered u h n)

stays : (b room : Bool) → (b && not (b && not room)) ≡ (b && room)
stays true true = refl
stays true false = refl
stays false room = refl

-- However a hub has been used since it was made, a line that is published is put at the end of the
-- queue of each subscriber that has room; a subscriber with a full queue is dropped, and keeps the
-- lines that are in its queue; every other queue and subscription stays as it was.
pub publish_exact :
    (us : List Use) (line : Text) (number : ℕ)
    → let h = use_hub us new_hub in
      let h' = publish line h in
      h'.queues number ≡ (
        if elem number h.subscribers && has_room (h.queues number)
        then h.queues number ++ line ∷ []
        else h.queues number)
      × elem number h'.subscribers ≡ (elem number h.subscribers && has_room (h.queues number))
unfolding publish
publish_exact us line number =
    let h = use_hub us new_hub in
    let n : IsNumbered h =
      use_hub-IsNumbered us new_hub (record { distinct = refl; before = tt }) in
    let subscribed = elem number h.subscribers in
    let dead = (put_all line h.subscribers h.queues).1 in
    (
      put_all_queues line number h.subscribers h.queues n.distinct,
      elem-discard_all number dead h.subscribers
          ∙ ap (λ b. subscribed && not b)
              (put_all_dead line number h.subscribers h.queues n.distinct)
          ∙ stays subscribed (has_room (h.queues number)),
    )
