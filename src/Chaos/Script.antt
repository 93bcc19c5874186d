-- ===== src/Chaos/Script.antt =====
-- services/chaos-controller/app/cluster.py: a coroutine that changes a state between its waits. Other
-- coroutines run at a wait only, so the text from one wait to the next is one step.
use microservices_project.Prelude.{ℕ, zero, suc, List, [], ◌∷◌, nat_eq}
use microservices_project.Prelude.Text.{Text}

-- What an action publishes; the messages and narrations in between are left out.
pub data Event : Type 0 where
  started : (action : Text) → Event
  completed : (action : Text) → Event
  warned : Event

pub data Script (S F A : Type 0) : Type 0 where
  ret : A → Script S F A
  read : (S → Script S F A) → Script S F A
  modify : (S → S) → Script S F A → Script S F A
  wait : F → Script S F A → Script S F A
  publish : Event → Script S F A → Script S F A

infixl 5 ◌>>=◌ ◌>>◌
abbrev pub ◌>>=◌ : {S F A B : Type 0} → Script S F A → (A → Script S F B) → Script S F B
ret a >>= f = f a
read k >>= f = read (λ s. k s >>= f)
modify g k >>= f = modify g (k >>= f)
wait t k >>= f = wait t (k >>= f)
publish e k >>= f = publish e (k >>= f)

abbrev pub ◌>>◌ : {S F B : Type 0} → Script S F (Unit {0}) → Script S F B → Script S F B
m >> k = m >>= λ _. k

module _ {S F : Type 0} where
  abbrev pub get : Script S F S
  get = read (λ s. ret s)

  abbrev pub change : (S → S) → Script S F (Unit {0})
  change f = modify f (ret tt)

  abbrev pub sleep : F → Script S F (Unit {0})
  sleep secs = wait secs (ret tt)

  abbrev pub emit : Event → Script S F (Unit {0})
  emit e = publish e (ret tt)

  -- A loop of `n` rounds.
  abbrev pub repeat : ℕ → Script S F (Unit {0}) → Script S F (Unit {0})
  repeat zero m = ret tt
  repeat (suc n) m = m >> repeat n m

  -- The whole coroutine, with what the others do to the state during each of its waits, in order.
  unfoldable pub run : {A : Type 0} → (ℕ → S → S) → Script S F A → S → S × List Event
  run between (ret a) s = (s, [])
  run between (read k) s = run between (k s) s
  run between (modify f k) s = run between k (f s)
  run between (wait t k) s = run (λ i. between (suc i)) k (between 0 s)
  run between (publish e k) s = let (s', es) = run between k s in (s', e ∷ es)

  -- One step: up to the next wait.
  unfoldable pub advance : {A : Type 0} → Script S F A → S → S × Script S F A
  advance (ret a) s = (s, ret a)
  advance (read k) s = advance (k s) s
  advance (modify f k) s = advance k (f s)
  advance (wait t k) s = (s, k)
  advance (publish e k) s = advance k s

  -- The coroutines in the order in which they are resumed, each named by its place.
  unfoldable pub advance_at :
      ℕ → List (Script S F (Unit {0})) → S → S × List (Script S F (Unit {0}))
  advance_at i [] s = (s, [])
  advance_at zero (m ∷ ms) s = let (s', m') = advance m s in (s', m' ∷ ms)
  advance_at (suc i) (m ∷ ms) s = let (s', ms') = advance_at i ms s in (s', m ∷ ms')

  unfoldable pub interleave :
      List ℕ → List (Script S F (Unit {0})) → S → S × List (Script S F (Unit {0}))
  interleave [] ms s = (s, ms)
  interleave (i ∷ is) ms s = let (s', ms') = advance_at i ms s in interleave is ms' s'
