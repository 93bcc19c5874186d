-- ===== src/Prelude/Dict.antt =====
-- A Python dict: an association list in insertion order. `d[k] = v` on a present key keeps its
-- place, and `del` or `pop` of a key removes its entry.
use mathlib.Core.Path.{◌≡◌, refl, sym, subst}
use mathlib.Core.Logic.{◌≢◌}
use mathlib.Core.Bool.{Bool, true, false}
use mathlib.Core.List.{List, [], ◌∷◌}
use mathlib.Core.Option.{Option, none, some}
use native.Mathlib.Omega.{arith}
use Prim.Native.Nat.{◌+◌, ◌≤◌}
use microservices_project.Prelude.Tests.{if◌then◌else◌, Eq, ◌==◌}
use microservices_project.Prelude.Lists.{length}

abbrev pub Dict {ℓ κ} : Type ℓ → Type κ → Type (ℓ ⊔ κ)
Dict K V = List (K × V)

module _ {ℓ} {K : Type ℓ} ⦃e : Eq K⦄ where
  pub beq_refl : (k : K) → (k == k) ≡ true
  beq_refl k = (e.beq_iff k k).1 refl

  pub beq_ne : (k j : K) → k ≢ j → (k == j) ≡ false
  beq_ne k j h = ground (arith, e.beq_iff k j)

module _ {ℓ κ} {K : Type ℓ} {V : Type κ} ⦃e : Eq K⦄ where
  abbrev pub lookup : K → Dict K V → Option V
  lookup k [] = none
  lookup k ((j, v) ∷ d) = if j == k then some v else lookup k d

  abbrev pub contains : K → Dict K V → Bool
  contains k d = elim (lookup k d) [ none ↦ false | some _ ↦ true ]

  abbrev pub insert : K → V → Dict K V → Dict K V
  insert k v [] = (k, v) ∷ []
  insert k v ((j, w) ∷ d) = if j == k then (j, v) ∷ d else (j, w) ∷ insert k v d

  abbrev pub erase : K → Dict K V → Dict K V
  erase k [] = []
  erase k ((j, w) ∷ d) = let rest = erase k d in if j == k then rest else (j, w) ∷ rest

  pub lookup-insert :
      (k j : K) (v : V) (d : Dict K V)
      → lookup j (insert k v d) ≡ (if k == j then some v else lookup j d)
  lookup-insert k j v [] = refl
  lookup-insert k j v ((i, w) ∷ d) =
      ground (arith, e.beq_iff k j, e.beq_iff i k, e.beq_iff i j, lookup-insert k j v d)

  pub lookup-erase :
      (k j : K) (d : Dict K V) → lookup j (erase k d) ≡ (if k == j then none else lookup j d)
  lookup-erase k j [] = ground arith
  lookup-erase k j ((i, w) ∷ d) =
      ground (arith, e.beq_iff k j, e.beq_iff i k, e.beq_iff i j, lookup-erase k j d)

  -- No key is listed twice.
  abbrev pub IsDict : Dict K V → Type 0
  IsDict [] = Unit
  IsDict ((k, v) ∷ d) = (contains k d ≡ false) × IsDict d

  pub length-erase-le : (k : K) (d : Dict K V) → length (erase k d) ≤ length d
  length-erase-le k [] = omega arith
  length-erase-le k ((j, w) ∷ d) = ground (arith, length-erase-le k d)

  pub length-insert-le : (k : K) (v : V) (d : Dict K V) → length (insert k v d) ≤ length d + 1
  length-insert-le k v [] = omega arith
  length-insert-le k v ((j, w) ∷ d) = ground (arith, length-insert-le k v d)

  pub length-erase_present :
      (k : K) (d : Dict K V) → contains k d ≡ true → length (erase k d) + 1 ≤ length d
  length-erase_present k [] h = ground arith
  length-erase_present k ((j, w) ∷ d) h =
      ground (arith, length-erase_present k d, length-erase-le k d)

  pub insert-IsDict : (k : K) (v : V) (d : Dict K V) → IsDict d → IsDict (insert k v d)
  insert-IsDict k v [] h = (refl, tt)
  insert-IsDict k v ((j, w) ∷ d) h =
      ground (arith, insert-IsDict k v d h.1, lookup-insert k j v d, e.beq_iff j k, e.beq_iff k j)

  pub erase-IsDict : (k : K) (d : Dict K V) → IsDict d → IsDict (erase k d)
  erase-IsDict k [] h = tt
  erase-IsDict k ((j, w) ∷ d) h =
      ground (arith, erase-IsDict k d h.1, lookup-erase k j d, e.beq_iff j k, e.beq_iff k j)

-- Every entry of a dict is as a predicate says.
module _ {ℓ κ} {K : Type ℓ} {V : Type κ} ⦃e : Eq K⦄ (P : K → V → Type 0) where
  abbrev pub Every : Dict K V → Type 0
  Every [] = Unit
  Every ((k, v) ∷ d) = P k v × Every d

  insert_at :
      (k j : K) (v w : V) (d rest : Dict K V) (t : Bool)
      → (j == k) ≡ t
      → P k v
      → P j w
      → Every d
      → Every rest
      → Every (if t then (j, v) ∷ d else (j, w) ∷ rest)
  insert_at k j v w d rest false e' p q h r = (q, r)
  insert_at k j v w d rest true e' p q h r = (subst (λ i. P i v) (sym ((e.beq_iff j k).0 e')) p, h)

  pub insert-Every : (k : K) (v : V) (d : Dict K V) → P k v → Every d → Every (insert k v d)
  insert-Every k v [] p h = (p, tt)
  insert-Every k v ((j, w) ∷ d) p h =
      insert_at k j v w d (insert k v d) (j == k) refl p h.0 h.1 (insert-Every k v d p h.1)

  keep_at :
      (j : K) (w : V) (rest : Dict K V) (t : Bool)
      → P j w
      → Every rest
      → Every (if t then rest else (j, w) ∷ rest)
  keep_at j w rest false q r = (q, r)
  keep_at j w rest true q r = r

  pub erase-Every : (k : K) (d : Dict K V) → Every d → Every (erase k d)
  erase-Every k [] h = tt
  erase-Every k ((j, w) ∷ d) h = keep_at j w (erase k d) (j == k) h.0 (erase-Every k d h.1)

  read_at :
      (k j : K) (v w : V) (rest : Option V) (t : Bool)
      → (j == k) ≡ t
      → P j w
      → (rest ≡ some v → P k v)
      → (if t then some w else rest) ≡ some v
      → P k v
  read_at k j v w rest false e' q r l = r l
  read_at k j v w rest true e' q r l =
      let there : w ≡ v = ground arith in
      subst (P k) there (subst (λ i. P i w) ((e.beq_iff j k).0 e') q)

  pub lookup-Every : (k : K) (v : V) (d : Dict K V) → Every d → lookup k d ≡ some v → P k v
  lookup-Every k v [] h l = absurd (ground arith)
  lookup-Every k v ((j, w) ∷ d) h l =
      read_at k j v w (lookup k d) (j == k) refl h.0 (lookup-Every k v d h.1) l
