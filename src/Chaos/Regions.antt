-- ===== src/Chaos/Regions.antt =====
-- services/chaos-controller/app/cluster.py: the pods before and after a zone fails.
use microservices_project.Prelude.{
  ℕ, ◌+◌, ◌≤◌, ◌<◌, ◌≡◌, refl, ap, ◌∙◌, Bool, true, false, List, [], ◌∷◌, ◌++◌, map, arith, ltb,
  if◌then◌else◌, length, All, elem, filter, nat_eq,
}
use microservices_project.Prelude.{are_distinct, All-append, length-append}
use microservices_project.Prelude.Text.{Text, text_eq}
use microservices_project.Chaos.Cluster.{
  Floats, ServiceName, terminating, PodState, turn_ready, turn_off,
}
use microservices_project.Chaos.Pods.{names, IsReady, elem-append, distinct_append, names-append}
use microservices_project.Chaos.Actions.{new_pod}
use microservices_project.Chaos.Cascades.{edit_even, is_kept, refill}
use microservices_project.Chaos.Steady.{PodsUp}

distinct_cons :
    (x : Text) (xs : List Text)
    → are_distinct (x ∷ xs) ≡ true
    → elem x xs ≡ false × are_distinct xs ≡ true
distinct_cons x xs h = ground arith

cons_distinct :
    (x : Text) (xs : List Text)
    → elem x xs ≡ false
    → are_distinct xs ≡ true
    → are_distinct (x ∷ xs) ≡ true
cons_distinct x xs h d = ground arith

module _ {F : Type 0} where
  -- Every second pod, from the second on: those of the other zone.
  abbrev odd : List (PodState F) → List (PodState F)
  odd [] = []
  odd (p ∷ []) = []
  odd (p ∷ q ∷ ps) = q ∷ odd ps

  survivors :
      (ps : List (PodState F)) → All IsReady ps → filter is_kept (edit_even turn_off ps) ≡ odd ps
  survivors [] up = refl
  survivors (p ∷ []) up = refl
  survivors (p ∷ q ∷ ps) up =
      let stays : is_kept q ≡ true =
        ap (λ phase. elim phase [ terminating ↦ false | _ ↦ true ]) up.1.0.0 in
      let rest = filter is_kept (edit_even turn_off ps) in
      ap (λ b. if b then q ∷ rest else rest) stays ∙ ap (λ l. q ∷ l) (survivors ps up.1.1)

  odd-IsReady : (ps : List (PodState F)) → All IsReady ps → All IsReady (odd ps)
  odd-IsReady [] up = tt
  odd-IsReady (p ∷ []) up = tt
  odd-IsReady (p ∷ q ∷ ps) up = (up.1.0, odd-IsReady ps up.1.1)

  odd_absent :
      (x : Text) (ps : List (PodState F))
      → elem x (names ps) ≡ false
      → elem x (names (odd ps)) ≡ false
  odd_absent x [] h = refl
  odd_absent x (p ∷ []) h = refl
  odd_absent x (p ∷ q ∷ ps) h = ground (arith, odd_absent x ps)

  odd_distinct :
      (ps : List (PodState F))
      → are_distinct (names ps) ≡ true
      → are_distinct (names (odd ps)) ≡ true
  odd_distinct [] h = refl
  odd_distinct (p ∷ []) h = refl
  odd_distinct (p ∷ q ∷ ps) h =
      let (alone, rest) =
        distinct_cons q.name (names ps) (distinct_cons p.name (names (q ∷ ps)) h).1 in
      cons_distinct q.name (names (odd ps)) (odd_absent q.name ps alone) (odd_distinct ps rest)

  grown_names :
      (q : PodState F) (ps : List (PodState F))
      → elem q.name (names ps) ≡ false
      → are_distinct (names ps) ≡ true
      → are_distinct (names (ps ++ q ∷ [])) ≡ true
  grown_names q ps fresh named =
      ap are_distinct (names-append ps (q ∷ [])) ∙ distinct_append (names ps) q.name named fresh

  chosen :
      (b : Bool) (desired : ℕ) (ps qs : List (PodState F))
      → PodsUp desired ps
      → (b ≡ false → PodsUp desired qs)
      → PodsUp desired (if b then ps else qs)
  chosen true desired ps qs up other = up
  chosen false desired ps qs up other = other refl

module _ {F : Type 0} (fl : Floats F) (n : ServiceName) where
  abbrev pub new_names : List Text → List Text
  new_names suffixes = map (λ suffix. (new_pod fl n suffix).name) suffixes

  -- Names that are not taken and not taken twice.
  pub AreFresh : List Text → List (PodState F) → Type 0
  AreFresh [] ps = Unit
  AreFresh (suffix ∷ suffixes) ps =
      (elem (new_pod fl n suffix).name (names ps) ≡ false)
      × (elem (new_pod fl n suffix).name (new_names suffixes) ≡ false)
      × AreFresh suffixes ps

  later :
      (suffixes : List Text) (q : PodState F) (ps : List (PodState F))
      → elem q.name (new_names suffixes) ≡ false
      → AreFresh suffixes ps
      → AreFresh suffixes (ps ++ q ∷ [])
  unfolding AreFresh
  later [] q ps h fresh = tt
  later (suffix ∷ suffixes) q ps h fresh =
      let name = (new_pod fl n suffix).name in
      let other : elem name (names (ps ++ q ∷ [])) ≡ false = ground (
        arith,
        fresh.0,
        ap (elem name) (names-append ps (q ∷ [])),
        elem-append name (names ps) (q.name ∷ []),
        text_eq.beq_iff name q.name,
        text_eq.beq_iff q.name name,
      ) in
      (other, fresh.1, later suffixes q ps (ground (arith, h)) fresh.2)

  refill-PodsUp :
      (desired : ℕ) (suffixes : List Text) (ps : List (PodState F))
      → 0 < desired
      → All IsReady ps
      → are_distinct (names ps) ≡ true
      → AreFresh suffixes ps
      → desired ≤ length ps + length suffixes
      → PodsUp desired (refill fl n desired suffixes ps)
  unfolding AreFresh
  refill-PodsUp desired [] ps wanted ready named fresh enough = record {
    ready = ready;
    enough = omega (arith, enough);
    wanted = wanted;
    named = named;
  }
  refill-PodsUp desired (suffix ∷ suffixes) ps wanted ready named fresh enough =
      let q = turn_ready (new_pod fl n suffix) in
      let more =
        refill-PodsUp desired suffixes (ps ++ q ∷ []) wanted
          (All-append IsReady ps (q ∷ []) ready ((refl, refl), tt)) (grown_names q ps fresh.0 named)
          (later suffixes q ps fresh.1 fresh.2)
          (omega (arith, enough, length-append ps (q ∷ []))) in
      chosen (ltb (length ps) desired) desired _ ps more (λ full. record {
        ready = ready;
        enough = ground (arith, full);
        wanted = wanted;
        named = named;
      })

  odd_fresh :
      (suffixes : List Text) (ps : List (PodState F))
      → AreFresh suffixes ps
      → AreFresh suffixes (odd ps)
  unfolding AreFresh
  odd_fresh [] ps fresh = tt
  odd_fresh (suffix ∷ suffixes) ps fresh =
      (odd_absent (new_pod fl n suffix).name ps fresh.0, fresh.1, odd_fresh suffixes ps fresh.2)

  -- The pods are up again after the zone has failed, when as many suffixes are drawn as may be wanted.
  pub restore_zone-PodsUp :
      (desired : ℕ) (suffixes : List Text) (ps : List (PodState F))
      → PodsUp desired ps
      → AreFresh suffixes ps
      → desired ≤ length suffixes
      → PodsUp desired (refill fl n desired suffixes (filter is_kept (edit_even turn_off ps)))
  restore_zone-PodsUp desired suffixes ps up fresh enough =
      let other =
        refill-PodsUp desired suffixes (odd ps) up.wanted (odd-IsReady ps up.ready)
          (odd_distinct ps up.named) (odd_fresh suffixes ps fresh) (omega (arith, enough)) in
      rw (survivors ps up.ready) (other)
