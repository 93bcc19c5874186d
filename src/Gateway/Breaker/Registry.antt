-- ===== src/Gateway/Breaker/Registry.antt =====
-- services/api-gateway/app/circuit_breaker.py: `CircuitBreakerRegistry`, a dict of shared
-- breakers. A write through the object that `get` returns is `put`.
use microservices_project.Prelude.{ℕ, ◌≡◌, ◌≢◌, none, some, List, [], ◌∷◌, arith}
use microservices_project.Prelude.Text.{Text, text_beq_iff, text_eq}
use microservices_project.Prelude.Dict.{Dict, lookup, insert, lookup-insert}
use microservices_project.Gateway.Breaker.{CircuitState, CircuitBreaker, new_breaker, read_state}

abbrev pub Registry : Type 0
Registry = Dict Text CircuitBreaker

-- The registry after the call, and the breaker.
unfoldable pub get : Text → Registry → Registry × CircuitBreaker
get name r = elim (lookup name r) [
  | none ↦ (insert name (new_breaker name) r, new_breaker name)
  | some b ↦ (r, b)
]

unfoldable pub put : Text → CircuitBreaker → Registry → Registry
put name b r = insert name b r

-- `all_states()`, whose reads of the `state` property move breakers on.
unfoldable pub all_states : ℕ → Registry → Registry × List (Text × CircuitState)
all_states now [] = ([], [])
all_states now ((n, b) ∷ r) =
    let b' = read_state now b in
    let (r', states) = all_states now r in ((n, b') ∷ r', (n, b'.state) ∷ states)

module _ (name : Text) where
  pub lookup-put_ne :
      (other : Text) (b : CircuitBreaker) (r : Registry)
      → other ≢ name
      → lookup other (put name b r) ≡ lookup other r
  unfolding put
  lookup-put_ne other b r ne = ground (arith, lookup-insert name other b r, text_beq_iff name other)

  pub lookup-get_ne :
      (other : Text) (r : Registry) → other ≢ name → lookup other (get name r).0 ≡ lookup other r
  unfolding get
  lookup-get_ne other r ne =
      ground (arith, lookup-insert name other (new_breaker name) r, text_beq_iff name other)

  -- `get` stores the breaker that it returns: asked again it returns the same one, and what was
  -- written through it comes back.
  pub get_shared :
      (b : CircuitBreaker) (r : Registry)
      → (get name (get name r).0 ≡ get name r) × ((get name (put name b (get name r).0)).1 ≡ b)
  unfolding get put
  get_shared b r = ground (
    arith,
    lookup-insert name name (new_breaker name) r,
    lookup-insert name name b (get name r).0,
    text_beq_iff name name,
  )
