-- ===== src/Redis.antt =====
-- The Redis client that the services share, as far as they use it: `redis.asyncio`, which is not
-- part of the repository. A client has values of one type, and its state holds the clock.
use microservices_project.Prelude.{ℕ, ◌<◌, ◌≡◌, Option, some}
use microservices_project.Prelude.Text.{Text}

-- `get` and `setex`; the state after a write, and what a read finds.
pub record Redis (V C : Type 0) : Type 0 where
  pub get : Text → C → Option V
  pub setex : Text → (seconds : ℕ) → V → C → C

-- What is documented of them: a value that is set to live for a while is there at once.
pub record Laws {V C : Type 0} (redis : Redis V C) : Type 0 where
  pub read_back :
      (key : Text) (seconds : ℕ) (v : V) (c : C)
      → 0 < seconds
      → redis.get key (redis.setex key seconds v c) ≡ some v
