-- ===== src/Task/Idempotency.antt =====
-- services/task-service/app/idempotency.py: the cache of the responses to `create_task`. The Redis
-- client is a parameter, which may be out of reach at a call; what it stores, the JSON of a status
-- and a body, is the pair. The text of a UUID, `str(caller_id)`, is a parameter too.
use microservices_project.Prelude.{
  ℕ, ◌*◌, Bool, Option, none, ◌∷◌, ◌++◌, if◌then◌else◌, take, nat_eq,
}
use microservices_project.Prelude.Text.{Text, codes, strip}
use microservices_project.Redis.{Redis}

abbrev pub idempotency_ttl_seconds : ℕ
idempotency_ttl_seconds = 60 * 60 * 24

module _ (uuid_str : ℕ → Text) where
  unfoldable pub make_key : ℕ → Text → Text
  make_key caller_id idempotency_key =
      let safe_key = take 128 (strip idempotency_key) in
      codes "idempotency:" ++ uuid_str caller_id ++ 58 ∷ safe_key

  module _ {R C : Type 0} (redis : Redis (ℕ × R) C) where
    unfoldable pub get_cached_response : Bool → ℕ → Text → C → Option (ℕ × R)
    get_cached_response connected caller_id idempotency_key cache =
        if connected then redis.get (make_key caller_id idempotency_key) cache else none

    unfoldable pub cache_response : Bool → ℕ → Text → ℕ → R → C → C
    cache_response connected caller_id idempotency_key status_code body cache =
        if connected
        then redis.setex (make_key caller_id idempotency_key) idempotency_ttl_seconds
            (status_code, body) cache
        else cache
