-- ===== src/Task/Routes/Replay.antt =====
-- services/task-service/app/routes/tasks.py and idempotency.py: a repeated `create_task`.
use microservices_project.Prelude.{
  ℕ, ◌≡◌, refl, sym, ap, ◌∙◌, true, false, Option, none, some, [], ◌∷◌, ◌++◌, arith, length, take,
  nat_eq, Result, ok, err,
}
use microservices_project.Prelude.{drop}
use microservices_project.Prelude.Text.{Text, codes, strip, text_eq}
use microservices_project.Redis.{Redis, Laws}
use microservices_project.Task.Models.{Project, TaskCreate}
use microservices_project.Task.Idempotency.{
  idempotency_ttl_seconds, make_key, get_cached_response, cache_response,
}
use microservices_project.Task.Routes.{
  HttpError, Body, Store, Env, Reply, cached, new_task, remember, finish_create, replay_or_create,
  create_task, get_owned_project,
}

drop_prefix : (p s t : Text) → p ++ s ≡ p ++ t → s ≡ t
drop_prefix [] s t e = e
drop_prefix (c ∷ p) s t e = drop_prefix p s t (ap (λ l. drop 1 l) e)

-- Texts of the same length before what follows them.
split_at : (a b s t : Text) → length a ≡ length b → a ++ s ≡ b ++ t → (a ≡ b) × (s ≡ t)
split_at [] [] s t l e = (refl, e)
split_at [] (d ∷ b) s t l e = absurd (omega arith)
split_at (c ∷ a) [] s t l e = absurd (omega arith)
split_at (c ∷ a) (d ∷ b) s t l e =
    let rest = split_at a b s t (omega arith) (ap (λ l. drop 1 l) e) in
    let same : c ≡ d = ground arith in (ap (λ x. x ∷ a) same ∙ ap (λ l. d ∷ l) rest.0, rest.1)

module _ (uuid_str : ℕ → Text) (uuid_length : (i : ℕ) → length (uuid_str i) ≡ 36)
    (uuid_injective : (i j : ℕ) → uuid_str i ≡ uuid_str j → i ≡ j) where
  -- Where the texts of UUIDs have 36 characters and differ for different UUIDs: two entries have
  -- one key only if they are of the same caller, for keys that agree on their first 128 characters
  -- past the white space.
  pub make_key-injective :
      (caller caller' : ℕ) (key key' : Text)
      → make_key uuid_str caller key ≡ make_key uuid_str caller' key'
      → (caller ≡ caller') × (take 128 (strip key) ≡ take 128 (strip key'))
  unfolding make_key
  make_key-injective caller caller' key key' e =
      let prefix = codes "idempotency:" in
      let a = 58 ∷ take 128 (strip key) in
      let b = 58 ∷ take 128 (strip key') in
      let e' = drop_prefix prefix (uuid_str caller ++ a) (uuid_str caller' ++ b) e in
      let parts =
        split_at (uuid_str caller) (uuid_str caller') a b
          (uuid_length caller ∙ sym (uuid_length caller')) e' in
      (uuid_injective caller caller' parts.0, ap (λ l. drop 1 l) parts.1)

module _ (uuid_str : ℕ → Text) {C : Type 0} (redis : Redis (ℕ × Body) C) (laws : Laws redis) where
  -- What a creation leaves in the cache.
  cached_after :
      (env : Env) (payload : TaskCreate) (caller c : ℕ) (cs : Text) (s s' : Store C) (reply : Reply)
      → env.can_set ≡ true
      → reply.replay ≡ false
      → create_task uuid_str redis env payload caller (some (c ∷ cs)) s ≡ (s', ok reply)
      → redis.get (make_key uuid_str caller (c ∷ cs)) s'.cache
        ≡ some (reply.status_code, reply.body)
  unfolding create_task remember cache_response
  cached_after env payload caller c cs s s' reply set new =
      go (cached uuid_str redis env caller (some (c ∷ cs)) s)
    where
      Claim : Store C × Result HttpError Reply → Type 0
      Claim r =
          r ≡ (s', ok reply)
          → redis.get (make_key uuid_str caller (c ∷ cs)) s'.cache
            ≡ some (reply.status_code, reply.body)

      add :
          (r : Result HttpError Project)
          → Claim (finish_create uuid_str redis env payload caller (some (c ∷ cs)) s r)
      add (err e) h = absurd (ground arith)
      add (ok p) h =
          let entry : ℕ × Body = (201, (env.fresh_id, new_task payload caller env.now)) in
          let key = make_key uuid_str caller (c ∷ cs) in
          let put = laws.read_back key idempotency_ttl_seconds entry s.cache (omega arith) in
          ground (arith, put)

      go :
          (o : Option (ℕ × Body))
          → Claim (replay_or_create uuid_str redis env payload caller (some (c ∷ cs)) s o)
      go none h = add (get_owned_project payload.project_id caller s.db) h
      go (some (code, body)) h = absurd (ground arith)

  -- A second creation with the same key by the same caller, whatever it asks for, is answered by
  -- the status and the body of the first one, marked as a replay, and stores nothing: no second
  -- task and no second event. The first one succeeded without a replay, with the cache in reach
  -- for its write, and so is it for the read of the second, right after the first.
  pub create_task_replays :
      (env env' : Env) (payload payload' : TaskCreate) (caller c : ℕ) (cs : Text) (s s' : Store C)
      (reply : Reply)
      → env.can_set ≡ true
      → env'.can_get ≡ true
      → reply.replay ≡ false
      → create_task uuid_str redis env payload caller (some (c ∷ cs)) s ≡ (s', ok reply)
      → create_task uuid_str redis env' payload' caller (some (c ∷ cs)) s'
        ≡ (s', ok (record reply { replay = true }))
  unfolding create_task cached remember get_cached_response cache_response
  create_task_replays env env' payload payload' caller c cs s s' reply set get new e =
      let found = cached_after env payload caller c cs s s' reply set new e in
      ground (arith, found, get)
