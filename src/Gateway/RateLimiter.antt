-- ===== src/Gateway/RateLimiter.antt =====
-- services/api-gateway/app/middleware/rate_limiter.py. Clocks count ticks, so the test
-- `t < now - window` is written as `t + window < now`.
pub mod Window
pub mod Tracking
pub mod Budget
use microservices_project.Prelude.{
  ℕ, zero, suc, ◌+◌, ◌-◌, ◌*◌, ◌≤◌, ◌<◌, ◌≡◌, refl, sym, ap, ◌∙◌, ◌≢◌, ◌↔◌, ◌⊎◌, inl, inr, Bool,
  true, false, not, ◌&&◌, ◌||◌, Option, none, some, List, [], ◌∷◌, ◌++◌, map, arith, ltb, leb, ◌==◌,
  if◌then◌else◌, Bool-cases, Option-cases, length, All, elem, get_elem?, take, filter, tests, Eq,
  nat_eq,
}
use microservices_project.Prelude.{drop}
use microservices_project.Prelude.Text.{Text, text_eq, codes, strip}
use microservices_project.Prelude.Dict.{Dict, lookup, insert, erase}

abbrev pub max_tracked_ips : ℕ
max_tracked_ips = 10000

abbrev auth_paths : List Text
auth_paths = codes "/api/v1/auth/login" ∷ codes "/api/v1/auth/register" ∷ []

abbrev pub exempt_paths : List Text
exempt_paths = codes "/health" ∷ codes "/health/ready" ∷ codes "/metrics" ∷ []

-- `\w` on ASCII; the rest of Unicode is a parameter.
abbrev pub is_word : (ℕ → Bool) → ℕ → Bool
is_word unicode c =
    (leb 48 c && leb c 57)
    || (leb 65 c && leb c 90)
    || (leb 97 c && leb c 122)
    || c == 95
    || (leb 128 c && unicode c)

-- `[\w:.\[\]%-]`
abbrev is_ip_char : (ℕ → Bool) → ℕ → Bool
is_ip_char unicode c =
    is_word unicode c || c == b':' || c == b'.' || c == b'[' || c == b']' || c == b'%' || c == b'-'

-- Whether `^[set]{1,n}$` matches: `$` also matches before a final newline.
unfoldable pub matches_set : (ℕ → Bool) → ℕ → Text → Bool
matches_set set n [] = false
matches_set set zero (c ∷ s) = false
matches_set set (suc n) (c ∷ []) = set c
matches_set set (suc n) (c ∷ d ∷ []) =
    let more = matches_set set n (d ∷ []) in set c && (d == 10 || more)
matches_set set (suc n) (c ∷ d ∷ e ∷ s) = let more = matches_set set n (d ∷ e ∷ s) in set c && more

abbrev or_unknown : Option Text → Text
or_unknown none = codes "unknown"
or_unknown (some host) = host

-- `_extract_client_ip`, from the header and the peer's address; `none` is a request with no peer.
unfoldable pub extract_client_ip : (ℕ → Bool) → Text → Option Text → Text
unfolding matches_set strip
extract_client_ip unicode x_real_ip client =
    let real_ip = strip x_real_ip in
    let fallback = or_unknown client in
    if matches_set (is_ip_char unicode) 64 real_ip
    then real_ip
    else if matches_set (is_ip_char unicode) 64 fallback
    then fallback
    else codes "unknown"

-- `_InMemoryStore._buckets`, the least recently used first.
abbrev pub Buckets : Type 0
Buckets = Dict Text (List ℕ)

unfoldable pub get_bucket : Text → Buckets → Buckets × List ℕ
get_bucket key s = elim (lookup key s) [
  | some bucket ↦ (erase key s ++ (key, bucket) ∷ [], bucket)
  | none ↦ ((if leb max_tracked_ips (length s) then drop 1 s else s) ++ (key, []) ∷ [], [])
]

-- The `while` loop that drops what has left the window.
unfoldable pub prune : ℕ → ℕ → List ℕ → List ℕ
prune window now [] = []
prune window now (t ∷ bucket) =
    let rest = prune window now bucket in if ltb (t + window) now then rest else t ∷ bucket

unfoldable pub hit : ℕ → ℕ → List ℕ → List ℕ
unfolding prune
hit window now bucket = prune window now bucket ++ now ∷ []

-- `_InMemoryStore.check_and_increment`: the deque in the dict is the one that is changed.
unfoldable pub check_and_increment : ℕ → Text → ℕ → ℕ → Buckets → Buckets × (Bool × ℕ)
unfolding get_bucket hit
check_and_increment now key limit window s =
    let (s', bucket) = get_bucket key s in
    let bucket' = hit window now bucket in
    let count = length bucket' in (insert key bucket' s', (ltb limit count, count))

-- `_RedisStore.check_and_increment`, from the cardinality that the transaction reports, or an
-- exception.
unfoldable pub redis_verdict : ℕ → Option ℕ → Bool × ℕ
redis_verdict limit none = (false, 0)
redis_verdict limit (some count) = (ltb limit count, count)

-- The arguments of `RateLimiterMiddleware`.
pub record Limits : Type 0 where
  pub max_requests : ℕ
  pub window_seconds : ℕ
  pub auth_max_requests : ℕ
  pub user_max_requests : ℕ

pub data Scope : Type 0 where
  ip user : Scope

-- The rate headers of a response.
pub record RateHeaders : Type 0 where
  pub limit : ℕ
  pub remaining : ℕ
  pub reset : ℕ
  pub scope : Scope

-- A path that is not limited, a response of the application with rate headers, or a 429.
pub data Answer : Type 0 where
  exempt : Answer
  forwarded : RateHeaders → Answer
  too_many : (retry_after : ℕ) → RateHeaders → Answer

abbrev pub ip_limit : Limits → Text → ℕ
ip_limit l path = if elem path auth_paths then l.auth_max_requests else l.max_requests

-- The two keys, with the prefix of the scope.
abbrev pub ip_key : Text → Text → Text
ip_key path client_ip =
    (if elem path auth_paths then codes "rate:auth:" else codes "rate:general:") ++ client_ip

abbrev pub user_key : Text → Text
user_key user_id = codes "rate:user:" ++ user_id

-- The end of `dispatch`, from the two verdicts; `user` is the user's, if there is one.
unfoldable pub answer : Limits → ℕ → ℕ → Bool × ℕ → Option (Bool × ℕ) → Answer
answer l ip_limit now (ip_over, ip_count) none =
    let reset = now + l.window_seconds in
    if ip_over
    then too_many l.window_seconds
        (record { limit = ip_limit; remaining = 0; reset = reset; scope = ip })
    else forwarded
        (record { limit = ip_limit; remaining = ip_limit - ip_count; reset = reset; scope = ip })
answer l ip_limit now (ip_over, ip_count) (some (user_over, user_count)) =
    let reset = now + l.window_seconds in
    let ip_remaining = ip_limit - ip_count in
    let user_remaining = l.user_max_requests - user_count in
    if ip_over || user_over
    then too_many l.window_seconds (record {
      limit = if ip_over then ip_limit else l.user_max_requests;
      remaining = 0;
      reset = reset;
      scope = if ip_over then ip else user;
    })
    else if ltb user_remaining ip_remaining
    then forwarded (record {
      limit = l.user_max_requests;
      remaining = user_remaining;
      reset = reset;
      scope = user;
    })
    else forwarded
        (record { limit = ip_limit; remaining = ip_remaining; reset = reset; scope = ip })

-- The middleware over a store: `check key limit window` is `store.check_and_increment`. `now` is
-- the wall clock in seconds; an empty user id is a request that is not authenticated.
module _ {S : Type 0} (check : Text → ℕ → ℕ → S → S × (Bool × ℕ)) (l : Limits) where
  unfoldable pub dispatch : ℕ → Text → Text → Text → S → S × Answer
  unfolding answer
  dispatch now path client_ip user_id s =
      let limit = ip_limit l path in
      let (s1, by_ip) = check (ip_key path client_ip) limit l.window_seconds s in
      let (s2, by_user) = check (user_key user_id) l.user_max_requests l.window_seconds s1 in
      if elem path exempt_paths then (s, exempt) else elim user_id [
        | [] ↦ (s1, answer l limit now by_ip none)
        | c ∷ cs ↦ (s2, answer l limit now by_ip (some by_user))
      ]
