-- ===== src/Gateway/RateLimiter/Budget.antt =====
-- services/api-gateway/app/middleware/rate_limiter.py: what `dispatch` answers.
use microservices_project.Prelude.{
  ℕ, ◌-◌, ◌≤◌, ◌≡◌, Bool, true, false, not, ◌||◌, some, List, [], ◌∷◌, ◌++◌, arith, ltb,
  if◌then◌else◌, length, elem, nat_eq,
}
use Prim.Native.Nat.{min}
use microservices_project.Prelude.Text.{Text, text_eq}
use microservices_project.Gateway.RateLimiter.{
  Buckets, check_and_increment, Limits, Answer, exempt, forwarded, too_many, ip_limit, ip_key,
  answer, dispatch, exempt_paths,
}
use microservices_project.Gateway.RateLimiter.Window.{bucket_after, in_window, IsSorted}
use microservices_project.Gateway.RateLimiter.Tracking.{bucket_of, check_and_increment_counts}

-- Whether a request went through, and what its headers say is left.
abbrev pub is_forwarded : Answer → Bool
is_forwarded (forwarded h) = true
is_forwarded exempt = true
is_forwarded (too_many r h) = false

abbrev pub remaining_of : Answer → ℕ
remaining_of (forwarded h) = h.remaining
remaining_of exempt = 0
remaining_of (too_many r h) = h.remaining

abbrev pub limit_of : Answer → ℕ
limit_of (forwarded h) = h.limit
limit_of exempt = 0
limit_of (too_many r h) = h.limit

-- For an authenticated request either budget alone makes a 429, which reports the IP budget if
-- that one is spent. A response that goes through reports the tighter of the two remainders, and
-- the limit that it is the remainder of.
pub answer_reports :
    (l : Limits) (limit now ip_count user_count : ℕ) (ip_over user_over : Bool)
    → let a = answer l limit now (ip_over, ip_count) (some (user_over, user_count)) in
      let ip_left = limit - ip_count in
      let user_left = l.user_max_requests - user_count in
      (is_forwarded a ≡ not (ip_over || user_over))
      × (is_forwarded a ≡ true → remaining_of a ≡ min ip_left user_left)
      × (is_forwarded a ≡ true
          → limit_of a ≡ (if ltb user_left ip_left then l.user_max_requests else limit))
      × (is_forwarded a ≡ false
          → (remaining_of a ≡ 0) × (limit_of a ≡ (if ip_over then limit else l.user_max_requests)))
unfolding answer
answer_reports l limit now ip_count user_count ip_over user_over = ground arith

-- With the in-memory store, where times do not go back and the IP bucket is the one that its
-- requests so far have left: a request that is forwarded on a path that is limited is, with the
-- earlier ones of its IP bucket, also those that were rejected, at most the limit of the path in
-- the window that ends now.
pub dispatch-le-limit :
    (l : Limits) (now wall : ℕ) (path client_ip user_id : Text) (ts : List ℕ) (s : Buckets)
    → elem path exempt_paths ≡ false
    → IsSorted (ts ++ now ∷ [])
    → bucket_of (ip_key path client_ip) s ≡ bucket_after l.window_seconds [] ts
    → is_forwarded (dispatch (check_and_increment now) l wall path client_ip user_id s).1 ≡ true
    → length (in_window l.window_seconds now (ts ++ now ∷ [])) ≤ ip_limit l path
unfolding dispatch
dispatch-le-limit l now wall path client_ip [] ts s ne ord known f =
    let counted =
      check_and_increment_counts now (ip_key path client_ip) (ip_limit l path) l.window_seconds ts s
        ord known in
    ground arith
dispatch-le-limit l now wall path client_ip (c ∷ cs) ts s ne ord known f =
    let counted =
      check_and_increment_counts now (ip_key path client_ip) (ip_limit l path) l.window_seconds ts s
        ord known in
    ground arith
