-- ===== src/Gateway/RateLimiter/Tracking.antt =====
-- services/api-gateway/app/middleware/rate_limiter.py: the in-memory store of buckets.
use microservices_project.Prelude.{
  ℕ, ◌-◌, ◌≤◌, ◌<◌, ◌≡◌, refl, ◌≢◌, ◌⊎◌, inl, inr, true, none, some, List, [], ◌∷◌, ◌++◌, arith,
  ltb, ◌==◌, if◌then◌else◌, Option-cases, length, nat_eq,
}
use microservices_project.Prelude.{drop, length-append}
use microservices_project.Prelude.Text.{Text, text_eq, text_beq_iff}
use microservices_project.Prelude.Dict.{
  lookup, insert, erase, contains, IsDict, lookup-insert, lookup-erase, insert-IsDict, erase-IsDict,
  length-erase_present,
}
use microservices_project.Gateway.RateLimiter.{
  Buckets, max_tracked_ips, get_bucket, hit, check_and_increment,
}
use microservices_project.Gateway.RateLimiter.Window.{
  bucket_after, in_window, final, IsSorted, bucket_after-in_window,
}

-- At most the configured number of keys, none twice.
pub record IsValid (s : Buckets) : Type 0 where
  pub bounded : length s ≤ max_tracked_ips
  pub distinct : IsDict s

-- The bucket of a key; an untracked one is empty.
abbrev pub bucket_of : Text → Buckets → List ℕ
bucket_of key s = elim (lookup key s) [ none ↦ [] | some bucket ↦ bucket ]

lookup-append_one :
    (key other : Text) (b : List ℕ) (s : Buckets)
    → lookup key s ≡ none
    → lookup other (s ++ (key, b) ∷ []) ≡ (if key == other then some b else lookup other s)
lookup-append_one key other b [] n = refl
lookup-append_one key other b ((j, c) ∷ s) n = ground (
  arith,
  lookup-append_one key other b s,
  text_beq_iff j key,
  text_beq_iff j other,
  text_beq_iff key other,
)

append_one-IsDict :
    (key : Text) (b : List ℕ) (s : Buckets)
    → lookup key s ≡ none
    → IsDict s
    → IsDict (s ++ (key, b) ∷ [])
append_one-IsDict key b [] n d = (refl, tt)
append_one-IsDict key b ((j, c) ∷ s) n d = ground (
  arith,
  append_one-IsDict key b s,
  lookup-append_one key j b s,
  text_beq_iff j key,
  text_beq_iff key j,
)

length-insert_present :
    (key : Text) (b : List ℕ) (s : Buckets)
    → contains key s ≡ true
    → length (insert key b s) ≡ length s
length-insert_present key b [] h = cc
length-insert_present key b ((j, c) ∷ s) h = ground (arith, length-insert_present key b s)

room-lookup : (key : Text) (s : Buckets) → lookup key s ≡ none → lookup key (drop 1 s) ≡ none
room-lookup key [] n = refl
room-lookup key ((j, c) ∷ s) n = ground arith

room-IsDict : (s : Buckets) → IsDict s → IsDict (drop 1 s)
room-IsDict [] d = tt
room-IsDict (e ∷ s) d = d.1

length-room : (s : Buckets) → length (drop 1 s) ≡ length s - 1
length-room [] = omega arith
length-room (e ∷ s) = omega arith

erased : (key : Text) (s : Buckets) → lookup key (erase key s) ≡ none
erased key s = ground (arith, lookup-erase key key s, text_beq_iff key key)

get_bucket-IsValid : (key : Text) (s : Buckets) → IsValid s → IsValid (get_bucket key s).0
unfolding get_bucket
get_bucket-IsValid key s v = elim (Option-cases (lookup key s)) [
  | inl new ↦ ground (
    arith,
    append_one-IsDict key [] s new,
    append_one-IsDict key [] (drop 1 s) (room-lookup key s new),
    room-IsDict s,
    length-room s,
    length-append s ((key, []) ∷ []),
    length-append (drop 1 s) ((key, []) ∷ []),
  )
  | inr (b, old) ↦ ground (
    arith,
    append_one-IsDict key b (erase key s) (erased key s),
    erase-IsDict key s,
    length-erase_present key s,
    length-append (erase key s) ((key, b) ∷ []),
  )
]

get_bucket_lem :
    (key : Text) (s : Buckets)
    → ((get_bucket key s).1 ≡ bucket_of key s) × (contains key (get_bucket key s).0 ≡ true)
unfolding get_bucket
get_bucket_lem key s = elim (Option-cases (lookup key s)) [
  | inl new ↦ ground (
    arith,
    lookup-append_one key key [] s new,
    lookup-append_one key key [] (drop 1 s) (room-lookup key s new),
    text_beq_iff key key,
  )
  | inr (b, old) ↦
      ground (arith, lookup-append_one key key b (erase key s) (erased key s), text_beq_iff key key)
]

get_bucket_others :
    (key other : Text) (s : Buckets)
    → other ≢ key
    → (contains key s ≡ true) ⊎ (length s < max_tracked_ips)
    → lookup other (get_bucket key s).0 ≡ lookup other s
unfolding get_bucket
get_bucket_others key other s ne h = elim (Option-cases (lookup key s)) [
  | inl new ↦ ground (arith, lookup-append_one key other [] s new, text_beq_iff key other)
  | inr (b, old) ↦ ground (
    arith,
    lookup-append_one key other b (erase key s) (erased key s),
    lookup-erase key other s,
    text_beq_iff key other,
  )
]

bucket_after-append :
    (window : ℕ) (b ts : List ℕ) (now : ℕ)
    → bucket_after window b (ts ++ now ∷ []) ≡ hit window now (bucket_after window b ts)
unfolding bucket_after
bucket_after-append window b [] now = refl
bucket_after-append window b (t ∷ ts) now = bucket_after-append window (hit window t b) ts now

final-append : (last now : ℕ) (ts : List ℕ) → final last (ts ++ now ∷ []) ≡ now
final-append last now [] = refl
final-append last now (t ∷ ts) = final-append t now ts

-- A check keeps the store valid: it tracks no more keys than the limit, and none twice.
pub check_and_increment-IsValid :
    (now : ℕ) (key : Text) (limit window : ℕ) (s : Buckets)
    → IsValid s
    → IsValid (check_and_increment now key limit window s).0
unfolding check_and_increment
check_and_increment-IsValid now key limit window s v =
    let g = get_bucket-IsValid key s v in
    record {
      bounded = omega (
        arith,
        length-insert_present key (hit window now (get_bucket key s).1) (get_bucket key s).0
            (get_bucket_lem key s).1,
      );
      distinct = insert-IsDict key _ (get_bucket key s).0 g.distinct;
    }

-- If the key's bucket is that of its requests so far, at times that do not go back, the check
-- counts exactly the requests of the window that ends now, this one included, rejects iff they
-- are more than the limit, and leaves the bucket of the requests with this one.
pub check_and_increment_counts :
    (now : ℕ) (key : Text) (limit window : ℕ) (ts : List ℕ) (s : Buckets)
    → IsSorted (ts ++ now ∷ [])
    → bucket_of key s ≡ bucket_after window [] ts
    → let (s', (limited, count)) = check_and_increment now key limit window s in
      (count ≡ length (in_window window now (ts ++ now ∷ [])))
      × (limited ≡ ltb limit count)
      × (bucket_of key s' ≡ bucket_after window [] (ts ++ now ∷ []))
unfolding check_and_increment
check_and_increment_counts now key limit window ts s ord known =
    let after = bucket_after-in_window window (ts ++ now ∷ []) ord in
    ground (
      arith,
      get_bucket_lem key s,
      bucket_after-append window [] ts now,
      final-append 0 now ts,
      lookup-insert key key (hit window now (get_bucket key s).1) (get_bucket key s).0,
      text_beq_iff key key,
    )

-- A check of a key that is tracked, or of a new one below the limit of keys, leaves the buckets
-- of all other keys alone.
pub check_and_increment_others :
    (now : ℕ) (key other : Text) (limit window : ℕ) (s : Buckets)
    → other ≢ key
    → (contains key s ≡ true) ⊎ (length s < max_tracked_ips)
    → lookup other (check_and_increment now key limit window s).0 ≡ lookup other s
unfolding check_and_increment
check_and_increment_others now key other limit window s ne h = ground (
  arith,
  get_bucket_others key other s ne h,
  lookup-insert key other (hit window now (get_bucket key s).1) (get_bucket key s).0,
  text_beq_iff key other,
)
