-- ===== src/Gateway/RateLimiter/Window.antt =====
-- services/api-gateway/app/middleware/rate_limiter.py: one bucket against the history of its
-- requests.
use mathlib.Core.List.{append-nil, append_assoc}
use microservices_project.Prelude.{
  ℕ, ◌+◌, ◌≤◌, ◌≡◌, refl, ◌∙◌, inl, inr, List, [], ◌∷◌, ◌++◌, arith, leb, if◌then◌else◌, Bool-cases,
  All, nat_eq,
}
use microservices_project.Gateway.RateLimiter.{prune, hit}

-- The requests, oldest first, that are not before the window that ends now.
unfoldable pub in_window : ℕ → ℕ → List ℕ → List ℕ
in_window window now [] = []
in_window window now (t ∷ ts) =
    let rest = in_window window now ts in if leb now (t + window) then t ∷ rest else rest

-- The clock does not go back.
abbrev pub IsSorted : List ℕ → Type 0
IsSorted [] = Unit
IsSorted (t ∷ ts) = All (λ u. t ≤ u) ts × IsSorted ts

-- The bucket after the requests of a history.
unfoldable pub bucket_after : ℕ → List ℕ → List ℕ → List ℕ
bucket_after window bucket [] = bucket
bucket_after window bucket (t ∷ ts) = bucket_after window (hit window t bucket) ts

-- The time of the last request.
abbrev pub final : ℕ → List ℕ → ℕ
final last [] = last
final last (t ∷ ts) = final t ts

from_zero : (ts : List ℕ) → All (λ u. 0 ≤ u) ts
from_zero [] = tt
from_zero (t ∷ ts) = (omega arith, from_zero ts)

module _ (window : ℕ) where
  in_window_keeps :
      (now t : ℕ) (ts : List ℕ)
      → now ≤ t + window
      → All (λ u. t ≤ u) ts
      → in_window window now ts ≡ ts
  unfolding in_window
  in_window_keeps now t [] h a = refl
  in_window_keeps now t (u ∷ ts) h a = ground (arith, in_window_keeps now t ts h a.1)

  -- On an ordered deque the loop keeps what is in the window.
  prune-in_window :
      (now : ℕ) (ts : List ℕ) → IsSorted ts → prune window now ts ≡ in_window window now ts
  unfolding prune in_window
  prune-in_window now [] s = refl
  prune-in_window now (t ∷ ts) s =
      ground (arith, prune-in_window now ts s.1, in_window_keeps now t ts)

  in_window-append :
      (now : ℕ) (xs ys : List ℕ)
      → in_window window now (xs ++ ys) ≡ in_window window now xs ++ in_window window now ys
  unfolding in_window
  in_window-append now [] ys = refl
  in_window-append now (x ∷ xs) ys = ground (arith, in_window-append now xs ys)

  -- What has left an earlier window is in no later one.
  in_window-in_window :
      (now later : ℕ) (ts : List ℕ)
      → now ≤ later
      → in_window window later (in_window window now ts) ≡ in_window window later ts
  unfolding in_window
  in_window-in_window now later [] h = refl
  in_window-in_window now later (t ∷ ts) h = ground (arith, in_window-in_window now later ts h)

  in_window-All :
      (P : ℕ → Type 0) (now : ℕ) (ts : List ℕ) → All P ts → All P (in_window window now ts)
  unfolding in_window
  in_window-All P now [] a = tt
  in_window-All P now (t ∷ ts) a = elim (Bool-cases (leb now (t + window))) [
    | inl y ↦ rw y (a.0, in_window-All P now ts a.1)
    | inr n ↦ rw n (in_window-All P now ts a.1)
  ]

  in_window-IsSorted : (now : ℕ) (ts : List ℕ) → IsSorted ts → IsSorted (in_window window now ts)
  unfolding in_window
  in_window-IsSorted now [] s = tt
  in_window-IsSorted now (t ∷ ts) s = elim (Bool-cases (leb now (t + window))) [
    | inl y ↦ rw y (in_window-All (λ u. t ≤ u) now ts s.0, in_window-IsSorted now ts s.1)
    | inr n ↦ rw n (in_window-IsSorted now ts s.1)
  ]

  in_window_now : (now : ℕ) → in_window window now (now ∷ []) ≡ now ∷ []
  unfolding in_window
  in_window_now now = ground arith

  -- A bucket that holds the window of a history holds, after one more request, the window of the
  -- history with that request.
  hit-in_window :
      (last now : ℕ) (ts : List ℕ)
      → IsSorted ts
      → last ≤ now
      → hit window now (in_window window last ts) ≡ in_window window now (ts ++ now ∷ [])
  unfolding hit
  hit-in_window last now ts s h = rw (
    prune-in_window now (in_window window last ts) (in_window-IsSorted last ts s),
    in_window-in_window last now ts h,
    in_window-append,
    in_window_now,
  )

  IsSorted-append : (xs : List ℕ) (now : ℕ) (ys : List ℕ) → IsSorted (xs ++ now ∷ ys) → IsSorted xs
  IsSorted-append [] now ys s = tt
  IsSorted-append (x ∷ xs) now ys s = (All-prefix xs now ys s.0, IsSorted-append xs now ys s.1)
    where
      All-prefix :
          (us : List ℕ) (n : ℕ) (vs : List ℕ)
          → All (λ u. x ≤ u) (us ++ n ∷ vs)
          → All (λ u. x ≤ u) us
      All-prefix [] n vs a = tt
      All-prefix (u ∷ us) n vs a = (a.0, All-prefix us n vs a.1)

  from_history :
      (last : ℕ) (before ts : List ℕ)
      → IsSorted (before ++ ts)
      → IsSorted (last ∷ ts)
      → bucket_after window (in_window window last before) ts
        ≡ in_window window (final last ts) (before ++ ts)
  unfolding bucket_after
  from_history last before [] s k = rw append-nil
  from_history last before (t ∷ ts) s k =
      rw (hit-in_window last t before (IsSorted-append before t ts s) k.0.0)
        (from_history t (before ++ t ∷ []) ts (rw append_assoc s) k.1 ∙ rw append_assoc)

  -- After requests at times that do not go back, the bucket holds exactly those of the window
  -- that ends with the last one.
  pub bucket_after-in_window :
      (ts : List ℕ) → IsSorted ts → bucket_after window [] ts ≡ in_window window (final 0 ts) ts
  unfolding in_window
  bucket_after-in_window ts s = from_history 0 [] ts s (from_zero ts, s)
