-- ===== src/Gateway/Correlation.antt =====
-- services/api-gateway/app/middleware/correlation.py: the request id.
use microservices_project.Prelude.{
  ℕ, zero, suc, ◌+◌, ◌≤◌, ◌≡◌, refl, ◌⊎◌, inl, inr, Bool, true, ◌||◌, Option, none, some, [], ◌∷◌,
  arith, ◌==◌, if◌then◌else◌, Bool-cases, length, All, nat_eq,
}
use microservices_project.Prelude.Text.{Text}
use microservices_project.Gateway.RateLimiter.{is_word, matches_set}

-- `[\w\-]`
abbrev pub is_id_char : (ℕ → Bool) → ℕ → Bool
is_id_char unicode c = is_word unicode c || c == 45

-- `_sanitize_or_generate`; `generated` is the text of a new UUID. A header that is absent or empty
-- matches nothing.
unfoldable pub sanitize_or_generate : (ℕ → Bool) → Option Text → Text → Text
unfolding matches_set
sanitize_or_generate unicode none generated = generated
sanitize_or_generate unicode (some raw) generated =
    if matches_set (is_id_char unicode) 128 raw then raw else generated

matches_set-bounds :
    (set : ℕ → Bool) (n : ℕ) (s : Text)
    → matches_set set n s ≡ true
    → (length s ≤ n + 1) × All (λ c. (set c ≡ true) ⊎ (c ≡ 10)) s
unfolding matches_set
matches_set-bounds set n [] e = cc
matches_set-bounds set zero (c ∷ s) e = cc
matches_set-bounds set (suc n) (c ∷ []) e = ground arith
matches_set-bounds set (suc n) (c ∷ d ∷ []) e = ground (arith, matches_set-bounds set n (d ∷ []))
matches_set-bounds set (suc n) (c ∷ d ∷ x ∷ s) e =
    ground (arith, matches_set-bounds set n (d ∷ x ∷ s))

-- A request id is the generated one, or has at most 129 characters, each in the allowed set or a
-- newline.
pub sanitize_or_generate_safe :
    (unicode : ℕ → Bool) (raw : Option Text) (generated : Text)
    → let id = sanitize_or_generate unicode raw generated in
      (id ≡ generated)
      ⊎ ((length id ≤ 129) × All (λ c. (is_id_char unicode c ≡ true) ⊎ (c ≡ 10)) id)
unfolding sanitize_or_generate
sanitize_or_generate_safe unicode none generated = inl refl
sanitize_or_generate_safe unicode (some raw) generated =
    elim (Bool-cases (matches_set (is_id_char unicode) 128 raw)) [
      | inl good ↦
          rw (good, sanitize_or_generate)
            (inr (matches_set-bounds (is_id_char unicode) 128 raw good))
      | inr bad ↦ rw (bad, sanitize_or_generate) (inl refl)
    ]
