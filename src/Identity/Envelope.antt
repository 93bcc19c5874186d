-- ===== src/Identity/Envelope.antt =====
-- services/_shared_identity_signing.py: the signed string and what it determines.
use microservices_project.Prelude.{◌≡◌, ◌≢◌, [], ◌∷◌, ◌++◌, arith, All, nat_eq}
use microservices_project.Prelude.Text.{Text}
use mathlib.Core.List.{append_assoc}
use microservices_project.Identity.{canonical, bar}

-- A text without the separator.
abbrev pub NoBar : Text → Type 0
NoBar = All (λ c. c ≢ bar)

-- The part before the first bar is determined.
split_at_bar :
    (s t u v : Text) → NoBar s → NoBar t → s ++ (bar ∷ u) ≡ t ++ (bar ∷ v) → (s ≡ t) × (u ≡ v)
split_at_bar [] [] u v hs ht e = ground arith
split_at_bar [] (d ∷ t) u v hs ht e = ground arith
split_at_bar (c ∷ s) [] u v hs ht e = ground arith
split_at_bar (c ∷ s) (d ∷ t) u v hs ht e = ground (arith, split_at_bar s t u v hs.1 ht.1)

-- Where the user id, the email and the roles hold no `|`, the signed string determines all four
-- fields.
pub canonical-injective :
    (i e r t i' e' r' t' : Text)
    → NoBar i
    → NoBar e
    → NoBar r
    → NoBar i'
    → NoBar e'
    → NoBar r'
    → canonical i e r t ≡ canonical i' e' r' t'
    → (i ≡ i') × (e ≡ e') × (r ≡ r') × (t ≡ t')
unfolding canonical
canonical-injective i e r t i' e' r' t' hi he hr ki ke kr eq =
    let a = split_at_bar i i' _ _ hi ki eq in
    let b = split_at_bar e e' _ _ he ke a.1 in
    let c = split_at_bar r r' _ _ hr kr b.1 in (a.0, b.0, c.0, c.1)

-- With a `|` in the email the signed string does not: the text behind it may as well be the
-- beginning of the roles.
pub canonical_shift :
    (i e x r t : Text) → canonical i (e ++ (bar ∷ x)) r t ≡ canonical i e (x ++ (bar ∷ r)) t
unfolding canonical
canonical_shift i e x r t = simp append_assoc
