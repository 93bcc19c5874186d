-- ===== src/Prelude/Decimal.antt =====
-- Integers in text: Python's `str(n)` and `int(s)` on ASCII digits.
use Prim.Native.Nat.{ℕ, zero, suc, ◌+◌, ◌-◌, ◌*◌, ◌/◌, ◌%◌, ◌≤◌, ◌<◌}
use mathlib.Core.Path.{◌≡◌, ap, sym, subst, ◌∙◌}
use mathlib.Core.Bool.{Bool, ◌&&◌}
use mathlib.Core.List.{[], ◌∷◌, ◌++◌}
use mathlib.Core.Option.{Option, none, some}
use mathlib.Core.Logic.{◌≢◌, inl, inr}
use native.Mathlib.Omega.{arith}
use microservices_project.Prelude.Tests.{if◌then◌else◌, nat_eq, ◌==◌, leb, ltb, ltb→lt, Bool-cases}
use microservices_project.Prelude.Lists.{All}
use microservices_project.Prelude.Text.{Text, strip, NoSpace, strip_plain}

-- `negsuc n` is -(n + 1).
pub data ℤ : Type 0 where
  pos : ℕ → ℤ
  negsuc : ℕ → ℤ

-- The digits of `n`, with fuel above `n`.
digits : ℕ → ℕ → Text
digits zero n = []
digits (suc f) n =
    let rest = digits f (n / 10) ++ (48 + n % 10) ∷ [] in if ltb n 10 then (48 + n) ∷ [] else rest

unfoldable pub str : ℕ → Text
unfolding digits
str n = digits (suc n) n

unfoldable pub str_ℤ : ℤ → Text
unfolding str
str_ℤ (pos n) = str n
str_ℤ (negsuc n) = 45 ∷ str (n + 1)

abbrev is_digit : ℕ → Bool
is_digit c = leb 48 c && leb c 57

-- The rest of a number after a digit: digits, with single underscores between digits.
read_digits : ℕ → Text → Option ℕ
read_digits acc [] = some acc
read_digits acc (c ∷ []) = if is_digit c then some (acc * 10 + (c - 48)) else none
read_digits acc (c ∷ d ∷ s) =
    let plain = read_digits (acc * 10 + (c - 48)) (d ∷ s) in
    let skipped = read_digits (acc * 10 + (d - 48)) s in
    if is_digit c then plain else if c == 95 && is_digit d then skipped else none

read_number : Text → Option ℕ
unfolding read_digits
read_number [] = none
read_number (c ∷ s) = if is_digit c then read_digits (c - 48) s else none

abbrev negate : ℕ → ℤ
negate zero = pos 0
negate (suc n) = negsuc n

read_signed : Text → Option ℤ
unfolding read_number
read_signed [] = none
read_signed (c ∷ s) =
    if c == 45
    then elim (read_number s) [ none ↦ none | some n ↦ some (negate n) ]
    else if c == 43
    then elim (read_number s) [ none ↦ none | some n ↦ some (pos n) ]
    else elim (read_number (c ∷ s)) [ none ↦ none | some n ↦ some (pos n) ]

-- `int(s)`; `none` is the `ValueError`.
unfoldable pub int_of : Text → Option ℤ
unfolding read_signed strip
int_of s = read_signed (strip s)

abbrev pub IsDigit : ℕ → Type 0
IsDigit c = (48 ≤ c) × (c ≤ 57)

digits-NoSpace : (s : Text) → All IsDigit s → NoSpace s
digits-NoSpace [] h = tt
digits-NoSpace (c ∷ s) h = (ground arith, digits-NoSpace s h.1)

read_digits-append :
    (s : Text) (acc n d : ℕ)
    → All IsDigit s
    → IsDigit d
    → read_digits acc s ≡ some n
    → read_digits acc (s ++ d ∷ []) ≡ some (n * 10 + (d - 48))
unfolding read_digits
read_digits-append [] acc n d h k e = ground arith
read_digits-append (c ∷ []) acc n d h k e = ground arith
read_digits-append (c ∷ c' ∷ s) acc n d h k e =
    ground (arith, read_digits-append (c' ∷ s) (acc * 10 + (c - 48)) n d h.1 k)

read_number-append :
    (s : Text) (n d : ℕ)
    → All IsDigit s
    → IsDigit d
    → read_number s ≡ some n
    → read_number (s ++ d ∷ []) ≡ some (n * 10 + (d - 48))
unfolding read_number
read_number-append [] n d h k e = cc
read_number-append (c ∷ s) n d h k e = ground (arith, read_digits-append s (c - 48) n d h.1 k)

All-snoc : (s : Text) (d : ℕ) → All IsDigit s → IsDigit d → All IsDigit (s ++ d ∷ [])
All-snoc [] d h k = (k, tt)
All-snoc (c ∷ s) d h k = (h.0, All-snoc s d h.1 k)

digits-All : (f n : ℕ) → All IsDigit (digits f n)
unfolding digits
digits-All zero n = tt
digits-All (suc f) n =
    ground (arith, All-snoc (digits f (n / 10)) (48 + n % 10) (digits-All f (n / 10)) (omega arith))

read_number-one : (n : ℕ) → n < 10 → read_number ((48 + n) ∷ []) ≡ some n
unfolding read_number read_digits
read_number-one n h = ground arith

read_number-digits : (f n : ℕ) → n < f → read_number (digits f n) ≡ some n
unfolding digits
read_number-digits zero n h = absurd (omega arith)
read_number-digits (suc f) n h = elim (Bool-cases (ltb n 10)) [
  | inl small ↦ rw small (read_number-one n (ltb→lt n 10 small))
  | inr large ↦ rw large (
      read_number-append (digits f (n / 10)) (n / 10) (48 + n % 10) (digits-All f (n / 10))
        (omega arith) (read_number-digits f (n / 10) (ground arith))
      ∙ ap some (omega arith))
]

read_signed_digits :
    (s : Text) (n : ℕ) → All IsDigit s → read_number s ≡ some n → read_signed s ≡ some (pos n)
unfolding read_signed
read_signed_digits [] n h e = cc
read_signed_digits (c ∷ s) n h e = ground arith

-- `int(str(n))` is `n`.
pub int_of-str : (n : ℕ) → int_of (str n) ≡ some (pos n)
unfolding int_of str
int_of-str n =
    let ds : All IsDigit (digits (suc n) n) = digits-All (suc n) n in
    rw (strip_plain (digits (suc n) n) (digits-NoSpace _ ds))
      (read_signed_digits (digits (suc n) n) n ds (read_number-digits (suc n) n (omega arith)))

pub str-All : (n : ℕ) → All IsDigit (str n)
unfolding str
str-All n = digits-All (suc n) n

-- A text of digits stands for no other integer.
pub str_ℤ_eq : (z : ℤ) (n : ℕ) → str_ℤ z ≡ str n → z ≡ pos n
unfolding str_ℤ
str_ℤ_eq (pos m) n e = ground (arith, int_of-str m, int_of-str n)
str_ℤ_eq (negsuc m) n e =
    let ds : All IsDigit (45 ∷ str (m + 1)) = subst (All IsDigit) (sym e) (str-All n) in
    absurd (omega arith)

pub str-ne-nil : (n : ℕ) → str n ≢ []
unfolding int_of
str-ne-nil n e =
    let h : int_of [] ≡ some (pos n) = subst (λ s. int_of s ≡ some (pos n)) e (int_of-str n) in cc
