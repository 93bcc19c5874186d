-- ===== src/Prelude/Text.antt =====
-- Text as a list of code points, with the string methods that the services use.
use Prim.Native.Char.{code}
use Prim.Native.String.{String}
use Prim.Native.Nat.{ℕ, ◌+◌}
use mathlib.Core.Path.{◌≡◌, refl, ap, ◌∙◌}
use mathlib.Core.Logic.{◌↔◌, ◌≢◌}
use mathlib.Core.Bool.{Bool, true, false, ◌&&◌, ◌||◌}
use mathlib.Core.List.{List, [], ◌∷◌, ◌++◌, map}
use mathlib.Core.Option.{Option, none, some}
use native.Mathlib.Omega.{arith}
use microservices_project.Prelude.Lists.{All, All-append, filter}
use microservices_project.Prelude.Tests.{if◌then◌else◌, Eq, nat_eq, ◌==◌, leb}

abbrev pub Text : Type 0
Text = List ℕ

-- The code points of a literal.
abbrev pub codes : String → Text
codes String.[] = []
codes (String.◌∷◌ c s) = code c ∷ codes s

unfoldable pub text_beq : Text → Text → Bool
text_beq [] [] = true
text_beq (a ∷ s) (b ∷ t) = a == b && text_beq s t
text_beq _ _ = false

pub text_beq_iff : (s t : Text) → (text_beq s t ≡ true) ↔ (s ≡ t)
unfolding text_beq
text_beq_iff [] [] = ground arith
text_beq_iff [] (b ∷ t) = ground arith
text_beq_iff (a ∷ s) [] = ground arith
text_beq_iff (a ∷ s) (b ∷ t) = ground (arith, text_beq_iff s t)

instance abbrev pub text_eq : Eq Text
text_eq = record { beq = text_beq; beq_iff = text_beq_iff }

-- `s.startswith(p)`
unfoldable pub starts_with : Text → Text → Bool
starts_with s [] = true
starts_with [] (b ∷ p) = false
starts_with (a ∷ s) (b ∷ p) = a == b && starts_with s p

-- `str.split(sep)` for a separator of one character: always at least one field.
abbrev cons_first : ℕ → List Text → List Text
cons_first c [] = (c ∷ []) ∷ []
cons_first c (f ∷ fs) = (c ∷ f) ∷ fs

unfoldable pub split : ℕ → Text → List Text
split sep [] = [] ∷ []
split sep (c ∷ s) = let rest = split sep s in if c == sep then [] ∷ rest else cons_first c rest

-- `sep.join(fields)` for a separator of one character.
unfoldable pub join : ℕ → List Text → Text
join sep [] = []
join sep (f ∷ []) = f
join sep (f ∷ g ∷ fs) = f ++ (sep ∷ join sep (g ∷ fs))

-- The characters of ASCII that `str.strip()` removes: tab to carriage return, the four
-- separators from 0x1c, and the space.
abbrev pub is_space : ℕ → Bool
is_space c = (leb 9 c && leb c 13) || (leb 28 c && leb c 32)

unfoldable pub lstrip : Text → Text
lstrip [] = []
lstrip (c ∷ s) = let rest = lstrip s in if is_space c then rest else c ∷ s

unfoldable pub rstrip : Text → Text
rstrip [] = []
rstrip (c ∷ s) = elim (rstrip s) [ [] ↦ if is_space c then [] else c ∷ [] | d ∷ t ↦ c ∷ d ∷ t ]

unfoldable pub strip : Text → Text
unfolding lstrip rstrip
strip s = rstrip (lstrip s)

-- Text without white space is its own stripping.
abbrev pub NoSpace : Text → Type 0
NoSpace = All (λ c. is_space c ≡ false)

lstrip_plain : (s : Text) → NoSpace s → lstrip s ≡ s
unfolding lstrip
lstrip_plain [] h = refl
lstrip_plain (c ∷ s) h = ground arith

rstrip_plain : (s : Text) → NoSpace s → rstrip s ≡ s
unfolding rstrip
rstrip_plain [] h = refl
rstrip_plain (c ∷ s) h = ground (arith, rstrip_plain s h.1)

pub strip_plain : (s : Text) → NoSpace s → strip s ≡ s
unfolding strip
strip_plain s h = rw (lstrip_plain s h) (rstrip_plain s h)

-- `s.partition(sep)` for a separator of one character: the text before and after the first
-- separator, or `none` if there is none.
unfoldable pub partition : ℕ → Text → Option (Text × Text)
partition sep [] = none
partition sep (c ∷ s) =
    let rest = partition sep s in
    if c == sep then some ([], s) else elim rest [ none ↦ none | some (a, b) ↦ some (c ∷ a, b) ]

-- `s.lower()` on ASCII.
abbrev pub lower_char : ℕ → ℕ
lower_char c = if leb 65 c && leb c 90 then c + 32 else c

unfoldable pub lower : Text → Text
lower [] = []
lower (c ∷ s) = lower_char c ∷ lower s

pub lower-lower : (s : Text) → lower (lower s) ≡ lower s
unfolding lower
lower-lower [] = refl
lower-lower (c ∷ s) = ground (arith, lower-lower s)

-- A text without one character.
abbrev pub Without : ℕ → Text → Type 0
Without sep = All (λ c. c ≢ sep)

split-append : (sep : ℕ) (f s : Text) → Without sep f → split sep (f ++ (sep ∷ s)) ≡ f ∷ split sep s
unfolding split
split-append sep [] s h = ground arith
split-append sep (c ∷ f) s h = ground (arith, split-append sep f s h.1)

split_one : (sep : ℕ) (f : Text) → Without sep f → split sep f ≡ f ∷ []
unfolding split
split_one sep [] h = refl
split_one sep (c ∷ f) h = ground (arith, split_one sep f h.1)

-- Fields without the separator come back.
pub split-join :
    (sep : ℕ) (f : Text) (fs : List Text)
    → All (Without sep) (f ∷ fs)
    → split sep (join sep (f ∷ fs)) ≡ f ∷ fs
unfolding join
split-join sep f [] h = split_one sep f h.0
split-join sep f (g ∷ fs) h =
    split-append sep f (join sep (g ∷ fs)) h.0 ∙ ap (λ l. f ∷ l) (split-join sep g fs h.1)

pub partition-append :
    (sep : ℕ) (a b : Text) → Without sep a → partition sep (a ++ (sep ∷ b)) ≡ some (a, b)
unfolding partition
partition-append sep [] b h = ground arith
partition-append sep (c ∷ a) b h = ground (arith, partition-append sep a b h.1)

abbrev pub is_filled : Text → Bool
is_filled [] = false
is_filled (c ∷ s) = true

-- `[x.strip() for x in xs if x.strip()]`, and that of the fields between commas.
abbrev pub stripped : List Text → List Text
stripped xs = filter is_filled (map strip xs)

unfoldable pub comma_fields : Text → List Text
comma_fields s = stripped (split 44 s)

-- A field that is not empty, has no white space and no comma.
abbrev pub IsField : Text → Type 0
IsField s = is_filled s ≡ true × NoSpace s × Without 44 s

stripped_fields : (fs : List Text) → All IsField fs → stripped fs ≡ fs
stripped_fields [] h = refl
stripped_fields (f ∷ fs) h = ground (arith, strip_plain f h.0.1, stripped_fields fs h.1, h.0.0)

fields_plain : (fs : List Text) → All IsField fs → All (Without 44) fs
fields_plain [] h = tt
fields_plain (f ∷ fs) h = (h.0.2, fields_plain fs h.1)

-- Fields that are joined by commas come back.
pub comma_fields-join :
    (f : Text) (fs : List Text) → All IsField (f ∷ fs) → comma_fields (join 44 (f ∷ fs)) ≡ f ∷ fs
unfolding comma_fields
comma_fields-join f fs h =
    ap stripped (split-join 44 f fs (fields_plain (f ∷ fs) h)) ∙ stripped_fields (f ∷ fs) h

-- Joined texts without white space have none.
pub join-NoSpace : (fs : List Text) → All IsField fs → NoSpace (join 44 fs)
unfolding join
join-NoSpace [] h = tt
join-NoSpace (f ∷ []) h = h.0.1
join-NoSpace (f ∷ g ∷ fs) h =
    All-append _ f (44 ∷ join 44 (g ∷ fs)) h.0.1 (refl, join-NoSpace (g ∷ fs) h.1)
