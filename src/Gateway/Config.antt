-- ===== src/Gateway/Config.antt =====
-- services/api-gateway/app/config.py: the settings that are checked or parsed. The JSON decoder is a
-- parameter: the texts of a list, if it decodes one.
use microservices_project.Prelude.{
  ℕ, ◌≡◌, refl, sym, ap, ◌∙◌, Bool, false, not, ◌&&◌, Option, none, some, List, [], ◌∷◌, ◌++◌, leb,
  ◌==◌, if◌then◌else◌, length, All, elem, nat_eq,
}
use microservices_project.Prelude.Text.{
  Text, codes, text_eq, strip, join, lower, strip_plain, stripped, comma_fields, IsField,
  comma_fields-join, join-NoSpace,
}

abbrev pub allowed_jwt_algorithms : List Text
allowed_jwt_algorithms = codes "HS256" ∷ codes "HS384" ∷ codes "HS512" ∷ []

abbrev pub min_jwt_secret_len : ℕ
min_jwt_secret_len = 32

abbrev pub banned_secrets : List Text
banned_secrets =
    codes "change-me"
    ∷ codes "change-me-in-production"
    ∷ codes "secret"
    ∷ codes "password"
    ∷ codes "jwt-secret"
    ∷ codes "your-secret"
    ∷ []

abbrev pub parse_filled : (Text → Option (List Text)) → Text → List Text
parse_filled loads [] = []
parse_filled loads (c ∷ cs) =
    let fields = comma_fields (c ∷ cs) in
    if c == 91
    then elim (loads (c ∷ cs)) [ none ↦ fields | some decoded ↦ stripped decoded ]
    else fields

unfoldable pub parse_origins : (Text → Option (List Text)) → Text → List Text
parse_origins loads raw = parse_filled loads (strip raw)

-- What the raw setting may be before it is stored: nothing, a list, or another value by its text.
pub data RawOrigins : Type 0 where
  missing : RawOrigins
  listed : List Text → RawOrigins
  plain : Text → RawOrigins

unfoldable pub coerce_to_string : RawOrigins → Text
coerce_to_string missing = []
coerce_to_string (listed xs) = join 44 xs
coerce_to_string (plain s) = s

unfoldable pub algorithm_must_be_secure : Text → Bool
algorithm_must_be_secure v = elem v allowed_jwt_algorithms

unfoldable pub secret_must_be_strong : Text → Bool
secret_must_be_strong v = not (elem (lower v) banned_secrets) && leb min_jwt_secret_len (length v)

starts : (c : ℕ) (cs : Text) (fs : List Text) → (t : Text) × join 44 ((c ∷ cs) ∷ fs) ≡ c ∷ t
unfolding join
starts c cs [] = (cs, refl)
starts c cs (f ∷ fs) = (cs ++ (44 ∷ join 44 (f ∷ fs)), refl)

parse_plain :
    (loads : Text → Option (List Text)) (c : ℕ) (t s : Text)
    → (c == 91) ≡ false
    → s ≡ c ∷ t
    → parse_filled loads s ≡ comma_fields s
parse_plain loads c t s h e =
    let decoded : List Text = elim (loads (c ∷ t)) [
      | none ↦ comma_fields (c ∷ t)
      | some xs ↦ stripped xs
    ] in
    ap (parse_filled loads) e
    ∙ ap (λ b. if b then decoded else comma_fields (c ∷ t)) h
    ∙ ap comma_fields (sym e)

-- A list of origins that is given as the setting is read back as it was: it is stored as one text
-- and parsed again. No origin is empty or has white space or a comma, and the first does not start
-- with a bracket.
pub parse_origins-coerce_to_string :
    (loads : Text → Option (List Text)) (c : ℕ) (cs : Text) (origins : List Text)
    → All IsField ((c ∷ cs) ∷ origins)
    → (c == 91) ≡ false
    → parse_origins loads (coerce_to_string (listed ((c ∷ cs) ∷ origins))) ≡ (c ∷ cs) ∷ origins
unfolding parse_origins coerce_to_string
parse_origins-coerce_to_string loads c cs origins h b =
    let s = join 44 ((c ∷ cs) ∷ origins) in
    let (t, e) = starts c cs origins in
    ap (parse_filled loads) (strip_plain s (join-NoSpace ((c ∷ cs) ∷ origins) h))
    ∙ parse_plain loads c t s b e
    ∙ comma_fields-join (c ∷ cs) origins h
