-- ===== src/Gateway/Keyring.antt =====
-- services/_shared_jwt_keyring.py, of which services/api-gateway/app/jwt_keyring.py and
-- services/user-service/app/jwt_keyring.py are copies: the secrets of the access tokens by kid.
pub mod Parse
pub mod Format
pub mod Rotation
use microservices_project.Prelude.{
  ℕ, zero, suc, ◌+◌, ◌-◌, ◌*◌, ◌≤◌, ◌<◌, ◌≡◌, refl, sym, ap, ◌∙◌, ◌≢◌, ◌↔◌, ◌⊎◌, inl, inr, Bool,
  true, false, not, ◌&&◌, ◌||◌, Option, none, some, List, [], ◌∷◌, ◌++◌, map, arith, ltb, leb, ◌==◌,
  if◌then◌else◌, Bool-cases, Option-cases, length, All, elem, get_elem?, take, filter, tests, Eq,
  nat_eq, Result, ok, err, ◌>>=◌, ◌>>◌, require, ok_or,
}
use microservices_project.Prelude.Text.{Text, text_eq, codes, strip, split, partition}
use microservices_project.Prelude.Dict.{Dict, lookup, insert, contains}

abbrev pub Keyring : Type 0
Keyring = Dict Text Text

pub data KeyringError : Type 0 where
  no_equals empty_part duplicate_kid : Text → KeyringError
  unknown_kid : Text → KeyringError

abbrev pub is_blank : Text → Bool
is_blank [] = true
is_blank (c ∷ s) = false

-- `kid, _, secret = entry.partition("=")`, stripped and checked.
unfoldable pub parse_entry : Text → Result KeyringError (Text × Text)
unfolding partition strip
parse_entry entry = elim (partition 61 entry) [
  | none ↦ err (no_equals entry)
  | some (kid, secret) ↦
      if is_blank (strip kid) || is_blank (strip secret)
      then err (empty_part entry)
      else ok (strip kid, strip secret)
]

-- The loop over the entries, with the keyring so far.
unfoldable pub parse_entries : List Text → Keyring → Result KeyringError Keyring
parse_entries [] keyring = ok keyring
parse_entries (raw ∷ entries) keyring =
    let skipped = parse_entries entries keyring in
    let added = (do
      (kid, secret) ← parse_entry (strip raw)
      require (not (contains kid keyring)) (duplicate_kid kid)
      parse_entries entries (insert kid secret keyring)) in
    if is_blank (strip raw) then skipped else added

abbrev or_fallback : Keyring → Keyring → Keyring
or_fallback fallback [] = fallback
or_fallback fallback (e ∷ k) = e ∷ k

-- The separator is `,`.
unfoldable pub parse_keyring : Text → Text → Text → Result KeyringError Keyring
unfolding parse_entries split strip
parse_keyring jwt_secrets fallback_secret fallback_kid =
    let fallback = (fallback_kid, fallback_secret) ∷ [] in
    let parsed = (do
      keyring ← parse_entries (split 44 jwt_secrets) []
      ok (or_fallback fallback keyring)) in
    if is_blank (strip jwt_secrets) then ok fallback else parsed

unfoldable pub select_signing_key : Keyring → Text → Result KeyringError (Text × Text)
select_signing_key keyring current_kid = elim (lookup current_kid keyring) [
  | none ↦ err (unknown_kid current_kid)
  | some secret ↦ ok (current_kid, secret)
]

-- The token's kid, or none.
unfoldable pub select_verification_key : Keyring → Option Text → Option Text
select_verification_key keyring none = lookup (codes "default") keyring
select_verification_key keyring (some []) = none
select_verification_key keyring (some (c ∷ kid)) = lookup (c ∷ kid) keyring
