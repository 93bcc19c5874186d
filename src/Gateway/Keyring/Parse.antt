-- ===== src/Gateway/Keyring/Parse.antt =====
-- services/_shared_jwt_keyring.py: what `parse_keyring` returns.
use microservices_project.Prelude.{
  ◌≤◌, ◌≡◌, refl, ◌⊎◌, inl, inr, false, List, [], ◌∷◌, arith, Option-cases, length, All, nat_eq,
  Result, ok, err,
}
use microservices_project.Prelude.Text.{Text, text_eq, strip, split, partition}
use microservices_project.Prelude.Dict.{insert, IsDict, insert-IsDict}
use microservices_project.Gateway.Keyring.{
  Keyring, is_blank, parse_entry, parse_entries, parse_keyring,
}

-- Every kid and every secret has a character.
abbrev pub Named : Keyring → Type 0
Named = All (λ e. (is_blank e.0 ≡ false) × (is_blank e.1 ≡ false))

-- No kid twice, none empty, no secret empty.
pub record IsValid (k : Keyring) : Type 0 where
  pub distinct : IsDict k
  pub named : Named k

parse_entry-Named :
    (entry : Text) {kid secret : Text}
    → parse_entry entry ≡ ok (kid, secret)
    → (is_blank kid ≡ false) × (is_blank secret ≡ false)
unfolding parse_entry
parse_entry-Named entry {kid} {secret} e = elim (Option-cases (partition 61 entry)) [
  | inl plain ↦ ground arith
  | inr (parts, found) ↦ ground arith
]

insert-Named :
    (kid secret : Text) (k : Keyring)
    → is_blank kid ≡ false
    → is_blank secret ≡ false
    → Named k
    → Named (insert kid secret k)
insert-Named kid secret [] a b n = ((a, b), tt)
insert-Named kid secret ((j, w) ∷ k) a b n = ground (arith, insert-Named kid secret k a b n.1)

Result-cases {ℓ κ} :
    {E : Type ℓ} {A : Type κ} (r : Result E A) → ((a : A) × (r ≡ ok a)) ⊎ ((e : E) × (r ≡ err e))
Result-cases (ok a) = inl (a, refl)
Result-cases (err e) = inr (e, refl)

parse_entries-IsValid :
    (entries : List Text) (k k' : Keyring)
    → IsValid k
    → parse_entries entries k ≡ ok k'
    → IsValid k'
unfolding parse_entries
parse_entries-IsValid [] k k' v e = ground arith
parse_entries-IsValid (raw ∷ entries) k k' v e = elim (Result-cases (parse_entry (strip raw))) [
  | inl (entry, parsed) ↦
      let named = parse_entry-Named (strip raw) parsed in
      ground (
        arith,
        parse_entries-IsValid entries k k' v,
        parse_entries-IsValid entries (insert entry.0 entry.1 k) k',
        insert-IsDict entry.0 entry.1 k,
        insert-Named entry.0 entry.1 k,
      )
  | inr (bad, failed) ↦ ground (arith, parse_entries-IsValid entries k k' v)
]

-- What is parsed, or the fallback where there is nothing to parse, is a keyring with a key: no
-- kid twice, none empty, no secret empty, if the fallback's own are not.
pub parse_keyring-IsValid :
    (jwt_secrets fallback_secret fallback_kid : Text) (k : Keyring)
    → is_blank fallback_secret ≡ false
    → is_blank fallback_kid ≡ false
    → parse_keyring jwt_secrets fallback_secret fallback_kid ≡ ok k
    → IsValid k × (1 ≤ length k)
unfolding parse_keyring
parse_keyring-IsValid jwt_secrets fallback_secret fallback_kid k s f e =
    elim (Result-cases (parse_entries (split 44 jwt_secrets) [])) [
      | inl ([], parsed) ↦ ground arith
      | inl (x ∷ r, parsed) ↦ ground (
        arith,
        parse_entries-IsValid (split 44 jwt_secrets) [] (x ∷ r)
            (record { distinct = tt; named = tt }),
      )
      | inr (bad, failed) ↦ ground arith
    ]
