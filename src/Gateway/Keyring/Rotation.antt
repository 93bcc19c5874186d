-- ===== src/Gateway/Keyring/Rotation.antt =====
-- services/_shared_jwt_keyring.py: signing and verifying across a rotation of the keys.
use microservices_project.Prelude.{◌≡◌, ◌≢◌, false, none, some, [], ◌∷◌, arith, nat_eq, ok}
use microservices_project.Prelude.Text.{Text, text_eq, text_beq_iff}
use microservices_project.Prelude.Dict.{insert, erase, lookup-insert, lookup-erase}
use microservices_project.Gateway.Keyring.{
  Keyring, is_blank, select_signing_key, select_verification_key,
}

-- The key that signs with a kid that is not empty is the one that verifies: in the same ring, in
-- the ring with any other kid added, and in the ring with any other kid removed. Once its own kid
-- is removed, no key verifies.
pub rotation :
    (k : Keyring) (kid secret other fresh : Text) {signed : Text}
    → is_blank kid ≡ false
    → other ≢ kid
    → select_signing_key k kid ≡ ok (signed, secret)
    → (signed ≡ kid)
      × (select_verification_key k (some signed) ≡ some secret)
      × (select_verification_key (insert other fresh k) (some signed) ≡ some secret)
      × (select_verification_key (erase other k) (some signed) ≡ some secret)
      × (select_verification_key (erase kid k) (some signed) ≡ none)
unfolding select_signing_key select_verification_key
rotation k [] secret other fresh b ne e = cc
rotation k (c ∷ kid) secret other fresh b ne e = ground (
  arith,
  lookup-insert other (c ∷ kid) fresh k,
  lookup-erase other (c ∷ kid) k,
  lookup-erase (c ∷ kid) (c ∷ kid) k,
  text_beq_iff other (c ∷ kid),
  text_beq_iff (c ∷ kid) (c ∷ kid),
)
