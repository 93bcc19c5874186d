-- ===== src/Tests/Signing.antt =====
-- services/_shared_identity_signing.py, _shared_jwt_keyring.py and the header builder of proxy.py.
use microservices_project.Prelude.{
  ◌≤◌, ◌≡◌, refl, ◌⊎◌, ◌↔◌, true, some, [], ◌∷◌, ◌++◌, arith, nat_eq, ok,
}
use microservices_project.Prelude.Text.{Text, codes, text_eq, text_beq, lower}
use microservices_project.Identity.{
  canonical, Crypto, Headers, pass, sign_identity, verify_identity, dispatch,
}
use microservices_project.Prelude.Decimal.{ℤ, str, str_ℤ, int_of}
use microservices_project.Identity.Verify.{
  Collision, verify_identity-sign_identity, verify_identity_sound,
}
use microservices_project.Gateway.Proxy.Headers.{Request, keep_headers, build_forward_headers}
use microservices_project.Gateway.Proxy.Headers.{is_kept}
use microservices_project.Gateway.Proxy.Owned.{has_header}
use microservices_project.Gateway.Proxy.Trust.{backend_headers, forwarded_passes}
use microservices_project.Gateway.Keyring.{Keyring, parse_keyring}
use microservices_project.Gateway.Keyring.Format.{format, parse_keyring-format}

-- Stand-ins: the digest joins secret and message, and base64 changes nothing.
abbrev toy : Crypto
toy = record {
  hmac_sha256 = λ secret message. 1 ∷ (secret ++ message);
  b64encode = λ s. s;
  b64decode = λ s. some s;
  is_uuid = λ s. true;
}

abbrev i : Text
i = 105 ∷ []

abbrev e : Text
e = 101 ∷ []

abbrev r : Text
r = 114 ∷ []

abbrev key : Text
key = 107 ∷ []

verify_identity-sign_identity_example :
    (verify_identity toy key i e r
        (sign_identity toy key i e r 100).1
        (sign_identity toy key i e r 100).0
        60
        130
      ≡ true)
    ↔ ((100 ≤ 135) × (130 ≤ 160))
verify_identity-sign_identity_example =
    verify_identity-sign_identity toy (λ s. refl) key i e r 100 60 130

verify_identity_sound_example :
    ((i ≡ i) × (e ≡ e) × (r ≡ r) × (130 ≤ 160))
    ⊎ ((z : ℤ) × (int_of (sign_identity toy key i e r 100).1 ≡ some z)
        × Collision toy key (canonical i e r (str_ℤ z)) (canonical i e r (str 100)))
verify_identity_sound_example =
    verify_identity_sound toy (λ s. refl) key i e r i e r (sign_identity toy key i e r 100).1 100 60
      130 (ground arith) (ground arith) (ground arith) (ground arith) (ground arith) (ground arith)
      ((verify_identity-sign_identity toy (λ s. refl) key i e r 100 60 130).1
        (omega arith, omega arith))

abbrev nobody : Headers
nobody = record { user_id = []; user_email = []; user_roles = []; signature = []; issued_at = [] }

abbrev request : Request
request = record {
  headers = (codes "x-user-id", codes "mallory") ∷ (codes "x-request-id", codes "mine") ∷ [];
  client_host = codes "10.0.0.1";
  scheme = codes "http";
  hostname = codes "gateway";
  user_id = i;
  user_email = e;
  user_roles = codes "user" ∷ [];
  request_id = codes "generated";
}

forwarded_passes_example :
    dispatch toy key [] 130 r
      (backend_headers toy key 100 request (build_forward_headers toy key 100 request))
    ≡ pass
unfolding has_header keep_headers is_kept lower text_beq
forwarded_passes_example =
    forwarded_passes toy key 100 request (λ s. refl) (λ m h. ground arith) [] r 130 refl refl
      (ground arith) (ground arith) (omega arith) (omega arith)

abbrev ring : Keyring
ring = (codes "v1", codes "one") ∷ (codes "v2", codes "two") ∷ []

parse_keyring-format_example : parse_keyring (format ring) [] [] ≡ ok ring
unfolding text_beq
parse_keyring-format_example =
    parse_keyring-format ring [] [] (omega arith) (ground arith) (ground arith)
