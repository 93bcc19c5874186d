-- ===== src/Identity/Verify.antt =====
-- services/_shared_identity_signing.py: what `verify_identity` and the middleware accept.
use microservices_project.Prelude.{
  ℕ, ◌+◌, ◌≤◌, ◌≡◌, ◌≢◌, ◌==◌, Bool-cases, ◌↔◌, ◌⊎◌, inl, inr, true, false, some, List, [], ◌∷◌,
  ◌++◌, arith, Option-cases, elem, nat_eq,
}
use microservices_project.Prelude.Text.{Text, text_beq_iff, text_eq}
use microservices_project.Prelude.Decimal.{str_ℤ_eq, ℤ, pos, str, str_ℤ, int_of, int_of-str}
use microservices_project.Identity.{
  canonical, bar, is_stale, pass, Headers, Crypto, sign_identity, verify_identity, dispatch,
  identity_max_age_seconds,
}
use microservices_project.Identity.Envelope.{NoBar, canonical-injective, canonical_shift}

module _ (k : Crypto) where
  open k use {hmac_sha256, b64encode, b64decode, is_uuid}

  -- Where base64 decodes what it encoded, a signed envelope verifies, with the same secret and
  -- fields, exactly from five seconds before the time of issue until `max_age` seconds after it.
  pub verify_identity-sign_identity :
      ((s : Text) → b64decode (b64encode s) ≡ some s)
      → (secret i e r : Text) (issued max_age now : ℕ)
      → let (signature, ts) = sign_identity k secret i e r issued in
        (verify_identity k secret i e r ts signature max_age now ≡ true)
        ↔ ((issued ≤ now + 5) × (now ≤ issued + max_age))
  unfolding sign_identity verify_identity str_ℤ is_stale
  verify_identity-sign_identity dec secret i e r issued max_age now =
      let m = hmac_sha256 secret (canonical i e r (str issued)) in
      ground (arith, int_of-str issued, dec m, text_beq_iff m m)

  -- What is accepted is fresh, and its signature decodes to the digest of its own envelope.
  accepts :
      (secret i e r ts signature : Text) (max_age now : ℕ)
      → verify_identity k secret i e r ts signature max_age now ≡ true
      → (z : ℤ) × (int_of ts ≡ some z)
        × (is_stale max_age now z ≡ false)
        × (b64decode signature ≡ some (hmac_sha256 secret (canonical i e r (str_ℤ z))))
  unfolding verify_identity
  accepts secret i e r ts signature max_age now v = elim (Option-cases (int_of ts)) [
    | inl bad ↦ ground arith
    | inr (z, good) ↦ elim (Option-cases (b64decode signature)) [
      | inl bad ↦ ground arith
      | inr (m, decoded) ↦
          let own = hmac_sha256 secret (canonical i e r (str_ℤ z)) in
          (z, good, ground arith, ground (arith, text_beq_iff own m))
    ]
  ]

  -- Two different strings that have one digest under the secret.
  abbrev pub Collision : (secret s t : Text) → Type 0
  Collision secret s t = s ≢ t × hmac_sha256 secret s ≡ hmac_sha256 secret t

  same_or_Collision :
      (secret s t : Text)
      → hmac_sha256 secret s ≡ hmac_sha256 secret t
      → (s ≡ t) ⊎ Collision secret s t
  same_or_Collision secret s t h = elim (Bool-cases (s == t)) [
    | inl hit ↦ inl ((text_eq.beq_iff s t).0 hit)
    | inr apart ↦ inr ((λ e. ground (arith, apart, (text_eq.beq_iff s t).1 e)), h)
  ]

  same_envelope :
      (i e r i' e' r' : Text) (issued max_age now : ℕ) (z : ℤ)
      → NoBar i
      → NoBar e
      → NoBar r
      → NoBar i'
      → NoBar e'
      → NoBar r'
      → is_stale max_age now z ≡ false
      → canonical i' e' r' (str_ℤ z) ≡ canonical i e r (str issued)
      → (i' ≡ i) × (e' ≡ e) × (r' ≡ r) × (now ≤ issued + max_age)
  same_envelope i e r i' e' r' issued max_age now z hi he hr ki ke kr fresh same =
      let parts =
        canonical-injective i' e' r' (str_ℤ z) i e r (str issued) ki ke kr hi he hr same in
      let at : z ≡ pos issued = str_ℤ_eq z issued parts.3 in
      (parts.0, parts.1, parts.2, unfold is_stale in ground arith)

  -- Where base64 decodes what it encoded and the fields hold no `|`: a signature that was issued for
  -- one envelope verifies for another only if the two are the same and it is no older than `max_age`,
  -- or if the two strings that are signed for them are different and have one digest under the secret.
  -- Nothing is assumed of the digest.
  pub verify_identity_sound :
      ((s : Text) → b64decode (b64encode s) ≡ some s)
      → (secret i e r i' e' r' ts' : Text) (issued max_age now : ℕ) → NoBar i
      → NoBar e
      → NoBar r
      → NoBar i'
      → NoBar e'
      → NoBar r'
      → verify_identity k secret i' e' r' ts' (sign_identity k secret i e r issued).0 max_age now
        ≡ true
      → ((i' ≡ i) × (e' ≡ e) × (r' ≡ r) × (now ≤ issued + max_age))
        ⊎ ((z : ℤ) × (int_of ts' ≡ some z)
            × Collision secret (canonical i' e' r' (str_ℤ z)) (canonical i e r (str issued)))
  unfolding sign_identity
  verify_identity_sound dec secret i e r i' e' r' ts' issued max_age now hi he hr ki ke kr v =
      let signed = canonical i e r (str issued) in
      let (z, at, fresh, decoded) = accepts secret i' e' r' ts' _ max_age now v in
      let digests : hmac_sha256 secret (canonical i' e' r' (str_ℤ z)) ≡ hmac_sha256 secret signed =
        ground (arith, dec (hmac_sha256 secret signed)) in
      elim (same_or_Collision secret (canonical i' e' r' (str_ℤ z)) signed digests) [
        | inl same ↦
            inl (same_envelope i e r i' e' r' issued max_age now z hi he hr ki ke kr fresh same)
        | inr collision ↦ inr (z, at, collision)
      ]

  -- An email with a `|` in it shares its signatures with the envelope in which the text behind
  -- the `|` has moved to the roles.
  pub verify_identity_shift :
      (secret i e x r ts signature : Text) (max_age now : ℕ)
      → verify_identity k secret i (e ++ (bar ∷ x)) r ts signature max_age now
        ≡ verify_identity k secret i e (x ++ (bar ∷ r)) ts signature max_age now
  unfolding verify_identity
  verify_identity_shift secret i e x r ts signature max_age now = elim (Option-cases (int_of ts)) [
    | inl bad ↦ rw (bad, verify_identity)
    | inr (z, good) ↦ ground (arith, canonical_shift i e x r (str_ℤ z))
  ]

  -- A request that passes on a path that is not exempt either claims no user and lacks a
  -- signature or its time, or carries a signature that verifies, and a user id, if it has one,
  -- that is a UUID.
  pub dispatch_guards :
      (secret : Text) (exempt : List Text) (now : ℕ) (path : Text) (h : Headers)
      → elem path exempt ≡ false
      → dispatch k secret exempt now path h ≡ pass
      → ((h.user_id ≡ []) × ((h.signature ≡ []) ⊎ (h.issued_at ≡ [])))
        ⊎ ((verify_identity k secret h.user_id h.user_email h.user_roles h.issued_at h.signature
                identity_max_age_seconds now
              ≡ true)
            × ((h.user_id ≡ []) ⊎ (is_uuid h.user_id ≡ true)))
  unfolding dispatch
  dispatch_guards secret exempt now path h ex p = ground arith
