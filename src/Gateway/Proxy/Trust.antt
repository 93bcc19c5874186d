-- ===== src/Gateway/Proxy/Trust.antt =====
-- services/api-gateway/app/routes/proxy.py and services/_shared_identity_signing.py: which
-- headers a backend has from the gateway, and which from the client.
use mathlib.Core.List.{append-nil}
use microservices_project.Prelude.{
  ℕ, ◌+◌, ◌≤◌, ◌≡◌, refl, sym, ap, ◌∙◌, ◌≢◌, Bool, true, false, some, List, [], ◌∷◌, ◌++◌, arith,
  ◌==◌, if◌then◌else◌, All, elem, nat_eq,
}
use microservices_project.Prelude.Text.{Text, text_beq, text_beq_iff, text_eq, codes, lower, join}
use microservices_project.Prelude.Dict.{Dict, insert}
use microservices_project.Prelude.Decimal.{str-ne-nil}
use microservices_project.Identity.{
  Crypto, sign_identity, is_empty, Verdict, pass, dispatch, verify_identity,
  identity_max_age_seconds,
}
use microservices_project.Identity.Verify.{verify_identity-sign_identity}
use microservices_project.Identity as Backend
use microservices_project.Gateway.Proxy.Headers.{
  Request, gateway_owned, keep_headers, header, assign, comma, injected, build_forward_headers,
}
use microservices_project.Gateway.Proxy.Owned.{
  has_header, once, header-assign, has_header-keep, shaped, shaped_user_id, shaped_roles,
  shaped_email, shaped_signature, shaped_issued_at, injected-shaped,
}

not_empty : (s : Text) → s ≢ [] → is_empty s ≡ false
not_empty [] h = absurd (h refl)
not_empty (c ∷ s) h = refl

verified_passes :
    (k : Crypto) (secret : Text) (exempt : List Text) (now : ℕ) (path : Text) (h : Backend.Headers)
    → is_empty h.user_id ≡ false
    → k.is_uuid h.user_id ≡ true
    → is_empty h.signature ≡ false
    → is_empty h.issued_at ≡ false
    → verify_identity k secret h.user_id h.user_email h.user_roles h.issued_at h.signature 60 now
      ≡ true
    → dispatch k secret exempt now path h ≡ pass
unfolding dispatch
verified_passes k secret exempt now path h user uuid sig at v = ground arith

when_user : {b : Bool} {t : Text} → b ≡ false → (if b then [] else t) ≡ t
when_user h = rw h

if_empty : (s : Text) → (if is_empty s then [] else s) ≡ s
if_empty [] = refl
if_empty (c ∷ s) = refl

module _ (k : Crypto) (secret : Text) (now : ℕ) (r : Request) where
  -- A name that the client cannot place is read from what the gateway injects.
  read_injected :
      (name : Text) (v : Text)
      → has_header name (keep_headers r.headers []) ≡ false
      → (once name (injected k secret now r) ≡ true) × (header name (injected k secret now r) ≡ v)
      → header name (build_forward_headers k secret now r) ≡ v
  unfolding build_forward_headers
  read_injected name v absent (o, e) =
      header-assign name (injected k secret now r) (keep_headers r.headers []) absent o ∙ e

  absent :
      (name : Text)
      → elem (lower name) gateway_owned ≡ true
      → has_header name (keep_headers r.headers []) ≡ false
  unfolding has_header
  absent name owned = has_header-keep name r.headers [] owned refl

  -- Whatever headers the client sends, the user id, roles and email that a backend reads are
  -- those of the validated token, and are empty without one.
  pub identity_headers_authentic :
      let h = build_forward_headers k secret now r in
      let is_anonymous = is_empty r.user_id in
      (header (codes "x-user-id") h ≡ r.user_id)
      × (header (codes "x-user-roles") h ≡ (if is_anonymous then [] else join comma r.user_roles))
      × (header (codes "x-user-email") h ≡ (if is_anonymous then [] else r.user_email))
  unfolding text_beq lower
  identity_headers_authentic = (
    read_injected (codes "x-user-id") _ (absent (codes "x-user-id") refl)
          (rw injected-shaped (shaped_user_id _ _ _ _ _ _ _ _ _ _ _ _ _))
        ∙ if_empty r.user_id,
    read_injected (codes "x-user-roles") _ (absent (codes "x-user-roles") refl)
        (rw injected-shaped (shaped_roles _ _ _ _ _ _ _ _ _ _ _ _ _)),
    read_injected (codes "x-user-email") _ (absent (codes "x-user-email") refl)
          (rw injected-shaped (shaped_email _ _ _ _ _ _ _ _ _ _ _ _ _))
        ∙ ap (λ t. if is_empty r.user_id then [] else t) (if_empty r.user_email),
  )

  -- What a backend reads of the identity headers, a missing one as the empty text.
  abbrev pub backend_headers : List (Text × Text) → Backend.Headers
  backend_headers h = record {
    user_id = header (codes "x-user-id") h;
    user_email = header (codes "x-user-email") h;
    user_roles = header (codes "x-user-roles") h;
    signature = header (codes "x-identity-signature") h;
    issued_at = header (codes "x-identity-issued-at") h;
  }

  -- The headers that the gateway forwards for a validated user pass the middleware of a backend
  -- that has the same secret, for five seconds before and sixty after they were built, if the
  -- client sent no signature and no time of issue, base64 decodes what it encoded and encodes no
  -- digest as the empty text, and there is a user id, which is a UUID.
  pub forwarded_passes :
      ((s : Text) → k.b64decode (k.b64encode s) ≡ some s)
      → ((m : Text) → k.b64encode (k.hmac_sha256 secret m) ≢ [])
      → (exempt : List Text) (path : Text) (later : ℕ) → is_empty r.user_id ≡ false
      → k.is_uuid r.user_id ≡ true
      → has_header (codes "x-identity-signature") (keep_headers r.headers []) ≡ false
      → has_header (codes "x-identity-issued-at") (keep_headers r.headers []) ≡ false
      → now ≤ later + 5
      → later ≤ now + 60
      → dispatch k secret exempt later path (backend_headers (build_forward_headers k secret now r))
        ≡ pass
  unfolding sign_identity
  forwarded_passes dec some_text exempt path later user uuid no_sig no_ts early late =
      let roles = join comma r.user_roles in
      let (sig, ts) = sign_identity k secret r.user_id r.user_email roles now in
      let (id, role, email) = identity_headers_authentic in
      let role' : _ ≡ roles = role ∙ when_user user in
      let email' : _ ≡ r.user_email = email ∙ when_user user in
      let sig' : _ ≡ sig =
        read_injected (codes "x-identity-signature") (if is_empty r.user_id then [] else sig) no_sig
          (rw injected-shaped (shaped_signature _ _ _ _ _ _ _ _ _ _ _ _ _))
        ∙ when_user user in
      let ts' : _ ≡ ts =
        read_injected (codes "x-identity-issued-at") (if is_empty r.user_id then [] else ts) no_ts
          (rw injected-shaped (shaped_issued_at _ _ _ _ _ _ _ _ _ _ _ _ _))
        ∙ when_user user in
      rw (id, role', email', sig', ts')
        (verified_passes k secret exempt later path _ user uuid (not_empty _ (some_text _))
          (not_empty _ (str-ne-nil now))
          ((verify_identity-sign_identity k dec secret r.user_id r.user_email roles now 60 later).1
            (early, late)))

-- The names that the framework hands over are in lower case.
abbrev pub LowerNames : List (Text × Text) → Type 0
LowerNames = All (λ e. lower e.0 ≡ e.0)

insert-LowerNames :
    (k v : Text) (d : Dict Text Text) → lower k ≡ k → LowerNames d → LowerNames (insert k v d)
insert-LowerNames k v [] e h = (e, tt)
insert-LowerNames k v ((j, w) ∷ d) e h = ground (arith, insert-LowerNames k v d e h.1)

keep-LowerNames :
    (hs : List (Text × Text)) (d : Dict Text Text)
    → LowerNames hs
    → LowerNames d
    → LowerNames (keep_headers hs d)
unfolding keep_headers
keep-LowerNames [] d h e = e
keep-LowerNames ((k, v) ∷ hs) d h e = ground (
  arith,
  keep-LowerNames hs (insert k v d) h.1,
  keep-LowerNames hs d h.1,
  insert-LowerNames k v d,
)

-- A name with a capital letter.
abbrev Capital : Text × Text → Type 0
Capital e = (lower e.0 == e.0) ≡ false

insert-append :
    (k v : Text) (d rest : Dict Text Text)
    → (lower k == k) ≡ false
    → LowerNames d
    → insert k v (d ++ rest) ≡ d ++ insert k v rest
insert-append k v [] rest c h = refl
insert-append k v ((j, w) ∷ d) rest c h =
    ground (arith, insert-append k v d rest c h.1, text_beq_iff j k, text_beq_iff (lower k) k)

assign-append :
    (l : List (Text × Text)) (d rest : Dict Text Text)
    → All Capital l
    → LowerNames d
    → assign l (d ++ rest) ≡ d ++ assign l rest
unfolding assign
assign-append [] d rest c h = refl
assign-append ((k, v) ∷ l) d rest c h =
    rw (insert-append k v d rest c.0 h) (assign-append l d (insert k v rest) c.1 h)

header-append :
    (name : Text) (d rest : List (Text × Text))
    → has_header name d ≡ true
    → header name (d ++ rest) ≡ header name d
unfolding has_header header
header-append name [] rest h = cc
header-append name ((k, v) ∷ d) rest h = ground (arith, header-append name d rest)

shaped-Capital :
    (c u e q : Bool) (f p h i m o g t x : Text) → All Capital (shaped c u e q f p h i m o g t x)
unfolding shaped lower text_beq
shaped-Capital c u e q f p h i m o g t x = ground arith

module _ (k : Crypto) (secret : Text) (now : ℕ) (r : Request) where
  -- Where the names of the client's headers are in lower case: a header of the client's that the
  -- comprehension keeps is the one that a backend reads, also where the gateway sets a header of
  -- that name.
  pub kept_header_wins :
      (name : Text)
      → LowerNames r.headers
      → has_header name (keep_headers r.headers []) ≡ true
      → header name (build_forward_headers k secret now r) ≡ header name (keep_headers r.headers [])
  unfolding build_forward_headers
  kept_header_wins name low kept = rw (← append-nil (keep_headers r.headers [])) (
      rw
        (assign-append (injected k secret now r) (keep_headers r.headers []) []
          (rw injected-shaped (shaped-Capital _ _ _ _ _ _ _ _ _ _ _ _ _))
          (keep-LowerNames r.headers [] low tt))
        (header-append name _ _ kept ∙ sym (header-append name _ [] kept)))
