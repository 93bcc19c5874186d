-- ===== src/Gateway/Proxy/Owned.antt =====
-- services/api-gateway/app/routes/proxy.py: which headers a backend reads from the gateway, and
-- which from the client.
use microservices_project.Prelude.{
  ℕ, ◌≡◌, refl, Bool, true, false, not, ◌||◌, List, [], ◌∷◌, ◌++◌, arith, ◌==◌, if◌then◌else◌, elem,
  nat_eq,
}
use microservices_project.Prelude.Text.{Text, text_beq, text_beq_iff, text_eq, codes, lower, join}
use microservices_project.Prelude.Dict.{Dict, insert}
use microservices_project.Identity.{Crypto, sign_identity, is_empty}
use microservices_project.Gateway.Proxy.Headers.{
  Request, gateway_owned, is_kept, keep_headers, header, assign, comma, injected, forwarded_for,
}

-- Whether a header of that name is there, whatever the case of its letters.
unfoldable pub has_header : Text → List (Text × Text) → Bool
has_header name [] = false
has_header name ((k, v) ∷ hs) = lower k == lower name || has_header name hs

-- No name stands twice.
unfoldable pub once : Text → List (Text × Text) → Bool
unfolding has_header
once name [] = true
once name ((k, v) ∷ hs) = if lower k == lower name then not (has_header name hs) else once name hs

module _ (name : Text) where
  header_absent : (d : List (Text × Text)) → has_header name d ≡ false → header name d ≡ []
  unfolding has_header header
  header_absent [] h = refl
  header_absent ((k, v) ∷ d) h = ground (arith, header_absent d)

  has_header-insert :
      (k v : Text) (d : Dict Text Text)
      → has_header name (insert k v d) ≡ (lower k == lower name || has_header name d)
  unfolding has_header
  has_header-insert k v [] = refl
  has_header-insert k v ((j, w) ∷ d) = ground (arith, has_header-insert k v d, text_beq_iff j k)

  header-insert :
      (k v : Text) (d : Dict Text Text)
      → has_header name d ≡ false
      → header name (insert k v d) ≡ (if lower k == lower name then v else [])
  unfolding has_header header
  header-insert k v [] h = refl
  header-insert k v ((j, w) ∷ d) h =
      ground (arith, header-insert k v d, header_absent d, text_beq_iff j k)

  header-insert_other :
      (k v : Text) (d : Dict Text Text)
      → (lower k == lower name) ≡ false
      → header name (insert k v d) ≡ header name d
  unfolding header
  header-insert_other k v [] h = ground arith
  header-insert_other k v ((j, w) ∷ d) h =
      ground (arith, header-insert_other k v d, text_beq_iff j k)

  header-assign_other :
      (l : List (Text × Text)) (d : Dict Text Text)
      → has_header name l ≡ false
      → header name (assign l d) ≡ header name d
  unfolding assign has_header
  header-assign_other [] d h = refl
  header-assign_other ((k, v) ∷ l) d h =
      ground (arith, header-assign_other l (insert k v d), header-insert_other k v d)

  -- What is assigned is read, if nothing of that name was there before.
  pub header-assign :
      (l : List (Text × Text)) (d : Dict Text Text)
      → has_header name d ≡ false
      → once name l ≡ true
      → header name (assign l d) ≡ header name l
  unfolding assign once header has_header
  header-assign [] d h o = header_absent d h
  header-assign ((k, v) ∷ l) d h o = ground (
    arith,
    header-assign l (insert k v d),
    header-assign_other l (insert k v d),
    header-insert k v d,
    has_header-insert k v d,
  )

  not_kept :
      (k : Text) → elem (lower name) gateway_owned ≡ true → lower k ≡ lower name → is_kept k ≡ false
  unfolding is_kept
  not_kept k o e = rw (e, o) (ground arith)

  pub has_header-keep :
      (hs : List (Text × Text)) (d : Dict Text Text)
      → elem (lower name) gateway_owned ≡ true
      → has_header name d ≡ false
      → has_header name (keep_headers hs d) ≡ false
  unfolding keep_headers
  has_header-keep [] d o h = h
  has_header-keep ((k, v) ∷ hs) d o h = ground (
    arith,
    has_header-keep hs (insert k v d) o,
    has_header-keep hs d o,
    has_header-insert k v d,
    not_kept k o,
    text_beq_iff (lower k) (lower name),
  )

-- The injected headers, over the tests and the values.
unfoldable pub shaped : (c u e q : Bool) (f p h i m o g t x : Text) → List (Text × Text)
shaped c u e q f p h i m o g t x =
    let signed =
      (codes "X-User-Roles", o)
      ∷ (codes "X-Identity-Signature", g)
      ∷ (codes "X-Identity-Issued-At", t)
      ∷ [] in
    (if c then [] else (codes "X-Forwarded-For", f) ∷ [])
    ++ ((codes "X-Forwarded-Proto", p)
        ∷ (codes "X-Forwarded-Host", h)
        ∷ ((if u
              then []
              else (codes "X-User-Id", i)
                ∷ (if e then signed else (codes "X-User-Email", m) ∷ signed))
            ++ (if q then [] else (codes "X-Request-ID", x) ∷ [])))

pub shaped_user_id :
    (c u e q : Bool) (f p h i m o g t x : Text)
    → (once (codes "x-user-id") (shaped c u e q f p h i m o g t x) ≡ true)
      × (header (codes "x-user-id") (shaped c u e q f p h i m o g t x) ≡ (if u then [] else i))
unfolding shaped once header has_header lower text_beq
shaped_user_id c u e q f p h i m o g t x = ground arith

pub shaped_roles :
    (c u e q : Bool) (f p h i m o g t x : Text)
    → (once (codes "x-user-roles") (shaped c u e q f p h i m o g t x) ≡ true)
      × (header (codes "x-user-roles") (shaped c u e q f p h i m o g t x) ≡ (if u then [] else o))
unfolding shaped once header has_header lower text_beq
shaped_roles c u e q f p h i m o g t x = ground arith

pub shaped_email :
    (c u e q : Bool) (f p h i m o g t x : Text)
    → (once (codes "x-user-email") (shaped c u e q f p h i m o g t x) ≡ true)
      × (header (codes "x-user-email") (shaped c u e q f p h i m o g t x)
          ≡ (if u then [] else if e then [] else m))
unfolding shaped once header has_header lower text_beq
shaped_email c u e q f p h i m o g t x = ground arith

pub shaped_signature :
    (c u e q : Bool) (f p h i m o g t x : Text)
    → (once (codes "x-identity-signature") (shaped c u e q f p h i m o g t x) ≡ true)
      × (header (codes "x-identity-signature") (shaped c u e q f p h i m o g t x)
          ≡ (if u then [] else g))
unfolding shaped once header has_header lower text_beq
shaped_signature c u e q f p h i m o g t x = ground arith

pub shaped_issued_at :
    (c u e q : Bool) (f p h i m o g t x : Text)
    → (once (codes "x-identity-issued-at") (shaped c u e q f p h i m o g t x) ≡ true)
      × (header (codes "x-identity-issued-at") (shaped c u e q f p h i m o g t x)
          ≡ (if u then [] else t))
unfolding shaped once header has_header lower text_beq
shaped_issued_at c u e q f p h i m o g t x = ground arith

pub injected-shaped :
    (k : Crypto) (secret : Text) (now : ℕ) (r : Request)
    → injected k secret now r
      ≡ shaped
          (is_empty r.client_host)
          (is_empty r.user_id)
          (is_empty r.user_email)
          (is_empty r.request_id)
          (forwarded_for r)
          r.scheme
          r.hostname
          r.user_id
          r.user_email
          (join comma r.user_roles)
          (sign_identity k secret r.user_id r.user_email (join comma r.user_roles) now).0
          (sign_identity k secret r.user_id r.user_email (join comma r.user_roles) now).1
          r.request_id
unfolding injected shaped
injected-shaped k secret now r = refl
