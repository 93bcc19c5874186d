-- ===== src/Gateway/BodySize.antt =====
-- services/api-gateway/app/middleware/body_size.py: `BodySizeLimitMiddleware`.
pub mod Counting
use microservices_project.Prelude.{
  ℕ, zero, suc, ◌+◌, ◌-◌, ◌*◌, ◌≤◌, ◌<◌, ◌≡◌, refl, sym, ap, ◌∙◌, ◌≢◌, ◌↔◌, ◌⊎◌, inl, inr, Bool,
  true, false, not, ◌&&◌, ◌||◌, Option, none, some, List, [], ◌∷◌, ◌++◌, map, arith, ltb, leb, ◌==◌,
  if◌then◌else◌, Bool-cases, Option-cases, length, All, elem, get_elem?, take, filter, tests, Eq,
  nat_eq, Result, ok, err, ◌>>=◌, ◌>>◌, require, ok_or,
}
use microservices_project.Prelude.Text.{Text}
use microservices_project.Prelude.Decimal.{ℤ, pos, negsuc, int_of}

-- An ASGI message: a piece of the body, or a message of another type.
pub data Message : Type 0 where
  request : (body : Text) → (more_body : Bool) → Message
  other : Message

-- The two variables that `counting_receive` closes over.
pub record Counter : Type 0 where
  pub received : ℕ
  pub oversize : Bool

-- `counting_receive`, from what the server's `receive` returned.
unfoldable pub counting_receive : ℕ → Message → Counter → Counter × Message
counting_receive max_bytes other c = (c, other)
counting_receive max_bytes (request body more) c =
    let received = c.received + length body in
    if ltb max_bytes received
    then (record { received = received; oversize = true }, request [] false)
    else (record c { received = received }, request body more)

-- What `call_next` runs: an application, which answers, or receives a message and goes on from it.
pub data App {ℓ} (R : Type ℓ) : Type ℓ where
  respond : R → App R
  receive : (Message → App R) → App R

-- The application over `counting_receive`. Where the client has nothing more to send, a message of
-- another type comes, the disconnect.
unfoldable pub call_next {ℓ} : {R : Type ℓ} → ℕ → App R → List Message → Counter → Counter × R
call_next max_bytes (respond r) ms c = (c, r)
call_next max_bytes (receive k) [] c = call_next max_bytes (k other) [] c
call_next max_bytes (receive k) (m ∷ ms) c =
    let (c', m') = counting_receive max_bytes m c in call_next max_bytes (k m') ms c'

-- `int(declared) > self.max_bytes`, where the header is there and is a number.
abbrev pub declared_too_large : ℕ → Option Text → Bool
declared_too_large max_bytes none = false
declared_too_large max_bytes (some declared) = elim (int_of declared) [
  | none ↦ false
  | some (pos n) ↦ ltb max_bytes n
  | some (negsuc n) ↦ false
]

-- The response: 413, or that of the application.
pub data Answer {ℓ} (R : Type ℓ) : Type ℓ where
  too_large : Answer R
  answered : R → Answer R

-- The application runs first, on the cut body where the body is too long; its response is replaced
-- after it.
unfoldable pub dispatch {ℓ} : {R : Type ℓ} → ℕ → Option Text → List Message → App R → Answer R
unfolding call_next
dispatch max_bytes declared ms app =
    let (c, r) = call_next max_bytes app ms (record { received = 0; oversize = false }) in
    if declared_too_large max_bytes declared
    then too_large
    else if c.oversize
    then too_large
    else answered r
