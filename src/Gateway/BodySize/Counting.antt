-- ===== src/Gateway/BodySize/Counting.antt =====
-- services/api-gateway/app/middleware/body_size.py: what reaches the application, and its client.
use mathlib.Core.Path.{subst}
use microservices_project.Prelude.{
  ℕ, ◌+◌, ◌≤◌, ◌<◌, ◌≡◌, refl, sym, true, false, inl, inr, Bool, Bool-cases, none, List, [], ◌∷◌,
  arith, ltb, if◌then◌else◌, length, nat_eq,
}
use microservices_project.Prelude.Text.{Text}
use microservices_project.Gateway.BodySize.{
  Message, request, other, Counter, counting_receive, App, respond, receive, call_next, too_large,
  answered, dispatch,
}

-- The bytes of a message, and of several.
abbrev pub size : Message → ℕ
size other = 0
size (request body more) = length body

abbrev pub total : List Message → ℕ
total [] = 0
total (m ∷ ms) = size m + total ms

-- An application that nothing limits: the messages of the client that it receives, and its answer.
unfoldable pub unlimited {ℓ} : {R : Type ℓ} → App R → List Message → List Message × R
unlimited (respond r) ms = ([], r)
unlimited (receive k) [] = unlimited (k other) []
unlimited (receive k) (m ∷ ms) = let (got, r) = unlimited (k m) ms in (m ∷ got, r)

module _ (max_bytes : ℕ) where
  passed_on : (c : Counter) → counting_receive max_bytes other c ≡ (c, other)
  unfolding counting_receive
  passed_on c = refl

  cut :
      (body : Text) (more : Bool) (c : Counter)
      → ltb max_bytes (c.received + length body) ≡ true
      → counting_receive max_bytes (request body more) c
        ≡ (record { received = c.received + length body; oversize = true }, request [] false)
  unfolding counting_receive
  cut body more c over = ground (arith, over)

  kept :
      (body : Text) (more : Bool) (c : Counter)
      → ltb max_bytes (c.received + length body) ≡ false
      → counting_receive max_bytes (request body more) c
        ≡ (record c { received = c.received + length body }, request body more)
  unfolding counting_receive
  kept body more c under = ground (arith, under)

  marked_step :
      (m : Message) (c : Counter)
      → c.oversize ≡ true
      → max_bytes < c.received
      → let (c', m') = counting_receive max_bytes m c in
        c'.oversize ≡ true × max_bytes < c'.received × size m' ≡ 0
  unfolding counting_receive
  marked_step other c h over = (h, over, refl)
  marked_step (request body more) c h over = ground (arith, over)

module _ {ℓ} {R : Type ℓ} (max_bytes : ℕ) where
  -- What the application is handed under the limit.
  unfoldable pub handed : App R → List Message → Counter → List Message
  handed (respond r) ms c = []
  handed (receive k) [] c = handed (k other) [] c
  handed (receive k) (m ∷ ms) c =
      let (c', m') = counting_receive max_bytes m c in m' ∷ handed (k m') ms c'

  -- Once it is marked, it stays so, and the application is handed nothing more.
  marked :
      (app : App R) (ms : List Message) (c : Counter)
      → c.oversize ≡ true
      → max_bytes < c.received
      → (call_next max_bytes app ms c).0.oversize ≡ true × total (handed app ms c) ≡ 0
  unfolding call_next handed
  marked (respond r) ms c h over = (h, refl)
  marked (receive k) [] c h over = marked (k other) [] c h over
  marked (receive k) (m ∷ ms) c h over =
      let (c', m') = counting_receive max_bytes m c in
      let (h', over', none_of_it) = marked_step max_bytes m c h over in
      let (still, rest) = marked (k m') ms c' h' over' in (still, omega (arith, none_of_it, rest))

  -- What the run under the limit has to do with the run without it, from a counter on.
  abbrev Limits : App R → List Message → Counter → Type ℓ
  Limits app ms c =
      let (got, r) = unlimited app ms in
      let (c', r') = call_next max_bytes app ms c in
      c.received + total (handed app ms c) ≤ max_bytes
      × (max_bytes < c.received + total got → c'.oversize ≡ true)
      × (c.received + total got ≤ max_bytes → c'.oversize ≡ false × r' ≡ r)

  -- The same after one message of the client, from what became of it.
  abbrev LimitsAfter :
      (Message → App R) → Message → List Message → Counter → Counter × Message → Type ℓ
  LimitsAfter k m ms c p =
      let (got, r) = unlimited (k m) ms in
      let (c', r') = call_next max_bytes (k p.1) ms p.0 in
      c.received + (size p.1 + total (handed (k p.1) ms p.0)) ≤ max_bytes
      × (max_bytes < c.received + (size m + total got) → c'.oversize ≡ true)
      × (c.received + (size m + total got) ≤ max_bytes → c'.oversize ≡ false × r' ≡ r)

  limits :
      (app : App R) (ms : List Message) (c : Counter)
      → c.oversize ≡ false
      → c.received ≤ max_bytes
      → Limits app ms c
  unfolding call_next handed unlimited
  limits (respond r) ms c h fits =
      (omega (arith, fits), λ e. absurd (omega (arith, e, fits)), λ e. (h, refl))
  limits (receive k) [] c h fits = limits (k other) [] c h fits
  limits (receive k) (other ∷ ms) c h fits =
      let (sum, above, below) = limits (k other) ms c h fits in
      subst (LimitsAfter k other ms c) (sym (passed_on max_bytes c))
        (omega (arith, sum), λ e. above (omega (arith, e)), λ e. below (omega (arith, e)))
  limits (receive k) (request body more ∷ ms) c h fits =
      let n = c.received + length body in
      elim (Bool-cases (ltb max_bytes n)) [
        | inl over ↦
            let more_than : max_bytes < n = ground (arith, over) in
            let c' : Counter = record { received = n; oversize = true } in
            let (still, nothing) = marked (k (request [] false)) ms c' refl more_than in
            subst (LimitsAfter k (request body more) ms c) (sym (cut max_bytes body more c over))
              (omega (arith, nothing, fits), λ e. still, λ e. absurd (omega (arith, e, more_than)))
        | inr under ↦
            let within : n ≤ max_bytes = ground (arith, under) in
            let (sum, above, below) =
              limits (k (request body more)) ms (record c { received = n }) h within in
            subst (LimitsAfter k (request body more) ms c) (sym (kept max_bytes body more c under))
              (omega (arith, sum), λ e. above (omega (arith, e)), λ e. below (omega (arith, e)))
      ]

abbrev pub start : Counter
start = record { received = 0; oversize = false }

-- Without a declared length, an application is handed no more bytes than the limit, whatever the client
-- sends and however much of it the application reads. Where all that it would read without a limit is
-- within it, the client gets the answer that it would give without one; else, also where the
-- application has answered from the cut body, the client gets 413.
pub dispatch_limits {ℓ} :
    {R : Type ℓ} (max_bytes : ℕ) (ms : List Message) (app : App R)
    → let (got, r) = unlimited app ms in
      total (handed max_bytes app ms start) ≤ max_bytes
      × dispatch max_bytes none ms app
        ≡ (if ltb max_bytes (total got) then too_large else answered r)
unfolding dispatch
dispatch_limits max_bytes ms app =
    let (sum, above, below) = limits max_bytes app ms start refl (omega arith) in
    (
      omega (arith, sum),
      elim (Bool-cases (ltb max_bytes (total (unlimited app ms).0))) [
        | inl over ↦ ground (arith, above (ground (arith, over)), over)
        | inr under ↦ ground (arith, below (ground (arith, under)), under)
      ],
    )
