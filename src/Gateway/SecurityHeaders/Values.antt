-- ===== src/Gateway/SecurityHeaders/Values.antt =====
-- services/api-gateway/app/middleware/security_headers.py: the values that a client sees.
use microservices_project.Prelude.{
  ◌≡◌, refl, sym, ap, ◌∙◌, inl, inr, Bool, true, false, ◌||◌, Option, none, some, List, [], ◌∷◌,
  arith, ◌==◌, if◌then◌else◌, Bool-cases, elem, nat_eq,
}
use microservices_project.Prelude.Text.{Text, text_eq}
use microservices_project.Gateway.SecurityHeaders.{
  Headers, credential_paths, security_headers, headers_to_remove, remove_header, set_header,
  set_all, remove_all, no_store, dispatch,
}

-- All values of a name.
abbrev pub values : Text → Headers → List Text
values n [] = []
values n ((m, v) ∷ hs) = let rest = values n hs in if m == n then v ∷ rest else rest

-- The last value that a list of assignments gives a name.
abbrev pub assigned : Text → Headers → Option Text
assigned n [] = none
assigned n ((m, v) ∷ ps) = elim (assigned n ps) [
  | some w ↦ some w
  | none ↦ if m == n then some v else none
]

-- The values of a name after the assignments.
abbrev pub override : List Text → Option Text → List Text
override old none = old
override old (some v) = v ∷ []

removed_none : (n : Text) (hs : Headers) → values n (remove_header n hs) ≡ []
removed_none n [] = refl
removed_none n ((m, v) ∷ hs) = ground (arith, removed_none n hs)

removed_other :
    (n name : Text) (hs : Headers)
    → (name == n) ≡ false
    → values n (remove_header name hs) ≡ values n hs
removed_other n name [] h = refl
removed_other n name ((m, v) ∷ hs) h = ground (
  arith,
  removed_other n name hs h,
  text_eq.beq_iff m name,
  text_eq.beq_iff m n,
  text_eq.beq_iff name n,
)

set_same : (n v : Text) (hs : Headers) → values n (set_header n v hs) ≡ v ∷ []
set_same n v [] = ground (arith, text_eq.beq_iff n n)
set_same n v ((m, w) ∷ hs) = ground (arith, set_same n v hs, removed_none n hs, text_eq.beq_iff n n)

set_other :
    (n name v : Text) (hs : Headers)
    → (name == n) ≡ false
    → values n (set_header name v hs) ≡ values n hs
set_other n name v [] h = ground arith
set_other n name v ((m, w) ∷ hs) h = ground (
  arith,
  set_other n name v hs h,
  removed_other n name hs h,
  text_eq.beq_iff m name,
  text_eq.beq_iff m n,
  text_eq.beq_iff name n,
)

set_hit : (n m v : Text) (hs : Headers) → (m == n) ≡ true → values n (set_header m v hs) ≡ v ∷ []
set_hit n m v hs h =
    ap (λ x. values n (set_header x v hs)) ((text_eq.beq_iff m n).0 h) ∙ set_same n v hs

override_step :
    (n m v : Text) (hs : Headers) (o : Option Text)
    → override (values n (set_header m v hs)) o
      ≡ override (values n hs) (elim o [ some w ↦ some w | none ↦ if m == n then some v else none ])
override_step n m v hs (some w) = refl
override_step n m v hs none = elim (Bool-cases (m == n)) [
  | inl hit ↦
      set_hit n m v hs hit ∙ ap (λ b. override (values n hs) (if b then some v else none)) (sym hit)
  | inr miss ↦
      set_other n m v hs miss
      ∙ ap (λ b. override (values n hs) (if b then some v else none)) (sym miss)
]

set_all-override :
    (n : Text) (ps hs : Headers) → values n (set_all ps hs) ≡ override (values n hs) (assigned n ps)
set_all-override n [] hs = refl
set_all-override n ((m, v) ∷ ps) hs =
    set_all-override n ps (set_header m v hs) ∙ override_step n m v hs (assigned n ps)

remove_step :
    (n name : Text) (others : Bool) (hs : Headers)
    → (if others then [] else values n (remove_header name hs))
      ≡ (if n == name || others then [] else values n hs)
remove_step n name others hs = elim (Bool-cases (name == n)) [
  | inl hit ↦
      let at = (text_eq.beq_iff name n).0 hit in
      let gone = ap (λ x. values n (remove_header x hs)) at ∙ removed_none n hs in
      ground (arith, gone, (text_eq.beq_iff n name).1 (sym at))
  | inr miss ↦
      let stays = removed_other n name hs miss in
      ground (arith, stays, text_eq.beq_iff n name, text_eq.beq_iff name n)
]

values-remove_all :
    (n : Text) (names : List Text) (hs : Headers)
    → values n (remove_all names hs) ≡ (if elem n names then [] else values n hs)
values-remove_all n [] hs = refl
values-remove_all n (name ∷ names) hs =
    values-remove_all n names (remove_header name hs) ∙ remove_step n name (elem n names) hs

stored_values :
    (n : Text) (b : Bool) (hs : Headers)
    → values n (if b then set_all no_store hs else hs)
      ≡ (if b then override (values n hs) (assigned n no_store) else values n hs)
stored_values n true hs = set_all-override n no_store hs
stored_values n false hs = refl

-- The values of a header in a response that has passed the middleware, by those that it had before:
-- none of the names that are removed; for the names that the middleware assigns, with no-store on the paths of credentials,
-- the one value assigned; for any other name, the values that the response had.
pub values-dispatch :
    (path n : Text) (hs : Headers)
    → let given = override (values n hs) (assigned n security_headers) in
      values n (dispatch path hs) ≡ (
        if elem n headers_to_remove
        then []
        else (if elem path credential_paths then override given (assigned n no_store) else given))
unfolding dispatch
values-dispatch path n hs =
    let b = elem path credential_paths in
    let secured = set_all security_headers hs in
    let stored = if b then set_all no_store secured else secured in
    let keep : List Text → List Text = λ vs. if elem n headers_to_remove then [] else vs in
    let given = set_all-override n security_headers hs in
    values-remove_all n headers_to_remove stored
    ∙ ap keep (stored_values n b secured)
    ∙ ap (λ vs. keep (if b then override vs (assigned n no_store) else vs)) given
