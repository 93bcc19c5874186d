-- ===== src/Gateway/Keyring/Format.antt =====
-- services/_shared_jwt_keyring.py: a keyring written in the format of JWT_SECRETS is read back.
use mathlib.Core.List.{append_assoc, append-nil}
use microservices_project.Prelude.{
  ◌≤◌, ◌≡◌, refl, ap, ◌∙◌, true, false, List, [], ◌∷◌, ◌++◌, map, arith, length, All, nat_eq, ok,
}
use microservices_project.Prelude.Text.{
  Text, text_eq, text_beq_iff, join, NoSpace, strip_plain, Without, split-join, partition-append,
}
use microservices_project.Prelude.Dict.{insert, contains, IsDict}
use microservices_project.Gateway.Keyring.{
  Keyring, is_blank, parse_entry, parse_entries, parse_keyring,
}
use microservices_project.Gateway.Keyring.Parse.{Named, IsValid}

-- `kid=secret`
abbrev pub entry : Text × Text → Text
entry e = e.0 ++ (61 ∷ e.1)

-- `k1=s1,k2=s2`
abbrev pub format : Keyring → Text
format k = join 44 (map entry k)

-- A kid without `=`, and both parts without `,` and white space.
pub record IsPlain (e : Text × Text) : Type 0 where
  pub kid_space : NoSpace e.0
  pub secret_space : NoSpace e.1
  pub kid_equals : Without 61 e.0
  pub kid_comma : Without 44 e.0
  pub secret_comma : Without 44 e.1

All-++ :
    {A : Type 0} (P : A → Type 0) (xs : List A) (c : A) (ys : List A)
    → All P xs
    → P c
    → All P ys
    → All P (xs ++ (c ∷ ys))
All-++ P [] c ys a p b = (p, b)
All-++ P (x ∷ xs) c ys a p b = (a.0, All-++ P xs c ys a.1 p b)

entry-NoSpace : (e : Text × Text) → IsPlain e → NoSpace (entry e)
entry-NoSpace e p = All-++ _ e.0 61 e.1 p.kid_space refl p.secret_space

entry-Without : (e : Text × Text) → IsPlain e → Without 44 (entry e)
entry-Without e p = All-++ _ e.0 61 e.1 p.kid_comma (omega arith) p.secret_comma

is_blank-append : (s t : Text) → is_blank (s ++ (61 ∷ t)) ≡ false
is_blank-append [] t = refl
is_blank-append (c ∷ s) t = refl

parse_entry-entry :
    (e : Text × Text)
    → IsPlain e
    → is_blank e.0 ≡ false
    → is_blank e.1 ≡ false
    → parse_entry (entry e) ≡ ok e
unfolding parse_entry
parse_entry-entry e p a b = ground (
  arith,
  partition-append 61 e.0 e.1 p.kid_equals,
  strip_plain e.0 p.kid_space,
  strip_plain e.1 p.secret_space,
)

insert_new :
    (kid secret : Text) (k : Keyring)
    → contains kid k ≡ false
    → insert kid secret k ≡ k ++ (kid, secret) ∷ []
insert_new kid secret [] c = refl
insert_new kid secret ((j, w) ∷ k) c =
    ground (arith, insert_new kid secret k, text_beq_iff j kid, text_beq_iff kid j)

contains_middle :
    (k : Keyring) (kid secret : Text) (r : Keyring) → contains kid (k ++ ((kid, secret) ∷ r)) ≡ true
contains_middle [] kid secret r = ground (arith, text_beq_iff kid kid)
contains_middle ((j, w) ∷ k) kid secret r = ground (arith, contains_middle k kid secret r)

IsDict-split :
    (k : Keyring) (kid secret : Text) (r : Keyring)
    → IsDict (k ++ ((kid, secret) ∷ r))
    → contains kid k ≡ false
IsDict-split [] kid secret r d = refl
IsDict-split ((j, w) ∷ k) kid secret r d =
    ground
      (arith, IsDict-split k kid secret r d.1, contains_middle k kid secret r, text_beq_iff j kid)

parse_entries-entries :
    (k r : Keyring)
    → All IsPlain r
    → Named r
    → IsDict (k ++ r)
    → parse_entries (map entry r) k ≡ ok (k ++ r)
unfolding parse_entries
parse_entries-entries k [] p n d = rw append-nil
parse_entries-entries k (e ∷ r) p n d =
    let fresh = IsDict-split k e.0 e.1 r d in
    let next =
      parse_entries-entries (k ++ e ∷ []) r p.1 n.1 (rw append_assoc d)
      ∙ ap ok (append_assoc k (e ∷ []) r) in
    rw
      (
        strip_plain (entry e) (entry-NoSpace e p.0),
        is_blank-append e.0 e.1,
        parse_entry-entry e p.0 n.0.0 n.0.1,
        fresh,
        insert_new e.0 e.1 k fresh,
      )
      next

All-map :
    (P : Text → Type 0) (k : Keyring)
    → ((e : Text × Text) → IsPlain e → P (entry e))
    → All IsPlain k
    → All P (map entry k)
All-map P [] f p = tt
All-map P (e ∷ k) f p = (f e p.0, All-map P k f p.1)

join-NoSpace : (fs : List Text) → All NoSpace fs → NoSpace (join 44 fs)
unfolding join
join-NoSpace [] h = tt
join-NoSpace (f ∷ []) h = h.0
join-NoSpace (f ∷ g ∷ fs) h = All-++ _ f 44 _ h.0 refl (join-NoSpace (g ∷ fs) h.1)

is_blank-format : (e : Text × Text) (k : Keyring) → is_blank (format (e ∷ k)) ≡ false
unfolding join
is_blank-format e [] = is_blank-append e.0 e.1
is_blank-format ([], secret) (f ∷ k) = refl
is_blank-format (c ∷ kid, secret) (f ∷ k) = refl

-- A valid keyring with a key, of kids and secrets without `,` and white space, and kids without
-- `=`, which a secret may hold, comes back from its text, whatever the fallback is.
pub parse_keyring-format :
    (k : Keyring) (fallback_secret fallback_kid : Text)
    → 1 ≤ length k
    → All IsPlain k
    → IsValid k
    → parse_keyring (format k) fallback_secret fallback_kid ≡ ok k
unfolding parse_keyring
parse_keyring-format [] fs fk h p v = absurd (omega arith)
parse_keyring-format (e ∷ k) fs fk h p v = rw (
  strip_plain (format (e ∷ k))
      (join-NoSpace (map entry (e ∷ k)) (All-map NoSpace (e ∷ k) entry-NoSpace p)),
  is_blank-format e k,
  split-join 44 (entry e) (map entry k) (All-map (Without 44) (e ∷ k) entry-Without p),
  parse_entries-entries [] (e ∷ k) p v.named v.distinct,
)
