-- ===== src/User/Changes.antt =====
-- services/user-service: what one request may do to the table of users.
use microservices_project.Prelude.{are_distinct}
use microservices_project.Prelude.{
  ◌≡◌, refl, sym, ap, ◌∙◌, Bool, true, false, some, List, [], ◌∷◌, map, arith, elem, filter, nat_eq,
}
use microservices_project.Prelude.Text.{Text, text_eq}
use microservices_project.User.Models.{User, user_by, set_user, remove_user, matching}

-- The table is kept, or one row is added, saved or removed; roles change only where it is allowed.
pub data Change (role : Bool) (us : List User) : List User → Type 0 where
  kept : Change role us us
  added :
      (u : User)
      → matching u.email u.username us ≡ []
      → u.is_admin ≡ false
      → Change role us (u ∷ us)
  saved :
      (u v : User)
      → user_by (λ w. w.id) v.id us ≡ some u
      → v.email ≡ u.email
      → v.username ≡ u.username
      → (role ≡ false → v.is_admin ≡ u.is_admin)
      → Change role us (set_user v us)
  removed : (id : Text) → Change role us (remove_user id us)

-- The unique columns of the table.
unfoldable pub IsUnique : List User → Type 0
IsUnique us =
    are_distinct (map (λ u. u.email) us) ≡ true × are_distinct (map (λ u. u.username) us) ≡ true

-- The ids of the administrators.
unfoldable pub admin_ids : List User → List Text
admin_ids us = map (λ u. u.id) (filter (λ u. u.is_admin) us)

saved-column :
    (column : User → Text) (u v : User) (us : List User)
    → user_by (λ w. w.id) v.id us ≡ some u
    → column v ≡ column u
    → map column (set_user v us) ≡ map column us
unfolding user_by set_user
saved-column column u v [] i e = refl
saved-column column u v (w ∷ ws) i e =
    ground (arith, saved-column column u v ws, text_eq.beq_iff w.id v.id)

removed-elem :
    (column : User → Text) (id x : Text) (us : List User)
    → elem x (map column us) ≡ false
    → elem x (map column (remove_user id us)) ≡ false
unfolding remove_user
removed-elem column id x [] h = refl
removed-elem column id x (u ∷ us) h = ground (arith, removed-elem column id x us)

removed_distinct :
    (column : User → Text) (id : Text) (us : List User)
    → are_distinct (map column us) ≡ true
    → are_distinct (map column (remove_user id us)) ≡ true
unfolding remove_user
removed_distinct column id [] d = refl
removed_distinct column id (u ∷ us) d =
    ground (arith, removed_distinct column id us, removed-elem column id (column u) us)

matching_none :
    (email username : Text) (us : List User)
    → matching email username us ≡ []
    → elem email (map (λ u. u.email) us) ≡ false × elem username (map (λ u. u.username) us) ≡ false
unfolding matching
matching_none email username [] h = (refl, refl)
matching_none email username (u ∷ us) h = ground (
  arith,
  matching_none email username us,
  text_eq.beq_iff email u.email,
  text_eq.beq_iff u.email email,
  text_eq.beq_iff username u.username,
  text_eq.beq_iff u.username username,
)

-- Each change keeps the columns unique.
pub Change-IsUnique :
    {role : Bool} (us vs : List User) → Change role us vs → IsUnique us → IsUnique vs
unfolding IsUnique
Change-IsUnique us vs kept h = h
Change-IsUnique us vs (added u m n) h =
    let (email, username) = matching_none u.email u.username us m in ground arith
Change-IsUnique us vs (saved u v i e n r) h =
    let emails = saved-column (λ w. w.email) u v us i e in
    let usernames = saved-column (λ w. w.username) u v us i n in
    (ap are_distinct emails ∙ h.0, ap are_distinct usernames ∙ h.1)
Change-IsUnique us vs (removed id) h =
    (removed_distinct (λ w. w.email) id us h.0, removed_distinct (λ w. w.username) id us h.1)

saved-admin_ids :
    (u v : User) (us : List User)
    → user_by (λ w. w.id) v.id us ≡ some u
    → v.is_admin ≡ u.is_admin
    → admin_ids (set_user v us) ≡ admin_ids us
unfolding user_by set_user admin_ids
saved-admin_ids u v [] i e = refl
saved-admin_ids u v (w ∷ ws) i e = ground (arith, saved-admin_ids u v ws, text_eq.beq_iff w.id v.id)

removed-admin_ids :
    (id x : Text) (us : List User)
    → elem x (admin_ids (remove_user id us)) ≡ true
    → elem x (admin_ids us) ≡ true
unfolding remove_user admin_ids
removed-admin_ids id x [] h = h
removed-admin_ids id x (u ∷ us) h = ground (arith, removed-admin_ids id x us)

-- Without the role, a change makes nobody an administrator.
pub Change-admin_ids :
    {role : Bool} (us vs : List User)
    → role ≡ false
    → Change role us vs
    → (x : Text) → elem x (admin_ids vs) ≡ true
    → elem x (admin_ids us) ≡ true
unfolding admin_ids
Change-admin_ids us vs out kept x h = h
Change-admin_ids us vs out (added u m n) x h = ground arith
Change-admin_ids us vs out (saved u v i e n r) x h =
    ap (elem x) (sym (saved-admin_ids u v us i (r out))) ∙ h
Change-admin_ids us vs out (removed id) x h = removed-admin_ids id x us h
