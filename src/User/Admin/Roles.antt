-- ===== src/User/Admin/Roles.antt =====
-- services/user-service/app/routes/users.py: who may use the routes of administrators.
use microservices_project.Prelude.{
  ◌≡◌, refl, sym, ap, ◌∙◌, ◌⊎◌, inl, inr, Bool, true, false, not, Option, none, some, List, [], ◌∷◌,
  arith, ◌==◌, Bool-cases, nat_eq, Result, ok, err, ◌>>=◌, ◌>>◌, require, ok_or,
}
use microservices_project.Prelude.Text.{Text, text_eq}
use microservices_project.User.Models.{User, user_by, user_by_column, set_user, remove_user}
use microservices_project.User.Login.{HttpError}
use microservices_project.User.Admin.{
  user_not_found, already_admin, self_demote, self_delete, admin_required, has_admin, require_admin,
  get_user_or_404, save, discard, admin_promote_user, admin_demote_user, admin_delete_user,
}

saved_apart :
    (id : Text) (v : User) (us : List User)
    → (v.id == id) ≡ false
    → user_by (λ w. w.id) id (set_user v us) ≡ user_by (λ w. w.id) id us
unfolding user_by set_user
saved_apart id v [] h = refl
saved_apart id v (w ∷ ws) h =
    ground (arith, saved_apart id v ws h, text_eq.beq_iff w.id v.id, text_eq.beq_iff w.id id)

removed_apart :
    (id other : Text) (us : List User)
    → (other == id) ≡ false
    → user_by (λ w. w.id) id (remove_user other us) ≡ user_by (λ w. w.id) id us
unfolding user_by remove_user
removed_apart id other [] h = refl
removed_apart id other (w ∷ ws) h = ground (
  arith,
  removed_apart id other ws h,
  text_eq.beq_iff w.id other,
  text_eq.beq_iff w.id id,
  text_eq.beq_iff other id,
)

save_apart :
    (id : Text) (us : List User) (r : Result HttpError User)
    → ((v : User) → r ≡ ok v → (v.id == id) ≡ false)
    → user_by (λ w. w.id) id (save us r).0 ≡ user_by (λ w. w.id) id us
save_apart id us (err e) h = refl
save_apart id us (ok v) h = saved_apart id v us (h v refl)

discard_apart :
    (id : Text) (us : List User) (r : Result HttpError User)
    → ((v : User) → r ≡ ok v → (v.id == id) ≡ false)
    → user_by (λ w. w.id) id (discard us r).0 ≡ user_by (λ w. w.id) id us
discard_apart id us (err e) h = refl
discard_apart id us (ok v) h = removed_apart id v.id us (h v refl)

-- The row that each route takes, with the checks it has passed.
granted : (u v : User) → ◌≡◌ {A = Result HttpError User} (ok u) (ok v) → u.id ≡ v.id
granted u v h = ap (λ r. elim r [ err x ↦ u.id | ok x ↦ x.id ]) h

passed :
    (u v : User)
    → (u.is_admin ≡ true) ⊎ (u.is_admin ≡ false)
    → (do require (not u.is_admin) already_admin; ok (record u { is_admin = true })) ≡ ok v
    → u.is_admin ≡ false × u.id ≡ v.id
passed u v (inl flag) h = absurd (ground arith)
passed u v (inr off) h =
    let set = record u { is_admin = true } in
    let step = ap (λ b. require (not b) already_admin >> ok set) (sym off) ∙ h in
    (off, granted set v step)

promoted :
    (b : Bool) (o : Option User) (v : User)
    → (do
      require b admin_required
      u ← ok_or o user_not_found
      require (not u.is_admin) already_admin
      ok (record u { is_admin = true }))
      ≡ ok v
    → (u : User) × o ≡ some u × u.is_admin ≡ false × u.id ≡ v.id
promoted true (some u) v h = let q = passed u v (Bool-cases u.is_admin) h in (u, refl, q.0, q.1)
promoted true none v h = absurd (ground arith)
promoted false o v h = absurd (ground arith)

demoted :
    (b same : Bool) (o : Option User) (v : User)
    → (do
      require b admin_required
      require (not same) self_demote
      u ← ok_or o user_not_found
      ok (record u { is_admin = false }))
      ≡ ok v
    → (u : User) × o ≡ some u × same ≡ false × u.id ≡ v.id
demoted true false (some u) v h = (u, refl, refl, granted (record u { is_admin = false }) v h)
demoted true false none v h = absurd (ground arith)
demoted true true o v h = absurd (ground arith)
demoted false same o v h = absurd (ground arith)

deleted :
    (b same : Bool) (o : Option User) (v : User)
    → (do require b admin_required; require (not same) self_delete; ok_or o user_not_found) ≡ ok v
    → o ≡ some v × same ≡ false
deleted true false (some u) v h = ground arith
deleted true false none v h = absurd (ground arith)
deleted true true o v h = absurd (ground arith)
deleted false same o v h = absurd (ground arith)

-- A promoted row had no flag, so it is not the row of an administrator.
promoted_other :
    (user_id caller_id : Text) (v u w : User) (users : List User)
    → user_by (λ x. x.id) caller_id users ≡ some u
    → u.is_admin ≡ true
    → user_by (λ x. x.id) user_id users ≡ some w
    → w.is_admin ≡ false
    → w.id ≡ v.id
    → (v.id == caller_id) ≡ false
promoted_other user_id caller_id v u w users e a found flag same =
    elim (Bool-cases (v.id == caller_id)) [
      | inl hit ↦
          let at = user_by_column (λ x. x.id) user_id users w found in
          let own : v.id ≡ caller_id = (text_eq.beq_iff v.id caller_id).0 hit in
          let both : some u ≡ some w =
            sym e ∙ ap (λ i. user_by (λ x. x.id) i users) (sym own ∙ sym same ∙ at) ∙ found in
          let flags = ap (λ o. elim o [ none ↦ true | some x ↦ x.is_admin ]) both in
          absurd (ground arith)
      | inr miss ↦ miss
    ]

-- An administrator, a caller whose row has the flag, keeps that row as it is, whatever users the
-- caller promotes, demotes or deletes.
pub admin_keeps_self :
    (roles caller_id user_id : Text) (users : List User) (u : User)
    → user_by (λ w. w.id) caller_id users ≡ some u
    → u.is_admin ≡ true
    → user_by (λ w. w.id) caller_id (admin_promote_user roles user_id users).0 ≡ some u
      × user_by (λ w. w.id) caller_id (admin_demote_user roles caller_id user_id users).0 ≡ some u
      × user_by (λ w. w.id) caller_id (admin_delete_user roles caller_id user_id users).0 ≡ some u
unfolding require_admin get_user_or_404 admin_promote_user admin_demote_user admin_delete_user
admin_keeps_self roles caller_id user_id users u e a =
    let o = user_by (λ w. w.id) user_id users in
    (
      save_apart caller_id users _ (λ v h.
            let (w, found, flag, same) = promoted (has_admin roles) o v h in
            promoted_other user_id caller_id v u w users e a found flag same)
          ∙ e,
      save_apart caller_id users _ (λ v h.
            let (w, found, other, same) = demoted (has_admin roles) (user_id == caller_id) o v h in
            let at = user_by_column (λ x. x.id) user_id users w found in ground arith)
          ∙ e,
      discard_apart caller_id users _ (λ v h.
            let (found, other) = deleted (has_admin roles) (user_id == caller_id) o v h in
            let at = user_by_column (λ x. x.id) user_id users v found in ground arith)
          ∙ e,
    )
