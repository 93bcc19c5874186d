-- ===== src/User/Requests.antt =====
-- services/user-service: the requests that change the store, one after another.
use microservices_project.Prelude.{
  ◌≡◌, refl, sym, ap, ◌∙◌, Bool, true, false, not, Option, none, some, List, [], ◌∷◌, arith, ◌==◌,
  All, elem, nat_eq, Result, ok, err, ◌>>=◌, ◌>>◌, require, ok_or,
}
use microservices_project.Prelude.Text.{Text, text_eq}
use microservices_project.User.Models.{User, user_by, user_by_column, matching}
use microservices_project.User.Client.{
  Client, consume_email_verification_token, consume_password_reset_token,
}
use microservices_project.User.Login.{HttpError}
use microservices_project.User.Account.{
  UserCreate, Settings, Store, scalar_one_or_none, send_verification_email,
  send_password_reset_email, new_user, finish_register, register, token_owner, verify_of,
  finish_verify, verify_email, resend_to, resend_verification, mail_reset_to, forgot_password,
  reset_of, finish_reset, reset_password,
}
use microservices_project.User.Admin.{
  user_not_found, admin_required, self_delete, UserUpdate, has_admin, require_admin,
  get_user_or_404, save, discard, apply_update, update_me, deactivate_me, hard_delete_me,
  admin_promote_user, admin_demote_user, admin_delete_user,
}
use microservices_project.User.Changes.{
  Change, kept, added, saved, removed, IsUnique, admin_ids, Change-IsUnique, Change-admin_ids,
}

-- A request, with the id and the token that the service makes for it.
pub data Request : Type 0 where
  register_request : (id token : Text) → UserCreate → Request
  verify_request : (token : Text) → Request
  resend_request : (token email : Text) → Request
  forgot_request : (token email : Text) → Request
  reset_request : (token new_password : Text) → Request
  update_request : UserUpdate → (caller_id : Text) → Request
  deactivate_request : (caller_id : Text) → Request
  hard_delete_request : (caller_id : Text) → Request
  promote_request : (x_user_roles user_id : Text) → Request
  demote_request : (x_user_roles caller_id user_id : Text) → Request
  delete_request : (x_user_roles caller_id user_id : Text) → Request

-- Whether the request has the admin role.
unfoldable pub has_role : Request → Bool
has_role (promote_request roles user_id) = has_admin roles
has_role (demote_request roles caller_id user_id) = has_admin roles
has_role (delete_request roles caller_id user_id) = has_admin roles
has_role r = false

-- `get_user_or_404` finds a row of that id.
found_id :
    (id : Text) (us : List User) (u : User)
    → user_by (λ w. w.id) id us ≡ some u
    → user_by (λ w. w.id) u.id us ≡ some u
found_id id us u e = ap (λ i. user_by (λ w. w.id) i us) (user_by_column (λ w. w.id) id us u e) ∙ e

discard-Change :
    (role : Bool) (us : List User) (r : Result HttpError User) → Change role us (discard us r).0
discard-Change role us (err e) = kept
discard-Change role us (ok u) = removed u.id

-- A route that answers with the row it saved.
save-Change :
    (role : Bool) (id : Text) (us : List User) (f : User → Result HttpError User) (o : Option User)
    → user_by (λ w. w.id) id us ≡ o
    → ((u v : User)
        → f u ≡ ok v
        → v.id ≡ u.id
          × v.email ≡ u.email
          × v.username ≡ u.username
          × (role ≡ false → v.is_admin ≡ u.is_admin))
    → Change role us (save us (ok_or o user_not_found >>= f)).0
save-Change role id us f none e h = kept
save-Change role id us f (some u) e h = saved_by (f u) refl
  where
    saved_by : (r : Result HttpError User) → f u ≡ r → Change role us (save us r).0
    saved_by (err x) q = kept
    saved_by (ok v) q =
        let (same, email, username, admin) = h u v q in
        let at = ap (λ i. user_by (λ w. w.id) i us) same ∙ found_id id us u e in
        saved u v at email username admin

same_fields :
    (role : Bool) (u w v : User)
    → w.id ≡ u.id
    → w.email ≡ u.email
    → w.username ≡ u.username
    → (role ≡ false → w.is_admin ≡ u.is_admin)
    → ◌≡◌ {A = Result HttpError User} (ok w) (ok v)
    → v.id ≡ u.id
      × v.email ≡ u.email
      × v.username ≡ u.username
      × (role ≡ false → v.is_admin ≡ u.is_admin)
same_fields role u w v i e n a q =
    let same : v ≡ w = sym (ap (λ r. elim r [ err x ↦ w | ok x ↦ x ]) q) in rw same ((i, e, n, a))

required :
    (b : Bool) (e : HttpError) (r : Result HttpError User) (v : User)
    → require b e >> r ≡ ok v
    → r ≡ ok v
required true e r v h = h
required false e r v h = absurd (ground arith)

-- A check in front of a route.
require-Change :
    (role b : Bool) (us : List User) (e : HttpError) (m : Result HttpError User)
    → Change role us (save us m).0
    → Change role us (save us (require b e >> m)).0
require-Change role true us e m h = h
require-Change role false us e m h = kept

admin-Change :
    (role : Bool) (us : List User) (m : Result HttpError User)
    → Change true us (save us m).0
    → Change role us (save us (require role admin_required >> m)).0
admin-Change true us m h = h
admin-Change false us m h = kept

module _ {C : Type 0} (k : Client C) (connected : Bool) (cfg : Settings) (hash : Text → Text)
    (uuid : Text → Option Text) where
  unfoldable pub handle : Request → Store C → Store C
  handle (register_request id token payload) s =
      (register k connected cfg hash uuid id token payload s).0
  handle (verify_request token) s = (verify_email k connected cfg hash uuid token s).0
  handle (resend_request token email) s =
      resend_verification k connected cfg hash uuid token email s
  handle (forgot_request token email) s = forgot_password k connected cfg hash uuid token email s
  handle (reset_request token new_password) s =
      (reset_password k connected cfg hash uuid token new_password s).0
  handle (update_request payload caller_id) s = record s {
    users = (update_me hash payload caller_id s.users).0;
  }
  handle (deactivate_request caller_id) s = record s { users = (deactivate_me caller_id s.users).0 }
  handle (hard_delete_request caller_id) s = record s {
    users = (hard_delete_me caller_id s.users).0;
  }
  handle (promote_request roles user_id) s = record s {
    users = (admin_promote_user roles user_id s.users).0;
  }
  handle (demote_request roles caller_id user_id) s = record s {
    users = (admin_demote_user roles caller_id user_id s.users).0;
  }
  handle (delete_request roles caller_id user_id) s = record s {
    users = (admin_delete_user roles caller_id user_id s.users).0;
  }

  unfoldable pub handle_all : List Request → Store C → Store C
  handle_all [] s = s
  handle_all (r ∷ rs) s = handle_all rs (handle r s)

  send_users :
      (token : Text) (u : User) (s : Store C)
      → (send_verification_email k connected cfg hash uuid token u s).users ≡ s.users
  unfolding send_verification_email
  send_users token u s = refl

  register-Change :
      (id token : Text) (payload : UserCreate) (s : Store C) (ms : List User)
      → matching payload.email payload.username s.users ≡ ms
      → Change false s.users
          (finish_register k connected cfg hash uuid id token payload s
            (scalar_one_or_none ms)).0.users
  unfolding send_verification_email
  register-Change id token payload s [] e =
      added (new_user k connected cfg hash uuid id payload) e refl
  register-Change id token payload s (u ∷ []) e = kept
  register-Change id token payload s (u ∷ v ∷ ms) e = kept

  owner_row :
      (us : List User) (o : Option Text) (u : User)
      → token_owner k connected cfg hash uuid o us ≡ some u
      → user_by (λ w. w.id) u.id us ≡ some u
  owner_row us none u e = absurd (ground arith)
  owner_row us (some id) u e = found_id id us u e

  verify_of-Change :
      (s : Store C) (o : Option Text) (v : Option User)
      → token_owner k connected cfg hash uuid o s.users ≡ v
      → Change false s.users (verify_of k connected cfg hash uuid s v).0.users
  verify_of-Change s o none e = kept
  verify_of-Change s o (some u) e =
      saved u (record u { email_verified = true }) (owner_row s.users o u e) refl refl (λ r. refl)

  verify-Change :
      (s : Store C) (o : Option Text)
      → Change false s.users (finish_verify k connected cfg hash uuid s o).0.users
  verify-Change s none = kept
  verify-Change s (some []) = kept
  verify-Change s (some (c ∷ cs)) = verify_of-Change s (uuid (c ∷ cs)) _ refl

  reset_of-Change :
      (new_password : Text) (s : Store C) (o : Option Text) (v : Option User)
      → token_owner k connected cfg hash uuid o s.users ≡ v
      → Change false s.users (reset_of k connected cfg hash uuid new_password s v).0.users
  reset_of-Change p s o none e = kept
  reset_of-Change p s o (some u) e =
      saved u (record u { hashed_password = hash p }) (owner_row s.users o u e) refl refl
        (λ r. refl)

  reset-Change :
      (new_password : Text) (s : Store C) (o : Option Text)
      → Change false s.users (finish_reset k connected cfg hash uuid new_password s o).0.users
  reset-Change p s none = kept
  reset-Change p s (some []) = kept
  reset-Change p s (some (c ∷ cs)) = reset_of-Change p s (uuid (c ∷ cs)) _ refl

  resend_users :
      (token : Text) (s : Store C) (o : Option User)
      → (resend_to k connected cfg hash uuid token s o).users ≡ s.users
  unfolding send_verification_email
  resend_users token s none = refl
  resend_users token s (some u) = ground arith

  forgot_users :
      (token : Text) (s : Store C) (o : Option User)
      → (mail_reset_to k connected cfg hash uuid token s o).users ≡ s.users
  unfolding send_password_reset_email
  forgot_users token s none = refl
  forgot_users token s (some u) = ground arith

  unchanged : (role : Bool) (us vs : List User) → vs ≡ us → Change role us vs
  unchanged role us vs e = rw e (kept)

  pub handle-Change : (r : Request) (s : Store C) → Change (has_role r) s.users (handle r s).users
  unfolding has_role handle register verify_email resend_verification forgot_password reset_password
      update_me deactivate_me hard_delete_me get_user_or_404 require_admin admin_promote_user
      admin_demote_user admin_delete_user consume_email_verification_token
      consume_password_reset_token
  handle-Change (register_request id token payload) s =
      register-Change id token payload s (matching payload.email payload.username s.users) refl
  handle-Change (verify_request token) s =
      let (redis, o) = consume_email_verification_token k connected token s.redis in
      verify-Change (record s { redis = redis }) o
  handle-Change (resend_request token email) s =
      unchanged false s.users _ (resend_users token s (user_by (λ u. u.email) email s.users))
  handle-Change (forgot_request token email) s =
      unchanged false s.users _ (forgot_users token s (user_by (λ u. u.email) email s.users))
  handle-Change (reset_request token new_password) s =
      let (redis, o) = consume_password_reset_token k connected token s.redis in
      reset-Change new_password (record s { redis = redis }) o
  handle-Change (update_request payload caller_id) s =
      save-Change false caller_id s.users (λ u. ok (apply_update hash payload u)) _ refl
        (λ u v q. same_fields false u (apply_update hash payload u) v refl refl refl (λ r. refl) q)
  handle-Change (deactivate_request caller_id) s =
      save-Change false caller_id s.users (λ u. ok (record u { is_active = false })) _ refl
        (λ u v q.
          same_fields false u (record u { is_active = false }) v refl refl refl (λ r. refl) q)
  handle-Change (hard_delete_request caller_id) s = discard-Change false s.users _
  handle-Change (promote_request roles user_id) s = admin-Change (has_admin roles) s.users _ (
      save-Change true user_id s.users _ _ refl (λ u v q.
        same_fields true u (record u { is_admin = true }) v refl refl refl
          (λ r. absurd (ground arith)) (required (not u.is_admin) _ _ v q)))
  handle-Change (demote_request roles caller_id user_id) s =
      admin-Change (has_admin roles) s.users _ (
        require-Change true (not (user_id == caller_id)) s.users _ _ (
          save-Change true user_id s.users _ _ refl (λ u v q.
            same_fields true u (record u { is_admin = false }) v refl refl refl
              (λ r. absurd (ground arith)) q)))
  handle-Change (delete_request roles caller_id user_id) s =
      discard-Change (has_admin roles) s.users (do
        require_admin roles
        require (not (user_id == caller_id)) self_delete
        get_user_or_404 user_id s.users)

  -- No sequence of requests puts two rows with one email, or two with one username, into the table.
  pub handle_all-IsUnique :
      (rs : List Request) (s : Store C) → IsUnique s.users → IsUnique (handle_all rs s).users
  unfolding handle_all
  handle_all-IsUnique [] s h = h
  handle_all-IsUnique (r ∷ rs) s h =
      handle_all-IsUnique rs (handle r s)
        (Change-IsUnique s.users (handle r s).users (handle-Change r s) h)

  -- Requests without the admin role, in any number, make nobody an administrator: who has the flag
  -- after them had it before.
  pub no_escalation :
      (rs : List Request) (s : Store C) (id : Text)
      → All (λ r. has_role r ≡ false) rs
      → elem id (admin_ids (handle_all rs s).users) ≡ true
      → elem id (admin_ids s.users) ≡ true
  unfolding handle_all
  no_escalation [] s id h e = e
  no_escalation (r ∷ rs) s id h e =
      let before = no_escalation rs (handle r s) id h.1 e in
      Change-admin_ids s.users (handle r s).users h.0 (handle-Change r s) id before
