-- ===== src/User/Login/Sessions.antt =====
-- services/user-service/app/routes/auth.py and redis_client.py: lockout and single use.
use microservices_project.Prelude.{
  ℕ, ◌+◌, ◌≤◌, ◌≡◌, refl, ap, ◌∙◌, ◌≢◌, inl, inr, Bool, true, false, Option, none, some, List, [],
  ◌∷◌, arith, leb, if◌then◌else◌, Bool-cases, length, nat_eq, Result, ok, err,
}
use Prim.Native.Nat.{min}
use microservices_project.Prelude.{drop}
use microservices_project.Prelude.Text.{Text, codes, text_eq}
use microservices_project.Prelude.Decimal.{str, int_of-str}
use microservices_project.User.Client.{
  Client, Laws, refresh_key, login_fail_key, lockout_threshold, lockout_window_seconds,
  refresh_token_ttl, store_refresh_token, consume_refresh_token, is_account_locked,
  record_login_failure, reset_login_failures,
}
use microservices_project.User.Models.{User, user_by}
use microservices_project.User.Login.{
  TokenResponse, HttpError, http_exception, invalid_login, invalid_refresh, issue_token_response,
  decide_login, candidate_hash, login, decide_refresh, after_consume, refresh_token,
}

module _ {C : Type 0} (k : Client C) (laws : Laws k) (verify : Text → Text → Bool) (dummy : Text)
    (users : List User) where
  -- Wrong passwords, one after the other.
  unfoldable pub attempts : Text → Text → List Text → C → C
  attempts fresh email [] c = c
  attempts fresh email (p ∷ ps) c =
      attempts fresh email ps (login k true verify dummy users fresh email p c).0

  abbrev pub AllWrong : Text → List Text → Type 0
  AllWrong hash [] = Unit
  AllWrong hash (p ∷ ps) = (verify p hash ≡ false) × AllWrong hash ps

  locked_is :
      (email : Text) (n : ℕ) (c : C)
      → k.get (login_fail_key email) c ≡ some (str n)
      → is_account_locked k true email c ≡ leb lockout_threshold n
  unfolding is_account_locked
  locked_is email n c e = ground (arith, e, int_of-str n)

  -- A locked account answers every password alike, and nothing changes.
  login_locked :
      (fresh email password : Text) (c : C)
      → is_account_locked k true email c ≡ true
      → login k true verify dummy users fresh email password c ≡ (c, err invalid_login)
  unfolding login
  login_locked fresh email password c e = go (user_by (λ u. u.email) email users)
    where
      go :
          (o : Option User)
          → decide_login k true verify dummy users fresh email
              (is_account_locked k true email c)
              o
              (verify password (candidate_hash k true verify dummy users o))
              c
            ≡ (c, err invalid_login)
      go none = refl
      go (some u) = rw e refl

  module _ (email : Text) (u : User) (known : user_by (λ u. u.email) email users ≡ some u) where
    login_wrong :
        (fresh password : Text) (c : C)
        → verify password u.hashed_password ≡ false
        → login k true verify dummy users fresh email password c ≡ (
          if is_account_locked k true email c then c else record_login_failure k true email c,
          err invalid_login,
        )
    unfolding login
    login_wrong fresh password c wrong = rw known (rw wrong (go (is_account_locked k true email c)))
      where
        go :
            (locked : Bool)
            → decide_login k true verify dummy users fresh email locked (some u) false c
              ≡ (if locked then c else record_login_failure k true email c, err invalid_login)
        go true = refl
        go false = refl

    counted :
        (fresh : Text) (ps : List Text) (n : ℕ) (c : C)
        → n ≤ 10
        → AllWrong u.hashed_password ps
        → k.get (login_fail_key email) c ≡ some (str n)
        → k.get (login_fail_key email) (attempts fresh email ps c)
          ≡ some (str (min 10 (n + length ps)))
    unfolding attempts record_login_failure
    counted fresh [] n c le w e =
        let same : n ≡ min 10 (n + 0) = omega arith in e ∙ ap (λ m. some (str m)) same
    counted fresh (p ∷ ps) n c le w e =
        let now = record_login_failure k true email c in
        let step = ap (λ r. r.0) (login_wrong fresh p c w.0) in
        let locked = locked_is email n c e in
        elim (Bool-cases (leb lockout_threshold n)) [
          | inl full ↦
              let same : (login k true verify dummy users fresh email p c).0 ≡ c =
                step ∙ ap (λ t. if t then c else now) (locked ∙ full) in
              let size : min 10 (n + length ps) ≡ min 10 (n + length (p ∷ ps)) = ground arith in
              rw (same, ← size) (counted fresh ps n c le w.1 e)
          | inr more ↦
              let same : (login k true verify dummy users fresh email p c).0 ≡ now =
                step ∙ ap (λ t. if t then c else now) (locked ∙ more) in
              let size : min 10 (n + 1 + length ps) ≡ min 10 (n + length (p ∷ ps)) = ground arith in
              let counts = laws.incr_next (login_fail_key email) lockout_window_seconds n c e in
              rw (same, ← size) (counted fresh ps (n + 1) now (ground arith) w.1 counts)
        ]

    unlocked :
        (c : C) → k.get (login_fail_key email) c ≡ none → is_account_locked k true email c ≡ false
    unfolding is_account_locked
    unlocked c e = ground (arith, e)

    counted_anew :
        (fresh : Text) (ps : List Text) (c : C)
        → AllWrong u.hashed_password ps
        → k.get (login_fail_key email) c ≡ none
        → is_account_locked k true email (attempts fresh email ps c) ≡ leb 10 (length ps)
    unfolding attempts record_login_failure
    counted_anew fresh [] c w e = unlocked c e
    counted_anew fresh (p ∷ ps) c w e =
        let now = record_login_failure k true email c in
        let same : (login k true verify dummy users fresh email p c).0 ≡ now =
          ap (λ r. r.0) (login_wrong fresh p c w.0)
          ∙ ap (λ t. if t then c else now) (unlocked c e) in
        let counts =
          laws.incr_first (login_fail_key email) lockout_window_seconds c (omega arith) e in
        let total = counted fresh ps 1 now (omega arith) w.1 counts in
        let size : leb 10 (min 10 (1 + length ps)) ≡ leb 10 (length (p ∷ ps)) = ground arith in
        rw same
          (locked_is email (min 10 (1 + length ps)) (attempts fresh email ps now) total ∙ size)

    -- With Redis in reach, and no count that expires in between, an account that has no failures is
    -- locked after wrong passwords exactly when there were ten of them or more; then each password,
    -- also the right one, is answered like a wrong one and changes nothing.
    pub lockout :
        (fresh : Text) (ps : List Text) (c : C)
        → AllWrong u.hashed_password ps
        → k.get (login_fail_key email) c ≡ none
        → let c' = attempts fresh email ps c in
          (is_account_locked k true email c' ≡ leb 10 (length ps))
          × ((password : Text)
              → 10 ≤ length ps
              → login k true verify dummy users fresh email password c' ≡ (c', err invalid_login))
    lockout fresh ps c w e =
        let counts = counted_anew fresh ps c w e in
        (
          counts,
          λ password many.
              login_locked fresh email password (attempts fresh email ps c)
                (ground (arith, counts)),
        )

  refresh_prefix : (a b : Text) → a ≢ b → refresh_key a ≢ refresh_key b
  refresh_prefix a b ne e = ne (ap (λ l. drop 8 l) e)

  decide_refresh_keeps :
      (fresh token : Text) (o : Option User) (c : C)
      → token ≢ fresh
      → k.get (refresh_key token) c ≡ none
      → k.get (refresh_key token) (decide_refresh k true verify dummy users fresh o c).0 ≡ none
  unfolding issue_token_response store_refresh_token
  decide_refresh_keeps fresh token none c ne e = e
  decide_refresh_keeps fresh token (some u) c ne e =
      let put =
        laws.setex_others (refresh_key fresh) (refresh_key token) u.id refresh_token_ttl c
          (refresh_prefix token fresh ne) in
      ground (arith, put, e)

  after_consume_keeps :
      (fresh token : Text) (c : C) (o : Option Text)
      → token ≢ fresh
      → k.get (refresh_key token) c ≡ none
      → k.get (refresh_key token) (after_consume k true verify dummy users fresh (c, o)).0 ≡ none
  after_consume_keeps fresh token c none ne e = e
  after_consume_keeps fresh token c (some []) ne e = e
  after_consume_keeps fresh token c (some (d ∷ ds)) ne e =
      decide_refresh_keeps fresh token (user_by (λ u. u.id) (d ∷ ds) users) c ne e

  -- With Redis in reach, a refresh token works once at most: presented again right after, it is
  -- rejected, whatever came of the first use, if the token issued in exchange is another one.
  pub refresh_token_once :
      (fresh fresh' token : Text) (c : C)
      → token ≢ fresh
      → let c' = (refresh_token k true verify dummy users fresh token c).0 in
        (refresh_token k true verify dummy users fresh' token c').1 ≡ err invalid_refresh
  unfolding refresh_token consume_refresh_token
  refresh_token_once fresh fresh' token c ne =
      let key = refresh_key token in
      let (c1, o) = k.getdel key c in
      let c' = (after_consume k true verify dummy users fresh (c1, o)).0 in
      let gone = after_consume_keeps fresh token c1 o ne (laws.getdel_removes key c) in
      let missing : (k.getdel key c').1 ≡ none = laws.getdel_reads key c' ∙ gone in
      ap (λ o. (after_consume k true verify dummy users fresh' ((k.getdel key c').0, o)).1) missing

-- The login of an active account that is not locked, with its password.
pub login_found :
    {C : Type 0} (k : Client C) (connected : Bool) (verify : Text → Text → Bool) (dummy : Text)
    (users : List User) (fresh email password : Text) (u : User) (c : C)
    → user_by (λ w. w.email) email users ≡ some u
    → verify password u.hashed_password ≡ true
    → is_account_locked k connected email c ≡ false
    → u.is_active ≡ true
    → (r : TokenResponse) × (login k connected verify dummy users fresh email password c).1 ≡ ok r
      × r.user ≡ u
unfolding login issue_token_response
login_found {C = C} k connected verify dummy users fresh email password u c found checks
      open_account active =
    let decide : Bool → Option User → Bool → C × Result HttpError TokenResponse =
      λ locked o b. decide_login k connected verify dummy users fresh email locked o b c in
    let at =
      ap
        (λ o.
          decide (is_account_locked k connected email c) o
            (verify password (candidate_hash k connected verify dummy users o)))
        found
      ∙ ap (λ b. decide (is_account_locked k connected email c) (some u) b) checks
      ∙ ap (λ b. decide b (some u) true) open_account in
    let granted =
      issue_token_response k connected verify dummy users fresh u
        (reset_login_failures k connected email c) in
    let answer : C × Result HttpError TokenResponse → Result HttpError TokenResponse = λ p. p.1 in
    (
      granted.1,
      ap answer at
          ∙ ap
              (λ b. answer (
                if b
                then (granted.0, ok granted.1)
                else (c, err (http_exception 403 (codes "Account deactivated")))))
              active,
      refl,
    )
