-- ===== src/Tests/Accounts.antt =====
-- services/user-service/app/: logins and tokens.
use microservices_project.Prelude.{
  ℕ, ◌+◌, ◌≤◌, ◌≡◌, refl, Bool, true, false, Option, none, some, List, [], ◌∷◌, arith, ◌==◌, nat_eq,
  err,
}
use microservices_project.Prelude.Text.{Text, codes, text_eq, text_beq}
use microservices_project.Prelude.Dict.{Dict, lookup, insert, erase, lookup-insert, lookup-erase}
use microservices_project.Prelude.Decimal.{pos, str, int_of, int_of-str}
use microservices_project.User.Client.{Client, Laws, is_account_locked}
use microservices_project.User.Models.{User, user_by}
use microservices_project.User.Login.{invalid_login, invalid_refresh, login, refresh_token}
use microservices_project.User.Login.Sessions.{attempts, lockout, refresh_token_once}

-- The count after one more.
abbrev more : Option Text → ℕ
more none = 1
more (some raw) = elim (int_of raw) [ some (pos n) ↦ n + 1 | _ ↦ 1 ]

-- A client whose keys never expire.
abbrev pub client : Client (Dict Text Text)
client = record {
  get = λ key c. lookup key c;
  setex = λ key seconds v c. insert key v c;
  getdel = λ key c. (erase key c, lookup key c);
  delete = λ key c. erase key c;
  incr_expire = λ key seconds c. (insert key (str (more (lookup key c))) c, more (lookup key c));
}

pub client-Laws : Laws client
client-Laws = record {
  getdel_reads = λ key c. refl;
  getdel_removes = λ key c. ground (arith, lookup-erase key key c, text_eq.beq_iff key key);
  setex_reads =
      λ key v seconds c live. ground (arith, lookup-insert key key v c, text_eq.beq_iff key key);
  setex_others = λ key other v seconds c ne.
      ground (arith, lookup-insert key other v c, text_eq.beq_iff key other);
  incr_first = λ key seconds c live e.
      ground
        (arith, e, lookup-insert key key (str (more (lookup key c))) c, text_eq.beq_iff key key);
  incr_next = λ key seconds n c e. ground (
    arith,
    e,
    int_of-str n,
    lookup-insert key key (str (more (lookup key c))) c,
    text_eq.beq_iff key key,
  );
}

abbrev pub ann : User
ann = record {
  id = codes "1";
  email = codes "ann";
  username = codes "ann";
  hashed_password = codes "right";
  full_name = none;
  is_active = true;
  is_admin = false;
  email_verified = false;
}

-- A hash that is the password itself.
abbrev pub verify : Text → Text → Bool
verify plain hashed = plain == hashed

abbrev wrong : List Text
wrong = codes "a" ∷ codes "b" ∷ []

abbrev users : List User
users = ann ∷ []

lockout_example :
    let c' = attempts client client-Laws verify [] users [] (codes "ann") wrong [] in
    (is_account_locked client true (codes "ann") c' ≡ false)
    × ((password : Text)
        → 10 ≤ 2
        → login client true verify [] users [] (codes "ann") password c' ≡ (c', err invalid_login))
unfolding user_by text_beq
lockout_example =
    lockout client client-Laws verify [] users (codes "ann") ann refl [] wrong [] (refl, (refl, tt))
      refl

refresh_token_once_example :
    (refresh_token client true verify [] users
      (codes "c")
      (codes "a")
      (refresh_token client true verify [] users
        (codes "b")
        (codes "a")
        ((codes "refresh:a", codes "1") ∷ [])).0).1
    ≡ err invalid_refresh
refresh_token_once_example =
    refresh_token_once client client-Laws verify [] users (codes "b") (codes "c") (codes "a")
      ((codes "refresh:a", codes "1") ∷ []) (ground arith)
