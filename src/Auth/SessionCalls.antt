-- ===== src/Auth/SessionCalls.antt =====
-- No user has more sessions than `MAX_ACTIVE_SESSIONS_PER_USER`, after any calls.
use base_search.Prelude.{
  ℕ, ◌≡◌, refl, String, Bool, true, List, [], ◌∷◌, arith, string_eq, Result, ok, err, >>=-ok,
  Option-cases, Bool-cases, inl, inr, subst,
}
use base_search.Prelude.Dict.{insert, remove}
use base_search.Auth.Roles.{Role}
use base_search.Auth.Tables.{
  StoredUser, AuthStore, UserMutation, write_user, delete_sessions, user_by_username,
  validate_username, validate_password, role_eq, bool_eq,
}
use base_search.Auth.Accounts.{
  put_user, add_user, find_user, new_user, set_user_role, set_user_enabled, set_password,
  remove_user,
}
use base_search.Auth.Sessions.{create_session}
use base_search.Auth.Calls.{
  Platform, AccountCall, add, change_role, change_enabled, change_password, remove_account, sign_in,
  identify, sign_out, check_csrf, or_rollback, perform, perform_all,
}
use base_search.Auth.SessionLimit.{
  IsLimited, NoNewSession, NoNewSession-IsLimited, NoNewSession-refl, write_user-NoNewSession,
  revoke_session-NoNewSession, delete_sessions-NoNewSession, identify_session-NoNewSession,
  create_session-IsLimited, validate_csrf-NoNewSession,
}

-- A new state of the users that leaves the sessions alone.
users_only-NoNewSession :
    (users : List (String × StoredUser)) (st : AuthStore)
    → NoNewSession st (record st { users = users })
users_only-NoNewSession users st = record {
  counter = refl;
  ids = λ i. omega arith;
  users = λ user_id. omega arith;
}

put_user-NoNewSession :
    (name password_hash : String) (role : Role) (new_id : String) (now : ℕ) (now_text : String)
    (st : AuthStore) (r : AuthStore × UserMutation)
    → put_user name password_hash role new_id now now_text st ≡ ok r
    → NoNewSession st r.0
unfolding put_user
put_user-NoNewSession name password_hash role new_id now now_text st r h =
    elim (Option-cases (user_by_username name st.users)) [
      | inl g ↦
          let users = insert new_id (new_user name password_hash role now_text) st.users in
          let e : record st { users = users } ≡ r.0 = ground arith in
          subst (λ x. NoNewSession st x) e (users_only-NoNewSession users st)
      | inr ((id, user), g) ↦
          let change : StoredUser → StoredUser =
            λ u. record u { password_hash = password_hash; role = role; enabled = true } in
          let e : write_user id change now now_text st ≡ r.0 = ground arith in
          subst (λ x. NoNewSession st x) e (write_user-NoNewSession id change now now_text st)
    ]

add_user-NoNewSession :
    (white : ℕ → Bool) (hash : String → Result String String) (username password : String)
    (role : Role) (new_id : String) (now : ℕ) (now_text : String) (st : AuthStore)
    (r : AuthStore × UserMutation)
    → add_user white hash username password role new_id now now_text st ≡ ok r
    → NoNewSession st r.0
unfolding add_user
add_user-NoNewSession white hash username password role new_id now now_text st r h =
    let (name, e, e_rest) = >>=-ok (validate_username white username) _ r h in
    let (checked, f, f_rest) = >>=-ok (validate_password password) _ r e_rest in
    let (password_hash, g, g_rest) = >>=-ok (hash password) _ r f_rest in
    put_user-NoNewSession name password_hash role new_id now now_text st r g_rest

set_user_role-NoNewSession :
    (white : ℕ → Bool) (username : String) (role : Role) (now : ℕ) (now_text : String)
    (st u : AuthStore)
    → set_user_role white username role now now_text st ≡ ok u
    → NoNewSession st u
unfolding set_user_role
set_user_role-NoNewSession white username role now now_text st u h =
    let (name, e, e_rest) = >>=-ok (validate_username white username) _ u h in
    let (found, f, f_rest) = >>=-ok (find_user name st) _ u e_rest in
    let change : StoredUser → StoredUser = λ x. record x { role = role } in
    elim (Bool-cases (role_eq found.1.role role)) [
      | inl b ↦
          let k : st ≡ u = ground (arith, f_rest) in
          subst (λ x. NoNewSession st x) k (NoNewSession-refl st)
      | inr b ↦
          let k : write_user found.0 change now now_text st ≡ u = ground (arith, f_rest) in
          subst (λ x. NoNewSession st x) k (write_user-NoNewSession found.0 change now now_text st)
    ]

set_user_enabled-NoNewSession :
    (white : ℕ → Bool) (username : String) (enabled : Bool) (now : ℕ) (now_text : String)
    (st u : AuthStore)
    → set_user_enabled white username enabled now now_text st ≡ ok u
    → NoNewSession st u
unfolding set_user_enabled
set_user_enabled-NoNewSession white username enabled now now_text st u h =
    let (name, e, e_rest) = >>=-ok (validate_username white username) _ u h in
    let (found, f, f_rest) = >>=-ok (find_user name st) _ u e_rest in
    let change : StoredUser → StoredUser = λ x. record x { enabled = enabled } in
    elim (Bool-cases (bool_eq found.1.enabled enabled)) [
      | inl b ↦
          let k : st ≡ u = ground (arith, f_rest) in
          subst (λ x. NoNewSession st x) k (NoNewSession-refl st)
      | inr b ↦
          let k : write_user found.0 change now now_text st ≡ u = ground (arith, f_rest) in
          subst (λ x. NoNewSession st x) k (write_user-NoNewSession found.0 change now now_text st)
    ]

set_password-NoNewSession :
    (white : ℕ → Bool) (hash : String → Result String String) (username password : String) (now : ℕ)
    (now_text : String) (st u : AuthStore)
    → set_password white hash username password now now_text st ≡ ok u
    → NoNewSession st u
unfolding set_password
set_password-NoNewSession white hash username password now now_text st u h =
    let (name, e, e_rest) = >>=-ok (validate_username white username) _ u h in
    let (checked, c, c_rest) = >>=-ok (validate_password password) _ u e_rest in
    let (password_hash, g, g_rest) = >>=-ok (hash password) _ u c_rest in
    let (found, f, f_rest) = >>=-ok (find_user name st) _ u g_rest in
    let change : StoredUser → StoredUser = λ x. record x { password_hash = password_hash } in
    let k : write_user found.0 change now now_text st ≡ u = ground (arith, f_rest) in
    subst (λ x. NoNewSession st x) k (write_user-NoNewSession found.0 change now now_text st)

remove_user-NoNewSession :
    (white : ℕ → Bool) (username : String) (st : AuthStore) (r : AuthStore × Bool)
    → remove_user white username st ≡ ok r
    → NoNewSession st r.0
unfolding remove_user
remove_user-NoNewSession white username st r h =
    let (name, e, e_rest) = >>=-ok (validate_username white username) _ r h in
    elim (Option-cases (user_by_username name st.users)) [
      | inl g ↦
          let k : st ≡ r.0 = ground (arith, e_rest) in
          subst (λ x. NoNewSession st x) k (NoNewSession-refl st)
      | inr ((id, user), g) ↦
          let left : AuthStore = record st {
            users = remove id st.users;
            sessions = delete_sessions id st.sessions;
          } in
          let k : left ≡ r.0 = ground (arith, e_rest) in
          subst (λ x. NoNewSession st x) k (delete_sessions-NoNewSession id (remove id st.users) st)
    ]

or_rollback-IsLimited :
    {A : Type 0} (r : Result A String) (f : A → AuthStore) (st : AuthStore)
    → IsLimited st
    → ((a : A) → r ≡ ok a → NoNewSession st (f a))
    → IsLimited (or_rollback r f st)
or_rollback-IsLimited (ok a) f st v h = NoNewSession-IsLimited st (f a) (h a refl) v
or_rollback-IsLimited (err e) f st v h = v

-- A transaction that ends well keeps the limit; one that does not changes nothing.
rolled_back-IsLimited :
    (r : Result AuthStore String) (st : AuthStore)
    → IsLimited st
    → ((a : AuthStore) → r ≡ ok a → IsLimited a)
    → IsLimited (or_rollback r (λ u. u) st)
rolled_back-IsLimited (ok a) st v h = h a refl
rolled_back-IsLimited (err e) st v h = v

module _ (platform : Platform) where
  perform-IsLimited :
      (call : AccountCall) (st : AuthStore) → IsLimited st → IsLimited (perform platform call st)
  unfolding perform
  perform-IsLimited (add username password role new_id now now_text) st v =
      or_rollback-IsLimited
        (add_user platform.is_whitespace platform.hash username password role new_id now now_text
          st)
        (λ r. r.0) st v
        (λ r h.
          add_user-NoNewSession platform.is_whitespace platform.hash username password role new_id
            now now_text st r h)
  perform-IsLimited (change_role username role now now_text) st v =
      or_rollback-IsLimited (set_user_role platform.is_whitespace username role now now_text st)
        (λ u. u) st v
        (λ u h. set_user_role-NoNewSession platform.is_whitespace username role now now_text st u h)
  perform-IsLimited (change_enabled username enabled now now_text) st v =
      or_rollback-IsLimited
        (set_user_enabled platform.is_whitespace username enabled now now_text st) (λ u. u) st v
        (λ u h.
          set_user_enabled-NoNewSession platform.is_whitespace username enabled now now_text st u h)
  perform-IsLimited (change_password username password now now_text) st v =
      or_rollback-IsLimited
        (set_password platform.is_whitespace platform.hash username password now now_text st)
        (λ u. u) st v
        (λ u h.
          set_password-NoNewSession platform.is_whitespace platform.hash username password now
            now_text st u h)
  perform-IsLimited (remove_account username) st v =
      or_rollback-IsLimited (remove_user platform.is_whitespace username st) (λ r. r.0) st v
        (λ r h. remove_user-NoNewSession platform.is_whitespace username st r h)
  perform-IsLimited (sign_in username token csrf_token now) st v =
      rolled_back-IsLimited (create_session platform.token_hash username token csrf_token now st) st
        v
        (λ u h. create_session-IsLimited platform.token_hash username token csrf_token now st u v h)
  perform-IsLimited (identify token now) st v =
      NoNewSession-IsLimited st _ (identify_session-NoNewSession platform.token_hash token now st) v
  perform-IsLimited (sign_out token now) st v =
      NoNewSession-IsLimited st _ (revoke_session-NoNewSession platform.token_hash token now st) v
  perform-IsLimited (check_csrf token csrf_token now) st v =
      NoNewSession-IsLimited st _
        (validate_csrf-NoNewSession platform.token_hash token csrf_token now st) v

  -- Where the sessions have ids of their own below the next one and no user has more than ten of
  -- them, so it is after any sequence of calls that add, change or remove accounts, sign in or out,
  -- or identify sessions, whatever their outcome.
  pub perform_all-IsLimited :
      (calls : List AccountCall) (st : AuthStore)
      → IsLimited st
      → IsLimited (perform_all platform calls st)
  unfolding perform_all
  perform_all-IsLimited [] st v = v
  perform_all-IsLimited (call ∷ calls) st v =
      perform-IsLimited call (perform_all platform calls st) (perform_all-IsLimited calls st v)
