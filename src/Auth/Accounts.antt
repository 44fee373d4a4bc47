-- ===== src/Auth/Accounts.antt =====
-- src/server/auth.rs: what changes the accounts. Each function is one transaction: what it returns
-- on an error leaves the tables as they were. The times and the identifiers drawn at random are
-- arguments, and so is Argon2, as the function `hash` from a password to its salted hash.
use base_search.Prelude.{
  ℕ, String, Bool, true, false, not, ◌&&◌, none, some, if◌then◌else◌, leb, string_eq, Result, ok,
  err, ◌>>=◌,
}
use base_search.Prelude.Dict.{insert, remove, contains_key}
use base_search.Auth.Roles.{Role}
use base_search.Auth.Tables.{
  StoredUser, AuthStore, UserMutation, validate_username, validate_password, is_owner, role_eq,
  bool_eq, user_by_username, is_active_owner, active_owner_count, last_owner_error,
  refuses_transition, write_user, delete_sessions,
}

abbrev pub new_user : String → String → Role → String → StoredUser
new_user name password_hash role now_text = record {
  username = name;
  password_hash = password_hash;
  role = role;
  enabled = true;
  session_epoch = 0;
  created_at = now_text;
  updated_at = now_text;
}

-- The transaction of `add_user_with_result`: an account that exists is changed and enabled.
unfoldable pub put_user :
    String
    → String
    → Role
    → String
    → ℕ
    → String
    → AuthStore
    → Result (AuthStore × UserMutation) String
put_user name password_hash role new_id now now_text st = elim (user_by_username name st.users) [
  | some (id, user) ↦
      if refuses_transition user role true st
      then err last_owner_error
      else ok (
        write_user id (λ u. record u { password_hash = password_hash; role = role; enabled = true })
            now now_text st,
        record { role = role; created = false },
      )
  | none ↦
      if leb (active_owner_count st) 0 && not (is_owner role)
      then err "The first account must explicitly use the owner role."
      else if contains_key new_id st.users
      then err "UNIQUE constraint failed: users.id"
      else ok (
        record st { users = insert new_id (new_user name password_hash role now_text) st.users },
        record { role = role; created = true },
      )
]

-- `add_user_with_result`.
unfoldable pub add_user :
    (ℕ → Bool)
    → (String → Result String String)
    → String
    → String
    → Role
    → String
    → ℕ
    → String
    → AuthStore
    → Result (AuthStore × UserMutation) String
add_user white hash username password role new_id now now_text st = do
  name ← validate_username white username
  checked ← validate_password password
  password_hash ← hash password
  put_user name password_hash role new_id now now_text st

abbrev pub find_user : String → AuthStore → Result (String × StoredUser) String
find_user name st = elim (user_by_username name st.users) [
  | none ↦ err "No such user."
  | some found ↦ ok found
]

unfoldable pub set_user_role :
    (ℕ → Bool) → String → Role → ℕ → String → AuthStore → Result AuthStore String
set_user_role white username role now now_text st = do
  name ← validate_username white username
  found ← find_user name st
  (if role_eq found.1.role role
      then ok st
      else if refuses_transition found.1 role found.1.enabled st
      then err last_owner_error
      else ok (write_user found.0 (λ u. record u { role = role }) now now_text st))

unfoldable pub set_user_enabled :
    (ℕ → Bool) → String → Bool → ℕ → String → AuthStore → Result AuthStore String
set_user_enabled white username enabled now now_text st = do
  name ← validate_username white username
  found ← find_user name st
  (if bool_eq found.1.enabled enabled
      then ok st
      else if refuses_transition found.1 found.1.role enabled st
      then err last_owner_error
      else ok (write_user found.0 (λ u. record u { enabled = enabled }) now now_text st))

unfoldable pub set_password :
    (ℕ → Bool)
    → (String → Result String String)
    → String
    → String
    → ℕ
    → String
    → AuthStore
    → Result AuthStore String
set_password white hash username password now now_text st = do
  name ← validate_username white username
  checked ← validate_password password
  password_hash ← hash password
  found ← find_user name st
  ok (write_user found.0 (λ u. record u { password_hash = password_hash }) now now_text st)

-- `remove_user`: the foreign key deletes the sessions along with the user.
unfoldable pub remove_user : (ℕ → Bool) → String → AuthStore → Result (AuthStore × Bool) String
remove_user white username st = do
  name ← validate_username white username
  elim (user_by_username name st.users) [
    | none ↦ ok (st, false)
    | some (id, user) ↦
        if is_active_owner user && leb (active_owner_count st) 1
        then err "Cannot remove the last enabled owner."
        else ok (
          record st { users = remove id st.users; sessions = delete_sessions id st.sessions },
          true,
        )
  ]
