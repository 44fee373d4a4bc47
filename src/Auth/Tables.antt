-- ===== src/Auth/Tables.antt =====
-- src/server/auth.rs: the tables of the companion database and the statements on them. A table is an
-- association list: `users` by the unique column `id`, `sessions` by the unique column
-- `token_hash`. A fault of the database file is
-- left out, and so is a role that is none of the four that the program writes.
use Prim.Native.String.{len, count}
use base_search.Prelude.{
  ℕ, ◌+◌, String, Bool, true, false, not, ◌&&◌, ◌||◌, Option, none, some, List, [], ◌∷◌,
  if◌then◌else◌, ltb, leb, ◌==◌, string_eq, Result, ok, err,
}
use base_search.Prelude.Dict.{adjust, tally}
use base_search.Prelude.Texts.{codes_eq, nocase, trim, is_empty}
use base_search.Auth.Roles.{Role, owner, admin, editor, viewer}

pub record StoredUser : Type 0 where
  pub username : String
  pub password_hash : String
  pub role : Role
  pub enabled : Bool
  pub session_epoch : ℕ
  pub created_at : String
  pub updated_at : String

pub record StoredSession : Type 0 where
  pub id : ℕ
  pub csrf_hash : String
  pub user_id : String
  pub role : Role
  pub session_epoch : ℕ
  pub created_at : ℕ
  pub last_seen_at : ℕ
  pub idle_expires_at : ℕ
  pub absolute_expires_at : ℕ
  pub revoked_at : Option ℕ

-- `next_session_id` is the counter of `AUTOINCREMENT`.
pub record AuthStore : Type 0 where
  pub users : List (String × StoredUser)
  pub sessions : List (String × StoredSession)
  pub next_session_id : ℕ

pub record UserMutation : Type 0 where
  pub role : Role
  pub created : Bool

abbrev pub max_password_bytes : ℕ
max_password_bytes = 1024

unfoldable pub validate_username : (ℕ → Bool) → String → Result String String
validate_username white username =
    let name = trim white username in
    if is_empty name
    then err "Username cannot be empty."
    else if ltb 128 (count name)
    then err "Username cannot exceed 128 characters."
    else ok name

unfoldable pub validate_password : String → Result (Unit {0}) String
validate_password password =
    if ltb (len password) 8
    then err "Password must be at least 8 characters."
    else if ltb max_password_bytes (len password)
    then err "Password cannot exceed 1024 bytes."
    else ok tt

abbrev pub is_owner : Role → Bool
is_owner owner = true
is_owner role = false

abbrev pub bool_eq : Bool → Bool → Bool
bool_eq a b = (a && b) || (not a && not b)

abbrev role_index : Role → ℕ
role_index owner = 0
role_index admin = 1
role_index editor = 2
role_index viewer = 3

abbrev pub role_eq : Role → Role → Bool
role_eq a b = leb (role_index a) (role_index b) && leb (role_index b) (role_index a)

-- `WHERE username = ?1 COLLATE NOCASE`.
unfoldable pub user_by_username : String → List (String × StoredUser) → Option (String × StoredUser)
user_by_username username [] = none
user_by_username username ((id, user) ∷ users) =
    if nocase user.username == nocase username
    then some (id, user)
    else user_by_username username users

-- `WHERE enabled = 1 AND lower(role) = 'owner'`.
abbrev pub is_active_owner : StoredUser → Bool
is_active_owner user = user.enabled && is_owner user.role

abbrev pub active_owner_count : AuthStore → ℕ
active_owner_count st = tally is_active_owner st.users

abbrev pub enabled_user : StoredUser → Bool
enabled_user user = user.enabled

unfoldable pub user_count : AuthStore → ℕ
user_count st = tally enabled_user st.users

abbrev pub removes_active_owner : StoredUser → Role → Bool → Bool
removes_active_owner user new_role new_enabled =
    is_active_owner user && (not new_enabled || not (is_owner new_role))

abbrev pub last_owner_error : String
last_owner_error = "Cannot disable or demote the last enabled owner."

-- `protect_owner_transition`: whether the change is refused.
abbrev pub refuses_transition : StoredUser → Role → Bool → AuthStore → Bool
refuses_transition user new_role new_enabled st =
    removes_active_owner user new_role new_enabled && leb (active_owner_count st) 1

-- `SET revoked_at = COALESCE(revoked_at, ?1)`.
abbrev pub revoke_at : ℕ → StoredSession → StoredSession
revoke_at now session = record session {
  revoked_at = elim session.revoked_at [ none ↦ some now | some t ↦ some t ];
}

unfoldable pub revoke_user_sessions :
    String → ℕ → List (String × StoredSession) → List (String × StoredSession)
revoke_user_sessions user_id now [] = []
revoke_user_sessions user_id now ((token, session) ∷ sessions) =
    (token, if session.user_id == user_id then revoke_at now session else session)
    ∷ revoke_user_sessions user_id now sessions

-- An `UPDATE` of one user's row, with a new session epoch and all the user's sessions revoked.
abbrev pub write_user : String → (StoredUser → StoredUser) → ℕ → String → AuthStore → AuthStore
write_user id change now now_text st = record st {
  users =
      adjust id
        (λ user. record (change user) {
          session_epoch = user.session_epoch + 1;
          updated_at = now_text;
        })
        st.users;
  sessions = revoke_user_sessions id now st.sessions;
}

unfoldable pub delete_sessions :
    String → List (String × StoredSession) → List (String × StoredSession)
delete_sessions user_id [] = []
delete_sessions user_id ((token, session) ∷ sessions) =
    let rest = delete_sessions user_id sessions in
    if session.user_id == user_id then rest else (token, session) ∷ rest
