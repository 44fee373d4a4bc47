-- ===== src/Auth/Sessions.antt =====
-- src/server/auth.rs: sessions. Tokens are hashed by SHA-256, the parameter `token_hash`; tokens
-- drawn at random and times, in seconds, are arguments.
use Prim.Native.Char.{code}
use Prim.Native.String.{len}
use base_search.Prelude.{
  ℕ, ◌+◌, ◌-◌, ◌*◌, min, String, Bool, true, false, not, ◌&&◌, ◌||◌, Option, none, some, List, [],
  ◌∷◌, if◌then◌else◌, ltb, leb, ◌==◌, nat_eq, string_eq, any, map, take, Result, ok, err, ◌>>=◌,
}
use base_search.Prelude.Dict.{get, insert, adjust, retain, contains_key}
use base_search.Auth.Roles.{Identity}
use base_search.Auth.Tables.{StoredUser, StoredSession, AuthStore, user_by_username, revoke_at}

abbrev pub idle_session_ttl : ℕ
idle_session_ttl = 12 * 3600

abbrev pub absolute_session_ttl : ℕ
absolute_session_ttl = 7 * 24 * 3600

abbrev pub session_touch_interval : ℕ
session_touch_interval = 5 * 60

abbrev pub max_active_sessions_per_user : ℕ
max_active_sessions_per_user = 10

abbrev is_ascii_hexdigit : ℕ → Bool
is_ascii_hexdigit c = (leb 48 c && leb c 57) || (leb 65 c && leb c 70) || (leb 97 c && leb c 102)

abbrev all_hex : String → Bool
all_hex String.[] = true
all_hex (String.◌∷◌ c s) = is_ascii_hexdigit (code c) && all_hex s

unfoldable pub is_valid_token : String → Bool
is_valid_token token = (len token == 64) && all_hex token

-- `prune_sessions_tx`: the negation of its `WHERE`.
abbrev pub is_retained : ℕ → StoredSession → Bool
is_retained now session =
    elim session.revoked_at [ none ↦ true | some t ↦ false ]
    && (ltb now session.idle_expires_at && ltb now session.absolute_expires_at)

unfoldable pub prune_sessions : ℕ → List (String × StoredSession) → List (String × StoredSession)
prune_sessions now sessions = retain (is_retained now) sessions

-- `ORDER BY created_at DESC, id DESC`.
abbrev pub newer_session : StoredSession → StoredSession → Bool
newer_session a b =
    ltb b.created_at a.created_at || ((a.created_at == b.created_at) && leb b.id a.id)

unfoldable pub insert_session : StoredSession → List StoredSession → List StoredSession
insert_session x [] = x ∷ []
insert_session x (y ∷ ys) =
    let rest = insert_session x ys in if newer_session x y then x ∷ y ∷ ys else y ∷ rest

-- The sessions of a user that are active, the newest first.
unfoldable pub active_sessions : String → ℕ → List (String × StoredSession) → List StoredSession
active_sessions user_id now [] = []
active_sessions user_id now ((token, session) ∷ sessions) =
    let rest = active_sessions user_id now sessions in
    if (session.user_id == user_id) && is_retained now session
    then insert_session session rest
    else rest

abbrev pub ids_to_keep : String → ℕ → ℕ → List (String × StoredSession) → List ℕ
ids_to_keep user_id now keep sessions =
    map (λ session. session.id) (take keep (active_sessions user_id now sessions))

abbrev pub is_kept : String → List ℕ → StoredSession → Bool
is_kept user_id ids session = not (session.user_id == user_id) || any (λ id. id == session.id) ids

unfoldable pub trim_user_sessions :
    String → ℕ → ℕ → List (String × StoredSession) → List (String × StoredSession)
trim_user_sessions user_id now keep sessions =
    retain (is_kept user_id (ids_to_keep user_id now keep sessions)) sessions

abbrev pub enabled_only : Option (String × StoredUser) → Result (String × StoredUser) String
enabled_only none = err "Account is disabled or does not exist."
enabled_only (some (id, user)) =
    if user.enabled then ok (id, user) else err "Account is disabled or does not exist."

abbrev pub new_session : ℕ → String → String → StoredUser → ℕ → StoredSession
new_session id csrf_hash user_id user now = record {
  id = id;
  csrf_hash = csrf_hash;
  user_id = user_id;
  role = user.role;
  session_epoch = user.session_epoch;
  created_at = now;
  last_seen_at = now;
  idle_expires_at = now + idle_session_ttl;
  absolute_expires_at = now + absolute_session_ttl;
  revoked_at = none;
}

-- The sessions that are left when a new one of the user is about to be written.
abbrev pub room_for_session : String → ℕ → AuthStore → List (String × StoredSession)
room_for_session user_id now st =
    trim_user_sessions user_id now (max_active_sessions_per_user - 1)
      (prune_sessions now st.sessions)

unfoldable pub create_session :
    (String → String) → String → String → String → ℕ → AuthStore → Result AuthStore String
create_session token_hash username token csrf_token now st = do
  (user_id, user) ← enabled_only (user_by_username username st.users)
  (if contains_key (token_hash token) (room_for_session user_id now st)
      then err "UNIQUE constraint failed: sessions.token_hash"
      else ok (record st {
        sessions =
            insert (token_hash token)
              (new_session st.next_session_id (token_hash csrf_token) user_id user now)
              (room_for_session user_id now st);
        next_session_id = st.next_session_id + 1;
      }))

abbrev pub is_invalid : StoredUser → StoredSession → ℕ → Bool
is_invalid user session now =
    elim session.revoked_at [ none ↦ false | some t ↦ true ]
    || (not user.enabled
        || (not (user.session_epoch == session.session_epoch)
            || (leb session.idle_expires_at now || leb session.absolute_expires_at now)))

-- A use of the session, at most once in the touch interval. `saturating_sub` on `i64` is negative
-- for a `last_seen_at` in the future, and then below the interval, as the 0 here is.
abbrev pub touch : ℕ → StoredSession → StoredSession
touch now session =
    if leb session_touch_interval (now - session.last_seen_at)
    then record session {
      last_seen_at = now;
      idle_expires_at = min (now + idle_session_ttl) session.absolute_expires_at;
    }
    else session

abbrev pub identity_of : String → StoredUser → Identity
identity_of user_id user = record { user_id = user_id; username = user.username; role = user.role }

unfoldable pub identify_session :
    (String → String) → String → ℕ → AuthStore → AuthStore × Option Identity
identify_session token_hash token now st =
    if not (is_valid_token token) then (st, none) else elim (get (token_hash token) st.sessions) [
      | none ↦ (st, none)
      | some session ↦ elim (get session.user_id st.users) [
        | none ↦ (st, none)
        | some user ↦
            if is_invalid user session now
            then (
              record st { sessions = adjust (token_hash token) (revoke_at now) st.sessions },
              none,
            )
            else (
              record st { sessions = adjust (token_hash token) (touch now) st.sessions },
              some (identity_of session.user_id user),
            )
      ]
    ]

unfoldable pub revoke_session : (String → String) → String → ℕ → AuthStore → AuthStore
revoke_session token_hash token now st =
    if not (is_valid_token token)
    then st
    else record st { sessions = adjust (token_hash token) (revoke_at now) st.sessions }

abbrev pub has_csrf : String → Option StoredSession → Bool
has_csrf csrf_hash none = false
has_csrf csrf_hash (some session) =
    (session.csrf_hash == csrf_hash) && elim session.revoked_at [ none ↦ true | some t ↦ false ]

unfoldable pub validate_csrf :
    (String → String) → String → String → ℕ → AuthStore → AuthStore × Bool
unfolding identify_session
validate_csrf token_hash session_token csrf_token now st =
    if not (is_valid_token session_token) || not (is_valid_token csrf_token)
    then (st, false)
    else let (st', identity) = identify_session token_hash session_token now st in
      elim identity [
        | none ↦ (st', false)
        | some found ↦
            (st', has_csrf (token_hash csrf_token) (get (token_hash session_token) st'.sessions))
      ]
