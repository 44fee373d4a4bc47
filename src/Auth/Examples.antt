-- ===== src/Auth/Examples.antt =====
-- Runs of the account store and the guard (src/server/auth.rs). Hashes are prefixes here, and the
-- space is the only whitespace.
use Prim.Native.String.{◌++◌ as append}
use base_search.Prelude.{
  ◌<◌, ◌≡◌, refl, String, true, false, none, some, List, [], ◌∷◌, arith, string_eq, nat_eq, ok, err,
  ◌==◌,
}
use base_search.Prelude.Dict.{get}
use base_search.Prelude.Texts.{nocase, trim, trim_start, trim_end}
use base_search.Auth.Roles.{owner, admin, viewer, editor, Permission, allows, authorize}
use base_search.Auth.Tables.{
  StoredUser, StoredSession, AuthStore, active_owner_count, validate_username, validate_password,
  user_by_username, write_user,
}
use base_search.Auth.Accounts.{set_password, remove_user}
use base_search.Auth.Sessions.{
  create_session, identify_session, validate_csrf, is_valid_token, prune_sessions,
  trim_user_sessions, new_session, identity_of, active_sessions,
}
use base_search.Auth.Calls.{
  Platform, AccountCall, add, remove_account, sign_in, change_role, perform_all,
}
use base_search.Auth.Owners.{HasOwner}
use base_search.Auth.LastOwner.{perform_all-HasOwner}
use base_search.Auth.Access.{
  identify_session_lem, create_session-identify_session, change-signs_out,
}
use base_search.Auth.Migration.{
  promote_owner, owner_row, first_by, text_leb, promote_owner-HasOwner,
}
use base_search.Auth.SessionLimit.{IsLimited}
use base_search.Auth.SessionCalls.{perform_all-IsLimited}
use base_search.Auth.Requests.{
  Headers, post, token_from_headers, csrf_token_from_cookie, cookie_value, find_cookie, split,
  split_once, api_relative_path, strip_api_prefix, strip_prefix, is_mutating_method,
  required_permission, ends_with,
}
use base_search.Auth.Gate.{
  checked_path, run_as, require_auth_mw, require_auth_mw_lem, identify_request,
  validate_csrf_headers,
}

abbrev platform : Platform
platform = record {
  is_whitespace = λ c. c == 32;
  hash = λ password. ok (append "argon2:" password);
  token_hash = λ token. append "sha256:" token;
}

abbrev token : String
token = "aaaaaaaaaaaaaaaaaaaaaaaaaaaaaaaaaaaaaaaaaaaaaaaaaaaaaaaaaaaaaaaa"

abbrev csrf_token : String
csrf_token = "00000000000000000000000000000000000000000000000000000000000000cc"

abbrev ana : StoredUser
ana = record {
  username = "Ana";
  password_hash = "argon2:correct horse";
  role = owner;
  enabled = true;
  session_epoch = 3;
  created_at = "t0";
  updated_at = "t0";
}

abbrev store : AuthStore
store = record { users = ("u1", ana) ∷ []; sessions = []; next_session_id = 1 }

abbrev ana_session : StoredSession
ana_session = new_session 1 (append "sha256:" csrf_token) "u1" ana 100

abbrev signed_in : AuthStore
signed_in = record {
  users = ("u1", ana) ∷ [];
  sessions = (append "sha256:" token, ana_session) ∷ [];
  next_session_id = 2;
}

sign_in_ana :
    create_session platform.token_hash " ana" token csrf_token 100 store
    ≡ err "Account is disabled or does not exist."
unfolding create_session user_by_username nocase
sign_in_ana = refl

sign_in_any_case :
    create_session platform.token_hash "ANA" token csrf_token 100 store ≡ ok signed_in
unfolding create_session user_by_username nocase prune_sessions trim_user_sessions active_sessions
sign_in_any_case = refl

remove_last_owner :
    remove_user platform.is_whitespace "ana" store ≡ err "Cannot remove the last enabled owner."
unfolding remove_user validate_username user_by_username nocase trim trim_start trim_end
remove_last_owner = refl

store-HasOwner : HasOwner store
store-HasOwner = record { distinct = (refl, tt); owned = omega arith }

abbrev calls : List AccountCall
calls =
    remove_account "ana"
    ∷ change_role "ana" viewer 120 "t2"
    ∷ sign_in "ana" token csrf_token 110
    ∷ add "bo" "password1" editor "u2" 100 "t1"
    ∷ []

perform_all-HasOwner_example : HasOwner (perform_all platform calls store)
perform_all-HasOwner_example = perform_all-HasOwner platform calls store store-HasOwner

store-IsLimited : IsLimited store
store-IsLimited = record {
  unique = λ i. omega arith;
  below = λ i h. refl;
  limited = λ user_id. omega arith;
}

perform_all-IsLimited_example : IsLimited (perform_all platform calls store)
perform_all-IsLimited_example = perform_all-IsLimited platform calls store store-IsLimited

identify_ana :
    (identify_session platform.token_hash token 200 signed_in).1 ≡ some (identity_of "u1" ana)
unfolding identify_session is_valid_token
identify_ana = refl

identify_session_lem_example :
    (s : StoredSession) × (user : StoredUser) × (get (platform.token_hash token) signed_in.sessions
      ≡ some s)
    × (get s.user_id signed_in.users ≡ some user)
    × (is_valid_token token ≡ true)
    × (user.enabled ≡ true)
    × (user.session_epoch ≡ s.session_epoch)
    × (s.revoked_at ≡ none)
    × (200 < s.idle_expires_at)
    × (200 < s.absolute_expires_at)
    × (identity_of "u1" ana ≡ identity_of s.user_id user)
identify_session_lem_example =
    identify_session_lem platform.token_hash token 200 signed_in (identity_of "u1" ana) identify_ana

create_session-identify_session_example :
    ((identify_session platform.token_hash token 200 signed_in).1 ≡ some (identity_of "u1" ana))
    × ((validate_csrf platform.token_hash token csrf_token 200 signed_in).1 ≡ true)
unfolding is_valid_token user_by_username nocase
create_session-identify_session_example =
    create_session-identify_session platform.token_hash "ANA" token csrf_token 100 200 "u1" ana
      store signed_in (refl, tt) refl refl refl sign_in_any_case (omega arith) (omega arith)

abbrev new_password : AuthStore
new_password =
    write_user "u1" (λ u. record u { password_hash = "argon2:battery staple" }) 150 "t3" signed_in

set_password_ana :
    set_password platform.is_whitespace platform.hash "ana" "battery staple" 150 "t3" signed_in
    ≡ ok new_password
unfolding set_password validate_username validate_password user_by_username nocase trim trim_end
    trim_start
set_password_ana = refl

change-signs_out_example : (identify_session platform.token_hash token 200 new_password).1 ≡ none
unfolding validate_username user_by_username nocase trim trim_start trim_end
change-signs_out_example =
    (change-signs_out platform.is_whitespace platform.hash platform.token_hash "ana" "ana" "u1" ana
        token ana_session 150 200 "t3" signed_in (refl, tt) refl refl refl refl).2
      "battery staple" new_password set_password_ana

abbrev headers : Headers
headers = record {
  cookie = some (append "theme=dark; bs_session=" (append token (append "; bs_csrf=" csrf_token)));
  csrf = some csrf_token;
}

session_cookie : token_from_headers platform.is_whitespace headers ≡ some token
unfolding token_from_headers cookie_value find_cookie split split_once trim trim_start trim_end
    is_valid_token
session_cookie = refl

import_path : checked_path "/api/v2/imports" ≡ some "/imports"
unfolding api_relative_path strip_api_prefix strip_prefix
import_path = refl

run_import :
    (require_auth_mw platform true post "/api/v2/imports" headers 200 signed_in).1
    ≡ run_as (identity_of "u1" ana)
unfolding require_auth_mw identify_request validate_csrf_headers token_from_headers
    csrf_token_from_cookie cookie_value find_cookie split split_once trim trim_start trim_end
    is_valid_token api_relative_path strip_api_prefix strip_prefix is_mutating_method
    required_permission ends_with authorize allows validate_csrf
run_import = refl

require_auth_mw_lem_example :
    (t : String) × (token_from_headers platform.is_whitespace headers ≡ some t)
    × ((identify_session platform.token_hash t 200 signed_in).1 ≡ some (identity_of "u1" ana))
    × (is_mutating_method post ≡ true
        → (csrf : String) × (csrf_token_from_cookie platform.is_whitespace headers ≡ some csrf)
          × (headers.csrf ≡ some csrf)
          × ((validate_csrf platform.token_hash t csrf 200
                (identify_session platform.token_hash t 200 signed_in).0).1
              ≡ true))
    × ((permission : Permission)
        → required_permission post "/imports" ≡ some permission
        → allows owner permission ≡ true)
require_auth_mw_lem_example =
    (require_auth_mw_lem platform post "/api/v2/imports" "/imports" headers 200 signed_in
        import_path).1
      (identity_of "u1" ana) run_import

abbrev old_store : AuthStore
old_store = record {
  users =
      ("u1", record ana { role = editor; created_at = "2024" })
      ∷ ("u2", record ana { username = "Bo"; role = admin; created_at = "2025" })
      ∷ ("u3", record ana { username = "Cy"; role = admin; created_at = "2023"; enabled = false })
      ∷ [];
  sessions = [];
  next_session_id = 1;
}

promote_owner-HasOwner_example :
    HasOwner (promote_owner old_store)
    × (0 < active_owner_count old_store → promote_owner old_store ≡ old_store)
promote_owner-HasOwner_example =
    promote_owner-HasOwner old_store (refl, (refl, (refl, tt))) (λ h. ground arith)

promoted_bo : promote_owner old_store ≡ record old_store {
  users =
      ("u1", record ana { role = editor; created_at = "2024" })
      ∷ ("u2", record ana { username = "Bo"; role = owner; created_at = "2025" })
      ∷ ("u3", record ana { username = "Cy"; role = admin; created_at = "2023"; enabled = false })
      ∷ [];
}
unfolding promote_owner owner_row first_by text_leb
promoted_bo = refl
