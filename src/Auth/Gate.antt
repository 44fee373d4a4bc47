-- ===== src/Auth/Gate.antt =====
-- src/server/auth.rs: `require_auth_mw`, the guard of every request. The observer's record of the
-- identity is left out, and so are store faults, which the guard answers with an internal error.
use base_search.Prelude.{
  ℕ, ◌≡◌, ◌≢◌, String, Bool, true, false, not, ◌||◌, Option, none, some, if◌then◌else◌, ◌==◌,
  string_eq, arith, Option-cases, inl, inr,
}
use base_search.Auth.Roles.{Permission, Identity, local_owner, authorize, allows}
use base_search.Auth.Tables.{AuthStore}
use base_search.Auth.Sessions.{identify_session, validate_csrf}
use base_search.Auth.Calls.{Platform}
use base_search.Auth.Requests.{
  Headers, Method, token_from_headers, csrf_token_from_cookie, is_mutating_method,
  api_relative_path, required_permission,
}

-- What becomes of a request: it runs without an identity, it runs as somebody, or it is refused.
pub data Verdict : Type 0 where
  run_open : Verdict
  run_as : Identity → Verdict
  unauthorized invalid_csrf forbidden : Verdict

abbrev pub is_open_path : String → Bool
is_open_path path =
    (path == "/health") || ((path == "/auth/login") || ((path == "/auth/me") || (path == "/me")))

unfoldable pub identify_request :
    Platform → Bool → Headers → ℕ → AuthStore → AuthStore × Option Identity
identify_request platform require_auth headers now st =
    if not require_auth
    then (st, some local_owner)
    else elim (token_from_headers platform.is_whitespace headers) [
      | none ↦ (st, none)
      | some token ↦ identify_session platform.token_hash token now st
    ]

unfoldable pub validate_csrf_headers : Platform → Headers → ℕ → AuthStore → AuthStore × Bool
validate_csrf_headers platform headers now st =
    elim (token_from_headers platform.is_whitespace headers) [
      | none ↦ (st, false)
      | some session_token ↦ elim (csrf_token_from_cookie platform.is_whitespace headers) [
        | none ↦ (st, false)
        | some cookie_token ↦ elim headers.csrf [
          | none ↦ (st, false)
          | some header_token ↦
              if not (cookie_token == header_token)
              then (st, false)
              else validate_csrf platform.token_hash session_token cookie_token now st
        ]
      ]
    ]

abbrev pub verified : Platform → Method → Headers → ℕ → AuthStore → AuthStore × Bool
verified platform method headers now st =
    if is_mutating_method method then validate_csrf_headers platform headers now st else (st, true)

abbrev pub admitted : Method → String → Identity → Verdict
admitted method path identity = elim (required_permission method path) [
  | none ↦ run_as identity
  | some permission ↦ elim (authorize identity permission) [
    | none ↦ run_as identity
    | some missing ↦ forbidden
  ]
]

-- The requests that the guard does not look into further.
abbrev pub checked_path : String → Option String
checked_path path = elim (api_relative_path path) [
  | none ↦ none
  | some relative ↦ if is_open_path relative then none else some relative
]

unfoldable pub require_auth_mw :
    Platform → Bool → Method → String → Headers → ℕ → AuthStore → AuthStore × Verdict
require_auth_mw platform require_auth method path headers now st =
    if not require_auth then (st, run_as local_owner) else elim (checked_path path) [
      | none ↦ (st, run_open)
      | some relative ↦
          let (identified, found) = identify_request platform require_auth headers now st in
          let (checked, genuine) = verified platform method headers now identified in
          elim found [
            | none ↦ (identified, unauthorized)
            | some identity ↦
                if genuine
                then (checked, admitted method relative identity)
                else (checked, invalid_csrf)
          ]
    ]

csrf_pair :
    (platform : Platform) (method : Method) (path relative : String) (headers : Headers) (now : ℕ)
    (st : AuthStore) (identity : Identity) (token : String)
    → checked_path path ≡ some relative
    → token_from_headers platform.is_whitespace headers ≡ some token
    → is_mutating_method method ≡ true
    → (require_auth_mw platform true method path headers now st).1 ≡ run_as identity
    → (csrf : String) × (csrf_token_from_cookie platform.is_whitespace headers ≡ some csrf)
      × (headers.csrf ≡ some csrf)
      × ((validate_csrf platform.token_hash token csrf now
            (identify_session platform.token_hash token now st).0).1
          ≡ true)
unfolding require_auth_mw identify_request validate_csrf_headers authorize
csrf_pair platform method path relative headers now st identity token c g m h =
    elim (Option-cases (csrf_token_from_cookie platform.is_whitespace headers)) [
      | inl k ↦ absurd (ground arith)
      | inr (csrf, k) ↦ elim (Option-cases headers.csrf) [
        | inl n ↦ absurd (ground arith)
        | inr (sent, n) ↦ (
          csrf,
          k,
          ground (arith, string_eq.same_iff csrf sent),
          ground (arith, string_eq.same_iff csrf sent),
        )
      ]
    ]

-- Where sign-in is required and the path is not one that is open: a request that runs, runs as the
-- identity of its session's token; with a method that changes something, the CSRF token of its
-- cookie is the one of its header and belongs to the session; and the identity's role allows what
-- the path requires.
pub require_auth_mw_lem :
    (platform : Platform) (method : Method) (path relative : String) (headers : Headers) (now : ℕ)
    (st : AuthStore)
    → checked_path path ≡ some relative
    → let verdict = (require_auth_mw platform true method path headers now st).1 in
      (verdict ≢ run_open)
      × ((identity : Identity)
          → verdict ≡ run_as identity
          → (token : String) × (token_from_headers platform.is_whitespace headers ≡ some token)
            × ((identify_session platform.token_hash token now st).1 ≡ some identity)
            × (is_mutating_method method ≡ true
                → (csrf : String) × (csrf_token_from_cookie platform.is_whitespace headers
                    ≡ some csrf)
                  × (headers.csrf ≡ some csrf)
                  × ((validate_csrf platform.token_hash token csrf now
                        (identify_session platform.token_hash token now st).0).1
                      ≡ true))
            × ((permission : Permission)
                → required_permission method relative ≡ some permission
                → allows identity.role permission ≡ true))
unfolding require_auth_mw identify_request validate_csrf_headers authorize
require_auth_mw_lem platform method path relative headers now st c =
    elim (Option-cases (token_from_headers platform.is_whitespace headers)) [
      | inl g ↦ (λ h. ground arith, λ identity h. ground arith)
      | inr (token, g) ↦ (
        λ h. ground arith,
        λ identity h. (
          token,
          g,
          ground arith,
          λ m. csrf_pair platform method path relative headers now st identity token c g m h,
          λ permission r. ground arith,
        ),
      )
    ]
