-- ===== src/Auth/Requests.antt =====
-- src/server/auth.rs: what the middleware reads of a request: cookies, paths, methods. A method and
-- a header's text are what the library http gives; a header that is no text is absent.
use Prim.Native.Char.{code}
use base_search.Prelude.{
  ℕ, String, Bool, true, false, ◌&&◌, ◌||◌, Option, none, some, List, [], ◌∷◌, if◌then◌else◌, ◌==◌,
  nat_eq, string_eq,
}
use base_search.Prelude.Texts.{is_empty, trim}
use base_search.Auth.Roles.{Permission}
use base_search.Auth.Sessions.{is_valid_token}

-- `str::strip_prefix`.
unfoldable pub strip_prefix : String → String → Option String
strip_prefix s String.[] = some s
strip_prefix String.[] (String.◌∷◌ d p) = none
strip_prefix (String.◌∷◌ c s) (String.◌∷◌ d p) =
    let rest = strip_prefix s p in if code c == code d then rest else none

abbrev pub starts_with : String → String → Bool
starts_with s prefix = elim (strip_prefix s prefix) [ none ↦ false | some rest ↦ true ]

unfoldable pub ends_with : String → String → Bool
ends_with String.[] suffix = is_empty suffix
ends_with (String.◌∷◌ c s) suffix =
    let rest = ends_with s suffix in (String.◌∷◌ c s == suffix) || rest

-- `str::split_once` for one character.
unfoldable pub split_once : ℕ → String → Option (String × String)
split_once separator String.[] = none
split_once separator (String.◌∷◌ c s) =
    let rest = split_once separator s in
    if code c == separator
    then some (String.[], s)
    else elim rest [ none ↦ none | some (key, value) ↦ some (String.◌∷◌ c key, value) ]

-- `str::split` for one character: the parts, never none.
unfoldable pub split : ℕ → String → List String
split separator String.[] = String.[] ∷ []
split separator (String.◌∷◌ c s) =
    let rest = split separator s in
    if code c == separator
    then String.[] ∷ rest
    else elim rest [ [] ↦ String.◌∷◌ c String.[] ∷ [] | part ∷ parts ↦ String.◌∷◌ c part ∷ parts ]

abbrev value_if : String → Option (String × String) → Option String
value_if name none = none
value_if name (some (key, value)) = if key == name then some value else none

abbrev or_else : Option String → Option String → Option String
or_else none other = other
or_else (some value) other = some value

-- `find_map` over the parts of the `Cookie` header.
unfoldable pub find_cookie : (ℕ → Bool) → String → List String → Option String
find_cookie white name [] = none
find_cookie white name (part ∷ parts) =
    or_else (value_if name (split_once 61 (trim white part))) (find_cookie white name parts)

pub record Headers : Type 0 where
  pub cookie : Option String
  pub csrf : Option String

unfoldable pub cookie_value : (ℕ → Bool) → String → Headers → Option String
cookie_value white name headers = elim headers.cookie [
  | none ↦ none
  | some cookie ↦ find_cookie white name (split 59 cookie)
]

abbrev filter_token : Option String → Option String
filter_token none = none
filter_token (some token) = if is_valid_token token then some token else none

unfoldable pub token_from_headers : (ℕ → Bool) → Headers → Option String
token_from_headers white headers = filter_token (cookie_value white "bs_session" headers)

unfoldable pub csrf_token_from_cookie : (ℕ → Bool) → Headers → Option String
csrf_token_from_cookie white headers = filter_token (cookie_value white "bs_csrf" headers)

pub data Method : Type 0 where
  get head options post put patch delete other : Method

unfoldable pub is_mutating_method : Method → Bool
is_mutating_method post = true
is_mutating_method put = true
is_mutating_method patch = true
is_mutating_method delete = true
is_mutating_method method = false

abbrev pub is_post : Method → Bool
is_post post = true
is_post method = false

unfoldable pub strip_api_prefix : String → String → Option String
strip_api_prefix path prefix = elim (strip_prefix path prefix) [
  | none ↦ none
  | some suffix ↦
      if is_empty suffix then some "/" else if starts_with suffix "/" then some suffix else none
]

unfoldable pub api_relative_path : String → Option String
api_relative_path path = or_else (strip_api_prefix path "/api/v2") (strip_api_prefix path "/api")

unfoldable pub required_permission : Method → String → Option Permission
required_permission method path =
    if starts_with path "/auth/users" || starts_with path "/admin/users"
    then some Permission.manage_users
    else if starts_with path "/database/" || starts_with path "/admin/duckdb/"
    then some Permission.maintain_database
    else if starts_with path "/admin/network"
    then some Permission.manage_network
    else if ends_with path "/semantic"
        || (((path == "/schema/fixed-values") && is_mutating_method method)
            || (starts_with path "/imports/profiles" && is_mutating_method method))
    then some Permission.manage_mappings
    else if is_post method && ((path == "/imports") || (path == "/imports/peek"))
    then some Permission.import
    else none
