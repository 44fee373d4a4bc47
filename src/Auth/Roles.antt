-- ===== src/Auth/Roles.antt =====
-- src/server/auth.rs: roles, permissions, identities and `authorize`.
use base_search.Prelude.{String, Bool, true, false, Option, none, some}

pub data Role : Type 0 where
  owner admin editor viewer : Role

pub data Permission : Type 0 where
  read analyze export import manage_mappings manage_saved_queries : Permission
  manage_users manage_network maintain_database manage_owners : Permission

unfoldable pub allows : Role → Permission → Bool
allows owner permission = true
allows admin manage_owners = false
allows admin permission = true
allows editor read = true
allows editor analyze = true
allows editor export = true
allows editor import = true
allows editor manage_mappings = true
allows editor manage_saved_queries = true
allows editor permission = false
allows viewer read = true
allows viewer analyze = true
allows viewer export = true
allows viewer permission = false

unfoldable pub is_privileged : Role → Bool
is_privileged owner = true
is_privileged admin = true
is_privileged editor = false
is_privileged viewer = false

pub record Identity : Type 0 where
  pub user_id : String
  pub username : String
  pub role : Role

abbrev pub local_owner : Identity
local_owner = record { user_id = "local-owner"; username = "local-owner"; role = owner }

-- `Result<(), AuthorizationError>`: the error carries the permission that is missing.
unfoldable pub authorize : Identity → Permission → Option Permission
authorize identity permission = elim (allows identity.role permission) [
  | true ↦ none
  | false ↦ some permission
]
