-- ===== src/Auth/Permissions.antt =====
-- The permission rules of internal/auth/auth.go: `AddPermission`, `GetPermissions` and
-- `CheckPermission` over the map role -> table -> rules.
pub mod Rules
use graphpost.Prelude.{
  String, List, [], ◌∷◌, ◌++◌, Option, none, some, Bool, true, false, ◌&&◌, ◌==◌, if◌then◌else◌,
  keep,
}
use graphpost.Json.{Fields}
use graphpost.Maps.{GoMap, lookup, put}
use graphpost.Auth.Config.{Session}

-- The operation types are texts in the source.
pub data Operation : Type 0 where
  select insert update delete : Operation

abbrev pub same_operation : Operation → Operation → Bool
same_operation select select = true
same_operation insert insert = true
same_operation update update = true
same_operation delete delete = true
same_operation _ _ = false

-- A filter that is not set is nil.
pub record Permission : Type 0 where
  pub role : String
  pub table : String
  pub operation : Operation
  pub columns : List String
  pub filter : Option Fields
  pub check : Option Fields
  pub allow_aggregations : Bool

abbrev pub TableRules : Type 0
TableRules = GoMap (List Permission)

abbrev pub Rules : Type 0
Rules = GoMap TableRules

-- A read of a map of slices, or of maps: a missing key is nil, which reads as empty.
abbrev pub or_nil {ℓ} : {A : Type ℓ} → Option (List A) → List A
or_nil none = []
or_nil (some xs) = xs

unfoldable pub add_permission : Permission → Rules → Rules
add_permission perm rules =
    let tables = or_nil (lookup perm.role rules) in
    put perm.role (put perm.table (or_nil (lookup perm.table tables) ++ (perm ∷ [])) tables) rules

unfoldable pub get_permissions : Rules → String → String → Operation → List Permission
get_permissions rules role table op = elim (lookup role rules) [
  | none ↦ []
  | some tables ↦ elim (lookup table tables) [
    | none ↦ []
    | some perms ↦ keep (λ p. same_operation p.operation op) perms
  ]
]

abbrev pub admin_permission : String → Operation → Permission
admin_permission table op = record {
  role = "admin";
  table = table;
  operation = op;
  columns = [];
  filter = none;
  check = none;
  allow_aggregations = false;
}

abbrev pub first {ℓ} : {A : Type ℓ} → List A → Option A
first [] = none
first (x ∷ xs) = some x

-- `none` is the error "permission denied".
unfoldable pub check_permission : Rules → Session → String → Operation → Option Permission
check_permission rules session table op =
    if session.is_admin
    then some (admin_permission table op)
    else first (get_permissions rules session.role table op)
