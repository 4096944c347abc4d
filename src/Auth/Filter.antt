-- ===== src/Auth/Filter.antt =====
-- Row and column permissions of internal/auth/auth.go: `ApplyRowFilter`, `ApplyColumnPermissions` and
-- `substituteSessionVariables`.
pub mod Rows
use text.Mathlib.Text.{starts_with}
use graphpost.Prelude.{
  String, List, [], ◌∷◌, Option, none, some, Bool, true, false, ◌==◌, if◌then◌else◌, keep,
}
use graphpost.Prelude.Text.{to_lower, contains}
use graphpost.Json.{
  Value, null, bool, num, str, arr, obj, Items, nil, cons, Fields, end, field, get?,
}
use graphpost.Auth.Config.{AuthConfig, Session}
use graphpost.Auth.Permissions.{Operation, Permission, Rules, first, get_permissions}

-- The claims that hold the session variables of a session: those of the legacy namespace.
unfoldable pub variable_claims : AuthConfig → Session → Option Fields
variable_claims cfg session = elim (get? cfg.jwt_claims_namespace session.claims) [
  | some (obj claims) ↦ some claims
  | _ ↦ none
]

-- What stands for a session variable; a variable that is not found has no value.
unfoldable pub session_variable : AuthConfig → Session → String → Option Value
unfolding variable_claims
session_variable cfg session v =
    if v == "X-Hasura-User-Id"
    then some (str session.user_id)
    else if v == "X-Hasura-Role"
    then some (str session.role)
    else elim (variable_claims cfg session) [ none ↦ none | some claims ↦ get? (to_lower v) claims ]

-- `result[key] = v`, or no entry at all
abbrev pub with_entry : String → Option Value → Fields → Fields
with_entry key none rest = rest
with_entry key (some v) rest = field key v rest

unfoldable pub substitute_text : AuthConfig → Session → String → Option Value
substitute_text cfg session v =
    if starts_with v "X-Hasura-" then session_variable cfg session v else some (str v)

module _ (cfg : AuthConfig) (session : Session) where
  unfoldable mutual
    unfolding substitute_text

    pub substitute_session_variables : Fields → Fields
    substitute_session_variables end = end
    substitute_session_variables (field key v rest) =
        with_entry key (substitute_value v) (substitute_session_variables rest)

    pub substitute_value : Value → Option Value
    substitute_value (str s) = substitute_text cfg session s
    substitute_value (obj fields) = some (obj (substitute_session_variables fields))
    substitute_value (arr items) = some (arr (substitute_items items))
    substitute_value v = some v

    pub substitute_items : Items → Items
    substitute_items nil = nil
    substitute_items (cons v rest) = cons (substitute_item v) (substitute_items rest)

    -- In an array only maps are looked into.
    pub substitute_item : Value → Value
    substitute_item (obj fields) = obj (substitute_session_variables fields)
    substitute_item v = v

-- The query's filter and the permission's, joined.
unfoldable pub both_filters : Fields → Fields → Fields
both_filters end permission = permission
both_filters (field key v rest) permission =
    field "_and" (arr (cons (obj (field key v rest)) (cons (obj permission) nil))) end

unfoldable pub apply_row_filter :
    AuthConfig → Rules → Session → String → Operation → Fields → Fields
apply_row_filter cfg rules session table op filter =
    if session.is_admin
    then filter
    else elim (first (get_permissions rules session.role table op)) [
      | none ↦ filter
      | some perm ↦ elim perm.filter [
        | none ↦ filter
        | some row_filter ↦
            both_filters filter (substitute_session_variables cfg session row_filter)
      ]
    ]

-- Rules that name no column allow all of them.
unfoldable pub allowed_columns : List String → List String → List String
allowed_columns [] columns = columns
allowed_columns (c ∷ cs) columns = keep (contains (c ∷ cs)) columns

unfoldable pub apply_column_permissions :
    Rules → Session → String → Operation → List String → List String
unfolding allowed_columns
apply_column_permissions rules session table op columns =
    if session.is_admin
    then columns
    else elim (first (get_permissions rules session.role table op)) [
      | none ↦ columns
      | some perm ↦ allowed_columns perm.columns columns
    ]
