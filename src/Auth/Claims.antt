-- ===== src/Auth/Claims.antt =====
-- From the payload of a token to a session: `buildSessionFromPayload` of internal/auth/auth.go and
-- what it calls. A numeric date is read as a whole number of seconds.
pub mod Roles
use graphpost.Prelude.{
  String, List, [], ◌∷◌, ◌++◌, Option, none, some, Bool, true, false, ◌&&◌, ◌||◌, not, ◌==◌,
  if◌then◌else◌,
}
use graphpost.Prelude.Text.{split, trim_prefix, contains}
use graphpost.Prelude.Int.{ℤ}
use graphpost.Json.{
  Value, null, bool, num, str, arr, obj, Items, nil, cons, Fields, end, field, get?, as_string,
  as_array, as_object,
}
use graphpost.Auth.Config.{ClaimMapping, JwtConfig, AuthConfig, Session}

-- `m[key]`: a missing key is nil.
unfoldable pub get_or_null : String → Fields → Value
get_or_null key m = elim (get? key m) [ none ↦ null | some v ↦ v ]

-- The loop over the parts of a path; what is no map has no parts.
walk : List String → Value → Value
walk [] current = current
walk (part ∷ parts) (obj m) = walk parts (get_or_null part m)
walk (part ∷ parts) current = null

unfoldable pub extract_value_by_path : Fields → String → Value
unfolding walk
extract_value_by_path payload path =
    if path == "" then null else walk (split b'.' (trim_prefix "$." path)) (obj payload)

-- The texts among the elements of an array.
unfoldable pub strings_of : Items → List String
strings_of nil = []
strings_of (cons (str s) rest) = s ∷ strings_of rest
strings_of (cons v rest) = strings_of rest

-- What one claim of the map sets in the session.
apply_user_id : Value → Session → Session
apply_user_id (str s) session = record session { user_id = s }
apply_user_id v session = session

apply_role : Value → Session → Session
apply_role (str s) session = record session { role = s }
apply_role v session = session

apply_allowed_roles : Value → Session → Session
apply_allowed_roles (arr roles) session = record session {
  allowed_roles = session.allowed_roles ++ strings_of roles;
}
apply_allowed_roles v session = session

is_null : Value → Bool
is_null null = true
is_null v = false

unfoldable pub apply_claim : Fields → String → ClaimMapping → Session → Session
unfolding apply_user_id apply_role apply_allowed_roles is_null
apply_claim payload name mapping session =
    let found = extract_value_by_path payload mapping.path in
    let value = if is_null found then mapping.default else found in
    if name == "x-hasura-user-id" || name == "x-graphpost-user-id"
    then apply_user_id value session
    else if name == "x-hasura-default-role" || name == "x-graphpost-default-role"
    then apply_role value session
    else if name == "x-hasura-allowed-roles" || name == "x-graphpost-allowed-roles"
    then apply_allowed_roles value session
    else session

unfoldable pub apply_claims_map : Fields → List (String × ClaimMapping) → Session → Session
apply_claims_map payload [] session = session
apply_claims_map payload ((name, mapping) ∷ rest) session =
    apply_claims_map payload rest (apply_claim payload name mapping session)

-- The first key that holds a text that is not empty.
first_role : List String → Fields → String
first_role [] claims = ""
first_role (key ∷ keys) claims =
    let rest = first_role keys claims in
    elim (get? key claims) [ some (str role) ↦ if role == "" then rest else role | _ ↦ rest ]

abbrev pub role_keys : List String
role_keys = "x-graphpost-default-role" ∷ "x-hasura-default-role" ∷ "role" ∷ "default-role" ∷ []

unfoldable pub extract_role_from_claims : Fields → String
unfolding first_role
extract_role_from_claims = first_role role_keys

-- A list that is not empty, or else another.
abbrev pub or_list {ℓ} : {A : Type ℓ} → List A → List A → List A
or_list [] ys = ys
or_list (x ∷ xs) ys = x ∷ xs

-- The first key that holds an array with a text in it.
first_roles : List String → Fields → List String
first_roles [] claims = []
first_roles (key ∷ keys) claims =
    let rest = first_roles keys claims in
    elim (get? key claims) [ some (arr roles) ↦ or_list (strings_of roles) rest | _ ↦ rest ]

abbrev pub allowed_roles_keys : List String
allowed_roles_keys =
    "x-graphpost-allowed-roles" ∷ "x-hasura-allowed-roles" ∷ "allowed-roles" ∷ "roles" ∷ []

unfoldable pub extract_allowed_roles : Fields → List String
unfolding first_roles
extract_allowed_roles = first_roles allowed_roles_keys

abbrev pub or_text : String → String → String
or_text s t = if s == "" then t else s

unfoldable pub get_claims_namespace : AuthConfig → String
get_claims_namespace cfg = elim cfg.jwt [
  | none ↦ cfg.jwt_claims_namespace
  | some jwt ↦ or_text jwt.claims_namespace cfg.jwt_claims_namespace
]

-- The claims of the namespace; what is no map counts as empty.
unfoldable pub namespace_claims : String → Fields → Fields
namespace_claims namespace payload =
    if namespace == ""
    then end
    else elim (get? namespace payload) [ some (obj claims) ↦ claims | _ ↦ end ]

-- `if len(roles) > 0 && !contains(roles, role) { role = roles[0] }`
unfoldable pub permitted_role : List String → String → String
permitted_role [] role = role
permitted_role (r ∷ rs) role = if contains (r ∷ rs) role then role else r

abbrev empty_session : Fields → Session
empty_session payload = record {
  user_id = "";
  role = "";
  allowed_roles = [];
  is_admin = false;
  claims = payload;
  expires_at = none;
}

mapped_session : AuthConfig → Fields → Session
mapped_session cfg payload = elim cfg.jwt [
  | none ↦ empty_session payload
  | some jwt ↦ apply_claims_map payload jwt.claims_map (empty_session payload)
]

user_of : Fields → String → String
user_of payload mapped =
    if mapped == ""
    then (elim (get? "sub" payload) [ some (str sub) ↦ sub | _ ↦ mapped ])
    else mapped

expiry_of : Fields → Option ℤ
expiry_of payload = elim (get? "exp" payload) [ some (num exp) ↦ some exp | _ ↦ none ]

unfoldable pub build_session_from_payload : AuthConfig → Fields → Session
unfolding mapped_session user_of expiry_of
build_session_from_payload cfg payload =
    let session = mapped_session cfg payload in
    let claims = namespace_claims (get_claims_namespace cfg) payload in
    let allowed_roles = or_list session.allowed_roles (extract_allowed_roles claims) in
    let role = or_text (or_text session.role (extract_role_from_claims claims)) cfg.default_role in
    record session {
      user_id = user_of payload session.user_id;
      role = permitted_role allowed_roles role;
      allowed_roles = allowed_roles;
      expires_at = expiry_of payload;
    }
