-- ===== src/Auth/Claims/Roles.antt =====
-- What the claims of a token can make of a session.
use mathlib.Core.Path.{subst}
use graphpost.Prelude.{
  String, List, [], ◌∷◌, ◌⊎◌, inl, inr, ◌≡◌, refl, sym, ap, Option-cases, ◌∙◌, Bool, true, false,
  arith, Bool-cases, if◌then◌else◌,
}
use graphpost.Prelude.Text.{contains, contains-ElementOf, ElementOf}
use graphpost.Json.{Value, Fields, str, arr}
use graphpost.Auth.Config.{ClaimMapping, AuthConfig, Session}
use graphpost.Auth.Claims.{
  apply_claim, apply_claims_map, apply_user_id, apply_role, apply_allowed_roles, permitted_role,
  build_session_from_payload, mapped_session, empty_session,
}

permitted_role-if :
    (r : String) (rs : List String) (role : String) {b : Bool}
    → contains (r ∷ rs) role ≡ b
    → permitted_role (r ∷ rs) role ≡ (if b then role else r)
unfolding permitted_role
permitted_role-if r rs role h = ap (λ b. if b then role else r) h

permitted_role-ElementOf :
    (roles : List String) (role : String)
    → (roles ≡ []) ⊎ ElementOf (permitted_role roles role) roles
permitted_role-ElementOf [] role = inl refl
permitted_role-ElementOf (r ∷ rs) role = elim (Bool-cases (contains (r ∷ rs) role)) [
  | inl held ↦ inr (
      subst (λ x. ElementOf x (r ∷ rs)) (sym (permitted_role-if r rs role held))
        (contains-ElementOf (r ∷ rs) role held))
  | inr other ↦ inr (inl (sym (permitted_role-if r rs role other)))
]

-- The role of a session that a token gives is one of its allowed roles, unless it has none.
pub build_session_from_payload-role :
    (cfg : AuthConfig) (payload : Fields)
    → ((build_session_from_payload cfg payload).allowed_roles ≡ [])
      ⊎ ElementOf
          (build_session_from_payload cfg payload).role
          (build_session_from_payload cfg payload).allowed_roles
unfolding build_session_from_payload
build_session_from_payload-role cfg payload = permitted_role-ElementOf _ _

is_admin-apply_user_id : (v : Value) (s : Session) → (apply_user_id v s).is_admin ≡ s.is_admin
unfolding apply_user_id
is_admin-apply_user_id (str t) s = refl
is_admin-apply_user_id v s = refl

is_admin-apply_role : (v : Value) (s : Session) → (apply_role v s).is_admin ≡ s.is_admin
unfolding apply_role
is_admin-apply_role (str t) s = refl
is_admin-apply_role v s = refl

is_admin-apply_allowed_roles :
    (v : Value) (s : Session) → (apply_allowed_roles v s).is_admin ≡ s.is_admin
unfolding apply_allowed_roles
is_admin-apply_allowed_roles (arr items) s = refl
is_admin-apply_allowed_roles v s = refl

is_admin-if :
    (b : Bool) (s t : Session) {a : Bool}
    → s.is_admin ≡ a
    → t.is_admin ≡ a
    → (if b then s else t).is_admin ≡ a
is_admin-if true s t h k = h
is_admin-if false s t h k = k

is_admin-apply_claim :
    (payload : Fields) (name : String) (mapping : ClaimMapping) (s : Session)
    → (apply_claim payload name mapping s).is_admin ≡ s.is_admin
unfolding apply_claim
is_admin-apply_claim payload name mapping s = ground arith

is_admin-apply_claims_map :
    (payload : Fields) (claims : List (String × ClaimMapping)) (s : Session)
    → (apply_claims_map payload claims s).is_admin ≡ s.is_admin
unfolding apply_claims_map
is_admin-apply_claims_map payload [] s = refl
is_admin-apply_claims_map payload ((name, mapping) ∷ rest) s =
    is_admin-apply_claims_map payload rest (apply_claim payload name mapping s)
    ∙ is_admin-apply_claim payload name mapping s

is_admin-mapped_session :
    (cfg : AuthConfig) (payload : Fields) → (mapped_session cfg payload).is_admin ≡ false
unfolding mapped_session
is_admin-mapped_session cfg payload = elim (Option-cases cfg.jwt) [
  | inl e ↦ rw (e, mapped_session)
  | inr (jwt, e) ↦
      rw (e, mapped_session)
        (is_admin-apply_claims_map payload jwt.claims_map (empty_session payload))
]

-- No token, whatever its claims and whatever map of claims is configured, gives an admin session.
pub build_session_from_payload-is_admin :
    (cfg : AuthConfig) (payload : Fields)
    → (build_session_from_payload cfg payload).is_admin ≡ false
unfolding build_session_from_payload
build_session_from_payload-is_admin cfg payload = is_admin-mapped_session cfg payload
