-- ===== src/Auth/Permissions/Rules.antt =====
-- The nested maps of rules are a filter over the rules in the order in which they were added.
use graphpost.Prelude.{
  String, List, [], ◌∷◌, ◌++◌, some, Bool, ◌&&◌, ◌==◌, eq_iff, if◌then◌else◌, Bool-cases, inl, inr,
  keep, keep-append, ◌≡◌, refl, sym, arith,
}
use mathlib.Core.List.{append-nil, append_assoc}
use graphpost.Maps.{lookup, lookup-put}
use graphpost.Auth.Config.{Session}
use graphpost.Auth.Permissions.{
  Operation, same_operation, Permission, Rules, or_nil, add_permission, get_permissions,
  check_permission, admin_permission, first,
}

-- The rule is about this role, table and operation.
abbrev pub is_about : String → String → Operation → Permission → Bool
is_about role table op p = p.role == role && (p.table == table && same_operation p.operation op)

-- Adding rules in turn to no rules.
unfoldable pub add_permissions : List Permission → Rules → Rules
add_permissions [] rules = rules
add_permissions (p ∷ ps) rules = add_permissions ps (add_permission p rules)

rules_of : Rules → String → String → List Permission
rules_of rules role table = or_nil (lookup table (or_nil (lookup role rules)))

get_permissions-keep :
    (rules : Rules) (role table : String) (op : Operation)
    → get_permissions rules role table op
      ≡ keep (λ p. same_operation p.operation op) (rules_of rules role table)
unfolding get_permissions rules_of lookup
get_permissions-keep rules role table op = ground arith

rules_of-add_permission :
    (p : Permission) (rules : Rules) (role table : String)
    → rules_of (add_permission p rules) role table
      ≡ rules_of rules role table ++ (if p.role == role && p.table == table then p ∷ [] else [])
unfolding rules_of add_permission
rules_of-add_permission p rules role table = elim (Bool-cases (p.role == role)) [
  | inl e ↦ elim (Bool-cases (p.table == table)) [
    | inl f ↦
        rw (lookup-put, e, lookup-put, f)
          (cc ((eq_iff p.role role).0 e, (eq_iff p.table table).0 f))
    | inr f ↦ rw (lookup-put, e, lookup-put, f, append-nil) (cc ((eq_iff p.role role).0 e))
  ]
  | inr e ↦ rw (lookup-put, e, append-nil)
]

-- One more rule is seen last, by exactly the requests that it is about.
pub get_permissions-add_permission :
    (p : Permission) (rules : Rules) (role table : String) (op : Operation)
    → get_permissions (add_permission p rules) role table op
      ≡ get_permissions rules role table op ++ (if is_about role table op p then p ∷ [] else [])
get_permissions-add_permission p rules role table op =
    rw (get_permissions-keep, get_permissions-keep, rules_of-add_permission, keep-append)
      (ground arith)

-- The rules that a request sees are those that are about it, in the order in which they were added.
pub get_permissions-add_permissions :
    (ps : List Permission) (rules : Rules) (role table : String) (op : Operation)
    → get_permissions (add_permissions ps rules) role table op
      ≡ get_permissions rules role table op ++ keep (is_about role table op) ps
unfolding add_permissions
get_permissions-add_permissions [] rules role table op = sym (append-nil _)
get_permissions-add_permissions (p ∷ ps) rules role table op =
    rw
      (
        get_permissions-add_permissions ps (add_permission p rules) role table op,
        get_permissions-add_permission,
        append_assoc,
      )
      (ground arith)

no_rules : (role table : String) (op : Operation) → get_permissions [] role table op ≡ []
unfolding get_permissions lookup
no_rules role table op = refl

-- `CheckPermission` gives an administrator every operation, and any other session the first rule
-- that was added for its role, the table and the operation; without one it refuses.
pub check_permission-add_permissions :
    (ps : List Permission) (session : Session) (table : String) (op : Operation)
    → check_permission (add_permissions ps []) session table op ≡ (
        if session.is_admin
        then some (admin_permission table op)
        else first (keep (is_about session.role table op) ps))
unfolding check_permission
check_permission-add_permissions ps session table op =
    rw (get_permissions-add_permissions, no_rules)
