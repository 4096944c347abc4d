-- ===== src/Resolver/Columns.antt =====
-- `buildColumnConditions` of internal/resolver/resolver.go: the comparison operators of one column.
-- `encoding/json` and `%v` write texts that go to the database as arguments; no placeholder depends
-- on them, so both are parameters.
use mathlib.Core.List.{append-nil}
use graphpost.Prelude.{
  Option-cases, inl, inr, ℕ, ◌+◌, String, List, [], ◌∷◌, ◌++◌, ◌≡◌, refl, ap, ◌∙◌, Option, none,
  some, Bool, true, false, ◌==◌, if◌then◌else◌, length, count_up, map,
}
use graphpost.Json.{Value, bool, str, arr, Fields, end, field, elements}
use graphpost.Resolver.Sql.{
  text, ident, param, Clause, Arg, value, strings, join, Built, nothing, ◌⊕◌, placeholders,
  placeholders-join, placeholders-append, all_placeholders, IsNumbered, nothing-IsNumbered,
  ⊕-IsNumbered,
}

pub record Encoders : Type 0 where
  -- `json.Marshal`
  pub marshal : Value → String
  -- `fmt.Sprintf("%v", v)`
  pub sprint : Value → String

-- The SQL of the operators that compare the column with one argument.
unfoldable pub infix_operator : String → Option String
infix_operator op =
    if op == "_eq"
    then some " = "
    else if op == "_neq"
    then some " != "
    else if op == "_gt"
    then some " > "
    else if op == "_gte"
    then some " >= "
    else if op == "_lt"
    then some " < "
    else if op == "_lte"
    then some " <= "
    else if op == "_like"
    then some " LIKE "
    else if op == "_nlike"
    then some " NOT LIKE "
    else if op == "_ilike"
    then some " ILIKE "
    else if op == "_nilike"
    then some " NOT ILIKE "
    else if op == "_similar"
    then some " SIMILAR TO "
    else if op == "_nsimilar"
    then some " NOT SIMILAR TO "
    else if op == "_regex"
    then some " ~ "
    else if op == "_nregex"
    then some " !~ "
    else if op == "_iregex"
    then some " ~* "
    else if op == "_niregex"
    then some " !~* "
    else if op == "_has_key"
    then some " ? "
    else none

-- One condition with one placeholder.
abbrev pub compare_with : String → String → ℕ → Arg → Built
compare_with column op i arg = ((ident column ∷ text op ∷ param i ∷ []) ∷ [], arg ∷ [])

-- The loop that fills `placeholders` and appends to `args`.
unfoldable pub numbered_params : List Value → ℕ → List Clause
numbered_params [] i = []
numbered_params (v ∷ vs) i = (param i ∷ []) ∷ numbered_params vs (i + 1)

unfoldable pub membership : String → String → ℕ → List Value → Built
unfolding numbered_params
membership column op i [] = nothing
membership column op i (v ∷ vs) = (
  (ident column ∷ text op ∷ (join ", " (numbered_params (v ∷ vs) i) ++ (text ")" ∷ []))) ∷ [],
  map value (v ∷ vs),
)

-- The operators that look at the dynamic type of their value.
unfoldable pub typed_operator : Encoders → String → String → Value → ℕ → Built
unfolding membership
typed_operator enc column op (arr items) i =
    if op == "_in"
    then membership column " IN (" i (elements items)
    else if op == "_nin"
    then membership column " NOT IN (" i (elements items)
    else if op == "_has_keys_any"
    then compare_with column " ?| " i (strings (map enc.sprint (elements items)))
    else if op == "_has_keys_all"
    then compare_with column " ?& " i (strings (map enc.sprint (elements items)))
    else nothing
typed_operator enc column op (bool is_null) i =
    if op == "_is_null"
    then ((ident column ∷ text (if is_null then " IS NULL" else " IS NOT NULL") ∷ []) ∷ [], [])
    else nothing
typed_operator enc column op v i = nothing

-- The operators on JSON documents, whose value is sent as JSON text.
unfoldable pub json_operator : String → Option String
json_operator op =
    if op == "_contains" then some " @> " else if op == "_contained_in" then some " <@ " else none

-- One round of the loop: the `switch`.
unfoldable pub column_operator : Encoders → String → String → Value → ℕ → Built
column_operator enc column op v i = elim (infix_operator op) [
  | some sql ↦ compare_with column sql i (value v)
  | none ↦ elim (json_operator op) [
    | some sql ↦ compare_with column sql i (value (str (enc.marshal v)))
    | none ↦ typed_operator enc column op v i
  ]
]

unfoldable pub column_conditions : Encoders → String → Fields → ℕ → Built
column_conditions enc column end i = nothing
column_conditions enc column (field op v rest) i =
    let b = column_operator enc column op v i in
    b ⊕ column_conditions enc column rest (i + length b.1)

compare_with-IsNumbered :
    (column op : String) (i : ℕ) (arg : Arg) → IsNumbered i (compare_with column op i arg)
unfolding IsNumbered all_placeholders placeholders
compare_with-IsNumbered column op i arg = refl

null_test-IsNumbered :
    (column test : String) (i : ℕ) → IsNumbered i ((ident column ∷ text test ∷ []) ∷ [], [])
unfolding IsNumbered all_placeholders placeholders
null_test-IsNumbered column test i = refl

numbered_params-count_up :
    (vs : List Value) (i : ℕ)
    → all_placeholders (numbered_params vs i) ≡ count_up i (length (map value vs))
unfolding numbered_params all_placeholders placeholders
numbered_params-count_up [] i = refl
numbered_params-count_up (v ∷ vs) i = ap (◌∷◌ i) (numbered_params-count_up vs (i + 1))

membership-IsNumbered :
    (column op : String) (i : ℕ) (vs : List Value) → IsNumbered i (membership column op i vs)
unfolding IsNumbered membership all_placeholders placeholders
membership-IsNumbered column op i [] = refl
membership-IsNumbered column op i (v ∷ vs) = rw append-nil (
    rw placeholders-append
      (rw placeholders-join (append-nil _ ∙ numbered_params-count_up (v ∷ vs) i)))

-- Whether a case yields a condition or none, it is numbered.
pub if-IsNumbered :
    (b : Bool) (i : ℕ) (x y : Built)
    → IsNumbered i x
    → IsNumbered i y
    → IsNumbered i (if b then x else y)
if-IsNumbered true i x y h k = h
if-IsNumbered false i x y h k = k

typed_operator-IsNumbered :
    (enc : Encoders) (column op : String) (v : Value) (i : ℕ)
    → IsNumbered i (typed_operator enc column op v i)
unfolding typed_operator
typed_operator-IsNumbered enc column op (arr items) i =
    let vs = elements items in
    let texts = strings (map enc.sprint vs) in
    if-IsNumbered (op == "_in") i _ _ (membership-IsNumbered column " IN (" i vs) (
      if-IsNumbered (op == "_nin") i _ _ (membership-IsNumbered column " NOT IN (" i vs) (
        if-IsNumbered (op == "_has_keys_any") i _ _ (compare_with-IsNumbered column " ?| " i texts)
          (if-IsNumbered (op == "_has_keys_all") i _ _
            (compare_with-IsNumbered column " ?& " i texts) (nothing-IsNumbered i))))
typed_operator-IsNumbered enc column op (bool is_null) i =
    if-IsNumbered (op == "_is_null") i _ _
      (null_test-IsNumbered column (if is_null then " IS NULL" else " IS NOT NULL") i)
      (nothing-IsNumbered i)
typed_operator-IsNumbered enc column op v i = nothing-IsNumbered i

column_operator-IsNumbered :
    (enc : Encoders) (column op : String) (v : Value) (i : ℕ)
    → IsNumbered i (column_operator enc column op v i)
unfolding column_operator
column_operator-IsNumbered enc column op v i = elim (Option-cases (infix_operator op)) [
  | inr (sql, e) ↦ rw (e, column_operator) (compare_with-IsNumbered column sql i _)
  | inl e ↦ elim (Option-cases (json_operator op)) [
    | inr (sql, e') ↦ rw (e, e', column_operator) (compare_with-IsNumbered column sql i _)
    | inl e' ↦ rw (e, e', column_operator) (typed_operator-IsNumbered enc column op v i)
  ]
]

pub column_conditions-IsNumbered :
    (enc : Encoders) (column : String) (ops : Fields) (i : ℕ)
    → IsNumbered i (column_conditions enc column ops i)
unfolding column_conditions
column_conditions-IsNumbered enc column end i = nothing-IsNumbered i
column_conditions-IsNumbered enc column (field op v rest) i =
    let b = column_operator enc column op v i in
    ⊕-IsNumbered i b _ (column_operator-IsNumbered enc column op v i)
      (column_conditions-IsNumbered enc column rest (i + length b.1))
