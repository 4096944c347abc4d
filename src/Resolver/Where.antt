-- ===== src/Resolver/Where.antt =====
-- `buildWhereClause` of internal/resolver/resolver.go: boolean filters over columns.
use mathlib.Core.List.{append-nil}
use graphpost.Prelude.{ℕ, ◌+◌, String, List, [], ◌∷◌, ◌++◌, refl, ◌∙◌, ◌==◌, if◌then◌else◌, length}
use graphpost.Json.{Value, arr, obj, Items, nil, cons, Fields, end, field}
use graphpost.Resolver.Sql.{
  text, Clause, Arg, join, Built, Statement, nothing, ◌⊕◌, placeholders, all_placeholders,
  IsNumbered, IsNumberedClause, nothing-IsNumbered, ⊕-IsNumbered, join-IsNumbered,
  placeholders-join, placeholders-append,
}
use graphpost.Resolver.Columns.{
  Encoders, column_conditions, column_conditions-IsNumbered, if-IsNumbered,
}

-- `"(" + c + ")"` behind an opening text
abbrev pub bracket : String → Clause → Clause
bracket opening c = text opening ∷ (c ++ (text ")" ∷ []))

-- A part of a list that is not empty is one condition in brackets, and an empty one is none.
unfoldable pub grouped : String → Built → Built
grouped sep ([], args) = ([], args)
grouped sep (c ∷ cs, args) = (bracket "(" (join sep (c ∷ cs)) ∷ [], args)

-- What a nested filter adds: nothing if its clause is empty.
unfoldable pub nested_clause : String → Clause → List Arg → Built
nested_clause opening [] args = nothing
nested_clause opening (p ∷ ps) args = (bracket opening (p ∷ ps) ∷ [], args)

unfoldable pub nested : String → Built → Built
nested opening b = nested_clause opening (join " AND " b.0) b.1

module _ (enc : Encoders) where
  -- The loop over the entries of a filter, one round of it, and the loops over the elements of
  -- `_and` and `_or`; `i` is `argIndex`.
  unfoldable mutual
    pub filter_conditions : Fields → ℕ → Built
    filter_conditions end i = nothing
    filter_conditions (field key v rest) i =
        let b = filter_condition key v i in b ⊕ filter_conditions rest (i + length b.1)

    pub filter_condition : String → Value → ℕ → Built
    filter_condition key (arr items) i =
        let parts = filter_parts items i in
        if key == "_and"
        then grouped " AND " parts
        else if key == "_or"
        then grouped " OR " parts
        else nothing
    filter_condition key (obj fields) i =
        let inner = filter_conditions fields i in
        if key == "_and"
        then nothing
        else if key == "_or"
        then nothing
        else if key == "_not"
        then nested "NOT (" inner
        else column_conditions enc key fields i
    filter_condition key v i = nothing

    pub filter_parts : Items → ℕ → Built
    filter_parts nil i = nothing
    filter_parts (cons v rest) i = let b = filter_part v i in b ⊕ filter_parts rest (i + length b.1)

    pub filter_part : Value → ℕ → Built
    filter_part (obj fields) i = nested "(" (filter_conditions fields i)
    filter_part v i = nothing

  unfoldable pub build_where_clause : Fields → ℕ → Statement
  build_where_clause filter i = let b = filter_conditions filter i in (join " AND " b.0, b.1)

grouped-IsNumbered :
    (sep : String) (i : ℕ) (b : Built) → IsNumbered i b → IsNumbered i (grouped sep b)
unfolding grouped IsNumbered all_placeholders placeholders
grouped-IsNumbered sep i ([], args) h = h
grouped-IsNumbered sep i (c ∷ cs, args) h =
    rw append-nil (rw placeholders-append (rw placeholders-join (append-nil _ ∙ h)))

nested_clause-IsNumbered :
    (opening : String) (i : ℕ) (c : Clause) (args : List Arg)
    → IsNumberedClause i (c, args)
    → IsNumbered i (nested_clause opening c args)
unfolding nested_clause IsNumbered IsNumberedClause all_placeholders placeholders
nested_clause-IsNumbered opening i [] args h = refl
nested_clause-IsNumbered opening i (p ∷ ps) args h =
    rw append-nil (rw placeholders-append (append-nil _ ∙ h))

nested-IsNumbered :
    (opening : String) (i : ℕ) (b : Built) → IsNumbered i b → IsNumbered i (nested opening b)
unfolding nested
nested-IsNumbered opening i b h =
    nested_clause-IsNumbered opening i (join " AND " b.0) b.1 (join-IsNumbered i " AND " b h)

module _ (enc : Encoders) where
  mutual
    unfolding filter_conditions

    conditions-IsNumbered : (fs : Fields) (i : ℕ) → IsNumbered i (filter_conditions enc fs i)
    conditions-IsNumbered end i = nothing-IsNumbered i
    conditions-IsNumbered (field key v rest) i =
        ⊕-IsNumbered i (filter_condition enc key v i) _ (condition-IsNumbered key v i)
          (conditions-IsNumbered rest (i + length (filter_condition enc key v i).1))

    condition-IsNumbered :
        (key : String) (v : Value) (i : ℕ) → IsNumbered i (filter_condition enc key v i)
    condition-IsNumbered key (arr items) i =
        if-IsNumbered (key == "_and") i _ _
          (grouped-IsNumbered " AND " i _ (parts-IsNumbered items i))
          (if-IsNumbered (key == "_or") i _ _
            (grouped-IsNumbered " OR " i _ (parts-IsNumbered items i)) (nothing-IsNumbered i))
    condition-IsNumbered key (obj fields) i =
        if-IsNumbered (key == "_and") i _ _ (nothing-IsNumbered i) (
          if-IsNumbered (key == "_or") i nothing _ (nothing-IsNumbered i) (
            if-IsNumbered (key == "_not") i _ _
              (nested-IsNumbered "NOT (" i _ (conditions-IsNumbered fields i))
              (column_conditions-IsNumbered enc key fields i)))
    condition-IsNumbered key v i = nothing-IsNumbered i

    parts-IsNumbered : (xs : Items) (i : ℕ) → IsNumbered i (filter_parts enc xs i)
    parts-IsNumbered nil i = nothing-IsNumbered i
    parts-IsNumbered (cons v rest) i =
        ⊕-IsNumbered i (filter_part enc v i) _ (part-IsNumbered v i)
          (parts-IsNumbered rest (i + length (filter_part enc v i).1))

    part-IsNumbered : (v : Value) (i : ℕ) → IsNumbered i (filter_part enc v i)
    part-IsNumbered (obj fields) i = nested-IsNumbered "(" i _ (conditions-IsNumbered fields i)
    part-IsNumbered v i = nothing-IsNumbered i

  -- The clause that a filter becomes holds the placeholders `i`, `i + 1`, … in this order, as many
  -- as it has arguments, at any nesting of `_and`, `_or` and `_not`.
  pub build_where_clause-IsNumberedClause :
      (filter : Fields) (i : ℕ) → IsNumberedClause i (build_where_clause enc filter i)
  unfolding build_where_clause
  build_where_clause-IsNumberedClause filter i =
      join-IsNumbered i " AND " (filter_conditions enc filter i) (conditions-IsNumbered filter i)
