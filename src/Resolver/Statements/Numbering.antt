-- ===== src/Resolver/Statements/Numbering.antt =====
-- Every statement of internal/resolver/resolver.go has the placeholders $1, $2, … in this order, as
-- many as it has arguments, so that the n-th argument meets the n-th placeholder.
use mathlib.Core.List.{append-nil}
use graphpost.Prelude.{
  ℕ, ◌+◌, String, List, [], ◌∷◌, ◌++◌, Option, none, some, length, ◌≡◌, refl, ◌∙◌, count_up,
  count_up-add, length-append,
}
use graphpost.Prelude.Int.{ℤ}
use graphpost.Json.{Value, Fields, entries}
use graphpost.Resolver.Sql.{
  text, Clause, Arg, join, Built, Statement, ◌⧺◌, placeholders, all_placeholders,
  placeholders-append, placeholders-join, all_placeholders-append, IsNumbered, IsNumberedClause,
  nothing-IsNumbered, ⊕-IsNumbered, ⧺-IsNumberedClause,
}
use graphpost.Resolver.Columns.{Encoders}
use graphpost.Resolver.Where.{build_where_clause, build_where_clause-IsNumberedClause}
use graphpost.Resolver.Statements.{
  QueryParams, MutationParams, for_entries, table_ref, identifiers, keys, set_part, inc_part,
  pk_part, pk_part_of, value_part, where_text, where_part, optional_part, order_parts,
  build_order_by_clause, order_text, select_clause, build_select_query, build_count_query,
  build_insert_query, row_values, value_sets, build_batch_insert_query, assignments,
  build_update_by_pk_query, build_update_query, delete_statement, delete_by_pk_statement,
  query_by_pk_statement,
}

for_entries-IsNumbered :
    (round : String → Value → ℕ → Built)
    → ((key : String) (v : Value) (i : ℕ) → IsNumbered i (round key v i))
    → (es : List (String × Value)) (i : ℕ) → IsNumbered i (for_entries round es i)
unfolding for_entries
for_entries-IsNumbered round each [] i = nothing-IsNumbered i
for_entries-IsNumbered round each ((key, v) ∷ rest) i =
    ⊕-IsNumbered i (round key v i) _ (each key v i)
      (for_entries-IsNumbered round each rest (i + length (round key v i).1))

set_part-IsNumbered :
    (enc : Encoders) (key : String) (v : Value) (i : ℕ) → IsNumbered i (set_part enc key v i)
unfolding IsNumbered all_placeholders placeholders
set_part-IsNumbered enc key v i = refl

inc_part-IsNumbered : (key : String) (v : Value) (i : ℕ) → IsNumbered i (inc_part key v i)
unfolding IsNumbered all_placeholders placeholders
inc_part-IsNumbered key v i = refl

pk_part-IsNumbered : (key : String) (v : Value) (i : ℕ) → IsNumbered i (pk_part key v i)
unfolding IsNumbered all_placeholders placeholders
pk_part-IsNumbered key v i = refl

pk_part_of-IsNumbered :
    (table key : String) (v : Value) (i : ℕ) → IsNumbered i (pk_part_of table key v i)
unfolding IsNumbered all_placeholders placeholders
pk_part_of-IsNumbered table key v i = refl

value_part-IsNumbered :
    (enc : Encoders) (key : String) (v : Value) (i : ℕ) → IsNumbered i (value_part enc key v i)
unfolding IsNumbered all_placeholders placeholders
value_part-IsNumbered enc key v i = refl

-- Fixed words and identifiers hold no placeholder.
all_placeholders-identifiers : (names : List String) → all_placeholders (identifiers names) ≡ []
unfolding all_placeholders placeholders
all_placeholders-identifiers [] = refl
all_placeholders-identifiers (n ∷ ns) = all_placeholders-identifiers ns

all_placeholders-order_parts : (es : List (String × Value)) → all_placeholders (order_parts es) ≡ []
unfolding all_placeholders placeholders order_parts
all_placeholders-order_parts [] = refl
all_placeholders-order_parts (e ∷ es) = all_placeholders-order_parts es

all_placeholders-build_order_by_clause :
    (obs : List Fields) → all_placeholders (build_order_by_clause obs) ≡ []
unfolding build_order_by_clause
all_placeholders-build_order_by_clause [] = unfold all_placeholders in refl
all_placeholders-build_order_by_clause (ob ∷ rest) = rw (
  all_placeholders-append,
  all_placeholders-order_parts,
  all_placeholders-build_order_by_clause rest,
)

ruleset text_laws = (
  placeholders-append, placeholders-join, all_placeholders-identifiers,
  all_placeholders-build_order_by_clause, append-nil,
)

placeholders-order_text :
    (cs : List Clause) → all_placeholders cs ≡ [] → placeholders (order_text cs) ≡ []
unfolding order_text placeholders
placeholders-order_text [] h = refl
placeholders-order_text (c ∷ cs) h = placeholders-join ", " (c ∷ cs) ∙ h

placeholders-select_clause : (names : List String) → placeholders (select_clause names) ≡ []
unfolding select_clause placeholders
placeholders-select_clause [] = refl
placeholders-select_clause (n ∷ ns) = simp text_laws

pub placeholders-where_text : (c : Clause) → placeholders (where_text c) ≡ placeholders c
unfolding placeholders
placeholders-where_text [] = refl
placeholders-where_text (p ∷ ps) = refl

where_part-IsNumberedClause :
    (i : ℕ) (s : Statement) → IsNumberedClause i s → IsNumberedClause i (where_part s)
unfolding where_part IsNumberedClause placeholders
where_part-IsNumberedClause i ([], args) h = refl
where_part-IsNumberedClause i (p ∷ ps, args) h = h

optional_part-IsNumberedClause :
    (words : String) (n : Option ℤ) (i : ℕ) → IsNumberedClause i (optional_part words n i)
unfolding IsNumberedClause placeholders
optional_part-IsNumberedClause words none i = refl
optional_part-IsNumberedClause words (some n) i = refl

-- A text with no placeholder in front changes nothing.
words_in_front :
    (i : ℕ) (c : Clause) (s : Statement)
    → placeholders c ≡ []
    → IsNumberedClause i s
    → IsNumberedClause i ((c, []) ⧺ s)
unfolding IsNumberedClause
words_in_front i c s e h = rw (placeholders-append, e, h)

-- The numbers of two parts, the second of which counts on from the first.
numbers_in_turn :
    (ns ms : List ℕ) (i : ℕ) (xs ys : List Arg)
    → ns ≡ count_up i (length xs)
    → ms ≡ count_up (i + length xs) (length ys)
    → ns ++ ms ≡ count_up i (length (xs ++ ys))
numbers_in_turn ns ms i xs ys h k = rw (length-append, count_up-add, h, k)

module _ (enc : Encoders) (schema : String) where
  -- A SELECT, with any filter, order, limit and offset, holds the placeholders 1, 2, … in this
  -- order, as many as it has arguments.
  pub build_select_query-IsNumberedClause :
      (params : QueryParams) → IsNumberedClause 1 (build_select_query enc schema params)
  unfolding build_select_query
  build_select_query-IsNumberedClause params =
      let filter = where_part (build_where_clause enc params.filter 1) in
      let index = 1 + length filter.1 in
      let limit = optional_part " LIMIT " params.limit index in
      let offset = optional_part " OFFSET " params.offset (index + length limit.1) in
      let order = order_text (build_order_by_clause params.order_by) in
      words_in_front 1 _ (filter ⧺ (order, []) ⧺ limit ⧺ offset) (head_words params) (
        ⧺-IsNumberedClause 1 filter _
          (where_part-IsNumberedClause 1 _
            (build_where_clause-IsNumberedClause enc params.filter 1))
          (words_in_front index order (limit ⧺ offset)
            (placeholders-order_text _ (all_placeholders-build_order_by_clause params.order_by))
            (⧺-IsNumberedClause index limit offset
              (optional_part-IsNumberedClause " LIMIT " params.limit index)
              (optional_part-IsNumberedClause " OFFSET " params.offset _))))
    where
      head_words :
          (q : QueryParams)
          → placeholders (
              text "SELECT "
              ∷ (select_clause q.distinct_on ++ (text " FROM " ∷ table_ref schema q.table_name)))
            ≡ []
      head_words q = unfold placeholders in rw (placeholders-append, placeholders-select_clause)

  -- The same for SELECT COUNT(*),
  pub build_count_query-IsNumberedClause :
      (params : QueryParams) → IsNumberedClause 1 (build_count_query enc schema params)
  unfolding build_count_query IsNumberedClause placeholders
  build_count_query-IsNumberedClause params =
      placeholders-where_text (build_where_clause enc params.filter 1).0
      ∙ build_where_clause-IsNumberedClause enc params.filter 1

  -- for the INSERT of one object,
  pub build_insert_query-IsNumberedClause :
      (table : String) (object : Fields)
      → IsNumberedClause 1 (build_insert_query enc schema table object)
  unfolding build_insert_query IsNumberedClause placeholders
  build_insert_query-IsNumberedClause table object = simp text_laws (
      unfold IsNumbered in
      for_entries-IsNumbered (value_part enc) (value_part-IsNumbered enc) (entries object) 1)

  row_values-IsNumbered :
      (columns : List String) (object : Fields) (i : ℕ)
      → IsNumbered i (row_values enc schema columns object i)
  unfolding row_values
  row_values-IsNumbered columns object i =
      for_entries-IsNumbered (value_part enc) (value_part-IsNumbered enc) _ i

  -- A tuple of values in its brackets, as one part.
  tuple-IsNumbered :
      (i : ℕ) (b : Built)
      → IsNumbered i b
      → IsNumbered i ((text "(" ∷ (join ", " b.0 ++ (text ")" ∷ []))) ∷ [], b.1)
  unfolding IsNumbered all_placeholders placeholders
  tuple-IsNumbered i b h = simp text_laws h

  value_sets-IsNumbered :
      (columns : List String) (objects : List Fields) (i : ℕ)
      → IsNumbered i (value_sets enc schema columns objects i)
  unfolding value_sets
  value_sets-IsNumbered columns [] i = nothing-IsNumbered i
  value_sets-IsNumbered columns (object ∷ rest) i =
      let row = row_values enc schema columns object i in
      ⊕-IsNumbered i ((text "(" ∷ (join ", " row.0 ++ (text ")" ∷ []))) ∷ [], row.1) _
        (tuple-IsNumbered i row (row_values-IsNumbered columns object i))
        (value_sets-IsNumbered columns rest (i + length row.1))

  -- An INSERT of many objects holds the placeholders 1, 2, … in this order, as many as it has
  -- arguments.
  pub build_batch_insert_query-IsNumberedClause :
      (table : String) (objects : List Fields)
      → IsNumberedClause 1 (build_batch_insert_query enc schema table objects)
  unfolding build_batch_insert_query IsNumberedClause IsNumbered placeholders
  build_batch_insert_query-IsNumberedClause table [] = refl
  build_batch_insert_query-IsNumberedClause table (first ∷ rest) =
      simp text_laws (value_sets-IsNumbered (keys first) (first ∷ rest) 1)

  assignments-IsNumbered : (params : MutationParams) → IsNumbered 1 (assignments enc schema params)
  unfolding assignments
  assignments-IsNumbered params =
      ⊕-IsNumbered 1 _ _
        (for_entries-IsNumbered (set_part enc) (set_part-IsNumbered enc) (entries params.set_values)
          1)
        (for_entries-IsNumbered inc_part inc_part-IsNumbered (entries params.inc_values) _)

  -- An UPDATE by primary key holds the placeholders 1, 2, … in this order, as many as it has
  -- arguments.
  pub build_update_by_pk_query-IsNumberedClause :
      (params : MutationParams) → IsNumberedClause 1 (build_update_by_pk_query enc schema params)
  unfolding build_update_by_pk_query IsNumberedClause IsNumbered placeholders
  build_update_by_pk_query-IsNumberedClause params =
      let sets = assignments enc schema params in
      simp text_laws (
        numbers_in_turn (all_placeholders sets.0) _ 1 sets.1 _ (assignments-IsNumbered params)
          (for_entries-IsNumbered pk_part pk_part-IsNumbered (entries params.pk_columns) _))

  -- An UPDATE with `_set`, `_inc` and a filter holds the placeholders 1, 2, … in this order, as many
  -- as it has arguments.
  pub build_update_query-IsNumberedClause :
      (params : MutationParams) → IsNumberedClause 1 (build_update_query enc schema params)
  unfolding build_update_query IsNumberedClause IsNumbered placeholders
  build_update_query-IsNumberedClause params =
      let sets = assignments enc schema params in
      simp text_laws (
        numbers_in_turn (all_placeholders sets.0) _ 1 sets.1 _ (assignments-IsNumbered params) (
          where_part-IsNumberedClause _ _
            (build_where_clause-IsNumberedClause enc params.filter _)))

  -- for DELETE with a filter,
  pub delete_statement-IsNumberedClause :
      (params : MutationParams) → IsNumberedClause 1 (delete_statement enc schema params)
  unfolding delete_statement IsNumberedClause placeholders
  delete_statement-IsNumberedClause params =
      simp (text_laws, placeholders-where_text)
        (build_where_clause-IsNumberedClause enc params.filter 1)

-- for DELETE and SELECT by primary key.
pub delete_by_pk_statement-IsNumberedClause :
    (schema table : String) (pk_values : Fields)
    → IsNumberedClause 1 (delete_by_pk_statement schema table pk_values)
unfolding delete_by_pk_statement IsNumberedClause IsNumbered placeholders
delete_by_pk_statement-IsNumberedClause schema table pk_values =
    simp text_laws (for_entries-IsNumbered pk_part pk_part-IsNumbered (entries pk_values) 1)

pub query_by_pk_statement-IsNumberedClause :
    (schema table : String) (pk_values : Fields)
    → IsNumberedClause 1 (query_by_pk_statement schema table pk_values)
unfolding query_by_pk_statement IsNumberedClause IsNumbered placeholders
query_by_pk_statement-IsNumberedClause schema table pk_values =
    simp text_laws (
      for_entries-IsNumbered (pk_part_of table) (pk_part_of-IsNumbered table) (entries pk_values) 1)
