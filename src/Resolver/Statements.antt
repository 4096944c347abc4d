-- ===== src/Resolver/Statements.antt =====
-- The statement builders of internal/resolver/resolver.go.
pub mod Numbering
use graphpost.Prelude.{
  ℕ, suc, ◌+◌, String, List, [], ◌∷◌, ◌++◌, Option, none, some, if◌then◌else◌, length, map,
}
use mathlib.Core.Option.{get_or}
use graphpost.Prelude.Int.{ℤ}
use graphpost.Json.{Value, null, str, num, arr, obj, Fields, get?, entries}
use graphpost.Resolver.Sql.{
  Piece, text, ident, param, Clause, Arg, value, join, Built, Statement, nothing, ◌⊕◌, ◌⧺◌,
}
use graphpost.Resolver.Columns.{Encoders}
use graphpost.Resolver.Where.{build_where_clause}

pub record QueryParams : Type 0 where
  pub table_name : String
  pub filter : Fields
  pub order_by : List Fields
  pub limit : Option ℤ
  pub offset : Option ℤ
  pub distinct_on : List String

-- `OnConflict` is read by no builder.
pub record MutationParams : Type 0 where
  pub table_name : String
  pub object : Fields
  pub objects : List Fields
  pub filter : Fields
  pub set_values : Fields
  pub inc_values : Fields
  pub pk_columns : Fields

-- `convertValue`: what holds other values is sent as JSON text.
unfoldable pub convert_value : Encoders → Value → Value
convert_value enc (arr items) = str (enc.marshal (arr items))
convert_value enc (obj fields) = str (enc.marshal (obj fields))
convert_value enc v = v

-- A loop over the entries of a map whose rounds count `argIndex` on.
unfoldable pub for_entries : (String → Value → ℕ → Built) → List (String × Value) → ℕ → Built
for_entries round [] i = nothing
for_entries round ((key, v) ∷ rest) i =
    let b = round key v i in b ⊕ for_entries round rest (i + length b.1)

-- `%s.%s` of the schema and the table
abbrev pub table_ref : String → String → Clause
table_ref schema table = ident schema ∷ text "." ∷ ident table ∷ []

abbrev pub identifiers : List String → List Clause
identifiers = map (λ name. ident name ∷ [])

abbrev pub keys : Fields → List String
keys fields = map (λ e. e.0) (entries fields)

-- The loop body of `_set`, of `_inc`, of a primary key, and of the values of an insert.
abbrev pub set_part : Encoders → String → Value → ℕ → Built
set_part enc column v i =
    ((ident column ∷ text " = " ∷ param i ∷ []) ∷ [], value (convert_value enc v) ∷ [])

abbrev pub inc_part : String → Value → ℕ → Built
inc_part column v i =
    ((ident column ∷ text " = " ∷ ident column ∷ text " + " ∷ param i ∷ []) ∷ [], value v ∷ [])

abbrev pub pk_part : String → Value → ℕ → Built
pk_part column v i = ((ident column ∷ text " = " ∷ param i ∷ []) ∷ [], value v ∷ [])

abbrev pub pk_part_of : String → String → Value → ℕ → Built
pk_part_of table column v i =
    ((ident table ∷ text "." ∷ ident column ∷ text " = " ∷ param i ∷ []) ∷ [], value v ∷ [])

abbrev pub value_part : Encoders → String → Value → ℕ → Built
value_part enc column v i = ((param i ∷ []) ∷ [], value (convert_value enc v) ∷ [])

-- `query += " WHERE " + whereClause` if the clause is not empty
abbrev pub where_text : Clause → Clause
where_text [] = []
where_text (p ∷ ps) = text " WHERE " ∷ p ∷ ps

-- The same, in the builders that append the arguments in the same branch.
unfoldable pub where_part : Statement → Statement
where_part ([], args) = ([], [])
where_part (p ∷ ps, args) = (text " WHERE " ∷ p ∷ ps, args)

abbrev pub optional_part : String → Option ℤ → ℕ → Statement
optional_part words none i = ([], [])
optional_part words (some n) i = (text words ∷ param i ∷ [], value (num n) ∷ [])

-- The direction stands in the text as it comes.
abbrev pub direction : Value → String
direction (str s) = s
direction _ = "ASC"

order_parts : List (String × Value) → List Clause
order_parts [] = []
order_parts ((column, v) ∷ rest) =
    (ident column ∷ text " " ∷ text (direction v) ∷ []) ∷ order_parts rest

unfoldable pub build_order_by_clause : List Fields → List Clause
unfolding order_parts
build_order_by_clause [] = []
build_order_by_clause (ob ∷ rest) = order_parts (entries ob) ++ build_order_by_clause rest

order_text : List Clause → Clause
order_text [] = []
order_text (c ∷ cs) = text " ORDER BY " ∷ join ", " (c ∷ cs)

select_clause : List String → Clause
select_clause [] = text "*" ∷ []
select_clause (c ∷ cs) =
    text "DISTINCT ON (" ∷ (join ", " (identifiers (c ∷ cs)) ++ (text ") *" ∷ []))

module _ (enc : Encoders) (schema : String) where
  unfoldable pub build_select_query : QueryParams → Statement
  unfolding select_clause order_text
  build_select_query params =
      let head =
        text "SELECT "
        ∷ (select_clause params.distinct_on
            ++ (text " FROM " ∷ table_ref schema params.table_name)) in
      let filter = where_part (build_where_clause enc params.filter 1) in
      let order = order_text (build_order_by_clause params.order_by) in
      let index = 1 + length filter.1 in
      let limit = optional_part " LIMIT " params.limit index in
      let offset = optional_part " OFFSET " params.offset (index + length limit.1) in
      (head, []) ⧺ filter ⧺ (order, []) ⧺ limit ⧺ offset

  unfoldable pub build_count_query : QueryParams → Statement
  build_count_query params =
      let (clause, args) = build_where_clause enc params.filter 1 in
      (
        text "SELECT COUNT(*) FROM " ∷ (table_ref schema params.table_name ++ where_text clause),
        args,
      )

  unfoldable pub build_insert_query : String → Fields → Statement
  build_insert_query table object =
      let values = for_entries (value_part enc) (entries object) 1 in
      (
        text "INSERT INTO "
            ∷ (table_ref schema table
                ++ (text " ("
                    ∷ (join ", " (identifiers (keys object))
                        ++ (text ") VALUES ("
                            ∷ (join ", " values.0 ++ (text ") RETURNING *" ∷ [])))))),
        values.1,
      )

  -- One tuple of values: the columns are those of the first object, and a column that another
  -- object lacks is null.
  row_values : List String → Fields → ℕ → Built
  row_values columns object =
      for_entries (value_part enc)
        (map (λ column. (column, get_or (get? column object) null)) columns)

  value_sets : List String → List Fields → ℕ → Built
  unfolding row_values
  value_sets columns [] i = nothing
  value_sets columns (object ∷ rest) i =
      let (placeholders, args) = row_values columns object i in
      ((text "(" ∷ (join ", " placeholders ++ (text ")" ∷ []))) ∷ [], args)
      ⊕ value_sets columns rest (i + length args)

  unfoldable pub build_batch_insert_query : String → List Fields → Statement
  unfolding value_sets
  build_batch_insert_query table [] = ([], [])
  build_batch_insert_query table (first ∷ rest) =
      let columns = keys first in
      let sets = value_sets columns (first ∷ rest) 1 in
      (
        text "INSERT INTO "
            ∷ (table_ref schema table
                ++ (text " ("
                    ∷ (join ", " (identifiers columns)
                        ++ (text ") VALUES " ∷ (join ", " sets.0 ++ (text " RETURNING *" ∷ [])))))),
        sets.1,
      )

  -- `_set` and then `_inc`
  unfoldable pub assignments : MutationParams → Built
  assignments params =
      let sets = for_entries (set_part enc) (entries params.set_values) 1 in
      sets ⊕ for_entries inc_part (entries params.inc_values) (1 + length sets.1)

  unfoldable pub build_update_by_pk_query : MutationParams → Statement
  build_update_by_pk_query params =
      let sets = assignments params in
      let conditions = for_entries pk_part (entries params.pk_columns) (1 + length sets.1) in
      (
        text "UPDATE "
            ∷ (table_ref schema params.table_name
                ++ (text " SET "
                    ∷ (join ", " sets.0
                        ++ (text " WHERE "
                            ∷ (join " AND " conditions.0 ++ (text " RETURNING *" ∷ [])))))),
        sets.1 ++ conditions.1,
      )

  unfoldable pub build_update_query : MutationParams → Statement
  build_update_query params =
      let sets = assignments params in
      let filter = where_part (build_where_clause enc params.filter (1 + length sets.1)) in
      (
        text "UPDATE "
            ∷ (table_ref schema params.table_name
                ++ (text " SET " ∷ (join ", " sets.0 ++ (filter.0 ++ (text " RETURNING *" ∷ []))))),
        sets.1 ++ filter.1,
      )

  -- The statement of `ResolveDelete`.
  unfoldable pub delete_statement : MutationParams → Statement
  delete_statement params =
      let (clause, args) = build_where_clause enc params.filter 1 in
      (
        text "DELETE FROM "
            ∷ (table_ref schema params.table_name
                ++ (where_text clause ++ (text " RETURNING *" ∷ []))),
        args,
      )

-- The statements of `ResolveDeleteByPK` and of `ResolveQueryByPK`.
unfoldable pub delete_by_pk_statement : String → String → Fields → Statement
delete_by_pk_statement schema table pk_values =
    let conditions = for_entries pk_part (entries pk_values) 1 in
    (
      text "DELETE FROM "
          ∷ (table_ref schema table
              ++ (text " WHERE " ∷ (join " AND " conditions.0 ++ (text " RETURNING *" ∷ [])))),
      conditions.1,
    )

unfoldable pub query_by_pk_statement : String → String → Fields → Statement
query_by_pk_statement schema table pk_values =
    let conditions = for_entries (pk_part_of table) (entries pk_values) 1 in
    (
      text "SELECT * FROM "
          ∷ (table_ref schema table
              ++ (text " WHERE " ∷ (join " AND " conditions.0 ++ (text " LIMIT 1" ∷ [])))),
      conditions.1,
    )
