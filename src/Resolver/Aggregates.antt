-- ===== src/Resolver/Aggregates.antt =====
-- The query of `resolveAggregateFields` of internal/resolver/resolver.go.
use graphpost.Prelude.{
  String, List, [], ◌∷◌, ◌++◌, Bool, Option, none, some, ◌≡◌, refl, ◌||◌, keep, map,
}
use graphpost.Prelude.Text.{to_lower, contains}
use graphpost.Resolver.Sql.{
  text, ident, Clause, Statement, join, placeholders, all_placeholders, placeholders-append,
  placeholders-join, all_placeholders-append, IsNumberedClause,
}
use graphpost.Resolver.Columns.{Encoders}
use graphpost.Resolver.Where.{build_where_clause, build_where_clause-IsNumberedClause}
use graphpost.Resolver.Statements.{QueryParams, table_ref, where_text}
use graphpost.Resolver.Statements.Numbering.{placeholders-where_text}

-- A column, and its SQL type.
pub record Column : Type 0 where
  pub name : String
  pub sql_type : String

abbrev pub numeric_types : List String
numeric_types =
    "int2" ∷ "int4" ∷ "int8" ∷ "smallint" ∷ "integer" ∷ "bigint" ∷ "smallserial" ∷ "serial"
    ∷ "bigserial" ∷ "float4" ∷ "float8" ∷ "real" ∷ "double precision" ∷ "numeric" ∷ "decimal"
    ∷ "money" ∷ []

abbrev pub ordered_types : List String
ordered_types =
    "date" ∷ "time" ∷ "timetz" ∷ "timestamp" ∷ "timestamptz" ∷ "varchar" ∷ "char" ∷ "text" ∷ "uuid"
    ∷ []

unfoldable pub is_numeric_type : String → Bool
is_numeric_type sql_type = contains numeric_types (to_lower sql_type)

unfoldable pub is_comparable_type : String → Bool
is_comparable_type sql_type = is_numeric_type sql_type || contains ordered_types (to_lower sql_type)

abbrev pub numeric_columns : List Column → List String
numeric_columns cols = map (λ c. c.name) (keep (λ c. is_numeric_type c.sql_type) cols)

abbrev pub comparable_columns : List Column → List String
comparable_columns cols = map (λ c. c.name) (keep (λ c. is_comparable_type c.sql_type) cols)

-- `FN("column") as fn_column`, with the alias as it comes
abbrev pub aggregate_call : String → String → String → Clause
aggregate_call fn alias column = text fn ∷ ident column ∷ text alias ∷ text column ∷ []

unfoldable pub extremes : List String → List Clause
extremes [] = []
extremes (c ∷ cs) =
    aggregate_call "MIN(" ") as min_" c ∷ aggregate_call "MAX(" ") as max_" c ∷ extremes cs

unfoldable pub moments : List String → List Clause
moments [] = []
moments (c ∷ cs) =
    aggregate_call "SUM(" ") as sum_" c
    ∷ aggregate_call "AVG(" ") as avg_" c
    ∷ aggregate_call "STDDEV(" ") as stddev_" c
    ∷ aggregate_call "VARIANCE(" ") as variance_" c
    ∷ moments cs

-- The statement for columns that can be compared, none if there are none, and for numeric ones.
unfoldable pub aggregate_of :
    Encoders → String → List String → List String → QueryParams → Option Statement
aggregate_of enc schema [] numeric params = none
aggregate_of enc schema (c ∷ cs) numeric params =
    let (clause, args) = build_where_clause enc params.filter 1 in
    some (
      text "SELECT "
          ∷ (join ", " (extremes (c ∷ cs) ++ moments numeric)
              ++ (text " FROM " ∷ (table_ref schema params.table_name ++ where_text clause))),
      args,
    )

unfoldable pub aggregate_statement :
    Encoders → String → List Column → QueryParams → Option Statement
aggregate_statement enc schema columns params =
    aggregate_of enc schema (comparable_columns columns) (numeric_columns columns) params

all_placeholders-extremes : (cs : List String) → all_placeholders (extremes cs) ≡ []
unfolding extremes all_placeholders placeholders
all_placeholders-extremes [] = refl
all_placeholders-extremes (c ∷ cs) = all_placeholders-extremes cs

all_placeholders-moments : (cs : List String) → all_placeholders (moments cs) ≡ []
unfolding moments all_placeholders placeholders
all_placeholders-moments [] = refl
all_placeholders-moments (c ∷ cs) = all_placeholders-moments cs

-- An optional statement whose placeholders are in order, if there is one.
abbrev pub IsNumberedOption : Option Statement → Type 0
IsNumberedOption none = Unit
IsNumberedOption (some s) = IsNumberedClause 1 s

aggregate_of-IsNumberedOption :
    (enc : Encoders) (schema : String) (compared numeric : List String) (params : QueryParams)
    → IsNumberedOption (aggregate_of enc schema compared numeric params)
unfolding aggregate_of IsNumberedClause placeholders
aggregate_of-IsNumberedOption enc schema [] numeric params = tt
aggregate_of-IsNumberedOption enc schema (c ∷ cs) numeric params =
    simp
      (
        placeholders-append, placeholders-join, all_placeholders-append, all_placeholders-extremes,
        all_placeholders-moments, placeholders-where_text,
      )
      (build_where_clause-IsNumberedClause enc params.filter 1)

-- The query for aggregates, if there is one, holds the placeholders 1, 2, … in this order, as many
-- as it has arguments.
pub aggregate_statement-IsNumberedOption :
    (enc : Encoders) (schema : String) (columns : List Column) (params : QueryParams)
    → IsNumberedOption (aggregate_statement enc schema columns params)
unfolding aggregate_statement
aggregate_statement-IsNumberedOption enc schema columns params =
    aggregate_of-IsNumberedOption enc schema (comparable_columns columns) (numeric_columns columns)
      params
