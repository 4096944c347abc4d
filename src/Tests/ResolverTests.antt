-- ===== src/Tests/ResolverTests.antt =====
-- Runs of internal/resolver/resolver.go at concrete inputs.
use Prim.Native.String
use graphpost.Prelude.{
  String, List, [], ◌∷◌, ◌++◌, some, none, true, false, ◌≡◌, refl, ◌==◌, if◌then◌else◌, All,
}
use graphpost.Prelude.Int.{pos}
use graphpost.Json.{
  bool, num, str, arr, obj, nil, cons, Fields, end, field, elements, entries, get?,
}
use mathlib.Core.Option
use graphpost.Prelude.Text.{contains, to_lower, cut_prefix}
use graphpost.Resolver.Aggregates.{
  Column, extremes, moments, is_numeric_type, is_comparable_type, aggregate_of, aggregate_statement,
}
use graphpost.Resolver.Quote.{quote_identifier, read_identifier, read_identifier-quote_identifier}
use graphpost.Resolver.Sql.{render, placeholders, join, IsNumberedClause}
use graphpost.Resolver.Columns.{
  Encoders, column_conditions, column_operator, infix_operator, json_operator, typed_operator,
}
use graphpost.Resolver.Where.{
  build_where_clause, build_where_clause-IsNumberedClause, filter_conditions, grouped, nested,
  nested_clause,
}
use graphpost.Resolver.Statements.{
  QueryParams, MutationParams, build_select_query, build_batch_insert_query, build_update_query,
  build_update_by_pk_query, build_order_by_clause, where_part, for_entries, assignments,
  convert_value,
}
use graphpost.Maps.{delete}
use graphpost.Resolver.Statements.{build_count_query}
use graphpost.Resolver.Answers.{
  DbValue, bytes, other, Pool, ResultRow, AggregateFields, no_fields, aggregate_reply, query_rows,
  scan_rows, fields_of, organize, organize_column,
}
use graphpost.Resolver.Operations.{
  Resolver, new_resolver, call_aggregate, resolve, resolve_aggregate, with_count, with_nodes,
  with_table, aggregate_fields,
}
use graphpost.Resolver.Operations.Sent.{resolve-IsNumberedClause}
use graphpost.Resolver.Operations.AggregateNames.{answered, put_all, organize-aggregates}

abbrev plain : Encoders
plain = record { marshal = λ v. "{}"; sprint = λ v. "x" }

program : Unit {0}
unfolding render placeholders join column_conditions column_operator infix_operator json_operator
    typed_operator elements entries get? build_where_clause filter_conditions grouped nested
    nested_clause build_select_query build_batch_insert_query build_update_query
    build_update_by_pk_query build_order_by_clause where_part for_entries assignments convert_value
    quote_identifier
program = tt

-- {_or: [{age: {_gt: 18}}, {name: {_in: ["a", "b"]}}], _not: {email: {_is_null: true}}}
abbrev adults : Fields
adults =
    field "_or"
      (arr (
        cons (obj (field "age" (obj (field "_gt" (num (pos 18)) end)) end)) (
          cons
            (obj (
              field "name" (obj (field "_in" (arr (cons (str "a") (cons (str "b") nil))) end)) end))
            nil)))
      (field "_not" (obj (field "email" (obj (field "_is_null" (bool true) end)) end)) end)

abbrev adults_query : QueryParams
adults_query = record {
  table_name = "users";
  filter = adults;
  order_by = field "name" (str "DESC") end ∷ [];
  limit = some (pos 10);
  offset = some (pos 20);
  distinct_on = [];
}

select_text :
    render (build_select_query plain "public" adults_query).0
    ≡ "SELECT * FROM \"public\".\"users\" WHERE ((\"age\" > $1) OR (\"name\" IN ($2, $3))) AND NOT (\"email\" IS NULL) ORDER BY \"name\" DESC LIMIT $4 OFFSET $5"
unfolding program
select_text = refl

abbrev change : MutationParams
change = record {
  table_name = "users";
  object = end;
  objects = [];
  filter = adults;
  set_values = field "name" (str "z") end;
  inc_values = field "age" (num (pos 1)) end;
  pk_columns = field "id" (num (pos 7)) end;
}

update_by_pk_text :
    render (build_update_by_pk_query plain "public" change).0
    ≡ "UPDATE \"public\".\"users\" SET \"name\" = $1, \"age\" = \"age\" + $2 WHERE \"id\" = $3 RETURNING *"
unfolding program
update_by_pk_text = refl

abbrev two_users : List Fields
two_users =
    field "id" (num (pos 1)) (field "tags" (arr nil) end) ∷ field "id" (num (pos 2)) end ∷ []

batch_insert_text :
    render (build_batch_insert_query plain "public" "users" two_users).0
    ≡ "INSERT INTO \"public\".\"users\" (\"id\", \"tags\") VALUES ($1, $2), ($3, $4) RETURNING *"
unfolding program
batch_insert_text = refl

quoted : quote_identifier "a\"b" ≡ "\"a\"\"b\""
unfolding program
quoted = refl

build_where_clause-IsNumberedClause_example : IsNumberedClause 3 (build_where_clause plain adults 3)
build_where_clause-IsNumberedClause_example = build_where_clause-IsNumberedClause plain adults 3

abbrev one_user : Fields
one_user = field "id" (num (pos 1)) end

read_identifier-quote_identifier_example :
    read_identifier (String.◌++◌ (quote_identifier "a\"b") " = $1") ≡ some ("a\"b", " = $1")
read_identifier-quote_identifier_example = read_identifier-quote_identifier "a\"b" " = $1" refl

abbrev user_columns : List Column
user_columns =
    record { name = "userAge"; sql_type = "INT4" }
    ∷ record { name = "tags"; sql_type = "json" }
    ∷ []

-- The alias of a column is not quoted.
aggregate_text :
    Option.map
      (λ s. render s.0)
      (aggregate_statement plain "public" user_columns (record adults_query { filter = end }))
    ≡ some
        "SELECT MIN(\"userAge\") as min_userAge, MAX(\"userAge\") as max_userAge, SUM(\"userAge\") as sum_userAge, AVG(\"userAge\") as avg_userAge, STDDEV(\"userAge\") as stddev_userAge, VARIANCE(\"userAge\") as variance_userAge FROM \"public\".\"users\""
unfolding program aggregate_statement aggregate_of extremes moments is_numeric_type
    is_comparable_type contains to_lower
aggregate_text = refl

-- Every query answers one row, and every count one.
abbrev pool : Pool
pool = record {
  query = λ s. some (record {
    columns = "id" ∷ "tags" ∷ "min_userAge" ∷ [];
    rows = some (other (num (pos 7)) ∷ bytes "{}" ∷ other (num (pos 30)) ∷ []) ∷ [];
    is_broken = false;
  });
  count = λ s. some (pos 1);
  unmarshal = λ s. if s == "{}" then some (obj end) else none;
}

abbrev users_resolver : Resolver
users_resolver = new_resolver plain pool (λ t. if t == "users" then some user_columns else none) ""

abbrev scanned : ResultRow
scanned = ("min_userAge", num (pos 30)) ∷ ("tags", obj end) ∷ ("id", num (pos 7)) ∷ []

abbrev min_age : AggregateFields
min_age = record no_fields { min = ("userAge", other (num (pos 30))) ∷ [] }

aggregate_reply_of_users :
    (resolve users_resolver (call_aggregate adults_query)).1
    ≡ some (aggregate_reply (pos 1) (scanned ∷ []) min_age)
unfolding program new_resolver resolve resolve_aggregate with_count with_nodes with_table query_rows
    scan_rows aggregate_fields fields_of organize organize_column cut_prefix delete
    aggregate_statement aggregate_of build_count_query is_numeric_type is_comparable_type contains
    to_lower
aggregate_reply_of_users = refl

resolve-IsNumberedClause_example :
    All (IsNumberedClause 1) ((resolve users_resolver (call_aggregate adults_query)).0)
resolve-IsNumberedClause_example =
    resolve-IsNumberedClause users_resolver (call_aggregate adults_query)

-- The text of each function with its column.
abbrev called : String → String → DbValue
called fn column = bytes (String.◌++◌ fn column)

organize-aggregates_example :
    organize (answered called (extremes ("age" ∷ []) ++ moments [])) no_fields ≡ record {
      min = put_all (called "MIN(") ("age" ∷ []) [];
      max = put_all (called "MAX(") ("age" ∷ []) [];
      sum = [];
      avg = [];
      stddev = [];
      variance = [];
    }
unfolding put_all
organize-aggregates_example = organize-aggregates called ("age" ∷ []) []
