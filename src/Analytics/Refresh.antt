-- ===== src/Analytics/Refresh.antt =====
-- The refreshes of internal/analytics/refresh.go. `Postgres` is PostgreSQL with the driver: what a query
-- gives. A panic on an index is the failure `out_of_range`.
pub mod Execution
pub mod Lazy
pub mod Cached
pub mod Figures
pub mod Values
pub mod Groups
pub mod Schedule
use graphpost.Prelude.{
  ℕ, zero, suc, ◌+◌, String, List, [], ◌∷◌, length, Bool, true, false, ◌||◌, Option, none, some,
  ltb, ◌==◌, if◌then◌else◌,
}
use graphpost.Prelude.Int.{ℤ, pos}
use graphpost.Prelude.Text.{join_texts}
use graphpost.Maps.{GoMap, lookup, put}
use graphpost.Analytics.Router.{AggregateDefinition}
use graphpost.Analytics.Store.{
  Store, StoredValue, RefreshLog, Failure, not_found, clear_failed, query_failed, scan_failed,
  store_failed, out_of_range, rows_error, list_aggregates, aggregates_for_table,
}
use graphpost.Analytics.Store.Operations.{
  get_aggregate, store_aggregate_value, update_last_refreshed, log_refresh, clear_aggregate_values,
  now,
}
use Prim.Native.String

-- What `Scan` gives for a column: the types of `toFloat64`, and all others.
pub data Cell (F : Type 0) : Type 0 where
  int_cell : ℤ → Cell F
  int32_cell : ℤ → Cell F
  int64_cell : ℤ → Cell F
  float32_cell : F → Cell F
  float64_cell : F → Cell F
  bytes_cell : String → Cell F
  other_cell : String → Cell F

-- The rows of a query: one that does not scan is no value. `is_broken` is that `rows.Err()` is not nil.
pub record Rows (F : Type 0) : Type 0 where
  pub scanned : List (Option (List (Cell F)))
  pub is_broken : Bool

-- `query` gives no rows on an error. The rest are the conversions of numbers to float64, the reading of
-- one from digits, and the JSON text of a map.
pub record Postgres (F : Type 0) : Type 0 where
  pub query : String → Option (Rows F)
  pub of_int : ℤ → F
  pub of_digits : String → F
  pub marshal : GoMap (Cell F) → String

infixr 60 ◌&◌
abbrev pub ◌&◌ : String → String → String
s & t = String.◌++◌ s t

-- The aggregate function of a query; an unknown type has none.
unfoldable pub aggregate_function : AggregateDefinition → String
aggregate_function def =
    if def.aggregate_type == "count"
    then "COUNT(*)"
    else if def.aggregate_type == "count_distinct"
    then "COUNT(DISTINCT " & def.column_name & ")"
    else if def.aggregate_type == "sum"
    then "SUM(" & def.column_name & ")"
    else if def.aggregate_type == "avg"
    then "AVG(" & def.column_name & ")"
    else if def.aggregate_type == "min"
    then "MIN(" & def.column_name & ")"
    else if def.aggregate_type == "max"
    then "MAX(" & def.column_name & ")"
    else ""

abbrev before_function : List String → String
before_function [] = ""
before_function (c ∷ cs) = join_texts ", " (c ∷ cs) & ", "

abbrev group_by_clause : List String → String
group_by_clause [] = ""
group_by_clause (c ∷ cs) = " GROUP BY " & join_texts ", " (c ∷ cs)

unfoldable pub build_aggregation_query : AggregateDefinition → String
unfolding aggregate_function
build_aggregation_query def =
    "SELECT "
    & before_function def.group_by_columns
    & aggregate_function def
    & " FROM "
    & def.source_table
    & (if def.filter_condition == "" then "" else " WHERE " & def.filter_condition)
    & group_by_clause def.group_by_columns

abbrev pub is_aggregate_type : String → Bool
is_aggregate_type type =
    (type == "count")
    || (type == "count_distinct")
    || (type == "sum")
    || (type == "avg")
    || (type == "min")
    || (type == "max")

module _ {F : Type 0} (source : Postgres F) where
  unfoldable pub to_float64 : Cell F → F
  to_float64 (int_cell n) = source.of_int n
  to_float64 (int32_cell n) = source.of_int n
  to_float64 (int64_cell n) = source.of_int n
  to_float64 (float32_cell x) = x
  to_float64 (float64_cell x) = x
  to_float64 (bytes_cell s) = source.of_digits s
  to_float64 (other_cell s) = source.of_int (pos 0)

  -- The value with which the zero value of Go begins, but for the values of the group, which are stored
  -- nowhere.
  unfoldable pub empty_value : String → String → StoredValue F
  empty_value id key =
      let zero_float = source.of_int (pos 0) in
      record {
        aggregate_id = id;
        group_key = key;
        value = zero_float;
        tally = pos 0;
        sum = zero_float;
        min = zero_float;
        max = zero_float;
        avg = zero_float;
        computed_at = 0;
      }

  abbrev counted_value : Cell F → StoredValue F → StoredValue F
  counted_value (int64_cell n) v = record v { tally = n; value = source.of_int n }
  counted_value _ v = v

  -- The `switch def.AggregateType` over the cell of the aggregate.
  unfoldable pub set_aggregate : String → Cell F → StoredValue F → StoredValue F
  unfolding to_float64
  set_aggregate type cell v =
      let x = to_float64 cell in
      if type == "count"
      then counted_value cell v
      else if type == "count_distinct"
      then counted_value cell v
      else if type == "sum"
      then record v { sum = x; value = x }
      else if type == "avg"
      then record v { avg = x; value = x }
      else if type == "min"
      then record v { min = x; value = x }
      else if type == "max"
      then record v { max = x; value = x }
      else v

  -- `groupValues[col] = values[i]` for the columns, and the cells behind these; no result is an index
  -- out of range.
  unfoldable pub group_values :
      List String → List (Cell F) → GoMap (Cell F) → Option (GoMap (Cell F) × List (Cell F))
  group_values [] cells m = some (m, cells)
  group_values (c ∷ cs) [] m = none
  group_values (c ∷ cs) (cell ∷ cells) m = group_values cs cells (put c cell m)

  unfoldable pub group_key_of : GoMap (Cell F) → String
  group_key_of [] = "_total_"
  group_key_of (e ∷ m) = source.marshal (e ∷ m)

  -- The cell of the aggregate is read only for a type that is known.
  unfoldable pub value_of_cells :
      AggregateDefinition → (GoMap (Cell F) × List (Cell F)) → Option (StoredValue F)
  unfolding empty_value set_aggregate group_key_of
  value_of_cells def (groups, []) =
      if is_aggregate_type def.aggregate_type
      then none
      else some (empty_value def.id (group_key_of groups))
  value_of_cells def (groups, cell ∷ rest) =
      some (set_aggregate def.aggregate_type cell (empty_value def.id (group_key_of groups)))

  -- The value that the loop makes of a row; no value is an index out of range.
  unfoldable pub value_of_row : AggregateDefinition → List (Cell F) → Option (StoredValue F)
  unfolding group_values value_of_cells
  value_of_row def cells = elim (group_values def.group_by_columns cells []) [
    | none ↦ none
    | some found ↦ value_of_cells def found
  ]
