-- ===== src/Resolver/Answers.antt =====
-- What the pool of connections answers to internal/resolver/resolver.go: `scanRows`, and the columns of
-- an aggregate. The pool is the interface `Pool`; an error is no value.
use graphpost.Prelude.{ℕ, String, List, [], ◌∷◌, Bool, Option, none, some, length, if◌then◌else◌}
use graphpost.Prelude.Int.{ℤ}
use graphpost.Prelude.Text.{cut_prefix}
use graphpost.Json.{Value, str}
use graphpost.Maps.{GoMap, put}
use graphpost.Resolver.Sql.{Statement}

-- A value of a row: bytes, or any other.
pub data DbValue : Type 0 where
  bytes : String → DbValue
  other : Value → DbValue

-- The rows of an answer: one whose values cannot be read is no value. `is_broken` is that `rows.Err()`
-- is not nil.
pub record Answered : Type 0 where
  pub columns : List String
  pub rows : List (Option (List DbValue))
  pub is_broken : Bool

-- `count` is `QueryRow` with a `Scan` into an int, and `unmarshal` is `json.Unmarshal`.
pub record Pool : Type 0 where
  pub query : Statement → Option Answered
  pub count : Statement → Option ℤ
  pub unmarshal : String → Option Value

abbrev pub ResultRow : Type 0
ResultRow = GoMap Value

-- The columns of an aggregate, by their function, with the values as they come.
pub record AggregateFields : Type 0 where
  pub min : GoMap DbValue
  pub max : GoMap DbValue
  pub sum : GoMap DbValue
  pub avg : GoMap DbValue
  pub stddev : GoMap DbValue
  pub variance : GoMap DbValue

pub data Reply : Type 0 where
  rows_reply : List ResultRow → Reply
  row_reply : Option ResultRow → Reply
  affected : ℕ → List ResultRow → Reply
  aggregate_reply : ℤ → List ResultRow → AggregateFields → Reply

abbrev pub no_fields : AggregateFields
no_fields = record { min = []; max = []; sum = []; avg = []; stddev = []; variance = [] }

-- A column of the answer goes to the map of the prefix of its name.
unfoldable pub organize_column : String → DbValue → AggregateFields → AggregateFields
organize_column name v fs = elim (cut_prefix "min_" name) [
  | some c ↦ record fs { min = put c v fs.min }
  | none ↦ elim (cut_prefix "max_" name) [
    | some c ↦ record fs { max = put c v fs.max }
    | none ↦ elim (cut_prefix "sum_" name) [
      | some c ↦ record fs { sum = put c v fs.sum }
      | none ↦ elim (cut_prefix "avg_" name) [
        | some c ↦ record fs { avg = put c v fs.avg }
        | none ↦ elim (cut_prefix "stddev_" name) [
          | some c ↦ record fs { stddev = put c v fs.stddev }
          | none ↦ elim (cut_prefix "variance_" name) [
            | some c ↦ record fs { variance = put c v fs.variance }
            | none ↦ fs
          ]
        ]
      ]
    ]
  ]
]

unfoldable pub organize : List (String × DbValue) → AggregateFields → AggregateFields
unfolding organize_column
organize [] fs = fs
organize ((name, v) ∷ columns) fs = organize columns (organize_column name v fs)

-- The first of the rows, if there is one.
abbrev pub first_reply : Option (List ResultRow) → Option Reply
first_reply none = none
first_reply (some []) = some (row_reply none)
first_reply (some (row ∷ rows)) = some (row_reply (some row))

abbrev pub affected_reply : Option (List ResultRow) → Option Reply
affected_reply none = none
affected_reply (some rows) = some (affected (length rows) rows)

abbrev pub all_reply : Option (List ResultRow) → Option Reply
all_reply none = none
all_reply (some rows) = some (rows_reply rows)

named_values : List String → List DbValue → List (String × DbValue)
named_values (name ∷ names) (v ∷ values) = (name, v) ∷ named_values names values
named_values _ _ = []

fields_of_rows : List String → List (Option (List DbValue)) → Option AggregateFields
unfolding organize named_values
fields_of_rows names [] = some no_fields
fields_of_rows names (none ∷ rows) = none
fields_of_rows names (some values ∷ rows) = some (organize (named_values names values) no_fields)

-- Only the first row is read; no row is no fields.
unfoldable pub fields_of : Option Answered → Option AggregateFields
unfolding fields_of_rows
fields_of none = none
fields_of (some answer) = fields_of_rows answer.columns answer.rows

module _ (pool : Pool) where
  -- Bytes that are JSON become its value, and others a text.
  cell_value : DbValue → Value
  cell_value (bytes s) = elim (pool.unmarshal s) [ none ↦ str s | some v ↦ v ]
  cell_value (other v) = v

  scan_row : List String → List DbValue → ResultRow → ResultRow
  unfolding cell_value
  scan_row (name ∷ names) (v ∷ values) row = scan_row names values (put name (cell_value v) row)
  scan_row _ _ row = row

  scan_each : List String → Bool → List (Option (List DbValue)) → Option (List ResultRow)
  unfolding scan_row
  scan_each names is_broken [] = if is_broken then none else some []
  scan_each names is_broken (none ∷ rows) = none
  scan_each names is_broken (some values ∷ rows) = elim (scan_each names is_broken rows) [
    | none ↦ none
    | some results ↦ some (scan_row names values [] ∷ results)
  ]

  unfoldable pub scan_rows : Answered → Option (List ResultRow)
  unfolding scan_each
  scan_rows a = scan_each a.columns a.is_broken a.rows

  -- `pool.Query` and `scanRows`.
  unfoldable pub query_rows : Statement → Option (List ResultRow)
  unfolding scan_rows
  query_rows s = elim (pool.query s) [ none ↦ none | some answer ↦ scan_rows answer ]
