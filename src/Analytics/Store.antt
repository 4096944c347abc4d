-- ===== src/Analytics/Store.antt =====
-- The store of internal/analytics/materialized.go: the definitions that it holds in memory, and the
-- three tables of DuckDB behind it, with the statements on these. A float64 is an `F`.
pub mod Operations
pub mod Load
use graphpost.Prelude.{
  ℕ, zero, suc, ◌+◌, ◌*◌, ◌/◌, String, List, [], ◌∷◌, Bool, true, false, not, ◌&&◌, ◌||◌, Option,
  none, some, ltb, eqb, ◌==◌, if◌then◌else◌,
}
use graphpost.Prelude.Int.{ℤ, pos, negsuc}
use graphpost.Maps.{GoMap, lookup, delete, put}
use graphpost.Analytics.Router.{AggregateDefinition}
use graphpost.Prelude.Text.{join_texts}

-- What goes wrong.
pub data Failure : Type 0 where
  not_found : String → Failure
  duckdb_error : Failure
  not_lazy : Failure
  clear_failed : Failure
  query_failed : Failure
  scan_failed : Failure
  store_failed : Failure
  out_of_range : Failure
  rows_error : Failure
  bad_group_key : Failure

-- A row of `aggregate_definitions`; no value is NULL.
pub record DefinitionRow : Type 0 where
  pub name : String
  pub source_table : String
  pub aggregate_type : String
  pub column_name : Option String
  pub group_by_columns : Option String
  pub filter_condition : Option String
  pub refresh_strategy : String
  pub refresh_interval_seconds : Option ℤ
  pub cron_schedule : Option String
  pub last_refreshed : Option ℕ
  pub next_refresh : Option ℕ
  pub is_enabled : Bool
  pub created_at : ℕ
  pub updated_at : ℕ

-- A row of `aggregate_values`, which has all fields of an `AggregateValue` but the values of its group.
pub record StoredValue (F : Type 0) : Type 0 where
  pub aggregate_id : String
  pub group_key : String
  pub value : F
  pub tally : ℤ
  pub sum : F
  pub min : F
  pub max : F
  pub avg : F
  pub computed_at : ℕ

pub record RefreshLog : Type 0 where
  pub aggregate_id : String
  pub started_at : ℕ
  pub completed_at : ℕ
  pub status : String
  pub rows_processed : ℕ
  pub error_message : Option Failure

pub record Store (F : Type 0) : Type 0 where
  pub definitions : GoMap AggregateDefinition
  pub rows : GoMap DefinitionRow
  pub values : List (StoredValue F)
  pub log : List RefreshLog
  pub statements : ℕ

-- What a column of the type TIMESTAMP keeps of a time: whole microseconds.
abbrev pub whole_micros : ℕ → ℕ
whole_micros n = n / 1000 * 1000

-- `int64(d.Seconds())`, up to the rounding of a float64
unfoldable pub whole_seconds : ℤ → ℤ
whole_seconds (pos n) = pos (n / 1000000000)
whole_seconds (negsuc n) = elim (suc n / 1000000000) [ zero ↦ pos 0 | suc k ↦ negsuc k ]

-- The next time, which only `RefreshStrategy == RefreshScheduled && RefreshInterval > 0` sets.
unfoldable pub next_time : ℕ → String → ℤ → ℕ → ℕ
next_time now strategy (pos zero) old = old
next_time now strategy (pos (suc n)) old = if strategy == "scheduled" then now + suc n else old
next_time now strategy (negsuc n) old = old

unfoldable pub schedule_next : ℕ → AggregateDefinition → AggregateDefinition
schedule_next now def =
    let time = next_time now def.refresh_strategy def.refresh_interval def.next_refresh in
    record def { next_refresh = time }

-- The row that `CreateAggregate` inserts.
unfoldable pub row_of : AggregateDefinition → DefinitionRow
row_of def = record {
  name = def.name;
  source_table = def.source_table;
  aggregate_type = def.aggregate_type;
  column_name = some def.column_name;
  group_by_columns = some (join_texts "," def.group_by_columns);
  filter_condition = some def.filter_condition;
  refresh_strategy = def.refresh_strategy;
  refresh_interval_seconds = some (whole_seconds def.refresh_interval);
  cron_schedule = some def.cron_schedule;
  last_refreshed = none;
  next_refresh = some (whole_micros def.next_refresh);
  is_enabled = def.is_enabled;
  created_at = whole_micros def.created_at;
  updated_at = whole_micros def.updated_at;
}

-- `SET last_refreshed = ?, next_refresh = ?, updated_at = ? WHERE id = ?`
unfoldable pub set_refreshed :
    String → AggregateDefinition → GoMap DefinitionRow → GoMap DefinitionRow
set_refreshed id def rows = elim (lookup id rows) [
  | none ↦ rows
  | some row ↦
      put id
        (record row {
          last_refreshed = some (whole_micros def.last_refreshed);
          next_refresh = some (whole_micros def.next_refresh);
          updated_at = whole_micros def.updated_at;
        })
        rows
]

unfoldable pub is_pending : ℕ → AggregateDefinition → Bool
is_pending now def =
    def.is_enabled
    && (def.refresh_strategy == "scheduled")
    && (eqb def.next_refresh 0 || ltb def.next_refresh now)

-- The definitions that a loop over them collects.
unfoldable pub collect :
    (AggregateDefinition → Bool) → GoMap AggregateDefinition → List AggregateDefinition
collect test [] = []
collect test ((id, def) ∷ defs) =
    let rest = collect test defs in if test def then def ∷ rest else rest

unfoldable pub get_pending_scheduled_refreshes :
    ℕ → GoMap AggregateDefinition → List AggregateDefinition
unfolding collect
get_pending_scheduled_refreshes now = collect (is_pending now)

unfoldable pub get_lazy_aggregates : GoMap AggregateDefinition → List AggregateDefinition
unfolding collect
get_lazy_aggregates = collect (λ def. def.is_enabled && (def.refresh_strategy == "lazy"))

unfoldable pub list_aggregates : GoMap AggregateDefinition → List AggregateDefinition
unfolding collect
list_aggregates = collect (λ def. true)

unfoldable pub aggregates_for_table : String → GoMap AggregateDefinition → List AggregateDefinition
unfolding collect
aggregates_for_table table = collect (λ def. def.source_table == table)

unfoldable pub get_aggregate_by_name :
    String → GoMap AggregateDefinition → Option AggregateDefinition
get_aggregate_by_name name [] = none
get_aggregate_by_name name ((id, def) ∷ defs) =
    let rest = get_aggregate_by_name name defs in if def.name == name then some def else rest

module _ {F : Type 0} where
  abbrev has_key : String → String → StoredValue F → Bool
  has_key id key v = (v.aggregate_id == id) && (v.group_key == key)

  -- `SELECT … WHERE aggregate_id = ? AND group_key = ?`
  unfoldable pub select_value : String → String → List (StoredValue F) → Option (StoredValue F)
  select_value id key [] = none
  select_value id key (v ∷ vs) = if has_key id key v then some v else select_value id key vs

  -- `SELECT … WHERE aggregate_id = ?`
  unfoldable pub select_values : String → List (StoredValue F) → List (StoredValue F)
  select_values id [] = []
  select_values id (v ∷ vs) =
      let rest = select_values id vs in if v.aggregate_id == id then v ∷ rest else rest

  -- `DELETE … WHERE aggregate_id = ?`
  unfoldable pub delete_values : String → List (StoredValue F) → List (StoredValue F)
  delete_values id [] = []
  delete_values id (v ∷ vs) =
      let rest = delete_values id vs in if v.aggregate_id == id then rest else v ∷ rest

  unfoldable pub remove_key : String → String → List (StoredValue F) → List (StoredValue F)
  remove_key id key [] = []
  remove_key id key (v ∷ vs) =
      let rest = remove_key id key vs in if has_key id key v then rest else v ∷ rest

  -- `INSERT OR REPLACE`, for the primary key of the id and the group key
  unfoldable pub replace_value : StoredValue F → List (StoredValue F) → List (StoredValue F)
  unfolding remove_key
  replace_value v vs = v ∷ remove_key v.aggregate_id v.group_key vs
