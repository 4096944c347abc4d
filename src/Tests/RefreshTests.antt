-- ===== src/Tests/RefreshTests.antt =====
-- Runs of the store of aggregates and of refreshes at concrete inputs. A float64 is here a whole number.
use graphpost.Prelude.{
  ℕ, ◌+◌, String, Bool, List, [], ◌∷◌, true, false, Option, none, some, ◌≡◌, refl, arith,
}
use graphpost.Prelude.Int.{ℤ, pos}
use graphpost.Prelude.Text.{join_texts, split}
use graphpost.Maps.{GoMap, lookup, delete}
use graphpost.Analytics.Router.{AggregateDefinition}
use graphpost.Analytics.Store.{
  Store, StoredValue, query_failed, whole_seconds, next_time, schedule_next, row_of, set_refreshed,
  is_pending, collect, get_pending_scheduled_refreshes, get_lazy_aggregates, list_aggregates,
  aggregates_for_table, get_aggregate_by_name, select_value, select_values, delete_values,
  remove_key, replace_value,
}
use graphpost.Analytics.Store.Operations.{
  with_id, completed, refreshed, get_aggregate, exec_duckdb, insert_definition, create_aggregate,
  get_aggregate_value, get_all_aggregate_values, store_aggregate_value, update_last_refreshed,
  log_refresh, clear_aggregate_values, delete_aggregate,
}
use graphpost.Analytics.Store.Load.{
  seconds_to_duration, split_columns, load_row, load_definitions, in_micros,
  create_aggregate-load_definitions,
}
use graphpost.Analytics.Refresh.{
  Cell, int64_cell, other_cell, bytes_cell, Rows, Postgres, aggregate_function,
  build_aggregation_query, to_float64, empty_value, set_aggregate, group_values, group_key_of,
  value_of_cells, value_of_row,
}
use graphpost.Analytics.Refresh.Execution.{
  opening, closing, conclude, finish, store_rows, store_answer, execute_aggregation,
  refresh_definition, refresh_aggregate, refresh_each, refresh_all, refresh_by_table,
}
use graphpost.Analytics.Refresh.Values.{untimed, last_of}
use graphpost.Analytics.Refresh.Figures.{figure_of}
use graphpost.Analytics.Refresh.Groups.{refresh_aggregate-values, refresh_aggregate-query_failed}
use graphpost.Analytics.Refresh.Schedule.{Next, refresh_aggregate-Next}
use graphpost.Analytics.Refresh.Cached.{to_micros, get_or_compute_lazy-twice}
use graphpost.Analytics.Refresh.Lazy.{
  cell, LazySource, given, build_single_value_query, parse_group_key, is_fresh, store_computed,
  compute_group, compute_single_aggregate, answer_lazy, get_or_compute_lazy,
}

program : Unit {0}
unfolding join_texts split lookup delete whole_seconds next_time schedule_next row_of set_refreshed
    is_pending collect get_pending_scheduled_refreshes get_lazy_aggregates list_aggregates
    aggregates_for_table get_aggregate_by_name select_value select_values delete_values remove_key
    replace_value with_id completed refreshed get_aggregate exec_duckdb insert_definition
    create_aggregate get_aggregate_value get_all_aggregate_values store_aggregate_value
    update_last_refreshed log_refresh clear_aggregate_values delete_aggregate seconds_to_duration
    split_columns load_row load_definitions aggregate_function build_aggregation_query to_float64
    empty_value set_aggregate group_values group_key_of value_of_cells value_of_row opening closing
    conclude finish store_rows store_answer execute_aggregation refresh_definition refresh_aggregate
    refresh_each refresh_all refresh_by_table last_of build_single_value_query parse_group_key
    is_fresh store_computed compute_group compute_single_aggregate answer_lazy get_or_compute_lazy
program = tt

-- The orders by city, counted every minute.
abbrev by_city : AggregateDefinition
by_city = record {
  id = "a1";
  name = "by city";
  source_table = "orders";
  aggregate_type = "count";
  column_name = "";
  group_by_columns = "city" ∷ "paid" ∷ [];
  filter_condition = "";
  refresh_strategy = "scheduled";
  refresh_interval = pos 60000000000;
  cron_schedule = "";
  last_refreshed = 0;
  next_refresh = 0;
  is_enabled = true;
  created_at = 0;
  updated_at = 0;
}

abbrev largest : AggregateDefinition
largest = record by_city {
  id = "a2";
  group_by_columns = [];
  aggregate_type = "max";
  column_name = "total";
  filter_condition = "paid";
  refresh_strategy = "lazy";
}

abbrev empty_store : Store ℤ
empty_store = record { definitions = []; rows = []; values = []; log = []; statements = 0 }

abbrev store : Store ℤ
store = record empty_store {
  definitions = ("a1", by_city) ∷ ("a2", largest) ∷ [];
  values =
      record {
        aggregate_id = "a1";
        group_key = "old";
        value = pos 9;
        tally = pos 9;
        sum = pos 0;
        min = pos 0;
        max = pos 0;
        avg = pos 0;
        computed_at = 1;
      }
      ∷ [];
}

abbrev clock : ℕ → ℕ
clock n = 100 + n

abbrev works : ℕ → Bool
works n = false

-- The key of a group is its first text.
abbrev first_text : GoMap (Cell ℤ) → String
first_text ((col, bytes_cell s) ∷ m) = s
first_text m = "?"

abbrev row : String → ℕ → Option (List (Cell ℤ))
row city n = some (other_cell "true" ∷ bytes_cell city ∷ int64_cell (pos n) ∷ [])

abbrev orders : Rows ℤ
orders = record { scanned = row "Rome" 3 ∷ row "Oslo" 5 ∷ []; is_broken = false }

abbrev postgres : Postgres ℤ
postgres = record {
  query = λ q. some orders;
  of_int = λ n. n;
  of_digits = λ s. pos 0;
  marshal = first_text;
}

abbrev no_postgres : Postgres ℤ
no_postgres = record postgres { query = λ q. none }

query_text :
    build_aggregation_query by_city ≡ "SELECT city, paid, COUNT(*) FROM orders GROUP BY city, paid"
unfolding program
query_text = refl

largest_text : build_aggregation_query largest ≡ "SELECT MAX(total) FROM orders WHERE paid"
unfolding program
largest_text = refl

-- The value of a group goes into the text of a query unquoted.
single_text :
    build_single_value_query largest (("city", "x' OR '1'='1") ∷ [])
    ≡ "SELECT MAX(total) FROM orders WHERE paid AND city = 'x' OR '1'='1'"
unfolding program
single_text = refl

-- A numeric, as PostgreSQL gives it for the sum of integers, is stored as 0.
numeric_is_zero : to_float64 postgres (other_cell "numeric 12") ≡ pos 0
unfolding program
numeric_is_zero = refl

abbrev tally_of : Option (StoredValue ℤ) → Option ℤ
tally_of none = none
tally_of (some v) = some v.tally

refresh_counts :
    tally_of (select_value "a1" "Oslo" (refresh_aggregate works clock postgres "a1" store).1.values)
    ≡ some (pos 5)
unfolding program
refresh_counts = refl

refresh_drops_old :
    tally_of (select_value "a1" "old" (refresh_aggregate works clock postgres "a1" store).1.values)
    ≡ none
unfolding program
refresh_drops_old = refl

due_now : get_pending_scheduled_refreshes 5 store.definitions ≡ by_city ∷ []
unfolding program
due_now = refl

create_aggregate-load_definitions_example :
    let def = completed (λ d. "x") 100 by_city in
    let t = (create_aggregate works clock (λ d. "x") by_city empty_store).1 in
    (lookup def.id t.definitions ≡ some def)
    × (lookup def.id (load_definitions t.rows) ≡ some (in_micros def))
unfolding program
create_aggregate-load_definitions_example =
    create_aggregate-load_definitions works clock (λ d. "x") by_city empty_store
      (record {
        seconds = 60;
        whole = refl;
        in_range = omega arith;
        fresh = refl;
        listed =
            (refl, (refl, (refl, (refl, (refl, tt)))), ((refl, (refl, (refl, (refl, tt)))), tt));
      })
      refl

refresh_aggregate-values_example :
    untimed (select_value "a1" "Oslo" (refresh_aggregate works clock postgres "a1" store).1.values)
    ≡ last_of (figure_of postgres by_city by_city.group_by_columns) "Oslo" orders.scanned none
unfolding program
refresh_aggregate-values_example =
    refresh_aggregate-values works clock postgres "a1" by_city orders "Oslo" store refl refl refl
      refl

refresh_aggregate-query_failed_example :
    ((refresh_aggregate works clock no_postgres "a1" store).0 ≡ some query_failed)
    × (select_value "a1" "old" (refresh_aggregate works clock no_postgres "a1" store).1.values
        ≡ none)
unfolding program
refresh_aggregate-query_failed_example =
    refresh_aggregate-query_failed works clock no_postgres "a1" "old" by_city store refl refl refl

refresh_aggregate-Next_example :
    let r = refresh_aggregate works clock postgres "a1" store in
    Next ℤ clock "a1" 59999999999 true store r.0 r.1
unfolding program
refresh_aggregate-Next_example =
    refresh_aggregate-Next works clock postgres "a1" by_city 59999999999 store refl refl refl

abbrev lazy_postgres : LazySource ℤ
lazy_postgres = record {
  source = postgres;
  query_row = λ q. cell (int64_cell (pos 70));
  unmarshal = λ key. none;
}

abbrev lazy_later : LazySource ℤ
lazy_later = record lazy_postgres { query_row = λ q. cell (int64_cell (pos 80)) }

abbrev seventy : StoredValue ℤ
seventy = record {
  aggregate_id = "a2";
  group_key = "_total_";
  value = pos 70;
  tally = pos 0;
  sum = pos 0;
  min = pos 0;
  max = pos 70;
  avg = pos 0;
  computed_at = 101;
}

get_or_compute_lazy-twice_example :
    let t = (get_or_compute_lazy works clock lazy_postgres 1500 "a2" "_total_" store).1 in
    let r = get_or_compute_lazy works clock lazy_later 1500 "a2" "_total_" t in
    (w : StoredValue ℤ) × (r.0 ≡ given (some (record { columns = w; group_values = [] })))
    × (to_micros w ≡ to_micros seventy)
    × (r.1.values ≡ t.values)
unfolding program
get_or_compute_lazy-twice_example =
    get_or_compute_lazy-twice works clock (λ n. refl) 1500 lazy_postgres lazy_later "a2" "_total_"
      largest (record { columns = seventy; group_values = [] }) store
      (get_or_compute_lazy works clock lazy_postgres 1500 "a2" "_total_" store).1 refl refl refl
      refl (omega arith)
