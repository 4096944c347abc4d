-- ===== src/Analytics/Store/Operations.antt =====
-- The methods of `MaterializedStore`. The n-th statement that DuckDB gets fails if `fails n` says so,
-- and then changes nothing; `clock n` is the time when n statements have been made.
use graphpost.Prelude.{
  ℕ, ◌+◌, String, List, ◌∷◌, Bool, true, false, Option, none, some, ◌==◌, if◌then◌else◌,
}
use graphpost.Maps.{lookup, delete, put}
use graphpost.Analytics.Router.{AggregateDefinition}
use graphpost.Analytics.Store.{
  Store, StoredValue, RefreshLog, Failure, not_found, duckdb_error, schedule_next, row_of,
  set_refreshed, select_value, select_values, delete_values, replace_value, whole_micros,
}

-- `generateID`: the start of a hash of these fields, which the library computes.
unfoldable pub with_id : (AggregateDefinition → String) → AggregateDefinition → AggregateDefinition
with_id generate_id def =
    let id = if def.id == "" then generate_id def else def.id in record def { id = id }

-- The definition as `CreateAggregate` completes it.
unfoldable pub completed :
    (AggregateDefinition → String) → ℕ → AggregateDefinition → AggregateDefinition
unfolding with_id
completed generate_id now def =
    schedule_next now
      (record (with_id generate_id def) { created_at = now; updated_at = now; is_enabled = true })

-- The definition as `UpdateLastRefreshed` changes it.
unfoldable pub refreshed : ℕ → ℕ → AggregateDefinition → AggregateDefinition
refreshed refreshed_at now def =
    schedule_next refreshed_at (record def { last_refreshed = refreshed_at; updated_at = now })

module _ {F : Type 0} where
  unfoldable pub get_aggregate : String → Store F → Option AggregateDefinition
  get_aggregate id s = lookup id s.definitions

module _ {F : Type 0} (fails : ℕ → Bool) (clock : ℕ → ℕ) where
  abbrev pub now : Store F → ℕ
  now s = clock s.statements

  -- `duckdb.Exec`: whether it works, and the store afterwards.
  unfoldable pub exec_duckdb : (Store F → Store F) → Store F → Bool × Store F
  exec_duckdb change s =
      let counted = record s { statements = s.statements + 1 } in
      if fails s.statements then (false, counted) else (true, change counted)

  -- The id is the primary key: a second row with it is refused.
  unfoldable pub insert_definition : AggregateDefinition → Store F → Bool × Store F
  unfolding exec_duckdb
  insert_definition def s = elim (lookup def.id s.rows) [
    | some row ↦ (false, record s { statements = s.statements + 1 })
    | none ↦ exec_duckdb (λ t. record t { rows = put def.id (row_of def) t.rows }) s
  ]

  unfoldable pub create_aggregate :
      (AggregateDefinition → String) → AggregateDefinition → Store F → Option Failure × Store F
  unfolding insert_definition
  create_aggregate generate_id given s =
      let def = completed generate_id (now s) given in
      let (works, t) = insert_definition def s in
      if works
      then (none, record t { definitions = put def.id def t.definitions })
      else (some duckdb_error, t)

  -- No value, and no error, where there is no row.
  unfoldable pub get_aggregate_value :
      String → String → Store F → (Bool × Option (StoredValue F)) × Store F
  get_aggregate_value id key s =
      let counted = record s { statements = s.statements + 1 } in
      if fails s.statements
      then ((false, none), counted)
      else ((true, select_value id key s.values), counted)

  unfoldable pub get_all_aggregate_values :
      String → Store F → Option (List (StoredValue F)) × Store F
  get_all_aggregate_values id s =
      let counted = record s { statements = s.statements + 1 } in
      if fails s.statements then (none, counted) else (some (select_values id s.values), counted)

  unfoldable pub store_aggregate_value : StoredValue F → Store F → Bool × Store F
  store_aggregate_value v s =
      exec_duckdb
        (λ t. record t {
          values = replace_value (record v { computed_at = whole_micros (now s) }) t.values;
        })
        s

  -- The definition in memory changes whether or not DuckDB takes the change.
  unfoldable pub update_last_refreshed : String → ℕ → Store F → Option Failure × Store F
  update_last_refreshed id refreshed_at s = elim (lookup id s.definitions) [
    | none ↦ (some (not_found id), s)
    | some old ↦
        let def = refreshed refreshed_at (now s) old in
        let (works, t) =
          exec_duckdb (λ t. record t { rows = set_refreshed id def t.rows })
            (record s { definitions = put id def s.definitions }) in
        (if works then none else some duckdb_error, t)
  ]

  unfoldable pub log_refresh : RefreshLog → Store F → Bool × Store F
  log_refresh entry = exec_duckdb (λ t. record t {
    log =
        record entry {
          started_at = whole_micros entry.started_at;
          completed_at = whole_micros entry.completed_at;
        }
        ∷ t.log;
  })

  unfoldable pub clear_aggregate_values : String → Store F → Bool × Store F
  clear_aggregate_values id = exec_duckdb (λ t. record t { values = delete_values id t.values })

  unfoldable pub delete_aggregate : String → Store F → Option Failure × Store F
  delete_aggregate id s =
      let (cleared, t) = clear_aggregate_values id s in
      let (works, u) = exec_duckdb (λ x. record x { rows = delete id x.rows }) t in
      if cleared
      then if works
        then (none, record u { definitions = delete id u.definitions })
        else (some duckdb_error, u)
      else (some duckdb_error, t)
