-- ===== src/Analytics/Refresh/Execution.antt =====
-- The refreshes themselves: `RefreshAggregate` and its callers. A panic, on an index, is the failure
-- `out_of_range`, after which nothing happens.
use graphpost.Prelude.{
  ℕ, ◌+◌, String, List, [], ◌∷◌, Bool, true, false, Option, none, some, if◌then◌else◌,
}
use graphpost.Analytics.Router.{AggregateDefinition}
use graphpost.Analytics.Store.{
  Store, RefreshLog, Failure, not_found, clear_failed, query_failed, scan_failed, store_failed,
  out_of_range, rows_error, list_aggregates, aggregates_for_table,
}
use graphpost.Analytics.Store.Operations.{
  get_aggregate, store_aggregate_value, update_last_refreshed, log_refresh, clear_aggregate_values,
  now,
}
use graphpost.Analytics.Refresh.{Cell, Postgres, Rows, value_of_row, build_aggregation_query}

-- The log entry as a refresh begins, and its end.
unfoldable pub opening : String → ℕ → RefreshLog
opening id now = record {
  aggregate_id = id;
  started_at = now;
  completed_at = 0;
  status = "running";
  rows_processed = 0;
  error_message = none;
}

unfoldable pub closing : ℕ → ℕ → RefreshLog → RefreshLog
closing now n entry = record entry { completed_at = now; rows_processed = n }

abbrev is_panic : Failure → Bool
is_panic out_of_range = true
is_panic _ = false

module _ {F : Type 0} (fails : ℕ → Bool) (clock : ℕ → ℕ) where
  -- What `RefreshAggregate` does with the result; after a panic nothing.
  unfoldable pub conclude :
      String → RefreshLog → Option Failure → Store F → Option Failure × Store F
  conclude id entry none s =
      let t = (log_refresh fails clock (record entry { status = "completed" }) s).1 in
      update_last_refreshed fails clock id (now fails clock t) t
  conclude id entry (some e) s =
      let failed = record entry { status = "failed"; error_message = some e } in
      (some e, if is_panic e then s else (log_refresh fails clock failed s).1)

  unfoldable pub finish :
      String → RefreshLog → (ℕ × Option Failure) × Store F → Option Failure × Store F
  unfolding conclude closing
  finish id entry ((n, err), t) = conclude id (closing (now fails clock t) n entry) err t

module _ {F : Type 0} (fails : ℕ → Bool) (clock : ℕ → ℕ) (source : Postgres F) where
  -- The loop over the rows: how many have been stored, the error, and the store.
  unfoldable pub store_rows :
      AggregateDefinition
      → Bool
      → List (Option (List (Cell F)))
      → ℕ
      → Store F
      → (ℕ × Option Failure) × Store F
  store_rows def is_broken [] n s = ((n, if is_broken then some rows_error else none), s)
  store_rows def is_broken (none ∷ rows) n s = ((n, some scan_failed), s)
  store_rows def is_broken (some cells ∷ rows) n s = elim (value_of_row source def cells) [
    | none ↦ ((n, some out_of_range), s)
    | some v ↦
        let (works, t) = store_aggregate_value fails clock v s in
        let rest = store_rows def is_broken rows (n + 1) t in
        if works then rest else ((n, some store_failed), t)
  ]

  unfoldable pub store_answer :
      AggregateDefinition → Option (Rows F) → Store F → (ℕ × Option Failure) × Store F
  unfolding store_rows
  store_answer def none s = ((0, some query_failed), s)
  store_answer def (some rows) s = store_rows def rows.is_broken rows.scanned 0 s

  unfoldable pub execute_aggregation :
      AggregateDefinition → Store F → (ℕ × Option Failure) × Store F
  unfolding store_answer
  execute_aggregation def s =
      let (cleared, t) = clear_aggregate_values fails clock def.id s in
      let executed = store_answer def (source.query (build_aggregation_query def)) t in
      if cleared then executed else ((0, some clear_failed), t)

  unfoldable pub refresh_definition :
      String → AggregateDefinition → Store F → Option Failure × Store F
  unfolding execute_aggregation finish opening
  refresh_definition id def s =
      let entry = opening id (now fails clock s) in
      let begun = (log_refresh fails clock entry s).1 in
      finish fails clock id entry (execute_aggregation def begun)

  unfoldable pub refresh_aggregate : String → Store F → Option Failure × Store F
  unfolding refresh_definition
  refresh_aggregate id s = elim (get_aggregate id s) [
    | none ↦ (some (not_found id), s)
    | some def ↦ refresh_definition id def s
  ]

  abbrev panics : Option Failure → Bool
  panics none = false
  panics (some e) = is_panic e

  abbrev add_error : String → Option Failure → List (String × Failure) → List (String × Failure)
  add_error name none errs = errs
  add_error name (some e) errs = (name, e) ∷ errs

  -- The loop of `RefreshAll` and `RefreshByTable`: the errors with the names of the aggregates.
  unfoldable pub refresh_each :
      List AggregateDefinition → Store F → List (String × Failure) × Store F
  unfolding refresh_aggregate
  refresh_each [] s = ([], s)
  refresh_each (def ∷ defs) s =
      let (err, t) = refresh_aggregate def.id s in
      let skipped = refresh_each defs s in
      let (errs, u) = if panics err then ([], t) else refresh_each defs t in
      if def.is_enabled then (add_error def.name err errs, u) else skipped

  -- No error is an empty list.
  unfoldable pub refresh_all : Store F → List (String × Failure) × Store F
  unfolding refresh_each
  refresh_all s = refresh_each (list_aggregates s.definitions) s

  unfoldable pub refresh_by_table : String → Store F → List (String × Failure) × Store F
  unfolding refresh_each
  refresh_by_table table s = refresh_each (aggregates_for_table table s.definitions) s
