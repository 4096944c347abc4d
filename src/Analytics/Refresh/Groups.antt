-- ===== src/Analytics/Refresh/Groups.antt =====
-- What a refresh leaves in the store, when it reports no error and when PostgreSQL refuses its query.
use graphpost.Prelude.{
  ℕ, ◌+◌, String, Bool, true, false, Option, none, some, eq_refl, ◌==◌, if◌then◌else◌, ◌≡◌, refl,
  ◌∙◌, ap, arith, Bool-cases, Option-cases, inl, inr,
}
use graphpost.Maps.{lookup}
use graphpost.Analytics.Router.{AggregateDefinition}
use graphpost.Analytics.Store.{Store, RefreshLog, Failure, query_failed, select_value}
use graphpost.Analytics.Store.Operations.{
  get_aggregate, exec_duckdb, update_last_refreshed, log_refresh, clear_aggregate_values,
}
use graphpost.Analytics.Refresh.{
  Postgres, Rows, is_aggregate_type, value_of_row, build_aggregation_query,
}
use graphpost.Analytics.Refresh.Figures.{figure_of, value_of_row-figure_of}
use graphpost.Analytics.Refresh.Execution.{
  store_answer, execute_aggregation, conclude, finish, opening, closing, refresh_definition,
  refresh_aggregate,
}
use graphpost.Analytics.Refresh.Values.{
  untimed, last_of, select_value-delete_values, store_rows-values,
}

module _ {F : Type 0} (fails : ℕ → Bool) (clock : ℕ → ℕ) (source : Postgres F) where
  -- Clearing removes the values of the aggregate, and of no other.
  clear-values :
      (id i key : String) (s : Store F)
      → (clear_aggregate_values fails clock id s).0 ≡ true
      → select_value i key (clear_aggregate_values fails clock id s).1.values
        ≡ (if id == i then none else select_value i key s.values)
  unfolding clear_aggregate_values exec_duckdb
  clear-values id i key s works = elim (Bool-cases (fails s.statements)) [
    | inl e ↦ cc (rw (clear_aggregate_values, e) at works)
    | inr e ↦ rw (clear_aggregate_values, e) (select_value-delete_values id i key s.values)
  ]

  clear-works :
      (id : String) (s : Store F)
      → fails s.statements ≡ false
      → (clear_aggregate_values fails clock id s).0 ≡ true
  unfolding clear_aggregate_values exec_duckdb
  clear-works id s works = rw (clear_aggregate_values, works) refl

  clear-own_values :
      (id key : String) (s : Store F)
      → (clear_aggregate_values fails clock id s).0 ≡ true
      → select_value id key (clear_aggregate_values fails clock id s).1.values ≡ none
  clear-own_values id key s works = rw (clear-values id id key s works, eq_refl id) refl

  log_refresh-values :
      (entry : RefreshLog) (s : Store F) → (log_refresh fails clock entry s).1.values ≡ s.values
  unfolding log_refresh exec_duckdb
  log_refresh-values entry s = ground arith

  update_last_refreshed-values :
      (id : String) (at_time : ℕ) (s : Store F)
      → (update_last_refreshed fails clock id at_time s).1.values ≡ s.values
  unfolding update_last_refreshed exec_duckdb
  update_last_refreshed-values id at_time s = elim (Option-cases (lookup id s.definitions)) [
    | inl e ↦ rw (update_last_refreshed, e) refl
    | inr (def, e) ↦ rw (update_last_refreshed, e) (ground arith)
  ]

  conclude-values :
      (id : String) (entry : RefreshLog) (err : Option Failure) (s : Store F)
      → (conclude fails clock id entry err s).1.values ≡ s.values
  unfolding conclude
  conclude-values id entry none s =
      update_last_refreshed-values id _ _
      ∙ log_refresh-values (record entry { status = "completed" }) s
  conclude-values id entry (some e) s =
      ground
        (arith, log_refresh-values (record entry { status = "failed"; error_message = some e }) s)

  finish-values :
      (id : String) (entry : RefreshLog) (done : (ℕ × Option Failure) × Store F)
      → (finish fails clock id entry done).1.values ≡ done.1.values
  unfolding finish
  finish-values id entry ((n, err), t) =
      conclude-values id (closing (clock t.statements) n entry) err t

  -- No error at the end is no error of the aggregation.
  finish-none :
      (id : String) (entry : RefreshLog) (done : (ℕ × Option Failure) × Store F)
      → (finish fails clock id entry done).0 ≡ none
      → done.0.1 ≡ none
  unfolding finish conclude
  finish-none id entry ((n, none), t) h = refl
  finish-none id entry ((n, some e), t) h = cc

  -- A refresh ends with the error of its aggregation.
  finish-some :
      (id : String) (entry : RefreshLog) (e : Failure) (done : (ℕ × Option Failure) × Store F)
      → done.0.1 ≡ some e
      → (finish fails clock id entry done).0 ≡ some e
  unfolding finish conclude
  finish-some id entry e ((n, none), t) h = cc
  finish-some id entry e ((n, some f), t) h = h

  execute_aggregation-values :
      (def : AggregateDefinition) (rows : Rows F) (key : String) (s : Store F)
      → source.query (build_aggregation_query def) ≡ some rows
      → (execute_aggregation fails clock source def s).0.1 ≡ none
      → untimed (select_value def.id key (execute_aggregation fails clock source def s).1.values)
        ≡ last_of (value_of_row source def) key rows.scanned none
  unfolding execute_aggregation store_answer
  execute_aggregation-values def rows key s queried h =
      elim (Bool-cases (clear_aggregate_values fails clock def.id s).0) [
        | inl works ↦
            rw (works, queried)
              (store_rows-values fails clock source def rows.is_broken key rows.scanned 0 _
                  (rw (works, queried) at h)
                ∙ ap (last_of (value_of_row source def) key rows.scanned)
                    (ap untimed (clear-own_values def.id key s works)))
        | inr refused ↦ cc (rw refused at h)
      ]

  refresh_definition-values :
      (id : String) (def : AggregateDefinition) (rows : Rows F) (key : String) (s : Store F)
      → source.query (build_aggregation_query def) ≡ some rows
      → (refresh_definition fails clock source id def s).0 ≡ none
      → untimed (select_value def.id key (refresh_definition fails clock source id def s).1.values)
        ≡ last_of (value_of_row source def) key rows.scanned none
  unfolding refresh_definition
  refresh_definition-values id def rows key s queried h =
      let entry = opening id (clock s.statements) in
      rw (finish-values id entry _)
        (execute_aggregation-values def rows key _ queried (finish-none id entry _ h))

  log_refresh-statements :
      (entry : RefreshLog) (s : Store F)
      → (log_refresh fails clock entry s).1.statements ≡ s.statements + 1
  unfolding log_refresh exec_duckdb
  log_refresh-statements entry s = ground arith

  -- An aggregation that PostgreSQL refuses has cleared the values.
  execute_aggregation-refused :
      (def : AggregateDefinition) (key : String) (s : Store F)
      → source.query (build_aggregation_query def) ≡ none
      → fails s.statements ≡ false
      → ((execute_aggregation fails clock source def s).0.1 ≡ some query_failed)
        × (select_value def.id key (execute_aggregation fails clock source def s).1.values ≡ none)
  unfolding execute_aggregation store_answer
  execute_aggregation-refused def key s refused works =
      let cleared = clear-works def.id s works in
      rw (cleared, refused) (refl, clear-own_values def.id key s cleared)

  refresh_definition-refused :
      (id key : String) (def : AggregateDefinition) (s : Store F)
      → source.query (build_aggregation_query def) ≡ none
      → fails (s.statements + 1) ≡ false
      → ((refresh_definition fails clock source id def s).0 ≡ some query_failed)
        × (select_value def.id key (refresh_definition fails clock source id def s).1.values ≡ none)
  unfolding refresh_definition
  refresh_definition-refused id key def s refused works =
      let entry = opening id (clock s.statements) in
      let aggregated =
        execute_aggregation-refused def key (log_refresh fails clock entry s).1 refused
          (rw (log_refresh-statements _ s) works) in
      (finish-some id entry query_failed _ aggregated.0, rw (finish-values id entry _) aggregated.1)

  -- After a refresh of an aggregate of a known type that reports no error, the store has for each group
  -- key the figure of the last row of that group in the answer to the query of the aggregate, and no
  -- value for a group without a row, whatever it had before. The key is the JSON text of the group, or
  -- `_total_` without columns to group by. The figure of a row is the number in the cell behind those of
  -- the group, also under the name of the aggregate: 0 for a count that is no int64, and for a sum, an
  -- average, a minimum or a maximum whose cell is of no type that `toFloat64` knows.
  pub refresh_aggregate-values :
      (id : String) (def : AggregateDefinition) (rows : Rows F) (key : String) (s : Store F)
      → is_aggregate_type def.aggregate_type ≡ true
      → get_aggregate id s ≡ some def
      → source.query (build_aggregation_query def) ≡ some rows
      → (refresh_aggregate fails clock source id s).0 ≡ none
      → untimed (select_value def.id key (refresh_aggregate fails clock source id s).1.values)
        ≡ last_of (figure_of source def def.group_by_columns) key rows.scanned none
  unfolding refresh_aggregate
  refresh_aggregate-values id def rows key s known found queried h =
      rw (refresh_aggregate, found)
        (refresh_definition-values id def rows key s queried (rw (refresh_aggregate, found) at h)
          ∙ λ i.
              last_of (λ cells. value_of_row-figure_of source def known cells i) key rows.scanned
                none)

  -- A refresh whose query PostgreSQL refuses, after the old values have been cleared, reports that and
  -- leaves the aggregate without any value: what it had before is lost.
  pub refresh_aggregate-query_failed :
      (id key : String) (def : AggregateDefinition) (s : Store F)
      → get_aggregate id s ≡ some def
      → source.query (build_aggregation_query def) ≡ none
      → fails (s.statements + 1) ≡ false
      → ((refresh_aggregate fails clock source id s).0 ≡ some query_failed)
        × (select_value def.id key (refresh_aggregate fails clock source id s).1.values ≡ none)
  unfolding refresh_aggregate
  refresh_aggregate-query_failed id key def s found refused works =
      rw (refresh_aggregate, found) (refresh_definition-refused id key def s refused works)
