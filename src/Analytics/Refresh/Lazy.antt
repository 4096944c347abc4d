-- ===== src/Analytics/Refresh/Lazy.antt =====
-- The aggregates that are computed when they are asked for: `GetOrComputeLazy` of
-- internal/analytics/refresh.go. The values of a group are here the texts that `%v` prints.
use graphpost.Prelude.{
  ℕ, ◌+◌, String, List, [], ◌∷◌, Bool, true, false, Option, none, some, ltb, ◌==◌, if◌then◌else◌,
}
use graphpost.Prelude.Text.{join_texts}
use graphpost.Maps.{GoMap}
use graphpost.Analytics.Router.{AggregateDefinition}
use graphpost.Analytics.Store.{
  Store, StoredValue, Failure, not_found, not_lazy, duckdb_error, query_failed, bad_group_key,
}
use graphpost.Analytics.Store.Operations.{get_aggregate, get_aggregate_value, store_aggregate_value}
use graphpost.Analytics.Refresh.{
  Cell, set_aggregate, empty_value, aggregate_function, Postgres, ◌&◌,
}

abbrev conditions_of : GoMap String → List String
conditions_of [] = []
conditions_of ((col, text) ∷ m) = (col & " = '" & text & "'") ∷ conditions_of m

abbrev where_clause : List String → String
where_clause [] = ""
where_clause (c ∷ cs) = " WHERE " & join_texts " AND " (c ∷ cs)

-- The values of the group stand in the text of the query as they are.
unfoldable pub build_single_value_query : AggregateDefinition → GoMap String → String
unfolding aggregate_function
build_single_value_query def group =
    "SELECT "
    & aggregate_function def
    & " FROM "
    & def.source_table
    & (if def.filter_condition == ""
        then where_clause (conditions_of group)
        else where_clause (def.filter_condition ∷ conditions_of group))

-- The answer to a query for one value: an error, no row, or a cell.
pub data LazyAnswer (F : Type 0) : Type 0 where
  refused : LazyAnswer F
  no_row : LazyAnswer F
  cell : Cell F → LazyAnswer F

-- PostgreSQL for such a query, and `json.Unmarshal` of a group key, which may fail.
pub record LazySource (F : Type 0) : Type 0 where
  pub source : Postgres F
  pub query_row : String → LazyAnswer F
  pub unmarshal : String → Option (GoMap String)

unfoldable pub parse_group_key : (String → Option (GoMap String)) → String → Option (GoMap String)
parse_group_key unmarshal key = if key == "_total_" then some [] else unmarshal key

-- An `AggregateValue`: its columns, and the values of its group, which are in no column.
pub record LazyValue (F : Type 0) : Type 0 where
  pub columns : StoredValue F
  pub group_values : GoMap String

-- A value, or none without an error, or an error.
pub data LazyResult (F : Type 0) : Type 0 where
  given : Option (LazyValue F) → LazyResult F
  failed : Failure → LazyResult F

-- `age < rm.config.LazyTTL`
unfoldable pub is_fresh : {F : Type 0} → ℕ → ℕ → StoredValue F → Bool
is_fresh ttl now v = ltb now (v.computed_at + ttl)

module _ {F : Type 0} (fails : ℕ → Bool) (clock : ℕ → ℕ) (lazy_source : LazySource F)
    (ttl : ℕ) where
  -- Storing the value sets its time, whether or not DuckDB takes it.
  unfoldable pub store_computed :
      AggregateDefinition → String → GoMap String → LazyAnswer F → Store F → LazyResult F × Store F
  store_computed def key group refused s = (failed query_failed, s)
  store_computed def key group no_row s = (given none, s)
  store_computed def key group (cell c) s =
      let empty = empty_value lazy_source.source def.id key in
      let v = set_aggregate lazy_source.source def.aggregate_type c empty in
      (
        given (
            some (record {
              columns = record v { computed_at = clock s.statements };
              group_values = group;
            })),
        (store_aggregate_value fails clock v s).1,
      )

  unfoldable pub compute_group :
      AggregateDefinition → String → Option (GoMap String) → Store F → LazyResult F × Store F
  unfolding store_computed build_single_value_query
  compute_group def key none s = (failed bad_group_key, s)
  compute_group def key (some group) s =
      store_computed def key group (lazy_source.query_row (build_single_value_query def group)) s

  unfoldable pub compute_single_aggregate :
      AggregateDefinition → String → Store F → LazyResult F × Store F
  unfolding compute_group parse_group_key
  compute_single_aggregate def key s =
      compute_group def key (parse_group_key lazy_source.unmarshal key) s

  unfoldable pub answer_lazy :
      AggregateDefinition
      → String
      → (Bool × Option (StoredValue F))
      → Store F
      → LazyResult F × Store F
  unfolding compute_single_aggregate is_fresh
  answer_lazy def key (false, v) s = (failed duckdb_error, s)
  answer_lazy def key (true, none) s = compute_single_aggregate def key s
  answer_lazy def key (true, some v) s =
      if is_fresh ttl (clock s.statements) v
      then (given (some (record { columns = v; group_values = [] })), s)
      else compute_single_aggregate def key s

  unfoldable pub get_or_compute_lazy : String → String → Store F → LazyResult F × Store F
  unfolding answer_lazy
  get_or_compute_lazy id key s = elim (get_aggregate id s) [
    | none ↦ (failed (not_found id), s)
    | some def ↦
        let (found, t) = get_aggregate_value fails clock id key s in
        let answered = answer_lazy def key found t in
        if def.refresh_strategy == "lazy" then answered else (failed not_lazy, s)
  ]
