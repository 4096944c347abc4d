-- ===== src/Analytics/Router.antt =====
-- `RouteAggregateQuery` of internal/analytics/router.go over the store of aggregates and the refresh
-- manager, which are the interface `Sources`. Times are in nanoseconds; durations are left out of results.
pub mod Soundness
use graphpost.Prelude.{
  ℕ, zero, suc, ◌+◌, String, List, [], ◌∷◌, Bool, true, false, not, ◌&&◌, ◌||◌, Option, none, some,
  ltb, ◌==◌, if◌then◌else◌, eqb, length,
}
use graphpost.Prelude.Int.{ℤ, pos, negsuc}
use graphpost.Json.{Value, Fields, end, field}
use graphpost.Cache.Memory.{add64}

-- Instants are in nanoseconds, and 0 stands for the zero time.
pub record AggregateDefinition : Type 0 where
  pub id : String
  pub name : String
  pub source_table : String
  pub aggregate_type : String
  pub column_name : String
  pub group_by_columns : List String
  pub filter_condition : String
  pub refresh_strategy : String
  pub refresh_interval : ℤ
  pub cron_schedule : String
  pub last_refreshed : ℕ
  pub next_refresh : ℕ
  pub is_enabled : Bool
  pub created_at : ℕ
  pub updated_at : ℕ

pub record AggregateValue : Type 0 where
  pub value : Value
  pub computed_at : ℕ

pub record AggregateRequest : Type 0 where
  pub table : String
  pub aggregate_type : String
  pub column : String
  pub group_by : List String
  pub group_values : Fields
  pub filter : String

pub record RouterConfig : Type 0 where
  pub fallback_to_live : Bool
  pub staleness_threshold : ℤ

pub record RouterStats : Type 0 where
  pub total_queries : ℕ
  pub materialized_hits : ℕ
  pub materialized_misses : ℕ
  pub live_fallbacks : ℕ
  pub analytics_queries : ℕ
  pub postgres_queries : ℕ

-- The definitions of the store in the order of one range over them, and what the store and the
-- refresh manager give for the id of an aggregate and a group key; no value stands for an error and
-- for nil. `marshal` is the JSON text of a map.
pub record Sources : Type 0 where
  pub definitions : List AggregateDefinition
  pub aggregate_value : String → String → Option AggregateValue
  pub compute_lazy : String → String → Option AggregateValue
  pub marshal : Fields → String

unfoldable pub build_group_key : (Fields → String) → Fields → String
build_group_key marshal end = "_total_"
build_group_key marshal (field key v rest) = marshal (field key v rest)

unfoldable pub get_aggregates_for_table :
    String → List AggregateDefinition → List AggregateDefinition
get_aggregates_for_table table [] = []
get_aggregates_for_table table (def ∷ defs) =
    let rest = get_aggregates_for_table table defs in
    if def.source_table == table then def ∷ rest else rest

pub data Source : Type 0 where
  materialized : Source
  lazy : Source
  live : Source

pub record QueryResult : Type 0 where
  pub data_value : Option Value
  pub source : Source
  pub is_cached : Bool
  pub aggregate_id : String
  pub group_key : String
  pub last_refreshed : ℕ

-- The loop of `stringSliceEqual`, for slices of the same length.
same_elements : List String → List String → Bool
same_elements [] bs = true
same_elements (a ∷ as') [] = true
same_elements (a ∷ as') (b ∷ bs) = let rest = same_elements as' bs in if a == b then rest else false

unfoldable pub string_slice_equal : List String → List String → Bool
unfolding same_elements
string_slice_equal xs ys = if eqb (length xs) (length ys) then same_elements xs ys else false

-- What no `continue` of the loop rules out.
unfoldable pub matches : AggregateRequest → AggregateDefinition → Bool
matches req agg =
    (agg.aggregate_type == req.aggregate_type)
    && ((req.column == "") || (agg.column_name == req.column))
    && string_slice_equal agg.group_by_columns req.group_by
    && ((req.filter == "") || (agg.filter_condition == req.filter))

unfoldable pub first_match :
    AggregateRequest → List AggregateDefinition → Option AggregateDefinition
first_match req [] = none
first_match req (agg ∷ aggs) =
    let rest = first_match req aggs in if matches req agg then some agg else rest

-- `age > threshold`, for a threshold that is positive
unfoldable pub is_stale : ℤ → ℕ → AggregateValue → Bool
is_stale (pos zero) now v = false
is_stale (pos (suc n)) now v = ltb (v.computed_at + suc n) now
is_stale (negsuc n) now v = false

unfoldable pub with_default_threshold : RouterConfig → RouterConfig
with_default_threshold cfg = elim cfg.staleness_threshold [
  | pos zero ↦ record cfg { staleness_threshold = pos 300000000000 }
  | _ ↦ cfg
]

module _ (cfg : RouterConfig) (sources : Sources) (now : ℕ) where
  unfoldable pub find_matching_aggregate : AggregateRequest → Option AggregateDefinition
  find_matching_aggregate req =
      first_match req (get_aggregates_for_table req.table sources.definitions)

  unfoldable pub get_from_materialized : AggregateDefinition → AggregateRequest → Option QueryResult
  get_from_materialized agg req =
      let group_key = build_group_key sources.marshal req.group_values in
      elim (sources.aggregate_value agg.id group_key) [
        | none ↦ none
        | some v ↦
            if is_stale cfg.staleness_threshold now v
            then none
            else some (record {
              data_value = some v.value;
              source = materialized;
              is_cached = true;
              aggregate_id = agg.id;
              group_key = group_key;
              last_refreshed = v.computed_at;
            })
      ]

  abbrev pub live_result : QueryResult
  live_result = record {
    data_value = none;
    source = live;
    is_cached = false;
    aggregate_id = "";
    group_key = "";
    last_refreshed = 0;
  }

  -- No result is an error.
  unfoldable pub fall_back : RouterStats → Option QueryResult × RouterStats
  fall_back stats =
      if cfg.fallback_to_live
      then (
        some live_result,
        record stats {
          live_fallbacks = add64 stats.live_fallbacks 1;
          postgres_queries = add64 stats.postgres_queries 1;
        },
      )
      else (none, stats)

  unfoldable pub try_lazy :
      AggregateDefinition → AggregateRequest → RouterStats → Option QueryResult × RouterStats
  try_lazy agg req stats =
      if agg.refresh_strategy == "lazy"
      then elim (sources.compute_lazy agg.id (build_group_key sources.marshal req.group_values)) [
        | none ↦ fall_back stats
        | some v ↦ (
          some (record {
            data_value = some v.value;
            source = lazy;
            is_cached = false;
            aggregate_id = agg.id;
            group_key = "";
            last_refreshed = v.computed_at;
          }),
          record stats { analytics_queries = add64 stats.analytics_queries 1 },
        )
      ]
      else fall_back stats

  unfoldable pub from_aggregate :
      AggregateDefinition → AggregateRequest → RouterStats → Option QueryResult × RouterStats
  from_aggregate agg req stats = elim (get_from_materialized agg req) [
    | some result ↦ (
      some result,
      record stats {
        materialized_hits = add64 stats.materialized_hits 1;
        analytics_queries = add64 stats.analytics_queries 1;
      },
    )
    | none ↦
        try_lazy agg req (record stats { materialized_misses = add64 stats.materialized_misses 1 })
  ]

  unfoldable pub route_aggregate_query :
      AggregateRequest → RouterStats → Option QueryResult × RouterStats
  route_aggregate_query req stats =
      let counted = record stats { total_queries = add64 stats.total_queries 1 } in
      elim (find_matching_aggregate req) [
        | none ↦ fall_back counted
        | some agg ↦ if agg.is_enabled then from_aggregate agg req counted else fall_back counted
      ]
