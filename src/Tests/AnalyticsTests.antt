-- ===== src/Tests/AnalyticsTests.antt =====
-- Runs of internal/analytics at concrete inputs.
use graphpost.Prelude.{[], ◌∷◌, true, Option, none, some, ◌≡◌, refl}
use graphpost.Prelude.Int.{pos}
use graphpost.Json.{Value, num, end}
use graphpost.Analytics.Router.{
  AggregateDefinition, AggregateRequest, RouterConfig, RouterStats, Sources, QueryResult,
  build_group_key, get_aggregates_for_table, string_slice_equal, matches, first_match, is_stale,
  find_matching_aggregate, get_from_materialized, fall_back, try_lazy, from_aggregate,
  route_aggregate_query,
}
use graphpost.Analytics.Router.Soundness.{Answered, route_aggregate_query-Answered}

program : Unit {0}
unfolding build_group_key get_aggregates_for_table string_slice_equal matches first_match is_stale
    find_matching_aggregate get_from_materialized fall_back try_lazy from_aggregate
    route_aggregate_query
program = tt

-- The number of orders that are paid.
abbrev paid : AggregateDefinition
paid = record {
  id = "a1";
  name = "paid orders";
  source_table = "orders";
  aggregate_type = "COUNT";
  column_name = "";
  group_by_columns = [];
  filter_condition = "paid";
  refresh_strategy = "scheduled";
  refresh_interval = pos 60000000000;
  cron_schedule = "";
  last_refreshed = 0;
  next_refresh = 0;
  is_enabled = true;
  created_at = 0;
  updated_at = 0;
}

abbrev sources : Sources
sources = record {
  definitions = paid ∷ [];
  aggregate_value = λ id key. some (record { value = num (pos 3); computed_at = 10 });
  compute_lazy = λ id key. none;
  marshal = λ fields. "{}";
}

abbrev config : RouterConfig
config = record { fallback_to_live = true; staleness_threshold = pos 5 }

-- All orders, without a filter.
abbrev request : AggregateRequest
request = record {
  table = "orders";
  aggregate_type = "COUNT";
  column = "";
  group_by = [];
  group_values = end;
  filter = "";
}

abbrev stats : RouterStats
stats = record {
  total_queries = 0;
  materialized_hits = 0;
  materialized_misses = 0;
  live_fallbacks = 0;
  analytics_queries = 0;
  postgres_queries = 0;
}

abbrev answer : Option QueryResult → Option Value
answer none = none
answer (some r) = r.data_value

-- A request without a filter is answered by the aggregate of the paid orders.
ignores_filter :
    answer (route_aggregate_query config sources 12 request stats).0 ≡ some (num (pos 3))
unfolding program
ignores_filter = refl

stale_is_live : answer (route_aggregate_query config sources 20 request stats).0 ≡ none
unfolding program
stale_is_live = refl

route_aggregate_query-Answered_example :
    Answered config sources 12 request (route_aggregate_query config sources 12 request stats).0
route_aggregate_query-Answered_example =
    route_aggregate_query-Answered config sources 12 request stats
