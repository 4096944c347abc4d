-- ===== src/Analytics/Router/Soundness.antt =====
-- Where the answers of internal/analytics/router.go come from.
use graphpost.Prelude.{
  ℕ, String, List, [], ◌∷◌, Bool, true, false, Option, none, some, arith, ◌≡◌, ◌⊎◌, inl, inr, refl,
  ◌==◌, eq_iff, length, if◌then◌else◌, Any, Bool-cases, Option-cases,
}
use graphpost.Json.{Value}
use graphpost.Cache.Memory.{add64}
use graphpost.Analytics.Router.{
  AggregateDefinition, AggregateValue, AggregateRequest, RouterConfig, RouterStats, Sources,
  QueryResult, Source, materialized, lazy, live, same_elements, string_slice_equal, matches,
  first_match, get_aggregates_for_table, build_group_key, is_stale, find_matching_aggregate,
  get_from_materialized, live_result, fall_back, try_lazy, from_aggregate, route_aggregate_query,
}

-- An aggregate that the router takes for a request: one without a column, or without a filter, takes an
-- aggregate with any.
pub record Fits (req : AggregateRequest) (agg : AggregateDefinition) : Type 0 where
  pub of_table : agg.source_table ≡ req.table
  pub of_type : agg.aggregate_type ≡ req.aggregate_type
  pub of_column : (req.column ≡ "") ⊎ (agg.column_name ≡ req.column)
  pub grouped : agg.group_by_columns ≡ req.group_by
  pub filtered : (req.filter ≡ "") ⊎ (agg.filter_condition ≡ req.filter)

same_elements-eq :
    (xs ys : List String) → length xs ≡ length ys → same_elements xs ys ≡ true → xs ≡ ys
unfolding same_elements
same_elements-eq [] [] e h = refl
same_elements-eq [] (y ∷ ys) e h = absurd (omega arith)
same_elements-eq (x ∷ xs) [] e h = absurd (omega arith)
same_elements-eq (x ∷ xs) (y ∷ ys) e h = ground (arith, same_elements-eq xs ys, eq_iff x y)

string_slice_equal-eq : (xs ys : List String) → string_slice_equal xs ys ≡ true → xs ≡ ys
unfolding string_slice_equal
string_slice_equal-eq xs ys h = ground (arith, same_elements-eq xs ys)

-- One of the enabled aggregates that fit, and its value.
abbrev pub ValueOf :
    Sources
    → AggregateRequest
    → (String → String → Option AggregateValue)
    → (AggregateValue → Type 0)
    → Type 0
ValueOf sources req look Good =
    (agg : AggregateDefinition) × (v : AggregateValue) × Any (λ def. def ≡ agg) sources.definitions
    × Fits req agg
    × (agg.is_enabled ≡ true)
    × (look agg.id (build_group_key sources.marshal req.group_values) ≡ some v)
    × Good v

matches-Fits :
    (req : AggregateRequest) (agg : AggregateDefinition)
    → (agg.source_table == req.table) ≡ true
    → matches req agg ≡ true
    → Fits req agg
unfolding matches
matches-Fits req agg ours fits = record {
  of_table = ground (arith, eq_iff agg.source_table req.table);
  of_type = ground (arith, eq_iff agg.aggregate_type req.aggregate_type);
  of_column = ground (arith, eq_iff req.column "", eq_iff agg.column_name req.column);
  grouped = string_slice_equal-eq agg.group_by_columns req.group_by (ground arith);
  filtered = ground (arith, eq_iff req.filter "", eq_iff agg.filter_condition req.filter);
}

first_match-Fits :
    (req : AggregateRequest) (defs : List AggregateDefinition) (agg : AggregateDefinition)
    → first_match req (get_aggregates_for_table req.table defs) ≡ some agg
    → Any (λ def. def ≡ agg) defs × Fits req agg
unfolding first_match get_aggregates_for_table
first_match-Fits req [] agg h = cc
first_match-Fits req (def ∷ defs) agg h = elim (Bool-cases (def.source_table == req.table)) [
  | inl ours ↦ elim (Bool-cases (matches req def)) [
    | inl fits ↦
        let first : some def ≡ some agg = rw (ours, fits) at h in
        let this : def ≡ agg = cc in (inl this, rw (← this) (matches-Fits req def ours fits))
    | inr no_fit ↦
        let (at, ok) = first_match-Fits req defs agg (rw (ours, no_fit) at h) in (inr at, ok)
  ]
  | inr other ↦ let (at, ok) = first_match-Fits req defs agg (rw other at h) in (inr at, ok)
]

module _ (cfg : RouterConfig) (sources : Sources) (now : ℕ) (req : AggregateRequest) where
  -- What a source stands for.
  FromSource : Source → Option Value → Type 0
  FromSource materialized data_value =
      ValueOf sources req sources.aggregate_value
        (λ v. (is_stale cfg.staleness_threshold now v ≡ false) × (data_value ≡ some v.value))
  FromSource lazy data_value =
      ValueOf sources req sources.compute_lazy (λ v. data_value ≡ some v.value)
  FromSource live data_value = (cfg.fallback_to_live ≡ true) × (data_value ≡ none)

  unfoldable pub Answered : Option QueryResult → Type 0
  unfolding FromSource
  Answered none = cfg.fallback_to_live ≡ false
  Answered (some r) = FromSource r.source r.data_value

  live_or_error :
      (b : Bool) (x y : RouterStats)
      → cfg.fallback_to_live ≡ b
      → Answered
          (if◌then◌else◌ {A = Option QueryResult × RouterStats} b
            (some (live_result cfg sources now), x)
            (none, y)).0
  unfolding Answered FromSource
  live_or_error true x y h = (h, refl)
  live_or_error false x y h = h

  fall_back-Answered : (stats : RouterStats) → Answered (fall_back cfg sources now stats).0
  unfolding fall_back
  fall_back-Answered stats = live_or_error cfg.fallback_to_live _ stats refl

  module _ (agg : AggregateDefinition) where
    -- What has been checked of the aggregate.
    Candidate : Type 0
    Candidate = Any (λ def. def ≡ agg) sources.definitions × Fits req agg × (agg.is_enabled ≡ true)

    try_lazy-Answered :
        Candidate → (stats : RouterStats) → Answered (try_lazy cfg sources now agg req stats).0
    unfolding Candidate try_lazy Answered FromSource
    try_lazy-Answered (there, fits, on) stats = elim (Bool-cases (agg.refresh_strategy == "lazy")) [
      | inl is_lazy ↦
          let key = build_group_key sources.marshal req.group_values in
          elim (Option-cases (sources.compute_lazy agg.id key)) [
            | inl missing ↦ rw (try_lazy, is_lazy, missing) (fall_back-Answered stats)
            | inr (v, found) ↦ rw (try_lazy, is_lazy, found) (agg, v, there, fits, on, found, refl)
          ]
      | inr eager ↦ rw (try_lazy, eager) (fall_back-Answered stats)
    ]

    from_aggregate-Answered :
        Candidate
        → (stats : RouterStats) → Answered (from_aggregate cfg sources now agg req stats).0
    unfolding Candidate from_aggregate get_from_materialized Answered FromSource
    from_aggregate-Answered (there, fits, on) stats =
        let key = build_group_key sources.marshal req.group_values in
        elim (Option-cases (sources.aggregate_value agg.id key)) [
          | inl missing ↦
              rw (from_aggregate, get_from_materialized, missing)
                (try_lazy-Answered (there, fits, on) _)
          | inr (v, found) ↦ elim (Bool-cases (is_stale cfg.staleness_threshold now v)) [
            | inl stale ↦
                rw (from_aggregate, get_from_materialized, found, stale)
                  (try_lazy-Answered (there, fits, on) _)
            | inr fresh ↦
                rw (from_aggregate, get_from_materialized, found, fresh)
                  (agg, v, there, fits, on, found, (fresh, refl))
          ]
        ]

  abbrev counted : RouterStats → RouterStats
  counted stats = record stats { total_queries = add64 stats.total_queries 1 }

  if_enabled :
      (agg : AggregateDefinition)
      → Any (λ def. def ≡ agg) sources.definitions
      → Fits req agg
      → (b : Bool) → agg.is_enabled ≡ b
      → (stats : RouterStats)
      → Answered
          (if◌then◌else◌ {A = Option QueryResult × RouterStats} b
            (from_aggregate cfg sources now agg req stats)
            (fall_back cfg sources now stats)).0
  unfolding Candidate
  if_enabled agg there fits true on stats = from_aggregate-Answered agg (there, fits, on) stats
  if_enabled agg there fits false off stats = fall_back-Answered stats

  -- An answer is the value, for the group that the request asks for, of an enabled aggregate of the
  -- store that has the table, the type and the columns to group by of the request, and its column and
  -- its filter where the request has these: a request without a filter may get the value of an
  -- aggregate with one. The value is from the store only if it is not stale, or computed on demand; or
  -- the answer is left to a live query, if the configuration allows that. Only without that there is
  -- an error.
  pub route_aggregate_query-Answered :
      (stats : RouterStats) → Answered (route_aggregate_query cfg sources now req stats).0
  unfolding route_aggregate_query find_matching_aggregate
  route_aggregate_query-Answered stats =
      elim (Option-cases
        (first_match req (get_aggregates_for_table req.table sources.definitions))) [
          | inl no_match ↦ rw (route_aggregate_query, no_match) (fall_back-Answered (counted stats))
          | inr (agg, found) ↦
              let (there, fits) = first_match-Fits req sources.definitions agg found in
              rw (route_aggregate_query, found)
                (if_enabled agg there fits agg.is_enabled refl (counted stats))
        ]
