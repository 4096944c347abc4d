-- ===== src/Analytics/Store/Load.antt =====
-- `loadDefinitions` of internal/analytics/materialized.go, which a new store runs, and what it reads of
-- a definition that `CreateAggregate` wrote.
use Prim.Native.String
use Prim.Native.Char.{Char}
use Prim.Native.String.append
use Prim.Native.String.compare
use graphpost.Prelude.{
  ap, ◌∙◌, eq_iff, ℕ, ◌*◌, ◌^◌, ◌<◌, String, List, [], ◌∷◌, Bool, true, false, Option, none, some,
  ◌==◌, if◌then◌else◌, ◌≡◌, refl, All, arith, Bool-cases, Option-cases, inl, inr,
}
use graphpost.Prelude.Int.{ℤ, pos, wrap64, duration_of_seconds}
use graphpost.Prelude.Text.{split, join_texts, Lacks, split-join_texts}
use graphpost.Maps.{GoMap, lookup, lookup-put_same}
use graphpost.Analytics.Router.{AggregateDefinition}
use graphpost.Analytics.Store.{
  Store, DefinitionRow, row_of, whole_micros, whole_seconds, schedule_next,
}
use graphpost.Analytics.Store.Operations.{
  create_aggregate, insert_definition, exec_duckdb, completed, with_id, now,
}

abbrev or_empty : Option String → String
or_empty none = ""
or_empty (some s) = s

abbrev or_zero : Option ℕ → ℕ
or_zero none = 0
or_zero (some n) = n

unfoldable pub seconds_to_duration : Option ℤ → ℤ
unfolding duration_of_seconds
seconds_to_duration none = pos 0
seconds_to_duration (some n) = duration_of_seconds n

unfoldable pub split_columns : Option String → List String
split_columns none = []
split_columns (some s) = if s == "" then [] else split b',' s

unfoldable pub load_row : String → DefinitionRow → AggregateDefinition
unfolding split_columns
load_row id row = record {
  id = id;
  name = row.name;
  source_table = row.source_table;
  aggregate_type = row.aggregate_type;
  column_name = or_empty row.column_name;
  group_by_columns = split_columns row.group_by_columns;
  filter_condition = or_empty row.filter_condition;
  refresh_strategy = row.refresh_strategy;
  refresh_interval = seconds_to_duration row.refresh_interval_seconds;
  cron_schedule = or_empty row.cron_schedule;
  last_refreshed = or_zero row.last_refreshed;
  next_refresh = or_zero row.next_refresh;
  is_enabled = row.is_enabled;
  created_at = row.created_at;
  updated_at = row.updated_at;
}

-- The definitions of the rows that the query gives.
unfoldable pub load_definitions : GoMap DefinitionRow → GoMap AggregateDefinition
load_definitions [] = []
load_definitions ((id, row) ∷ rows) = (id, load_row id row) ∷ load_definitions rows

lookup-load_definitions :
    (id : String) (rows : GoMap DefinitionRow) (row : DefinitionRow)
    → lookup id rows ≡ some row
    → lookup id (load_definitions rows) ≡ some (load_row id row)
unfolding lookup load_definitions
lookup-load_definitions id [] row h = cc
lookup-load_definitions id ((j, r) ∷ rows) row h =
    ground (arith, lookup-load_definitions id rows row, eq_iff j id)

-- Columns that a join with commas keeps apart.
abbrev pub AreListed : List String → Type 0
AreListed [] = Unit
AreListed (c ∷ cs) = ((c == "") ≡ false) × Lacks b',' c × All (Lacks b',') cs

abbrev comma : Char
comma = String.char_at "," 0

join_texts-nonempty :
    (c : String) (cs : List String) → (c == "") ≡ false → (join_texts "," (c ∷ cs) == "") ≡ false
unfolding join_texts
join_texts-nonempty c [] h = h
join_texts-nonempty String.[] (t ∷ cs) h = cc
join_texts-nonempty (String.◌∷◌ d s) (t ∷ cs) h = rw (append.cons, compare.cons-nil)

split_columns-join_texts :
    (cs : List String) → AreListed cs → split_columns (some (join_texts "," cs)) ≡ cs
unfolding split_columns join_texts
split_columns-join_texts [] h = refl
split_columns-join_texts (c ∷ cs) h =
    rw (join_texts-nonempty c cs h.0) (split-join_texts comma c cs (h.1, h.2))

seconds_to_duration-whole_seconds :
    (n : ℕ)
    → n * 1000000000 < 2 ^ 63
    → seconds_to_duration (some (whole_seconds (pos (n * 1000000000)))) ≡ pos (n * 1000000000)
unfolding seconds_to_duration whole_seconds duration_of_seconds wrap64
seconds_to_duration-whole_seconds n h = ground arith

-- What a definition has to be for its row to keep all of it.
pub record Storable (def : AggregateDefinition) : Type 0 where
  pub seconds : ℕ
  pub whole : def.refresh_interval ≡ pos (seconds * 1000000000)
  pub in_range : seconds * 1000000000 < 2 ^ 63
  pub fresh : def.last_refreshed ≡ 0
  pub listed : AreListed def.group_by_columns

-- A definition with its times in whole microseconds.
abbrev pub in_micros : AggregateDefinition → AggregateDefinition
in_micros def = record def {
  next_refresh = whole_micros def.next_refresh;
  created_at = whole_micros def.created_at;
  updated_at = whole_micros def.updated_at;
}

load_row-row_of :
    (def : AggregateDefinition) → Storable def → load_row def.id (row_of def) ≡ in_micros def
unfolding load_row row_of
load_row-row_of def h =
    rw
      (
        split_columns-join_texts def.group_by_columns h.listed,
        h.fresh,
        h.whole,
        seconds_to_duration-whole_seconds h.seconds h.in_range,
      )
      cc

schedule_next-Storable :
    (now : ℕ) (def : AggregateDefinition) → Storable def → Storable (schedule_next now def)
unfolding schedule_next
schedule_next-Storable now def h = record {
  seconds = h.seconds;
  whole = h.whole;
  in_range = h.in_range;
  fresh = h.fresh;
  listed = h.listed;
}

completed-Storable :
    (generate_id : AggregateDefinition → String) (now : ℕ) (def : AggregateDefinition)
    → Storable def
    → Storable (completed generate_id now def)
unfolding completed with_id
completed-Storable generate_id now def h = schedule_next-Storable now _ (record {
  seconds = h.seconds;
  whole = h.whole;
  in_range = h.in_range;
  fresh = h.fresh;
  listed = h.listed;
})

module _ {F : Type 0} (fails : ℕ → Bool) (clock : ℕ → ℕ) where
  -- An insertion that works has put the row under the id.
  lookup-insert_definition :
      (def : AggregateDefinition) (s : Store F)
      → (insert_definition fails clock def s).0 ≡ true
      → lookup def.id (insert_definition fails clock def s).1.rows ≡ some (row_of def)
  unfolding insert_definition exec_duckdb
  lookup-insert_definition def s works = elim (Option-cases (lookup def.id s.rows)) [
    | inr (row, e) ↦ cc (rw (insert_definition, e) at works)
    | inl e ↦
        rw (insert_definition, e)
          (ground
            (arith, rw (insert_definition, e) at works, lookup-put_same def.id (row_of def) s.rows))
  ]

  -- An aggregate that CreateAggregate has created is, under its id, in the definitions in memory, and
  -- a store that starts later loads the same definition from DuckDB, but for the parts of a microsecond
  -- of its times, if no name of a column is empty or has a comma, the interval is a whole number of
  -- seconds that fits an int64 in nanoseconds, and the aggregate had not been refreshed before.
  pub create_aggregate-load_definitions :
      (generate_id : AggregateDefinition → String) (given : AggregateDefinition) (s : Store F)
      → Storable given
      → (create_aggregate fails clock generate_id given s).0 ≡ none
      → let def = completed generate_id (now fails clock s) given in
        let t = (create_aggregate fails clock generate_id given s).1 in
        (lookup def.id t.definitions ≡ some def)
        × (lookup def.id (load_definitions t.rows) ≡ some (in_micros def))
  unfolding create_aggregate
  create_aggregate-load_definitions generate_id given s h created =
      elim (Bool-cases
        (insert_definition fails clock (completed generate_id (clock s.statements) given) s).0) [
          | inl works ↦ rw works (
            lookup-put_same _ _ _,
            lookup-load_definitions _ _ _ (lookup-insert_definition _ s works)
                ∙ ap some (load_row-row_of _ (completed-Storable generate_id _ given h)),
          )
          | inr refused ↦ cc (rw refused at created)
        ]
