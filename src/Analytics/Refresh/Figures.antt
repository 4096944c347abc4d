-- ===== src/Analytics/Refresh/Figures.antt =====
-- What a row of the answer to the query of an aggregate says, written out: its group and its figure.
use graphpost.Prelude.{
  String, List, [], ◌∷◌, Bool, true, ◌||◌, Option, none, some, ◌==◌, eq_iff, if◌then◌else◌, ◌≡◌,
  refl, ◌⊎◌, inl, inr, ap, arith, Option-cases,
}
use graphpost.Prelude.Int.{ℤ, pos}
use graphpost.Maps.{GoMap, put, delete}
use graphpost.Analytics.Router.{AggregateDefinition}
use graphpost.Analytics.Store.{StoredValue}
use graphpost.Analytics.Refresh.{
  Cell, int_cell, int32_cell, int64_cell, float32_cell, float64_cell, bytes_cell, other_cell,
  Postgres, is_aggregate_type, to_float64, empty_value, set_aggregate, group_values, group_key_of,
  value_of_cells, value_of_row,
}

module _ {F : Type 0} (source : Postgres F) where
  -- Spec: the number in a cell, 0 for a type that is none of those of `toFloat64`.
  unfoldable pub number_in : Cell F → F
  number_in (int_cell n) = source.of_int n
  number_in (int32_cell n) = source.of_int n
  number_in (int64_cell n) = source.of_int n
  number_in (float32_cell x) = x
  number_in (float64_cell x) = x
  number_in (bytes_cell digits) = source.of_digits digits
  number_in (other_cell s) = source.of_int (pos 0)

  -- Spec: what a count is, which has to be an int64.
  abbrev pub tally_in : Cell F → ℤ
  tally_in (int64_cell n) = n
  tally_in _ = pos 0

  abbrev pub is_count : String → Bool
  is_count type = (type == "count") || (type == "count_distinct")

  -- Spec: the value of a group for the cell of its aggregate.
  unfoldable pub figure : AggregateDefinition → String → Cell F → StoredValue F
  unfolding number_in
  figure def key c =
      let x = number_in c in
      let zero = source.of_int (pos 0) in
      record {
        aggregate_id = def.id;
        group_key = key;
        value = if is_count def.aggregate_type then source.of_int (tally_in c) else x;
        tally = if is_count def.aggregate_type then tally_in c else pos 0;
        sum = if def.aggregate_type == "sum" then x else zero;
        min = if def.aggregate_type == "min" then x else zero;
        max = if def.aggregate_type == "max" then x else zero;
        avg = if def.aggregate_type == "avg" then x else zero;
        computed_at = 0;
      }

  -- Spec: the cells of the group, onto a map, and the figure of the cell behind these, if there is one.
  unfoldable pub figure_with :
      AggregateDefinition → List String → List (Cell F) → GoMap (Cell F) → Option (StoredValue F)
  unfolding figure
  figure_with def [] [] group = none
  figure_with def [] (c ∷ cells) group = some (figure def (source.marshal group) c)
  figure_with def (col ∷ cols) [] group = none
  figure_with def (col ∷ cols) (c ∷ cells) group = figure_with def cols cells (put col c group)

  -- Spec: without columns to group by there is one group, under the key `_total_`.
  unfoldable pub figure_of :
      AggregateDefinition → List String → List (Cell F) → Option (StoredValue F)
  unfolding figure_with
  figure_of def [] [] = none
  figure_of def [] (c ∷ cells) = some (figure def "_total_" c)
  figure_of def (col ∷ cols) cells = figure_with def (col ∷ cols) cells []

  to_float64-number_in : (c : Cell F) → to_float64 source c ≡ number_in c
  unfolding to_float64 number_in
  to_float64-number_in (int_cell n) = refl
  to_float64-number_in (int32_cell n) = refl
  to_float64-number_in (int64_cell n) = refl
  to_float64-number_in (float32_cell x) = refl
  to_float64-number_in (float64_cell x) = refl
  to_float64-number_in (bytes_cell s) = refl
  to_float64-number_in (other_cell s) = refl

  known_types :
      (type : String)
      → is_aggregate_type type ≡ true
      → (type ≡ "count")
        ⊎ (type ≡ "count_distinct")
        ⊎ (type ≡ "sum")
        ⊎ (type ≡ "avg")
        ⊎ (type ≡ "min")
        ⊎ (type ≡ "max")
  known_types type h = ground (
    arith,
    eq_iff type "count",
    eq_iff type "count_distinct",
    eq_iff type "sum",
    eq_iff type "avg",
    eq_iff type "min",
    eq_iff type "max",
  )

  set_aggregate-counts :
      (key : String) (def : AggregateDefinition) (c : Cell F)
      → (def.aggregate_type ≡ "count") ⊎ (def.aggregate_type ≡ "count_distinct")
      → set_aggregate source def.aggregate_type c (empty_value source def.id key) ≡ figure def key c
  unfolding set_aggregate empty_value figure
  set_aggregate-counts key def (int_cell n) (inl p) = rw p refl
  set_aggregate-counts key def (int_cell n) (inr p) = rw p refl
  set_aggregate-counts key def (int32_cell n) (inl p) = rw p refl
  set_aggregate-counts key def (int32_cell n) (inr p) = rw p refl
  set_aggregate-counts key def (int64_cell n) (inl p) = rw p refl
  set_aggregate-counts key def (int64_cell n) (inr p) = rw p refl
  set_aggregate-counts key def (float32_cell x) (inl p) = rw p refl
  set_aggregate-counts key def (float32_cell x) (inr p) = rw p refl
  set_aggregate-counts key def (float64_cell x) (inl p) = rw p refl
  set_aggregate-counts key def (float64_cell x) (inr p) = rw p refl
  set_aggregate-counts key def (bytes_cell s) (inl p) = rw p refl
  set_aggregate-counts key def (bytes_cell s) (inr p) = rw p refl
  set_aggregate-counts key def (other_cell s) (inl p) = rw p refl
  set_aggregate-counts key def (other_cell s) (inr p) = rw p refl

  set_aggregate-figure :
      (key : String) (def : AggregateDefinition) (c : Cell F)
      → is_aggregate_type def.aggregate_type ≡ true
      → set_aggregate source def.aggregate_type c (empty_value source def.id key) ≡ figure def key c
  unfolding set_aggregate empty_value figure
  set_aggregate-figure key def c known = elim (known_types def.aggregate_type known) [
    | inl p ↦ set_aggregate-counts key def c (inl p)
    | inr (inl p) ↦ set_aggregate-counts key def c (inr p)
    | inr (inr (inl p)) ↦ rw (p, to_float64-number_in c) refl
    | inr (inr (inr (inl p))) ↦ rw (p, to_float64-number_in c) refl
    | inr (inr (inr (inr (inl p)))) ↦ rw (p, to_float64-number_in c) refl
    | inr (inr (inr (inr (inr p)))) ↦ rw (p, to_float64-number_in c) refl
  ]

  module _ (def : AggregateDefinition) (known : is_aggregate_type def.aggregate_type ≡ true) where
    -- The value of what `group_values` finds, if it finds something.
    value_of_found : Option (GoMap (Cell F) × List (Cell F)) → Option (StoredValue F)
    value_of_found none = none
    value_of_found (some found) = value_of_cells source def found

    grouped-figure_with :
        (cols : List String) (cells : List (Cell F)) (e : String × Cell F) (m : GoMap (Cell F))
        → value_of_found (group_values source cols cells (e ∷ m))
          ≡ figure_with def cols cells (e ∷ m)
    unfolding group_values figure_with value_of_cells value_of_found group_key_of
    grouped-figure_with [] [] e m = rw known refl
    grouped-figure_with [] (c ∷ cells) e m =
        ap some (set_aggregate-figure (source.marshal (e ∷ m)) def c known)
    grouped-figure_with (col ∷ cols) [] e m = refl
    grouped-figure_with (col ∷ cols) (c ∷ cells) e m =
        grouped-figure_with cols cells (col, c) (delete col (e ∷ m))

    found-figure_of :
        (cols : List String) (cells : List (Cell F))
        → value_of_found (group_values source cols cells []) ≡ figure_of def cols cells
    unfolding group_values figure_with figure_of value_of_cells value_of_found group_key_of
    found-figure_of [] [] = rw known refl
    found-figure_of [] (c ∷ cells) = ap some (set_aggregate-figure "_total_" def c known)
    found-figure_of (col ∷ cols) [] = refl
    found-figure_of (col ∷ cols) (c ∷ cells) =
        grouped-figure_with cols cells (col, c) (delete col [])

    -- The value of a row of a known aggregate is its figure.
    pub value_of_row-figure_of :
        (cells : List (Cell F))
        → value_of_row source def cells ≡ figure_of def def.group_by_columns cells
    unfolding value_of_row value_of_found
    value_of_row-figure_of cells =
        let found = found-figure_of def.group_by_columns cells in
        elim (Option-cases (group_values source def.group_by_columns cells [])) [
          | inl e ↦ rw (value_of_row, e) (rw e at found)
          | inr (groups, e) ↦ rw (value_of_row, e) (rw e at found)
        ]
