-- ===== src/Schema/Filters.antt =====
-- `generateComparisonTypes` and `getComparisonType` of internal/schema/filters.go: the operators that
-- the input object of a column offers.
use graphpost.Prelude.{String, List, [], ◌∷◌, ◌++◌, ◌==◌, if◌then◌else◌}
use graphpost.Prelude.Text.{to_lower, contains}
use graphpost.Schema.{
  GqlType, string_type, int_type, float_type, boolean_type, bigint_type, uuid_type, json_type,
  date_type, timestamp_type, enum_type, list_type, non_null_type, ColumnInfo, InputField, int_names,
  bigint_names, float_names,
}

-- The input objects with the ending `_comparison_exp`.
pub data Comparison : Type 0 where
  string_comparison : Comparison
  int_comparison : Comparison
  float_comparison : Comparison
  boolean_comparison : Comparison
  bigint_comparison : Comparison
  uuid_comparison : Comparison
  timestamp_comparison : Comparison
  date_comparison : Comparison
  jsonb_comparison : Comparison
  enum_comparison : String → Comparison

-- The operators of the types that have an order.
abbrev pub ordered_fields : GqlType → List InputField
ordered_fields t =
    ("_eq", t)
    ∷ ("_neq", t)
    ∷ ("_gt", t)
    ∷ ("_gte", t)
    ∷ ("_lt", t)
    ∷ ("_lte", t)
    ∷ ("_in", list_type (non_null_type t))
    ∷ ("_nin", list_type (non_null_type t))
    ∷ ("_is_null", boolean_type)
    ∷ []

abbrev pub pattern_fields : List InputField
pattern_fields =
    ("_like", string_type)
    ∷ ("_nlike", string_type)
    ∷ ("_ilike", string_type)
    ∷ ("_nilike", string_type)
    ∷ ("_similar", string_type)
    ∷ ("_nsimilar", string_type)
    ∷ ("_regex", string_type)
    ∷ ("_nregex", string_type)
    ∷ ("_iregex", string_type)
    ∷ ("_niregex", string_type)
    ∷ []

unfoldable pub comparison_fields : Comparison → List InputField
comparison_fields string_comparison = ordered_fields string_type ++ pattern_fields
comparison_fields int_comparison = ordered_fields int_type
comparison_fields float_comparison = ordered_fields float_type
comparison_fields boolean_comparison =
    ("_eq", boolean_type) ∷ ("_neq", boolean_type) ∷ ("_is_null", boolean_type) ∷ []
comparison_fields bigint_comparison = ordered_fields bigint_type
comparison_fields uuid_comparison = ordered_fields uuid_type
comparison_fields timestamp_comparison = ordered_fields timestamp_type
comparison_fields date_comparison = ordered_fields date_type
comparison_fields jsonb_comparison =
    ("_eq", json_type)
    ∷ ("_neq", json_type)
    ∷ ("_is_null", boolean_type)
    ∷ ("_contains", json_type)
    ∷ ("_contained_in", json_type)
    ∷ ("_has_key", string_type)
    ∷ ("_has_keys_any", list_type (non_null_type string_type))
    ∷ ("_has_keys_all", list_type (non_null_type string_type))
    ∷ []
comparison_fields (enum_comparison name) =
    ("_eq", enum_type name)
    ∷ ("_neq", enum_type name)
    ∷ ("_in", list_type (non_null_type (enum_type name)))
    ∷ ("_nin", list_type (non_null_type (enum_type name)))
    ∷ ("_is_null", boolean_type)
    ∷ []

unfoldable pub get_comparison_type : List String → ColumnInfo → Comparison
get_comparison_type enums col =
    let t = to_lower col.sql_type in
    if contains enums col.sql_type
    then enum_comparison col.sql_type
    else if contains int_names t
    then int_comparison
    else if contains bigint_names t
    then bigint_comparison
    else if contains float_names t
    then float_comparison
    else if contains ("bool" ∷ "boolean" ∷ []) t
    then boolean_comparison
    else if t == "uuid"
    then uuid_comparison
    else if contains ("json" ∷ "jsonb" ∷ []) t
    then jsonb_comparison
    else if t == "date"
    then date_comparison
    else if contains ("timestamp" ∷ "timestamptz" ∷ []) t
    then timestamp_comparison
    else string_comparison

-- A field of a `_bool_exp`: a list of such objects, one of them, or the operators of a column.
pub data BoolExpField : Type 0 where
  conjunction : BoolExpField
  negation : BoolExpField
  operators : Comparison → BoolExpField

column_filters : List String → List ColumnInfo → List (String × BoolExpField)
unfolding get_comparison_type
column_filters enums [] = []
column_filters enums (col ∷ cols) =
    (col.name, operators (get_comparison_type enums col)) ∷ column_filters enums cols

-- The fields for a table or a view, before a column of the name of a connective replaces it.
unfoldable pub bool_exp_fields : List String → List ColumnInfo → List (String × BoolExpField)
unfolding column_filters
bool_exp_fields enums cols =
    ("_and", conjunction) ∷ ("_or", conjunction) ∷ ("_not", negation) ∷ column_filters enums cols
