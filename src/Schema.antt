-- ===== src/Schema.antt =====
-- internal/schema: the GraphQL types of columns, and names. A type of the GraphQL library is a value
-- of `GqlType`, without its description.
pub mod Filters
pub mod Compiled
pub mod Relationships
use graphpost.Prelude.{
  ℕ, ◌-◌, String, List, [], ◌∷◌, Bool, true, false, not, ◌&&◌, Option, none, some, leb, ◌==◌,
  if◌then◌else◌,
}
use graphpost.Prelude.Text.{split, join_texts, to_lower, contains}
use graphpost.Resolver.Aggregates.{is_numeric_type}
use Prim.Native.String
use Prim.Native.Char.{Char, code}

pub data GqlType : Type 0 where
  string_type : GqlType
  int_type : GqlType
  float_type : GqlType
  boolean_type : GqlType
  bigint_type : GqlType
  uuid_type : GqlType
  json_type : GqlType
  date_type : GqlType
  time_type : GqlType
  timestamp_type : GqlType
  enum_type : String → GqlType
  list_type : GqlType → GqlType
  non_null_type : GqlType → GqlType

-- A `Column` of internal/database/introspector.go, as the schema reads it.
pub record ColumnInfo : Type 0 where
  pub name : String
  pub sql_type : String
  pub is_nullable : Bool
  pub has_default : Bool
  pub is_primary_key : Bool
  pub is_array : Bool

upper_char : Char → Char
upper_char c =
    if leb b'a' (code c) && leb (code c) b'z'
    then String.char_at "ABCDEFGHIJKLMNOPQRSTUVWXYZ" (code c - b'a')
    else c

upper_first : String → String
unfolding upper_char
upper_first String.[] = ""
upper_first (String.◌∷◌ c s) = String.◌∷◌ (upper_char c) s

upper_parts : List String → List String
unfolding upper_first
upper_parts [] = []
upper_parts (s ∷ ss) = upper_first s ∷ upper_parts ss

-- For names whose parts begin with an ASCII character.
unfoldable pub to_pascal_case : String → String
unfolding upper_parts
to_pascal_case s = join_texts "" (upper_parts (split b'_' s))

abbrev pub int_names : List String
int_names = "int2" ∷ "int4" ∷ "smallint" ∷ "integer" ∷ "smallserial" ∷ "serial" ∷ []

abbrev pub bigint_names : List String
bigint_names = "int8" ∷ "bigint" ∷ "bigserial" ∷ []

abbrev pub float_names : List String
float_names =
    "float4" ∷ "float8" ∷ "real" ∷ "double precision" ∷ "numeric" ∷ "decimal" ∷ "money" ∷ []

abbrev pub geometry_names : List String
geometry_names = "point" ∷ "line" ∷ "lseg" ∷ "box" ∷ "path" ∷ "polygon" ∷ "circle" ∷ []

-- The cases that the two `switch`es on a type share; the last argument is the rest.
unfoldable pub shared_type : String → GqlType → GqlType
shared_type t rest =
    if contains int_names t
    then int_type
    else if contains bigint_names t
    then bigint_type
    else if contains float_names t
    then float_type
    else if contains ("bool" ∷ "boolean" ∷ []) t
    then boolean_type
    else if t == "uuid"
    then uuid_type
    else if contains ("json" ∷ "jsonb" ∷ []) t
    then json_type
    else if t == "date"
    then date_type
    else if contains ("time" ∷ "timetz" ∷ []) t
    then time_type
    else if contains ("timestamp" ∷ "timestamptz" ∷ []) t
    then timestamp_type
    else rest

-- The types that the source lists for String give what its default gives.
unfoldable pub base_output_type : List String → ColumnInfo → GqlType
unfolding shared_type
base_output_type enums col =
    let t = to_lower col.sql_type in
    if contains enums col.sql_type
    then enum_type col.sql_type
    else shared_type t (if contains geometry_names t then json_type else string_type)

unfoldable pub sql_type_to_graphql : List String → ColumnInfo → GqlType
unfolding base_output_type
sql_type_to_graphql enums col =
    let base = base_output_type enums col in if col.is_array then list_type base else base

unfoldable pub base_input_type : List String → ColumnInfo → GqlType
unfolding shared_type
base_input_type enums col =
    if contains enums col.sql_type
    then enum_type col.sql_type
    else shared_type (to_lower col.sql_type) string_type

unfoldable pub sql_type_to_graphql_input : List String → ColumnInfo → GqlType
unfolding base_input_type
sql_type_to_graphql_input enums col =
    let base = base_input_type enums col in if col.is_array then list_type base else base

unfoldable pub column_to_field : List String → ColumnInfo → GqlType
unfolding sql_type_to_graphql
column_to_field enums col =
    let t = sql_type_to_graphql enums col in if col.is_nullable then t else non_null_type t

-- A field of an input object: its name and type.
abbrev pub InputField : Type 0
InputField = String × GqlType

-- The fields of the input objects of a table, in the order of its columns.
unfoldable pub insert_fields : List String → List ColumnInfo → List InputField
unfolding sql_type_to_graphql_input
insert_fields enums [] = []
insert_fields enums (col ∷ cols) =
    let t = sql_type_to_graphql_input enums col in
    (col.name, if not col.has_default && col.is_primary_key then non_null_type t else t)
    ∷ insert_fields enums cols

unfoldable pub set_fields : List String → List ColumnInfo → List InputField
unfolding sql_type_to_graphql_input
set_fields enums [] = []
set_fields enums (col ∷ cols) =
    (col.name, sql_type_to_graphql_input enums col) ∷ set_fields enums cols

unfoldable pub inc_fields : List ColumnInfo → List InputField
inc_fields [] = []
inc_fields (col ∷ cols) =
    let rest = inc_fields cols in
    if is_numeric_type col.sql_type then (col.name, int_type) ∷ rest else rest

unfoldable pub pk_fields : List String → List ColumnInfo → List InputField
unfolding sql_type_to_graphql_input
pk_fields enums [] = []
pk_fields enums (col ∷ cols) =
    let rest = pk_fields enums cols in
    if col.is_primary_key
    then (col.name, non_null_type (sql_type_to_graphql_input enums col)) ∷ rest
    else rest
