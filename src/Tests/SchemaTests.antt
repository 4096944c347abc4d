-- ===== src/Tests/SchemaTests.antt =====
-- Runs of internal/schema at concrete inputs.
use graphpost.Prelude.{
  String, List, [], ◌∷◌, true, false, Option, none, some, ◌≡◌, refl, length, inl, inr,
}
use graphpost.Prelude.Text.{split, join_texts, to_lower, contains}
use graphpost.Json.{str, arr, cons, nil}
use graphpost.Maps.{GoMap, lookup, delete}
use graphpost.Resolver.Aggregates.{is_numeric_type}
use graphpost.Resolver.Columns.{Encoders, column_operator}
use graphpost.Schema.{
  string_type, int_type, json_type, list_type, non_null_type, enum_type, ColumnInfo, to_pascal_case,
  shared_type, base_output_type, sql_type_to_graphql, base_input_type, sql_type_to_graphql_input,
  column_to_field, insert_fields, set_fields, inc_fields, pk_fields,
}
use graphpost.Schema.Filters.{comparison_fields, get_comparison_type, bool_exp_fields}
use graphpost.Schema.Compiled.{get_comparison_type-compiled}
use graphpost.Schema.Relationships.{
  ForeignKey, Relationship, generate_relationship_name, generate_array_relationship_name,
  object_rel, array_rel, relationships_of, append_rel, add_relationships, build_relationships,
  all_given,
}

program : Unit {0}
unfolding split join_texts to_lower contains lookup delete is_numeric_type to_pascal_case
    shared_type base_output_type sql_type_to_graphql base_input_type sql_type_to_graphql_input
    column_to_field insert_fields set_fields inc_fields pk_fields comparison_fields
    get_comparison_type bool_exp_fields generate_relationship_name generate_array_relationship_name
    object_rel array_rel relationships_of append_rel add_relationships build_relationships all_given
program = tt

pascal : to_pascal_case "order_line__items" ≡ "OrderLineItems"
unfolding program
pascal = refl

abbrev id : ColumnInfo
id = record {
  name = "id";
  sql_type = "INT4";
  is_nullable = false;
  has_default = true;
  is_primary_key = true;
  is_array = false;
}

abbrev place : ColumnInfo
place = record id { name = "place"; sql_type = "point"; is_primary_key = false }

abbrev mood : ColumnInfo
mood = record place { name = "mood"; sql_type = "mood"; is_array = true }

id_field : column_to_field [] id ≡ non_null_type int_type
unfolding program
id_field = refl

-- A point is JSON in an answer and a text in an argument.
point_types :
    (sql_type_to_graphql [] place ≡ json_type) × (sql_type_to_graphql_input [] place ≡ string_type)
unfolding program
point_types = (refl, refl)

moods : sql_type_to_graphql ("mood" ∷ []) mood ≡ list_type (enum_type "mood")
unfolding program
moods = refl

inputs :
    (insert_fields [] (id ∷ place ∷ []) ≡ ("id", int_type) ∷ ("place", string_type) ∷ [])
    × (pk_fields [] (id ∷ place ∷ []) ≡ ("id", non_null_type int_type) ∷ [])
    × (inc_fields (id ∷ place ∷ []) ≡ ("id", int_type) ∷ [])
unfolding program
inputs = (refl, refl, refl)

abbrev plain : Encoders
plain = record { marshal = λ v. "{}"; sprint = λ v. "x" }

get_comparison_type-compiled_example :
    length (column_operator plain "id" "_in" (arr (cons (str "1") nil)) 3).0 ≡ 1
unfolding program
get_comparison_type-compiled_example =
    get_comparison_type-compiled plain "id" [] id "_in" (list_type (non_null_type int_type))
      (arr (cons (str "1") nil)) 3 (inr (inr (inr (inr (inr (inr (inl refl)))))))
      (str "1", (nil, refl))

abbrev author_key : ForeignKey
author_key = record {
  name = "posts_author_id_fkey";
  source_table = "posts";
  source_columns = "author_id" ∷ [];
  target_table = "users";
  target_columns = "id" ∷ [];
}

abbrev editor_key : ForeignKey
editor_key = record author_key { name = "posts_editor_fkey"; source_columns = "editor" ∷ [] }

abbrev names : Option (GoMap (List Relationship)) → String → List String
names none t = []
names (some m) t = names_of (relationships_of t m)
  where
    names_of : List Relationship → List String
    names_of [] = []
    names_of (r ∷ rs) = r.name ∷ names_of rs

-- Two keys to one table give the target two relationships of one name, and the second object
-- relationship has the name of the table.
two_keys :
    (names (build_relationships (author_key ∷ editor_key ∷ []) []) "users"
      ≡ "postss" ∷ "postss" ∷ [])
    × (names (build_relationships (author_key ∷ editor_key ∷ []) []) "posts"
        ≡ "author" ∷ "users" ∷ [])
unfolding program
two_keys = (refl, refl)

abbrev built : GoMap (List Relationship)
built = add_relationships author_key ("author_id", "id") []
