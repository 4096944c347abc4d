-- ===== src/Schema/Relationships.antt =====
-- `buildRelationships` of internal/schema/generator.go: what each table gets from the foreign keys.
use graphpost.Prelude.{
  String, List, [], ◌∷◌, ◌++◌, Bool, true, false, Option, none, some, ◌==◌, if◌then◌else◌,
}
use graphpost.Maps.{GoMap, lookup, put}
use Prim.Native.String

pub record ForeignKey : Type 0 where
  pub name : String
  pub source_table : String
  pub source_columns : List String
  pub target_table : String
  pub target_columns : List String

pub data RelationshipType : Type 0 where
  object_relationship : RelationshipType
  array_relationship : RelationshipType

pub record Relationship : Type 0 where
  pub name : String
  pub type : RelationshipType
  pub source_table : String
  pub source_column : String
  pub target_table : String
  pub target_column : String
  pub is_array : Bool
  pub foreign_key_name : String

-- `strings.TrimSuffix(s, "_id")`
trim_id : String → String
trim_id String.[] = ""
trim_id (String.◌∷◌ c s) =
    let rest = trim_id s in if String.◌∷◌ c s == "_id" then "" else String.◌∷◌ c rest

unfoldable pub generate_relationship_name : String → String → String
unfolding trim_id
generate_relationship_name target_table source_column =
    let name = trim_id source_column in if name == source_column then target_table else name

unfoldable pub generate_array_relationship_name : String → String
generate_array_relationship_name source_table = String.◌++◌ source_table "s"

-- The relationship of the table that has the key, on a column of each table.
unfoldable pub object_rel : ForeignKey → String → String → Relationship
unfolding generate_relationship_name
object_rel fk source target = record {
  name = generate_relationship_name fk.target_table source;
  type = object_relationship;
  source_table = fk.source_table;
  source_column = source;
  target_table = fk.target_table;
  target_column = target;
  is_array = false;
  foreign_key_name = fk.name;
}

unfoldable pub array_rel : ForeignKey → String → String → Relationship
unfolding generate_array_relationship_name
array_rel fk source target = record {
  name = generate_array_relationship_name fk.source_table;
  type = array_relationship;
  source_table = fk.target_table;
  source_column = target;
  target_table = fk.source_table;
  target_column = source;
  is_array = true;
  foreign_key_name = fk.name;
}

-- `m[t]` of a map to slices.
unfoldable pub relationships_of : String → GoMap (List Relationship) → List Relationship
relationships_of t m = elim (lookup t m) [ none ↦ [] | some rels ↦ rels ]

-- `m[t] = append(m[t], rel)`
unfoldable pub append_rel :
    String → Relationship → GoMap (List Relationship) → GoMap (List Relationship)
unfolding relationships_of
append_rel t rel m = put t (relationships_of t m ++ (rel ∷ [])) m

-- The first columns of a key; no value is an index out of range.
abbrev first_columns : List String → List String → Option (String × String)
first_columns (s ∷ ss) (t ∷ ts) = some (s, t)
first_columns _ _ = none

unfoldable pub add_relationships :
    ForeignKey → (String × String) → GoMap (List Relationship) → GoMap (List Relationship)
unfolding append_rel object_rel array_rel
add_relationships fk (source, target) m =
    append_rel fk.target_table (array_rel fk source target)
      (append_rel fk.source_table (object_rel fk source target) m)

-- No result is a panic.
unfoldable pub build_relationships :
    List ForeignKey → GoMap (List Relationship) → Option (GoMap (List Relationship))
unfolding add_relationships
build_relationships [] m = some m
build_relationships (fk ∷ fks) m = elim (first_columns fk.source_columns fk.target_columns) [
  | none ↦ none
  | some columns ↦ build_relationships fks (add_relationships fk columns m)
]

-- What a table gets from one key, on a pair of columns.
abbrev added_by : String → ForeignKey → (String × String) → List Relationship
added_by t fk (source, target) =
    (if fk.source_table == t then object_rel fk source target ∷ [] else [])
    ++ (if fk.target_table == t then array_rel fk source target ∷ [] else [])

-- Spec: what a table gets from one key, on its first columns.
unfoldable pub given_by : String → ForeignKey → List String → List String → List Relationship
unfolding trim_id
given_by t fk (source ∷ ss) (target ∷ ts) =
    (if fk.source_table == t
      then record {
        name = if trim_id source == source then fk.target_table else trim_id source;
        type = object_relationship;
        source_table = fk.source_table;
        source_column = source;
        target_table = fk.target_table;
        target_column = target;
        is_array = false;
        foreign_key_name = fk.name;
      }
        ∷ []
      else [])
    ++ (if fk.target_table == t
        then record {
          name = String.◌++◌ fk.source_table "s";
          type = array_relationship;
          source_table = fk.target_table;
          source_column = target;
          target_table = fk.source_table;
          target_column = source;
          is_array = true;
          foreign_key_name = fk.name;
        }
          ∷ []
        else [])
given_by t fk _ _ = []

-- Spec: what a table gets from all of them, in order.
unfoldable pub all_given : String → List ForeignKey → List Relationship
all_given t [] = []
all_given t (fk ∷ fks) = given_by t fk fk.source_columns fk.target_columns ++ all_given t fks
