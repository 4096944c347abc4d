-- ===== src/Schema/Compiled.antt =====
-- The operators that the schema offers for a column are those that the resolver compiles.
use graphpost.Prelude.{
  ℕ, String, List, [], ◌∷◌, Bool, ◌≡◌, refl, length, All, All-append, ◌⊎◌, inl, inr,
}
use graphpost.Json.{Value, bool, arr, Items, cons, elements}
use graphpost.Resolver.Columns.{
  Encoders, infix_operator, json_operator, typed_operator, membership, numbered_params,
  column_operator,
}
use graphpost.Schema.{
  GqlType, boolean_type, list_type, string_type, int_type, float_type, bigint_type, uuid_type,
  date_type, timestamp_type, ColumnInfo, InputField,
}
use graphpost.Schema.Filters.{
  Comparison, string_comparison, int_comparison, float_comparison, boolean_comparison,
  bigint_comparison, uuid_comparison, timestamp_comparison, date_comparison, jsonb_comparison,
  enum_comparison, ordered_fields, pattern_fields, comparison_fields, get_comparison_type,
}

-- The values that the GraphQL library gives for an argument of a type, but for null and the empty list;
-- of the scalars only the Boolean's form matters.
abbrev pub Fits : GqlType → Value → Type 0
Fits boolean_type v = (b : Bool) × (v ≡ bool b)
Fits (list_type t) v = (x : Value) × ((xs : Items) × (v ≡ arr (cons x xs)))
Fits t v = Unit

-- A field stands in a list of fields.
abbrev pub Among : InputField → List InputField → Type 0
Among f [] = ⊥
Among f (g ∷ gs) = (g ≡ f) ⊎ Among f gs

All-Among :
    (P : InputField → Type 0) (f : InputField) (l : List InputField) → All P l → Among f l → P f
All-Among P f [] h m = absurd m
All-Among P f (g ∷ gs) h (inl e) = rw (← e) h.0
All-Among P f (g ∷ gs) h (inr m) = All-Among P f gs h.1 m

module _ (enc : Encoders) (column : String) where
  -- Every value of the operator's type becomes exactly one condition.
  abbrev IsCompiled : InputField → Type 0
  IsCompiled (op, t) =
      (v : Value) (i : ℕ) → Fits t v → length (column_operator enc column op v i).0 ≡ 1

  ordered_fields-IsCompiled : (t : GqlType) → All IsCompiled (ordered_fields t)
  unfolding column_operator infix_operator json_operator typed_operator membership numbered_params
      elements
  ordered_fields-IsCompiled t = (
    λ v i h. refl,
    (
      λ v i h. refl,
      (
        λ v i h. refl,
        (
          λ v i h. refl,
          (
            λ v i h. refl,
            (
              λ v i h. refl,
              (λ v i h. rw h.1.1 refl, (λ v i h. rw h.1.1 refl, (λ v i h. rw h.1 refl, tt))),
            ),
          ),
        ),
      ),
    ),
  )

  pattern_fields-IsCompiled : All IsCompiled pattern_fields
  unfolding column_operator infix_operator
  pattern_fields-IsCompiled = (
    λ v i h. refl,
    (
      λ v i h. refl,
      (
        λ v i h. refl,
        (
          λ v i h. refl,
          (
            λ v i h. refl,
            (λ v i h. refl, (λ v i h. refl, (λ v i h. refl, (λ v i h. refl, (λ v i h. refl, tt))))),
          ),
        ),
      ),
    ),
  )

  comparison_fields-IsCompiled : (c : Comparison) → All IsCompiled (comparison_fields c)
  unfolding comparison_fields column_operator infix_operator json_operator typed_operator membership
      numbered_params elements
  comparison_fields-IsCompiled string_comparison =
      All-append IsCompiled (ordered_fields string_type) pattern_fields
        (ordered_fields-IsCompiled string_type) pattern_fields-IsCompiled
  comparison_fields-IsCompiled int_comparison = ordered_fields-IsCompiled int_type
  comparison_fields-IsCompiled float_comparison = ordered_fields-IsCompiled float_type
  comparison_fields-IsCompiled boolean_comparison =
      (λ v i h. refl, (λ v i h. refl, (λ v i h. rw h.1 refl, tt)))
  comparison_fields-IsCompiled bigint_comparison = ordered_fields-IsCompiled bigint_type
  comparison_fields-IsCompiled uuid_comparison = ordered_fields-IsCompiled uuid_type
  comparison_fields-IsCompiled timestamp_comparison = ordered_fields-IsCompiled timestamp_type
  comparison_fields-IsCompiled date_comparison = ordered_fields-IsCompiled date_type
  comparison_fields-IsCompiled jsonb_comparison = (
    λ v i h. refl,
    (
      λ v i h. refl,
      (
        λ v i h. rw h.1 refl,
        (
          λ v i h. refl,
          (λ v i h. refl, (λ v i h. refl, (λ v i h. rw h.1.1 refl, (λ v i h. rw h.1.1 refl, tt)))),
        ),
      ),
    ),
  )
  comparison_fields-IsCompiled (enum_comparison name) = (
    λ v i h. refl,
    (λ v i h. refl, (λ v i h. rw h.1.1 refl, (λ v i h. rw h.1.1 refl, (λ v i h. rw h.1 refl, tt)))),
  )

  -- Whatever the type of a column, the resolver compiles every operator that the schema offers for it,
  -- with every value of the operator's type but null and the empty list, to exactly one condition.
  pub get_comparison_type-compiled :
      (enums : List String) (col : ColumnInfo) (op : String) (t : GqlType) (v : Value) (i : ℕ)
      → Among (op, t) (comparison_fields (get_comparison_type enums col))
      → Fits t v
      → length (column_operator enc column op v i).0 ≡ 1
  get_comparison_type-compiled enums col op t v i offered fits =
      All-Among IsCompiled (op, t) (comparison_fields (get_comparison_type enums col))
        (comparison_fields-IsCompiled (get_comparison_type enums col)) offered v i fits
