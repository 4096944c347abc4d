-- ===== src/Resolver/Operations/AggregateNames.antt =====
-- The names of the columns of an aggregate of internal/resolver/resolver.go, there and back.
use Prim.Native.Char.{code}
use Prim.Native.String
use Prim.Native.String.append
use graphpost.Prelude.{
  String, List, [], ◌∷◌, ◌++◌, Bool, true, false, none, some, ◌≡◌, refl, eqb, arith, if◌then◌else◌,
}
use graphpost.Prelude.Text.{cut_prefix, trim_prefix, eqb_self}
use graphpost.Maps.{GoMap, put}
use graphpost.Resolver.Sql.{text, ident, Clause}
use graphpost.Resolver.Aggregates.{extremes, moments}
use graphpost.Resolver.Answers.{DbValue, AggregateFields, no_fields, organize, organize_column}

cut_prefix-append : (p s : String) → cut_prefix p (String.◌++◌ p s) ≡ some s
unfolding cut_prefix
cut_prefix-append String.[] s = rw (append.nil) refl
cut_prefix-append (String.◌∷◌ c p) s =
    rw (append.cons, cut_prefix-append p s, eqb_self (code c)) refl

-- Two texts that differ at a character of both.
clash : String → String → Bool
clash (String.◌∷◌ c p) (String.◌∷◌ d q) =
    let rest = clash p q in if eqb (code c) (code d) then rest else true
clash _ _ = false

cut_prefix-clash : (p q s : String) → clash p q ≡ true → cut_prefix p (String.◌++◌ q s) ≡ none
unfolding cut_prefix clash
cut_prefix-clash String.[] q s h = cc
cut_prefix-clash (String.◌∷◌ c p) String.[] s h = cc
cut_prefix-clash (String.◌∷◌ c p) (String.◌∷◌ d q) s h =
    rw (append.cons) (ground (arith, cut_prefix-clash p q s))

-- What a column of the name of an aggregate comes to.
module _ (c : String) (v : DbValue) (fs : AggregateFields) where
  organize_column-min :
      organize_column (String.◌++◌ "min_" c) v fs ≡ record fs { min = put c v fs.min }
  unfolding organize_column clash
  organize_column-min = rw (organize_column, cut_prefix-append "min_" c) refl

  organize_column-max :
      organize_column (String.◌++◌ "max_" c) v fs ≡ record fs { max = put c v fs.max }
  unfolding organize_column clash
  organize_column-max =
      rw (organize_column, cut_prefix-clash "min_" "max_" c refl, cut_prefix-append "max_" c) refl

  organize_column-sum :
      organize_column (String.◌++◌ "sum_" c) v fs ≡ record fs { sum = put c v fs.sum }
  unfolding organize_column clash
  organize_column-sum =
      rw
        (
          organize_column,
          cut_prefix-clash "min_" "sum_" c refl,
          cut_prefix-clash "max_" "sum_" c refl,
          cut_prefix-append "sum_" c,
        )
        refl

  organize_column-avg :
      organize_column (String.◌++◌ "avg_" c) v fs ≡ record fs { avg = put c v fs.avg }
  unfolding organize_column clash
  organize_column-avg =
      rw
        (
          organize_column,
          cut_prefix-clash "min_" "avg_" c refl,
          cut_prefix-clash "max_" "avg_" c refl,
          cut_prefix-clash "sum_" "avg_" c refl,
          cut_prefix-append "avg_" c,
        )
        refl

  organize_column-stddev :
      organize_column (String.◌++◌ "stddev_" c) v fs ≡ record fs { stddev = put c v fs.stddev }
  unfolding organize_column clash
  organize_column-stddev =
      rw
        (
          organize_column,
          cut_prefix-clash "min_" "stddev_" c refl,
          cut_prefix-clash "max_" "stddev_" c refl,
          cut_prefix-clash "sum_" "stddev_" c refl,
          cut_prefix-clash "avg_" "stddev_" c refl,
          cut_prefix-append "stddev_" c,
        )
        refl

  organize_column-variance :
      organize_column (String.◌++◌ "variance_" c) v fs
      ≡ record fs { variance = put c v fs.variance }
  unfolding organize_column clash
  organize_column-variance =
      rw
        (
          organize_column,
          cut_prefix-clash "min_" "variance_" c refl,
          cut_prefix-clash "max_" "variance_" c refl,
          cut_prefix-clash "sum_" "variance_" c refl,
          cut_prefix-clash "avg_" "variance_" c refl,
          cut_prefix-clash "stddev_" "variance_" c refl,
          cut_prefix-append "variance_" c,
        )
        refl

-- A row that answers the columns of a SELECT, under the aliases of its text: `val` gives the value for
-- the text of a function and a column.
unfoldable pub answered : (String → String → DbValue) → List Clause → List (String × DbValue)
answered val [] = []
answered val ((text fn ∷ ident column ∷ text alias ∷ text c ∷ []) ∷ parts) =
    (String.◌++◌ (trim_prefix ") as " alias) c, val fn column) ∷ answered val parts
answered val (part ∷ parts) = answered val parts

-- The value of each column under its name, onto a map.
unfoldable pub put_all : (String → DbValue) → List String → GoMap DbValue → GoMap DbValue
put_all val [] row = row
put_all val (c ∷ cs) row = put_all val cs (put c (val c) row)

module _ (val : String → String → DbValue) where
  organize-extremes :
      (cs : List String) (parts : List Clause) (fs : AggregateFields)
      → organize (answered val (extremes cs ++ parts)) fs
        ≡ organize (answered val parts) (record fs {
          min = put_all (val "MIN(") cs fs.min;
          max = put_all (val "MAX(") cs fs.max;
        })
  unfolding organize answered extremes put_all trim_prefix cut_prefix
  organize-extremes [] parts fs = refl
  organize-extremes (c ∷ cs) parts fs =
      rw
        (
          organize,
          organize_column-min c _ fs,
          organize_column-max c _ _,
          organize-extremes cs parts,
        )
        refl

  organize-moments :
      (cs : List String) (fs : AggregateFields)
      → organize (answered val (moments cs)) fs ≡ record fs {
        sum = put_all (val "SUM(") cs fs.sum;
        avg = put_all (val "AVG(") cs fs.avg;
        stddev = put_all (val "STDDEV(") cs fs.stddev;
        variance = put_all (val "VARIANCE(") cs fs.variance;
      }
  unfolding organize answered moments put_all trim_prefix cut_prefix
  organize-moments [] fs = refl
  organize-moments (c ∷ cs) fs =
      rw
        (
          organize_column-sum c _ fs,
          organize_column-avg c _ _,
          organize_column-stddev c _ _,
          organize_column-variance c _ _,
          organize-moments cs,
        )
        refl

  -- If the connection answers the columns of the query for aggregates under the aliases that they have in
  -- its text, then min and max hold exactly the results of MIN and MAX for the columns that can be
  -- compared, and sum, avg, stddev and variance those of their functions for the numeric columns, each
  -- under the name of the column.
  pub organize-aggregates :
      (compared numeric : List String)
      → organize (answered val (extremes compared ++ moments numeric)) no_fields ≡ record {
        min = put_all (val "MIN(") compared [];
        max = put_all (val "MAX(") compared [];
        sum = put_all (val "SUM(") numeric [];
        avg = put_all (val "AVG(") numeric [];
        stddev = put_all (val "STDDEV(") numeric [];
        variance = put_all (val "VARIANCE(") numeric [];
      }
  organize-aggregates compared numeric =
      rw (organize-extremes compared (moments numeric) no_fields, organize-moments numeric) refl
