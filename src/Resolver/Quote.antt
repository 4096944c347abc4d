-- ===== src/Resolver/Quote.antt =====
-- `quoteIdentifier` of internal/resolver/resolver.go, against PostgreSQL's rule for reading a quoted
-- identifier back.
use Prim.Native.Char.{Char, code}
use Prim.Native.String.{[], ◌∷◌, ◌++◌}
use Prim.Native.String.append
use text.Mathlib.TextLemmas.{nil-append, cons-append, append_assoc}
use graphpost.Prelude.{
  String, Option, none, some, ◌≡◌, refl, Bool, true, false, eqb, if◌then◌else◌, Bool-cases, inl,
  inr,
}

-- `"`
abbrev quote : Char
quote = "\""

abbrev is_quote : Char → Bool
is_quote c = eqb (code c) b'"'

-- `strings.ReplaceAll(name, "\"", "\"\"")`
double_quotes : String → String
double_quotes [] = []
double_quotes (c ∷ s) = let rest = double_quotes s in if is_quote c then c ∷ c ∷ rest else c ∷ rest

unfoldable pub quote_identifier : String → String
unfolding double_quotes
quote_identifier name = "\"" ++ (double_quotes name ++ "\"")

abbrev push : Char → Option (String × String) → Option (String × String)
push c none = none
push c (some (name, rest)) = some (c ∷ name, rest)

-- The specification: what PostgreSQL's lexer takes from a text behind an opening quote. A doubled
-- quote is one quote of the name, and a single one ends it.
pub read_name : String → Option (String × String)
read_name [] = none
read_name (c ∷ []) = if is_quote c then some ([], []) else none
read_name (c ∷ d ∷ s) =
    let doubled = push c (read_name s) in
    let plain = push c (read_name (d ∷ s)) in
    if is_quote c then (if is_quote d then doubled else some ([], d ∷ s)) else plain

abbrev pub read_identifier : String → Option (String × String)
read_identifier [] = none
read_identifier (c ∷ s) = if is_quote c then read_name s else none

-- The text does not go on with a quote.
abbrev pub EndsName : String → Type 0
EndsName [] = Unit
EndsName (c ∷ s) = is_quote c ≡ false

read_name_plain :
    (c : Char) (s : String) → is_quote c ≡ false → read_name (c ∷ s) ≡ push c (read_name s)
unfolding read_name
read_name_plain c [] h = rw h
read_name_plain c (d ∷ s) h = rw h

read_name_doubled :
    (c : Char) (s : String) → is_quote c ≡ true → read_name (c ∷ c ∷ s) ≡ push c (read_name s)
unfolding read_name
read_name_doubled c s h = rw h

read_name_end : (rest : String) → EndsName rest → read_name (quote ∷ rest) ≡ some ([], rest)
unfolding read_name
read_name_end [] h = refl
read_name_end (d ∷ s) h = rw h

read_name-double_quotes :
    (name rest : String)
    → EndsName rest
    → read_name (double_quotes name ++ (quote ∷ rest)) ≡ some (name, rest)
unfolding double_quotes
read_name-double_quotes [] rest h = rw (append.nil) (read_name_end rest h)
read_name-double_quotes (c ∷ s) rest h = elim (Bool-cases (is_quote c)) [
  | inl q ↦
      rw (q, append.cons, append.cons, read_name_doubled c _ q, read_name-double_quotes s rest h)
  | inr p ↦ rw p (rw (append.cons, read_name_plain, p, read_name-double_quotes s rest h))
]

-- PostgreSQL reads a quoted identifier back as the name, whatever characters the name has, and goes
-- on with the text behind it, if that does not begin with a quote.
pub read_identifier-quote_identifier :
    (name rest : String)
    → EndsName rest
    → read_identifier (quote_identifier name ++ rest) ≡ some (name, rest)
unfolding quote_identifier
read_identifier-quote_identifier name rest h =
    rw (cons-append, nil-append, cons-append, append_assoc, cons-append, nil-append)
      (read_name-double_quotes name rest h)
