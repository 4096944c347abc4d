-- ===== src/Resolver/Sql.antt =====
-- SQL texts in pieces, so that a statement keeps what its text is made of: fixed words, quoted
-- identifiers and numbered placeholders. `render` is the text that the `Sprintf` calls of
-- internal/resolver/resolver.go write.
use Prim.Native.String
use mathlib.Core.List.{append-nil, append_assoc}
use graphpost.Prelude.{
  ℕ, zero, suc, ◌+◌, ◌/◌, ◌%◌, String, List, [], ◌∷◌, ◌++◌, ◌≡◌, refl, ap, ◌∙◌, eqb, if◌then◌else◌,
  length, length-append, count_up, count_up-add,
}
use graphpost.Json.{Value}
use graphpost.Resolver.Quote.{quote_identifier}

pub data Piece : Type 0 where
  text : String → Piece
  ident : String → Piece
  param : ℕ → Piece

abbrev pub Clause : Type 0
Clause = List Piece

-- An argument of a statement: a value, or a `[]string`.
pub data Arg : Type 0 where
  value : Value → Arg
  strings : List String → Arg

digit : ℕ → String
digit d =
    if eqb d 0
    then "0"
    else if eqb d 1
    then "1"
    else if eqb d 2
    then "2"
    else if eqb d 3
    then "3"
    else if eqb d 4
    then "4"
    else if eqb d 5
    then "5"
    else if eqb d 6
    then "6"
    else if eqb d 7
    then "7"
    else if eqb d 8
    then "8"
    else "9"

-- The digits of `n` in front of `acc`; `n + 1` rounds of fuel are more than it has digits.
digits_onto : ℕ → ℕ → String → String
digits_onto zero n acc = acc
digits_onto (suc fuel) n acc =
    let acc' = String.◌++◌ (digit (n % 10)) acc in
    let more = digits_onto fuel (n / 10) acc' in if eqb (n / 10) 0 then acc' else more

-- `%d` of a number that is not negative
unfoldable pub decimal : ℕ → String
unfolding digit digits_onto
decimal n = digits_onto (suc n) n ""

unfoldable pub render_piece : Piece → String
unfolding quote_identifier decimal
render_piece (text s) = s
render_piece (ident name) = quote_identifier name
render_piece (param i) = String.◌++◌ "$" (decimal i)

unfoldable pub render : Clause → String
unfolding render_piece
render [] = ""
render (p ∷ ps) = String.◌++◌ (render_piece p) (render ps)

-- `strings.Join`
unfoldable pub join : String → List Clause → Clause
join sep [] = []
join sep (c ∷ []) = c
join sep (c ∷ d ∷ cs) = c ++ (text sep ∷ join sep (d ∷ cs))

-- The numbers of the placeholders, from left to right.
unfoldable pub placeholders : Clause → List ℕ
placeholders [] = []
placeholders (text s ∷ ps) = placeholders ps
placeholders (ident name ∷ ps) = placeholders ps
placeholders (param i ∷ ps) = i ∷ placeholders ps

unfoldable pub all_placeholders : List Clause → List ℕ
all_placeholders [] = []
all_placeholders (c ∷ cs) = placeholders c ++ all_placeholders cs

pub placeholders-append : (c d : Clause) → placeholders (c ++ d) ≡ placeholders c ++ placeholders d
unfolding placeholders
placeholders-append [] d = refl
placeholders-append (text s ∷ c) d = placeholders-append c d
placeholders-append (ident n ∷ c) d = placeholders-append c d
placeholders-append (param i ∷ c) d = ap (◌∷◌ i) (placeholders-append c d)

pub all_placeholders-append :
    (cs ds : List Clause) → all_placeholders (cs ++ ds) ≡ all_placeholders cs ++ all_placeholders ds
unfolding all_placeholders
all_placeholders-append [] ds = refl
all_placeholders-append (c ∷ cs) ds = rw (all_placeholders-append cs ds, append_assoc)

-- Separators hold no placeholder.
pub placeholders-join :
    (sep : String) (cs : List Clause) → placeholders (join sep cs) ≡ all_placeholders cs
unfolding placeholders all_placeholders join
placeholders-join sep [] = refl
placeholders-join sep (c ∷ []) = rw append-nil
placeholders-join sep (c ∷ d ∷ cs) =
    rw placeholders-append (unfold placeholders in rw (placeholders-join sep (d ∷ cs)))

-- Conditions with their arguments, as the builders return them.
abbrev pub Built : Type 0
Built = List Clause × List Arg

abbrev pub nothing : Built
nothing = ([], [])

infixr 66 ◌⊕◌
abbrev pub ◌⊕◌ : Built → Built → Built
a ⊕ b = (a.0 ++ b.0, a.1 ++ b.1)

-- A statement: its text in pieces, and the arguments that go with it.
abbrev pub Statement : Type 0
Statement = Clause × List Arg

-- The conditions hold the placeholders `i`, `i + 1`, … in this order, one for each argument.
unfoldable pub IsNumbered : ℕ → Built → Type 0
IsNumbered i b = all_placeholders b.0 ≡ count_up i (length b.1)

unfoldable pub IsNumberedClause : ℕ → Statement → Type 0
IsNumberedClause i s = placeholders s.0 ≡ count_up i (length s.1)

pub nothing-IsNumbered : (i : ℕ) → IsNumbered i nothing
unfolding IsNumbered all_placeholders
nothing-IsNumbered i = refl

pub ⊕-IsNumbered :
    (i : ℕ) (a b : Built) → IsNumbered i a → IsNumbered (i + length a.1) b → IsNumbered i (a ⊕ b)
unfolding IsNumbered
⊕-IsNumbered i a b h k = rw (all_placeholders-append, length-append, count_up-add, h, k)

pub join-IsNumbered :
    (i : ℕ) (sep : String) (b : Built) → IsNumbered i b → IsNumberedClause i (join sep b.0, b.1)
unfolding IsNumbered IsNumberedClause
join-IsNumbered i sep b h = placeholders-join sep b.0 ∙ h

-- One text behind another, with the arguments of both.
infixr 66 ◌⧺◌
abbrev pub ◌⧺◌ : Statement → Statement → Statement
a ⧺ b = (a.0 ++ b.0, a.1 ++ b.1)

pub ⧺-IsNumberedClause :
    (i : ℕ) (a b : Statement)
    → IsNumberedClause i a
    → IsNumberedClause (i + length a.1) b
    → IsNumberedClause i (a ⧺ b)
unfolding IsNumberedClause
⧺-IsNumberedClause i a b h k = rw (placeholders-append, length-append, count_up-add, h, k)
