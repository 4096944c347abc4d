-- ===== src/Prelude/Text.antt =====
-- What the program uses of Go's `strings` package on texts, and membership in lists of texts.
use Prim.Native.Char.{Char, code}
use Prim.Native.String
use Prim.Native.String.append
use Prim.Native.Nat.{ℕ, ◌-◌}
use Prim.Native.String.{String}
use mathlib.Core.Bool.{Bool, true, false, ◌&&◌}
use mathlib.Core.Logic.{◌⊎◌}
use mathlib.Core.Path.{◌≡◌}
use mathlib.Core.Option.{Option, none, some}
use mathlib.Core.List.{List, [], ◌∷◌}
use native.Mathlib.Omega.{arith}
use text.Mathlib.Text.{◌==◌}
use text.Mathlib.TextEquality.{eq_iff}
use graphpost.Prelude.Tests.{eqb, leb, if◌then◌else◌}
use graphpost.Prelude.Lists.{All}

-- A character in front of the first text of a list.
abbrev onto_first : Char → List String → List String
onto_first c [] = String.◌∷◌ c String.[] ∷ []
onto_first c (s ∷ ss) = String.◌∷◌ c s ∷ ss

-- `strings.Split(s, sep)` for a separator of one character, given by its code.
unfoldable pub split : ℕ → String → List String
split sep String.[] = "" ∷ []
split sep (String.◌∷◌ c s) =
    let rest = split sep s in if eqb (code c) sep then "" ∷ rest else onto_first c rest

-- `strings.Join(parts, sep)`
unfoldable pub join_texts : String → List String → String
join_texts sep [] = ""
join_texts sep (s ∷ []) = s
join_texts sep (s ∷ t ∷ rest) =
    let joined = join_texts sep (t ∷ rest) in String.◌++◌ s (String.◌++◌ sep joined)

-- A text without the character of a code.
abbrev pub Lacks : ℕ → String → Type 0
Lacks sep String.[] = Unit
Lacks sep (String.◌∷◌ c s) = (eqb (code c) sep ≡ false) × Lacks sep s

split_lacking : (sep : ℕ) (s : String) → Lacks sep s → split sep s ≡ s ∷ []
unfolding split
split_lacking sep String.[] h = λ i. "" ∷ []
split_lacking sep (String.◌∷◌ c s) h = rw (h.0, split_lacking sep s h.1)

split-plain :
    (sep : ℕ) (c : Char) (s : String)
    → eqb (code c) sep ≡ false
    → split sep (String.◌∷◌ c s) ≡ onto_first c (split sep s)
unfolding split
split-plain sep c s h = rw h

pub eqb_self : (n : ℕ) → eqb n n ≡ true
eqb_self n = ground arith

split_separator : (d : Char) (t : String) → split (code d) (String.◌∷◌ d t) ≡ "" ∷ split (code d) t
unfolding split
split_separator d t = rw (eqb_self (code d))

split_at_separator :
    (d : Char) (s t : String)
    → Lacks (code d) s
    → split (code d) (String.◌++◌ s (String.◌∷◌ d t)) ≡ s ∷ split (code d) t
split_at_separator d String.[] t h = rw (append.nil) (split_separator d t)
split_at_separator d (String.◌∷◌ c s) t h =
    rw (append.cons, split-plain _ _ _ h.0, split_at_separator d s t h.1)

pub split-join_texts :
    (d : Char) (s : String) (ss : List String)
    → Lacks (code d) s × All (Lacks (code d)) ss
    → split (code d) (join_texts (String.◌∷◌ d "") (s ∷ ss)) ≡ s ∷ ss
unfolding join_texts
split-join_texts d s [] h = split_lacking (code d) s h.0
split-join_texts d s (t ∷ ss) h =
    rw (append.cons, append.nil, split_at_separator d s _ h.0, split-join_texts d t ss h.1)

-- `strings.CutPrefix`: the rest of a text behind a prefix.
unfoldable pub cut_prefix : String → String → Option String
cut_prefix String.[] s = some s
cut_prefix (String.◌∷◌ c p) String.[] = none
cut_prefix (String.◌∷◌ c p) (String.◌∷◌ d s) =
    let rest = cut_prefix p s in if eqb (code c) (code d) then rest else none

-- `strings.TrimPrefix`
unfoldable pub trim_prefix : String → String → String
unfolding cut_prefix
trim_prefix p s = elim (cut_prefix p s) [ none ↦ s | some rest ↦ rest ]

-- `contains` of a slice
unfoldable pub contains : List String → String → Bool
contains [] item = false
contains (s ∷ ss) item = if s == item then true else contains ss item

abbrev pub ElementOf : String → List String → Type 0
ElementOf x [] = ⊥
ElementOf x (y ∷ ys) = (y ≡ x) ⊎ ElementOf x ys

pub contains-ElementOf : (l : List String) (x : String) → contains l x ≡ true → ElementOf x l
unfolding contains
contains-ElementOf [] x h = cc
contains-ElementOf (y ∷ ys) x h = ground (arith, eq_iff y x, contains-ElementOf ys x)

lower_char : Char → Char
lower_char c =
    if leb b'A' (code c) && leb (code c) b'Z'
    then String.char_at "abcdefghijklmnopqrstuvwxyz" (code c - b'A')
    else c

-- `strings.ToLower`, for the letters of ASCII.
unfoldable pub to_lower : String → String
unfolding lower_char
to_lower String.[] = ""
to_lower (String.◌∷◌ c s) = String.◌∷◌ (lower_char c) (to_lower s)
