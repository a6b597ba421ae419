-- ===== src/CmdLine/Text.antt =====
-- What CmdLineConfig.cpp uses of `QString`: `indexOf("=")` with `mid`, `split(',', SkipEmptyParts)` and
-- `trimmed`. Which characters are spaces is Qt's: `QChar::isSpace`, a parameter.
use Prim.Native.Char.{Char, code}
use ioproxy.Base.{String, Bool, Option, none, some, List, [], ◌∷◌, ◌==◌, if◌then◌else◌}

abbrev pub Spaces : Type 0
Spaces = Char → Bool

-- `indexOf("=")`, `mid(0, pos)` and `mid(pos + 1)`; `none` if there is no `=`.
unfoldable pub cut_at_equals : String → Option (String × String)
cut_at_equals String.[] = none
cut_at_equals (String.◌∷◌ c s) =
    let rest = cut_at_equals s in
    if code c == b'='
    then some (String.[], s)
    else elim rest [ none ↦ none | some (key, value) ↦ some (String.◌∷◌ c key, value) ]

abbrev pub keep_part : String → List String → List String
keep_part String.[] parts = parts
keep_part (String.◌∷◌ c s) parts = String.◌∷◌ c s ∷ parts

-- The part up to the first comma, and the parts behind it that are not empty.
unfoldable pub split_parts : String → String × List String
split_parts String.[] = (String.[], [])
split_parts (String.◌∷◌ c s) =
    let (part, parts) = split_parts s in
    if code c == b',' then (String.[], keep_part part parts) else (String.◌∷◌ c part, parts)

unfoldable pub split_commas : String → List String
unfolding split_parts
split_commas s = let (part, parts) = split_parts s in keep_part part parts

unfoldable pub trim_front : Spaces → String → String
trim_front is_space String.[] = String.[]
trim_front is_space (String.◌∷◌ c s) =
    let rest = trim_front is_space s in if is_space c then rest else String.◌∷◌ c s

abbrev pub push_kept : Bool → Char → String → String
push_kept space c String.[] = if space then String.[] else String.◌∷◌ c String.[]
push_kept space c (String.◌∷◌ d s) = String.◌∷◌ c (String.◌∷◌ d s)

unfoldable pub trim_back : Spaces → String → String
trim_back is_space String.[] = String.[]
trim_back is_space (String.◌∷◌ c s) = push_kept (is_space c) c (trim_back is_space s)

unfoldable pub trimmed : Spaces → String → String
unfolding trim_front trim_back
trimmed is_space s = trim_back is_space (trim_front is_space s)
