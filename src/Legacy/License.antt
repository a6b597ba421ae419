-- ===== src/Legacy/License.antt =====
-- legacy/license/License.cpp and License.hpp: a license file, and what it allows.
pub mod Written
use Prim.Native.Char.{code}
use ioproxy.Base.{
  ℕ, zero, suc, String, Bool, true, false, Option, none, some, List, [], ◌∷◌, ◌++◌, ◌==◌, str_eq,
  if◌then◌else◌,
}

-- `QTextStream` over a text, and its `readLineInto`.
pub record TextStream (Stream : Type 0) : Type 0 where
  pub stream : String → Stream
  pub read_line_into : Stream → Option (String × Stream)

pub record License : Type 0 where
  pub allow_all : Bool
  pub allows : List String

abbrev pub new_license : License
new_license = record { allow_all = false; allows = [] }

-- `indexOf(' ')`, `mid(0, pos)` and `mid(pos + 1)`; `none` if there is no space.
unfoldable pub cut_at_space : String → Option (String × String)
cut_at_space String.[] = none
cut_at_space (String.◌∷◌ c s) =
    let rest = cut_at_space s in
    if code c == b' '
    then some (String.[], s)
    else elim rest [ none ↦ none | some (key, value) ↦ some (String.◌∷◌ c key, value) ]

-- One turn of the loop.
unfoldable pub read_statement : String → License → License
unfolding cut_at_space
read_statement line l = if str_eq line "" then l else elim (cut_at_space line) [
  | none ↦ l
  | some (key, value) ↦
      if str_eq key "allow"
      then if str_eq value "all"
        then record l { allow_all = true }
        else record l { allows = l.allows ++ (value ∷ []) }
      else l
]

module _ {Stream : Type 0} (qt : TextStream Stream) where
  -- The loop, for a number of turns; `none` means that it needs more.
  unfoldable pub read_statements : ℕ → Stream → License → Option License
  unfolding read_statement
  read_statements zero s l = none
  read_statements (suc fuel) s l = elim (qt.read_line_into s) [
    | none ↦ some l
    | some (line, s') ↦ read_statements fuel s' (read_statement line l)
  ]

  -- The result, and the license that it leaves.
  unfoldable pub read : ℕ → String → License → Option (Bool × License)
  unfolding read_statements
  read fuel text l = elim (qt.read_line_into (qt.stream text)) [
    | none ↦ some (false, l)
    | some (line, s) ↦
        if str_eq line "License 1"
        then elim (read_statements fuel s l) [ none ↦ none | some l' ↦ some (true, l') ]
        else some (false, l)
  ]
