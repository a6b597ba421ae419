-- ===== src/Tests/Licenses.antt =====
-- Runs of the reading of licenses.
use ioproxy.Base.{◌≡◌, refl, ap, String, true, false, Option, none, some, List, [], ◌∷◌, arith}
use ioproxy.Legacy.License.{TextStream, new_license, read}
use ioproxy.Legacy.License.Written.{
  IsLines, Statement, allow, blank, word, other, extended, read-extended,
}

abbrev first_line : List String → Option (String × List String)
first_line [] = none
first_line (line ∷ lines) = some (line, lines)

-- A stream that gives the same lines for each text.
abbrev qt : TextStream (List String)
qt = record {
  stream =
      λ text. "License 1" ∷ "creator A B" ∷ "allow core" ∷ "" ∷ "allow io.tcpserver" ∷ "word" ∷ [];
  read_line_into = first_line;
}

at_end : (s : List String) → s ≡ [] → first_line s ≡ none
at_end [] e = refl
at_end (line ∷ lines) e = cc

next_line :
    (s : List String) (line : String) (lines : List String)
    → s ≡ line ∷ lines
    → (s' : List String) × (first_line s ≡ some (line, s')) × (s' ≡ lines)
next_line s line lines e = (lines, ap first_line e, refl)

abbrev as_lists : IsLines qt
as_lists = record { rest = λ s. s; at_end = at_end; next_line = next_line }

abbrev statements : List Statement
statements = other "creator" "A B" ∷ allow "core" ∷ blank ∷ allow "io.tcpserver" ∷ word "word" ∷ []

read-extended_example :
    read qt 6 "license" new_license ≡ some (true, extended statements new_license)
read-extended_example =
    read-extended as_lists 6 statements "license" new_license refl
      (
        ((refl, (refl, (refl, (refl, (refl, (refl, (refl, tt))))))), refl),
        (refl, (tt, (refl, ((refl, (refl, (refl, (refl, tt)))), tt)))),
      )
      (omega arith)

two_names :
    read qt 6 "license" new_license
    ≡ some (true, record { allow_all = false; allows = "core" ∷ "io.tcpserver" ∷ [] })
unfolding read
two_names = refl
