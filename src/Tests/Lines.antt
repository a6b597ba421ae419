-- ===== src/Tests/Lines.antt =====
-- Command lines.
use Prim.Native.Char.{code}
use ioproxy.Base.{◌≡◌, refl, String, some, List, [], ◌∷◌, map, All, arith, ◌==◌, Expected, ok}
use ioproxy.CmdLine.Text.{Spaces}
use ioproxy.CmdLine.{CmdLineConfig, from_arguments}
use ioproxy.CmdLine.Reading.{parse}
use ioproxy.CmdLine.Turns.{collected}
use ioproxy.CmdLine.Walk.{nothing_yet, from_arguments-parse}
use ioproxy.CmdLine.Glue.{Lacks}
use ioproxy.CmdLine.RoundTrip.{
  IsPlain, Given, config_of, io_arguments, connect_arguments, from_arguments-given,
}

abbrev pub blank : Spaces
blank c = code c == b' '

abbrev line : List String
line = "ioproxy" ∷ "-io" ∷ "stdout" ∷ "-name" ∷ "out" ∷ "-p" ∷ []

from_arguments-parse_example :
    (r : Expected CmdLineConfig) × (from_arguments blank 7 line ≡ some r)
    × (collected r ≡ parse blank line nothing_yet)
from_arguments-parse_example = from_arguments-parse blank 7 line (omega arith)

abbrev pub server : Given
server = record { id = "srv"; type = "tcpserver"; pairs = ("bind_port", "1234") ∷ [] }

abbrev pub output : Given
output = record { id = "out"; type = "stdout"; pairs = [] }

abbrev pub givens : List Given
givens = server ∷ output ∷ []

abbrev pub links : List (String × String)
links = ("srv", "out") ∷ []

pub keys_fit : All (λ g. All (λ p. Lacks b'=' p.0) g.pairs) givens
keys_fit =
    (((refl, (refl, (refl, (refl, (refl, (refl, (refl, (refl, (refl, tt))))))))), tt), (tt, tt))

pub names_fit : IsPlain blank "srv" × IsPlain blank "out"
unfolding ioproxy.CmdLine.Text.trimmed
names_fit = (
  record { no_comma = (refl, (refl, (refl, tt))); filled = tt; tight = refl },
  record { no_comma = (refl, (refl, (refl, tt))); filled = tt; tight = refl },
)

from_arguments-given_example :
    (s : CmdLineConfig) × (from_arguments blank 20
        ("ioproxy" ∷ io_arguments givens (connect_arguments links))
      ≡ some (ok s))
    × (s.ios ≡ map config_of givens)
    × (s.connections ≡ links)
from_arguments-given_example =
    from_arguments-given blank 20 "ioproxy" givens links refl keys_fit (names_fit, tt) (omega arith)
