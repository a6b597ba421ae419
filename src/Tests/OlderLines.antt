-- ===== src/Tests/OlderLines.antt =====
-- Command lines of the older program.
use mathlib.Core.Option
use ioproxy.Base.{ℕ, ◌≡◌, refl, String, none, some, List, [], ◌∷◌, get_elem?}
use ioproxy.Io.{DataPack, pack_of}
use ioproxy.Tests.Lines.{blank}
use ioproxy.Tests.Older.{numbers}
use ioproxy.CmdLine.RoundTrip.{connect_arguments}
use ioproxy.Legacy.Context.{IoHandler, AppContext, on_new_data}
use ioproxy.Legacy.Options.{IoOptions, Kind}
use ioproxy.Legacy.CommandLine.{init}
use ioproxy.Legacy.CommandLine.Connections.{IsReadable}
use ioproxy.Legacy.CommandLine.Lines.{Given, io_arguments}
use ioproxy.Legacy.CommandLine.RoundTrip.{wired, init-given}
use ioproxy.Legacy.CommandLine.Delivery.{write_to, init-write_to}

abbrev server : Given
server = record { id = "srv"; kind = Kind.tcp_server; pairs = ("port", "1") ∷ [] }

abbrev output : Given
output = record { id = "out"; kind = Kind.std_out; pairs = [] }

abbrev givens : List Given
givens = server ∷ output ∷ []

abbrev links : List (String × String)
links = ("srv", "out") ∷ ("out", "out") ∷ []

first_fits : IsReadable blank ("srv" ∷ "out" ∷ []) ("srv", "out")
unfolding ioproxy.CmdLine.Text.trimmed
first_fits = record {
  no_commas = ((refl, (refl, (refl, tt))), (refl, (refl, (refl, tt))));
  both_filled = (tt, tt);
  tight = refl;
  source = (0, refl);
  destination = (1, refl);
}

second_fits : IsReadable blank ("srv" ∷ "out" ∷ []) ("out", "out")
unfolding ioproxy.CmdLine.Text.trimmed
second_fits = record {
  no_commas = ((refl, (refl, (refl, tt))), (refl, (refl, (refl, tt))));
  both_filled = (tt, tt);
  tight = refl;
  source = (1, refl);
  destination = (1, refl);
}

init-given_example :
    (d : AppContext (IoOptions String)) × (init blank numbers
        (io_arguments givens (connect_arguments links))
        (record { handlers = [] })
      ≡ (d, none))
    × ((i : ℕ)
        → get_elem? d.handlers i
          ≡ Option.map (wired blank numbers givens links i) (get_elem? givens i))
init-given_example =
    init-given blank numbers givens links (((refl, (refl, (refl, (refl, tt)))), tt), (tt, tt))
      (first_fits, (second_fits, tt))

-- A line of which the second connection leads nowhere.
abbrev broken : List String
broken = "-io" ∷ "stdout" ∷ "-name" ∷ "out" ∷ "-connect" ∷ "out,out" ∷ "-connect" ∷ "out,lost" ∷ []

-- The handler after that line.
abbrev looped : IoHandler (IoOptions String)
looped = record { unique_name = "out"; options = IoOptions.std_out; targets = 0 ∷ [] }

-- The state lists the positions that were written to.
abbrev note : ℕ → DataPack → List ℕ → List ℕ
note i p w = i ∷ w

looped_found :
    get_elem? (init blank numbers broken (record { handlers = [] })).0.handlers 0 ≡ some looped
unfolding init ioproxy.CmdLine.Text.trimmed ioproxy.Legacy.Options.kind_of
    ioproxy.Legacy.Options.set_options
looped_found = refl

init-write_to_example :
    on_new_data note 0
      (init blank numbers broken (record { handlers = [] })).0
      (pack_of (7 ∷ []))
      []
    ≡ write_to note (0 ∷ []) (pack_of (7 ∷ [])) []
init-write_to_example =
    init-write_to blank numbers note broken 0 looped (pack_of (7 ∷ [])) [] looped_found
