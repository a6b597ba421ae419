-- ===== src/CmdLine/RoundTrip.antt =====
-- src/ioproxy-cli/src/CmdLineConfig.cpp: every configuration can be written as a command line.

use mathlib.Core.List.{append_assoc, append-nil}
use ioproxy.Base.{
  ℕ, ◌<◌, ◌≡◌, refl, sym, ap, ◌∙◌, String, false, some, List, [], ◌∷◌, ◌++◌, length, map, All,
  arith, Expected, ok, err,
}
use ioproxy.Base.Variant.{text}
use ioproxy.Params.{IoParams}
use ioproxy.CmdLine.Text.{trimmed, Spaces}
use ioproxy.CmdLine.Glue.{glue, Lacks, IsFilled, cut_at_equals-glue, split_commas-glue}
use ioproxy.CmdLine.{IoConfig, CmdLineConfig, set_parameter, from_arguments}
use ioproxy.CmdLine.Reading.{Collected, skips, word, close, parse}
use ioproxy.CmdLine.Turns.{collected}
use ioproxy.CmdLine.Walk.{nothing_yet, from_arguments-parse}

-- The name of an IO that `-connect` can carry.
pub record IsPlain (is_space : Spaces) (s : String) : Type 0 where
  pub no_comma : Lacks b',' s
  pub filled : IsFilled s
  pub tight : trimmed is_space s ≡ s

-- An IO as a user gives it, its parameters in the order of the line.
pub record Given : Type 0 where
  pub id : String
  pub type : String
  pub pairs : List (String × String)

abbrev pub insert_pairs : List (String × String) → IoParams → IoParams
insert_pairs [] m = m
insert_pairs ((k, v) ∷ pairs) m = insert_pairs pairs ((k, text v) ∷ m)

abbrev pub config_of : Given → IoConfig
config_of g = record { id = g.id; type = g.type; parameters = insert_pairs g.pairs [] }

abbrev pub pair_arguments : List (String × String) → List String → List String
pair_arguments [] rest = rest
pair_arguments ((k, v) ∷ pairs) rest = "-p" ∷ glue k (glue "=" v) ∷ pair_arguments pairs rest

abbrev pub io_arguments : List Given → List String → List String
io_arguments [] rest = rest
io_arguments (g ∷ gs) rest =
    "-io" ∷ g.type ∷ "-name" ∷ g.id ∷ pair_arguments g.pairs (io_arguments gs rest)

abbrev pub connect_arguments : List (String × String) → List String
connect_arguments [] = []
connect_arguments ((a, b) ∷ links) = "-connect" ∷ glue a (glue "," b) ∷ connect_arguments links

set_parameter-glue :
    (k v : String) (c : IoConfig)
    → Lacks b'=' k
    → set_parameter (glue k (glue "=" v)) c ≡ record c { parameters = (k, text v) ∷ c.parameters }
unfolding set_parameter
set_parameter-glue k v c h = rw (cut_at_equals-glue k v h, set_parameter)

close-connections : (a : Collected) → (close a).connections ≡ a.connections
close-connections a = ground arith

close-ios :
    (a : Collected) (links : List (String × String))
    → (close (record a { connections = links })).ios ≡ (close a).ios
close-ios a links = ground arith

ok-injective : (a b : Collected) → ok a ≡ ok b → a ≡ b
ok-injective a b e = cc

module _ (is_space : Spaces) where
  parse-pairs :
      (pairs : List (String × String)) (rest : List String) (c : IoConfig) (ios : List IoConfig)
      (links : List (String × String))
      → All (λ p. Lacks b'=' p.0) pairs
      → parse is_space
          (pair_arguments pairs rest)
          (record { io_config = some c; ios = ios; connections = links })
        ≡ parse is_space rest (record {
          io_config = some (record c { parameters = insert_pairs pairs c.parameters });
          ios = ios;
          connections = links;
        })
  unfolding parse
  parse-pairs [] rest c ios links h = refl
  parse-pairs ((k, v) ∷ pairs) rest c ios links h =
      rw (set_parameter-glue k v c h.0) (
        parse-pairs pairs rest (record c { parameters = (k, text v) ∷ c.parameters }) ios links h.1)

  abbrev AllPairs : List Given → Type 0
  AllPairs = All (λ g. All (λ p. Lacks b'=' p.0) g.pairs)

  -- After the arguments of some IOs: those before the last are complete, and the last is open.
  parse-ios :
      (gs : List Given) (rest : List String) (a : Collected)
      → AllPairs gs
      → (b : Collected) × (parse is_space (io_arguments gs rest) a ≡ parse is_space rest b)
        × ((close b).ios ≡ (close a).ios ++ map config_of gs)
        × (b.connections ≡ a.connections)
  unfolding parse
  parse-ios [] rest a h = (a, refl, sym (append-nil (close a).ios), refl)
  parse-ios (g ∷ gs) rest a h =
      let c : Collected = record (close a) { io_config = some (config_of g) } in
      let (b, e, i, l) = parse-ios gs rest c h.1 in
      (
        b,
        parse-pairs g.pairs (io_arguments gs rest) (opened_as g) (close a).ios (close a).connections
              h.0
            ∙ e,
        i ∙ append_assoc (close a).ios (config_of g ∷ []) (map config_of gs),
        l ∙ close-connections a,
      )
    where
      opened_as : Given → IoConfig
      opened_as x = record { id = x.id; type = x.type; parameters = [] }

  -- The program's own path is no option.
  parse-program :
      (program : String) (rest : List String)
      → word program false ≡ skips
      → parse is_space (program ∷ rest) nothing_yet ≡ parse is_space rest nothing_yet
  unfolding parse
  parse-program program [] w = rw (w, parse)
  parse-program program (v ∷ rest) w = rw (w, parse)

  -- What closing the open IO gives, with some connections.
  closed_with : Collected → List (String × String) → Expected Collected
  closed_with a links = ok (close (record a { connections = links }))

  parse-connects :
      (links : List (String × String)) (a : Collected)
      → All (λ l. IsPlain is_space l.0 × IsPlain is_space l.1) links
      → parse is_space (connect_arguments links) a ≡ closed_with a (a.connections ++ links)
  unfolding parse closed_with
  parse-connects [] a h = ap (closed_with a) (sym (append-nil a.connections))
  parse-connects ((x, y) ∷ links) a h =
      rw
        (
          split_commas-glue x y (h.0.0).no_comma (h.0.1).no_comma (h.0.0).filled (h.0.1).filled,
          parse,
        )
        (rw ((h.0.0).tight, (h.0.1).tight)
          (parse-connects links (record a { connections = a.connections ++ ((x, y) ∷ []) }) h.1
            ∙ ap (closed_with a) (append_assoc a.connections ((x, y) ∷ []) links)))

  -- A command line made of some IOs, with their names and parameters, and of some connections reads
  -- as just those: the parameters of each IO with the one given last in front. The keys have no equals
  -- sign, the names in connections are not empty, and have no comma and no spaces at their ends, and
  -- the program's own path is not an option.
  pub from_arguments-given :
      (fuel : ℕ) (program : String) (gs : List Given) (links : List (String × String))
      → word program false ≡ skips
      → AllPairs gs
      → All (λ l. IsPlain is_space l.0 × IsPlain is_space l.1) links
      → length (program ∷ io_arguments gs (connect_arguments links)) < fuel
      → (s : CmdLineConfig) × (from_arguments is_space fuel
            (program ∷ io_arguments gs (connect_arguments links))
          ≡ some (ok s))
        × (s.ios ≡ map config_of gs)
        × (s.connections ≡ links)
  unfolding closed_with
  from_arguments-given fuel program gs links w hp hl h =
      let (b, e, i, l) = parse-ios gs (connect_arguments links) nothing_yet hp in
      let (r, run, agree) =
        from_arguments-parse is_space fuel (program ∷ io_arguments gs (connect_arguments links))
          h in
      finish r run b
        (agree
          ∙ (parse-program program _ w
              ∙ (e ∙ (parse-connects links b hl ∙ ap (λ c. closed_with b (c ++ links)) l))))
        i
    where
      finish :
          (r : Expected CmdLineConfig)
          → from_arguments is_space fuel (program ∷ io_arguments gs (connect_arguments links))
            ≡ some r
          → (b : Collected) → collected r ≡ closed_with b links
          → (close b).ios ≡ map config_of gs
          → (s : CmdLineConfig) × (from_arguments is_space fuel
                (program ∷ io_arguments gs (connect_arguments links))
              ≡ some (ok s))
            × (s.ios ≡ map config_of gs)
            × (s.connections ≡ links)
      finish (err x) run b q i = cc
      finish (ok s) run b q i =
          let e = ok-injective _ _ q in
          (
            s,
            run,
            ap (λ c. c.ios) e ∙ (close-ios b links ∙ i),
            ap (λ c. c.connections) e ∙ close-connections (record b { connections = links }),
          )
