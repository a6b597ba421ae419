-- ===== src/CmdLine/Reading.antt =====
-- src/ioproxy-cli/src/CmdLineConfig.cpp: a command line as a recursion on its arguments.
use ioproxy.Base.{
  String, Bool, ◌&&◌, ◌||◌, Option, none, some, List, [], ◌∷◌, ◌++◌, str_eq, if◌then◌else◌,
  Expected, ok, err, missing_connect_value, bad_connect_syntax,
}
use ioproxy.CmdLine.Text.{split_commas, trimmed, Spaces}
use ioproxy.CmdLine.{IoConfig, is_some, set_parameter}

-- What a run has collected: the IO that is being read, the IOs and the connections.
pub record Collected : Type 0 where
  pub io_config : Option IoConfig
  pub ios : List IoConfig
  pub connections : List (String × String)

-- What an argument is when it is read as an option.
pub data Word : Type 0 where
  opens names sets connects skips : Word

abbrev pub word : String → Bool → Word
word v reading =
    if str_eq v "-io"
    then opens
    else if (str_eq v "-name" || str_eq v "-id") && reading
    then names
    else if str_eq v "-p" && reading
    then sets
    else if str_eq v "-connect"
    then connects
    else skips

abbrev pub close : Collected → Collected
close a = elim a.io_config [
  | none ↦ a
  | some c ↦ record a { ios = a.ios ++ (c ∷ []); io_config = none }
]

abbrev pub with_io : (IoConfig → IoConfig) → Collected → Collected
with_io f a = elim a.io_config [ none ↦ a | some c ↦ record a { io_config = some (f c) } ]

abbrev pub join : Spaces → String → Collected → Expected Collected
join is_space v a = elim (split_commas v) [
  | source ∷ destination ∷ [] ↦ ok (record a {
    connections = a.connections ++ ((trimmed is_space source, trimmed is_space destination) ∷ []);
  })
  | _ ↦ err bad_connect_syntax
]

abbrev pub opened : String → IoConfig
opened w = record { id = ""; type = w; parameters = [] }

-- The recursion: an option takes the argument behind it, whatever that is; at the end of the line an
-- option without its value is ignored, but for `-connect`.
unfoldable pub parse : Spaces → List String → Collected → Expected Collected
parse is_space [] a = ok (close a)
parse is_space (v ∷ []) a = elim (word v (is_some a.io_config)) [
  | connects ↦ err missing_connect_value
  | _ ↦ ok (close a)
]
parse is_space (v ∷ w ∷ rest) a = elim (word v (is_some a.io_config)) [
  | opens ↦ parse is_space rest (record (close a) { io_config = some (opened w) })
  | names ↦ parse is_space rest (with_io (λ c. record c { id = w }) a)
  | sets ↦ parse is_space rest (with_io (set_parameter w) a)
  | connects ↦ elim (join is_space w a) [ err e ↦ err e | ok b ↦ parse is_space rest b ]
  | skips ↦ parse is_space (w ∷ rest) a
]
