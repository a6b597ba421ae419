-- ===== src/CmdLine.antt =====
-- src/ioproxy-cli/src/CmdLineConfig.hpp, CmdLineConfig.cpp, Config.hpp and Config.cpp: the
-- configuration that the command line gives. `m_index` counts from -1; `index` here is one more.
pub mod Text
pub mod Reading
pub mod Turns
pub mod Walk
pub mod Glue
pub mod RoundTrip
use ioproxy.Base.{
  ℕ, zero, suc, ◌+◌, String, Bool, true, false, ◌&&◌, ◌||◌, not, Option, none, some, List, [], ◌∷◌,
  ◌++◌, length, ltb, str_eq, if◌then◌else◌, Expected, ok, err, empty_arguments,
  missing_connect_value, bad_connect_syntax,
}
use ioproxy.Base.Maps.{insert_multi}
use ioproxy.Base.Variant.{text}
use ioproxy.Params.{IoParams}
use Text.{cut_at_equals, split_commas, trimmed, Spaces}

-- `Config::IO`
pub record IoConfig : Type 0 where
  pub id : String
  pub type : String
  pub parameters : IoParams

pub record CmdLineConfig : Type 0 where
  pub arguments : List String
  pub index : ℕ
  -- The locals `val` and `ioConfig` of `fromArguments`.
  pub val : String
  pub io_config : Option IoConfig
  pub ios : List IoConfig
  pub connections : List (String × String)

abbrev pub is_some : Option IoConfig → Bool
is_some none = false
is_some (some c) = true

unfoldable pub has_next : CmdLineConfig → Bool
has_next s = ltb s.index (length s.arguments)

-- `m_arguments[i]`
abbrev pub argument_at : List String → ℕ → String
argument_at [] i = ""
argument_at (a ∷ as_) zero = a
argument_at (a ∷ as_) (suc i) = argument_at as_ i

unfoldable pub next : CmdLineConfig → CmdLineConfig × Bool
unfolding has_next
next s =
    if not (has_next s)
    then (record s { val = "" }, false)
    else (record s { val = argument_at s.arguments s.index; index = s.index + 1 }, true)

unfoldable pub peek_next : CmdLineConfig → CmdLineConfig × Bool
unfolding has_next
peek_next s =
    if not (has_next s)
    then (record s { val = "" }, false)
    else (record s { val = argument_at s.arguments s.index }, true)

-- The lambda `add2config`.
unfoldable pub add2config : CmdLineConfig → CmdLineConfig
add2config s = elim s.io_config [
  | none ↦ s
  | some c ↦ record s { ios = s.ios ++ (c ∷ []); io_config = none }
]

abbrev pub change : (IoConfig → IoConfig) → CmdLineConfig → CmdLineConfig
change f s = elim s.io_config [ none ↦ s | some c ↦ record s { io_config = some (f c) } ]

unfoldable pub set_parameter : String → IoConfig → IoConfig
unfolding cut_at_equals insert_multi
set_parameter v c = elim (cut_at_equals v) [
  | none ↦ record c { parameters = insert_multi v (text "true") c.parameters }
  | some (key, value) ↦ record c { parameters = insert_multi key (text value) c.parameters }
]

-- The value of `-connect`.
unfoldable pub connect : Spaces → CmdLineConfig → Expected CmdLineConfig
unfolding split_commas trimmed
connect is_space s = elim (split_commas s.val) [
  | source ∷ destination ∷ [] ↦ ok (record s {
    connections = s.connections ++ ((trimmed is_space source, trimmed is_space destination) ∷ []);
  })
  | _ ↦ err bad_connect_syntax
]

-- The body of `while (next(val))`. A `continue` gives the state as it is.
unfoldable pub turn : Spaces → CmdLineConfig → Expected CmdLineConfig
unfolding next add2config set_parameter connect
turn is_space s =
    if str_eq s.val "-io"
    then (let (s', found) = next (add2config s) in
        ok (
          if found
          then record s' { io_config = some (record { id = ""; type = s'.val; parameters = [] }) }
          else s'))
    else if (str_eq s.val "-name" || str_eq s.val "-id") && is_some s.io_config
    then (let (s', found) = next s in
        ok (if found then change (λ c. record c { id = s'.val }) s' else s'))
    else if str_eq s.val "-p" && is_some s.io_config
    then (let (s', found) = next s in ok (if found then change (set_parameter s'.val) s' else s'))
    else if str_eq s.val "-connect"
    then (let (s', found) = next s in
        if found then connect is_space s' else err missing_connect_value)
    else ok s

-- `while (next(val))`, and the last `add2config()`. `none` means that the fuel ran out.
unfoldable pub loop : Spaces → ℕ → CmdLineConfig → Option (Expected CmdLineConfig)
unfolding turn
loop is_space zero s = none
loop is_space (suc fuel) s =
    let (s', found) = next s in
    elim found [
      | false ↦ some (ok (add2config s'))
      | true ↦ elim (turn is_space s') [ err e ↦ some (err e) | ok s'' ↦ loop is_space fuel s'' ]
    ]

abbrev pub is_empty : List String → Bool
is_empty [] = true
is_empty (a ∷ l) = false

abbrev pub fresh : List String → CmdLineConfig
fresh arguments = record {
  arguments = arguments;
  index = 0;
  val = "";
  io_config = none;
  ios = [];
  connections = [];
}

unfoldable pub from_arguments : Spaces → ℕ → List String → Option (Expected CmdLineConfig)
unfolding loop
from_arguments is_space fuel arguments =
    if is_empty arguments then some (err empty_arguments) else loop is_space fuel (fresh arguments)
