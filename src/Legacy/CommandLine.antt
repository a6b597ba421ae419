-- ===== src/Legacy/CommandLine.antt =====
-- legacy/CommandLineInitializer.hpp: the walk of `init` over the arguments, and its connections. The
-- arguments behind `m_index` are a list here.
pub mod Connections
pub mod Lines
pub mod RoundTrip
pub mod Delivery
use ioproxy.Base.{
  String, Bool, true, false, ◌&&◌, Option, none, some, List, [], ◌∷◌, ◌++◌, if◌then◌else◌, str_eq,
}
use ioproxy.CmdLine.Text.{Spaces, cut_at_equals, split_commas, trimmed}
use ioproxy.Base.Maps.{insert_multi}
use ioproxy.Legacy.Context.{AppContext, find_handler_by_id, add, add_target}
use ioproxy.Legacy.Options.{Parameters, Conversions, IoOptions, Kind, kind_of, set_options}

-- `ioHandler`, before it is in the context.
pub record Making : Type 0 where
  pub kind : Kind
  pub unique_name : String

-- The locals of `init`, and the context.
pub record Reading (Address : Type 0) : Type 0 where
  pub io_handler : Option Making
  pub params : Parameters
  pub connections : List String
  pub context : AppContext (IoOptions Address)

-- Why `init` returned false, by the message.
pub data Failure : Type 0 where
  missing_type unknown_type missing_name empty_parameter missing_connect : Failure
  unknown_io : String → Failure

-- How one pass of the loop ends: its `next(val)` was not called, or gave an argument; or it returned false.
pub data Turn (Address : Type 0) : Type 0 where
  passes takes : Reading Address → Turn Address
  fails : Failure → Reading Address → Turn Address

unfoldable pub insert_parameter : String → Parameters → Parameters
unfolding cut_at_equals insert_multi
insert_parameter val params = elim (cut_at_equals val) [
  | none ↦ insert_multi val "true" params
  | some (key, value) ↦ insert_multi key value params
]

abbrev pub has_handler : Option Making → Bool
has_handler none = false
has_handler (some h) = true

module _ {Address : Type 0} where
  abbrev pub set_unique_name : String → Reading Address → Reading Address
  set_unique_name val r = elim r.io_handler [
    | none ↦ r
    | some h ↦ record r { io_handler = some (record h { unique_name = val }) }
  ]

  abbrev pub nothing_read : AppContext (IoOptions Address) → Reading Address
  nothing_read context = record {
    io_handler = none;
    params = [];
    connections = [];
    context = context;
  }

module _ {Address : Type 0} (c : Conversions Address) where
  -- The lambda `add2context`.
  unfoldable pub add2context : Reading Address → Reading Address
  unfolding add
  add2context r = elim r.io_handler [
    | none ↦ r
    | some h ↦ record r {
      context =
          add
            (record {
              unique_name = h.unique_name;
              options = set_options c h.kind r.params;
              targets = [];
            })
            r.context;
      params = [];
      io_handler = none;
    }
  ]

module _ {Address : Type 0} (is_space : Spaces) (c : Conversions Address) where
  -- The body of `while (next(val))`, where the second argument is what another `next(val)` gives.
  unfoldable pub turn : String → Option String → Reading Address → Turn Address
  unfolding add2context insert_parameter
  turn val following r =
      if str_eq val "-io"
      then elim following [
        | none ↦ Turn.fails missing_type (add2context c r)
        | some v ↦ elim (kind_of v) [
          | none ↦ Turn.fails unknown_type (add2context c r)
          | some k ↦ Turn.takes (record (add2context c r) {
            io_handler = some (record { kind = k; unique_name = "" });
          })
        ]
      ]
      else if str_eq val "-name" && has_handler r.io_handler
      then elim following [
        | none ↦ Turn.fails missing_name r
        | some v ↦ Turn.takes (set_unique_name v r)
      ]
      else if str_eq val "-p" && has_handler r.io_handler
      then elim following [
        | none ↦ Turn.fails empty_parameter r
        | some v ↦ Turn.takes (record r { params = insert_parameter v r.params })
      ]
      else if str_eq val "-connect"
      then elim following [
        | none ↦ Turn.fails missing_connect r
        | some v ↦
            Turn.takes (record r { connections = r.connections ++ (trimmed is_space v ∷ []) })
      ]
      else Turn.passes r

  -- `while (next(val))`, and the last `add2context()`.
  unfoldable pub read : List String → Reading Address → Reading Address × Option Failure
  unfolding turn
  read [] r = (add2context c r, none)
  read (val ∷ []) r = elim (turn val none r) [
    | Turn.passes s ↦ (add2context c s, none)
    | Turn.takes s ↦ (add2context c s, none)
    | Turn.fails f s ↦ (s, some f)
  ]
  read (val ∷ v ∷ rest) r = elim (turn val (some v) r) [
    | Turn.passes s ↦ read (v ∷ rest) s
    | Turn.takes s ↦ read rest s
    | Turn.fails f s ↦ (s, some f)
  ]

module _ {O : Type 0} where
  abbrev pub connect_parts : List String → AppContext O → AppContext O × Option Failure
  connect_parts (source ∷ destination ∷ []) c = elim (find_handler_by_id source c) [
    | none ↦ (c, some (unknown_io source))
    | some i ↦ elim (find_handler_by_id destination c) [
      | none ↦ (c, some (unknown_io destination))
      | some j ↦ (add_target i j c, none)
    ]
  ]
  connect_parts _ c = (c, none)

  -- The loop over the connections.
  unfoldable pub connect_all : List String → AppContext O → AppContext O × Option Failure
  unfolding split_commas find_handler_by_id add_target
  connect_all [] c = (c, none)
  connect_all (str ∷ connections) c =
      let (d, failure) = connect_parts (split_commas str) c in
      elim failure [ none ↦ connect_all connections d | some f ↦ (d, some f) ]

module _ {Address : Type 0} (is_space : Spaces) (c : Conversions Address) where
  -- `none` for the result true.
  unfoldable pub init :
      List String → AppContext (IoOptions Address) → AppContext (IoOptions Address) × Option Failure
  unfolding read connect_all
  init args context =
      let (r, failure) = read is_space c args (nothing_read context) in
      elim failure [ none ↦ connect_all r.connections r.context | some f ↦ (r.context, some f) ]
