-- ===== src/Application.antt =====
-- src/ioproxy-cli/src/IOProxyConsoleApplication.cpp and Main.cpp: from the arguments to a running
-- engine. The plugin loader, the constructors of the IOs and Qt's event loop are parameters.
pub mod Result
pub mod Wiring
pub mod Launching
use ioproxy.Base.{
  ℕ, String, Bool, true, false, Option, none, some, List, [], ◌∷◌, cannot_load_plugin,
  cannot_access_plugin,
}
use ioproxy.Base.Variant.{Conversions}
use ioproxy.Params.{IoParams}
use ioproxy.Factory.{done, failed, thrown}
use ioproxy.Factory.Builtin
use ioproxy.Factory.Builtin.{Kind, get_id, Created}
use ioproxy.Io.{Io}
use ioproxy.CmdLine.{IoConfig, from_arguments}
use ioproxy.CmdLine.Text.{Spaces}
use ioproxy.Engine
use ioproxy.Engine.{Engine, add_io, add_connection}
use ioproxy.Engine.Registry.{Factories, find_factory_by_id, register_all, register_built_in}
use ioproxy.Util.OsSignal.{OsSignal}
use ioproxy.Util.Status
use ioproxy.Util.Status.{Printer, new_printer}
use Result.{Run, ◌>>=◌, expected, ends}

module _ {F S : Type 0} (id_of : F → String) (create : F → IoParams → Run S) (io : Io S)
    (fuel : ℕ) where
  -- The loop over `config.ios()`.
  unfoldable pub register_ios : List IoConfig → Engine F S → Run (Engine F S)
  register_ios [] e = some (done e)
  register_ios (c ∷ cs) e = do
    f ← expected (find_factory_by_id id_of e.io_factories c.type)
    s ← create f c.parameters
    e' ← ends (add_io io fuel c.id s e)
    register_ios cs e'

module _ {F S : Type 0} (fold_case : String → String) where
  -- The loop over `config.connections()`.
  unfoldable pub connect_all : List (String × String) → Engine F S → Run (Engine F S)
  connect_all [] e = some (done e)
  connect_all ((src, dst) ∷ rest) e = do
    e' ← expected (add_connection fold_case e src dst)
    connect_all rest e'

module _ {F S : Type 0} (id_of : F → String) (create : F → IoParams → Run S)
    (fold_case : String → String) (io : Io S) (fuel : ℕ) where
  -- Both loops.
  unfoldable pub set_up : List IoConfig → List (String × String) → Engine F S → Run (Engine F S)
  unfolding register_ios connect_all
  set_up ios connections e = do
    e' ← register_ios id_of create io fuel ios e
    connect_all fold_case connections e'

-- `PluginAPI`. The factories of a plugin are some of those of the repository.
pub record Plugin : Type 0 where
  pub id : String
  pub description : String
  pub author : String
  pub io_factories : List Kind

-- `EchoPlugin` of src/echo-plugin.
abbrev pub echo_plugin : Plugin
echo_plugin = record {
  id = "EchoPlugin";
  description = "Acts as example.";
  author = "Manuel Freiholz";
  io_factories = Kind.echo ∷ [];
}

-- `QDir` and `QPluginLoader`: the files beside the program, whether a name ends as that of a plugin
-- does, whether a file loads, its plugin, if it has one, and the text of an error.
pub record Loader : Type 0 where
  pub files : List String
  pub is_plugin : String → Bool
  pub load : String → Bool
  pub instance_of : String → Option Plugin
  pub error_string : String → String

module _ (loader : Loader) where
  -- The loop over the files.
  unfoldable pub load_plugins : List String → Factories Kind → Run (Factories Kind)
  load_plugins [] m = some (done m)
  load_plugins (file ∷ rest) m = elim (loader.is_plugin file) [
    | false ↦ load_plugins rest m
    | true ↦ elim (loader.load file) [
      | false ↦ some (failed (cannot_load_plugin (loader.error_string file)))
      | true ↦ elim (loader.instance_of file) [
        | none ↦ some (failed (cannot_access_plugin (loader.error_string file)))
        | some plugin ↦ expected (register_all get_id plugin.io_factories m) >>= load_plugins rest
      ]
    ]
  ]

-- What the application stands on: Qt's spaces and conversions, its addresses, the folding of case,
-- the plugins, the IO that a constructor makes, and how IOs act.
pub record World (Address Url S : Type 0) : Type 0 where
  pub is_space : Spaces
  pub parse_address : String → Address
  pub parse_url : String → Url
  pub conversions : Conversions
  pub fold_case : String → String
  pub loader : Loader
  pub construct : Created Address Url → S
  pub io : Io S

-- The fuel of the walk over the arguments, of a factory's loop, and of the handling of signals.
pub record Fuel : Type 0 where
  pub walk : ℕ
  pub remotes : ℕ
  pub depth : ℕ

module _ {Address Url S : Type 0} (world : World Address Url S) (fuel : Fuel) where
  -- `eFactory.value()->create(configIO.parameters)`.
  unfoldable pub create_io : Kind → IoParams → Run S
  create_io kind params = do
    made ←
        Builtin.create world.parse_address world.parse_url world.conversions fuel.remotes kind
          params
    some (done (world.construct made))

  -- `start` up to the start of the engine, for a parsed command line.
  unfoldable pub prepare : List IoConfig → List (String × String) → Run (Engine Kind S)
  unfolding register_built_in load_plugins set_up create_io
  prepare ios connections = do
    m ← expected (register_built_in [])
    m' ← load_plugins world.loader world.loader.files m
    set_up get_id create_io world.fold_case world.io fuel.depth ios connections
        (record { io_factories = m'; handlers = []; links = []; started = false })

  -- The end of `start`: the engine and the printer of its status start.
  unfoldable pub launch : Engine Kind S → Run (Engine Kind S × Printer)
  unfolding Status.start
  launch e = do
    e' ← ends (Engine.start world.io fuel.depth e)
    some (done (e', Status.start new_printer))

  -- `start`: what it starts, or the reason that `errorOccurred` gives.
  unfoldable pub start : List String → Run (Engine Kind S × Printer)
  unfolding prepare launch
  start arguments = do
    parsed ← ends (from_arguments world.is_space fuel.walk arguments)
    config ← expected parsed
    e ← prepare config.ios config.connections
    launch e

-- `handleSignal`: every signal quits. The answer, and whether `quitted` was emitted.
unfoldable pub handle_signal : OsSignal → Bool → Bool × Bool
handle_signal s quitted = (true, true)

-- `main`: the exit code, if the program ends: 1 for an error of `start`, and 0 when it quits.
unfoldable pub exit_code : {A : Type 0} → Run A → Bool → Option ℕ
exit_code none quitted = none
exit_code (some (done a)) quitted = elim quitted [ true ↦ some 0 | false ↦ none ]
exit_code (some (failed x)) quitted = some 1
exit_code (some (thrown x)) quitted = none
