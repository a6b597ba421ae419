-- ===== src/Tests/Wirings.antt =====
-- Runs of what the console application builds from a command line.
use ioproxy.Base.{
  ℕ, ◌+◌, ◌≡◌, ◌≢◌, refl, String, true, false, some, List, [], ◌∷◌, ◌==◌, str_eq, eq_iff, sym, ap,
  ◌∙◌, length, map, arith, if◌then◌else◌,
}
use ioproxy.Base.Maps.{values}
use ioproxy.Params.{IoParams}
use ioproxy.Factory.{done}
use ioproxy.Factory.Builtin.{Kind, echo, get_id}
use ioproxy.Io.{Io, Signal}
use ioproxy.CmdLine.{IoConfig}
use ioproxy.CmdLine.RoundTrip.{config_of, io_arguments, connect_arguments}
use ioproxy.Engine.{Engine, add_io}
use ioproxy.Handler.{new_handler}
use ioproxy.Factory.Builtin.{HasRemotes}
use ioproxy.Application.{World, Fuel, Loader, echo_plugin, start, prepare, create_io}
use ioproxy.Application.Result.{Run}
use ioproxy.Application.Launching.{start-done}
use ioproxy.Engine.Names.{names}
use ioproxy.Base.Int.{pos}
use ioproxy.Tests.Lines.{blank, givens, links, keys_fit, names_fit}
use ioproxy.Tests.Creations.{plain}

abbrev same_text : String → String
same_text s = s

-- Every IO is a number that its factory makes.
abbrev make : String → IoParams → Run ℕ
make factory params = some (done (length params))

abbrev quiet : Io ℕ
quiet = record {
  start = λ s. (s, Signal.started ∷ []);
  stop = λ s. (s, []);
  write_data = λ p s. (s + 1, []);
}

abbrev one_factory : Engine String ℕ
one_factory = record {
  io_factories = ("tcp", "tcp") ∷ [];
  handlers = [];
  links = [];
  started = false;
}

abbrev two_ios : List IoConfig
two_ios =
    record { id = "a"; type = "tcp"; parameters = [] }
    ∷ record { id = "b"; type = "tcp"; parameters = [] }
    ∷ []

abbrev both_ways : List (String × String)
both_ways = ("a", "b") ∷ ("b", "a") ∷ []

-- A folder with the echo plugin and another file.
abbrev folder : Loader
folder = record {
  files = "echo-plugin.ioplugin.dll" ∷ "readme" ∷ [];
  is_plugin = λ f. str_eq f "echo-plugin.ioplugin.dll";
  load = λ f. true;
  instance_of = λ f. some echo_plugin;
  error_string = λ f. "";
}

abbrev console : World String String ℕ
console = record {
  is_space = blank;
  parse_address = same_text;
  parse_url = same_text;
  conversions = plain;
  fold_case = same_text;
  loader = folder;
  construct = λ c. 0;
  io = quiet;
}

abbrev fuel : Fuel
fuel = record { walk = 20; remotes = 1; depth = 2 }

-- The engine before its start: the server, the output, and the link between them.
abbrev before : Engine Kind ℕ
before = record {
  io_factories =
      ("bytes_generator", Kind.byte_generator)
      ∷ ("serialport", Kind.serial_port)
      ∷ ("stdout", Kind.std_out)
      ∷ ("tcpsocket", Kind.tcp_socket)
      ∷ ("tcpserver", Kind.tcp_server)
      ∷ ("udpsocket", Kind.udp_socket)
      ∷ ("websocket", Kind.web_socket)
      ∷ ("websocketserver", Kind.web_socket_server)
      ∷ ("echo", Kind.echo)
      ∷ [];
  handlers = new_handler "srv" 0 ∷ new_handler "out" 0 ∷ [];
  links = (0, 1) ∷ [];
  started = false;
}

prepared : prepare console fuel (map config_of givens) links ≡ some (done before)
unfolding prepare create_io ioproxy.Engine.Registry.find_factory_by_id
    ioproxy.Factory.Builtin.create ioproxy.Factory.TcpServer.create
    ioproxy.Params.check_required_parameters ioproxy.Factory.TcpServer.factory
    ioproxy.Params.get_para_value ioproxy.Params.para_def values add_io
    ioproxy.Engine.add_connection
prepared = refl

fits :
    (id : String) (params : IoParams)
    → str_eq "udpsocket" id ≡ false
    → values "remote_address" params ≡ []
    → values "remote_port" params ≡ []
    → (k : Kind) → get_id k ≡ id
    → HasRemotes same_text same_text plain 1 k params
unfolding get_id
fits id params apart addresses ports k e = record {
  given = λ q.
      let x : "udpsocket" ≡ id = sym (ap get_id q) ∙ e in
      let same = (eq_iff "udpsocket" id).1 x in cc;
  addresses_fit = rw addresses (omega arith);
  ports_fit = rw ports (omega arith);
  enough = rw addresses (omega arith);
}

-- A folder with no plugin.
abbrev bare_console : World String String ℕ
bare_console = record console { loader = record folder { files = "readme" ∷ [] } }

server_apart : Kind.tcp_server ≢ echo
unfolding get_id
server_apart q =
    let x : "tcpserver" ≡ "echo" = ap get_id q in let same = (eq_iff "tcpserver" "echo").1 x in cc

output_apart : Kind.std_out ≢ echo
unfolding get_id
output_apart q =
    let x : "stdout" ≡ "echo" = ap get_id q in let same = (eq_iff "stdout" "echo").1 x in cc

start-done_example :
    (e : Engine Kind ℕ) × (start bare_console fuel
        ("ioproxy" ∷ io_arguments givens (connect_arguments links))
      ≡ some (
          done (
            e,
            record {
              running = true;
              previous_statistic = record { bytes_read = 0; bytes_written = 0 };
              previous_timestamp = pos 0;
            },
          )))
    × (names e.handlers ≡ "srv" ∷ "out" ∷ [])
    × (e.links ≡ (0, 1) ∷ [])
    × (e.started ≡ true)
unfolding values get_id
start-done_example =
    start-done bare_console fuel (λ i. if i == 0 then 1 else 0) "ioproxy" givens links ((0, 1) ∷ [])
      refl keys_fit (names_fit, tt) (omega arith) (refl, tt)
      (
        (
          Kind.tcp_server,
          _,
          refl,
          server_apart,
          fits "tcpserver" _ refl refl refl Kind.tcp_server refl,
          refl,
        ),
        (
          (
            Kind.std_out,
            _,
            refl,
            output_apart,
            fits "stdout" _ refl refl refl Kind.std_out refl,
            refl,
          ),
          tt,
        ),
      )
      (refl, refl, tt) (λ i. ground arith) (omega arith, tt)
