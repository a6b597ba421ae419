-- ===== src/Factory/Builtin.antt =====
-- src/ioproxy/io/*Factory and src/echo-plugin: the factories behind one interface, as `IOFactoryBase`
-- has it. Virtual dispatch is a match on the kind.
use ioproxy.Base.{
  ℕ, ◌^◌, ◌<◌, ◌≡◌, ◌≢◌, refl, ap, String, Option, none, some, [], length, Expected, ok, err,
}
use ioproxy.Base.Maps.{values}
use ioproxy.Base.Variant.{Conversions}
use ioproxy.Params.{IoParams, FactoryBase, empty_base, check_required_parameters}
use ioproxy.Factory.{Outcome, done, failed, thrown, ◌>>=◌, check}
use ioproxy.Factory.TcpSocket
use ioproxy.Factory.TcpServer
use ioproxy.Factory.UdpSocket
use ioproxy.Factory.UdpRemotes
use ioproxy.Factory.WebSocket
use ioproxy.Factory.WebSocketServer
use ioproxy.Factory.SerialPort
use ioproxy.Factory.ByteGenerator

-- The subclasses of `IOFactoryBase`; `echo` comes with the plugin.
pub data Kind : Type 0 where
  byte_generator serial_port std_out tcp_socket tcp_server udp_socket : Kind
  web_socket web_socket_server echo : Kind

-- `getID`
unfoldable pub get_id : Kind → String
get_id byte_generator = "bytes_generator"
get_id serial_port = "serialport"
get_id std_out = "stdout"
get_id tcp_socket = "tcpsocket"
get_id tcp_server = "tcpserver"
get_id udp_socket = "udpsocket"
get_id web_socket = "websocket"
get_id web_socket_server = "websocketserver"
get_id echo = "echo"

-- The parameter definitions, as the constructors leave them.
unfoldable pub definitions : Kind → FactoryBase
definitions byte_generator = ByteGenerator.factory
definitions serial_port = SerialPort.factory
definitions std_out = empty_base
definitions tcp_socket = TcpSocket.factory
definitions tcp_server = TcpServer.factory
definitions udp_socket = UdpSocket.factory
definitions web_socket = WebSocket.factory
definitions web_socket_server = WebSocketServer.factory
definitions echo = empty_base

-- What a `create` makes: an IO of its class with its options.
pub data Created (Address Url : Type 0) : Type 0 where
  byte_generator_io : ByteGenerator.Options → Created Address Url
  serial_port_io : SerialPort.Options → Created Address Url
  std_out_io : Created Address Url
  tcp_socket_io : TcpSocket.Options Address → Created Address Url
  tcp_server_io : TcpServer.Options Address → Created Address Url
  udp_socket_io : UdpSocket.Options Address → Created Address Url
  web_socket_io : WebSocket.Options Url → Created Address Url
  web_socket_server_io : WebSocketServer.Options Address → Created Address Url
  echo_io : Created Address Url

abbrev made {ℓ κ} : {A : Type ℓ} {B : Type κ} → (A → B) → Outcome A → Outcome B
made f o = o >>= λ a. done (f a)

module _ {Address Url : Type 0} (parse_address : String → Address) (parse_url : String → Url)
    (c : Conversions) where
  -- `create`. The fuel is that of the loop in the UDP factory; `none` means that it ran out.
  unfoldable pub create : ℕ → Kind → IoParams → Option (Outcome (Created Address Url))
  create fuel byte_generator params = some (made byte_generator_io (ByteGenerator.create c params))
  create fuel serial_port params = some (made serial_port_io (SerialPort.create c params))
  create fuel std_out params = some (done std_out_io)
  create fuel tcp_socket params =
      some (made tcp_socket_io (TcpSocket.create parse_address c params))
  create fuel tcp_server params =
      some (made tcp_server_io (TcpServer.create parse_address c params))
  create fuel udp_socket params = elim (UdpSocket.create parse_address c fuel params) [
    | none ↦ none
    | some made_options ↦ some (made udp_socket_io made_options)
  ]
  create fuel web_socket params = some (made web_socket_io (WebSocket.create parse_url c params))
  create fuel web_socket_server params =
      some (made web_socket_server_io (WebSocketServer.create parse_address c params))
  create fuel echo params = some (done echo_io)

  abbrev pub meaning_remotes : IoParams → Outcome (UdpSocket.Remotes parse_address c)
  meaning_remotes params =
      UdpRemotes.pair_hosts parse_address c (values "remote_address" params)
        (UdpRemotes.ports_for parse_address c (length (values "remote_address" params))
          (values "remote_port" params))
        0

  -- What the options of a kind are, by the parameters; `udp_socket` is treated apart.
  abbrev pub meaning : Kind → IoParams → Outcome (Created Address Url)
  meaning byte_generator params = done (byte_generator_io (ByteGenerator.options c params))
  meaning serial_port params = done (serial_port_io (SerialPort.options c params))
  meaning std_out params = done std_out_io
  meaning tcp_socket params = done (tcp_socket_io (TcpSocket.options parse_address c params))
  meaning tcp_server params = done (tcp_server_io (TcpServer.options parse_address c params))
  meaning udp_socket params = meaning_remotes params >>= λ remotes.
      done (udp_socket_io (UdpRemotes.options parse_address c params remotes))
  meaning web_socket params = done (web_socket_io (WebSocket.options parse_url c params))
  meaning web_socket_server params =
      done (web_socket_server_io (WebSocketServer.options parse_address c params))
  meaning echo params = done echo_io

  -- The parameters that the UDP factory's loop needs to end.
  pub record HasRemotes (fuel : ℕ) (k : Kind) (params : IoParams) : Type 0 where
    pub given : k ≡ udp_socket → values "remote_address" params ≢ []
    pub addresses_fit : length (values "remote_address" params) < 2 ^ 32
    pub ports_fit : length (values "remote_port" params) < 2 ^ 32
    pub enough : length (values "remote_address" params) < fuel

  made-check {ℓ} :
      {A : Type ℓ} (f : A → Created Address Url) (m : Expected (Unit {0})) (a : A)
      → made f (check m >>= λ _. done a) ≡ (check m >>= λ _. done (f a))
  made-check f (ok tt) a = refl
  made-check f (err e) a = refl

  made-bind {ℓ κ} :
      {A : Type ℓ} {B : Type κ} (f : B → Created Address Url) (m : Outcome A) (g : A → B)
      → made f (m >>= λ a. done (g a)) ≡ (m >>= λ a. done (f (g a)))
  made-bind f (done a) g = refl
  made-bind f (failed e) g = refl
  made-bind f (thrown e) g = refl

  optional_only :
      (params : IoParams)
      → (check_required_parameters ByteGenerator.factory params ≡ ok tt)
        × (check_required_parameters WebSocketServer.factory params ≡ ok tt)
        × (check_required_parameters UdpSocket.factory params ≡ ok tt)
        × (check_required_parameters empty_base params ≡ ok tt)
  unfolding check_required_parameters ByteGenerator.factory WebSocketServer.factory
      UdpSocket.factory
  optional_only params = (refl, refl, refl, refl)

  -- A creation checks the required parameters and then reads the options.
  pub create-meaning :
      (fuel : ℕ) (k : Kind) (params : IoParams)
      → HasRemotes fuel k params
      → create fuel k params
        ≡ some (check (check_required_parameters (definitions k) params) >>= λ _. meaning k params)
  unfolding create definitions
  create-meaning fuel byte_generator params h =
      rw (ByteGenerator.create-options c params, (optional_only params).0)
  create-meaning fuel serial_port params h =
      rw (SerialPort.create-options c params) (ap some (made-check serial_port_io _ _))
  create-meaning fuel std_out params h = rw (optional_only params).3
  create-meaning fuel tcp_socket params h =
      rw (TcpSocket.create-options parse_address c params) (ap some (made-check tcp_socket_io _ _))
  create-meaning fuel tcp_server params h =
      rw (TcpServer.create-options parse_address c params) (ap some (made-check tcp_server_io _ _))
  create-meaning fuel udp_socket params h =
      rw
        (
          UdpRemotes.create-pair_hosts parse_address c fuel params (h.given refl) h.addresses_fit
              h.ports_fit h.enough,
          (optional_only params).2,
          create,
        )
        (ap some (made-bind udp_socket_io (meaning_remotes params) _))
  create-meaning fuel web_socket params h =
      rw (WebSocket.create-options parse_url c params) (ap some (made-check web_socket_io _ _))
  create-meaning fuel web_socket_server params h =
      rw (WebSocketServer.create-options parse_address c params, (optional_only params).1)
  create-meaning fuel echo params h = rw (optional_only params).3
