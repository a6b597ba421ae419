-- ===== src/Legacy/Options.antt =====
-- legacy/CommandLineInitializer.hpp: the options of an IO from the parameters of its command line, as
-- setOptions reads them, and what legacy/Factory.cpp shares with it.
use ioproxy.Base.{
  ℕ, zero, suc, ◌*◌, String, Bool, false, not, ◌==◌, Option, none, some, List, [], ◌∷◌, ◌++◌,
  if◌then◌else◌, str_eq,
}
use ioproxy.Base.Int.{ℤ, pos, eq_ℤ}
use ioproxy.Base.Maps.{lookup, values}
use ioproxy.Factory.{to_int32}
use ioproxy.Factory.TcpServer as TcpServer
use ioproxy.Factory.TcpSocket as TcpSocket
use ioproxy.Factory.UdpSocket as UdpSocket
use ioproxy.Device.FileReader as FileReader
use ioproxy.Device.FileWriter as FileWriter

-- `QMultiMap<QString, QString>`, the newest entry of a key first.
abbrev pub Parameters : Type 0
Parameters = List (String × String)

-- `value(key, default)`
unfoldable pub value : String → String → Parameters → String
value key default params = elim (lookup key params) [ none ↦ default | some v ↦ v ]

-- The conversions of `QString` and `QHostAddress`; `at_0` is the first character in Latin-1, if there is one.
pub record Conversions (Address : Type 0) : Type 0 where
  pub to_int : String → ℤ
  pub to_uint : String → ℕ
  pub to_ushort : String → ℕ
  pub number : ℤ → String
  pub at_0 : String → Option ℕ
  pub parse_address : String → Address

-- The enumerations of QSerialPort are the numbers that are cast to them.
pub record SerialOptions : Type 0 where
  pub port_id : String
  pub baudrate : ℤ
  pub databits : ℤ
  pub parity : ℤ
  pub stopbits : ℤ
  pub flow_control : ℕ
  pub break_enabled : Bool
  pub dtr : Bool
  pub rts : Bool

pub data Kind : Type 0 where
  std_out file_writer udp_socket tcp_socket tcp_server serial_port : Kind

-- What an IO is created with.
pub data IoOptions (Address : Type 0) : Type 0 where
  std_out : IoOptions Address
  file_reader : FileReader.Options → IoOptions Address
  file_writer : FileWriter.Options → IoOptions Address
  udp_socket : UdpSocket.Options Address → IoOptions Address
  tcp_socket : TcpSocket.Options Address → IoOptions Address
  tcp_server : TcpServer.Options Address → IoOptions Address
  serial_port : SerialOptions → IoOptions Address
  compression : Option ℕ → ℤ → IoOptions Address

-- The chain of tests behind `-io`.
unfoldable pub kind_of : String → Option Kind
kind_of val =
    if str_eq val "stdout"
    then some Kind.std_out
    else if str_eq val "filewriter"
    then some Kind.file_writer
    else if str_eq val "udpsocket"
    then some Kind.udp_socket
    else if str_eq val "tcpsocket"
    then some Kind.tcp_socket
    else if str_eq val "tcpserver"
    then some Kind.tcp_server
    else if str_eq val "serialport"
    then some Kind.serial_port
    else none

-- A parameter and what it sets.
abbrev pub Setter : Type 0
Setter = String × (String → SerialOptions → SerialOptions)

-- A chain of `else if`: the first parameter that is given.
unfoldable pub set_first : List Setter → Parameters → SerialOptions → SerialOptions
set_first [] params o = o
set_first ((key, f) ∷ rest) params o =
    let below = set_first rest params o in
    elim (lookup key params) [ none ↦ below | some v ↦ f v o ]

-- A sequence of `if`: each parameter that is given.
unfoldable pub set_each : List Setter → Parameters → SerialOptions → SerialOptions
set_each [] params o = o
set_each ((key, f) ∷ rest) params o =
    set_each rest params (elim (lookup key params) [ none ↦ o | some v ↦ f v o ])

module _ {Address : Type 0} (c : Conversions Address) where
  unfoldable pub file_writer_options : Parameters → FileWriter.Options
  unfolding value
  file_writer_options params = record {
    file_path = value "file" "" params;
    append = not (eq_ℤ (c.to_int (value "append" "0" params)) (pos 0));
    immediate = not (eq_ℤ (c.to_int (value "immediate" "0" params)) (pos 0));
  }

  -- The loop over the addresses: a missing port is 0.
  unfoldable pub remotes : List String → List String → List (Address × ℕ)
  remotes [] ports = []
  remotes (a ∷ addresses) [] = (c.parse_address a, 0) ∷ remotes addresses []
  remotes (a ∷ addresses) (p ∷ ports) = (c.parse_address a, c.to_ushort p) ∷ remotes addresses ports

  unfoldable pub udp_socket_options : Parameters → UdpSocket.Options Address
  unfolding value remotes
  udp_socket_options params = record {
    bind_address = elim (lookup "bind_address" params) [
      | none ↦ none
      | some v ↦ some (c.parse_address v)
    ];
    bind_port = elim (lookup "bind_port" params) [ none ↦ 0 | some v ↦ c.to_ushort v ];
    remote_addresses = remotes (values "remote_address" params) (values "remote_port" params);
    echo = elim (lookup "echo" params) [ none ↦ false | some v ↦ not (c.to_ushort v == 0) ];
    multicast_ttl = elim (lookup "multicast_ttl" params) [
      | none ↦ none
      | some v ↦ some (c.to_ushort v)
    ];
    multicast_loopback = not (c.to_ushort (value "multicast_loopback" "0" params) == 0);
  }

  unfoldable pub tcp_socket_options : Parameters → TcpSocket.Options Address
  unfolding value
  tcp_socket_options params = record {
    remote_address = c.parse_address (value "remote_address" "" params);
    remote_port = c.to_ushort (value "remote_port" "" params);
    reconnect = c.to_ushort (value "reconnect" "0" params) == 1;
    tcp_no_delay_option = c.to_ushort (value "low_delay" "0" params) == 1;
    tcp_keep_alive_option = c.to_ushort (value "keep_alive" "0" params) == 1;
  }

  unfoldable pub tcp_server_options : Parameters → TcpServer.Options Address
  unfolding value
  tcp_server_options params = record {
    bind_address = c.parse_address (value "bind_address" "" params);
    bind_port = c.to_ushort (value "bind_port" "" params);
    max_connections = to_int32 (c.to_uint (value "max_clients" "1" params));
    broadcast = c.to_uint (value "broadcast_clients" "0" params) == 1;
    read_buffer_size = pos (32 * 1024);
  }

  abbrev pub default_serial : Parameters → SerialOptions
  default_serial params = record {
    port_id = value "port" "" params;
    baudrate = pos 115200;
    databits = pos 8;
    parity = pos 0;
    stopbits = pos 1;
    flow_control = 0;
    break_enabled = false;
    dtr = false;
    rts = false;
  }

  -- Any other number leaves the flow control as it is.
  unfoldable pub set_flow : String → SerialOptions → SerialOptions
  set_flow v o = elim (c.to_uint v) [
    | zero ↦ record o { flow_control = 0 }
    | suc zero ↦ record o { flow_control = 1 }
    | suc (suc zero) ↦ record o { flow_control = 2 }
    | suc (suc (suc _)) ↦ o
  ]

  unfoldable pub line_setters : List Setter
  unfolding set_flow
  line_setters =
      ("baudrate", λ v o. record o { baudrate = to_int32 (c.to_uint v) })
      ∷ ("databits", λ v o. record o { databits = c.to_int v })
      ∷ ("parity", λ v o. record o { parity = c.to_int v })
      ∷ ("stopbits", λ v o. record o { stopbits = c.to_int v })
      ∷ ("flow", set_flow)
      ∷ ("break", λ v o. record o { break_enabled = c.to_uint v == 1 })
      ∷ []

  unfoldable pub signal_setters : List Setter
  signal_setters =
      ("dtr", λ v o. record o { dtr = c.to_uint v == 1 })
      ∷ ("rts", λ v o. record o { rts = c.to_uint v == 1 })
      ∷ []

  -- `setOptions` takes one of all settings.
  unfoldable pub initializer_serial : Parameters → SerialOptions
  unfolding set_first line_setters signal_setters
  initializer_serial params =
      set_first (line_setters ++ signal_setters) params (default_serial params)

  unfoldable pub set_options : Kind → Parameters → IoOptions Address
  unfolding file_writer_options udp_socket_options tcp_socket_options tcp_server_options
      initializer_serial
  set_options std_out params = IoOptions.std_out
  set_options file_writer params = IoOptions.file_writer (file_writer_options params)
  set_options udp_socket params = IoOptions.udp_socket (udp_socket_options params)
  set_options tcp_socket params = IoOptions.tcp_socket (tcp_socket_options params)
  set_options tcp_server params = IoOptions.tcp_server (tcp_server_options params)
  set_options serial_port params = IoOptions.serial_port (initializer_serial params)
