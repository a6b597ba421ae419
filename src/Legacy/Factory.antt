-- ===== src/Legacy/Factory.antt =====
-- legacy/Factory.cpp: the options of an IO from its configuration, as createIO reads them.
pub mod Same
use ioproxy.Base.{
  ℕ, zero, suc, ◌*◌, String, false, not, ◌==◌, Option, none, some, List, [], ◌∷◌, if◌then◌else◌,
  str_eq,
}
use ioproxy.Base.Int.{pos, eq_ℤ}
use ioproxy.Base.Maps.{lookup, values}
use ioproxy.Factory.{to_int32}
use ioproxy.Factory.TcpServer as TcpServer
use ioproxy.Factory.TcpSocket as TcpSocket
use ioproxy.Factory.UdpSocket as UdpSocket
use ioproxy.Device.FileReader as FileReader
use ioproxy.Device.FileWriter as FileWriter
use ioproxy.Legacy.Options.{
  Parameters, value, Conversions, SerialOptions, IoOptions, Setter, set_first, set_each,
}

module _ {Address : Type 0} (c : Conversions Address) where
  unfoldable pub file_reader_options : Parameters → FileReader.Options
  unfolding value
  file_reader_options params = record {
    file_path = value "file" "" params;
    buffer_size = c.to_int (value "buffer" (c.number (pos 4096)) params);
  }

  unfoldable pub factory_file_writer : Parameters → FileWriter.Options
  unfolding value
  factory_file_writer params = record {
    file_path = value "file" "" params;
    append = not (eq_ℤ (c.to_int (value "append" "0" params)) (pos 0));
    immediate = not (eq_ℤ (c.to_int (value "immediate" "0" params)) (pos 0));
  }

  unfoldable pub factory_tcp_server : Parameters → TcpServer.Options Address
  unfolding value
  factory_tcp_server params = record {
    bind_address = c.parse_address (value "bind_address" "" params);
    bind_port = c.to_ushort (value "bind_port" "" params);
    max_connections = to_int32 (c.to_uint (value "max_clients" "1" params));
    broadcast = c.to_uint (value "broadcast_clients" "0" params) == 1;
    read_buffer_size = pos (32 * 1024);
  }

  unfoldable pub factory_tcp_socket : Parameters → TcpSocket.Options Address
  unfolding value
  factory_tcp_socket params = record {
    remote_address = c.parse_address (value "remote_address" "" params);
    remote_port = c.to_ushort (value "remote_port" "" params);
    reconnect = c.to_ushort (value "reconnect" "0" params) == 1;
    tcp_no_delay_option = c.to_ushort (value "low_delay" "0" params) == 1;
    tcp_keep_alive_option = c.to_ushort (value "keep_alive" "0" params) == 1;
  }

  -- The loop over the addresses: beyond the ports, the port is 0.
  unfoldable pub factory_remotes : List String → List String → List (Address × ℕ)
  factory_remotes [] ports = []
  factory_remotes (a ∷ addresses) [] = (c.parse_address a, 0) ∷ factory_remotes addresses []
  factory_remotes (a ∷ addresses) (p ∷ ports) =
      (c.parse_address a, c.to_ushort p) ∷ factory_remotes addresses ports

  unfoldable pub factory_udp_socket : Parameters → UdpSocket.Options Address
  unfolding value factory_remotes
  factory_udp_socket params = record {
    bind_address = elim (lookup "bind_address" params) [
      | none ↦ none
      | some v ↦ some (c.parse_address v)
    ];
    bind_port = elim (lookup "bind_port" params) [ none ↦ 0 | some v ↦ c.to_ushort v ];
    remote_addresses =
        factory_remotes (values "remote_address" params) (values "remote_port" params);
    echo = elim (lookup "echo" params) [ none ↦ false | some v ↦ not (c.to_ushort v == 0) ];
    multicast_ttl = elim (lookup "multicast_ttl" params) [
      | none ↦ none
      | some v ↦ some (c.to_ushort v)
    ];
    multicast_loopback = not (c.to_ushort (value "multicast_loopback" "0" params) == 0);
  }

  -- The `switch` over the flow control: any other number leaves it as it is.
  unfoldable pub factory_flow : String → SerialOptions → SerialOptions
  factory_flow v o = elim (c.to_uint v) [
    | zero ↦ record o { flow_control = 0 }
    | suc zero ↦ record o { flow_control = 1 }
    | suc (suc zero) ↦ record o { flow_control = 2 }
    | suc (suc (suc _)) ↦ o
  ]

  -- The settings of the line, each read by an `if` of its own.
  unfoldable pub factory_line : List Setter
  unfolding factory_flow
  factory_line =
      ("baudrate", λ v o. record o { baudrate = to_int32 (c.to_uint v) })
      ∷ ("databits", λ v o. record o { databits = c.to_int v })
      ∷ ("parity", λ v o. record o { parity = c.to_int v })
      ∷ ("stopbits", λ v o. record o { stopbits = c.to_int v })
      ∷ ("flow", factory_flow)
      ∷ ("break", λ v o. record o { break_enabled = c.to_uint v == 1 })
      ∷ []

  -- The signals: `else if` stands between the two.
  unfoldable pub factory_signals : List Setter
  factory_signals =
      ("dtr", λ v o. record o { dtr = c.to_uint v == 1 })
      ∷ ("rts", λ v o. record o { rts = c.to_uint v == 1 })
      ∷ []

  unfoldable pub factory_serial : Parameters → SerialOptions
  unfolding value set_first set_each factory_line factory_signals
  factory_serial params = set_first factory_signals params (
      set_each factory_line params (record {
        port_id = value "port" "" params;
        baudrate = pos 115200;
        databits = pos 8;
        parity = pos 0;
        stopbits = pos 1;
        flow_control = 0;
        break_enabled = false;
        dtr = false;
        rts = false;
      }))

-- The constants `TYPE` of the IOs whose older headers are not in the repository.
pub record Types : Type 0 where
  pub std_out_type : String
  pub tcp_server_type : String
  pub tcp_socket_type : String
  pub udp_socket_type : String
  pub serial_port_type : String
  pub compression_type : String

-- `Config::IO`, with texts as parameters.
pub record IoConfig : Type 0 where
  pub id : String
  pub type : String
  pub parameters : Parameters

module _ {Address : Type 0} (c : Conversions Address) (types : Types) where
  -- The options of `createIO`, `none` for the null pointer of an unknown type.
  unfoldable pub options_of : String → Parameters → Option (IoOptions Address)
  unfolding value file_reader_options factory_file_writer factory_udp_socket factory_tcp_socket
      factory_tcp_server factory_serial
  options_of type params =
      if str_eq type types.std_out_type
      then some IoOptions.std_out
      else if str_eq type "filereader"
      then some (IoOptions.file_reader (file_reader_options c params))
      else if str_eq type "filewriter"
      then some (IoOptions.file_writer (factory_file_writer c params))
      else if str_eq type types.tcp_server_type
      then some (IoOptions.tcp_server (factory_tcp_server c params))
      else if str_eq type types.tcp_socket_type
      then some (IoOptions.tcp_socket (factory_tcp_socket c params))
      else if str_eq type types.udp_socket_type
      then some (IoOptions.udp_socket (factory_udp_socket c params))
      else if str_eq type types.serial_port_type
      then some (IoOptions.serial_port (factory_serial c params))
      else if str_eq type types.compression_type
      then some (
          IoOptions.compression (c.at_0 (value "mode" "c" params))
            (c.to_int (value "level" "-1" params)))
      else none

  -- The IO by its name and options.
  unfoldable pub create_io : IoConfig → Option (String × IoOptions Address)
  unfolding options_of
  create_io config = elim (options_of config.type config.parameters) [
    | none ↦ none
    | some o ↦ some (config.id, o)
  ]
