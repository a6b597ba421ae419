-- ===== src/Factory/Meaning.antt =====
-- src/ioproxy/io/*Factory and src/echo-plugin: what every factory makes of its parameters, with the keys and the
-- defaults written out.
use ioproxy.Base.{
  ℕ, ◌*◌, ◌≡◌, ◌⊎◌, refl, sym, ap, ◌∙◌, inl, inr, String, true, false, Option, none, some, List, [],
  ◌∷◌, missing_required,
}
use ioproxy.Base.Int.{pos}
use ioproxy.Base.Maps.{values, contains, contains-values}
use ioproxy.Base.Variant.{Variant, Conversions, invalid, text, int, bool}
use ioproxy.Params.{IoParams, check_required_parameters, para_def}
use ioproxy.Params.Spec.{newest}
use ioproxy.Factory.{Outcome, done, failed, ◌>>=◌, check, to_int32, to_int64, to_uint16}
use ioproxy.Factory.Builtin.{
  Kind, byte_generator, serial_port, std_out, tcp_socket, tcp_server, udp_socket, web_socket,
  web_socket_server, echo, definitions, Created, create, meaning, meaning_remotes, HasRemotes,
  create-meaning,
}
use ioproxy.Factory.TcpSocket
use ioproxy.Factory.TcpServer
use ioproxy.Factory.UdpSocket
use ioproxy.Factory.UdpRemotes
use ioproxy.Factory.WebSocket
use ioproxy.Factory.WebSocketServer
use ioproxy.Factory.SerialPort
use ioproxy.Factory.ByteGenerator

-- The keys that must be given, in the order in which a missing one is reported.
abbrev pub required_keys : Kind → List String
required_keys byte_generator = []
required_keys serial_port = "port" ∷ []
required_keys std_out = []
required_keys tcp_socket = "remote_address" ∷ "remote_port" ∷ []
required_keys tcp_server = "bind_port" ∷ []
required_keys udp_socket = []
required_keys web_socket = "remote_url" ∷ []
required_keys web_socket_server = []
required_keys echo = []

-- The first of some keys for which no value is given.
abbrev pub first_missing : List String → IoParams → Option String
first_missing [] params = none
first_missing (key ∷ keys) params = elim (values key params) [
  | [] ↦ some key
  | _ ∷ _ ↦ first_missing keys params
]

-- The value given last for a key, or a default.
abbrev pub read : IoParams → String → Variant → Variant
read params key default = newest (values key params) default

module _ {Address Url : Type 0} (parse_address : String → Address) (parse_url : String → Url)
    (c : Conversions) where
  open c use {to_string, to_uint, to_bool, to_long_long, to_ulong_long}

  -- The options of a kind, of which the required parameters are given.
  abbrev pub meant : Kind → IoParams → Outcome (Created Address Url)
  meant byte_generator params = done (
      Created.byte_generator_io (record {
        bytes_per_second =
            to_int64 (to_ulong_long (read params "rate" (int (pos (1024 * 1024 * 5)))));
        packet_size = to_int64 (to_ulong_long (read params "packet_size" (int (pos (1024 * 4)))));
      }))
  meant serial_port params = done (
      Created.serial_port_io (record {
        port_id = to_string (read params "port" invalid);
        baudrate = to_int32 (to_uint (read params "baudrate" (int (pos 115200))));
        databits = to_uint (read params "databits" (int (pos 8)));
        parity = to_uint (read params "parity" (int (pos 0)));
        stopbits = to_uint (read params "stopbits" (int (pos 1)));
        flow_control = to_uint (read params "flow" (int (pos 0)));
        break_enabled = false;
        dtr = false;
        rts = false;
      }))
  meant std_out params = done Created.std_out_io
  meant tcp_socket params = done (
      Created.tcp_socket_io (record {
        remote_address = parse_address (to_string (read params "remote_address" invalid));
        remote_port = to_uint16 (to_uint (read params "remote_port" invalid));
        reconnect = to_bool (read params "reconnect" (bool true));
        tcp_no_delay_option = to_bool (read params "low_delay" (bool false));
        tcp_keep_alive_option = to_bool (read params "keep_alive" (bool false));
      }))
  meant tcp_server params = done (
      Created.tcp_server_io (record {
        bind_address = parse_address (to_string (read params "bind_address" (text "0.0.0.0")));
        bind_port = to_uint16 (to_uint (read params "bind_port" invalid));
        max_connections = to_int32 (to_uint (read params "max_connections" (int (pos 1))));
        broadcast = to_bool (read params "broadcast" (bool false));
        read_buffer_size = to_long_long (read params "read_buffer_size" (int (pos (32 * 1024))));
      }))
  meant udp_socket params = meaning_remotes parse_address parse_url c params >>= λ remotes. done (
      Created.udp_socket_io (record {
        bind_address =
            some (parse_address (to_string (read params "bind_address" (text "0.0.0.0"))));
        bind_port = to_uint16 (to_uint (read params "bind_port" (int (pos 0))));
        remote_addresses = remotes;
        echo = to_bool (read params "echo" (bool false));
        multicast_ttl = some (to_uint16 (to_uint (read params "multicast_ttl" (int (pos 0)))));
        multicast_loopback = to_bool (read params "multicast_loopback" (bool false));
      }))
  meant web_socket params = done (
      Created.web_socket_io (record {
        remote_url = parse_url (to_string (read params "remote_url" invalid));
        reconnect = to_bool (read params "reconnect" (bool true));
        binary = to_bool (read params "binary" (bool false));
      }))
  meant web_socket_server params = done (
      Created.web_socket_server_io (record {
        bind_address = parse_address (to_string (read params "bind_address" (text "0.0.0.0")));
        bind_port = to_uint16 (to_uint (read params "bind_port" (int (pos 0))));
        binary = to_bool (read params "binary" (bool false));
        server_name = to_string (read params "server_name" (text "IOProxy"));
      }))
  meant echo params = done Created.echo_io

  -- The outcome of a creation: the first key that is missing, or the IO.
  abbrev pub outcome : Kind → IoParams → Outcome (Created Address Url)
  outcome k params = elim (first_missing (required_keys k) params) [
    | none ↦ meant k params
    | some key ↦ failed (missing_required key)
  ]

  -- The check of the required parameters, and then the options.
  abbrev checked : Kind → IoParams → Outcome (Created Address Url)
  checked k params = check (check_required_parameters (definitions k) params) >>= λ _.
      meaning parse_address parse_url c k params

  cases :
      (vs : List Variant) → (vs ≡ []) ⊎ ((v : Variant) × (rest : List Variant) × (vs ≡ v ∷ rest))
  cases [] = inl refl
  cases (v ∷ rest) = inr (v, rest, refl)

  contains-given :
      (key : String) (params : IoParams) (v : Variant) (rest : List Variant)
      → values key params ≡ v ∷ rest
      → contains key params ≡ true
  contains-given key params v rest e = contains-values key params ∙ rw e refl

  contains-missing :
      (key : String) (params : IoParams) → values key params ≡ [] → contains key params ≡ false
  contains-missing key params e = contains-values key params ∙ rw e refl

  -- What to do for a first missing key, or for none.
  abbrev outcome_of : Kind → IoParams → Option String → Outcome (Created Address Url)
  outcome_of k params o = elim o [
    | none ↦ meant k params
    | some key ↦ failed (missing_required key)
  ]

  settled :
      (k : Kind) (params : IoParams) (o : Option String)
      → first_missing (required_keys k) params ≡ o
      → checked k params ≡ outcome_of k params o
      → checked k params ≡ outcome k params
  settled k params o e f = f ∙ ap (outcome_of k params) (sym e)

  checked-outcome : (k : Kind) (params : IoParams) → checked k params ≡ outcome k params
  unfolding definitions check_required_parameters para_def ByteGenerator.factory SerialPort.factory
      TcpSocket.factory TcpServer.factory UdpSocket.factory WebSocket.factory
      WebSocketServer.factory ByteGenerator.options SerialPort.options TcpSocket.options
      TcpServer.options UdpRemotes.options WebSocket.options WebSocketServer.options
  checked-outcome byte_generator params = refl
  checked-outcome serial_port params = elim (cases (values "port" params)) [
    | inl e ↦
        settled serial_port params (some "port") (rw (e, first_missing) refl)
          (rw (contains-missing "port" params e) refl)
    | inr (v, rest, e) ↦
        settled serial_port params none (rw (e, first_missing) refl)
          (rw (contains-given "port" params v rest e) refl)
  ]
  checked-outcome std_out params = refl
  checked-outcome tcp_socket params = elim (cases (values "remote_address" params)) [
    | inl e ↦
        settled tcp_socket params (some "remote_address") (rw (e, first_missing) refl)
          (rw (contains-missing "remote_address" params e) refl)
    | inr (v, rest, e) ↦
        let first = contains-given "remote_address" params v rest e in
        elim (cases (values "remote_port" params)) [
          | inl f ↦
              settled tcp_socket params (some "remote_port")
                (rw (e, first_missing) (rw (f, first_missing) refl))
                (rw (first, contains-missing "remote_port" params f) refl)
          | inr (v', rest', f) ↦
              settled tcp_socket params none (rw (e, first_missing) (rw (f, first_missing) refl))
                (rw (first, contains-given "remote_port" params v' rest' f) refl)
        ]
  ]
  checked-outcome tcp_server params = elim (cases (values "bind_port" params)) [
    | inl e ↦
        settled tcp_server params (some "bind_port") (rw (e, first_missing) refl)
          (rw (contains-missing "bind_port" params e) refl)
    | inr (v, rest, e) ↦
        settled tcp_server params none (rw (e, first_missing) refl)
          (rw (contains-given "bind_port" params v rest e, e) refl)
  ]
  checked-outcome udp_socket params = refl
  checked-outcome web_socket params = elim (cases (values "remote_url" params)) [
    | inl e ↦
        settled web_socket params (some "remote_url") (rw (e, first_missing) refl)
          (rw (contains-missing "remote_url" params e) refl)
    | inr (v, rest, e) ↦
        settled web_socket params none (rw (e, first_missing) refl)
          (rw (contains-given "remote_url" params v rest e) refl)
  ]
  checked-outcome web_socket_server params = refl
  checked-outcome echo params = refl

  -- Every factory fails with the first of its required keys for which no value is given, or makes the IO of its
  -- class with, for each option, the value given last for its key or else the default, both as `meant`
  -- writes them out. The remote hosts of a UDP socket are its addresses, in order, each with its port; it
  -- fails where one has no port. For a UDP socket this is with a remote address given, with fewer addresses and
  -- ports than 2 ^ 32, and with fuel above the number of addresses.
  pub create-outcome :
      (fuel : ℕ) (k : Kind) (params : IoParams)
      → HasRemotes parse_address parse_url c fuel k params
      → create parse_address parse_url c fuel k params ≡ some (outcome k params)
  create-outcome fuel k params h =
      create-meaning parse_address parse_url c fuel k params h ∙ ap some (checked-outcome k params)
