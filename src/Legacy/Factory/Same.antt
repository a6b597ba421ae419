-- ===== src/Legacy/Factory/Same.antt =====
-- legacy/CommandLineInitializer.hpp and legacy/Factory.cpp: when the two readings of options agree.
use ioproxy.Base.{
  ℕ, suc, ◌+◌, ◌≤◌, ◌≡◌, refl, sym, ap, ◌∙◌, String, none, some, List, [], ◌∷◌, ◌++◌, arith, inl,
  inr, Option-cases,
}
use ioproxy.Base.Maps.{lookup, values}
use ioproxy.Legacy.Factory.{
  Types, factory_file_writer, factory_tcp_server, factory_tcp_socket, factory_remotes,
  factory_udp_socket, factory_flow, factory_line, factory_signals, factory_serial, options_of,
  create_io,
}
use ioproxy.Legacy.Options.{
  Parameters, Conversions, SerialOptions, Kind, IoOptions, Setter, kind_of, set_first, set_each,
  value, set_flow, remotes, file_writer_options, udp_socket_options, tcp_socket_options,
  tcp_server_options, line_setters, signal_setters, default_serial, initializer_serial, set_options,
}

-- How many of some parameters are given.
abbrev pub given : List Setter → Parameters → ℕ
given [] params = 0
given ((key, f) ∷ rest) params =
    let below = given rest params in elim (lookup key params) [ none ↦ below | some v ↦ suc below ]

set_each-none :
    (setters : List Setter) (params : Parameters) (o : SerialOptions)
    → given setters params ≡ 0
    → set_each setters params o ≡ o
unfolding set_each
set_each-none [] params o h = refl
set_each-none ((key, f) ∷ rest) params o h = elim (Option-cases (lookup key params)) [
  | inl e ↦ rw e (set_each-none rest params o (rw (e, given) at h))
  | inr (v, e) ↦ absurd (let bad = rw (e, given) at h in omega (arith, bad))
]

-- With at most one parameter given, the chain and the sequence set the same.
set_first-set_each :
    (setters : List Setter) (params : Parameters) (o : SerialOptions)
    → given setters params ≤ 1
    → set_first setters params o ≡ set_each setters params o
unfolding set_first set_each
set_first-set_each [] params o h = refl
set_first-set_each ((key, f) ∷ rest) params o h = elim (Option-cases (lookup key params)) [
  | inl e ↦ rw (e, set_first) (set_first-set_each rest params o (rw (e, given) at h))
  | inr (v, e) ↦
      let one = rw (e, given) at h in
      rw (e, set_first) (sym (set_each-none rest params (f v o) (omega (arith, one))))
]

set_each-append :
    (first second : List Setter) (params : Parameters) (o : SerialOptions)
    → set_each (first ++ second) params o ≡ set_each second params (set_each first params o)
unfolding set_each
set_each-append [] second params o = refl
set_each-append ((key, f) ∷ rest) second params o = set_each-append rest second params _

given-append :
    (first second : List Setter) (params : Parameters)
    → given (first ++ second) params ≡ given first params + given second params
given-append [] second params = omega arith
given-append ((key, f) ∷ rest) second params =
    let below = given-append rest second params in
    elim (Option-cases (lookup key params)) [
      | inl e ↦ rw (e, given) below
      | inr (v, e) ↦ rw (e, given) (omega (arith, below))
    ]

module _ {Address : Type 0} (c : Conversions Address) where
  abbrev pub all_setters : List Setter
  all_setters = line_setters c ++ signal_setters c

  serial_same :
      (params : Parameters)
      → given all_setters params ≤ 1
      → factory_serial c params ≡ initializer_serial c params
  unfolding factory_serial initializer_serial factory_line factory_signals factory_flow line_setters
      signal_setters set_flow value
  serial_same params h =
      let o = default_serial c params in
      let split = given-append (line_setters c) (signal_setters c) params in
      set_first-set_each (signal_setters c) params (set_each (line_setters c) params o)
        (omega (arith, h, split))
      ∙ sym (set_each-append (line_setters c) (signal_setters c) params o)
      ∙ sym (set_first-set_each all_setters params o h)

  remotes-same :
      (addresses ports : List String)
      → factory_remotes c addresses ports ≡ remotes c addresses ports
  unfolding factory_remotes remotes
  remotes-same [] ports = refl
  remotes-same (a ∷ addresses) [] = ap (λ l. (c.parse_address a, 0) ∷ l) (remotes-same addresses [])
  remotes-same (a ∷ addresses) (p ∷ ports) =
      ap (λ l. (c.parse_address a, c.to_ushort p) ∷ l) (remotes-same addresses ports)

  udp_same : (params : Parameters) → factory_udp_socket c params ≡ udp_socket_options c params
  unfolding factory_udp_socket udp_socket_options
  udp_same params =
      ap (λ l. record (udp_socket_options c params) { remote_addresses = l })
        (remotes-same (values "remote_address" params) (values "remote_port" params))

  module _ (types : Types) where
    -- The constants are the names that the command line has.
    pub record IsNamed : Type 0 where
      pub std_out_named : types.std_out_type ≡ "stdout"
      pub tcp_server_named : types.tcp_server_type ≡ "tcpserver"
      pub tcp_socket_named : types.tcp_socket_type ≡ "tcpsocket"
      pub udp_socket_named : types.udp_socket_type ≡ "udpsocket"
      pub serial_port_named : types.serial_port_type ≡ "serialport"

    -- A name of the command line, and its kind.
    abbrev pub name_of : Kind → String
    name_of Kind.std_out = "stdout"
    name_of Kind.file_writer = "filewriter"
    name_of Kind.udp_socket = "udpsocket"
    name_of Kind.tcp_socket = "tcpsocket"
    name_of Kind.tcp_server = "tcpserver"
    name_of Kind.serial_port = "serialport"

    -- For every type that the command line knows, both readings of its parameters give the same options, if
    -- at most one of the eight settings of a serial port is given.
    pub create_io-set_options :
        (kind : Kind) (id : String) (params : Parameters)
        → IsNamed
        → given all_setters params ≤ 1
        → (kind_of (name_of kind) ≡ some kind)
          × (create_io c types (record { id = id; type = name_of kind; parameters = params })
              ≡ some (id, set_options c kind params))
    unfolding create_io options_of set_options kind_of factory_file_writer file_writer_options
        factory_tcp_server tcp_server_options factory_tcp_socket tcp_socket_options value
    create_io-set_options Kind.std_out id params n h = (refl, rw (n.std_out_named, options_of))
    create_io-set_options Kind.file_writer id params n h = (refl, rw (n.std_out_named, options_of))
    create_io-set_options Kind.udp_socket id params n h = (
      refl,
      rw (n.std_out_named, n.tcp_server_named, n.tcp_socket_named, n.udp_socket_named, options_of)
          (ap (λ o. some (id, IoOptions.udp_socket o)) (udp_same params)),
    )
    create_io-set_options Kind.tcp_socket id params n h =
        (refl, rw (n.std_out_named, n.tcp_server_named, n.tcp_socket_named, options_of))
    create_io-set_options Kind.tcp_server id params n h =
        (refl, rw (n.std_out_named, n.tcp_server_named, options_of))
    create_io-set_options Kind.serial_port id params n h = (
      refl,
      rw
          (
            n.std_out_named, n.tcp_server_named, n.tcp_socket_named, n.udp_socket_named,
            n.serial_port_named, options_of,
          )
          (ap (λ o. some (id, IoOptions.serial_port o)) (serial_same params h)),
    )
