-- ===== src/Device/Udp.antt =====
-- src/ioproxy/io/UdpSocketIO.cpp and src/ioproxy/util/Util.cpp: the UDP socket. A call through the
-- null pointer `m_socket` gives `none`. Datagrams that are pending when the socket is read are a list.

pub mod Traffic
pub mod Starting
pub mod Writes
use ioproxy.Base.{
  ℕ, ◌+◌, String, Bool, true, false, not, ◌||◌, Option, none, some, List, [], ◌∷◌, if◌then◌else◌,
}
use ioproxy.Base.Int.{ℤ, pos, ◌+ℤ◌}
use ioproxy.Base.Variant.{Variant}
use ioproxy.Base.Maps.{insert}
use ioproxy.Io.{DataPack, pack_of, count, Signal}
use ioproxy.Factory.UdpSocket.{Options}
use ioproxy.Device.{Format, Startup, succeeded, refused, text, number}

pub data Protocol : Type 0 where
  ipv4 ipv6 other : Protocol

pub record Datagram (Address : Type 0) : Type 0 where
  pub bytes : List ℕ
  pub sender_address : Address
  pub sender_port : ℕ

-- `QUdpSocket`, `QHostAddress` and `QNetworkInterface`: what the code calls, over the state of the
-- network. `bind` is told whether the address is shared.
pub record Net (Address Iface World : Type 0) : Type 0 where
  pub any : Address
  pub any_ipv4 : Address
  pub any_ipv6 : Address
  pub is_null : Address → Bool
  pub is_multicast : Address → Bool
  pub protocol : Address → Protocol
  pub is_equal : Address → Address → Bool
  pub address_text : Address → String
  pub format : Format
  pub all_interfaces : World → List (Iface × List Address)
  pub new_socket : World → World
  pub bind : Address → ℕ → Bool → World → Bool × World
  pub set_loopback : ℕ → World → World
  pub set_ttl : ℕ → World → World
  pub set_multicast_interface : Iface → World → World
  pub join_multicast_group : Address → Option Iface → World → Bool × World
  pub close : World → World
  pub is_bound : World → Bool
  pub write_datagram : List ℕ → Address → ℕ → World → ℤ × World
  pub error_string : World → String

pub record Udp (World : Type 0) : Type 0 where
  pub socket : Bool
  pub bytes_read : ℤ
  pub bytes_written : ℤ
  pub world : World
  pub emitted : List Signal

module _ {Address Iface World : Type 0} (net : Net Address Iface World) where
  -- `Util::findNetworkInterfaceByIP`: the inner loop over the addresses of an interface.
  unfoldable pub has_address : Address → List Address → Bool
  has_address a [] = false
  has_address a (b ∷ bs) = net.is_equal b a || has_address a bs

  unfoldable pub find_network_interface_by_ip : Address → List (Iface × List Address) → Option Iface
  unfolding has_address
  find_network_interface_by_ip a [] = none
  find_network_interface_by_ip a ((iface, entries) ∷ rest) =
      let below = find_network_interface_by_ip a rest in
      if has_address a entries then some iface else below

  unfoldable pub is_multicast_config : Options Address → Bool
  is_multicast_config opts = elim opts.remote_addresses [
    | [] ↦ false
    | (address, port) ∷ _ ↦ net.is_multicast address
  ]

  -- The address to bind for multicast, and the interface of the given address.
  unfoldable pub multicast_bind : Options Address → World → Address × Option Iface
  unfolding find_network_interface_by_ip
  multicast_bind opts w = elim opts.bind_address [
    | none ↦ (net.any_ipv4, none)
    | some a ↦ if net.is_null a then (net.any_ipv4, none) else (
      elim (net.protocol a) [ ipv4 ↦ net.any_ipv4 | ipv6 ↦ net.any_ipv6 | other ↦ net.any_ipv4 ],
      find_network_interface_by_ip a (net.all_interfaces w),
    )
  ]

  -- The join of one group: on the interface, if there is one, and else on the default.
  unfoldable pub join_group : Address → Option Iface → World → Bool × World
  join_group group none w = net.join_multicast_group group none w
  join_group group (some iface) w =
      let (joined, w1) = net.join_multicast_group group (some iface) w in
      if joined then (true, w1) else net.join_multicast_group group none w1

  -- The loop over the groups, up to the first that cannot be joined.
  unfoldable pub join_groups : List (Address × ℕ) → Option Iface → World → Startup × World
  unfolding join_group
  join_groups [] iface w = (succeeded, w)
  join_groups ((group, port) ∷ rest) iface w =
      let (joined, w1) = join_group group iface w in
      let below = join_groups rest iface w1 in
      if joined then below else (
        refused (
            net.format "Can not join multicast on default iface. group=%1; detail=%2"
              (text (net.address_text group) ∷ text (net.error_string w1) ∷ [])),
        w1,
      )

  unfoldable pub cannot_bind : Address → ℕ → World → Startup
  cannot_bind address port w = refused (
      net.format "Can't bind local socket: %1:%2 (Qt-error=%3)"
        (text (net.address_text address) ∷ number (pos port) ∷ text (net.error_string w) ∷ []))

  unfoldable pub start_multicast : Options Address → World → Startup × World
  unfolding multicast_bind join_groups cannot_bind
  start_multicast opts w =
      let (address, iface) = multicast_bind opts w in
      let (bound, w1) = net.bind address opts.bind_port true w in
      let w2 = net.set_loopback (if opts.multicast_loopback then 1 else 0) w1 in
      let w3 : World = elim opts.multicast_ttl [ none ↦ w2 | some ttl ↦ net.set_ttl ttl w2 ] in
      let w4 : World = elim iface [ none ↦ w3 | some i ↦ net.set_multicast_interface i w3 ] in
      if bound
      then join_groups opts.remote_addresses iface w4
      else (cannot_bind address opts.bind_port w1, w1)

  unfoldable pub start_unicast : Options Address → World → Startup × World
  unfolding cannot_bind
  start_unicast opts w =
      let address : Address = elim opts.bind_address [ none ↦ net.any | some a ↦ a ] in
      let (bound, w1) = net.bind address opts.bind_port false w in
      if bound then (succeeded, w1) else (cannot_bind address opts.bind_port w1, w1)

  unfoldable pub start : Options Address → Udp World → Udp World
  unfolding is_multicast_config start_multicast start_unicast
  start opts s =
      let w = net.new_socket s.world in
      let (result, w1) =
        if is_multicast_config opts then start_multicast opts w else start_unicast opts w in
      record s {
        socket = true;
        world = w1;
        emitted = elim result [
          | succeeded ↦ Signal.started ∷ s.emitted
          | refused m ↦ Signal.startup_error_occured m ∷ s.emitted
        ];
      }

  unfoldable pub stop : Udp World → Udp World
  stop s = if s.socket then record s { socket = false; world = net.close s.world } else s

  -- A failed write is counted as well: Qt's result for it is negative.
  unfoldable pub write_datagram : List ℕ → Address → ℕ → Udp World → Udp World
  write_datagram bytes address port s =
      let (written, w) = net.write_datagram bytes address port s.world in
      record s { bytes_written = s.bytes_written +ℤ written; world = w }

  unfoldable pub write_remotes : List ℕ → List (Address × ℕ) → Udp World → Udp World
  unfolding write_datagram
  write_remotes bytes [] s = s
  write_remotes bytes ((address, port) ∷ rest) s =
      write_remotes bytes rest (write_datagram bytes address port s)

  -- The first remote address, `none` if there is none: `at(0)` throws.
  unfoldable pub multicast_group_address : Options Address → Option Address
  multicast_group_address opts = elim opts.remote_addresses [
    | [] ↦ none
    | (address, port) ∷ _ ↦ some address
  ]

  unfoldable pub write_data : Options Address → DataPack → Udp World → Option (Udp World)
  unfolding is_multicast_config write_remotes multicast_group_address
  write_data opts p s =
      if s.socket
      then (if not (net.is_bound s.world)
          then some s
          else (if is_multicast_config opts
              then elim (multicast_group_address opts) [
                | none ↦ none
                | some group ↦ some (write_datagram p.bytes group opts.bind_port s)
              ]
              else some (write_remotes p.bytes opts.remote_addresses s)))
      else none

  unfoldable pub on_socket_error_occurred : Bool → Udp World → Udp World
  on_socket_error_occurred connection_refused s =
      if connection_refused
      then s
      else record s { emitted = Signal.error_occured (net.error_string s.world) ∷ s.emitted }

  -- The pack of a datagram, with the sender's address and port.
  unfoldable pub datagram_pack : Datagram Address → DataPack
  datagram_pack d =
      let p = pack_of d.bytes in
      record p {
        fixed_size = count p;
        parameters = insert "sender_port" (Variant.int (pos d.sender_port)) (
            insert "sender_address" (Variant.text (net.address_text d.sender_address))
              p.parameters);
      }

  unfoldable pub on_datagram : Options Address → Datagram Address → Udp World → Udp World
  unfolding datagram_pack write_datagram
  on_datagram opts d s =
      let t = if opts.echo then write_datagram d.bytes d.sender_address d.sender_port s else s in
      record t {
        bytes_read = t.bytes_read +ℤ pos (count (datagram_pack d));
        emitted = Signal.new_data (datagram_pack d) ∷ t.emitted;
      }

  unfoldable pub on_ready_read : Options Address → List (Datagram Address) → Udp World → Udp World
  unfolding on_datagram
  on_ready_read opts [] s = s
  on_ready_read opts (d ∷ ds) s = on_ready_read opts ds (on_datagram opts d s)
