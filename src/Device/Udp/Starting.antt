-- ===== src/Device/Udp/Starting.antt =====
-- Proofs on UdpSocketIO.cpp: what a start that emits started has done.
use ioproxy.Base.{ℕ, ◌≡◌, ◌≢◌, true, false, Option, none, some, List, [], ◌∷◌, if◌then◌else◌}
use ioproxy.Factory.UdpSocket.{Options}
use ioproxy.Device.Udp.{Net, Udp, ipv6, is_multicast_config}

module _ {Address Iface World : Type 0} (net : Net Address Iface World)
    (opts : Options Address) where
  -- The address that a start for one receiver binds: the given one, or any.
  abbrev pub unicast_address : Address
  unicast_address = elim opts.bind_address [ none ↦ net.any | some a ↦ a ]

  -- The address that a start for groups binds: any of version 6 if an address of version 6 is given, else any of
  -- version 4.
  pub data GroupAddress : Address → Type 0 where
    not_given : opts.bind_address ≡ none → GroupAddress net.any_ipv4
    null :
        {a : Address}
        → opts.bind_address ≡ some a
        → net.is_null a ≡ true
        → GroupAddress net.any_ipv4
    version_6 :
        {a : Address}
        → opts.bind_address ≡ some a
        → net.is_null a ≡ false
        → net.protocol a ≡ ipv6
        → GroupAddress net.any_ipv6
    not_version_6 :
        {a : Address}
        → opts.bind_address ≡ some a
        → net.is_null a ≡ false
        → net.protocol a ≢ ipv6
        → GroupAddress net.any_ipv4

  -- What a start for groups sets on a bound socket, before it joins the groups on an interface.
  abbrev pub configured : Option Iface → World → World
  configured iface w =
      let w2 = net.set_loopback (if opts.multicast_loopback then 1 else 0) w in
      let w3 : World = elim opts.multicast_ttl [ none ↦ w2 | some ttl ↦ net.set_ttl ttl w2 ] in
      elim iface [ none ↦ w3 | some i ↦ net.set_multicast_interface i w3 ]

  -- All groups are joined in order: each on the interface, or on the default one where there is none or it refuses.
  pub data Joins (iface : Option Iface) : List (Address × ℕ) → World → World → Type 0 where
    none_left : {w : World} → Joins iface [] w w
    on_interface :
        {group : Address} {port : ℕ} {rest : List (Address × ℕ)} {w w1 w2 : World}
        → net.join_multicast_group group iface w ≡ (true, w1)
        → Joins iface rest w1 w2
        → Joins iface ((group, port) ∷ rest) w w2
    on_default :
        {group : Address} {port : ℕ} {rest : List (Address × ℕ)} {w w1 w2 w3 : World}
        → net.join_multicast_group group iface w ≡ (false, w1)
        → net.join_multicast_group group none w1 ≡ (true, w2)
        → Joins iface rest w2 w3
        → Joins iface ((group, port) ∷ rest) w w3

  -- A socket for one receiver was bound to its address, and nothing else was done.
  abbrev pub Unicast : World → World → Type 0
  Unicast w after = net.bind unicast_address opts.bind_port false w ≡ (true, after)

  -- A socket for groups was bound to the address of their protocol, shared, then configured, and joined all groups.
  abbrev pub Multicast : World → World → Type 0
  Multicast w after =
      (address : Address) × (iface : Option Iface) × (w1 : World) × GroupAddress address
      × (net.bind address opts.bind_port true w ≡ (true, w1))
      × Joins iface opts.remote_addresses (configured iface w1) after

  -- What a start that emits started has done.
  pub data IsReady (w after : World) : Type 0 where
    multicast : is_multicast_config net opts ≡ true → Multicast w after → IsReady w after
    unicast : is_multicast_config net opts ≡ false → Unicast w after → IsReady w after
