-- ===== src/Device/Udp/Traffic.antt =====
-- Proofs on UdpSocketIO.cpp: the groups that a started socket has joined, and the packs of the
-- datagrams that it reads.
use mathlib.Core.Path.{subst}
use ioproxy.Base.{
  ℕ, ◌+◌, ◌≡◌, refl, sym, ap, ◌∙◌, true, Option, none, some, List, [], ◌∷◌, length, All, Bool-cases,
  inl, inr,
}
use ioproxy.Base.Int.{pos, ◌+ℤ◌, int_laws}
use ioproxy.Io.{Signal}
use ioproxy.Factory.UdpSocket.{Options}
use ioproxy.Device.{Startup, succeeded, refused}
use ioproxy.Device.Udp.{
  Net, Udp, Datagram, is_multicast_config, join_group, join_groups, multicast_bind, start_multicast,
  cannot_bind, start, write_datagram, datagram_pack, on_datagram, on_ready_read,
}

module _ {Address Iface World : Type 0} (net : Net Address Iface World)
    (Joined : Address → World → Type 0)
    (joins : (group : Address) (iface : Option Iface) (w : World)
      → (net.join_multicast_group group iface w).0 ≡ true
      → Joined group (net.join_multicast_group group iface w).1)
    (keeps : (group next : Address) (iface : Option Iface) (w : World)
      → Joined group w
      → Joined group (net.join_multicast_group next iface w).1) where
  pub join_group-Joined :
      (group : Address) (iface : Option Iface) (w : World)
      → (join_group net group iface w).0 ≡ true
      → Joined group (join_group net group iface w).1
  unfolding join_group
  join_group-Joined group none w h = joins group none w h
  join_group-Joined group (some i) w h =
      elim (Bool-cases (net.join_multicast_group group (some i) w).0) [
        | inl e ↦ rw (e, join_group) (joins group (some i) w e)
        | inr e ↦
            rw (e, join_group)
              (joins group none (net.join_multicast_group group (some i) w).1
                (rw (e, join_group) at h))
      ]

  pub join_group_keeps :
      (group next : Address) (iface : Option Iface) (w : World)
      → Joined group w
      → Joined group (join_group net next iface w).1
  unfolding join_group
  join_group_keeps group next none w j = keeps group next none w j
  join_group_keeps group next (some i) w j =
      let k = keeps group next (some i) w j in
      elim (Bool-cases (net.join_multicast_group next (some i) w).0) [
        | inl e ↦ rw (e, join_group) k
        | inr e ↦ rw (e, join_group) (keeps group next none _ k)
      ]

  pub join_groups_keeps :
      (groups : List (Address × ℕ)) (group : Address) (iface : Option Iface) (w : World)
      → Joined group w
      → Joined group (join_groups net groups iface w).1
  unfolding join_groups
  join_groups_keeps [] group iface w j = j
  join_groups_keeps ((next, port) ∷ rest) group iface w j =
      let k = join_group_keeps group next iface w j in
      elim (Bool-cases (join_group net next iface w).0) [
        | inl e ↦ rw (e, join_groups) (join_groups_keeps rest group iface _ k)
        | inr e ↦ rw (e, join_groups) k
      ]

  pub join_groups-Joined :
      (groups : List (Address × ℕ)) (iface : Option Iface) (w : World)
      → (join_groups net groups iface w).0 ≡ succeeded
      → All (λ x. Joined x.0 (join_groups net groups iface w).1) groups
  unfolding join_groups
  join_groups-Joined [] iface w h = tt
  join_groups-Joined ((next, port) ∷ rest) iface w h =
      let w1 = (join_group net next iface w).1 in
      elim (Bool-cases (join_group net next iface w).0) [
        | inl e ↦
            (let step : join_groups net ((next, port) ∷ rest) iface w
                  ≡ join_groups net rest iface w1 =
                rw (e, join_groups) refl in
              subst (λ r. All (λ x. Joined x.0 r.1) ((next, port) ∷ rest)) (sym step)
                (
                  join_groups_keeps rest next iface w1 (join_group-Joined next iface w e),
                  join_groups-Joined rest iface w1 (ap (λ r. r.0) (sym step) ∙ h),
                ))
        | inr e ↦ (let bad = rw (e, join_groups) at h in cc)
      ]

module _ {Address Iface World : Type 0} (net : Net Address Iface World)
    (Joined : Address → World → Type 0)
    (joins : (group : Address) (iface : Option Iface) (w : World)
      → (net.join_multicast_group group iface w).0 ≡ true
      → Joined group (net.join_multicast_group group iface w).1)
    (keeps : (group next : Address) (iface : Option Iface) (w : World)
      → Joined group w
      → Joined group (net.join_multicast_group next iface w).1) where
  pub start_multicast-Joined :
      (opts : Options Address) (w : World)
      → (start_multicast net opts w).0 ≡ succeeded
      → All (λ x. Joined x.0 (start_multicast net opts w).1) opts.remote_addresses
  unfolding start_multicast cannot_bind
  start_multicast-Joined opts w h =
      let (address, iface) = multicast_bind net opts w in
      elim (Bool-cases (net.bind address opts.bind_port true w).0) [
        | inl e ↦
            rw (e, start_multicast)
              (join_groups-Joined net Joined joins keeps opts.remote_addresses iface _
                (rw (e, start_multicast) at h))
        | inr e ↦ (let bad = rw (e, start_multicast) at h in cc)
      ]

  pub emitted_started :
      (result : Startup) (old : List Signal)
      → (elim result [
        | succeeded ↦ Signal.started ∷ old
        | refused m ↦ Signal.startup_error_occured m ∷ old
      ])
        ≡ Signal.started ∷ old
      → result ≡ succeeded
  emitted_started succeeded old h = refl
  emitted_started (refused m) old h = cc

  -- A socket with a multicast configuration that emits `started` has joined the group of every
  -- remote address, if a join that Qt reports as done joins the group and later joins keep it.
  pub start-Joined :
      (opts : Options Address) (s : Udp World)
      → is_multicast_config net opts ≡ true
      → (start net opts s).emitted ≡ Signal.started ∷ s.emitted
      → All (λ x. Joined x.0 (start net opts s).world) opts.remote_addresses
  unfolding start
  start-Joined opts s multicast h =
      let w = net.new_socket s.world in
      rw (multicast, start)
        (start_multicast-Joined opts w
          (emitted_started (start_multicast net opts w).0 s.emitted (rw (multicast, start) at h)))

module _ {Address Iface World : Type 0} (net : Net Address Iface World)
    (opts : Options Address) where
  -- The packs of some datagrams, the newest first.
  abbrev pub packs : List (Datagram Address) → List Signal → List Signal
  packs [] signals = signals
  packs (d ∷ ds) signals = packs ds (Signal.new_data (datagram_pack net d) ∷ signals)

  abbrev pub total : List (Datagram Address) → ℕ
  total [] = 0
  total (d ∷ ds) = length d.bytes + total ds

  pub on_datagram_lem :
      (d : Datagram Address) (s : Udp World)
      → ((on_datagram net opts d s).emitted ≡ Signal.new_data (datagram_pack net d) ∷ s.emitted)
        × ((on_datagram net opts d s).bytes_read ≡ s.bytes_read +ℤ pos (length d.bytes))
  unfolding on_datagram datagram_pack write_datagram
  on_datagram_lem d s = elim (Bool-cases opts.echo) [
    | inl e ↦ rw e (refl, refl)
    | inr e ↦ rw e (refl, refl)
  ]

  -- A read emits one pack for each pending datagram, in their order, with the sender's address and
  -- port, and counts the bytes of them all, whether they are echoed or not.
  on_ready_read_lem :
      (ds : List (Datagram Address)) (s : Udp World)
      → ((on_ready_read net opts ds s).emitted ≡ packs ds s.emitted)
        × ((on_ready_read net opts ds s).bytes_read ≡ s.bytes_read +ℤ pos (total ds))
  unfolding on_ready_read
  on_ready_read_lem [] s = (refl, grind int_laws)
  on_ready_read_lem (d ∷ ds) s =
      let (a, b) = on_datagram_lem d s in
      let (c, e) = on_ready_read_lem ds (on_datagram net opts d s) in
      (c ∙ ap (packs ds) a, e ∙ ap (λ n. n +ℤ pos (total ds)) b ∙ grind int_laws)
