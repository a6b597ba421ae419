-- ===== src/Relay/Slots.antt =====
-- src/ioproxy/io/TcpServerIO.cpp: what happens at a server, as one of its clients sees it.
use mathlib.Core.List.{append-nil}
use ioproxy.Base.{
  ◌≡◌, ◌≢◌, ◌⊎◌, refl, ap, ◌∙◌, inl, inr, false, Bool-cases, Option-cases, [], ◌++◌, length, arith,
  ◌==◌,
}
use ioproxy.Base.Int.{pos, ltb_ℤ}
use ioproxy.Io.{DataPack}
use ioproxy.Factory.TcpServer.{Options}
use ioproxy.Device.{oldest_first}
use ioproxy.Device.TcpServer
use ioproxy.Device.TcpServer.{Net, TcpServer, Event, slot, tcp_server_io, remove_one, emit}
use ioproxy.Relay.Reports.{OnlyErrors}
use ioproxy.Relay.Flow.{IsSink, copies}
use ioproxy.Relay.Events.{IsMild, IsSource}
use ioproxy.Relay.Stations.{oldest_first-IsMild, oldest_first-OnlyErrors, oldest_first_lem}
use ioproxy.Relay.Server.{
  IsPeer, IsElsewhere, IsServed, occurrences, sent_to, occurrences-append, occurrences-remove_one,
  write_each-Outcome, write_each-OnlyErrors,
}

module _ {Address Socket World : Type 0} {net : Net Address Socket World} {c : Socket}
    (peer : IsPeer net c) (opts : Options Address) where
  write_data-terse :
      (p : DataPack) (s : TcpServer Socket World)
      → OnlyErrors ((tcp_server_io net opts).write_data p s).1
  unfolding tcp_server_io TcpServer.write_data
  write_data-terse p s =
      oldest_first-OnlyErrors
        (TcpServer.write_each net s.sockets p (record s { emitted = [] })).emitted
        (write_each-OnlyErrors peer s.sockets p (record s { emitted = [] }) tt)

  write_data-takes :
      (p : DataPack) (s : TcpServer Socket World)
      → IsServed net c s
      → let r = (tcp_server_io net opts).write_data p s in
        ((r.1 ≡ []) × IsServed net c r.0 × (sent_to peer r.0 ≡ sent_to peer s ++ p.bytes))
        ⊎ (r.1 ≢ [])
  unfolding tcp_server_io TcpServer.write_data
  write_data-takes p s served =
      elim (write_each-Outcome peer s.sockets p (record s { emitted = [] })) [
        | inr noisy ↦ inr (oldest_first_lem _ noisy)
        | inl (e, k, l) ↦ inl (
          ap oldest_first e,
          ap (occurrences net c) k ∙ served,
          l
              ∙ ap (λ m. sent_to peer s ++ m)
                  (ap (λ n. copies n p.bytes) served ∙ append-nil p.bytes),
        )
      ]

  -- The client stays, and nothing is written to it.
  abbrev Unmoved : TcpServer Socket World → TcpServer Socket World → Type 0
  Unmoved s t =
      (occurrences net c t.sockets ≡ occurrences net c s.sockets)
      × (sent_to peer t ≡ sent_to peer s)

  new_connection-Unmoved :
      (s : TcpServer Socket World) → Unmoved s (TcpServer.on_server_new_connection net opts s)
  unfolding TcpServer.on_server_new_connection
  new_connection-Unmoved s =
      let w = (net.next_pending_connection s.world).1 in
      let same = peer.next_pending_connection s.world in
      elim (Option-cases (net.next_pending_connection s.world).0) [
        | inl e ↦ rw (e, TcpServer.on_server_new_connection) (refl, same)
        | inr (x, e) ↦
            let other = peer.fresh x s.world e in
            rw (e, TcpServer.on_server_new_connection)
              (elim (Bool-cases (ltb_ℤ (pos (length s.sockets)) opts.max_connections)) [
                | inl below ↦ rw below (
                  occurrences-append net c s.sockets x other,
                  peer.set_read_buffer_size x opts.read_buffer_size w ∙ same,
                )
                | inr full ↦
                    rw full
                      (refl, peer.delete x (net.abort x w) other ∙ (peer.abort x w other ∙ same))
              ])
      ]

  ready_read-Unmoved :
      (x : Socket) (s : TcpServer Socket World)
      → opts.broadcast ≡ false
      → Unmoved s (TcpServer.on_socket_ready_read net opts x s)
  unfolding TcpServer.on_socket_ready_read
  ready_read-Unmoved x s quiet =
      let same = peer.read x (net.bytes_available x s.world) s.world in
      elim (Bool-cases (net.bytes_available x s.world == 0)) [
        | inl empty ↦ rw empty (refl, refl)
        | inr available ↦ rw (available, quiet) (refl, same)
      ]

  handle-Unmoved :
      (event : Event Socket) (s : TcpServer Socket World)
      → opts.broadcast ≡ false
      → IsElsewhere net c event
      → Unmoved s (TcpServer.handle net opts event s)
  unfolding TcpServer.handle TcpServer.on_server_accept_error TcpServer.on_socket_error_occured
      TcpServer.on_socket_disconnected
  handle-Unmoved Event.new_connection s quiet away = new_connection-Unmoved s
  handle-Unmoved (Event.accept_error error) s quiet away = (refl, refl)
  handle-Unmoved (Event.ready_read x) s quiet away = ready_read-Unmoved x s quiet
  handle-Unmoved (Event.socket_error x) s quiet away = (refl, refl)
  handle-Unmoved (Event.disconnected x) s quiet away =
      (occurrences-remove_one peer x s.sockets away, peer.delete_later x s.world away)
  handle-Unmoved Event.call_start s quiet away = elim away [ ]
  handle-Unmoved Event.call_stop s quiet away = elim away [ ]
  handle-Unmoved (Event.call_write_data p) s quiet away = elim away [ ]

  new_connection-IsMild :
      (s : TcpServer Socket World)
      → IsMild s.emitted
      → IsMild (TcpServer.on_server_new_connection net opts s).emitted
  unfolding TcpServer.on_server_new_connection
  new_connection-IsMild s mild = ground arith

  ready_read-IsMild :
      (x : Socket) (s : TcpServer Socket World)
      → opts.broadcast ≡ false
      → IsMild s.emitted
      → IsMild (TcpServer.on_socket_ready_read net opts x s).emitted
  unfolding TcpServer.on_socket_ready_read
  ready_read-IsMild x s quiet mild = elim (Bool-cases (net.bytes_available x s.world == 0)) [
    | inl empty ↦ rw empty mild
    | inr available ↦ rw (available, quiet) mild
  ]

  handle-IsMild :
      (event : Event Socket) (s : TcpServer Socket World)
      → opts.broadcast ≡ false
      → IsElsewhere net c event
      → IsMild s.emitted
      → IsMild (TcpServer.handle net opts event s).emitted
  unfolding TcpServer.handle TcpServer.on_server_accept_error TcpServer.on_socket_error_occured
      TcpServer.on_socket_disconnected
  handle-IsMild Event.new_connection s quiet away mild = new_connection-IsMild s mild
  handle-IsMild (Event.accept_error error) s quiet away mild = mild
  handle-IsMild (Event.ready_read x) s quiet away mild = ready_read-IsMild x s quiet mild
  handle-IsMild (Event.socket_error x) s quiet away mild = mild
  handle-IsMild (Event.disconnected x) s quiet away mild = mild
  handle-IsMild Event.call_start s quiet away mild = elim away [ ]
  handle-IsMild Event.call_stop s quiet away mild = elim away [ ]
  handle-IsMild (Event.call_write_data p) s quiet away mild = elim away [ ]

  -- A server that has the client takes data for it.
  pub tcp_server_io-IsSink : IsSink (tcp_server_io net opts) (IsServed net c) (sent_to peer)
  tcp_server_io-IsSink = record { terse = write_data-terse; takes = write_data-takes }

  pub handle-IsSource :
      (event : Event Socket)
      → opts.broadcast ≡ false
      → IsElsewhere net c event
      → IsSource (IsServed net c) (sent_to peer) (slot net (TcpServer.handle net opts event))
  handle-IsSource event quiet away = record {
    mild = λ s.
        oldest_first-IsMild (TcpServer.handle net opts event (record s { emitted = [] })).emitted
          (handle-IsMild event (record s { emitted = [] }) quiet away tt);
    keeps = λ s served.
        let (a, b) = handle-Unmoved event (record s { emitted = [] }) quiet away in (a ∙ served, b);
  }
