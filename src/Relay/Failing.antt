-- ===== src/Relay/Failing.antt =====
-- src/ioproxy/Handler.cpp and io/TcpSocketIO.cpp together: the handler of a client socket after an error.
use mathlib.Core.Path.{subst}
use mathlib.Core.Option.{some-injective}
use ioproxy.Base.{
  ℕ, zero, suc, ◌≡◌, refl, ap, ◌∙◌, inl, inr, false, some, List, [], ◌∷◌, map, All, get_elem?,
}
use ioproxy.Io.{DataPack}
use ioproxy.Handler.{Handler, State}
use ioproxy.Engine.Signals.{write_data, emit}
use ioproxy.Factory.TcpServer.{Options as ServerOptions}
use ioproxy.Factory.TcpSocket.{Options as SocketOptions}
use ioproxy.Device.TcpServer
use ioproxy.Device.TcpServer.{TcpServer}
use ioproxy.Device.TcpSocket
use ioproxy.Device.TcpSocket.{TcpSocket}
use ioproxy.Station.{second}
use ioproxy.Relay.Flow.{Tally, Flow}
use ioproxy.Relay.Events.{tally, tally_lem, passed_on, Log, occur_all}
use ioproxy.Relay.Flows.{Flows}
use ioproxy.Relay.Traffic.{IsRunning, occur_all-Flows}
use ioproxy.Relay.Stations.{taken_of_second, EitherReady, either_taken, station_io-IsSink}
use ioproxy.Relay.Pair.{event_of, both_ways, event_of-IsSource}
use ioproxy.Relay.Server.{IsPeer, IsServed, sent_to}
use ioproxy.Relay.Slots.{tcp_server_io-IsSink}
use ioproxy.Relay.Proxy.{Arrival, at_socket, slot_of, proxy_io, Devices}
use ioproxy.Relay.Uncalled.{
  Never, nothing, IsFree, write_data-failed, tcp_socket_io-Never, slot_of-IsHarmless,
  socket_error-fails,
}

module _ {A B Socket V W : Type 0} {net : TcpServer.Net A Socket V} (link : TcpSocket.Net B W)
    {c : Socket} (peer : IsPeer net c) (serving : ServerOptions A)
    (connecting : SocketOptions B) where
  abbrev Ready : Devices Socket V W → Type 0
  Ready = EitherReady (IsServed net c) Never

  abbrev taken : Devices Socket V W → List ℕ
  taken = either_taken (sent_to peer) nothing

  -- The handlers of a running server and of a socket that failed.
  abbrev tallies : Handler (Devices Socket V W) → Handler (Devices Socket V W) → ℕ → Tally
  tallies g h zero = record { bytes = taken g.io; written = g.bytes_written; read = g.bytes_read }
  tallies g h (suc d) = record { bytes = 1 ∷ []; written = 0; read = h.bytes_read }

  failed-Flows :
      (g h : Handler (Devices Socket V W)) (k : ℕ)
      → IsRunning Ready g
      → h.state ≡ State.failed
      → h.status_slots ≡ suc k
      → h.data_slots ≡ 1
      → Flows Ready taken (tallies g h) (g ∷ h ∷ [])
  failed-Flows g h k runs failed slots one zero x e =
      subst (Flow Ready taken (tallies g h 0)) (some-injective g x e) (
        record { hears = runs.hears; passes = runs.passes; reads = refl },
        inl (runs.runs, runs.ready, refl, refl),
      )
  failed-Flows g h k runs failed slots one (suc zero) x e =
      subst (Flow Ready taken (tallies g h 1)) (some-injective h x e)
        (record { hears = (k, slots); passes = one; reads = refl }, inr failed)
  failed-Flows g h k runs failed slots one (suc (suc d)) x e = cc

  -- Only an IO of the first class can be ready.
  Flow-failed :
      (g h h' : Handler (Devices Socket V W)) (log : Log)
      → Flow Ready taken (tally both_ways 1 log (tallies g h 1)) h'
      → h'.state ≡ State.failed
  Flow-failed g h h' log (w, takes) = elim takes [
    | inr failed ↦ failed
    | inl (runs, ready, bytes, written) ↦
        let (t, e, same) =
          taken_of_second (sent_to peer) nothing h'.io (passed_on both_ways 1 log)
            (bytes ∙ ap (λ (x : Tally). x.bytes) (tally_lem both_ways 1 log (tallies g h 1))) in
        absurd (subst Ready e ready)
  ]

  -- A server that does not broadcast and has the client `c` as a socket once, and a client socket, are connected
  -- in both directions; the server's handler is started, and that of the socket is connected to it. An error
  -- of the socket happens, and then any events of the sockets, in which the client stays and nobody calls the
  -- IOs: also that the socket connects again, as with the option reconnect. All of them are handled to their
  -- end with a call depth of two, and afterwards the handler of the socket has the state failed, so that each
  -- further write of data to it does nothing.
  pub socket_error_drops :
      (fuel : ℕ) (arrivals : List (Arrival Socket)) (t : TcpSocket W)
      (g h : Handler (Devices Socket V W)) (k : ℕ)
      → serving.broadcast ≡ false
      → All (IsFree net c) arrivals
      → IsRunning Ready g
      → h.io ≡ second t
      → h.status_slots ≡ suc k
      → h.data_slots ≡ 1
      → (hs : List (Handler (Devices Socket V W))) × (h' : Handler (Devices Socket V W))
        × (log : Log) × (occur_all
              (proxy_io net link serving connecting)
              (suc (suc fuel))
              both_ways
              (map event_of (
                map
                  (slot_of net link serving connecting)
                  (at_socket TcpSocket.socket_error ∷ arrivals)))
              (g ∷ h ∷ [])
            ≡ some (hs, log))
        × (get_elem? hs 1 ≡ some h')
        × (h'.state ≡ State.failed)
        × ((p : DataPack)
            → write_data
                (proxy_io net link serving connecting)
                (emit (proxy_io net link serving connecting) (suc fuel) both_ways)
                1
                p
                hs
              ≡ some hs)
  unfolding occur_all
  socket_error_drops fuel arrivals t g h k quiet free runs is_socket slots one =
      let io = proxy_io net link serving connecting in
      let (h1, e1, failed, slots1, one1) =
        socket_error-fails link peer serving connecting fuel t g h k is_socket slots one in
      let (hs, log, e2, kept, flows) =
        occur_all-Flows Ready taken
          (station_io-IsSink (tcp_server_io-IsSink peer serving)
            (tcp_socket_io-Never link peer serving connecting))
          both_ways fuel (map event_of (map (slot_of net link serving connecting) arrivals))
          (tallies g h1) (g ∷ h1 ∷ [])
          (event_of-IsSource (IsServed net c) Never (sent_to peer) nothing
            (map (slot_of net link serving connecting) arrivals)
            (slot_of-IsHarmless link peer serving connecting arrivals quiet free))
          (failed-Flows g h1 k runs failed slots1 one1) in
      let (h', at_h) = kept 1 h1 refl in
      let still = Flow-failed g h1 h' log (flows 1 h' at_h) in
      (
        hs,
        h',
        log,
        rw (e1, occur_all) (rw e2 refl),
        at_h,
        still,
        λ p. write_data-failed io (emit io (suc fuel) both_ways) 1 p hs h' at_h still,
      )
