-- ===== src/Relay/Proxy.antt =====
-- src/ioproxy/Engine.cpp, Handler.cpp, io/TcpServerIO.cpp and io/TcpSocketIO.cpp together: an engine that connects
-- a server and a client socket in both directions.
use ioproxy.Base.{ℕ, suc, ◌≡◌, refl, ◌++◌, false, some, List, [], ◌∷◌, map, All, get_elem?}
use ioproxy.Io.{Io}
use ioproxy.Handler.{Handler}
use ioproxy.Factory.TcpServer.{Options as ServerOptions}
use ioproxy.Factory.TcpSocket.{Options as SocketOptions}
use ioproxy.Device.TcpServer
use ioproxy.Device.TcpServer.{TcpServer}
use ioproxy.Device.TcpSocket
use ioproxy.Device.TcpSocket.{TcpSocket}
use ioproxy.Station.{Station, first, second, station_io}
use ioproxy.Relay.Events.{Log, occur_all}
use ioproxy.Relay.Traffic.{IsRunning}
use ioproxy.Relay.Stations.{EitherReady}
use ioproxy.Relay.Pair.{
  Happening, of_first, of_second, event_of, both_ways, IsHarmless, IsPaired, data_of, pair-IsPaired,
}
use ioproxy.Relay.Client
use ioproxy.Relay.Client.{IsUp, IsOpen, IsPassive, sent_by, tcp_socket_io-IsSink}
use ioproxy.Relay.Server.{IsPeer, IsElsewhere, IsServed, sent_to}
use ioproxy.Relay.Heard.{IsHeard, heard_by, write_data-heard, handle-heard}
use ioproxy.Relay.Said.{joined, told_by, handle-told_by}
use ioproxy.Relay.Words.{IsFrank, pair-Tells}
use ioproxy.Relay.Slots
use ioproxy.Relay.Slots.{tcp_server_io-IsSink}

-- What happens at the server, or at the socket.
pub data Arrival (Socket : Type 0) : Type 0 where
  at_server : TcpServer.Event Socket → Arrival Socket
  at_socket : TcpSocket.Event → Arrival Socket

-- What the socket reads in an arrival.
abbrev pub words : {Socket : Type 0} → Arrival Socket → List ℕ
words (at_server e) = []
words (at_socket e) = told_by e

abbrev pub Devices : Type 0 → Type 0 → Type 0 → Type 0
Devices Socket V W = Station (TcpServer Socket V) (TcpSocket W)

module _ {A B Socket V W : Type 0} (net : TcpServer.Net A Socket V) (link : TcpSocket.Net B W)
    (serving : ServerOptions A) (connecting : SocketOptions B) where
  abbrev pub proxy_io : Io (Devices Socket V W)
  proxy_io =
      station_io (TcpServer.tcp_server_io net serving) (TcpSocket.tcp_socket_io link connecting)

  abbrev pub slot_of : Arrival Socket → Happening (TcpServer Socket V) (TcpSocket W)
  slot_of (at_server e) = of_first (TcpServer.slot net (TcpServer.handle net serving e))
  slot_of (at_socket e) =
      of_second (TcpSocket.slot link connecting (TcpSocket.handle link connecting e))

module _ {A B Socket V W : Type 0} {net : TcpServer.Net A Socket V} {link : TcpSocket.Net B W}
    {c : Socket} (peer : IsPeer net c) (ear : IsHeard net) (up : IsUp link)
    (serving : ServerOptions A) (connecting : SocketOptions B) where
  -- The client and the connection of the socket stay, and nobody calls the IOs.
  abbrev pub IsOrdinary : Arrival Socket → Type 0
  IsOrdinary (at_server e) = IsElsewhere net c e
  IsOrdinary (at_socket e) = IsPassive e

  abbrev BothOpen : Devices Socket V W → Type 0
  BothOpen = EitherReady (IsServed net c) (IsOpen up connecting)

  slot_of-IsHarmless :
      (arrivals : List (Arrival Socket))
      → serving.broadcast ≡ false
      → All IsOrdinary arrivals
      → All
          (IsHarmless
            (IsServed net c)
            (IsOpen up connecting)
            (sent_to peer)
            (sent_by up connecting))
          (map (slot_of net link serving connecting) arrivals)
  slot_of-IsHarmless [] quiet ordinary = tt
  slot_of-IsHarmless (at_server e ∷ arrivals) quiet (away, ordinary) =
      (Slots.handle-IsSource peer serving e quiet away, slot_of-IsHarmless arrivals quiet ordinary)
  slot_of-IsHarmless (at_socket e ∷ arrivals) quiet (passive, ordinary) =
      (Client.handle-IsSource up connecting e passive, slot_of-IsHarmless arrivals quiet ordinary)

  slot_of-IsFrank :
      (arrivals : List (Arrival Socket))
      → serving.broadcast ≡ false
      → All IsOrdinary arrivals
      → All
          (λ x. IsFrank (heard_by ear serving) (slot_of net link serving connecting x) (words x))
          arrivals
  slot_of-IsFrank [] quiet ordinary = tt
  slot_of-IsFrank (at_server e ∷ arrivals) quiet (away, ordinary) = (
    (refl, λ s. handle-heard ear serving c e s quiet away),
    slot_of-IsFrank arrivals quiet ordinary,
  )
  slot_of-IsFrank (at_socket e ∷ arrivals) quiet (passive, ordinary) =
      (λ s. handle-told_by link connecting e s passive, slot_of-IsFrank arrivals quiet ordinary)

  -- The handlers of a server and of a client socket are started, each connected once to the data of its IO, and connected in both directions. The server
  -- does not broadcast, has the client `c` as a socket once, and the client socket is connected. Any
  -- sequence of events of their sockets, in which the client and the connection stay, is handled to its end
  -- with a call depth of two. The data of the log is then, for the server, all bytes that it has read of its
  -- clients since, and for the socket, the chunks of all its reads, both in order. The remote end has what it
  -- had and then all that the server read, and the handler of the socket counted it as written, or it has
  -- failed; the client has what it had and then all that the socket read, and the handler of the server
  -- counted it as written, or it has failed; and both counted what they read.
  pub proxy-IsPaired :
      (fuel : ℕ) (arrivals : List (Arrival Socket)) (s : TcpServer Socket V) (t : TcpSocket W)
      (g h : Handler (Devices Socket V W))
      → serving.broadcast ≡ false
      → All IsOrdinary arrivals
      → g.io ≡ first s
      → h.io ≡ second t
      → IsRunning BothOpen g
      → IsRunning BothOpen h
      → (hs : List (Handler (Devices Socket V W))) × (g' : Handler (Devices Socket V W))
        × (h' : Handler (Devices Socket V W)) × (log : Log) × (occur_all
              (proxy_io net link serving connecting)
              (suc (suc fuel))
              both_ways
              (map event_of (map (slot_of net link serving connecting) arrivals))
              (g ∷ h ∷ [])
            ≡ some (hs, log))
        × (get_elem? hs 0 ≡ some g')
        × (get_elem? hs 1 ≡ some h')
        × IsPaired
            (IsServed net c)
            (IsOpen up connecting)
            (sent_to peer)
            (sent_by up connecting)
            s
            t
            log
            g
            h
            g'
            h'
        × ((s' : TcpServer Socket V) × (g'.io ≡ first s')
            × (ear.heard s'.world ≡ ear.heard s.world ++ data_of 0 log))
        × (data_of 1 log ≡ joined (map words arrivals))
  proxy-IsPaired fuel arrivals s t g h quiet ordinary is_first is_second g_runs h_runs =
      let slot = slot_of net link serving connecting in
      let (hs, g', h', log, done, at_g, at_h, paired) =
        pair-IsPaired (IsServed net c) (IsOpen up connecting) (sent_to peer) (sent_by up connecting)
          fuel (map slot arrivals) s t g h (tcp_server_io-IsSink peer serving)
          (tcp_socket_io-IsSink up connecting) (slot_of-IsHarmless arrivals quiet ordinary) is_first
          is_second g_runs h_runs in
      let (server, socket) =
        pair-Tells (heard_by ear serving) (TcpServer.tcp_server_io net serving)
          (TcpSocket.tcp_socket_io link connecting) (write_data-heard ear serving) slot words
          (suc (suc fuel)) both_ways arrivals s t g h g' h' log hs
          (slot_of-IsFrank arrivals quiet ordinary) is_first is_second done at_g at_h in
      (hs, g', h', log, done, at_g, at_h, paired, server, socket)
