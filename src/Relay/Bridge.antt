-- ===== src/Relay/Bridge.antt =====
-- src/ioproxy/Engine.cpp, Handler.cpp, io/TcpServerIO.cpp and io/SerialPortIO.hpp together: an engine that makes a
-- serial port available to the clients of a server.
use ioproxy.Base.{ℕ, suc, ◌≡◌, refl, ◌++◌, false, some, List, [], ◌∷◌, map, All, get_elem?}
use ioproxy.Io.{Io}
use ioproxy.Handler.{Handler}
use ioproxy.Factory.TcpServer.{Options as ServerOptions}
use ioproxy.Factory.SerialPort.{Options as PortOptions}
use ioproxy.Device.TcpServer
use ioproxy.Device.TcpServer.{TcpServer}
use ioproxy.Device.SerialPort
use ioproxy.Device.SerialPort.{SerialPort}
use ioproxy.Station.{Station, first, second, station_io}
use ioproxy.Relay.Events.{Log, occur_all}
use ioproxy.Relay.Traffic.{IsRunning}
use ioproxy.Relay.Stations.{EitherReady}
use ioproxy.Relay.Pair.{
  Happening, of_first, of_second, event_of, both_ways, IsHarmless, IsPaired, data_of, pair-IsPaired,
}
use ioproxy.Relay.Serial.{IsPlugged, IsOpen, sent_by, serial_port_io-IsSink, on_ready_read-IsSource}
use ioproxy.Relay.Server.{IsPeer, IsElsewhere, IsServed, sent_to}
use ioproxy.Relay.Heard.{IsHeard, heard_by, write_data-heard, handle-heard}
use ioproxy.Relay.Said.{joined, slot-bytes_of}
use ioproxy.Relay.Words.{IsFrank, pair-Tells}
use ioproxy.Relay.Slots.{tcp_server_io-IsSink, handle-IsSource}

-- What happens at the server, or what the port reads.
pub data Arrival (Socket : Type 0) : Type 0 where
  at_server : TcpServer.Event Socket → Arrival Socket
  at_port : List (List ℕ) → Arrival Socket

-- What the port reads in an arrival.
abbrev pub words : {Socket : Type 0} → Arrival Socket → List ℕ
words (at_server e) = []
words (at_port chunks) = joined chunks

module _ {A Info Socket V W : Type 0} {net : TcpServer.Net A Socket V}
    {port : SerialPort.Port Info W} {c : Socket} (peer : IsPeer net c) (plugged : IsPlugged port)
    (serving : ServerOptions A) (opening : PortOptions) where
  abbrev pub Devices : Type 0
  Devices = Station (TcpServer Socket V) (SerialPort W)

  abbrev pub bridge_io : Io Devices
  bridge_io =
      station_io (TcpServer.tcp_server_io net serving) (SerialPort.serial_port_io port opening)

  abbrev pub slot_of : Arrival Socket → Happening (TcpServer Socket V) (SerialPort W)
  slot_of (at_server e) = of_first (TcpServer.slot net (TcpServer.handle net serving e))
  slot_of (at_port chunks) = of_second (SerialPort.slot port (SerialPort.on_ready_read port chunks))

  -- The client stays, and nobody calls the server.
  abbrev pub IsOrdinary : Arrival Socket → Type 0
  IsOrdinary (at_server e) = IsElsewhere net c e
  IsOrdinary (at_port chunks) = Unit

  abbrev BothOpen : Devices → Type 0
  BothOpen = EitherReady (IsServed net c) (IsOpen plugged opening)

  slot_of-IsHarmless :
      (arrivals : List (Arrival Socket))
      → serving.broadcast ≡ false
      → All IsOrdinary arrivals
      → All
          (IsHarmless
            (IsServed net c)
            (IsOpen plugged opening)
            (sent_to peer)
            (sent_by plugged opening))
          (map slot_of arrivals)
  slot_of-IsHarmless [] quiet ordinary = tt
  slot_of-IsHarmless (at_server e ∷ arrivals) quiet (away, ordinary) =
      (handle-IsSource peer serving e quiet away, slot_of-IsHarmless arrivals quiet ordinary)
  slot_of-IsHarmless (at_port chunks ∷ arrivals) quiet (tt, ordinary) =
      (on_ready_read-IsSource plugged opening chunks, slot_of-IsHarmless arrivals quiet ordinary)

  slot_of-IsFrank :
      (ear : IsHeard net) (arrivals : List (Arrival Socket))
      → serving.broadcast ≡ false
      → All IsOrdinary arrivals
      → All (λ x. IsFrank (heard_by ear serving) (slot_of x) (words x)) arrivals
  slot_of-IsFrank ear [] quiet ordinary = tt
  slot_of-IsFrank ear (at_server e ∷ arrivals) quiet (away, ordinary) = (
    (refl, λ s. handle-heard ear serving c e s quiet away),
    slot_of-IsFrank ear arrivals quiet ordinary,
  )
  slot_of-IsFrank ear (at_port chunks ∷ arrivals) quiet (tt, ordinary) =
      (λ s. slot-bytes_of port chunks s, slot_of-IsFrank ear arrivals quiet ordinary)

  -- The handlers of a server and of an open serial port are started, each connected once to the data of its IO,
  -- and connected in both directions. The
  -- server does not broadcast and has the client `c` as a socket once. Any reads of the port and events of the
  -- server, in which the client stays, are handled to their end with a call depth of two. The data of
  -- the log is then, for the server, all bytes that it has read of its clients since, and for the port, the
  -- chunks of all its reads, both in order. The port was given, after what it had, all that the server read,
  -- and the handler of the port counted it as written, or it has failed; the client was given, after what it
  -- had, all that the port read, and the handler of the server counted it as written, or it has failed; and
  -- both counted what they read.
  pub bridge-IsPaired :
      (ear : IsHeard net) (fuel : ℕ) (arrivals : List (Arrival Socket)) (s : TcpServer Socket V)
      (t : SerialPort W) (g h : Handler Devices)
      → serving.broadcast ≡ false
      → All IsOrdinary arrivals
      → g.io ≡ first s
      → h.io ≡ second t
      → IsRunning BothOpen g
      → IsRunning BothOpen h
      → (hs : List (Handler Devices)) × (g' : Handler Devices) × (h' : Handler Devices)
        × (log : Log) × (occur_all bridge_io
              (suc (suc fuel))
              both_ways
              (map event_of (map slot_of arrivals))
              (g ∷ h ∷ [])
            ≡ some (hs, log))
        × (get_elem? hs 0 ≡ some g')
        × (get_elem? hs 1 ≡ some h')
        × IsPaired
            (IsServed net c)
            (IsOpen plugged opening)
            (sent_to peer)
            (sent_by plugged opening)
            s
            t
            log
            g
            h
            g'
            h'
        × ((s' : TcpServer Socket V) × (g'.io ≡ first s')
            × (ear.heard s'.world ≡ ear.heard s.world ++ data_of 0 log))
        × (data_of 1 log ≡ joined (map words arrivals))
  bridge-IsPaired ear fuel arrivals s t g h quiet ordinary is_first is_second g_runs h_runs =
      let (hs, g', h', log, done, at_g, at_h, paired) =
        pair-IsPaired (IsServed net c) (IsOpen plugged opening) (sent_to peer)
          (sent_by plugged opening) fuel (map slot_of arrivals) s t g h
          (tcp_server_io-IsSink peer serving) (serial_port_io-IsSink plugged opening)
          (slot_of-IsHarmless arrivals quiet ordinary) is_first is_second g_runs h_runs in
      let (server, read) =
        pair-Tells (heard_by ear serving) (TcpServer.tcp_server_io net serving)
          (SerialPort.serial_port_io port opening) (write_data-heard ear serving) slot_of words
          (suc (suc fuel)) both_ways arrivals s t g h g' h' log hs
          (slot_of-IsFrank ear arrivals quiet ordinary) is_first is_second done at_g at_h in
      (hs, g', h', log, done, at_g, at_h, paired, server, read)
