-- ===== src/Tests/Failures.antt =====
-- Runs of an engine after an error of a client socket.
use ioproxy.Base.{ℕ, ◌≡◌, refl, some, List, [], ◌∷◌, map, get_elem?}
use ioproxy.Io.{DataPack}
use ioproxy.Handler.{Handler, State}
use ioproxy.Device.TcpServer
use ioproxy.Device.TcpServer.{TcpServer, new_server}
use ioproxy.Device.TcpSocket
use ioproxy.Device.TcpSocket.{TcpSocket}
use ioproxy.Station.{first, second}
use ioproxy.Relay.Events.{Log, occur_all}
use ioproxy.Relay.Traffic.{IsRunning}
use ioproxy.Relay.Server.{IsServed, occurrences}
use ioproxy.Relay.Stations.{EitherReady}
use ioproxy.Engine.Signals.{write_data, emit}
use ioproxy.Relay.Uncalled.{Never}
use ioproxy.Relay.Failing.{socket_error_drops}
use ioproxy.Relay.Pair.{event_of, both_ways}
use ioproxy.Relay.Proxy.{Arrival, at_server, at_socket, slot_of, proxy_io}
use ioproxy.Tests.Devices.{reconnecting}
use ioproxy.Tests.Relays.{
  office, client, archive, discreet, serving, connected, Devices, running_handler,
}

-- The socket connects again, and the client sends data.
abbrev again : List (Arrival ℕ)
again =
    at_socket TcpSocket.timer
    ∷ at_socket TcpSocket.connected
    ∷ at_server (TcpServer.ready_read 0)
    ∷ []

server_alone :
    IsRunning
      (EitherReady (IsServed office 0) (Never {W = List ℕ}))
      (running_handler "server" (first serving))
unfolding occurrences
server_alone = record { runs = refl; hears = (0, refl); passes = refl; ready = refl }

socket_error_drops_example :
    (hs : List (Handler Devices)) × (h' : Handler Devices) × (log : Log) × (occur_all
        (proxy_io office archive discreet reconnecting)
        2
        both_ways
        (map event_of (
          map
            (slot_of office archive discreet reconnecting)
            (at_socket TcpSocket.socket_error ∷ again)))
        (running_handler "server" (first serving)
          ∷ running_handler "socket" (second connected)
          ∷ [])
      ≡ some (hs, log))
    × (get_elem? hs 1 ≡ some h')
    × (h'.state ≡ State.failed)
    × ((p : DataPack)
        → write_data
            (proxy_io office archive discreet reconnecting)
            (emit (proxy_io office archive discreet reconnecting) 1 both_ways)
            1
            p
            hs
          ≡ some hs)
socket_error_drops_example =
    socket_error_drops archive client discreet reconnecting 0 again connected
      (running_handler "server" (first serving)) (running_handler "socket" (second connected)) 0
      refl (tt, (tt, (tt, tt))) server_alone refl refl refl
