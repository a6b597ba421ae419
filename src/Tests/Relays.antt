-- ===== src/Tests/Relays.antt =====
-- Runs of engines that relay data between a server and a client socket.
use ioproxy.Base.{
  ℕ, zero, suc, ◌≡◌, refl, String, true, false, ◌==◌, ==_iff, some, List, [], ◌∷◌, ◌++◌, map,
  length, if◌then◌else◌, get_elem?, arith,
}
use ioproxy.Base.Int.{pos}
use ioproxy.Io.{pack_of}
use ioproxy.Handler.{Handler, State}
use ioproxy.Engine.Signals
use ioproxy.Device.TcpServer
use ioproxy.Device.TcpServer.{TcpServer, new_server}
use ioproxy.Device.TcpSocket
use ioproxy.Device.TcpSocket.{TcpSocket}
use ioproxy.Factory.TcpServer as TcpServerFactory
use ioproxy.Station.{Station, first, second}
use ioproxy.Relay.Events.{Log, occur_all}
use ioproxy.Relay.Traffic.{IsRunning}
use ioproxy.Relay.Client.{IsUp, IsOpen, sent_by}
use ioproxy.Relay.Server.{IsPeer, IsServed, occurrences, sent_to}
use ioproxy.Relay.Heard.{IsHeard}
use ioproxy.Relay.Stations.{EitherReady}
use ioproxy.Engine.Signals.{write_data, emit}
use ioproxy.Relay.Pair.{event_of, both_ways, IsPaired, data_of}
use ioproxy.Relay.Proxy.{Arrival, at_server, at_socket, slot_of, proxy_io, proxy-IsPaired}
use ioproxy.Tests.Devices.{plain, three_at_most, reconnecting}

-- Sockets are numbers, and the client is socket 0; the state is how many others connected, what the client got,
-- and what was read of all.
abbrev pub office : TcpServer.Net ℕ ℕ (ℕ × (List ℕ × List ℕ))
office = record {
  any = 0;
  is_null = λ a. a == 0;
  same = λ a b. a == b;
  format = plain;
  listen = λ a p w. (true, w);
  server_error = λ w. "";
  close = λ w. w;
  next_pending_connection = λ w. (some (suc w.0), (suc w.0, w.1));
  set_read_buffer_size = λ s n w. w;
  write = λ s bytes w. (pos (length bytes), if s == 0 then (w.0, (w.1.0 ++ bytes, w.1.1)) else w);
  bytes_available = λ s w. 2;
  read = λ s n w. (7 ∷ 8 ∷ [], (w.0, (w.1.0, w.1.1 ++ (7 ∷ 8 ∷ []))));
  abort = λ s w. w;
  delete = λ s w. w;
  delete_later = λ s w. w;
  peer_address = λ s w. "peer";
  peer_port = λ s w. 0;
  error_string = λ s w. "";
}

pub write_elsewhere :
    (x : ℕ) (bytes : List ℕ) (w : ℕ × (List ℕ × List ℕ))
    → (x == 0) ≡ false
    → (office.write x bytes w).1.1.0 ≡ w.1.0
write_elsewhere x bytes w e = rw e refl

pub pending_elsewhere :
    (x : ℕ) (w : ℕ × (List ℕ × List ℕ))
    → (office.next_pending_connection w).0 ≡ some x
    → (x == 0) ≡ false
pending_elsewhere zero w e = cc
pending_elsewhere (suc x) w e = ground arith

abbrev pub client : IsPeer office 0
client = record {
  sent = λ w. w.1.0;
  same_eq = λ x y. (==_iff x y).0;
  write = λ bytes w e. refl;
  write_other = write_elsewhere;
  read = λ x n w. refl;
  set_read_buffer_size = λ x n w. refl;
  next_pending_connection = λ w. refl;
  fresh = pending_elsewhere;
  abort = λ x w e. refl;
  delete = λ x w e. refl;
  delete_later = λ x w e. refl;
}

pub write_unheard :
    (x : ℕ) (bytes : List ℕ) (w : ℕ × (List ℕ × List ℕ)) → (office.write x bytes w).1.1.1 ≡ w.1.1
write_unheard x bytes w = ground arith

abbrev pub office_ear : IsHeard office
office_ear = record {
  heard = λ w. w.1.1;
  read = λ x n w. refl;
  write = write_unheard;
  set_read_buffer_size = λ x n w. refl;
  next_pending_connection = λ w. refl;
  abort = λ x w. refl;
  delete = λ x w. refl;
  delete_later = λ x w. refl;
}

-- A remote end that takes everything; the state is what it got.
abbrev pub archive : TcpSocket.Net String (List ℕ)
archive = record {
  address_text = λ a. a;
  format = plain;
  new_socket = λ w. w;
  connect_to_host = λ a p w. w;
  set_low_delay = λ w. w;
  set_keep_alive = λ w. w;
  is_connected = λ w. true;
  write = λ bytes w. (pos (length bytes), w ++ bytes);
  wait_for_bytes_written = λ w. w;
  close = λ w. w;
  peer_address = λ w. "archive";
  peer_port = λ w. 80;
  error_string = λ w. "";
}

abbrev pub cable : IsUp archive
cable = record {
  sent = λ w. w;
  write = λ bytes w e f. (refl, refl);
  low_delay = λ w. (refl, refl);
  keep_alive = λ w. (refl, refl);
}

abbrev pub discreet : TcpServerFactory.Options ℕ
discreet = record three_at_most { broadcast = false }

abbrev pub serving : TcpServer ℕ (ℕ × (List ℕ × List ℕ))
serving = record (new_server (0, ([], []))) { sockets = 0 ∷ [] }

abbrev pub connected : TcpSocket (List ℕ)
connected = record (TcpSocket.new_socket_io (5 ∷ [])) { socket = true }

abbrev pub Devices : Type 0
Devices = Station (TcpServer ℕ (ℕ × (List ℕ × List ℕ))) (TcpSocket (List ℕ))

abbrev pub running_handler : {S : Type 0} → String → S → Handler S
running_handler name s = record {
  unique_name = name;
  io = s;
  state = State.started;
  error_message = "";
  bytes_written = 0;
  bytes_read = 0;
  data_slots = 1;
  status_slots = 1;
  notices = [];
}

-- Another client connects and sends data, the remote end answers in two chunks, and the client sends data.
abbrev visit : List (Arrival ℕ)
visit =
    at_server TcpServer.new_connection
    ∷ at_server (TcpServer.ready_read 1)
    ∷ at_socket (TcpSocket.ready_read ((1 ∷ []) ∷ (2 ∷ 3 ∷ []) ∷ []))
    ∷ at_server (TcpServer.ready_read 0)
    ∷ []

visit_lem :
    (hs : List (Handler Devices)) × (occur_all
        (proxy_io office archive discreet reconnecting)
        2
        both_ways
        (map event_of (map (slot_of office archive discreet reconnecting) visit))
        (running_handler "server" (first serving)
          ∷ running_handler "socket" (second connected)
          ∷ [])
      ≡ some (
        hs,
        (0, pack_of (7 ∷ 8 ∷ []))
            ∷ (1, pack_of (1 ∷ []))
            ∷ (1, pack_of (2 ∷ 3 ∷ []))
            ∷ (0, pack_of (7 ∷ 8 ∷ []))
            ∷ [],
      ))
unfolding occur_all Signals.emit Signals.receive_all TcpServer.handle TcpSocket.tcp_socket_io
    TcpSocket.handle TcpServer.tcp_server_io
visit_lem = (_, refl)

server_runs :
    IsRunning
      (EitherReady (IsServed office 0) (IsOpen cable reconnecting))
      (running_handler "server" (first serving))
unfolding occurrences
server_runs = record { runs = refl; hears = (0, refl); passes = refl; ready = refl }

socket_runs :
    IsRunning
      (EitherReady (IsServed office 0) (IsOpen cable reconnecting))
      (running_handler "socket" (second connected))
socket_runs = record { runs = refl; hears = (0, refl); passes = refl; ready = (refl, refl) }

proxy-IsPaired_example :
    (hs : List (Handler Devices)) × (g' : Handler Devices) × (h' : Handler Devices) × (log : Log)
    × (occur_all
          (proxy_io office archive discreet reconnecting)
          2
          both_ways
          (map event_of (map (slot_of office archive discreet reconnecting) visit))
          (running_handler "server" (first serving)
            ∷ running_handler "socket" (second connected)
            ∷ [])
        ≡ some (hs, log))
    × (get_elem? hs 0 ≡ some g')
    × (get_elem? hs 1 ≡ some h')
    × IsPaired
        (IsServed office 0)
        (IsOpen cable reconnecting)
        (sent_to client)
        (sent_by cable reconnecting)
        serving
        connected
        log
        (running_handler "server" (first serving))
        (running_handler "socket" (second connected))
        g'
        h'
    × ((s' : TcpServer ℕ (ℕ × (List ℕ × List ℕ))) × (g'.io ≡ first s')
        × (office_ear.heard s'.world ≡ data_of 0 log))
    × (data_of 1 log ≡ 1 ∷ 2 ∷ 3 ∷ [])
proxy-IsPaired_example =
    proxy-IsPaired client office_ear cable discreet reconnecting 0 visit serving connected
      (running_handler "server" (first serving)) (running_handler "socket" (second connected)) refl
      (tt, (tt, (tt, (tt, tt)))) refl refl server_runs socket_runs
