-- ===== src/Tests/Bridges.antt =====
-- Runs of an engine that makes a serial port available to the clients of a server.
use ioproxy.Base.{
  ℕ, refl, String, true, false, ◌≡◌, some, List, [], ◌∷◌, ◌++◌, map, length, get_elem?,
}
use ioproxy.Base.Int.{pos}
use ioproxy.Handler.{Handler}
use ioproxy.Device.TcpServer
use ioproxy.Device.TcpServer.{TcpServer}
use ioproxy.Device.SerialPort.{Port, SerialPort}
use ioproxy.Station.{Station, first, second}
use ioproxy.Relay.Events.{Log, occur_all}
use ioproxy.Relay.Traffic.{IsRunning}
use ioproxy.Relay.Stations.{EitherReady}
use ioproxy.Relay.Server.{IsServed, sent_to, occurrences}
use ioproxy.Relay.Serial.{IsPlugged, IsOpen, sent_by}
use ioproxy.Relay.Pair.{event_of, both_ways, IsPaired, data_of}
use ioproxy.Relay.Bridge.{Arrival, at_server, at_port, slot_of, bridge_io, bridge-IsPaired}
use ioproxy.Tests.Devices.{plain}
use ioproxy.Tests.Ports.{com2}
use ioproxy.Tests.Relays.{office, office_ear, client, discreet, serving, running_handler}

-- An open port that takes everything; the state is what it was given.
abbrev modem : Port String (List ℕ)
modem = record {
  format = plain;
  available_ports = λ w. "COM2" ∷ [];
  info_name = λ i. i;
  is_null = λ i. false;
  set_port = λ i w. w;
  open_read_write = λ w. (true, w);
  set_baud_rate = λ n w. (true, w);
  set_break_enabled = λ b w. (true, w);
  set_data_bits = λ n w. (true, w);
  set_data_terminal_ready = λ b w. (true, w);
  set_flow_control = λ n w. (true, w);
  set_parity = λ n w. (true, w);
  set_stop_bits = λ n w. (true, w);
  set_request_to_send = λ b w. (true, w);
  is_open = λ w. true;
  close = λ w. w;
  write = λ bytes w. (pos (length bytes), w ++ bytes);
  wait_for_bytes_written = λ w. w;
  error_string = λ w. "";
  error = λ w. pos 0;
  port_name = λ w. "COM2";
}

abbrev in_socket : IsPlugged modem
in_socket = record { sent = λ w. w; write = λ bytes w e f. (refl, refl) }

abbrev line : SerialPort (List ℕ)
line = record { bytes_read = 0; bytes_written = 0; world = 4 ∷ []; emitted = [] }

abbrev Devices : Type 0
Devices = Station (TcpServer ℕ (ℕ × (List ℕ × List ℕ))) (SerialPort (List ℕ))

-- The client sends data, and the port answers.
abbrev call : List (Arrival ℕ)
call = at_server (TcpServer.ready_read 0) ∷ at_port ((1 ∷ []) ∷ (2 ∷ []) ∷ []) ∷ []

server_runs :
    IsRunning
      (EitherReady (IsServed office 0) (IsOpen in_socket com2))
      (running_handler {S = Devices} "server" (first serving))
unfolding occurrences
server_runs = record { runs = refl; hears = (0, refl); passes = refl; ready = refl }

port_runs :
    IsRunning
      (EitherReady (IsServed office 0) (IsOpen in_socket com2))
      (running_handler {S = Devices} "port" (second line))
port_runs = record { runs = refl; hears = (0, refl); passes = refl; ready = refl }

bridge-IsPaired_example :
    (hs : List (Handler Devices)) × (g' : Handler Devices) × (h' : Handler Devices) × (log : Log)
    × (occur_all
          (bridge_io client in_socket discreet com2)
          2
          both_ways
          (map event_of (map (slot_of client in_socket discreet com2) call))
          (running_handler "server" (first serving) ∷ running_handler "port" (second line) ∷ [])
        ≡ some (hs, log))
    × (get_elem? hs 0 ≡ some g')
    × (get_elem? hs 1 ≡ some h')
    × IsPaired
        (IsServed office 0)
        (IsOpen in_socket com2)
        (sent_to client)
        (sent_by in_socket com2)
        serving
        line
        log
        (running_handler "server" (first serving))
        (running_handler "port" (second line))
        g'
        h'
    × ((s' : TcpServer ℕ (ℕ × (List ℕ × List ℕ))) × (g'.io ≡ first s')
        × (office_ear.heard s'.world ≡ data_of 0 log))
    × (data_of 1 log ≡ 1 ∷ 2 ∷ [])
bridge-IsPaired_example =
    bridge-IsPaired client in_socket discreet com2 office_ear 0 call serving line
      (running_handler "server" (first serving)) (running_handler "port" (second line)) refl
      (tt, (tt, tt)) refl refl server_runs port_runs
