-- ===== src/Tests/Devices.antt =====
-- Runs of the devices under src/ioproxy/io, with small networks in place of Qt's.
use ioproxy.Base.{ℕ, ◌+◌, String, true, false, ◌==◌, some, List, [], ◌∷◌, length, if◌then◌else◌}
use ioproxy.Base.Int.{pos, negsuc}
use ioproxy.Device.{Format}
use ioproxy.Device.TcpServer
use ioproxy.Device.TcpSocket
use ioproxy.Device.WebSocket
use ioproxy.Device.TcpServer.Counts.{run-IsSound}
use ioproxy.Device.TcpSocket.Reconnect.{run-IsCounted}
use ioproxy.Device.WebSocket.Reconnect.{run-IsUncounted}
use ioproxy.Factory.TcpServer as TcpServerFactory
use ioproxy.Factory.TcpSocket as TcpSocketFactory
use ioproxy.Factory.WebSocket as WebSocketFactory

-- Messages without their arguments.
abbrev pub plain : Format
plain template arguments = template

-- Sockets are numbers; the state is the number of the next connection. Socket 2 takes no byte.
abbrev lan : TcpServer.Net ℕ ℕ ℕ
lan = record {
  any = 0;
  is_null = λ a. a == 0;
  same = λ a b. a == b;
  format = plain;
  listen = λ a p w. (true, w);
  server_error = λ w. "";
  close = λ w. w;
  next_pending_connection = λ w. (some w, w + 1);
  set_read_buffer_size = λ s n w. w;
  write = λ s bytes w. (if s == 2 then negsuc 0 else pos (length bytes), w);
  bytes_available = λ s w. 2;
  read = λ s n w. (7 ∷ 8 ∷ [], w);
  abort = λ s w. w;
  delete = λ s w. w;
  delete_later = λ s w. w;
  peer_address = λ s w. "peer";
  peer_port = λ s w. 0;
  error_string = λ s w. "";
}

abbrev pub three_at_most : TcpServerFactory.Options ℕ
three_at_most = record {
  bind_address = 0;
  bind_port = 80;
  max_connections = pos 3;
  broadcast = true;
  read_buffer_size = pos 100;
}

abbrev server_events : List (TcpServer.Event ℕ)
server_events =
    TcpServer.call_start
    ∷ TcpServer.new_connection
    ∷ TcpServer.new_connection
    ∷ TcpServer.new_connection
    ∷ TcpServer.new_connection
    ∷ TcpServer.ready_read 1
    ∷ TcpServer.disconnected 1
    ∷ []

abbrev busy : TcpServer.TcpServer ℕ ℕ
busy = record {
  sockets = 1 ∷ 2 ∷ 3 ∷ [];
  bytes_read = 0;
  bytes_written = 0;
  world = 4;
  emitted = [];
}

run-IsSound_example :
    TcpServer.Counts.IsSound three_at_most
      (TcpServer.run lan three_at_most server_events (TcpServer.new_server 1))
run-IsSound_example = run-IsSound lan three_at_most server_events 1

-- A remote that always answers; the state counts the connects.
abbrev remote : TcpSocket.Net String ℕ
remote = record {
  address_text = λ a. a;
  format = plain;
  new_socket = λ w. w;
  connect_to_host = λ a p w. w + 1;
  set_low_delay = λ w. w;
  set_keep_alive = λ w. w;
  is_connected = λ w. true;
  write = λ bytes w. (pos (length bytes), w);
  wait_for_bytes_written = λ w. w;
  close = λ w. w;
  peer_address = λ w. "remote";
  peer_port = λ w. 80;
  error_string = λ w. "refused";
}

abbrev pub reconnecting : TcpSocketFactory.Options String
reconnecting = record {
  remote_address = "remote";
  remote_port = 80;
  reconnect = true;
  tcp_no_delay_option = false;
  tcp_keep_alive_option = false;
}

abbrev open_socket : TcpSocket.TcpSocket ℕ
open_socket = record {
  socket = true;
  timers = 0;
  bytes_read = 0;
  bytes_written = 0;
  world = 1;
  emitted = [];
}

abbrev socket_events : List TcpSocket.Event
socket_events =
    TcpSocket.call_start
    ∷ TcpSocket.ready_read ((1 ∷ 2 ∷ []) ∷ (3 ∷ []) ∷ [])
    ∷ TcpSocket.socket_error
    ∷ TcpSocket.timer
    ∷ []

run-IsCounted_example :
    TcpSocket.Reconnect.IsCounted reconnecting
      (TcpSocket.run remote reconnecting socket_events (TcpSocket.new_socket_io 0))
run-IsCounted_example = run-IsCounted remote reconnecting socket_events 0

abbrev site : WebSocket.Net String ℕ
site = record {
  address_text = λ a. a;
  from_utf8 = λ bytes. "text";
  to_utf8 = λ s. 7 ∷ [];
  format = plain;
  new_socket = λ w. w;
  open_url = λ a w. w + 1;
  is_connected = λ w. true;
  is_valid = λ w. true;
  send_binary_message = λ bytes w. (pos (length bytes), w);
  send_text_message = λ s w. (pos 4, w);
  close = λ w. w;
  peer_address = λ w. "site";
  peer_port = λ w. 80;
  error_string = λ w. "refused";
}

abbrev site_options : WebSocketFactory.Options String
site_options = record { remote_url = "ws://site"; reconnect = true; binary = false }

abbrev open_web_socket : WebSocket.WebSocket ℕ
open_web_socket = record {
  socket = true;
  timers = 0;
  bytes_read = 0;
  bytes_written = 0;
  world = 1;
  emitted = [];
}

abbrev site_events : List WebSocket.Event
site_events =
    WebSocket.call_start ∷ WebSocket.text_message "hi" ∷ WebSocket.binary_message (1 ∷ 2 ∷ []) ∷ []

run-IsUncounted_example :
    WebSocket.Reconnect.IsUncounted site_options
      (WebSocket.run site site_options site_events (WebSocket.new_web_socket 0))
run-IsUncounted_example = run-IsUncounted site site_options site_events 0
