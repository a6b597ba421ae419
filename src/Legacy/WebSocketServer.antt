-- ===== src/Legacy/WebSocketServer.antt =====
-- legacy/WebSocketServerIO.hpp: an older server of web sockets. A socket's signals are connected to the
-- slots while it is in the list; the `disconnected` signals of the sockets that `stop` aborts are later
-- events.
pub mod Counts
use ioproxy.Base.{
  ℕ, ◌+◌, String, Bool, not, Option, none, some, List, [], ◌∷◌, ◌++◌, length, if◌then◌else◌,
}
use ioproxy.Base.Int.{ℤ, pos, pos_part, ltb_ℤ, eq_ℤ}
use ioproxy.Io.{DataPack, pack_of, count, Signal}
use ioproxy.Device.{Format, text, number}

pub data DataMode : Type 0 where
  binary_mode text_mode : DataMode

-- `dataHandling` has one value.
pub record Options (Address : Type 0) : Type 0 where
  pub bind_address : Address
  pub bind_port : ℕ
  pub max_connections : ℤ
  pub broadcast : Bool
  pub write_data_mode : DataMode

-- `QWebSocketServer` and `QWebSocket`: what the code calls, over the state of the network. `size` is
-- `QString::size`.
pub record Net (Address Socket World : Type 0) : Type 0 where
  pub any : Address
  pub is_null : Address → Bool
  pub same : Socket → Socket → Bool
  pub format : Format
  pub from_utf8 : List ℕ → String
  pub to_utf8 : String → List ℕ
  pub size : String → ℕ
  pub listen : Address → ℕ → World → Bool × World
  pub server_error : World → String
  pub close : World → World
  pub next_pending_connection : World → Option Socket × World
  pub send_binary_message : Socket → List ℕ → World → ℤ × World
  pub send_text_message : Socket → String → World → ℤ × World
  pub abort : Socket → World → World
  pub delete : Socket → World → World
  pub delete_later : Socket → World → World
  pub peer_address : Socket → World → String
  pub peer_port : Socket → World → ℕ
  pub error_string : Socket → World → String

pub record WebSocketServer (Socket World : Type 0) : Type 0 where
  pub sockets : List Socket
  pub bytes_read : ℕ
  pub bytes_written : ℕ
  pub world : World
  pub emitted : List Signal

module _ {Socket World : Type 0} where
  abbrev pub new_server : World → WebSocketServer Socket World
  new_server w = record { sockets = []; bytes_read = 0; bytes_written = 0; world = w; emitted = [] }

  abbrev pub emit : Signal → WebSocketServer Socket World → WebSocketServer Socket World
  emit x s = record s { emitted = x ∷ s.emitted }

module _ {Address Socket World : Type 0} (net : Net Address Socket World) where
  unfoldable pub start :
      Options Address → WebSocketServer Socket World → WebSocketServer Socket World
  start opts s =
      let address = if net.is_null opts.bind_address then net.any else opts.bind_address in
      let (listening, w) = net.listen address opts.bind_port s.world in
      if listening
      then emit Signal.started (record s { world = w })
      else emit
          (Signal.startup_error_occured
            (net.format "Can not listen: %1" (text (net.server_error w) ∷ [])))
          (record s { world = w })

  -- `abort` and `delete` of each socket.
  unfoldable pub abort_all : List Socket → World → World
  abort_all [] w = w
  abort_all (x ∷ xs) w = abort_all xs (net.delete x (net.abort x w))

  unfoldable pub stop : WebSocketServer Socket World → WebSocketServer Socket World
  unfolding abort_all
  stop s = record s { world = abort_all s.sockets (net.close s.world); sockets = [] }

  abbrev pub send : DataMode → Socket → List ℕ → World → ℤ × World
  send binary_mode sock bytes w = net.send_binary_message sock bytes w
  send text_mode sock bytes w = net.send_text_message sock (net.from_utf8 bytes) w

  unfoldable pub write_socket :
      Options Address
      → Socket
      → DataPack
      → WebSocketServer Socket World
      → WebSocketServer Socket World
  write_socket opts sock p s =
      let (written, w) = send opts.write_data_mode sock p.bytes s.world in
      if not (eq_ℤ written (pos (count p)))
      then emit
          (Signal.error_occured (
            net.format "writtenBytes (%1) != data.size (%2); remote=%3:%4" (
              number written
              ∷ number (pos (count p))
              ∷ text (net.peer_address sock w)
              ∷ number (pos (net.peer_port sock w))
              ∷ [])))
          (record s { world = w })
      else record s { bytes_written = s.bytes_written + pos_part written; world = w }

  unfoldable pub write_each :
      Options Address
      → List Socket
      → DataPack
      → WebSocketServer Socket World
      → WebSocketServer Socket World
  unfolding write_socket
  write_each opts [] p s = s
  write_each opts (x ∷ xs) p s = write_each opts xs p (write_socket opts x p s)

  unfoldable pub write_data :
      Options Address → DataPack → WebSocketServer Socket World → WebSocketServer Socket World
  unfolding write_each
  write_data opts p s = write_each opts s.sockets p s

  -- The error is Qt's number of it.
  unfoldable pub on_server_accept_error :
      ℕ → WebSocketServer Socket World → WebSocketServer Socket World
  on_server_accept_error error s =
      emit
        (Signal.error_occured (
          net.format "Can not accept socket. %1 %2"
            (number (pos error) ∷ text (net.server_error s.world) ∷ [])))
        s

  unfoldable pub on_server_new_connection :
      Options Address → WebSocketServer Socket World → WebSocketServer Socket World
  on_server_new_connection opts s =
      let (pending, w) = net.next_pending_connection s.world in
      elim pending [
        | none ↦ record s { world = w }
        | some sock ↦
            if not (ltb_ℤ (pos (length s.sockets)) opts.max_connections)
            then emit
                (Signal.error_occured (
                  net.format "Refuse incoming connection from %1:%2 (max-connections=%3)" (
                    text (net.peer_address sock w)
                    ∷ number (pos (net.peer_port sock w))
                    ∷ number opts.max_connections
                    ∷ [])))
                (record s { world = net.delete sock (net.abort sock w) })
            else record s { sockets = s.sockets ++ (sock ∷ []); world = w }
      ]

  unfoldable pub on_binary_message_received :
      List ℕ → WebSocketServer Socket World → WebSocketServer Socket World
  on_binary_message_received message s =
      emit (Signal.new_data (pack_of message))
        (record s { bytes_read = s.bytes_read + length message })

  unfoldable pub on_text_message_received :
      String → WebSocketServer Socket World → WebSocketServer Socket World
  on_text_message_received message s =
      emit (Signal.new_data (pack_of (net.to_utf8 message)))
        (record s { bytes_read = s.bytes_read + net.size message })

  unfoldable pub on_socket_error :
      Socket → WebSocketServer Socket World → WebSocketServer Socket World
  on_socket_error sock s =
      emit
        (Signal.error_occured (
          net.format "Error for connection from %1:%2 (%3)" (
            text (net.peer_address sock s.world)
            ∷ number (pos (net.peer_port sock s.world))
            ∷ text (net.error_string sock s.world)
            ∷ [])))
        s

  -- `QList::removeOne`: the first entry that is the socket.
  unfoldable pub remove_one : Socket → List Socket → List Socket
  remove_one sock [] = []
  remove_one sock (x ∷ xs) =
      let rest = remove_one sock xs in if net.same x sock then xs else x ∷ rest

  unfoldable pub on_socket_disconnected :
      Socket → WebSocketServer Socket World → WebSocketServer Socket World
  unfolding remove_one
  on_socket_disconnected sock s = record s {
    sockets = remove_one sock s.sockets;
    world = net.delete_later sock s.world;
  }

-- What can happen to a server: the calls of it and the signals of Qt's objects.
pub data Event (Socket : Type 0) : Type 0 where
  call_start call_stop new_connection : Event Socket
  call_write_data : DataPack → Event Socket
  accept_error : ℕ → Event Socket
  binary_message : List ℕ → Event Socket
  text_message : String → Event Socket
  socket_error disconnected : Socket → Event Socket

module _ {Address Socket World : Type 0} (net : Net Address Socket World) where
  -- The slots that the constructor and `onServerNewConnection` connect to the signals.
  unfoldable pub handle :
      Options Address → Event Socket → WebSocketServer Socket World → WebSocketServer Socket World
  unfolding start stop write_data on_server_accept_error on_server_new_connection
      on_binary_message_received on_text_message_received on_socket_error on_socket_disconnected
  handle opts call_start s = start net opts s
  handle opts call_stop s = stop net s
  handle opts new_connection s = on_server_new_connection net opts s
  handle opts (call_write_data p) s = write_data net opts p s
  handle opts (accept_error error) s = on_server_accept_error net error s
  handle opts (binary_message message) s = on_binary_message_received net message s
  handle opts (text_message message) s = on_text_message_received net message s
  handle opts (socket_error sock) s = on_socket_error net sock s
  handle opts (disconnected sock) s = on_socket_disconnected net sock s

  unfoldable pub run :
      Options Address
      → List (Event Socket)
      → WebSocketServer Socket World
      → WebSocketServer Socket World
  unfolding handle
  run opts [] s = s
  run opts (event ∷ events) s = run opts events (handle opts event s)
