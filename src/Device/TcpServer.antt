-- ===== src/Device/TcpServer.antt =====
-- src/ioproxy/io/TcpServerIO.cpp: the server and its sockets. A socket's signals are connected to
-- the slots while it is in the list of sockets; the `disconnected` signals of the sockets that
-- `stop` aborts are later events.

pub mod Counts
use ioproxy.Base.{
  ℕ, ◌+◌, String, Bool, not, ◌==◌, ◌++◌, Option, none, some, List, [], ◌∷◌, length, if◌then◌else◌,
}
use ioproxy.Base.Int.{ℤ, pos, pos_part, ltb_ℤ, eq_ℤ}
use ioproxy.Io.{DataPack, pack_of, count, Signal, Io}
use ioproxy.Factory.TcpServer.{Options}
use ioproxy.Device.{Format, text, number, oldest_first}

-- `QTcpServer` and `QTcpSocket`: what the code calls, over the state of the network.
pub record Net (Address Socket World : Type 0) : Type 0 where
  pub any : Address
  pub is_null : Address → Bool
  pub same : Socket → Socket → Bool
  pub format : Format
  pub listen : Address → ℕ → World → Bool × World
  pub server_error : World → String
  pub close : World → World
  pub next_pending_connection : World → Option Socket × World
  pub set_read_buffer_size : Socket → ℤ → World → World
  pub write : Socket → List ℕ → World → ℤ × World
  pub bytes_available : Socket → World → ℕ
  pub read : Socket → ℕ → World → List ℕ × World
  pub abort : Socket → World → World
  pub delete : Socket → World → World
  pub delete_later : Socket → World → World
  pub peer_address : Socket → World → String
  pub peer_port : Socket → World → ℕ
  pub error_string : Socket → World → String

pub record TcpServer (Socket World : Type 0) : Type 0 where
  pub sockets : List Socket
  pub bytes_read : ℕ
  pub bytes_written : ℕ
  pub world : World
  pub emitted : List Signal

module _ {Socket World : Type 0} where
  abbrev pub new_server : World → TcpServer Socket World
  new_server w = record { sockets = []; bytes_read = 0; bytes_written = 0; world = w; emitted = [] }

  abbrev pub emit : Signal → TcpServer Socket World → TcpServer Socket World
  emit x s = record s { emitted = x ∷ s.emitted }

module _ {Address Socket World : Type 0} (net : Net Address Socket World) where
  unfoldable pub start : Options Address → TcpServer Socket World → TcpServer Socket World
  start opts s =
      let address = if net.is_null opts.bind_address then net.any else opts.bind_address in
      let (listening, w) = net.listen address opts.bind_port s.world in
      if listening
      then emit Signal.started (record s { world = w })
      else emit
          (Signal.startup_error_occured
            (net.format "Can not listen: %1" (text (net.server_error w) ∷ [])))
          (record s { world = w })

  -- `abort` and `delete` of each socket.
  unfoldable pub abort_all : List Socket → World → World
  abort_all [] w = w
  abort_all (x ∷ xs) w = abort_all xs (net.delete x (net.abort x w))

  unfoldable pub stop : TcpServer Socket World → TcpServer Socket World
  unfolding abort_all
  stop s = record s { world = abort_all s.sockets (net.close s.world); sockets = [] }

  unfoldable pub write_socket : Socket → DataPack → TcpServer Socket World → TcpServer Socket World
  write_socket sock p s =
      let (written, w) = net.write sock p.bytes s.world in
      if eq_ℤ written (pos (count p))
      then record s { bytes_written = s.bytes_written + pos_part written; world = w }
      else emit
          (Signal.error_occured (
            net.format "writtenBytes (%1) != data.size (%2); remote=%3:%4" (
              number written
              ∷ number (pos (count p))
              ∷ text (net.peer_address sock w)
              ∷ number (pos (net.peer_port sock w))
              ∷ [])))
          (record s { world = w })

  unfoldable pub write_each :
      List Socket → DataPack → TcpServer Socket World → TcpServer Socket World
  unfolding write_socket
  write_each [] p s = s
  write_each (x ∷ xs) p s = write_each xs p (write_socket x p s)

  unfoldable pub write_data : DataPack → TcpServer Socket World → TcpServer Socket World
  unfolding write_each
  write_data p s = write_each s.sockets p s

  -- The error is Qt's number of it.
  unfoldable pub on_server_accept_error : ℕ → TcpServer Socket World → TcpServer Socket World
  on_server_accept_error error s =
      emit
        (Signal.error_occured (
          net.format "Can not accept socket. %1 %2"
            (number (pos error) ∷ text (net.server_error s.world) ∷ [])))
        s

  unfoldable pub on_server_new_connection :
      Options Address → TcpServer Socket World → TcpServer Socket World
  on_server_new_connection opts s =
      let (pending, w) = net.next_pending_connection s.world in
      elim pending [
        | none ↦ record s { world = w }
        | some sock ↦
            if not (ltb_ℤ (pos (length s.sockets)) opts.max_connections)
            then emit
                (Signal.error_occured (
                  net.format "Refuse incoming connection from %1:%2 (max-connections=%3)" (
                    text (net.peer_address sock w)
                    ∷ number (pos (net.peer_port sock w))
                    ∷ number opts.max_connections
                    ∷ [])))
                (record s { world = net.delete sock (net.abort sock w) })
            else record s {
              sockets = s.sockets ++ (sock ∷ []);
              world = net.set_read_buffer_size sock opts.read_buffer_size w;
            }
      ]

  -- The loop of a broadcast, which passes over the sender.
  unfoldable pub write_others :
      Socket → List Socket → DataPack → TcpServer Socket World → TcpServer Socket World
  unfolding write_socket
  write_others sock [] p s = s
  write_others sock (x ∷ xs) p s =
      write_others sock xs p (if net.same x sock then s else write_socket x p s)

  unfoldable pub on_socket_ready_read :
      Options Address → Socket → TcpServer Socket World → TcpServer Socket World
  unfolding write_others
  on_socket_ready_read opts sock s =
      if net.bytes_available sock s.world == 0
      then s
      else (let (bytes, w) = net.read sock (net.bytes_available sock s.world) s.world in
          let p = pack_of bytes in
          let t = record s { world = w } in
          let u = if opts.broadcast then write_others sock t.sockets p t else t in
          emit (Signal.new_data p) (record u { bytes_read = u.bytes_read + count p }))

  unfoldable pub on_socket_error_occured : Socket → TcpServer Socket World → TcpServer Socket World
  on_socket_error_occured sock s =
      emit
        (Signal.error_occured (
          net.format "Error for connection from %1:%2 (%3)" (
            text (net.peer_address sock s.world)
            ∷ number (pos (net.peer_port sock s.world))
            ∷ text (net.error_string sock s.world)
            ∷ [])))
        s

  -- `QList::removeOne`: the first entry that is the socket.
  unfoldable pub remove_one : Socket → List Socket → List Socket
  remove_one sock [] = []
  remove_one sock (x ∷ xs) =
      let rest = remove_one sock xs in if net.same x sock then xs else x ∷ rest

  unfoldable pub on_socket_disconnected : Socket → TcpServer Socket World → TcpServer Socket World
  unfolding remove_one
  on_socket_disconnected sock s = record s {
    sockets = remove_one sock s.sockets;
    world = net.delete_later sock s.world;
  }

-- What can happen to a server: the calls of it and the signals of Qt's objects.
pub data Event (Socket : Type 0) : Type 0 where
  call_start call_stop new_connection : Event Socket
  call_write_data : DataPack → Event Socket
  accept_error : ℕ → Event Socket
  ready_read socket_error disconnected : Socket → Event Socket

module _ {Address Socket World : Type 0} (net : Net Address Socket World) where
  -- The slots that the constructor and `onServerNewConnection` connect to the signals.
  unfoldable pub handle :
      Options Address → Event Socket → TcpServer Socket World → TcpServer Socket World
  unfolding start stop write_data on_server_accept_error on_server_new_connection
      on_socket_ready_read on_socket_error_occured on_socket_disconnected
  handle opts call_start s = start net opts s
  handle opts call_stop s = stop net s
  handle opts new_connection s = on_server_new_connection net opts s
  handle opts (call_write_data p) s = write_data net p s
  handle opts (accept_error error) s = on_server_accept_error net error s
  handle opts (ready_read sock) s = on_socket_ready_read net opts sock s
  handle opts (socket_error sock) s = on_socket_error_occured net sock s
  handle opts (disconnected sock) s = on_socket_disconnected net sock s

  unfoldable pub run :
      Options Address → List (Event Socket) → TcpServer Socket World → TcpServer Socket World
  unfolding handle
  run opts [] s = s
  run opts (event ∷ events) s = run opts events (handle opts event s)

  -- A slot, with the signals that it emits.
  abbrev pub slot :
      (TcpServer Socket World → TcpServer Socket World)
      → TcpServer Socket World
      → TcpServer Socket World × List Signal
  slot f s = let t = f (record s { emitted = [] }) in (t, oldest_first t.emitted)

  -- The server as an IO of an engine.
  unfoldable pub tcp_server_io : Options Address → Io (TcpServer Socket World)
  unfolding start stop write_data
  tcp_server_io opts = record {
    start = slot (start net opts);
    stop = slot (stop net);
    write_data = λ p. slot (write_data net p);
  }
