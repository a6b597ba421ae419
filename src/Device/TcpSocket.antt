-- ===== src/Device/TcpSocket.antt =====
-- src/ioproxy/io/TcpSocketIO.cpp: the client socket. `timers` counts the pending `QTimer::singleShot`s
-- of `reconnect`. A read is the list of the chunks that the loop of `onSocketReadyRead` reads.
pub mod Reconnect
use ioproxy.Base.{
  ℕ, zero, suc, ◌+◌, String, Bool, true, false, not, ◌&&◌, List, [], ◌∷◌, if◌then◌else◌,
}
use ioproxy.Base.Int.{ℤ, pos, pos_part, eq_ℤ}
use ioproxy.Io.{DataPack, pack_of, count, Signal, Io}
use ioproxy.Factory.TcpSocket.{Options}
use ioproxy.Device.{Format, text, number, oldest_first}

-- `QTcpSocket`: what the code calls, over the state of the network.
pub record Net (Address World : Type 0) : Type 0 where
  pub address_text : Address → String
  pub format : Format
  pub new_socket : World → World
  pub connect_to_host : Address → ℕ → World → World
  pub set_low_delay : World → World
  pub set_keep_alive : World → World
  pub is_connected : World → Bool
  pub write : List ℕ → World → ℤ × World
  pub wait_for_bytes_written : World → World
  pub close : World → World
  pub peer_address : World → String
  pub peer_port : World → ℕ
  pub error_string : World → String

pub record TcpSocket (World : Type 0) : Type 0 where
  pub socket : Bool
  pub timers : ℕ
  pub bytes_read : ℕ
  pub bytes_written : ℕ
  pub world : World
  pub emitted : List Signal

abbrev pub new_socket_io : {World : Type 0} → World → TcpSocket World
new_socket_io w = record {
  socket = false;
  timers = 0;
  bytes_read = 0;
  bytes_written = 0;
  world = w;
  emitted = [];
}

abbrev pub emit : {World : Type 0} → Signal → TcpSocket World → TcpSocket World
emit x s = record s { emitted = x ∷ s.emitted }

module _ {Address World : Type 0} (net : Net Address World) where
  unfoldable pub stop : TcpSocket World → TcpSocket World
  stop s = if s.socket then record s { socket = false; world = net.close s.world } else s

  unfoldable pub connect_to_remote : Options Address → TcpSocket World → TcpSocket World
  unfolding stop
  connect_to_remote opts s =
      let t = stop s in
      record t {
        socket = true;
        world = net.connect_to_host opts.remote_address opts.remote_port (net.new_socket t.world);
      }

  unfoldable pub start : Options Address → TcpSocket World → TcpSocket World
  unfolding connect_to_remote
  start opts s = emit Signal.started (connect_to_remote opts s)

  -- The error of a write that did not take all bytes.
  unfoldable pub short_write : ℤ → DataPack → World → String
  short_write written p w = net.format "writtenBytes (%1) != data.size (%2); remote=%3:%4" (
      number written
      ∷ number (pos (count p))
      ∷ text (net.peer_address w)
      ∷ number (pos (net.peer_port w))
      ∷ [])

  unfoldable pub write_data : DataPack → TcpSocket World → TcpSocket World
  unfolding short_write
  write_data p s =
      let (written, w) = net.write p.bytes s.world in
      if not (s.socket && net.is_connected s.world)
      then s
      else (if eq_ℤ written (pos (count p))
          then record s {
            bytes_written = s.bytes_written + pos_part written;
            world = net.wait_for_bytes_written w;
          }
          else emit (Signal.error_occured (short_write written p w)) (record s { world = w }))

  unfoldable pub on_socket_connected : Options Address → TcpSocket World → TcpSocket World
  on_socket_connected opts s =
      let w = if opts.tcp_no_delay_option then net.set_low_delay s.world else s.world in
      record s { world = if opts.tcp_keep_alive_option then net.set_keep_alive w else w }

  -- A single shot of 500 ms on `connectToRemote`.
  unfoldable pub reconnect : TcpSocket World → TcpSocket World
  reconnect s = record s { timers = suc s.timers }

  unfoldable pub on_socket_error_occured : Options Address → TcpSocket World → TcpSocket World
  unfolding reconnect
  on_socket_error_occured opts s =
      let t =
        emit
          (Signal.error_occured (
            net.format "Error for connection to %1:%2 (%3)" (
              text (net.address_text opts.remote_address)
              ∷ number (pos opts.remote_port)
              ∷ text (net.error_string s.world)
              ∷ [])))
          s in
      if opts.reconnect then reconnect t else t

  unfoldable pub on_socket_ready_read : List (List ℕ) → TcpSocket World → TcpSocket World
  on_socket_ready_read [] s = s
  on_socket_ready_read (bytes ∷ rest) s =
      let p = pack_of bytes in
      on_socket_ready_read rest
        (emit (Signal.new_data p) (record s { bytes_read = s.bytes_read + count p }))

  -- A pending timer fires.
  unfoldable pub on_timer : Options Address → TcpSocket World → TcpSocket World
  unfolding connect_to_remote
  on_timer opts s = elim s.timers [
    | zero ↦ s
    | suc n ↦ connect_to_remote opts (record s { timers = n })
  ]

-- What can happen to the IO: calls, the signals of its socket, and a timer.
pub data Event : Type 0 where
  call_start call_stop connected disconnected socket_error timer : Event
  call_write_data : DataPack → Event
  ready_read : List (List ℕ) → Event

module _ {Address World : Type 0} (net : Net Address World) (opts : Options Address) where
  unfoldable pub handle : Event → TcpSocket World → TcpSocket World
  unfolding start stop write_data on_socket_connected on_socket_error_occured on_socket_ready_read
      on_timer
  handle call_start s = start net opts s
  handle call_stop s = stop net s
  handle connected s = on_socket_connected net opts s
  handle disconnected s = s
  handle socket_error s = on_socket_error_occured net opts s
  handle timer s = on_timer net opts s
  handle (call_write_data p) s = write_data net p s
  handle (ready_read chunks) s = on_socket_ready_read net chunks s

  unfoldable pub run : List Event → TcpSocket World → TcpSocket World
  unfolding handle
  run [] s = s
  run (event ∷ events) s = run events (handle event s)

  -- A slot, with the signals that it emits.
  abbrev pub slot :
      (TcpSocket World → TcpSocket World) → TcpSocket World → TcpSocket World × List Signal
  slot f s = let t = f (record s { emitted = [] }) in (t, oldest_first t.emitted)

  -- The socket as an IO of an engine.
  unfoldable pub tcp_socket_io : Io (TcpSocket World)
  unfolding start stop write_data
  tcp_socket_io = record {
    start = slot (start net opts);
    stop = slot (stop net);
    write_data = λ p. slot (write_data net p);
  }
