-- ===== src/Device/WebSocket.antt =====
-- src/ioproxy/io/WebSocketIO.cpp: the client of a web socket. `timers` counts the pending
-- `QTimer::singleShot`s of `reconnect`. The slots whose bodies are empty are one event.
pub mod Reconnect
use ioproxy.Base.{
  ℕ, zero, suc, ◌+◌, String, Bool, true, false, not, ◌&&◌, List, [], ◌∷◌, if◌then◌else◌,
}
use ioproxy.Base.Int.{ℤ, pos, pos_part, eq_ℤ}
use ioproxy.Io.{DataPack, pack_of, count, Signal}
use ioproxy.Factory.WebSocket.{Options}
use ioproxy.Device.{Format, text, number}

-- `QWebSocket` and the conversions of `QString`: what the code calls, over the state of the network.
pub record Net (Address World : Type 0) : Type 0 where
  pub address_text : Address → String
  pub from_utf8 : List ℕ → String
  pub to_utf8 : String → List ℕ
  pub format : Format
  pub new_socket : World → World
  pub open_url : Address → World → World
  pub is_connected : World → Bool
  pub is_valid : World → Bool
  pub send_binary_message : List ℕ → World → ℤ × World
  pub send_text_message : String → World → ℤ × World
  pub close : World → World
  pub peer_address : World → String
  pub peer_port : World → ℕ
  pub error_string : World → String

pub record WebSocket (World : Type 0) : Type 0 where
  pub socket : Bool
  pub timers : ℕ
  pub bytes_read : ℕ
  pub bytes_written : ℕ
  pub world : World
  pub emitted : List Signal

abbrev pub new_web_socket : {World : Type 0} → World → WebSocket World
new_web_socket w = record {
  socket = false;
  timers = 0;
  bytes_read = 0;
  bytes_written = 0;
  world = w;
  emitted = [];
}

abbrev pub emit : {World : Type 0} → Signal → WebSocket World → WebSocket World
emit x s = record s { emitted = x ∷ s.emitted }

module _ {Address World : Type 0} (net : Net Address World) where
  unfoldable pub stop : WebSocket World → WebSocket World
  stop s = if s.socket then record s { socket = false; world = net.close s.world } else s

  unfoldable pub connect_to_remote : Options Address → WebSocket World → WebSocket World
  unfolding stop
  connect_to_remote opts s =
      let t = stop s in
      record t { socket = true; world = net.open_url opts.remote_url (net.new_socket t.world) }

  unfoldable pub start : Options Address → WebSocket World → WebSocket World
  unfolding connect_to_remote
  start opts s = emit Signal.started (connect_to_remote opts s)

  -- The error of a message that was not sent in full.
  unfoldable pub short_message : ℤ → DataPack → World → String
  short_message written p w = net.format "writtenBytes (%1) != data.size (%2); remote=%3:%4" (
      number written
      ∷ number (pos (count p))
      ∷ text (net.peer_address w)
      ∷ number (pos (net.peer_port w))
      ∷ [])

  unfoldable pub write_data : Options Address → DataPack → WebSocket World → WebSocket World
  unfolding short_message
  write_data opts p s =
      let (written, w) =
        if opts.binary
        then net.send_binary_message p.bytes s.world
        else net.send_text_message (net.from_utf8 p.bytes) s.world in
      if not (s.socket && (net.is_connected s.world && net.is_valid s.world))
      then s
      else (if eq_ℤ written (pos (count p))
          then record s { bytes_written = s.bytes_written + pos_part written; world = w }
          else emit (Signal.error_occured (short_message written p w)) (record s { world = w }))

  -- A single shot of 500 ms on `connectToRemote`.
  unfoldable pub reconnect : WebSocket World → WebSocket World
  reconnect s = record s { timers = suc s.timers }

  unfoldable pub on_socket_error_occured : Options Address → WebSocket World → WebSocket World
  unfolding reconnect
  on_socket_error_occured opts s =
      let t =
        emit
          (Signal.error_occured (
            net.format "Error for connection to %1 (%2)"
              (text (net.address_text opts.remote_url) ∷ text (net.error_string s.world) ∷ [])))
          s in
      if opts.reconnect then reconnect t else t

  unfoldable pub on_binary_message_received : List ℕ → WebSocket World → WebSocket World
  on_binary_message_received message s = emit (Signal.new_data (pack_of message)) s

  unfoldable pub on_text_message_received : String → WebSocket World → WebSocket World
  on_text_message_received message s = emit (Signal.new_data (pack_of (net.to_utf8 message))) s

  -- A pending timer fires.
  unfoldable pub on_timer : Options Address → WebSocket World → WebSocket World
  unfolding connect_to_remote
  on_timer opts s = elim s.timers [
    | zero ↦ s
    | suc n ↦ connect_to_remote opts (record s { timers = n })
  ]

-- What can happen to the IO: calls, the signals of its socket, and a timer.
pub data Event : Type 0 where
  call_start call_stop socket_error timer ignored : Event
  call_write_data : DataPack → Event
  binary_message : List ℕ → Event
  text_message : String → Event

module _ {Address World : Type 0} (net : Net Address World) (opts : Options Address) where
  unfoldable pub handle : Event → WebSocket World → WebSocket World
  unfolding start stop write_data on_socket_error_occured on_binary_message_received
      on_text_message_received on_timer
  handle call_start s = start net opts s
  handle call_stop s = stop net s
  handle socket_error s = on_socket_error_occured net opts s
  handle timer s = on_timer net opts s
  handle ignored s = s
  handle (call_write_data p) s = write_data net opts p s
  handle (binary_message message) s = on_binary_message_received net message s
  handle (text_message message) s = on_text_message_received net message s

  unfoldable pub run : List Event → WebSocket World → WebSocket World
  unfolding handle
  run [] s = s
  run (event ∷ events) s = run events (handle event s)
