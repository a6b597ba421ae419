-- ===== src/Relay/Said.antt =====
-- src/ioproxy/io/TcpSocketIO.cpp and SerialPortIO.hpp: the chunks that a read takes are what it emits.
use mathlib.Core.List.{append_assoc, append-nil}
use ioproxy.Base.{ℕ, ◌≡◌, refl, sym, ap, ◌∙◌, List, [], ◌∷◌, ◌++◌, arith}
use ioproxy.Io.{Signal}
use ioproxy.Device.{oldest_first}
use ioproxy.Device.TcpSocket
use ioproxy.Device.TcpSocket.{TcpSocket, Event}
use ioproxy.Device.SerialPort
use ioproxy.Device.SerialPort.{Port, SerialPort}
use ioproxy.Factory.TcpSocket.{Options}
use ioproxy.Relay.Client.{IsPassive}
use ioproxy.Relay.Heard.{bytes_of, bytes_of-append}

-- Chunks one after the other.
abbrev pub joined : List (List ℕ) → List ℕ
joined [] = []
joined (chunk ∷ chunks) = chunk ++ joined chunks

-- What was emitted before the newest chunk, then the chunk, then the rest.
emitted_next :
    (signals : List Signal) (x : Signal) (chunk rest : List ℕ)
    → bytes_of (x ∷ []) ≡ chunk
    → bytes_of (oldest_first (x ∷ signals)) ++ rest
      ≡ bytes_of (oldest_first signals) ++ (chunk ++ rest)
emitted_next signals x chunk rest e =
    ap (λ l. l ++ rest) (bytes_of-append (oldest_first signals) (x ∷ []))
    ∙ (append_assoc (bytes_of (oldest_first signals)) (bytes_of (x ∷ [])) rest
        ∙ ap (λ l. bytes_of (oldest_first signals) ++ (l ++ rest)) e)

module _ {Info World : Type 0} (port : Port Info World) where
  on_ready_read-bytes_of :
      (chunks : List (List ℕ)) (s : SerialPort World)
      → bytes_of (oldest_first (SerialPort.on_ready_read port chunks s).emitted)
        ≡ bytes_of (oldest_first s.emitted) ++ joined chunks
  unfolding SerialPort.on_ready_read bytes_of
  on_ready_read-bytes_of [] s = sym (append-nil (bytes_of (oldest_first s.emitted)))
  on_ready_read-bytes_of (chunk ∷ chunks) s =
      on_ready_read-bytes_of chunks _
      ∙ emitted_next s.emitted _ chunk (joined chunks) (append-nil chunk)

  -- A read of the port emits the chunks.
  pub slot-bytes_of :
      (chunks : List (List ℕ)) (s : SerialPort World)
      → bytes_of (SerialPort.slot port (SerialPort.on_ready_read port chunks) s).1 ≡ joined chunks
  unfolding bytes_of
  slot-bytes_of chunks s = on_ready_read-bytes_of chunks (record s { emitted = [] })

-- What a socket is to say of an event: the chunks that are read.
abbrev pub told_by : Event → List ℕ
told_by (Event.ready_read chunks) = joined chunks
told_by _ = []

module _ {Address World : Type 0} (net : TcpSocket.Net Address World) (opts : Options Address) where
  on_socket_ready_read-bytes_of :
      (chunks : List (List ℕ)) (s : TcpSocket World)
      → bytes_of (oldest_first (TcpSocket.on_socket_ready_read net chunks s).emitted)
        ≡ bytes_of (oldest_first s.emitted) ++ joined chunks
  unfolding TcpSocket.on_socket_ready_read bytes_of
  on_socket_ready_read-bytes_of [] s = sym (append-nil (bytes_of (oldest_first s.emitted)))
  on_socket_ready_read-bytes_of (chunk ∷ chunks) s =
      on_socket_ready_read-bytes_of chunks _
      ∙ emitted_next s.emitted _ chunk (joined chunks) (append-nil chunk)

  socket_error-bytes_of :
      (s : TcpSocket World)
      → bytes_of (
          oldest_first
            (TcpSocket.on_socket_error_occured net opts (record s { emitted = [] })).emitted)
        ≡ []
  unfolding TcpSocket.on_socket_error_occured TcpSocket.reconnect bytes_of
  socket_error-bytes_of s = ground arith

  -- Whatever happens to a socket that stays connected, it emits the chunks that are read.
  pub handle-told_by :
      (event : Event) (s : TcpSocket World)
      → IsPassive event
      → bytes_of (TcpSocket.slot net opts (TcpSocket.handle net opts event) s).1 ≡ told_by event
  unfolding TcpSocket.handle TcpSocket.on_socket_connected bytes_of
  handle-told_by Event.connected s passive = refl
  handle-told_by Event.disconnected s passive = refl
  handle-told_by Event.socket_error s passive = socket_error-bytes_of s
  handle-told_by (Event.ready_read chunks) s passive =
      on_socket_ready_read-bytes_of chunks (record s { emitted = [] })
  handle-told_by Event.call_start s passive = elim passive [ ]
  handle-told_by Event.call_stop s passive = elim passive [ ]
  handle-told_by Event.timer s passive = elim passive [ ]
  handle-told_by (Event.call_write_data p) s passive = elim passive [ ]
