-- ===== src/Device/WebSocketServer.antt =====
-- src/ioproxy/io/WebSocketServerIO.cpp: the server of web sockets. No signal of the server is connected
-- to a slot, so that nothing calls the slots below but those of a socket that is in the list.
use ioproxy.Base.{
  ℕ, ◌≡◌, refl, String, Bool, true, false, List, [], ◌∷◌, ◌++◌, All, if◌then◌else◌, Bool-cases, inl,
  inr,
}
use ioproxy.Base.Int.{pos}
use ioproxy.Io.{DataPack, pack_of, Signal}
use ioproxy.Factory.WebSocketServer.{Options}
use ioproxy.Device.{Format, text, number}

-- `QWebSocketServer` and `QWebSocket`: what the code calls, over the state of the network.
pub record Net (Address Socket World : Type 0) : Type 0 where
  pub same : Socket → Socket → Bool
  pub format : Format
  pub from_utf8 : List ℕ → String
  pub to_utf8 : String → List ℕ
  pub new_server : String → World → World
  pub listen : Address → ℕ → World → Bool × World
  pub server_error : World → String
  pub send_binary_message : Socket → List ℕ → World → World
  pub send_text_message : Socket → String → World → World
  pub delete_later : Socket → World → World

pub record WebSocketServer (Socket World : Type 0) : Type 0 where
  pub server : Bool
  pub sockets : List Socket
  pub world : World
  pub emitted : List Signal

module _ {Socket World : Type 0} where
  abbrev pub new_web_socket_server : World → WebSocketServer Socket World
  new_web_socket_server w = record { server = false; sockets = []; world = w; emitted = [] }

  abbrev pub emit : Signal → WebSocketServer Socket World → WebSocketServer Socket World
  emit x s = record s { emitted = x ∷ s.emitted }

module _ {Address Socket World : Type 0} (net : Net Address Socket World) where
  unfoldable pub start :
      Options Address → WebSocketServer Socket World → WebSocketServer Socket World
  start opts s =
      let (listening, w) =
        net.listen opts.bind_address opts.bind_port (net.new_server opts.server_name s.world) in
      let t = record s { server = true; world = w } in
      if listening then t else emit (Signal.error_occured (net.server_error w)) t

  unfoldable pub stop : WebSocketServer Socket World → WebSocketServer Socket World
  stop s = s

  unfoldable pub send_all : Options Address → List Socket → DataPack → World → World
  send_all opts [] p w = w
  send_all opts (x ∷ xs) p w = send_all opts xs p (
      if opts.binary
      then net.send_binary_message x p.bytes w
      else net.send_text_message x (net.from_utf8 p.bytes) w)

  unfoldable pub write_data :
      Options Address → DataPack → WebSocketServer Socket World → WebSocketServer Socket World
  unfolding send_all
  write_data opts p s = record s { world = send_all opts s.sockets p s.world }

  unfoldable pub on_accept_error : ℕ → WebSocketServer Socket World → WebSocketServer Socket World
  on_accept_error error s =
      emit (Signal.error_occured (net.format "Accept error (err=%1)" (number (pos error) ∷ []))) s

  unfoldable pub on_alert_received :
      ℕ → ℕ → String → WebSocketServer Socket World → WebSocketServer Socket World
  on_alert_received level type description s =
      emit
        (Signal.error_occured (
          net.format "Alert received (level=%1; type=%2; description=%3)"
            (number (pos level) ∷ number (pos type) ∷ text description ∷ [])))
        s

  unfoldable pub on_alert_sent :
      ℕ → ℕ → String → WebSocketServer Socket World → WebSocketServer Socket World
  on_alert_sent level type description s =
      emit
        (Signal.error_occured (
          net.format "Alert sent (level=%1; type=%2; description=%3)"
            (number (pos level) ∷ number (pos type) ∷ text description ∷ [])))
        s

  unfoldable pub on_handshake_interrupted_on_error :
      String → WebSocketServer Socket World → WebSocketServer Socket World
  on_handshake_interrupted_on_error error s =
      emit (Signal.error_occured (net.format "Handshake interrupted error: %1" (text error ∷ []))) s

  -- The pending connections, in the order that `nextPendingConnection` gives them.
  unfoldable pub on_new_connection :
      List Socket → WebSocketServer Socket World → WebSocketServer Socket World
  on_new_connection pending s = record s { sockets = s.sockets ++ pending }

  -- `QList::removeOne`.
  unfoldable pub remove_one : Socket → List Socket → List Socket
  remove_one sock [] = []
  remove_one sock (x ∷ xs) =
      let rest = remove_one sock xs in if net.same x sock then xs else x ∷ rest

  unfoldable pub on_web_socket_disconnected :
      Socket → WebSocketServer Socket World → WebSocketServer Socket World
  unfolding remove_one
  on_web_socket_disconnected sock s = record s {
    sockets = remove_one sock s.sockets;
    world = net.delete_later sock s.world;
  }

  unfoldable pub on_web_socket_binary_message_received :
      List ℕ → WebSocketServer Socket World → WebSocketServer Socket World
  on_web_socket_binary_message_received message s = emit (Signal.new_data (pack_of message)) s

  unfoldable pub on_web_socket_text_message_received :
      String → WebSocketServer Socket World → WebSocketServer Socket World
  on_web_socket_text_message_received message s =
      emit (Signal.new_data (pack_of (net.to_utf8 message))) s

-- What can happen to a server: the calls of it, and the `disconnected` of one of its sockets.
pub data Event (Socket : Type 0) : Type 0 where
  call_start call_stop : Event Socket
  call_write_data : DataPack → Event Socket
  disconnected : Socket → Event Socket

module _ {Address Socket World : Type 0} (net : Net Address Socket World)
    (opts : Options Address) where
  -- A socket that is not in the list is not connected to the slot.
  unfoldable pub handle : Event Socket → WebSocketServer Socket World → WebSocketServer Socket World
  unfolding start stop write_data on_web_socket_disconnected
  handle call_start s = start net opts s
  handle call_stop s = stop net s
  handle (call_write_data p) s = write_data net opts p s
  handle (disconnected sock) s = elim s.sockets [
    | [] ↦ s
    | _ ∷ _ ↦ on_web_socket_disconnected net sock s
  ]

  unfoldable pub run :
      List (Event Socket) → WebSocketServer Socket World → WebSocketServer Socket World
  unfolding handle
  run [] s = s
  run (event ∷ events) s = run events (handle event s)

  -- A signal that says nothing of a start, and carries no data.
  abbrev pub IsError : Signal → Type 0
  IsError x = (m : String) × (x ≡ Signal.error_occured m)

  abbrev pub IsDeaf : WebSocketServer Socket World → Type 0
  IsDeaf s = (s.sockets ≡ []) × All IsError s.emitted

  handle-IsDeaf :
      (event : Event Socket) (s : WebSocketServer Socket World) → IsDeaf s → IsDeaf (handle event s)
  unfolding handle start
  handle-IsDeaf call_start s (a, b) =
      elim (Bool-cases
        (net.listen opts.bind_address opts.bind_port (net.new_server opts.server_name s.world)).0) [
          | inl e ↦ (rw (e, a) (refl, b))
          | inr e ↦ (rw (e, a) (refl, ((_, refl), b)))
        ]
  handle-IsDeaf call_stop s d = d
  handle-IsDeaf (call_write_data p) s d = d
  handle-IsDeaf (disconnected sock) s (a, b) = rw (a, handle) (a, b)

  run_from-IsDeaf :
      (events : List (Event Socket)) (s : WebSocketServer Socket World)
      → IsDeaf s
      → IsDeaf (run events s)
  unfolding run
  run_from-IsDeaf [] s d = d
  run_from-IsDeaf (event ∷ events) s d =
      run_from-IsDeaf events (handle event s) (handle-IsDeaf event s d)

  -- Whatever calls it gets, a server of web sockets has no socket, and emits neither that it started,
  -- nor that it could not, nor data: only errors.
  pub run-IsDeaf :
      (events : List (Event Socket)) (w : World) → IsDeaf (run events (new_web_socket_server w))
  run-IsDeaf events w = run_from-IsDeaf events (new_web_socket_server w) (refl, tt)
