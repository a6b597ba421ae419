-- ===== src/Tests/OlderIos.antt =====
-- A run of the older server of web sockets.
use ioproxy.Base.{ℕ, suc, ◌==◌, true, false, some, List, [], ◌∷◌, length}
use ioproxy.Base.Int.{pos}
use ioproxy.Io.{pack_of}
use ioproxy.Legacy.WebSocketServer
use ioproxy.Legacy.WebSocketServer.{Event}
use ioproxy.Legacy.WebSocketServer.Counts.{Tallies, run-Tallies}

-- Sockets are numbers; the state is the number of the next connection. Texts have two units and three bytes.
abbrev web : WebSocketServer.Net ℕ ℕ ℕ
web = record {
  any = 0;
  is_null = λ a. a == 0;
  same = λ a b. a == b;
  format = λ template arguments. template;
  from_utf8 = λ bytes. "";
  to_utf8 = λ s. 226 ∷ 130 ∷ 172 ∷ [];
  size = λ s. 2;
  listen = λ a p w. (true, w);
  server_error = λ w. "";
  close = λ w. w;
  next_pending_connection = λ w. (some w, suc w);
  send_binary_message = λ s bytes w. (pos (length bytes), w);
  send_text_message = λ s t w. (pos 0, w);
  abort = λ s w. w;
  delete = λ s w. w;
  delete_later = λ s w. w;
  peer_address = λ s w. "";
  peer_port = λ s w. 0;
  error_string = λ s w. "";
}

abbrev one_at_most : WebSocketServer.Options ℕ
one_at_most = record {
  bind_address = 0;
  bind_port = 80;
  max_connections = pos 1;
  broadcast = false;
  write_data_mode = WebSocketServer.text_mode;
}

abbrev happenings : List (Event ℕ)
happenings =
    Event.call_start
    ∷ Event.new_connection
    ∷ Event.new_connection
    ∷ Event.text_message "e"
    ∷ Event.binary_message (1 ∷ 2 ∷ [])
    ∷ Event.call_write_data (pack_of (5 ∷ []))
    ∷ Event.disconnected 1
    ∷ Event.call_stop
    ∷ []

run-Tallies_example :
    Tallies one_at_most 4
      ((226 ∷ 130 ∷ 172 ∷ []) ∷ (1 ∷ 2 ∷ []) ∷ [])
      (WebSocketServer.run web one_at_most happenings (WebSocketServer.new_server 1))
run-Tallies_example = run-Tallies web one_at_most happenings 1
