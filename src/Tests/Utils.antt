-- ===== src/Tests/Utils.antt =====
-- Runs of the sizes, the signals, the status printer and the server of web sockets.
use ioproxy.Base.{ℕ, suc, ◌≡◌, String, true, none, List, [], ◌∷◌, ◌==◌}
use ioproxy.Base.Int.{ℤ, pos}
use ioproxy.Io.{pack_of}
use ioproxy.Engine.{Engine}
use ioproxy.Util.FileSize.{unit_of, Fits, unit_of-Fits}
use ioproxy.Util.Status
use ioproxy.Util.Status.{Output, new_printer, lines}
use ioproxy.Util.Status.Lines.{reports, lines-start}
use ioproxy.Handler.{new_handler}
use ioproxy.Factory.WebSocketServer.{Options}
use ioproxy.Device.WebSocketServer.{
  Net, IsDeaf, new_web_socket_server, call_start, call_write_data, disconnected, run, run-IsDeaf,
}

unit_of-Fits_example : Fits (pos 5000) ("KB", 1024)
unfolding unit_of
unit_of-Fits_example = unit_of-Fits (pos 5000)

abbrev output : Output
output = record { digits = λ a b c. "n"; join = λ a b. b; rate = λ a b. a; line = λ a b c d. a }

abbrev idle : Engine String ℕ
idle = record { io_factories = []; handlers = []; links = []; started = true }

abbrev busy : Engine String ℕ
busy = record {
  io_factories = [];
  handlers = record (new_handler "busy" 0) { bytes_read = 5; bytes_written = 2 } ∷ [];
  links = [];
  started = true;
}

abbrev ticks : List (ℤ × Engine String ℕ)
ticks = (pos 1000, idle) ∷ (pos 2000, busy) ∷ []

lines-start_example :
    (lines output ticks (Status.start new_printer) ≡ reports output 0 0 (pos 0) ticks)
    × (lines output ticks (Status.stop new_printer) ≡ none ∷ none ∷ [])
    × (lines output ticks (Status.start (Status.stop new_printer))
        ≡ reports output 0 0 (pos 0) ticks)
lines-start_example = lines-start output ticks new_printer

-- Sockets are numbers.
abbrev web : Net String ℕ ℕ
web = record {
  same = λ a b. a == b;
  format = λ template arguments. template;
  from_utf8 = λ bytes. "";
  to_utf8 = λ text. [];
  new_server = λ name w. w;
  listen = λ address port w. (true, suc w);
  server_error = λ w. "";
  send_binary_message = λ x bytes w. w;
  send_text_message = λ x text w. w;
  delete_later = λ x w. w;
}

abbrev server_options : Options String
server_options = record { bind_address = "any"; bind_port = 80; server_name = "s"; binary = true }

run-IsDeaf_example : IsDeaf web server_options (
    run web server_options
      (call_start ∷ call_write_data (pack_of []) ∷ disconnected 3 ∷ [])
      (new_web_socket_server 0))
run-IsDeaf_example =
    run-IsDeaf web server_options (call_start ∷ call_write_data (pack_of []) ∷ disconnected 3 ∷ [])
      0
