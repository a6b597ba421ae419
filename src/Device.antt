-- ===== src/Device.antt =====
-- src/ioproxy/io: the IOs themselves, over the sockets and ports of Qt, which are parameters. A
-- model of an IO keeps the signals that it emitted, the newest first; a slot that one of them
-- calls, and that calls the IO again, is a later event here. The counts are `int64_t` in the
-- source; their overflow is not modelled.
pub mod TcpServer
pub mod SerialPort
pub mod TcpSocket
pub mod Udp
pub mod ByteGenerator
pub mod Files
pub mod FileReader
pub mod FileWriter
pub mod StdOut
pub mod WebSocketServer
pub mod WebSocket
use ioproxy.Base.{ℕ, suc, ◌+◌, String, List, [], ◌∷◌, ◌++◌}
use ioproxy.Base.Int.{ℤ}
use ioproxy.Io.{Signal, count}

-- The arguments of `QString::arg`.
pub data Arg : Type 0 where
  text : String → Arg
  number : ℤ → Arg

-- `QString(template).arg(...)`: Qt's formatting.
abbrev pub Format : Type 0
Format = String → List Arg → String

-- The number of errors among some signals.
abbrev pub errors : List Signal → ℕ
errors [] = 0
errors (Signal.error_occured m ∷ signals) = suc (errors signals)
errors (_ ∷ signals) = errors signals

-- The number of bytes in the data packs among some signals.
abbrev pub received : List Signal → ℕ
received [] = 0
received (Signal.new_data p ∷ signals) = received signals + count p
received (_ ∷ signals) = received signals

-- The signals of a call in the order in which it emitted them.
abbrev pub oldest_first : List Signal → List Signal
oldest_first [] = []
oldest_first (x ∷ signals) = oldest_first signals ++ (x ∷ [])

-- How a start ends: with `started`, or with a startup error.
pub data Startup : Type 0 where
  succeeded : Startup
  refused : String → Startup
