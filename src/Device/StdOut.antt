-- ===== src/Device/StdOut.antt =====
-- src/ioproxy/io/StdOutIO.cpp and src/echo-plugin/EchoIO.cpp: the IO that prints what is written to it,
-- and the IO that emits it again.
use ioproxy.Base.{ℕ, ◌+◌, String, List, [], ◌∷◌}
use ioproxy.Io.{Signal, Io}

-- `QString(QByteArray)` with `toStdString`, and `QString::size`, which counts UTF-16 code units.
pub record TextOutput (World : Type 0) : Type 0 where
  pub from_utf8 : List ℕ → String
  pub size : String → ℕ
  pub print : String → World → World

pub record StdOut (World : Type 0) : Type 0 where
  pub bytes_written : ℕ
  pub world : World

module _ {World : Type 0} (out : TextOutput World) where
  unfoldable pub std_out_io : Io (StdOut World)
  std_out_io = record {
    start = λ s. (s, Signal.started ∷ []);
    stop = λ s. (s, []);
    write_data = λ p s.
        let str = out.from_utf8 p.bytes in
        (
          record s {
            bytes_written = s.bytes_written + out.size str;
            world = out.print str s.world;
          },
          [],
        );
  }

-- The echo IO keeps no state of its own: `S` is whatever stands beside it.
unfoldable pub echo_io : {S : Type 0} → Io S
echo_io = record {
  start = λ s. (s, Signal.started ∷ []);
  stop = λ s. (s, []);
  write_data = λ p s. (s, Signal.new_data p ∷ []);
}
