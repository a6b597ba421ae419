-- ===== src/Device/FileReader.antt =====
-- src/ioproxy/io/FileReaderIO.hpp: the reader of a file and its IO, which counts what the reader emits and
-- emits it again. The timer is single shot with an interval of 0, so that a timeout is an event.
pub mod Complete
pub mod RoundTrip
use ioproxy.Base.{
  ℕ, zero, suc, ◌+◌, String, Bool, true, false, List, [], ◌∷◌, length, if◌then◌else◌,
}
use ioproxy.Base.Int.{ℤ}
use ioproxy.Io.{pack_of, Signal, Io}
use ioproxy.Device.Files.{QFile, read_only}

pub record Options : Type 0 where
  pub file_path : String
  pub buffer_size : ℤ

-- `file` is `m_file` with the disk that it reads.
pub record FileReader (File Disk : Type 0) : Type 0 where
  pub file : File × Disk
  pub timer : Bool
  pub bytes_read : ℕ
  pub emitted : List Signal

module _ {File Disk : Type 0} (q : QFile File Disk) (opts : Options) where
  unfoldable pub new_file_reader : Disk → FileReader File Disk
  new_file_reader d = record {
    file = (q.named_file opts.file_path, d);
    timer = false;
    bytes_read = 0;
    emitted = [];
  }

  unfoldable pub start_reading : FileReader File Disk → FileReader File Disk
  start_reading s = record s { file = (q.open_file (read_only ∷ []) s.file).1; timer = true }

  -- The slot of `newData`.
  unfoldable pub on_new_data : List ℕ → FileReader File Disk → FileReader File Disk
  on_new_data ba s = record s {
    bytes_read = s.bytes_read + length ba;
    emitted = Signal.new_data (pack_of ba) ∷ s.emitted;
  }

  unfoldable pub read_next : FileReader File Disk → FileReader File Disk
  unfolding on_new_data
  read_next s =
      let (ba, file) = q.read opts.buffer_size s.file in
      let t = record s { timer = false; file = file } in
      elim ba [ [] ↦ t | x ∷ xs ↦ record (on_new_data (x ∷ xs) t) { timer = true } ]

  unfoldable pub start : FileReader File Disk → FileReader File Disk
  unfolding start_reading
  start s = let t = start_reading s in record t { emitted = Signal.started ∷ t.emitted }

  unfoldable pub stop : FileReader File Disk → FileReader File Disk
  stop s = s

  -- `writeData` is the one of `IOBase`, which does nothing.
  unfoldable pub file_reader_io : Io (FileReader File Disk)
  unfolding start stop
  file_reader_io = record {
    start = λ s. let t = start (record s { emitted = [] }) in (t, t.emitted);
    stop = λ s. let t = stop (record s { emitted = [] }) in (t, t.emitted);
    write_data = λ p s. (s, []);
  }

  -- One time that the timer fires, which it does while it is active.
  unfoldable pub timeout : FileReader File Disk → FileReader File Disk
  unfolding read_next
  timeout s = if s.timer then read_next s else s

  unfoldable pub timeouts : ℕ → FileReader File Disk → FileReader File Disk
  unfolding timeout
  timeouts zero s = s
  timeouts (suc n) s = timeouts n (timeout s)
