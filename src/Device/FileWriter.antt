-- ===== src/Device/FileWriter.antt =====
-- src/ioproxy/io/FileWriterIO.hpp: the IO that writes its data to a file. The test of a failed flush is
-- commented out in the source, and `immediate` is not read.
pub mod Written
use ioproxy.Base.{ℕ, ◌+◌, String, Bool, List, [], ◌∷◌, if◌then◌else◌}
use ioproxy.Base.Int.{pos, eq_ℤ}
use ioproxy.Io.{DataPack, count, Signal, Io}
use ioproxy.Device.{Format, text, number}
use ioproxy.Device.Files.{QFile, OpenFlag, write_only}

pub record Options : Type 0 where
  pub file_path : String
  pub append : Bool
  pub immediate : Bool

pub record FileWriter (File Disk : Type 0) : Type 0 where
  pub file : File × Disk
  pub bytes_written : ℕ
  pub emitted : List Signal

module _ {File Disk : Type 0} (q : QFile File Disk) (format : Format) (opts : Options) where
  unfoldable pub new_file_writer : Disk → FileWriter File Disk
  new_file_writer d = record { file = (q.new_file, d); bytes_written = 0; emitted = [] }

  unfoldable pub open_mode : List OpenFlag
  open_mode = if opts.append then write_only ∷ OpenFlag.append ∷ [] else write_only ∷ []

  abbrev pub emit : Signal → FileWriter File Disk → FileWriter File Disk
  emit x s = record s { emitted = x ∷ s.emitted }

  unfoldable pub start : FileWriter File Disk → FileWriter File Disk
  unfolding open_mode
  start s =
      let named = q.set_file_name opts.file_path s.file.0 in
      let (opened, file) = q.open_file open_mode (named, s.file.1) in
      let t = record s { file = file } in
      if opened
      then emit Signal.started t
      else emit
          (Signal.startup_error_occured
            (format "%1 %2" (text (q.error_string file.0) ∷ text opts.file_path ∷ [])))
          t

  unfoldable pub stop : FileWriter File Disk → FileWriter File Disk
  stop s = if q.is_open s.file.0 then record s { file = q.close s.file } else s

  unfoldable pub write_data : DataPack → FileWriter File Disk → FileWriter File Disk
  write_data p s =
      let (bytes_written, file) = q.write p.bytes s.file in
      let t = record s { file = file } in
      if q.is_open s.file.0
      then if eq_ℤ bytes_written (pos (count p))
        then record t { file = q.flush file; bytes_written = s.bytes_written + count p }
        else emit
            (Signal.error_occured (
              format "bytesWritten (%1) != data.size (%2)"
                (number bytes_written ∷ number (pos (count p)) ∷ [])))
            t
      else emit (Signal.error_occured "File not open.") s

  unfoldable pub write_all : List DataPack → FileWriter File Disk → FileWriter File Disk
  unfolding write_data
  write_all [] s = s
  write_all (p ∷ ps) s = write_all ps (write_data p s)

  -- The writer as an IO of an engine: a call emits what it puts into `emitted`, one signal at most.
  unfoldable pub file_writer_io : Io (FileWriter File Disk)
  unfolding start stop write_data
  file_writer_io = record {
    start = λ s. let t = start (record s { emitted = [] }) in (t, t.emitted);
    stop = λ s. let t = stop (record s { emitted = [] }) in (t, t.emitted);
    write_data = λ p s. let t = write_data p (record s { emitted = [] }) in (t, t.emitted);
  }
