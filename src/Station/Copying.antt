-- ===== src/Station/Copying.antt =====
-- src/ioproxy/Engine.cpp, Handler.cpp, io/FileReaderIO.hpp and io/FileWriterIO.hpp together: an engine that
-- copies a file. The reads of the file are events of the reader's timer, outside the calls of the engine.
use mathlib.Core.Path.{subst}
use mathlib.Core.List.{append_assoc, append-nil}
use ioproxy.Base.{
  ℕ, suc, ◌<◌, ◌≡◌, refl, sym, ap, ◌∙◌, String, true, false, List, [], ◌∷◌, ◌++◌, length,
}
use ioproxy.Io.{DataPack, Signal, Io}
use ioproxy.Engine.Lookup.{same_id}
use ioproxy.Device.{Format}
use ioproxy.Device.Files.{QFile, IsFiles, read_only}
use ioproxy.Device.FileReader
use ioproxy.Device.FileReader.{FileReader, new_file_reader, file_reader_io}
use ioproxy.Device.FileReader.Complete.{opts, data_of, reading, start-IsComplete}
use ioproxy.Device.FileWriter
use ioproxy.Device.FileWriter.Written.{kept, bytes_of}
use ioproxy.Station.Recording.{Session, record-Recorded}
use ioproxy.Station.Recording.Ending.{Recorded}

-- The packs among some signals, the newest signal first, in the order in which they were emitted.
abbrev pub packs_of : List Signal → List DataPack
packs_of [] = []
packs_of (Signal.new_data p ∷ signals) = packs_of signals ++ (p ∷ [])
packs_of (_ ∷ signals) = packs_of signals

bytes_of-append : (ps qs : List DataPack) → bytes_of (ps ++ qs) ≡ bytes_of ps ++ bytes_of qs
bytes_of-append [] qs = refl
bytes_of-append (p ∷ ps) qs =
    ap (λ l. p.bytes ++ l) (bytes_of-append ps qs)
    ∙ sym (append_assoc p.bytes (bytes_of ps) (bytes_of qs))

bytes_of-packs_of : (signals : List Signal) → bytes_of (packs_of signals) ≡ data_of signals
bytes_of-packs_of [] = refl
bytes_of-packs_of (Signal.started ∷ signals) = bytes_of-packs_of signals
bytes_of-packs_of (Signal.startup_error_occured m ∷ signals) = bytes_of-packs_of signals
bytes_of-packs_of (Signal.error_occured m ∷ signals) = bytes_of-packs_of signals
bytes_of-packs_of (Signal.new_data p ∷ signals) =
    bytes_of-append (packs_of signals) (p ∷ [])
    ∙ (ap (λ l. l ++ bytes_of (p ∷ [])) (bytes_of-packs_of signals)
        ∙ ap (λ l. data_of signals ++ l) (append-nil p.bytes))

module _ {File Disk : Type 0} {q : QFile File Disk} (files : IsFiles q) (format : Format)
    (name : String) (n : ℕ) (target : FileWriter.Options) where
  -- The reader as the source of an engine.
  abbrev pub reader : Io (FileReader File Disk)
  reader = file_reader_io q (opts files name n)

  pub reader-quiet : (a : FileReader File Disk) → (reader.stop a).1 ≡ []
  unfolding file_reader_io
  reader-quiet a = refl

  reader-starts : (a : FileReader File Disk) → (reader.start a).1 ≡ Signal.started ∷ []
  unfolding file_reader_io FileReader.start FileReader.start_reading
  reader-starts a = refl

  -- What the reader of the disk `d` emits in `k` timeouts.
  abbrev pub emitted_packs : Disk → ℕ → List DataPack
  emitted_packs d k = packs_of (reading files name n d k).emitted

  -- An engine connects a file reader, which can open its file, to a file writer, under names that differ
  -- without case. It is started, passes on what the reader emits in more timeouts than the file has bytes,
  -- and is stopped. Then each call ends, and afterwards the writer's file has what the writer kept of it, and
  -- then the whole content of the reader's file, all of it counted by both handlers; or the handler of the
  -- writer has the state failed.
  pub copy-Recorded :
      {F : Type 0} (fold_case : String → String) (fuel k : ℕ) (x y : String) (from to : Disk)
      → same_id fold_case x y ≡ false
      → (q.open_file (read_only ∷ []) (q.named_file name, from)).0 ≡ true
      → length (files.content name from) < k
      → (s : Session files format target reader reader-quiet F fold_case
          (suc (suc fuel))
          x
          y
          (new_file_reader q (opts files name n) from)
          to
          (emitted_packs from k))
        × Recorded files format target reader
            (kept files format target to ++ files.content name from)
            (length (files.content name from))
            s.ended.handlers
  copy-Recorded {F} fold_case fuel k x y from to differ opens enough =
      let s =
        record-Recorded files format target reader reader-quiet {F = F} fold_case fuel x y
          (new_file_reader q (opts files name n) from) to (emitted_packs from k) differ
          (reader-starts _) in
      let all =
        bytes_of-packs_of (reading files name n from k).emitted
        ∙ (start-IsComplete files name n from opens k enough).emitted in
      (
        s,
        subst
            (λ l.
              Recorded files format target reader (kept files format target to ++ l) (length l)
                s.ended.handlers)
            all s.result,
      )
