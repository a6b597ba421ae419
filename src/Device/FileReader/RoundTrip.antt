-- ===== src/Device/FileReader/RoundTrip.antt =====
-- src/ioproxy/io/FileWriterIO.hpp and FileReaderIO.hpp: what the one writes, the other reads.
use mathlib.Core.Path.{subst}
use ioproxy.Base.{
  ℕ, ◌<◌, ◌≡◌, ap, ◌∙◌, true, Bool-cases, if_true, if_false, List, [], ◌∷◌, length, arith, inl, inr,
  ◌++◌,
}
use ioproxy.Io.{DataPack}
use ioproxy.Device.{Format}
use ioproxy.Device.Files.{QFile, IsFiles, read_only}
use ioproxy.Device.FileWriter
use ioproxy.Device.FileWriter.{FileWriter, new_file_writer, write_all}
use ioproxy.Device.FileWriter.Written.{problems, bytes_of, kept, write_all-start}
use ioproxy.Device.FileReader.Complete.{reading, IsComplete, start-IsComplete}

module _ {File Disk : Type 0} {q : QFile File Disk} (files : IsFiles q) (format : Format) where
  -- A writer of a file after its start, its data and its stop.
  abbrev pub written : FileWriter.Options → List DataPack → Disk → FileWriter File Disk
  written o ps d =
      FileWriter.stop q format o
        (write_all q format o ps (FileWriter.start q format o (new_file_writer q format o d)))

  module _ (o : FileWriter.Options) where
    pub stop-content :
        (s : FileWriter File Disk)
        → files.content o.file_path (FileWriter.stop q format o s).file.1
          ≡ files.content o.file_path s.file.1
    unfolding FileWriter.stop
    stop-content s = elim (Bool-cases (q.is_open s.file.0)) [
      | inl e ↦
          ap (λ (t : FileWriter File Disk). files.content o.file_path t.file.1) (if_true _ _ e)
          ∙ files.closed s.file.0 s.file.1 o.file_path
      | inr e ↦
          ap (λ (t : FileWriter File Disk). files.content o.file_path t.file.1) (if_false _ _ e)
    ]

    pub stop-emitted :
        (s : FileWriter File Disk) → (FileWriter.stop q format o s).emitted ≡ s.emitted
    unfolding FileWriter.stop
    stop-emitted s = elim (Bool-cases (q.is_open s.file.0)) [
      | inl e ↦ ap (λ (t : FileWriter File Disk). t.emitted) (if_true _ _ e)
      | inr e ↦ ap (λ (t : FileWriter File Disk). t.emitted) (if_false _ _ e)
    ]

    content-written :
        (ps : List DataPack) (d : Disk)
        → problems (written o ps d).emitted ≡ 0
        → files.content o.file_path (written o ps d).file.1 ≡ kept files format o d ++ bytes_of ps
    content-written ps d e =
        let s =
          write_all q format o ps (FileWriter.start q format o (new_file_writer q format o d)) in
        elim (write_all-start files format o d ps) [
          | inl h ↦ stop-content s ∙ h.content
          | inr h ↦ absurd (omega (arith, h, ap problems (stop-emitted s), e))
        ]

    -- After a writer that emitted no error has stopped, a reader that can open the same file emits what was
    -- in the file before, if the writer appends, and then what the writer was given, and comes to an end.
    pub timeouts-written :
        (ps : List DataPack) (d : Disk) (n k : ℕ)
        → problems (written o ps d).emitted ≡ 0
        → (q.open_file (read_only ∷ []) (q.named_file o.file_path, (written o ps d).file.1)).0
          ≡ true
        → length (kept files format o d ++ bytes_of ps) < k
        → IsComplete files o.file_path n
            (kept files format o d ++ bytes_of ps)
            (reading files o.file_path n (written o ps d).file.1 k)
    timeouts-written ps d n k e a l =
        let c = content-written ps d e in
        subst
          (λ content.
            IsComplete files o.file_path n content
              (reading files o.file_path n (written o ps d).file.1 k))
          c
          (start-IsComplete files o.file_path n (written o ps d).file.1 a k
            (omega (arith, ap length c, l)))
