-- ===== src/Tests/Stations.antt =====
-- Runs of engines that record the data of a source in a file.
use ioproxy.Base.{ℕ, ◌+◌, refl, [], ◌∷◌, String, arith}
use ioproxy.Io.{Signal, Io}
use ioproxy.Station.Recording.{Session, record-Recorded}
use ioproxy.Station.Recording.Ending.{Recorded}
use ioproxy.Station.Copying.{reader, reader-quiet, emitted_packs, copy-Recorded}
use ioproxy.Device.FileReader.{new_file_reader}
use ioproxy.Device.FileReader.Complete.{opts}
use ioproxy.Tests.Files.{disk, disk_files, plain, appending, two_packs}

-- A source that starts at once, and counts its starts and stops.
abbrev clicker : Io ℕ
clicker = record {
  start = λ a. (a + 1, Signal.started ∷ []);
  stop = λ a. (a + 1, []);
  write_data = λ p a. (a, []);
}

-- Names are compared as they are.
abbrev as_written : String → String
as_written s = s

record-Recorded_example :
    Session disk_files plain appending clicker
      (λ a. refl)
      String
      as_written
      2
      "in"
      "log"
      0
      (1 ∷ 2 ∷ [])
      two_packs
record-Recorded_example =
    record-Recorded disk_files plain appending clicker (λ a. refl) as_written 0 "in" "log" 0
      (1 ∷ 2 ∷ []) two_packs refl refl

copy-Recorded_example :
    (s : Session disk_files plain appending
      (reader disk_files plain "in" 1 appending)
      (reader-quiet disk_files plain "in" 1 appending)
      String
      as_written
      2
      "r"
      "w"
      (new_file_reader disk (opts disk_files "in" 1) (7 ∷ 8 ∷ 9 ∷ []))
      (1 ∷ [])
      (emitted_packs disk_files plain "in" 1 appending (7 ∷ 8 ∷ 9 ∷ []) 4))
    × Recorded disk_files plain appending
        (reader disk_files plain "in" 1 appending)
        (1 ∷ 7 ∷ 8 ∷ 9 ∷ [])
        3
        s.ended.handlers
copy-Recorded_example =
    copy-Recorded disk_files plain "in" 1 appending as_written 0 4 "r" "w" (7 ∷ 8 ∷ 9 ∷ []) (1 ∷ [])
      refl refl (omega arith)
