-- ===== src/Tests/Files.antt =====
-- Runs of the file writer, the file reader and the byte generator, with a small disk and a small platform.
use ioproxy.Base.{
  ℕ, zero, suc, ◌+◌, ◌-◌, ◌/◌, ◌≡◌, ◌≤◌, ◌*◌, refl, String, Bool, true, false, List, [], ◌∷◌, ◌++◌,
  length, take, drop, replicate, arith,
}
use ioproxy.Base.Int.{ℤ, pos, pos_part}
use ioproxy.Io.{DataPack, pack_of}
use ioproxy.Device.{Format, received}
use ioproxy.Device.Files.{QFile, IsFiles, OpenFlag, write_only, read_only}
use ioproxy.Device.FileWriter
use ioproxy.Device.FileWriter.Written.{Outcome, write_all-start}
use ioproxy.Device.FileReader.Complete.{IsComplete, reading, start-IsComplete}
use ioproxy.Device.FileReader.RoundTrip.{written, timeouts-written}
use ioproxy.Device.ByteGenerator.{Platform, call_start, call_stop, timeout, run_all}
use ioproxy.Device.ByteGenerator.Emitted.{Emits, run_all-Emits}
use ioproxy.Device.ByteGenerator.Rate.{IsExact, generator, run_all-rate}

-- A file object: its name, whether it is open, and what it has left to read of the one file there is.
pub record Object : Type 0 where
  pub file_name : String
  is_open : Bool
  left : List ℕ

abbrev open_object : List OpenFlag → Object × List ℕ → Bool × (Object × List ℕ)
open_object (read_only ∷ _) (f, d) = (true, (record f { is_open = true; left = d }, d))
open_object (write_only ∷ []) (f, d) = (true, (record f { is_open = true }, []))
open_object _ (f, d) = (true, (record f { is_open = true }, d))

abbrev read_object : ℤ → Object × List ℕ → List ℕ × (Object × List ℕ)
read_object n (f, d) = (take (pos_part n) f.left, (record f { left = drop (pos_part n) f.left }, d))

abbrev pub disk : QFile Object (List ℕ)
disk = record {
  named_file = λ n. record { file_name = n; is_open = false; left = [] };
  new_file = record { file_name = ""; is_open = false; left = [] };
  set_file_name = λ n f. record f { file_name = n };
  is_open = λ f. f.is_open;
  error_string = λ f. "";
  open_file = open_object;
  close = λ w. (record w.0 { is_open = false }, w.1);
  read = read_object;
  write = λ bytes w. (pos (length bytes), (w.0, w.1 ++ bytes));
  flush = λ w. w;
}

abbrev pub disk_files : IsFiles disk
disk_files = record {
  name = λ f. f.file_name;
  content = λ n d. d;
  rest = λ w. w.0.left;
  name-named = λ n. refl;
  name-set = λ n f. refl;
  truncated = λ f d e. (refl, refl, refl);
  appended = λ f d e. (refl, refl, refl);
  opened = λ f d e. refl;
  read-rest = λ n w. (refl, refl);
  written = λ bytes f d o e. (o, refl, refl);
  closed = λ f d n. refl;
}

abbrev pub plain : Format
plain template arguments = template

abbrev pub appending : FileWriter.Options
appending = record { file_path = "log"; append = true; immediate = false }

abbrev pub two_packs : List DataPack
two_packs = pack_of (3 ∷ 4 ∷ []) ∷ pack_of (5 ∷ []) ∷ []

write_all-start_example : Outcome disk_files plain appending (1 ∷ 2 ∷ 3 ∷ 4 ∷ 5 ∷ []) 3 (
    FileWriter.write_all disk plain appending two_packs (
      FileWriter.start disk plain appending
        (FileWriter.new_file_writer disk plain appending (1 ∷ 2 ∷ []))))
write_all-start_example = write_all-start disk_files plain appending (1 ∷ 2 ∷ []) two_packs

start-IsComplete_example :
    IsComplete disk_files "log" 1 (1 ∷ 2 ∷ 3 ∷ []) (reading disk_files "log" 1 (1 ∷ 2 ∷ 3 ∷ []) 4)
start-IsComplete_example = start-IsComplete disk_files "log" 1 (1 ∷ 2 ∷ 3 ∷ []) refl 4 (omega arith)

timeouts-written_example : IsComplete disk_files "log" 1 (1 ∷ 2 ∷ 3 ∷ 4 ∷ 5 ∷ []) (
    reading disk_files "log" 1 (written disk_files plain appending two_packs (1 ∷ 2 ∷ [])).file.1 6)
unfolding FileWriter.stop FileWriter.write_all FileWriter.start FileWriter.new_file_writer
timeouts-written_example =
    timeouts-written disk_files plain appending two_packs (1 ∷ 2 ∷ []) 1 6 refl refl (omega arith)

abbrev exact : Platform
exact = record {
  ceil_quotient = λ a b. pos ((pos_part a + (pos_part b - 1)) / pos_part b);
  resize = λ n. replicate (pos_part n) 0;
}

length-replicate : (n a : ℕ) → length (replicate n a) ≡ n
length-replicate zero a = refl
length-replicate (suc n) a = omega (arith, length-replicate n a)

exact-IsExact : IsExact exact
exact-IsExact = record { ceil = λ a b _ _ _. refl; resized = λ n _. length-replicate n 0 }

run_all-rate_example :
    let g =
      run_all
        (call_start ∷ call_stop ∷ call_start ∷ timeout ∷ timeout ∷ [])
        (generator exact 1000 50) in
    (4000 ≤ 10 * received g.emitted) × (10 * received g.emitted ≤ 6000)
run_all-rate_example =
    run_all-rate exact exact-IsExact 1000 50 (omega arith) (omega arith) (omega arith) 1 1

run_all-Emits_example :
    Emits
      (generator exact 1000 50)
      (run_all (call_start ∷ timeout ∷ call_stop ∷ timeout ∷ []) (generator exact 1000 50))
run_all-Emits_example =
    run_all-Emits (call_start ∷ timeout ∷ call_stop ∷ timeout ∷ []) (generator exact 1000 50)
