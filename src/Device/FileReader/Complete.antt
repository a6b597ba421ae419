-- ===== src/Device/FileReader/Complete.antt =====
-- src/ioproxy/io/FileReaderIO.hpp: the reader emits the whole file, in order, and comes to an end.
use mathlib.Core.List.{append_assoc, append-nil}
use mathlib.Core.Path.{subst}
use ioproxy.Base.{
  if_true, if_false, ℕ, zero, suc, ◌+◌, ◌<◌, ◌≤◌, ◌≡◌, refl, sym, ap, ◌∙◌, String, true, false,
  List, [], ◌∷◌, ◌++◌, length, take, drop, All, take-append-drop, length-take_le, length-drop_le,
  length-append, arith,
}
use ioproxy.Base.Int.{pos}
use ioproxy.Io.{pack_of, count, Signal}
use ioproxy.Device.Files.{QFile, IsFiles, read_only}
use ioproxy.Device.FileReader.{
  Options, FileReader, new_file_reader, start, start_reading, read_next, on_new_data, timeout,
  timeouts,
}

-- The data of some signals, the newest first, in the order in which it was emitted.
abbrev pub data_of : List Signal → List ℕ
data_of [] = []
data_of (Signal.new_data p ∷ signals) = data_of signals ++ p.bytes
data_of (_ ∷ signals) = data_of signals

-- A pack of data has at least one byte and at most `n`.
abbrev pub IsChunk : ℕ → Signal → Type 0
IsChunk n (Signal.new_data p) = (0 < count p) × (count p ≤ n)
IsChunk n (Signal.error_occured _) = 1 ≤ 0
IsChunk n _ = 0 ≤ n

module _ {File Disk : Type 0} {q : QFile File Disk} (files : IsFiles q) (name : String)
    (n : ℕ) where
  abbrev pub opts : Options
  opts = record { file_path = name; buffer_size = pos (suc n) }

  -- What is emitted and what is left make up the content.
  record Reads (content : List ℕ) (s : FileReader File Disk) : Type 0 where
    emitted : data_of s.emitted ++ files.rest s.file ≡ content
    counted : s.bytes_read ≡ length (data_of s.emitted)
    chunks : All (IsChunk (suc n)) s.emitted

  read_next-done :
      (s : FileReader File Disk)
      → files.rest s.file ≡ []
      → read_next q opts s ≡ record s { timer = false; file = (q.read (pos (suc n)) s.file).1 }
  unfolding read_next
  read_next-done s e = rw ((files.read-rest n s.file).0 ∙ ap (take (suc n)) e, read_next)

  read_next-more :
      (s : FileReader File Disk) (x : ℕ) (xs : List ℕ)
      → files.rest s.file ≡ x ∷ xs
      → read_next q opts s ≡ record s {
        timer = true;
        file = (q.read (pos (suc n)) s.file).1;
        bytes_read = s.bytes_read + length (x ∷ take n xs);
        emitted = Signal.new_data (pack_of (x ∷ take n xs)) ∷ s.emitted;
      }
  unfolding read_next on_new_data
  read_next-more s x xs e = rw ((files.read-rest n s.file).0 ∙ ap (take (suc n)) e, read_next)

  rest-more :
      (s : FileReader File Disk) (x : ℕ) (xs : List ℕ)
      → files.rest s.file ≡ x ∷ xs
      → files.rest (q.read (pos (suc n)) s.file).1 ≡ drop n xs
  rest-more s x xs e = (files.read-rest n s.file).1 ∙ ap (drop (suc n)) e

  read_next-Reads :
      (content : List ℕ) (s : FileReader File Disk) (x : ℕ) (xs : List ℕ)
      → files.rest s.file ≡ x ∷ xs
      → Reads content s
      → Reads content (read_next q opts s)
  read_next-Reads content s x xs e h = rw (read_next-more s x xs e) (record {
    emitted =
        append_assoc (data_of s.emitted) (x ∷ take n xs) _
        ∙ ap (λ l. data_of s.emitted ++ (x ∷ (take n xs ++ l))) (rest-more s x xs e)
        ∙ ap (λ l. data_of s.emitted ++ (x ∷ l)) (take-append-drop n xs)
        ∙ ap (λ l. data_of s.emitted ++ l) (sym e)
        ∙ h.emitted;
    counted =
        ap (λ b. b + length (x ∷ take n xs)) h.counted
        ∙ sym (length-append (data_of s.emitted) (x ∷ take n xs));
    chunks = ((omega arith, omega (arith, length-take_le n xs)), h.chunks);
  })

  idle : (k : ℕ) (s : FileReader File Disk) → s.timer ≡ false → timeouts q opts k s ≡ s
  unfolding timeouts timeout
  idle zero s e = refl
  idle (suc k) s e = ap (timeouts q opts k) (if_false _ s e) ∙ idle k s e

  -- The timer is off, and all was emitted.
  pub record IsComplete (content : List ℕ) (s : FileReader File Disk) : Type 0 where
    pub stopped : s.timer ≡ false
    pub emitted : data_of s.emitted ≡ content
    pub counted : s.bytes_read ≡ length content
    pub chunks : All (IsChunk (suc n)) s.emitted

  timeouts-IsComplete :
      (k : ℕ) (content : List ℕ) (s : FileReader File Disk)
      → Reads content s
      → s.timer ≡ true
      → length (files.rest s.file) < k
      → IsComplete content (timeouts q opts k s)
  unfolding timeouts timeout
  timeouts-IsComplete zero content s h e l = absurd (omega (arith, l))
  timeouts-IsComplete (suc k) content s h e l =
      subst (λ t. IsComplete content (timeouts q opts k t)) (sym (if_true _ s e))
        (fired (files.rest s.file) refl (timeouts-IsComplete k content (read_next q opts s)))
    where
      fired :
          (rest : List ℕ)
          → files.rest s.file ≡ rest
          → (Reads content (read_next q opts s)
              → (read_next q opts s).timer ≡ true
              → length (files.rest (read_next q opts s).file) < k
              → IsComplete content (timeouts q opts k (read_next q opts s)))
          → IsComplete content (timeouts q opts k (read_next q opts s))
      fired [] f go =
          let all =
            sym (append-nil (data_of s.emitted))
            ∙ ap (λ l. data_of s.emitted ++ l) (sym f)
            ∙ h.emitted in
          let t = record s { timer = false; file = (q.read (pos (suc n)) s.file).1 } in
          subst (λ u. IsComplete content u)
            (sym (ap (timeouts q opts k) (read_next-done s f) ∙ idle k t refl))
            (record {
              stopped = refl;
              emitted = all;
              counted = h.counted ∙ ap length all;
              chunks = h.chunks;
            })
      fired (x ∷ xs) f go =
          go (read_next-Reads content s x xs f h) (ap (λ t. t.timer) (read_next-more s x xs f)) (
            let e1 = ap (λ t. length (files.rest t.file)) (read_next-more s x xs f) in
            let e2 = ap length (rest-more s x xs f) in
            omega (arith, e1, e2, length-drop_le n xs, ap length f, l))

  -- A reader after its start and `k` timeouts.
  abbrev pub reading : Disk → ℕ → FileReader File Disk
  reading d k = timeouts q opts k (start q opts (new_file_reader q opts d))

  -- A reader that could open its file emits the content of it, in order, in packs of at least one byte and
  -- at most its buffer's size, and then stops its timer: one timeout for every byte and one more are enough.
  pub start-IsComplete :
      (d : Disk)
      → (q.open_file (read_only ∷ []) (q.named_file name, d)).0 ≡ true
      → (k : ℕ) → length (files.content name d) < k
      → IsComplete (files.content name d) (reading d k)
  unfolding start start_reading new_file_reader
  start-IsComplete d e k l =
      let f =
        files.opened (q.named_file name) d e
        ∙ ap (λ m. files.content m d) (files.name-named name) in
      timeouts-IsComplete k (files.content name d) _
        (record { emitted = f; counted = refl; chunks = (omega arith, tt) }) refl
        (omega (arith, ap length f, l))
