-- ===== src/Device/Files.antt =====
-- Qt's `QFile`, as src/ioproxy/io/FileReaderIO.hpp and FileWriterIO.hpp use it, and what its documentation
-- says of those calls. `File` is the state of one object, `Disk` what all of them share.
use ioproxy.Base.{ℕ, suc, ◌≡◌, String, Bool, true, List, [], ◌∷◌, ◌++◌, length, take, drop}
use ioproxy.Base.Int.{ℤ, pos}

-- `QIODevice::OpenModeFlag`
pub data OpenFlag : Type 0 where
  read_only write_only append : OpenFlag

pub record QFile (File Disk : Type 0) : Type 0 where
  -- `QFile(name)` and `QFile()`
  pub named_file : String → File
  pub new_file : File
  pub set_file_name : String → File → File
  pub is_open : File → Bool
  pub error_string : File → String
  pub open_file : List OpenFlag → File × Disk → Bool × (File × Disk)
  pub close : File × Disk → File × Disk
  pub read : ℤ → File × Disk → List ℕ × (File × Disk)
  pub write : List ℕ → File × Disk → ℤ × (File × Disk)
  pub flush : File × Disk → File × Disk

-- The documented behaviour: `content` is what a file of that name holds, and `rest` what an open one has
-- not read of it. A write is in the file once it is flushed, if it was complete.
pub record IsFiles {File Disk : Type 0} (q : QFile File Disk) : Type 0 where
  pub name : File → String
  pub content : String → Disk → List ℕ
  pub rest : File × Disk → List ℕ
  pub name-named : (n : String) → name (q.named_file n) ≡ n
  pub name-set : (n : String) (f : File) → name (q.set_file_name n f) ≡ n
  pub truncated :
      (f : File) (d : Disk)
      → let r = q.open_file (write_only ∷ []) (f, d) in
        r.0 ≡ true
        → (q.is_open r.1.0 ≡ true) × (name r.1.0 ≡ name f) × (content (name f) r.1.1 ≡ [])
  pub appended :
      (f : File) (d : Disk)
      → let r = q.open_file (write_only ∷ append ∷ []) (f, d) in
        r.0 ≡ true
        → (q.is_open r.1.0 ≡ true)
          × (name r.1.0 ≡ name f)
          × (content (name f) r.1.1 ≡ content (name f) d)
  pub opened :
      (f : File) (d : Disk)
      → let r = q.open_file (read_only ∷ []) (f, d) in r.0 ≡ true → rest r.1 ≡ content (name f) d
  pub read-rest :
      (n : ℕ) (w : File × Disk)
      → let r = q.read (pos (suc n)) w in
        (r.0 ≡ take (suc n) (rest w)) × (rest r.1 ≡ drop (suc n) (rest w))
  pub written :
      (bytes : List ℕ) (f : File) (d : Disk)
      → q.is_open f ≡ true
      → let r = q.write bytes (f, d) in
        let w = q.flush r.1 in
        r.0 ≡ pos (length bytes)
        → (q.is_open w.0 ≡ true)
          × (name w.0 ≡ name f)
          × (content (name f) w.1 ≡ content (name f) d ++ bytes)
  pub closed : (f : File) (d : Disk) (n : String) → content n (q.close (f, d)).1 ≡ content n d
