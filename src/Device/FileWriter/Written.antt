-- ===== src/Device/FileWriter/Written.antt =====
-- src/ioproxy/io/FileWriterIO.hpp: what is written is in the file, or an error was emitted.
use mathlib.Core.Path.{subst}
use mathlib.Core.List.{append_assoc, append-nil}
use ioproxy.Base.{
  String, ℕ, suc, ◌+◌, ◌<◌, ◌≤◌, ◌≡◌, ◌⊎◌, refl, sym, ap, ◌∙◌, Bool, true, false, Bool-cases,
  if_true, if_false, if◌then◌else◌, List, [], ◌∷◌, ◌++◌, length, length-append, arith, inl, inr,
}
use ioproxy.Base.Int.{pos, eq_ℤ, eq_of_eq_ℤ}
use ioproxy.Io.{DataPack, count, Signal}
use ioproxy.Device.{Format}
use ioproxy.Device.Files.{QFile, IsFiles, write_only, OpenFlag}
use ioproxy.Device.FileWriter.{
  Options, FileWriter, new_file_writer, open_mode, start, write_data, write_all,
}

-- The errors among some signals, those of a start included.
abbrev pub problems : List Signal → ℕ
problems [] = 0
problems (Signal.error_occured _ ∷ signals) = suc (problems signals)
problems (Signal.startup_error_occured _ ∷ signals) = suc (problems signals)
problems (_ ∷ signals) = problems signals

-- The bytes of some packs, one after the other.
abbrev pub bytes_of : List DataPack → List ℕ
bytes_of [] = []
bytes_of (p ∷ ps) = p.bytes ++ bytes_of ps

module _ {File Disk : Type 0} {q : QFile File Disk} (files : IsFiles q) (format : Format)
    (opts : Options) where
  -- The file is open and holds `bytes`, of which `n` were counted, and nothing failed.
  pub record Holds (bytes : List ℕ) (n : ℕ) (s : FileWriter File Disk) : Type 0 where
    pub is_open : q.is_open s.file.0 ≡ true
    pub named : files.name s.file.0 ≡ opts.file_path
    pub content : files.content opts.file_path s.file.1 ≡ bytes
    pub counted : s.bytes_written ≡ n
    pub problems : problems s.emitted ≡ 0

  write_data-counted :
      (p : DataPack) (s : FileWriter File Disk)
      → q.is_open s.file.0 ≡ true
      → eq_ℤ (q.write p.bytes s.file).0 (pos (count p)) ≡ true
      → write_data q format opts p s ≡ record s {
        file = q.flush (q.write p.bytes s.file).1;
        bytes_written = s.bytes_written + count p;
      }
  unfolding write_data
  write_data-counted p s o e = if_true _ _ o ∙ if_true _ _ e

  write_data-failed :
      (p : DataPack) (s : FileWriter File Disk)
      → q.is_open s.file.0 ≡ true
      → eq_ℤ (q.write p.bytes s.file).0 (pos (count p)) ≡ false
      → (m : String) × ((write_data q format opts p s).emitted ≡ Signal.error_occured m ∷ s.emitted)
  unfolding write_data
  write_data-failed p s o e =
      (_, ap (λ (t : FileWriter File Disk). t.emitted) (if_true _ _ o ∙ if_false _ _ e))

  -- What a writer comes to: it holds the bytes, or it emitted an error.
  abbrev pub Outcome : List ℕ → ℕ → FileWriter File Disk → Type 0
  Outcome bytes n s = Holds bytes n s ⊎ (0 < problems s.emitted)

  Outcome-same :
      {a b : List ℕ} {m n : ℕ} {s : FileWriter File Disk}
      → a ≡ b
      → m ≡ n
      → Outcome a m s
      → Outcome b n s
  Outcome-same {b} {m} {s} e f h = subst (λ k. Outcome b k s) f (subst (λ l. Outcome l m s) e h)

  -- A write of an open file adds its bytes and emits nothing, or emits one error.
  pub write_data-Reports :
      (bytes : List ℕ) (n : ℕ) (p : DataPack) (s : FileWriter File Disk)
      → Holds bytes n s
      → let t = write_data q format opts p s in
        (Holds (bytes ++ p.bytes) (n + count p) t × (t.emitted ≡ s.emitted))
        ⊎ ((m : String) × (t.emitted ≡ Signal.error_occured m ∷ s.emitted))
  write_data-Reports bytes n p s h =
      elim (Bool-cases (eq_ℤ (q.write p.bytes s.file).0 (pos (count p)))) [
        | inl e ↦
            let (a, b, c) = files.written p.bytes s.file.0 s.file.1 h.is_open (eq_of_eq_ℤ _ _ e) in
            inl (
              subst (λ t. Holds (bytes ++ p.bytes) (n + count p) t × (t.emitted ≡ s.emitted))
                (sym (write_data-counted p s h.is_open e))
                (
                  record {
                    is_open = a;
                    named = b ∙ h.named;
                    content =
                        subst
                          (λ m.
                            files.content m (q.flush (q.write p.bytes s.file).1).1
                            ≡ files.content m s.file.1 ++ p.bytes)
                          h.named c
                        ∙ ap (λ l. l ++ p.bytes) h.content;
                    counted = ap (λ m. m + count p) h.counted;
                    problems = h.problems;
                  },
                  refl,
                ))
        | inr e ↦ inr (write_data-failed p s h.is_open e)
      ]

  write_data-Holds :
      (bytes : List ℕ) (n : ℕ) (p : DataPack) (s : FileWriter File Disk)
      → Holds bytes n s
      → Outcome (bytes ++ p.bytes) (n + count p) (write_data q format opts p s)
  write_data-Holds bytes n p s h = elim (write_data-Reports bytes n p s h) [
    | inl (k, e) ↦ inl k
    | inr (m, e) ↦ inr (omega (arith, ap problems e))
  ]

  problems-write_data :
      (p : DataPack) (s : FileWriter File Disk)
      → problems s.emitted ≤ problems (write_data q format opts p s).emitted
  unfolding write_data
  problems-write_data p s = ground arith

  opened :
      (append : Bool) (f : File) (d : Disk)
      → let r =
          q.open_file
            (if append then write_only ∷ OpenFlag.append ∷ [] else write_only ∷ [])
            (f, d) in
        r.0 ≡ true
        → (q.is_open r.1.0 ≡ true)
          × (files.name r.1.0 ≡ files.name f)
          × (files.content (files.name f) r.1.1
              ≡ (if append then files.content (files.name f) d else []))
  opened true f d e = files.appended f d e
  opened false f d e = files.truncated f d e

  -- What a start leaves in the file.
  abbrev pub kept : Disk → List ℕ
  kept d = if opts.append then files.content opts.file_path d else []

  -- A start opened the file, and emitted that it did.
  abbrev pub Opened : FileWriter File Disk → FileWriter File Disk → Type 0
  Opened s t =
      (q.is_open t.file.0 ≡ true)
      × (files.name t.file.0 ≡ opts.file_path)
      × (files.content opts.file_path t.file.1 ≡ kept s.file.1)
      × (t.bytes_written ≡ s.bytes_written)
      × (t.emitted ≡ Signal.started ∷ s.emitted)

  -- A start opens the file and emits that it started, or emits a startup error.
  pub start-Reports :
      (s : FileWriter File Disk)
      → let t = start q format opts s in
        Opened s t ⊎ ((m : String) × (t.emitted ≡ Signal.startup_error_occured m ∷ s.emitted))
  unfolding start open_mode
  start-Reports s =
      let named = q.set_file_name opts.file_path s.file.0 in
      let n = files.name-set opts.file_path s.file.0 in
      let w = (q.open_file (open_mode q format opts) (named, s.file.1)).1 in
      elim (Bool-cases (q.open_file (open_mode q format opts) (named, s.file.1)).0) [
        | inl e ↦
            let (a, b, c) = opened opts.append named s.file.1 e in
            let d =
              subst
                (λ m. files.content m w.1 ≡ (if opts.append then files.content m s.file.1 else []))
                n c in
            inl (subst (Opened s) (sym (if_true _ _ e)) (a, b ∙ n, d, refl, refl))
        | inr e ↦ inr (_, ap (λ (t : FileWriter File Disk). t.emitted) (if_false _ _ e))
      ]

  start-Holds :
      (d : Disk)
      → let s = start q format opts (new_file_writer q format opts d) in Outcome (kept d) 0 s
  unfolding new_file_writer
  start-Holds d = elim (start-Reports (new_file_writer q format opts d)) [
    | inl (a, b, c, n, e) ↦
        inl (record { is_open = a; named = b; content = c; counted = n; problems = ap problems e })
    | inr (m, e) ↦ inr (omega (arith, ap problems e))
  ]

  write_data-Outcome :
      (bytes : List ℕ) (n : ℕ) (p : DataPack) (s : FileWriter File Disk)
      → Outcome bytes n s
      → Outcome (bytes ++ p.bytes) (n + count p) (write_data q format opts p s)
  write_data-Outcome bytes n p s (inl h) = write_data-Holds bytes n p s h
  write_data-Outcome bytes n p s (inr h) = inr (omega (arith, h, problems-write_data p s))

  write_all-Outcome :
      (bytes : List ℕ) (n : ℕ) (ps : List DataPack) (s : FileWriter File Disk)
      → Outcome bytes n s
      → Outcome (bytes ++ bytes_of ps) (n + length (bytes_of ps)) (write_all q format opts ps s)
  unfolding write_all
  write_all-Outcome bytes n [] s h = Outcome-same (sym (append-nil bytes)) (omega arith) h
  write_all-Outcome bytes n (p ∷ ps) s h =
      Outcome-same (append_assoc bytes p.bytes (bytes_of ps))
        (omega (arith, length-append p.bytes (bytes_of ps)))
        (write_all-Outcome (bytes ++ p.bytes) (n + count p) ps (write_data q format opts p s)
          (write_data-Outcome bytes n p s h))

  -- A writer that is started and gets data has emitted an error, or has its file open with what was in it
  -- before, if it appends, and then every byte of the data, in order, all of them counted, and has emitted
  -- no error.
  pub write_all-start :
      (d : Disk) (ps : List DataPack)
      → Outcome
          (kept d ++ bytes_of ps)
          (length (bytes_of ps))
          (write_all q format opts ps (start q format opts (new_file_writer q format opts d)))
  write_all-start d ps = Outcome-same refl (omega arith) (
      write_all-Outcome (kept d) 0 ps (start q format opts (new_file_writer q format opts d))
        (start-Holds d))
