-- ===== src/Station/Recording/Traffic.antt =====
-- The data that an engine passes on from one IO to a file writer.
use mathlib.Core.Path.{subst}
use mathlib.Core.List.{append_assoc, append-nil}
use ioproxy.Base.{length-append}
use ioproxy.Base.{
  ℕ, suc, ◌+◌, ◌≡◌, ◌⊎◌, refl, sym, ap, ◌∙◌, String, some, List, [], ◌∷◌, ◌++◌, map, length, arith,
  inl, inr, if_false,
}
use ioproxy.Io.{DataPack, count, Signal, Io}
use ioproxy.Handler.{Handler, started, failed, count_read, count_written, times, state_eq}
use ioproxy.Handler.Status.{on_status, on_status-Shows, on_status-io}
use ioproxy.Engine.Signals.{
  Link, Emit, write_data, forward, on_new_data, receive, receive_all, emit,
}
use ioproxy.Device.{Format}
use ioproxy.Device.Files.{QFile, IsFiles}
use ioproxy.Device.FileWriter
use ioproxy.Device.FileWriter.{FileWriter, file_writer_io}
use ioproxy.Device.FileWriter.Written.{Holds, kept, bytes_of, write_data-Reports, start-Reports}
use ioproxy.Device.FileReader.RoundTrip.{stop-content, stop-emitted}
use ioproxy.Station.{Station, first, second, station_io}

-- A handler of the engine.
abbrev pub Entry : Type 0 → Type 0 → Type 0 → Type 0
Entry A File Disk = Handler (Station A (FileWriter File Disk))

module _ {A File Disk : Type 0} where
  -- The source's handler: it has the IO `a` and counted `n` bytes.
  abbrev pub src : ℕ → A → Entry A File Disk → Entry A File Disk
  src n a g = record g { io = first a; data_slots = 1; bytes_read = n }

  -- The writer's handler after its start.
  abbrev pub dst : ℕ → FileWriter File Disk → Entry A File Disk → Entry A File Disk
  dst n w g = record g { io = second w; state = started; status_slots = 1; bytes_written = n }

-- The one connection.
abbrev pub links : List Link
links = (0, 1) ∷ []

module _ {A File Disk : Type 0} {q : QFile File Disk} (files : IsFiles q) (format : Format)
    (opts : FileWriter.Options) (source : Io A) where
  abbrev pub io : Io (Station A (FileWriter File Disk))
  io = station_io source (file_writer_io q format opts)

  -- The file is open with `bytes` in it, `n` of them counted.
  abbrev pub Stores : List ℕ → ℕ → FileWriter File Disk → Type 0
  Stores bytes n w = Holds files format opts bytes n (record w { emitted = [] })

  -- A start of the writer, and a write to it, as its handler sees them.
  pub writer-start :
      (w : FileWriter File Disk)
      → w.bytes_written ≡ 0
      → ((w' : FileWriter File Disk) × ((file_writer_io q format opts).start w
            ≡ (w', Signal.started ∷ []))
          × Stores (kept files format opts w.file.1) 0 w')
        ⊎ ((w' : FileWriter File Disk) × (m : String) × ((file_writer_io q format opts).start w
              ≡ (w', Signal.startup_error_occured m ∷ [])))
  unfolding file_writer_io
  writer-start w z =
      let t = FileWriter.start q format opts (record w { emitted = [] }) in
      elim (start-Reports files format opts (record w { emitted = [] })) [
        | inl (a, b, c, n, e) ↦ inl (
          t,
          ap (λ l. (t, l)) e,
          record { is_open = a; named = b; content = c; counted = n ∙ z; problems = refl },
        )
        | inr (m, e) ↦ inr (t, m, ap (λ l. (t, l)) e)
      ]

  writer-write_data :
      (bytes : List ℕ) (n : ℕ) (p : DataPack) (w : FileWriter File Disk)
      → Stores bytes n w
      → ((w' : FileWriter File Disk) × ((file_writer_io q format opts).write_data p w ≡ (w', []))
          × Stores (bytes ++ p.bytes) (n + count p) w')
        ⊎ ((w' : FileWriter File Disk) × (m : String) × ((file_writer_io q format opts).write_data p
                w
              ≡ (w', Signal.error_occured m ∷ [])))
  unfolding file_writer_io
  writer-write_data bytes n p w h =
      let t = FileWriter.write_data q format opts p (record w { emitted = [] }) in
      elim (write_data-Reports files format opts bytes n p (record w { emitted = [] }) h) [
        | inl (k, e) ↦ inl (
          t,
          ap (λ l. (t, l)) e,
          record {
            is_open = k.is_open;
            named = k.named;
            content = k.content;
            counted = k.counted;
            problems = refl;
          },
        )
        | inr (m, e) ↦ inr (t, m, ap (λ l. (t, l)) e)
      ]

  pub writer-stop :
      (w : FileWriter File Disk)
      → (w' : FileWriter File Disk) × ((file_writer_io q format opts).stop w ≡ (w', []))
        × (files.content opts.file_path w'.file.1 ≡ files.content opts.file_path w.file.1)
  unfolding file_writer_io
  writer-stop w =
      let t = FileWriter.stop q format opts (record w { emitted = [] }) in
      (t, ap (λ l. (t, l)) (stop-emitted files format opts _), stop-content files format opts _)

  -- The engine records: the handlers counted `n` bytes, and the file has them; or the writer failed.
  pub data Records (bytes : List ℕ) (n : ℕ) : List (Entry A File Disk) → Type 0 where
    records :
        (g h : Entry A File Disk) (a : A) (w : FileWriter File Disk)
        → Stores bytes n w
        → Records bytes n (src n a g ∷ dst n w h ∷ [])
    breaks :
        (g h : Entry A File Disk) (a : A) (w : FileWriter File Disk)
        → h.state ≡ failed
        → h.io ≡ second w
        → Records bytes n (src n a g ∷ h ∷ [])

  -- A handler that failed drops the data.
  write_data-failed :
      (deeper : Emit (Station A (FileWriter File Disk))) (p : DataPack) (g h : Entry A File Disk)
      → h.state ≡ failed
      → write_data io deeper 1 p (g ∷ h ∷ []) ≡ some (g ∷ h ∷ [])
  unfolding write_data
  write_data-failed deeper p g h e = if_false _ _ (ap (λ s. state_eq s started) e)

  receive-Records :
      (fuel : ℕ) (bytes : List ℕ) (n : ℕ) (p : DataPack) (hs : List (Entry A File Disk))
      → Records bytes n hs
      → (hs' : List (Entry A File Disk)) × (receive io
            (emit io (suc fuel) links)
            links
            0
            (Signal.new_data p)
            hs
          ≡ some hs')
        × Records (bytes ++ p.bytes) (n + count p) hs'
  unfolding receive on_new_data forward write_data emit receive_all times count_read count_written
      on_status
  receive-Records fuel bytes n p _ (records g h a w s) = elim (writer-write_data bytes n p w s) [
    | inl (w', e, s') ↦
        rw (e, receive, on_new_data, forward, write_data) (_, refl, records g h a w' s')
    | inr (w', m, e) ↦
        rw (e, receive, on_new_data, forward, write_data)
          (
            _,
            refl,
            breaks g _ a w' (on_status-Shows (Signal.error_occured m) _).0
                (on_status-io (Signal.error_occured m) _),
          )
  ]
  receive-Records fuel bytes n p _ (breaks g h a w e f) =
      rw
        (
          write_data-failed (emit io (suc fuel) links) p (src (n + count p) a g) h e,
          receive,
          on_new_data,
          forward,
          count_read,
        )
        (_, refl, breaks g h a w e f)

  Records-same :
      {b c : List ℕ} {m n : ℕ} {hs : List (Entry A File Disk)}
      → b ≡ c
      → m ≡ n
      → Records b m hs
      → Records c n hs
  Records-same {c} {m} {hs} e f r = subst (λ k. Records c k hs) f (subst (λ l. Records l m hs) e r)

  pub receive_all-Records :
      (fuel : ℕ) (bytes : List ℕ) (n : ℕ) (ps : List DataPack) (hs : List (Entry A File Disk))
      → Records bytes n hs
      → (hs' : List (Entry A File Disk)) × (receive_all io
            (emit io (suc fuel) links)
            links
            0
            (map Signal.new_data ps)
            hs
          ≡ some hs')
        × Records (bytes ++ bytes_of ps) (n + length (bytes_of ps)) hs'
  unfolding receive_all
  receive_all-Records fuel bytes n [] hs r =
      (hs, refl, Records-same (sym (append-nil bytes)) (omega arith) r)
  receive_all-Records fuel bytes n (p ∷ ps) hs r =
      let (hs1, e1, r1) = receive-Records fuel bytes n p hs r in
      let (hs2, e2, r2) = receive_all-Records fuel (bytes ++ p.bytes) (n + count p) ps hs1 r1 in
      (
        hs2,
        rw (e1, receive_all) e2,
        Records-same (append_assoc bytes p.bytes (bytes_of ps))
            (omega (arith, length-append p.bytes (bytes_of ps))) r2,
      )
