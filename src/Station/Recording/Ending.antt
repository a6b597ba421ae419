-- ===== src/Station/Recording/Ending.antt =====
-- The stop of an engine that records the data of an IO in a file.
use mathlib.Core.Path.{subst}
use ioproxy.Base.{ℕ, suc, ◌≡◌, refl, ◌∙◌, false, some, List, [], ◌∷◌}
use ioproxy.Io.{Io}
use ioproxy.Handler.{failed, disconnect}
use ioproxy.Engine
use ioproxy.Engine.{Engine, each, handler_stop}
use ioproxy.Engine.Signals.{receive_all, emit}
use ioproxy.Device.{Format}
use ioproxy.Device.Files.{QFile, IsFiles}
use ioproxy.Device.FileWriter
use ioproxy.Device.FileWriter.{FileWriter, file_writer_io}
use ioproxy.Station.{Station, second}
use ioproxy.Station.Recording.Traffic.{
  Entry, src, dst, links, io, Records, records, breaks, writer-stop,
}

module _ {A File Disk : Type 0} {q : QFile File Disk} (files : IsFiles q) (format : Format)
    (opts : FileWriter.Options) (source : Io A) where
  -- A recording that is over: the file has the bytes, and the handlers counted `n` of them; or the writer's
  -- handler shows that it failed.
  pub data Recorded (bytes : List ℕ) (n : ℕ) : List (Entry A File Disk) → Type 0 where
    recorded :
        (g h : Entry A File Disk) (w : FileWriter File Disk)
        → h.io ≡ second w
        → files.content opts.file_path w.file.1 ≡ bytes
        → g.bytes_read ≡ n
        → h.bytes_written ≡ n
        → Recorded bytes n (g ∷ h ∷ [])
    fails :
        (g h : Entry A File Disk)
        → h.state ≡ failed
        → g.bytes_read ≡ n
        → Recorded bytes n (g ∷ h ∷ [])

  pub Recorded-same :
      {b : List ℕ} {m n : ℕ} {hs : List (Entry A File Disk)}
      → m ≡ n
      → Recorded b m hs
      → Recorded b n hs
  Recorded-same {b} {hs} e r = subst (λ k. Recorded b k hs) e r

  module _ (quiet : (a : A) → (source.stop a).1 ≡ []) where
    stop-source :
        (fuel n : ℕ) (a : A) (g h : Entry A File Disk)
        → handler_stop (io files format opts source) (suc fuel) links 0 (src n a g ∷ h ∷ [])
          ≡ some (disconnect (src n (source.stop a).0 g) ∷ h ∷ [])
    unfolding handler_stop emit receive_all
    stop-source fuel n a g h = rw (quiet a, handler_stop, receive_all) refl

    stop-writer :
        (fuel : ℕ) (g h : Entry A File Disk) (w w' : FileWriter File Disk)
        → h.io ≡ second w
        → (file_writer_io q format opts).stop w ≡ (w', [])
        → handler_stop (io files format opts source) (suc fuel) links 1 (g ∷ h ∷ [])
          ≡ some (g ∷ disconnect (record h { io = second w' }) ∷ [])
    unfolding handler_stop emit receive_all
    stop-writer fuel g h w w' e f = rw (e, f, handler_stop, receive_all) refl

    pub stop-Recorded :
        {F : Type 0} (fuel : ℕ) (bytes : List ℕ) (n : ℕ)
        (e : Engine F (Station A (FileWriter File Disk))) (hs : List (Entry A File Disk))
        → e.links ≡ links
        → Records files format opts source bytes n hs
        → (hs' : List (Entry A File Disk)) × (Engine.stop
              (io files format opts source)
              (suc fuel)
              (record e { handlers = hs })
            ≡ some (record e { handlers = hs'; started = false }))
          × Recorded bytes n hs'
    unfolding Engine.stop each disconnect
    stop-Recorded fuel bytes n e _ l (records g h a w s) =
        let (w', f, c) = writer-stop files format opts source w in
        (
          disconnect (src n (source.stop a).0 g)
              ∷ disconnect (record (dst n w h) { io = second w' })
              ∷ [],
          rw (l, stop-source fuel n a g (dst n w h), Engine.stop, each)
              (rw
                (
                  l,
                  stop-writer fuel (disconnect (src n (source.stop a).0 g)) (dst n w h) w w' refl f,
                  each,
                )
                refl),
          recorded _ _ w' refl (c ∙ s.content) refl refl,
        )
    stop-Recorded fuel bytes n e _ l (breaks g h a w b c) =
        let (w', f, _) = writer-stop files format opts source w in
        (
          disconnect (src n (source.stop a).0 g) ∷ disconnect (record h { io = second w' }) ∷ [],
          rw (l, stop-source fuel n a g h, Engine.stop, each)
              (rw (l, stop-writer fuel (disconnect (src n (source.stop a).0 g)) h w w' c f, each)
                refl),
          fails _ _ b refl,
        )
