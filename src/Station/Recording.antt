-- ===== src/Station/Recording.antt =====
-- src/ioproxy/Engine.cpp, Handler.cpp and io/FileWriterIO.hpp together: an engine that records the data of
-- one IO in a file.
pub mod Traffic
pub mod Ending
use ioproxy.Base.{
  ℕ, suc, ◌+◌, ◌≡◌, refl, eq_iff, ok, String, true, false, some, List, [], ◌∷◌, ◌++◌, map, length,
  arith, inl, inr,
}
use ioproxy.Io.{DataPack, Signal, Io}
use ioproxy.Handler.{
  new_handler, started, times, connect_status, on_started, set_state, set_error_message,
}
use ioproxy.Handler.Status.{on_status, on_status-Shows, on_status-io}
use ioproxy.Engine
use ioproxy.Engine.Lookup.{get_io_handler, same_id}
use ioproxy.Engine.{Engine, each, handler_start}
use ioproxy.Engine.Signals.{receive, receive_all, emit}
use ioproxy.Device.{Format}
use ioproxy.Device.Files.{QFile, IsFiles}
use ioproxy.Device.FileWriter
use ioproxy.Device.FileWriter.{FileWriter, new_file_writer}
use ioproxy.Device.FileWriter.Written.{kept, bytes_of}
use ioproxy.Station.{Station, first, second}
use Traffic.{Entry, src, links, io, Records, records, breaks, receive_all-Records, writer-start}
use Ending.{Recorded, Recorded-same, stop-Recorded}

module _ {A File Disk : Type 0} {q : QFile File Disk} (files : IsFiles q) (format : Format)
    (opts : FileWriter.Options) (source : Io A) where
  -- The engine before its start: a handler of the source and one of the writer, with one connection.
  abbrev pub before :
      {F : Type 0} → String → String → A → Disk → Engine F (Station A (FileWriter File Disk))
  before x y a d = record {
    io_factories = [];
    handlers =
        new_handler x (first a) ∷ new_handler y (second (new_file_writer q format opts d)) ∷ [];
    links = links;
    started = false;
  }

  start-source :
      (fuel : ℕ) (x : String) (a : A) (g : Entry A File Disk)
      → (source.start a).1 ≡ Signal.started ∷ []
      → (g' : Entry A File Disk) × (handler_start
            (io files format opts source)
            (suc fuel)
            links
            0
            (new_handler x (first a) ∷ g ∷ [])
          ≡ some (src 0 (source.start a).0 g' ∷ g ∷ []))
  unfolding handler_start emit receive_all receive new_handler connect_status times on_status
      on_started set_state set_error_message
  start-source fuel x a g e =
      rw (e, handler_start, receive_all)
        (on_started (connect_status (new_handler x (first (source.start a).0))), refl)

  start-writer :
      (fuel : ℕ) (y : String) (a : A) (d : Disk) (g : Entry A File Disk)
      → (hs : List (Entry A File Disk)) × (handler_start
            (io files format opts source)
            (suc fuel)
            links
            1
            (src 0 a g ∷ new_handler y (second (new_file_writer q format opts d)) ∷ [])
          ≡ some hs)
        × Records files format opts source (kept files format opts d) 0 hs
  unfolding handler_start emit receive_all receive new_handler connect_status times on_status
      on_started set_state set_error_message new_file_writer
  start-writer fuel y a d g =
      elim (writer-start files format opts source (new_file_writer q format opts d) refl) [
        | inl (w, f, s) ↦
            rw (f, handler_start, receive_all)
              (_, refl, records g (on_started (connect_status (new_handler y (second w)))) a w s)
        | inr (w, m, f) ↦
            rw (f, handler_start, receive_all)
              (
                _,
                refl,
                breaks g _ a w (on_status-Shows (Signal.startup_error_occured m) _).0
                    (on_status-io (Signal.startup_error_occured m) _),
              )
      ]

  start-Records :
      {F : Type 0} (fuel : ℕ) (x y : String) (a : A) (d : Disk)
      → (source.start a).1 ≡ Signal.started ∷ []
      → (hs : List (Entry A File Disk)) × (Engine.start
            (io files format opts source)
            (suc fuel)
            (before {F = F} x y a d)
          ≡ some (record (before {F = F} x y a d) { handlers = hs; started = true }))
        × Records files format opts source (kept files format opts d) 0 hs
  unfolding Engine.start each
  start-Records {F} fuel x y a d e =
      let (g, f) =
        start-source fuel x a (new_handler y (second (new_file_writer q format opts d))) e in
      let (hs, k, r) = start-writer fuel y (source.start a).0 d g in
      (hs, rw (f, Engine.start, each) (rw (k, each) refl), r)

  module _ (quiet : (a : A) → (source.stop a).1 ≡ []) where
    -- What a client of the library does, with the engine after each call: an IO `source` and a file writer
    -- are added and connected, the engine starts, the source emits packs, and the engine stops.
    pub record Session (F : Type 0) (fold_case : String → String) (fuel : ℕ) (x y : String) (a : A)
        (d : Disk) (ps : List DataPack) : Type 0 where
      pub one : Engine F (Station A (FileWriter File Disk))
      pub two : Engine F (Station A (FileWriter File Disk))
      pub connected : Engine F (Station A (FileWriter File Disk))
      pub running : Engine F (Station A (FileWriter File Disk))
      pub ended : Engine F (Station A (FileWriter File Disk))
      pub received : List (Entry A File Disk)
      pub adds_source :
          Engine.add_io (io files format opts source) fuel x (first a) Engine.empty_engine
          ≡ some one
      pub adds_writer :
          Engine.add_io
            (io files format opts source)
            fuel
            y
            (second (new_file_writer q format opts d))
            one
          ≡ some two
      pub connects : Engine.add_connection fold_case two x y ≡ ok connected
      pub starts : Engine.start (io files format opts source) fuel connected ≡ some running
      pub passes_on :
          emit
            (io files format opts source)
            fuel
            running.links
            0
            (map Signal.new_data ps)
            running.handlers
          ≡ some received
      pub stops :
          Engine.stop (io files format opts source) fuel (record running { handlers = received })
          ≡ some ended
      pub result :
          Recorded files format opts source
            (kept files format opts d ++ bytes_of ps)
            (length (bytes_of ps))
            ended.handlers

    connect-before :
        {F : Type 0} (fold_case : String → String) (x y : String) (a : A) (d : Disk)
        → same_id fold_case x y ≡ false
        → Engine.add_connection fold_case (record (before {F = F} x y a d) { links = [] }) x y
          ≡ ok (before x y a d)
    unfolding Engine.add_connection get_io_handler new_handler
    connect-before fold_case x y a d h =
        let itself = λ (z : String). (eq_iff (fold_case z) (fold_case z)).1 refl in
        rw (itself x, Engine.add_connection, get_io_handler)
          (rw (h, itself y, Engine.add_connection, get_io_handler) refl)

    -- An IO `source` and a file writer, of which the files behave as `files` states, are added to a new
    -- engine under two names that differ without case, and connected. If the start of the source emits
    -- started, and no stop of it emits a signal, then with a call depth of two or more each call ends, the
    -- handler of the source counts as read all bytes of the packs that the source emits, and afterwards the
    -- file has what the writer kept of it at its start, and then the bytes of the packs in their order, which
    -- the handler of the writer counts as written; or the handler of the writer has the state failed.
    pub record-Recorded :
        {F : Type 0} (fold_case : String → String) (fuel : ℕ) (x y : String) (a : A) (d : Disk)
        (ps : List DataPack)
        → same_id fold_case x y ≡ false
        → (source.start a).1 ≡ Signal.started ∷ []
        → Session F fold_case (suc (suc fuel)) x y a d ps
    unfolding emit Engine.add_io
    record-Recorded {F} fold_case fuel x y a d ps differ s =
        let (hs1, e1, r1) = start-Records {F = F} (suc fuel) x y a d s in
        let (hs2, e2, r2) =
          receive_all-Records files format opts source fuel (kept files format opts d) 0 ps hs1
            r1 in
        let e : Engine F (Station A (FileWriter File Disk)) = record (before {F = F} x y a d) {
          handlers = hs1;
          started = true;
        } in
        let (hs3, e3, r3) =
          stop-Recorded files format opts source quiet (suc fuel) _ _ e hs2 refl r2 in
        record {
          one = record (before {F = F} x y a d) {
            handlers = new_handler x (first a) ∷ [];
            links = [];
          };
          two = record (before {F = F} x y a d) { links = [] };
          connected = before {F = F} x y a d;
          running = e;
          ended = record e { handlers = hs3; started = false };
          received = hs2;
          adds_source = refl;
          adds_writer = refl;
          connects = connect-before fold_case x y a d differ;
          starts = e1;
          passes_on = e2;
          stops = e3;
          result = Recorded-same files format opts source (omega arith) r3;
        }
