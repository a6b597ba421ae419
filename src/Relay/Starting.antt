-- ===== src/Relay/Starting.antt =====
-- src/ioproxy/Engine.cpp and Handler.cpp: an engine that is started, and then passes on what its IOs read.
use mathlib.Core.Path.{subst}
use mathlib.Core.Option.{some-injective}
use mathlib.Core.List.{append_assoc}
use ioproxy.Base.{
  ℕ, zero, suc, ◌+◌, ◌≡◌, refl, sym, ap, ◌∙◌, inl, inr, true, false, some, List, [], ◌∷◌, ◌++◌, map,
  length, All, get_elem?, arith, if_false, length-append,
}
use ioproxy.Io.{Signal, Io}
use ioproxy.Handler.{Handler, times, connect_status, on_started, set_state, set_error_message}
use ioproxy.Handler.Status.{on_status, times-on_status}
use ioproxy.Engine
use ioproxy.Engine.{Engine, each, handler_start}
use ioproxy.Engine.Positions.{at-append, get_elem?-append, get_elem?-map}
use ioproxy.Engine.Signals.{Link, emit, receive_all, receive}
use ioproxy.Relay.Flow.{IsSink}
use ioproxy.Relay.Events.{Log, Event, occur_all, passed_on, read_at, IsSource}
use ioproxy.Relay.Traffic.{IsRunning, IsRelayed, occur_all-IsRelayed}

module _ {S : Type 0} where
  -- What a signal that an IO started leaves alone.
  record Keeps (g h : Handler S) : Type 0 where
    io : h.io ≡ g.io
    status_slots : h.status_slots ≡ g.status_slots
    data_slots : h.data_slots ≡ g.data_slots
    bytes_read : h.bytes_read ≡ g.bytes_read
    bytes_written : h.bytes_written ≡ g.bytes_written

  on_started-Keeps : (h : Handler S) → Keeps h (on_started h)
  unfolding on_started set_state set_error_message
  on_started-Keeps h = ground arith

  times-Keeps : (n : ℕ) (h : Handler S) → Keeps h (times n (on_status Signal.started) h)
  unfolding times on_status
  times-Keeps zero h = record {
    io = refl;
    status_slots = refl;
    data_slots = refl;
    bytes_read = refl;
    bytes_written = refl;
  }
  times-Keeps (suc n) h =
      let a = on_started-Keeps h in
      let b = times-Keeps n (on_started h) in
      record {
        io = b.io ∙ a.io;
        status_slots = b.status_slots ∙ a.status_slots;
        data_slots = b.data_slots ∙ a.data_slots;
        bytes_read = b.bytes_read ∙ a.bytes_read;
        bytes_written = b.bytes_written ∙ a.bytes_written;
      }

module _ {S : Type 0} (io : Io S) where
  -- A handler whose IO emits that it started.
  abbrev connected : Handler S → Handler S
  connected h = record (connect_status h) { io = (io.start h.io).0 }

  abbrev pub starts : Handler S → Handler S
  starts h = times (connected h).status_slots (on_status Signal.started) (connected h)

  handler_start-starts :
      (fuel : ℕ) (links : List Link) (before after : List (Handler S)) (h : Handler S)
      → (io.start h.io).1 ≡ Signal.started ∷ []
      → handler_start io (suc fuel) links (length before) (before ++ (h ∷ after))
        ≡ some (before ++ (starts h ∷ after))
  unfolding handler_start emit receive_all receive connect_status
  handler_start-starts fuel links before after h e =
      rw (get_elem?-append before h after, handler_start)
        (rw
          (e, at-append (λ g. record (connect_status g) { io = (io.start h.io).0 }) before h after)
          (rw (get_elem?-append before (connected h) after, receive_all, receive)
            (ap some (
              at-append (times (connected h).status_slots (on_status Signal.started)) before
                (connected h) after))))

  -- Every IO emits that it started.
  abbrev pub AllStart : List (Handler S) → Type 0
  AllStart hs = All (λ (h : Handler S). (io.start h.io).1 ≡ Signal.started ∷ []) hs

  each-starts :
      (fuel : ℕ) (links : List Link) (before after : List (Handler S))
      → AllStart after
      → each (handler_start io (suc fuel) links) (length after) (length before) (before ++ after)
        ≡ some (before ++ map starts after)
  unfolding each
  each-starts fuel links before [] all = refl
  each-starts fuel links before (h ∷ after) (e, all) =
      let one = starts h ∷ [] in
      let now = append_assoc before one after in
      let f = handler_start io (suc fuel) links in
      rw (handler_start-starts fuel links before after h e, each)
        (ap (λ l. each f (length after) (length before + 1) l) (sym now)
          ∙ (ap (λ n. each f (length after) n ((before ++ one) ++ after))
                (sym (length-append before one))
              ∙ (each-starts fuel links (before ++ one) after all
                  ∙ ap some (append_assoc before one (map starts after)))))

  start-starts :
      {F : Type 0} (fuel : ℕ) (e : Engine F S)
      → e.started ≡ false
      → AllStart e.handlers
      → Engine.start io (suc fuel) e
        ≡ some (record e { handlers = map starts e.handlers; started = true })
  unfolding Engine.start
  start-starts fuel e off all =
      if_false _ _ off
      ∙ ap (Engine.with_handlers e true) (each-starts fuel e.links [] e.handlers all)

  starts-Keeps : (h : Handler S) → Keeps (connected h) (starts h)
  starts-Keeps h = times-Keeps (connected h).status_slots (connected h)

  module _ (Ready : S → Type 0) where
    starts-IsRunning :
        (h : Handler S) → h.data_slots ≡ 1 → Ready (io.start h.io).0 → IsRunning Ready (starts h)
    unfolding connect_status
    starts-IsRunning h one ready =
        let k = starts-Keeps h in
        let n : h.status_slots + 1 ≡ suc h.status_slots = omega arith in
        record {
          runs =
              ap (λ m. (times m (on_status Signal.started) (connected h)).state) n
              ∙ (times-on_status h.status_slots Signal.started (connected h)).1.0;
          hears = (h.status_slots, k.status_slots ∙ n);
          passes = k.data_slots ∙ one;
          ready = subst Ready (sym k.io) ready;
        }

    -- The IOs of an engine that is not started: each is connected once for data, and its start leaves it ready.
    abbrev pub AllReady : List (Handler S) → Type 0
    AllReady hs = All (λ (h : Handler S). (h.data_slots ≡ 1) × Ready (io.start h.io).0) hs

    all-IsRunning :
        (hs : List (Handler S))
        → AllReady hs
        → (d : ℕ) (h : Handler S) → get_elem? (map starts hs) d ≡ some h
        → IsRunning Ready h
    all-IsRunning [] all d h e = cc
    all-IsRunning (g ∷ hs) ((one, ready), all) zero h e =
        subst (IsRunning Ready) (some-injective (starts g) h e) (starts-IsRunning g one ready)
    all-IsRunning (g ∷ hs) (first, all) (suc d) h e = all-IsRunning hs all d h e

    module _ (taken : S → List ℕ) where
      IsRelayed-starts :
          (l : List ℕ) (n : ℕ) (h h' : Handler S)
          → IsRelayed Ready taken l n (starts h) h'
          → IsRelayed Ready taken l n (record h { io = (io.start h.io).0 }) h'
      unfolding connect_status
      IsRelayed-starts l n h h' r =
          let k = starts-Keeps h in
          record {
            reads = r.reads ∙ ap (λ m. m + n) k.bytes_read;
            writes = elim r.writes [
              | inr failed ↦ inr failed
              | inl (runs, bytes, written) ↦ inl (
                runs,
                bytes ∙ ap (λ s. taken s ++ l) k.io,
                written ∙ ap (λ m. m + length l) k.bytes_written,
              )
            ];
          }

      -- An engine is not started, each of its handlers is connected exactly once to the data of its IO, as one is
      -- from its creation until its first stop, and the start of each of its IOs emits that it started, and leaves it ready: from
      -- then on a write of an IO that is ready takes all the bytes, or emits errors. Then the engine starts, and
      -- any sequence of events at the IOs, which are reads and errors, is handled to its end, with a call
      -- depth of two. Afterwards each handler counted the bytes that its IO emitted, and its IO took, after what
      -- the start left in it, the bytes of all data of the IOs that are connected to it, in the order in which
      -- they emitted it and once for each connection, all of them counted; or the handler has failed.
      pub start-IsRelayed :
          {F : Type 0} (fuel : ℕ) (events : List (Event S)) (e : Engine F S)
          → IsSink io Ready taken
          → All (λ (x : Event S). IsSource Ready taken x.act) events
          → e.started ≡ false
          → AllStart e.handlers
          → AllReady e.handlers
          → (running : Engine F S) × (hs' : List (Handler S)) × (log : Log) × (Engine.start io
                (suc (suc fuel))
                e
              ≡ some running)
            × (occur_all io (suc (suc fuel)) running.links events running.handlers
                ≡ some (hs', log))
            × ((d : ℕ) (h : Handler S)
                → get_elem? e.handlers d ≡ some h
                → (h' : Handler S) × (get_elem? hs' d ≡ some h')
                  × IsRelayed Ready taken
                      (passed_on e.links d log)
                      (read_at d log)
                      (record h { io = (io.start h.io).0 })
                      h')
      start-IsRelayed fuel events e sink sources off all ready =
          let (hs', log, done, relays) =
            occur_all-IsRelayed Ready taken e.links fuel events (map starts e.handlers) sink sources
              (all-IsRunning e.handlers ready) in
          (
            record e { handlers = map starts e.handlers; started = true },
            hs',
            log,
            start-starts (suc fuel) e off all,
            done,
            λ d h at_d.
                let (h', at_d', relayed) =
                  relays d (starts h) (get_elem?-map starts e.handlers d h at_d) in
                (
                  h',
                  at_d',
                  IsRelayed-starts (passed_on e.links d log) (read_at d log) h h' relayed,
                ),
          )
