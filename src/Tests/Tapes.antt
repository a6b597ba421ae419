-- ===== src/Tests/Tapes.antt =====
-- Runs of an engine whose IOs take everything.
use ioproxy.Base.{inl, ℕ, ◌≡◌, refl, String, false, some, List, [], ◌∷◌, ◌++◌, get_elem?}
use ioproxy.Io.{pack_of, Signal, Io}
use ioproxy.Handler.{Handler, State}
use ioproxy.Relay.Flow.{IsSink}
use ioproxy.Relay.Events.{Log, Event, occur_all, passed_on, read_at, IsSource}
use ioproxy.Engine.Signals.{Link}
use ioproxy.Relay.Traffic.{IsRelayed}
use ioproxy.Relay.Starting.{start-IsRelayed}
use ioproxy.Engine
use ioproxy.Engine.{Engine}

-- An IO that keeps what it is given, and is always ready.
abbrev tape : Io (List ℕ)
tape = record {
  start = λ s. (s, Signal.started ∷ []);
  stop = λ s. (s, []);
  write_data = λ p s. (s ++ p.bytes, []);
}

abbrev Always : List ℕ → Type 0
Always s = Unit

abbrev whole : List ℕ → List ℕ
whole s = s

tape-IsSink : IsSink tape Always whole
tape-IsSink = record { terse = λ p s. tt; takes = λ p s r. inl (refl, tt, refl) }

-- It reads two bytes, and then reports an error.
abbrev read_two : List ℕ → List ℕ × List Signal
read_two s = (s, Signal.new_data (pack_of (1 ∷ 2 ∷ [])) ∷ [])

abbrev jam : List ℕ → List ℕ × List Signal
jam s = (s, Signal.error_occured "jam" ∷ [])

read_two-IsSource : IsSource Always whole read_two
read_two-IsSource = record { mild = λ s. tt; keeps = λ s r. (tt, refl) }

jam-IsSource : IsSource Always whole jam
jam-IsSource = record { mild = λ s. tt; keeps = λ s r. (tt, refl) }

abbrev chain : List Link
chain = (0, 1) ∷ (0, 2) ∷ (1, 2) ∷ []

abbrev reel : String → Handler (List ℕ)
reel name = record {
  unique_name = name;
  io = 9 ∷ [];
  state = State.stopped;
  error_message = "";
  bytes_written = 0;
  bytes_read = 0;
  data_slots = 1;
  status_slots = 0;
  notices = [];
}

abbrev reels : Engine String (List ℕ)
reels = record {
  io_factories = [];
  handlers = reel "a" ∷ reel "b" ∷ reel "c" ∷ [];
  links = chain;
  started = false;
}

abbrev accidents : List (Event (List ℕ))
accidents =
    record { position = 0; act = read_two }
    ∷ record { position = 1; act = read_two }
    ∷ record { position = 1; act = jam }
    ∷ record { position = 0; act = read_two }
    ∷ []

start-IsRelayed_example :
    (running : Engine String (List ℕ)) × (hs' : List (Handler (List ℕ))) × (log : Log)
    × (Engine.start tape 2 reels ≡ some running)
    × (occur_all tape 2 running.links accidents running.handlers ≡ some (hs', log))
    × ((d : ℕ) (h : Handler (List ℕ))
        → get_elem? reels.handlers d ≡ some h
        → (h' : Handler (List ℕ)) × (get_elem? hs' d ≡ some h')
          × IsRelayed Always whole
              (passed_on chain d log)
              (read_at d log)
              (record h { io = h.io })
              h')
start-IsRelayed_example =
    start-IsRelayed tape Always whole 0 accidents reels tape-IsSink
      (read_two-IsSource, (read_two-IsSource, (jam-IsSource, (read_two-IsSource, tt)))) refl
      (refl, (refl, (refl, tt))) ((refl, tt), ((refl, tt), ((refl, tt), tt)))
