-- ===== src/Legacy/TextIo.antt =====
-- legacy/TextIO.hpp: an IO that makes lines of text at an interval.
use ioproxy.Base.{
  ℕ, zero, suc, ◌+◌, ◌≡◌, refl, String, Bool, true, false, List, [], ◌∷◌, length, arith,
  if◌then◌else◌, str_eq,
}
use ioproxy.Base.Int.{ℤ}
use ioproxy.Io.{pack_of, Signal}
use ioproxy.Device.{received}

pub record Options : Type 0 where
  pub text : String
  pub interval_ms : ℤ
  pub with_time : Bool
  pub with_counter : Bool
  pub line_break : Bool

-- Qt's texts: `QString("%1").arg(counter, 5, 10, '0')`, `append` and UTF-8.
pub record Texts : Type 0 where
  pub padded : ℕ → String
  pub append : String → String → String
  pub to_utf8 : String → List ℕ

-- `slots` counts the connections of the timer to `onTimer`.
pub record TextIo : Type 0 where
  pub slots : ℕ
  pub interval : ℤ
  pub active : Bool
  pub counter : ℕ
  pub bytes_read : ℕ
  pub emitted : List Signal

abbrev pub new_text_io : ℤ → TextIo
new_text_io interval = record {
  slots = 0;
  interval = interval;
  active = false;
  counter = 0;
  bytes_read = 0;
  emitted = [];
}

-- What can happen: the calls, and a timeout of the timer at a time, as text.
pub data Event : Type 0 where
  call_start call_stop : Event
  timeout : String → Event

unfoldable pub start : Options → TextIo → TextIo
start opts s = record s {
  counter = 0;
  slots = suc s.slots;
  interval = opts.interval_ms;
  active = true;
  emitted = Signal.started ∷ s.emitted;
}

unfoldable pub stop : TextIo → TextIo
stop s = record s { slots = 0; active = false }

module _ (q : Texts) (opts : Options) where
  -- The text of `onTimer`, with the counter and the time.
  unfoldable pub line : ℕ → String → String
  line counter now =
      let str1 = if opts.with_counter then q.append (q.append "" (q.padded counter)) " " else "" in
      let str2 = if opts.with_time then q.append (q.append str1 now) " " else str1 in
      let str3 = if str_eq opts.text "" then str2 else q.append str2 opts.text in
      if opts.line_break then q.append str3 "\n" else str3

  unfoldable pub on_timer : String → TextIo → TextIo
  unfolding line
  on_timer now s =
      let counter = suc s.counter in
      let bytes = q.to_utf8 (line counter now) in
      record s {
        counter = counter;
        bytes_read = s.bytes_read + length bytes;
        emitted = Signal.new_data (pack_of bytes) ∷ s.emitted;
      }

  -- A timeout calls the slot once for each connection.
  unfoldable pub fire : ℕ → String → TextIo → TextIo
  unfolding on_timer
  fire zero now s = s
  fire (suc n) now s = fire n now (on_timer now s)

  unfoldable pub handle : Event → TextIo → TextIo
  unfolding start stop fire
  handle call_start s = start opts s
  handle call_stop s = stop s
  handle (timeout now) s = if s.active then fire s.slots now s else s

  unfoldable pub run : List Event → TextIo → TextIo
  unfolding handle
  run [] s = s
  run (event ∷ events) s = run events (handle event s)

  -- The newest signals are the packs of the lines from a number down to 1, behind a start.
  abbrev pub Numbered : ℕ → List Signal → Type 0
  Numbered zero [] = Unit
  Numbered zero (Signal.started ∷ signals) = Unit
  Numbered (suc k) (Signal.new_data p ∷ signals) =
      ((now : String) × (p ≡ pack_of (q.to_utf8 (line (suc k) now)))) × Numbered k signals
  Numbered _ _ = ⊥

  abbrev pub IsNumbered : TextIo → Type 0
  IsNumbered s = Numbered s.counter s.emitted × (s.bytes_read ≡ received s.emitted)

  fire-IsNumbered : (n : ℕ) (now : String) (s : TextIo) → IsNumbered s → IsNumbered (fire n now s)
  unfolding fire on_timer
  fire-IsNumbered zero now s i = i
  fire-IsNumbered (suc n) now s (a, b) =
      fire-IsNumbered n now (on_timer now s) (((now, refl), a), omega (arith, b))

  handle-IsNumbered : (event : Event) (s : TextIo) → IsNumbered s → IsNumbered (handle event s)
  unfolding handle start stop
  handle-IsNumbered call_start s (a, b) = (tt, b)
  handle-IsNumbered call_stop s i = i
  handle-IsNumbered (timeout now) s i = timed s.active
    where
      timed : (b : Bool) → IsNumbered (if b then fire s.slots now s else s)
      timed true = fire-IsNumbered s.slots now s i
      timed false = i

  run_from-IsNumbered :
      (events : List Event) (s : TextIo) → IsNumbered s → IsNumbered (run events s)
  unfolding run
  run_from-IsNumbered [] s i = i
  run_from-IsNumbered (event ∷ events) s i =
      run_from-IsNumbered events (handle event s) (handle-IsNumbered event s i)

  -- After any starts, stops and timeouts, the lines that were emitted since the last start are numbered from
  -- 1 to the counter without a gap, no line comes before a start, and the bytes of all lines are counted as
  -- read.
  pub run-IsNumbered :
      (events : List Event) (interval : ℤ) → IsNumbered (run events (new_text_io interval))
  run-IsNumbered events interval = run_from-IsNumbered events (new_text_io interval) (tt, refl)
