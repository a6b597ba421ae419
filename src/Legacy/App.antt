-- ===== src/Legacy/App.antt =====
-- legacy/App.hpp: the start and stop of all IOs, and the signals of an application.
pub mod Startup
use ioproxy.Base.{ℕ, zero, suc, ◌+◌, String, Bool, true, false, List, [], ◌∷◌, ◌==◌, if◌then◌else◌}
use ioproxy.Base.Int.{ℤ, pos, ◌-ℤ◌}
use ioproxy.Io.{Signal}
use ioproxy.Engine.{Statistic}
use ioproxy.Util.OsSignal.{OsSignal}
use ioproxy.Util.Status.{Output, report}

-- The IOs of the handlers of `m_context`, by position, over what they and their targets stand on. The
-- signals of a start are those that it emits before it returns; a stop emits no started and no startup
-- error, and an error of it is only logged.
pub record Ios (W : Type 0) : Type 0 where
  pub size : ℕ
  pub start : ℕ → W → W × List Signal
  pub stop : ℕ → W → W
  pub statistic : ℕ → W → Statistic

pub data AppSignal : Type 0 where
  abort all_started signal_quit : AppSignal

-- The signals that were emitted, the newest first.
pub record App (W : Type 0) : Type 0 where
  pub world : W
  pub ready_counter : ℕ
  pub error : Bool
  pub statistic_timer : Bool
  pub previous_statistic : Statistic
  pub previous_statistic_timestamp : ℤ
  pub emitted : List AppSignal

module _ {W : Type 0} where
  abbrev pub new_app : W → App W
  new_app w = record {
    world = w;
    ready_counter = 0;
    error = false;
    statistic_timer = false;
    previous_statistic = record { bytes_read = 0; bytes_written = 0 };
    previous_statistic_timestamp = pos 0;
    emitted = [];
  }

  abbrev pub emit : AppSignal → App W → App W
  emit x s = record s { emitted = x ∷ s.emitted }

  unfoldable pub handle_signal : OsSignal → App W → Bool × App W
  handle_signal n s = (true, emit signal_quit s)

module _ {W : Type 0} (ios : Ios W) where
  -- The loop of `stopAll`: how many handlers are left, and the position of the next one.
  unfoldable pub stop_each : ℕ → ℕ → W → W
  stop_each zero i w = w
  stop_each (suc n) i w = stop_each n (suc i) (ios.stop i w)

  unfoldable pub stop_all : App W → App W
  unfolding stop_each
  stop_all s = record s { world = stop_each ios.size 0 s.world }

  unfoldable pub on_entry_started : App W → App W
  on_entry_started s =
      let t = record s { ready_counter = suc s.ready_counter } in
      if t.ready_counter == ios.size
      then emit all_started (record t { statistic_timer = true })
      else t

  unfoldable pub on_entry_startup_error_occured : String → App W → App W
  unfolding stop_all
  on_entry_startup_error_occured m s = emit abort (stop_all (record s { error = true }))

  -- The slots that the constructor connects to the signals of each IO.
  unfoldable pub receive : List Signal → App W → App W
  unfolding on_entry_started on_entry_startup_error_occured
  receive [] s = s
  receive (Signal.started ∷ signals) s = receive signals (on_entry_started s)
  receive (Signal.startup_error_occured m ∷ signals) s =
      receive signals (on_entry_startup_error_occured m s)
  receive (_ ∷ signals) s = receive signals s

  unfoldable pub start_io : ℕ → App W → App W
  unfolding receive
  start_io i s = let (w, signals) = ios.start i s.world in receive signals (record s { world = w })

  -- The loop of `startAll`.
  unfoldable pub start_each : ℕ → ℕ → App W → App W
  unfolding start_io
  start_each zero i s = s
  start_each (suc n) i s = let t = start_each n (suc i) (start_io i s) in if s.error then s else t

  unfoldable pub start_all : App W → App W
  unfolding start_each
  start_all s = if ios.size == 0 then emit abort s else start_each ios.size 0 s

  -- The sum over the handlers.
  unfoldable pub sum_each : ℕ → ℕ → W → Statistic → Statistic
  sum_each zero i w sum = sum
  sum_each (suc n) i w sum =
      let stats = ios.statistic i w in
      sum_each n (suc i) w (record {
        bytes_read = sum.bytes_read + stats.bytes_read;
        bytes_written = sum.bytes_written + stats.bytes_written;
      })

  unfoldable pub on_statistic_timer : Output → ℤ → App W → App W × String
  unfolding sum_each report
  on_statistic_timer out now s =
      let sum = sum_each ios.size 0 s.world (record { bytes_read = 0; bytes_written = 0 }) in
      (
        record s { previous_statistic = sum; previous_statistic_timestamp = now },
        report out sum s.previous_statistic (now -ℤ s.previous_statistic_timestamp),
      )
