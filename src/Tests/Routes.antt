-- ===== src/Tests/Routes.antt =====
-- An engine of two IOs that count what is written to them.
use mathlib.Core.Option
use ioproxy.Base.{
  ℕ, zero, suc, ◌+◌, ◌*◌, ◌<◌, ◌≡◌, refl, String, true, false, none, some, List, [], ◌∷◌, arith,
}
use ioproxy.Io.{DataPack, pack_of, Signal, Io}
use ioproxy.Handler.{Handler, State, new_handler}
use ioproxy.Engine.{Engine, start, stop, add_io, add_connection, empty_engine, statistic_summary}
use ioproxy.Engine.Signals.{Link, emit}
use ioproxy.Engine.Ending.{Ends, emit-Ends}
use ioproxy.Engine.Routing.Order.{SameLinks-swap, emit-SameLinks}
use ioproxy.Engine.Routing.Totals.{writes, statistic_summary-new_data}
use ioproxy.Engine.Circle.{first_target, AllRunning, emit-circle}
use ioproxy.Device.StdOut.{echo_io}
use ioproxy.Engine.Restart.{restart_drops}
use ioproxy.Engine.Total.{calls-Ends}
use ioproxy.Engine.Steps.{IsSound, here, next, adds_io, Reach-IsSound}

abbrev counter : Io ℕ
counter = record {
  start = λ n. (n, Signal.started ∷ []);
  stop = λ n. (n, []);
  write_data = λ p n. (n + 1, []);
}

abbrev running : String → Handler ℕ
running name = record {
  unique_name = name;
  io = 0;
  state = State.started;
  error_message = "";
  bytes_written = 0;
  bytes_read = 0;
  data_slots = 1;
  status_slots = 1;
  notices = [];
}

abbrev two : List (Handler ℕ)
two = running "a" ∷ running "b" ∷ []

abbrev there : List Link
there = (0, 1) ∷ []

abbrev pack : DataPack
pack = pack_of (1 ∷ 2 ∷ 3 ∷ [])

abbrev rank : ℕ → ℕ
rank zero = 1
rank (suc n) = 0

rank_low : (i : ℕ) → rank i < 2
rank_low zero = omega arith
rank_low (suc n) = omega arith

emit-Ends_example : Ends (emit counter 2 there 0 (Signal.new_data pack ∷ []) two)
emit-Ends_example =
    emit-Ends counter rank there 2 0 (Signal.new_data pack ∷ []) two (omega arith, tt) (omega arith)

-- Two echo IOs, each connected to the other, and the first also to a third.
abbrev circle : List Link
circle = (0, 1) ∷ (1, 0) ∷ (0, 2) ∷ []

abbrev around : ℕ → ℕ
around zero = 1
around (suc n) = 0

circle_closed : (i : ℕ) → i < 2 → (first_target circle i ≡ some (around i)) × (around i < 2)
circle_closed zero h = (refl, omega arith)
circle_closed (suc zero) h = (refl, omega arith)
circle_closed (suc (suc i)) h = absurd (omega (arith, h))

abbrev three : List (Handler ℕ)
three = running "a" ∷ running "b" ∷ running "c" ∷ []

circle_running : AllRunning (λ i. i < 2) three
circle_running zero h = (running "a", refl, record { runs = refl; hears = (0, refl) })
circle_running (suc zero) h = (running "b", refl, record { runs = refl; hears = (0, refl) })
circle_running (suc (suc i)) h = absurd (omega (arith, h))

emit-circle_example : emit echo_io 9 circle 0 (Signal.new_data pack ∷ []) three ≡ none
unfolding echo_io
emit-circle_example =
    emit-circle echo_io (λ p s. refl) (λ i. i < 2) circle around circle_closed 9 0 pack three
      (omega arith) circle_running

abbrev engine : Engine String ℕ
engine = record { io_factories = []; handlers = two; links = there; started = true }

emit-SameLinks_example :
    emit counter 1 ((0, 1) ∷ (0, 0) ∷ []) 0 (Signal.new_data pack ∷ []) two
    ≡ emit counter 1 ((0, 0) ∷ (0, 1) ∷ []) 0 (Signal.new_data pack ∷ []) two
emit-SameLinks_example =
    emit-SameLinks counter ((0, 1) ∷ (0, 0) ∷ []) ((0, 0) ∷ (0, 1) ∷ []) 0 0 pack two (running "a")
      (λ p s. refl) (SameLinks-swap (0, 1) (0, 0) []) refl refl

statistic_summary-new_data_example :
    (hs : List (Handler ℕ)) × (emit counter 1 there 0 (Signal.new_data pack ∷ []) two ≡ some hs)
    × ((statistic_summary (record engine { handlers = hs })).bytes_read
        ≡ (statistic_summary engine).bytes_read + 3)
    × ((statistic_summary (record engine { handlers = hs })).bytes_written
        ≡ (statistic_summary engine).bytes_written + 3 * writes there 0 two)
statistic_summary-new_data_example =
    statistic_summary-new_data counter 0 0 pack engine (running "a") (λ p s. refl) refl refl

calls-Ends_example :
    ((e' : Engine String ℕ) × (start counter 2 engine ≡ some e') × (e'.started ≡ true))
    × ((e' : Engine String ℕ) × (stop counter 2 engine ≡ some e') × (e'.started ≡ false))
    × Ends (add_io counter 2 "c" 0 engine)
calls-Ends_example = calls-Ends counter rank 2 engine "c" 0 rank_low (omega arith, tt)

abbrev halted : Handler ℕ → Handler ℕ
halted h = record h { data_slots = 0; status_slots = 0 }

abbrev again : Handler ℕ → Handler ℕ
again h = record h { data_slots = 0; status_slots = 1 }

abbrev stopped_engine : Engine String ℕ
stopped_engine = record engine {
  handlers = halted (running "a") ∷ halted (running "b") ∷ [];
  started = false;
}

abbrev restarted_engine : Engine String ℕ
restarted_engine = record engine {
  handlers = again (running "a") ∷ again (running "b") ∷ [];
  started = true;
}

restart_drops_example :
    emit counter 1 there 0 (Signal.new_data pack ∷ []) restarted_engine.handlers
    ≡ some restarted_engine.handlers
unfolding start stop emit ioproxy.Engine.Signals.receive_all ioproxy.Handler.disconnect
    ioproxy.Handler.connect_status ioproxy.Handler.on_started
restart_drops_example =
    restart_drops counter 1 1 0 0 pack engine stopped_engine restarted_engine refl refl

abbrev one : Engine String ℕ
unfolding new_handler
one = record { io_factories = []; handlers = new_handler "a" 0 ∷ []; links = []; started = false }

Reach-IsSound_example : IsSound counter (λ s. s) one
unfolding new_handler add_io
Reach-IsSound_example =
    Reach-IsSound counter (λ s. s) (next {e' = empty_engine} here (adds_io 1 "a" 0 refl))
