-- ===== src/Device/ByteGenerator.antt =====
-- src/ioproxy/io/ByteGenerator/ByteGeneratorIO.cpp: the IO that makes data at a rate. The clock is read
-- and not used, so the model has no clock; the calls of `next` that timers still owe are counted.
pub mod Rate
pub mod Emitted
use ioproxy.Base.{ℕ, zero, suc, Bool, true, false, List, [], ◌∷◌, if◌then◌else◌}
use ioproxy.Base.Int.{ℤ, pos, pos_part}
use ioproxy.Io.{DataPack, pack_of, Signal}
use ioproxy.Factory.ByteGenerator.{Options}

-- The language's `double` and Qt's buffers: `std::ceil((double)a / (double)b)` as a `qint64`, and the
-- bytes of an empty array after `resize`.
pub record Platform : Type 0 where
  pub ceil_quotient : ℤ → ℤ → ℤ
  pub resize : ℤ → List ℕ

pub record ByteGenerator : Type 0 where
  pub run : Bool
  pub packet : List ℕ
  pub number_of_packets_per_second : ℤ
  pub number_of_packets_per_next_call : ℤ
  pub timers : ℕ
  pub emitted : List Signal

unfoldable pub new_byte_generator : Platform → Options → ByteGenerator
new_byte_generator platform opts =
    let per_second = platform.ceil_quotient opts.bytes_per_second opts.packet_size in
    record {
      run = false;
      packet = platform.resize opts.packet_size;
      number_of_packets_per_second = per_second;
      number_of_packets_per_next_call = platform.ceil_quotient per_second (pos 10);
      timers = 0;
      emitted = [];
    }

-- `for (qint64 i = 0; i < n; ++i)`: the rounds that are left.
unfoldable pub emit_packets : ℕ → ByteGenerator → ByteGenerator
emit_packets zero s = s
emit_packets (suc n) s =
    emit_packets n (record s { emitted = Signal.new_data (pack_of s.packet) ∷ s.emitted })

unfoldable pub next : ByteGenerator → ByteGenerator
unfolding emit_packets
next s =
    let t = emit_packets (pos_part s.number_of_packets_per_next_call) s in
    if s.run then record t { timers = suc t.timers } else s

unfoldable pub start : ByteGenerator → ByteGenerator
unfolding next
start s = next (record s { run = true })

unfoldable pub stop : ByteGenerator → ByteGenerator
stop s = record s { run = false }

unfoldable pub write_data : DataPack → ByteGenerator → ByteGenerator
write_data p s = s

pub data Event : Type 0 where
  call_start call_stop : Event
  call_write_data : DataPack → Event
  -- One of the pending timers fires.
  timeout : Event

unfoldable pub handle : Event → ByteGenerator → ByteGenerator
unfolding start stop write_data next
handle call_start s = start s
handle call_stop s = stop s
handle (call_write_data p) s = write_data p s
handle timeout s = elim s.timers [ zero ↦ s | suc n ↦ next (record s { timers = n }) ]

unfoldable pub run_all : List Event → ByteGenerator → ByteGenerator
unfolding handle
run_all [] s = s
run_all (event ∷ events) s = run_all events (handle event s)
