-- ===== src/Legacy/DataGenerator.antt =====
-- legacy/DataGeneratorIO.hpp and DataGeneratorIO.cpp: an older IO that makes data at a rate. The operations
-- of `double` and the conversions of it are parameters.
use ioproxy.Base.{
  ℕ, zero, suc, ◌+◌, ◌≡◌, Bool, true, false, List, [], ◌∷◌, length, arith, if◌then◌else◌,
}
use ioproxy.Base.Int.{ℤ, pos, pos_part}
use ioproxy.Io.{pack_of, Signal}
use ioproxy.Device.{received}

pub record Options : Type 0 where
  pub packet_size : ℤ
  pub max_bytes_per_second : ℤ

-- `double`, and the bytes of an empty array after `resize`.
pub record Doubles (D : Type 0) : Type 0 where
  pub of_int : ℤ → D
  pub divide : D → D → D
  pub less : D → D → Bool
  -- The conversion to `int`.
  pub to_int : D → ℤ
  pub resize : ℤ → List ℕ

pub record DataGenerator : Type 0 where
  pub packet_count_on_timer : ℤ
  pub interval : ℤ
  pub slots : ℕ
  pub active : Bool
  pub bytes_written : ℕ
  pub emitted : List Signal

abbrev pub new_data_generator : DataGenerator
new_data_generator = record {
  packet_count_on_timer = pos 1;
  interval = pos 0;
  slots = 0;
  active = false;
  bytes_written = 0;
  emitted = [];
}

pub data Event : Type 0 where
  call_start call_stop timeout : Event

unfoldable pub stop : DataGenerator → DataGenerator
stop s = record s { slots = 0; active = false }

module _ {D : Type 0} (q : Doubles D) (opts : Options) where
  unfoldable pub start : DataGenerator → DataGenerator
  start s =
      let packets_per_second =
        q.divide (q.of_int opts.max_bytes_per_second) (q.of_int opts.packet_size) in
      let lowest_sleep_time = q.of_int (pos 10) in
      let sleep_time = q.divide (q.of_int (pos 1000)) packets_per_second in
      let short = q.less sleep_time lowest_sleep_time in
      record s {
        packet_count_on_timer =
            if short
            then q.to_int
                (q.divide packets_per_second (q.divide (q.of_int (pos 1000)) lowest_sleep_time))
            else pos 1;
        interval = q.to_int (if short then lowest_sleep_time else sleep_time);
        slots = suc s.slots;
        active = true;
        emitted = Signal.started ∷ s.emitted;
      }

  -- The loop of `onTimer`: the rounds that are left.
  unfoldable pub emit_packets : ℕ → DataGenerator → DataGenerator
  emit_packets zero s = s
  emit_packets (suc n) s =
      let bytes = q.resize opts.packet_size in
      emit_packets n (record s {
        bytes_written = s.bytes_written + length bytes;
        emitted = Signal.new_data (pack_of bytes) ∷ s.emitted;
      })

  unfoldable pub on_timer : DataGenerator → DataGenerator
  unfolding emit_packets
  on_timer s = emit_packets (pos_part s.packet_count_on_timer) s

  -- A timeout calls the slot once for each connection.
  unfoldable pub fire : ℕ → DataGenerator → DataGenerator
  unfolding on_timer
  fire zero s = s
  fire (suc n) s = fire n (on_timer s)

  unfoldable pub handle : Event → DataGenerator → DataGenerator
  unfolding start stop fire
  handle call_start s = start s
  handle call_stop s = stop s
  handle timeout s = if s.active then fire s.slots s else s

  unfoldable pub run : List Event → DataGenerator → DataGenerator
  unfolding handle
  run [] s = s
  run (event ∷ events) s = run events (handle event s)

  -- The bytes that were emitted are those counted, which this IO counts as written.
  abbrev pub IsCounted : DataGenerator → Type 0
  IsCounted s = s.bytes_written ≡ received s.emitted

  emit_packets-IsCounted : (n : ℕ) (s : DataGenerator) → IsCounted s → IsCounted (emit_packets n s)
  unfolding emit_packets
  emit_packets-IsCounted zero s i = i
  emit_packets-IsCounted (suc n) s i = emit_packets-IsCounted n _ (omega (arith, i))

  fire-IsCounted : (n : ℕ) (s : DataGenerator) → IsCounted s → IsCounted (fire n s)
  unfolding fire on_timer
  fire-IsCounted zero s i = i
  fire-IsCounted (suc n) s i =
      fire-IsCounted n (on_timer s) (emit_packets-IsCounted (pos_part s.packet_count_on_timer) s i)

  pub run-IsCounted :
      (events : List Event) (s : DataGenerator) → IsCounted s → IsCounted (run events s)
  unfolding run handle start stop
  run-IsCounted [] s i = i
  run-IsCounted (call_start ∷ events) s i = run-IsCounted events (start s) i
  run-IsCounted (call_stop ∷ events) s i = run-IsCounted events (stop s) i
  run-IsCounted (timeout ∷ events) s i = run-IsCounted events (handle timeout s) (timed s.active)
    where
      timed : (b : Bool) → IsCounted (if b then fire s.slots s else s)
      timed true = fire-IsCounted s.slots s i
      timed false = i
