-- ===== src/Device/SerialPort.antt =====
-- src/ioproxy/io/SerialPortIO.hpp: the serial port. The constants of QSerialPort are their numbers. A
-- read is the list of the chunks that the loop of `onReadyRead` reads.
pub mod Starting
use ioproxy.Base.{
  ℕ, ◌+◌, String, Bool, not, List, [], ◌∷◌, Option, none, some, str_eq, if◌then◌else◌,
}
use ioproxy.Base.Int.{ℤ, pos, pos_part, eq_ℤ}
use ioproxy.Io.{DataPack, pack_of, count, Signal, Io}
use ioproxy.Factory.SerialPort.{Options}
use ioproxy.Device.{Format, Startup, succeeded, refused, text, number, oldest_first}

-- `QSerialPort` and `QSerialPortInfo`: what the code calls, over the state of the port.
pub record Port (Info World : Type 0) : Type 0 where
  pub format : Format
  pub available_ports : World → List Info
  pub info_name : Info → String
  pub is_null : Info → Bool
  pub set_port : Info → World → World
  pub open_read_write : World → Bool × World
  pub set_baud_rate : ℤ → World → Bool × World
  pub set_break_enabled : Bool → World → Bool × World
  pub set_data_bits : ℕ → World → Bool × World
  pub set_data_terminal_ready : Bool → World → Bool × World
  pub set_flow_control : ℕ → World → Bool × World
  pub set_parity : ℕ → World → Bool × World
  pub set_stop_bits : ℕ → World → Bool × World
  pub set_request_to_send : Bool → World → Bool × World
  pub is_open : World → Bool
  pub close : World → World
  pub write : List ℕ → World → ℤ × World
  pub wait_for_bytes_written : World → World
  pub error_string : World → String
  pub error : World → ℤ
  pub port_name : World → String

pub record SerialPort (World : Type 0) : Type 0 where
  pub bytes_read : ℕ
  pub bytes_written : ℕ
  pub world : World
  pub emitted : List Signal

module _ {Info World : Type 0} (port : Port Info World) where
  -- The first port of the name; `none` where the code keeps a null `QSerialPortInfo`.
  unfoldable pub find_port : String → List Info → Option Info
  find_port name [] = none
  find_port name (x ∷ xs) =
      let below = find_port name xs in if str_eq (port.info_name x) name then some x else below

  -- The calls that set up an open port, in the order of the source.
  unfoldable pub settings : Options → List (World → Bool × World)
  settings opts =
      port.set_baud_rate opts.baudrate
      ∷ port.set_break_enabled opts.break_enabled
      ∷ port.set_data_bits opts.databits
      ∷ port.set_data_terminal_ready opts.dtr
      ∷ port.set_flow_control opts.flow_control
      ∷ port.set_parity opts.parity
      ∷ port.set_stop_bits opts.stopbits
      ∷ port.set_request_to_send opts.rts
      ∷ []

  unfoldable pub setting_error : World → String
  setting_error w =
      port.format "%1 (code=%2)" (text (port.error_string w) ∷ number (port.error w) ∷ [])

  -- One setting after the other, up to the first that fails.
  unfoldable pub set_up : List (World → Bool × World) → World → Startup × World
  unfolding setting_error
  set_up [] w = (succeeded, w)
  set_up (setting ∷ rest) w =
      let (done, w1) = setting w in
      let below = set_up rest w1 in if done then below else (refused (setting_error w1), w1)

  unfoldable pub open_error : Info → World → String
  open_error info w =
      port.format "Can not open serial port; %1; %2"
        (text (port.info_name info) ∷ text (port.error_string w) ∷ [])

  unfoldable pub start_port : Options → World → Startup × World
  unfolding find_port settings set_up open_error
  start_port opts w = elim (find_port opts.port_id (port.available_ports w)) [
    | none ↦ (refused (port.format "Can not find port: %1" (text opts.port_id ∷ [])), w)
    | some info ↦
        if port.is_null info
        then (refused (port.format "Can not find port: %1" (text opts.port_id ∷ [])), w)
        else (let (opened, w1) = port.open_read_write (port.set_port info w) in
            if opened then set_up (settings opts) w1 else (refused (open_error info w1), w1))
  ]

  unfoldable pub start : Options → SerialPort World → SerialPort World
  unfolding start_port
  start opts s =
      let (result, w) = start_port opts s.world in
      record s {
        world = w;
        emitted = elim result [
          | succeeded ↦ Signal.started ∷ s.emitted
          | refused m ↦ Signal.startup_error_occured m ∷ s.emitted
        ];
      }

  unfoldable pub stop : SerialPort World → SerialPort World
  stop s = if not (port.is_open s.world) then s else record s { world = port.close s.world }

  unfoldable pub write_data : DataPack → SerialPort World → SerialPort World
  write_data p s =
      let (written, w) = port.write p.bytes s.world in
      if not (port.is_open s.world)
      then s
      else (if eq_ℤ written (pos (count p))
          then record s {
            bytes_written = s.bytes_written + pos_part written;
            world = port.wait_for_bytes_written w;
          }
          else record s {
            world = w;
            emitted =
                Signal.error_occured (
                  port.format "writtenBytes (%1) != data.size (%2); port=%3"
                    (number written ∷ number (pos (count p)) ∷ text (port.port_name w) ∷ []))
                ∷ s.emitted;
          })

  unfoldable pub on_ready_read : List (List ℕ) → SerialPort World → SerialPort World
  on_ready_read [] s = s
  on_ready_read (bytes ∷ rest) s =
      let p = pack_of bytes in
      on_ready_read rest
        (record s { bytes_read = s.bytes_read + count p; emitted = Signal.new_data p ∷ s.emitted })

  -- A slot, with the signals that it emits.
  abbrev pub slot :
      (SerialPort World → SerialPort World) → SerialPort World → SerialPort World × List Signal
  slot f s = let t = f (record s { emitted = [] }) in (t, oldest_first t.emitted)

  -- The port as an IO of an engine.
  unfoldable pub serial_port_io : Options → Io (SerialPort World)
  unfolding start stop write_data
  serial_port_io opts = record {
    start = slot (start opts);
    stop = slot stop;
    write_data = λ p. slot (write_data p);
  }
