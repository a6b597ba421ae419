-- ===== src/Factory/SerialPort.antt =====
-- src/ioproxy/io/SerialPortIO.hpp: the options and the factory. The enumerations of QSerialPort are
-- the numbers that the factory casts to them.
use ioproxy.Base.{ℕ, ◌≡◌, refl, String, Bool, true, false, inl, inr}
use ioproxy.Base.Int.{ℤ, pos}
use ioproxy.Base.Variant.{invalid, int, Conversions}
use ioproxy.Params
use ioproxy.Params.{
  ParaDef, IoParams, FactoryBase, default_def, empty_base, add_para_def, para_def,
  check_required_parameters, get_para_value,
}
use ioproxy.Factory.{Outcome, done, ◌>>=◌, ◌>>◌, check, value, to_int32}
use ioproxy.Params.Spec.{option_value, get_para_value-first, check_required_lem}

pub record Options : Type 0 where
  pub port_id : String
  pub baudrate : ℤ
  pub databits : ℕ
  pub parity : ℕ
  pub stopbits : ℕ
  pub flow_control : ℕ
  pub break_enabled : Bool
  pub dtr : Bool
  pub rts : Bool

-- Each definition starts from the one before: a field that is not assigned keeps its value.
unfoldable pub factory : FactoryBase
unfolding add_para_def
factory =
    let def1 : ParaDef = record default_def {
      key = "port";
      description = "Name of the serial port. Windows: COM1, Linux: /dev/ttyS0";
      value_data_type = Params.string;
      required = true;
      multi = false;
      default_value = invalid;
    } in
    let base1 = add_para_def empty_base def1 in
    let def2 : ParaDef = record def1 {
      key = "baudrate";
      description = "Baudrate to use for this port.";
      value_data_type = Params.uint32;
      required = false;
      multi = false;
      default_value = int (pos 115200);
    } in
    let base2 = add_para_def base1 def2 in
    let def3 : ParaDef = record def2 {
      key = "databits";
      description = "The number of data bits used.";
      value_data_type = Params.uint8;
      required = false;
      multi = false;
      default_value = int (pos 8);
    } in
    let base3 = add_para_def base2 def3 in
    let def4 : ParaDef = record def3 {
      key = "parity";
      description =
          "Parity scheme. 0 = NoParity, 2 = EvenParity, 3 = OddParity, 4 = SpaceParity, 5 = MarkParity";
      value_data_type = Params.uint8;
      required = false;
      multi = false;
      default_value = int (pos 0);
    } in
    let base4 = add_para_def base3 def4 in
    let def5 : ParaDef = record def4 {
      key = "stopbits";
      description =
          "The number of stop bits used. 1 = OneStop; 2 = TwoStop; 3 = OneAndHalfStop; -1 = UnknownStopBits";
      value_data_type = Params.uint8;
      required = false;
      multi = false;
      default_value = int (pos 1);
    } in
    let base5 = add_para_def base4 def5 in
    let def6 : ParaDef = record def5 {
      key = "flow";
      description =
          "0 = Disabled, 1 = Hardware flow control (RTS/CTS), 2 = Software flow control (XON/XOFF)";
      value_data_type = Params.uint8;
      required = false;
      multi = false;
      default_value = int (pos 0);
    } in
    add_para_def base5 def6

module _ (c : Conversions) where
  open c use {to_string, to_uint}

  unfoldable pub create : IoParams → Outcome (Options)
  create params = do
    check (check_required_parameters factory params)
    port ← value (get_para_value params (para_def factory "port") 0)
    rate ← value (get_para_value params (para_def factory "baudrate") 0)
    bits ← value (get_para_value params (para_def factory "databits") 0)
    par ← value (get_para_value params (para_def factory "parity") 0)
    stops ← value (get_para_value params (para_def factory "stopbits") 0)
    flow ← value (get_para_value params (para_def factory "flow") 0)
    done (record {
      port_id = to_string port;
      baudrate = to_int32 (to_uint rate);
      databits = to_uint bits;
      parity = to_uint par;
      stopbits = to_uint stops;
      flow_control = to_uint flow;
      break_enabled = false;
      dtr = false;
      rts = false;
    })

  -- The options that the parameters stand for: the value given last of each, or its default.
  unfoldable pub options : IoParams → Options
  options params = record {
    port_id = to_string (option_value params (para_def factory "port"));
    baudrate = to_int32 (to_uint (option_value params (para_def factory "baudrate")));
    databits = to_uint (option_value params (para_def factory "databits"));
    parity = to_uint (option_value params (para_def factory "parity"));
    stopbits = to_uint (option_value params (para_def factory "stopbits"));
    flow_control = to_uint (option_value params (para_def factory "flow"));
    break_enabled = false;
    dtr = false;
    rts = false;
  }

  pub create-options :
      (params : IoParams)
      → create params
        ≡ (check (check_required_parameters factory params) >>= λ _. done (options params))
  unfolding create options check_required_parameters factory para_def ioproxy.Base.Maps.contains
  create-options params = elim (check_required_lem factory.para_defs params) [
    | inl (passed, all) ↦ rw passed (
        rw (
          get_para_value-first params (para_def factory "port") all.0,
          get_para_value-first params (para_def factory "baudrate") refl,
          get_para_value-first params (para_def factory "databits") refl,
          get_para_value-first params (para_def factory "parity") refl,
          get_para_value-first params (para_def factory "stopbits") refl,
          get_para_value-first params (para_def factory "flow") refl,
        ))
    | inr (before, after, def, e, given, r, m, refused) ↦ rw refused
  ]
