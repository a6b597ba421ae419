-- ===== src/Factory/TcpSocket.antt =====
-- src/ioproxy/io/TcpSocketIO.cpp: the options and the factory.
use ioproxy.Base.{ℕ, ◌≡◌, refl, String, Bool, true, false, inl, inr}
use ioproxy.Base.Variant.{bool, Conversions}
use ioproxy.Params
use ioproxy.Params.{
  ParaDef, IoParams, FactoryBase, default_def, empty_base, add_para_def, para_def,
  check_required_parameters, get_para_value,
}
use ioproxy.Factory.{Outcome, done, ◌>>=◌, ◌>>◌, check, value, to_uint16}
use ioproxy.Params.Spec.{option_value, get_para_value-first, check_required_lem}

pub record Options (Address : Type 0) : Type 0 where
  pub remote_address : Address
  pub remote_port : ℕ
  pub reconnect : Bool
  pub tcp_no_delay_option : Bool
  pub tcp_keep_alive_option : Bool

-- Each definition starts from the one before: a field that is not assigned keeps its value.
unfoldable pub factory : FactoryBase
unfolding add_para_def
factory =
    let def1 : ParaDef = record default_def {
      key = "remote_address";
      description = "Address of the remote host.";
      value_data_type = Params.string;
      required = true;
      multi = false;
    } in
    let base1 = add_para_def empty_base def1 in
    let def2 : ParaDef = record def1 {
      key = "remote_port";
      description = "Port of the remote host.";
      value_data_type = Params.int16;
      required = true;
      multi = false;
    } in
    let base2 = add_para_def base1 def2 in
    let def3 : ParaDef = record def2 {
      key = "reconnect";
      description = "If 'true' the socket automatically tries to reconnect.";
      value_data_type = Params.boolean;
      required = false;
      multi = false;
      default_value = bool true;
    } in
    let base3 = add_para_def base2 def3 in
    let def4 : ParaDef = record def3 {
      key = "low_delay";
      description = "";
      value_data_type = Params.boolean;
      required = false;
      multi = false;
      default_value = bool false;
    } in
    let base4 = add_para_def base3 def4 in
    let def5 : ParaDef = record def4 {
      key = "keep_alive";
      description = "";
      value_data_type = Params.boolean;
      required = false;
      multi = false;
      default_value = bool false;
    } in
    add_para_def base4 def5

module _ {Address : Type 0} (parse_address : String → Address) (c : Conversions) where
  open c use {to_string, to_uint, to_bool}

  unfoldable pub create : IoParams → Outcome (Options Address)
  create params = do
    check (check_required_parameters factory params)
    address ← value (get_para_value params (para_def factory "remote_address") 0)
    port ← value (get_para_value params (para_def factory "remote_port") 0)
    again ← value (get_para_value params (para_def factory "reconnect") 0)
    low_delay ← value (get_para_value params (para_def factory "low_delay") 0)
    keep_alive ← value (get_para_value params (para_def factory "keep_alive") 0)
    done (record {
      remote_address = parse_address (to_string address);
      remote_port = to_uint16 (to_uint port);
      reconnect = to_bool again;
      tcp_no_delay_option = to_bool low_delay;
      tcp_keep_alive_option = to_bool keep_alive;
    })

  -- The options that the parameters stand for: the value given last of each, or its default.
  unfoldable pub options : IoParams → Options Address
  options params = record {
    remote_address =
        parse_address (to_string (option_value params (para_def factory "remote_address")));
    remote_port = to_uint16 (to_uint (option_value params (para_def factory "remote_port")));
    reconnect = to_bool (option_value params (para_def factory "reconnect"));
    tcp_no_delay_option = to_bool (option_value params (para_def factory "low_delay"));
    tcp_keep_alive_option = to_bool (option_value params (para_def factory "keep_alive"));
  }

  pub create-options :
      (params : IoParams)
      → create params
        ≡ (check (check_required_parameters factory params) >>= λ _. done (options params))
  unfolding create options check_required_parameters factory para_def ioproxy.Base.Maps.contains
  create-options params = elim (check_required_lem factory.para_defs params) [
    | inl (passed, all) ↦ rw passed (
        rw (
          get_para_value-first params (para_def factory "remote_address") all.0,
          get_para_value-first params (para_def factory "remote_port") all.1.0,
          get_para_value-first params (para_def factory "reconnect") refl,
          get_para_value-first params (para_def factory "low_delay") refl,
          get_para_value-first params (para_def factory "keep_alive") refl,
        ))
    | inr (before, after, def, e, given, r, m, refused) ↦ rw refused
  ]
