-- ===== src/Factory/WebSocketServer.antt =====
-- src/ioproxy/io/WebSocketServerIO.cpp: the options and the factory.
use ioproxy.Base.{ℕ, ◌≡◌, refl, String, Bool, false}
use ioproxy.Base.Int.{pos}
use ioproxy.Base.Variant.{text, bool, int, Conversions}
use ioproxy.Params
use ioproxy.Params.{
  ParaDef, IoParams, FactoryBase, default_def, empty_base, add_para_def, para_def,
  check_required_parameters, get_para_value,
}
use ioproxy.Factory.{Outcome, done, ◌>>=◌, ◌>>◌, check, value, to_uint16}
use ioproxy.Params.Spec.{option_value, get_para_value-first}

pub record Options (Address : Type 0) : Type 0 where
  pub bind_address : Address
  pub bind_port : ℕ
  pub binary : Bool
  pub server_name : String

-- Each definition starts from the one before: a field that is not assigned keeps its value.
unfoldable pub factory : FactoryBase
unfolding add_para_def
factory =
    let def1 : ParaDef = record default_def {
      key = "bind_address";
      description = "IPv4/IPv6 address of local network interface to bind socket.";
      value_data_type = Params.string;
      required = false;
      multi = false;
      default_value = text "0.0.0.0";
    } in
    let base1 = add_para_def empty_base def1 in
    let def2 : ParaDef = record def1 {
      key = "bind_port";
      description =
          "Port number on which to listen for incoming packets. In multicast mode this is the group-port.";
      value_data_type = Params.int16;
      required = false;
      multi = false;
      default_value = int (pos 0);
    } in
    let base2 = add_para_def base1 def2 in
    let def3 : ParaDef = record def2 {
      key = "binary";
      description = "Indicates whether the transfered data should be handled as binary message.";
      value_data_type = Params.boolean;
      required = false;
      multi = false;
      default_value = bool false;
    } in
    let base3 = add_para_def base2 def3 in
    let def4 : ParaDef = record def3 {
      key = "server_name";
      description = "Name of the server.";
      value_data_type = Params.string;
      required = false;
      multi = false;
      default_value = text "IOProxy";
    } in
    add_para_def base3 def4

module _ {Address : Type 0} (parse_address : String → Address) (c : Conversions) where
  open c use {to_string, to_uint, to_bool}

  unfoldable pub create : IoParams → Outcome (Options Address)
  create params = do
    check (check_required_parameters factory params)
    address ← value (get_para_value params (para_def factory "bind_address") 0)
    port ← value (get_para_value params (para_def factory "bind_port") 0)
    as_binary ← value (get_para_value params (para_def factory "binary") 0)
    name ← value (get_para_value params (para_def factory "server_name") 0)
    done (record {
      bind_address = parse_address (to_string address);
      bind_port = to_uint16 (to_uint port);
      binary = to_bool as_binary;
      server_name = to_string name;
    })

  -- The options that the parameters stand for: the value given last of each, or its default.
  unfoldable pub options : IoParams → Options Address
  options params = record {
    bind_address =
        parse_address (to_string (option_value params (para_def factory "bind_address")));
    bind_port = to_uint16 (to_uint (option_value params (para_def factory "bind_port")));
    binary = to_bool (option_value params (para_def factory "binary"));
    server_name = to_string (option_value params (para_def factory "server_name"));
  }

  pub create-options : (params : IoParams) → create params ≡ done (options params)
  unfolding create options check_required_parameters factory para_def ioproxy.Base.Maps.contains
  create-options params = rw (
    get_para_value-first params (para_def factory "bind_address") refl,
    get_para_value-first params (para_def factory "bind_port") refl,
    get_para_value-first params (para_def factory "binary") refl,
    get_para_value-first params (para_def factory "server_name") refl,
  )
