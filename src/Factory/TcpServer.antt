-- ===== src/Factory/TcpServer.antt =====
-- src/ioproxy/io/TcpServerIO.cpp: the options and the factory.
use ioproxy.Base.{ℕ, ◌*◌, ◌≡◌, refl, String, Bool, true, false, inl, inr}
use ioproxy.Base.Int.{ℤ, pos}
use ioproxy.Base.Variant.{text, bool, int, Conversions}
use ioproxy.Params
use ioproxy.Params.{
  ParaDef, IoParams, FactoryBase, default_def, empty_base, add_para_def, para_def,
  check_required_parameters, get_para_value,
}
use ioproxy.Factory.{Outcome, done, ◌>>=◌, ◌>>◌, check, value, to_uint16, to_int32}
use ioproxy.Params.Spec.{option_value, get_para_value-first, check_required_lem}

pub record Options (Address : Type 0) : Type 0 where
  pub bind_address : Address
  pub bind_port : ℕ
  pub max_connections : ℤ
  pub broadcast : Bool
  pub read_buffer_size : ℤ

-- Each definition starts from the one before: a field that is not assigned keeps its value.
unfoldable pub factory : FactoryBase
unfolding add_para_def
factory =
    let def1 : ParaDef = record default_def {
      key = "bind_address";
      description = "";
      value_data_type = Params.string;
      required = false;
      multi = false;
      default_value = text "0.0.0.0";
    } in
    let base1 = add_para_def empty_base def1 in
    let def2 : ParaDef = record def1 {
      key = "bind_port";
      description = "";
      value_data_type = Params.uint16;
      required = true;
      multi = false;
    } in
    let base2 = add_para_def base1 def2 in
    let def3 : ParaDef = record def2 {
      key = "max_connections";
      description = "";
      value_data_type = Params.int32;
      required = false;
      default_value = int (pos 1);
    } in
    let base3 = add_para_def base2 def3 in
    let def4 : ParaDef = record def3 {
      key = "broadcast";
      description = "";
      value_data_type = Params.boolean;
      required = false;
      default_value = bool false;
    } in
    let base4 = add_para_def base3 def4 in
    let def5 : ParaDef = record def4 {
      key = "read_buffer_size";
      description = "";
      value_data_type = Params.int64;
      required = false;
      default_value = int (pos (32 * 1024));
    } in
    add_para_def base4 def5

module _ {Address : Type 0} (parse_address : String → Address) (c : Conversions) where
  open c use {to_string, to_uint, to_bool, to_long_long}

  unfoldable pub create : IoParams → Outcome (Options Address)
  create params = do
    check (check_required_parameters factory params)
    address ← value (get_para_value params (para_def factory "bind_address") 0)
    port ← value (get_para_value params (para_def factory "bind_port") 0)
    limit ← value (get_para_value params (para_def factory "max_connections") 0)
    to_all ← value (get_para_value params (para_def factory "broadcast") 0)
    size ← value (get_para_value params (para_def factory "read_buffer_size") 0)
    done (record {
      bind_address = parse_address (to_string address);
      bind_port = to_uint16 (to_uint port);
      max_connections = to_int32 (to_uint limit);
      broadcast = to_bool to_all;
      read_buffer_size = to_long_long size;
    })

  -- The options that the parameters stand for: the value given last of each, or its default.
  unfoldable pub options : IoParams → Options Address
  options params = record {
    bind_address =
        parse_address (to_string (option_value params (para_def factory "bind_address")));
    bind_port = to_uint16 (to_uint (option_value params (para_def factory "bind_port")));
    max_connections = to_int32 (to_uint (option_value params (para_def factory "max_connections")));
    broadcast = to_bool (option_value params (para_def factory "broadcast"));
    read_buffer_size = to_long_long (option_value params (para_def factory "read_buffer_size"));
  }

  pub create-options :
      (params : IoParams)
      → create params
        ≡ (check (check_required_parameters factory params) >>= λ _. done (options params))
  unfolding create options check_required_parameters factory para_def ioproxy.Base.Maps.contains
  create-options params = elim (check_required_lem factory.para_defs params) [
    | inl (passed, all) ↦ rw passed (
        rw (
          get_para_value-first params (para_def factory "bind_address") refl,
          get_para_value-first params (para_def factory "bind_port") all.1.0,
          get_para_value-first params (para_def factory "max_connections") refl,
          get_para_value-first params (para_def factory "broadcast") refl,
          get_para_value-first params (para_def factory "read_buffer_size") refl,
        ))
    | inr (before, after, def, e, given, r, m, refused) ↦ rw refused
  ]
