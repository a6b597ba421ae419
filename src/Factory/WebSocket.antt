-- ===== src/Factory/WebSocket.antt =====
-- src/ioproxy/io/WebSocketIO.cpp: the options and the factory. `Address` is `QUrl`.
use ioproxy.Base.{◌≡◌, refl, String, Bool, true, false, inl, inr}
use ioproxy.Base.Variant.{bool, Conversions}
use ioproxy.Params
use ioproxy.Params.{
  ParaDef, IoParams, FactoryBase, default_def, empty_base, add_para_def, para_def,
  check_required_parameters, get_para_value,
}
use ioproxy.Factory.{Outcome, done, ◌>>=◌, ◌>>◌, check, value}
use ioproxy.Params.Spec.{option_value, get_para_value-first, check_required_lem}

pub record Options (Address : Type 0) : Type 0 where
  pub remote_url : Address
  pub reconnect : Bool
  pub binary : Bool

-- Each definition starts from the one before: a field that is not assigned keeps its value.
unfoldable pub factory : FactoryBase
unfolding add_para_def
factory =
    let def1 : ParaDef = record default_def {
      key = "remote_url";
      description = "URL of the remote host.";
      value_data_type = Params.string;
      required = true;
      multi = false;
    } in
    let base1 = add_para_def empty_base def1 in
    let def2 : ParaDef = record def1 {
      key = "reconnect";
      description = "If 'true' the socket automatically tries to reconnect.";
      value_data_type = Params.boolean;
      required = false;
      multi = false;
      default_value = bool true;
    } in
    let base2 = add_para_def base1 def2 in
    let def3 : ParaDef = record def2 {
      key = "binary";
      description = "Indicates whether the transfered data should be handled as binary message.";
      value_data_type = Params.boolean;
      required = false;
      multi = false;
      default_value = bool false;
    } in
    add_para_def base2 def3

module _ {Address : Type 0} (parse_address : String → Address) (c : Conversions) where
  open c use {to_string, to_bool}

  unfoldable pub create : IoParams → Outcome (Options Address)
  create params = do
    check (check_required_parameters factory params)
    url ← value (get_para_value params (para_def factory "remote_url") 0)
    again ← value (get_para_value params (para_def factory "reconnect") 0)
    as_binary ← value (get_para_value params (para_def factory "binary") 0)
    done (record {
      remote_url = parse_address (to_string url);
      reconnect = to_bool again;
      binary = to_bool as_binary;
    })

  -- The options that the parameters stand for: the value given last of each, or its default.
  unfoldable pub options : IoParams → Options Address
  options params = record {
    remote_url = parse_address (to_string (option_value params (para_def factory "remote_url")));
    reconnect = to_bool (option_value params (para_def factory "reconnect"));
    binary = to_bool (option_value params (para_def factory "binary"));
  }

  pub create-options :
      (params : IoParams)
      → create params
        ≡ (check (check_required_parameters factory params) >>= λ _. done (options params))
  unfolding create options check_required_parameters factory para_def ioproxy.Base.Maps.contains
  create-options params = elim (check_required_lem factory.para_defs params) [
    | inl (passed, all) ↦ rw passed (
        rw (
          get_para_value-first params (para_def factory "remote_url") all.0,
          get_para_value-first params (para_def factory "reconnect") refl,
          get_para_value-first params (para_def factory "binary") refl,
        ))
    | inr (before, after, def, e, given, r, m, refused) ↦ rw refused
  ]
